-- ===== src/Lib.antt =====
-- Verification of the incoherent beamformer: a receiver of SPEAD heaps that writes DADA blocks.
--
-- The receiver (spead_callback/to_buffer.c). Worker processes call `spead_api_callback` for each
-- heap that arrives. The callback works out the heap's place from its timestamp, copies it into an
-- order buffer in shared memory, and sends signals to the process of the DADA block: SIGUSR1 when a
-- segment of the order buffer can be moved, SIGUSR2 before it when a block is full. That process,
-- `dadaThread`, moves segments by `to_dada_buffer`, closes full blocks and writes their timestamps.
--
-- Settings models `get_settings` and its globals; Settings/Geometry has the sizes.
-- OrderBuffer models `write_to_order_buffer` and `to_dada_buffer`; OrderBuffer/Bounds keeps them in
-- range, and OrderBuffer/Reorder relates them to the order of heaps that they are to produce.
-- Callback models `spead_api_callback`, one function for each of its parts; its children are about
-- the timestamp, the heap's place, the steps of the shared data, their invariant and totality.
-- DadaThread models `dadaThread`; DadaThread/Headers is about block timestamps.
-- Pipeline has the workers and the process of the block together, and Pipeline/InStep what both keep:
-- Pipeline/Interleaved has several workers and that process as a step relation, with pending signals
-- merged; Pipeline/Ledger is about the signals that are lost, Pipeline/Taking about taking them, and
-- Pipeline/Paced about runs in which all are taken before the next heap.
-- Common has memory blocks with memcpy and memset, machine words and integers, and lists.
--
-- The child beamformer (dada_processing/dada_beamform.c and child_beam.c). `consume` reads blocks of
-- two DADA buffers, delays the one that begins later so that both are aligned, accumulates products
-- of the samples over 256 spectra and adds those of both streams.
--
-- Accumulate models `accumulate`, with a child for the loops' body, the loops and the whole.
-- ChildBeam models `beamform`, `accumulate_and_beamform` and the buffers of `consume`'s loop;
-- ChildBeam/Sum is about the sums, ChildBeam/Ahead about the bytes between the streams and
-- ChildBeam/Delay about the delay of one of them. ChildBeam/Drain is the loop that skips waiting blocks,
-- and ChildBeam/Consume the loop that aligns and hands heaps over; ChildBeam/Consume/Sent relates it to
-- the rounds of ChildBeam, ChildBeam/Consume/Aligned is about the whole, ChildBeam/Consume/Text about the
-- text of a heap's description. The heaps are sent later by another thread, from memory that the next
-- round writes again: only what they point at when they are handed over is modelled.
--
-- The pulse detector (spead_callback/pps_test.c), another module for the SPEAD receiver. Its callback
-- looks for spectra whose power reaches a threshold and writes the timestamps of their heaps.
-- PulseDetector models `check_pulse` and the callback; its children are about the power, the scan of
-- a heap, the timestamp and a whole call. PulseDetector/Module has its setup, many calls and its end,
-- and PulseDetector/Module/Naming is about who names the files.
--
-- The file writer (spead_callback/toFile.c), a third module for the SPEAD receiver. Its callback writes
-- the items of a group to a file, with markers if they are asked for.
-- FileWriter models `write_data` and the callback; FileWriter/Layout is about the items of a group,
-- FileWriter/Slots about where a call writes, and FileWriter/Calls about the lock. FileWriter/Begin has
-- its setup and its end, and FileWriter/Begin/First is about the first group.
--
-- The life cycle of the receiver (spead_callback/to_buffer.c). `spead_api_setup` creates the shared data
-- and the buffers, and its first caller becomes the process of the DADA block; `spead_api_destroy`
-- deletes them.
-- LifeCycle models both; LifeCycle/Begin is about what setup leaves, LifeCycle/End about destroying it.
-- PacketBits models `set_bit`, `get_bit` and `zero_dropped_packets`; PacketBits/Words is about one word,
-- PacketBits/Marks about the array, PacketBits/Zeroing about what is zeroed and counted.
-- BlockHeader models the headers of DADA blocks, as written here and as read by
-- dada_processing/dada_beamform.c; BlockHeader/Fields is about the first header.
--
-- The separated receiver (spead_callback/to_buffer_separated.c), which tells another process to move
-- segments, by `to_dada_buffer` of Dada_writer/dada_simple_writer_separated.c.
-- Separated models its settings and callback, SeparatedWriter the other process; Separated/Placed is
-- about a heap's place, Separated/Segments about when a segment is moved, and SeparatedWriter/Marks
-- about the marks that are taken off. Separated/Begin has its setup and its end.
--
-- The head node (dada_processing/beamform_head_node.cpp) adds the beams of the children up in a ring.
-- HeadNode models `bf_align`, HeadNode/Ring is about the places that it adds to. HeadNode/Sync has the
-- loops in which the threads agree on a time as a step relation, with the test and the assignment of
-- `tsync` as two steps; HeadNode/Sync/Heard is about any order of them, HeadNode/Sync/Earliest about
-- turns. HeadNode/Capture models the loops of `capture_spead` on the heaps of a stream;
-- HeadNode/Capture/Added is about which heaps are added, HeadNode/Capture/Place about their places.
-- HeadNode/Reader models what a round of `run` reads, HeadNode/Reader/Each many rounds; HeadNode/Output
-- models what it writes at its end, HeadNode/Output/Ends many of those.
--
-- The averaging beamformer (spead_callback/ave_beamformer.c), one more module for the SPEAD receiver,
-- adds heaps up and writes the sums to a file.
-- AverageBeam models its setup and its callback; AverageBeam/Sums is about the sums, and
-- AverageBeam/Writes about the places of the writes.
--
-- Writing to DADA blocks for tests. SimpleWriter models Dada_writer/dada_simple_writer.c, with a child
-- about its header and blocks. BufferTool models dada_testing/dada_buffer.c, which creates a ring of
-- blocks and writes or shows test data, by its options; BufferTool/Produce has the test data,
-- BufferTool/Main the display and the choice by options, BufferTool/Waiting is about its wait for the
-- right to write, and BufferTool/Created about the ring it creates and what becomes of its loops. Hexdump models `hexdump`, Hexdump/Bytes which bytes it prints.
--
-- Fixture has small settings for the tests.
--
-- Conventions. A word is its bit pattern, a native number, with the wrap written out. Memory is a
-- size and a function from places to cells, and an access out of range is `none`, as is a null
-- pointer or a division by zero. Loops recur on the rounds left; but the wait for the
-- right to write, the skipping of waiting blocks and the rows of a display (of at most 2 ^ 31 bytes) have
-- fuel, with theorems that enough is given, and the digits of a number have the 20 that 64 bits need at most.
-- Parameters: getenv and atoi, the item group of the SPEAD library, the blocks that PSRDADA opens,
-- the descriptors that `open` returns, what is done with floats, a DADA header and a DADA ring with
-- their functions, sscanf, and what the pointers of a loop in child_beam.c hold after its first round,
-- where C leaves it open.
-- Not modelled: printing, clocks, semaphores (but for the results of semop, in PacketBits), the
-- locks of the SPEAD module (a callback is one
-- step; FileWriter, LifeCycle and Separated have them),
-- `run_ringbuffered` of the head node, and the copies of PSRDADA and spead2 in the repository.
pub mod Common
pub mod Settings
pub mod OrderBuffer
pub mod Callback
pub mod DadaThread
pub mod Pipeline
pub mod LifeCycle
pub mod PacketBits
pub mod BlockHeader
pub mod Separated
pub mod SeparatedWriter
pub mod SimpleWriter
pub mod Hexdump
pub mod BufferTool
pub mod Accumulate
pub mod ChildBeam
pub mod PulseDetector
pub mod FileWriter
pub mod HeadNode
pub mod AverageBeam
pub mod Fixture
