-- ===== src/Pipeline/Taking.antt =====
-- The process of the block can always take what is pending.
use mathlib.Core.List.{append-nil}
use incoherent_beamformer.Common.{
  ℕ, ◌+◌, ◌%◌, ◌^◌, ◌≤◌, ◌<◌, ◌≡◌, ◌≢◌, refl, sym, ap, ◌∙◌, inl, inr, false, Bool-cases,
  Option-cases, Option, none, some, List, [], ◌∷◌, ◌++◌, Memory, arith, copied, filled, get_elem?,
  if◌then◌else◌, ◌>>=◌,
}
use incoherent_beamformer.Settings.{Settings}
use incoherent_beamformer.OrderBuffer.{Writer, to_dada_buffer}
use incoherent_beamformer.OrderBuffer.Bounds.{to_dada_buffer_lem}
use incoherent_beamformer.Callback.{SnapShot, sigusr1, sigusr2}
use incoherent_beamformer.DadaThread.{
  Dada, Event, closed, header, running, open_block, change_block, handle,
}
use incoherent_beamformer.Pipeline.{with_order}
use incoherent_beamformer.Pipeline.Interleaved.{World, segment, block, Reach, here, next}

-- The next segment has its place in the block and in the order buffer, and the next timestamp is in the
-- ring.
pub record IsReady (s : Settings) (w : World) (ss : SnapShot) (area : Memory) (place ts : ℕ)
    : Type 0 where
  pub shared : w.system.shared ≡ some ss
  pub in_hand : w.dada.writer.buffer ≡ some area
  pub at : w.dada.writer.order_buffer_tail % s.ob_size ≡ place
  pub some_size : 0 < s.ob_size
  pub small : place < 2 ^ 31
  pub room : w.dada.writer.order_buffer_tail + s.ob_segment ≤ s.dada_buf_size
  pub below : w.dada.writer.order_buffer_tail < s.dada_buf_size
  pub word : s.dada_buf_size < 2 ^ 64
  pub wide : s.dada_buf_size ≤ area.size
  pub fits : place + s.ob_segment ≤ w.system.order.size
  pub stamp : get_elem? ss.prev_prior_ts w.dada.ppts_pos ≡ some ts

-- The open block with the segment in it, if SIGUSR1 is pending, and so on.
abbrev pub area_after : Settings → World → Memory → ℕ → Memory
area_after s w area place =
    if w.usr1
    then copied area w.dada.writer.order_buffer_tail w.system.order place s.ob_segment
    else area

abbrev pub order_after : Settings → World → ℕ → Memory
order_after s w place =
    if w.usr1 then filled w.system.order place 0 s.ob_segment else w.system.order

abbrev pub tail_after : Settings → World → ℕ
tail_after s w =
    if w.usr1
    then (w.dada.writer.order_buffer_tail + s.ob_segment) % s.dada_buf_size
    else w.dada.writer.order_buffer_tail

-- What closing the open block adds to the calls of PSRDADA, if SIGUSR2 is pending.
abbrev pub closing : Settings → World → Memory → ℕ → List Event
closing s w area ts = if w.usr2 then closed (some area) s.dada_buf_size ∷ header ts ∷ [] else []

-- SIGUSR1 is taken, and the rest of what a later step reads is as it was.
record Settled (s : Settings) (w : World) (area : Memory) (place : ℕ) (w' : World) : Type 0 where
  pub usr1 : w'.usr1 ≡ false
  pub usr2 : w'.usr2 ≡ w.usr2
  pub shared : w'.system.shared ≡ w.system.shared
  pub order : w'.system.order ≡ order_after s w place
  pub tail : w'.dada.writer.order_buffer_tail ≡ tail_after s w
  pub in_hand : w'.dada.writer.buffer ≡ some (area_after s w area place)
  pub events : w'.dada.events ≡ w.dada.events
  pub ppts_pos : w'.dada.ppts_pos ≡ w.dada.ppts_pos
  pub opened : w'.dada.opened ≡ w.dada.opened

-- Both signals are taken.
pub record IsTaken (s : Settings) (blocks : ℕ → Option Memory) (w : World) (area : Memory)
    (place ts : ℕ) (w' : World) : Type 0 where
  pub usr1 : w'.usr1 ≡ false
  pub usr2 : w'.usr2 ≡ false
  pub shared : w'.system.shared ≡ w.system.shared
  pub order : w'.system.order ≡ order_after s w place
  pub tail : w'.dada.writer.order_buffer_tail ≡ tail_after s w
  pub buffer :
      w'.dada.writer.buffer
      ≡ (if w.usr2 then blocks w.dada.opened else some (area_after s w area place))
  pub events : w'.dada.events ≡ w.dada.events ++ closing s w (area_after s w area place) ts
  pub ppts_pos : w'.dada.ppts_pos ≡ (if w.usr2 then (w.dada.ppts_pos + 1) % 10 else w.dada.ppts_pos)

module _ (s : Settings) (blocks : ℕ → Option Memory) where
  segment_handled :
      (w : World) (ss : SnapShot) (area : Memory) (place ts : ℕ)
      → IsReady s w ss area place ts
      → let tail = w.dada.writer.order_buffer_tail in
        let writer : Writer = record {
          buffer = some (copied area tail w.system.order place s.ob_segment);
          order_buffer = some (filled w.system.order place 0 s.ob_segment);
          order_buffer_tail = (tail + s.ob_segment) % s.dada_buf_size;
        } in
        handle s blocks ss sigusr1 (with_order w.system.order w.dada)
        ≡ some (record (w.dada) { writer = writer }, running)
  unfolding handle
  segment_handled w ss area place ts ready =
      let tail = w.dada.writer.order_buffer_tail in
      let moved =
        to_dada_buffer_lem s area w.system.order tail place ready.at ready.some_size ready.small
          ready.room ready.below ready.word ready.wide ready.fits in
      let writer : Option Memory → Writer =
        λ b. record { buffer = b; order_buffer = some w.system.order; order_buffer_tail = tail } in
      let run = ap (λ b. to_dada_buffer s (writer b)) ready.in_hand ∙ moved in
      ap (λ r. r >>= λ x. some (record (w.dada) { writer = x }, running)) run

  segment_taken :
      (w : World) (ss : SnapShot) (area : Memory) (place ts : ℕ)
      → IsReady s w ss area place ts
      → (w' : World) × Reach s blocks w w' × Settled s w area place w'
  segment_taken w ss area place ts ready = elim (Bool-cases w.usr1) [
    | inl on ↦
        let handled = segment_handled w ss area place ts ready in
        (
          _,
          next here (segment w ss _ _ on ready.shared handled refl),
          record {
            usr1 = refl;
            usr2 = refl;
            shared = refl;
            order = rw on refl;
            tail = rw on refl;
            in_hand = rw on refl;
            events = refl;
            ppts_pos = refl;
            opened = refl;
          },
        )
    | inr off ↦ (
      w,
      here,
      record {
        usr1 = off;
        usr2 = refl;
        shared = refl;
        order = rw off refl;
        tail = rw off refl;
        in_hand = rw off (ready.in_hand);
        events = refl;
        ppts_pos = refl;
        opened = refl;
      },
    )
  ]

  block_handled :
      (ss : SnapShot) (d : Dada) (ts : ℕ)
      → get_elem? ss.prev_prior_ts d.ppts_pos ≡ some ts
      → blocks d.opened ≢ none
      → handle s blocks ss sigusr2 d
        ≡ some (
          record d {
            writer = record (d.writer) { buffer = blocks d.opened };
            opened = d.opened + 1;
            ppts_pos = (d.ppts_pos + 1) % 10;
            events = d.events ++ closed d.writer.buffer s.dada_buf_size ∷ header ts ∷ [];
          },
          running,
        )
  unfolding handle change_block open_block
  block_handled ss d ts found opens = elim (Option-cases (blocks d.opened)) [
    | inl failed ↦ absurd (opens failed)
    | inr (next_area, opened) ↦ ground arith
  ]

  -- From any state in which the process of the block is ready for the next segment, and PSRDADA
  -- opens one more block, it can take every pending signal: some steps reach a state with none
  -- pending. If SIGUSR1 was pending, the segment at the tail has then been copied to its place in the
  -- block and zeroed in the order buffer, and the tail is a segment on. If SIGUSR2 was pending, that
  -- block has been closed with the timestamp in the ring, the next one is open, and the place in the
  -- ring is one on. The shared data of the workers is the same.
  pub pending-IsTaken :
      (w : World) (ss : SnapShot) (area : Memory) (place ts : ℕ)
      → IsReady s w ss area place ts
      → blocks w.dada.opened ≢ none
      → (w' : World) × Reach s blocks w w' × IsTaken s blocks w area place ts w'
  pending-IsTaken w ss area place ts ready opens =
      let (w₁, steps, settled) = segment_taken w ss area place ts ready in
      elim (Bool-cases w.usr2) [
        | inr off ↦ (
          w₁,
          steps,
          record {
            usr1 = settled.usr1;
            usr2 = settled.usr2 ∙ off;
            shared = settled.shared;
            order = settled.order;
            tail = settled.tail;
            buffer = rw off (settled.in_hand);
            events = rw off (settled.events ∙ sym (append-nil w.dada.events));
            ppts_pos = rw off (settled.ppts_pos);
          },
        )
        | inl on ↦
            let stamp₁ : get_elem? ss.prev_prior_ts w₁.dada.ppts_pos ≡ some ts =
              rw (settled.ppts_pos) (ready.stamp) in
            let opens₁ : blocks w₁.dada.opened ≢ none = rw (settled.opened) opens in
            let handled = block_handled ss (with_order w₁.system.order w₁.dada) ts stamp₁ opens₁ in
            (
              _,
              next steps
                  (block w₁ ss _ (settled.usr2 ∙ on) (settled.shared ∙ ready.shared) handled),
              record {
                usr1 = settled.usr1;
                usr2 = refl;
                shared = settled.shared;
                order = settled.order;
                tail = settled.tail;
                buffer = rw on (ap blocks settled.opened);
                events = rw on (
                    ap
                      (λ (b : Option Memory).
                        w₁.dada.events ++ closed b s.dada_buf_size ∷ header ts ∷ [])
                      settled.in_hand
                    ∙ ap
                        (λ (es : List Event).
                          es
                          ++ closed (some (area_after s w area place)) s.dada_buf_size
                            ∷ header ts
                            ∷ [])
                        settled.events);
                ppts_pos = rw on (ap (λ (n : ℕ). (n + 1) % 10) settled.ppts_pos);
              },
            )
      ]
