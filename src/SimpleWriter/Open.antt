-- ===== src/SimpleWriter/Open.antt =====
-- What the example writer leaves in the blocks and in its header.
use Prim.Native.String.{String}
use incoherent_beamformer.Common.{
  ℕ, ◌≤◌, ◌≡◌, refl, ap, ◌∙◌, Bool, true, false, none, some, List, [], ◌∷◌, ℤ, pos, negsuc, arith,
  Memory, memcpy_lem, ltb, if◌then◌else◌, Bool-cases, inl, inr, copied,
}
use incoherent_beamformer.BlockHeader.{HeaderValue, AsciiHeader}
use incoherent_beamformer.BlockHeader.Fields.{IsMap, listed}
use incoherent_beamformer.SimpleWriter.{
  Hdu, simple_fields, set_until_failure, simple_writer_open, simple_writer_write,
}

abbrev pub is_error : ℤ → Bool
is_error (pos n) = false
is_error (negsuc n) = true

-- Where no value fails, each key has the value that is listed for it.
set_until_failure_lem {ℓ} :
    {H : Type ℓ} (a : AsciiHeader H) (m : IsMap a) (fs : List (String × HeaderValue)) (h : H)
    (key : String)
    → (set_until_failure a fs h).0 ≡ true
    → a.get ((set_until_failure a fs h).1) key ≡ listed fs key (a.get h key)
unfolding set_until_failure
set_until_failure_lem a m [] h key ok = refl
set_until_failure_lem a m ((k, value) ∷ rest) h key ok = elim (Bool-cases ((a.set h k value).0)) [
  | inl set_ok ↦ rw set_ok (
      set_until_failure_lem a m rest ((a.set h k value).1) key (rw set_ok at ok)
      ∙ ap (listed rest key) (m h k value key set_ok))
  | inr failed ↦ let never = rw failed at ok in absurd (ground arith)
]

-- From an `hdu` with a header of its own, and a next header block: the call returns 0 with all
-- values in the header of the `hdu`, and marks the block filled just as it was found, since no value
-- went to it; or it returns -1 and marks no block. The header must keep values by their keys.
pub simple_writer_open-simple_fields {ℓ} :
    {H : Type ℓ} (a : AsciiHeader H) (tsamp : ℕ) (hdu : Hdu H) (header block : H)
    → IsMap a
    → hdu.header ≡ some header
    → hdu.next_header ≡ some block
    → (hdu' : Hdu H) × (r : ℤ) × (h' : H) × (simple_writer_open a tsamp hdu ≡ some (hdu', r))
      × (hdu'.filled ≡ (if is_error r then hdu.filled else (block, hdu.header_size) ∷ hdu.filled))
      × (hdu'.header ≡ some h')
      × ((key : String)
          → (if is_error r then none else a.get h' key)
            ≡ (if is_error r then none else listed (simple_fields tsamp) key (a.get header key)))
unfolding simple_writer_open
simple_writer_open-simple_fields a tsamp hdu header block m own next =
    let h' = (set_until_failure a (simple_fields tsamp) header).1 in
    let with_header = record hdu { header = some h' } in
    elim (Bool-cases ((set_until_failure a (simple_fields tsamp) header).0)) [
      | inl ok ↦ (
        record with_header { filled = (block, hdu.header_size) ∷ hdu.filled },
        pos 0,
        h',
        rw (next, own, ok) refl,
        refl,
        refl,
        λ key. set_until_failure_lem a m (simple_fields tsamp) header key ok,
      )
      | inr failed ↦
          (with_header, negsuc 0, h', rw (next, own, failed) refl, refl, refl, λ key. refl)
    ]

-- A block with room takes the input's first `block_size` bytes and keeps its others; a block that
-- could not be opened gives -1.
pub simple_writer_write_lem :
    (block input : Memory) (block_size : ℕ)
    → block_size ≤ block.size
    → block_size ≤ input.size
    → (block' : Memory) × (simple_writer_write (some block) input block_size
        ≡ some (some block', pos 0))
      × ((i : ℕ) → block'.cell i ≡ (if ltb i block_size then input.cell i else block.cell i))
      × (simple_writer_write none input block_size ≡ some (none, negsuc 0))
unfolding simple_writer_write
simple_writer_write_lem block input block_size h k = (
  copied block 0 input 0 block_size,
  rw (memcpy_lem block 0 input 0 block_size (omega arith) (omega arith)) refl,
  λ i. ground arith,
  refl,
)
