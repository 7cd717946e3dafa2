-- ===== src/Hexdump/Bytes.antt =====
-- Which bytes are printed, and that the rounds are enough.
use mathlib.Core.List.{append_assoc}
use incoherent_beamformer.Common.{
  ℕ, zero, suc, ◌+◌, ◌-◌, ◌<◌, ◌≤◌, ◌≡◌, refl, ap, sym, ◌∙◌, ◌^◌, List, [], ◌∷◌, ◌++◌, ltb,
  Bool-cases, inl, inr, arith, ltb→lt,
}
use incoherent_beamformer.Hexdump.{
  Printed, address, hex, char, dot, tab, hexes, printable, chars, row, in_row, as_int, rows,
  hexdump,
}

-- The bytes that are printed as numbers, in order.
unfoldable pub hex_bytes : List Printed → List ℕ
hex_bytes [] = []
hex_bytes (address n ∷ rest) = hex_bytes rest
hex_bytes (hex n ∷ rest) = n ∷ hex_bytes rest
hex_bytes (char n ∷ rest) = hex_bytes rest
hex_bytes (dot ∷ rest) = hex_bytes rest
hex_bytes (tab ∷ rest) = hex_bytes rest

-- The `n` bytes of a buffer from `i` on.
unfoldable pub bytes_from : (ℕ → ℕ) → ℕ → ℕ → List ℕ
bytes_from buffer i zero = []
bytes_from buffer i (suc n) = buffer i ∷ bytes_from buffer (i + 1) n

hex_bytes-append : (a b : List Printed) → hex_bytes (a ++ b) ≡ hex_bytes a ++ hex_bytes b
unfolding hex_bytes
hex_bytes-append [] b = refl
hex_bytes-append (address n ∷ a) b = hex_bytes-append a b
hex_bytes-append (hex n ∷ a) b = ap (λ (l : List ℕ). n ∷ l) (hex_bytes-append a b)
hex_bytes-append (char n ∷ a) b = hex_bytes-append a b
hex_bytes-append (dot ∷ a) b = hex_bytes-append a b
hex_bytes-append (tab ∷ a) b = hex_bytes-append a b

module _ (buffer : ℕ → ℕ) where
  bytes_from-add :
      (i n m : ℕ)
      → bytes_from buffer i (n + m) ≡ bytes_from buffer i n ++ bytes_from buffer (i + n) m
  unfolding bytes_from
  bytes_from-add i zero m =
      let left : 0 + m ≡ m = omega arith in
      let right : i ≡ i + 0 = omega arith in
      ap (bytes_from buffer i) left ∙ ap (λ (j : ℕ). bytes_from buffer j m) right
  bytes_from-add i (suc n) m =
      let longer : suc n + m ≡ suc (n + m) = omega arith in
      ap (bytes_from buffer i) longer
      ∙ ap (λ (l : List ℕ). buffer i ∷ l)
          (bytes_from-add (i + 1) n m
            ∙ ap (λ (j : ℕ). bytes_from buffer (i + 1) n ++ bytes_from buffer j m) (omega arith))

  hex_bytes-hexes : (i n : ℕ) → hex_bytes (hexes buffer i n) ≡ bytes_from buffer i n
  unfolding hexes hex_bytes bytes_from
  hex_bytes-hexes i zero = refl
  hex_bytes-hexes i (suc n) = ap (λ (l : List ℕ). buffer i ∷ l) (hex_bytes-hexes (i + 1) n)

  hex_bytes-chars :
      (i n : ℕ) (rest : List Printed) → hex_bytes (chars buffer i n ++ rest) ≡ hex_bytes rest
  unfolding chars hex_bytes
  hex_bytes-chars i zero rest = refl
  hex_bytes-chars i (suc n) rest = elim (Bool-cases (printable (buffer i))) [
    | inl on ↦ simp on (hex_bytes-chars (i + 1) n rest)
    | inr off ↦ simp off (hex_bytes-chars (i + 1) n rest)
  ]

  hex_bytes-row :
      (width j : ℕ) (rest : List Printed)
      → hex_bytes (row buffer width j ++ rest) ≡ bytes_from buffer j width ++ hex_bytes rest
  unfolding hex_bytes
  hex_bytes-row width j rest =
      let last : List Printed = chars buffer j width ++ address (j + width) ∷ [] in
      ap hex_bytes (append_assoc (hexes buffer j width) (tab ∷ last) rest)
      ∙ hex_bytes-append (hexes buffer j width) (tab ∷ (last ++ rest))
      ∙ ap (λ (l : List ℕ). l ++ hex_bytes (last ++ rest)) (hex_bytes-hexes j width)
      ∙ ap (λ (l : List ℕ). bytes_from buffer j width ++ l)
          (ap hex_bytes (append_assoc (chars buffer j width) (address (j + width) ∷ []) rest)
            ∙ hex_bytes-chars j width (address (j + width) ∷ rest))

  -- Below 2 ^ 31 a row has its width, and the counter goes on by it.
  row_width : (j width : ℕ) → j + width < 2 ^ 31 → in_row j width ≡ width
  row_width j width small = ground arith

  row_next : (j width : ℕ) → j + width < 2 ^ 31 → as_int (j + width) ≡ j + width
  row_next j width small = ground arith

  -- The rows and what is printed after them, from `j` on; `left` is what is left there.
  rows_lem :
      (index width fuel j left : ℕ)
      → 0 < width
      → index ≤ 2 ^ 31
      → j + left ≡ index
      → left ≤ fuel
      → (hex_bytes (
            (rows buffer index width fuel j j).0
            ++ hexes buffer
                ((rows buffer index width fuel j j).1)
                (index - (rows buffer index width fuel j j).1))
          ≡ bytes_from buffer j left)
  unfolding rows
  rows_lem index width zero j left some_width small total enough =
      ap (λ (n : ℕ). hex_bytes (hexes buffer j n)) (omega arith) ∙ hex_bytes-hexes j left
  rows_lem index width (suc fuel) j left some_width small total enough =
      elim (Bool-cases (ltb j (index - width))) [
        | inr off ↦
            simp off
              (ap (λ (n : ℕ). hex_bytes (hexes buffer j n)) (omega arith) ∙ hex_bytes-hexes j left)
        | inl on ↦
            let room = ltb→lt j (index - width) on in
            let later =
              rows_lem index width fuel (j + width) (left - width) some_width small (omega arith)
                (omega arith) in
            let width_lem = row_width j width (omega arith) in
            let next_lem = row_next j width (omega arith) in
            let split = bytes_from-add j width (left - width) in
            simp (on, width_lem, next_lem)
              (ap hex_bytes (append_assoc (row buffer width j) _ _)
                ∙ hex_bytes-row width j _
                ∙ ap (λ (l : List ℕ). bytes_from buffer j width ++ l) later
                ∙ sym split
                ∙ ap (bytes_from buffer j) (omega arith))
      ]

  -- With a positive width, the bytes that are printed as numbers are the first `index` bytes of the
  -- buffer, at most 2 ^ 31 of them, each once and in order, however they fall into rows.
  pub hexdump_lem :
      (index width : ℕ)
      → 0 < width
      → index ≤ 2 ^ 31
      → hex_bytes (hexdump buffer index width) ≡ bytes_from buffer 0 index
  unfolding hexdump hex_bytes
  hexdump_lem index width some_width small = elim (Bool-cases (ltb width index)) [
    | inl on ↦
        simp on (rows_lem index width index 0 index some_width small (omega arith) (omega arith))
    | inr off ↦ simp off (hex_bytes-hexes 0 index)
  ]
