-- ===== src/RowFormat/RoundTrip.antt =====
-- What `row_extract_column` of src/query/row_format.c finds in a row that was laid out column by column, as
-- the join of src/query/query_builder.c does it.
use mathlib.Core.List.{append_assoc}
use kanbudb.Prelude.{
  ℕ, zero, suc, ◌+◌, ◌^◌, ◌≤◌, ◌<◌, ◌≡◌, refl, sym, ap, ◌∙◌, ◌⊎◌, inl, inr, true, false, Option,
  none, some, List, [], ◌∷◌, ◌++◌, map, arith, ltb, leb, ◌==◌, if◌then◌else◌, Bool-cases, leb→le,
  le→leb, lt→ltb, le→ltb_false, length, take, drop, All, length-append, take-append, drop-append,
  Bytes, le_bytes, of_le, length-le_bytes, of_le-le_bytes,
}
use kanbudb.RowFormat.{
  ColType, fixed_size, max_cols, row_schema_init, Extracted, var_len, column_at, extract_from,
  row_extract_column, column_bytes,
}

-- A column as a row holds it: a length stands before one of varying size.
abbrev pub column_layout : ColType × Bytes → Bytes
column_layout (t, v) = if fixed_size t == 0 then le_bytes 4 (length v) ++ v else v

abbrev pub row_layout : List (ColType × Bytes) → Bytes
row_layout [] = []
row_layout (c ∷ cols) = column_layout c ++ row_layout cols

abbrev pub SizeFits : ColType × Bytes → Type 0
SizeFits (t, v) = (fixed_size t ≡ 0) ⊎ (fixed_size t ≡ length v)

abbrev pub types_of : List (ColType × Bytes) → List ColType
types_of [] = []
types_of (c ∷ cols) = c.0 ∷ types_of cols

abbrev pub value_at : List (ColType × Bytes) → ℕ → Option Bytes
value_at [] i = none
value_at (c ∷ cols) zero = some c.1
value_at (c ∷ cols) (suc i) = value_at cols i

-- The bytes of a field that stands between two others.
take-field : (pre v post : Bytes) → take (length v) (drop (length pre) (pre ++ (v ++ post))) ≡ v
take-field pre v post = ap (take (length v)) (drop-append pre (v ++ post)) ∙ take-append v post

var_len-layout :
    (pre v post : Bytes)
    → length v < 2 ^ 32
    → var_len (pre ++ ((le_bytes 4 (length v) ++ v) ++ post)) (length pre) ≡ length v
unfolding le_bytes
var_len-layout pre v post h =
    ap (λ r. of_le (take 4 r)) (drop-append pre ((le_bytes 4 (length v) ++ v) ++ post))
    ∙ of_le-le_bytes 4 (length v) h

-- A column that is there answers with its value.
column_bytes-column :
    (row pre v post : Bytes)
    → row ≡ pre ++ (v ++ post)
    → column_bytes row (Extracted.column (length pre) (length v)) ≡ some v
column_bytes-column row pre v post h =
    let fits : leb (length pre + length v) (length row) ≡ true =
      le→leb _ _
        (omega (arith, ap length h, length-append pre (v ++ post), length-append v post)) in
    rw (fits, column_bytes)
      (ap some (ap (λ r. take (length v) (drop (length pre) r)) h ∙ take-field pre v post))

module _ (t : ColType) (v pre post row : Bytes)
    (whole : row ≡ pre ++ (column_layout (t, v) ++ post)) (small : length row < 2 ^ 31) where
  -- A column of fixed size.
  column_at-fixed :
      (fixed_size t == 0) ≡ false
      → fixed_size t ≡ length v
      → column_bytes row (column_at row (length pre) (fixed_size t)) ≡ some v
  column_at-fixed z f =
      let e : row ≡ pre ++ (v ++ post) = whole ∙ rw (z, column_layout) refl in
      let some_size : ltb 0 (fixed_size t) ≡ true = ground (arith, z) in
      let fits : ltb (length row) (length pre + fixed_size t) ≡ false =
        le→ltb_false _ _
          (omega (arith, f, ap length e, length-append pre (v ++ post), length-append v post)) in
      rw (some_size, column_at) (rw fits (rw f (column_bytes-column row pre v post e)))

  var_whole : (fixed_size t == 0) ≡ true → row ≡ pre ++ ((le_bytes 4 (length v) ++ v) ++ post)
  var_whole z = whole ∙ rw (z, column_layout) refl

  length-var : (fixed_size t == 0) ≡ true → length row ≡ length pre + 4 + length v + length post
  length-var z = omega (
    arith,
    ap length (var_whole z),
    length-append pre ((le_bytes 4 (length v) ++ v) ++ post),
    length-append (le_bytes 4 (length v) ++ v) post,
    length-append (le_bytes 4 (length v)) v,
    length-le_bytes 4 (length v),
  )

  var_len-row : (fixed_size t == 0) ≡ true → var_len row (length pre) ≡ length v
  var_len-row z =
      ap (λ r. var_len r (length pre)) (var_whole z)
      ∙ var_len-layout pre v post (omega (arith, small, length-var z))

  -- A column of varying size.
  column_at-var :
      (fixed_size t == 0) ≡ true
      → column_bytes row (column_at row (length pre) (fixed_size t)) ≡ some v
  column_at-var z =
      let no_size : ltb 0 (fixed_size t) ≡ false = ground (arith, z) in
      let fits : ltb (length row) (length pre + 4) ≡ false =
        le→ltb_false _ _ (omega (arith, length-var z)) in
      let le : Bytes = le_bytes 4 (length v) in
      let e : row ≡ (pre ++ le) ++ (v ++ post) =
        var_whole z
        ∙ (ap (λ r. pre ++ r) (append_assoc le v post) ∙ sym (append_assoc pre le (v ++ post))) in
      let off : length pre + 4 ≡ length (pre ++ le) =
        omega (arith, length-append pre le, length-le_bytes 4 (length v)) in
      rw (no_size, column_at)
        (rw fits (
          rw (var_len-row z) (
            ap (λ o. column_bytes row (Extracted.column o (length v))) off
            ∙ column_bytes-column row (pre ++ le) v post e)))

  -- The loop goes on behind the column.
  extract_from-next :
      (sizes : List ℕ) (col : ℕ)
      → SizeFits (t, v)
      → extract_from (fixed_size t ∷ sizes) (suc col) row (length pre)
        ≡ extract_from sizes col row (length (pre ++ column_layout (t, v)))
  unfolding extract_from
  extract_from-next sizes col f = elim (Bool-cases (fixed_size t == 0)) [
    | inr z ↦
        let some_size : ltb 0 (fixed_size t) ≡ true = ground (arith, z) in
        let e : length (pre ++ column_layout (t, v)) ≡ length pre + length v =
          rw (z, column_layout) (length-append pre v) in
        rw some_size (ap (extract_from sizes col row) (ground (arith, e, f, z)))
    | inl z ↦
        let no_size : ltb 0 (fixed_size t) ≡ false = ground (arith, z) in
        let fits : ltb (length row) (length pre + 4) ≡ false =
          le→ltb_false _ _ (omega (arith, length-var z)) in
        let short : ltb (length v) (2 ^ 31) ≡ true =
          lt→ltb _ _ (omega (arith, small, length-var z)) in
        let sum : ltb (length pre + 4 + length v) (2 ^ 31) ≡ true =
          lt→ltb _ _ (omega (arith, small, length-var z)) in
        let e : length (pre ++ column_layout (t, v)) ≡ length pre + 4 + length v =
          rw (z, column_layout)
            (omega (
              arith,
              length-append pre (le_bytes 4 (length v) ++ v),
              length-append (le_bytes 4 (length v)) v,
              length-le_bytes 4 (length v),
            )) in
        rw no_size (
          rw fits
            (rw (var_len-row z) (rw short (rw sum (ap (extract_from sizes col row) (sym e))))))
  ]

extract_value :
    (cols : List (ColType × Bytes)) (i : ℕ) (pre row : Bytes)
    → row ≡ pre ++ row_layout cols
    → length row < 2 ^ 31
    → All SizeFits cols
    → column_bytes row (extract_from (map fixed_size (types_of cols)) i row (length pre))
      ≡ value_at cols i
unfolding extract_from
extract_value [] i pre row h l f = refl
extract_value ((t, v) ∷ cols) zero pre row h l f = elim (Bool-cases (fixed_size t == 0)) [
  | inl z ↦ column_at-var t v pre (row_layout cols) row h l z
  | inr z ↦ column_at-fixed t v pre (row_layout cols) row h l z (ground (arith, f.0, z))
]
extract_value ((t, v) ∷ cols) (suc i) pre row h l f =
    ap (column_bytes row)
      (extract_from-next t v pre (row_layout cols) row h l (map fixed_size (types_of cols)) i f.0)
    ∙ extract_value cols i (pre ++ column_layout (t, v)) row
        (h ∙ sym (append_assoc pre (column_layout (t, v)) (row_layout cols))) l f.1

length-types_of : (cols : List (ColType × Bytes)) → length (types_of cols) ≡ length cols
length-types_of [] = refl
length-types_of (c ∷ cols) = ap suc (length-types_of cols)

value_at_past : (cols : List (ColType × Bytes)) (i : ℕ) → length cols ≤ i → value_at cols i ≡ none
value_at_past [] i h = refl
value_at_past (c ∷ cols) zero h = absurd (omega arith)
value_at_past (c ∷ cols) (suc i) h = value_at_past cols i (omega arith)

take_all : (n : ℕ) (types : List ColType) → length types ≤ n → take n types ≡ types
take_all zero [] h = refl
take_all (suc n) [] h = refl
take_all zero (t ∷ types) h = absurd (omega arith)
take_all (suc n) (t ∷ types) h = ap (λ r. t ∷ r) (take_all n types (omega arith))

-- A row of at most 64 columns and less than 2 ^ 31 bytes, laid out column by column: under the number of a
-- column `row_extract_column` finds exactly the bytes of its value, and under any other
-- number nothing.
pub row_extract_column-row_layout :
    (cols : List (ColType × Bytes)) (i : ℕ)
    → All SizeFits cols
    → length cols ≤ max_cols
    → length (row_layout cols) < 2 ^ 31
    → column_bytes
        (row_layout cols)
        (row_extract_column (row_schema_init (types_of cols)) i (row_layout cols))
      ≡ value_at cols i
unfolding row_extract_column row_schema_init
row_extract_column-row_layout cols i f few l = elim (Bool-cases (leb (length (types_of cols)) i)) [
  | inl past ↦
      rw past (sym (value_at_past cols i (omega (arith, leb→le _ _ past, length-types_of cols))))
  | inr here ↦ rw (here) (
      rw (take_all max_cols (types_of cols) (omega (arith, few, length-types_of cols)))
        (extract_value cols i [] (row_layout cols) refl l f))
]
