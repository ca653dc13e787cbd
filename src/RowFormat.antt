-- ===== src/RowFormat.antt =====
-- Rows and their columns, src/query/row_format.c. A row is the list of its bytes; numbers of the type
-- `i32` that stay in range are natural numbers.
pub mod RoundTrip
use kanbudb.Prelude.{
  ℕ, zero, suc, ◌+◌, ◌-◌, ◌^◌, Option, none, some, List, [], ◌∷◌, map, ltb, leb, ◌==◌,
  if◌then◌else◌, length, take, drop, Bytes, of_le,
}

-- `kanbudb_col_type_t`
pub data ColType : Type 0 where
  int32 int64 float double string blob bool : ColType

-- `row_schema_t`; -1 among the offsets is `none`.
pub record Schema : Type 0 where
  pub num_cols : ℕ
  pub fixed_offsets : List (Option ℕ)
  pub fixed_sizes : List ℕ

-- The size of a column in every row, 0 if it varies.
abbrev pub fixed_size : ColType → ℕ
fixed_size ColType.int32 = 4
fixed_size ColType.int64 = 8
fixed_size ColType.float = 4
fixed_size ColType.double = 8
fixed_size ColType.bool = 1
fixed_size ColType.string = 0
fixed_size ColType.blob = 0

abbrev pub max_cols : ℕ
max_cols = 64

-- The offsets that the loop of `row_schema_init` gives; one of varying size counts for its length.
abbrev pub offsets_from : ℕ → List ColType → List (Option ℕ)
offsets_from offset [] = []
offsets_from offset (t ∷ types) =
    if fixed_size t == 0
    then none ∷ offsets_from (offset + 4) types
    else some offset ∷ offsets_from (offset + fixed_size t) types

-- `row_schema_init`
unfoldable pub row_schema_init : List ColType → Schema
row_schema_init types = record {
  num_cols = length types;
  fixed_offsets = offsets_from 0 (take max_cols types);
  fixed_sizes = map fixed_size (take max_cols types);
}

-- What `row_extract_column` answers: NULL, an offset into the row with a length (its `i32` bits), or
-- a `fault`: the code computes an offset that overflows or lies before the row.
pub data Extracted : Type 0 where
  null fault : Extracted
  column : ℕ → ℕ → Extracted

-- `offset += 4 + (i32)slen`
abbrev pub skip_var : ℕ → ℕ → Option ℕ
skip_var offset slen =
    let sum = offset + 4 + slen in
    if ltb slen (2 ^ 31)
    then (if ltb sum (2 ^ 31) then some sum else none)
    else if ltb sum (2 ^ 32)
    then none
    else some (sum - 2 ^ 32)

-- The four bytes of a length at an offset of the row.
abbrev pub var_len : Bytes → ℕ → ℕ
var_len row offset = of_le (take 4 (drop offset row))

-- The end of `row_extract_column`: the column with this size, 0 for a varying one.
abbrev pub column_at : Bytes → ℕ → ℕ → Extracted
column_at row offset size =
    if ltb 0 size
    then (if ltb (length row) (offset + size) then Extracted.null else Extracted.column offset size)
    else if ltb (length row) (offset + 4)
    then Extracted.null
    else Extracted.column (offset + 4) (var_len row offset)

-- The loop over the columns before, of these sizes, and the column itself.
unfoldable pub extract_from : List ℕ → ℕ → Bytes → ℕ → Extracted
extract_from [] col row offset = Extracted.fault
extract_from (size ∷ sizes) zero row offset = column_at row offset size
extract_from (size ∷ sizes) (suc col) row offset =
    if ltb 0 size
    then extract_from sizes col row (offset + size)
    else if ltb (length row) (offset + 4)
    then Extracted.null
    else elim (skip_var offset (var_len row offset)) [
      | none ↦ Extracted.fault
      | some next ↦ extract_from sizes col row next
    ]

-- `row_extract_column`
unfoldable pub row_extract_column : Schema → ℕ → Bytes → Extracted
row_extract_column rs col row =
    if leb rs.num_cols col then Extracted.null else extract_from rs.fixed_sizes col row 0

-- The bytes of the row that an answer names: `none` if they are not all in the row.
abbrev pub column_bytes : Bytes → Extracted → Option Bytes
column_bytes row Extracted.null = none
column_bytes row Extracted.fault = none
column_bytes row (Extracted.column offset len) =
    if leb (offset + len) (length row) then some (take len (drop offset row)) else none
