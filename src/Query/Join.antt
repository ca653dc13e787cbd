-- ===== src/Query/Join.antt =====
-- The join of `qb_exec`, src/query/query_builder.c: each row gets behind its columns those of the row that
-- another table has under its key. Allocations succeed; sizes do not wrap. `none`: the code
-- reads or writes behind the end of an array.
pub mod Rows
use kanbudb.Prelude.{
  ℕ, zero, suc, ◌+◌, ◌-◌, ◌/◌, ◌%◌, ◌^◌, Bool, true, false, ◌&&◌, not, Option, none, some, List, [],
  ◌∷◌, ◌++◌, ltb, leb, ◌==◌, if◌then◌else◌, length, take, Bytes, le_bytes, of_le,
}
use kanbudb.Status.{Status, is_ok}
use kanbudb.RowFormat.{
  ColType, Schema, max_cols, row_schema_init, Extracted, row_extract_column, column_bytes,
}
use kanbudb.Db.{Db, db_get}
use kanbudb.Query.{QueryBuilder, digits, equal_strings}
use kanbudb.Query.Results.{ResultSet, col_types}

-- `kanbudb_table_t`, as far as the join looks at it.
pub record JoinTable : Type 0 where
  pub name : Bytes
  pub cols : List (Bytes × ColType)

-- The first column with this name: its number and its type.
unfoldable pub column_number : ℕ → Bytes → List (Bytes × ColType) → Option (ℕ × ColType)
column_number i name [] = none
column_number i name ((n, t) ∷ cols) =
    if equal_strings n name then some (i, t) else column_number (suc i) name cols

unfoldable pub join_table_named : Bytes → List JoinTable → Option JoinTable
join_table_named name [] = none
join_table_named name (t ∷ tables) =
    if equal_strings t.name name then some t else join_table_named name tables

-- All but the joined column.
abbrev pub without {ℓ} : {A : Type ℓ} → ℕ → ℕ → List A → List A
without skipped i [] = []
without skipped i (x ∷ xs) =
    if i == skipped then without skipped (suc i) xs else x ∷ without skipped (suc i) xs

-- The decimal digits of a number before those that follow; a 64-bit number has at most 20.
unfoldable pub decimal : ℕ → ℕ → Bytes → Bytes
decimal zero n after = after
decimal (suc left) n after =
    let digits = (48 + n % 10) ∷ after in
    let more = decimal left (n / 10) digits in if n / 10 == 0 then digits else more

-- `snprintf` of a signed integer of so many bits, from its bytes.
abbrev pub signed_decimal : ℕ → ℕ → Bytes
signed_decimal bits n =
    if ltb n (2 ^ (bits - 1)) then decimal 20 n [] else 45 ∷ decimal 20 (2 ^ bits - n) []

-- `key_str` without its end, for a column with these bytes.
unfoldable pub join_key : ColType → Bytes → Option Bytes
join_key ColType.int32 d = some (signed_decimal 32 (of_le (take 4 d)))
join_key ColType.int64 d = some (signed_decimal 64 (of_le (take 8 d)))
join_key _ d = if leb 256 (length d) then none else some d

abbrev pub has_length : ColType → Bool
has_length ColType.string = true
has_length ColType.blob = true
has_length _ = false

-- A column of the other table, as the new row holds it.
abbrev pub joined_cell : ColType → Bytes → Bytes
joined_cell t d = if has_length t then le_bytes 4 (length d) ++ d else d

abbrev pub put_before : Bytes → Option Bytes → Option Bytes
put_before cell none = none
put_before cell (some cells) = some (cell ++ cells)

-- The columns behind number j of the other table's row, one of which is left out.
unfoldable pub joined_cells : Schema → ℕ → Bytes → ℕ → List ColType → Option Bytes
joined_cells schema foreign_col fval j [] = some []
joined_cells schema foreign_col fval j (t ∷ types) =
    let rest = joined_cells schema foreign_col fval (suc j) types in
    if j == foreign_col then rest else elim (row_extract_column schema j fval) [
      | Extracted.null ↦ rest
      | fc ↦ elim (column_bytes fval fc) [
        | none ↦ none
        | some d ↦ put_before (joined_cell t d) rest
      ]
    ]

module _ (schema : Schema) (local_col : ℕ) (ltype : ColType) (join_table : Bytes)
    (ft_types : List ColType) (foreign_col : ℕ) where
  -- The row with what `db_get` of the other table answered.
  abbrev pub join_found : Bytes → (Db × Status) × Option Bytes → Option (Db × Bytes)
  join_found row got = elim got.1 [
    | none ↦ some (got.0.0, row)
    | some fval ↦
        if not (is_ok got.0.1)
        then some (got.0.0, row)
        else elim (joined_cells (row_schema_init ft_types) foreign_col fval 0 ft_types) [
          | none ↦ none
          | some cells ↦ some (got.0.0, row ++ cells)
        ]
  ]

  -- One round of the loop over the rows.
  unfoldable pub join_row : Db → Bytes → Option (Db × Bytes)
  join_row db row = elim (row_extract_column schema local_col row) [
    | Extracted.null ↦ some (db, row)
    | join_data ↦ elim (column_bytes row join_data) [
      | none ↦ none
      | some d ↦ elim (join_key ltype d) [
        | none ↦ none
        | some key ↦ join_found row (db_get join_table (key ++ 0 ∷ []) db)
      ]
    ]
  ]

  unfoldable pub join_rows : Db → List Bytes → Option (Db × List Bytes)
  join_rows db [] = some (db, [])
  join_rows db (row ∷ rows) = elim (join_row db row) [
    | none ↦ none
    | some (db, row) ↦ elim (join_rows db rows) [
      | none ↦ none
      | some (db, rows) ↦ some (db, row ∷ rows)
    ]
  ]

-- The join, once the columns are found.
abbrev pub join_with :
    ℕ × ColType → Bytes → JoinTable → ℕ → Db → ResultSet → Option (Db × ResultSet)
join_with (local_col, ltype) join_table ft foreign_col db rs =
    let new_cols = rs.cols ++ without foreign_col 0 ft.cols in
    if ltb max_cols (length new_cols)
    then none
    else elim (join_rows (row_schema_init (col_types rs.cols)) local_col ltype join_table
        (col_types ft.cols) foreign_col db rs.rows) [
          | none ↦ none
          | some (db, rows) ↦ some (db, record rs { rows = rows; cols = new_cols })
        ]

-- The last part of `qb_exec`; without the table or one of the columns nothing is joined.
unfoldable pub apply_join : QueryBuilder → List JoinTable → Db → ResultSet → Option (Db × ResultSet)
apply_join qb tables db rs =
    if not (qb.has_join && ltb 0 (length rs.rows))
    then some (db, rs)
    else elim (column_number 0 qb.join_on_local rs.cols) [
      | none ↦ some (db, rs)
      | some local ↦ elim (join_table_named qb.join_table tables) [
        | none ↦ some (db, rs)
        | some ft ↦ elim (column_number 0 qb.join_on_foreign ft.cols) [
          | none ↦ some (db, rs)
          | some foreign ↦ join_with local qb.join_table ft foreign.0 db rs
        ]
      ]
    ]
