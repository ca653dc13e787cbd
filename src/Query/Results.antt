-- ===== src/Query/Results.antt =====
-- The result set of a query, src/query/query_builder.c, and how its rows are read.
pub mod Walk
use kanbudb.Prelude.{
  ℕ, zero, suc, Bool, true, false, Option, none, some, List, [], ◌∷◌, ◌++◌, leb, if◌then◌else◌,
  length, Bytes,
}
use kanbudb.Status.{Status}
use kanbudb.RowFormat.{ColType, row_schema_init, Extracted, row_extract_column}

-- `struct result_set_t`: the names and types of the columns, the rows, and for a full-text search the
-- documents with their scores. `current` stands with 1 added; `num_rows` is set apart from the rows.
pub record ResultSet : Type 0 where
  pub num_rows : ℕ
  pub next : ℕ
  pub cols : List (Bytes × ColType)
  pub is_fts : Bool
  pub doc_ids : List ℕ
  pub scores : List Bytes
  pub rows : List Bytes

-- What the caller gets: NULL, a pointer into a row with a length, an offset that the code cannot
-- compute, or the memory of a document's number or score.
pub data Cell : Type 0 where
  no_data fault : Cell
  in_row : Bytes → ℕ → ℕ → Cell
  doc_id : ℕ → Cell
  score : Bytes → Cell

abbrev pub nth {ℓ} : {A : Type ℓ} → List A → ℕ → Option A
nth [] i = none
nth (x ∷ xs) zero = some x
nth (x ∷ xs) (suc i) = nth xs i

abbrev pub col_types : List (Bytes × ColType) → List ColType
col_types [] = []
col_types (c ∷ cols) = c.1 ∷ col_types cols

abbrev pub cell_of : Bytes → Extracted → Cell
cell_of row Extracted.null = Cell.no_data
cell_of row Extracted.fault = Cell.fault
cell_of row (Extracted.column offset len) = Cell.in_row row offset len

unfoldable pub rs_add_row : Bytes → ResultSet → ResultSet
rs_add_row row rs = record rs { rows = rs.rows ++ row ∷ [] }

-- For numbers that are not negative.
unfoldable pub rs_get_row_column : ResultSet → ℕ → ℕ → Cell
rs_get_row_column rs row_idx col = elim (nth rs.rows row_idx) [
  | none ↦ Cell.no_data
  | some row ↦
      if leb (length rs.cols) col
      then Cell.no_data
      else cell_of row (row_extract_column (row_schema_init (col_types rs.cols)) col row)
]

-- `rs_next`: whether there is a row.
unfoldable pub rs_next : ResultSet → ResultSet × Bool
rs_next rs =
    if leb rs.num_rows rs.next
    then (record rs { next = suc rs.num_rows }, false)
    else (record rs { next = suc rs.next }, true)

-- The two columns of a full-text search.
abbrev pub fts_cell : ResultSet → ℕ → ℕ → Cell
fts_cell rs current zero = elim (nth rs.doc_ids current) [
  | none ↦ Cell.fault
  | some d ↦ Cell.doc_id d
]
fts_cell rs current (suc zero) = elim (nth rs.scores current) [
  | none ↦ Cell.fault
  | some d ↦ Cell.score d
]
fts_cell rs current (suc (suc col)) = Cell.no_data

-- The cell at the current row; before the first and behind the last row there is none.
abbrev pub current_cell : ResultSet → ℕ → ℕ → Cell
current_cell rs col zero = Cell.no_data
current_cell rs col (suc current) =
    if leb rs.num_rows current
    then Cell.no_data
    else if rs.is_fts
    then fts_cell rs current col
    else rs_get_row_column rs current col

unfoldable pub rs_get_column : ResultSet → ℕ → Status × Cell
rs_get_column rs col =
    if leb (length rs.cols) col
    then (Status.inval, Cell.no_data)
    else (Status.ok, current_cell rs col rs.next)

unfoldable pub rs_get_column_type : ResultSet → ℕ → ColType
rs_get_column_type rs col = elim (nth rs.cols col) [ none ↦ ColType.int32 | some c ↦ c.1 ]

unfoldable pub rs_num_columns : ResultSet → ℕ
rs_num_columns rs = length rs.cols
