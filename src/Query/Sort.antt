-- ===== src/Query/Sort.antt =====
-- The sort of `qb_exec`, src/query/query_builder.c, and the whole of `qb_exec`. `qsort_r` of the system and the
-- comparison of floating-point columns are parameters; allocations succeed. `none`: the
-- code reads through a null pointer, or a column is not all in its row.
pub mod Order
pub mod Numbers
pub mod Whole
use Prim.Native.Nat.{Ordering, compare}
use kanbudb.Prelude.{
  ℕ, zero, suc, Bool, true, false, ◌&&◌, ◌||◌, not, Option, none, some, List, [], ◌∷◌, map, ltb,
  if◌then◌else◌, length, get_or, Bytes,
}
use kanbudb.Key.{memcmp}
use kanbudb.RowFormat.{ColType, Schema, row_schema_init, row_extract_column, column_bytes}
use kanbudb.Db.{Db}
use kanbudb.Query.{QueryBuilder, int_value, passes}
use kanbudb.Query.Exec.{qb_scan, apply_limit}
use kanbudb.Query.Results.{ResultSet, nth, col_types}
use kanbudb.Query.Join.{JoinTable, column_number, join_table_named, apply_join}

-- The sign turned round.
abbrev pub negate : Ordering → Ordering
negate Ordering.lt = Ordering.gt
negate Ordering.eq = Ordering.eq
negate Ordering.gt = Ordering.lt

-- Two strings: their common length, then the lengths.
abbrev pub string_order : Bytes → Bytes → Ordering
string_order da db =
    let min = if ltb (length da) (length db) then length da else length db in
    elim (memcmp min da db) [
      | Ordering.lt ↦ Ordering.lt
      | Ordering.gt ↦ Ordering.gt
      | Ordering.eq ↦ compare (length da) (length db)
    ]

-- The numbers 0, 1 and so on of so many rows.
abbrev pub indices : ℕ → ℕ → List ℕ
indices i zero = []
indices i (suc left) = i ∷ indices (suc i) left

-- The rows in the order of the sorted numbers, all of which are numbers of rows.
abbrev pub rows_at : List Bytes → List ℕ → List Bytes
rows_at rows order = map (λ i. get_or rows i []) order

-- The limit, the join, and the number of rows.
abbrev pub finish_query : QueryBuilder → List JoinTable → Db → ResultSet → Option (Db × ResultSet)
finish_query qb tables db rs =
    elim (apply_join qb tables db (record rs { rows = apply_limit qb rs.rows })) [
      | none ↦ none
      | some (db, rs) ↦ some (db, record rs { num_rows = length rs.rows })
    ]

-- The column of the row with this number.
unfoldable pub sort_cell : Schema → ℕ → List Bytes → ℕ → Option Bytes
sort_cell schema col rows idx = elim (nth rows idx) [
  | none ↦ none
  | some row ↦ column_bytes row (row_extract_column schema col row)
]

-- The columns of the table of the query, and the set of these rows.
abbrev pub table_cols : QueryBuilder → List JoinTable → List (Bytes × ColType)
table_cols qb tables = elim (join_table_named qb.table tables) [ none ↦ [] | some t ↦ t.cols ]

abbrev pub rows_found : List (Bytes × ColType) → List Bytes → ResultSet
rows_found cols rows = record {
  num_rows = 0;
  next = 0;
  cols = cols;
  is_fts = false;
  doc_ids = [];
  scores = [];
  rows = rows;
}

module _ (float_order : ColType → Bytes → Bytes → Ordering) where
  -- The comparison of two columns by their type; that of a BLOB reads it as a DOUBLE.
  unfoldable pub column_order : ColType → Bytes → Bytes → Option Ordering
  column_order ColType.string da db = some (string_order da db)
  column_order ColType.int32 da db =
      some (compare (int_value ColType.int32 da) (int_value ColType.int32 db))
  column_order ColType.int64 da db =
      some (compare (int_value ColType.int64 da) (int_value ColType.int64 db))
  column_order ColType.bool da db = some (compare (get_or da 0 0) (get_or db 0 0))
  column_order ColType.float da db = some (float_order ColType.float da db)
  column_order ColType.double da db = some (float_order ColType.double da db)
  column_order ColType.blob da db =
      if ltb (length da) 8 || ltb (length db) 8
      then none
      else some (float_order ColType.double da db)

  -- `sort_entry_cmp`, for two row numbers.
  module _ (schema : Schema) (col : ℕ) (type : ColType) (ascending : Bool) (rows : List Bytes) where
    unfoldable pub sort_entry_cmp : ℕ → ℕ → Option Ordering
    sort_entry_cmp ea eb = elim (sort_cell schema col rows ea) [
      | none ↦ none
      | some da ↦ elim (sort_cell schema col rows eb) [
        | none ↦ none
        | some db ↦ elim (column_order type da db) [
          | none ↦ none
          | some cmp ↦ some (if ascending then cmp else negate cmp)
        ]
      ]
    ]

  -- `qsort_r` takes a comparison, which may fail, and row numbers.
  module _ (qsort_r : (ℕ → ℕ → Option Ordering) → List ℕ → Option (List ℕ)) where
    unfoldable pub apply_sort : QueryBuilder → ResultSet → Option ResultSet
    apply_sort qb rs =
        if not (qb.has_sort && ltb 1 (length rs.rows))
        then some rs
        else elim (column_number 0 qb.sort_column rs.cols) [
          | none ↦ some rs
          | some (col, type) ↦
              elim (qsort_r
                (sort_entry_cmp (row_schema_init (col_types rs.cols)) col type qb.sort_ascending
                  rs.rows)
                (indices 0 (length rs.rows))) [
                  | none ↦ none
                  | some order ↦ some (record rs { rows = rows_at rs.rows order })
                ]
        ]

    module _ (float_cmp : ColType → Bytes → Bytes → Ordering) where
      -- The query, where the table has these columns.
      unfoldable pub exec_on :
          List (Bytes × ColType) → QueryBuilder → List JoinTable → Db → Option (Db × ResultSet)
      exec_on cols qb tables db =
          elim (qb_scan (passes float_cmp (row_schema_init (col_types cols)) cols qb.root_condition)
            db.lsm db.btree) [
              | none ↦ none
              | some found ↦ elim (apply_sort qb (rows_found cols found.rows)) [
                | none ↦ none
                | some rs ↦ finish_query qb tables db rs
              ]
            ]

      -- `qb_exec`
      unfoldable pub qb_exec : QueryBuilder → List JoinTable → Db → Option (Db × ResultSet)
      qb_exec qb tables db = exec_on (table_cols qb tables) qb tables db
