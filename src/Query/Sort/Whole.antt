-- ===== src/Query/Sort/Whole.antt =====
-- What `qb_exec` of src/query/query_builder.c does with the rows that its scan found.
use mathlib.Core.List.{Perm, append-nil}
use mathlib.Core.List.Perm
use mathlib.Core.List as List
use native.Mathlib.Nat.{ℕ_set}
use Prim.Native.Nat.{Ordering}
use kanbudb.Prelude.{
  ℕ, zero, suc, ◌≡◌, refl, sym, ap, subst, ◌∙◌, inl, inr, Bool, true, false, Option, none, some,
  List, [], ◌∷◌, ◌++◌, arith, Bool-cases, if◌then◌else◌, ltb, length, length-take, get_or, take,
  drop, All, Bytes,
}
use kanbudb.RowFormat.{ColType, Schema, row_schema_init}
use kanbudb.Db.{Db}
use kanbudb.Query.{QueryBuilder, passes}
use kanbudb.Query.Exec.{Scan, qb_scan, apply_limit}
use kanbudb.Query.Results.{ResultSet, col_types}
use kanbudb.Query.Join.{JoinTable, apply_join}
use kanbudb.Query.Sort.{
  rows_at, sort_entry_cmp, apply_sort, table_cols, rows_found, exec_on, qb_exec,
}
use kanbudb.Query.Sort.Order.{is_exact}
use kanbudb.Query.Sort.Numbers.{
  named_cols, named_column, column_number-named_column, table_cols-named_cols, SortsNumbers,
  rows_at-indices, HasColumn, InOrder, sort_entry_cmp-Consistent, rows_at-InOrder,
}

-- The column by which a query sorts, if it sorts by a column of the table.
abbrev pub sort_by : QueryBuilder → List (Bytes × ColType) → Option (ℕ × ColType)
sort_by qb cols = if qb.has_sort then named_column 0 qb.sort_column cols else none

-- What the sort needs of the rows: the column, of a type without floating-point numbers.
abbrev pub Sortable : Option (ℕ × ColType) → Schema → List Bytes → Type 0
Sortable none schema rows = Unit
Sortable (some (col, type)) schema rows = (is_exact type ≡ true) × All (HasColumn schema col) rows

-- How the rows stand: as they were found, or in the order of the column.
abbrev pub Arranged : Option (ℕ × ColType) → Schema → Bool → List Bytes → List Bytes → Type 0
Arranged none schema ascending found rows = rows ≡ found
Arranged (some (col, type)) schema ascending found rows = InOrder schema col type ascending rows

module _ (float_order : ColType → Bytes → Bytes → Ordering)
    (qsort_r : (ℕ → ℕ → Option Ordering) → List ℕ → Option (List ℕ)) (good : SortsNumbers qsort_r)
    (qb : QueryBuilder) where
  few_rows :
      (schema : Schema) (col : ℕ) (type : ColType) (rows : List Bytes)
      → ltb 1 (length rows) ≡ false
      → InOrder schema col type qb.sort_ascending rows
  few_rows schema col type [] h = tt
  few_rows schema col type (x ∷ []) h = (tt, tt)
  few_rows schema col type (x ∷ y ∷ rows) h = absurd (ground (arith, h))

  -- The sort, by the column that the name stands for.
  sorts_by :
      (rs : ResultSet) (by : Option (ℕ × ColType))
      → named_column 0 qb.sort_column rs.cols ≡ by
      → qb.has_sort ≡ true
      → Sortable by (row_schema_init (col_types rs.cols)) rs.rows
      → (sorted : List Bytes) × (apply_sort float_order qsort_r qb rs
          ≡ some (record rs { rows = sorted }))
        × Perm sorted rs.rows
        × Arranged by (row_schema_init (col_types rs.cols)) qb.sort_ascending rs.rows sorted
  unfolding apply_sort
  sorts_by rs none e h v = elim (Bool-cases (ltb 1 (length rs.rows))) [
    | inl m ↦
        let named = column_number-named_column 0 qb.sort_column rs.cols ∙ e in
        (rs.rows, rw h (rw m (rw named refl)), Perm.rfl, refl)
    | inr m ↦ (rs.rows, rw h (rw m refl), Perm.rfl, refl)
  ]
  sorts_by rs (some (col, type)) e h v = elim (Bool-cases (ltb 1 (length rs.rows))) [
    | inr m ↦ (
      rs.rows,
      rw h (rw m refl),
      Perm.rfl,
      few_rows (row_schema_init (col_types rs.cols)) col type rs.rows m,
    )
    | inl m ↦
        let named = column_number-named_column 0 qb.sort_column rs.cols ∙ e in
        let schema = row_schema_init (col_types rs.cols) in
        let (order, is, perm, within, up) =
          good.sorts (sort_entry_cmp float_order schema col type qb.sort_ascending rs.rows)
            (length rs.rows)
            (sort_entry_cmp-Consistent float_order schema col type qb.sort_ascending rs.rows v.0
              v.1) in
        (
          rows_at rs.rows order,
          rw h (rw m (rw named (rw is refl))),
          subst (Perm (rows_at rs.rows order)) (rows_at-indices rs.rows)
              (Perm.map (λ i. get_or rs.rows i []) perm),
          rows_at-InOrder float_order schema col type qb.sort_ascending rs.rows v.0 v.1 order within
              up,
        )
  ]

  apply_sort-Arranged :
      (rs : ResultSet)
      → Sortable (sort_by qb rs.cols) (row_schema_init (col_types rs.cols)) rs.rows
      → (sorted : List Bytes) × (apply_sort float_order qsort_r qb rs
          ≡ some (record rs { rows = sorted }))
        × Perm sorted rs.rows
        × Arranged
            (sort_by qb rs.cols)
            (row_schema_init (col_types rs.cols))
            qb.sort_ascending
            rs.rows
            sorted
  unfolding apply_sort
  apply_sort-Arranged rs v = elim (Bool-cases qb.has_sort) [
    | inr h ↦ (rs.rows, rw h refl, Perm.rfl, rw h refl)
    | inl h ↦
        let by : sort_by qb rs.cols ≡ named_column 0 qb.sort_column rs.cols = rw h refl in
        let schema = row_schema_init (col_types rs.cols) in
        subst
          (λ b.
            (sorted : List Bytes) × (apply_sort float_order qsort_r qb rs
              ≡ some (record rs { rows = sorted }))
            × Perm sorted rs.rows
            × Arranged b schema qb.sort_ascending rs.rows sorted)
          (sym by)
          (sorts_by rs (named_column 0 qb.sort_column rs.cols) refl h
            (subst (λ b. Sortable b schema rs.rows) by v))
  ]

abbrev pub at_most : ℕ → ℕ → ℕ
at_most m n = if ltb m n then m else n

-- How many of so many rows a query shows.
abbrev pub shown_of : QueryBuilder → ℕ → ℕ
shown_of qb n = if qb.has_limit then at_most qb.limit n else n

-- The number of rows does not depend on their order.
length-foldr : (rows : List Bytes) → List.foldr (λ x n. suc n) 0 rows ≡ length rows
length-foldr [] = refl
length-foldr (x ∷ rows) = ap suc (length-foldr rows)

length-Perm : {xs ys : List Bytes} → Perm xs ys → length xs ≡ length ys
length-Perm {xs} {ys} p =
    sym (length-foldr xs)
    ∙ (Perm.foldr-eq ℕ_set (λ (x : Bytes) n. suc n) (λ a b x. refl) p 0 ∙ length-foldr ys)

take-drop {ℓ} : {A : Type ℓ} (n : ℕ) (xs : List A) → take n xs ++ drop n xs ≡ xs
take-drop zero xs = refl
take-drop (suc n) [] = refl
take-drop (suc n) (x ∷ xs) = ap (λ r. x ∷ r) (take-drop n xs)

-- What the limit shows is the front of the rows.
apply_limit-shown :
    (qb : QueryBuilder) (rows : List Bytes)
    → (rest : List Bytes) × (apply_limit qb rows ++ rest ≡ rows)
      × (length (apply_limit qb rows) ≡ shown_of qb (length rows))
unfolding apply_limit
apply_limit-shown qb rows = elim (Bool-cases qb.has_limit) [
  | inr h ↦ ([], rw h (append-nil rows), rw h refl)
  | inl h ↦ elim (Bool-cases (ltb qb.limit (length rows))) [
    | inr m ↦ ([], rw h (rw m (append-nil rows)), rw h (rw m refl))
    | inl m ↦ (
      drop qb.limit rows,
      rw h (rw m (take-drop qb.limit rows)),
      rw h (rw m (length-take qb.limit rows (ground (arith, m)))),
    )
  ]
]

module _ (float_order : ColType → Bytes → Bytes → Ordering)
    (qsort_r : (ℕ → ℕ → Option Ordering) → List ℕ → Option (List ℕ)) (good : SortsNumbers qsort_r)
    (qb : QueryBuilder) where
  -- The columns by the code's names.
  exec_with :
      (float_cmp : ColType → Bytes → Bytes → Ordering) (tables : List JoinTable) (db : Db)
      (found : Scan) (cols : List (Bytes × ColType)) (sorted : List Bytes)
      → table_cols qb tables ≡ cols
      → qb.has_join ≡ false
      → qb_scan
          (passes float_cmp (row_schema_init (col_types cols)) cols qb.root_condition)
          db.lsm
          db.btree
        ≡ some found
      → apply_sort float_order qsort_r qb (rows_found cols found.rows)
        ≡ some (record (rows_found cols found.rows) { rows = sorted })
      → qb_exec float_order qsort_r float_cmp qb tables db
        ≡ some (
          db,
          record (rows_found cols (apply_limit qb sorted)) {
            num_rows = length (apply_limit qb sorted);
          },
        )
  unfolding qb_exec exec_on apply_join
  exec_with float_cmp tables db found cols sorted c alone scan is =
      ap (λ k. exec_on float_order qsort_r float_cmp k qb tables db) c
      ∙ rw (scan, is, exec_on) (rw (alone, apply_join) refl)

  -- A query without a join, whose scan reads nothing behind the end of a row and finds some rows, where
  -- `qsort_r` keeps its promise and every row found has the column by which the
  -- query sorts, if it sorts by one, which is of type INT32, INT64, STRING or BOOL. `qb_exec` answers
  -- and leaves the database as it is. All rows found are taken, as they were found or in the
  -- order of that column, no row behind a later one; the set shows the first of these, all of
  -- them or as many as the limit says, counts them, and stands before the first.
  pub qb_exec-Perm :
      (float_cmp : ColType → Bytes → Bytes → Ordering) (tables : List JoinTable) (db : Db)
      (found : Scan)
      → qb.has_join ≡ false
      → qb_scan
          (passes float_cmp
            (row_schema_init (col_types (named_cols qb.table tables)))
            (named_cols qb.table tables)
            qb.root_condition)
          db.lsm
          db.btree
        ≡ some found
      → Sortable
          (sort_by qb (named_cols qb.table tables))
          (row_schema_init (col_types (named_cols qb.table tables)))
          found.rows
      → (sorted shown rest : List Bytes) × (qb_exec float_order qsort_r float_cmp qb tables db
          ≡ some (
            db,
            record {
              num_rows = length shown;
              next = 0;
              cols = named_cols qb.table tables;
              is_fts = false;
              doc_ids = [];
              scores = [];
              rows = shown;
            },
          ))
        × Perm sorted found.rows
        × Arranged
            (sort_by qb (named_cols qb.table tables))
            (row_schema_init (col_types (named_cols qb.table tables)))
            qb.sort_ascending
            found.rows
            sorted
        × (shown ++ rest ≡ sorted)
        × (length shown ≡ shown_of qb (length found.rows))
  qb_exec-Perm float_cmp tables db found alone scan sortable =
      let cols = named_cols qb.table tables in
      let (sorted, is, perm, arranged) =
        apply_sort-Arranged float_order qsort_r good qb (rows_found cols found.rows) sortable in
      let (rest, front, size) = apply_limit-shown qb sorted in
      (
        sorted,
        apply_limit qb sorted,
        rest,
        exec_with float_cmp tables db found cols sorted (table_cols-named_cols qb.table tables)
            alone scan is,
        perm,
        arranged,
        front,
        size ∙ ap (shown_of qb) (length-Perm perm),
      )
