-- ===== src/Query/Sort/Numbers.antt =====
-- Names, and the sort of row numbers by `sort_entry_cmp`, in `qb_exec` of src/query/query_builder.c.
use mathlib.Core.List.{Perm}
use Prim.Native.Nat.{Ordering}
use kanbudb.Prelude.{
  ℕ, zero, suc, ◌<◌, ◌≡◌, refl, sym, ap, ◌∙◌, inl, inr, Bool, true, false, Option, none, some, List,
  [], ◌∷◌, arith, Bool-cases, if◌then◌else◌, length, get_or, All, Bytes,
}
use kanbudb.Key.{is_gt, is_eq, key_cmp}
use kanbudb.Key.Order.{lex, key_cmp-lex}
use kanbudb.RowFormat.{ColType, Schema, row_extract_column, column_bytes}
use kanbudb.Query.Rows.{same_bytes}
use kanbudb.Query.Join.{JoinTable, column_number, join_table_named}
use kanbudb.Query.Sort.{sort_cell, sort_entry_cmp, indices, rows_at}
use kanbudb.Query.Sort.Order.{
  is_exact, turned, is_behind, row_order, row_order-Orders, sort_entry_cmp-row_order,
}

-- The columns of the first table with this name, and the first column with this name.
abbrev pub named_cols : Bytes → List JoinTable → List (Bytes × ColType)
named_cols name [] = []
named_cols name (t ∷ tables) = if same_bytes t.name name then t.cols else named_cols name tables

abbrev pub named_column : ℕ → Bytes → List (Bytes × ColType) → Option (ℕ × ColType)
named_column i name [] = none
named_column i name (c ∷ cols) =
    if same_bytes c.0 name then some (i, c.1) else named_column (suc i) name cols

lex-same_bytes : (a b : Bytes) → is_eq (lex a b) ≡ same_bytes a b
unfolding lex
lex-same_bytes [] [] = refl
lex-same_bytes [] (y ∷ b) = refl
lex-same_bytes (x ∷ a) [] = refl
lex-same_bytes (x ∷ a) (y ∷ b) = ground (arith, lex-same_bytes a b)

equal_strings-same_bytes : (a b : Bytes) → is_eq (key_cmp a b) ≡ same_bytes a b
equal_strings-same_bytes a b = ap is_eq (key_cmp-lex a b) ∙ lex-same_bytes a b

pub column_number-named_column :
    (i : ℕ) (name : Bytes) (cols : List (Bytes × ColType))
    → column_number i name cols ≡ named_column i name cols
unfolding column_number
column_number-named_column i name [] = refl
column_number-named_column i name (c ∷ cols) =
    rw (equal_strings-same_bytes c.0 name, column_number-named_column (suc i) name cols) refl

pub table_cols-named_cols :
    (name : Bytes) (tables : List JoinTable)
    → (elim (join_table_named name tables) as (λ x. List (Bytes × ColType)) [
      | none ↦ []
      | some t ↦ t.cols
    ])
      ≡ named_cols name tables
unfolding join_table_named
table_cols-named_cols name [] = refl
table_cols-named_cols name (t ∷ tables) = elim (Bool-cases (same_bytes t.name name)) [
  | inl e ↦ rw (equal_strings-same_bytes t.name name, e) refl
  | inr e ↦ rw (equal_strings-same_bytes t.name name, e) (table_cols-named_cols name tables)
]

-- Each element stands in a relation to all behind it.
abbrev pub Ascending {ℓ} : {A : Type ℓ} → (A → A → Type 0) → List A → Type 0
Ascending R [] = Unit
Ascending R (x ∷ xs) = All (R x) xs × Ascending R xs

-- A comparison of the numbers below n that answers, turns round and goes on.
pub record Consistent (cmp : ℕ → ℕ → Option Ordering) (n : ℕ) : Type 0 where
  pub answers : (a b : ℕ) → a < n → b < n → (o : Ordering) × (cmp a b ≡ some o)
  pub turns : (a b : ℕ) → a < n → b < n → cmp b a ≡ turned (cmp a b)
  pub goes_on :
      (a b c : ℕ)
      → a < n
      → b < n
      → c < n
      → is_behind (cmp a b) ≡ false
      → is_behind (cmp b c) ≡ false
      → is_behind (cmp a c) ≡ false

-- What `qsort_r` promises: by a consistent comparison, the same numbers, none of them behind a later one.
pub record SortsNumbers (qsort_r : (ℕ → ℕ → Option Ordering) → List ℕ → Option (List ℕ))
    : Type 0 where
  pub sorts :
      (cmp : ℕ → ℕ → Option Ordering) (n : ℕ)
      → Consistent cmp n
      → (order : List ℕ) × (qsort_r cmp (indices 0 n) ≡ some order)
        × Perm order (indices 0 n)
        × All (λ i. i < n) order
        × Ascending (λ a b. is_behind (cmp a b) ≡ false) order

indices-suc :
    (rows : List Bytes) (x : Bytes) (i left : ℕ)
    → rows_at (x ∷ rows) (indices (suc i) left) ≡ rows_at rows (indices i left)
indices-suc rows x i zero = refl
indices-suc rows x i (suc left) = ap (λ r. get_or rows i [] ∷ r) (indices-suc rows x (suc i) left)

pub rows_at-indices : (rows : List Bytes) → rows_at rows (indices 0 (length rows)) ≡ rows
rows_at-indices [] = refl
rows_at-indices (x ∷ rows) =
    ap (λ r. x ∷ r) (indices-suc rows x 0 (length rows) ∙ rows_at-indices rows)

-- The bytes of a column, none if the row has no such column.
abbrev pub column_value : Schema → ℕ → Bytes → Bytes
column_value schema col row = elim (column_bytes row (row_extract_column schema col row)) [
  | none ↦ []
  | some d ↦ d
]

abbrev pub HasColumn : Schema → ℕ → Bytes → Type 0
HasColumn schema col row =
    (d : Bytes) × (column_bytes row (row_extract_column schema col row) ≡ some d)

cell_at :
    (schema : Schema) (col : ℕ) (rows : List Bytes) (i : ℕ)
    → All (HasColumn schema col) rows
    → i < length rows
    → sort_cell schema col rows i ≡ some (column_value schema col (get_or rows i []))
unfolding sort_cell
cell_at schema col [] i a h = absurd (omega (arith, h))
cell_at schema col (x ∷ rows) zero a h = a.0.1 ∙ ap some (rw (a.0.1, column_value) refl)
cell_at schema col (x ∷ rows) (suc i) a h = cell_at schema col rows i a.1 (omega (arith, h))

-- Each row of the list stands in the order of the sort to all behind it.
abbrev pub InOrder : Schema → ℕ → ColType → Bool → List Bytes → Type 0
InOrder schema col type ascending rows =
    Ascending
      (λ x y.
        is_gt (row_order type ascending (column_value schema col x) (column_value schema col y))
        ≡ false)
      rows

module _ (float_order : ColType → Bytes → Bytes → Ordering) (schema : Schema) (col : ℕ)
    (type : ColType) (ascending : Bool) (rows : List Bytes) (exact : is_exact type ≡ true)
    (have : All (HasColumn schema col) rows) where
  cmp_at :
      (a b : ℕ)
      → a < length rows
      → b < length rows
      → sort_entry_cmp float_order schema col type ascending rows a b
        ≡ some (
            row_order type ascending
              (column_value schema col (get_or rows a []))
              (column_value schema col (get_or rows b [])))
  cmp_at a b h k =
      sort_entry_cmp-row_order float_order schema col type ascending rows a b _ _ exact
        (cell_at schema col rows a have h) (cell_at schema col rows b have k)

  pub sort_entry_cmp-Consistent :
      Consistent (sort_entry_cmp float_order schema col type ascending rows) (length rows)
  sort_entry_cmp-Consistent =
      let w = row_order-Orders type ascending exact in
      record {
        answers = λ a b h k. (_, cmp_at a b h k);
        turns =
            λ a b h k. cmp_at b a k h ∙ (ap some (w.turns _ _) ∙ ap turned (sym (cmp_at a b h k)));
        goes_on = λ a b c h k l p q.
            ap is_behind (cmp_at a c h l)
            ∙ w.goes_on _ _ _ (ap is_behind (sym (cmp_at a b h k)) ∙ p)
                (ap is_behind (sym (cmp_at b c k l)) ∙ q);
      }

  rows_behind :
      (a : ℕ) (order : List ℕ)
      → a < length rows
      → All (λ i. i < length rows) order
      → All
          (λ b. is_behind (sort_entry_cmp float_order schema col type ascending rows a b) ≡ false)
          order
      → All
          (λ y.
            is_gt (
              row_order type ascending
                (column_value schema col (get_or rows a []))
                (column_value schema col y))
            ≡ false)
          (rows_at rows order)
  rows_behind a [] h w o = tt
  rows_behind a (b ∷ order) h w o =
      (ap is_behind (sym (cmp_at a b h w.0)) ∙ o.0, rows_behind a order h w.1 o.1)

  pub rows_at-InOrder :
      (order : List ℕ)
      → All (λ i. i < length rows) order
      → Ascending
          (λ a b. is_behind (sort_entry_cmp float_order schema col type ascending rows a b) ≡ false)
          order
      → InOrder schema col type ascending (rows_at rows order)
  rows_at-InOrder [] w o = tt
  rows_at-InOrder (a ∷ order) w o = (rows_behind a order w.0 w.1 o.0, rows_at-InOrder order w.1 o.1)
