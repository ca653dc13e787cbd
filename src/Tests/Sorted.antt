-- ===== src/Tests/Sorted.antt =====
-- The sort of src/query/query_builder.c at three rows, and a query for two rows.
use Prim.Native.Nat.{Ordering}
use mathlib.Core.List.{Perm}
use mathlib.Core.List.Perm
use kanbudb.Prelude.{
  ℕ, zero, suc, ◌+◌, ◌≤◌, ◌<◌, ◌≡◌, refl, ap, ◌∙◌, inl, inr, true, false, not, ◌&&◌, Option, none,
  some, List, [], ◌∷◌, ◌++◌, arith, Bytes, le_bytes, of_le, Bool-cases, if◌then◌else◌, All, length,
}
use kanbudb.Key.{memcmp, key_cmp}
use kanbudb.Memtable.{memtable_iterate}
use kanbudb.Wal.Log.{FsyncMode, Stream}
use kanbudb.Status.{Status}
use kanbudb.Db.{Db}
use kanbudb.RowFormat.{ColType, row_schema_init, extract_from, row_extract_column}
use kanbudb.RowFormat.RoundTrip.{row_layout}
use kanbudb.Query.{QueryBuilder, db_query, qb_sort, qb_limit, passes}
use kanbudb.Query.Exec.{Scan, lsm_scan_cb, scan_items, qb_scan}
use kanbudb.Query.Results.{col_types}
use kanbudb.Query.Join.{JoinTable, join_table_named}
use kanbudb.Query.Sort.{negate, sort_cell, sort_entry_cmp, indices, qb_exec}
use kanbudb.Query.Sort.Order.{turned, is_behind, value_order, sort_entry_cmp_trans}
use kanbudb.Query.Sort.Numbers.{named_cols, Ascending, Consistent, SortsNumbers}
use kanbudb.Query.Sort.Whole.{sort_by, Sortable, Arranged, shown_of, qb_exec-Perm}

abbrev no_order : ColType → Bytes → Bytes → Ordering
no_order t a b = Ordering.eq

-- The strings "C", "BA" and "B", in descending order.
abbrev three_rows : List Bytes
three_rows =
    row_layout ((ColType.string, 67 ∷ []) ∷ [])
    ∷ row_layout ((ColType.string, 66 ∷ 65 ∷ []) ∷ [])
    ∷ row_layout ((ColType.string, 66 ∷ []) ∷ [])
    ∷ []

abbrev cmp : ℕ → ℕ → Option Ordering
cmp =
    sort_entry_cmp no_order (row_schema_init (ColType.string ∷ [])) 0 ColType.string false
      three_rows

first_cell : sort_cell (row_schema_init (ColType.string ∷ [])) 0 three_rows 0 ≡ some (67 ∷ [])
unfolding sort_cell row_schema_init row_extract_column extract_from le_bytes of_le
first_cell = refl

second_cell : sort_cell (row_schema_init (ColType.string ∷ [])) 0 three_rows 1 ≡ some (66 ∷ 65 ∷ [])
unfolding sort_cell row_schema_init row_extract_column extract_from le_bytes of_le
second_cell = refl

third_cell : sort_cell (row_schema_init (ColType.string ∷ [])) 0 three_rows 2 ≡ some (66 ∷ [])
unfolding sort_cell row_schema_init row_extract_column extract_from le_bytes of_le
third_cell = refl

sort_entry_cmp_trans_example :
    (cmp 0 1 ≡ some (negate (value_order ColType.string (67 ∷ []) (66 ∷ 65 ∷ []))))
    × (cmp 1 0 ≡ turned (cmp 0 1))
    × ((not (is_behind (cmp 0 1)) && (not (is_behind (cmp 1 2)) && is_behind (cmp 0 2))) ≡ false)
sort_entry_cmp_trans_example =
    sort_entry_cmp_trans no_order (row_schema_init (ColType.string ∷ [])) 0 ColType.string false
      three_rows 0 1 2 (67 ∷ []) (66 ∷ 65 ∷ []) (66 ∷ []) refl first_cell second_cell third_cell

-- A table of one truth value, with two rows in the memtable.
abbrev flags : List JoinTable
flags = record { name = 102 ∷ []; cols = (98 ∷ [], ColType.bool) ∷ [] } ∷ []

abbrev flag_db : Db
flag_db = record {
  tables = record { name = 102 ∷ []; id = 1 } ∷ [];
  wal = record {
    fsync_mode = FsyncMode.never;
    seq = 0;
    file_pos = 16;
    periodic_count = 0;
    buf = [];
    stream = Stream.append_read;
    file = [];
    flushed = 0;
  };
  lsm = record {
    memtable_size = 65536;
    active = record {
      nodes =
          record { seq = 0; key = 1 ∷ []; value = 0 ∷ []; deleted = false; level = 0 }
          ∷ record { seq = 0; key = 2 ∷ []; value = 1 ∷ []; deleted = false; level = 0 }
          ∷ [];
      size_limit = 65536;
      used = 83;
      level = 0;
    };
    flushing = none;
    next_seq = 0;
  };
  btree = record { height = 0; root = [] };
  last_error = Status.ok;
  files = [];
  seq_file = none;
}

abbrev by_flag : QueryBuilder
by_flag = (qb_limit 1 (qb_sort (98 ∷ []) false (db_query (102 ∷ [])))).0

abbrev two_found : Scan
two_found = record { seen_keys = (1 ∷ []) ∷ (2 ∷ []) ∷ []; rows = (0 ∷ []) ∷ (1 ∷ []) ∷ [] }

-- A sort by insertion.
insert_number : (ℕ → ℕ → Option Ordering) → ℕ → List ℕ → List ℕ
insert_number cmp x [] = x ∷ []
insert_number cmp x (y ∷ ys) =
    if is_behind (cmp x y) then y ∷ insert_number cmp x ys else x ∷ y ∷ ys

sort_numbers : (ℕ → ℕ → Option Ordering) → List ℕ → List ℕ
sort_numbers cmp [] = []
sort_numbers cmp (x ∷ xs) = insert_number cmp x (sort_numbers cmp xs)

abbrev insertion_sort : (ℕ → ℕ → Option Ordering) → List ℕ → Option (List ℕ)
insertion_sort cmp xs = some (sort_numbers cmp xs)

insert_number-Perm :
    (cmp : ℕ → ℕ → Option Ordering) (x : ℕ) (ys : List ℕ) → Perm (insert_number cmp x ys) (x ∷ ys)
unfolding insert_number
insert_number-Perm cmp x [] = Perm.rfl
insert_number-Perm cmp x (y ∷ ys) = elim (Bool-cases (is_behind (cmp x y))) [
  | inl b ↦ rw b (Perm.trans (Perm.cons y (insert_number-Perm cmp x ys)) (Perm.swap x y ys))
  | inr b ↦ rw b Perm.rfl
]

sort_numbers-Perm : (cmp : ℕ → ℕ → Option Ordering) (xs : List ℕ) → Perm (sort_numbers cmp xs) xs
unfolding sort_numbers
sort_numbers-Perm cmp [] = Perm.rfl
sort_numbers-Perm cmp (x ∷ xs) =
    Perm.trans (insert_number-Perm cmp x (sort_numbers cmp xs))
      (Perm.cons x (sort_numbers-Perm cmp xs))

insert_number-All :
    (P : ℕ → Type 0) (cmp : ℕ → ℕ → Option Ordering) (x : ℕ) (ys : List ℕ)
    → P x
    → All P ys
    → All P (insert_number cmp x ys)
unfolding insert_number
insert_number-All P cmp x [] p a = (p, tt)
insert_number-All P cmp x (y ∷ ys) p a = elim (Bool-cases (is_behind (cmp x y))) [
  | inl b ↦ rw b (a.0, insert_number-All P cmp x ys p a.1)
  | inr b ↦ rw b (p, a)
]

sort_numbers-All :
    (P : ℕ → Type 0) (cmp : ℕ → ℕ → Option Ordering) (xs : List ℕ)
    → All P xs
    → All P (sort_numbers cmp xs)
unfolding sort_numbers
sort_numbers-All P cmp [] a = tt
sort_numbers-All P cmp (x ∷ xs) a =
    insert_number-All P cmp x (sort_numbers cmp xs) a.0 (sort_numbers-All P cmp xs a.1)

indices-All : (n i left : ℕ) → i + left ≤ n → All (λ k. k < n) (indices i left)
indices-All n i zero h = tt
indices-All n i (suc left) h = (omega (arith, h), indices-All n (suc i) left (omega (arith, h)))

turned_not_behind : (o : Option Ordering) → is_behind o ≡ true → is_behind (turned o) ≡ false
turned_not_behind none h = refl
turned_not_behind (some Ordering.lt) h = absurd cc
turned_not_behind (some Ordering.eq) h = refl
turned_not_behind (some Ordering.gt) h = refl

module _ (cmp : ℕ → ℕ → Option Ordering) (n : ℕ) (v : Consistent cmp n) where
  abbrev Behind : ℕ → ℕ → Type 0
  Behind a b = is_behind (cmp a b) ≡ false

  passes_on :
      (x y : ℕ) (ys : List ℕ)
      → x < n
      → y < n
      → All (λ k. k < n) ys
      → Behind x y
      → All (Behind y) ys
      → All (Behind x) ys
  passes_on x y [] p q w b a = tt
  passes_on x y (z ∷ ys) p q w b a = (v.goes_on x y z p q w.0 b a.0, passes_on x y ys p q w.1 b a.1)

  insert_number-Ascending :
      (x : ℕ) (ys : List ℕ)
      → x < n
      → All (λ k. k < n) ys
      → Ascending Behind ys
      → Ascending Behind (insert_number cmp x ys)
  unfolding insert_number
  insert_number-Ascending x [] p w a = (tt, tt)
  insert_number-Ascending x (y ∷ ys) p w a = elim (Bool-cases (is_behind (cmp x y))) [
    | inl b ↦ rw b (
      insert_number-All (Behind y) cmp x ys
          (ap is_behind (v.turns x y p w.0) ∙ turned_not_behind (cmp x y) b) a.0,
      insert_number-Ascending x ys p w.1 a.1,
    )
    | inr b ↦ rw b ((b, passes_on x y ys p w.0 w.1 b a.0), a)
  ]

  sort_numbers-Ascending :
      (xs : List ℕ) → All (λ k. k < n) xs → Ascending Behind (sort_numbers cmp xs)
  unfolding sort_numbers
  sort_numbers-Ascending [] w = tt
  sort_numbers-Ascending (x ∷ xs) w =
      insert_number-Ascending x (sort_numbers cmp xs) w.0 (sort_numbers-All (λ k. k < n) cmp xs w.1)
        (sort_numbers-Ascending xs w.1)

insertion_sort-SortsNumbers : SortsNumbers insertion_sort
insertion_sort-SortsNumbers = record {
  sorts = λ cmp n v.
      let within = indices-All n 0 n (omega arith) in
      (
        sort_numbers cmp (indices 0 n),
        refl,
        sort_numbers-Perm cmp (indices 0 n),
        sort_numbers-All (λ k. k < n) cmp (indices 0 n) within,
        sort_numbers-Ascending cmp n v (indices 0 n) within,
      );
}

flags_scanned :
    qb_scan
      (passes no_order
        (row_schema_init (col_types (named_cols by_flag.table flags)))
        (named_cols by_flag.table flags)
        by_flag.root_condition)
      flag_db.lsm
      flag_db.btree
    ≡ some two_found
unfolding db_query qb_sort qb_limit qb_scan lsm_scan_cb memtable_iterate scan_items passes
    join_table_named key_cmp memcmp
flags_scanned = refl

by_flag_alone : by_flag.has_join ≡ false
unfolding db_query qb_sort qb_limit
by_flag_alone = refl

flags-Sortable :
    Sortable
      (sort_by by_flag (named_cols by_flag.table flags))
      (row_schema_init (col_types (named_cols by_flag.table flags)))
      two_found.rows
unfolding db_query qb_sort qb_limit row_schema_init row_extract_column extract_from
flags-Sortable = (refl, ((_, refl), ((_, refl), tt)))

qb_exec-Perm_example :
    (sorted shown rest : List Bytes) × (qb_exec no_order insertion_sort no_order by_flag flags
        flag_db
      ≡ some (
        flag_db,
        record {
          num_rows = length shown;
          next = 0;
          cols = named_cols by_flag.table flags;
          is_fts = false;
          doc_ids = [];
          scores = [];
          rows = shown;
        },
      ))
    × Perm sorted two_found.rows
    × Arranged
        (sort_by by_flag (named_cols by_flag.table flags))
        (row_schema_init (col_types (named_cols by_flag.table flags)))
        by_flag.sort_ascending
        two_found.rows
        sorted
    × (shown ++ rest ≡ sorted)
    × (length shown ≡ shown_of by_flag (length two_found.rows))
qb_exec-Perm_example =
    qb_exec-Perm no_order insertion_sort insertion_sort-SortsNumbers by_flag no_order flags flag_db
      two_found by_flag_alone flags_scanned flags-Sortable
