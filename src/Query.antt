-- ===== src/Query.antt =====
-- Queries, src/query/query_builder.c: the builder, the conditions, and the scan of `qb_exec` over the memtables
-- and the B+tree. A C string is the list of its characters. The comparison of floating-point
-- columns is a parameter. `none` as a result: the code reads behind the end of a row.
pub mod Laws
pub mod Exec
pub mod Rows
pub mod Complete
pub mod Found
pub mod Answers
pub mod Results
pub mod Join
pub mod Sort
use Prim.Native.Nat.{Ordering, compare}
use kanbudb.Prelude.{
  ℕ, suc, ◌+◌, ◌-◌, ◌*◌, ◌^◌, Bool, true, false, ◌&&◌, ◌||◌, not, Option, none, some, List, [], ◌∷◌,
  ltb, leb, ◌==◌, if◌then◌else◌, length, get_or, take, drop, Bytes, of_le,
}
use kanbudb.Status.{Status}
use kanbudb.Key.{memcmp, key_cmp, is_lt, is_gt, is_eq}
use kanbudb.Memtable.{SkipNode}
use kanbudb.Btree.{Item}
use kanbudb.RowFormat.{ColType, Schema, Extracted, row_extract_column}

-- `qb_condition_t`
pub data Cond : Type 0 where
  leaf : Bytes → Bytes → Bytes → Cond
  conj disj : Cond → Cond → Cond
  neg : Cond → Cond

-- `struct query_builder_t`
pub record QueryBuilder : Type 0 where
  pub table : Bytes
  pub root_condition : Option Cond
  pub sort_column : Bytes
  pub sort_ascending : Bool
  pub has_sort : Bool
  pub limit : ℕ
  pub has_limit : Bool
  pub join_table : Bytes
  pub join_on_local : Bytes
  pub join_on_foreign : Bytes
  pub has_join : Bool

-- The copy of a string into an array of this size.
abbrev pub cut : ℕ → Bytes → Bytes
cut size s = take (size - 1) s

unfoldable pub db_query : Bytes → QueryBuilder
db_query table = record {
  table = cut 64 table;
  root_condition = none;
  sort_column = [];
  sort_ascending = false;
  has_sort = false;
  limit = 0;
  has_limit = false;
  join_table = [];
  join_on_local = [];
  join_on_foreign = [];
  has_join = false;
}

unfoldable pub qb_from : Bytes → QueryBuilder → QueryBuilder
qb_from table qb = record qb { table = cut 64 table }

-- `qb_cond`
unfoldable pub qb_cond : Bytes → Bytes → Bytes → Cond
qb_cond column op value = Cond.leaf (cut 64 column) (cut 16 op) (cut 256 value)

unfoldable pub qb_filter : Bytes → Bytes → Bytes → QueryBuilder → QueryBuilder
qb_filter column op value qb =
    let new : Cond = Cond.leaf (cut 64 column) (cut 16 op) (cut 256 value) in
    record qb {
      root_condition = elim qb.root_condition [
        | none ↦ some new
        | some root ↦ some (Cond.conj root new)
      ];
    }

unfoldable pub qb_where : Cond → QueryBuilder → QueryBuilder
qb_where cond qb = record qb { root_condition = some cond }

unfoldable pub qb_sort : Bytes → Bool → QueryBuilder → QueryBuilder
qb_sort column ascending qb = record qb {
  sort_column = cut 64 column;
  sort_ascending = ascending;
  has_sort = true;
}

-- The limit as the 32 bits of an `int`: a negative one is refused.
unfoldable pub qb_limit : ℕ → QueryBuilder → QueryBuilder × Status
qb_limit limit qb =
    if leb (2 ^ 31) limit
    then (qb, Status.inval)
    else (record qb { limit = limit; has_limit = true }, Status.ok)

unfoldable pub qb_join : Bytes → Bytes → Bytes → QueryBuilder → QueryBuilder
qb_join table on_local on_foreign qb = record qb {
  join_table = cut 64 table;
  join_on_local = cut 64 on_local;
  join_on_foreign = cut 64 on_foreign;
  has_join = true;
}

-- Digits as `atoll` reads them.
abbrev pub digits : ℕ → Bytes → ℕ
digits n [] = n
digits n (c ∷ s) = if leb 48 c && leb c 57 then digits (n * 10 + (c - 48)) s else n

abbrev pub is_space : ℕ → Bool
is_space c = c == 32 || leb 9 c && leb c 13

-- 64-bit integers stand with 2 ^ 63 added to them. A number that does not fit becomes the nearest.
abbrev pub positive : ℕ → ℕ
positive n = if ltb n (2 ^ 63) then 2 ^ 63 + n else 2 ^ 64 - 1

abbrev pub negative : ℕ → ℕ
negative n = 2 ^ 63 - n

-- `parse_int`, which is `atoll`.
unfoldable pub parse_int : Bytes → ℕ
parse_int [] = 2 ^ 63
parse_int (c ∷ s) =
    let skipped = parse_int s in
    if is_space c
    then skipped
    else if c == 45
    then negative (digits 0 s)
    else if c == 43
    then positive (digits 0 s)
    else positive (digits 0 (c ∷ s))

-- A column of type INT32 or INT64 as such a number.
abbrev pub int_value : ColType → Bytes → ℕ
int_value ColType.int32 d =
    let n = of_le (take 4 d) in if ltb n (2 ^ 31) then 2 ^ 63 + n else 2 ^ 63 + n - 2 ^ 32
int_value _ d = let n = of_le (take 8 d) in if ltb n (2 ^ 63) then 2 ^ 63 + n else n - 2 ^ 63

-- `strcmp(a, b) == 0`
abbrev pub equal_strings : Bytes → Bytes → Bool
equal_strings a b = is_eq (key_cmp a b)

abbrev pub bit : Bool → ℕ
bit true = 1
bit false = 0

-- The comparison of a string column, of which only `min_len` bytes are read.
abbrev pub string_cmp : Bytes → ℕ → Bytes → Option Ordering
string_cmp d col_len literal =
    let min_len = if ltb col_len (length literal) then col_len else length literal in
    if ltb (length d) min_len
    then none
    else some
        (elim (memcmp min_len d literal) [ Ordering.eq ↦ compare col_len (length literal) | c ↦ c ])

-- The operators `=`, `!=`, `>`, `<`, `>=` and `<=`.
abbrev pub op_holds : Bytes → Ordering → Bool
op_holds op cmp =
    if equal_strings op (61 ∷ [])
    then is_eq cmp
    else if equal_strings op (33 ∷ 61 ∷ [])
    then not (is_eq cmp)
    else if equal_strings op (62 ∷ [])
    then is_gt cmp
    else if equal_strings op (60 ∷ [])
    then is_lt cmp
    else if equal_strings op (62 ∷ 61 ∷ [])
    then not (is_lt cmp)
    else if equal_strings op (60 ∷ 61 ∷ [])
    then not (is_gt cmp)
    else false

module _ (float_cmp : ColType → Bytes → Bytes → Ordering) where
  -- What `filter_match` computes as `cmp`: a type that has no comparison is the outer `none`.
  abbrev pub col_cmp : Bytes → ℕ → ColType → Bytes → Option (Option Ordering)
  col_cmp d col_len ColType.int32 literal =
      some (some (compare (int_value ColType.int32 d) (parse_int literal)))
  col_cmp d col_len ColType.int64 literal =
      some (some (compare (int_value ColType.int64 d) (parse_int literal)))
  col_cmp d col_len ColType.float literal = some (some (float_cmp ColType.float d literal))
  col_cmp d col_len ColType.double literal = some (some (float_cmp ColType.double d literal))
  col_cmp d col_len ColType.bool literal =
      let yes = equal_strings literal (116 ∷ 114 ∷ 117 ∷ 101 ∷ []) in
      some (
        some
          (compare (bit (not (get_or d 0 0 == 0))) (bit (yes || equal_strings literal (49 ∷ [])))))
  col_cmp d col_len ColType.string literal = some (string_cmp d col_len literal)
  col_cmp d col_len ColType.blob literal = none

  -- `filter_match`, on the bytes from the column on.
  unfoldable pub filter_match : Bytes → ℕ → ColType → Bytes → Bytes → Option Bool
  filter_match d col_len type op literal = elim (col_cmp d col_len type literal) [
    | none ↦ some false
    | some none ↦ none
    | some (some cmp) ↦ some (op_holds op cmp)
  ]

  -- The part of `condition_match_ctx_t` that is the same for all rows: the schema, and the names and
  -- types of the columns.
  module _ (schema : Schema) (cols : List (Bytes × ColType)) where
    -- The number and the type of a column.
    unfoldable pub find_col : ℕ → Bytes → List (Bytes × ColType) → Option (ℕ × ColType)
    find_col i name [] = none
    find_col i name ((n, t) ∷ rest) =
        if equal_strings n name then some (i, t) else find_col (suc i) name rest

    abbrev pub leaf_match : Bytes → Bytes → Bytes → Bytes → Option Bool
    leaf_match row column op value = elim (find_col 0 column cols) [
      | none ↦ some false
      | some (i, t) ↦ elim (row_extract_column schema i row) [
        | Extracted.null ↦ some false
        | Extracted.fault ↦ none
        | Extracted.column off len ↦ filter_match (drop off row) len t op value
      ]
    ]

    -- `condition_match`
    unfoldable pub condition_match : Bytes → Cond → Option Bool
    condition_match row (Cond.leaf column op value) = leaf_match row column op value
    condition_match row (Cond.conj l r) = elim (condition_match row l) [
      | none ↦ none
      | some false ↦ some false
      | some true ↦ condition_match row r
    ]
    condition_match row (Cond.disj l r) = elim (condition_match row l) [
      | none ↦ none
      | some true ↦ some true
      | some false ↦ condition_match row r
    ]
    condition_match row (Cond.neg c) = elim (condition_match row c) [
      | none ↦ none
      | some b ↦ some (not b)
    ]

    -- `pass`: a query without a condition takes every row.
    unfoldable pub passes : Option Cond → Bytes → Option Bool
    passes none row = some true
    passes (some cond) row = condition_match row cond
