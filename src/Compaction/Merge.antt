-- ===== src/Compaction/Merge.antt =====
-- What the merged table of src/storage/compaction.c answers.
use kanbudb.Prelude.{
  ℕ, ◌≤◌, ◌≡◌, refl, true, false, Option, none, some, List, [], ◌∷◌, arith, ltb, if◌then◌else◌,
  Bool-cases, All, Bytes,
}
use kanbudb.Key.{key_cmp, is_gt, is_eq, below}
use kanbudb.Key.Order.{
  key_cmp_refl, key_cmp_flip_lt, key_cmp_flip_gt, below_trans, below_eq, is_eq_iff,
}
use kanbudb.Compaction.{MergeEntry, merge_entry_compare, is_tombstone, same_key, merge_loop}

-- Sorted by `merge_entry_compare`.
abbrev pub IsSorted : List MergeEntry → Type 0
IsSorted [] = Unit
IsSorted (x ∷ xs) =
    All (λ (y : MergeEntry). is_gt (merge_entry_compare x y) ≡ false) xs × IsSorted xs

-- The entry of a key with the greatest sequence number.
abbrev pub newest : Bytes → List MergeEntry → Option MergeEntry
newest q [] = none
newest q (x ∷ xs) =
    if is_eq (key_cmp q x.key)
    then elim (newest q xs) [
      | none ↦ some x
      | some y ↦ if ltb x.sequence y.sequence then some y else some x
    ]
    else newest q xs

-- The value of an entry that is not a tombstone.
abbrev pub live : Option MergeEntry → Option Bytes
live none = none
live (some e) = if is_tombstone e then none else some e.value

-- What a table holds for a key.
abbrev pub table_value : Bytes → List MergeEntry → Option Bytes
table_value q [] = none
table_value q (x ∷ xs) = if is_eq (key_cmp q x.key) then some x.value else table_value q xs

same_key-key_cmp : (k key : Bytes) → same_key (some k) key ≡ is_eq (key_cmp key k)
unfolding same_key key_cmp
same_key-key_cmp k key = ground arith

abbrev NotBelow : Bytes → List MergeEntry → Type 0
NotBelow k xs = All (λ (y : MergeEntry). below y.key k ≡ false) xs

NotBelow-IsSorted :
    (x : MergeEntry) (xs : List MergeEntry)
    → All (λ (y : MergeEntry). is_gt (merge_entry_compare x y) ≡ false) xs
    → NotBelow x.key xs
unfolding merge_entry_compare below
NotBelow-IsSorted x [] a = tt
NotBelow-IsSorted x (y ∷ xs) a = (
  ground (
    arith,
    a.0,
    key_cmp_flip_gt x.key y.key,
    key_cmp_flip_lt x.key y.key,
    key_cmp_flip_lt y.key x.key,
  ),
  NotBelow-IsSorted x xs a.1,
)

newest_absent :
    (q k : Bytes) (xs : List MergeEntry) → below q k ≡ true → NotBelow k xs → newest q xs ≡ none
newest_absent q k [] h a = refl
newest_absent q k (x ∷ xs) h a =
    ground (arith, newest_absent q k xs h a.1, a.0, (is_eq_iff q x.key).0)

abbrev AtMost : ℕ → Option MergeEntry → Type 0
AtMost n none = Unit
AtMost n (some y) = y.sequence ≤ n

newest-AtMost :
    (x : MergeEntry) (xs : List MergeEntry)
    → All (λ (y : MergeEntry). is_gt (merge_entry_compare x y) ≡ false) xs
    → AtMost x.sequence (newest x.key xs)
unfolding merge_entry_compare
newest-AtMost x [] a = tt
newest-AtMost x (y ∷ xs) a = ground (arith, newest-AtMost x xs a.1, a.0)

newest_first :
    (x : MergeEntry) (xs : List MergeEntry)
    → All (λ (y : MergeEntry). is_gt (merge_entry_compare x y) ≡ false) xs
    → newest x.key (x ∷ xs) ≡ some x
newest_first x xs a = ground (arith, newest-AtMost x xs a, key_cmp_refl x.key)

table_value-merge_loop_from :
    (q : Bytes) (k : Bytes) (xs : List MergeEntry)
    → IsSorted xs
    → NotBelow k xs
    → table_value q (merge_loop (some k) xs)
      ≡ (if is_eq (key_cmp q k) then none else live (newest q xs))
unfolding merge_loop
table_value-merge_loop_from q k [] o a = ground arith
table_value-merge_loop_from q k (x ∷ xs) o a = ground (
  arith,
  same_key-key_cmp k x.key,
  table_value-merge_loop_from q k xs o.1 a.1,
  table_value-merge_loop_from q x.key xs o.1 (NotBelow-IsSorted x xs o.0),
  newest_first x xs o.0,
  newest_absent q x.key xs,
  NotBelow-IsSorted x xs o.0,
  below_eq q x.key,
  a.0,
  (is_eq_iff q x.key).0,
  (is_eq_iff q k).0,
  (is_eq_iff x.key k).0,
)

-- Over entries that are sorted by key, the newest first, the table that is written answers for every
-- key the value of its newest entry, and nothing if that is a tombstone or if there is no entry.
pub table_value-merge_loop :
    (q : Bytes) (xs : List MergeEntry)
    → IsSorted xs
    → table_value q (merge_loop none xs) ≡ live (newest q xs)
unfolding merge_loop same_key
table_value-merge_loop q [] o = refl
table_value-merge_loop q (x ∷ xs) o = ground (
  arith,
  table_value-merge_loop_from q x.key xs o.1 (NotBelow-IsSorted x xs o.0),
  newest_first x xs o.0,
  (is_eq_iff q x.key).0,
)

abbrev pub Ascending : List MergeEntry → Type 0
Ascending [] = Unit
Ascending (x ∷ xs) = All (λ (y : MergeEntry). below x.key y.key ≡ true) xs × Ascending xs

above_trans :
    (k j : Bytes) (xs : List MergeEntry)
    → below k j ≡ true
    → All (λ (y : MergeEntry). below j y.key ≡ true) xs
    → All (λ (y : MergeEntry). below k y.key ≡ true) xs
above_trans k j [] h a = tt
above_trans k j (y ∷ xs) h a = (below_trans k j y.key h a.0, above_trans k j xs h a.1)

merge_loop-above :
    (k : Bytes) (xs : List MergeEntry)
    → IsSorted xs
    → NotBelow k xs
    → All (λ (y : MergeEntry). below k y.key ≡ true) (merge_loop (some k) xs)
unfolding merge_loop
merge_loop-above k [] o a = tt
merge_loop-above k (x ∷ xs) o a = ground (
  arith,
  merge_loop-above k xs o.1 a.1,
  above_trans k x.key (merge_loop (some x.key) xs),
  merge_loop-above x.key xs o.1 (NotBelow-IsSorted x xs o.0),
  same_key-key_cmp k x.key,
  (is_eq_iff x.key k).1,
  below_eq x.key k,
  Bool-cases (below k x.key),
  a.0,
)

-- Over entries that are sorted by key, the table that is written has strictly ascending keys.
pub merge_loop-Ascending :
    (prev : Option Bytes) (xs : List MergeEntry) → IsSorted xs → Ascending (merge_loop prev xs)
unfolding merge_loop
merge_loop-Ascending prev [] o = tt
merge_loop-Ascending prev (x ∷ xs) o = ground (
  arith,
  merge_loop-Ascending prev xs o.1,
  merge_loop-Ascending (some x.key) xs o.1,
  merge_loop-above x.key xs o.1 (NotBelow-IsSorted x xs o.0),
)
