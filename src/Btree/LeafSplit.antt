-- ===== src/Btree/LeafSplit.antt =====
-- The laws of the split of a full leaf of the B+tree, src/storage/btree.c.
use kanbudb.Prelude.{
  ℕ, zero, suc, ◌<◌, ◌≡◌, true, false, List, [], ◌∷◌, arith, if◌then◌else◌, length, take, drop, All,
  length-drop, length-take, Bytes,
}
use kanbudb.Key.{below}
use kanbudb.Key.Order.{below_refl, below_trans, below_lt, is_eq_iff}
use kanbudb.Btree.{Item, first_key, node_full, split_node, node_search}
use kanbudb.Btree.Laws.{AtLeast, IsAscending, SplitLaws}
use kanbudb.Btree.Leaf.{lookup, lookup-below, All-below, leaf_search-lookup}

All-take :
    (P : Bytes → Type 0) (n : ℕ) (xs : List Item)
    → All (λ (x : Item). P x.key) xs
    → All (λ (x : Item). P x.key) (take n xs)
All-take P zero xs a = tt
All-take P (suc n) [] a = tt
All-take P (suc n) (x ∷ xs) a = (a.0, All-take P n xs a.1)

All-drop :
    (P : Bytes → Type 0) (n : ℕ) (xs : List Item)
    → All (λ (x : Item). P x.key) xs
    → All (λ (x : Item). P x.key) (drop n xs)
All-drop P zero xs a = a
All-drop P (suc n) [] a = tt
All-drop P (suc n) (x ∷ xs) a = All-drop P n xs a.1

first_key-All :
    (P : Bytes → Type 0) (xs : List Item)
    → 0 < length xs
    → All (λ (x : Item). P x.key) xs
    → P (first_key xs)
first_key-All P [] h a = absurd (omega arith)
first_key-All P (x ∷ xs) h a = a.0

take-IsAscending : (n : ℕ) (xs : List Item) → IsAscending xs → IsAscending (take n xs)
take-IsAscending zero xs o = tt
take-IsAscending (suc n) [] o = tt
take-IsAscending (suc n) (x ∷ xs) o =
    (All-take (λ k. below x.key k ≡ true) n xs o.0, take-IsAscending n xs o.1)

drop-IsAscending : (n : ℕ) (xs : List Item) → IsAscending xs → IsAscending (drop n xs)
drop-IsAscending zero xs o = o
drop-IsAscending (suc n) [] o = tt
drop-IsAscending (suc n) (x ∷ xs) o = drop-IsAscending n xs o.1

drop_pos : (n : ℕ) (xs : List Item) → n < length xs → 0 < length (drop n xs)
drop_pos zero xs h = h
drop_pos (suc n) [] h = absurd (omega arith)
drop_pos (suc n) (x ∷ xs) h = drop_pos n xs (omega arith)

take-below :
    (n : ℕ) (xs : List Item)
    → n < length xs
    → IsAscending xs
    → All (λ (x : Item). below x.key (first_key (drop n xs)) ≡ true) (take n xs)
take-below zero xs h o = tt
take-below (suc n) [] h o = tt
take-below (suc n) (x ∷ xs) h o = (
  first_key-All (λ k. below x.key k ≡ true) (drop n xs) (drop_pos n xs (omega arith))
      (All-drop (λ k. below x.key k ≡ true) n xs o.0),
  take-below n xs (omega arith) o.1,
)

above_first :
    (x : Item) (xs : List Item)
    → All (λ (y : Item). below x.key y.key ≡ true) xs
    → All (λ (y : Item). below y.key x.key ≡ false) xs
above_first x [] a = tt
above_first x (y ∷ ys) a =
    ground (arith, above_first x ys a.1, below_trans x.key y.key x.key, below_refl x.key)

drop_above :
    (xs : List Item) → IsAscending xs → All (λ (y : Item). below y.key (first_key xs) ≡ false) xs
drop_above [] o = tt
drop_above (x ∷ xs) o = (below_refl x.key, above_first x xs o.0)

lookup_split :
    (q : Bytes) (n : ℕ) (xs : List Item)
    → n < length xs
    → IsAscending xs
    → lookup q xs
      ≡ (if below q (first_key (drop n xs)) then lookup q (take n xs) else lookup q (drop n xs))
lookup_split q zero [] h o = absurd (omega arith)
lookup_split q zero (x ∷ xs) h o = ground (arith, lookup-below q (x ∷ xs), All-below q x xs)
lookup_split q (suc n) [] h o = absurd (omega arith)
lookup_split q (suc n) (x ∷ xs) h o = ground (
  arith,
  lookup_split q n xs,
  (is_eq_iff q x.key).0,
  first_key-All (λ k. below x.key k ≡ true) (drop n xs) (drop_pos n xs (omega arith))
      (All-drop (λ k. below x.key k ≡ true) n xs o.0),
)

-- The separator is above the first item, which stays.
leaf_strict :
    (k : Bytes) (xs : List Item)
    → 8 < length xs
    → IsAscending xs
    → All (λ (x : Item). AtLeast k x.key) xs
    → below k (first_key (drop 8 xs)) ≡ true
leaf_strict k [] len o a = absurd (omega (arith, len))
leaf_strict k (x ∷ xs) len o a =
    below_lt k x.key (first_key (drop 8 (x ∷ xs))) a.0 (take-below 8 (x ∷ xs) len o).0

pub leaf-SplitLaws : (xs : List Item) → node_full 0 xs ≡ true → SplitLaws 0 xs
unfolding node_full split_node node_search
leaf-SplitLaws xs f =
    let len : 8 < length xs = ground arith in
    record {
      all = λ P a. (
        All-take P 8 xs a,
        first_key-All P (drop 8 xs) (drop_pos 8 xs len) (All-drop P 8 xs a),
        All-drop P 8 xs a,
      );
      left_below = λ o. take-below 8 xs len o;
      right_above = λ o. drop_above (drop 8 xs) (drop-IsAscending 8 xs o);
      left_ordered = λ o. take-IsAscending 8 xs o;
      right_ordered = λ o. drop-IsAscending 8 xs o;
      search_halves = λ q o. rw (leaf_search-lookup q xs o) (
          rw (leaf_search-lookup q (take 8 xs) (take-IsAscending 8 xs o)) (
            rw (leaf_search-lookup q (drop 8 xs) (drop-IsAscending 8 xs o))
              (lookup_split q 8 xs len o)));
      misses = λ key m. (tt, tt);
      strict = λ k o a. leaf_strict k xs len o a;
      not_full =
          (rw (length-take 8 xs (omega (arith, len))), (rw (length-drop 8 xs) (ground arith)));
    }
