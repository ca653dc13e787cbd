-- ===== src/Tests/Trees.antt =====
-- The theorems on the B+tree, src/storage/btree.c, at work on small trees.
use kanbudb.Prelude.{
  ℕ, zero, suc, ◌+◌, ◌≤◌, ◌<◌, ◌≡◌, refl, inr, true, false, none, some, List, [], ◌∷◌, arith,
  if◌then◌else◌, All,
}
use kanbudb.Status.{Status}
use kanbudb.Key.{memcmp, key_cmp, is_eq, below}
use kanbudb.Btree.{
  Item, node_full, split_node, Btree, btree_create, btree_put, btree_get, btree_delete,
  btree_build_sorted, only, more,
}
use kanbudb.Btree.Laws.{IsAscending}
use kanbudb.Btree.Tree.{
  IsValid, MissesSplits, btree_get-btree_put, btree_put-IsValid, btree_get-btree_delete,
}
use kanbudb.Btree.Build.{find_item, btree_get-btree_build_sorted}
use kanbudb.Btree.Lost.{btree_put_lost}

abbrev node : ℕ → Item
node n = record { key = n ∷ []; value = n ∷ [] }

-- The items n, n + 1, ... of this number.
abbrev run_from : ℕ → ℕ → List Item
run_from n zero = []
run_from n (suc count) = node n ∷ run_from (suc n) count

run_from-above :
    (m n count : ℕ) → m < n → All (λ (y : Item). below (m ∷ []) y.key ≡ true) (run_from n count)
unfolding below key_cmp memcmp
run_from-above m n zero h = tt
run_from-above m n (suc count) h = (ground arith, run_from-above m (suc n) count (omega arith))

run_from-below :
    (n count bound : ℕ)
    → n + count ≤ bound
    → All (λ (y : Item). below y.key (bound ∷ []) ≡ true) (run_from n count)
unfolding below key_cmp memcmp
run_from-below n zero bound h = tt
run_from-below n (suc count) bound h =
    (ground arith, run_from-below (suc n) count bound (omega arith))

run_from-IsAscending : (n count : ℕ) → IsAscending (run_from n count)
run_from-IsAscending n zero = tt
run_from-IsAscending n (suc count) =
    (run_from-above n (suc n) count (omega arith), run_from-IsAscending (suc n) count)

-- A full leaf with the items 0 to 15 to the left of the separator 100.
abbrev two_leaves : Btree
two_leaves = record { height = 1; root = more (run_from 0 16) (100 ∷ []) (only (run_from 101 3)) }

two_leaves-IsValid : IsValid two_leaves
unfolding below key_cmp memcmp
two_leaves-IsValid = (
  run_from-IsAscending 0 16,
  run_from-below 0 16 100 (omega arith),
  (refl, (refl, (refl, tt))),
  run_from-IsAscending 101 3,
)

fifty-MissesSplits : MissesSplits (50 ∷ []) two_leaves
unfolding split_node
fifty-MissesSplits = ((λ f e. ground (arith, e), tt), tt, (λ f e. ground (arith, e), tt))

btree_get-btree_put_example : btree_get (50 ∷ []) (btree_put (50 ∷ []) (1 ∷ []) two_leaves) ≡ (
    if is_eq (key_cmp (50 ∷ []) (50 ∷ [])) then some (1 ∷ []) else btree_get (50 ∷ []) two_leaves)
btree_get-btree_put_example =
    btree_get-btree_put (50 ∷ []) (50 ∷ []) (1 ∷ []) two_leaves two_leaves-IsValid
      fifty-MissesSplits

btree_put-IsValid_example : IsValid (btree_put (50 ∷ []) (1 ∷ []) two_leaves)
btree_put-IsValid_example =
    btree_put-IsValid (50 ∷ []) (1 ∷ []) two_leaves two_leaves-IsValid (inr fifty-MissesSplits)

btree_get-btree_delete_example :
    IsValid (btree_delete (3 ∷ []) two_leaves).0
    × ((btree_delete (3 ∷ []) two_leaves).1
        ≡ elim (btree_get (3 ∷ []) two_leaves) [ none ↦ Status.not_found | some v ↦ Status.ok ])
    × (btree_get (102 ∷ []) (btree_delete (3 ∷ []) two_leaves).0
        ≡ (if is_eq (key_cmp (102 ∷ []) (3 ∷ [])) then none else btree_get (102 ∷ []) two_leaves))
btree_get-btree_delete_example =
    btree_get-btree_delete (102 ∷ []) (3 ∷ []) two_leaves two_leaves-IsValid

btree_get-btree_build_sorted_example :
    btree_get (33 ∷ []) (btree_build_sorted (run_from 0 40) btree_create)
    ≡ find_item (33 ∷ []) (run_from 0 40)
btree_get-btree_build_sorted_example =
    btree_get-btree_build_sorted (33 ∷ []) (run_from 0 40) (run_from-IsAscending 0 40)

two_leaves_open : node_full 1 two_leaves.root ≡ false
unfolding node_full
two_leaves_open = refl

run_16_full : node_full 0 (run_from 0 16) ≡ true
unfolding node_full
run_16_full = refl

run_16_middle : (split_node 0 (run_from 0 16)).1 ≡ 8 ∷ []
unfolding split_node
run_16_middle = refl

btree_put_lost_example :
    btree_get (8 ∷ []) (btree_put (8 ∷ []) (1 ∷ []) two_leaves) ≡ btree_get (8 ∷ []) two_leaves
unfolding below key_cmp memcmp
btree_put_lost_example =
    btree_put_lost 0 (8 ∷ []) (1 ∷ []) (100 ∷ []) (run_from 0 16) (only (run_from 101 3))
      two_leaves-IsValid two_leaves_open refl run_16_full run_16_middle
