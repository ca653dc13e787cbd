-- ===== src/Btree.antt =====
-- The B+tree, src/storage/btree.c. A node of height 0 is a leaf, the list of its items; a node of
-- height h + 1 is a row of children of height h with a separator key between each two. All leaves
-- stand at one depth, as the code builds them, and their chain of `next` pointers is their order
-- in the tree. Allocations are taken to succeed.
pub mod Laws
pub mod Leaf
pub mod LeafSplit
pub mod LeafReads
pub mod Inner
pub mod InnerInsert
pub mod InnerDelete
pub mod Tree
pub mod Build
pub mod Lost
pub mod Absent
pub mod Contents
pub mod Cursor
use kanbudb.Prelude.{
  ℕ, zero, suc, Bool, false, ◌||◌, not, Option, none, some, List, [], ◌∷◌, ◌==◌, if◌then◌else◌,
  length, take, drop, Bytes,
}
use kanbudb.Status.{Status}
use kanbudb.Key.{key_cmp, is_gt, is_eq, below}

-- `btree_kv_t`
pub record Item : Type 0 where
  pub key : Bytes
  pub value : Bytes

-- The children of an inner node, with the separators between them.
pub data Kids (C : Type 0) : Type 0 where
  only : C → Kids C
  more : C → Bytes → Kids C → Kids C

abbrev pub Node : ℕ → Type 0
Node zero = List Item
Node (suc h) = Kids (Node h)

abbrev pub max_keys : ℕ
max_keys = 16

abbrev pub half_keys : ℕ
half_keys = 8

module _ {C : Type 0} where
  abbrev pub num_seps : Kids C → ℕ
  num_seps (only c) = 0
  num_seps (more c k rest) = suc (num_seps rest)

  -- `split_child` of an inner node: the first `n` separators and their children, the separator
  -- that moves up, and the rest. It is called with more than `n` separators.
  unfoldable pub split_kids : ℕ → Kids C → Kids C × Bytes × Kids C
  split_kids n (only c) = (only c, [], only c)
  split_kids zero (more c k rest) = (only c, k, rest)
  split_kids (suc n) (more c k rest) = let (l, s, r) = split_kids n rest in (more c k l, s, r)

  -- The child that the loop of `node_search` and of `node_delete` stops at.
  unfoldable pub child_at : Bytes → Kids C → C
  child_at key (only c) = c
  child_at key (more c k rest) = if below key k then c else child_at key rest

  -- Whether the loop of `node_insert_nonfull`, which runs from the last separator down, stops at
  -- one of these separators.
  abbrev pub reaches : Bytes → Kids C → Bool
  reaches key (only c) = false
  reaches key (more c k rest) = reaches key rest || not (below key k)

  abbrev pub append_kids : Kids C → Bytes → Kids C → Kids C
  append_kids (only c) k rest = more c k rest
  append_kids (more c s r) k rest = more c s (append_kids r k rest)

  module _ (full : C → Bool) (split : C → C × Bytes × C) (insert : C → C) (key : Bytes) where
    -- The child is split first if it is full.
    unfoldable pub insert_child : C → Kids C
    insert_child c =
        if full c
        then (let (l, s, r) = split c in
            if is_gt (key_cmp key s)
            then more l s (only (insert r))
            else more (insert l) s (only r))
        else only (insert c)

    unfoldable pub insert_kids : Kids C → Kids C
    insert_kids (only c) = insert_child c
    insert_kids (more c k rest) =
        if reaches key (more c k rest)
        then more c k (insert_kids rest)
        else append_kids (insert_child c) k rest

  unfoldable pub delete_kids : (C → C × Status) → Bytes → Kids C → Kids C × Status
  delete_kids delete key (only c) = let (d, rc) = delete c in (only d, rc)
  delete_kids delete key (more c k rest) =
      if below key k
      then (let (d, rc) = delete c in (more d k rest, rc))
      else (let (r, rc) = delete_kids delete key rest in (more c k r, rc))

-- The leaf branch of `node_search`: the scan stops at the first larger key, and the item before
-- it is looked at.
abbrev pub item_value : Bytes → Option Item → Option Bytes
item_value key none = none
item_value key (some x) = if is_eq (key_cmp key x.key) then some x.value else none

unfoldable pub leaf_search : Bytes → Option Item → List Item → Option Bytes
leaf_search key prev [] = item_value key prev
leaf_search key prev (x ∷ xs) =
    if below key x.key then item_value key prev else leaf_search key (some x) xs

-- The leaf branch of `node_insert_nonfull`: the update of an existing key, `none` if there is none,
unfoldable pub update_item : Bytes → Bytes → List Item → Option (List Item)
update_item key value [] = none
update_item key value (x ∷ xs) =
    if is_eq (key_cmp key x.key)
    then some (record x { value = value } ∷ xs)
    else elim (update_item key value xs) [ none ↦ none | some ys ↦ some (x ∷ ys) ]

-- and the insertion, which runs from the last item down; `none` if it passed all these items.
unfoldable pub place_item : Item → List Item → Option (List Item)
place_item it [] = none
place_item it (x ∷ xs) = elim (place_item it xs) [
  | some ys ↦ some (x ∷ ys)
  | none ↦ if below it.key x.key then none else some (x ∷ it ∷ xs)
]

unfoldable pub leaf_insert : Bytes → Bytes → List Item → List Item
leaf_insert key value items = elim (update_item key value items) [
  | some ys ↦ ys
  | none ↦
      let it : Item = record { key = key; value = value } in
      elim (place_item it items) [ some ys ↦ ys | none ↦ it ∷ items ]
]

-- The leaf branch of `node_delete`.
unfoldable pub leaf_delete : Bytes → List Item → List Item × Status
leaf_delete key [] = ([], Status.not_found)
leaf_delete key (x ∷ xs) =
    if is_eq (key_cmp key x.key)
    then (xs, Status.ok)
    else (let (ys, rc) = leaf_delete key xs in (x ∷ ys, rc))

-- The key of the first item that moves to the new leaf.
abbrev pub first_key : List Item → Bytes
first_key [] = []
first_key (x ∷ xs) = x.key

unfoldable pub node_full : (h : ℕ) → Node h → Bool
node_full zero items = length items == max_keys
node_full (suc h) kids = num_seps kids == max_keys

-- `split_child` of a full child: what stays, the separator, and the new node.
unfoldable pub split_node : (h : ℕ) → Node h → Node h × Bytes × Node h
split_node zero items =
    (take half_keys items, first_key (drop half_keys items), drop half_keys items)
split_node (suc h) kids = split_kids half_keys kids

-- `node_insert_nonfull`
unfoldable pub node_insert_nonfull : (h : ℕ) → Bytes → Bytes → Node h → Node h
node_insert_nonfull zero key value items = leaf_insert key value items
node_insert_nonfull (suc h) key value kids =
    insert_kids (node_full h) (split_node h) (node_insert_nonfull h key value) key kids

-- `node_search`: `none` is KANBUDB_ERR_NOTFOUND.
unfoldable pub node_search : (h : ℕ) → Bytes → Node h → Option Bytes
node_search zero key items = leaf_search key none items
node_search (suc h) key kids = node_search h key (child_at key kids)

-- `node_delete`
unfoldable pub node_delete : (h : ℕ) → Bytes → Node h → Node h × Status
node_delete zero key items = leaf_delete key items
node_delete (suc h) key kids = delete_kids (node_delete h key) key kids

-- `kanbudb_btree_t`, with the height of its root.
pub record Btree : Type 0 where
  pub height : ℕ
  pub root : Node height

unfoldable pub btree_create : Btree
btree_create = record { height = 0; root = [] }

-- `btree_put`
unfoldable pub btree_put : Bytes → Bytes → Btree → Btree
btree_put key value bt =
    if node_full bt.height bt.root
    then (let (l, s, r) = split_node bt.height bt.root in
        record {
          height = suc bt.height;
          root = node_insert_nonfull (suc bt.height) key value (more l s (only r));
        })
    else record { height = bt.height; root = node_insert_nonfull bt.height key value bt.root }

unfoldable pub btree_get : Bytes → Btree → Option Bytes
btree_get key bt = node_search bt.height key bt.root

unfoldable pub btree_delete : Bytes → Btree → Btree × Status
btree_delete key bt =
    let (n, rc) = node_delete bt.height key bt.root in (record { height = bt.height; root = n }, rc)

-- `btree_build_sorted`
unfoldable pub btree_build_sorted : List Item → Btree → Btree
btree_build_sorted [] bt = bt
btree_build_sorted (x ∷ xs) bt = btree_build_sorted xs (btree_put x.key x.value bt)
