-- ===== src/Btree/LeafReads.antt =====
-- What a leaf of the B+tree, src/storage/btree.c, answers after an insertion, a split and a deletion.
use kanbudb.Prelude.{
  ◌≡◌, refl, ◌≢◌, true, none, some, List, [], ◌∷◌, arith, if◌then◌else◌, All, Bytes,
}
use kanbudb.Status.{Status}
use kanbudb.Key.{key_cmp, is_eq, below}
use kanbudb.Key.Order.{is_eq_iff}
use kanbudb.Btree.{
  Item, leaf_search, leaf_insert, leaf_delete, node_full, split_node, node_insert_nonfull,
  node_search, node_delete,
}
use kanbudb.Btree.Laws.{IsAscending, Laws}
use kanbudb.Btree.LeafSplit.{leaf-SplitLaws}
use kanbudb.Btree.Leaf.{lookup, lookup-below, leaf_search-lookup, leaf-InsertLaws}

-- On a leaf with ascending keys, an insertion keeps them ascending; a search for the inserted key
-- then answers the value, and a search for any other key answers what it did.
pub leaf_search-leaf_insert :
    (key value q : Bytes) (xs : List Item)
    → IsAscending xs
    → IsAscending (leaf_insert key value xs)
      × (leaf_search q none (leaf_insert key value xs)
          ≡ (if is_eq (key_cmp q key) then some value else leaf_search q none xs))
unfolding node_insert_nonfull node_search
leaf_search-leaf_insert key value q xs o =
    let laws = leaf-InsertLaws key value xs o in
    (
      laws.ordered,
      ground (arith, laws.search_self, laws.search_ne q, (is_eq_iff q key).0, (is_eq_iff q key).1),
    )

-- When a full leaf with ascending keys is split, its two halves have ascending keys, and a search
-- in the half that the separator points to answers what a search in the leaf did.
pub leaf_search-split_node :
    (q : Bytes) (xs : List Item)
    → IsAscending xs
    → node_full 0 xs ≡ true
    → IsAscending (split_node 0 xs).0
      × IsAscending (split_node 0 xs).2
      × (leaf_search q none xs ≡ (
          if below q (split_node 0 xs).1
          then leaf_search q none (split_node 0 xs).0
          else leaf_search q none (split_node 0 xs).2))
unfolding node_search
leaf_search-split_node q xs o f =
    let laws = leaf-SplitLaws xs f in
    (laws.left_ordered o, laws.right_ordered o, laws.search_halves q o)

module _ (key : Bytes) where
  All-leaf_delete :
      (P : Bytes → Type 0) (xs : List Item)
      → All (λ (x : Item). P x.key) xs
      → All (λ (x : Item). P x.key) (leaf_delete key xs).0
  unfolding leaf_delete
  All-leaf_delete P [] a = tt
  All-leaf_delete P (x ∷ xs) a = ground (arith, All-leaf_delete P xs a.1)

  leaf_delete-IsAscending : (xs : List Item) → IsAscending xs → IsAscending (leaf_delete key xs).0
  unfolding leaf_delete
  leaf_delete-IsAscending [] o = tt
  leaf_delete-IsAscending (x ∷ xs) o =
      ground
        (arith, leaf_delete-IsAscending xs o.1, All-leaf_delete (λ k. below x.key k ≡ true) xs o.0)

  lookup-leaf_delete_self :
      (xs : List Item) → IsAscending xs → lookup key (leaf_delete key xs).0 ≡ none
  unfolding leaf_delete
  lookup-leaf_delete_self [] o = refl
  lookup-leaf_delete_self (x ∷ xs) o =
      ground
        (arith, lookup-leaf_delete_self xs o.1, lookup-below x.key xs o.0, (is_eq_iff key x.key).0)

  lookup-leaf_delete_ne :
      (q : Bytes) (xs : List Item) → q ≢ key → lookup q (leaf_delete key xs).0 ≡ lookup q xs
  unfolding leaf_delete
  lookup-leaf_delete_ne q [] n = refl
  lookup-leaf_delete_ne q (x ∷ xs) n =
      ground (arith, lookup-leaf_delete_ne q xs n, (is_eq_iff q x.key).0, (is_eq_iff key x.key).0)

  leaf_delete-status :
      (xs : List Item)
      → (leaf_delete key xs).1
        ≡ elim (lookup key xs) [ none ↦ Status.not_found | some v ↦ Status.ok ]
  unfolding leaf_delete
  leaf_delete-status [] = refl
  leaf_delete-status (x ∷ xs) = ground (arith, leaf_delete-status xs)

  -- On a leaf with ascending keys, a deletion keeps them ascending; it answers NOTFOUND exactly if
  -- a search for the key did, a search for the key then answers NOTFOUND, and a search for any other
  -- key answers what it did.
  pub leaf_search-leaf_delete :
      (q : Bytes) (xs : List Item)
      → IsAscending xs
      → IsAscending (leaf_delete key xs).0
        × ((leaf_delete key xs).1
            ≡ elim (leaf_search key none xs) [ none ↦ Status.not_found | some v ↦ Status.ok ])
        × (leaf_search q none (leaf_delete key xs).0
            ≡ (if is_eq (key_cmp q key) then none else leaf_search q none xs))
  leaf_search-leaf_delete q xs o =
      let asc = leaf_delete-IsAscending xs o in
      (
        asc,
        rw (leaf_search-lookup key xs o) (leaf_delete-status xs),
        rw (leaf_search-lookup q (leaf_delete key xs).0 asc) (
            rw (leaf_search-lookup q xs o) (
              ground (
                arith,
                lookup-leaf_delete_self xs o,
                lookup-leaf_delete_ne q xs,
                (is_eq_iff q key).0,
                (is_eq_iff q key).1,
              ))),
      )

-- The lowest level meets the laws of a level.
pub leaf-Laws : Laws 0
unfolding node_search node_delete
leaf-Laws = record {
  split = leaf-SplitLaws;
  insert = λ key value n o m. leaf-InsertLaws key value n o;
  delete = λ key n o.
      let d = leaf_search-leaf_delete key key n o in
      record {
        all = λ P a. All-leaf_delete key P n a;
        ordered = d.0;
        search = λ q. (leaf_search-leaf_delete key q n o).2;
        status = d.1;
      };
}
