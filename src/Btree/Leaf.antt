-- ===== src/Btree/Leaf.antt =====
-- A leaf of the B+tree, src/storage/btree.c, as a lookup table, and the laws of an insertion into it.
use kanbudb.Prelude.{
  ◌≡◌, refl, ◌≢◌, true, false, Option, none, some, List, [], ◌∷◌, arith, if◌then◌else◌, Bool-cases,
  All, Bytes,
}
use kanbudb.Key.{key_cmp, is_eq, below}
use kanbudb.Key.Order.{below_refl, below_trans, below_eq, is_eq_iff}
use kanbudb.Btree.{
  Item, leaf_search, update_item, place_item, leaf_insert, node_insert_nonfull, node_search,
}
use kanbudb.Btree.Laws.{IsAscending, InsertLaws}

abbrev pub lookup : Bytes → List Item → Option Bytes
lookup q [] = none
lookup q (x ∷ xs) = if is_eq (key_cmp q x.key) then some x.value else lookup q xs

-- Above all keys that follow, a scan that has passed `x` finds `x` or nothing.
pub lookup-below :
    (q : Bytes) (xs : List Item) → All (λ (y : Item). below q y.key ≡ true) xs → lookup q xs ≡ none
lookup-below q [] a = refl
lookup-below q (x ∷ xs) a =
    ground (arith, lookup-below q xs a.1, (is_eq_iff q x.key).0, below_refl q)

-- What comes before `x` comes before all that `x` comes before.
pub All-below :
    (q : Bytes) (x : Item) (xs : List Item)
    → below q x.key ≡ true
    → All (λ (y : Item). below x.key y.key ≡ true) xs
    → All (λ (y : Item). below q y.key ≡ true) xs
All-below q x [] h a = tt
All-below q x (y ∷ ys) h a = (below_trans q x.key y.key h a.0, All-below q x ys h a.1)

leaf_search_from :
    (q : Bytes) (p : Item) (xs : List Item)
    → below q p.key ≡ false
    → All (λ (y : Item). below p.key y.key ≡ true) xs
    → IsAscending xs
    → leaf_search q (some p) xs ≡ (if is_eq (key_cmp q p.key) then some p.value else lookup q xs)
unfolding leaf_search
leaf_search_from q p [] h a o = refl
leaf_search_from q p (x ∷ xs) h a o = ground (
  arith,
  leaf_search_from q x xs,
  (is_eq_iff q p.key).0,
  (is_eq_iff q x.key).0,
  below_refl q,
  lookup-below q xs,
  All-below q x xs,
)

pub leaf_search-lookup :
    (q : Bytes) (xs : List Item) → IsAscending xs → leaf_search q none xs ≡ lookup q xs
unfolding leaf_search
leaf_search-lookup q [] o = refl
leaf_search-lookup q (x ∷ xs) o = ground (
  arith,
  leaf_search_from q x xs,
  (is_eq_iff q x.key).0,
  below_refl q,
  lookup-below q xs,
  All-below q x xs,
)

-- Insertion into an ascending list.
abbrev put_item : Bytes → Bytes → List Item → List Item
put_item key value [] = record { key = key; value = value } ∷ []
put_item key value (x ∷ xs) =
    if is_eq (key_cmp key x.key)
    then record x { value = value } ∷ xs
    else if below key x.key
    then record { key = key; value = value } ∷ x ∷ xs
    else x ∷ put_item key value xs

update_item-below :
    (key value : Bytes) (xs : List Item)
    → All (λ (y : Item). below key y.key ≡ true) xs
    → update_item key value xs ≡ none
unfolding update_item
update_item-below key value [] a = refl
update_item-below key value (x ∷ xs) a =
    ground (arith, update_item-below key value xs a.1, (is_eq_iff key x.key).0, below_refl key)

place_item-below :
    (it : Item) (xs : List Item)
    → All (λ (y : Item). below it.key y.key ≡ true) xs
    → place_item it xs ≡ none
unfolding place_item
place_item-below it [] a = refl
place_item-below it (x ∷ xs) a = ground (arith, place_item-below it xs a.1)

leaf_insert-put_item :
    (key value : Bytes) (xs : List Item)
    → IsAscending xs
    → leaf_insert key value xs ≡ put_item key value xs
unfolding leaf_insert update_item place_item
leaf_insert-put_item key value [] o = refl
leaf_insert-put_item key value (x ∷ xs) o = ground (
  arith,
  leaf_insert-put_item key value xs o.1,
  update_item-below key value xs,
  place_item-below (record { key = key; value = value }) xs,
  All-below key x xs,
)

module _ (key value : Bytes) where
  All-put_item :
      (P : Bytes → Type 0) (xs : List Item)
      → P key
      → All (λ (x : Item). P x.key) xs
      → All (λ (x : Item). P x.key) (put_item key value xs)
  All-put_item P [] p a = (p, tt)
  All-put_item P (x ∷ xs) p a = ground (arith, All-put_item P xs p a.1)

  put_item-IsAscending : (xs : List Item) → IsAscending xs → IsAscending (put_item key value xs)
  put_item-IsAscending [] o = (tt, tt)
  put_item-IsAscending (x ∷ xs) o = ground (
    arith,
    put_item-IsAscending xs o.1,
    All-put_item (λ k. below x.key k ≡ true) xs,
    All-below key x xs,
    below_eq key x.key,
    (is_eq_iff key x.key).1,
    Bool-cases (below x.key key),
  )

  lookup-put_item_self : (xs : List Item) → lookup key (put_item key value xs) ≡ some value
  lookup-put_item_self [] = ground (arith, (is_eq_iff key key).1)
  lookup-put_item_self (x ∷ xs) = ground (arith, lookup-put_item_self xs, (is_eq_iff key key).1)

  lookup-put_item_ne :
      (q : Bytes) (xs : List Item) → q ≢ key → lookup q (put_item key value xs) ≡ lookup q xs
  lookup-put_item_ne q [] n = ground (arith, (is_eq_iff q key).0)
  lookup-put_item_ne q (x ∷ xs) n = ground (
    arith,
    lookup-put_item_ne q xs n,
    (is_eq_iff q key).0,
    (is_eq_iff q x.key).0,
    (is_eq_iff key x.key).0,
  )

  pub leaf-InsertLaws : (xs : List Item) → IsAscending xs → InsertLaws 0 key value xs
  unfolding node_insert_nonfull node_search
  leaf-InsertLaws xs o =
      let same = leaf_insert-put_item key value xs o in
      let asc = put_item-IsAscending xs o in
      record {
        all = λ P p a. rw same (All-put_item P xs p a);
        ordered = rw same asc;
        search_self =
            rw same
              (rw (leaf_search-lookup key (put_item key value xs) asc) (lookup-put_item_self xs));
        search_ne = λ q n. rw same (
            rw (leaf_search-lookup q (put_item key value xs) asc)
              (rw (leaf_search-lookup q xs o) (lookup-put_item_ne q xs n)));
      }
