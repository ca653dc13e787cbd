-- ===== src/Btree/Build.antt =====
-- `btree_build_sorted` of src/storage/btree.c against a look into the sorted items.
use kanbudb.Prelude.{
  ◌≡◌, refl, ◌≢◌, true, Option, none, some, List, [], ◌∷◌, arith, if◌then◌else◌, All, Bytes,
}
use kanbudb.Key.{key_cmp, is_eq, below}
use kanbudb.Key.Order.{below_refl, is_eq_iff}
use kanbudb.Btree.{
  Item, leaf_search, node_search, Btree, btree_create, btree_put, btree_get, btree_build_sorted,
}
use kanbudb.Btree.Laws.{AllKeys, IsAscending}
use kanbudb.Btree.Inner.{AllKeys-imp}
use kanbudb.Btree.Tree.{IsValid, IsNew, btree_put-PutLaws, btree_get-btree_put, IsNew-MissesMiddles}

-- The value of the first item with this key.
abbrev pub find_item : Bytes → List Item → Option Bytes
find_item q [] = none
find_item q (x ∷ xs) = if is_eq (key_cmp q x.key) then some x.value else find_item q xs

find_item-above :
    (q k : Bytes) (items : List Item)
    → is_eq (key_cmp q k) ≡ true
    → All (λ (y : Item). below k y.key ≡ true) items
    → find_item q items ≡ none
find_item-above q k [] e a = refl
find_item-above q k (x ∷ xs) e a =
    ground
      (arith, find_item-above q k xs e a.1, (is_eq_iff q k).0, (is_eq_iff q x.key).0, below_refl q)

build-find_item :
    (q : Bytes) (items : List Item) (bt : Btree)
    → IsAscending items
    → IsValid bt
    → AllKeys (λ x. All (λ (y : Item). below x y.key ≡ true) items) bt.height bt.root
    → btree_get q (btree_build_sorted items bt)
      ≡ elim (find_item q items) [ none ↦ btree_get q bt | some v ↦ some v ]
unfolding btree_build_sorted
build-find_item q [] bt asc o a = refl
build-find_item q (x ∷ xs) bt asc o a =
    let new : IsNew x.key bt =
      AllKeys-imp (λ z. All (λ (y : Item). below z y.key ≡ true) (x ∷ xs)) (λ z. z ≢ x.key)
        (λ z p e. ground (arith, p.0, below_refl z, e)) bt.height bt.root a in
    let m = IsNew-MissesMiddles x.key bt.height bt.root new in
    let l = btree_put-PutLaws x.key x.value bt o m in
    let gone : is_eq (key_cmp q x.key) ≡ true → find_item q xs ≡ none =
      λ e. find_item-above q x.key xs e asc.0 in
    let tail =
      l.all (λ z. All (λ (y : Item). below z y.key ≡ true) xs) asc.0
        (AllKeys-imp (λ z. All (λ (y : Item). below z y.key ≡ true) (x ∷ xs))
          (λ z. All (λ (y : Item). below z y.key ≡ true) xs) (λ z p. p.1) bt.height bt.root a) in
    ground (
      arith,
      build-find_item q xs (btree_put x.key x.value bt) asc.1 l.valid tail,
      btree_get-btree_put q x.key x.value bt o m,
      gone,
    )

-- From items in ascending order of their keys, `btree_build_sorted` builds, split after split, a
-- tree in which a search finds under every key the value of the item with this key, or nothing.
pub btree_get-btree_build_sorted :
    (q : Bytes) (items : List Item)
    → IsAscending items
    → btree_get q (btree_build_sorted items btree_create) ≡ find_item q items
unfolding btree_create btree_get node_search leaf_search
btree_get-btree_build_sorted q items asc =
    ground (arith, build-find_item q items btree_create asc tt tt)
