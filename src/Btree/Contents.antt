-- ===== src/Btree/Contents.antt =====
-- What a cursor of src/storage/btree.c runs over is what a search finds.
use kanbudb.Prelude.{
  ℕ, zero, suc, ◌≡◌, ◌∙◌, true, false, none, some, List, [], ◌∷◌, ◌++◌, arith, All, Bytes,
}
use kanbudb.Key.{below}
use kanbudb.Key.Order.{below_refl, is_eq_iff}
use kanbudb.Btree.{
  Item, Kids, Node, child_at, leaf_search, node_search, Btree, btree_get, only, more,
}
use kanbudb.Btree.Laws.{AllKeys, Below, AtLeast, IsAscending, IsOrdered}
use kanbudb.Btree.Leaf.{lookup, leaf_search-lookup}
use kanbudb.Btree.Inner.{OrdK, search, RightOf-AtLeast}
use kanbudb.Btree.Cursor.{kids_items, all_items}
use kanbudb.Btree.Tree.{IsValid}

pub All-both :
    (P Q R : Item → Type 0)
    → ((x : Item) → P x → Q x → R x)
    → (xs : List Item) → All P xs
    → All Q xs
    → All R xs
All-both P Q R f [] p q = tt
All-both P Q R f (x ∷ xs) p q = (f x p.0 q.0, All-both P Q R f xs p.1 q.1)

pub All-concat : (P : Item → Type 0) (xs ys : List Item) → All P xs → All P ys → All P (xs ++ ys)
All-concat P [] ys a b = b
All-concat P (x ∷ xs) ys a b = (a.0, All-concat P xs ys a.1 b)

pub all_items-All :
    (P : Bytes → Type 0) (h : ℕ) (n : Node h)
    → AllKeys P h n
    → All (λ (x : Item). P x.key) (all_items h n)
all_items-All P zero items a = a
all_items-All P (suc h) (only c) a = all_items-All P h c a
all_items-All P (suc h) (more c k rest) a =
    All-concat (λ x. P x.key) (all_items h c) (kids_items (all_items h) rest)
      (all_items-All P h c a.0) (all_items-All P (suc h) rest a.2)

found_everywhere :
    (items : List Item)
    → IsAscending items
    → All (λ (x : Item). lookup x.key items ≡ some x.value) items
found_everywhere [] o = tt
found_everywhere (x ∷ xs) o = (
  ground (arith, (is_eq_iff x.key x.key).1),
  All-both (λ y. below x.key y.key ≡ true) (λ y. lookup y.key xs ≡ some y.value)
      (λ y. lookup y.key (x ∷ xs) ≡ some y.value)
      (λ y l f. ground (arith, l, f, (is_eq_iff y.key x.key).0, below_refl x.key)) xs o.0
      (found_everywhere xs o.1),
)

leaf_found :
    (items : List Item)
    → IsAscending items
    → All (λ (x : Item). node_search 0 x.key items ≡ some x.value) items
unfolding node_search
leaf_found items o =
    All-both (λ x. lookup x.key items ≡ some x.value) (λ x. lookup x.key items ≡ some x.value)
      (λ x. leaf_search x.key none items ≡ some x.value)
      (λ x l u. leaf_search-lookup x.key items o ∙ l) items (found_everywhere items o)
      (found_everywhere items o)

kids_found :
    (h : ℕ) (g : Kids (Node h))
    → ((n : Node h)
        → IsOrdered h n
        → All (λ (x : Item). node_search h x.key n ≡ some x.value) (all_items h n))
    → OrdK h g
    → All (λ (x : Item). search h x.key g ≡ some x.value) (kids_items (all_items h) g)
unfolding child_at
kids_found h (only c) ih o = ih c o
kids_found h (more c k rest) ih o =
    All-concat (λ x. search h x.key (more c k rest) ≡ some x.value) (all_items h c)
      (kids_items (all_items h) rest)
      (All-both (λ x. below x.key k ≡ true) (λ x. node_search h x.key c ≡ some x.value)
        (λ x. search h x.key (more c k rest) ≡ some x.value) (λ x l f. rw l f) (all_items h c)
        (all_items-All (Below k) h c o.1) (ih c o.0))
      (All-both (λ x. below x.key k ≡ false) (λ x. search h x.key rest ≡ some x.value)
        (λ x. search h x.key (more c k rest) ≡ some x.value) (λ x l f. rw l f)
        (kids_items (all_items h) rest)
        (all_items-All (AtLeast k) (suc h) rest (RightOf-AtLeast h k rest o.2))
        (kids_found h rest ih o.3))

items_found :
    (h : ℕ) (n : Node h)
    → IsOrdered h n
    → All (λ (x : Item). node_search h x.key n ≡ some x.value) (all_items h n)
unfolding node_search
items_found zero items o = leaf_found items o
items_found (suc h) g o = kids_found h g (items_found h) o

-- In a valid tree, every item that a cursor runs over is found by `btree_get` under its key.
pub btree_get-all_items :
    (bt : Btree)
    → IsValid bt
    → All (λ (x : Item). btree_get x.key bt ≡ some x.value) (all_items bt.height bt.root)
unfolding btree_get
btree_get-all_items bt o = items_found bt.height bt.root o
