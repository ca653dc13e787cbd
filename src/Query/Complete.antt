-- ===== src/Query/Complete.antt =====
-- What a read finds, by the list of all items of the tree and of the memtable, for the scan of `qb_exec`
-- of src/query/query_builder.c.
use kanbudb.Prelude.{
  ℕ, zero, suc, ◌≡◌, refl, sym, ap, subst, ◌∙◌, inl, inr, Bool, true, false, Option, none, some,
  List, [], ◌∷◌, ◌++◌, Bool-cases, All, Bytes,
}
use kanbudb.Key.{key_cmp, below, is_eq}
use kanbudb.Key.Order.{is_eq_iff}
use kanbudb.Btree.{Item, Kids, Node, child_at, node_search, Btree, btree_get, only, more}
use kanbudb.Btree.Laws.{Below, AtLeast, IsOrdered}
use kanbudb.Btree.Leaf.{lookup, leaf_search-lookup}
use kanbudb.Btree.Inner.{OrdK, search, RightOf-AtLeast}
use kanbudb.Btree.Cursor.{kids_items, all_items}
use kanbudb.Btree.Contents.{all_items-All}
use kanbudb.Btree.Tree.{IsValid}

-- The first of two answers.
abbrev pub first_of : Option Bytes → Option Bytes → Option Bytes
first_of none b = b
first_of (some v) b = some v

first_of-none : (a : Option Bytes) → first_of a none ≡ a
first_of-none none = refl
first_of-none (some v) = refl

pub lookup-append :
    (q : Bytes) (xs ys : List Item) → lookup q (xs ++ ys) ≡ first_of (lookup q xs) (lookup q ys)
lookup-append q [] ys = refl
lookup-append q (x ∷ xs) ys = elim (Bool-cases (is_eq (key_cmp q x.key))) [
  | inl e ↦ rw e refl
  | inr e ↦ rw e (lookup-append q xs ys)
]

-- Keys on one side of another key than the key that is looked up.
lookup-apart :
    (q k : Bytes) (b : Bool) (xs : List Item)
    → below q k ≡ b
    → All (λ (x : Item). (below x.key k ≡ b) → ⊥) xs
    → lookup q xs ≡ none
lookup-apart q k b [] e a = refl
lookup-apart q k b (x ∷ xs) e a = elim (Bool-cases (is_eq (key_cmp q x.key))) [
  | inl h ↦ absurd (a.0 (subst (λ y. below y k ≡ b) ((is_eq_iff q x.key).0 h) e))
  | inr h ↦ rw h (lookup-apart q k b xs e a.1)
]

All-weaker :
    (P Q : Item → Type 0) → ((x : Item) → P x → Q x) → (xs : List Item) → All P xs → All Q xs
All-weaker P Q f [] a = tt
All-weaker P Q f (x ∷ xs) a = (f x a.0, All-weaker P Q f xs a.1)

search-lookup :
    (h : ℕ) (q : Bytes) (g : Kids (Node h))
    → ((n : Node h) → IsOrdered h n → node_search h q n ≡ lookup q (all_items h n))
    → OrdK h g
    → search h q g ≡ lookup q (kids_items (all_items h) g)
unfolding child_at
search-lookup h q (only c) ih o = ih c o
search-lookup h q (more c k rest) ih o = elim (Bool-cases (below q k)) [
  | inl l ↦
      let miss : lookup q (kids_items (all_items h) rest) ≡ none =
        lookup-apart q k true (kids_items (all_items h) rest) l (
          All-weaker (λ x. below x.key k ≡ false) (λ x. (below x.key k ≡ true) → ⊥) (λ x e f. cc)
            (kids_items (all_items h) rest)
            (all_items-All (AtLeast k) (suc h) rest (RightOf-AtLeast h k rest o.2))) in
      rw l (
        ih c o.0
        ∙ (sym (first_of-none (lookup q (all_items h c)))
            ∙ (ap (first_of (lookup q (all_items h c))) (sym miss)
                ∙ sym (lookup-append q (all_items h c) (kids_items (all_items h) rest)))))
  | inr l ↦
      let miss : lookup q (all_items h c) ≡ none = lookup-apart q k false (all_items h c) l (
        All-weaker (λ x. below x.key k ≡ true) (λ x. (below x.key k ≡ false) → ⊥) (λ x e f. cc)
          (all_items h c) (all_items-All (Below k) h c o.1)) in
      rw l (
        search-lookup h q rest ih o.3
        ∙ (ap (λ a. first_of a (lookup q (kids_items (all_items h) rest))) (sym miss)
            ∙ sym (lookup-append q (all_items h c) (kids_items (all_items h) rest))))
]

node_search-lookup :
    (h : ℕ) (q : Bytes) (n : Node h) → IsOrdered h n → node_search h q n ≡ lookup q (all_items h n)
unfolding node_search
node_search-lookup zero q items o = leaf_search-lookup q items o
node_search-lookup (suc h) q g o = search-lookup h q g (node_search-lookup h q) o

-- A search finds exactly what is first in the list of all items.
pub btree_get-lookup :
    (bt : Btree) (q : Bytes) → IsValid bt → btree_get q bt ≡ lookup q (all_items bt.height bt.root)
unfolding btree_get
btree_get-lookup bt q o = node_search-lookup bt.height q bt.root o
