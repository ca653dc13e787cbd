-- ===== src/Btree/Absent.antt =====
-- A key that no node of a B+tree of src/storage/btree.c holds is not found.
use kanbudb.Prelude.{
  ℕ, zero, suc, ◌≡◌, refl, sym, ◌≢◌, inl, inr, Option, none, some, List, [], ◌∷◌, Bool-cases, All,
  Bytes,
}
use kanbudb.Key.{key_cmp, is_eq, below}
use kanbudb.Key.Order.{is_eq_iff}
use kanbudb.Btree.{
  Item, Kids, Node, child_at, item_value, leaf_search, node_search, Btree, btree_get, only, more,
}
use kanbudb.Btree.Laws.{AllKids, AllKeys}
use kanbudb.Btree.Tree.{IsNew}

item_value_ne : (q : Bytes) (x : Item) → x.key ≢ q → item_value q (some x) ≡ none
item_value_ne q x n = elim (Bool-cases (is_eq (key_cmp q x.key))) [
  | inl y ↦ absurd (n (sym ((is_eq_iff q x.key).0 y)))
  | inr e ↦ rw (e, item_value) refl
]

leaf_search_new :
    (q : Bytes) (prev : Option Item) (items : List Item)
    → item_value q prev ≡ none
    → All (λ (x : Item). x.key ≢ q) items
    → leaf_search q prev items ≡ none
unfolding leaf_search
leaf_search_new q prev [] h a = h
leaf_search_new q prev (x ∷ xs) h a = elim (Bool-cases (below q x.key)) [
  | inl l ↦ rw l h
  | inr l ↦ rw l (leaf_search_new q (some x) xs (item_value_ne q x a.0) a.1)
]

child_at-All :
    {C : Type 0} (P : Bytes → Type 0) (Q : C → Type 0) (q : Bytes) (g : Kids C)
    → AllKids P Q g
    → Q (child_at q g)
unfolding child_at
child_at-All P Q q (only c) a = a
child_at-All P Q q (more c k rest) a = elim (Bool-cases (below q k)) [
  | inl l ↦ rw l a.0
  | inr l ↦ rw l (child_at-All P Q q rest a.2)
]

node_search_new :
    (h : ℕ) (q : Bytes) (n : Node h) → AllKeys (λ x. x ≢ q) h n → node_search h q n ≡ none
unfolding node_search
node_search_new zero q items a = leaf_search_new q none items refl a
node_search_new (suc h) q g a =
    node_search_new h q (child_at q g) (child_at-All (λ x. x ≢ q) (AllKeys (λ x. x ≢ q) h) q g a)

pub btree_get_new : (q : Bytes) (bt : Btree) → IsNew q bt → btree_get q bt ≡ none
unfolding btree_get
btree_get_new q bt n = node_search_new bt.height q bt.root n
