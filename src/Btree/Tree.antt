-- ===== src/Btree/Tree.antt =====
-- The B+tree, src/storage/btree.c, as a finite map, and the keys for which it is none.
use kanbudb.Prelude.{
  ℕ, zero, suc, ◌≡◌, ap, ◌∙◌, ◌≢◌, ◌⊎◌, inl, inr, none, some, arith, if◌then◌else◌, Bool-cases,
  Bytes,
}
use kanbudb.Status.{Status}
use kanbudb.Key.{key_cmp, is_eq}
use kanbudb.Key.Order.{is_eq_iff}
use kanbudb.Btree.Inner.{AllKids-imp}
use kanbudb.Btree.{
  Kids, Node, child_at, node_full, split_node, node_search, Btree, btree_put, btree_get,
  btree_delete, only, more,
}
use kanbudb.Btree.Laws.{AllKeys, IsOrdered, NotMiddle, MissesMiddles, SplitLaws}
use kanbudb.Btree.InnerDelete.{level-Laws}

abbrev pub IsValid : Btree → Type 0
IsValid bt = IsOrdered bt.height bt.root

-- `key` is not the key that the split of a full node would move up: of no node below the root.
abbrev pub MissesSplits : Bytes → Btree → Type 0
MissesSplits key bt = MissesMiddles key bt.height bt.root

-- No item and no separator of the tree has this key.
abbrev pub IsNew : Bytes → Btree → Type 0
IsNew key bt = AllKeys (λ x. x ≢ key) bt.height bt.root

-- The two halves of a full root are not full.
halves-MissesMiddles :
    (key : Bytes) (h : ℕ) (n : Node h)
    → SplitLaws h n
    → MissesMiddles key h n
    → MissesMiddles key
        (suc h)
        (more (split_node h n).0 (split_node h n).1 (only (split_node h n).2))
halves-MissesMiddles key h n sp m =
    let (l, r) = sp.misses key m in
    ((λ f. cc (f, sp.not_full.0), l), tt, (λ f. cc (f, sp.not_full.1), r))

halves-IsOrdered :
    (h : ℕ) (n : Node h)
    → SplitLaws h n
    → IsOrdered h n
    → IsOrdered (suc h) (more (split_node h n).0 (split_node h n).1 (only (split_node h n).2))
halves-IsOrdered h n sp o =
    (sp.left_ordered o, sp.left_below o, sp.right_above o, sp.right_ordered o)

halves-search :
    (q : Bytes) (h : ℕ) (n : Node h)
    → SplitLaws h n
    → IsOrdered h n
    → node_search (suc h) q (more (split_node h n).0 (split_node h n).1 (only (split_node h n).2))
      ≡ node_search h q n
unfolding node_search child_at
halves-search q h n sp o = ground (arith, sp.search_halves q o)

-- What `btree_put` promises.
pub record PutLaws (key value : Bytes) (bt bt' : Btree) : Type 1 where
  pub all :
      (P : Bytes → Type 0) → P key → AllKeys P bt.height bt.root → AllKeys P bt'.height bt'.root
  pub valid : IsValid bt'
  pub self : btree_get key bt' ≡ some value
  pub other : (q : Bytes) → q ≢ key → btree_get q bt' ≡ btree_get q bt

pub btree_put-PutLaws :
    (key value : Bytes) (bt : Btree)
    → IsValid bt
    → MissesSplits key bt
    → PutLaws key value bt (btree_put key value bt)
unfolding btree_put btree_get
btree_put-PutLaws key value bt o m = elim (Bool-cases (node_full bt.height bt.root)) [
  | inr e ↦
      let il = (level-Laws bt.height).insert key value bt.root o m in
      rw (e, btree_put)
        (record { all = il.all; valid = il.ordered; self = il.search_self; other = il.search_ne })
  | inl e ↦
      let sp = (level-Laws bt.height).split bt.root e in
      let root : Kids (Node bt.height) =
        more (split_node bt.height bt.root).0 (split_node bt.height bt.root).1
          (only (split_node bt.height bt.root).2) in
      let il =
        (level-Laws (suc bt.height)).insert key value root (halves-IsOrdered bt.height bt.root sp o)
          (halves-MissesMiddles key bt.height bt.root sp m) in
      rw (e, btree_put)
        (record {
          all = λ P p a. il.all P p (sp.all P a);
          valid = il.ordered;
          self = il.search_self;
          other = λ q n. il.search_ne q n ∙ halves-search q bt.height bt.root sp o;
        })
]

-- In a valid tree, after `btree_put` of a key that no split of a full node would move up,
-- `btree_get` finds the new value under this key and under every other key what it found before.
pub btree_get-btree_put :
    (q key value : Bytes) (bt : Btree)
    → IsValid bt
    → MissesSplits key bt
    → btree_get q (btree_put key value bt)
      ≡ (if is_eq (key_cmp q key) then some value else btree_get q bt)
btree_get-btree_put q key value bt o m =
    let l = btree_put-PutLaws key value bt o m in
    elim (Bool-cases (is_eq (key_cmp q key))) [
      | inl e ↦
          rw e (ap (λ x. btree_get x (btree_put key value bt)) ((is_eq_iff q key).0 e) ∙ l.self)
      | inr e ↦ rw e (l.other q (λ p. ground (arith, (is_eq_iff q key).1 p)))
    ]

-- A key that is new in the tree meets the condition.
pub IsNew-MissesMiddles :
    (key : Bytes) (h : ℕ) (n : Node h) → AllKeys (λ x. x ≢ key) h n → MissesMiddles key h n
IsNew-MissesMiddles key zero n a = tt
IsNew-MissesMiddles key (suc h) g a =
    AllKids-imp (λ x. x ≢ key) (λ _. Unit) (AllKeys (λ x. x ≢ key) h)
      (λ c. NotMiddle key h c × MissesMiddles key h c) (λ x p. tt)
      (λ c b.
        (λ f. (((level-Laws h).split c f).all (λ x. x ≢ key) b).1, IsNew-MissesMiddles key h c b))
      g a

-- `btree_put` of a new key, and of any that no split of a full node would move up, keeps the
-- order of keys and separators in all nodes of the tree.
pub btree_put-IsValid :
    (key value : Bytes) (bt : Btree)
    → IsValid bt
    → IsNew key bt ⊎ MissesSplits key bt
    → IsValid (btree_put key value bt)
btree_put-IsValid key value bt o (inl n) =
    (btree_put-PutLaws key value bt o (IsNew-MissesMiddles key bt.height bt.root n)).valid
btree_put-IsValid key value bt o (inr m) = (btree_put-PutLaws key value bt o m).valid

-- In a valid tree, `btree_delete` finds the key exactly if a search does, the tree stays valid,
-- and afterwards a search finds nothing under this key and under every other what it found before.
pub btree_get-btree_delete :
    (q key : Bytes) (bt : Btree)
    → IsValid bt
    → IsValid (btree_delete key bt).0
      × ((btree_delete key bt).1
          ≡ elim (btree_get key bt) [ none ↦ Status.not_found | some v ↦ Status.ok ])
      × (btree_get q (btree_delete key bt).0
          ≡ (if is_eq (key_cmp q key) then none else btree_get q bt))
unfolding btree_delete btree_get
btree_get-btree_delete q key bt o =
    let d = (level-Laws bt.height).delete key bt.root o in (d.ordered, d.status, d.search q)
