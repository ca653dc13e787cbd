-- ===== src/Btree/InnerInsert.antt =====
-- The laws of an insertion into an inner level of the B+tree, src/storage/btree.c.
use kanbudb.Prelude.{
  ℕ, suc, ◌≡◌, refl, ◌≢◌, inl, inr, true, false, Option, some, arith, Bool-cases, Bytes,
}
use kanbudb.Key.{key_cmp, is_gt, below}
use kanbudb.Key.Order.{below_refl, below_trans, below_eq, below_gt}
use kanbudb.Btree.{
  Kids, Node, child_at, reaches, insert_child, insert_kids, node_full, split_node,
  node_insert_nonfull, node_search, only, more,
}
use kanbudb.Btree.Laws.{
  AllKids, AllKeys, Below, AtLeast, Above, IsOrdered, NotMiddle, MissesMiddles, SplitLaws,
  InsertLaws, Laws,
}
use kanbudb.Btree.Inner.{
  AllK, RightOf, OrdK, search, AllKids-append_kids, OrdK-append_kids, search-append_kids,
}

module _ (h : ℕ) (ih : Laws h) (key value : Bytes) where
  -- The row that an insertion leaves, where `keys P` says that all keys were such before,
  -- `right_of k` that the row stood to the right of `k`, and `before` is what a search answered.
  record Grown (keys : (Bytes → Type 0) → Type 0) (right_of : Bytes → Type 0)
      (before : Bytes → Option Bytes) (g : Kids (Node h)) : Type 1 where
    all : (P : Bytes → Type 0) → P key → keys P → AllK h P g
    right : (k : Bytes) → below key k ≡ false → right_of k → RightOf h k g
    ordered : OrdK h g
    self : search h key g ≡ some value
    other : (q : Bytes) → q ≢ key → search h q g ≡ before q

  abbrev put_child : Node h → Kids (Node h)
  put_child = insert_child (node_full h) (split_node h) (node_insert_nonfull h key value) key

  abbrev put_kids : Kids (Node h) → Kids (Node h)
  put_kids = insert_kids (node_full h) (split_node h) (node_insert_nonfull h key value) key

  abbrev GrownChild : Node h → Kids (Node h) → Type 1
  GrownChild c g =
      Grown (λ P. AllKeys P h c) (λ k. AllKeys (AtLeast k) h c) (λ q. node_search h q c) g

  -- The key goes into the left half.
  Grown-left :
      (c : Node h)
      → SplitLaws h c
      → IsOrdered h c
      → InsertLaws h key value (split_node h c).0
      → below key (split_node h c).1 ≡ true
      → GrownChild c (
          more
            (node_insert_nonfull h key value (split_node h c).0)
            (split_node h c).1
            (only (split_node h c).2))
  unfolding child_at
  Grown-left c sp o il lt = record {
    all = λ P p a. let (l, s, r) = sp.all P a in (il.all P p l, s, r);
    right = λ k le a.
        let (l, s, r) = sp.all (AtLeast k) a in (il.all (AtLeast k) le l, sp.strict k o a, r);
    ordered = (
      il.ordered,
      il.all (Below (split_node h c).1) lt (sp.left_below o),
      sp.right_above o,
      sp.right_ordered o,
    );
    self = ground (arith, il.search_self, lt);
    other = λ q n. ground (arith, il.search_ne q n, sp.search_halves q o);
  }

  Grown-right :
      (c : Node h)
      → SplitLaws h c
      → IsOrdered h c
      → InsertLaws h key value (split_node h c).2
      → below key (split_node h c).1 ≡ false
      → GrownChild c (
          more
            (split_node h c).0
            (split_node h c).1
            (only (node_insert_nonfull h key value (split_node h c).2)))
  unfolding child_at
  Grown-right c sp o il ge = record {
    all = λ P p a. let (l, s, r) = sp.all P a in (l, s, il.all P p r);
    right = λ k le a.
        let (l, s, r) = sp.all (AtLeast k) a in (l, sp.strict k o a, il.all (AtLeast k) le r);
    ordered = (
      sp.left_ordered o,
      sp.left_below o,
      il.all (AtLeast (split_node h c).1) ge (sp.right_above o),
      il.ordered,
    );
    self = ground (arith, il.search_self, ge);
    other = λ q n. ground (arith, il.search_ne q n, sp.search_halves q o);
  }

  Grown-only :
      (c : Node h)
      → InsertLaws h key value c
      → GrownChild c (only (node_insert_nonfull h key value c))
  unfolding child_at
  Grown-only c il = record {
    all = il.all;
    right = λ k le a. il.all (AtLeast k) le a;
    ordered = il.ordered;
    self = il.search_self;
    other = il.search_ne;
  }

  Grown-insert_child :
      (c : Node h)
      → IsOrdered h c
      → NotMiddle key h c
      → MissesMiddles key h c
      → GrownChild c (put_child c)
  unfolding insert_child
  Grown-insert_child c o nm m = elim (Bool-cases (node_full h c)) [
    | inr e ↦ rw (e, insert_child) (Grown-only c (ih.insert key value c o m))
    | inl e ↦
        let sp = ih.split c e in
        let s : Bytes = (split_node h c).1 in
        elim (Bool-cases (is_gt (key_cmp key s))) [
          | inl g ↦
              rw (e, insert_child)
                (rw g (
                  Grown-right c sp o
                    (ih.insert key value (split_node h c).2 (sp.right_ordered o)
                      (sp.misses key m).1)
                    (ground (arith, below_gt key s, g, below_trans key s key, below_refl key))))
          | inr g ↦
              rw (e, insert_child)
                (rw g (
                  Grown-left c sp o
                    (ih.insert key value (split_node h c).0 (sp.left_ordered o) (sp.misses key m).0)
                    (ground
                      (arith, below_gt key s, g, below_eq key s, nm e, Bool-cases (below key s)))))
        ]
  ]

  -- The separators to the right of a larger key do not stop the loop.
  pub reaches-RightOf :
      (k : Bytes) (g : Kids (Node h)) → below key k ≡ true → RightOf h k g → reaches key g ≡ false
  reaches-RightOf k (only c) l a = refl
  reaches-RightOf k (more c s rest) l a =
      ground (arith, reaches-RightOf k rest l a.2, below_trans key k s)

  Grown-insert_kids :
      (g : Kids (Node h))
      → OrdK h g
      → AllKids (λ _. Unit) (λ c. NotMiddle key h c × MissesMiddles key h c) g
      → Grown (λ P. AllK h P g) (λ k. RightOf h k g) (λ q. search h q g) (put_kids g)
  unfolding insert_kids child_at
  Grown-insert_kids (only c) o m =
      let r = Grown-insert_child c o m.0 m.1 in
      record { all = r.all; right = r.right; ordered = r.ordered; self = r.self; other = r.other }
  Grown-insert_kids (more c k rest) o m = elim (Bool-cases (below key k)) [
    | inl l ↦
        let r = Grown-insert_child c o.0 m.0.0 m.0.1 in
        let stop : reaches key (more c k rest) ≡ false =
          ground (arith, reaches-RightOf k rest l o.2, l) in
        let below_k = r.all (Below k) l o.1 in
        rw (stop, insert_kids)
          (record {
            all = λ P p a.
                AllKids-append_kids h P (AllKeys P h) (put_child c) k rest (r.all P p a.0) a.1 a.2;
            right = λ j le a.
                AllKids-append_kids h (Above j) (AllKeys (AtLeast j) h) (put_child c) k rest
                  (r.right j le a.0) a.1 a.2;
            ordered = OrdK-append_kids h (put_child c) k rest r.ordered below_k o.2 o.3;
            self = rw (search-append_kids h key (put_child c) k rest below_k) (rw l r.self);
            other = λ q n.
                rw (search-append_kids h q (put_child c) k rest below_k)
                  (ground (arith, r.other q n));
          })
    | inr l ↦
        let r = Grown-insert_kids rest o.3 m.2 in
        let go : reaches key (more c k rest) ≡ true = ground (arith, l) in
        rw (go, insert_kids)
          (record {
            all = λ P p a. (a.0, a.1, r.all P p a.2);
            right = λ j le a. (a.0, a.1, r.right j le a.2);
            ordered = (o.0, o.1, r.right k l o.2, r.ordered);
            self = ground (arith, r.self, l);
            other = λ q n. ground (arith, r.other q n);
          })
  ]

  pub kids-InsertLaws :
      (g : Kids (Node h))
      → IsOrdered (suc h) g
      → MissesMiddles key (suc h) g
      → InsertLaws (suc h) key value g
  unfolding node_insert_nonfull node_search
  kids-InsertLaws g o m =
      let r = Grown-insert_kids g o m in
      record { all = r.all; ordered = r.ordered; search_self = r.self; search_ne = r.other }
