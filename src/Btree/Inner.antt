-- ===== src/Btree/Inner.antt =====
-- Rows of children of one height: what holds of their keys, and their split and concatenation.
use kanbudb.Prelude.{
  ℕ, zero, suc, ◌+◌, ◌<◌, ◌≡◌, refl, true, Option, [], ◌∷◌, arith, if◌then◌else◌, Bytes,
}
use kanbudb.Key.{below}
use kanbudb.Key.Order.{below_refl, below_trans, below_lt}
use kanbudb.Btree.{
  Kids, Node, num_seps, split_kids, child_at, append_kids, node_full, split_node, node_search, only,
  more,
}
use kanbudb.Btree.Laws.{
  AllKids, AllKeys, Below, AtLeast, Above, OrderedKids, IsOrdered, NotMiddle, MissesMiddles,
  SplitLaws,
}

pub AllKids-imp :
    {C : Type 0} (P P' : Bytes → Type 0) (Q Q' : C → Type 0)
    → ((x : Bytes) → P x → P' x)
    → ((c : C) → Q c → Q' c)
    → (g : Kids C) → AllKids P Q g
    → AllKids P' Q' g
AllKids-imp P P' Q Q' f e (only c) a = e c a
AllKids-imp P P' Q Q' f e (more c k rest) a = (e c a.0, f k a.1, AllKids-imp P P' Q Q' f e rest a.2)

AllKids-split_kids :
    {C : Type 0} (P : Bytes → Type 0) (Q : C → Type 0) (n : ℕ) (g : Kids C)
    → n < num_seps g
    → AllKids P Q g
    → AllKids P Q (split_kids n g).0 × P (split_kids n g).1 × AllKids P Q (split_kids n g).2
unfolding split_kids
AllKids-split_kids P Q n (only c) h a = elim h [ ]
AllKids-split_kids P Q zero (more c k rest) h a = a
AllKids-split_kids P Q (suc n) (more c k rest) h a =
    let (l, s, r) = AllKids-split_kids P Q n rest (omega arith) a.2 in ((a.0, a.1, l), s, r)

num_seps-split_kids :
    {C : Type 0} (n : ℕ) (g : Kids C)
    → n < num_seps g
    → (num_seps (split_kids n g).0 ≡ n) × (num_seps (split_kids n g).2 + suc n ≡ num_seps g)
unfolding split_kids
num_seps-split_kids n (only c) h = elim h [ ]
num_seps-split_kids zero (more c k rest) h = (refl, omega arith)
num_seps-split_kids (suc n) (more c k rest) h =
    let e = num_seps-split_kids n rest (omega arith) in (omega (arith, e.0), omega (arith, e.1))

pub AllKeys-imp :
    (P Q : Bytes → Type 0)
    → ((x : Bytes) → P x → Q x)
    → (h : ℕ) (n : Node h) → AllKeys P h n
    → AllKeys Q h n
AllKeys-imp P Q f zero [] a = tt
AllKeys-imp P Q f zero (x ∷ xs) a = (f x.key a.0, AllKeys-imp P Q f zero xs a.1)
AllKeys-imp P Q f (suc h) (only c) a = AllKeys-imp P Q f h c a
AllKeys-imp P Q f (suc h) (more c k rest) a =
    (AllKeys-imp P Q f h c a.0, f k a.1, AllKeys-imp P Q f (suc h) rest a.2)

module _ (h : ℕ) where
  -- Every key of the row satisfies `P`.
  abbrev pub AllK : (Bytes → Type 0) → Kids (Node h) → Type 0
  AllK P g = AllKids P (AllKeys P h) g

  -- The row to the right of a separator `k`.
  abbrev pub RightOf : Bytes → Kids (Node h) → Type 0
  RightOf k g = AllKids (Above k) (AllKeys (AtLeast k) h) g

  abbrev pub OrdK : Kids (Node h) → Type 0
  OrdK g = OrderedKids h (IsOrdered h) g

  abbrev pub search : Bytes → Kids (Node h) → Option Bytes
  search q g = node_search h q (child_at q g)

  pub RightOf-lt : (j k : Bytes) (g : Kids (Node h)) → below j k ≡ true → RightOf k g → RightOf j g
  RightOf-lt j k g l a =
      AllKids-imp (Above k) (Above j) (AllKeys (AtLeast k) h) (AllKeys (AtLeast j) h)
        (λ x p. below_trans j k x l p)
        (λ c b.
          AllKeys-imp (AtLeast k) (AtLeast j) (λ x p. ground (arith, below_trans x j k, l, p)) h c
            b)
        g a

  pub RightOf-AtLeast : (k : Bytes) (g : Kids (Node h)) → RightOf k g → AllK (AtLeast k) g
  RightOf-AtLeast k g a =
      AllKids-imp (Above k) (AtLeast k) (AllKeys (AtLeast k) h) (AllKeys (AtLeast k) h)
        (λ x p. ground (arith, below_trans k x k, below_refl k, p)) (λ c b. b) g a

  pub AllKids-append_kids :
      (P : Bytes → Type 0) (Q : Node h → Type 0) (g : Kids (Node h)) (k : Bytes)
      (rest : Kids (Node h))
      → AllKids P Q g
      → P k
      → AllKids P Q rest
      → AllKids P Q (append_kids g k rest)
  AllKids-append_kids P Q (only c) k rest a p b = (a, p, b)
  AllKids-append_kids P Q (more c s r) k rest a p b =
      (a.0, a.1, AllKids-append_kids P Q r k rest a.2 p b)

  pub OrdK-append_kids :
      (g : Kids (Node h)) (k : Bytes) (rest : Kids (Node h))
      → OrdK g
      → AllK (Below k) g
      → RightOf k rest
      → OrdK rest
      → OrdK (append_kids g k rest)
  OrdK-append_kids (only c) k rest o a b p = (o, a, b, p)
  OrdK-append_kids (more c s r) k rest o a b p = (
    o.0,
    o.1,
    AllKids-append_kids (Above s) (AllKeys (AtLeast s) h) r k rest o.2 a.1
        (RightOf-lt s k rest a.1 b),
    OrdK-append_kids r k rest o.3 a.2 b p,
  )

  pub search-append_kids :
      (q : Bytes) (g : Kids (Node h)) (k : Bytes) (rest : Kids (Node h))
      → AllK (Below k) g
      → search q (append_kids g k rest) ≡ (if below q k then search q g else search q rest)
  unfolding child_at
  search-append_kids q (only c) k rest a = ground arith
  search-append_kids q (more c s r) k rest a =
      ground (arith, search-append_kids q r k rest a.2, below_trans q s k)

  AllK-left :
      (n : ℕ) (g : Kids (Node h))
      → n < num_seps g
      → OrdK g
      → AllK (Below (split_kids n g).1) (split_kids n g).0
  unfolding split_kids
  AllK-left n (only c) l o = elim l [ ]
  AllK-left zero (more c k rest) l o = o.1
  AllK-left (suc n) (more c k rest) l o =
      let s : Bytes = (split_kids n rest).1 in
      let lt : below k s ≡ true =
        (AllKids-split_kids (Above k) (AllKeys (AtLeast k) h) n rest (omega arith) o.2).1 in
      (
        AllKeys-imp (Below k) (Below s) (λ x p. below_trans x k s p lt) h c o.1,
        lt,
        AllK-left n rest (omega arith) o.3,
      )

  RightOf-right :
      (n : ℕ) (g : Kids (Node h))
      → n < num_seps g
      → OrdK g
      → RightOf (split_kids n g).1 (split_kids n g).2
  unfolding split_kids
  RightOf-right n (only c) l o = elim l [ ]
  RightOf-right zero (more c k rest) l o = o.2
  RightOf-right (suc n) (more c k rest) l o = RightOf-right n rest (omega arith) o.3

  OrdK-split_kids :
      (n : ℕ) (g : Kids (Node h))
      → n < num_seps g
      → OrdK g
      → OrdK (split_kids n g).0 × OrdK (split_kids n g).2
  unfolding split_kids
  OrdK-split_kids n (only c) l o = elim l [ ]
  OrdK-split_kids zero (more c k rest) l o = (o.0, o.3)
  OrdK-split_kids (suc n) (more c k rest) l o =
      let (a, b) = OrdK-split_kids n rest (omega arith) o.3 in
      (
        (
          o.0,
          o.1,
          (AllKids-split_kids (Above k) (AllKeys (AtLeast k) h) n rest (omega arith) o.2).0,
          a,
        ),
        b,
      )

  search-split_kids :
      (q : Bytes) (n : ℕ) (g : Kids (Node h))
      → n < num_seps g
      → OrdK g
      → search q g ≡ (
          if below q (split_kids n g).1
          then search q (split_kids n g).0
          else search q (split_kids n g).2)
  unfolding split_kids child_at
  search-split_kids q n (only c) l o = elim l [ ]
  search-split_kids q zero (more c k rest) l o = ground arith
  search-split_kids q (suc n) (more c k rest) l o = ground (
    arith,
    search-split_kids q n rest (omega arith) o.3,
    below_trans q k (split_kids n rest).1,
    (AllKids-split_kids (Above k) (AllKeys (AtLeast k) h) n rest (omega arith) o.2).1,
  )

  -- The first separator of a row is below any at which the row is split later.
  first-lt-split :
      (k : Bytes) (g : Kids (Node h))
      → 8 < num_seps g
      → OrdK g
      → AllK (AtLeast k) g
      → below k (split_kids 8 g).1 ≡ true
  first-lt-split k (only c) l o a = elim l [ ]
  first-lt-split k (more c j rest) l o a =
      below_lt k j (split_kids 8 (more c j rest)).1 a.1
        (unfold split_kids in (AllK-left 8 (more c j rest) l o).1)

  pub kids-SplitLaws : (g : Kids (Node h)) → node_full (suc h) g ≡ true → SplitLaws (suc h) g
  unfolding node_full split_node node_search
  kids-SplitLaws g f =
      let len : 8 < num_seps g = ground arith in
      let num = num_seps-split_kids 8 g len in
      record {
        all = λ P a. AllKids-split_kids P (AllKeys P h) 8 g len a;
        left_below = λ o. AllK-left 8 g len o;
        right_above =
            λ o. RightOf-AtLeast (split_kids 8 g).1 (split_kids 8 g).2 (RightOf-right 8 g len o);
        left_ordered = λ o. (OrdK-split_kids 8 g len o).0;
        right_ordered = λ o. (OrdK-split_kids 8 g len o).1;
        search_halves = λ q o. search-split_kids q 8 g len o;
        misses = λ key m.
            let a =
              AllKids-split_kids (λ _. Unit) (λ c. NotMiddle key h c × MissesMiddles key h c) 8 g
                len m in
            (a.0, a.2);
        strict = λ k o a. first-lt-split k g len o a;
        not_full = (ground (arith, num.0), ground (arith, num.1));
      }
