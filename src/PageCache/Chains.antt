-- ===== src/PageCache/Chains.antt =====
-- The chains and the ring of the cache of src/util/page_cache.c: their lengths, and what a change keeps.
use mathlib.Core.Option.{some-injective}
use kanbudb.Prelude.{
  ℕ, zero, suc, ◌+◌, ◌<◌, ◌≡◌, refl, sym, ap, subst, ◌∙◌, inl, inr, true, false, none, some, List,
  [], ◌∷◌, arith, ◌==◌, Bool-cases, Option-cases, length, All, get_or, set,
}
use kanbudb.PageCache.{
  Page, PageCache, find_page, update_page, unlink_page, lru_remove, acquire, pinned, victim,
}
use kanbudb.PageCache.Reads.{find_later}

-- The number of pages in all chains.
abbrev pub pages : List (List Page) → ℕ
pages [] = 0
pages (chain ∷ slots) = length chain + pages slots

abbrev pub Distinct : List ℕ → Type 0
Distinct [] = Unit
Distinct (i ∷ lru) = All (λ j. (j == i) ≡ false) lru × Distinct lru

pub pages-set :
    (slots : List (List Page)) (i : ℕ) (chain : List Page)
    → i < length slots
    → pages (set slots i chain) + length (get_or slots i []) ≡ pages slots + length chain
pages-set [] i chain h = absurd (omega (arith, h))
pages-set (c ∷ slots) zero chain h = omega arith
pages-set (c ∷ slots) (suc i) chain h = omega (arith, pages-set slots i chain (omega (arith, h)))

pub length-update_page :
    (f : Page → Page) (i : ℕ) (chain : List Page) → length (update_page f i chain) ≡ length chain
length-update_page f i [] = refl
length-update_page f i (p ∷ chain) = ground (arith, length-update_page f i chain)

pub length-unlink_page :
    (i : ℕ) (p : Page) (chain : List Page)
    → find_page i chain ≡ some p
    → suc (length (unlink_page i chain)) ≡ length chain
length-unlink_page i p [] h = absurd cc
length-unlink_page i p (q ∷ chain) h = elim (Bool-cases (q.id == i)) [
  | inl e ↦ rw e refl
  | inr e ↦ rw e (ap suc (length-unlink_page i p chain (sym (find_later i q chain e) ∙ h)))
]

pub All-lru_remove : (P : ℕ → Type 0) (i : ℕ) (lru : List ℕ) → All P lru → All P (lru_remove i lru)
All-lru_remove P i [] a = tt
All-lru_remove P i (j ∷ lru) a = elim (Bool-cases (j == i)) [
  | inl e ↦ rw e a.1
  | inr e ↦ rw e (a.0, All-lru_remove P i lru a.1)
]

pub Distinct-lru_remove : (i : ℕ) (lru : List ℕ) → Distinct lru → Distinct (lru_remove i lru)
Distinct-lru_remove i [] d = tt
Distinct-lru_remove i (j ∷ lru) d = elim (Bool-cases (j == i)) [
  | inl e ↦ rw e d.1
  | inr e ↦ rw e (All-lru_remove (λ k. (k == j) ≡ false) i lru d.0, Distinct-lru_remove i lru d.1)
]

pub same_number : (i j : ℕ) → (i == j) ≡ true → i ≡ j
same_number i j e = ground (arith, e)

-- What is removed is not there any more.
pub lru_remove-gone :
    (i : ℕ) (lru : List ℕ) → Distinct lru → All (λ j. (j == i) ≡ false) (lru_remove i lru)
lru_remove-gone i [] d = tt
lru_remove-gone i (j ∷ lru) d = elim (Bool-cases (j == i)) [
  | inl e ↦ rw e (subst (λ k. All (λ j. (j == k) ≡ false) lru) (same_number j i e) d.0)
  | inr e ↦ rw e (e, lru_remove-gone i lru d.1)
]

pub victim-All :
    (P : ℕ → Type 0) (pc : PageCache) (lru : List ℕ) (v : ℕ)
    → All P lru
    → victim pc lru ≡ some v
    → P v
victim-All P pc [] v a h = absurd cc
victim-All P pc (i ∷ lru) v a h = elim (Option-cases (victim pc lru)) [
  | inr (u, e) ↦
      let found : victim pc (i ∷ lru) ≡ some u = rw e refl in
      victim-All P pc lru v a.1 (e ∙ (sym found ∙ h))
  | inl e ↦ elim (Bool-cases (pinned pc i)) [
    | inl b ↦
        let found : victim pc (i ∷ lru) ≡ none = rw e (rw b refl) in
        let clash = sym found ∙ h in absurd cc
    | inr b ↦
        let found : victim pc (i ∷ lru) ≡ some i = rw e (rw b refl) in
        subst P (some-injective i v (sym found ∙ h)) a.0
  ]
]

-- What a chain with another page still has, by what it has of a page of this id.
unfoldable pub Keeps : List Page → List Page → ℕ → Type 0
Keeps chain chain' j =
    (p : Page) → find_page j chain ≡ some p → (q : Page) × (find_page j chain' ≡ some q)

pub Keeps-update_page : (i j : ℕ) (chain : List Page) → Keeps chain (update_page acquire i chain) j
unfolding Keeps
Keeps-update_page i j [] p h = absurd cc
Keeps-update_page i j (x ∷ chain) p h = elim (Bool-cases (x.id == i)) [
  | inl e ↦ elim (Bool-cases (x.id == j)) [
    | inl f ↦ (acquire x, rw e (rw f refl))
    | inr f ↦ (p, rw e (rw f (sym (find_later j x chain f) ∙ h)))
  ]
  | inr e ↦ elim (Bool-cases (x.id == j)) [
    | inl f ↦ (x, rw e (rw f refl))
    | inr f ↦
        let (q, k) = Keeps-update_page i j chain p (sym (find_later j x chain f) ∙ h) in
        (q, rw e (rw f k))
  ]
]

pub Keeps-unlink_page :
    (i j : ℕ) (chain : List Page) → (j == i) ≡ false → Keeps chain (unlink_page i chain) j
unfolding Keeps
Keeps-unlink_page i j [] n p h = absurd cc
Keeps-unlink_page i j (x ∷ chain) n p h = elim (Bool-cases (x.id == i)) [
  | inl e ↦
      let f : (x.id == j) ≡ false = ground (arith, n, e) in
      (p, rw e (sym (find_later j x chain f) ∙ h))
  | inr e ↦ elim (Bool-cases (x.id == j)) [
    | inl f ↦ (x, rw e (rw f refl))
    | inr f ↦
        let (q, k) = Keeps-unlink_page i j chain n p (sym (find_later j x chain f) ∙ h) in
        (q, rw e (rw f k))
  ]
]

pub Keeps-cons : (x : Page) (j : ℕ) (chain : List Page) → Keeps chain (x ∷ chain) j
unfolding Keeps
Keeps-cons x j chain p h = elim (Bool-cases (x.id == j)) [
  | inl f ↦ (x, rw f refl)
  | inr f ↦ (p, rw f h)
]
