-- ===== src/Sstable/LowerBound.antt =====
-- `index_lower_bound` of src/storage/sstable.c: the first entry of the index whose key is not below.
use Prim.Native.Nat.{Ordering}
use kanbudb.Prelude.{
  ℕ, zero, suc, ◌+◌, ◌-◌, ◌/◌, ◌≤◌, ◌<◌, ◌≡◌, refl, inl, inr, true, false, Option, some, List, [],
  ◌∷◌, arith, ltb, Bool-cases, ltb→lt, ltb-false, length, All, Bytes,
}
use kanbudb.Key.{key_cmp, below}
use kanbudb.Key.Order.{below_trans, below_gt}
use kanbudb.Sstable.Reader.{IdxEntry, index_key, lower_bound_loop, index_lower_bound}

abbrev pub SortedRows : List IdxEntry → Type 0
SortedRows [] = Unit
SortedRows (r ∷ rs) = All (λ (x : IdxEntry). below r.key x.key ≡ true) rs × SortedRows rs

-- All rows below `p`, and all from `p` on.
abbrev pub Left : Bytes → List IdxEntry → ℕ → Type 0
Left key rs p = (j : ℕ) → j < p → below (index_key rs j) key ≡ true

abbrev pub Right : Bytes → List IdxEntry → ℕ → Type 0
Right key rs p = (j : ℕ) → p ≤ j → j < length rs → below (index_key rs j) key ≡ false

index_key-All :
    (P : Bytes → Type 0) (rs : List IdxEntry) (j : ℕ)
    → All (λ (x : IdxEntry). P x.key) rs
    → j < length rs
    → P (index_key rs j)
index_key-All P [] j a h = elim h [ ]
index_key-All P (r ∷ rs) zero a h = a.0
index_key-All P (r ∷ rs) (suc j) a h = index_key-All P rs j a.1 (omega arith)

index_key-SortedRows :
    (rs : List IdxEntry) (i j : ℕ)
    → SortedRows rs
    → i < j
    → j < length rs
    → below (index_key rs i) (index_key rs j) ≡ true
index_key-SortedRows [] i j o h l = elim l [ ]
index_key-SortedRows (r ∷ rs) i zero o h l = absurd (omega arith)
index_key-SortedRows (r ∷ rs) zero (suc j) o h l =
    index_key-All (λ k. below r.key k ≡ true) rs j o.0 (omega arith)
index_key-SortedRows (r ∷ rs) (suc i) (suc j) o h l =
    index_key-SortedRows rs i j o.1 (omega arith) (omega arith)

Left-mid :
    (key : Bytes) (rs : List IdxEntry) (mid : ℕ)
    → SortedRows rs
    → mid < length rs
    → below (index_key rs mid) key ≡ true
    → Left key rs (mid + 1)
Left-mid key rs mid o h b j l =
    ground
      (arith, index_key-SortedRows rs j mid o, below_trans (index_key rs j) (index_key rs mid) key)

Right-mid :
    (key : Bytes) (rs : List IdxEntry) (mid : ℕ)
    → SortedRows rs
    → below (index_key rs mid) key ≡ false
    → Right key rs mid
Right-mid key rs mid o b j l h =
    ground
      (arith, index_key-SortedRows rs mid j o, below_trans (index_key rs mid) (index_key rs j) key)

abbrev pub Found : Bytes → List IdxEntry → Option ℕ → Type 0
Found key rs r = (p : ℕ) × (r ≡ some p) × (p ≤ length rs) × Left key rs p × Right key rs p

-- One round: the comparison picks one of the two ways to go on.
bound_round :
    (mid : ℕ) (key : Bytes) (rs : List IdxEntry) (left right : Option ℕ) (c : Ordering)
    → SortedRows rs
    → mid < length rs
    → key_cmp key (index_key rs mid) ≡ c
    → (Right key rs mid → Found key rs left)
    → (Left key rs (mid + 1) → Found key rs right)
    → Found key rs (elim c [ Ordering.gt ↦ right | _ ↦ left ])
bound_round mid key rs left right Ordering.gt o h q f g =
    g (Left-mid key rs mid o h (unfold below in ground (arith, q, below_gt key (index_key rs mid))))
bound_round mid key rs left right Ordering.lt o h q f g =
    f (Right-mid key rs mid o (rw (← below_gt key (index_key rs mid)) (rw q refl)))
bound_round mid key rs left right Ordering.eq o h q f g =
    f (Right-mid key rs mid o (rw (← below_gt key (index_key rs mid)) (rw q refl)))

lower_bound_loop-Found :
    (fuel lo hi : ℕ) (key : Bytes) (rs : List IdxEntry)
    → SortedRows rs
    → lo ≤ hi
    → hi < lo + fuel
    → hi ≤ length rs
    → Left key rs lo
    → Right key rs hi
    → Found key rs (lower_bound_loop fuel lo hi key rs)
unfolding lower_bound_loop
lower_bound_loop-Found zero lo hi key rs o h f t l r = absurd (omega arith)
lower_bound_loop-Found (suc fuel) lo hi key rs o h f t l r = elim (Bool-cases (ltb lo hi)) [
  | inr e ↦
      let past : hi ≤ lo = ltb-false lo hi e in
      rw e (lo, refl, omega (arith, h, t), l, λ j g m. r j (omega (arith, past, g)) m)
  | inl e ↦
      let inside : lo < hi = ltb→lt lo hi e in
      let mid = lo + (hi - lo) / 2 in
      rw e (
        bound_round mid key rs (lower_bound_loop fuel lo mid key rs)
          (lower_bound_loop fuel (mid + 1) hi key rs) (key_cmp key (index_key rs mid)) o
          (omega (arith, inside, t)) refl
          (λ a.
            lower_bound_loop-Found fuel lo mid key rs o (omega (arith, inside))
              (omega (arith, inside, f)) (omega (arith, inside, t)) l a)
          (λ a.
            lower_bound_loop-Found fuel (mid + 1) hi key rs o (omega (arith, inside))
              (omega (arith, inside, f)) t a r))
]

pub index_lower_bound-Found :
    (key : Bytes) (rs : List IdxEntry) → SortedRows rs → Found key rs (index_lower_bound rs key)
unfolding index_lower_bound
index_lower_bound-Found key rs o =
    lower_bound_loop-Found (suc (length rs)) 0 (length rs) key rs o (omega arith) (omega arith)
      (omega arith) (λ j h. absurd (omega arith)) (λ j g m. absurd (omega arith))
