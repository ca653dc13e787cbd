-- ===== src/Key/Order.antt =====
-- `key_cmp` is the lexicographic order on byte strings, a total order.
use Prim.Native.Nat.{compare, Ordering}
use kanbudb.Prelude.{◌≡◌, refl, ap, ◌∙◌, ◌↔◌, true, false, [], ◌∷◌, arith, Bool-cases, Bytes}
use kanbudb.Key.{memcmp, key_cmp, is_gt, is_eq, below}

-- The lexicographic order.
unfoldable pub lex : Bytes → Bytes → Ordering
lex [] [] = Ordering.eq
lex [] (y ∷ b) = Ordering.lt
lex (x ∷ a) [] = Ordering.gt
lex (x ∷ a) (y ∷ b) = elim (compare x y) [
  | Ordering.lt ↦ Ordering.lt
  | Ordering.gt ↦ Ordering.gt
  | Ordering.eq ↦ lex a b
]

-- Comparing the common prefix and then the lengths is the lexicographic order.
pub key_cmp-lex : (a b : Bytes) → key_cmp a b ≡ lex a b
unfolding key_cmp memcmp lex
key_cmp-lex [] [] = refl
key_cmp-lex [] (y ∷ b) = ground arith
key_cmp-lex (x ∷ a) [] = ground arith
key_cmp-lex (x ∷ a) (y ∷ b) = ground (arith, key_cmp-lex a b)

flip : Ordering → Ordering
flip Ordering.lt = Ordering.gt
flip Ordering.eq = Ordering.eq
flip Ordering.gt = Ordering.lt

lex_refl : (a : Bytes) → lex a a ≡ Ordering.eq
unfolding lex
lex_refl [] = refl
lex_refl (x ∷ a) = ground (arith, lex_refl a)

lex_eq : (a b : Bytes) → lex a b ≡ Ordering.eq → a ≡ b
unfolding lex
lex_eq [] [] h = refl
lex_eq [] (y ∷ b) h = cc
lex_eq (x ∷ a) [] h = cc
lex_eq (x ∷ a) (y ∷ b) h = ground (arith, lex_eq a b)

lex-flip : (a b : Bytes) → lex b a ≡ flip (lex a b)
unfolding lex flip
lex-flip [] [] = refl
lex-flip [] (y ∷ b) = refl
lex-flip (x ∷ a) [] = refl
lex-flip (x ∷ a) (y ∷ b) = ground (arith, lex-flip a b)

lex_trans : (a b c : Bytes) → lex a b ≡ Ordering.lt → lex b c ≡ Ordering.lt → lex a c ≡ Ordering.lt
unfolding lex
lex_trans [] [] c h k = cc
lex_trans [] (y ∷ b) [] h k = cc
lex_trans [] (y ∷ b) (z ∷ c) h k = refl
lex_trans (x ∷ a) [] c h k = cc
lex_trans (x ∷ a) (y ∷ b) [] h k = cc
lex_trans (x ∷ a) (y ∷ b) (z ∷ c) h k = ground (arith, lex_trans a b c)

pub key_cmp_refl : (a : Bytes) → key_cmp a a ≡ Ordering.eq
key_cmp_refl a = rw key_cmp-lex (lex_refl a)

pub key_cmp_eq : (a b : Bytes) → key_cmp a b ≡ Ordering.eq → a ≡ b
key_cmp_eq a b h = lex_eq a b (rw key_cmp-lex at h)

pub key_cmp_flip_lt : (a b : Bytes) → key_cmp a b ≡ Ordering.lt → key_cmp b a ≡ Ordering.gt
unfolding flip
key_cmp_flip_lt a b h = rw key_cmp-lex (lex-flip a b ∙ ap flip (rw key_cmp-lex at h))

pub key_cmp_flip_gt : (a b : Bytes) → key_cmp a b ≡ Ordering.gt → key_cmp b a ≡ Ordering.lt
unfolding flip
key_cmp_flip_gt a b h = rw key_cmp-lex (lex-flip a b ∙ ap flip (rw key_cmp-lex at h))

pub key_cmp_trans :
    (a b c : Bytes)
    → key_cmp a b ≡ Ordering.lt
    → key_cmp b c ≡ Ordering.lt
    → key_cmp a c ≡ Ordering.lt
key_cmp_trans a b c h k =
    rw key_cmp-lex (lex_trans a b c (rw key_cmp-lex at h) (rw key_cmp-lex at k))

pub below_refl : (a : Bytes) → below a a ≡ false
unfolding below
below_refl a = rw key_cmp_refl

pub below_trans : (a b c : Bytes) → below a b ≡ true → below b c ≡ true → below a c ≡ true
unfolding below
below_trans a b c h k = ground (arith, key_cmp_trans a b c)

-- `a < k` and `k ≤ x` give `a < x`.
pub below_le : (a k x : Bytes) → below a k ≡ true → below x k ≡ false → below a x ≡ true
unfolding below
below_le a k x h g = ground (arith, key_cmp_eq a x, key_cmp_flip_gt a x, key_cmp_trans x a k)

-- `k ≤ a` and `a < x` give `k < x`, so `k ≤ x`.
pub le_below : (k a x : Bytes) → below a k ≡ false → below a x ≡ true → below x k ≡ false
unfolding below
le_below k a x h g = ground (arith, key_cmp_trans a x k)

pub below_eq : (a b : Bytes) → below a b ≡ false → below b a ≡ false → a ≡ b
unfolding below
below_eq a b h g = ground (arith, key_cmp_eq a b, key_cmp_flip_gt a b)

-- `k ≤ a` and `a < x` give `k < x`.
pub below_lt : (k a x : Bytes) → below a k ≡ false → below a x ≡ true → below k x ≡ true
below_lt k a x h g = ground (arith, below_eq a k, below_trans k a x, Bool-cases (below k a))

pub below_gt : (a b : Bytes) → is_gt (key_cmp a b) ≡ below b a
unfolding below
below_gt a b = ground (
  arith,
  key_cmp_flip_gt a b,
  key_cmp_flip_lt a b,
  key_cmp_eq a b,
  key_cmp_flip_gt b a,
  key_cmp_flip_lt b a,
  key_cmp_eq b a,
  key_cmp_refl a,
)

pub is_eq_iff : (a b : Bytes) → (is_eq (key_cmp a b) ≡ true) ↔ (a ≡ b)
is_eq_iff a b = (λ h. ground (arith, key_cmp_eq a b), λ h. rw (h, key_cmp_refl))
