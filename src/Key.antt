-- ===== src/Key.antt =====
-- The order of keys: `key_cmp` of src/storage/lsm.c and of src/storage/btree.c, the same function.
-- It compares the common length by `memcmp`, then the lengths.
pub mod Order
use Prim.Native.Nat.{compare, Ordering}
use kanbudb.Prelude.{ℕ, zero, suc, Bool, true, false, [], ◌∷◌, ltb, if◌then◌else◌, length, Bytes}

-- `memcmp` over the first `n` bytes, by its sign.
unfoldable pub memcmp : ℕ → Bytes → Bytes → Ordering
memcmp zero a b = Ordering.eq
memcmp (suc n) [] b = Ordering.eq
memcmp (suc n) (x ∷ a) [] = Ordering.eq
memcmp (suc n) (x ∷ a) (y ∷ b) = elim (compare x y) [
  | Ordering.lt ↦ Ordering.lt
  | Ordering.gt ↦ Ordering.gt
  | Ordering.eq ↦ memcmp n a b
]

unfoldable pub key_cmp : Bytes → Bytes → Ordering
key_cmp a b =
    let n = if ltb (length a) (length b) then length a else length b in
    elim (memcmp n a b) [
      | Ordering.lt ↦ Ordering.lt
      | Ordering.gt ↦ Ordering.gt
      | Ordering.eq ↦ compare (length a) (length b)
    ]

-- `key_cmp(...) < 0` and `key_cmp(...) > 0`
abbrev pub is_lt : Ordering → Bool
is_lt Ordering.lt = true
is_lt _ = false

abbrev pub is_gt : Ordering → Bool
is_gt Ordering.gt = true
is_gt _ = false

abbrev pub is_eq : Ordering → Bool
is_eq Ordering.eq = true
is_eq _ = false

-- `a` comes before `b`.
unfoldable pub below : Bytes → Bytes → Bool
below a b = is_lt (key_cmp a b)
