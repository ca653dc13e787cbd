-- ===== src/Prelude/LittleEndian.antt =====
-- Little-endian integers as lists of bytes, and reads of a fixed number of bytes.
use Prim.Native.Nat.{ℕ, zero, suc, ◌+◌, ◌*◌, ◌/◌, ◌%◌, ◌^◌, ◌<◌}
use mathlib.Core.Path.{◌≡◌, refl, ap}
use mathlib.Core.List.{List, [], ◌∷◌, ◌++◌}
use mathlib.Core.Option.{Option, none, some}
use native.Mathlib.Nat.{pow-suc}
use native.Mathlib.Omega.{arith}
use kanbudb.Prelude.Lists.{length, All}
use mathlib.Core.Logic.{inl, inr}
use kanbudb.Prelude.Tests.{Option-cases}

abbrev pub Bytes : Type 0
Bytes = List ℕ

abbrev pub IsByte : ℕ → Type 0
IsByte b = b < 256

-- The `n` bytes of `x`, lowest first: what `memcpy` of an n-byte integer writes.
unfoldable pub le_bytes : ℕ → ℕ → Bytes
le_bytes zero x = []
le_bytes (suc n) x = (x % 256) ∷ le_bytes n (x / 256)

-- The integer that a run of bytes stands for.
unfoldable pub of_le : Bytes → ℕ
of_le [] = 0
of_le (b ∷ bs) = b + 256 * of_le bs

-- `fread(p, 1, n, f)` that asks for `n` bytes: `none` if fewer are left.
unfoldable pub read_bytes : ℕ → Bytes → Option (Bytes × Bytes)
read_bytes zero bs = some ([], bs)
read_bytes (suc n) [] = none
read_bytes (suc n) (b ∷ bs) = elim (read_bytes n bs) [
  | none ↦ none
  | some (front, rest) ↦ some (b ∷ front, rest)
]

pub length-le_bytes : (n x : ℕ) → length (le_bytes n x) ≡ n
unfolding le_bytes
length-le_bytes zero x = refl
length-le_bytes (suc n) x = ap suc (length-le_bytes n (x / 256))

pub All-IsByte-le_bytes : (n x : ℕ) → All IsByte (le_bytes n x)
unfolding le_bytes
All-IsByte-le_bytes zero x = tt
All-IsByte-le_bytes (suc n) x = (omega arith, All-IsByte-le_bytes n (x / 256))

pub of_le-le_bytes : (n x : ℕ) → x < 256 ^ n → of_le (le_bytes n x) ≡ x
unfolding le_bytes of_le
of_le-le_bytes zero x h = omega arith
of_le-le_bytes (suc n) x h =
    omega (arith, of_le-le_bytes n (x / 256) (omega (arith, pow-suc 256 n)))

pub read_bytes-append : (xs ys : Bytes) → read_bytes (length xs) (xs ++ ys) ≡ some (xs, ys)
unfolding read_bytes
read_bytes-append [] ys = refl
read_bytes-append (x ∷ xs) ys = rw (read_bytes-append xs ys)

-- A read that asks for more than there is fails.
pub read_bytes_short : (n : ℕ) (xs : Bytes) → length xs < n → read_bytes n xs ≡ none
unfolding read_bytes
read_bytes_short zero xs h = absurd (omega arith)
read_bytes_short (suc n) [] h = refl
read_bytes_short (suc n) (x ∷ xs) h = rw (read_bytes_short n xs (omega arith))

-- What a successful read returns.
pub read_bytes_split :
    (n : ℕ) (xs front rest : Bytes)
    → read_bytes n xs ≡ some (front, rest)
    → (length front ≡ n) × (xs ≡ front ++ rest)
unfolding read_bytes
read_bytes_split zero xs front rest h = ground arith
read_bytes_split (suc n) [] front rest h = cc
read_bytes_split (suc n) (x ∷ xs) front rest h = elim (Option-cases (read_bytes n xs)) [
  | inl e ↦ ground (arith, e)
  | inr ((f, r), e) ↦ ground (arith, e, read_bytes_split n xs f r e)
]

pub read_bytes-le_bytes :
    (n x : ℕ) (ys : Bytes) → read_bytes n (le_bytes n x ++ ys) ≡ some (le_bytes n x, ys)
unfolding read_bytes le_bytes
read_bytes-le_bytes zero x ys = refl
read_bytes-le_bytes (suc n) x ys = rw (read_bytes-le_bytes n (x / 256) ys)

-- Bytes added behind the input join the rest.
pub read_bytes-append_more :
    (n : ℕ) (xs more front rest : Bytes)
    → read_bytes n xs ≡ some (front, rest)
    → read_bytes n (xs ++ more) ≡ some (front, rest ++ more)
unfolding read_bytes
read_bytes-append_more zero xs more front rest h = ground arith
read_bytes-append_more (suc n) [] more front rest h = cc
read_bytes-append_more (suc n) (x ∷ xs) more front rest h = elim (Option-cases (read_bytes n xs)) [
  | inl e ↦ ground (arith, e)
  | inr ((f, r), e) ↦ ground (arith, e, read_bytes-append_more n xs more f r e)
]
