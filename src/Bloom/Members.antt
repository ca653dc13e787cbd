-- ===== src/Bloom/Members.antt =====
-- `bloom_insert` and `bloom_maybe` of src/util/bloom.c: a key that was inserted is never denied.
use Prim.Native.Nat.{bit_and, bit_or}
use native.Mathlib.Nat.{mod-lt}
use kanbudb.Prelude.{
  ℕ, zero, suc, ◌+◌, ◌*◌, ◌/◌, ◌%◌, ◌^◌, ◌≤◌, ◌<◌, ◌≡◌, refl, ◌∙◌, inl, inr, Bool, true, false,
  ◌&&◌, ◌||◌, not, [], ◌∷◌, arith, ltb, ◌==◌, if◌then◌else◌, Bool-cases, length, get_or, set, All,
  length-set, get_or-set_self, get_or-set_ne, Bytes, IsByte,
}
use kanbudb.Bloom.{
  Bloom, bloom_hash, probe, set_bit, test_bit, insert_from, maybe_from, bloom_insert, bloom_maybe,
  IsValid,
}

-- A test that every number under a bound passes, which a closed bound decides.
passes : (ℕ → Bool) → ℕ → Bool
passes test zero = true
passes test (suc bound) = if test bound then passes test bound else false

passes_at : (test : ℕ → Bool) (bound i : ℕ) → passes test bound ≡ true → i < bound → test i ≡ true
unfolding passes
passes_at test zero i all_pass small = elim small [ ]
passes_at test (suc bound) i all_pass small = ground (arith, passes_at test bound i)

abbrev has_bit : ℕ → ℕ → Bool
has_bit x k = not (bit_and x (2 ^ k) == 0)

-- Bit `k` of a byte after bit `j` was set.
abbrev set_then_test : ℕ → ℕ → ℕ → Bool
set_then_test j k x =
    ltb (bit_or x (2 ^ j)) 256 && (not (j == k || has_bit x k) || has_bit (bit_or x (2 ^ j)) k)

bit_table : passes (λ j. passes (λ k. passes (set_then_test j k) 256) 8) 8 ≡ true
unfolding passes
bit_table = refl

bit_laws : (j k x : ℕ) → j < 8 → k < 8 → x < 256 → set_then_test j k x ≡ true
bit_laws j k x hj hk hx = passes_at _ 256 x (passes_at _ 8 k (passes_at _ 8 j bit_table hj) hk) hx

get_or-byte : (bits : Bytes) (i : ℕ) → All IsByte bits → get_or bits i 0 < 256
get_or-byte [] i a = omega arith
get_or-byte (b ∷ bits) zero a = a.0
get_or-byte (b ∷ bits) (suc i) a = get_or-byte bits i a.1

All-set : (bits : Bytes) (i v : ℕ) → v < 256 → All IsByte bits → All IsByte (set bits i v)
All-set [] i v h a = tt
All-set (b ∷ bits) zero v h a = (h, a.1)
All-set (b ∷ bits) (suc i) v h a = (a.0, All-set bits i v h a.1)

set_bit-bytes : (q : ℕ) (bits : Bytes) → All IsByte bits → All IsByte (set_bit q bits)
unfolding set_bit
set_bit-bytes q bits a =
    let byte = get_or-byte bits (q / 8) a in
    let law = bit_laws (q % 8) 0 (get_or bits (q / 8) 0) (omega arith) (omega arith) byte in
    All-set bits (q / 8) _ (ground (arith, law)) a

test_bit-set_bit_self :
    (q : ℕ) (bits : Bytes)
    → All IsByte bits
    → q / 8 < length bits
    → test_bit q (set_bit q bits) ≡ true
unfolding set_bit test_bit
test_bit-set_bit_self q bits a h =
    let byte = get_or-byte bits (q / 8) a in
    let law = bit_laws (q % 8) (q % 8) (get_or bits (q / 8) 0) (omega arith) (omega arith) byte in
    rw (get_or-set_self bits (q / 8) (bit_or (get_or bits (q / 8) 0) (2 ^ (q % 8))) 0 h)
      (ground (arith, law))

test_bit-set_bit :
    (p q : ℕ) (bits : Bytes)
    → All IsByte bits
    → q / 8 < length bits
    → test_bit p bits ≡ true
    → test_bit p (set_bit q bits) ≡ true
unfolding set_bit test_bit
test_bit-set_bit p q bits a h t =
    let byte = get_or-byte bits (q / 8) a in
    let law = bit_laws (q % 8) (p % 8) (get_or bits (q / 8) 0) (omega arith) (omega arith) byte in
    let v = bit_or (get_or bits (q / 8) 0) (2 ^ (q % 8)) in
    elim (Bool-cases (q / 8 == p / 8)) [
      | inl e ↦
          let same : q / 8 ≡ p / 8 = ground (arith, e) in
          rw (← same)
            (rw (get_or-set_self bits (q / 8) v 0 h) (ground (arith, law, rw (← same) at t)))
      | inr e ↦ rw (get_or-set_ne bits (q / 8) (p / 8) v 0 (ground (arith, e))) t
    ]

module _ (h : ℕ × ℕ) (num_bits : ℕ) where
  -- The bytes that hold `num_bits` bits.
  record Holds (bits : Bytes) : Type 0 where
    bytes : All IsByte bits
    wide : num_bits ≤ 8 * length bits
    some_bits : 0 < num_bits

  probe-in : (i : ℕ) (bits : Bytes) → Holds bits → probe h num_bits i / 8 < length bits
  probe-in i bits v = omega (arith, v.wide, mod-lt ((h.0 + i * h.1) % 2 ^ 64) v.some_bits)

  Holds-set_bit : (i : ℕ) (bits : Bytes) → Holds bits → Holds (set_bit (probe h num_bits i) bits)
  Holds-set_bit i bits v = record {
    bytes = set_bit-bytes (probe h num_bits i) bits v.bytes;
    wide = unfold set_bit in rw (length-set bits _ _) v.wide;
    some_bits = v.some_bits;
  }

  Holds-insert_from :
      (left i : ℕ) (bits : Bytes) → Holds bits → Holds (insert_from left i h num_bits bits)
  unfolding insert_from
  Holds-insert_from zero i bits v = v
  Holds-insert_from (suc left) i bits v = Holds-insert_from left (suc i) _ (Holds-set_bit i bits v)

  test_bit-insert_from :
      (left i p : ℕ) (bits : Bytes)
      → Holds bits
      → test_bit p bits ≡ true
      → test_bit p (insert_from left i h num_bits bits) ≡ true
  unfolding insert_from
  test_bit-insert_from zero i p bits v t = t
  test_bit-insert_from (suc left) i p bits v t =
      test_bit-insert_from left (suc i) p _ (Holds-set_bit i bits v)
        (test_bit-set_bit p (probe h num_bits i) bits v.bytes (probe-in i bits v) t)

  maybe_from-insert_from :
      (left i : ℕ) (bits : Bytes)
      → Holds bits
      → maybe_from left i h num_bits (insert_from left i h num_bits bits) ≡ true
  unfolding insert_from maybe_from
  maybe_from-insert_from zero i bits v = refl
  maybe_from-insert_from (suc left) i bits v =
      let bits' = set_bit (probe h num_bits i) bits in
      let v' = Holds-set_bit i bits v in
      rw
        (test_bit-insert_from left (suc i) (probe h num_bits i) bits' v'
          (test_bit-set_bit_self (probe h num_bits i) bits v.bytes (probe-in i bits v)))
        (maybe_from-insert_from left (suc i) bits' v')

IsValid-Holds : (bf : Bloom) (h : ℕ × ℕ) → IsValid bf → Holds h bf.num_bits bf.bits
IsValid-Holds bf h v = record {
  bytes = v.bytes;
  wide = omega (arith, v.held, v.bits_word);
  some_bits = v.some_bits;
}

maybe_from_more :
    (g : ℕ × ℕ) (count : ℕ) (h : ℕ × ℕ) (num_bits left i : ℕ) (bits : Bytes)
    → Holds g num_bits bits
    → maybe_from left i h num_bits bits ≡ true
    → maybe_from left i h num_bits (insert_from count 0 g num_bits bits) ≡ true
unfolding maybe_from
maybe_from_more g count h num_bits zero i bits v t = refl
maybe_from_more g count h num_bits (suc left) i bits v t = ground (
  arith,
  maybe_from_more g count h num_bits left (suc i) bits v,
  test_bit-insert_from g num_bits count 0 (probe h num_bits i) bits v,
)

-- In a valid filter, a key that was inserted is reported, whatever the hash functions give.
pub bloom_maybe-bloom_insert :
    (bf : Bloom) (key : Bytes) → IsValid bf → bloom_maybe (bloom_insert bf key) key ≡ true
unfolding bloom_maybe bloom_insert
bloom_maybe-bloom_insert bf key v =
    maybe_from-insert_from (bloom_hash key) bf.num_bits bf.num_hashes 0 bf.bits
      (IsValid-Holds bf (bloom_hash key) v)

-- A key that a valid filter reports is still reported after the insertion of any key.
pub bloom_maybe-bloom_insert_more :
    (bf : Bloom) (key q : Bytes)
    → IsValid bf
    → bloom_maybe bf q ≡ true
    → bloom_maybe (bloom_insert bf key) q ≡ true
unfolding bloom_maybe bloom_insert
bloom_maybe-bloom_insert_more bf key q v t =
    maybe_from_more (bloom_hash key) bf.num_hashes (bloom_hash q) bf.num_bits bf.num_hashes 0
      bf.bits (IsValid-Holds bf (bloom_hash key) v) t

length-insert_from :
    (left i : ℕ) (h : ℕ × ℕ) (num_bits : ℕ) (bits : Bytes)
    → length (insert_from left i h num_bits bits) ≡ length bits
unfolding insert_from set_bit
length-insert_from zero i h num_bits bits = refl
length-insert_from (suc left) i h num_bits bits =
    length-insert_from left (suc i) h num_bits (set_bit (probe h num_bits i) bits)
    ∙ length-set bits _ _

-- An insertion keeps a filter valid: its size, and that its bytes are bytes.
pub bloom_insert-IsValid : (bf : Bloom) (key : Bytes) → IsValid bf → IsValid (bloom_insert bf key)
unfolding bloom_insert
bloom_insert-IsValid bf key v = record {
  some_bits = v.some_bits;
  held = length-insert_from bf.num_hashes 0 (bloom_hash key) bf.num_bits bf.bits ∙ v.held;
  bytes =
      (Holds-insert_from (bloom_hash key) bf.num_bits bf.num_hashes 0 bf.bits
        (IsValid-Holds bf (bloom_hash key) v)).bytes;
  bits_word = v.bits_word;
  hashes_word = v.hashes_word;
  keys_word = v.keys_word;
}
