-- ===== src/Bloom.antt =====
-- The Bloom filter, src/util/bloom.c. `optimal_k` computes in floating point and is a parameter.
-- Allocations are taken to succeed.
pub mod Members
pub mod Store
use Prim.Native.Nat.{bit_and, bit_or, bit_xor}
use kanbudb.Prelude.{
  ℕ, zero, suc, ◌+◌, ◌*◌, ◌/◌, ◌%◌, ◌^◌, ◌<◌, ◌≡◌, Bool, true, ◌&&◌, ◌||◌, not, Option, none, some,
  [], ◌∷◌, ◌++◌, ltb, ◌==◌, if◌then◌else◌, length, get_or, set, take, drop, replicate, All, Bytes,
  IsByte, le_bytes, of_le,
}

pub record Bloom : Type 0 where
  pub bits : Bytes
  pub num_bits : ℕ
  pub num_hashes : ℕ
  pub num_keys : ℕ

-- `x * y` and `x >> n` on 64-bit words.
abbrev mul64 : ℕ → ℕ → ℕ
mul64 x y = x * y % 2 ^ 64

abbrev shr : ℕ → ℕ → ℕ
shr x n = x / 2 ^ n

abbrev mix : ℕ → ℕ
mix w = let k = mul64 w 0x87c37b91114253d5 in mul64 (bit_xor k (shr k 31)) 0x4cf5ad432745937f

-- The round for one block of eight bytes.
abbrev hash_block : ℕ → ℕ → ℕ
hash_block h0 w =
    let h = bit_xor h0 (mix w) in
    (bit_or (h * 2 ^ 27 % 2 ^ 64) (shr h 37) * 5 + 0x52dce729) % 2 ^ 64

-- The first `n8` blocks.
unfoldable pub hash_blocks : ℕ → ℕ → Bytes → ℕ
hash_blocks zero h buf = h
hash_blocks (suc n8) h buf = hash_blocks n8 (hash_block h (of_le (take 8 buf))) (drop 8 buf)

-- The `switch` on the bytes that are left, the last one first.
unfoldable pub tail_word : ℕ → Bytes → ℕ
tail_word i [] = 0
tail_word i (b ∷ tail) = bit_xor (tail_word (suc i) tail) (b * 2 ^ (8 * i))

unfoldable pub hash64 : Bytes → ℕ → ℕ
hash64 buf seed =
    let n8 = length buf / 8 in
    let h = hash_blocks n8 (bit_xor seed (mul64 (length buf) 0x9e3779b97f4a7c15)) buf in
    let tail = drop (n8 * 8) buf in
    let h1 = if length tail == 0 then h else bit_xor h (mix (tail_word 0 tail)) in
    let h2 = mul64 (bit_xor h1 (shr h1 37)) 0x52dce729 in bit_xor h2 (shr h2 32)

unfoldable pub bloom_hash : Bytes → ℕ × ℕ
bloom_hash key = (hash64 key 0x5a4f9a3b1c6d8e2f, hash64 key 0xc8d3e1f4a5b6c7d8)

-- `(num_bits + 7) / 8` on 32-bit words.
abbrev pub byte_count : ℕ → ℕ
byte_count num_bits = (num_bits + 7) % 2 ^ 32 / 8

-- `num_bits` of `bloom_create`: the product on 32-bit words, at least 64, rounded up.
abbrev pub bits_for : ℕ → ℕ → ℕ
bits_for num_keys bits_per_key =
    let product = num_keys * bits_per_key % 2 ^ 32 in
    ((if ltb product 64 then 64 else product) + 63) % 2 ^ 32 / 64 * 64

unfoldable pub bloom_create : (ℕ → ℕ → ℕ) → ℕ → ℕ → Option Bloom
bloom_create optimal_k num_keys bits_per_key =
    if num_keys == 0 || bits_per_key == 0
    then none
    else some (record {
      bits = replicate (byte_count (bits_for num_keys bits_per_key)) 0;
      num_bits = bits_for num_keys bits_per_key;
      num_hashes = optimal_k (bits_for num_keys bits_per_key) num_keys;
      num_keys = num_keys;
    })

-- The bit that hash number `i` picks.
abbrev pub probe : ℕ × ℕ → ℕ → ℕ → ℕ
probe (h1, h2) num_bits i = (h1 + i * h2) % 2 ^ 64 % num_bits

unfoldable pub set_bit : ℕ → Bytes → Bytes
set_bit bit bits = set bits (bit / 8) (bit_or (get_or bits (bit / 8) 0) (2 ^ (bit % 8)))

unfoldable pub test_bit : ℕ → Bytes → Bool
test_bit bit bits = not (bit_and (get_or bits (bit / 8) 0) (2 ^ (bit % 8)) == 0)

-- The loops of `bloom_insert` and `bloom_maybe`, from hash number `i`.
unfoldable pub insert_from : ℕ → ℕ → ℕ × ℕ → ℕ → Bytes → Bytes
insert_from zero i h num_bits bits = bits
insert_from (suc left) i h num_bits bits =
    insert_from left (suc i) h num_bits (set_bit (probe h num_bits i) bits)

unfoldable pub maybe_from : ℕ → ℕ → ℕ × ℕ → ℕ → Bytes → Bool
maybe_from zero i h num_bits bits = true
maybe_from (suc left) i h num_bits bits =
    test_bit (probe h num_bits i) bits && maybe_from left (suc i) h num_bits bits

unfoldable pub bloom_insert : Bloom → Bytes → Bloom
bloom_insert bf key = record bf {
  bits = insert_from bf.num_hashes 0 (bloom_hash key) bf.num_bits bf.bits;
}

unfoldable pub bloom_maybe : Bloom → Bytes → Bool
bloom_maybe bf key = maybe_from bf.num_hashes 0 (bloom_hash key) bf.num_bits bf.bits

unfoldable pub bloom_reset : Bloom → Bloom
bloom_reset bf = record bf {
  bits = replicate (byte_count bf.num_bits) 0 ++ drop (byte_count bf.num_bits) bf.bits;
}

unfoldable pub bloom_serialized_size : Bloom → ℕ
bloom_serialized_size bf = 12 + byte_count bf.num_bits

unfoldable pub bloom_serialize : Bloom → Bytes
bloom_serialize bf =
    le_bytes 4 bf.num_bits
    ++ (le_bytes 4 bf.num_hashes
        ++ (le_bytes 4 bf.num_keys ++ take (byte_count bf.num_bits) bf.bits))

unfoldable pub bloom_load : Bytes → Option Bloom
bloom_load buf =
    if ltb (length buf) 12
    then none
    else (let nb = of_le (take 4 buf) in
        if ltb (length buf) (12 + byte_count nb)
        then none
        else some (record {
          bits = take (byte_count nb) (drop 12 buf);
          num_bits = nb;
          num_hashes = of_le (take 4 (drop 4 buf));
          num_keys = of_le (take 4 (drop 8 buf));
        }))

-- A filter as `bloom_create` makes it: some bits, and the bytes that hold them.
pub record IsValid (bf : Bloom) : Type 0 where
  pub some_bits : 0 < bf.num_bits
  pub held : length bf.bits ≡ byte_count bf.num_bits
  pub bytes : All IsByte bf.bits
  pub bits_word : bf.num_bits + 7 < 2 ^ 32
  pub hashes_word : bf.num_hashes < 2 ^ 32
  pub keys_word : bf.num_keys < 2 ^ 32
