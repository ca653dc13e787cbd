-- ===== src/Bloom/Store.antt =====
-- `bloom_create`, and the round trip of `bloom_serialize` and `bloom_load`, of src/util/bloom.c.
use kanbudb.Prelude.{
  ℕ, zero, suc, ◌+◌, ◌*◌, ◌^◌, ◌<◌, ◌≡◌, some, arith, length, take, replicate, All,
  length-replicate, take-length, Bytes, IsByte, le_bytes, of_le-le_bytes,
}
use kanbudb.Bloom.{
  Bloom, byte_count, bits_for, bloom_create, bloom_serialized_size, bloom_serialize, bloom_load,
  IsValid,
}

take_whole : (n : ℕ) (xs : Bytes) → length xs ≡ n → take n xs ≡ xs
take_whole n xs h = rw (← h) (take-length xs)

All-replicate : (n : ℕ) → All IsByte (replicate n 0)
All-replicate zero = tt
All-replicate (suc n) = (omega arith, All-replicate n)

-- A valid filter that is serialized takes the announced size and is loaded as it was.
pub bloom_load-bloom_serialize :
    (bf : Bloom)
    → IsValid bf
    → (length (bloom_serialize bf) ≡ bloom_serialized_size bf)
      × (bloom_load (bloom_serialize bf) ≡ some bf)
unfolding bloom_serialize bloom_load bloom_serialized_size le_bytes
bloom_load-bloom_serialize bf v =
    let whole : take (byte_count bf.num_bits) bf.bits ≡ bf.bits = take_whole _ bf.bits v.held in
    let size : length bf.bits ≡ byte_count bf.num_bits = v.held in
    let nb = of_le-le_bytes 4 bf.num_bits (omega (arith, v.bits_word)) in
    let nh = of_le-le_bytes 4 bf.num_hashes v.hashes_word in
    let nk = of_le-le_bytes 4 bf.num_keys v.keys_word in
    rw whole (rw (nb, nh, nk) (ground (arith, size), ground (arith, size, whole)))

bits_for-range :
    (num_keys bits_per_key : ℕ)
    → num_keys * bits_per_key + 70 < 2 ^ 32
    → (0 < bits_for num_keys bits_per_key) × (bits_for num_keys bits_per_key + 7 < 2 ^ 32)
bits_for-range num_keys bits_per_key room = (ground arith, ground arith)

-- Where neither argument is zero and their product is below 2 ^ 32 - 70, `bloom_create` makes a valid
-- filter.
pub bloom_create-IsValid :
    (optimal_k : ℕ → ℕ → ℕ) (num_keys bits_per_key : ℕ)
    → ((m n : ℕ) → optimal_k m n < 2 ^ 32)
    → 0 < num_keys
    → 0 < bits_per_key
    → num_keys < 2 ^ 32
    → num_keys * bits_per_key + 70 < 2 ^ 32
    → (bf : Bloom) × (bloom_create optimal_k num_keys bits_per_key ≡ some bf) × IsValid bf
unfolding bloom_create
bloom_create-IsValid optimal_k num_keys bits_per_key word keys_pos bits_pos keys_word room = (
  _,
  ground (arith, room, keys_pos, bits_pos),
  record {
    some_bits = (bits_for-range num_keys bits_per_key room).0;
    held = length-replicate (byte_count (bits_for num_keys bits_per_key)) 0;
    bytes = All-replicate (byte_count (bits_for num_keys bits_per_key));
    bits_word = (bits_for-range num_keys bits_per_key room).1;
    hashes_word = word (bits_for num_keys bits_per_key) num_keys;
    keys_word = keys_word;
  },
)
