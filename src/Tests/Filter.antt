-- ===== src/Tests/Filter.antt =====
-- The theorems on the Bloom filter and on the cursor of the B+tree, src/util/bloom.c and
-- src/storage/btree.c, at work on a small filter and a small tree.
use kanbudb.Prelude.{
  ℕ, ◌≡◌, refl, true, false, some, List, [], ◌∷◌, arith, take, drop, replicate, All,
}
use kanbudb.Bloom.{Bloom, bloom_insert, bloom_maybe, IsValid}
use kanbudb.Bloom.Members.{bloom_maybe-bloom_insert}
use kanbudb.Key.{memcmp, key_cmp, below}
use kanbudb.Btree.{Item}
use kanbudb.Btree.Laws.{IsAscending}
use kanbudb.Btree.Cursor.{btree_cursor_seek}
use kanbudb.Btree.Cursor.Seek.{btree_cursor_seek_ends}

abbrev filter : Bloom
filter = record { bits = replicate 8 0; num_bits = 64; num_hashes = 3; num_keys = 5 }

filter-IsValid : IsValid filter
filter-IsValid = record {
  some_bits = omega arith;
  held = refl;
  bytes = ground arith;
  bits_word = omega arith;
  hashes_word = omega arith;
  keys_word = omega arith;
}

bloom_maybe-bloom_insert_example :
    bloom_maybe (bloom_insert filter (7 ∷ 9 ∷ [])) (7 ∷ 9 ∷ []) ≡ true
bloom_maybe-bloom_insert_example = bloom_maybe-bloom_insert filter (7 ∷ 9 ∷ []) filter-IsValid

abbrev filter_7 : Bloom
filter_7 = bloom_insert filter (7 ∷ [])

abbrev three_items : List Item
three_items =
    record { key = 2 ∷ []; value = [] }
    ∷ record { key = 4 ∷ []; value = [] }
    ∷ record { key = 6 ∷ []; value = [] }
    ∷ []

three_items-IsAscending : IsAscending three_items
unfolding below key_cmp memcmp
three_items-IsAscending = ((refl, (refl, tt)), ((refl, tt), (tt, tt)))

btree_cursor_seek_ends_example :
    (p : ℕ) × (btree_cursor_seek (record { items = three_items; pos = 0 }) (some (5 ∷ []))
      ≡ some (record { items = three_items; pos = p }))
    × All (λ (y : Item). below y.key (5 ∷ []) ≡ true) (take p three_items)
    × All (λ (y : Item). below y.key (5 ∷ []) ≡ false) (drop p three_items)
btree_cursor_seek_ends_example =
    btree_cursor_seek_ends three_items 0 (5 ∷ []) three_items-IsAscending
