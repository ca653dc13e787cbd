-- ===== src/Tests/Merging.antt =====
-- The theorems on the arena and on compaction, src/util/arena.c and src/storage/compaction.c, at work
-- on small inputs.
use kanbudb.Prelude.{
  ◌<◌, Option, Bytes, map, length, length-append, le_bytes, if◌then◌else◌, inl, ℕ, ◌≡◌, refl, inr,
  true, some, List, [], ◌∷◌, arith,
}
use kanbudb.Arena.{Arena, arena_alloc}
use kanbudb.Arena.Regions.{Region, IsValid, Allocated, arena_alloc-Allocated}
use kanbudb.Key.{memcmp, key_cmp, is_gt}
use kanbudb.Compaction.{
  MergeEntry, merge_entry_compare, is_tombstone, same_key, merge_loop, Level, grow,
  compaction_max_bytes_for_level, pick_from, compaction_pick_level,
}
use kanbudb.Status.{Status}
use kanbudb.Sstable.{SstEntry, entry_bytes}
use kanbudb.Compaction.Files.{MergeEnv, compaction_merge_to_level}
use kanbudb.Compaction.Inputs.{
  IsNewest, Sorts, got_value, Input, file_of, entries_of, MergesWell,
  compaction_merge_to_level-IsNewest,
}
use kanbudb.Sstable.Reader.{Reader, Opened, Got, sstable_reader_open, sstable_reader_get}
use kanbudb.Sstable.Data.{Fits}
use kanbudb.Sstable.Scan.{Storable}
use kanbudb.Compaction.Merge.{IsSorted, live}

-- A block of 64 bytes, of which 16 are given.
abbrev arena : Arena
arena = record {
  before = [];
  current = record { id = 0; capacity = 64; offset = 16 };
  after = [];
  block_size = 64;
  used = 16;
  next_id = 1;
}

arena-IsValid : IsValid arena
arena-IsValid = record {
  fits = omega arith;
  small = omega arith;
  block_small = omega arith;
  aligned = refl;
  numbered = omega arith;
}

abbrev taken : Region
taken = record { block = 0; start = 0; size = 13 }

arena_alloc-Allocated_example :
    (p : ℕ × ℕ) × ((arena_alloc true arena 50).1 ≡ some p)
    × Allocated (taken ∷ []) 50 (arena_alloc true arena 50).0 p
arena_alloc-Allocated_example =
    arena_alloc-Allocated arena 50 (taken ∷ []) arena-IsValid ((omega arith, inr (omega arith)), tt)
      (omega arith) (omega arith)

-- Key 3 was deleted last, key 5 was written twice.
abbrev sorted_entries : List MergeEntry
sorted_entries =
    record { key = 3 ∷ []; value = []; flag = 2; sequence = 9 }
    ∷ record { key = 3 ∷ []; value = 1 ∷ []; flag = 0; sequence = 4 }
    ∷ record { key = 5 ∷ []; value = 2 ∷ []; flag = 0; sequence = 6 }
    ∷ record { key = 5 ∷ []; value = 3 ∷ []; flag = 0; sequence = 5 }
    ∷ []

sorted_entries-IsSorted : IsSorted sorted_entries
unfolding merge_entry_compare key_cmp memcmp
sorted_entries-IsSorted = ((refl, (refl, (refl, tt))), ((refl, (refl, tt)), ((refl, tt), (tt, tt))))

-- Level 1 is above its limit of 10 MB.
abbrev three_levels : List Level
three_levels =
    record { file_paths = (97 ∷ []) ∷ []; total_size = 5 }
    ∷ record { file_paths = (98 ∷ []) ∷ []; total_size = 20000000 }
    ∷ record { file_paths = []; total_size = 0 }
    ∷ []

picks_one : compaction_pick_level three_levels ≡ some 1
unfolding compaction_pick_level pick_from compaction_max_bytes_for_level grow
picks_one = refl

-- A sort by insertion.
insert_entry : MergeEntry → List MergeEntry → List MergeEntry
insert_entry e [] = e ∷ []
insert_entry e (x ∷ xs) =
    if is_gt (merge_entry_compare e x) then x ∷ insert_entry e xs else e ∷ x ∷ xs

sort_entries : List MergeEntry → List MergeEntry
sort_entries [] = []
sort_entries (x ∷ xs) = insert_entry x (sort_entries xs)

abbrev merge_env : MergeEnv
merge_env = record {
  qsort = sort_entries;
  optimal_k = λ m n. 7;
  writer_created = true;
  writer_finished = Status.ok;
  created_at = 9;
}

-- Key 5 in an old file, and its deletion in a new one.
abbrev old_entry : SstEntry
old_entry = record { key = 5 ∷ []; value = 50 ∷ []; flag = 1 }

abbrev new_entry : SstEntry
new_entry = record { key = 5 ∷ []; value = []; flag = 2 }

abbrev two_inputs : List Input
two_inputs =
    record { sequence = 1; created_at = 8; entries = old_entry ∷ [] }
    ∷ record { sequence = 2; created_at = 8; entries = new_entry ∷ [] }
    ∷ []

two_Sorts : Sorts sort_entries (entries_of two_inputs)
unfolding sort_entries insert_entry merge_entry_compare key_cmp memcmp
two_Sorts = record {
  sorted = ((refl, tt), (tt, tt));
  from =
      λ e m. elim m [ inl h ↦ inr (inl h) | inr r ↦ elim r [ inl h ↦ inl h | inr n ↦ absurd n ] ];
  to = λ e m. elim m [ inl h ↦ inr (inl h) | inr r ↦ elim r [ inl h ↦ inl h | inr n ↦ absurd n ] ];
}

one_Storable : (e : SstEntry) → Fits e → length (entry_bytes e) < 1000 → Storable (e ∷ [])
one_Storable e f short = record {
  fits = (f, tt);
  few = omega arith;
  short = omega (arith, length-append (entry_bytes e) [], short);
}

old_Storable : Storable (old_entry ∷ [])
unfolding entry_bytes le_bytes
old_Storable =
    one_Storable old_entry
      (record { key_short = omega arith; value_short = omega arith; flag_byte = omega arith })
      (omega arith)

new_Storable : Storable (new_entry ∷ [])
unfolding entry_bytes le_bytes
new_Storable =
    one_Storable new_entry
      (record { key_short = omega arith; value_short = omega arith; flag_byte = omega arith })
      (omega arith)

two_inputs-MergesWell : MergesWell merge_env two_inputs
unfolding sort_entries insert_entry merge_entry_compare key_cmp memcmp merge_loop same_key
    is_tombstone
two_inputs-MergesWell = record {
  sorts = two_Sorts;
  filter = λ m n. omega arith;
  created = refl;
  finished = refl;
  created_word = omega arith;
  some_input = omega arith;
  some_entry = omega arith;
  valid = (
    record { storable = old_Storable; sequence_word = omega arith; created_word = omega arith },
    (
      record { storable = new_Storable; sequence_word = omega arith; created_word = omega arith },
      tt,
    ),
  );
  storable = record { fits = tt; few = omega arith; short = omega arith };
}

compaction_merge_to_level-IsNewest_example :
    (file : Bytes) × (r : Reader) × (o : Option MergeEntry) × (g : Got) × (compaction_merge_to_level
        merge_env
        (map (file_of merge_env.optimal_k) two_inputs)
        3
      ≡ some (some file, Status.ok))
    × (sstable_reader_open file ≡ Opened.opened r)
    × (sstable_reader_get r (5 ∷ []) ≡ some g)
    × (got_value g ≡ live o)
    × IsNewest (5 ∷ []) o (entries_of two_inputs)
compaction_merge_to_level-IsNewest_example =
    compaction_merge_to_level-IsNewest (5 ∷ []) merge_env two_inputs 3 two_inputs-MergesWell
      (omega arith)
