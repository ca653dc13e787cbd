-- ===== src/Compaction.antt =====
-- Compaction, src/storage/compaction.c: the order of the entries that are merged, the loop that writes
-- the merged table, and the choice of a level.
pub mod Merge
pub mod Files
pub mod Inputs
pub mod Levels
use Prim.Native.Nat.{compare, Ordering, bit_and}
use kanbudb.Prelude.{
  ℕ, zero, suc, ◌+◌, ◌-◌, ◌*◌, ◌%◌, ◌^◌, Bool, false, ◌&&◌, not, Option, none, some, List, [], ◌∷◌,
  ◌++◌, ltb, leb, ◌==◌, if◌then◌else◌, length, Bytes,
}
use kanbudb.Key.{memcmp, key_cmp, is_eq}

-- `merge_entry_t`
pub record MergeEntry : Type 0 where
  pub key : Bytes
  pub value : Bytes
  pub flag : ℕ
  pub sequence : ℕ

unfoldable pub merge_entry_compare : MergeEntry → MergeEntry → Ordering
merge_entry_compare ea eb = elim (key_cmp ea.key eb.key) [
  | Ordering.lt ↦ Ordering.lt
  | Ordering.gt ↦ Ordering.gt
  | Ordering.eq ↦ compare eb.sequence ea.sequence
]

-- `flag & KANBUDB_SSTABLE_FLAG_TOMBSTONE`
unfoldable pub is_tombstone : MergeEntry → Bool
is_tombstone e = not (bit_and e.flag 2 == 0)

-- Whether the entry has the key of the one before it; `none` while `first` is set.
unfoldable pub same_key : Option Bytes → Bytes → Bool
same_key none key = false
same_key (some prev_key) key =
    length key == length prev_key && is_eq (memcmp (length key) key prev_key)

-- The loop of `compaction_merge_to_level`: the entries that are written.
unfoldable pub merge_loop : Option Bytes → List MergeEntry → List MergeEntry
merge_loop prev [] = []
merge_loop prev (e ∷ rest) =
    if same_key prev e.key
    then merge_loop prev rest
    else if is_tombstone e
    then merge_loop (some e.key) rest
    else e ∷ merge_loop (some e.key) rest

-- `compaction_level_t`, without its number, which is its place in the array.
pub record Level : Type 0 where
  pub file_paths : List Bytes
  pub total_size : ℕ

-- The loop of `compaction_max_bytes_for_level`, which runs `rounds` times.
unfoldable pub grow : ℕ → ℕ → ℕ
grow zero base = base
grow (suc rounds) base = grow rounds (base * 10 % 2 ^ 64)

unfoldable pub compaction_max_bytes_for_level : ℕ → ℕ
compaction_max_bytes_for_level level = if level == 0 then 0 else grow (level - 1) 10485760

-- The loop of `compaction_pick_level` over levels `i` to `max_levels - 2`.
unfoldable pub pick_from : ℕ → List Level → Option ℕ
pick_from i [] = none
pick_from i (last ∷ []) = none
pick_from i (level ∷ next ∷ rest) =
    if ltb (compaction_max_bytes_for_level i) level.total_size && ltb 0 (length level.file_paths)
    then some i
    else pick_from (suc i) (next ∷ rest)

-- `compaction_pick_level`: `none` is -1.
unfoldable pub compaction_pick_level : List Level → Option ℕ
compaction_pick_level [] = none
compaction_pick_level (last ∷ []) = none
compaction_pick_level (level0 ∷ level1 ∷ rest) =
    if leb 4 (length level0.file_paths) then some 0 else pick_from 1 (level1 ∷ rest)

-- `compaction_register_file` on the level, where the allocations succeed.
unfoldable pub register_at : ℕ → Bytes → ℕ → List Level → List Level
register_at level path file_size [] = []
register_at zero path file_size (l ∷ rest) =
    record {
      file_paths = l.file_paths ++ path ∷ [];
      total_size = (l.total_size + file_size) % 2 ^ 64;
    }
    ∷ rest
register_at (suc level) path file_size (l ∷ rest) = l ∷ register_at level path file_size rest
