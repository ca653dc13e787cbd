-- ===== src/Compaction/Files.antt =====
-- `compaction_merge_to_level` of src/storage/compaction.c over the contents of the input files, from
-- which NULL is opened where a file cannot be read. `qsort` is a parameter, and so are the outcomes of
-- the calls of the system; the allocations for the entries succeed.
use kanbudb.Prelude.{
  ℕ, Bool, true, false, not, Option, none, some, List, [], ◌∷◌, ◌++◌, ◌==◌, if◌then◌else◌, length,
  Bytes,
}
use kanbudb.Status.{Status, is_ok}
use kanbudb.Sstable.{
  SstEntry, Writer, sstable_writer_create, sstable_writer_add, sstable_writer_finish,
}
use kanbudb.Sstable.Reader.{Reader, Opened, sstable_reader_open, sstable_reader_scan}
use kanbudb.Compaction.{MergeEntry, is_tombstone, same_key}

-- `sstable_reader_sequence`
abbrev pub sstable_reader_sequence : Reader → ℕ
sstable_reader_sequence r = r.header.sequence

-- An entry of a table with this sequence number.
abbrev pub merge_entry : ℕ → SstEntry → MergeEntry
merge_entry sequence e = record { key = e.key; value = e.value; flag = e.flag; sequence = sequence }

unfoldable pub merge_collect_cb : ℕ → List MergeEntry → SstEntry → List MergeEntry × Status
merge_collect_cb sequence entries e = (entries ++ merge_entry sequence e ∷ [], Status.ok)

-- The first phase: the entries of all inputs. `none`: a read behind the end of a file.
unfoldable pub collect_entries : List Bytes → List MergeEntry → Option (List MergeEntry × Status)
collect_entries [] entries = some (entries, Status.ok)
collect_entries (file ∷ files) entries = elim (sstable_reader_open file) [
  | Opened.fault ↦ none
  | Opened.null ↦ collect_entries files entries
  | Opened.opened r ↦
      elim (sstable_reader_scan (merge_collect_cb (sstable_reader_sequence r)) entries r) [
        | none ↦ none
        | some (more, rc) ↦ elim (is_ok rc) [
          | true ↦ collect_entries files more
          | false ↦ some (more, rc)
        ]
      ]
]

abbrev pub written_entry : MergeEntry → SstEntry
written_entry e = record { key = e.key; value = e.value; flag = e.flag }

-- The third phase: the loop that writes, up to the first entry that the writer refuses.
unfoldable pub write_entries :
    (ℕ → ℕ → ℕ) → Option Bytes → List MergeEntry → Writer → Writer × Status
write_entries optimal_k prev [] w = (w, Status.ok)
write_entries optimal_k prev (e ∷ rest) w = elim (same_key prev e.key) [
  | true ↦ write_entries optimal_k prev rest w
  | false ↦ elim (is_tombstone e) [
    | true ↦ write_entries optimal_k (some e.key) rest w
    | false ↦ elim (is_ok (sstable_writer_add optimal_k (written_entry e) w).1) [
      | true ↦
          write_entries optimal_k (some e.key) rest
            (sstable_writer_add optimal_k (written_entry e) w).0
      | false ↦ sstable_writer_add optimal_k (written_entry e) w
    ]
  ]
]

-- What the system does in a merge.
pub record MergeEnv : Type 0 where
  pub qsort : List MergeEntry → List MergeEntry
  pub optimal_k : ℕ → ℕ → ℕ
  pub writer_created : Bool
  pub writer_finished : Status
  pub created_at : ℕ

-- The file that the writer leaves at its final path, if it gets so far.
abbrev pub finish_merge : MergeEnv → Writer → Option Bytes × Status
finish_merge env w =
    if is_ok env.writer_finished
    then (some (sstable_writer_finish env.created_at w), Status.ok)
    else (none, env.writer_finished)

-- `compaction_merge_to_level`
unfoldable pub compaction_merge_to_level :
    MergeEnv → List Bytes → ℕ → Option (Option Bytes × Status)
compaction_merge_to_level env inputs output_sequence =
    let w : Writer = sstable_writer_create output_sequence in
    if length inputs == 0 then some (none, Status.inval) else elim (collect_entries inputs []) [
      | none ↦ none
      | some (entries, rc) ↦
          let (full, wrc) = write_entries env.optimal_k none (env.qsort entries) w in
          if not (is_ok rc)
          then some (none, rc)
          else if not env.writer_created
          then some (none, Status.oom)
          else if length entries == 0
          then some (finish_merge env w)
          else if not (is_ok wrc)
          then some (none, wrc)
          else some (finish_merge env full)
    ]
