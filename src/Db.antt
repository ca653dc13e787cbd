-- ===== src/Db.antt =====
-- The database, src/core/db.c: a write goes to the log and the memtables, a full memtable becomes a table
-- file and goes from there into the B+tree, and a read looks into both. The model is a writer that
-- shares nothing with other processes (`config.multi_process` is 0), between two of its calls: the
-- locks of the code make each call one step.
pub mod Load
pub mod Flush
pub mod Reads
pub mod Calls
pub mod Open
pub mod Durable
use kanbudb.Prelude.{
  ℕ, ◌+◌, ◌%◌, ◌^◌, Bool, not, Option, none, some, List, [], ◌∷◌, if◌then◌else◌, length, Bytes,
}
use kanbudb.Status.{Status, is_ok}
use kanbudb.Key.{key_cmp, is_eq}
use kanbudb.Sstable.{
  SstEntry, Writer, sstable_writer_create, sstable_writer_add, sstable_writer_finish,
}
use kanbudb.Memtable.{SkipNode}
use kanbudb.Lsm.{
  Lsm, lsm_flush, lsm_put, lsm_delete, lsm_get, lsm_is_full, lsm_iterate_flushing,
  lsm_destroy_flushing,
}
use kanbudb.Btree.{Btree, btree_put, btree_get, btree_delete}
use kanbudb.Wal.Entry.{Op}
use kanbudb.Wal.Log.{Wal, wal_append, Reopen, wal_truncate}
use kanbudb.Sstable.{
  SstEntry, Writer, sstable_writer_create, sstable_writer_add, sstable_writer_finish,
}
use kanbudb.Sstable.Reader.{Opened, sstable_reader_open, is_dead, sstable_reader_scan}

-- `kanbudb_table_t`, as far as the operations on keys look at it.
pub record Table : Type 0 where
  pub name : Bytes
  pub id : ℕ

-- `struct kanbudb_db`: what is open, and the files beside the log: the table files of level 0 by
-- their numbers, and the number in the `.seq` file, `none` if none can be read.
pub record Db : Type 0 where
  pub tables : List Table
  pub wal : Wal
  pub lsm : Lsm
  pub btree : Btree
  pub last_error : Status
  pub files : List (ℕ × Bytes)
  pub seq_file : Option ℕ

-- What becomes of the `.seq` file: it cannot be opened, is left without a whole number, or is written.
pub data SeqStored : Type 0 where
  unopened truncated stored : SeqStored

-- What the calls of the system do during one call of the database.
pub record Env : Type 0 where
  pub fwrite : ℕ → ℕ
  pub alloc : Bool
  pub level : ℕ
  pub optimal_k : ℕ → ℕ → ℕ
  pub seq_stored : SeqStored
  pub writer_created : Bool
  pub writer_finished : Status
  pub created_at : ℕ
  pub reopen : Reopen

-- `strcmp(a, b) == 0`
abbrev pub same_string : Bytes → Bytes → Bool
same_string a b = is_eq (key_cmp a b)

-- `find_table`: the table itself; `none` is -1.
unfoldable pub find_table : Bytes → List Table → Option Table
find_table name [] = none
find_table name (t ∷ tables) = if same_string t.name name then some t else find_table name tables

abbrev pub seq_kept : SeqStored → Option ℕ → ℕ → Option ℕ
seq_kept SeqStored.unopened file seq = file
seq_kept SeqStored.truncated file seq = none
seq_kept SeqStored.stored file seq = some seq

-- `db_persistent_seq`: the next number, and what the file then holds.
unfoldable pub db_persistent_seq : SeqStored → Option ℕ → Option ℕ × ℕ
db_persistent_seq kept file =
    let last : ℕ = elim file [ none ↦ 0 | some seq ↦ seq ] in
    let seq = (last + 1) % 2 ^ 64 in (seq_kept kept file seq, seq)

-- `flush_write_cb`: the entry that it writes for a node.
abbrev pub entry_of : SkipNode → SstEntry
entry_of n = record { key = n.key; value = n.value; flag = if n.deleted then 2 else 1 }

unfoldable pub flush_write_cb : (ℕ → ℕ → ℕ) → Writer → SkipNode → Writer × Status
flush_write_cb optimal_k w n = sstable_writer_add optimal_k (entry_of n) w

-- `sstable_load_cb`
unfoldable pub sstable_load_cb : Btree → SstEntry → Btree × Status
sstable_load_cb bt e =
    if is_dead e.flag
    then ((btree_delete e.key bt).0, Status.ok)
    else (btree_put e.key e.value bt, Status.ok)

-- A table file is opened and scanned into the B+tree; one that cannot be opened is passed over. `none`:
-- the code reads behind the end of the file.
unfoldable pub load_table : Bytes → Btree → Option Btree
load_table file bt = elim (sstable_reader_open file) [
  | Opened.fault ↦ none
  | Opened.null ↦ some bt
  | Opened.opened r ↦ elim (sstable_reader_scan sstable_load_cb bt r) [
    | none ↦ none
    | some (bt, rc) ↦ some bt
  ]
]

-- The memtable that was to be flushed is given up.
abbrev pub give_up : Db → Status → Option (Db × Status)
give_up db rc = some (record db { lsm = lsm_destroy_flushing db.lsm }, rc)

-- The end of `db_flush_memtable`, when the file stands at its path.
unfoldable pub flush_loaded : Env → ℕ → Bytes → Db → Option (Db × Status)
flush_loaded env seq file db = elim (load_table file db.btree) [
  | none ↦ none
  | some bt ↦ some (
    record db {
      btree = bt;
      lsm = lsm_destroy_flushing db.lsm;
      wal = (wal_truncate env.fwrite env.reopen db.wal).0;
      files = (seq, file) ∷ db.files;
    },
    Status.ok,
  )
]

-- `db_flush_memtable`
unfoldable pub db_flush_memtable : Env → Db → Option (Db × Status)
db_flush_memtable env db0 =
    let (seq_file, seq) = db_persistent_seq env.seq_stored db0.seq_file in
    let db = record db0 { lsm = lsm_flush db0.lsm; seq_file = seq_file } in
    let (w, rc) =
      lsm_iterate_flushing (flush_write_cb env.optimal_k) (sstable_writer_create seq) db.lsm in
    if not env.writer_created
    then give_up db Status.oom
    else if not (is_ok rc)
    then give_up db Status.io
    else if not (is_ok env.writer_finished)
    then give_up db env.writer_finished
    else flush_loaded env seq (sstable_writer_finish env.created_at w) db

-- The result of a call, which `last_error` keeps.
abbrev pub reply : Db → Status → Db × Status
reply db rc = (record db { last_error = rc }, rc)

-- The end of `db_put` and `db_delete`: a full memtable is flushed.
unfoldable pub flush_if_full : Env → Db → Option (Db × Status)
flush_if_full env db =
    if lsm_is_full db.lsm
    then elim (db_flush_memtable env db) [ none ↦ none | some (db, rc) ↦ some (reply db rc) ]
    else some (reply db Status.ok)

-- `db_put`
unfoldable pub db_put : Env → Bytes → Bytes → Bytes → Db → Option (Db × Status)
db_put env table key value db0 = elim (find_table table db0.tables) [
  | none ↦ some (reply db0 Status.not_found)
  | some t ↦
      let (wal, rc) = wal_append env.fwrite db0.wal Op.put t.id key (some value) (length value) in
      let db1 = record db0 { wal = wal } in
      let (lsm, lrc) = lsm_put env.alloc env.level key value db1.lsm in
      let db2 = record db1 { lsm = lsm } in
      if not (is_ok rc)
      then some (reply db1 rc)
      else if not (is_ok lrc)
      then some (reply db2 lrc)
      else flush_if_full env db2
]

-- `db_delete`
unfoldable pub db_delete : Env → Bytes → Bytes → Db → Option (Db × Status)
db_delete env table key db0 = elim (find_table table db0.tables) [
  | none ↦ some (reply db0 Status.not_found)
  | some t ↦
      let (wal, rc) = wal_append env.fwrite db0.wal Op.delete t.id key none 0 in
      let db1 = record db0 { wal = wal } in
      let (lsm, lrc) = lsm_delete env.alloc env.level key db1.lsm in
      let db2 = record db1 { lsm = lsm } in
      if not (is_ok rc)
      then some (reply db1 rc)
      else if not (is_ok lrc)
      then some (reply db2 lrc)
      else flush_if_full env db2
]

-- The two looks of `db_get`.
abbrev pub read_key : Db → Bytes → Option Bytes
read_key db key = elim (lsm_get db.lsm key) [ none ↦ btree_get key db.btree | some v ↦ some v ]

-- `db_get`
unfoldable pub db_get : Bytes → Bytes → Db → (Db × Status) × Option Bytes
db_get table key db = elim (find_table table db.tables) [
  | none ↦ (reply db Status.not_found, none)
  | some t ↦ elim (read_key db key) [
    | none ↦ (reply db Status.not_found, none)
    | some v ↦ (reply db Status.ok, some v)
  ]
]

-- `wal_replay_cb`
unfoldable pub wal_replay_cb : Env → Op → Bytes → Bytes → Db → Db × Status
wal_replay_cb env Op.put key value db =
    let (lsm, rc) = lsm_put env.alloc env.level key value db.lsm in (record db { lsm = lsm }, rc)
wal_replay_cb env Op.delete key value db =
    let (lsm, rc) = lsm_delete env.alloc env.level key db.lsm in (record db { lsm = lsm }, rc)
