-- ===== src/Db/Open.antt =====
-- `db_open` of src/core/db.c on what a disk holds: the loads of the table files, level after level, and
-- the replay of the log. The tables of the schema are given, and the listing of the directory is.
use kanbudb.Prelude.{ℕ, Option, none, some, List, [], ◌∷◌, Bytes}
use kanbudb.Status.{Status}
use kanbudb.Btree.{Btree, btree_create}
use kanbudb.Lsm.{lsm_create}
use kanbudb.Wal.Entry.{Entry}
use kanbudb.Wal.Log.{FsyncMode, Wal, wal_create}
use kanbudb.Wal.Replay.{wal_replay}
use kanbudb.Db.{Table, Db, Env, load_table, wal_replay_cb}

-- The files of one level, in the order in which the directory lists them.
unfoldable pub load_files : List Bytes → Btree → Option Btree
load_files [] bt = some bt
load_files (file ∷ files) bt = elim (load_table file bt) [
  | none ↦ none
  | some bt ↦ load_files files bt
]

-- The second phase of `db_open`, from level 0 on.
unfoldable pub load_levels : List (List Bytes) → Btree → Option Btree
load_levels [] bt = some bt
load_levels (files ∷ levels) bt = elim (load_files files bt) [
  | none ↦ none
  | some bt ↦ load_levels levels bt
]

-- The callback of the replay on an entry of the log; NULL as a value has no bytes.
abbrev pub replay_entry : Env → Db → Entry → Db × Status
replay_entry env db e = wal_replay_cb env e.op e.key (elim e.value [ none ↦ [] | some v ↦ v ]) db

-- What a database finds when it is opened.
pub record Disk : Type 0 where
  pub wal_file : Bytes
  pub tables : List Table
  pub levels : List (List Bytes)
  pub files : List (ℕ × Bytes)
  pub seq_file : Option ℕ

-- The database before the replay.
abbrev pub opened_db : ℕ → Disk → Wal → Btree → Db
opened_db memtable_size disk wal bt = record {
  tables = disk.tables;
  wal = wal;
  lsm = lsm_create memtable_size;
  btree = bt;
  last_error = Status.ok;
  files = disk.files;
  seq_file = disk.seq_file;
}

-- `db_open`: the result of the replay is not looked at. `none`: a read behind the end of a file.
unfoldable pub db_open : Env → FsyncMode → ℕ → Disk → Option (Option Db × Status)
db_open env fsync_mode memtable_size disk = elim (wal_create fsync_mode disk.wal_file) [
  | none ↦ some (none, Status.io)
  | some wal ↦ elim (load_levels disk.levels btree_create) [
    | none ↦ none
    | some bt ↦
        let db = opened_db memtable_size disk wal bt in
        let (wal', run) = wal_replay (replay_entry env) env.fwrite wal db in
        elim run [ none ↦ none | some r ↦ some (some (record r.state { wal = wal' }), Status.ok) ]
  ]
]
