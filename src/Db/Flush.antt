-- ===== src/Db/Flush.antt =====
-- `db_flush_memtable` of src/core/db.c: from the memtable through the table file into the B+tree.
use kanbudb.Prelude.{
  ℕ, ◌^◌, ◌<◌, ◌≡◌, refl, ap, ◌∙◌, Bool, true, false, not, Option, some, List, [], ◌∷◌, map, arith,
  if◌then◌else◌, All, Bytes,
}
use kanbudb.Status.{Status, is_ok}
use kanbudb.Key.{below}
use kanbudb.Memtable.{SkipNode, memtable_iterate}
use kanbudb.Memtable.Order.{Above, IsOrdered}
use kanbudb.Lsm.{Lsm, lsm_flush, lsm_iterate_flushing, lsm_destroy_flushing}
use kanbudb.Btree.{Btree}
use kanbudb.Sstable.{
  SstEntry, Writer, sstable_writer_create, sstable_writer_add, sstable_writer_finish,
}
use kanbudb.Sstable.Reader.{}
use kanbudb.Sstable.Data.{each}
use kanbudb.Sstable.Index.{add_all, add_all-Written}
use kanbudb.Sstable.Lookup.{Sorted}
use kanbudb.Sstable.Scan.{Storable, sstable_reader_scan-sstable_writer_finish}
use kanbudb.Wal.Log.{wal_truncate}
use kanbudb.Db.{
  SeqStored, Db, Env, db_persistent_seq, entry_of, flush_write_cb, sstable_load_cb, load_table,
  flush_loaded, db_flush_memtable,
}

abbrev pub entries_of : List SkipNode → List SstEntry
entries_of nodes = map entry_of nodes

pub entries_of-Above :
    (k : Bytes) (nodes : List SkipNode)
    → Above k nodes
    → All (λ (e : SstEntry). below k e.key ≡ true) (entries_of nodes)
unfolding below
entries_of-Above k [] a = tt
entries_of-Above k (x ∷ rest) a = (rw a.0 refl, entries_of-Above k rest a.1)

pub entries_of-Sorted : (nodes : List SkipNode) → IsOrdered nodes → Sorted (entries_of nodes)
entries_of-Sorted [] o = tt
entries_of-Sorted (x ∷ rest) o = (entries_of-Above x.key rest o.0, entries_of-Sorted rest o.1)

-- The iteration hands the entries to the writer.
memtable_iterate-add_all :
    (optimal_k : ℕ → ℕ → ℕ) (w : Writer) (nodes : List SkipNode)
    → memtable_iterate (flush_write_cb optimal_k) w nodes ≡ add_all optimal_k w (entries_of nodes)
unfolding memtable_iterate flush_write_cb
memtable_iterate-add_all optimal_k w [] = refl
memtable_iterate-add_all optimal_k w (x ∷ rest) =
    ap
      (λ t. elim (is_ok (sstable_writer_add optimal_k (entry_of x) w).1) [
        | true ↦ t
        | false ↦ sstable_writer_add optimal_k (entry_of x) w
      ])
      (memtable_iterate-add_all optimal_k (sstable_writer_add optimal_k (entry_of x) w).0 rest)

-- The calls of the system during the flush succeed.
pub record AllWell (env : Env) : Type 0 where
  pub created : env.writer_created ≡ true
  pub finished : env.writer_finished ≡ Status.ok
  pub recent : env.created_at < 2 ^ 64

-- The table that `db_flush_memtable` writes.
abbrev pub flush_file : Env → Db → Bytes
flush_file env db =
    sstable_writer_finish env.created_at
      (add_all env.optimal_k
        (sstable_writer_create (db_persistent_seq env.seq_stored db.seq_file).1)
        (entries_of db.lsm.active.nodes)).0

seq_word : (kept : SeqStored) (file : Option ℕ) → (db_persistent_seq kept file).1 < 2 ^ 64
unfolding db_persistent_seq
seq_word kept file = omega arith

flush_file-load :
    (env : Env) (db : Db) (bt : Btree)
    → AllWell env
    → Storable (entries_of db.lsm.active.nodes)
    → load_table (flush_file env db) bt
      ≡ some (each sstable_load_cb bt (entries_of db.lsm.active.nodes)).0
unfolding load_table
flush_file-load env db bt good st =
    let (taken, r, opens, scans) =
      sstable_reader_scan-sstable_writer_finish sstable_load_cb bt env.optimal_k
        (db_persistent_seq env.seq_stored db.seq_file).1 env.created_at
        (entries_of db.lsm.active.nodes) st (seq_word env.seq_stored db.seq_file) good.recent in
    rw (opens, load_table) (rw scans refl)

-- The database after a flush: the B+tree has got exactly the entries of the memtable, in their order,
-- the memtables are empty, the log is truncated, and the file is in its place.
abbrev pub flushed : Env → Db → Db
flushed env db = record db {
  seq_file = (db_persistent_seq env.seq_stored db.seq_file).0;
  lsm = lsm_destroy_flushing (lsm_flush db.lsm);
  btree = (each sstable_load_cb db.btree (entries_of db.lsm.active.nodes)).0;
  wal = (wal_truncate env.fwrite env.reopen db.wal).0;
  files = ((db_persistent_seq env.seq_stored db.seq_file).1, flush_file env db) ∷ db.files;
}

lsm_iterate_flushing-lsm_flush :
    (optimal_k : ℕ → ℕ → ℕ) (w : Writer) (lsm : Lsm)
    → lsm_iterate_flushing (flush_write_cb optimal_k) w (lsm_flush lsm)
      ≡ add_all optimal_k w (entries_of lsm.active.nodes)
unfolding lsm_iterate_flushing lsm_flush
lsm_iterate_flushing-lsm_flush optimal_k w lsm =
    memtable_iterate-add_all optimal_k w lsm.active.nodes

-- No step of the flush gives up.
none_fails {ℓ} :
    {A : Type ℓ} (created : Bool) (rc finished : Status) (a b c done : A)
    → created ≡ true
    → rc ≡ Status.ok
    → finished ≡ Status.ok
    → (if not created
        then a
        else if not (is_ok rc)
        then b
        else if not (is_ok finished)
        then c
        else done)
      ≡ done
none_fails created rc finished a b c done h i j = rw h (rw i (rw j refl))

flush_loaded-some :
    (env : Env) (seq : ℕ) (file : Bytes) (db : Db) (bt : Btree)
    → load_table file db.btree ≡ some bt
    → flush_loaded env seq file db
      ≡ some (
        record db {
          btree = bt;
          lsm = lsm_destroy_flushing db.lsm;
          wal = (wal_truncate env.fwrite env.reopen db.wal).0;
          files = (seq, file) ∷ db.files;
        },
        Status.ok,
      )
unfolding flush_loaded
flush_loaded-some env seq file db bt h = rw (h, flush_loaded) refl

pub db_flush_memtable-flushed :
    (env : Env) (db : Db)
    → AllWell env
    → Storable (entries_of db.lsm.active.nodes)
    → db_flush_memtable env db ≡ some (flushed env db, Status.ok)
unfolding db_flush_memtable
db_flush_memtable-flushed env db good st =
    let seq = (db_persistent_seq env.seq_stored db.seq_file).1 in
    let w = sstable_writer_create seq in
    let iter = lsm_iterate_flushing-lsm_flush env.optimal_k w db.lsm in
    let taken = (add_all-Written env.optimal_k (entries_of db.lsm.active.nodes) w st.fits).0 in
    let db' : Db = record db {
      lsm = lsm_flush db.lsm;
      seq_file = (db_persistent_seq env.seq_stored db.seq_file).0;
    } in
    none_fails env.writer_created _ env.writer_finished _ _ _ _ good.created
      (ap (λ r. r.1) iter ∙ taken) good.finished
    ∙ (ap (λ r. flush_loaded env seq (sstable_writer_finish env.created_at r.0) db') iter
        ∙ flush_loaded-some env seq (flush_file env db) db' _
            (flush_file-load env db db.btree good st))
