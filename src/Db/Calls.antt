-- ===== src/Db/Calls.antt =====
-- `db_put`, `db_delete` and `db_get` of src/core/db.c one after the other.
use kanbudb.Prelude.{
  ◌≡◌, refl, sym, subst, ◌∙◌, true, false, not, none, some, if◌then◌else◌, length, Bytes,
}
use kanbudb.Status.{Status, is_ok}
use kanbudb.Wal.Entry.{Op}
use kanbudb.Wal.Log.{Wal, wal_append}
use kanbudb.Lsm.{Lsm, lsm_flush, lsm_put, lsm_delete, lsm_get, lsm_is_full, lsm_destroy_flushing}
use kanbudb.Lsm.View.{lsm_get-lsm_put, lsm_get-lsm_delete}
use kanbudb.Memtable.{memtable_create, get_lane}
use kanbudb.Btree.{btree_get}
use kanbudb.Db.Reads.{read_key-none, db_get-read_key}
use kanbudb.Db.{
  Table, Db, Env, find_table, db_persistent_seq, db_flush_memtable, flush_if_full, db_put,
  db_delete, read_key, db_get,
}

-- The database after a write that reaches the memtable and does not fill it.
abbrev pub written_db : Wal → Lsm → Db → Db
written_db wal lsm db = record db { wal = wal; lsm = lsm; last_error = Status.ok }

pub flush_if_full-room :
    (env : Env) (db : Db)
    → lsm_is_full db.lsm ≡ false
    → flush_if_full env db ≡ some (record db { last_error = Status.ok }, Status.ok)
unfolding flush_if_full
flush_if_full-room env db h = rw (h, flush_if_full) refl

-- Neither the log nor the memtable refuses.
pub both_taken {ℓ} :
    {A : Type ℓ} (rc lrc : Status) (a b done : A)
    → rc ≡ Status.ok
    → lrc ≡ Status.ok
    → (if not (is_ok rc) then a else if not (is_ok lrc) then b else done) ≡ done
both_taken rc lrc a b done h i = rw h (rw i refl)

-- Where the table is known, the log takes the entry, allocations succeed and the memtable is not full
-- afterwards, `db_put` returns OK, and `db_get` then finds the value under the key, in whatever
-- known table it looks: the tables share one space of keys.
pub db_get-db_put :
    (env : Env) (table other key value : Bytes) (t t' : Table) (db : Db)
    → find_table table db.tables ≡ some t
    → find_table other db.tables ≡ some t'
    → env.alloc ≡ true
    → (wal_append env.fwrite db.wal Op.put t.id key (some value) (length value)).1 ≡ Status.ok
    → lsm_is_full (lsm_put env.alloc env.level key value db.lsm).0 ≡ false
    → (db' : Db) × (db_put env table key value db ≡ some (db', Status.ok))
      × ((db_get other key db').1 ≡ some value)
unfolding db_put
db_get-db_put env table other key value t t' db known known' alloc logged room =
    let wal : Wal = (wal_append env.fwrite db.wal Op.put t.id key (some value) (length value)).0 in
    let lsm : Lsm = (lsm_put env.alloc env.level key value db.lsm).0 in
    let (taken, reads) =
      subst
        (λ a.
          ((lsm_put a env.level key value db.lsm).1 ≡ Status.ok)
          × (lsm_get (lsm_put a env.level key value db.lsm).0 key ≡ some value))
        (sym alloc) (lsm_get-lsm_put env.level key value db.lsm) in
    (
      written_db wal lsm db,
      rw (known, db_put)
          (both_taken _ _ _ _ _ logged taken
            ∙ flush_if_full-room env (record db { wal = wal; lsm = lsm }) room),
      db_get-read_key other key (written_db wal lsm db) ∙ rw known' (rw (reads, read_key) refl),
    )

-- Where the table is known, the log takes the entry, allocations succeed and the memtable is not full
-- afterwards, `db_delete` returns OK, whether or not the key is there, but a read of the deleted key still answers what the B+tree
-- holds under it.
pub db_get-db_delete :
    (env : Env) (table key : Bytes) (t : Table) (db : Db)
    → find_table table db.tables ≡ some t
    → env.alloc ≡ true
    → (wal_append env.fwrite db.wal Op.delete t.id key none 0).1 ≡ Status.ok
    → lsm_is_full (lsm_delete env.alloc env.level key db.lsm).0 ≡ false
    → (db' : Db) × (db_delete env table key db ≡ some (db', Status.ok))
      × ((db_get table key db').1 ≡ btree_get key db.btree)
unfolding db_delete
db_get-db_delete env table key t db known alloc logged room =
    let wal : Wal = (wal_append env.fwrite db.wal Op.delete t.id key none 0).0 in
    let lsm : Lsm = (lsm_delete env.alloc env.level key db.lsm).0 in
    let (taken, reads) =
      subst
        (λ a.
          ((lsm_delete a env.level key db.lsm).1 ≡ Status.ok)
          × (lsm_get (lsm_delete a env.level key db.lsm).0 key ≡ none))
        (sym alloc) (lsm_get-lsm_delete env.level key db.lsm) in
    (
      written_db wal lsm db,
      rw (known, db_delete)
          (both_taken _ _ _ _ _ logged taken
            ∙ flush_if_full-room env (record db { wal = wal; lsm = lsm }) room),
      db_get-read_key table key (written_db wal lsm db) ∙ rw known (rw (reads, read_key) refl),
    )

-- Where the table file cannot be created, `db_flush_memtable` reports it, and what the
-- memtables held is gone from memory: every key reads what the B+tree holds.
pub db_flush_memtable_fails :
    (env : Env) (table q : Bytes) (t : Table) (db : Db)
    → find_table table db.tables ≡ some t
    → env.writer_created ≡ false
    → (db' : Db) × (db_flush_memtable env db ≡ some (db', Status.oom))
      × ((db_get table q db').1 ≡ btree_get q db.btree)
unfolding db_flush_memtable
db_flush_memtable_fails env table q t db known h =
    let db' : Db = record db {
      lsm = lsm_destroy_flushing (lsm_flush db.lsm);
      seq_file = (db_persistent_seq env.seq_stored db.seq_file).0;
    } in
    (
      db',
      rw (h, db_flush_memtable) refl,
      db_get-read_key table q db'
          ∙ rw known (
              read_key-none db' q (unfold lsm_destroy_flushing in refl)
                (unfold get_lane lsm_destroy_flushing lsm_flush memtable_create in refl)),
    )
