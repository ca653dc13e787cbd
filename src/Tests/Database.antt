-- ===== src/Tests/Database.antt =====
-- The theorems on the database, src/core/db.c, at work on a small one.
use kanbudb.Memtable.Order.{IsOrdered}
use kanbudb.Query.Exec.{qb_scan}
use kanbudb.Query.Rows.{live, keys_of, keep, collected, candidates}
use kanbudb.Query.Answers.{qb_scan-read_key}
use kanbudb.Prelude.{
  Bool, Option, not, ◌==◌, All, Bytes, ◌≡◌, refl, true, false, none, some, List, [], ◌∷◌, arith,
  le_bytes,
}
use kanbudb.Status.{Status}
use kanbudb.Key.{memcmp, key_cmp}
use kanbudb.Memtable.{
  SkipNode, put_lane, memtable_put, mark_deleted, memtable_delete, memtable_is_full,
}
use kanbudb.Sstable.{entry_bytes}
use kanbudb.Sstable.Data.{Fits}
use kanbudb.Lsm.{lsm_put, lsm_delete, lsm_is_full}
use kanbudb.Wal.Entry.{Op, encode, wal_serialize}
use kanbudb.Wal.Log.{FsyncMode, Stream, wal_header, append_entry, wal_append, Reopen}
use kanbudb.Btree.{Item, btree_get, btree_create}
use kanbudb.Db.Open.{load_levels, Disk, db_open}
use kanbudb.Db.Durable.{after_crash, db_open-db_put}
use kanbudb.Wal.Contents
use kanbudb.Btree.Leaf.{lookup}
use kanbudb.Btree.Tree.{IsValid}
use kanbudb.Sstable.Scan.{Storable}
use kanbudb.Db.{
  Table, SeqStored, Db, Env, read_key, find_table, entry_of, db_flush_memtable, db_put, db_delete,
  db_get,
}
use kanbudb.Db.Flush.{entries_of}
use kanbudb.Db.Reads.{db_get-db_flush_memtable}
use kanbudb.Db.Calls.{db_get-db_put, db_get-db_delete, db_flush_memtable_fails}

abbrev users : Table
users = record { name = 117 ∷ []; id = 1 }

abbrev goods : Table
goods = record { name = 103 ∷ []; id = 2 }

-- A live node and a deleted one.
abbrev lane : List SkipNode
lane =
    record { seq = 0; key = 5 ∷ []; value = 50 ∷ []; deleted = false; level = 0 }
    ∷ record { seq = 0; key = 7 ∷ []; value = []; deleted = true; level = 0 }
    ∷ []

abbrev small_db : Db
small_db = record {
  tables = users ∷ goods ∷ [];
  wal = record {
    fsync_mode = FsyncMode.never;
    seq = 0;
    file_pos = 16;
    periodic_count = 0;
    buf = [];
    stream = Stream.append_read;
    file = [];
    flushed = 0;
  };
  lsm = record {
    memtable_size = 65536;
    active = record { nodes = lane; size_limit = 65536; used = 83; level = 0 };
    flushing = none;
    next_seq = 0;
  };
  btree = record { height = 0; root = record { key = 9 ∷ []; value = 90 ∷ [] } ∷ [] };
  last_error = Status.ok;
  files = [];
  seq_file = none;
}

abbrev calm : Env
calm = record {
  fwrite = λ n. n;
  alloc = true;
  level = 0;
  optimal_k = λ m n. 7;
  seq_stored = SeqStored.stored;
  writer_created = true;
  writer_finished = Status.ok;
  created_at = 9;
  reopen = Reopen.reopened;
}

abbrev no_file : Env
no_file = record calm { writer_created = false }

users_known : find_table (117 ∷ []) small_db.tables ≡ some users
unfolding find_table key_cmp memcmp
users_known = refl

goods_known : find_table (103 ∷ []) small_db.tables ≡ some goods
unfolding find_table key_cmp memcmp
goods_known = refl

lane-Storable : Storable (entries_of lane)
unfolding entry_bytes le_bytes
lane-Storable =
    let one : Fits
        (entry_of (record { seq = 0; key = 5 ∷ []; value = 50 ∷ []; deleted = false; level = 0 })) =
      record { key_short = omega arith; value_short = omega arith; flag_byte = omega arith } in
    let two : Fits
        (entry_of (record { seq = 0; key = 7 ∷ []; value = []; deleted = true; level = 0 })) =
      record { key_short = omega arith; value_short = omega arith; flag_byte = omega arith } in
    record { fits = (one, (two, tt)); few = omega arith; short = omega arith }

db_get-db_flush_memtable_example :
    (db' : Db) × (db_flush_memtable calm small_db ≡ some (db', Status.ok))
    × IsValid db'.btree
    × ((db_get (117 ∷ []) (5 ∷ []) db').1 ≡ (db_get (117 ∷ []) (5 ∷ []) small_db).1)
unfolding key_cmp memcmp
db_get-db_flush_memtable_example =
    db_get-db_flush_memtable calm (117 ∷ []) (5 ∷ []) small_db
      (record { created = refl; finished = refl; recent = omega arith }) lane-Storable
      ((refl, tt), (tt, tt)) refl (tt, tt)
      (((λ e. ground (arith, e)), ((λ e. ground (arith, e)), tt)), tt)

put_logged :
    (wal_append calm.fwrite small_db.wal Op.put 1 (6 ∷ []) (some (60 ∷ [])) 1).1 ≡ Status.ok
unfolding wal_append wal_serialize append_entry encode le_bytes
put_logged = refl

put_room : lsm_is_full (lsm_put true 0 (6 ∷ []) (60 ∷ []) small_db.lsm).0 ≡ false
unfolding lsm_is_full lsm_put memtable_put put_lane memtable_is_full key_cmp memcmp
put_room = refl

db_get-db_put_example :
    (db' : Db) × (db_put calm (117 ∷ []) (6 ∷ []) (60 ∷ []) small_db ≡ some (db', Status.ok))
    × ((db_get (103 ∷ []) (6 ∷ []) db').1 ≡ some (60 ∷ []))
db_get-db_put_example =
    db_get-db_put calm (117 ∷ []) (103 ∷ []) (6 ∷ []) (60 ∷ []) users goods small_db users_known
      goods_known refl put_logged put_room

delete_logged : (wal_append calm.fwrite small_db.wal Op.delete 1 (9 ∷ []) none 0).1 ≡ Status.ok
unfolding wal_append wal_serialize append_entry encode le_bytes
delete_logged = refl

delete_room : lsm_is_full (lsm_delete true 0 (9 ∷ []) small_db.lsm).0 ≡ false
unfolding lsm_is_full lsm_delete memtable_delete memtable_put put_lane mark_deleted memtable_is_full
    key_cmp memcmp
delete_room = refl

db_get-db_delete_example :
    (db' : Db) × (db_delete calm (117 ∷ []) (9 ∷ []) small_db ≡ some (db', Status.ok))
    × ((db_get (117 ∷ []) (9 ∷ []) db').1 ≡ btree_get (9 ∷ []) small_db.btree)
db_get-db_delete_example =
    db_get-db_delete calm (117 ∷ []) (9 ∷ []) users small_db users_known refl delete_logged
      delete_room

db_flush_memtable_fails_example :
    (db' : Db) × (db_flush_memtable no_file small_db ≡ some (db', Status.oom))
    × ((db_get (117 ∷ []) (5 ∷ []) db').1 ≡ btree_get (5 ∷ []) small_db.btree)
db_flush_memtable_fails_example =
    db_flush_memtable_fails no_file (117 ∷ []) (5 ∷ []) users small_db users_known refl

-- Rows that begin with 90 do not pass.
abbrev not_ninety : Bytes → Option Bool
not_ninety [] = none
not_ninety (c ∷ row) = some (not (c == 90))

lane-IsOrdered : IsOrdered lane
unfolding key_cmp memcmp
lane-IsOrdered = ((refl, tt), (tt, tt))

qb_scan-read_key_example :
    (qb_scan not_ninety small_db.lsm small_db.btree
      ≡ collected
          (keep not_ninety (candidates small_db.lsm small_db.btree))
          (keys_of (live lane))
          [])
    × All
        (λ (x : Item). read_key small_db x.key ≡ some x.value)
        (candidates small_db.lsm small_db.btree)
    × (read_key small_db (9 ∷ []) ≡ lookup (9 ∷ []) (candidates small_db.lsm small_db.btree))
qb_scan-read_key_example =
    qb_scan-read_key not_ninety small_db (9 ∷ []) refl lane-IsOrdered (tt, tt)

-- The log is written through at every append, and is empty.
abbrev durable_db : Db
durable_db = record small_db {
  wal = record {
    fsync_mode = FsyncMode.always;
    seq = 0;
    file_pos = 20;
    periodic_count = 0;
    buf = [];
    stream = Stream.append_read;
    file = wal_header 0;
    flushed = 20;
  };
}

abbrev no_files : Disk
no_files = record { wal_file = []; tables = users ∷ []; levels = []; files = []; seq_file = none }

durable_db-IsValid : Contents.IsValid durable_db.wal
unfolding wal_header le_bytes
durable_db-IsValid = record {
  short = omega arith;
  position = refl;
  synced = omega arith;
  word = omega arith;
  opened = λ e. cc e;
}

room_left : lsm_is_full (lsm_put calm.alloc calm.level (6 ∷ []) (60 ∷ []) durable_db.lsm).0 ≡ false
unfolding lsm_is_full lsm_put memtable_put put_lane key_cmp memcmp memtable_is_full
room_left = refl

no_levels : load_levels no_files.levels btree_create ≡ some btree_create
unfolding load_levels
no_levels = refl

db_open-db_put_example :
    (db' : Db) × (db_put calm (117 ∷ []) (6 ∷ []) (60 ∷ []) durable_db ≡ some (db', Status.ok))
    × (db'' : Db) × (db_open calm FsyncMode.always 65536
          (record no_files { wal_file = after_crash db'.wal })
        ≡ some (some db'', Status.ok))
    × (read_key db'' (6 ∷ []) ≡ some (60 ∷ []))
db_open-db_put_example =
    db_open-db_put calm calm (117 ∷ []) (6 ∷ []) (60 ∷ []) users durable_db 0 65536 [] no_files
      btree_create users_known (omega arith) (refl, refl) (λ n. refl) (λ n. refl) durable_db-IsValid
      refl (omega arith) refl tt (omega arith) (omega arith) room_left no_levels
