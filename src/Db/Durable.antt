-- ===== src/Db/Durable.antt =====
-- What survives a crash: `db_put`, the loss of all that was not flushed, and `db_open`, of src/core/db.c.
use mathlib.Core.List.{append-nil, append_assoc}
use kanbudb.Prelude.{
  ℕ, ◌^◌, ◌≤◌, ◌<◌, ◌≡◌, refl, sym, ap, subst, ◌∙◌, true, false, none, some, List, [], ◌∷◌, ◌++◌,
  arith, length, take, take-length, All, Bytes,
}
use kanbudb.Status.{Status}
use kanbudb.Wal.Entry.{Op, Entry, entry_size, encode, IsEntry}
use kanbudb.Wal.Log.{FsyncMode, Wal, wal_buf_size, wal_header, wal_append}
use kanbudb.Wal.Contents.{contents, IsValid}
use kanbudb.Wal.Append.{request, wal_append-contents, wal_append_always}
use kanbudb.Wal.Replay.{apply_all, wal_replay, encode_all, clean}
use kanbudb.Wal.Recovery.{wal_create-wal_header, wal_replay_recovers}
use kanbudb.Lsm.{Lsm, lsm_put, lsm_delete, lsm_get, lsm_is_full}
use kanbudb.Lsm.View.{lsm_get-lsm_put, lsm_get-lsm_delete}
use kanbudb.Btree.{Btree, btree_create}
use kanbudb.Db.{Table, Db, Env, find_table, db_put, read_key, wal_replay_cb}
use kanbudb.Db.Calls.{written_db, flush_if_full-room, both_taken}
use kanbudb.Db.Open.{load_levels, replay_entry, Disk, opened_db, db_open}

-- What a crash leaves of a log at least.
abbrev pub after_crash : Wal → Bytes
after_crash w = take w.flushed w.file

wal_replay_cb_ok :
    (env : Env) (op : Op) (key value : Bytes) (db : Db)
    → env.alloc ≡ true
    → (wal_replay_cb env op key value db).1 ≡ Status.ok
unfolding wal_replay_cb
wal_replay_cb_ok env Op.put key value db a =
    subst (λ b. (lsm_put b env.level key value db.lsm).1 ≡ Status.ok) (sym a)
      (lsm_get-lsm_put env.level key value db.lsm).0
wal_replay_cb_ok env Op.delete key value db a =
    subst (λ b. (lsm_delete b env.level key db.lsm).1 ≡ Status.ok) (sym a)
      (lsm_get-lsm_delete env.level key db.lsm).0

replay_entry_ok :
    (env : Env) (db : Db) (e : Entry) → env.alloc ≡ true → (replay_entry env db e).1 ≡ Status.ok
replay_entry_ok env db e a =
    wal_replay_cb_ok env e.op e.key (elim e.value [ none ↦ [] | some v ↦ v ]) db a

-- The last entry of a replay is applied last.
apply_all-last :
    (env : Env) (seq : ℕ) (db : Db) (es : List Entry) (e : Entry) (end : Status)
    → env.alloc ≡ true
    → (before : Db) × ((apply_all (replay_entry env) seq db (es ++ e ∷ []) end).state
        ≡ (replay_entry env before e).0)
apply_all-last env seq db [] e end a = (db, rw (replay_entry_ok env db e a, apply_all) refl)
apply_all-last env seq db (x ∷ es) e end a =
    let (before, last) = apply_all-last env x.seq (replay_entry env db x).0 es e end a in
    (before, rw (replay_entry_ok env db x a, apply_all) last)

encode_all-append : (xs ys : List Entry) → encode_all (xs ++ ys) ≡ encode_all xs ++ encode_all ys
encode_all-append [] ys = refl
encode_all-append (x ∷ xs) ys =
    ap (λ r. encode x ++ r) (encode_all-append xs ys)
    ∙ sym (append_assoc (encode x) (encode_all xs) (encode_all ys))

All-IsEntry_last :
    (es : List Entry) (e : Entry) → All IsEntry es → IsEntry e → All IsEntry (es ++ e ∷ [])
All-IsEntry_last [] e a v = (v, tt)
All-IsEntry_last (x ∷ es) e a v = (a.0, All-IsEntry_last es e a.1 v)

read_key-lsm :
    (db : Db) (key value : Bytes) → lsm_get db.lsm key ≡ some value → read_key db key ≡ some value
read_key-lsm db key value h = rw (h, read_key) refl

put_reads :
    (env : Env) (db : Db) (key value : Bytes)
    → env.alloc ≡ true
    → lsm_get (wal_replay_cb env Op.put key value db).0.lsm key ≡ some value
unfolding wal_replay_cb
put_reads env db key value a =
    subst (λ b. lsm_get (lsm_put b env.level key value db.lsm).0 key ≡ some value) (sym a)
      (lsm_get-lsm_put env.level key value db.lsm).1

replay_entry_reads :
    (env : Env) (db : Db) (e : Entry) (value : Bytes)
    → env.alloc ≡ true
    → e.op ≡ Op.put
    → e.value ≡ some value
    → lsm_get (replay_entry env db e).0.lsm e.key ≡ some value
replay_entry_reads env db e value a put holds =
    subst
      (λ op.
        lsm_get (wal_replay_cb env op e.key (elim e.value [ none ↦ [] | some v ↦ v ]) db).0.lsm
          e.key
        ≡ some value)
      (sym put)
      (subst
        (λ o.
          lsm_get (wal_replay_cb env Op.put e.key (elim o [ none ↦ [] | some v ↦ v ]) db).0.lsm
            e.key
          ≡ some value)
        (sym holds) (put_reads env db e.key value a))

-- What a log that survives holds, where its last entry put this key.
put_survives :
    (env : Env) (memtable_size : ℕ) (disk : Disk) (bt : Btree) (q : ℕ) (es : List Entry) (e : Entry)
    (value : Bytes)
    → env.alloc ≡ true
    → ((n : ℕ) → env.fwrite n ≡ n)
    → q < 2 ^ 64
    → All IsEntry es
    → IsEntry e
    → e.op ≡ Op.put
    → e.value ≡ some value
    → disk.wal_file ≡ wal_header q ++ encode_all (es ++ e ∷ [])
    → load_levels disk.levels btree_create ≡ some bt
    → (db : Db) × (db_open env FsyncMode.always memtable_size disk ≡ some (some db, Status.ok))
      × (read_key db e.key ≡ some value)
unfolding db_open
put_survives env memtable_size disk bt q es e value alloc full word legal v put holds file loads =
    let (w, made, same, held, stream, valid) =
      wal_create-wal_header FsyncMode.always q (encode_all (es ++ e ∷ [])) word in
    let db0 = opened_db memtable_size disk w bt in
    let (end, splits, runs) =
      wal_replay_recovers (replay_entry env) env.fwrite full w q (es ++ e ∷ []) [] db0 valid stream
        (held ∙ ap (λ b. wal_header q ++ b) (sym (append-nil (encode_all (es ++ e ∷ [])))))
        (All-IsEntry_last es e legal v) clean in
    let (before, last) = apply_all-last env w.seq db0 es e end alloc in
    let result = apply_all (replay_entry env) w.seq db0 (es ++ e ∷ []) end in
    (
      record result.state { wal = (wal_replay (replay_entry env) env.fwrite w db0).0 },
      rw (file, made, loads, db_open) (rw (runs, db_open) refl),
      read_key-lsm
          (record result.state { wal = (wal_replay (replay_entry env) env.fwrite w db0).0 }) e.key
          value
          (ap (λ (d : Db). lsm_get d.lsm e.key) last
            ∙ replay_entry_reads env before e value alloc put holds),
    )

-- With FSYNC_ALWAYS: where the log holds legal entries, the table is known, `fwrite` writes all it is given
-- and allocations succeed, a `db_put` of a key and a value that is not empty, together at most 64 KiB
-- less the fields, which does not fill the memtable returns OK; and after a crash that leaves only
-- what was flushed, `db_open`, if the table files can be loaded, succeeds, and a read of the key
-- finds the value.
pub db_open-db_put :
    (env env' : Env) (table key value : Bytes) (t : Table) (db : Db) (q memtable_size : ℕ)
    (es : List Entry) (disk : Disk) (bt : Btree)
    → find_table table db.tables ≡ some t
    → t.id < 2 ^ 64
    → (env.alloc ≡ true) × (env'.alloc ≡ true)
    → ((n : ℕ) → env.fwrite n ≡ n)
    → ((n : ℕ) → env'.fwrite n ≡ n)
    → IsValid db.wal
    → db.wal.fsync_mode ≡ FsyncMode.always
    → q < 2 ^ 64
    → contents db.wal ≡ wal_header q ++ encode_all es
    → All IsEntry es
    → 0 < length value
    → entry_size Op.put (length key) (length value) ≤ wal_buf_size
    → lsm_is_full (lsm_put env.alloc env.level key value db.lsm).0 ≡ false
    → load_levels disk.levels btree_create ≡ some bt
    → (db' : Db) × (db_put env table key value db ≡ some (db', Status.ok))
      × (db'' : Db) × (db_open env' FsyncMode.always memtable_size
            (record disk { wal_file = after_crash db'.wal })
          ≡ some (some db'', Status.ok))
      × (read_key db'' key ≡ some value)
unfolding db_put
db_open-db_put env env' table key value t db q memtable_size es disk bt known id alloc full full' v
      always word held legal filled fits room loads =
    let (logged, grown, same, valid) =
      wal_append-contents env.fwrite full db.wal v Op.put t.id key (some value) (length value)
        fits in
    let (empty, flushed) =
      wal_append_always env.fwrite full db.wal v Op.put t.id key (some value) (length value) always
        fits in
    let wal : Wal = (wal_append env.fwrite db.wal Op.put t.id key (some value) (length value)).0 in
    let lsm : Lsm = (lsm_put env.alloc env.level key value db.lsm).0 in
    let e = request db.wal Op.put t.id key (some value) (length value) in
    let taken : (lsm_put env.alloc env.level key value db.lsm).1 ≡ Status.ok =
      subst (λ b. (lsm_put b env.level key value db.lsm).1 ≡ Status.ok) (sym alloc.0)
        (lsm_get-lsm_put env.level key value db.lsm).0 in
    let all_there : after_crash wal ≡ contents wal =
      ap (λ n. take n wal.file) flushed
      ∙ (take-length wal.file
          ∙ (sym (append-nil wal.file) ∙ ap (λ b. wal.file ++ b) (sym empty))) in
    let whole : after_crash wal ≡ wal_header q ++ encode_all (es ++ e ∷ []) =
      all_there
      ∙ (grown
          ∙ (ap (λ b. b ++ encode e) held
              ∙ (append_assoc (wal_header q) (encode_all es) (encode e)
                  ∙ ap (λ b. wal_header q ++ b)
                      (ap (λ b. encode_all es ++ b) (sym (append-nil (encode e)))
                        ∙ sym (encode_all-append es (e ∷ [])))))) in
    let (db'', opens, reads) =
      put_survives env' memtable_size (record disk { wal_file = after_crash wal }) bt q es e value
        alloc.1 full' word legal
        (record {
          seq_word = omega arith;
          table_word = id;
          key_short = omega (arith, fits);
          val_short = omega (arith, fits);
          has_value = (filled, refl);
        })
        refl refl whole loads in
    (
      written_db wal lsm db,
      rw (known, db_put)
          (both_taken _ _ _ _ _ logged taken
            ∙ flush_if_full-room env (record db { wal = wal; lsm = lsm }) room),
      db'',
      opens,
      reads,
    )
