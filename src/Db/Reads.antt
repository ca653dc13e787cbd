-- ===== src/Db/Reads.antt =====
-- What `db_get` of src/core/db.c answers before and after a flush.
use Prim.Native.Nat.{Ordering}
use kanbudb.Prelude.{
  ◌≡◌, refl, sym, ap, ◌∙◌, ◌⊎◌, inl, inr, Bool, true, false, Option, none, some, List, [], ◌∷◌,
  Bool-cases, Option-cases, Bytes,
}
use kanbudb.Status.{Status}
use kanbudb.Key.{key_cmp, below}
use kanbudb.Memtable.{SkipNode, memtable_create, get_lane, memtable_get}
use kanbudb.Memtable.Order.{IsOrdered}
use kanbudb.Lsm.{lsm_flush, get_flushing, lsm_get, lsm_destroy_flushing}
use kanbudb.Btree.{btree_get}
use kanbudb.Btree.Absent.{btree_get_new}
use kanbudb.Btree.Tree.{IsValid}
use kanbudb.Sstable.Reader.{Got}
use kanbudb.Sstable.Lookup.{lookup, lookup_above, sorted_above}
use kanbudb.Sstable.Scan.{Storable}
use kanbudb.Db.{Db, Env, find_table, db_flush_memtable, read_key, db_get}
use kanbudb.Db.Load.{AllNew, over, load_entries, lookup-IsNew}
use kanbudb.Db.Flush.{
  entries_of, entries_of-Above, entries_of-Sorted, AllWell, flushed, db_flush_memtable-flushed,
}

-- What the table of its nodes answers, where a memtable answers this.
abbrev got_of : Status × Option (Bytes × Bool) → Got
got_of (rc, none) = Got.not_found
got_of (rc, some (v, true)) = Got.tombstone 2
got_of (rc, some (v, false)) = Got.found 1 v

-- One round of the walk, by the outcome of its comparison.
lane_round :
    (q : Bytes) (x : SkipNode) (rest : List SkipNode) (c : Ordering)
    → IsOrdered (x ∷ rest)
    → key_cmp q x.key ≡ c
    → lookup q (entries_of rest) ≡ got_of (get_lane q rest)
    → lookup q (entries_of (x ∷ rest)) ≡ got_of (get_lane q (x ∷ rest))
unfolding get_lane
lane_round q x rest Ordering.gt o h ih = rw (h, lookup, get_lane) ih
lane_round q x rest Ordering.lt o h ih =
    let l : below q x.key ≡ true = unfold below in rw h refl in
    let missed : get_lane q (x ∷ rest) ≡ (Status.not_found, none) = rw (h, get_lane) refl in
    lookup_above q (entries_of (x ∷ rest))
      (l, sorted_above q x.key (entries_of rest) l (entries_of-Above x.key rest o.0))
    ∙ sym (ap got_of missed)
lane_round q x rest Ordering.eq o h ih = elim (Bool-cases x.deleted) [
  | inl d ↦ rw (h, lookup, get_lane) (rw d refl)
  | inr d ↦ rw (h, lookup, get_lane) (rw d refl)
]

lookup-entries_of :
    (q : Bytes) (nodes : List SkipNode)
    → IsOrdered nodes
    → lookup q (entries_of nodes) ≡ got_of (get_lane q nodes)
unfolding get_lane
lookup-entries_of q [] o = refl
lookup-entries_of q (x ∷ rest) o =
    lane_round q x rest (key_cmp q x.key) o refl (lookup-entries_of q rest o.1)

-- What the walk answers: nothing, a deleted node, or a value.
abbrev Shape : Status × Option (Bytes × Bool) → Type 0
Shape r =
    (r ≡ (Status.not_found, none))
    ⊎ ((v : Bytes) × (r ≡ (Status.not_found, some (v, true))))
    ⊎ ((v : Bytes) × (r ≡ (Status.ok, some (v, false))))

step-Shape :
    (q : Bytes) (x : SkipNode) (rest : List SkipNode) (c : Ordering)
    → key_cmp q x.key ≡ c
    → Shape (get_lane q rest)
    → Shape (get_lane q (x ∷ rest))
unfolding get_lane
step-Shape q x rest Ordering.gt h s = rw (h, get_lane) s
step-Shape q x rest Ordering.lt h s = rw (h, get_lane) (inl refl)
step-Shape q x rest Ordering.eq h s = elim (Bool-cases x.deleted) [
  | inl d ↦ rw (h, get_lane) (rw d (inr (inl (x.value, refl))))
  | inr d ↦ rw (h, get_lane) (rw d (inr (inr (x.value, refl))))
]

pub get_lane-Shape : (q : Bytes) (nodes : List SkipNode) → Shape (get_lane q nodes)
unfolding get_lane
get_lane-Shape q [] = inl refl
get_lane-Shape q (x ∷ rest) = step-Shape q x rest (key_cmp q x.key) refl (get_lane-Shape q rest)

-- The two looks of a read, where nothing is being flushed.
pub read_key-none :
    (db : Db) (q : Bytes)
    → db.lsm.flushing ≡ none
    → get_lane q db.lsm.active.nodes ≡ (Status.not_found, none)
    → read_key db q ≡ btree_get q db.btree
unfolding lsm_get memtable_get
read_key-none db q f e = rw (e, read_key) (rw (f, get_flushing) refl)

pub read_key-deleted :
    (db : Db) (q v : Bytes)
    → get_lane q db.lsm.active.nodes ≡ (Status.not_found, some (v, true))
    → read_key db q ≡ btree_get q db.btree
unfolding lsm_get memtable_get
read_key-deleted db q v e = rw (e, read_key) refl

pub read_key-value :
    (db : Db) (q v : Bytes)
    → get_lane q db.lsm.active.nodes ≡ (Status.ok, some (v, false))
    → read_key db q ≡ some v
unfolding lsm_get memtable_get
read_key-value db q v e = rw (e, read_key) refl

-- A read is the memtable's table over the tree, where the tree has no key of it.
read_key-over :
    (db : Db) (q : Bytes)
    → db.lsm.flushing ≡ none
    → IsOrdered db.lsm.active.nodes
    → AllNew (entries_of db.lsm.active.nodes) db.btree
    → read_key db q ≡ over (lookup q (entries_of db.lsm.active.nodes)) (btree_get q db.btree)
read_key-over db q f o n =
    let same = lookup-entries_of q db.lsm.active.nodes o in
    elim (get_lane-Shape q db.lsm.active.nodes) [
      | inl e ↦
          read_key-none db q f e
          ∙ sym (ap (λ g. over g (btree_get q db.btree)) (same ∙ ap got_of e))
      | inr (inl (v, e)) ↦
          let dead = same ∙ ap got_of e in
          let new =
            lookup-IsNew q (entries_of db.lsm.active.nodes) db.btree (λ h. cc (h, dead)) n in
          read_key-deleted db q v e
          ∙ (btree_get_new q db.btree new ∙ sym (ap (λ g. over g (btree_get q db.btree)) dead))
      | inr (inr (v, e)) ↦
          read_key-value db q v e
          ∙ sym (ap (λ g. over g (btree_get q db.btree)) (same ∙ ap got_of e))
    ]

pub db_get-read_key :
    (table q : Bytes) (db : Db)
    → (db_get table q db).1
      ≡ elim (find_table table db.tables) [ none ↦ none | some t ↦ read_key db q ]
unfolding db_get
db_get-read_key table q db = elim (Option-cases (find_table table db.tables)) [
  | inl e ↦ rw (e, db_get) refl
  | inr (t, e) ↦ elim (Option-cases (read_key db q)) [
    | inl r ↦ rw (e, db_get) (rw r refl)
    | inr (v, r) ↦ rw (e, db_get) (rw r refl)
  ]
]

-- Where the calls of the system succeed, the nodes of the active memtable stand in order and fit into a
-- table file, nothing else is being flushed, and the B+tree is valid and has none of the memtable's
-- keys: `db_flush_memtable` returns OK, and no read of any key in any table answers otherwise
-- than before, although it now goes through the file into the tree.
pub db_get-db_flush_memtable :
    (env : Env) (table q : Bytes) (db : Db)
    → AllWell env
    → Storable (entries_of db.lsm.active.nodes)
    → IsOrdered db.lsm.active.nodes
    → db.lsm.flushing ≡ none
    → IsValid db.btree
    → AllNew (entries_of db.lsm.active.nodes) db.btree
    → (db' : Db) × (db_flush_memtable env db ≡ some (db', Status.ok))
      × IsValid db'.btree
      × ((db_get table q db').1 ≡ (db_get table q db).1)
db_get-db_flush_memtable env table q db good st o f v n =
    let es = entries_of db.lsm.active.nodes in
    let (valid, reads) = load_entries q es db.btree v (entries_of-Sorted db.lsm.active.nodes o) n in
    let same : read_key (flushed env db) q ≡ read_key db q =
      read_key-none (flushed env db) q (unfold lsm_destroy_flushing in refl)
        (unfold get_lane lsm_destroy_flushing lsm_flush memtable_create in refl)
      ∙ (reads ∙ sym (read_key-over db q f o n)) in
    (
      flushed env db,
      db_flush_memtable-flushed env db good st,
      valid,
      db_get-read_key table q (flushed env db)
          ∙ (ap (λ r. elim (find_table table db.tables) [ none ↦ none | some t ↦ r ]) same
              ∙ sym (db_get-read_key table q db)),
    )
