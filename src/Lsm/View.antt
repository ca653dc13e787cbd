-- ===== src/Lsm/View.antt =====
-- What a reader of the two memtables sees, and where a write loses data.
use kanbudb.Prelude.{
  ℕ, ◌≡◌, ◌≢◌, inl, inr, Bool, true, Option, none, some, arith, if◌then◌else◌, Bool-cases, Bytes,
}
use kanbudb.Status.{Status, is_ok}
use kanbudb.Memtable.{memtable_get, memtable_is_full}
use kanbudb.Memtable.Lookup.{
  memtable_get-memtable_put, memtable_get-memtable_put_ne, memtable_get-memtable_delete,
  memtable_get-memtable_delete_ne, memtable_get-memtable_create,
}
use kanbudb.Lsm.{
  Lsm, lsm_flush, make_room, lsm_put, lsm_delete, out_value, out_deleted, get_flushing, lsm_get,
}

-- What a key reads when the two memtables have given these answers.
abbrev answer : Status × Option (Bytes × Bool) → Option Bytes → Option Bytes
answer (rc, out) below = if is_ok rc then out_value out else if out_deleted out then none else below

-- Where allocations succeed, `lsm_put` answers OK and `lsm_get` of the key then answers the value,
-- whatever the memtables held and whether or not the put made room first.
pub lsm_get-lsm_put :
    (lvl : ℕ) (key value : Bytes) (lsm : Lsm)
    → ((lsm_put true lvl key value lsm).1 ≡ Status.ok)
      × (lsm_get (lsm_put true lvl key value lsm).0 key ≡ some value)
unfolding lsm_put lsm_get
lsm_get-lsm_put lvl key value lsm =
    let m = memtable_get-memtable_put lvl 0 key value (make_room lsm).active in (m.0, rw m.1)

-- Where allocations succeed, `lsm_delete` answers OK and the key is then not found, although the
-- memtable being flushed may still hold it.
pub lsm_get-lsm_delete :
    (lvl : ℕ) (key : Bytes) (lsm : Lsm)
    → ((lsm_delete true lvl key lsm).1 ≡ Status.ok)
      × (lsm_get (lsm_delete true lvl key lsm).0 key ≡ none)
unfolding lsm_delete lsm_get
lsm_get-lsm_delete lvl key lsm =
    let m = memtable_get-memtable_delete lvl 0 key (make_room lsm).active in (m.0, rw m.1)

-- Where nothing was still being flushed, `lsm_flush` leaves what every key reads.
pub lsm_get-lsm_flush :
    (lsm : Lsm) (q : Bytes) → lsm.flushing ≡ none → lsm_get (lsm_flush lsm) q ≡ lsm_get lsm q
unfolding lsm_flush lsm_get
lsm_get-lsm_flush lsm q h =
    rw (memtable_get-memtable_create lsm.memtable_size q) (rw (h, get_flushing) (ground arith))

lsm_get-make_room :
    (lsm : Lsm) (q : Bytes) → lsm.flushing ≡ none → lsm_get (make_room lsm) q ≡ lsm_get lsm q
lsm_get-make_room lsm q h = elim (Bool-cases (memtable_is_full lsm.active)) [
  | inl full ↦ rw full (lsm_get-lsm_flush lsm q h)
  | inr room ↦ rw room
]

-- Where nothing was still being flushed, `lsm_put` leaves what every other key reads.
pub lsm_get-lsm_put_ne :
    (alloc : Bool) (lvl : ℕ) (key value q : Bytes) (lsm : Lsm)
    → q ≢ key
    → lsm.flushing ≡ none
    → lsm_get (lsm_put alloc lvl key value lsm).0 q ≡ lsm_get lsm q
lsm_get-lsm_put_ne alloc lvl key value q lsm h f =
    unfold lsm_put lsm_get in
    rw (memtable_get-memtable_put_ne alloc lvl 0 key value q (make_room lsm).active h)
      (lsm_get-make_room lsm q f)

-- Where nothing was still being flushed, `lsm_delete` leaves what every other key reads.
pub lsm_get-lsm_delete_ne :
    (alloc : Bool) (lvl : ℕ) (key q : Bytes) (lsm : Lsm)
    → q ≢ key
    → lsm.flushing ≡ none
    → lsm_get (lsm_delete alloc lvl key lsm).0 q ≡ lsm_get lsm q
lsm_get-lsm_delete_ne alloc lvl key q lsm h f =
    unfold lsm_delete lsm_get in
    rw (memtable_get-memtable_delete_ne alloc lvl 0 key q (make_room lsm).active h)
      (lsm_get-make_room lsm q f)

-- Where the active memtable is full and does not hold a key, an `lsm_put` of another key leaves that
-- key not found, also when the memtable being flushed held it.
pub lsm_put_drops :
    (alloc : Bool) (lvl : ℕ) (key value q : Bytes) (lsm : Lsm)
    → q ≢ key
    → memtable_is_full lsm.active ≡ true
    → memtable_get lsm.active q ≡ (Status.not_found, none)
    → lsm_get (lsm_put alloc lvl key value lsm).0 q ≡ none
unfolding lsm_put lsm_get lsm_flush
lsm_put_drops alloc lvl key value q lsm h full absent =
    rw (memtable_get-memtable_put_ne alloc lvl 0 key value q (make_room lsm).active h)
      (rw full (rw (memtable_get-memtable_create lsm.memtable_size q) (rw absent)))
