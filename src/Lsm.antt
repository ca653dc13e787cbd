-- ===== src/Lsm.antt =====
-- The two memtables of the log-structured store, src/storage/lsm.c. The allocation of a new
-- memtable by `lsm_flush` is taken to succeed.
pub mod View
use kanbudb.Prelude.{ℕ, ◌+◌, ◌%◌, ◌^◌, Bool, false, Option, none, some, ltb, if◌then◌else◌, Bytes}
use kanbudb.Status.{Status, is_ok}
use kanbudb.Memtable.{
  SkipNode, Memtable, memtable_create, memtable_put, memtable_delete, memtable_get,
  memtable_is_full, memtable_size, memtable_iterate,
}

pub record Lsm : Type 0 where
  pub memtable_size : ℕ
  pub active : Memtable
  pub flushing : Option Memtable
  pub next_seq : ℕ

unfoldable pub lsm_create : ℕ → Lsm
lsm_create size = record {
  memtable_size = size;
  active = memtable_create size;
  flushing = none;
  next_seq = 0;
}

-- `lsm_flush`: what was still being flushed is destroyed.
unfoldable pub lsm_flush : Lsm → Lsm
lsm_flush lsm = record lsm {
  flushing = some lsm.active;
  active = memtable_create lsm.memtable_size;
}

-- The flush with which `lsm_put` and `lsm_delete` begin when the active memtable is full.
abbrev pub make_room : Lsm → Lsm
make_room lsm = if memtable_is_full lsm.active then lsm_flush lsm else lsm

-- `lsm_put`
unfoldable pub lsm_put : Bool → ℕ → Bytes → Bytes → Lsm → Lsm × Status
lsm_put alloc lvl key value l =
    let lsm = make_room l in
    let (mt, rc) = memtable_put alloc lvl 0 key value lsm.active in (record lsm { active = mt }, rc)

-- `lsm_delete`
unfoldable pub lsm_delete : Bool → ℕ → Bytes → Lsm → Lsm × Status
lsm_delete alloc lvl key l =
    let lsm = make_room l in
    let (mt, rc) = memtable_delete alloc lvl 0 key lsm.active in (record lsm { active = mt }, rc)

-- What `memtable_get` stored through its pointers; the callers start with `deleted = 0`.
abbrev pub out_value : Option (Bytes × Bool) → Option Bytes
out_value none = none
out_value (some (value, deleted)) = some value

abbrev pub out_deleted : Option (Bytes × Bool) → Bool
out_deleted none = false
out_deleted (some (value, deleted)) = deleted

-- The look into `lsm->flushing`.
abbrev pub get_flushing : Option Memtable → Bytes → Option Bytes
get_flushing none key = none
get_flushing (some mt) key =
    let (rc, out) = memtable_get mt key in if is_ok rc then out_value out else none

-- `lsm_get`: `none` is KANBUDB_ERR_NOTFOUND.
unfoldable pub lsm_get : Lsm → Bytes → Option Bytes
lsm_get lsm key =
    let (rc, out) = memtable_get lsm.active key in
    if is_ok rc
    then out_value out
    else if out_deleted out
    then none
    else get_flushing lsm.flushing key

unfoldable pub lsm_is_full : Lsm → Bool
lsm_is_full lsm = memtable_is_full lsm.active

unfoldable pub lsm_has_data : Lsm → Bool
lsm_has_data lsm = ltb 0 (memtable_size lsm.active)

unfoldable pub lsm_next_seq : Lsm → Lsm × ℕ
lsm_next_seq lsm = (record lsm { next_seq = (lsm.next_seq + 1) % 2 ^ 64 }, lsm.next_seq)

-- `lsm_iterate_flushing`
unfoldable pub lsm_iterate_flushing {ℓ} :
    {S : Type ℓ} → (S → SkipNode → S × Status) → S → Lsm → S × Status
lsm_iterate_flushing cb s lsm = elim lsm.flushing [
  | none ↦ (s, Status.inval)
  | some mt ↦ memtable_iterate cb s mt.nodes
]

unfoldable pub lsm_destroy_flushing : Lsm → Lsm
lsm_destroy_flushing lsm = record lsm { flushing = none }
