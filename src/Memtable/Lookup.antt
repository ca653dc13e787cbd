-- ===== src/Memtable/Lookup.antt =====
-- `memtable_get` after `memtable_put` and `memtable_delete`.
use kanbudb.Prelude.{ℕ, ◌≡◌, refl, ◌≢◌, Bool, true, false, none, some, List, [], ◌∷◌, arith, Bytes}
use kanbudb.Status.{Status}
use kanbudb.Key.Order.{key_cmp_refl, key_cmp_eq, key_cmp_trans}
use kanbudb.Memtable.{
  SkipNode, Memtable, memtable_create, put_lane, memtable_put, mark_deleted, memtable_delete,
  get_lane, memtable_get,
}

get_lane-put_lane_self :
    (lvl seq : ℕ) (key value : Bytes) (nodes : List SkipNode)
    → get_lane key (put_lane true lvl seq key value nodes).nodes ≡ (Status.ok, some (value, false))
unfolding get_lane put_lane
get_lane-put_lane_self lvl seq key value [] = ground (arith, key_cmp_refl key)
get_lane-put_lane_self lvl seq key value (x ∷ rest) =
    ground (arith, key_cmp_refl key, get_lane-put_lane_self lvl seq key value rest)

get_lane-put_lane_ne :
    (alloc : Bool) (lvl seq : ℕ) (key value q : Bytes) (nodes : List SkipNode)
    → q ≢ key
    → get_lane q (put_lane alloc lvl seq key value nodes).nodes ≡ get_lane q nodes
unfolding get_lane put_lane
get_lane-put_lane_ne alloc lvl seq key value q [] h = ground (arith, key_cmp_eq q key)
get_lane-put_lane_ne alloc lvl seq key value q (x ∷ rest) h = ground (
  arith,
  get_lane-put_lane_ne alloc lvl seq key value q rest h,
  key_cmp_eq q key,
  key_cmp_eq key x.key,
  key_cmp_trans q key x.key,
)

put_lane_ok :
    (lvl seq : ℕ) (key value : Bytes) (nodes : List SkipNode)
    → (put_lane true lvl seq key value nodes).status ≡ Status.ok
unfolding put_lane
put_lane_ok lvl seq key value [] = refl
put_lane_ok lvl seq key value (x ∷ rest) = ground (arith, put_lane_ok lvl seq key value rest)

-- Where allocations succeed, `memtable_put` answers OK, whatever the size limit, and `memtable_get`
-- of the key then finds the value, not marked as deleted.
pub memtable_get-memtable_put :
    (lvl seq : ℕ) (key value : Bytes) (mt : Memtable)
    → ((memtable_put true lvl seq key value mt).1 ≡ Status.ok)
      × (memtable_get (memtable_put true lvl seq key value mt).0 key
          ≡ (Status.ok, some (value, false)))
unfolding memtable_put memtable_get
memtable_get-memtable_put lvl seq key value mt =
    (put_lane_ok lvl seq key value mt.nodes, get_lane-put_lane_self lvl seq key value mt.nodes)

-- A put, also one whose allocation fails, leaves what `memtable_get` answers for every other key.
pub memtable_get-memtable_put_ne :
    (alloc : Bool) (lvl seq : ℕ) (key value q : Bytes) (mt : Memtable)
    → q ≢ key
    → memtable_get (memtable_put alloc lvl seq key value mt).0 q ≡ memtable_get mt q
unfolding memtable_put memtable_get
memtable_get-memtable_put_ne alloc lvl seq key value q mt h =
    get_lane-put_lane_ne alloc lvl seq key value q mt.nodes h

get_lane-mark_deleted_self :
    (key v : Bytes) (b : Bool) (rc : Status) (nodes : List SkipNode)
    → get_lane key nodes ≡ (rc, some (v, b))
    → get_lane key (mark_deleted key nodes) ≡ (Status.not_found, some (v, true))
unfolding get_lane mark_deleted
get_lane-mark_deleted_self key v b rc [] h = ground arith
get_lane-mark_deleted_self key v b rc (x ∷ rest) h =
    ground (arith, get_lane-mark_deleted_self key v b rc rest)

get_lane-mark_deleted_ne :
    (key q : Bytes) (nodes : List SkipNode)
    → q ≢ key
    → get_lane q (mark_deleted key nodes) ≡ get_lane q nodes
unfolding get_lane mark_deleted
get_lane-mark_deleted_ne key q [] h = refl
get_lane-mark_deleted_ne key q (x ∷ rest) h =
    ground (arith, get_lane-mark_deleted_ne key q rest h, key_cmp_eq q x.key, key_cmp_eq key x.key)

-- Where allocations succeed, `memtable_delete` answers OK, and `memtable_get` of the key then finds
-- it marked as deleted and answers NOTFOUND.
pub memtable_get-memtable_delete :
    (lvl seq : ℕ) (key : Bytes) (mt : Memtable)
    → ((memtable_delete true lvl seq key mt).1 ≡ Status.ok)
      × (memtable_get (memtable_delete true lvl seq key mt).0 key
          ≡ (Status.not_found, some ([], true)))
unfolding memtable_delete memtable_put memtable_get
memtable_get-memtable_delete lvl seq key mt = rw (put_lane_ok lvl seq key [] mt.nodes) (
  refl,
  get_lane-mark_deleted_self key [] false Status.ok (put_lane true lvl seq key [] mt.nodes).nodes
      (get_lane-put_lane_self lvl seq key [] mt.nodes),
)

-- A delete, also one whose allocation fails, leaves what `memtable_get` answers for every other key.
pub memtable_get-memtable_delete_ne :
    (alloc : Bool) (lvl seq : ℕ) (key q : Bytes) (mt : Memtable)
    → q ≢ key
    → memtable_get (memtable_delete alloc lvl seq key mt).0 q ≡ memtable_get mt q
unfolding memtable_delete memtable_put memtable_get
memtable_get-memtable_delete_ne alloc lvl seq key q mt h = ground (
  arith,
  get_lane-mark_deleted_ne key q (put_lane alloc lvl seq key [] mt.nodes).nodes h,
  get_lane-put_lane_ne alloc lvl seq key [] q mt.nodes h,
)

pub memtable_get-memtable_create :
    (max_size : ℕ) (q : Bytes)
    → memtable_get (memtable_create max_size) q ≡ (Status.not_found, none)
unfolding memtable_get memtable_create get_lane
memtable_get-memtable_create max_size q = refl
