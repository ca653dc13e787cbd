-- ===== src/Memtable.antt =====
-- The memtable, src/storage/lsm.c: the lowest lane of the skip list, which holds every node in
-- the order of keys. The upper lanes only shorten the search for the last node below a key; they
-- show here through the node's level, which counts in its size.
pub mod Order
pub mod Lookup
use Prim.Native.Nat.{Ordering}
use kanbudb.Prelude.{
  ℕ, ◌+◌, ◌-◌, ◌*◌, Bool, true, false, Option, none, some, List, [], ◌∷◌, ltb, leb, if◌then◌else◌,
  length, Bytes,
}
use kanbudb.Status.{Status, is_ok}
use kanbudb.Key.{key_cmp}

pub record SkipNode : Type 0 where
  pub seq : ℕ
  pub key : Bytes
  pub value : Bytes
  pub deleted : Bool
  pub level : ℕ

pub record Memtable : Type 0 where
  pub nodes : List SkipNode
  pub size_limit : ℕ
  pub used : ℕ
  pub level : ℕ

-- `sizeof(skip_node_t)` is 32, and a node has a forward pointer for each of its lanes.
abbrev pub node_size : SkipNode → ℕ
node_size n = 32 + (n.level + 1) * 8 + length n.key + length n.value

unfoldable pub memtable_create : ℕ → Memtable
memtable_create max_size = record { nodes = []; size_limit = max_size; used = 0; level = 0 }

-- What `memtable_put` does to the lane, and to `used`: the node is updated in place, or replaced
-- by a larger one, or linked in. `alloc` says whether the allocation of a node succeeds.
abbrev pub overwrite : Bool → SkipNode → ℕ → Bytes → SkipNode × Status
overwrite alloc x seq value =
    if leb (length value) (length x.value)
    then (record x { seq = seq; deleted = false; value = value }, Status.ok)
    else if alloc
    then (record x { seq = seq; deleted = false; value = value }, Status.ok)
    else (record x { seq = seq; deleted = false }, Status.oom)

pub record Lane : Type 0 where
  pub nodes : List SkipNode
  pub freed : ℕ
  pub taken : ℕ
  pub linked : Bool
  pub status : Status

module _ (alloc : Bool) (lvl seq : ℕ) (key value : Bytes) where
  abbrev pub new_node : SkipNode
  new_node = record { seq = seq; key = key; value = value; deleted = false; level = lvl }

  abbrev pub link_before : List SkipNode → Lane
  link_before rest =
      if alloc
      then record {
        nodes = new_node ∷ rest;
        freed = 0;
        taken = node_size new_node;
        linked = true;
        status = Status.ok;
      }
      else record { nodes = rest; freed = 0; taken = 0; linked = true; status = Status.oom }

  abbrev pub replace_node : SkipNode → List SkipNode → Lane
  replace_node x rest =
      let (y, rc) = overwrite alloc x seq value in
      record {
        nodes = y ∷ rest;
        freed = length x.value;
        taken = length y.value;
        linked = false;
        status = rc;
      }

  unfoldable pub put_lane : List SkipNode → Lane
  put_lane [] = link_before []
  put_lane (x ∷ rest) = elim (key_cmp key x.key) [
    | Ordering.gt ↦ let r = put_lane rest in record r { nodes = x ∷ r.nodes }
    | Ordering.eq ↦ replace_node x rest
    | Ordering.lt ↦ link_before (x ∷ rest)
  ]

  -- `memtable_put`; `lvl` is what `random_level` returned.
  unfoldable pub memtable_put : Memtable → Memtable × Status
  memtable_put mt =
      let r = put_lane mt.nodes in
      (
        record mt {
          nodes = r.nodes;
          used = mt.used - r.freed + r.taken;
          level = if r.linked then (if ltb mt.level lvl then lvl else mt.level) else mt.level;
        },
        r.status,
      )

-- The walk of `memtable_delete` that marks the node.
unfoldable pub mark_deleted : Bytes → List SkipNode → List SkipNode
mark_deleted key [] = []
mark_deleted key (x ∷ rest) = elim (key_cmp key x.key) [
  | Ordering.gt ↦ x ∷ mark_deleted key rest
  | Ordering.eq ↦ record x { deleted = true } ∷ rest
  | Ordering.lt ↦ x ∷ rest
]

-- `memtable_delete`
unfoldable pub memtable_delete : Bool → ℕ → ℕ → Bytes → Memtable → Memtable × Status
memtable_delete alloc lvl seq key mt =
    let (mt', rc) = memtable_put alloc lvl seq key [] mt in
    if is_ok rc then (record mt' { nodes = mark_deleted key mt'.nodes }, Status.ok) else (mt', rc)

-- `memtable_get`: what it returns, and the value and the deletion mark that it stores through its
-- pointers when it finds the key.
unfoldable pub get_lane : Bytes → List SkipNode → Status × Option (Bytes × Bool)
get_lane key [] = (Status.not_found, none)
get_lane key (x ∷ rest) = elim (key_cmp key x.key) [
  | Ordering.eq ↦ (if x.deleted then Status.not_found else Status.ok, some (x.value, x.deleted))
  | Ordering.lt ↦ (Status.not_found, none)
  | Ordering.gt ↦ get_lane key rest
]

unfoldable pub memtable_get : Memtable → Bytes → Status × Option (Bytes × Bool)
memtable_get mt key = get_lane key mt.nodes

unfoldable pub memtable_is_full : Memtable → Bool
memtable_is_full mt = leb mt.size_limit mt.used

unfoldable pub memtable_size : Memtable → ℕ
memtable_size mt = mt.used

-- `memtable_iterate`, over the state of its callback.
unfoldable pub memtable_iterate {ℓ} :
    {S : Type ℓ} → (S → SkipNode → S × Status) → S → List SkipNode → S × Status
memtable_iterate cb s [] = (s, Status.ok)
memtable_iterate cb s (x ∷ rest) = elim (is_ok (cb s x).1) [
  | true ↦ memtable_iterate cb (cb s x).0 rest
  | false ↦ cb s x
]
