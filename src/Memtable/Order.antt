-- ===== src/Memtable/Order.antt =====
-- The invariant of the memtable: its nodes stand in the order of their keys, each key once, and
-- `used` is the size of the nodes.
use Prim.Native.Nat.{Ordering}
use kanbudb.Prelude.{
  ℕ, ◌+◌, ◌≤◌, ◌≡◌, refl, inl, inr, Bool, List, [], ◌∷◌, arith, Bool-cases, All, Bytes,
}
use kanbudb.Status.{is_ok}
use kanbudb.Key.{key_cmp}
use kanbudb.Key.Order.{key_cmp_flip_gt, key_cmp_trans}
use kanbudb.Memtable.{
  SkipNode, Memtable, node_size, memtable_create, put_lane, memtable_put, mark_deleted,
  memtable_delete,
}

abbrev pub Above : Bytes → List SkipNode → Type 0
Above k nodes = All (λ (n : SkipNode). key_cmp k n.key ≡ Ordering.lt) nodes

abbrev pub IsOrdered : List SkipNode → Type 0
IsOrdered [] = Unit
IsOrdered (x ∷ rest) = Above x.key rest × IsOrdered rest

abbrev pub total_size : List SkipNode → ℕ
total_size [] = 0
total_size (x ∷ rest) = node_size x + total_size rest

pub record IsValid (mt : Memtable) : Type 0 where
  pub ordered : IsOrdered mt.nodes
  pub sized : mt.used ≡ total_size mt.nodes

pub memtable_create-IsValid : (max_size : ℕ) → IsValid (memtable_create max_size)
unfolding memtable_create
memtable_create-IsValid max_size = record { ordered = tt; sized = refl }

pub Above-trans :
    (j k : Bytes) (nodes : List SkipNode)
    → key_cmp j k ≡ Ordering.lt
    → Above k nodes
    → Above j nodes
Above-trans j k [] h a = tt
Above-trans j k (x ∷ rest) h a = (key_cmp_trans j k x.key h a.0, Above-trans j k rest h a.1)

module _ (alloc : Bool) (lvl seq : ℕ) (key value : Bytes) where
  put_lane-Above :
      (k : Bytes) (nodes : List SkipNode)
      → key_cmp k key ≡ Ordering.lt
      → Above k nodes
      → Above k (put_lane alloc lvl seq key value nodes).nodes
  unfolding put_lane
  put_lane-Above k [] h a = ground arith
  put_lane-Above k (x ∷ rest) h a = ground (arith, put_lane-Above k rest h a.1)

  put_lane-IsOrdered :
      (nodes : List SkipNode)
      → IsOrdered nodes
      → IsOrdered (put_lane alloc lvl seq key value nodes).nodes
  unfolding put_lane
  put_lane-IsOrdered [] o = ground arith
  put_lane-IsOrdered (x ∷ rest) o = ground (
    arith,
    put_lane-IsOrdered rest o.1,
    put_lane-Above x.key rest,
    key_cmp_flip_gt key x.key,
    Above-trans key x.key rest,
  )

  put_lane_size :
      (nodes : List SkipNode)
      → (total_size (put_lane alloc lvl seq key value nodes).nodes
            + (put_lane alloc lvl seq key value nodes).freed
          ≡ total_size nodes + (put_lane alloc lvl seq key value nodes).taken)
        × ((put_lane alloc lvl seq key value nodes).freed ≤ total_size nodes)
  unfolding put_lane
  put_lane_size [] = ground arith
  put_lane_size (x ∷ rest) = ground (arith, put_lane_size rest)

  -- `memtable_put` keeps the invariant that the keys ascend strictly and `used` is the size of the
  -- nodes, also when the allocation fails.
  pub memtable_put-IsValid :
      (mt : Memtable) → IsValid mt → IsValid (memtable_put alloc lvl seq key value mt).0
  unfolding memtable_put
  memtable_put-IsValid mt v = record {
    ordered = put_lane-IsOrdered mt.nodes v.ordered;
    sized = omega (arith, v.sized, (put_lane_size mt.nodes).0, (put_lane_size mt.nodes).1);
  }

mark_deleted-Above :
    (k key : Bytes) (nodes : List SkipNode) → Above k nodes → Above k (mark_deleted key nodes)
unfolding mark_deleted
mark_deleted-Above k key [] a = tt
mark_deleted-Above k key (x ∷ rest) a = ground (arith, mark_deleted-Above k key rest a.1)

mark_deleted-IsOrdered :
    (key : Bytes) (nodes : List SkipNode) → IsOrdered nodes → IsOrdered (mark_deleted key nodes)
unfolding mark_deleted
mark_deleted-IsOrdered key [] o = tt
mark_deleted-IsOrdered key (x ∷ rest) o =
    ground (arith, mark_deleted-IsOrdered key rest o.1, mark_deleted-Above x.key key rest o.0)

mark_deleted_size :
    (key : Bytes) (nodes : List SkipNode) → total_size (mark_deleted key nodes) ≡ total_size nodes
unfolding mark_deleted
mark_deleted_size key [] = refl
mark_deleted_size key (x ∷ rest) = ground (arith, mark_deleted_size key rest)

-- `memtable_delete` keeps the invariant that the keys ascend strictly and `used` is the size of the
-- nodes, also when the allocation fails.
pub memtable_delete-IsValid :
    (alloc : Bool) (lvl seq : ℕ) (key : Bytes) (mt : Memtable)
    → IsValid mt
    → IsValid (memtable_delete alloc lvl seq key mt).0
unfolding memtable_delete
memtable_delete-IsValid alloc lvl seq key mt v =
    let w = memtable_put-IsValid alloc lvl seq key [] mt v in
    let m : Memtable = (memtable_put alloc lvl seq key [] mt).0 in
    elim (Bool-cases (is_ok (memtable_put alloc lvl seq key [] mt).1)) [
      | inl h ↦
          rw (h, memtable_delete)
            (record {
              ordered = mark_deleted-IsOrdered key m.nodes w.ordered;
              sized = rw mark_deleted_size w.sized;
            })
      | inr h ↦ rw (h, memtable_delete) w
    ]
