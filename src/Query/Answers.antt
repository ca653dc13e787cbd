-- ===== src/Query/Answers.antt =====
-- A query of src/query/query_builder.c and `db_get` of src/core/db.c agree.
use Prim.Native.Nat.{Ordering}
use kanbudb.Prelude.{
  ℕ, zero, suc, ◌≡◌, refl, sym, ap, subst, ◌∙◌, inl, inr, true, false, Bool, Option, some, none,
  List, [], ◌∷◌, arith, Bool-cases, length, All, Bytes, if◌then◌else◌,
}
use kanbudb.Status.{Status}
use kanbudb.Key.{memcmp, key_cmp}
use kanbudb.Key.Order.{key_cmp_refl, key_cmp_flip_lt, key_cmp_eq}
use kanbudb.Memtable.{SkipNode, get_lane}
use kanbudb.Memtable.Order.{IsOrdered}
use kanbudb.Btree.{Item, btree_get}
use kanbudb.Btree.Cursor.{all_items}
use kanbudb.Btree.Contents.{All-both, All-concat, btree_get-all_items}
use kanbudb.Btree.Tree.{IsValid}
use kanbudb.Query.Exec.{key_set_contains, qb_scan}
use kanbudb.Query.Rows.{
  has_key, key_set_contains-has_key, live, keys_of, unseen, candidates, keep, collected,
  qb_scan-candidates,
}
use kanbudb.Btree.Leaf.{lookup}
use kanbudb.Query.Complete.{first_of, lookup-append, btree_get-lookup}
use kanbudb.Query.Found.{
  live-All, live_deleted, live_kept, live_value, live-lookup, has_key-lookup, lookup-unseen,
}
use kanbudb.Db.{Db, read_key}
use kanbudb.Db.Reads.{get_lane-Shape, read_key-none, read_key-deleted, read_key-value}

-- The walk finds the item's value under its key.
abbrev Reads : List SkipNode → Item → Type 0
Reads nodes x = get_lane x.key nodes ≡ (Status.ok, some (x.value, false))

own :
    (n : SkipNode) (nodes : List SkipNode)
    → n.deleted ≡ false
    → get_lane n.key (n ∷ nodes) ≡ (Status.ok, some (n.value, false))
unfolding get_lane
own n nodes d =
    let e : get_lane n.key (n ∷ nodes)
        ≡ (if n.deleted then Status.not_found else Status.ok, some (n.value, n.deleted)) =
      rw (key_cmp_refl n.key, get_lane) refl in
    e ∙ ap (λ b. (if b then Status.not_found else Status.ok, some (n.value, b))) d

-- The walk finds every live node.
get_lane-live :
    (nodes : List SkipNode)
    → IsOrdered nodes
    → All (λ (x : Item). get_lane x.key nodes ≡ (Status.ok, some (x.value, false))) (live nodes)
unfolding get_lane
get_lane-live [] o = tt
get_lane-live (n ∷ nodes) o =
    let later =
      All-both (λ x. key_cmp n.key x.key ≡ Ordering.lt)
        (λ x. get_lane x.key nodes ≡ (Status.ok, some (x.value, false)))
        (λ x. get_lane x.key (n ∷ nodes) ≡ (Status.ok, some (x.value, false)))
        (λ x l e. rw (key_cmp_flip_lt n.key x.key l, get_lane) e) (live nodes)
        (live-All (λ k. key_cmp n.key k ≡ Ordering.lt) nodes o.0) (get_lane-live nodes o.1) in
    elim (Bool-cases n.deleted) [
      | inl d ↦ subst (All (Reads (n ∷ nodes))) (sym (live_deleted n nodes d)) later
      | inr d ↦ subst (All (Reads (n ∷ nodes))) (sym (live_kept n nodes d)) (own n nodes d, later)
    ]

memcmp_refl : (n : ℕ) (k : Bytes) → memcmp n k k ≡ Ordering.eq
unfolding memcmp
memcmp_refl zero k = refl
memcmp_refl (suc n) [] = refl
memcmp_refl (suc n) (x ∷ k) = ground (arith, memcmp_refl n k)

contains_first : (k : Bytes) (keys : List Bytes) → key_set_contains (k ∷ keys) k ≡ true
unfolding key_set_contains
contains_first k keys = ground (arith, memcmp_refl (length k) k)

contains_later :
    (k q : Bytes) (keys : List Bytes)
    → key_set_contains keys q ≡ true
    → key_set_contains (k ∷ keys) q ≡ true
unfolding key_set_contains
contains_later k q keys h = ground (arith, h)

-- A key that the walk finds is among those that the scan has seen.
seen_round :
    (q v : Bytes) (n : SkipNode) (nodes : List SkipNode) (c : Ordering)
    → key_cmp q n.key ≡ c
    → (get_lane q nodes ≡ (Status.ok, some (v, false))
        → key_set_contains (keys_of (live nodes)) q ≡ true)
    → get_lane q (n ∷ nodes) ≡ (Status.ok, some (v, false))
    → key_set_contains (keys_of (live (n ∷ nodes))) q ≡ true
unfolding get_lane
seen_round q v n nodes Ordering.lt h ih e =
    let miss : get_lane q (n ∷ nodes) ≡ (Status.not_found, none) = rw (h, get_lane) refl in cc
seen_round q v n nodes Ordering.eq h ih e = elim (Bool-cases n.deleted) [
  | inl d ↦
      let found : get_lane q (n ∷ nodes)
          ≡ (if n.deleted then Status.not_found else Status.ok, some (n.value, n.deleted)) =
        rw (h, get_lane) refl in
      let marked =
        found ∙ ap (λ b. (if b then Status.not_found else Status.ok, some (n.value, b))) d in
      cc
  | inr d ↦
      subst (λ l. key_set_contains (keys_of l) q ≡ true) (sym (live_kept n nodes d))
        (subst (λ k. key_set_contains (k ∷ keys_of (live nodes)) q ≡ true) (key_cmp_eq q n.key h)
          (contains_first q (keys_of (live nodes))))
]
seen_round q v n nodes Ordering.gt h ih e =
    let on : get_lane q (n ∷ nodes) ≡ get_lane q nodes = rw (h, get_lane) refl in
    elim (Bool-cases n.deleted) [
      | inl d ↦
          subst (λ l. key_set_contains (keys_of l) q ≡ true) (sym (live_deleted n nodes d))
            (ih (sym on ∙ e))
      | inr d ↦
          subst (λ l. key_set_contains (keys_of l) q ≡ true) (sym (live_kept n nodes d))
            (contains_later n.key q (keys_of (live nodes)) (ih (sym on ∙ e)))
    ]

seen :
    (q v : Bytes) (nodes : List SkipNode)
    → get_lane q nodes ≡ (Status.ok, some (v, false))
    → key_set_contains (keys_of (live nodes)) q ≡ true
unfolding get_lane
seen q v [] e = cc
seen q v (n ∷ nodes) e = seen_round q v n nodes (key_cmp q n.key) refl (seen q v nodes) e

-- A read of a key that the scan has not seen goes to the tree.
unseen_read :
    (db : Db) (q : Bytes)
    → db.lsm.flushing ≡ none
    → key_set_contains (keys_of (live db.lsm.active.nodes)) q ≡ false
    → read_key db q ≡ btree_get q db.btree
unseen_read db q f u = elim (get_lane-Shape q db.lsm.active.nodes) [
  | inl e ↦ read_key-none db q f e
  | inr (inl (v, e)) ↦ read_key-deleted db q v e
  | inr (inr (v, e)) ↦ let s = seen q v db.lsm.active.nodes e in cc
]

unseen_found :
    (db : Db) (items : List Item)
    → db.lsm.flushing ≡ none
    → All (λ (x : Item). btree_get x.key db.btree ≡ some x.value) items
    → All
        (λ (x : Item). read_key db x.key ≡ some x.value)
        (unseen (keys_of (live db.lsm.active.nodes)) items)
unseen_found db [] f a = tt
unseen_found db (x ∷ items) f a =
    elim (Bool-cases (has_key (keys_of (live db.lsm.active.nodes)) x.key)) [
      | inl s ↦ rw s (unseen_found db items f a.1)
      | inr u ↦ rw u (
        (unseen_read db x.key f
              (key_set_contains-has_key (keys_of (live db.lsm.active.nodes)) x.key ∙ u)
            ∙ a.0),
        unseen_found db items f a.1,
      )
    ]

read_key-candidates :
    (db : Db)
    → db.lsm.flushing ≡ none
    → IsOrdered db.lsm.active.nodes
    → IsValid db.btree
    → All (λ (x : Item). read_key db x.key ≡ some x.value) (candidates db.lsm db.btree)
read_key-candidates db f o v =
    All-concat (λ x. read_key db x.key ≡ some x.value) (live db.lsm.active.nodes) _
      (All-both (Reads db.lsm.active.nodes) (Reads db.lsm.active.nodes)
        (λ x. read_key db x.key ≡ some x.value) (λ x e e2. read_key-value db x.key x.value e)
        (live db.lsm.active.nodes) (get_lane-live db.lsm.active.nodes o)
        (get_lane-live db.lsm.active.nodes o))
      (unseen_found db (all_items db.btree.height db.btree.root) f (btree_get-all_items db.btree v))

-- A read finds what stands first among the items.
read_key-lookup :
    (db : Db) (q : Bytes)
    → db.lsm.flushing ≡ none
    → IsOrdered db.lsm.active.nodes
    → IsValid db.btree
    → read_key db q ≡ lookup q (candidates db.lsm db.btree)
read_key-lookup db q f o v =
    let nodes = db.lsm.active.nodes in
    let items = all_items db.btree.height db.btree.root in
    let parts = lookup-append q (live nodes) (unseen (keys_of (live nodes)) items) in
    let table = live-lookup q nodes o in
    let by_tree : lookup q (live nodes) ≡ none
        → btree_get q db.btree ≡ lookup q (candidates db.lsm db.btree) =
      λ m.
        btree_get-lookup db.btree q v
        ∙ (sym (lookup-unseen q (keys_of (live nodes)) items (has_key-lookup q (live nodes) m))
            ∙ (ap (λ a. first_of a (lookup q (unseen (keys_of (live nodes)) items))) (sym m)
                ∙ sym parts)) in
    elim (get_lane-Shape q nodes) [
      | inl e ↦ read_key-none db q f e ∙ by_tree (table ∙ ap live_value e)
      | inr (inl (w, e)) ↦ read_key-deleted db q w e ∙ by_tree (table ∙ ap live_value e)
      | inr (inr (w, e)) ↦
          read_key-value db q w e
          ∙ (ap (λ a. first_of a (lookup q (unseen (keys_of (live nodes)) items)))
                (sym (table ∙ ap live_value e))
              ∙ sym parts)
    ]

-- Where nothing is being flushed, the memtable's nodes are in order and the tree is valid, the scan of
-- `qb_exec` collects the rows that pass among those of certain items, the live nodes of the
-- memtable followed by the tree's items whose key is, byte for byte, that of no live node. Each of
-- these rows is the value that the read of `db_get` finds under the row's key; and for every key that
-- read finds the first of the items with it, none if there is none, so no row is missing.
pub qb_scan-read_key :
    (pass : Bytes → Option Bool) (db : Db) (q : Bytes)
    → db.lsm.flushing ≡ none
    → IsOrdered db.lsm.active.nodes
    → IsValid db.btree
    → (qb_scan pass db.lsm db.btree
        ≡ collected
            (keep pass (candidates db.lsm db.btree))
            (keys_of (live db.lsm.active.nodes))
            [])
      × All (λ (x : Item). read_key db x.key ≡ some x.value) (candidates db.lsm db.btree)
      × (read_key db q ≡ lookup q (candidates db.lsm db.btree))
qb_scan-read_key pass db q f o v = (
  qb_scan-candidates pass db.lsm db.btree f,
  read_key-candidates db f o v,
  read_key-lookup db q f o v,
)
