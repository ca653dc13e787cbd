-- ===== src/Db/Load.antt =====
-- `sstable_load_cb` of src/core/db.c on all entries of a table: what the B+tree then answers.
use kanbudb.Prelude.{
  ◌≡◌, refl, sym, ap, subst, ◌∙◌, ◌≢◌, inl, inr, true, Option, none, some, List, [], ◌∷◌, arith,
  if◌then◌else◌, Bool-cases, All, Bytes,
}
use kanbudb.Status.{Status}
use kanbudb.Key.{key_cmp, is_eq, below}
use kanbudb.Key.Order.{below_refl, is_eq_iff}
use kanbudb.Btree.{Btree, btree_get, btree_delete}
use kanbudb.Btree.Laws.{AllKeys}
use kanbudb.Btree.Inner.{AllKeys-imp}
use kanbudb.Btree.InnerDelete.{level-Laws}
use kanbudb.Btree.Tree.{
  IsValid, IsNew, btree_put-PutLaws, btree_get-btree_put, IsNew-MissesMiddles,
  btree_get-btree_delete,
}
use kanbudb.Sstable.{SstEntry}
use kanbudb.Sstable.Reader.{Got, is_dead}
use kanbudb.Sstable.Data.{each, each_step}
use kanbudb.Sstable.Lookup.{Sorted, lookup, lookup_above}
use kanbudb.Db.{sstable_load_cb}

-- None of these entries has a key of the tree.
abbrev pub AllNew : List SstEntry → Btree → Type 0
AllNew es bt = AllKeys (λ x. All (λ (e : SstEntry). x ≢ e.key) es) bt.height bt.root

-- What a key reads when a table was loaded over an older answer.
abbrev pub over : Got → Option Bytes → Option Bytes
over Got.fault old = none
over Got.not_found old = old
over (Got.tombstone flag) old = none
over (Got.found flag v) old = some v

load_ok : (bt : Btree) (e : SstEntry) → (sstable_load_cb bt e).1 ≡ Status.ok
unfolding sstable_load_cb
load_ok bt e = elim (Bool-cases (is_dead e.flag)) [ inl d ↦ rw d refl | inr d ↦ rw d refl ]

load_step :
    (bt : Btree) (e : SstEntry) (es : List SstEntry)
    → each sstable_load_cb bt (e ∷ es) ≡ each sstable_load_cb (sstable_load_cb bt e).0 es
load_step bt e es =
    each_step sstable_load_cb bt (sstable_load_cb bt e).0 e es
      (ap (λ rc. ((sstable_load_cb bt e).0, rc)) (load_ok bt e))

-- What one entry does to the tree.
record Loaded (bt : Btree) (e : SstEntry) (bt' : Btree) : Type 1 where
  valid : IsValid bt'
  all : (P : Bytes → Type 0) → P e.key → AllKeys P bt.height bt.root → AllKeys P bt'.height bt'.root
  reads :
      (q : Bytes)
      → btree_get q bt' ≡ (
          if is_eq (key_cmp q e.key)
          then (if is_dead e.flag then none else some e.value)
          else btree_get q bt)

sstable_load_cb-Loaded :
    (bt : Btree) (e : SstEntry) → IsValid bt → IsNew e.key bt → Loaded bt e (sstable_load_cb bt e).0
unfolding sstable_load_cb
sstable_load_cb-Loaded bt e o n = elim (Bool-cases (is_dead e.flag)) [
  | inl d ↦
      let dl = (level-Laws bt.height).delete e.key bt.root o in
      rw d (record {
        valid = (btree_get-btree_delete e.key e.key bt o).0;
        all = λ P p a. unfold btree_delete in dl.all P a;
        reads = λ q. rw d (btree_get-btree_delete q e.key bt o).2;
      })
  | inr d ↦
      let m = IsNew-MissesMiddles e.key bt.height bt.root n in
      let l = btree_put-PutLaws e.key e.value bt o m in
      rw d (record {
        valid = l.valid;
        all = l.all;
        reads = λ q. rw d (btree_get-btree_put q e.key e.value bt o m);
      })
]

-- The entry at the front answers for its own key alone.
over_first :
    (q : Bytes) (e : SstEntry) (es : List SstEntry) (mid old : Option Bytes)
    → Sorted (e ∷ es)
    → mid
      ≡ (if is_eq (key_cmp q e.key) then (if is_dead e.flag then none else some e.value) else old)
    → over (lookup q es) mid ≡ over (lookup q (e ∷ es)) old
over_first q e es mid old s h = elim (Bool-cases (is_eq (key_cmp q e.key))) [
  | inr n ↦ rw (n, lookup) (ap (over (lookup q es)) (h ∙ rw n refl))
  | inl y ↦
      let gone : lookup q es ≡ Got.not_found = lookup_above q es (
        subst (λ k. All (λ (x : SstEntry). below k x.key ≡ true) es) (sym ((is_eq_iff q e.key).0 y))
          s.0) in
      rw (y, lookup)
        (rw gone (elim (Bool-cases (is_dead e.flag)) [
          | inl d ↦ rw d (h ∙ rw y (rw d refl))
          | inr d ↦ rw d (h ∙ rw y (rw d refl))
        ]))
]

sorted_ne :
    (k : Bytes) (es : List SstEntry)
    → All (λ (x : SstEntry). below k x.key ≡ true) es
    → All (λ (x : SstEntry). k ≢ x.key) es
sorted_ne k [] a = tt
sorted_ne k (e ∷ es) a = (λ h. ground (arith, h, a.0, below_refl k), sorted_ne k es a.1)

-- Entries in ascending order, loaded into a valid tree that has none of their keys.
pub load_entries :
    (q : Bytes) (es : List SstEntry) (bt : Btree)
    → IsValid bt
    → Sorted es
    → AllNew es bt
    → IsValid (each sstable_load_cb bt es).0
      × (btree_get q (each sstable_load_cb bt es).0 ≡ over (lookup q es) (btree_get q bt))
load_entries q [] bt o s n = (o, refl)
load_entries q (e ∷ es) bt o s n =
    let new : IsNew e.key bt =
      AllKeys-imp (λ x. All (λ (y : SstEntry). x ≢ y.key) (e ∷ es)) (λ x. x ≢ e.key) (λ x p. p.0)
        bt.height bt.root n in
    let later =
      AllKeys-imp (λ x. All (λ (y : SstEntry). x ≢ y.key) (e ∷ es))
        (λ x. All (λ (y : SstEntry). x ≢ y.key) es) (λ x p. p.1) bt.height bt.root n in
    let l = sstable_load_cb-Loaded bt e o new in
    let r =
      load_entries q es (sstable_load_cb bt e).0 l.valid s.1
        (l.all (λ x. All (λ (y : SstEntry). x ≢ y.key) es) (sorted_ne e.key es s.0) later) in
    rw (load_step bt e es) (r.0, r.1 ∙ over_first q e es _ _ s (l.reads q))

found_differs :
    (q x : Bytes) (es : List SstEntry)
    → lookup q es ≢ Got.not_found
    → All (λ (e : SstEntry). x ≢ e.key) es
    → x ≢ q
found_differs q x [] h a = absurd (h refl)
found_differs q x (e ∷ es) h a = elim (Bool-cases (is_eq (key_cmp q e.key))) [
  | inl y ↦ λ p. a.0 (p ∙ (is_eq_iff q e.key).0 y)
  | inr n ↦ found_differs q x es (λ z. h (rw (n, lookup) z)) a.1
]

-- A key that the table answers for is in no node of the tree.
pub lookup-IsNew :
    (q : Bytes) (es : List SstEntry) (bt : Btree)
    → lookup q es ≢ Got.not_found
    → AllNew es bt
    → IsNew q bt
lookup-IsNew q es bt h n =
    AllKeys-imp (λ x. All (λ (e : SstEntry). x ≢ e.key) es) (λ x. x ≢ q)
      (λ x a. found_differs q x es h a) bt.height bt.root n
