-- ===== src/Query/Found.antt =====
-- The items that the scan of `qb_exec`, src/query/query_builder.c, runs over, as a lookup table of a read.
use Prim.Native.Nat.{Ordering}
use kanbudb.Prelude.{
  ◌≡◌, refl, sym, ap, subst, ◌∙◌, inl, inr, Bool, true, false, Option, none, some, List, [], ◌∷◌,
  arith, Bool-cases, All, Bytes, if◌then◌else◌,
}
use kanbudb.Status.{Status}
use kanbudb.Key.{key_cmp, is_eq}
use kanbudb.Key.Order.{is_eq_iff, key_cmp_eq}
use kanbudb.Memtable.{SkipNode, get_lane}
use kanbudb.Memtable.Order.{Above, Above-trans, IsOrdered}
use kanbudb.Btree.{Item}
use kanbudb.Btree.Leaf.{lookup}
use kanbudb.Query.Rows.{same_bytes, has_key, live, keys_of, unseen}

pub live-All :
    (P : Bytes → Type 0) (nodes : List SkipNode)
    → All (λ (n : SkipNode). P n.key) nodes
    → All (λ (x : Item). P x.key) (live nodes)
live-All P [] a = tt
live-All P (n ∷ nodes) a = elim (Bool-cases n.deleted) [
  | inl d ↦ rw d (live-All P nodes a.1)
  | inr d ↦ rw d (a.0, live-All P nodes a.1)
]

pub live_deleted :
    (n : SkipNode) (nodes : List SkipNode) → n.deleted ≡ true → live (n ∷ nodes) ≡ live nodes
live_deleted n nodes d = rw d refl

pub live_kept :
    (n : SkipNode) (nodes : List SkipNode)
    → n.deleted ≡ false
    → live (n ∷ nodes) ≡ record { key = n.key; value = n.value } ∷ live nodes
live_kept n nodes d = rw d refl

-- What the walk answers for a live node, and for none.
abbrev pub live_value : Status × Option (Bytes × Bool) → Option Bytes
live_value (rc, none) = none
live_value (rc, some (v, dead)) = if dead then none else some v

-- A key before all others is not found.
lookup-before :
    (q : Bytes) (xs : List Item)
    → All (λ (x : Item). key_cmp q x.key ≡ Ordering.lt) xs
    → lookup q xs ≡ none
lookup-before q [] a = refl
lookup-before q (x ∷ xs) a = rw (a.0, lookup) (lookup-before q xs a.1)

lookup-live_before :
    (q : Bytes) (nodes : List SkipNode) → Above q nodes → lookup q (live nodes) ≡ none
lookup-live_before q nodes a =
    lookup-before q (live nodes) (live-All (λ k. key_cmp q k ≡ Ordering.lt) nodes a)

live-lookup_node :
    (q : Bytes) (n : SkipNode) (nodes : List SkipNode) (c : Ordering)
    → key_cmp q n.key ≡ c
    → IsOrdered (n ∷ nodes)
    → lookup q (live nodes) ≡ live_value (get_lane q nodes)
    → lookup q (live (n ∷ nodes)) ≡ live_value (get_lane q (n ∷ nodes))
unfolding get_lane
live-lookup_node q n nodes Ordering.lt h o ih =
    let got : get_lane q (n ∷ nodes) ≡ (Status.not_found, none) = rw (h, get_lane) refl in
    let miss =
      lookup-live_before q nodes (Above-trans q n.key nodes h o.0) ∙ ap live_value (sym got) in
    let first : lookup q (record { key = n.key; value = n.value } ∷ live nodes)
        ≡ lookup q (live nodes) =
      rw (h, lookup) refl in
    elim (Bool-cases n.deleted) [
      | inl d ↦ ap (lookup q) (live_deleted n nodes d) ∙ miss
      | inr d ↦ ap (lookup q) (live_kept n nodes d) ∙ (first ∙ miss)
    ]
live-lookup_node q n nodes Ordering.eq h o ih =
    let same : n.key ≡ q = sym (key_cmp_eq q n.key h) in
    let miss = lookup-live_before q nodes (subst (λ k. Above k nodes) same o.0) in
    let got : get_lane q (n ∷ nodes)
        ≡ (if n.deleted then Status.not_found else Status.ok, some (n.value, n.deleted)) =
      rw (h, get_lane) refl in
    let answer : live_value (get_lane q (n ∷ nodes)) ≡ (if n.deleted then none else some n.value) =
      ap live_value got in
    let first : lookup q (record { key = n.key; value = n.value } ∷ live nodes) ≡ some n.value =
      rw (h, lookup) refl in
    let by : Bool → Option Bytes = λ b. if b then none else some n.value in
    elim (Bool-cases n.deleted) [
      | inl d ↦ ap (lookup q) (live_deleted n nodes d) ∙ (miss ∙ sym (answer ∙ ap by d))
      | inr d ↦ ap (lookup q) (live_kept n nodes d) ∙ (first ∙ sym (answer ∙ ap by d))
    ]
live-lookup_node q n nodes Ordering.gt h o ih =
    let got : get_lane q (n ∷ nodes) ≡ get_lane q nodes = rw (h, get_lane) refl in
    let table = ih ∙ ap live_value (sym got) in
    let first : lookup q (record { key = n.key; value = n.value } ∷ live nodes)
        ≡ lookup q (live nodes) =
      rw (h, lookup) refl in
    elim (Bool-cases n.deleted) [
      | inl d ↦ ap (lookup q) (live_deleted n nodes d) ∙ table
      | inr d ↦ ap (lookup q) (live_kept n nodes d) ∙ (first ∙ table)
    ]

-- The live nodes are the table that the walk over the memtable reads.
pub live-lookup :
    (q : Bytes) (nodes : List SkipNode)
    → IsOrdered nodes
    → lookup q (live nodes) ≡ live_value (get_lane q nodes)
unfolding get_lane
live-lookup q [] o = refl
live-lookup q (n ∷ nodes) o =
    live-lookup_node q n nodes (key_cmp q n.key) refl o (live-lookup q nodes o.1)

same_bytes_eq : (a b : Bytes) → same_bytes a b ≡ true → a ≡ b
same_bytes_eq [] [] h = refl
same_bytes_eq [] (y ∷ b) h = absurd cc
same_bytes_eq (x ∷ a) [] h = absurd cc
same_bytes_eq (x ∷ a) (y ∷ b) h = ground (arith, h, same_bytes_eq a b)

pub has_key-lookup :
    (q : Bytes) (xs : List Item) → lookup q xs ≡ none → has_key (keys_of xs) q ≡ false
has_key-lookup q [] h = refl
has_key-lookup q (x ∷ xs) h =
    ground (arith, h, has_key-lookup q xs, same_bytes_eq x.key q, (is_eq_iff q x.key).1)

pub lookup-unseen :
    (q : Bytes) (keys : List Bytes) (xs : List Item)
    → has_key keys q ≡ false
    → lookup q (unseen keys xs) ≡ lookup q xs
lookup-unseen q keys [] h = refl
lookup-unseen q keys (x ∷ xs) h = elim (Bool-cases (has_key keys x.key)) [
  | inr u ↦
      rw u
        (ap (λ r. if is_eq (key_cmp q x.key) then some x.value else r) (lookup-unseen q keys xs h))
  | inl s ↦ elim (Bool-cases (is_eq (key_cmp q x.key))) [
    | inl e ↦ let same = ap (has_key keys) ((is_eq_iff q x.key).0 e) in absurd cc
    | inr e ↦ rw s (rw e (lookup-unseen q keys xs h))
  ]
]
