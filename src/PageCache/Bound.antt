-- ===== src/PageCache/Bound.antt =====
-- How many pages the chains of the cache of src/util/page_cache.c hold.
use kanbudb.Prelude.{
  if◌then◌else◌, ℕ, ◌+◌, ◌-◌, ◌≤◌, ◌<◌, ◌≡◌, ◌≢◌, refl, sym, ap, subst, ◌∙◌, inl, inr, Bool, true,
  false, Option, none, some, List, [], ◌∷◌, arith, ltb, ltb→lt, ◌==◌, Bool-cases, Option-cases,
  length, All, get_or, set, get_or-set_ne,
}
use kanbudb.PageCache.{
  Page, PageCache, find_page, update_page, unlink_page, lru_remove, chain_of, slot_of, acquire, hit,
  victim, evict, make_space, new_page, insert_page, page_cache_alloc,
}
use kanbudb.PageCache.Reads.{IsValid, find_later, find_here, set-IsValid, slot_in, chain_of-set}
use kanbudb.PageCache.Chains.{
  pages, Distinct, pages-set, length-update_page, length-unlink_page, All-lru_remove,
  Distinct-lru_remove, same_number, lru_remove-gone, victim-All, Keeps, Keeps-update_page,
  Keeps-unlink_page, Keeps-cons,
}

-- A page of this id stands in its chain.
abbrev pub Resident : PageCache → ℕ → Type 0
Resident pc i = (p : Page) × (find_page i (chain_of pc i) ≡ some p)

-- The counter is the number of the pages, and the ring has the ids of pages that are there, once each.
pub record Counts (pc : PageCache) : Type 0 where
  pub valid : IsValid pc
  pub counted : pages pc.slots ≡ pc.count
  pub resident : All (Resident pc) pc.lru
  pub distinct : Distinct pc.lru

-- The cache with another chain in the slot of a page.
abbrev changed : PageCache → ℕ → List Page → List ℕ → ℕ → PageCache
changed pc i chain lru n = record pc {
  slots = set pc.slots (slot_of pc i) chain;
  lru = lru;
  count = n;
}

Resident-changed :
    (pc : PageCache) (i j n : ℕ) (chain : List Page) (lru : List ℕ)
    → IsValid pc
    → Keeps (chain_of pc i) chain j
    → Resident pc j
    → Resident (changed pc i chain lru n) j
unfolding Keeps
Resident-changed pc i j n chain lru v keeps r = elim (Bool-cases (slot_of pc j == slot_of pc i)) [
  | inl e ↦
      let slot = same_number (slot_of pc j) (slot_of pc i) e in
      let (q, k) = keeps r.0 (ap (λ s. find_page j (get_or pc.slots s [])) (sym slot) ∙ r.1) in
      (
        q,
        ap (λ s. find_page j (get_or (set pc.slots (slot_of pc i) chain) s [])) slot
            ∙ (ap (find_page j) (chain_of-set pc i chain v) ∙ k),
      )
  | inr e ↦
      let apart : slot_of pc i ≢ slot_of pc j = λ q. ground (arith, e, q) in
      (
        r.0,
        ap (find_page j) (get_or-set_ne pc.slots (slot_of pc i) (slot_of pc j) chain [] apart)
            ∙ r.1,
      )
]

All-map : (P Q : ℕ → Type 0) (xs : List ℕ) → ((i : ℕ) → P i → Q i) → All P xs → All Q xs
All-map P Q [] f a = tt
All-map P Q (x ∷ xs) f a = (f x a.0, All-map P Q xs f a.1)

All-both :
    (P Q R : ℕ → Type 0) (xs : List ℕ)
    → ((i : ℕ) → P i → Q i → R i)
    → All P xs
    → All Q xs
    → All R xs
All-both P Q R [] f a b = tt
All-both P Q R (x ∷ xs) f a b = (f x a.0 b.0, All-both P Q R xs f a.1 b.1)

pages-changed :
    (pc : PageCache) (i n : ℕ) (chain : List Page) (lru : List ℕ)
    → IsValid pc
    → pages (changed pc i chain lru n).slots + length (chain_of pc i)
      ≡ pages pc.slots + length chain
pages-changed pc i n chain lru v =
    pages-set pc.slots (slot_of pc i) chain
      (subst (λ m. slot_of pc i < m) (sym v.all_slots) (slot_in pc i v))

hit-Counts : (pc : PageCache) (i : ℕ) → Resident pc i → Counts pc → Counts (hit i pc)
hit-Counts pc i r c =
    let chain = update_page acquire i (chain_of pc i) in
    let lru = i ∷ lru_remove i pc.lru in
    let stays : (j : ℕ) → Resident pc j → Resident (hit i pc) j = λ j.
      Resident-changed pc i j pc.count chain lru c.valid (Keeps-update_page i j (chain_of pc i)) in
    record {
      valid = set-IsValid pc (slot_of pc i) pc.count lru chain c.valid c.valid.bounded;
      counted = omega (
        arith,
        pages-changed pc i pc.count chain lru c.valid,
        length-update_page acquire i (chain_of pc i),
        c.counted,
      );
      resident = (
        stays i r,
        All-map (Resident pc) (Resident (hit i pc)) (lru_remove i pc.lru) stays
            (All-lru_remove (Resident pc) i pc.lru c.resident),
      );
      distinct = (lru_remove-gone i pc.lru c.distinct, Distinct-lru_remove i pc.lru c.distinct);
    }

evict-Counts : (pc : PageCache) (i : ℕ) → Resident pc i → Counts pc → Counts (evict i pc)
evict-Counts pc i r c =
    let chain = unlink_page i (chain_of pc i) in
    let lru = lru_remove i pc.lru in
    let fewer = length-unlink_page i r.0 (chain_of pc i) r.1 in
    record {
      valid =
          set-IsValid pc (slot_of pc i) (pc.count - 1) lru chain c.valid
            (omega (arith, c.valid.bounded));
      counted =
          omega (arith, pages-changed pc i (pc.count - 1) chain lru c.valid, fewer, c.counted);
      resident =
          All-both (Resident pc) (λ j. (j == i) ≡ false) (Resident (evict i pc)) lru
            (λ j s n.
              Resident-changed pc i j (pc.count - 1) chain lru c.valid
                (Keeps-unlink_page i j (chain_of pc i) n) s)
            (All-lru_remove (Resident pc) i pc.lru c.resident)
            (lru_remove-gone i pc.lru c.distinct);
      distinct = Distinct-lru_remove i pc.lru c.distinct;
    }

Absent : PageCache → ℕ → Type 0
Absent pc i = find_page i (chain_of pc i) ≡ none

-- A page that is there is another than one that is not.
other_page : (pc : PageCache) (i j : ℕ) → Absent pc i → Resident pc j → (j == i) ≡ false
unfolding Absent
other_page pc i j absent r = elim (Bool-cases (j == i)) [
  | inr e ↦ e
  | inl e ↦
      let found = subst (λ k. find_page k (chain_of pc k) ≡ some r.0) (same_number j i e) r.1 in
      let clash = sym absent ∙ found in absurd cc
]

insert_page-Counts :
    (pc : PageCache) (i : ℕ)
    → Absent pc i
    → pc.count < pc.capacity
    → Counts pc
    → Counts (insert_page i pc)
unfolding Absent
insert_page-Counts pc i absent room c =
    let chain = new_page i ∷ chain_of pc i in
    let lru = i ∷ pc.lru in
    record {
      valid = set-IsValid pc (slot_of pc i) (pc.count + 1) lru chain c.valid (omega (arith, room));
      counted = omega (arith, pages-changed pc i (pc.count + 1) chain lru c.valid, c.counted);
      resident = (
        (
          new_page i,
          ap (find_page i) (chain_of-set pc i chain c.valid)
              ∙ find_here i (new_page i) (chain_of pc i) (ground arith),
        ),
        All-map (Resident pc) (Resident (insert_page i pc)) pc.lru
            (λ j.
              Resident-changed pc i j (pc.count + 1) chain lru c.valid
                (Keeps-cons (new_page i) j (chain_of pc i)))
            c.resident,
      );
      distinct = (
        All-map (Resident pc) (λ j. (j == i) ≡ false) pc.lru (λ j r. other_page pc i j absent r)
            c.resident,
        c.distinct,
      );
    }

-- What `make_space` leaves: a cache with room, without the page that was not there before.
RoomCounts : ℕ → Option PageCache → Type 0
RoomCounts i none = Unit
RoomCounts i (some r) = Counts r × (r.count < r.capacity) × Absent r i

find_page-unlink_page :
    (i j : ℕ) (chain : List Page)
    → find_page j chain ≡ none
    → find_page j (unlink_page i chain) ≡ none
find_page-unlink_page i j [] h = refl
find_page-unlink_page i j (x ∷ chain) h = elim (Bool-cases (x.id == j)) [
  | inl f ↦ let clash = sym (find_here j x chain f) ∙ h in absurd cc
  | inr f ↦
      let later = sym (find_later j x chain f) ∙ h in
      elim (Bool-cases (x.id == i)) [
        | inl e ↦ rw e later
        | inr e ↦ rw e (rw f (find_page-unlink_page i j chain later))
      ]
]

Absent-evict : (pc : PageCache) (v i : ℕ) → IsValid pc → Absent pc i → Absent (evict v pc) i
unfolding Absent
Absent-evict pc v i valid h = elim (Bool-cases (slot_of pc i == slot_of pc v)) [
  | inl e ↦
      let slot = same_number (slot_of pc i) (slot_of pc v) e in
      let chain = unlink_page v (chain_of pc v) in
      ap (λ s. find_page i (get_or (set pc.slots (slot_of pc v) chain) s [])) slot
      ∙ (ap (find_page i) (chain_of-set pc v chain valid)
          ∙ find_page-unlink_page v i (chain_of pc v)
              (ap (λ s. find_page i (get_or pc.slots s [])) (sym slot) ∙ h))
  | inr e ↦
      let apart : slot_of pc v ≢ slot_of pc i = λ q. ground (arith, e, q) in
      ap (find_page i) (get_or-set_ne pc.slots (slot_of pc v) (slot_of pc i) _ [] apart) ∙ h
]

make_space-RoomCounts :
    (pc : PageCache) (i : ℕ) → Counts pc → Absent pc i → RoomCounts i (make_space pc)
unfolding RoomCounts
make_space-RoomCounts pc i c absent = elim (Bool-cases (ltb pc.count pc.capacity)) [
  | inl e ↦ rw e (c, ltb→lt _ _ e, absent)
  | inr e ↦ elim (Option-cases (victim pc pc.lru)) [
    | inl u ↦ rw (e, u) tt
    | inr (v, u) ↦
        rw (e, u)
          (
            evict-Counts pc v (victim-All (Resident pc) pc pc.lru v c.resident u) c,
            omega (arith, c.valid.bounded, c.valid.positive),
            Absent-evict pc v i c.valid absent,
          )
  ]
]

inserted-Counts :
    (malloc : Bool) (pc : PageCache) (i : ℕ) (room : Option PageCache)
    → Counts pc
    → RoomCounts i room
    → Counts
        (elim room as (λ x. PageCache × Option Page) [
          | none ↦ (pc, none)
          | some r ↦ if malloc then (insert_page i r, some (new_page i)) else (r, none)
        ]).0
unfolding RoomCounts
inserted-Counts malloc pc i none c m = c
inserted-Counts false pc i (some r) c m = m.0
inserted-Counts true pc i (some r) c m = insert_page-Counts r i m.2 m.1 m.0

page_cache_alloc-Counts :
    (malloc : Bool) (pc : PageCache) (i : ℕ) → Counts pc → Counts (page_cache_alloc malloc pc i).0
unfolding page_cache_alloc Absent
page_cache_alloc-Counts malloc pc i c = elim (Option-cases (find_page i (chain_of pc i))) [
  | inl e ↦
      rw (e, page_cache_alloc)
        (inserted-Counts malloc pc i (make_space pc) c (make_space-RoomCounts pc i c e))
  | inr (p, e) ↦ rw (e, page_cache_alloc) (hit-Counts pc i (p, e) c)
]

-- Where the counter of a valid cache is the number of the pages in its chains, and its ring has the ids
-- of pages that are there, once each, all this holds again after `page_cache_alloc`, whether the page is found, a
-- page is evicted, none can be, or `malloc` fails; and the chains hold at most as many pages as the
-- capacity.
pub page_cache_alloc_bounded :
    (malloc : Bool) (pc : PageCache) (id : ℕ)
    → Counts pc
    → Counts (page_cache_alloc malloc pc id).0
      × (pages (page_cache_alloc malloc pc id).0.slots ≤ (page_cache_alloc malloc pc id).0.capacity)
page_cache_alloc_bounded malloc pc id c =
    let after = page_cache_alloc-Counts malloc pc id c in
    (after, omega (arith, after.counted, after.valid.bounded))
