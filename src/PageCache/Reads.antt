-- ===== src/PageCache/Reads.antt =====
-- What `page_cache_get` of src/util/page_cache.c finds after `page_cache_alloc`.
use native.Mathlib.Nat.{mod-lt}
use kanbudb.Prelude.{
  if◌then◌else◌, ℕ, ◌+◌, ◌-◌, ◌≤◌, ◌<◌, ◌≡◌, refl, sym, ap, subst, ◌∙◌, inl, inr, Bool, true, false,
  Option, none, some, List, [], ◌∷◌, arith, ltb, ltb→lt, ◌==◌, Bool-cases, Option-cases, length,
  get_or, set, get_or-set_self, length-set,
}
use kanbudb.PageCache.{
  Page, PageCache, find_page, update_page, unlink_page, lru_remove, chain_of, slot_of, acquire, hit,
  page_cache_get, victim, make_space, new_page, insert_page, page_cache_alloc,
}

-- There is a slot for every id, and there are not more pages than slots.
pub record IsValid (pc : PageCache) : Type 0 where
  pub positive : 0 < pc.capacity
  pub all_slots : length pc.slots ≡ pc.capacity
  pub bounded : pc.count ≤ pc.capacity

abbrev acquired : Option Page → Option Page
acquired none = none
acquired (some p) = some (acquire p)

pub find_here :
    (id : ℕ) (p : Page) (chain : List Page)
    → (p.id == id) ≡ true
    → find_page id (p ∷ chain) ≡ some p
find_here id p chain e = rw e refl

pub find_later :
    (id : ℕ) (p : Page) (chain : List Page)
    → (p.id == id) ≡ false
    → find_page id (p ∷ chain) ≡ find_page id chain
find_later id p chain e = rw e refl

find_page-update_page :
    (id : ℕ) (chain : List Page)
    → find_page id (update_page acquire id chain) ≡ acquired (find_page id chain)
find_page-update_page id [] = refl
find_page-update_page id (x ∷ chain) = elim (Bool-cases (x.id == id)) [
  | inl e ↦
      let changed : update_page acquire id (x ∷ chain) ≡ acquire x ∷ chain = rw e refl in
      let here = find_here id x chain e in
      ap (find_page id) changed ∙ (find_here id (acquire x) chain e ∙ sym (ap acquired here))
  | inr e ↦
      let changed : update_page acquire id (x ∷ chain) ≡ x ∷ update_page acquire id chain =
        rw e refl in
      let later = find_later id x chain e in
      ap (find_page id) changed
      ∙ (find_later id x (update_page acquire id chain) e
          ∙ (find_page-update_page id chain ∙ sym (ap acquired later)))
]

pub slot_in : (pc : PageCache) (id : ℕ) → IsValid pc → slot_of pc id < pc.capacity
slot_in pc id v = mod-lt id v.positive

pub chain_of-set :
    (pc : PageCache) (id : ℕ) (chain : List Page)
    → IsValid pc
    → get_or (set pc.slots (slot_of pc id) chain) (slot_of pc id) [] ≡ chain
chain_of-set pc id chain v =
    get_or-set_self pc.slots (slot_of pc id) chain []
      (subst (λ n. slot_of pc id < n) (sym v.all_slots) (slot_in pc id v))

pub set-IsValid :
    (pc : PageCache) (i n : ℕ) (lru : List ℕ) (chain : List Page)
    → IsValid pc
    → n ≤ pc.capacity
    → IsValid (record pc { slots = set pc.slots i chain; lru = lru; count = n })
set-IsValid pc i n lru chain v b = record {
  positive = v.positive;
  all_slots = length-set pc.slots i chain ∙ v.all_slots;
  bounded = b;
}

-- After room was made there is room for a page.
abbrev Roomy : Option PageCache → Type 0
Roomy none = Unit
Roomy (some room) = IsValid room × (room.count < room.capacity)

make_space-Roomy : (pc : PageCache) → IsValid pc → Roomy (make_space pc)
make_space-Roomy pc v = elim (Bool-cases (ltb pc.count pc.capacity)) [
  | inl e ↦ rw e (v, ltb→lt _ _ e)
  | inr e ↦ elim (Option-cases (victim pc pc.lru)) [
    | inl u ↦ rw (e, u) tt
    | inr (i, u) ↦
        rw (e, u)
          (
            set-IsValid pc (slot_of pc i) (pc.count - 1) (lru_remove i pc.lru)
                (unlink_page i (chain_of pc i)) v (omega (arith, v.bounded)),
            omega (arith, v.bounded, v.positive),
          )
  ]
]

hit-IsValid : (pc : PageCache) (id : ℕ) → IsValid pc → IsValid (hit id pc)
hit-IsValid pc id v =
    set-IsValid pc (slot_of pc id) pc.count (id ∷ lru_remove id pc.lru)
      (update_page acquire id (chain_of pc id)) v v.bounded

insert_page-IsValid :
    (pc : PageCache) (id : ℕ) → IsValid pc → pc.count < pc.capacity → IsValid (insert_page id pc)
insert_page-IsValid pc id v b =
    set-IsValid pc (slot_of pc id) (pc.count + 1) (id ∷ pc.lru) (new_page id ∷ chain_of pc id) v
      (omega (arith, b))

-- What holds of an answer: the cache is valid, and a page that is handed out is in its chain.
record Answers (id : ℕ) (r : PageCache × Option Page) : Type 0 where
  valid : IsValid r.0
  kept : (p : Page) → r.1 ≡ some p → find_page id (chain_of r.0 id) ≡ some p

hit-Answers :
    (pc : PageCache) (id : ℕ) (p : Page)
    → IsValid pc
    → find_page id (chain_of pc id) ≡ some p
    → Answers id (hit id pc, some (acquire p))
hit-Answers pc id p v h = record {
  valid = hit-IsValid pc id v;
  kept = λ q e.
      ap (find_page id) (chain_of-set pc id (update_page acquire id (chain_of pc id)) v)
      ∙ (find_page-update_page id (chain_of pc id) ∙ (ap acquired h ∙ e));
}

room_for :
    (malloc : Bool) (pc : PageCache) (id : ℕ) (room : Option PageCache)
    → IsValid pc
    → Roomy room
    → Answers id (elim room [
      | none ↦ (pc, none)
      | some r ↦ if malloc then (insert_page id r, some (new_page id)) else (r, none)
    ])
room_for malloc pc id none v m = record { valid = v; kept = λ p e. cc }
room_for false pc id (some r) v m = record { valid = m.0; kept = λ p e. cc }
room_for true pc id (some r) v m = record {
  valid = insert_page-IsValid r id m.0 m.1;
  kept = λ p e.
      ap (find_page id) (chain_of-set r id (new_page id ∷ chain_of r id) m.0)
      ∙ (find_here id (new_page id) (chain_of r id) (ground arith) ∙ e);
}

page_cache_alloc-Answers :
    (malloc : Bool) (pc : PageCache) (id : ℕ)
    → IsValid pc
    → Answers id (page_cache_alloc malloc pc id)
unfolding page_cache_alloc
page_cache_alloc-Answers malloc pc id v = elim (Option-cases (find_page id (chain_of pc id))) [
  | inl e ↦
      rw (e, page_cache_alloc) (room_for malloc pc id (make_space pc) v (make_space-Roomy pc v))
  | inr (p, e) ↦ rw (e, page_cache_alloc) (hit-Answers pc id p v e)
]

-- A valid cache stays valid in `page_cache_alloc`.
page_cache_alloc-IsValid :
    (malloc : Bool) (pc : PageCache) (id : ℕ)
    → IsValid pc
    → IsValid (page_cache_alloc malloc pc id).0
page_cache_alloc-IsValid malloc pc id v = (page_cache_alloc-Answers malloc pc id v).valid

-- If `page_cache_alloc` on a valid cache hands out a page, `page_cache_get` finds the same page afterwards and
-- counts one more reference to it.
pub page_cache_get-page_cache_alloc :
    (malloc : Bool) (pc : PageCache) (id : ℕ) (p : Page)
    → IsValid pc
    → (page_cache_alloc malloc pc id).1 ≡ some p
    → (page_cache_get (page_cache_alloc malloc pc id).0 id).1 ≡ some (acquire p)
unfolding page_cache_get
page_cache_get-page_cache_alloc malloc pc id p v h =
    let e = (page_cache_alloc-Answers malloc pc id v).kept p h in rw (e, page_cache_get) refl
