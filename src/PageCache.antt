-- ===== src/PageCache.antt =====
-- The cache of pages, src/util/page_cache.c. A pointer to a page is the page's id, since a page is created
-- only if there is none of its id; each chain of a slot is the list of its pages, and the ring of
-- the pages by their last use is the list of their ids. `malloc` is a parameter. The functions on a
-- page that the cache does not hold any more, which the code would reach by a dangling pointer, do nothing.
pub mod Reads
pub mod Chains
pub mod Bound
use kanbudb.Prelude.{
  ℕ, ◌+◌, ◌-◌, ◌%◌, ◌^◌, Bool, true, false, ◌&&◌, not, Option, none, some, List, [], ◌∷◌, ltb, ◌==◌,
  if◌then◌else◌, length, get_or, set, replicate, Bytes,
}
use kanbudb.Status.{Status}

-- `kanbudb_page_t`; the reference count is the 32 bits of an `int`.
pub record Page : Type 0 where
  pub id : ℕ
  pub bytes : Bytes
  pub refcount : ℕ
  pub dirty : Bool

-- `kanbudb_page_cache_t`
pub record PageCache : Type 0 where
  pub slots : List (List Page)
  pub capacity : ℕ
  pub count : ℕ
  pub lru : List ℕ
  pub hits : ℕ
  pub misses : ℕ

abbrev pub page_size : ℕ
page_size = 4096

-- `page_cache_init`; without pages the cache is refused.
unfoldable pub page_cache_init : ℕ → Option PageCache
page_cache_init max_pages =
    if max_pages == 0
    then none
    else some (record {
      slots = replicate max_pages [];
      capacity = max_pages;
      count = 0;
      lru = [];
      hits = 0;
      misses = 0;
    })

abbrev pub find_page : ℕ → List Page → Option Page
find_page id [] = none
find_page id (p ∷ chain) = if p.id == id then some p else find_page id chain

-- The chain of a slot with a change of the page of this id.
abbrev pub update_page : (Page → Page) → ℕ → List Page → List Page
update_page f id [] = []
update_page f id (p ∷ chain) = if p.id == id then f p ∷ chain else p ∷ update_page f id chain

abbrev pub unlink_page : ℕ → List Page → List Page
unlink_page id [] = []
unlink_page id (p ∷ chain) = if p.id == id then chain else p ∷ unlink_page id chain

abbrev pub lru_remove : ℕ → List ℕ → List ℕ
lru_remove id [] = []
lru_remove id (i ∷ lru) = if i == id then lru else i ∷ lru_remove id lru

abbrev pub lru_push_front : ℕ → List ℕ → List ℕ
lru_push_front id lru = id ∷ lru

abbrev pub slot_of : PageCache → ℕ → ℕ
slot_of pc id = id % pc.capacity

abbrev pub chain_of : PageCache → ℕ → List Page
chain_of pc id = get_or pc.slots (slot_of pc id) []

abbrev pub acquire : Page → Page
acquire p = record p { refcount = (p.refcount + 1) % 2 ^ 32 }

-- A page that is found moves to the front and is held once more.
abbrev pub hit : ℕ → PageCache → PageCache
hit id pc = record pc {
  slots = set pc.slots (slot_of pc id) (update_page acquire id (chain_of pc id));
  lru = lru_push_front id (lru_remove id pc.lru);
}

unfoldable pub page_cache_get : PageCache → ℕ → PageCache × Option Page
page_cache_get pc id = elim (find_page id (chain_of pc id)) [
  | none ↦ (record pc { misses = (pc.misses + 1) % 2 ^ 64 }, none)
  | some p ↦ (record (hit id pc) { hits = (pc.hits + 1) % 2 ^ 64 }, some (acquire p))
]

-- `refcount > 1`
abbrev pub pinned : PageCache → ℕ → Bool
pinned pc id = elim (find_page id (chain_of pc id)) [
  | none ↦ false
  | some p ↦ ltb 1 p.refcount && ltb p.refcount (2 ^ 31)
]

-- The page to evict: the least recently used one that is not pinned.
abbrev pub victim : PageCache → List ℕ → Option ℕ
victim pc [] = none
victim pc (id ∷ lru) = elim (victim pc lru) [
  | some v ↦ some v
  | none ↦ if pinned pc id then none else some id
]

abbrev pub evict : ℕ → PageCache → PageCache
evict id pc = record pc {
  slots = set pc.slots (slot_of pc id) (unlink_page id (chain_of pc id));
  lru = lru_remove id pc.lru;
  count = pc.count - 1;
}

-- A full cache evicts a page, if it can.
abbrev pub make_space : PageCache → Option PageCache
make_space pc =
    if ltb pc.count pc.capacity
    then some pc
    else elim (victim pc pc.lru) [ none ↦ none | some v ↦ some (evict v pc) ]

abbrev pub new_page : ℕ → Page
new_page id = record { id = id; bytes = replicate page_size 0; refcount = 1; dirty = false }

abbrev pub insert_page : ℕ → PageCache → PageCache
insert_page id pc = record pc {
  slots = set pc.slots (slot_of pc id) (new_page id ∷ chain_of pc id);
  lru = lru_push_front id pc.lru;
  count = pc.count + 1;
}

-- `page_cache_alloc`, with the success of `malloc`.
unfoldable pub page_cache_alloc : Bool → PageCache → ℕ → PageCache × Option Page
page_cache_alloc malloc pc id = elim (find_page id (chain_of pc id)) [
  | some p ↦ (hit id pc, some (acquire p))
  | none ↦ elim (make_space pc) [
    | none ↦ (pc, none)
    | some room ↦ if malloc then (insert_page id room, some (new_page id)) else (room, none)
  ]
]

unfoldable pub page_cache_release : PageCache → ℕ → PageCache
page_cache_release pc id =
    let release : Page → Page = λ p. record p { refcount = (p.refcount + (2 ^ 32 - 1)) % 2 ^ 32 } in
    record pc { slots = set pc.slots (slot_of pc id) (update_page release id (chain_of pc id)) }

unfoldable pub page_cache_mark_dirty : PageCache → ℕ → PageCache
page_cache_mark_dirty pc id =
    let mark : Page → Page = λ p. record p { dirty = true } in
    record pc { slots = set pc.slots (slot_of pc id) (update_page mark id (chain_of pc id)) }

module _ {ℓ} {S : Type ℓ} (write_fn : S → ℕ → Bytes → S) where
  abbrev pub flush_chain : S → List Page → S × List Page
  flush_chain s [] = (s, [])
  flush_chain s (p ∷ chain) =
      let s' : S = if p.dirty then write_fn s p.id p.bytes else s in
      let (end, rest) = flush_chain s' chain in (end, record p { dirty = false } ∷ rest)

  abbrev pub flush_slots : S → List (List Page) → S × List (List Page)
  flush_slots s [] = (s, [])
  flush_slots s (chain ∷ slots) =
      let (s1, chain1) = flush_chain s chain in
      let (end, rest) = flush_slots s1 slots in (end, chain1 ∷ rest)

  -- `page_cache_flush`, over the state of its callback.
  unfoldable pub page_cache_flush : S → PageCache → S × PageCache
  page_cache_flush s pc =
      let (end, slots) = flush_slots s pc.slots in (end, record pc { slots = slots })
