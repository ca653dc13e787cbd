-- ===== src/Tests/Pages.antt =====
-- The theorems on the page cache, src/util/page_cache.c, at a cache of one page.
use kanbudb.Prelude.{◌≡◌, ◌≤◌, refl, true, false, some, [], ◌∷◌, arith}
use kanbudb.PageCache.{PageCache, acquire, new_page, page_cache_get, page_cache_alloc}
use kanbudb.PageCache.Reads.{IsValid, page_cache_get-page_cache_alloc}
use kanbudb.PageCache.Chains.{pages}
use kanbudb.PageCache.Bound.{Counts, page_cache_alloc_bounded}

-- The cache is full: page 3 has to go for page 5.
abbrev full_cache : PageCache
full_cache = record {
  slots = (record { id = 3; bytes = 1 ∷ []; refcount = 1; dirty = false } ∷ []) ∷ [];
  capacity = 1;
  count = 1;
  lru = 3 ∷ [];
  hits = 0;
  misses = 0;
}

full_cache-IsValid : IsValid full_cache
full_cache-IsValid = record { positive = omega arith; all_slots = refl; bounded = omega arith }

full_cache-Counts : Counts full_cache
full_cache-Counts = record {
  valid = full_cache-IsValid;
  counted = refl;
  resident = ((_, refl), tt);
  distinct = (tt, tt);
}

page_cache_alloc_bounded_example :
    Counts (page_cache_alloc true full_cache 5).0
    × (pages (page_cache_alloc true full_cache 5).0.slots
        ≤ (page_cache_alloc true full_cache 5).0.capacity)
page_cache_alloc_bounded_example = page_cache_alloc_bounded true full_cache 5 full_cache-Counts

page_cache_get-page_cache_alloc_example :
    (page_cache_get (page_cache_alloc true full_cache 5).0 5).1 ≡ some (acquire (new_page 5))
unfolding page_cache_alloc
page_cache_get-page_cache_alloc_example =
    page_cache_get-page_cache_alloc true full_cache 5 (new_page 5) full_cache-IsValid refl
