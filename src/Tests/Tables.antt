-- ===== src/Tests/Tables.antt =====
-- The theorems on keys, memtables and leaves, src/storage/lsm.c and src/storage/btree.c, at work on
-- small tables.
use kanbudb.Prelude.{
  ℕ, zero, suc, ◌<◌, ◌≡◌, refl, ◌≢◌, true, false, none, some, List, [], ◌∷◌, arith, All, Bytes,
}
use kanbudb.Status.{Status}
use kanbudb.Key.{memcmp, key_cmp, below}
use kanbudb.Key.Order.{lex, key_cmp-lex}
use kanbudb.Memtable.{SkipNode, Memtable, memtable_put, get_lane, memtable_get, memtable_is_full}
use kanbudb.Memtable.Order.{IsValid, memtable_put-IsValid}
use kanbudb.Lsm.{Lsm, lsm_put, lsm_delete, lsm_get}
use kanbudb.Lsm.View.{lsm_get-lsm_put, lsm_get-lsm_delete, lsm_put_drops}
use kanbudb.Btree.{Item, node_full}
use kanbudb.Btree.Laws.{IsAscending}

key_cmp-lex_example : key_cmp (7 ∷ 9 ∷ []) (7 ∷ []) ≡ lex (7 ∷ 9 ∷ []) (7 ∷ [])
key_cmp-lex_example = key_cmp-lex (7 ∷ 9 ∷ []) (7 ∷ [])

abbrev node_3 : SkipNode
node_3 = record { seq = 0; key = 3 ∷ []; value = 1 ∷ 2 ∷ []; deleted = false; level = 0 }

abbrev node_8 : SkipNode
node_8 = record { seq = 0; key = 8 ∷ []; value = 5 ∷ []; deleted = false; level = 1 }

abbrev table_2 : Memtable
table_2 = record { nodes = node_3 ∷ node_8 ∷ []; size_limit = 64; used = 93; level = 1 }

table_2-IsValid : IsValid table_2
unfolding below key_cmp memcmp
table_2-IsValid = record { ordered = ((refl, tt), (tt, tt)); sized = refl }

memtable_put-IsValid_example : IsValid (memtable_put false 2 0 (5 ∷ []) (4 ∷ []) table_2).0
memtable_put-IsValid_example =
    memtable_put-IsValid false 2 0 (5 ∷ []) (4 ∷ []) table_2 table_2-IsValid

eight-ne-three : ◌≢◌ {A = Bytes} (8 ∷ []) (3 ∷ [])
eight-ne-three h = cc h

-- A full memtable, with nothing being flushed, and with another one being flushed.
abbrev lsm_full : Lsm
lsm_full = record { memtable_size = 64; active = table_2; flushing = none; next_seq = 0 }

abbrev table_9 : Memtable
table_9 = record table_2 {
  nodes = record { seq = 0; key = 9 ∷ []; value = 6 ∷ []; deleted = false; level = 0 } ∷ [];
}

abbrev lsm_flushing : Lsm
lsm_flushing = record lsm_full { flushing = some table_9 }

nine-ne-three : ◌≢◌ {A = Bytes} (9 ∷ []) (3 ∷ [])
nine-ne-three h = cc h

lsm_get-lsm_put_example :
    ((lsm_put true 0 (3 ∷ []) (4 ∷ []) lsm_flushing).1 ≡ Status.ok)
    × (lsm_get (lsm_put true 0 (3 ∷ []) (4 ∷ []) lsm_flushing).0 (3 ∷ []) ≡ some (4 ∷ []))
lsm_get-lsm_put_example = lsm_get-lsm_put 0 (3 ∷ []) (4 ∷ []) lsm_flushing

lsm_get-lsm_delete_example :
    ((lsm_delete true 0 (3 ∷ []) lsm_full).1 ≡ Status.ok)
    × (lsm_get (lsm_delete true 0 (3 ∷ []) lsm_full).0 (3 ∷ []) ≡ none)
lsm_get-lsm_delete_example = lsm_get-lsm_delete 0 (3 ∷ []) lsm_full

nine_absent : memtable_get table_2 (9 ∷ []) ≡ (Status.not_found, none)
unfolding memtable_get get_lane key_cmp memcmp
nine_absent = refl

table_2_full : memtable_is_full table_2 ≡ true
unfolding memtable_is_full
table_2_full = refl

lsm_put_drops_example : lsm_get (lsm_put true 0 (3 ∷ []) (4 ∷ []) lsm_flushing).0 (9 ∷ []) ≡ none
lsm_put_drops_example =
    lsm_put_drops true 0 (3 ∷ []) (4 ∷ []) (9 ∷ []) lsm_flushing nine-ne-three table_2_full
      nine_absent

abbrev item : ℕ → Item
item n = record { key = n ∷ []; value = n ∷ [] }

abbrev leaf_2 : List Item
leaf_2 = item 3 ∷ item 8 ∷ []

leaf_2-IsAscending : IsAscending leaf_2
unfolding below key_cmp memcmp
leaf_2-IsAscending = ((refl, tt), (tt, tt))

-- The items n, n + 1, ... of this number.
abbrev items_from : ℕ → ℕ → List Item
items_from n zero = []
items_from n (suc count) = item n ∷ items_from (suc n) count

items_from-above :
    (m n count : ℕ)
    → m < n
    → All (λ (y : Item). below (item m).key y.key ≡ true) (items_from n count)
unfolding below key_cmp memcmp
items_from-above m n zero h = tt
items_from-above m n (suc count) h = (ground arith, items_from-above m (suc n) count (omega arith))

items_from-IsAscending : (n count : ℕ) → IsAscending (items_from n count)
items_from-IsAscending n zero = tt
items_from-IsAscending n (suc count) =
    (items_from-above n (suc n) count (omega arith), items_from-IsAscending (suc n) count)

abbrev leaf_16 : List Item
leaf_16 = items_from 0 16

leaf_16_full : node_full 0 leaf_16 ≡ true
unfolding node_full
leaf_16_full = refl
