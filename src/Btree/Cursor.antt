-- ===== src/Btree/Cursor.antt =====
-- The cursor of the B+tree, src/storage/btree.c. A position after the last item, `hi + 1`, stands for
-- the code's `hi`, which may be -1. Allocations are taken to succeed.
pub mod Seek
use Prim.Native.Nat.{Ordering}
use mathlib.Core.Option
use kanbudb.Prelude.{
  ℕ, zero, suc, ◌+◌, ◌-◌, ◌/◌, Option, none, some, List, [], ◌++◌, ltb, if◌then◌else◌, length,
  get_elem?, get_or, Bytes,
}
use kanbudb.Status.{Status}
use kanbudb.Key.{key_cmp}
use kanbudb.Btree.{Item, Kids, Node, Btree, only, more}
use kanbudb.Btree.Laws.{IsAscending}

-- The walk along the chain of leaves, from the leftmost one.
module _ {C : Type 0} where
  abbrev pub kids_items : (C → List Item) → Kids C → List Item
  kids_items items (only c) = items c
  kids_items items (more c k rest) = items c ++ kids_items items rest

abbrev pub all_items : (h : ℕ) → Node h → List Item
all_items zero items = items
all_items (suc h) kids = kids_items (all_items h) kids

pub record Cursor : Type 0 where
  pub items : List Item
  pub pos : ℕ

unfoldable pub btree_cursor_create : Btree → Cursor
btree_cursor_create bt = record { items = all_items bt.height bt.root; pos = 0 }

abbrev pub item_key : List Item → ℕ → Bytes
item_key items i = (get_or items i (record { key = []; value = [] })).key

-- The binary search of `btree_cursor_seek` between `lo` and `hi + 1`. `none` means that the fuel ran
-- out.
unfoldable pub seek_loop : ℕ → ℕ → ℕ → Bytes → List Item → Option ℕ
seek_loop zero lo top key items = none
seek_loop (suc fuel) lo top key items =
    let mid = (lo + (top - 1)) / 2 in
    let left = seek_loop fuel lo mid key items in
    let right = seek_loop fuel (mid + 1) top key items in
    if ltb lo top
    then elim (key_cmp key (item_key items mid)) [
      | Ordering.eq ↦ some mid
      | Ordering.lt ↦ left
      | Ordering.gt ↦ right
    ]
    else some lo

unfoldable pub btree_cursor_seek : Cursor → Option Bytes → Option Cursor
btree_cursor_seek cur none = some (record cur { pos = 0 })
btree_cursor_seek cur (some key) =
    Option.map (λ p. record cur { pos = p })
      (seek_loop (suc (length cur.items)) 0 (length cur.items) key cur.items)

unfoldable pub btree_cursor_next : Cursor → Cursor × Status × Option Item
btree_cursor_next cur = elim (get_elem? cur.items cur.pos) [
  | none ↦ (cur, Status.not_found, none)
  | some it ↦ (record cur { pos = cur.pos + 1 }, Status.ok, some it)
]
