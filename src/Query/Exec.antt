-- ===== src/Query/Exec.antt =====
-- The scan and the limit of `qb_exec`, src/query/query_builder.c.
use kanbudb.Prelude.{
  Bool, false, ◌&&◌, ◌||◌, Option, none, some, List, [], ◌∷◌, ◌++◌, ltb, ◌==◌, if◌then◌else◌,
  length, take, Bytes,
}
use kanbudb.Status.{Status}
use kanbudb.Key.{memcmp, is_eq}
use kanbudb.Memtable.{SkipNode, memtable_iterate}
use kanbudb.Lsm.{Lsm}
use kanbudb.Btree.{Item, Btree}
use kanbudb.Btree.Cursor.{all_items}
use kanbudb.Query.{QueryBuilder}

-- The keys that were seen in the memtables, and the rows of the result.
pub record Scan : Type 0 where
  pub seen_keys : List Bytes
  pub rows : List Bytes

-- `key_set_contains`
unfoldable pub key_set_contains : List Bytes → Bytes → Bool
key_set_contains [] key = false
key_set_contains (k ∷ keys) key =
    length k == length key && is_eq (memcmp (length key) k key) || key_set_contains keys key

-- `rs_add_row`, for a row that passes.
abbrev pub add_row : Bool → Bytes → List Bytes → List Bytes
add_row pass row rows = if pass then rows ++ row ∷ [] else rows

module _ (pass : Bytes → Option Bool) where
  -- `lsm_scan_cb`; `none`: a read behind the end of a row.
  unfoldable pub lsm_scan_cb : Option Scan → SkipNode → Option Scan × Status
  lsm_scan_cb none entry = (none, Status.ok)
  lsm_scan_cb (some c) entry = (
    if entry.deleted then some c else elim (pass entry.value) [
      | none ↦ none
      | some p ↦ some (record {
        seen_keys = c.seen_keys ++ entry.key ∷ [];
        rows = add_row p entry.value c.rows;
      })
    ],
    Status.ok,
  )

  -- The loop over the cursor, from its first item.
  unfoldable pub scan_items : List Item → Scan → Option Scan
  scan_items [] c = some c
  scan_items (kv ∷ items) c =
      if key_set_contains c.seen_keys kv.key then scan_items items c else elim (pass kv.value) [
        | none ↦ none
        | some p ↦ scan_items items (record c { rows = add_row p kv.value c.rows })
      ]

  -- The scan of both memtables and of the tree.
  unfoldable pub qb_scan : Lsm → Btree → Option Scan
  qb_scan lsm btree =
      let start : Option Scan = some (record { seen_keys = []; rows = [] }) in
      let s1 : Option Scan = (memtable_iterate lsm_scan_cb start lsm.active.nodes).0 in
      let s2 : Option Scan = elim lsm.flushing [
        | none ↦ s1
        | some mt ↦ (memtable_iterate lsm_scan_cb s1 mt.nodes).0
      ] in
      elim s2 [ none ↦ none | some c ↦ scan_items (all_items btree.height btree.root) c ]

-- The limit is applied.
unfoldable pub apply_limit : QueryBuilder → List Bytes → List Bytes
apply_limit qb rows =
    if qb.has_limit && ltb qb.limit (length rows) then take qb.limit rows else rows
