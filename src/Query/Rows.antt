-- ===== src/Query/Rows.antt =====
-- Which rows the scan of `qb_exec`, src/query/query_builder.c, collects, and how they stand to `db_get`.
use mathlib.Core.List.{append_assoc, append-nil}
use kanbudb.Prelude.{
  ◌≡◌, refl, sym, ap, ◌∙◌, inl, inr, Bool, true, false, Option, none, some, List, [], ◌∷◌, ◌++◌,
  length, ◌==◌, ◌&&◌, arith, map, if◌then◌else◌, Bool-cases, Option-cases, Bytes,
}
use kanbudb.Key.{memcmp, is_eq}
use kanbudb.Memtable.{SkipNode, memtable_iterate}
use kanbudb.Lsm.{Lsm}
use kanbudb.Btree.{Item, Btree}
use kanbudb.Btree.Cursor.{all_items}
use kanbudb.Query.Exec.{Scan, key_set_contains, add_row, lsm_scan_cb, scan_items, qb_scan}

-- The nodes without a deletion mark, as items.
abbrev pub live : List SkipNode → List Item
live [] = []
live (n ∷ nodes) =
    if n.deleted then live nodes else record { key = n.key; value = n.value } ∷ live nodes

abbrev pub keys_of : List Item → List Bytes
keys_of items = map (λ x. x.key) items

-- Whether two strings of bytes are the same, byte for byte, and whether a key is in a list.
abbrev pub same_bytes : Bytes → Bytes → Bool
same_bytes [] [] = true
same_bytes [] (y ∷ b) = false
same_bytes (x ∷ a) [] = false
same_bytes (x ∷ a) (y ∷ b) = if x == y then same_bytes a b else false

abbrev pub has_key : List Bytes → Bytes → Bool
has_key [] key = false
has_key (k ∷ keys) key = if same_bytes k key then true else has_key keys key

key_test-same_bytes :
    (k key : Bytes)
    → (length k == length key && is_eq (memcmp (length key) k key)) ≡ same_bytes k key
unfolding memcmp
key_test-same_bytes [] [] = refl
key_test-same_bytes [] (y ∷ b) = ground arith
key_test-same_bytes (x ∷ a) [] = ground arith
key_test-same_bytes (x ∷ a) (y ∷ b) = ground (arith, key_test-same_bytes a b)

pub key_set_contains-has_key :
    (keys : List Bytes) (key : Bytes) → key_set_contains keys key ≡ has_key keys key
unfolding key_set_contains
key_set_contains-has_key [] key = refl
key_set_contains-has_key (k ∷ keys) key =
    ground (arith, key_test-same_bytes k key, key_set_contains-has_key keys key)

-- The items whose key is not among these.
abbrev pub unseen : List Bytes → List Item → List Item
unseen keys [] = []
unseen keys (x ∷ items) = if has_key keys x.key then unseen keys items else x ∷ unseen keys items

-- What is scanned, where nothing is being flushed.
abbrev pub candidates : Lsm → Btree → List Item
candidates lsm bt =
    live lsm.active.nodes ++ unseen (keys_of (live lsm.active.nodes)) (all_items bt.height bt.root)

-- The values that pass, none at all after a read behind the end of a row.
abbrev pub keep : (Bytes → Option Bool) → List Item → Option (List Bytes)
keep pass [] = some []
keep pass (x ∷ items) = elim (pass x.value) [
  | none ↦ none
  | some p ↦ elim (keep pass items) [
    | none ↦ none
    | some rows ↦ some (if p then x.value ∷ rows else rows)
  ]
]

-- These rows behind the ones there are.
abbrev pub collected : Option (List Bytes) → List Bytes → List Bytes → Option Scan
collected none keys before = none
collected (some rows) keys before = some (record { seen_keys = keys; rows = before ++ rows })

module _ (pass : Bytes → Option Bool) where
  -- A callback that always returns OK is run on all nodes.
  iterate_on :
      (c : Option Scan) (n : SkipNode) (nodes : List SkipNode)
      → (memtable_iterate (lsm_scan_cb pass) c (n ∷ nodes)).0
        ≡ (memtable_iterate (lsm_scan_cb pass) (lsm_scan_cb pass c n).0 nodes).0
  unfolding memtable_iterate lsm_scan_cb
  iterate_on none n nodes = refl
  iterate_on (some c) n nodes = refl

  iterate_none : (nodes : List SkipNode) → (memtable_iterate (lsm_scan_cb pass) none nodes).0 ≡ none
  unfolding memtable_iterate lsm_scan_cb
  iterate_none [] = refl
  iterate_none (n ∷ nodes) = iterate_on none n nodes ∙ iterate_none nodes

  add_row-keep :
      (p : Bool) (v : Bytes) (before rows : List Bytes)
      → add_row p v before ++ rows ≡ before ++ (if p then v ∷ rows else rows)
  add_row-keep true v before rows = append_assoc before (v ∷ []) rows
  add_row-keep false v before rows = refl

  collected-add :
      (o : Option (List Bytes)) (p : Bool) (v k : Bytes) (keys ks before : List Bytes)
      → collected o ((keys ++ k ∷ []) ++ ks) (add_row p v before)
        ≡ collected
            (elim o [ none ↦ none | some rows ↦ some (if p then v ∷ rows else rows) ])
            (keys ++ k ∷ ks)
            before
  collected-add none p v k keys ks before = refl
  collected-add (some rows) p v k keys ks before =
      ap (λ t. some (record { seen_keys = t; rows = add_row p v before ++ rows }))
        (append_assoc keys (k ∷ []) ks)
      ∙ ap (λ r. some (record { seen_keys = keys ++ k ∷ ks; rows = r }))
          (add_row-keep p v before rows)

  iterate-keep :
      (nodes : List SkipNode) (keys before : List Bytes)
      → (memtable_iterate
          (lsm_scan_cb pass)
          (some (record { seen_keys = keys; rows = before }))
          nodes).0
        ≡ collected (keep pass (live nodes)) (keys ++ keys_of (live nodes)) before
  unfolding memtable_iterate lsm_scan_cb
  iterate-keep [] keys before =
      ap (λ k. some (record { seen_keys = k; rows = before })) (sym (append-nil keys))
      ∙ ap (λ r. some (record { seen_keys = keys ++ []; rows = r })) (sym (append-nil before))
  iterate-keep (n ∷ nodes) keys before =
      iterate_on (some (record { seen_keys = keys; rows = before })) n nodes
      ∙ elim (Bool-cases n.deleted) [
        | inl d ↦ rw d (iterate-keep nodes keys before)
        | inr d ↦ elim (Option-cases (pass n.value)) [
          | inl e ↦ rw d (rw e (iterate_none nodes))
          | inr (p, e) ↦ rw d (
              rw e (
                iterate-keep nodes (keys ++ n.key ∷ []) (add_row p n.value before)
                ∙ collected-add (keep pass (live nodes)) p n.value n.key keys (keys_of (live nodes))
                    before))
        ]
      ]

  rows-add :
      (o : Option (List Bytes)) (p : Bool) (v : Bytes) (keys before : List Bytes)
      → collected o keys (add_row p v before)
        ≡ collected
            (elim o [ none ↦ none | some rows ↦ some (if p then v ∷ rows else rows) ])
            keys
            before
  rows-add none p v keys before = refl
  rows-add (some rows) p v keys before =
      ap (λ r. some (record { seen_keys = keys; rows = r })) (add_row-keep p v before rows)

  scan_items-keep :
      (items : List Item) (keys before : List Bytes)
      → scan_items pass items (record { seen_keys = keys; rows = before })
        ≡ collected (keep pass (unseen keys items)) keys before
  unfolding scan_items
  scan_items-keep [] keys before =
      ap (λ r. some (record { seen_keys = keys; rows = r })) (sym (append-nil before))
  scan_items-keep (x ∷ items) keys before = elim (Bool-cases (has_key keys x.key)) [
    | inl d ↦ rw (key_set_contains-has_key keys x.key, d) (scan_items-keep items keys before)
    | inr d ↦ elim (Option-cases (pass x.value)) [
      | inl e ↦ rw (key_set_contains-has_key keys x.key, d) (rw e refl)
      | inr (p, e) ↦
          rw (key_set_contains-has_key keys x.key, d)
            (rw e (
              scan_items-keep items keys (add_row p x.value before)
              ∙ rows-add (keep pass (unseen keys items)) p x.value keys before))
    ]
  ]

  -- The two stages of the scan.
  abbrev second : Option Scan → List Item → Option Scan
  second c items = elim c [ none ↦ none | some c ↦ scan_items pass items c ]

  -- Two runs of rows, one after the other.
  abbrev joined : Option (List Bytes) → Option (List Bytes) → Option (List Bytes)
  joined none b = none
  joined (some rows) none = none
  joined (some rows) (some more) = some (rows ++ more)

  joined-add :
      (p : Bool) (v : Bytes) (a b : Option (List Bytes))
      → (elim (joined a b) [ none ↦ none | some rows ↦ some (if p then v ∷ rows else rows) ])
        ≡ joined (elim a [ none ↦ none | some rows ↦ some (if p then v ∷ rows else rows) ]) b
  joined-add p v none b = refl
  joined-add p v (some rows) none = refl
  joined-add true v (some rows) (some more) = refl
  joined-add false v (some rows) (some more) = refl

  joined_nil : (b : Option (List Bytes)) → b ≡ joined (some []) b
  joined_nil none = refl
  joined_nil (some more) = refl

  keep-append : (xs ys : List Item) → keep pass (xs ++ ys) ≡ joined (keep pass xs) (keep pass ys)
  keep-append [] ys = joined_nil (keep pass ys)
  keep-append (x ∷ xs) ys = elim (Option-cases (pass x.value)) [
    | inl e ↦ rw (e, keep) refl
    | inr (p, e) ↦
        rw (e, keep)
          (ap (λ o. elim o [ none ↦ none | some rows ↦ some (if p then x.value ∷ rows else rows) ])
              (keep-append xs ys)
            ∙ joined-add p x.value (keep pass xs) (keep pass ys))
  ]

  collected-joined :
      (b : Option (List Bytes)) (keys rows : List Bytes)
      → collected b keys rows ≡ collected (joined (some rows) b) keys []
  collected-joined none keys rows = refl
  collected-joined (some more) keys rows = refl

  second_rows :
      (a : Option (List Bytes)) (items : List Item) (keys : List Bytes)
      → second (collected a keys []) items
        ≡ collected (joined a (keep pass (unseen keys items))) keys []
  second_rows none items keys = refl
  second_rows (some rows) items keys =
      scan_items-keep items keys rows ∙ collected-joined (keep pass (unseen keys items)) keys rows

  second-keep :
      (xs items : List Item) (keys : List Bytes)
      → second (collected (keep pass xs) keys []) items
        ≡ collected (keep pass (xs ++ unseen keys items)) keys []
  second-keep xs items keys =
      second_rows (keep pass xs) items keys
      ∙ ap (λ o. collected o keys []) (sym (keep-append xs (unseen keys items)))

  -- Where nothing is being flushed, the scan of `qb_exec` collects the rows that pass among the values of
  -- the live nodes of the memtable, in their order, followed by those of the tree's items whose
  -- key no live node has.
  pub qb_scan-candidates :
      (lsm : Lsm) (bt : Btree)
      → lsm.flushing ≡ none
      → qb_scan pass lsm bt
        ≡ collected (keep pass (candidates lsm bt)) (keys_of (live lsm.active.nodes)) []
  unfolding qb_scan
  qb_scan-candidates lsm bt f = rw f (
      ap (λ c. second c (all_items bt.height bt.root)) (iterate-keep lsm.active.nodes [] [])
      ∙ second-keep (live lsm.active.nodes) (all_items bt.height bt.root)
          (keys_of (live lsm.active.nodes)))
