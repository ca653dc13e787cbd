-- ===== src/Sstable/Get.antt =====
-- A sorted string table of src/storage/sstable.c from the writer to the point lookup of the reader.
use mathlib.Core.List.{append_assoc}
use kanbudb.Prelude.{
  ℕ, zero, suc, ◌-◌, ◌*◌, ◌%◌, ◌^◌, ◌≤◌, ◌<◌, ◌≡◌, refl, sym, ap, subst, ◌∙◌, ◌⊎◌, inl, inr, true,
  List, [], ◌∷◌, ◌++◌, arith, ltb, Bool-cases, ltb→lt, ltb-false, length, drop, All, length-append,
  length-drop, drop-append, Bytes,
}
use kanbudb.Key.{below}
use kanbudb.Key.Order.{below_trans}
use kanbudb.Sstable.{SstEntry, header_size, sparse_interval}
use kanbudb.Sstable.Reader.{IdxEntry, get_loop, scan_limit}
use kanbudb.Sstable.Data.{Fits, data_bytes}
use kanbudb.Sstable.Index.{rows}
use kanbudb.Sstable.Rows.{length-rows_enough, data_bytes-append, RowAt, rows-RowAt}
use kanbudb.Sstable.Lookup.{
  Sorted, lookup, lookup-append_below, Covers, Covers-length, Covers-append, get_loop-lookup,
}
use kanbudb.Sstable.LowerBound.{Left, Right}
use kanbudb.Sstable.Scan.{Storable}

All-append :
    (P : SstEntry → Type 0) (xs ys : List SstEntry) → All P (xs ++ ys) → All P xs × All P ys
All-append P [] ys a = (tt, a)
All-append P (x ∷ xs) ys a = let (l, r) = All-append P xs ys a.1 in ((a.0, l), r)

Sorted-append :
    (key : Bytes) (pre : List SstEntry) (e : SstEntry) (post : List SstEntry)
    → Sorted (pre ++ e ∷ post)
    → Sorted (e ∷ post)
      × (below e.key key ≡ true → All (λ (x : SstEntry). below x.key key ≡ true) pre)
Sorted-append key [] e post s = (s, λ b. tt)
Sorted-append key (x ∷ pre) e post s =
    let (t, f) = Sorted-append key pre e post s.1 in
    let l = (All-append (λ (y : SstEntry). below x.key y.key ≡ true) pre (e ∷ post) s.0).1 in
    (t, λ b. (below_trans x.key e.key key l.0 b, f b))

drop-append_le :
    (n : ℕ) (xs ys : List SstEntry) → n ≤ length xs → drop n (xs ++ ys) ≡ drop n xs ++ ys
drop-append_le zero xs ys h = refl
drop-append_le (suc n) [] ys h = absurd (omega arith)
drop-append_le (suc n) (x ∷ xs) ys h = drop-append_le n xs ys (omega arith)

All-empty : (P : SstEntry → Type 0) (xs : List SstEntry) → length xs ≡ 0 → All P xs
All-empty P [] h = tt
All-empty P (x ∷ xs) h = absurd (omega (arith, h))

-- A later place in the same entries.
split_later :
    (pre pre' ys zs : List SstEntry)
    → pre ++ ys ≡ pre' ++ zs
    → length pre ≤ length pre'
    → ys ≡ drop (length pre) pre' ++ zs
split_later pre pre' ys zs h l =
    sym (drop-append pre ys) ∙ (ap (drop (length pre)) h ∙ drop-append_le (length pre) pre' zs l)

-- The scan from an entry on, where all before it are below the key.
get_from :
    (count : ℕ) (key : Bytes) (pre : List SstEntry) (e : SstEntry) (post : List SstEntry)
    (rest : Bytes)
    → All Fits (pre ++ e ∷ post)
    → Sorted (pre ++ e ∷ post)
    → All (λ (x : SstEntry). below x.key key ≡ true) pre
    → Covers count key (e ∷ post)
    → count ≤ length (e ∷ post)
    → get_loop count key (drop (length (data_bytes pre)) (data_bytes (pre ++ e ∷ post) ++ rest))
      ≡ lookup key (pre ++ e ∷ post)
get_from count key pre e post rest f s a c n =
    let from : Bytes = data_bytes (e ∷ post) ++ rest in
    let d : drop (length (data_bytes pre)) (data_bytes (pre ++ e ∷ post) ++ rest) ≡ from =
      ap (λ t. drop (length (data_bytes pre)) (t ++ rest)) (data_bytes-append pre (e ∷ post))
      ∙ (ap (drop (length (data_bytes pre)))
            (append_assoc (data_bytes pre) (data_bytes (e ∷ post)) rest)
          ∙ drop-append (data_bytes pre) from) in
    ap (get_loop count key) d
    ∙ (get_loop-lookup count key (e ∷ post) rest (All-append Fits pre (e ∷ post) f).1
          (Sorted-append key pre e post s).0 c n
        ∙ sym (lookup-append_below key pre (e ∷ post) a))

module _ (key : Bytes) (es : List SstEntry) (st : Storable es) (s : Sorted es) (rest : Bytes) where
  abbrev pub table_rows : List IdxEntry
  table_rows = rows 0 header_size es

  -- The scan that starts at row `q`.
  get_at_row :
      (count q : ℕ) (r : RowAt 0 header_size es q)
      → All (λ (x : SstEntry). below x.key key ≡ true) r.pre
      → Covers count key (r.entry ∷ r.post)
      → count ≤ length es - sparse_interval * q
      → get_loop count key (drop (length (data_bytes r.pre)) (data_bytes es ++ rest))
        ≡ lookup key es
  get_at_row count q r a c n =
      let size = ap length r.whole in
      let len = length-append r.pre (r.entry ∷ r.post) in
      rw r.whole (
        get_from count key r.pre r.entry r.post rest (subst (All Fits) r.whole st.fits)
          (subst Sorted r.whole s) a c (omega (arith, n, size, len, r.place)))

  -- The entries that are scanned from the last row below the key cover it.
  row-Covers :
      (count q : ℕ) (r : RowAt 0 header_size es q)
      → q < length table_rows
      → sparse_interval < count ⊎ length es - sparse_interval * q ≤ count
      → Right key table_rows (suc q)
      → Covers count key (r.entry ∷ r.post)
  row-Covers count q r h n right = elim (Bool-cases (ltb (suc q) (length table_rows))) [
    | inr last ↦
        let size = ap length r.whole in
        let len = length-append r.pre (r.entry ∷ r.post) in
        let all = length-rows_enough 0 header_size es (omega arith) in
        Covers-length count key (r.entry ∷ r.post) (
          ground (arith, n, size, len, r.place, all, ltb-false (suc q) (length table_rows) last, h))
    | inl more ↦
        let r' = rows-RowAt 0 header_size es (suc q) (omega arith) (ltb→lt _ _ more) in
        let mid = drop (length r.pre) r'.pre in
        let e =
          split_later r.pre r'.pre (r.entry ∷ r.post) (r'.entry ∷ r'.post) (sym r.whole ∙ r'.whole)
            (omega (arith, r.place, r'.place)) in
        let reach : length mid < count = omega (
          arith,
          n,
          r.place,
          r'.place,
          length-drop (length r.pre) r'.pre,
          ap length r'.whole,
          length-append r'.pre (r'.entry ∷ r'.post),
        ) in
        subst (Covers count key) (sym e) (
          Covers-append count key mid r'.entry r'.post reach
            (rw (← ap IdxEntry.key r'.row) (right (suc q) (omega arith) (ltb→lt _ _ more))))
  ]

  -- How many entries are scanned from row `q` on.
  abbrev pub scan_count : ℕ → ℕ
  scan_count q =
      scan_limit (q * sparse_interval % 2 ^ 32) (length es) - q * sparse_interval % 2 ^ 32

  scan_count-range :
      (q : ℕ)
      → sparse_interval * q < length es
      → (0 < scan_count q)
        × (scan_count q ≤ length es - sparse_interval * q)
        × (sparse_interval < scan_count q ⊎ length es - sparse_interval * q ≤ scan_count q)
  scan_count-range q h =
      let few = st.few in (ground (arith, few), ground (arith, few), ground (arith, few))

  pub get_at_bound :
      (idx_pos q : ℕ) (r : RowAt 0 header_size es q)
      → q ≡ idx_pos - 1
      → q < length table_rows
      → Left key table_rows idx_pos
      → Right key table_rows idx_pos
      → get_loop (scan_count q) key (drop (length (data_bytes r.pre)) (data_bytes es ++ rest))
        ≡ lookup key es
  get_at_bound zero q r e l left right =
      let range =
        scan_count-range q
          (omega (arith, r.place, ap length r.whole, length-append r.pre (r.entry ∷ r.post))) in
      get_at_row (scan_count q) q r
        (All-empty (λ x. below x.key key ≡ true) r.pre (omega (arith, r.place, e)))
        (Covers-append (scan_count q) key [] r.entry r.post range.0
          (rw (← ap IdxEntry.key r.row) (right q (omega arith) l)))
        range.1
  get_at_bound (suc p) q r e l left right =
      let range =
        scan_count-range q
          (omega (arith, r.place, ap length r.whole, length-append r.pre (r.entry ∷ r.post))) in
      let lower : below r.entry.key key ≡ true =
        rw (← ap IdxEntry.key r.row) (left q (omega (arith, e))) in
      get_at_row (scan_count q) q r
        ((Sorted-append key r.pre r.entry r.post (subst Sorted r.whole s)).1 lower)
        (row-Covers (scan_count q) q r l range.2 (λ j g h. right j (omega (arith, e, g)) h)) range.1
