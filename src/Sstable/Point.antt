-- ===== src/Sstable/Point.antt =====
-- `sstable_reader_get` of src/storage/sstable.c on a table that the writer left.
use kanbudb.Prelude.{
  ℕ, ◌-◌, ◌%◌, ◌^◌, ◌≤◌, ◌<◌, ◌≡◌, refl, sym, ap, ◌∙◌, inl, inr, true, false, Option, none, some,
  List, [], ◌∷◌, ◌++◌, arith, Bool-cases, lt→ltb, length, get_or, drop, All, Bytes,
}
use kanbudb.Key.{key_cmp, is_eq}
use kanbudb.Key.Order.{is_eq_iff}
use kanbudb.Bloom.{Bloom, bloom_maybe, IsValid}
use kanbudb.Sstable.{SstEntry, header_size, Writer, sstable_writer_create, sstable_writer_finish}
use kanbudb.Sstable.Reader.{
  IdxEntry, Reader, Opened, sstable_reader_open, lower_bound_loop, index_lower_bound, Got, get_loop,
  filtered, scan_start, scan_limit, sstable_reader_get,
}
use kanbudb.Sstable.Data.{data_bytes}
use kanbudb.Sstable.Index.{rows, add_all}
use kanbudb.Sstable.Open.{Filled, behind_data, drop-header, reader_of, sstable_reader_open-finish}
use kanbudb.Sstable.Filter.{Knows, Knows-add_all, load_bloom-finish}
use kanbudb.Sstable.Rows.{rows-SortedRows, rows-RowAt}
use kanbudb.Sstable.Lookup.{Sorted, lookup}
use kanbudb.Sstable.LowerBound.{Left, Right, index_lower_bound-Found}
use kanbudb.Sstable.Scan.{Storable, full_writer, full_writer-Filled}
use kanbudb.Sstable.Get.{get_at_bound}

-- A key that the filter does not know is in no entry.
filtered-lookup :
    (bf : Bloom) (key : Bytes) (es : List SstEntry)
    → All (λ (e : SstEntry). bloom_maybe bf e.key ≡ true) es
    → filtered (some bf) key ≡ true
    → lookup key es ≡ Got.not_found
filtered-lookup bf key [] a h = refl
filtered-lookup bf key (e ∷ es) a h = elim (Bool-cases (is_eq (key_cmp key e.key))) [
  | inr n ↦ rw (n, lookup) (filtered-lookup bf key es a.1 h)
  | inl y ↦
      let same : bloom_maybe bf key ≡ true =
        ap (bloom_maybe bf) ((is_eq_iff key e.key).0 y) ∙ a.0 in
      absurd (ground (arith, same, h))
]

module _ (key : Bytes) (es : List SstEntry) (st : Storable es) (s : Sorted es) (created_at : ℕ)
    (w : Writer) (fw : Filled w (data_bytes es) (rows 0 header_size es))
    (recent : created_at < 2 ^ 64) (count : w.num_entries ≡ length es) where
  abbrev table : Reader
  table = reader_of created_at w (data_bytes es) (rows 0 header_size es) fw recent

  abbrev behind : Bytes
  behind = behind_data created_at w (data_bytes es) (rows 0 header_size es) fw recent

  get_found :
      (p : ℕ)
      → 0 < length (rows 0 header_size es)
      → p ≤ length (rows 0 header_size es)
      → Left key (rows 0 header_size es) p
      → Right key (rows 0 header_size es) p
      → get_loop
          (scan_limit (scan_start table p).1 (table.header.num_entries % 2 ^ 32)
            - (scan_start table p).1)
          key
          (scan_start table p).0
        ≡ lookup key es
  get_found p pos h left right =
      let r = rows-RowAt 0 header_size es (p - 1) (omega arith) (omega arith) in
      let n : w.num_entries % 2 ^ 32 ≡ length es = omega (arith, count, st.few) in
      let start : drop
            (get_or (rows 0 header_size es) (p - 1) (record { key = []; offset = 0 })).offset
            (sstable_writer_finish created_at w)
          ≡ drop (length (data_bytes r.pre)) (data_bytes es ++ behind) =
        ap (λ o. drop o (sstable_writer_finish created_at w)) (ap IdxEntry.offset r.row)
        ∙ drop-header created_at w (data_bytes es) (rows 0 header_size es) fw recent _ in
      rw (lt→ltb 0 _ pos) (
        rw n (rw start (get_at_bound key es st s behind p (p - 1) r refl (omega arith) left right)))

  get_unfiltered :
      0 < length (rows 0 header_size es)
      → filtered table.bloom key ≡ false
      → sstable_reader_get table key ≡ some (lookup key es)
  unfolding sstable_reader_get
  get_unfiltered pos f =
      let (p, e, h, left, right) =
        index_lower_bound-Found key (rows 0 header_size es) (rows-SortedRows 0 header_size es s) in
      rw f (rw e (ap some (get_found p pos h left right)))

  get_known :
      (bf : Bloom)
      → w.bloom ≡ some bf
      → IsValid bf
      → All (λ (e : SstEntry). bloom_maybe bf e.key ≡ true) es
      → 0 < length es
      → 0 < length (rows 0 header_size es)
      → sstable_reader_get table key ≡ some (lookup key es)
  unfolding sstable_reader_get
  get_known bf b v a n pos =
      let same : table.bloom ≡ some bf =
        load_bloom-finish created_at w (data_bytes es) (rows 0 header_size es) fw recent bf b
          (omega (arith, count, n)) v in
      elim (Bool-cases (filtered table.bloom key)) [
        | inr f ↦ get_unfiltered pos f
        | inl t ↦
            rw t (
              ap some (sym (filtered-lookup bf key es a (ap (λ o. filtered o key) (sym same) ∙ t))))
      ]

bound_empty : (key : Bytes) → index_lower_bound [] key ≡ some 0
unfolding index_lower_bound lower_bound_loop
bound_empty key = refl

get_written :
    (key : Bytes) (es : List SstEntry) (st : Storable es) (s : Sorted es) (created_at : ℕ)
    (w : Writer) (fw : Filled w (data_bytes es) (rows 0 header_size es))
    (recent : created_at < 2 ^ 64) (count : w.num_entries ≡ length es) (o : Option Bloom)
    → w.bloom ≡ o
    → Knows o es
    → sstable_reader_get
        (reader_of created_at w (data_bytes es) (rows 0 header_size es) fw recent)
        key
      ≡ some (lookup key es)
unfolding sstable_reader_get get_loop
get_written key [] st s created_at w fw recent count o b k =
    let r : Reader = reader_of created_at w [] [] fw recent in
    elim (Bool-cases (filtered r.bloom key)) [
      | inl t ↦ rw t refl
      | inr f ↦ rw f (rw (bound_empty key) (rw count refl))
    ]
get_written key (e ∷ es) st s created_at w fw recent count none b k =
    absurd (omega (arith, ap length k))
get_written key (e ∷ es) st s created_at w fw recent count (some bf) b k =
    get_known key (e ∷ es) st s created_at w fw recent count bf b k.0 k.1 (omega arith)
      (omega arith)

-- Where the hash count that the filter computes is a 32-bit word: entries in ascending order that fit
-- into one table are written to a file that is opened, and in which a point lookup finds under
-- every key the entry with this key, its value or its tombstone, or nothing if there is none. Neither
-- the filter nor the sparse index with its bounded scan loses an entry.
pub sstable_reader_get-sstable_writer_finish :
    (key : Bytes) (optimal_k : ℕ → ℕ → ℕ) (sequence created_at : ℕ) (es : List SstEntry)
    → ((m n : ℕ) → optimal_k m n < 2 ^ 32)
    → Storable es
    → Sorted es
    → sequence < 2 ^ 64
    → created_at < 2 ^ 64
    → (r : Reader) × (sstable_reader_open (
          sstable_writer_finish created_at
            (add_all optimal_k (sstable_writer_create sequence) es).0)
        ≡ Opened.opened r)
      × (sstable_reader_get r key ≡ some (lookup key es))
unfolding sstable_writer_create
sstable_reader_get-sstable_writer_finish key optimal_k sequence created_at es word st s fresh
      recent =
    let w = full_writer optimal_k sequence es in
    let (fw, n) = full_writer-Filled optimal_k sequence es st fresh in
    let rs = rows 0 header_size es in
    (
      reader_of created_at w (data_bytes es) rs fw recent,
      sstable_reader_open-finish created_at w (data_bytes es) rs fw recent,
      get_written key es st s created_at w fw recent n w.bloom refl
          (Knows-add_all optimal_k word es [] (sstable_writer_create sequence) st.fits refl),
    )
