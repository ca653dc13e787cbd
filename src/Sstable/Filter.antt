-- ===== src/Sstable/Filter.antt =====
-- The filter of a table of src/storage/sstable.c knows every key that the writer was given.
use mathlib.Core.Option
use mathlib.Core.List.{append-nil, append_assoc}
use kanbudb.Prelude.{
  ℕ, ◌+◌, ◌^◌, ◌≤◌, ◌<◌, ◌≡◌, refl, sym, ap, subst, ◌∙◌, true, Option, none, some, List, [], ◌∷◌,
  ◌++◌, arith, ltb, leb, le→leb, lt→ltb, length, take, drop, All, length-append, take-append,
  drop-append, Bytes, le_bytes, of_le, length-le_bytes, of_le-le_bytes,
}
use kanbudb.Bloom.{
  Bloom, byte_count, bloom_insert, bloom_maybe, bloom_serialized_size, bloom_serialize, bloom_load,
  IsValid,
}
use kanbudb.Bloom.Members.{
  bloom_maybe-bloom_insert, bloom_maybe-bloom_insert_more, bloom_insert-IsValid,
}
use kanbudb.Bloom.Store.{bloom_load-bloom_serialize, bloom_create-IsValid}
use kanbudb.Sstable.{
  SstEntry, Header, header_size, header_bytes, Writer, filter_or_new, with_entry, bloom_bytes,
  has_bloom, table_header, sstable_writer_finish,
}
use kanbudb.Sstable.Reader.{IdxEntry, load_bloom}
use kanbudb.Sstable.Data.{Fits}
use kanbudb.Sstable.Index.{index_block, add_all, add_all_step}
use kanbudb.Sstable.Open.{
  drop-append_more, length-header_bytes, Filled, crc, behind_data, length-file, finish-parts,
  drop-header,
}

-- The filter reports all these keys; there is none before the first entry.
abbrev pub Knows : Option Bloom → List SstEntry → Type 0
Knows none es = es ≡ []
Knows (some bf) es = IsValid bf × All (λ (e : SstEntry). bloom_maybe bf e.key ≡ true) es

known_more :
    (bf : Bloom) (key : Bytes) (es : List SstEntry)
    → IsValid bf
    → All (λ (e : SstEntry). bloom_maybe bf e.key ≡ true) es
    → All (λ (e : SstEntry). bloom_maybe (bloom_insert bf key) e.key ≡ true) es
known_more bf key [] v a = tt
known_more bf key (e ∷ es) v a =
    (bloom_maybe-bloom_insert_more bf key e.key v a.0, known_more bf key es v a.1)

All-snoc :
    (P : SstEntry → Type 0) (es : List SstEntry) (e : SstEntry)
    → All P es
    → P e
    → All P (es ++ e ∷ [])
All-snoc P [] e a p = (p, tt)
All-snoc P (x ∷ es) e a p = (a.0, All-snoc P es e a.1 p)

Knows-insert :
    (bf : Bloom) (e : SstEntry) (es : List SstEntry)
    → Knows (some bf) es
    → Knows (some (bloom_insert bf e.key)) (es ++ e ∷ [])
Knows-insert bf e es (v, a) = (
  bloom_insert-IsValid bf e.key v,
  All-snoc (λ x. bloom_maybe (bloom_insert bf e.key) x.key ≡ true) es e (known_more bf e.key es v a)
      (bloom_maybe-bloom_insert bf e.key v),
)

module _ (optimal_k : ℕ → ℕ → ℕ) (word : (m n : ℕ) → optimal_k m n < 2 ^ 32) where
  Knows-with_entry :
      (e : SstEntry) (before : List SstEntry) (o : Option Bloom)
      → Knows o before
      → Knows
          (Option.map (λ bf. bloom_insert bf e.key) (filter_or_new optimal_k o))
          (before ++ e ∷ [])
  Knows-with_entry e before (some bf) k = Knows-insert bf e before k
  Knows-with_entry e before none k =
      let (bf, made, v) =
        bloom_create-IsValid optimal_k 65536 10 word (omega arith) (omega arith) (omega arith)
          (omega arith) in
      rw made (rw k (Knows-insert bf e [] (v, tt)))

  pub Knows-add_all :
      (es before : List SstEntry) (w : Writer)
      → All Fits es
      → Knows w.bloom before
      → Knows (add_all optimal_k w es).0.bloom (before ++ es)
  Knows-add_all [] before w f k = rw (append-nil before) k
  Knows-add_all (e ∷ es) before w f k = rw (add_all_step optimal_k e es w f.0) (
      subst (Knows _) (append_assoc before (e ∷ []) es) (
        Knows-add_all es (before ++ e ∷ []) (with_entry optimal_k e w) f.1
          (Knows-with_entry e before w.bloom k)))

take_bits :
    (bf : Bloom) (ys : Bytes) → IsValid bf → of_le (take 4 (bloom_serialize bf ++ ys)) ≡ bf.num_bits
unfolding bloom_serialize le_bytes
take_bits bf ys v = of_le-le_bytes 4 bf.num_bits (omega (arith, v.bits_word))

-- What stands where the header says that the filter is.
load_at :
    (bf : Bloom) (h : Header) (mapped ys : Bytes)
    → IsValid bf
    → h.version ≡ 2
    → 0 < h.bloom_offset
    → drop h.bloom_offset mapped ≡ bloom_serialize bf ++ ys
    → h.bloom_offset + length (bloom_serialize bf) ≤ length mapped
    → load_bloom h mapped ≡ some bf
load_at bf h mapped ys v two pos d room =
    let (size, back) = bloom_load-bloom_serialize bf v in
    let n : length (bloom_serialize bf) ≡ 12 + byte_count bf.num_bits =
      unfold bloom_serialized_size in size in
    let vers : leb 2 h.version ≡ true = ground (arith, two) in
    let here : ltb 0 h.bloom_offset ≡ true = lt→ltb 0 _ pos in
    let fits : leb (h.bloom_offset + (12 + byte_count bf.num_bits)) (length mapped) ≡ true =
      le→leb _ _ (omega (arith, room, n)) in
    rw (vers, load_bloom)
      (rw (here) (
        rw d (
          rw (take_bits bf ys v) (
            rw fits (
              ap (λ m. bloom_load (take m (bloom_serialize bf ++ ys))) (sym n)
              ∙ (ap bloom_load (take-append (bloom_serialize bf) ys) ∙ back))))))

module _ (created_at : ℕ) (w : Writer) (block : Bytes) (rs : List IdxEntry) (fw : Filled w block rs)
    (recent : created_at < 2 ^ 64) where
  drop-filter :
      drop (length w.file + 4 + length w.index_buf) (sstable_writer_finish created_at w)
      ≡ bloom_bytes w ++ crc created_at w block rs fw recent
  drop-filter =
      let idx : Bytes = index_block rs in
      let tail : Bytes = bloom_bytes w ++ crc created_at w block rs fw recent in
      let e : length w.file + 4 + length w.index_buf
          ≡ header_size + (length block + (length (le_bytes 4 (length rs)) + length idx)) =
        omega (
          arith,
          length-file created_at w block rs fw recent,
          ap length fw.index,
          length-le_bytes 4 (length rs),
        ) in
      ap (λ m. drop m (sstable_writer_finish created_at w)) e
      ∙ (drop-header created_at w block rs fw recent _
          ∙ (drop-append_more block (le_bytes 4 (length rs) ++ (idx ++ tail)) _
              ∙ (drop-append_more (le_bytes 4 (length rs)) (idx ++ tail) (length idx)
                  ∙ drop-append idx tail)))

  -- The reader has the filter of the writer.
  pub load_bloom-finish :
      (bf : Bloom)
      → w.bloom ≡ some bf
      → 0 < w.num_entries
      → IsValid bf
      → load_bloom (table_header created_at w) (sstable_writer_finish created_at w) ≡ some bf
  load_bloom-finish bf b n v =
      let tail : Bytes = crc created_at w block rs fw recent in
      let idx : Bytes = index_block rs in
      let pos : ltb 0 w.num_entries ≡ true = lt→ltb 0 _ n in
      let off : (table_header created_at w).bloom_offset ≡ length w.file + 4 + length w.index_buf =
        rw (b, has_bloom) (rw pos refl) in
      let bits : bloom_bytes w ≡ bloom_serialize bf = rw (b, bloom_bytes) (rw pos refl) in
      let size = ap length (finish-parts created_at w block rs fw recent) in
      load_at bf (table_header created_at w) (sstable_writer_finish created_at w) tail v refl
        (omega (arith, off))
        (ap (λ m. drop m (sstable_writer_finish created_at w)) off
          ∙ (drop-filter ∙ ap (λ x. x ++ tail) bits))
        (omega (
          arith,
          off,
          size,
          ap length bits,
          ap length fw.index,
          length-file created_at w block rs fw recent,
          length-header_bytes (table_header created_at w),
          length-append (header_bytes (table_header created_at w))
              (block ++ behind_data created_at w block rs fw recent),
          length-append block (behind_data created_at w block rs fw recent),
          length-append (le_bytes 4 (length rs)) (idx ++ (bloom_bytes w ++ tail)),
          length-append idx (bloom_bytes w ++ tail),
          length-append (bloom_bytes w) tail,
          length-le_bytes 4 (length rs),
        ))
