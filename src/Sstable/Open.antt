-- ===== src/Sstable/Open.antt =====
-- What `sstable_reader_open` of src/storage/sstable.c makes of a file that `sstable_writer_finish` left.
use mathlib.Core.List.{append_assoc}
use kanbudb.Prelude.{
  ℕ, suc, ◌+◌, ◌^◌, ◌≤◌, ◌<◌, ◌≡◌, refl, ap, ◌∙◌, inl, inr, true, false, Bool-cases, Option-cases,
  some, take, length-le_bytes, List, [], ◌∷◌, ◌++◌, arith, ltb, ◌==◌, le→ltb_false, length, drop,
  replicate, All, length-append, drop-append, Bytes, le_bytes, of_le, of_le-le_bytes,
  read_bytes-le_bytes,
}
use kanbudb.Sstable.{
  Header, header_size, header_bytes, checksum, Writer, max_field, bloom_bytes, has_bloom,
  table_header, sstable_writer_finish,
}
use kanbudb.Bloom.{Bloom, byte_count, bloom_serialize}
use kanbudb.Sstable.Reader.{
  read_header, IdxEntry, Reader, Opened, parse_index, bloom_unmapped, load_bloom, check_crc,
  sstable_reader_open,
}
use kanbudb.Sstable.Index.{index_block, parse_index-index_block, count_index-index_block}

drop_add : (xs ys : Bytes) (n : ℕ) → drop (n + length xs) (xs ++ ys) ≡ drop n ys
drop_add [] ys n = ap (λ m. drop m ys) (omega arith)
drop_add (x ∷ xs) ys n =
    let e : n + suc (length xs) ≡ suc (n + length xs) = omega arith in
    ap (λ m. drop m (x ∷ xs ++ ys)) e ∙ drop_add xs ys n

pub drop-append_more : (xs ys : Bytes) (n : ℕ) → drop (length xs + n) (xs ++ ys) ≡ drop n ys
drop-append_more xs ys n =
    let e : length xs + n ≡ n + length xs = omega arith in
    ap (λ m. drop m (xs ++ ys)) e ∙ drop_add xs ys n

pub length-header_bytes : (h : Header) → length (header_bytes h) ≡ header_size
unfolding header_bytes le_bytes
length-header_bytes h = refl

-- All fields fit their words.
record IsHeader (h : Header) : Type 0 where
  magic : h.magic < 2 ^ 32
  version : h.version < 2 ^ 32
  num_entries : h.num_entries < 2 ^ 64
  data_len : h.data_len < 2 ^ 64
  index_offset : h.index_offset < 2 ^ 64
  bloom_offset : h.bloom_offset < 2 ^ 64
  sequence : h.sequence < 2 ^ 64
  created_at : h.created_at < 2 ^ 64

read_header-header_bytes :
    (h : Header) (ys : Bytes) → IsHeader h → read_header (header_bytes h ++ ys) ≡ h
unfolding read_header header_bytes le_bytes
read_header-header_bytes h ys v =
    let a = of_le-le_bytes 4 h.magic v.magic in
    let b = of_le-le_bytes 4 h.version v.version in
    let c = of_le-le_bytes 8 h.num_entries v.num_entries in
    let d = of_le-le_bytes 8 h.data_len v.data_len in
    let e = of_le-le_bytes 8 h.index_offset v.index_offset in
    let f = of_le-le_bytes 8 h.bloom_offset v.bloom_offset in
    let g = of_le-le_bytes 8 h.sequence v.sequence in
    let i = of_le-le_bytes 8 h.created_at v.created_at in rw (a, b, c, d, e, f, g, i) refl

abbrev pub RowFits : IdxEntry → Type 0
RowFits r = (length r.key ≤ max_field) × (r.offset < 2 ^ 64)

-- A writer with these data and these index entries.
pub record Filled (w : Writer) (block : Bytes) (rs : List IdxEntry) : Type 0 where
  pub file : w.file ≡ replicate header_size 0 ++ block
  pub index : w.index_buf ≡ index_block rs
  pub rows_fit : All RowFits rs
  pub few_rows : length rs < 2 ^ 32
  pub few_entries : w.num_entries < 2 ^ 64
  pub short : length block + length (index_block rs) < 2 ^ 63
  pub sequence : w.sequence < 2 ^ 64

mapped_none : (h : Header) (mapped : Bytes) → h.bloom_offset ≡ 0 → bloom_unmapped h mapped ≡ false
unfolding bloom_unmapped
mapped_none h mapped e = ground (arith, e)

mapped_all :
    (h : Header) (mapped : Bytes)
    → h.bloom_offset + 12 ≤ length mapped
    → bloom_unmapped h mapped ≡ false
unfolding bloom_unmapped
mapped_all h mapped e = ground (arith, e)

module _ (created_at : ℕ) (w : Writer) (block : Bytes) (rs : List IdxEntry) (fw : Filled w block rs)
    (recent : created_at < 2 ^ 64) where
  abbrev pub crc : Bytes
  crc = le_bytes 4 (checksum w)

  abbrev pub behind_data : Bytes
  behind_data = le_bytes 4 (length rs) ++ (index_block rs ++ (bloom_bytes w ++ crc))

  pub length-file : length w.file ≡ header_size + length block
  length-file = rw fw.file (omega (arith, length-append (replicate header_size 0) block))

  pub finish-parts :
      sstable_writer_finish created_at w
      ≡ header_bytes (table_header created_at w) ++ (block ++ behind_data)
  unfolding sstable_writer_finish
  finish-parts = rw (fw.file) (
      rw (fw.index) (
        rw (count_index-index_block (length (index_block rs)) rs fw.rows_fit (omega arith))
          (simp append_assoc)))

  table_header-IsHeader : IsHeader (table_header created_at w)
  table_header-IsHeader = record {
    magic = omega arith;
    version = omega arith;
    num_entries = fw.few_entries;
    data_len = omega (arith, length-file, fw.short);
    index_offset = omega (arith, length-file, fw.short);
    bloom_offset = ground (arith, length-file, fw.short, fw.index);
    sequence = fw.sequence;
    created_at = recent;
  }

  pub read_header-finish :
      read_header (sstable_writer_finish created_at w) ≡ table_header created_at w
  read_header-finish =
      rw finish-parts (read_header-header_bytes _ (block ++ behind_data) table_header-IsHeader)

  pub drop-header :
      (n : ℕ)
      → drop (header_size + n) (sstable_writer_finish created_at w) ≡ drop n (block ++ behind_data)
  drop-header n =
      let head : Bytes = header_bytes (table_header created_at w) in
      let e : header_size + n ≡ length head + n =
        omega (arith, length-header_bytes (table_header created_at w)) in
      rw finish-parts (
        ap (λ m. drop m (head ++ (block ++ behind_data))) e
        ∙ drop-append_more head (block ++ behind_data) n)

  -- The index block stands behind the data.
  drop-finish : drop (length w.file) (sstable_writer_finish created_at w) ≡ behind_data
  drop-finish = rw length-file (drop-header (length block) ∙ drop-append block behind_data)

  length-finish : header_size ≤ length (sstable_writer_finish created_at w)
  length-finish = rw finish-parts (
      omega (
        arith,
        length-append (header_bytes (table_header created_at w)) (block ++ behind_data),
        length-header_bytes (table_header created_at w),
      ))

  -- The reader of the file.
  abbrev pub reader_of : Reader
  reader_of = record {
    mapped = sstable_writer_finish created_at w;
    header = table_header created_at w;
    index = rs;
    crc_ok = check_crc (sstable_writer_finish created_at w);
    bloom = load_bloom (table_header created_at w) (sstable_writer_finish created_at w);
  }

  open_index :
      parse_index (of_le (le_bytes 4 (length rs))) (index_block rs ++ (bloom_bytes w ++ crc))
      ≡ some rs
  open_index =
      rw (of_le-le_bytes 4 (length rs) (omega (arith, fw.few_rows)))
        (parse_index-index_block rs (bloom_bytes w ++ crc) fw.rows_fit)

  -- The filter is long enough for its three numbers.
  length-bloom_bytes :
      (bf : Bloom) → w.bloom ≡ some bf → ltb 0 w.num_entries ≡ true → 12 ≤ length (bloom_bytes w)
  unfolding bloom_serialize
  length-bloom_bytes bf b n =
      let bits = take (byte_count bf.num_bits) bf.bits in
      let all = le_bytes 4 bf.num_hashes ++ (le_bytes 4 bf.num_keys ++ bits) in
      let e : length (bloom_bytes w) ≡ length (le_bytes 4 bf.num_bits ++ all) =
        rw (b, bloom_bytes) (rw n refl) in
      omega (
        arith,
        e,
        length-append (le_bytes 4 bf.num_bits) all,
        length-append (le_bytes 4 bf.num_hashes) (le_bytes 4 bf.num_keys ++ bits),
        length-append (le_bytes 4 bf.num_keys) bits,
        length-le_bytes 4 bf.num_bits,
        length-le_bytes 4 bf.num_hashes,
        length-le_bytes 4 bf.num_keys,
      )

  length-parts :
      length (sstable_writer_finish created_at w)
      ≡ length w.file + 4 + length w.index_buf + length (bloom_bytes w) + 4
  length-parts = omega (
    arith,
    ap length finish-parts,
    ap length fw.index,
    length-file,
    length-header_bytes (table_header created_at w),
    length-append (header_bytes (table_header created_at w)) (block ++ behind_data),
    length-append block behind_data,
    length-append (le_bytes 4 (length rs)) (index_block rs ++ (bloom_bytes w ++ crc)),
    length-append (index_block rs) (bloom_bytes w ++ crc),
    length-append (bloom_bytes w) crc,
    length-le_bytes 4 (length rs),
    length-le_bytes 4 (checksum w),
  )

  bloom_unmapped-finish :
      bloom_unmapped (table_header created_at w) (sstable_writer_finish created_at w) ≡ false
  bloom_unmapped-finish = elim (Option-cases w.bloom) [
    | inl b ↦ mapped_none (table_header created_at w) _ (rw (b, has_bloom) refl)
    | inr (bf, b) ↦ elim (Bool-cases (ltb 0 w.num_entries)) [
      | inr n ↦ mapped_none (table_header created_at w) _ (rw (b, has_bloom) (rw n refl))
      | inl n ↦
          let long = length-bloom_bytes bf b n in
          let off : (table_header created_at w).bloom_offset
              ≡ length w.file + 4 + length w.index_buf =
            rw (b, has_bloom) (rw n refl) in
          mapped_all (table_header created_at w) _ (omega (arith, off, length-parts, long))
    ]
  ]

  pub sstable_reader_open-finish :
      sstable_reader_open (sstable_writer_finish created_at w) ≡ Opened.opened reader_of
  unfolding sstable_reader_open
  sstable_reader_open-finish =
      let some_bytes : (length (sstable_writer_finish created_at w) == 0) ≡ false =
        ground (arith, length-finish) in
      let enough : ltb (length (sstable_writer_finish created_at w)) header_size ≡ false =
        le→ltb_false _ _ length-finish in
      rw read_header-finish (
        rw some_bytes (
          rw enough (
            rw drop-finish (
              rw read_bytes-le_bytes
                (rw open_index (rw read_header-finish (rw bloom_unmapped-finish refl)))))))
