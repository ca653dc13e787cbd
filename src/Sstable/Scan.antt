-- ===== src/Sstable/Scan.antt =====
-- A sorted string table of src/storage/sstable.c from the writer to the scan of the reader.
use kanbudb.Prelude.{
  ℕ, ◌+◌, ◌*◌, ◌^◌, ◌≤◌, ◌<◌, ◌≡◌, inl, inr, some, List, [], ◌∷◌, ◌++◌, arith, ◌==◌, Bool-cases,
  length, All, length-append, le_bytes,
}
use kanbudb.Status.{Status}
use kanbudb.Sstable.{
  SstEntry, header_size, Writer, sstable_writer_create, entry_bytes, next_count,
  sstable_writer_finish,
}
use kanbudb.Sstable.Reader.{Reader, Opened, sstable_reader_open, sstable_reader_scan}
use kanbudb.Sstable.Data.{Fits, data_bytes, each, scan_loop-data_bytes}
use kanbudb.Sstable.Index.{rows, index_block, add_all, add_all-Written, length-index_block}
use kanbudb.Sstable.Open.{RowFits, Filled, drop-header, reader_of, sstable_reader_open-finish}

-- Entries that fit into one table.
pub record Storable (es : List SstEntry) : Type 0 where
  pub fits : All Fits es
  pub few : length es < 2 ^ 30
  pub short : length (data_bytes es) < 2 ^ 60

length-entry_bytes : (e : SstEntry) → length (entry_bytes e) ≡ 9 + length e.key + length e.value
unfolding entry_bytes le_bytes
length-entry_bytes e =
    omega
      (arith, length-append e.key (le_bytes 1 e.flag ++ (le_bytes 4 (length e.value) ++ e.value)))

length-rows : (count off : ℕ) (es : List SstEntry) → length (rows count off es) ≤ length es
length-rows count off [] = omega arith
length-rows count off (e ∷ es) =
    ground (arith, length-rows (next_count count) (off + length (entry_bytes e)) es)

rows-RowFits :
    (count off : ℕ) (es : List SstEntry)
    → All Fits es
    → off + length (data_bytes es) < 2 ^ 64
    → All RowFits (rows count off es)
rows-RowFits count off [] f l = tt
rows-RowFits count off (e ∷ es) f l =
    let n = length-append (entry_bytes e) (data_bytes es) in
    let rest =
      rows-RowFits (next_count count) (off + length (entry_bytes e)) es f.1 (omega (arith, l, n)) in
    elim (Bool-cases (count == 0)) [
      | inl z ↦ rw z ((f.0.key_short, omega (arith, l, n)), rest)
      | inr z ↦ rw z rest
    ]

length-index_rows :
    (count off : ℕ) (es : List SstEntry)
    → length (index_block (rows count off es)) ≤ 2 * length (data_bytes es)
length-index_rows count off [] = omega arith
length-index_rows count off (e ∷ es) =
    let rest = length-index_rows (next_count count) (off + length (entry_bytes e)) es in
    let n = length-append (entry_bytes e) (data_bytes es) in
    elim (Bool-cases (count == 0)) [
      | inl z ↦ rw z (
          omega (
            arith,
            rest,
            n,
            length-entry_bytes e,
            length-index_block (record { key = e.key; offset = off })
                (rows (next_count count) (off + length (entry_bytes e)) es),
          ))
      | inr z ↦ rw z (omega (arith, rest, n))
    ]

module _ (optimal_k : ℕ → ℕ → ℕ) (sequence : ℕ) (es : List SstEntry) where
  -- The writer after all entries.
  abbrev pub full_writer : Writer
  full_writer = (add_all optimal_k (sstable_writer_create sequence) es).0

  pub full_writer-Filled :
      Storable es
      → sequence < 2 ^ 64
      → Filled full_writer (data_bytes es) (rows 0 header_size es)
        × (full_writer.num_entries ≡ length es)
  unfolding sstable_writer_create
  full_writer-Filled st fresh =
      let n = (add_all-Written optimal_k es (sstable_writer_create sequence) st.fits).1 in
      (
        record {
          file = n.file;
          index = n.index;
          rows_fit = rows-RowFits 0 header_size es st.fits (omega (arith, st.short));
          few_rows = omega (arith, st.few, length-rows 0 header_size es);
          few_entries = omega (arith, n.count, st.few);
          short = omega (arith, st.short, length-index_rows 0 header_size es);
          sequence = rw n.sequence fresh;
        },
        omega (arith, n.count),
      )

-- The file of a full writer is opened and scanned, and has the writer's sequence number.
pub opened_table {ℓ} :
    {S : Type ℓ} (optimal_k : ℕ → ℕ → ℕ) (sequence created_at : ℕ) (es : List SstEntry)
    → Storable es
    → sequence < 2 ^ 64
    → created_at < 2 ^ 64
    → (r : Reader) × (sstable_reader_open
          (sstable_writer_finish created_at (full_writer optimal_k sequence es))
        ≡ Opened.opened r)
      × ((cb : S → SstEntry → S × Status) (s : S)
          → sstable_reader_scan cb s r ≡ some (each cb s es))
      × (r.header.sequence ≡ sequence)
unfolding sstable_reader_scan sstable_writer_create
opened_table optimal_k sequence created_at es st fresh recent =
    let w = full_writer optimal_k sequence es in
    let (fw, n) = full_writer-Filled optimal_k sequence es st fresh in
    let rs = rows 0 header_size es in
    (
      reader_of created_at w (data_bytes es) rs fw recent,
      sstable_reader_open-finish created_at w (data_bytes es) rs fw recent,
      λ cb s. rw n (
          rw (drop-header created_at w (data_bytes es) rs fw recent 0)
            (scan_loop-data_bytes cb s es _ st.fits)),
      (add_all-Written optimal_k es (sstable_writer_create sequence) st.fits).1.sequence,
    )

-- Entries that fit into one table, added one by one to a new writer, are all taken. The file that
-- `sstable_writer_finish` leaves is opened, and the scan hands exactly these entries, in their
-- order, to its callback, until the callback refuses one.
pub sstable_reader_scan-sstable_writer_finish {ℓ} :
    {S : Type ℓ} (cb : S → SstEntry → S × Status) (s : S) (optimal_k : ℕ → ℕ → ℕ)
    (sequence created_at : ℕ) (es : List SstEntry)
    → Storable es
    → sequence < 2 ^ 64
    → created_at < 2 ^ 64
    → ((add_all optimal_k (sstable_writer_create sequence) es).1 ≡ Status.ok)
      × (r : Reader) × (sstable_reader_open (
            sstable_writer_finish created_at
              (add_all optimal_k (sstable_writer_create sequence) es).0)
          ≡ Opened.opened r)
      × (sstable_reader_scan cb s r ≡ some (each cb s es))
unfolding sstable_reader_scan
sstable_reader_scan-sstable_writer_finish cb s optimal_k sequence created_at es st fresh recent =
    let w = full_writer optimal_k sequence es in
    let (fw, n) = full_writer-Filled optimal_k sequence es st fresh in
    let rs = rows 0 header_size es in
    (
      (add_all-Written optimal_k es (sstable_writer_create sequence) st.fits).0,
      reader_of created_at w (data_bytes es) rs fw recent,
      sstable_reader_open-finish created_at w (data_bytes es) rs fw recent,
      rw n (
          rw (drop-header created_at w (data_bytes es) rs fw recent 0)
            (scan_loop-data_bytes cb s es _ st.fits)),
    )
