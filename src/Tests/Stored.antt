-- ===== src/Tests/Stored.antt =====
-- The theorems on sorted string tables, src/storage/sstable.c, at work on a small table.
use kanbudb.Prelude.{ℕ, ◌≡◌, refl, some, List, [], ◌∷◌, arith, Bytes, le_bytes}
use kanbudb.Status.{Status}
use kanbudb.Key.{memcmp, key_cmp, below}
use kanbudb.Sstable.{SstEntry, sstable_writer_create, entry_bytes, sstable_writer_finish}
use kanbudb.Sstable.Reader.{
  Reader, Opened, sstable_reader_open, sstable_reader_get, sstable_reader_scan,
}
use kanbudb.Sstable.Data.{Fits, each}
use kanbudb.Sstable.Index.{add_all}
use kanbudb.Sstable.Lookup.{Sorted, lookup}
use kanbudb.Sstable.Scan.{Storable, sstable_reader_scan-sstable_writer_finish}
use kanbudb.Sstable.Point.{sstable_reader_get-sstable_writer_finish}

abbrev seven_hashes : ℕ → ℕ → ℕ
seven_hashes m n = 7

abbrev alive : ℕ → ℕ → SstEntry
alive k v = record { key = k ∷ []; value = v ∷ []; flag = 1 }

-- Two items with a tombstone between them.
abbrev table_3 : List SstEntry
table_3 = alive 3 30 ∷ record { key = 5 ∷ []; value = []; flag = 2 } ∷ alive 8 80 ∷ []

table_3-Storable : Storable table_3
unfolding entry_bytes le_bytes
table_3-Storable =
    let one : Fits (alive 3 30) = record {
      key_short = omega arith;
      value_short = omega arith;
      flag_byte = omega arith;
    } in
    let two : Fits (record { key = 5 ∷ []; value = []; flag = 2 }) = record {
      key_short = omega arith;
      value_short = omega arith;
      flag_byte = omega arith;
    } in
    let three : Fits (alive 8 80) = record {
      key_short = omega arith;
      value_short = omega arith;
      flag_byte = omega arith;
    } in
    record { fits = (one, (two, (three, tt))); few = omega arith; short = omega arith }

table_3-Sorted : Sorted table_3
unfolding below key_cmp memcmp
table_3-Sorted = ((refl, (refl, tt)), ((refl, tt), (tt, tt)))

-- A callback that collects the keys.
abbrev collect : List Bytes → SstEntry → List Bytes × Status
collect s e = (e.key ∷ s, Status.ok)

sstable_reader_scan-sstable_writer_finish_example :
    ((add_all seven_hashes (sstable_writer_create 4) table_3).1 ≡ Status.ok)
    × (r : Reader) × (sstable_reader_open
          (sstable_writer_finish 9 (add_all seven_hashes (sstable_writer_create 4) table_3).0)
        ≡ Opened.opened r)
    × (sstable_reader_scan collect [] r ≡ some (each collect [] table_3))
sstable_reader_scan-sstable_writer_finish_example =
    sstable_reader_scan-sstable_writer_finish collect [] seven_hashes 4 9 table_3 table_3-Storable
      (omega arith) (omega arith)

sstable_reader_get-sstable_writer_finish_example :
    (r : Reader) × (sstable_reader_open
        (sstable_writer_finish 9 (add_all seven_hashes (sstable_writer_create 4) table_3).0)
      ≡ Opened.opened r)
    × (sstable_reader_get r (8 ∷ []) ≡ some (lookup (8 ∷ []) table_3))
sstable_reader_get-sstable_writer_finish_example =
    sstable_reader_get-sstable_writer_finish (8 ∷ []) seven_hashes 4 9 table_3 (λ m n. omega arith)
      table_3-Storable table_3-Sorted (omega arith) (omega arith)
