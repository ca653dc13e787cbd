-- ===== src/Sstable.antt =====
-- The writer of sorted string tables, src/storage/sstable.c. The file is the list of its bytes; `ftell`
-- at its end is its length. The calls of the system, and allocations, are taken to succeed.
pub mod Reader
pub mod Data
pub mod Index
pub mod Open
pub mod Filter
pub mod Scan
pub mod Get
pub mod Point
pub mod Rows
pub mod Lookup
pub mod LowerBound
use Prim.Native.Nat.{bit_and, bit_xor}
use mathlib.Core.Option
use kanbudb.Prelude.{
  ℕ, zero, suc, ◌+◌, ◌-◌, ◌/◌, ◌^◌, Bool, false, ◌||◌, Option, none, some, [], ◌∷◌, ◌++◌, ltb, leb,
  ◌==◌, if◌then◌else◌, length, drop, replicate, Bytes, le_bytes, of_le, read_bytes,
}
use kanbudb.Status.{Status}
use kanbudb.Wal.Log.{Stream}
use kanbudb.Bloom.{Bloom, bloom_create, bloom_insert, bloom_serialize}

-- One entry of the data block: an item, or the tombstone of a key.
pub record SstEntry : Type 0 where
  pub key : Bytes
  pub value : Bytes
  pub flag : ℕ

-- `sstable_header_t`
pub record Header : Type 0 where
  pub magic : ℕ
  pub version : ℕ
  pub num_entries : ℕ
  pub data_len : ℕ
  pub index_offset : ℕ
  pub bloom_offset : ℕ
  pub sequence : ℕ
  pub created_at : ℕ

abbrev pub sstable_magic : ℕ
sstable_magic = 0x4B534E54

abbrev pub sstable_version : ℕ
sstable_version = 2

-- `sizeof(sstable_header_t)`
abbrev pub header_size : ℕ
header_size = 56

abbrev pub sparse_interval : ℕ
sparse_interval = 32

unfoldable pub header_bytes : Header → Bytes
header_bytes h =
    le_bytes 4 h.magic
    ++ (le_bytes 4 h.version
        ++ (le_bytes 8 h.num_entries
            ++ (le_bytes 8 h.data_len
                ++ (le_bytes 8 h.index_offset
                    ++ (le_bytes 8 h.bloom_offset
                        ++ (le_bytes 8 h.sequence ++ le_bytes 8 h.created_at))))))

-- One of the eight rounds for an entry of `crc32_table`.
abbrev pub crc_round : ℕ → ℕ
crc_round crc = if bit_and crc 1 == 0 then crc / 2 else bit_xor (crc / 2) 0xEDB88320

abbrev pub crc_rounds : ℕ → ℕ → ℕ
crc_rounds zero crc = crc
crc_rounds (suc n) crc = crc_rounds n (crc_round crc)

-- `crc32_table[i]`
unfoldable pub crc_table : ℕ → ℕ
crc_table i = crc_rounds 8 i

unfoldable pub crc_loop : Bytes → ℕ → ℕ
crc_loop [] crc = crc
crc_loop (b ∷ buf) crc =
    crc_loop buf (bit_xor (crc_table (bit_and (bit_xor crc b) 0xFF)) (crc / 2 ^ 8))

unfoldable pub crc32_bytes : Bytes → ℕ → ℕ
crc32_bytes buf crc = bit_xor (crc_loop buf (bit_xor crc 0xFFFFFFFF)) 0xFFFFFFFF

-- `struct sstable_writer`, without its paths and capacities.
pub record Writer : Type 0 where
  pub file : Bytes
  pub sequence : ℕ
  pub num_entries : ℕ
  pub data_len : ℕ
  pub entry_count_since_index : ℕ
  pub index_buf : Bytes
  pub bloom : Option Bloom

-- `sstable_writer_create`
unfoldable pub sstable_writer_create : ℕ → Writer
sstable_writer_create sequence = record {
  file = replicate header_size 0;
  sequence = sequence;
  num_entries = 0;
  data_len = 0;
  entry_count_since_index = 0;
  index_buf = [];
  bloom = none;
}

-- The bytes of an entry of the data block, and of the index block.
unfoldable pub entry_bytes : SstEntry → Bytes
entry_bytes e =
    le_bytes 4 (length e.key)
    ++ (e.key ++ (le_bytes 1 e.flag ++ (le_bytes 4 (length e.value) ++ e.value)))

unfoldable pub index_bytes : Bytes → ℕ → Bytes
index_bytes key off = le_bytes 4 (length key) ++ (key ++ le_bytes 8 off)

-- `entry_count_since_index` after one more entry.
abbrev pub next_count : ℕ → ℕ
next_count n = if leb sparse_interval (n + 1) then 0 else n + 1

-- The filter that `sstable_writer_add` inserts into: it is made for the first entry.
abbrev pub filter_or_new : (ℕ → ℕ → ℕ) → Option Bloom → Option Bloom
filter_or_new optimal_k none = bloom_create optimal_k 65536 10
filter_or_new optimal_k (some bf) = some bf

abbrev pub max_field : ℕ
max_field = 1048576

-- The writer after one more entry.
abbrev pub with_entry : (ℕ → ℕ → ℕ) → SstEntry → Writer → Writer
with_entry optimal_k e w = record w {
  index_buf =
      if w.entry_count_since_index == 0
      then w.index_buf ++ index_bytes e.key (length w.file)
      else w.index_buf;
  entry_count_since_index = next_count w.entry_count_since_index;
  file = w.file ++ entry_bytes e;
  bloom = Option.map (λ bf. bloom_insert bf e.key) (filter_or_new optimal_k w.bloom);
  num_entries = w.num_entries + 1;
  data_len = w.data_len + length (entry_bytes e);
}

-- `sstable_writer_add`
unfoldable pub sstable_writer_add : (ℕ → ℕ → ℕ) → SstEntry → Writer → Writer × Status
sstable_writer_add optimal_k e w =
    if ltb max_field (length e.key) || ltb max_field (length e.value)
    then (w, Status.inval)
    else (with_entry optimal_k e w, Status.ok)

-- The loop of `sstable_writer_finish` that counts the entries of the index. An entry takes at least
-- twelve bytes, so one round for each byte is enough.
unfoldable pub count_index : ℕ → Bytes → ℕ
count_index zero bs = 0
count_index (suc fuel) bs = elim (read_bytes 4 bs) [
  | none ↦ 0
  | some (kl, rest) ↦ suc (count_index fuel (drop (of_le kl + 8) rest))
]

-- The bytes of the filter, none for a table without entries.
abbrev pub bloom_bytes : Writer → Bytes
bloom_bytes w = elim w.bloom [
  | none ↦ []
  | some bf ↦ if ltb 0 w.num_entries then bloom_serialize bf else []
]

abbrev pub has_bloom : Writer → Bool
has_bloom w = elim w.bloom [ none ↦ false | some bf ↦ ltb 0 w.num_entries ]

-- The data, the index with its count, and the filter.
abbrev pub table_body : Writer → Bytes
table_body w =
    drop header_size w.file
    ++ (le_bytes 4 (count_index (length w.index_buf) w.index_buf) ++ (w.index_buf ++ bloom_bytes w))

abbrev pub table_header : ℕ → Writer → Header
table_header created_at w = record {
  magic = sstable_magic;
  version = sstable_version;
  num_entries = w.num_entries;
  data_len = length w.file - header_size;
  index_offset = length w.file;
  bloom_offset = if has_bloom w then length w.file + 4 + length w.index_buf else 0;
  sequence = w.sequence;
  created_at = created_at;
}

-- `fread` of so many bytes that a stream has written: only a stream that was opened to read gives
-- them back.
abbrev pub fread_back : Stream → Bytes → Option Bytes
fread_back Stream.append_read bytes = some bytes
fread_back Stream.write_only bytes = none
fread_back Stream.closed bytes = none

-- The checksum of the footer. The stream was opened with "wb".
unfoldable pub checksum : Writer → ℕ
checksum w = elim (fread_back Stream.write_only (table_body w)) [
  | none ↦ 0
  | some buf ↦ crc32_bytes buf 0
]

-- `sstable_writer_finish`: the file that is renamed to its final path. The header, written last,
-- replaces the first bytes.
unfoldable pub sstable_writer_finish : ℕ → Writer → Bytes
sstable_writer_finish created_at w =
    header_bytes (table_header created_at w) ++ (table_body w ++ le_bytes 4 (checksum w))
