-- ===== src/Sstable/Reader.antt =====
-- The reader of sorted string tables, src/storage/sstable.c. The mapping is the list of its bytes. A read
-- behind its end, which the code does not test for, is a `fault`, or `none` where the result is an
-- option.
use Prim.Native.Nat.{Ordering, bit_and}
use mathlib.Core.Option
use kanbudb.Prelude.{
  ℕ, zero, suc, ◌+◌, ◌-◌, ◌*◌, ◌/◌, ◌%◌, ◌^◌, Bool, true, false, ◌&&◌, ◌||◌, not, Option, none,
  some, List, [], ◌∷◌, ltb, leb, ◌==◌, if◌then◌else◌, length, get_or, take, drop, Bytes, of_le,
  read_bytes,
}
use kanbudb.Status.{Status, is_ok}
use kanbudb.Key.{key_cmp}
use kanbudb.Bloom.{Bloom, byte_count, bloom_maybe, bloom_load}
use kanbudb.Sstable.{
  SstEntry, Header, sstable_magic, sstable_version, header_size, sparse_interval, crc32_bytes,
}

unfoldable pub read_header : Bytes → Header
read_header mapped = record {
  magic = of_le (take 4 mapped);
  version = of_le (take 4 (drop 4 mapped));
  num_entries = of_le (take 8 (drop 8 mapped));
  data_len = of_le (take 8 (drop 16 mapped));
  index_offset = of_le (take 8 (drop 24 mapped));
  bloom_offset = of_le (take 8 (drop 32 mapped));
  sequence = of_le (take 8 (drop 40 mapped));
  created_at = of_le (take 8 (drop 48 mapped));
}

-- `sstable_idx_entry_t`
pub record IdxEntry : Type 0 where
  pub key : Bytes
  pub offset : ℕ

pub record Reader : Type 0 where
  pub mapped : Bytes
  pub header : Header
  pub index : List IdxEntry
  pub crc_ok : ℕ
  pub bloom : Option Bloom

pub data Opened : Type 0 where
  null fault : Opened
  opened : Reader → Opened

-- The next `n` bytes of the mapping, and what is done with them and those behind.
unfoldable pub read_then {ℓ} : {A : Type ℓ} → ℕ → Bytes → (Bytes → Bytes → Option A) → Option A
read_then n p k = elim (read_bytes n p) [ none ↦ none | some (front, rest) ↦ k front rest ]

-- The loop over the index block.
unfoldable pub parse_index : ℕ → Bytes → Option (List IdxEntry)
parse_index zero idx_ptr = some []
parse_index (suc num_idx) idx_ptr = read_then 4 idx_ptr (λ kl p. read_then (of_le kl) p (λ key p.
    read_then 8 p (λ off p.
      Option.map (λ rest. record { key = key; offset = of_le off } ∷ rest)
        (parse_index num_idx p))))

-- Whether the code reads the three numbers of the filter behind the end of the mapping.
unfoldable pub bloom_unmapped : Header → Bytes → Bool
bloom_unmapped h mapped =
    leb 2 h.version && ltb 0 h.bloom_offset && ltb (length mapped) (h.bloom_offset + 12)

-- The filter, if the header names one and the file holds all of it.
abbrev pub load_bloom : Header → Bytes → Option Bloom
load_bloom h mapped =
    let bloom_ptr = drop h.bloom_offset mapped in
    let bsz = 12 + byte_count (of_le (take 4 bloom_ptr)) in
    if leb 2 h.version && ltb 0 h.bloom_offset
    then (if leb (h.bloom_offset + bsz) (length mapped)
        then bloom_load (take bsz bloom_ptr)
        else none)
    else none

-- `crc_ok`: 1, or -1 as an unsigned number.
abbrev pub check_crc : Bytes → ℕ
check_crc mapped =
    let verify_len = length mapped - 4 in
    if crc32_bytes (take verify_len mapped) 0 == of_le (drop verify_len mapped)
    then 1
    else 2 ^ 32 - 1

-- `sstable_reader_open` on a file that exists.
unfoldable pub sstable_reader_open : Bytes → Opened
sstable_reader_open mapped =
    let h = read_header mapped in
    if length mapped == 0
    then Opened.null
    else if ltb (length mapped) header_size
    then Opened.fault
    else if not (h.magic == sstable_magic) || ltb sstable_version h.version
    then Opened.null
    else elim (read_bytes 4 (drop h.index_offset mapped)) [
      | none ↦ Opened.fault
      | some (num_idx, idx_ptr) ↦ elim (parse_index (of_le num_idx) idx_ptr) [
        | none ↦ Opened.fault
        | some index ↦
            if bloom_unmapped h mapped
            then Opened.fault
            else Opened.opened (record {
              mapped = mapped;
              header = h;
              index = index;
              crc_ok = check_crc mapped;
              bloom = load_bloom h mapped;
            })
      ]
    ]

-- `idx[i].key`
abbrev pub index_key : List IdxEntry → ℕ → Bytes
index_key index i = (get_or index i (record { key = []; offset = 0 })).key

-- `index_lower_bound`. `none` means that the fuel ran out.
unfoldable pub lower_bound_loop : ℕ → ℕ → ℕ → Bytes → List IdxEntry → Option ℕ
lower_bound_loop zero lo hi key index = none
lower_bound_loop (suc fuel) lo hi key index =
    let mid = lo + (hi - lo) / 2 in
    let left = lower_bound_loop fuel lo mid key index in
    let right = lower_bound_loop fuel (mid + 1) hi key index in
    if ltb lo hi
    then elim (key_cmp key (index_key index mid)) [ Ordering.gt ↦ right | _ ↦ left ]
    else some lo

unfoldable pub index_lower_bound : List IdxEntry → Bytes → Option ℕ
index_lower_bound index key = lower_bound_loop (suc (length index)) 0 (length index) key index

-- What stands before the value of an entry.
pub record Prefix : Type 0 where
  pub key : Bytes
  pub flag : ℕ
  pub val_len : ℕ

unfoldable pub parse_prefix : Bytes → Option (Prefix × Bytes)
parse_prefix p = read_then 4 p (λ kl p. read_then (of_le kl) p (λ key p. read_then 1 p (λ fl p.
    read_then 4 p (λ vl p. some (record { key = key; flag = of_le fl; val_len = of_le vl }, p)))))

-- What a point lookup answers: the tombstone of a key shows in `out_flag` alone.
pub data Got : Type 0 where
  fault not_found : Got
  tombstone : ℕ → Got
  found : ℕ → Bytes → Got

-- `fl & KANBUDB_SSTABLE_FLAG_TOMBSTONE`
abbrev pub is_dead : ℕ → Bool
is_dead fl = not (bit_and fl 2 == 0)

-- The entry that has the key; the value is the next `val_len` bytes.
abbrev pub answer : Prefix → Bytes → Got
answer e p =
    if is_dead e.flag
    then Got.tombstone e.flag
    else elim (read_bytes e.val_len p) [ none ↦ Got.fault | some (v, rest) ↦ Got.found e.flag v ]

-- The linear scan of `sstable_reader_get` over at most `count` entries.
unfoldable pub get_loop : ℕ → Bytes → Bytes → Got
get_loop zero key p = Got.not_found
get_loop (suc count) key p = elim (parse_prefix p) [
  | none ↦ Got.fault
  | some (e, p) ↦ elim (key_cmp key e.key) [
    | Ordering.eq ↦ answer e p
    | Ordering.lt ↦ Got.not_found
    | Ordering.gt ↦ get_loop count key (drop e.val_len p)
  ]
]

-- The filter says that the key is not in the table.
abbrev pub filtered : Option Bloom → Bytes → Bool
filtered none key = false
filtered (some bf) key = not (bloom_maybe bf key)

-- `data_start` and `start_entry`.
abbrev pub scan_start : Reader → ℕ → Bytes × ℕ
scan_start r idx_pos =
    if ltb 0 (length r.index)
    then (let bi = idx_pos - 1 in
        (
          drop (get_or r.index bi (record { key = []; offset = 0 })).offset r.mapped,
          bi * sparse_interval % 2 ^ 32,
        ))
    else (drop header_size r.mapped, 0)

-- `limit`, as the code's 32-bit words.
abbrev pub scan_limit : ℕ → ℕ → ℕ
scan_limit start_entry max_entries =
    let limit = (start_entry + 2 * sparse_interval) % 2 ^ 32 in
    if ltb max_entries limit then max_entries else limit

-- `sstable_reader_get`; `none` means that the fuel of the binary search ran out.
unfoldable pub sstable_reader_get : Reader → Bytes → Option Got
sstable_reader_get r key =
    if filtered r.bloom key then some Got.not_found else elim (index_lower_bound r.index key) [
      | none ↦ none
      | some idx_pos ↦
          let (p, start_entry) = scan_start r idx_pos in
          some
            (get_loop (scan_limit start_entry (r.header.num_entries % 2 ^ 32) - start_entry) key p)
    ]

-- The loop of `sstable_reader_scan`, over the state of its callback; it stops in silence where an
-- entry does not fit. `none`: the callback is given a value behind the end of the mapping.
module _ {ℓ} {S : Type ℓ} (cb : S → SstEntry → S × Status) where
  unfoldable pub scan_loop : ℕ → S → Bytes → Option (S × Status)
  scan_loop zero s p = some (s, Status.ok)
  scan_loop (suc count) s p = elim (parse_prefix p) [
    | none ↦ some (s, Status.ok)
    | some (e, p) ↦ elim (read_bytes e.val_len p) [
      | none ↦ none
      | some (v, rest) ↦
          let r = cb s (record { key = e.key; value = v; flag = e.flag }) in
          elim (is_ok r.1) [ true ↦ scan_loop count r.0 rest | false ↦ some r ]
    ]
  ]

  unfoldable pub sstable_reader_scan : S → Reader → Option (S × Status)
  sstable_reader_scan s r = scan_loop r.header.num_entries s (drop header_size r.mapped)
