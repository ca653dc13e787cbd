-- ===== src/WalMmap.antt =====
-- The log that processes share through mapped memory, src/storage/wal_mmap.c: `wal_mmap_append` and
-- `wal_mmap_read_entry`. A position is an offset into the data, without the header's size.
pub mod Reads
use kanbudb.Prelude.{
  ℕ, ◌+◌, ◌-◌, ◌&&◌, Option, none, some, ◌++◌, ltb, leb, ◌==◌, if◌then◌else◌, length, take, drop,
  replicate, Bool, Bytes, of_le,
}
use kanbudb.Wal.Entry.{Op, op_of_byte, Entry, entry_size, encode}

-- The mapped region, which all processes share: its data, of `data_cap` bytes, and `write_pos`.
pub record Region : Type 0 where
  pub data_bytes : Bytes
  pub write_pos : ℕ

-- The end of `wal_mmap_open` on a mapped file of this size: one without the magic number is cleared.
unfoldable pub wal_mmap_open : Bool → Region → Region
wal_mmap_open has_magic mapped =
    if has_magic
    then mapped
    else record { data_bytes = replicate (length mapped.data_bytes) 0; write_pos = 0 }

-- `serialize_entry`, the same function as `wal_serialize`, into the bytes from `off` on.
unfoldable pub serialize_entry : ℕ → Entry → Bytes → Option Bytes
serialize_entry off e bytes =
    if ltb (length bytes - off) (entry_size e.op (length e.key) e.val_len)
    then none
    else some (take off bytes ++ (encode e ++ drop (off + length (encode e)) bytes))

-- `wal_mmap_append`: `none` is -1. Else the region, and the writer's `last_seq`.
unfoldable pub wal_mmap_append : Region → Entry → Option (Region × ℕ)
wal_mmap_append wm e = elim (serialize_entry wm.write_pos e wm.data_bytes) [
  | none ↦ none
  | some bytes ↦
      let pos = wm.write_pos + length (encode e) in
      some (record { data_bytes = bytes; write_pos = pos }, pos)
]

-- What `wal_mmap_read_entry` stores through its pointers.
pub record ReadEntry : Type 0 where
  pub seq : ℕ
  pub op : Op
  pub table_id : ℕ
  pub key : Bytes
  pub value : Option Bytes

-- The reads from the entry's first byte on, and the entry's size.
unfoldable pub read_fields : Bytes → ReadEntry × ℕ
read_fields bytes =
    let op_u8 = of_le (take 1 (drop 8 bytes)) in
    let kl = of_le (take 8 (drop 17 bytes)) in
    let vl = of_le (take 8 (drop 25 bytes)) in
    let has_value = op_u8 == 0 && ltb 0 vl in
    let rest = drop 33 bytes in
    (
      record {
        seq = of_le (take 8 bytes);
        op = op_of_byte op_u8;
        table_id = of_le (take 8 (drop 9 bytes));
        key = take kl rest;
        value = if has_value then some (take vl (drop kl rest)) else none;
      },
      if has_value then 33 + kl + vl else 33 + kl,
    )

-- `wal_mmap_read_entry` of a reader with this `last_seq`: `none` is -1.
unfoldable pub wal_mmap_read_entry : Region → ℕ → Option (ReadEntry × ℕ)
wal_mmap_read_entry wm last_seq =
    if leb wm.write_pos last_seq
    then none
    else if ltb (wm.write_pos - last_seq) 33
    then none
    else (let (e, size) = read_fields (drop last_seq wm.data_bytes) in some (e, last_seq + size))

unfoldable pub wal_mmap_get_write_pos : Region → ℕ
wal_mmap_get_write_pos wm = wm.write_pos
