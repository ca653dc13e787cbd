-- ===== src/SharedMeta.antt =====
-- The metadata file that a writer and its readers share, src/storage/shared_meta.c. The disk is what
-- the file `<db>.shared` holds, `none` if there is no such file; the calls of the system succeed or
-- fail by a parameter.
pub mod Atomic
use kanbudb.Prelude.{
  ℕ, ◌+◌, ◌-◌, ◌%◌, ◌^◌, Bool, true, false, ◌||◌, not, Option, none, some, ◌++◌, ltb, ◌==◌,
  if◌then◌else◌, length, take, drop, Bytes, le_bytes, of_le,
}

pub record Meta : Type 0 where
  pub magic : ℕ
  pub flushed_seq : ℕ
  pub wal_version : ℕ
  pub reader_count : ℕ

abbrev pub shared_magic : ℕ
shared_magic = 0x4B414E4255444200

-- The bytes of the packed struct, and back.
unfoldable pub meta_bytes : Meta → Bytes
meta_bytes m =
    le_bytes 8 m.magic
    ++ (le_bytes 8 m.flushed_seq ++ (le_bytes 4 m.wal_version ++ le_bytes 4 m.reader_count))

unfoldable pub read_meta : Bytes → Meta
read_meta bytes = record {
  magic = of_le (take 8 bytes);
  flushed_seq = of_le (take 8 (drop 8 bytes));
  wal_version = of_le (take 4 (drop 16 bytes));
  reader_count = of_le (take 4 (drop 20 bytes));
}

-- How a write goes: `open` fails, `write` writes fewer bytes, `rename` fails, or all succeed.
pub data WriteResult : Type 0 where
  open_fails write_short rename_fails done : WriteResult

-- `kanbudb_shared_meta_write`, and whether it returns 0. The file is replaced by the `rename` alone.
unfoldable pub shared_meta_write : WriteResult → Meta → Option Bytes → Option Bytes × Bool
shared_meta_write WriteResult.done m disk = (some (meta_bytes m), true)
shared_meta_write _ m disk = (disk, false)

abbrev pub fresh_meta : Meta
fresh_meta = record { magic = shared_magic; flushed_seq = 0; wal_version = 1; reader_count = 0 }

-- `kanbudb_shared_meta_open`: the disk, the result, and the metadata in memory.
abbrev pub reset_meta : WriteResult → Option Bytes → (Option Bytes × Bool) × Meta
reset_meta how disk = (shared_meta_write how fresh_meta disk, fresh_meta)

unfoldable pub shared_meta_open : WriteResult → Option Bytes → (Option Bytes × Bool) × Meta
shared_meta_open how none = reset_meta how none
shared_meta_open how (some bytes) =
    if not (length (take 24 bytes) == 24) || not ((read_meta bytes).magic == shared_magic)
    then reset_meta how (some bytes)
    else ((some bytes, true), read_meta bytes)

-- `kanbudb_shared_meta_reader_join` and `kanbudb_shared_meta_reader_leave`.
unfoldable pub reader_join : WriteResult → Meta → Option Bytes → (Option Bytes × Bool) × Meta
reader_join how m disk =
    let joined = record m { reader_count = (m.reader_count + 1) % 2 ^ 32 } in
    (shared_meta_write how joined disk, joined)

unfoldable pub reader_leave : WriteResult → Meta → Option Bytes → (Option Bytes × Bool) × Meta
reader_leave how m disk =
    let left = if ltb 0 m.reader_count then record m { reader_count = m.reader_count - 1 } else m in
    (shared_meta_write how left disk, left)
