-- ===== src/SharedMeta/Atomic.antt =====
-- What a process that opens the metadata of src/storage/shared_meta.c finds after a write.
use kanbudb.Prelude.{◌+◌, ◌-◌, ◌%◌, ◌^◌, ◌<◌, ◌≡◌, refl, true, Option, some, arith, ltb, Bytes}
use kanbudb.SharedMeta.{
  Meta, shared_magic, meta_bytes, WriteResult, shared_meta_write, reader_join, reader_leave,
}

-- Metadata as the code keeps it: the magic number, and words.
pub record IsMeta (m : Meta) : Type 0 where
  pub magic : m.magic ≡ shared_magic
  pub seq_word : m.flushed_seq < 2 ^ 64
  pub version_word : m.wal_version < 2 ^ 32
  pub count_word : m.reader_count < 2 ^ 32

-- A reader that joins and leaves again, both writes succeeding, leaves the file with the metadata that
-- it began with, where the count of readers is below its limit.
pub reader_leave-reader_join :
    (m : Meta) (disk : Option Bytes)
    → m.reader_count + 1 < 2 ^ 32
    → (reader_leave WriteResult.done
        (reader_join WriteResult.done m disk).1
        (reader_join WriteResult.done m disk).0.0)
      ≡ ((some (meta_bytes m), true), m)
unfolding reader_leave reader_join shared_meta_write
reader_leave-reader_join m disk h =
    let up : (m.reader_count + 1) % 2 ^ 32 ≡ m.reader_count + 1 = omega (arith, h) in
    let down : m.reader_count + 1 - 1 ≡ m.reader_count = omega arith in
    let pos : ltb 0 (m.reader_count + 1) ≡ true = ground arith in rw up (rw pos (rw down refl))
