-- ===== src/Wal/Log.antt =====
-- The state of a log and its operations: `wal_destroy`, `wal_create`, `wal_flush_buf`, `wal_append`, `wal_sync`,
-- `wal_truncate` and `wal_last_seq` of src/storage/wal.c, on the stdio path (io_uring is a build
-- option). `fwrite` is a parameter: of a request for n bytes it writes `fwrite n`.
use kanbudb.Prelude.{
  ℕ, ◌+◌, ◌-◌, ◌%◌, ◌^◌, Bool, true, false, ◌&&◌, ◌||◌, Option, none, some, [], ◌++◌, leb, ◌==◌,
  if◌then◌else◌, length, take, Bytes, le_bytes, of_le, read_bytes,
}
use kanbudb.Status.{Status, is_ok}
use kanbudb.Wal.Entry.{Op, Entry, wal_serialize}

pub data FsyncMode : Type 0 where
  never periodic always : FsyncMode

-- `wal->file`: `NULL`, opened with "a+b", or with "wb".
pub data Stream : Type 0 where
  closed append_read write_only : Stream

-- `file` is the contents of the stream, of which the first `flushed` bytes have been through
-- `fflush` (or `fclose`). `buf` is the first `buf_len` bytes of the write buffer.
pub record Wal : Type 0 where
  pub fsync_mode : FsyncMode
  pub seq : ℕ
  pub file_pos : ℕ
  pub periodic_count : ℕ
  pub buf : Bytes
  pub stream : Stream
  pub file : Bytes
  pub flushed : ℕ

abbrev pub wal_buf_size : ℕ
wal_buf_size = 65536

abbrev pub header_size : ℕ
header_size = 20

-- The magic number, the version and the sequence number.
unfoldable pub wal_header : ℕ → Bytes
wal_header seq = le_bytes 8 0x4845524D4553 ++ (le_bytes 4 1 ++ le_bytes 8 seq)

-- `fread` of the three header fields, and the tests on the first two.
unfoldable pub read_header : Bytes → Option ℕ
read_header bs = elim (read_bytes 8 bs) [
  | none ↦ none
  | some (magic, b1) ↦ elim (read_bytes 4 b1) [
    | none ↦ none
    | some (version, b2) ↦
        if of_le magic == 0x4845524D4553 && of_le version == 1
        then elim (read_bytes 8 b2) [ none ↦ none | some (seq, b3) ↦ some (of_le seq) ]
        else none
  ]
]

-- `wal_create` over what the file holds, where the file can be opened.
unfoldable pub wal_create : FsyncMode → Bytes → Option Wal
wal_create mode [] = some (record {
  fsync_mode = mode;
  seq = 0;
  file_pos = header_size;
  periodic_count = 0;
  buf = [];
  stream = Stream.append_read;
  file = wal_header 0;
  flushed = header_size;
})
wal_create mode disk = elim (read_header disk) [
  | none ↦ none
  | some seq ↦ some (record {
    fsync_mode = mode;
    seq = seq;
    file_pos = length disk;
    periodic_count = 0;
    buf = [];
    stream = Stream.append_read;
    file = disk;
    flushed = length disk;
  })
]

-- `fsync_mode == ALWAYS || (fsync_mode == PERIODIC && periodic_count >= 1000)`
abbrev pub sync_due : FsyncMode → ℕ → Bool
sync_due FsyncMode.never n = false
sync_due FsyncMode.periodic n = leb 1000 n
sync_due FsyncMode.always n = true

abbrev pub is_always : FsyncMode → Bool
is_always FsyncMode.always = true
is_always _ = false

-- The buffer has been written: the optional `fflush`, and the new positions.
unfoldable pub buf_written : Wal → Wal
buf_written wal =
    let file = wal.file ++ wal.buf in
    let due = sync_due wal.fsync_mode wal.periodic_count in
    record wal {
      file_pos = wal.file_pos + length wal.buf;
      periodic_count = if due then 0 else wal.periodic_count;
      buf = [];
      file = file;
      flushed = if due then length file else wal.flushed;
    }

module _ (fwrite : ℕ → ℕ) where
  -- `wal_flush_buf`
  unfoldable pub wal_flush_buf : Wal → Wal × Status
  wal_flush_buf wal = if length wal.buf == 0 then (wal, Status.ok) else elim wal.stream [
    | Stream.closed ↦ (wal, Status.ok)
    | _ ↦
        if fwrite (length wal.buf) == length wal.buf
        then (buf_written wal, Status.ok)
        else (record wal { file = wal.file ++ take (fwrite (length wal.buf)) wal.buf }, Status.io)
  ]

  -- The end of `wal_append`, when the entry has been serialized into the buffer.
  unfoldable pub append_entry : Wal → Bytes → Wal × Status
  append_entry w bytes =
      let wal = record w { buf = w.buf ++ bytes; periodic_count = w.periodic_count + 1 } in
      if is_always wal.fsync_mode || leb 32768 (length wal.buf)
      then wal_flush_buf wal
      else (wal, Status.ok)

  -- The retry of `wal_append` after the flush of a full buffer.
  unfoldable pub append_retry : Wal × Status → Entry → Wal × Status
  append_retry (wal, rc) e =
      if is_ok rc
      then elim (wal_serialize (wal_buf_size - length wal.buf) e) [
        | none ↦ (wal, Status.io)
        | some bytes ↦ append_entry wal bytes
      ]
      else (wal, rc)

  -- `wal_append`
  unfoldable pub wal_append : Wal → Op → ℕ → Bytes → Option Bytes → ℕ → Wal × Status
  wal_append w op table_id key value val_len =
      let wal = record w { seq = (w.seq + 1) % 2 ^ 64 } in
      let e : Entry = record {
        seq = wal.seq;
        op = op;
        table_id = table_id;
        key = key;
        value = value;
        val_len = val_len;
      } in
      elim (wal_serialize (wal_buf_size - length wal.buf) e) [
        | some bytes ↦ append_entry wal bytes
        | none ↦ append_retry (wal_flush_buf wal) e
      ]

  -- `wal_sync`
  unfoldable pub wal_sync : Wal → Wal × Status
  wal_sync w =
      let (wal, rc) = wal_flush_buf w in
      if is_ok rc
      then (record wal { flushed = length wal.file; periodic_count = 0 }, Status.ok)
      else (wal, rc)

-- `wal_last_seq`
unfoldable pub wal_last_seq : Wal → ℕ
wal_last_seq wal = wal.seq

-- How the calls of `wal_truncate` to the system go: `open` fails, `fopen` fails, the header is cut
-- after some bytes, or all succeed.
pub data Reopen : Type 0 where
  open_fails fopen_fails : Reopen
  header_fails : ℕ → Reopen
  reopened : Reopen

-- `wal_truncate`; the result of its flush is not looked at.
unfoldable pub wal_truncate : (ℕ → ℕ) → Reopen → Wal → Wal × Status
wal_truncate fwrite how w =
    let wal = (wal_flush_buf fwrite w).0 in
    elim how [
      | Reopen.open_fails ↦
          (record wal { stream = Stream.closed; flushed = length wal.file }, Status.io)
      | Reopen.fopen_fails ↦
          (record wal { stream = Stream.closed; file = []; flushed = 0 }, Status.io)
      | Reopen.header_fails n ↦ (
        record wal { stream = Stream.write_only; file = take n (wal_header wal.seq); flushed = 0 },
        Status.io,
      )
      | Reopen.reopened ↦ (
        record wal {
          stream = Stream.write_only;
          file = wal_header wal.seq;
          flushed = header_size;
          file_pos = header_size;
          buf = [];
          periodic_count = 0;
        },
        Status.ok,
      )
    ]

-- `wal_destroy`, as far as the file goes: the buffer is flushed, and `fclose` passes on the stream.
unfoldable pub wal_destroy : (ℕ → ℕ) → Wal → Wal
wal_destroy fwrite w =
    let wal = (wal_flush_buf fwrite w).0 in
    record wal { stream = Stream.closed; flushed = length wal.file }
