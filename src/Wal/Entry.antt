-- ===== src/Wal/Entry.antt =====
-- One entry of the write-ahead log: `wal_serialize` of src/storage/wal.c, and the reads that
-- `wal_replay` makes of one entry. A byte buffer is the list of its bytes, and `NULL` is `none`.
use kanbudb.Prelude.{
  ℕ, ◌+◌, ◌^◌, ◌≤◌, ◌<◌, ◌≡◌, ◌&&◌, ◌||◌, Option, none, some, [], ◌++◌, length, take, Bytes,
  le_bytes, of_le, read_bytes, ltb, ◌==◌, if◌then◌else◌,
}

pub data Op : Type 0 where
  put delete : Op

-- `op_u8`
abbrev pub op_byte : Op → ℕ
op_byte Op.put = 0
op_byte Op.delete = 1

-- `(op_u8 == 0) ? KANBUDB_WAL_PUT : KANBUDB_WAL_DELETE`
abbrev pub op_of_byte : ℕ → Op
op_of_byte b = if b == 0 then Op.put else Op.delete

-- What one entry holds, as `wal_replay` hands it to its callback.
pub record Entry : Type 0 where
  pub seq : ℕ
  pub op : Op
  pub table_id : ℕ
  pub key : Bytes
  pub value : Option Bytes
  pub val_len : ℕ

-- `op_u8 == 0 && value && val_len > 0`: the value bytes that are copied.
abbrev pub payload : Op → Option Bytes → ℕ → Bytes
payload Op.put (some v) n = take n v
payload Op.put none n = []
payload Op.delete v n = []

-- `needed`
abbrev pub entry_size : Op → ℕ → ℕ → ℕ
entry_size Op.put key_len val_len = 33 + key_len + val_len
entry_size Op.delete key_len val_len = 33 + key_len

unfoldable pub encode : Entry → Bytes
encode e =
    le_bytes 8 e.seq
    ++ (le_bytes 1 (op_byte e.op)
        ++ (le_bytes 8 e.table_id
            ++ (le_bytes 8 (length e.key)
                ++ (le_bytes 8 e.val_len ++ (e.key ++ payload e.op e.value e.val_len)))))

-- `wal_serialize`: the bytes written, or `none` (-1) when they do not fit in `cap`.
unfoldable pub wal_serialize : ℕ → Entry → Option Bytes
wal_serialize cap e =
    if ltb cap (entry_size e.op (length e.key) e.val_len) then none else some (encode e)

-- One round of the loop of `wal_replay`: the end of the log (`break`), a refusal
-- (`KANBUDB_ERR_CORRUPT`), or an entry with the bytes that follow it.
pub data Parsed : Type 0 where
  stop corrupt : Parsed
  entry : Entry → Bytes → Parsed

-- `fread` of `n` bytes, and what to do when they are not there.
unfoldable pub read_or : Parsed → ℕ → Bytes → (Bytes → Bytes → Parsed) → Parsed
read_or miss n bs k = elim (read_bytes n bs) [ none ↦ miss | some (front, rest) ↦ k front rest ]

abbrev pub max_len : ℕ
max_len = 1048576

-- The reads of the value.
unfoldable pub parse_value : ℕ → ℕ → ℕ → ℕ → Bytes → Bytes → Parsed
parse_value seq op_u8 table_id val_len key bs =
    if op_u8 == 0 && ltb 0 val_len
    then read_or Parsed.corrupt val_len bs (λ v rest.
      Parsed.entry
        (record {
          seq = seq;
          op = op_of_byte op_u8;
          table_id = table_id;
          key = key;
          value = some v;
          val_len = val_len;
        })
        rest)
    else Parsed.entry
        (record {
          seq = seq;
          op = op_of_byte op_u8;
          table_id = table_id;
          key = key;
          value = none;
          val_len = val_len;
        })
        bs

-- The limit on both lengths, and the reads of the key and the value.
unfoldable pub parse_body : ℕ → ℕ → ℕ → ℕ → ℕ → Bytes → Parsed
parse_body seq op_u8 table_id key_len val_len bs =
    if ltb max_len key_len || ltb max_len val_len
    then Parsed.corrupt
    else read_or Parsed.corrupt key_len bs
        (λ key rest. parse_value seq op_u8 table_id val_len key rest)

unfoldable pub parse_entry : Bytes → Parsed
parse_entry b0 = read_or Parsed.stop 8 b0 (λ s b1. read_or Parsed.stop 1 b1 (λ o b2.
    read_or Parsed.stop 8 b2 (λ t b3. read_or Parsed.stop 8 b3 (λ k b4.
      read_or Parsed.stop 8 b4
        (λ v b5. parse_body (of_le s) (of_le o) (of_le t) (of_le k) (of_le v) b5)))))

-- An entry that `wal_replay` can return: machine-width numbers, lengths within the limit, and a
-- value exactly for a put with a positive length.
abbrev pub HasValue : Op → Option Bytes → ℕ → Type 0
HasValue Op.put (some v) n = (0 < n) × (length v ≡ n)
HasValue Op.put none n = n ≡ 0
HasValue Op.delete (some v) n = ⊥
HasValue Op.delete none n = Unit

pub record IsEntry (e : Entry) : Type 0 where
  pub seq_word : e.seq < 2 ^ 64
  pub table_word : e.table_id < 2 ^ 64
  pub key_short : length e.key ≤ max_len
  pub val_short : e.val_len ≤ max_len
  pub has_value : HasValue e.op e.value e.val_len
