-- ===== src/WalMmap/Reads.antt =====
-- A reader of the shared log, src/storage/wal_mmap.c, sees what a writer appended.
use mathlib.Core.List.{append_assoc}
use kanbudb.Prelude.{
  ℕ, ◌+◌, ◌-◌, ◌^◌, ◌≤◌, ◌<◌, ◌≡◌, refl, sym, ap, ◌∙◌, true, false, ◌&&◌, Option, none, some, ◌++◌,
  arith, ltb, leb, ◌==◌, if◌then◌else◌, lt→ltb, le→ltb_false, length, take, drop, length-append,
  length-take, take-append, drop-append, take-length, Bytes, le_bytes, length-le_bytes,
  of_le-le_bytes,
}
use kanbudb.Wal.Entry.{
  Op, op_byte, op_of_byte, Entry, payload, entry_size, encode, HasValue, IsEntry,
}
use kanbudb.WalMmap.{
  Region, serialize_entry, wal_mmap_append, ReadEntry, read_fields, wal_mmap_read_entry,
}

abbrev pub entry_read : Entry → ReadEntry
entry_read e = record {
  seq = e.seq;
  op = e.op;
  table_id = e.table_id;
  key = e.key;
  value = e.value;
}

-- The fields that a reader makes of these numbers and the bytes behind them.
abbrev fields : ℕ → ℕ → ℕ → ℕ → ℕ → Bytes → ReadEntry × ℕ
fields seq op_u8 table_id kl vl rest =
    let has_value = op_u8 == 0 && ltb 0 vl in
    (
      record {
        seq = seq;
        op = op_of_byte op_u8;
        table_id = table_id;
        key = take kl rest;
        value = if has_value then some (take vl (drop kl rest)) else none;
      },
      if has_value then 33 + kl + vl else 33 + kl,
    )

read_fields-le_bytes :
    (seq op_u8 table_id kl vl : ℕ) (rest : Bytes)
    → seq < 2 ^ 64
    → op_u8 < 256
    → table_id < 2 ^ 64
    → kl < 2 ^ 64
    → vl < 2 ^ 64
    → read_fields (
        le_bytes 8 seq
        ++ (le_bytes 1 op_u8
            ++ (le_bytes 8 table_id ++ (le_bytes 8 kl ++ (le_bytes 8 vl ++ rest)))))
      ≡ fields seq op_u8 table_id kl vl rest
unfolding read_fields le_bytes
read_fields-le_bytes seq op_u8 table_id kl vl rest hs ho ht hk hv =
    let s = of_le-le_bytes 8 seq hs in
    let o = of_le-le_bytes 1 op_u8 ho in
    let t = of_le-le_bytes 8 table_id ht in
    let k = of_le-le_bytes 8 kl hk in let v = of_le-le_bytes 8 vl hv in rw (s, o, t, k, v)

fields-payload :
    (seq table_id n : ℕ) (key rest : Bytes) (op : Op) (value : Option Bytes)
    → HasValue op value n
    → fields seq (op_byte op) table_id (length key) n (key ++ (payload op value n ++ rest)) ≡ (
      record { seq = seq; op = op; table_id = table_id; key = key; value = value },
      33 + (length key + length (payload op value n)),
    )
fields-payload seq table_id n key rest Op.put (some w) h =
    let all : take n w ≡ w = rw (← h.1) (take-length w) in
    let whole : take n (w ++ rest) ≡ w = rw (← h.1) (take-append w rest) in
    let pos : ltb 0 n ≡ true = lt→ltb 0 n h.0 in
    rw (all, pos, take-append, drop-append) (rw whole (ground (arith, h.1)))
fields-payload seq table_id n key rest Op.put none h = rw (h, take-append) (ground arith)
fields-payload seq table_id n key rest Op.delete none h = rw take-append (ground arith)
fields-payload seq table_id n key rest Op.delete (some w) h = elim h [ ]

op_byte-lt : (op : Op) → op_byte op < 256
op_byte-lt Op.put = omega arith
op_byte-lt Op.delete = omega arith

pub length-encode_fields :
    (e : Entry) → length (encode e) ≡ 33 + (length e.key + length (payload e.op e.value e.val_len))
unfolding encode
length-encode_fields e = simp (length-append, length-le_bytes) (ground arith)

pub read_fields-encode :
    (e : Entry) (rest : Bytes)
    → IsEntry e
    → read_fields (encode e ++ rest) ≡ (entry_read e, length (encode e))
unfolding encode
read_fields-encode e rest v = simp append_assoc (
    rw
      (read_fields-le_bytes e.seq (op_byte e.op) e.table_id (length e.key) e.val_len
        (e.key ++ (payload e.op e.value e.val_len ++ rest)) v.seq_word (op_byte-lt e.op)
        v.table_word (omega (arith, v.key_short)) (omega (arith, v.val_short)))
      (fields-payload e.seq e.table_id e.val_len e.key rest e.op e.value v.has_value
        ∙ ap (λ m. (entry_read e, m)) (sym (length-encode_fields e))))

drop-append_at : (n : ℕ) (xs ys : Bytes) → length xs ≡ n → drop n (xs ++ ys) ≡ ys
drop-append_at n xs ys h = rw (← h) (drop-append xs ys)

-- Where a reader has read up to the writer's position and a legal entry that fits is appended, the
-- reader then reads exactly that entry, and has again read up to the writer's position.
pub wal_mmap_read_entry-wal_mmap_append :
    (wm : Region) (e : Entry)
    → IsEntry e
    → wm.write_pos ≤ length wm.data_bytes
    → entry_size e.op (length e.key) e.val_len ≤ length wm.data_bytes - wm.write_pos
    → (u : Region) × (pos : ℕ) × (wal_mmap_append wm e ≡ some (u, pos))
      × (wal_mmap_read_entry u wm.write_pos ≡ some (entry_read e, pos))
      × (pos ≡ u.write_pos)
unfolding wal_mmap_append serialize_entry wal_mmap_read_entry
wal_mmap_read_entry-wal_mmap_append wm e v inside fits =
    let size : 33 ≤ length (encode e) = omega (arith, length-encode_fields e) in
    let front = take wm.write_pos wm.data_bytes in
    let rest = drop (wm.write_pos + length (encode e)) wm.data_bytes in
    let dropped =
      drop-append_at wm.write_pos front (encode e ++ rest)
        (length-take wm.write_pos wm.data_bytes inside) in
    let more : leb (wm.write_pos + length (encode e)) wm.write_pos ≡ false = ground (arith, size) in
    let long : ltb (wm.write_pos + length (encode e) - wm.write_pos) 33 ≡ false =
      ground (arith, size) in
    (
      record {
        data_bytes = front ++ (encode e ++ rest);
        write_pos = wm.write_pos + length (encode e);
      },
      wm.write_pos + length (encode e),
      rw (le→ltb_false (length wm.data_bytes - wm.write_pos) _ fits, wal_mmap_append),
      rw (more, long, dropped, read_fields-encode e rest v, wal_mmap_read_entry),
      refl,
    )
