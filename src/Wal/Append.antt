-- ===== src/Wal/Append.antt =====
-- `wal_append` of src/storage/wal.c: what it adds to the log, and when it refuses.
use kanbudb.Prelude.{
  ℕ, zero, suc, ◌+◌, ◌-◌, ◌%◌, ◌^◌, ◌≤◌, ◌<◌, ◌≡◌, refl, ap, ◌∙◌, ◌≢◌, inl, inr, Option, none, some,
  [], ◌∷◌, ◌++◌, arith, ltb, Bool-cases, ltb→lt, lt→ltb, ltb-false, le→ltb_false, length, take,
  length-append, Bytes, le_bytes, length-le_bytes,
}
use kanbudb.Wal.Entry.{Op, Entry, payload, entry_size, encode, wal_serialize}
use kanbudb.Status.{Status}
use kanbudb.Wal.Contents.{
  contents, IsValid, Flushed-contents, Appended, wal_flush_buf_full, append_entry-Appended,
}
use kanbudb.Wal.Log.{FsyncMode, Wal, wal_buf_size, wal_flush_buf, append_retry, wal_append}

length-take-le : (n : ℕ) (xs : Bytes) → length (take n xs) ≤ n
length-take-le zero xs = omega arith
length-take-le (suc n) [] = omega arith
length-take-le (suc n) (x ∷ xs) = omega (arith, length-take-le n xs)

-- The size that is checked covers what is written.
pub length-encode : (e : Entry) → length (encode e) ≤ entry_size e.op (length e.key) e.val_len
unfolding encode
length-encode e = simp (length-append, length-le_bytes) (go e.op e.value)
  where
    go :
        (op : Op) (value : Option Bytes)
        → 8 + (1 + (8 + (8 + (8 + (length e.key + length (payload op value e.val_len))))))
          ≤ entry_size op (length e.key) e.val_len
    go Op.put (some v) = omega (arith, length-take-le e.val_len v)
    go Op.put none = omega arith
    go Op.delete v = omega arith

encode-ne-nil : (e : Entry) → encode e ≢ []
unfolding encode le_bytes
encode-ne-nil e h = cc h

-- The entry that `wal_append` serializes, and the log with its sequence number taken.
abbrev pub next_seq : Wal → Wal
next_seq w = record w { seq = (w.seq + 1) % 2 ^ 64 }

abbrev pub request : Wal → Op → ℕ → Bytes → Option Bytes → ℕ → Entry
request w op table_id key value val_len = record {
  seq = (w.seq + 1) % 2 ^ 64;
  op = op;
  table_id = table_id;
  key = key;
  value = value;
  val_len = val_len;
}

next_seq-IsValid : (w : Wal) → IsValid w → IsValid (next_seq w)
next_seq-IsValid w v = record {
  short = v.short;
  position = v.position;
  synced = v.synced;
  word = omega arith;
  opened = v.opened;
}

serialize_fits :
    (cap : ℕ) (e : Entry)
    → entry_size e.op (length e.key) e.val_len ≤ cap
    → wal_serialize cap e ≡ some (encode e)
unfolding wal_serialize
serialize_fits cap e h = rw (le→ltb_false cap _ h)

serialize_full :
    (cap : ℕ) (e : Entry)
    → cap < entry_size e.op (length e.key) e.val_len
    → wal_serialize cap e ≡ none
unfolding wal_serialize
serialize_full cap e h = rw (lt→ltb cap _ h)

module _ (fwrite : ℕ → ℕ) (full : (n : ℕ) → fwrite n ≡ n) where
  module _ (w : Wal) (v : IsValid w) (op : Op) (table_id : ℕ) (key : Bytes) (value : Option Bytes)
      (val_len : ℕ) where
    abbrev e : Entry
    e = request w op table_id key value val_len

    -- The retry, after a flush that wrote everything.
    append_retry-Appended :
        entry_size op (length key) val_len ≤ wal_buf_size
        → Appended
            (next_seq w)
            (encode e)
            (append_retry fwrite (wal_flush_buf fwrite (next_seq w)) e)
    unfolding append_retry
    append_retry-Appended fits =
        let (done, f) = wal_flush_buf_full fwrite full (next_seq w) (next_seq-IsValid w v) in
        let flushed : Wal = (wal_flush_buf fwrite (next_seq w)).0 in
        let cap : wal_buf_size - length flushed.buf ≡ wal_buf_size = rw f.emptied in
        let a =
          append_entry-Appended fwrite full flushed (encode e) f.valid
            (rw f.emptied (omega (arith, length-encode e))) in
        rw done (
          rw (serialize_fits (wal_buf_size - length flushed.buf) e (rw cap fits)) (record {
            succeeds = a.succeeds;
            grown = a.grown ∙ ap (λ t. t ++ encode e) (Flushed-contents (next_seq w) flushed f);
            same_seq = a.same_seq ∙ f.same_seq;
            same_stream = a.same_stream ∙ f.same_stream;
            valid = a.valid;
            durable = λ m n. a.durable (f.same_mode ∙ m) n;
          }))

    pub wal_append-Appended :
        entry_size op (length key) val_len ≤ wal_buf_size
        → Appended (next_seq w) (encode e) (wal_append fwrite w op table_id key value val_len)
    unfolding wal_append
    wal_append-Appended fits =
        elim (Bool-cases (ltb (wal_buf_size - length w.buf) (entry_size op (length key) val_len))) [
          | inl h ↦
              rw (serialize_full (wal_buf_size - length w.buf) e (ltb→lt _ _ h), wal_append)
                (append_retry-Appended fits)
          | inr h ↦
              rw (serialize_fits (wal_buf_size - length w.buf) e (ltb-false _ _ h), wal_append)
                (append_entry-Appended fwrite full (next_seq w) (encode e) (next_seq-IsValid w v)
                  (omega (arith, v.short, length-encode e, ltb-false _ _ h)))
        ]

    -- On a valid log, where `fwrite` writes all it is given, appending an entry of at most 64 KiB
    -- succeeds, puts exactly the bytes of that entry, with the next sequence number, behind the
    -- contents of the log, and keeps the log valid.
    pub wal_append-contents :
        entry_size op (length key) val_len ≤ wal_buf_size
        → ((wal_append fwrite w op table_id key value val_len).1 ≡ Status.ok)
          × (contents (wal_append fwrite w op table_id key value val_len).0
              ≡ contents w ++ encode (request w op table_id key value val_len))
          × ((wal_append fwrite w op table_id key value val_len).0.seq ≡ (w.seq + 1) % 2 ^ 64)
          × IsValid (wal_append fwrite w op table_id key value val_len).0
    wal_append-contents fits =
        let a = wal_append-Appended fits in (a.succeeds, a.grown, a.same_seq, a.valid)

    -- With FSYNC_ALWAYS, after the append of an entry of at most 64 KiB to a valid log, where
    -- `fwrite` writes all it is given, the buffer is empty and all of the file has been flushed.
    pub wal_append_always :
        w.fsync_mode ≡ FsyncMode.always
        → entry_size op (length key) val_len ≤ wal_buf_size
        → ((wal_append fwrite w op table_id key value val_len).0.buf ≡ [])
          × ((wal_append fwrite w op table_id key value val_len).0.flushed
              ≡ length (wal_append fwrite w op table_id key value val_len).0.file)
    wal_append_always always fits = (wal_append-Appended fits).durable always (encode-ne-nil e)

    -- On a valid log, where `fwrite` writes all it is given, appending an entry of more than 64 KiB
    -- answers an I/O error and keeps the contents of the log, but takes a sequence number.
    pub wal_append_too_large :
        wal_buf_size < entry_size op (length key) val_len
        → ((wal_append fwrite w op table_id key value val_len).1 ≡ Status.io)
          × (contents (wal_append fwrite w op table_id key value val_len).0 ≡ contents w)
          × ((wal_append fwrite w op table_id key value val_len).0.seq ≡ (w.seq + 1) % 2 ^ 64)
    unfolding wal_append append_retry
    wal_append_too_large large =
        let (done, f) = wal_flush_buf_full fwrite full (next_seq w) (next_seq-IsValid w v) in
        let flushed : Wal = (wal_flush_buf fwrite (next_seq w)).0 in
        rw (serialize_full (wal_buf_size - length w.buf) e (omega (arith, large)), wal_append)
          (rw done (
            rw (serialize_full (wal_buf_size - length flushed.buf) e (omega (arith, large)))
              (refl, Flushed-contents (next_seq w) flushed f, f.same_seq)))
