-- ===== src/Wal/Recovery.antt =====
-- Reopening and replaying a log: `wal_create`, `wal_replay` and `wal_truncate` of
-- src/storage/wal.c together.
use mathlib.Core.List.{append-nil, append_assoc}
use kanbudb.Prelude.{
  ℕ, suc, ◌+◌, ◌%◌, ◌^◌, ◌≤◌, ◌<◌, ◌≡◌, refl, sym, ap, ◌∙◌, Option, some, List, [], ◌∷◌, ◌++◌,
  arith, length, drop, All, length-append, drop-append, Bytes, le_bytes, length-le_bytes,
  of_le-le_bytes, read_bytes-le_bytes,
}
use kanbudb.Status.{Status}
use kanbudb.Wal.Entry.{Op, Entry, entry_size, IsEntry}
use kanbudb.Wal.Log.{
  FsyncMode, Stream, Wal, wal_buf_size, header_size, wal_header, read_header, wal_create,
  wal_flush_buf, wal_append, Reopen, wal_truncate,
}
use kanbudb.Wal.Contents.{contents, IsValid, wal_flush_buf_full}
use kanbudb.Wal.Append.{wal_append-Appended}
use kanbudb.Wal.Replay.{
  Splits, wal_replay, apply_all, replay_loop-Splits, Splits-exists, encode_all, Tail,
  replay_loop-encode_all,
}

length-wal_header : (seq : ℕ) → length (wal_header seq) ≡ header_size
unfolding wal_header
length-wal_header seq = simp (length-append, length-le_bytes)

-- The header that is written is accepted, and gives back the sequence number.
read_header-wal_header :
    (seq : ℕ) (rest : Bytes) → seq < 2 ^ 64 → read_header (wal_header seq ++ rest) ≡ some seq
unfolding read_header wal_header
read_header-wal_header seq rest h = simp append_assoc (
    rw
      (read_bytes-le_bytes 8 0x4845524D4553 (le_bytes 4 1 ++ (le_bytes 8 seq ++ rest)), read_header)
      (rw (read_bytes-le_bytes 4 1 (le_bytes 8 seq ++ rest)) (
        rw (of_le-le_bytes 8 0x4845524D4553 (omega arith)) (
          rw (of_le-le_bytes 4 1 (omega arith))
            (rw (read_bytes-le_bytes 8 seq rest) (ap some (of_le-le_bytes 8 seq h)))))))

drop_header : (seq : ℕ) (bs : Bytes) → drop header_size (wal_header seq ++ bs) ≡ bs
drop_header seq bs = rw (← length-wal_header seq) (drop-append (wal_header seq) bs)

pub wal_create-wal_header :
    (mode : FsyncMode) (seq : ℕ) (rest : Bytes)
    → seq < 2 ^ 64
    → (w : Wal) × (wal_create mode (wal_header seq ++ rest) ≡ some w)
      × (w.seq ≡ seq)
      × (contents w ≡ wal_header seq ++ rest)
      × (w.stream ≡ Stream.append_read)
      × IsValid w
unfolding wal_create
wal_create-wal_header mode seq rest h = go (wal_header seq ++ rest) refl
  where
    go :
        (disk : Bytes)
        → wal_header seq ++ rest ≡ disk
        → (w : Wal) × (wal_create mode disk ≡ some w)
          × (w.seq ≡ seq)
          × (contents w ≡ disk)
          × (w.stream ≡ Stream.append_read)
          × IsValid w
    go [] e =
        absurd
          (omega (arith, ap length e, length-append (wal_header seq) rest, length-wal_header seq))
    go (b ∷ disk) e =
        let opened : read_header (b ∷ disk) ≡ some seq =
          rw e at (read_header-wal_header seq rest h) in
        let u : Wal = record {
          fsync_mode = mode;
          seq = seq;
          file_pos = length (b ∷ disk);
          periodic_count = 0;
          buf = [];
          stream = Stream.append_read;
          file = b ∷ disk;
          flushed = length (b ∷ disk);
        } in
        (
          u,
          rw (opened, wal_create),
          refl,
          append-nil (b ∷ disk),
          refl,
          record {
            short = omega arith;
            position = refl;
            synced = omega arith;
            word = h;
            opened = λ p. cc p;
          },
        )

module _ (fwrite : ℕ → ℕ) (full : (n : ℕ) → fwrite n ≡ n) where
  wal_truncate-IsValid :
      (w : Wal)
      → IsValid w
      → ((wal_truncate fwrite Reopen.reopened w).0.stream ≡ Stream.write_only)
        × ((wal_truncate fwrite Reopen.reopened w).0.seq ≡ w.seq)
        × IsValid (wal_truncate fwrite Reopen.reopened w).0
  unfolding wal_truncate
  wal_truncate-IsValid w v =
      let (done, f) = wal_flush_buf_full fwrite full w v in
      (
        refl,
        f.same_seq,
        record {
          short = omega arith;
          position = sym (length-wal_header _);
          synced = rw length-wal_header (omega arith);
          word = rw f.same_seq v.word;
          opened = λ p. cc p;
        },
      )

module _ {ℓ} {S : Type ℓ} (callback : S → Entry → S × Status) (fwrite : ℕ → ℕ)
    (full : (n : ℕ) → fwrite n ≡ n) where
  -- On a valid log whose stream can be read, which holds a header, legal entries and an end that is
  -- empty or a proper prefix of a legal entry, and where `fwrite` writes all it is given,
  -- `wal_replay` runs the callback on exactly those entries, in order, until one is refused. When
  -- none is, its status is OK or CORRUPT, as the reads of the end decide.
  pub wal_replay_recovers :
      (w : Wal) (q : ℕ) (es : List Entry) (tail : Bytes) (s : S)
      → IsValid w
      → w.stream ≡ Stream.append_read
      → contents w ≡ wal_header q ++ (encode_all es ++ tail)
      → All IsEntry es
      → Tail tail
      → (end : Status) × Splits tail [] end
        × ((wal_replay callback fwrite w s).1 ≡ some (apply_all callback w.seq s es end))
  unfolding wal_replay
  wal_replay_recovers w q es tail s v open_read held legal t =
      let (done, f) = wal_flush_buf_full fwrite full w v in
      let flushed : Wal = (wal_flush_buf fwrite w).0 in
      let (end, d, r) = replay_loop-encode_all callback es tail flushed.seq s legal t in
      (
        end,
        d,
        rw (f.same_stream ∙ open_read, wal_replay)
            (rw (f.moved ∙ held) (
              rw (drop_header q (encode_all es ++ tail))
                (r ∙ ap (λ q. some (apply_all callback q s es end)) f.same_seq))),
      )

  -- On a valid log whose stream can be read, whatever bytes follow its header, and where `fwrite`
  -- writes all it is given, `wal_replay` ends: it runs the callback on the entries that those bytes
  -- hold, in order, until one is refused. When none is, its status says how the reads ended.
  pub wal_replay_ends :
      (w : Wal) (s : S)
      → IsValid w
      → w.stream ≡ Stream.append_read
      → (es : List Entry) × (end : Status) × Splits (drop header_size (contents w)) es end
        × ((wal_replay callback fwrite w s).1 ≡ some (apply_all callback w.seq s es end))
  unfolding wal_replay
  wal_replay_ends w s v open_read =
      let (done, f) = wal_flush_buf_full fwrite full w v in
      let flushed : Wal = (wal_flush_buf fwrite w).0 in
      let bs = drop header_size (contents w) in
      let (es, end, d) = Splits-exists (suc (length bs)) bs (omega arith) in
      (
        es,
        end,
        d,
        rw (f.same_stream ∙ open_read, wal_replay)
            (rw f.moved (
              replay_loop-Splits callback (suc (length bs)) flushed.seq s d (omega arith)
              ∙ ap (λ q. some (apply_all callback q s es end)) f.same_seq)),
      )

  -- After `wal_truncate` of a valid log, whose system calls succeed, the buffer is empty, and
  -- `wal_create` on what the file then holds makes a valid log with the same sequence number.
  pub wal_create-wal_truncate :
      (w : Wal) (mode : FsyncMode)
      → IsValid w
      → (u : Wal) × (wal_create mode (wal_truncate fwrite Reopen.reopened w).0.file ≡ some u)
        × (u.seq ≡ w.seq)
        × ((wal_truncate fwrite Reopen.reopened w).0.buf ≡ [])
        × IsValid u
  unfolding wal_truncate
  wal_create-wal_truncate w mode v =
      let (done, f) = wal_flush_buf_full fwrite full w v in
      let (u, made, same, held, stream, valid) = wal_create-wal_header mode w.seq [] v.word in
      (u, rw (f.same_seq, ← append-nil (wal_header w.seq)) made, same, refl, valid)

  -- After `wal_truncate` of a valid log and the append of an entry of at most 64 KiB, `wal_replay`
  -- on the same log returns OK with the callback's state as it was: the entry is not replayed.
  pub wal_replay-wal_truncate :
      (w : Wal) (op : Op) (table_id : ℕ) (key : Bytes) (value : Option Bytes) (val_len : ℕ) (s : S)
      → IsValid w
      → entry_size op (length key) val_len ≤ wal_buf_size
      → (wal_replay callback fwrite
          (wal_append fwrite
            (wal_truncate fwrite Reopen.reopened w).0
            op
            table_id
            key
            value
            val_len).0
          s).1
        ≡ some (record { seq = (w.seq + 1) % 2 ^ 64; state = s; status = Status.ok })
  unfolding wal_replay
  wal_replay-wal_truncate w op table_id key value val_len s v fits =
      let (done, f) = wal_flush_buf_full fwrite full w v in
      let t : Wal = (wal_truncate fwrite Reopen.reopened w).0 in
      let tv = wal_truncate-IsValid fwrite full w v in
      let a = wal_append-Appended fwrite full t tv.2 op table_id key value val_len fits in
      let u : Wal = (wal_append fwrite t op table_id key value val_len).0 in
      let (done', g) = wal_flush_buf_full fwrite full u a.valid in
      rw (g.same_stream ∙ a.same_stream ∙ tv.0, wal_replay)
        (ap (λ q. some (record { seq = q; state = s; status = Status.ok }))
          (g.same_seq ∙ a.same_seq ∙ ap (λ q. (q + 1) % 2 ^ 64) tv.1))
