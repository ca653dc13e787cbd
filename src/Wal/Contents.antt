-- ===== src/Wal/Contents.antt =====
-- What each operation of the log does to its contents: the bytes of the file and of the buffer.
use mathlib.Core.Path.{ap₂}
use mathlib.Core.List.{append-nil, append_assoc}
use kanbudb.Prelude.{
  ℕ, ◌+◌, ◌^◌, ◌≤◌, ◌<◌, ◌≡◌, refl, sym, ◌∙◌, ◌≢◌, inl, inr, true, false, ◌||◌, [], ◌∷◌, ◌++◌,
  arith, leb, ◌==◌, Bool-cases, length, length-append, Bytes,
}
use kanbudb.Status.{Status}
use kanbudb.Wal.Log.{
  FsyncMode, Stream, Wal, wal_buf_size, sync_due, is_always, buf_written, wal_flush_buf,
  append_entry,
}

abbrev pub contents : Wal → Bytes
contents w = w.file ++ w.buf

pub record IsValid (w : Wal) : Type 0 where
  pub short : length w.buf ≤ wal_buf_size
  pub position : w.file_pos ≡ length w.file
  pub synced : w.flushed ≤ length w.file
  pub word : w.seq < 2 ^ 64
  pub opened : w.stream ≢ Stream.closed

-- A flush that wrote everything.
pub record Flushed (w v : Wal) : Type 0 where
  pub moved : v.file ≡ contents w
  pub emptied : v.buf ≡ []
  pub same_seq : v.seq ≡ w.seq
  pub same_mode : v.fsync_mode ≡ w.fsync_mode
  pub same_stream : v.stream ≡ w.stream
  pub valid : IsValid v
  pub on_disk :
      sync_due w.fsync_mode w.periodic_count ≡ true → w.buf ≢ [] → v.flushed ≡ length v.file

-- A flush keeps the contents.
pub Flushed-contents : (w u : Wal) → Flushed w u → contents u ≡ contents w
Flushed-contents w u f = ap₂ ◌++◌ f.moved f.emptied ∙ append-nil (contents w)

length-zero : (xs : Bytes) → (length xs == 0) ≡ true → xs ≡ []
length-zero [] h = refl
length-zero (x ∷ xs) h = ground arith

-- An append that succeeded: the entry is behind the contents, flushed or not.
pub record Appended (w : Wal) (bytes : Bytes) (r : Wal × Status) : Type 0 where
  pub succeeds : r.1 ≡ Status.ok
  pub grown : contents r.0 ≡ contents w ++ bytes
  pub same_seq : r.0.seq ≡ w.seq
  pub same_stream : r.0.stream ≡ w.stream
  pub valid : IsValid r.0
  pub durable :
      w.fsync_mode ≡ FsyncMode.always
      → bytes ≢ []
      → (r.0.buf ≡ []) × (r.0.flushed ≡ length r.0.file)

abbrev buffered : Wal → Bytes → Wal
buffered w bytes = record w { buf = w.buf ++ bytes; periodic_count = w.periodic_count + 1 }

buffered-IsValid :
    (w : Wal) (bytes : Bytes)
    → IsValid w
    → length w.buf + length bytes ≤ wal_buf_size
    → IsValid (buffered w bytes)
buffered-IsValid w bytes v fits = record {
  short = omega (arith, length-append w.buf bytes);
  position = v.position;
  synced = v.synced;
  word = v.word;
  opened = v.opened;
}

append-ne-nil : (xs ys : Bytes) → ys ≢ [] → xs ++ ys ≢ []
append-ne-nil [] ys h = h
append-ne-nil (x ∷ xs) ys h = λ e. cc

module _ (fwrite : ℕ → ℕ) (full : (n : ℕ) → fwrite n ≡ n) where
  buf_written-Flushed : (w : Wal) → IsValid w → Flushed w (buf_written w)
  unfolding buf_written
  buf_written-Flushed w v = record {
    moved = refl;
    emptied = refl;
    same_seq = refl;
    same_mode = refl;
    same_stream = refl;
    valid = record {
      short = omega arith;
      position = omega (arith, v.position, length-append w.file w.buf);
      synced = ground (arith, v.synced, length-append w.file w.buf);
      word = v.word;
      opened = v.opened;
    };
    on_disk = λ due _. rw due;
  }

  wal_flush_buf-written :
      (w : Wal)
      → (length w.buf == 0) ≡ false
      → w.stream ≢ Stream.closed
      → wal_flush_buf fwrite w ≡ (buf_written w, Status.ok)
  unfolding wal_flush_buf
  wal_flush_buf-written w h c = ground (arith, full (length w.buf))

  unwritten-Flushed : (w : Wal) → IsValid w → w.buf ≡ [] → Flushed w w
  unwritten-Flushed w v h = record {
    moved = sym (rw h (append-nil w.file));
    emptied = h;
    same_seq = refl;
    same_mode = refl;
    same_stream = refl;
    valid = v;
    on_disk = λ due some_bytes. absurd (some_bytes h);
  }

  -- With the disk writing all, a flush succeeds and moves the buffer to the file.
  pub wal_flush_buf_full :
      (w : Wal)
      → IsValid w
      → ((wal_flush_buf fwrite w).1 ≡ Status.ok) × Flushed w (wal_flush_buf fwrite w).0
  wal_flush_buf_full w v = elim (Bool-cases (length w.buf == 0)) [
    | inl h ↦ unfold wal_flush_buf in rw h (refl, unwritten-Flushed w v (length-zero w.buf h))
    | inr h ↦ rw (wal_flush_buf-written w h v.opened) (refl, buf_written-Flushed w v)
  ]

  pub append_entry-Appended :
      (w : Wal) (bytes : Bytes)
      → IsValid w
      → length w.buf + length bytes ≤ wal_buf_size
      → Appended w bytes (append_entry fwrite w bytes)
  unfolding append_entry
  append_entry-Appended w bytes v fits =
      let valid = buffered-IsValid w bytes v fits in
      elim (Bool-cases (is_always w.fsync_mode || leb 32768 (length (w.buf ++ bytes)))) [
        | inl h ↦
            let (done, f) = wal_flush_buf_full (buffered w bytes) valid in
            rw h (record {
              succeeds = done;
              grown =
                  ap₂ ◌++◌ f.moved f.emptied
                  ∙ append-nil (contents (buffered w bytes))
                  ∙ sym (append_assoc w.file w.buf bytes);
              same_seq = f.same_seq;
              same_stream = f.same_stream;
              valid = f.valid;
              durable = λ m n. (f.emptied, f.on_disk (rw m) (append-ne-nil w.buf bytes n));
            })
        | inr h ↦ rw h (record {
          succeeds = refl;
          grown = sym (append_assoc w.file w.buf bytes);
          same_seq = refl;
          same_stream = refl;
          valid = valid;
          durable = λ m n. cc (rw m at h);
        })
      ]
