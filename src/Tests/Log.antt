-- ===== src/Tests/Log.antt =====
-- The theorems on the write-ahead log, src/storage/wal.c, at work on small logs.
use mathlib.Core.List.{append-nil}
use kanbudb.Prelude.{ℕ, ◌+◌, ◌%◌, ◌^◌, ◌≡◌, refl, some, List, [], ◌∷◌, ◌++◌, arith, drop, le_bytes}
use kanbudb.Status.{Status}
use kanbudb.Wal.Entry.{Op, Entry, encode, IsEntry}
use kanbudb.Wal.Log.{FsyncMode, Stream, Wal, wal_header, wal_append, Reopen, wal_truncate}
use kanbudb.Wal.Contents.{contents, IsValid}
use kanbudb.Wal.Replay.{Splits, wal_replay, apply_all, encode_all, Tail, torn}
use kanbudb.Wal.Append.{request, wal_append-contents, wal_append_too_large}
use kanbudb.Wal.Recovery.{wal_replay_recovers, wal_replay_ends, wal_replay-wal_truncate}

-- A disk that writes all it is given.
abbrev writes_all : ℕ → ℕ
writes_all n = n

abbrev put_7 : Entry
put_7 = record {
  seq = 1;
  op = Op.put;
  table_id = 2;
  key = 7 ∷ [];
  value = some (9 ∷ []);
  val_len = 1;
}

put_7-IsEntry : IsEntry put_7
put_7-IsEntry = record {
  seq_word = omega arith;
  table_word = omega arith;
  key_short = omega arith;
  val_short = omega arith;
  has_value = (omega arith, refl);
}

abbrev log_0 : Wal
log_0 = record {
  fsync_mode = FsyncMode.always;
  seq = 0;
  file_pos = 20;
  periodic_count = 0;
  buf = [];
  stream = Stream.append_read;
  file = wal_header 0;
  flushed = 20;
}

log_0-IsValid : IsValid log_0
unfolding wal_header le_bytes
log_0-IsValid = record {
  short = omega arith;
  position = refl;
  synced = omega arith;
  word = omega arith;
  opened = λ h. cc h;
}

-- A callback that collects the entries.
abbrev collect : List Entry → Entry → List Entry × Status
collect es e = (es ++ e ∷ [], Status.ok)

-- The log with one entry, and a second one of which only the first byte was written.
abbrev log_1 : Wal
log_1 = record log_0 {
  file = wal_header 0 ++ (encode_all (put_7 ∷ []) ++ 1 ∷ []);
  file_pos = 56;
  flushed = 56;
}

log_1-IsValid : IsValid log_1
unfolding wal_header encode le_bytes
log_1-IsValid = record {
  short = omega arith;
  position = refl;
  synced = omega arith;
  word = omega arith;
  opened = λ h. cc h;
}

torn_1 : Tail (1 ∷ [])
unfolding encode le_bytes
torn_1 = torn put_7 0 (drop 2 (encode put_7)) put_7-IsEntry refl

wal_replay_recovers_example :
    (end : Status) × Splits (1 ∷ []) [] end
    × ((wal_replay collect writes_all log_1 []).1 ≡ some (apply_all collect 0 [] (put_7 ∷ []) end))
wal_replay_recovers_example =
    wal_replay_recovers collect writes_all (λ n. refl) log_1 0 (put_7 ∷ []) (1 ∷ []) []
      log_1-IsValid refl (append-nil _) (put_7-IsEntry, tt) torn_1

wal_replay_ends_example :
    (es : List Entry) × (end : Status) × Splits (drop 20 (contents log_1)) es end
    × ((wal_replay collect writes_all log_1 []).1 ≡ some (apply_all collect 0 [] es end))
wal_replay_ends_example = wal_replay_ends collect writes_all (λ n. refl) log_1 [] log_1-IsValid refl

wal_append-contents_example :
    ((wal_append writes_all log_0 Op.put 2 (7 ∷ []) (some (9 ∷ [])) 1).1 ≡ Status.ok)
    × (contents (wal_append writes_all log_0 Op.put 2 (7 ∷ []) (some (9 ∷ [])) 1).0
        ≡ contents log_0 ++ encode (request log_0 Op.put 2 (7 ∷ []) (some (9 ∷ [])) 1))
    × ((wal_append writes_all log_0 Op.put 2 (7 ∷ []) (some (9 ∷ [])) 1).0.seq ≡ (0 + 1) % 2 ^ 64)
    × IsValid (wal_append writes_all log_0 Op.put 2 (7 ∷ []) (some (9 ∷ [])) 1).0
wal_append-contents_example =
    wal_append-contents writes_all (λ n. refl) log_0 log_0-IsValid Op.put 2 (7 ∷ []) (some (9 ∷ []))
      1 (omega arith)

wal_append_too_large_example :
    ((wal_append writes_all log_0 Op.put 2 (7 ∷ []) (some (9 ∷ [])) 70000).1 ≡ Status.io)
    × (contents (wal_append writes_all log_0 Op.put 2 (7 ∷ []) (some (9 ∷ [])) 70000).0
        ≡ contents log_0)
    × ((wal_append writes_all log_0 Op.put 2 (7 ∷ []) (some (9 ∷ [])) 70000).0.seq
        ≡ (0 + 1) % 2 ^ 64)
wal_append_too_large_example =
    wal_append_too_large writes_all (λ n. refl) log_0 log_0-IsValid Op.put 2 (7 ∷ [])
      (some (9 ∷ [])) 70000 (omega arith)

wal_replay-wal_truncate_example :
    (wal_replay collect writes_all
      (wal_append writes_all
        (wal_truncate writes_all Reopen.reopened log_1).0
        Op.put
        2
        (7 ∷ [])
        (some (9 ∷ []))
        1).0
      []).1
    ≡ some (record { seq = (0 + 1) % 2 ^ 64; state = []; status = Status.ok })
wal_replay-wal_truncate_example =
    wal_replay-wal_truncate collect writes_all (λ n. refl) log_1 Op.put 2 (7 ∷ []) (some (9 ∷ [])) 1
      [] log_1-IsValid (omega arith)
