-- ===== src/Wal/Replay.antt =====
-- `wal_replay` of src/storage/wal.c, and what it does with a log of whole entries and a torn end.
use kanbudb.Prelude.{
  ℕ, zero, suc, ◌<◌, ◌≡◌, refl, inl, inr, true, false, Option, none, some, List, [], ◌∷◌, ◌++◌,
  arith, Bool-cases, length, drop, All, Bytes, read_bytes,
}
use kanbudb.Status.{Status, is_ok}
use mathlib.Core.List.{append_assoc}
use kanbudb.Wal.Parse.{parse_entry-encode, IsEnd, parse_entry_torn, parse_entry_shrinks}
use kanbudb.Wal.Entry.{Entry, encode, Parsed, read_or, parse_entry, IsEntry}
use kanbudb.Wal.Log.{Stream, Wal, header_size, wal_flush_buf}

-- The last sequence number, the callback's state and the result.
pub record Run {ℓ} (S : Type ℓ) : Type ℓ where
  pub seq : ℕ
  pub state : S
  pub status : Status

-- The entries that a run of bytes holds, and how the reads end: at the end of the log, or at a
-- refusal.
pub data Splits : Bytes → List Entry → Status → Type 0 where
  at_stop : {bs : Bytes} → parse_entry bs ≡ Parsed.stop → Splits bs [] Status.ok
  at_corrupt : {bs : Bytes} → parse_entry bs ≡ Parsed.corrupt → Splits bs [] Status.corrupt
  at_entry :
      {bs : Bytes} {e : Entry} {rest : Bytes} {es : List Entry} {end : Status}
      → parse_entry bs ≡ Parsed.entry e rest
      → Splits rest es end
      → Splits bs (e ∷ es) end

module _ {ℓ} {S : Type ℓ} (callback : S → Entry → S × Status) where
  -- The loop of `wal_replay`. `none` means that the fuel ran out.
  unfoldable pub replay_loop : ℕ → ℕ → S → Bytes → Option (Run S)
  replay_loop zero seq s bs = none
  replay_loop (suc fuel) seq s bs = elim (parse_entry bs) [
    | Parsed.stop ↦ some (record { seq = seq; state = s; status = Status.ok })
    | Parsed.corrupt ↦ some (record { seq = seq; state = s; status = Status.corrupt })
    | Parsed.entry e rest ↦ elim (is_ok (callback s e).1) [
      | true ↦ replay_loop fuel e.seq (callback s e).0 rest
      | false ↦ some (record { seq = e.seq; state = (callback s e).0; status = (callback s e).1 })
    ]
  ]

  -- `wal_replay`: `fread` on a stream opened with "wb" fails, so the loop ends at once.
  unfoldable pub wal_replay : (ℕ → ℕ) → Wal → S → Wal × Option (Run S)
  wal_replay fwrite w s =
      let wal = (wal_flush_buf fwrite w).0 in
      elim wal.stream [
        | Stream.closed ↦ (wal, some (record { seq = wal.seq; state = s; status = Status.inval }))
        | Stream.write_only ↦ (wal, some (record { seq = wal.seq; state = s; status = Status.ok }))
        | Stream.append_read ↦
            let bs = drop header_size wal.file in
            let result = replay_loop (suc (length bs)) wal.seq s bs in
            (elim result [ none ↦ wal | some r ↦ record wal { seq = r.seq } ], result)
      ]

  -- What a caller is promised: the callback runs over the entries in order, until it refuses one.
  abbrev pub apply_all : ℕ → S → List Entry → Status → Run S
  apply_all seq s [] end = record { seq = seq; state = s; status = end }
  apply_all seq s (e ∷ es) end = elim (is_ok (callback s e).1) [
    | true ↦ apply_all e.seq (callback s e).0 es end
    | false ↦ record { seq = e.seq; state = (callback s e).0; status = (callback s e).1 }
  ]

  pub replay_loop-Splits :
      (fuel seq : ℕ) (s : S) {bs : Bytes} {es : List Entry} {end : Status}
      → Splits bs es end
      → length bs < fuel
      → replay_loop fuel seq s bs ≡ some (apply_all seq s es end)
  unfolding replay_loop
  replay_loop-Splits zero seq s d h = absurd (omega arith)
  replay_loop-Splits (suc fuel) seq s (at_stop p) h = rw (p, replay_loop)
  replay_loop-Splits (suc fuel) seq s (at_corrupt p) h = rw (p, replay_loop)
  replay_loop-Splits (suc fuel) seq s (at_entry {bs} {e} {rest} p d) h =
      let ih =
        replay_loop-Splits fuel e.seq (callback s e).0 d
          (omega (arith, parse_entry_shrinks e rest bs p)) in
      elim (Bool-cases (is_ok (callback s e).1)) [
        | inl q ↦ rw (p, replay_loop) (rw (q, apply_all) ih)
        | inr q ↦ rw (p, replay_loop) (rw (q, apply_all))
      ]

-- Any bytes split into entries and an end.
pub Splits-exists :
    (fuel : ℕ) (bs : Bytes)
    → length bs < fuel
    → (es : List Entry) × (end : Status) × Splits bs es end
Splits-exists zero bs h = absurd (omega arith)
Splits-exists (suc fuel) bs h = go (parse_entry bs) refl (Splits-exists fuel)
  where
    go :
        (p : Parsed)
        → parse_entry bs ≡ p
        → ((cs : Bytes) → length cs < fuel → (es : List Entry) × (end : Status) × Splits cs es end)
        → (es : List Entry) × (end : Status) × Splits bs es end
    go Parsed.stop p ih = ([], Status.ok, at_stop p)
    go Parsed.corrupt p ih = ([], Status.corrupt, at_corrupt p)
    go (Parsed.entry e rest) p ih =
        let (es, end, d) = ih rest (omega (arith, parse_entry_shrinks e rest bs p)) in
        (e ∷ es, end, at_entry p d)

-- The bytes of whole entries, one after the other.
abbrev pub encode_all : List Entry → Bytes
encode_all [] = []
encode_all (e ∷ es) = encode e ++ encode_all es

-- What a log may end with when the last write was cut short: nothing, or a proper prefix of an
-- entry.
pub data Tail : Bytes → Type 0 where
  clean : Tail []
  torn :
      {front : Bytes} (e : Entry) (x : ℕ) (back : Bytes)
      → IsEntry e
      → encode e ≡ front ++ x ∷ back
      → Tail front

Splits-end :
    (tail : Bytes) (p : Parsed)
    → parse_entry tail ≡ p
    → IsEnd p
    → (end : Status) × Splits tail [] end
Splits-end tail Parsed.stop p h = (Status.ok, at_stop p)
Splits-end tail Parsed.corrupt p h = (Status.corrupt, at_corrupt p)
Splits-end tail (Parsed.entry e rest) p h = elim h [ ]

Tail-IsEnd : {tail : Bytes} → Tail tail → IsEnd (parse_entry tail)
unfolding parse_entry read_or read_bytes
Tail-IsEnd clean = tt
Tail-IsEnd (torn {front} e x back v h) = parse_entry_torn e front back x v h

Splits-encode_all :
    (es : List Entry) {tail : Bytes} {end : Status}
    → All IsEntry es
    → Splits tail [] end
    → Splits (encode_all es ++ tail) es end
Splits-encode_all [] v d = d
Splits-encode_all (e ∷ es) {tail} v d =
    at_entry
      (rw (append_assoc (encode e) (encode_all es) tail)
        (parse_entry-encode e (encode_all es ++ tail) v.0))
      (Splits-encode_all es v.1 d)

module _ {ℓ} {S : Type ℓ} (callback : S → Entry → S × Status) where
  pub replay_loop-encode_all :
      (es : List Entry) (tail : Bytes) (seq : ℕ) (s : S)
      → All IsEntry es
      → Tail tail
      → (end : Status) × Splits tail [] end
        × (replay_loop callback (suc (length (encode_all es ++ tail))) seq s (encode_all es ++ tail)
            ≡ some (apply_all callback seq s es end))
  replay_loop-encode_all es tail seq s v t =
      let (end, d) = Splits-end tail (parse_entry tail) refl (Tail-IsEnd t) in
      (end, d, replay_loop-Splits callback _ seq s (Splits-encode_all es v d) (omega arith))
