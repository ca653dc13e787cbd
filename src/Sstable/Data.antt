-- ===== src/Sstable/Data.antt =====
-- The data block of a sorted string table, src/storage/sstable.c: what the writer has put there is what
-- the scan hands to its callback.
use mathlib.Core.List.{append_assoc}
use kanbudb.Prelude.{
  ℕ, ◌≤◌, ◌<◌, ◌≡◌, refl, ap, inl, inr, true, false, Option, some, List, [], ◌∷◌, ◌++◌, arith,
  Bool-cases, length, All, Bytes, le_bytes, of_le-le_bytes, read_bytes-append, read_bytes-le_bytes,
}
use kanbudb.Status.{Status, is_ok}
use kanbudb.Sstable.{SstEntry, entry_bytes, max_field}
use kanbudb.Sstable.Reader.{read_then, Prefix, parse_prefix, scan_loop}

-- An entry that the writer takes.
pub record Fits (e : SstEntry) : Type 0 where
  pub key_short : length e.key ≤ max_field
  pub value_short : length e.value ≤ max_field
  pub flag_byte : e.flag < 256

abbrev pub data_bytes : List SstEntry → Bytes
data_bytes [] = []
data_bytes (e ∷ es) = entry_bytes e ++ data_bytes es

abbrev pub prefix_of : SstEntry → Prefix
prefix_of e = record { key = e.key; flag = e.flag; val_len = length e.value }

pub read_then-le_bytes {ℓ} :
    {A : Type ℓ} (n x : ℕ) (ys : Bytes) (k : Bytes → Bytes → Option A)
    → read_then n (le_bytes n x ++ ys) k ≡ k (le_bytes n x) ys
unfolding read_then
read_then-le_bytes n x ys k = rw (read_bytes-le_bytes n x ys, read_then)

pub read_then-append {ℓ} :
    {A : Type ℓ} (xs ys : Bytes) (k : Bytes → Bytes → Option A)
    → read_then (length xs) (xs ++ ys) k ≡ k xs ys
unfolding read_then
read_then-append xs ys k = rw (read_bytes-append xs ys, read_then)

pub parse_prefix-entry_bytes :
    (e : SstEntry) (rest : Bytes)
    → Fits e
    → parse_prefix (entry_bytes e ++ rest) ≡ some (prefix_of e, e.value ++ rest)
unfolding parse_prefix entry_bytes
parse_prefix-entry_bytes e rest f =
    let k = of_le-le_bytes 4 (length e.key) (omega (arith, f.key_short)) in
    let l = of_le-le_bytes 1 e.flag (omega (arith, f.flag_byte)) in
    let v = of_le-le_bytes 4 (length e.value) (omega (arith, f.value_short)) in
    simp (append_assoc, read_then-le_bytes, k, l, v, read_then-append)

-- The callback on the entries, one after the other, until it refuses one.
module _ {ℓ} {S : Type ℓ} (cb : S → SstEntry → S × Status) where
  abbrev pub each : S → List SstEntry → S × Status
  each s [] = (s, Status.ok)
  each s (e ∷ es) = let r = cb s e in elim (is_ok r.1) [ true ↦ each r.0 es | false ↦ r ]

  pub each_step :
      (s s' : S) (e : SstEntry) (es : List SstEntry)
      → cb s e ≡ (s', Status.ok)
      → each s (e ∷ es) ≡ each s' es
  each_step s s' e es h = ap (λ r. elim (is_ok r.1) [ true ↦ each r.0 es | false ↦ r ]) h

  pub scan_loop-data_bytes :
      (s : S) (es : List SstEntry) (rest : Bytes)
      → All Fits es
      → scan_loop cb (length es) s (data_bytes es ++ rest) ≡ some (each s es)
  unfolding scan_loop
  scan_loop-data_bytes s [] rest f = refl
  scan_loop-data_bytes s (e ∷ es) rest f =
      rw (append_assoc (entry_bytes e) (data_bytes es) rest, scan_loop)
        (rw (parse_prefix-entry_bytes e (data_bytes es ++ rest) f.0) (
          rw (read_bytes-append e.value (data_bytes es ++ rest))
            (elim (Bool-cases (is_ok (cb s e).1)) [
              | inl o ↦ rw (o, each) (scan_loop-data_bytes (cb s e).0 es rest f.1)
              | inr o ↦ rw (o, each) refl
            ])))
