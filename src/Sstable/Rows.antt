-- ===== src/Sstable/Rows.antt =====
-- Which entries of the data block the index of a table names, src/storage/sstable.c.
use mathlib.Core.List.{append_assoc}
use kanbudb.Prelude.{
  ℕ, zero, suc, ◌+◌, ◌-◌, ◌*◌, ◌≤◌, ◌<◌, ◌≡◌, refl, sym, ap, subst, ◌∙◌, inl, inr, true, false,
  List, [], ◌∷◌, ◌++◌, arith, ◌==◌, if◌then◌else◌, Bool-cases, length, get_or, All, length-append,
  Bytes,
}
use kanbudb.Key.{below}
use kanbudb.Sstable.{SstEntry, sparse_interval, entry_bytes, next_count}
use kanbudb.Sstable.Reader.{IdxEntry}
use kanbudb.Sstable.Data.{data_bytes}
use kanbudb.Sstable.Index.{rows}
use kanbudb.Sstable.Lookup.{Sorted}
use kanbudb.Sstable.LowerBound.{SortedRows}

rows-All :
    (P : Bytes → Type 0) (count off : ℕ) (es : List SstEntry)
    → All (λ (x : SstEntry). P x.key) es
    → All (λ (x : IdxEntry). P x.key) (rows count off es)
rows-All P count off [] a = tt
rows-All P count off (e ∷ es) a =
    let rest = rows-All P (next_count count) (off + length (entry_bytes e)) es a.1 in
    elim (Bool-cases (count == 0)) [ inl z ↦ rw z (a.0, rest) | inr z ↦ rw z rest ]

pub rows-SortedRows :
    (count off : ℕ) (es : List SstEntry) → Sorted es → SortedRows (rows count off es)
rows-SortedRows count off [] s = tt
rows-SortedRows count off (e ∷ es) s =
    let count' = next_count count in
    let off' = off + length (entry_bytes e) in
    let rest = rows-SortedRows count' off' es s.1 in
    elim (Bool-cases (count == 0)) [
      | inl z ↦ rw z (rows-All (λ k. below e.key k ≡ true) count' off' es s.0, rest)
      | inr z ↦ rw z rest
    ]

-- The entries up to the next row.
abbrev pub gap : ℕ → ℕ
gap count = if count == 0 then 0 else sparse_interval - count

pub length-rows_enough :
    (count off : ℕ) (es : List SstEntry)
    → count < sparse_interval
    → length es ≤ gap count + sparse_interval * length (rows count off es)
length-rows_enough count off [] h = omega arith
length-rows_enough count off (e ∷ es) h =
    ground (
      arith,
      length-rows_enough (next_count count) (off + length (entry_bytes e)) es (ground arith),
    )

pub data_bytes-append :
    (xs ys : List SstEntry) → data_bytes (xs ++ ys) ≡ data_bytes xs ++ data_bytes ys
data_bytes-append [] ys = refl
data_bytes-append (x ∷ xs) ys =
    rw (data_bytes-append xs ys)
      (sym (append_assoc (entry_bytes x) (data_bytes xs) (data_bytes ys)))

-- Row `i` stands for the entry `entry`, with `pre` before and `post` behind it.
pub record RowAt (count off : ℕ) (es : List SstEntry) (i : ℕ) : Type 0 where
  pub pre : List SstEntry
  pub entry : SstEntry
  pub post : List SstEntry
  pub whole : es ≡ pre ++ entry ∷ post
  pub place : length pre ≡ gap count + sparse_interval * i
  pub row :
      get_or (rows count off es) i (record { key = []; offset = 0 })
      ≡ record { key = entry.key; offset = off + length (data_bytes pre) }

-- A row of what follows an entry.
RowAt-cons :
    (count off : ℕ) (e : SstEntry) (es : List SstEntry) (i j : ℕ)
    → gap count + sparse_interval * j ≡ suc (gap (next_count count) + sparse_interval * i)
    → get_or (rows count off (e ∷ es)) j (record { key = []; offset = 0 })
      ≡ get_or
          (rows (next_count count) (off + length (entry_bytes e)) es)
          i
          (record { key = []; offset = 0 })
    → RowAt (next_count count) (off + length (entry_bytes e)) es i
    → RowAt count off (e ∷ es) j
RowAt-cons count off e es i j n same r = record {
  pre = e ∷ r.pre;
  entry = r.entry;
  post = r.post;
  whole = ap (λ t. e ∷ t) r.whole;
  place = omega (arith, n, r.place);
  row =
      same
      ∙ (r.row
          ∙ ap (λ o. record { key = r.entry.key; offset = o })
              (omega (arith, length-append (entry_bytes e) (data_bytes r.pre))));
}

rows_skip :
    (count off : ℕ) (e : SstEntry) (es : List SstEntry)
    → rows (suc count) off (e ∷ es)
      ≡ rows (next_count (suc count)) (off + length (entry_bytes e)) es
rows_skip count off e es = let z : (suc count == 0) ≡ false = ground arith in rw (z, rows) refl

pub rows-RowAt :
    (count off : ℕ) (es : List SstEntry) (i : ℕ)
    → count < sparse_interval
    → i < length (rows count off es)
    → RowAt count off es i
rows-RowAt count off [] i h l = elim l [ ]
rows-RowAt zero off (e ∷ es) zero h l = record {
  pre = [];
  entry = e;
  post = es;
  whole = refl;
  place = refl;
  row = ap (λ o. record { key = e.key; offset = o }) (omega arith);
}
rows-RowAt zero off (e ∷ es) (suc i) h l =
    RowAt-cons zero off e es i (suc i) (omega arith) refl
      (rows-RowAt 1 (off + length (entry_bytes e)) es i (omega arith) (omega (arith, l)))
rows-RowAt (suc count) off (e ∷ es) i h l =
    let on = rows_skip count off e es in
    RowAt-cons (suc count) off e es i i (ground arith)
      (ap (λ rs. get_or rs i (record { key = []; offset = 0 })) on)
      (rows-RowAt (next_count (suc count)) (off + length (entry_bytes e)) es i (ground arith)
        (subst (λ rs. i < length rs) on l))
