-- ===== src/Sstable/Index.antt =====
-- What the writer of src/storage/sstable.c has put down after some entries, and the index that the
-- reader makes of it.
use mathlib.Core.List.{append_assoc, append-nil}
use mathlib.Core.Option
use kanbudb.Prelude.{
  ℕ, zero, suc, ◌+◌, ◌^◌, ◌≤◌, ◌<◌, ◌≡◌, refl, sym, ap, ◌∙◌, inl, inr, some, List, [], ◌∷◌, ◌++◌,
  arith, ◌==◌, if◌then◌else◌, Bool-cases, le→ltb_false, length, drop, All, length-append,
  drop-append, Bytes, le_bytes, of_le, read_bytes, length-le_bytes, of_le-le_bytes,
  read_bytes-le_bytes,
}
use kanbudb.Status.{Status}
use kanbudb.Sstable.{
  SstEntry, Writer, entry_bytes, index_bytes, next_count, max_field, with_entry, sstable_writer_add,
  count_index,
}
use kanbudb.Sstable.Reader.{IdxEntry, parse_index}
use kanbudb.Sstable.Data.{Fits, data_bytes, read_then-le_bytes, read_then-append, each, each_step}

-- The entries of the index, from a count of entries since the last one and a position in the file.
abbrev pub rows : ℕ → ℕ → List SstEntry → List IdxEntry
rows count off [] = []
rows count off (e ∷ es) =
    let rest = rows (next_count count) (off + length (entry_bytes e)) es in
    if count == 0 then record { key = e.key; offset = off } ∷ rest else rest

abbrev pub index_block : List IdxEntry → Bytes
index_block [] = []
index_block (r ∷ rs) = index_bytes r.key r.offset ++ index_block rs

pub record Written (es : List SstEntry) (w w' : Writer) : Type 0 where
  pub file : w'.file ≡ w.file ++ data_bytes es
  pub index :
      w'.index_buf ≡ w.index_buf ++ index_block (rows w.entry_count_since_index (length w.file) es)
  pub count : w'.num_entries ≡ w.num_entries + length es
  pub sequence : w'.sequence ≡ w.sequence

module _ (optimal_k : ℕ → ℕ → ℕ) where
  -- The entries are added one after the other, until one is refused.
  abbrev pub add_all : Writer → List SstEntry → Writer × Status
  add_all w es = each (λ w e. sstable_writer_add optimal_k e w) w es

  sstable_writer_add-Fits :
      (e : SstEntry) (w : Writer)
      → Fits e
      → sstable_writer_add optimal_k e w ≡ (with_entry optimal_k e w, Status.ok)
  unfolding sstable_writer_add
  sstable_writer_add-Fits e w f =
      rw (le→ltb_false max_field (length e.key) f.key_short)
        (rw (le→ltb_false max_field (length e.value) f.value_short) refl)

  pub add_all_step :
      (e : SstEntry) (es : List SstEntry) (w : Writer)
      → Fits e
      → add_all w (e ∷ es) ≡ add_all (with_entry optimal_k e w) es
  add_all_step e es w f =
      each_step (λ w e. sstable_writer_add optimal_k e w) w (with_entry optimal_k e w) e es
        (sstable_writer_add-Fits e w f)

  rows-with_entry :
      (e : SstEntry) (es : List SstEntry) (w : Writer) (more : Bytes)
      → more
        ≡ index_block
            (rows (next_count w.entry_count_since_index) (length (w.file ++ entry_bytes e)) es)
      → (with_entry optimal_k e w).index_buf ++ more
        ≡ w.index_buf ++ index_block (rows w.entry_count_since_index (length w.file) (e ∷ es))
  rows-with_entry e es w more h = elim (Bool-cases (w.entry_count_since_index == 0)) [
    | inl z ↦
        rw z
          (rw h (rw length-append (append_assoc w.index_buf (index_bytes e.key (length w.file)) _)))
    | inr z ↦ rw z (rw h (rw length-append refl))
  ]

  pub add_all-Written :
      (es : List SstEntry) (w : Writer)
      → All Fits es
      → ((add_all w es).1 ≡ Status.ok) × Written es w (add_all w es).0
  add_all-Written [] w f = (
    refl,
    record {
      file = sym (append-nil w.file);
      index = sym (append-nil w.index_buf);
      count = omega arith;
      sequence = refl;
    },
  )
  add_all-Written (e ∷ es) w f =
      let (ok, n) = add_all-Written es (with_entry optimal_k e w) f.1 in
      rw (add_all_step e es w f.0) (
        ok,
        record {
          file = n.file ∙ append_assoc w.file (entry_bytes e) (data_bytes es);
          index = n.index ∙ rows-with_entry e es w _ refl;
          count = omega (arith, n.count);
          sequence = n.sequence;
        },
      )

pub parse_index-index_block :
    (rs : List IdxEntry) (rest : Bytes)
    → All (λ (r : IdxEntry). (length r.key ≤ max_field) × (r.offset < 2 ^ 64)) rs
    → parse_index (length rs) (index_block rs ++ rest) ≡ some rs
unfolding parse_index index_bytes
parse_index-index_block [] rest a = refl
parse_index-index_block (r ∷ rs) rest a =
    let k = of_le-le_bytes 4 (length r.key) (omega (arith, a.0.0)) in
    let o = of_le-le_bytes 8 r.offset (omega (arith, a.0.1)) in
    simp (
      append_assoc,
      read_then-le_bytes,
      k,
      o,
      read_then-append,
      parse_index-index_block rs rest a.1,
      Option.map,
    )

length-index_bytes : (key : Bytes) (off : ℕ) → length (index_bytes key off) ≡ 12 + length key
unfolding index_bytes
length-index_bytes key off = omega (
  arith,
  length-append (le_bytes 4 (length key)) (key ++ le_bytes 8 off),
  length-append key (le_bytes 8 off),
  length-le_bytes 4 (length key),
  length-le_bytes 8 off,
)

pub length-index_block :
    (r : IdxEntry) (rs : List IdxEntry)
    → length (index_block (r ∷ rs)) ≡ 12 + length r.key + length (index_block rs)
length-index_block r rs = omega (
  arith,
  length-append (index_bytes r.key r.offset) (index_block rs),
  length-index_bytes r.key r.offset,
)

read_bytes-index_bytes :
    (key : Bytes) (off : ℕ) (ys : Bytes)
    → read_bytes 4 (index_bytes key off ++ ys)
      ≡ some (le_bytes 4 (length key), (key ++ le_bytes 8 off) ++ ys)
unfolding index_bytes
read_bytes-index_bytes key off ys =
    rw (append_assoc (le_bytes 4 (length key)) (key ++ le_bytes 8 off) ys)
      (read_bytes-le_bytes 4 (length key) ((key ++ le_bytes 8 off) ++ ys))

drop-index_bytes :
    (key : Bytes) (off : ℕ) (ys : Bytes)
    → length key ≤ max_field
    → drop (of_le (le_bytes 4 (length key)) + 8) ((key ++ le_bytes 8 off) ++ ys) ≡ ys
drop-index_bytes key off ys h =
    let n : of_le (le_bytes 4 (length key)) + 8 ≡ length (key ++ le_bytes 8 off) = omega (
      arith,
      of_le-le_bytes 4 (length key),
      length-append key (le_bytes 8 off),
      length-le_bytes 8 off,
    ) in
    rw n (drop-append (key ++ le_bytes 8 off) ys)

pub count_index-index_block :
    (fuel : ℕ) (rs : List IdxEntry)
    → All (λ (r : IdxEntry). (length r.key ≤ max_field) × (r.offset < 2 ^ 64)) rs
    → length (index_block rs) ≤ fuel
    → count_index fuel (index_block rs) ≡ length rs
unfolding count_index
count_index-index_block zero [] a h = refl
count_index-index_block (suc fuel) [] a h = unfold read_bytes in refl
count_index-index_block zero (r ∷ rs) a h = absurd (omega (arith, length-index_block r rs))
count_index-index_block (suc fuel) (r ∷ rs) a h =
    rw (read_bytes-index_bytes r.key r.offset (index_block rs), count_index)
      (rw (drop-index_bytes r.key r.offset (index_block rs) a.0.0)
        (ap suc (count_index-index_block fuel rs a.1 (omega (arith, length-index_block r rs)))))
