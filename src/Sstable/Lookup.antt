-- ===== src/Sstable/Lookup.antt =====
-- The linear scan of `sstable_reader_get`, src/storage/sstable.c, against a look into the entries.
use mathlib.Core.List.{append_assoc}
use Prim.Native.Nat.{Ordering}
use kanbudb.Prelude.{
  ℕ, zero, suc, ◌≤◌, ◌<◌, ◌≡◌, refl, sym, ap, ◌∙◌, true, false, List, [], ◌∷◌, ◌++◌, arith,
  if◌then◌else◌, length, All, drop-append, Bytes, read_bytes-append,
}
use kanbudb.Key.{key_cmp, is_eq, below}
use kanbudb.Key.Order.{below_refl, below_trans, below_gt, is_eq_iff}
use kanbudb.Sstable.{SstEntry, entry_bytes}
use kanbudb.Sstable.Reader.{Got, is_dead, answer, get_loop}
use kanbudb.Sstable.Data.{Fits, data_bytes, prefix_of, parse_prefix-entry_bytes}

-- The entries stand in ascending order, each key once.
abbrev pub Sorted : List SstEntry → Type 0
Sorted [] = Unit
Sorted (e ∷ es) = All (λ (x : SstEntry). below e.key x.key ≡ true) es × Sorted es

-- What a table with these entries answers.
abbrev pub lookup : Bytes → List SstEntry → Got
lookup key [] = Got.not_found
lookup key (e ∷ es) =
    if is_eq (key_cmp key e.key)
    then (if is_dead e.flag then Got.tombstone e.flag else Got.found e.flag e.value)
    else lookup key es

pub lookup_above :
    (key : Bytes) (es : List SstEntry)
    → All (λ (x : SstEntry). below key x.key ≡ true) es
    → lookup key es ≡ Got.not_found
lookup_above key [] a = refl
lookup_above key (e ∷ es) a =
    ground (arith, lookup_above key es a.1, (is_eq_iff key e.key).0, below_refl key)

pub lookup-append_below :
    (key : Bytes) (pre es : List SstEntry)
    → All (λ (x : SstEntry). below x.key key ≡ true) pre
    → lookup key (pre ++ es) ≡ lookup key es
lookup-append_below key [] es a = refl
lookup-append_below key (e ∷ pre) es a =
    ground (arith, lookup-append_below key pre es a.1, (is_eq_iff key e.key).0, below_refl key)

-- `count` entries are enough to find the key or one above it, or to reach the end.
abbrev pub Covers : ℕ → Bytes → List SstEntry → Type 0
Covers count key [] = Unit
Covers zero key (e ∷ es) = ⊥
Covers (suc count) key (e ∷ es) = below e.key key ≡ true → Covers count key es

pub Covers-length :
    (count : ℕ) (key : Bytes) (es : List SstEntry) → length es ≤ count → Covers count key es
Covers-length count key [] h = tt
Covers-length zero key (e ∷ es) h = omega (arith, h)
Covers-length (suc count) key (e ∷ es) h = λ l. Covers-length count key es (omega (arith, h))

-- An entry with a key not below, before the last of them.
pub Covers-append :
    (count : ℕ) (key : Bytes) (pre : List SstEntry) (e : SstEntry) (es : List SstEntry)
    → length pre < count
    → below e.key key ≡ false
    → Covers count key (pre ++ e ∷ es)
Covers-append zero key pre e es h b = absurd (omega arith)
Covers-append (suc count) key [] e es h b = λ l. absurd (ground (arith, l, b))
Covers-append (suc count) key (x ∷ pre) e es h b =
    λ l. Covers-append count key pre e es (omega (arith, h)) b

answer-value :
    (e : SstEntry) (rest : Bytes)
    → answer (prefix_of e) (e.value ++ rest)
      ≡ (if is_dead e.flag then Got.tombstone e.flag else Got.found e.flag e.value)
answer-value e rest = rw (read_bytes-append e.value rest) refl

pub sorted_above :
    (key k : Bytes) (es : List SstEntry)
    → below key k ≡ true
    → All (λ (x : SstEntry). below k x.key ≡ true) es
    → All (λ (x : SstEntry). below key x.key ≡ true) es
sorted_above key k [] l a = tt
sorted_above key k (e ∷ es) l a = (below_trans key k e.key l a.0, sorted_above key k es l a.1)

-- One round of the scan, by the outcome of its comparison.
scan_round :
    (key : Bytes) (e : SstEntry) (es : List SstEntry) (value_on : Bytes) (on : Got) (c : Ordering)
    → Sorted (e ∷ es)
    → key_cmp key e.key ≡ c
    → answer (prefix_of e) value_on
      ≡ (if is_dead e.flag then Got.tombstone e.flag else Got.found e.flag e.value)
    → (below e.key key ≡ true → on ≡ lookup key es)
    → elim c [
      | Ordering.eq ↦ answer (prefix_of e) value_on
      | Ordering.lt ↦ Got.not_found
      | Ordering.gt ↦ on
    ]
      ≡ lookup key (e ∷ es)
scan_round key e es value_on on Ordering.eq s q a f = rw (q, lookup) a
scan_round key e es value_on on Ordering.lt s q a f = sym (
    lookup_above key (e ∷ es) (
      let l : below key e.key ≡ true = unfold below in rw q refl in
      (l, sorted_above key e.key es l s.0)))
scan_round key e es value_on on Ordering.gt s q a f =
    rw (q, lookup) (f (rw (← below_gt key e.key) (rw q refl)))

pub get_loop-lookup :
    (count : ℕ) (key : Bytes) (es : List SstEntry) (rest : Bytes)
    → All Fits es
    → Sorted es
    → Covers count key es
    → count ≤ length es
    → get_loop count key (data_bytes es ++ rest) ≡ lookup key es
unfolding get_loop
get_loop-lookup zero key [] rest f s c n = refl
get_loop-lookup (suc count) key [] rest f s c n = absurd (omega arith)
get_loop-lookup zero key (e ∷ es) rest f s c n = elim c [ ]
get_loop-lookup (suc count) key (e ∷ es) rest f s c n =
    rw (append_assoc (entry_bytes e) (data_bytes es) rest, get_loop)
      (rw (parse_prefix-entry_bytes e (data_bytes es ++ rest) f.0) (
        scan_round key e es (e.value ++ (data_bytes es ++ rest)) _ (key_cmp key e.key) s refl
          (answer-value e (data_bytes es ++ rest))
          (λ l.
            ap (get_loop count key) (drop-append e.value (data_bytes es ++ rest))
            ∙ get_loop-lookup count key es rest f.1 s.1 (c l) (omega (arith, n)))))
