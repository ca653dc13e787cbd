-- ===== src/Wal/Parse.antt =====
-- Reading back one entry of the log.
use mathlib.Core.List.{append-nil, append_assoc}
use kanbudb.Prelude.{
  ℕ, ◌+◌, ◌^◌, ◌≤◌, ◌<◌, ◌≡◌, refl, sym, ap, ◌∙◌, ◌≢◌, inl, inr, ◌&&◌, ◌||◌, Option, none, some, [],
  ◌∷◌, ◌++◌, arith, ltb, ◌==◌, Bool-cases, Option-cases, lt→ltb, le→ltb_false, length,
  length-append, take-length, Bytes, le_bytes, of_le, read_bytes, of_le-le_bytes, read_bytes-append,
  read_bytes_split, read_bytes-le_bytes, read_bytes-append_more,
}
use kanbudb.Wal.Entry.{
  Op, op_byte, Entry, payload, encode, Parsed, read_or, max_len, parse_value, parse_body,
  parse_entry, HasValue, IsEntry,
}

read_or-le_bytes :
    (miss : Parsed) (n x : ℕ) (ys : Bytes) (k : Bytes → Bytes → Parsed)
    → read_or miss n (le_bytes n x ++ ys) k ≡ k (le_bytes n x) ys
unfolding read_or
read_or-le_bytes miss n x ys k = rw (read_bytes-le_bytes n x ys, read_or)

read_or-append :
    (miss : Parsed) (xs ys : Bytes) (k : Bytes → Bytes → Parsed)
    → read_or miss (length xs) (xs ++ ys) k ≡ k xs ys
unfolding read_or
read_or-append miss xs ys k = rw (read_bytes-append xs ys, read_or)

module _ (seq table_id n : ℕ) (key rest : Bytes) where
  -- `payload` of a legal value is what `parse_value` reads.
  parse_value-payload :
      (op : Op) (value : Option Bytes)
      → HasValue op value n
      → parse_value seq (op_byte op) table_id n key (payload op value n ++ rest)
        ≡ Parsed.entry
            (record {
              seq = seq;
              op = op;
              table_id = table_id;
              key = key;
              value = value;
              val_len = n;
            })
            rest
  unfolding parse_value
  parse_value-payload Op.put (some v) h = rw (lt→ltb 0 n h.0, ← h.1, take-length v, read_or-append)
  parse_value-payload Op.put none h = rw h
  parse_value-payload Op.delete (some v) h = elim h [ ]
  parse_value-payload Op.delete none h = refl

parse_body-encode :
    (e : Entry) (rest : Bytes)
    → IsEntry e
    → parse_body e.seq
        (op_byte e.op)
        e.table_id
        (length e.key)
        e.val_len
        (e.key ++ (payload e.op e.value e.val_len ++ rest))
      ≡ Parsed.entry e rest
unfolding parse_body
parse_body-encode e rest v = rw (le→ltb_false max_len (length e.key) v.key_short) (
    rw (le→ltb_false max_len e.val_len v.val_short) (
      rw read_or-append
        (parse_value-payload e.seq e.table_id e.val_len e.key rest e.op e.value v.has_value)))

op_byte-lt : (op : Op) → op_byte op < 256 ^ 1
op_byte-lt Op.put = omega arith
op_byte-lt Op.delete = omega arith

-- A legal entry that was serialized is read back as it was, and what follows it is left.
pub parse_entry-encode :
    (e : Entry) (rest : Bytes) → IsEntry e → parse_entry (encode e ++ rest) ≡ Parsed.entry e rest
unfolding parse_entry encode
parse_entry-encode e rest v =
    simp (append_assoc, read_or-le_bytes)
      (rw (of_le-le_bytes 8 e.seq v.seq_word) (
        rw (of_le-le_bytes 1 (op_byte e.op) (op_byte-lt e.op)) (
          rw (of_le-le_bytes 8 e.table_id v.table_word) (
            rw (of_le-le_bytes 8 (length e.key) (omega (arith, v.key_short))) (
              rw (of_le-le_bytes 8 e.val_len (omega (arith, v.val_short)))
                (parse_body-encode e rest v))))))

read_or_more :
    (miss : Parsed) (n : ℕ) (xs more : Bytes) (k : Bytes → Bytes → Parsed) (e : Entry)
    (rest : Bytes)
    → ((e : Entry) (rest : Bytes) → miss ≢ Parsed.entry e rest)
    → ((f r : Bytes)
        → k f r ≡ Parsed.entry e rest
        → k f (r ++ more) ≡ Parsed.entry e (rest ++ more))
    → read_or miss n xs k ≡ Parsed.entry e rest
    → read_or miss n (xs ++ more) k ≡ Parsed.entry e (rest ++ more)
unfolding read_or
read_or_more miss n xs more k e rest dead step h = elim (Option-cases (read_bytes n xs)) [
  | inl p ↦ absurd (dead e rest (rw (p, read_or) at h))
  | inr ((f, r), p) ↦
      rw (read_bytes-append_more n xs more f r p, read_or) (step f r (rw (p, read_or) at h))
]

stop-ne-entry : (e : Entry) (rest : Bytes) → Parsed.stop ≢ Parsed.entry e rest
stop-ne-entry e rest h = cc

corrupt-ne-entry : (e : Entry) (rest : Bytes) → Parsed.corrupt ≢ Parsed.entry e rest
corrupt-ne-entry e rest h = cc

module _ (more : Bytes) (e : Entry) (rest : Bytes) where
  parse_value_more :
      (seq op_u8 table_id n : ℕ) (key bs : Bytes)
      → parse_value seq op_u8 table_id n key bs ≡ Parsed.entry e rest
      → parse_value seq op_u8 table_id n key (bs ++ more) ≡ Parsed.entry e (rest ++ more)
  unfolding parse_value
  parse_value_more seq op_u8 table_id n key bs h = elim (Bool-cases (op_u8 == 0 && ltb 0 n)) [
    | inl p ↦ rw p (
        read_or_more Parsed.corrupt n bs more _ e rest corrupt-ne-entry (λ f r q. cc q) (rw p at h))
    | inr p ↦ rw p (cc (rw p at h))
  ]

  parse_body_more :
      (seq op_u8 table_id key_len n : ℕ) (bs : Bytes)
      → parse_body seq op_u8 table_id key_len n bs ≡ Parsed.entry e rest
      → parse_body seq op_u8 table_id key_len n (bs ++ more) ≡ Parsed.entry e (rest ++ more)
  unfolding parse_body
  parse_body_more seq op_u8 table_id key_len n bs h =
      elim (Bool-cases (ltb max_len key_len || ltb max_len n)) [
        | inl p ↦ absurd (corrupt-ne-entry e rest (rw p at h))
        | inr p ↦ rw p (
            read_or_more Parsed.corrupt key_len bs more _ e rest corrupt-ne-entry
              (λ f r. parse_value_more seq op_u8 table_id n f r) (rw p at h))
      ]

  -- An entry is read without a look at the bytes behind it.
  pub parse_entry_more :
      (bs : Bytes)
      → parse_entry bs ≡ Parsed.entry e rest
      → parse_entry (bs ++ more) ≡ Parsed.entry e (rest ++ more)
  unfolding parse_entry
  parse_entry_more bs = read_or_more Parsed.stop 8 bs more _ e rest stop-ne-entry (λ s b1.
      read_or_more Parsed.stop 1 b1 more _ e rest stop-ne-entry (λ o b2.
        read_or_more Parsed.stop 8 b2 more _ e rest stop-ne-entry (λ t b3.
          read_or_more Parsed.stop 8 b3 more _ e rest stop-ne-entry (λ k b4.
            read_or_more Parsed.stop 8 b4 more _ e rest stop-ne-entry
              (λ v. parse_body_more (of_le s) (of_le o) (of_le t) (of_le k) (of_le v))))))

-- What a parse that finds no entry answers.
abbrev pub IsEnd : Parsed → Type 0
IsEnd Parsed.stop = Unit
IsEnd Parsed.corrupt = Unit
IsEnd (Parsed.entry e rest) = ⊥

entry_rest : {d e : Entry} {r s : Bytes} → Parsed.entry d r ≡ Parsed.entry e s → r ≡ s
entry_rest h = cc h

append-ne-nil : (xs : Bytes) (x : ℕ) (ys : Bytes) → xs ++ x ∷ ys ≢ []
append-ne-nil [] x ys h = cc h
append-ne-nil (z ∷ xs) x ys h = cc h

-- From a proper prefix of the bytes of a legal entry no entry is read.
pub parse_entry_torn :
    (e : Entry) (front back : Bytes) (x : ℕ)
    → IsEntry e
    → encode e ≡ front ++ x ∷ back
    → IsEnd (parse_entry front)
parse_entry_torn e front back x v h = go (parse_entry front) refl
  where
    whole : parse_entry (front ++ x ∷ back) ≡ Parsed.entry e []
    whole = rw (append-nil, h) at (parse_entry-encode e [] v)

    go : (p : Parsed) → parse_entry front ≡ p → IsEnd p
    go Parsed.stop q = tt
    go Parsed.corrupt q = tt
    go (Parsed.entry d rest) q =
        append-ne-nil rest x back
          (entry_rest (sym (parse_entry_more (x ∷ back) d rest front q) ∙ whole))

read_or_shrinks :
    (miss : Parsed) (n c : ℕ) (bs : Bytes) (k : Bytes → Bytes → Parsed) (e : Entry) (rest : Bytes)
    → ((e : Entry) (rest : Bytes) → miss ≢ Parsed.entry e rest)
    → ((f r : Bytes) → k f r ≡ Parsed.entry e rest → length rest + c ≤ length r)
    → read_or miss n bs k ≡ Parsed.entry e rest
    → length rest + (c + n) ≤ length bs
unfolding read_or
read_or_shrinks miss n c bs k e rest dead step h = elim (Option-cases (read_bytes n bs)) [
  | inl p ↦ absurd (dead e rest (rw (p, read_or) at h))
  | inr ((f, r), p) ↦
      let (len, split) = read_bytes_split n bs f r p in
      let fits : length rest + c ≤ length r = step f r (rw (p, read_or) at h) in
      rw split (rw (length-append f r) (omega (arith, len, fits)))
]

module _ (e : Entry) (rest : Bytes) where
  parse_value_shrinks :
      (seq op_u8 table_id n : ℕ) (key bs : Bytes)
      → parse_value seq op_u8 table_id n key bs ≡ Parsed.entry e rest
      → length rest + 0 ≤ length bs
  unfolding parse_value
  parse_value_shrinks seq op_u8 table_id n key bs h = elim (Bool-cases (op_u8 == 0 && ltb 0 n)) [
    | inl p ↦
        let fits : length rest + (0 + n) ≤ length bs =
          read_or_shrinks Parsed.corrupt n 0 bs _ e rest corrupt-ne-entry
            (λ f r q. omega (arith, ap length (entry_rest q))) (rw p at h) in
        omega (arith, fits)
    | inr p ↦ omega (arith, ap length (entry_rest (rw p at h)))
  ]

  parse_body_shrinks :
      (seq op_u8 table_id key_len n : ℕ) (bs : Bytes)
      → parse_body seq op_u8 table_id key_len n bs ≡ Parsed.entry e rest
      → length rest + 0 ≤ length bs
  unfolding parse_body
  parse_body_shrinks seq op_u8 table_id key_len n bs h =
      elim (Bool-cases (ltb max_len key_len || ltb max_len n)) [
        | inl p ↦ absurd (corrupt-ne-entry e rest (rw p at h))
        | inr p ↦
            let fits : length rest + (0 + key_len) ≤ length bs =
              read_or_shrinks Parsed.corrupt key_len 0 bs _ e rest corrupt-ne-entry
                (λ f r. parse_value_shrinks seq op_u8 table_id n f r) (rw p at h) in
            omega (arith, fits)
      ]

  -- An entry takes at least its 33 bytes of fixed fields.
  pub parse_entry_shrinks :
      (bs : Bytes) → parse_entry bs ≡ Parsed.entry e rest → length rest + 33 ≤ length bs
  unfolding parse_entry
  parse_entry_shrinks bs = read_or_shrinks Parsed.stop 8 25 bs _ e rest stop-ne-entry (λ s b1.
      read_or_shrinks Parsed.stop 1 24 b1 _ e rest stop-ne-entry (λ o b2.
        read_or_shrinks Parsed.stop 8 16 b2 _ e rest stop-ne-entry (λ t b3.
          read_or_shrinks Parsed.stop 8 8 b3 _ e rest stop-ne-entry (λ k b4.
            read_or_shrinks Parsed.stop 8 0 b4 _ e rest stop-ne-entry
              (λ v. parse_body_shrinks (of_le s) (of_le o) (of_le t) (of_le k) (of_le v))))))
