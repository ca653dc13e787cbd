-- ===== src/Query/Sort/Order.antt =====
-- The order by which `qb_exec` of src/query/query_builder.c sorts.
use Prim.Native.Nat.{Ordering, compare}
use kanbudb.Prelude.{
  ℕ, ◌≡◌, refl, sym, ap, subst, ◌∙◌, inl, inr, Bool, true, false, Option, none, some, List, arith,
  ltb, ◌+◌, ◌-◌, ◌^◌, take, of_le, not, ◌&&◌, Bool-cases, if◌then◌else◌, get_or, Bytes,
}
use kanbudb.Key.{is_gt, key_cmp}
use kanbudb.Key.Order.{
  key_cmp_refl, key_cmp_eq, key_cmp_flip_lt, key_cmp_flip_gt, lex, key_cmp-lex, below_lt, below_gt,
}
use kanbudb.RowFormat.{ColType, Schema}
use kanbudb.Query.{int_value}
use kanbudb.Query.Sort.{negate, column_order, sort_cell, sort_entry_cmp}

-- A comparison that sorts: it turns round with its arguments, and "not above" goes on.
pub record Orders {ℓ} {A : Type ℓ} (cmp : A → A → Ordering) : Type ℓ where
  pub turns : (a b : A) → cmp b a ≡ negate (cmp a b)
  pub goes_on :
      (a b c : A) → is_gt (cmp a b) ≡ false → is_gt (cmp b c) ≡ false → is_gt (cmp a c) ≡ false

key_cmp_turns : (a b : Bytes) (o : Ordering) → key_cmp a b ≡ o → key_cmp b a ≡ negate o
key_cmp_turns a b Ordering.lt h = key_cmp_flip_lt a b h
key_cmp_turns a b Ordering.gt h = key_cmp_flip_gt a b h
key_cmp_turns a b Ordering.eq h =
    subst (λ k. key_cmp k a ≡ Ordering.eq) (key_cmp_eq a b h) (key_cmp_refl a)

key_cmp_goes_on :
    (a b c : Bytes)
    → is_gt (key_cmp a b) ≡ false
    → is_gt (key_cmp b c) ≡ false
    → is_gt (key_cmp a c) ≡ false
key_cmp_goes_on a b c h k = elim (Bool-cases (is_gt (key_cmp a c))) [
  | inr e ↦ e
  | inl e ↦
      let l = below_lt b c a (sym (below_gt b c) ∙ k) (sym (below_gt a c) ∙ e) in
      e ∙ (sym l ∙ (sym (below_gt a b) ∙ h))
]

key_cmp-Orders : Orders key_cmp
key_cmp-Orders = record {
  turns = λ a b. key_cmp_turns a b (key_cmp a b) refl;
  goes_on = key_cmp_goes_on;
}

compare-Orders {ℓ} : {A : Type ℓ} (f : A → ℕ) → Orders (λ a b. compare (f a) (f b))
compare-Orders f = record {
  turns = λ a b. ground arith;
  goes_on = λ a b c h k. ground (arith, h, k);
}

-- The same the other way round.
negate_gt : (o : Ordering) → is_gt o ≡ is_gt (negate (negate o))
negate_gt Ordering.lt = refl
negate_gt Ordering.eq = refl
negate_gt Ordering.gt = refl

reversed-Orders {ℓ} :
    {A : Type ℓ} (cmp : A → A → Ordering) → Orders cmp → Orders (λ a b. negate (cmp a b))
reversed-Orders cmp v = record {
  turns = λ a b. ap negate (v.turns a b);
  goes_on = λ a b c h k.
      ap is_gt (sym (v.turns a c))
      ∙ v.goes_on c b a (ap is_gt (v.turns b c) ∙ k) (ap is_gt (v.turns a b) ∙ h);
}

-- The types whose columns are compared without floating-point numbers.
abbrev pub is_exact : ColType → Bool
is_exact ColType.int32 = true
is_exact ColType.int64 = true
is_exact ColType.string = true
is_exact ColType.bool = true
is_exact _ = false

directed-Orders :
    (ascending : Bool) (cmp : Bytes → Bytes → Ordering)
    → Orders cmp
    → Orders (λ a b. if ascending then cmp a b else negate (cmp a b))
directed-Orders true cmp v = v
directed-Orders false cmp v = reversed-Orders cmp v

-- The answer of the comparison turned round, and whether it is that the first comes behind the second.
abbrev pub turned : Option Ordering → Option Ordering
turned none = none
turned (some o) = some (negate o)

abbrev pub is_behind : Option Ordering → Bool
is_behind none = false
is_behind (some o) = is_gt o

-- What the order is to be: strings by their bytes, a string before each longer one that begins with
-- it; integers as two's complement numbers; truth values by their byte.
abbrev pub signed : ℕ → ℕ → ℕ
signed bits n = if ltb n (2 ^ (bits - 1)) then n + 2 ^ (bits - 1) else n - 2 ^ (bits - 1)

abbrev pub value_order : ColType → Bytes → Bytes → Ordering
value_order ColType.string a b = lex a b
value_order ColType.int32 a b =
    compare (signed 32 (of_le (take 4 a))) (signed 32 (of_le (take 4 b)))
value_order ColType.int64 a b =
    compare (signed 64 (of_le (take 8 a))) (signed 64 (of_le (take 8 b)))
value_order ColType.bool a b = compare (get_or a 0 0) (get_or b 0 0)
value_order _ a b = Ordering.eq

compare_shift : (k m n : ℕ) → compare (m + k) (n + k) ≡ compare m n
compare_shift k m n = ground arith

int32_signed :
    (d : Bytes) → int_value ColType.int32 d ≡ signed 32 (of_le (take 4 d)) + (2 ^ 63 - 2 ^ 31)
int32_signed d = ground arith

int64_signed : (d : Bytes) → int_value ColType.int64 d ≡ signed 64 (of_le (take 8 d))
int64_signed d = ground arith

column_order-value_order :
    (float_order : ColType → Bytes → Bytes → Ordering) (type : ColType) (a b : Bytes)
    → is_exact type ≡ true
    → column_order float_order type a b ≡ some (value_order type a b)
unfolding column_order key_cmp
column_order-value_order f ColType.int32 a b e =
    ap (λ m. some (compare m (int_value ColType.int32 b))) (int32_signed a)
    ∙ (ap (λ n. some (compare (signed 32 (of_le (take 4 a)) + (2 ^ 63 - 2 ^ 31)) n))
          (int32_signed b)
        ∙ ap some (
            compare_shift (2 ^ 63 - 2 ^ 31) (signed 32 (of_le (take 4 a)))
              (signed 32 (of_le (take 4 b)))))
column_order-value_order f ColType.int64 a b e =
    ap (λ m. some (compare m (int_value ColType.int64 b))) (int64_signed a)
    ∙ ap (λ n. some (compare (signed 64 (of_le (take 8 a))) n)) (int64_signed b)
column_order-value_order f ColType.string a b e = ap some (key_cmp-lex a b)
column_order-value_order f ColType.bool a b e = refl
column_order-value_order f ColType.float a b e = absurd cc
column_order-value_order f ColType.double a b e = absurd cc
column_order-value_order f ColType.blob a b e = absurd cc

lex-Orders : Orders lex
lex-Orders = record {
  turns = λ a b. sym (key_cmp-lex b a) ∙ (key_cmp-Orders.turns a b ∙ ap negate (key_cmp-lex a b));
  goes_on = λ a b c h k.
      ap is_gt (sym (key_cmp-lex a c))
      ∙ key_cmp-Orders.goes_on a b c (ap is_gt (key_cmp-lex a b) ∙ h)
          (ap is_gt (key_cmp-lex b c) ∙ k);
}

value_order-Orders : (type : ColType) → is_exact type ≡ true → Orders (value_order type)
value_order-Orders ColType.int32 e = compare-Orders (λ d. signed 32 (of_le (take 4 d)))
value_order-Orders ColType.int64 e = compare-Orders (λ d. signed 64 (of_le (take 8 d)))
value_order-Orders ColType.string e = lex-Orders
value_order-Orders ColType.bool e = compare-Orders (λ d. get_or d 0 0)
value_order-Orders ColType.float e = absurd cc
value_order-Orders ColType.double e = absurd cc
value_order-Orders ColType.blob e = absurd cc

-- The order of the values in the direction of the sort.
abbrev pub row_order : ColType → Bool → Bytes → Bytes → Ordering
row_order type ascending a b =
    if ascending then value_order type a b else negate (value_order type a b)

pub row_order-Orders :
    (type : ColType) (ascending : Bool) → is_exact type ≡ true → Orders (row_order type ascending)
row_order-Orders type ascending e =
    directed-Orders ascending (value_order type) (value_order-Orders type e)

-- "Not behind" goes on, as an equation of Booleans.
goes_on_bool :
    (p q r : Bool) → (p ≡ false → q ≡ false → r ≡ false) → (not p && (not q && r)) ≡ false
goes_on_bool true q r f = refl
goes_on_bool false true r f = refl
goes_on_bool false false r f = f refl refl

module _ (float_order : ColType → Bytes → Bytes → Ordering) (schema : Schema) (col : ℕ)
    (type : ColType) (ascending : Bool) (rows : List Bytes) where
  pub sort_entry_cmp-row_order :
      (a b : ℕ) (da db : Bytes)
      → is_exact type ≡ true
      → sort_cell schema col rows a ≡ some da
      → sort_cell schema col rows b ≡ some db
      → sort_entry_cmp float_order schema col type ascending rows a b
        ≡ some (row_order type ascending da db)
  unfolding sort_entry_cmp
  sort_entry_cmp-row_order a b da db e ha hb =
      rw (ha, hb, column_order-value_order float_order type da db e, sort_entry_cmp) refl

  -- Three rows that have the sorted column, of type INT32, INT64, STRING or BOOL. `sort_entry_cmp` answers
  -- for the first two the order of their values (for strings that by their bytes, for integers
  -- that as two's complement numbers), in the other direction for a descending sort. With
  -- its arguments changed over it answers the opposite. And never does the first row not come behind
  -- the second, the second not behind the third, but the first behind the third. So it is the
  -- order that `qsort_r` asks for.
  pub sort_entry_cmp_trans :
      (a b c : ℕ) (da db dc : Bytes)
      → is_exact type ≡ true
      → sort_cell schema col rows a ≡ some da
      → sort_cell schema col rows b ≡ some db
      → sort_cell schema col rows c ≡ some dc
      → (sort_entry_cmp float_order schema col type ascending rows a b
          ≡ some (if ascending then value_order type da db else negate (value_order type da db)))
        × (sort_entry_cmp float_order schema col type ascending rows b a
            ≡ turned (sort_entry_cmp float_order schema col type ascending rows a b))
        × ((not (is_behind (sort_entry_cmp float_order schema col type ascending rows a b))
              && (not (is_behind (sort_entry_cmp float_order schema col type ascending rows b c))
                  && is_behind (sort_entry_cmp float_order schema col type ascending rows a c)))
            ≡ false)
  sort_entry_cmp_trans a b c da db dc e ha hb hc =
      let w = row_order-Orders type ascending e in
      let ab = sort_entry_cmp-row_order a b da db e ha hb in
      let bc = sort_entry_cmp-row_order b c db dc e hb hc in
      let ac = sort_entry_cmp-row_order a c da dc e ha hc in
      (
        ab,
        sort_entry_cmp-row_order b a db da e hb ha ∙ (ap some (w.turns da db) ∙ ap turned (sym ab)),
        rw (ab, bc, ac) (goes_on_bool _ _ _ (w.goes_on da db dc)),
      )
