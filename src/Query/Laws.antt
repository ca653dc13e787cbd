-- ===== src/Query/Laws.antt =====
-- What the conditions of src/query/query_builder.c mean.
use Prim.Native.Nat.{Ordering}
use kanbudb.Prelude.{
  ℕ, ◌≡◌, refl, ap, ◌≢◌, Bool, true, false, not, Option, none, some, List, [], ◌∷◌, Bytes,
}
use kanbudb.Key.{memcmp, key_cmp}
use kanbudb.RowFormat.{ColType, Schema}
use kanbudb.Query.{QueryBuilder, cut, qb_filter, op_holds, col_cmp, filter_match, leaf_match}

-- An answer the other way round; a read behind the row stays one.
abbrev pub flipped : Option Bool → Option Bool
flipped none = none
flipped (some b) = some (not b)

-- The second answer counts where the first is yes.
abbrev pub and_then : Option Bool → Option Bool → Option Bool
and_then none b = none
and_then (some false) b = some false
and_then (some true) b = b

op_pairs :
    (cmp : Ordering)
    → (op_holds (33 ∷ 61 ∷ []) cmp ≡ not (op_holds (61 ∷ []) cmp))
      × (op_holds (62 ∷ 61 ∷ []) cmp ≡ not (op_holds (60 ∷ []) cmp))
      × (op_holds (60 ∷ 61 ∷ []) cmp ≡ not (op_holds (62 ∷ []) cmp))
unfolding key_cmp memcmp
op_pairs Ordering.lt = (refl, refl, refl)
op_pairs Ordering.eq = (refl, refl, refl)
op_pairs Ordering.gt = (refl, refl, refl)

flipped_pairs :
    (x : Option Ordering)
    → (elim x [ none ↦ none | some cmp ↦ some (op_holds (33 ∷ 61 ∷ []) cmp) ]
        ≡ flipped (elim x [ none ↦ none | some cmp ↦ some (op_holds (61 ∷ []) cmp) ]))
      × (elim x [ none ↦ none | some cmp ↦ some (op_holds (62 ∷ 61 ∷ []) cmp) ]
          ≡ flipped (elim x [ none ↦ none | some cmp ↦ some (op_holds (60 ∷ []) cmp) ]))
      × (elim x [ none ↦ none | some cmp ↦ some (op_holds (60 ∷ 61 ∷ []) cmp) ]
          ≡ flipped (elim x [ none ↦ none | some cmp ↦ some (op_holds (62 ∷ []) cmp) ]))
flipped_pairs none = (refl, refl, refl)
flipped_pairs (some cmp) = let (a, b, c) = op_pairs cmp in (ap some a, ap some b, ap some c)

-- Only BLOB has no comparison.
col_cmp-some :
    (float_cmp : ColType → Bytes → Bytes → Ordering) (d : Bytes) (col_len : ℕ) (type : ColType)
    (literal : Bytes)
    → type ≢ ColType.blob
    → (x : Option Ordering) × (col_cmp float_cmp d col_len type literal ≡ some x)
col_cmp-some float_cmp d col_len ColType.int32 literal h = (_, refl)
col_cmp-some float_cmp d col_len ColType.int64 literal h = (_, refl)
col_cmp-some float_cmp d col_len ColType.float literal h = (_, refl)
col_cmp-some float_cmp d col_len ColType.double literal h = (_, refl)
col_cmp-some float_cmp d col_len ColType.string literal h = (_, refl)
col_cmp-some float_cmp d col_len ColType.bool literal h = (_, refl)
col_cmp-some float_cmp d col_len ColType.blob literal h = absurd (h refl)

-- On a column of any type but BLOB, which has no comparison, the operators are the negations of each
-- other: `!=` of `=`, `>=` of `<`, and `<=` of `>`.
pub filter_match-flipped :
    (float_cmp : ColType → Bytes → Bytes → Ordering) (d : Bytes) (col_len : ℕ) (type : ColType)
    (literal : Bytes)
    → type ≢ ColType.blob
    → (filter_match float_cmp d col_len type (33 ∷ 61 ∷ []) literal
        ≡ flipped (filter_match float_cmp d col_len type (61 ∷ []) literal))
      × (filter_match float_cmp d col_len type (62 ∷ 61 ∷ []) literal
          ≡ flipped (filter_match float_cmp d col_len type (60 ∷ []) literal))
      × (filter_match float_cmp d col_len type (60 ∷ 61 ∷ []) literal
          ≡ flipped (filter_match float_cmp d col_len type (62 ∷ []) literal))
unfolding filter_match
filter_match-flipped float_cmp d col_len type literal h =
    let (x, e) = col_cmp-some float_cmp d col_len type literal h in
    rw (e, filter_match) (flipped_pairs x)

-- A filter as `qb_filter` is given it.
pub record Filter : Type 0 where
  pub column : Bytes
  pub op : Bytes
  pub value : Bytes

abbrev pub add_filters : List Filter → QueryBuilder → QueryBuilder
add_filters [] qb = qb
add_filters (f ∷ fs) qb = add_filters fs (qb_filter f.column f.op f.value qb)

module _ (float_cmp : ColType → Bytes → Bytes → Ordering) (schema : Schema)
    (cols : List (Bytes × ColType)) (row : Bytes) where
  -- The filters one after the other, up to the first that fails.
  abbrev pub all_match : List Filter → Option Bool
  all_match [] = some true
  all_match (f ∷ fs) =
      and_then
        (leaf_match float_cmp schema cols row (cut 64 f.column) (cut 16 f.op) (cut 256 f.value))
        (all_match fs)
