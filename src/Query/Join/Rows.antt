-- ===== src/Query/Join/Rows.antt =====
-- What the join of src/query/query_builder.c makes of a row and of the row that the other table has under
-- its key, and how the new row reads.
use mathlib.Core.List.{append_assoc}
use kanbudb.Prelude.{
  ℕ, suc, ◌+◌, ◌^◌, ◌≤◌, ◌<◌, ◌≡◌, refl, sym, ap, subst, ◌∙◌, inl, inr, none, some, List, [], ◌∷◌,
  ◌++◌, arith, ◌==◌, Bool-cases, length, length-append, All, Bytes,
}
use kanbudb.Status.{Status}
use kanbudb.RowFormat.{
  ColType, Schema, max_cols, row_schema_init, Extracted, row_extract_column, column_bytes,
}
use kanbudb.RowFormat.RoundTrip.{
  column_layout, row_layout, SizeFits, types_of, value_at, row_extract_column-row_layout,
}
use kanbudb.Db.{Db, db_get}
use kanbudb.Query.Join.{
  without, join_key, joined_cell, put_before, joined_cells, join_found, join_row,
}

joined_cell-layout : (t : ColType) (v : Bytes) → joined_cell t v ≡ column_layout (t, v)
joined_cell-layout ColType.int32 v = refl
joined_cell-layout ColType.int64 v = refl
joined_cell-layout ColType.float v = refl
joined_cell-layout ColType.double v = refl
joined_cell-layout ColType.string v = refl
joined_cell-layout ColType.blob v = refl
joined_cell-layout ColType.bool v = refl

-- A column that is there gives its bytes to whatever is done with them.
found {ℓ} :
    {A : Type ℓ} (row : Bytes) (x : Extracted) (v : Bytes) (skipped outside : A)
    (use_it : Bytes → A)
    → column_bytes row x ≡ some v
    → (elim x [
      | Extracted.null ↦ skipped
      | y ↦ elim (column_bytes row y) [ none ↦ outside | some d ↦ use_it d ]
    ])
      ≡ use_it v
found row Extracted.null v skipped outside use_it h = absurd cc
found row Extracted.fault v skipped outside use_it h = absurd cc
found row (Extracted.column offset len) v skipped outside use_it h = rw h refl

joined_cells-layout :
    (schema : Schema) (fc : ℕ) (fval : Bytes) (j : ℕ) (cols : List (ColType × Bytes))
    → ((i : ℕ) → column_bytes fval (row_extract_column schema (j + i) fval) ≡ value_at cols i)
    → joined_cells schema fc fval j (types_of cols) ≡ some (row_layout (without fc j cols))
unfolding joined_cells
joined_cells-layout schema fc fval j [] h = refl
joined_cells-layout schema fc fval j ((t, v) ∷ cols) h =
    let shifted : (i : ℕ)
        → column_bytes fval (row_extract_column schema (suc j + i) fval) ≡ value_at cols i =
      λ i.
        subst (λ k. column_bytes fval (row_extract_column schema k fval) ≡ value_at cols i)
          (omega arith) (h (suc i)) in
    let rest = joined_cells-layout schema fc fval (suc j) cols shifted in
    let here : column_bytes fval (row_extract_column schema j fval) ≡ some v =
      subst (λ k. column_bytes fval (row_extract_column schema k fval) ≡ some v) (omega arith)
        (h 0) in
    elim (Bool-cases (j == fc)) [
      | inl skipped ↦ rw skipped rest
      | inr kept ↦ rw kept (
          found fval (row_extract_column schema j fval) v
            (joined_cells schema fc fval (suc j) (types_of cols)) none
            (λ d.
              put_before (joined_cell t d) (joined_cells schema fc fval (suc j) (types_of cols)))
            here
          ∙ (ap (put_before (joined_cell t v)) rest
              ∙ ap (λ c. some (c ++ row_layout (without fc (suc j) cols)))
                  (joined_cell-layout t v)))
    ]

row_layout-append :
    (xs ys : List (ColType × Bytes)) → row_layout (xs ++ ys) ≡ row_layout xs ++ row_layout ys
row_layout-append [] ys = refl
row_layout-append (x ∷ xs) ys =
    ap (λ r. column_layout x ++ r) (row_layout-append xs ys)
    ∙ sym (append_assoc (column_layout x) (row_layout xs) (row_layout ys))

All-append :
    (xs ys : List (ColType × Bytes)) → All SizeFits xs → All SizeFits ys → All SizeFits (xs ++ ys)
All-append [] ys f g = g
All-append (x ∷ xs) ys f g = (f.0, All-append xs ys f.1 g)

All-without :
    (skipped i : ℕ) (xs : List (ColType × Bytes))
    → All SizeFits xs
    → All SizeFits (without skipped i xs)
All-without skipped i [] f = tt
All-without skipped i (x ∷ xs) f = elim (Bool-cases (i == skipped)) [
  | inl e ↦ rw e (All-without skipped (suc i) xs f.1)
  | inr e ↦ rw e (f.0, All-without skipped (suc i) xs f.1)
]

module _ (cols fcols : List (ColType × Bytes)) (lc fc : ℕ) (ltype : ColType) (table v key : Bytes)
    (db after : Db) (fits : All SizeFits cols) (ffits : All SizeFits fcols)
    (fewer : length fcols ≤ max_cols) (few : length (cols ++ without fc 0 fcols) ≤ max_cols)
    (fsmall : length (row_layout fcols) < 2 ^ 31)
    (small : length (row_layout (cols ++ without fc 0 fcols)) < 2 ^ 31)
    (value : value_at cols lc ≡ some v) (keyed : join_key ltype v ≡ some key)
    (got : db_get table (key ++ 0 ∷ []) db ≡ ((after, Status.ok), some (row_layout fcols))) where
  cells :
      joined_cells (row_schema_init (types_of fcols)) fc (row_layout fcols) 0 (types_of fcols)
      ≡ some (row_layout (without fc 0 fcols))
  cells = joined_cells-layout (row_schema_init (types_of fcols)) fc (row_layout fcols) 0 fcols (λ i.
      ap
        (λ k.
          column_bytes (row_layout fcols)
            (row_extract_column (row_schema_init (types_of fcols)) k (row_layout fcols)))
        (omega arith)
      ∙ row_extract_column-row_layout fcols i ffits fewer fsmall)

  join_found-row_layout :
      join_found
        (row_schema_init (types_of cols))
        lc
        ltype
        table
        (types_of fcols)
        fc
        (row_layout cols)
        (db_get table (key ++ 0 ∷ []) db)
      ≡ some (after, row_layout cols ++ row_layout (without fc 0 fcols))
  join_found-row_layout =
      ap
        (join_found (row_schema_init (types_of cols)) lc ltype table (types_of fcols) fc
          (row_layout cols))
        got
      ∙ rw (cells, join_found) refl

  local_small : length (row_layout cols) < 2 ^ 31
  local_small = omega (
    arith,
    small,
    ap length (row_layout-append cols (without fc 0 fcols)),
    length-append (row_layout cols) (row_layout (without fc 0 fcols)),
  )

  local_few : length cols ≤ max_cols
  local_few = omega (arith, few, length-append cols (without fc 0 fcols))

  joined_row :
      join_row
        (row_schema_init (types_of cols))
        lc
        ltype
        table
        (types_of fcols)
        fc
        db
        (row_layout cols)
      ≡ some (after, row_layout (cols ++ without fc 0 fcols))
  unfolding join_row
  joined_row =
      found (row_layout cols)
        (row_extract_column (row_schema_init (types_of cols)) lc (row_layout cols)) v
        (some (db, row_layout cols)) none
        (λ d. elim (join_key ltype d) [
          | none ↦ none
          | some key ↦
              join_found (row_schema_init (types_of cols)) lc ltype table (types_of fcols) fc
                (row_layout cols) (db_get table (key ++ 0 ∷ []) db)
        ])
        (row_extract_column-row_layout cols lc fits local_few local_small ∙ value)
      ∙ (rw keyed join_found-row_layout
          ∙ ap (λ r. some (after, r)) (sym (row_layout-append cols (without fc 0 fcols))))

  -- The join of a row that was laid out column by column, whose key the other table has with a row
  -- that was laid out likewise; together, without the joined column, the two have at most 64
  -- columns and less than 2 ^ 31 bytes. The new row is that of the columns of both; under the types
  -- of these, the number of a column finds exactly its value in it, also where a column of varying
  -- size stands before, and any other number nothing.
  pub join_row-row_layout :
      (i : ℕ)
      → (join_row
            (row_schema_init (types_of cols))
            lc
            ltype
            table
            (types_of fcols)
            fc
            db
            (row_layout cols)
          ≡ some (after, row_layout (cols ++ without fc 0 fcols)))
        × (column_bytes (row_layout (cols ++ without fc 0 fcols)) (
              row_extract_column
                (row_schema_init (types_of (cols ++ without fc 0 fcols)))
                i
                (row_layout (cols ++ without fc 0 fcols)))
            ≡ value_at (cols ++ without fc 0 fcols) i)
  join_row-row_layout i = (
    joined_row,
    row_extract_column-row_layout (cols ++ without fc 0 fcols) i
        (All-append cols (without fc 0 fcols) fits (All-without fc 0 fcols ffits)) few small,
  )
