-- ===== src/Tests/Queries.antt =====
-- The theorems on rows, src/query/row_format.c, and on queries, src/query/query_builder.c, at small tables.
use Prim.Native.Nat.{Ordering}
use kanbudb.Prelude.{◌≡◌, refl, inl, inr, List, [], ◌∷◌, arith, All, Bytes, length, le_bytes}
use kanbudb.RowFormat.{ColType, row_schema_init, row_extract_column, column_bytes}
use kanbudb.RowFormat.RoundTrip.{
  row_layout, types_of, value_at, SizeFits, row_extract_column-row_layout,
}
use kanbudb.Query.Laws.{Filter}

-- A string of two bytes before a truth value.
abbrev two_columns : List (ColType × Bytes)
two_columns = (ColType.string, 65 ∷ 66 ∷ []) ∷ (ColType.bool, 1 ∷ []) ∷ []

two_columns-SizeFits : All SizeFits two_columns
two_columns-SizeFits = (inl refl, (inr refl, tt))

two_columns-length : length (row_layout two_columns) ≡ 7
unfolding le_bytes
two_columns-length = refl

row_extract_column-row_layout_example :
    column_bytes
      (row_layout two_columns)
      (row_extract_column (row_schema_init (types_of two_columns)) 1 (row_layout two_columns))
    ≡ value_at two_columns 1
row_extract_column-row_layout_example =
    row_extract_column-row_layout two_columns 1 two_columns-SizeFits (omega arith)
      (omega (arith, two_columns-length))

-- No column of the test holds a floating-point number.
abbrev no_floats : ColType → Bytes → Bytes → Ordering
no_floats t d literal = Ordering.eq

abbrev names : List (Bytes × ColType)
names = (110 ∷ [], ColType.string) ∷ (98 ∷ [], ColType.bool) ∷ []

-- n = "AB" and b = "1".
abbrev filters : List Filter
filters =
    record { column = 110 ∷ []; op = 61 ∷ []; value = 65 ∷ 66 ∷ [] }
    ∷ record { column = 98 ∷ []; op = 61 ∷ []; value = 49 ∷ [] }
    ∷ []
