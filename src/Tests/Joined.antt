-- ===== src/Tests/Joined.antt =====
-- The join of src/query/query_builder.c at one row, and a caller that reads two rows.
use kanbudb.Prelude.{
  ◌≡◌, refl, inl, inr, false, none, some, List, [], ◌∷◌, ◌++◌, arith, Bytes, le_bytes, of_le,
  length,
}
use kanbudb.Status.{Status}
use kanbudb.Key.{memcmp, key_cmp}
use kanbudb.Memtable.{get_lane, memtable_get}
use kanbudb.Lsm.{lsm_get}
use kanbudb.Wal.Log.{FsyncMode, Stream}
use kanbudb.Db.{Db, find_table, db_get}
use kanbudb.RowFormat.{ColType, row_schema_init, row_extract_column, column_bytes}
use kanbudb.RowFormat.RoundTrip.{row_layout, types_of, value_at}
use kanbudb.Query.Results.{ResultSet}
use kanbudb.Query.Join.{without, decimal, join_key, join_row}
use kanbudb.Query.Join.Rows.{join_row-row_layout}

-- A number that names a row of the other table, and a string.
abbrev local_row : List (ColType × Bytes)
local_row = (ColType.int32, 7 ∷ 0 ∷ 0 ∷ 0 ∷ []) ∷ (ColType.string, 65 ∷ 66 ∷ []) ∷ []

-- The row of number 7: the number, a string and a truth value.
abbrev foreign_row : List (ColType × Bytes)
foreign_row =
    (ColType.int32, 7 ∷ 0 ∷ 0 ∷ 0 ∷ []) ∷ (ColType.string, 67 ∷ []) ∷ (ColType.bool, 1 ∷ []) ∷ []

-- The database with that row, under the key "7".
abbrev shop : Db
shop = record {
  tables = record { name = 103 ∷ []; id = 1 } ∷ [];
  wal = record {
    fsync_mode = FsyncMode.never;
    seq = 0;
    file_pos = 16;
    periodic_count = 0;
    buf = [];
    stream = Stream.append_read;
    file = [];
    flushed = 0;
  };
  lsm = record {
    memtable_size = 65536;
    active = record {
      nodes =
          record {
            seq = 0;
            key = 55 ∷ 0 ∷ [];
            value = row_layout foreign_row;
            deleted = false;
            level = 0;
          }
          ∷ [];
      size_limit = 65536;
      used = 83;
      level = 0;
    };
    flushing = none;
    next_seq = 0;
  };
  btree = record { height = 0; root = [] };
  last_error = Status.ok;
  files = [];
  seq_file = none;
}

shop_has : db_get (103 ∷ []) (55 ∷ 0 ∷ []) shop ≡ ((shop, Status.ok), some (row_layout foreign_row))
unfolding db_get find_table lsm_get memtable_get get_lane key_cmp memcmp
shop_has = refl

seven : join_key ColType.int32 (7 ∷ 0 ∷ 0 ∷ 0 ∷ []) ≡ some (55 ∷ [])
unfolding join_key decimal of_le
seven = refl

foreign_length : length (row_layout foreign_row) ≡ 10
unfolding le_bytes
foreign_length = refl

joined_length : length (row_layout (local_row ++ without 0 0 foreign_row)) ≡ 16
unfolding le_bytes
joined_length = refl

-- The fourth column of the new row is the last of the other table.
join_row-row_layout_example :
    (join_row
        (row_schema_init (types_of local_row))
        0
        ColType.int32
        (103 ∷ [])
        (types_of foreign_row)
        0
        shop
        (row_layout local_row)
      ≡ some (shop, row_layout (local_row ++ without 0 0 foreign_row)))
    × (column_bytes (row_layout (local_row ++ without 0 0 foreign_row)) (
          row_extract_column
            (row_schema_init (types_of (local_row ++ without 0 0 foreign_row)))
            3
            (row_layout (local_row ++ without 0 0 foreign_row)))
        ≡ value_at (local_row ++ without 0 0 foreign_row) 3)
join_row-row_layout_example =
    join_row-row_layout local_row foreign_row 0 0 ColType.int32 (103 ∷ []) (7 ∷ 0 ∷ 0 ∷ 0 ∷ [])
      (55 ∷ []) shop shop (inr refl, (inl refl, tt)) (inr refl, (inl refl, (inr refl, tt)))
      (omega arith) (omega arith) (omega (arith, foreign_length)) (omega (arith, joined_length))
      refl seven shop_has 3

-- Two rows of one column.
abbrev answers : ResultSet
answers = record {
  num_rows = 2;
  next = 0;
  cols = (110 ∷ [], ColType.bool) ∷ [];
  is_fts = false;
  doc_ids = [];
  scores = [];
  rows = (1 ∷ []) ∷ (0 ∷ []) ∷ [];
}
