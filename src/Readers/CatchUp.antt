-- ===== src/Readers/CatchUp.antt =====
-- A reader of src/core/db.c catches up with the writer, in whatever order the two take turns.
use kanbudb.Prelude.{◌+◌, ◌≡◌, List, [], ◌∷◌, ◌++◌, length, take, drop, All, Bytes}
use kanbudb.Wal.Entry.{Entry, encode, IsEntry}
use kanbudb.WalMmap.{Region}
use kanbudb.WalMmap.Reads.{entry_read}
use kanbudb.Btree.{Btree}
use kanbudb.Readers.{apply_entry, System}

-- The bytes of these entries one after the other.
abbrev pub encodings : List Entry → Bytes
encodings [] = []
encodings (e ∷ es) = encode e ++ encodings es

-- A tree to which these entries were applied in their order.
abbrev pub apply_all : List Entry → Btree → Btree
apply_all [] bt = bt
apply_all (e ∷ es) bt = apply_all es (apply_entry (entry_read e) bt)

-- The region holds these bytes, up to the writer's position, and more behind them.
record Holds (wm : Region) (written : Bytes) : Type 0 where
  rest : Bytes
  bytes_are : wm.data_bytes ≡ written ++ rest
  position : wm.write_pos ≡ length written

-- What holds of every system that is reached: how far the reader is.
record Follows (es : List Entry) (bt : Btree) (s : System) : Type 0 where
  done : List Entry
  todo : List Entry
  split : es ≡ done ++ todo
  legal : All IsEntry es
  holds : Holds s.region (encodings es)
  read : s.reader ≡ record { btree = apply_all done bt; last_seq = length (encodings done) }

-- What an append leaves in the region.
abbrev appended : Region → Entry → Region
appended wm e = record {
  data_bytes =
      take wm.write_pos wm.data_bytes
      ++ (encode e ++ drop (wm.write_pos + length (encode e)) wm.data_bytes);
  write_pos = wm.write_pos + length (encode e);
}
