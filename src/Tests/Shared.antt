-- ===== src/Tests/Shared.antt =====
-- The theorems on the shared log, src/storage/wal_mmap.c, at work on a small region.
use kanbudb.Prelude.{◌++◌, none, [], ◌∷◌, replicate}
use kanbudb.Wal.Entry.{encode, Op, Entry}
use kanbudb.WalMmap.{Region}

abbrev shared : Region
shared = record { data_bytes = replicate 100 0; write_pos = 40 }

abbrev delete_7 : Entry
delete_7 = record { seq = 3; op = Op.delete; table_id = 1; key = 7 ∷ []; value = none; val_len = 0 }

-- A log of 100 bytes, of which the last 66 stay free, and an empty tree.
abbrev blank : Region
blank = record { data_bytes = replicate 100 0; write_pos = 0 }

abbrev with_delete : Region
with_delete = record { data_bytes = encode delete_7 ++ replicate 66 0; write_pos = 34 }
