-- ===== src/Tests/Metadata.antt =====
-- The theorems on the shared metadata, src/storage/shared_meta.c, at work on small files.
use kanbudb.SharedMeta.{Meta, shared_magic}

abbrev meta_5 : Meta
meta_5 = record { magic = shared_magic; flushed_seq = 5; wal_version = 1; reader_count = 2 }
