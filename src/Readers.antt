-- ===== src/Readers.antt =====
-- Readers in other processes, src/core/db.c: the loop of `db_reader_refresh` over the shared log of
-- src/storage/wal_mmap.c, and the runs of one writer with one reader, whose mapping stays open. The
-- number that a reader keeps as `last_seq` is the offset up to which it has read.
pub mod CatchUp
use kanbudb.Prelude.{
  ℕ, zero, suc, ◌+◌, ◌≡◌, Bool, false, Option, none, some, List, [], ◌∷◌, ◌++◌, length, Bytes,
}
use kanbudb.Wal.Entry.{Op, Entry, IsEntry}
use kanbudb.WalMmap.{Region, wal_mmap_open, wal_mmap_append, ReadEntry, wal_mmap_read_entry}
use kanbudb.Btree.{Btree, btree_create, btree_put, btree_delete}

-- What a reader holds: its own tree, and how far it has read.
pub record Reader : Type 0 where
  pub btree : Btree
  pub last_seq : ℕ

-- An entry is applied to the reader's tree; a value that is NULL has no bytes.
abbrev pub apply_entry : ReadEntry → Btree → Btree
apply_entry e bt = elim e.op [
  | Op.put ↦ btree_put e.key (elim e.value [ none ↦ [] | some v ↦ v ]) bt
  | Op.delete ↦ (btree_delete e.key bt).0
]

-- The loop of `db_reader_refresh`: `none` if the fuel runs out.
unfoldable pub refresh_loop : ℕ → Region → Reader → Option Reader
refresh_loop zero wm r = none
refresh_loop (suc fuel) wm r = elim (wal_mmap_read_entry wm r.last_seq) [
  | none ↦ some r
  | some (e, last_seq) ↦
      refresh_loop fuel wm (record { btree = apply_entry e r.btree; last_seq = last_seq })
]

-- `db_reader_refresh`, where the log is mapped and the tables are known.
unfoldable pub db_reader_refresh : Region → Reader → Option Reader
db_reader_refresh wm r = refresh_loop (length wm.data_bytes + 1) wm r

-- The shared region and a reader.
pub record System : Type 0 where
  pub region : Region
  pub reader : Reader

-- A step of the writer or of the reader, with the entries that the writer adds by it.
pub data Step (s : System) : List Entry → System → Type 0 where
  append :
      (e : Entry) (u : Region) (pos : ℕ)
      → IsEntry e
      → wal_mmap_append s.region e ≡ some (u, pos)
      → Step s (e ∷ []) (record { region = u; reader = s.reader })
  refresh :
      (r : Reader)
      → db_reader_refresh s.region s.reader ≡ some r
      → Step s [] (record { region = s.region; reader = r })

-- A log of this size that was just created, and a reader with this tree.
abbrev pub initial : Region → Btree → System
initial mapped bt = record {
  region = wal_mmap_open false mapped;
  reader = record { btree = bt; last_seq = 0 };
}

-- The systems that are reached, with all entries that the writer has added.
pub data Reach (mapped : Region) (bt : Btree) : List Entry → System → Type 0 where
  start : Reach mapped bt [] (initial mapped bt)
  later :
      {es more : List Entry} {s t : System}
      → Reach mapped bt es s
      → Step s more t
      → Reach mapped bt (es ++ more) t
