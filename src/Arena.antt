-- ===== src/Arena.antt =====
-- The arena, src/util/arena.c. A block carries a number of its own in place of its address, and a
-- pointer is the number of a block and an offset in it. `malloc` succeeds or not by a parameter.
pub mod Regions
use kanbudb.Prelude.{
  ℕ, ◌+◌, ◌*◌, ◌/◌, ◌%◌, ◌^◌, Bool, Option, none, some, List, [], ◌∷◌, ◌++◌, map, ltb, ◌==◌,
  if◌then◌else◌,
}

pub record Block : Type 0 where
  pub id : ℕ
  pub capacity : ℕ
  pub offset : ℕ

-- The chain of blocks: `current`, those before it from `head` on, and those after it. `next_id` is
-- the number of the next block.
pub record Arena : Type 0 where
  pub before : List Block
  pub current : Block
  pub after : List Block
  pub block_size : ℕ
  pub used : ℕ
  pub next_id : ℕ

unfoldable pub arena_create : ℕ → Arena
arena_create block_size =
    let actual_block = if ltb 0 block_size then block_size else 8192 in
    record {
      before = [];
      current = record { id = 0; capacity = actual_block; offset = 0 };
      after = [];
      block_size = actual_block;
      used = 0;
      next_id = 1;
    }

-- `KANBUDB_ALIGN` on 64-bit words.
abbrev pub align : ℕ → ℕ
align size = (size + 7) % 2 ^ 64 / 8 * 8

-- The end of `arena_alloc`: the pointer, and what the block then has given away.
abbrev pub bump : ℕ → Arena → Arena × Option (ℕ × ℕ)
bump size a = (
  record a {
    current = record a.current { offset = a.current.offset + size };
    used = (a.used + size) % 2 ^ 64;
  },
  some (a.current.id, a.current.offset),
)

-- A new block behind the current one; what followed that is lost.
abbrev pub add_block : ℕ → Arena → Arena
add_block size a = record a {
  before = a.before ++ a.current ∷ [];
  current = record {
    id = a.next_id;
    capacity = if ltb size a.block_size then a.block_size else size;
    offset = 0;
  };
  after = [];
  next_id = a.next_id + 1;
}

unfoldable pub arena_alloc : Bool → Arena → ℕ → Arena × Option (ℕ × ℕ)
arena_alloc alloc a requested =
    if requested == 0
    then (a, none)
    else (let size = align requested in
        if ltb a.current.capacity ((a.current.offset + size) % 2 ^ 64)
        then if alloc then bump size (add_block size a) else (a, none)
        else bump size a)

abbrev pub rewind : Block → Block
rewind b = record b { offset = 0 }

-- `arena_reset`: the first block becomes the current one.
unfoldable pub arena_reset : Arena → Arena
arena_reset a = elim a.before [
  | [] ↦ record a { current = rewind a.current; after = map rewind a.after; used = 0 }
  | head ∷ rest ↦ record a {
    before = [];
    current = rewind head;
    after = map rewind rest ++ rewind a.current ∷ map rewind a.after;
    used = 0;
  }
]

unfoldable pub arena_used : Arena → ℕ
arena_used a = a.used
