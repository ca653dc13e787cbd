-- ===== src/Arena/Regions.antt =====
-- What `arena_alloc` of src/util/arena.c hands out: regions inside their blocks that do not overlap.
use kanbudb.Prelude.{
  ℕ, ◌+◌, ◌%◌, ◌^◌, ◌≤◌, ◌<◌, ◌≡◌, refl, ◌≢◌, ◌⊎◌, inl, inr, true, false, some, List, [], ◌∷◌,
  arith, ltb, ◌==◌, Bool-cases, ltb-false, All,
}
use kanbudb.Arena.{Arena, align, bump, add_block, arena_alloc}

-- Memory that was handed out: a block's number, an offset, and a size.
pub record Region : Type 0 where
  pub block : ℕ
  pub start : ℕ
  pub size : ℕ

abbrev pub Disjoint : Region → Region → Type 0
Disjoint r s = (r.block ≢ s.block) ⊎ ((r.start + r.size ≤ s.start) ⊎ (s.start + s.size ≤ r.start))

-- A region given out by this arena: of an older block, or of what the current one has given away.
abbrev pub Given : Arena → Region → Type 0
Given a r =
    (r.block < a.next_id) × ((r.block ≢ a.current.id) ⊎ (r.start + r.size ≤ a.current.offset))

pub record IsValid (a : Arena) : Type 0 where
  pub fits : a.current.offset ≤ a.current.capacity
  pub small : a.current.capacity < 2 ^ 63
  pub block_small : a.block_size < 2 ^ 63
  pub aligned : a.current.offset % 8 ≡ 0
  pub numbered : a.current.id < a.next_id

abbrev pub region : ℕ × ℕ → ℕ → Region
region (id, offset) size = record { block = id; start = offset; size = size }

-- What a successful allocation of `n` bytes promises of the arena `b` that it leaves and the pointer
-- `p`, where `given` was given out before: the pointer is aligned to 8 bytes, its region lies in the
-- current block and is disjoint from all those given before, and all of them now count as given.
pub record Allocated (given : List Region) (n : ℕ) (b : Arena) (p : ℕ × ℕ) : Type 0 where
  pub valid : IsValid b
  pub in_block : p.0 ≡ b.current.id
  pub in_capacity : p.1 + n ≤ b.current.capacity
  pub eight : p.1 % 8 ≡ 0
  pub disjoint : All (λ (g : Region). Disjoint g (region p n)) given
  pub counted : All (λ (g : Region). Given b g) (region p n ∷ given)

module _ (a : Arena) (v : IsValid a) (n : ℕ) (small : n < 2 ^ 62) where
  abbrev size : ℕ
  size = align n

  bump-Disjoint :
      (given : List Region)
      → All (λ (g : Region). Given a g) given
      → All (λ (g : Region). Disjoint g (region (a.current.id, a.current.offset) n)) given
  bump-Disjoint [] f = tt
  bump-Disjoint (g ∷ given) f =
      (elim f.0.1 [ inl e ↦ inl e | inr e ↦ inr (inl e) ], bump-Disjoint given f.1)

  bump-Given :
      (given : List Region)
      → All (λ (g : Region). Given a g) given
      → All (λ (g : Region). Given (bump size a).0 g) given
  bump-Given [] f = tt
  bump-Given (g ∷ given) f =
      ((f.0.0, elim f.0.1 [ inl e ↦ inl e | inr e ↦ inr (omega (arith, e)) ]), bump-Given given f.1)

  bump-Allocated :
      (given : List Region)
      → All (λ (g : Region). Given a g) given
      → a.current.offset + size ≤ a.current.capacity
      → Allocated given n (bump size a).0 (a.current.id, a.current.offset)
  bump-Allocated given f room = record {
    valid = record {
      fits = room;
      small = v.small;
      block_small = v.block_small;
      aligned = omega (arith, v.aligned);
      numbered = v.numbered;
    };
    in_block = refl;
    in_capacity = omega (arith, room, small);
    eight = v.aligned;
    disjoint = bump-Disjoint given f;
    counted = ((v.numbered, inr (omega (arith, small))), bump-Given given f);
  }

  add_block-Given :
      (given : List Region)
      → All (λ (g : Region). Given a g) given
      → All (λ (g : Region). Given (add_block size a) g) given
  add_block-Given [] f = tt
  add_block-Given (g ∷ given) f =
      ((omega (arith, f.0.0), inl (λ e. omega (arith, f.0.0, e))), add_block-Given given f.1)

  add_block-IsValid : IsValid (add_block size a)
  add_block-IsValid = record {
    fits = omega arith;
    small = ground (arith, v.block_small, small);
    block_small = v.block_small;
    aligned = refl;
    numbered = omega arith;
  }

-- In a valid arena, where `malloc` succeeds, an allocation of 1 to 2 ^ 62 - 1 bytes gives a pointer
-- aligned to 8 bytes, whose region lies in its block and is disjoint from every region given out
-- before, and leaves the arena valid.
pub arena_alloc-Allocated :
    (a : Arena) (n : ℕ) (given : List Region)
    → IsValid a
    → All (λ (g : Region). Given a g) given
    → 0 < n
    → n < 2 ^ 62
    → (p : ℕ × ℕ) × ((arena_alloc true a n).1 ≡ some p)
      × Allocated given n (arena_alloc true a n).0 p
unfolding arena_alloc
arena_alloc-Allocated a n given v f pos small =
    let nonzero : (n == 0) ≡ false = ground (arith, pos) in
    rw nonzero (elim (Bool-cases (ltb a.current.capacity ((a.current.offset + align n) % 2 ^ 64))) [
      | inl e ↦ rw e (
        (a.next_id, 0),
        refl,
        bump-Allocated (add_block (align n) a) (add_block-IsValid a v n small) n small given
            (add_block-Given a v n small given f) (ground (arith, small)),
      )
      | inr e ↦ rw e (
        (a.current.id, a.current.offset),
        refl,
        bump-Allocated a v n small given f (omega (arith, small, v.fits, v.small, ltb-false _ _ e)),
      )
    ])
