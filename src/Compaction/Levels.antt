-- ===== src/Compaction/Levels.antt =====
-- `compaction_pick_level` of src/storage/compaction.c: the level it picks can be compacted.
use kanbudb.Prelude.{
  ℕ, zero, suc, ◌+◌, ◌*◌, ◌^◌, ◌<◌, ◌≡◌, refl, inl, inr, ◌&&◌, some, List, [], ◌∷◌, arith, ltb, leb,
  Bool-cases, length,
}
use kanbudb.Compaction.{
  Level, grow, compaction_max_bytes_for_level, pick_from, compaction_pick_level,
}

-- The level at this place has a file and is not the last.
abbrev pub CanCompact : ℕ → List Level → Type 0
CanCompact i [] = ⊥
CanCompact i (last ∷ []) = ⊥
CanCompact zero (level ∷ next ∷ rest) = 0 < length level.file_paths
CanCompact (suc i) (level ∷ next ∷ rest) = CanCompact i (next ∷ rest)

pick_from-CanCompact :
    (i j : ℕ) (levels : List Level)
    → pick_from i levels ≡ some j
    → (n : ℕ) × (j ≡ i + n) × CanCompact n levels
unfolding pick_from
pick_from-CanCompact i j [] h = ground arith
pick_from-CanCompact i j (last ∷ []) h = ground arith
pick_from-CanCompact i j (level ∷ next ∷ rest) h =
    elim (Bool-cases (
      ltb (compaction_max_bytes_for_level i) level.total_size && ltb 0 (length level.file_paths))) [
        | inl e ↦ (0, ground (arith, e), ground (arith, e))
        | inr e ↦
            let (n, q, c) = pick_from-CanCompact (suc i) j (next ∷ rest) (rw e at h) in
            (suc n, omega (arith, q), c)
      ]

-- A level that is picked has a file to compact and a level below it to compact into.
pub compaction_pick_level-CanCompact :
    (i : ℕ) (levels : List Level) → compaction_pick_level levels ≡ some i → CanCompact i levels
unfolding compaction_pick_level
compaction_pick_level-CanCompact i [] h = ground arith
compaction_pick_level-CanCompact i (last ∷ []) h = ground arith
compaction_pick_level-CanCompact i (level0 ∷ level1 ∷ rest) h =
    elim (Bool-cases (leb 4 (length level0.file_paths))) [
      | inl e ↦ let zero_th : 0 ≡ i = ground (arith, e) in rw (← zero_th) (ground (arith, e))
      | inr e ↦
          let (n, q, c) = pick_from-CanCompact 1 i (level1 ∷ rest) (rw e at h) in
          let next : i ≡ suc n = omega (arith, q) in rw next c
    ]

-- For levels 1 to 7 the size limit is exactly 10 MB times 10 for each level above 1.
pub compaction_max_bytes_for_level_lem :
    (level : ℕ) → level < 7 → compaction_max_bytes_for_level (suc level) ≡ 10485760 * 10 ^ level
unfolding compaction_max_bytes_for_level grow
compaction_max_bytes_for_level_lem zero h = refl
compaction_max_bytes_for_level_lem (suc zero) h = refl
compaction_max_bytes_for_level_lem (suc (suc zero)) h = refl
compaction_max_bytes_for_level_lem (suc (suc (suc zero))) h = refl
compaction_max_bytes_for_level_lem (suc (suc (suc (suc zero)))) h = refl
compaction_max_bytes_for_level_lem (suc (suc (suc (suc (suc zero))))) h = refl
compaction_max_bytes_for_level_lem (suc (suc (suc (suc (suc (suc zero)))))) h = refl
compaction_max_bytes_for_level_lem (suc (suc (suc (suc (suc (suc (suc level))))))) h =
    absurd (omega (arith, h))
