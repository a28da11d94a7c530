-- ===== src/Slices/Chunks.antt =====
-- `Chunk` of slices/slices.go.
--
-- The size is a 64-bit pattern, and so is the index; the loop is given the length as its fuel.
pub mod Pieces
use fries.Prelude.{
  ℕ, zero, suc, ◌+◌, ◌-◌, ◌≤◌, ◌<◌, ◌≡◌, refl, Bool, true, false, List, [], ◌∷◌, ◌++◌, arith,
  if◌then◌else◌, min, length, take, drop,
}
use fries.Prelude.Words.{add64, lt64, nonpos64}

-- The built-in min.
abbrev smaller : ℕ → ℕ → ℕ
smaller a b = if lt64 a b then a else b

module _ {E : Type 0} where
  -- `s[low:high]`
  abbrev pub slice : List E → ℕ → ℕ → List E
  slice s low high = take (high - low) (drop low s)

  unfoldable pub chunks_from : List E → ℕ → ℕ → ℕ → List (List E) → List (List E)
  chunks_from s size zero i result = result
  chunks_from s size (suc fuel) i result =
      let end = smaller (add64 i size) (length s) in
      let rest = chunks_from s size fuel (add64 i size) (result ++ (slice s i end ∷ [])) in
      if lt64 i (length s) then rest else result

  unfoldable pub chunk : List E → ℕ → List (List E)
  unfolding chunks_from
  chunk s size = if nonpos64 size then [] else chunks_from s size (length s) 0 []
