-- ===== src/Slices/Tests.antt =====
-- slices: runs, and the theorems at concrete slices.
use fries.Prelude.{ℕ, ◌≡◌, refl, Bool, true, List, [], ◌∷◌, arith, insert, ltb, ℕ_discrete}
use fries.Prelude.Words.{nonpos64, lt64, add64}
use fries.Slices.{concat, reverse}
use fries.Slices.Sets.{unique}
use fries.Slices.Search.{find_last}
use fries.Slices.Chunks.{chunk}
use fries.Slices.Chunks.Pieces.{IsChunked, chunk_lem}

abbrev items : List ℕ
items = 3 ∷ 1 ∷ 3 ∷ 2 ∷ 5 ∷ []

abbrev large : ℕ → Bool
large n = ltb 2 n

chunk_run : chunk items 2 ≡ (3 ∷ 1 ∷ []) ∷ (3 ∷ 2 ∷ []) ∷ (5 ∷ []) ∷ []
unfolding chunk nonpos64 lt64 add64
chunk_run = refl

reverse_run : reverse 0 items ≡ 5 ∷ 2 ∷ 3 ∷ 1 ∷ 3 ∷ []
unfolding reverse
reverse_run = refl

unique_run : unique ℕ_discrete items ≡ 3 ∷ 1 ∷ 2 ∷ 5 ∷ []
unfolding unique ℕ_discrete insert
unique_run = refl

find_last_run : find_last 0 items large ≡ (5, true)
unfolding find_last
find_last_run = refl

chunk_lem_example : (concat (chunk items 2) ≡ items) × IsChunked 2 (chunk items 2)
chunk_lem_example = chunk_lem items 2 (omega arith) (omega arith) (omega arith)
