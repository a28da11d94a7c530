-- ===== src/Slices/Groups.antt =====
-- slices/slices.go: the functions that build maps.
pub mod Entries
use fries.Prelude.{ℕ, suc, Option, none, some, List, [], ◌∷◌, ◌++◌, lookup, insert}
use fries.Prelude.Words.{add64}
use fries.Slices.{range, range_from}

-- A missing entry reads as nil.
abbrev pub group_at : {E : Type 0} → Option (List E) → List E
group_at none = []
group_at (some items) = items

-- `result[key]++` on an int; a missing entry reads as 0.
abbrev pub count_at : Option ℕ → ℕ
count_at none = 0
count_at (some n) = n

abbrev pub count_one : {K : Type 0} → Discrete K → List (K × ℕ) → K → List (K × ℕ)
count_one same m key = insert same key (add64 (count_at (lookup same key m)) 1) m

module _ {E K : Type 0} (same : Discrete K) where
  unfoldable pub key_by : List E → (E → K) → List (K × E)
  unfolding range_from insert
  key_by s fn = range (λ result item i. insert same (fn item) item result) [] s

  unfoldable pub key_by_n : List E → (E → ℕ → K) → List (K × E)
  unfolding range_from insert
  key_by_n s fn = range (λ result item i. insert same (fn item i) item result) [] s

  -- `result[key] = append(result[key], item)`
  abbrev pub add_to_group : List (K × List E) → K → E → List (K × List E)
  add_to_group m key item = insert same key (group_at (lookup same key m) ++ (item ∷ [])) m

  unfoldable pub group_by : List E → (E → K) → List (K × List E)
  unfolding range_from insert lookup
  group_by s fn = range (λ result item i. add_to_group result (fn item) item) [] s

  unfoldable pub group_by_n : List E → (E → ℕ → K) → List (K × List E)
  unfolding range_from insert lookup
  group_by_n s fn = range (λ result item i. add_to_group result (fn item i) item) [] s

  unfoldable pub count_by : List E → (E → K) → List (K × ℕ)
  unfolding range_from insert lookup add64
  count_by s fn = range (λ result item i. count_one same result (fn item)) [] s

  unfoldable pub count_by_n : List E → (E → ℕ → K) → List (K × ℕ)
  unfolding range_from insert lookup add64
  count_by_n s fn = range (λ result item i. count_one same result (fn item i)) [] s

module _ {E R K : Type 0} (same : Discrete K) where
  unfoldable pub key_map : List E → (E → ℕ → K × R) → List (K × R)
  unfolding range_from insert
  key_map s fn = range (λ result item i. insert same (fn item i).0 (fn item i).1 result) [] s
