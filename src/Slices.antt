-- ===== src/Slices.antt =====
-- slices/slices.go: functions on slices.
--
-- A slice is the list of its items (nil and empty are one), a map an association list (Prelude/Assoc),
-- `==` on a comparable type a decision. `range` is Go's loop over the items with their indices, that
-- carries the loop's variables; `range_until` is one that may return early; `range_down` is the loop
-- from the last index to the first. A zero value that a function returns is an argument.
pub mod Loops
pub mod Sets
pub mod Groups
pub mod Search
pub mod Split
pub mod Reversed
pub mod Chunks
mod Tests
use fries.Prelude.{
  ℕ, zero, suc, ◌-◌, Bool, true, false, not, Option, none, some, List, [], ◌∷◌, ◌++◌, if◌then◌else◌,
  ltb, length, get_elem?, set,
}

module _ {ℓ κ} {E : Type ℓ} {R : Type κ} where
  unfoldable pub range_from : (R → E → ℕ → R) → ℕ → R → List E → R
  range_from body i r [] = r
  range_from body i r (item ∷ s) = range_from body (suc i) (body r item i) s

  abbrev pub range : (R → E → ℕ → R) → R → List E → R
  range body r s = range_from body 0 r s

  -- The body returns from the function with `some`.
  unfoldable pub range_until_from : (E → ℕ → Option R) → ℕ → List E → Option R
  range_until_from body i [] = none
  range_until_from body i (item ∷ s) =
      let rest = range_until_from body (suc i) s in
      elim (body item i) [ some r ↦ some r | none ↦ rest ]

  abbrev pub range_until : (E → ℕ → Option R) → List E → Option R
  range_until body s = range_until_from body 0 s

  unfoldable at_index : (E → ℕ → Option R) → ℕ → Option E → Option R
  at_index body i none = none
  at_index body i (some item) = body item i

  -- `for i := n - 1; i >= 0; i--`, with `s[i]` in the body.
  unfoldable pub range_down_from : (E → ℕ → Option R) → List E → ℕ → Option R
  unfolding at_index
  range_down_from body s zero = none
  range_down_from body s (suc i) =
      let rest = range_down_from body s i in
      elim (at_index body i (get_elem? s i)) [ some r ↦ some r | none ↦ rest ]

  abbrev pub range_down : (E → ℕ → Option R) → List E → Option R
  range_down body s = range_down_from body s (length s)

abbrev initial {κ} : {R : Type κ} → R → List R → R
initial zero_value [] = zero_value
initial zero_value (d ∷ defaults) = d

module _ {ℓ κ} {E : Type ℓ} {R : Type κ} where
  unfoldable pub map_ : List E → (E → R) → List R
  unfolding range_from
  map_ s fn = range (λ result item i. result ++ (fn item ∷ [])) [] s

  unfoldable pub map_n : List E → (E → ℕ → R) → List R
  unfolding range_from
  map_n s fn = range (λ result item i. result ++ (fn item i ∷ [])) [] s

  unfoldable pub flat_map : List E → (E → List R) → List R
  unfolding range_from
  flat_map s fn = range (λ result item i. result ++ fn item) [] s

  -- Each and EachN; the function acts on the caller's state.
  unfoldable pub each : List E → (R → E → R) → R → R
  unfolding range_from
  each s fn w = range (λ w item i. fn w item) w s

  unfoldable pub each_n : List E → (R → E → ℕ → R) → R → R
  unfolding range_from
  each_n s fn w = range fn w s

  unfoldable pub reduce : R → List E → (R → E → R) → List R → R
  unfolding range_from
  reduce zero_value s fn defaults =
      range (λ result item i. fn result item) (initial zero_value defaults) s

  unfoldable pub reduce_n : R → List E → (R → E → ℕ → R) → List R → R
  unfolding range_from
  reduce_n zero_value s fn defaults = range fn (initial zero_value defaults) s

module _ {ℓ} {E : Type ℓ} where
  unfoldable pub prepend : List E → List E → List E
  prepend s items = items ++ s

  unfoldable pub append : List E → List E → List E
  append s items = s ++ items

  unfoldable pub filter : List E → (E → Bool) → List E
  unfolding range_from
  filter s fn = range (λ result item i. if fn item then result ++ (item ∷ []) else result) [] s

  unfoldable pub filter_n : List E → (E → ℕ → Bool) → List E
  unfolding range_from
  filter_n s fn = range (λ result item i. if fn item i then result ++ (item ∷ []) else result) [] s

  unfoldable pub partition : List E → (E → Bool) → List E × List E
  unfolding range_from
  partition s fn =
      range
        (λ (kept, left) item i.
          if fn item then (kept ++ (item ∷ []), left) else (kept, left ++ (item ∷ [])))
        ([], []) s

  unfoldable pub partition_n : List E → (E → ℕ → Bool) → List E × List E
  unfolding range_from
  partition_n s fn =
      range
        (λ (kept, left) item i.
          if fn item i then (kept ++ (item ∷ []), left) else (kept, left ++ (item ∷ [])))
        ([], []) s

  unfoldable pub or_zero : E → Option E → E
  or_zero zero_value none = zero_value
  or_zero zero_value (some item) = item

  -- The loop writes `result[i] = s[len(s)-1-i]` into a slice of zero values.
  unfoldable pub reverse_from : E → List E → ℕ → ℕ → List E → List E
  unfolding or_zero
  reverse_from zero_value s zero i result = result
  reverse_from zero_value s (suc n) i result =
      reverse_from zero_value s n (suc i)
        (set result i (or_zero zero_value (get_elem? s (length s - 1 - i))))

  unfoldable pub zeros : E → ℕ → List E
  zeros zero_value zero = []
  zeros zero_value (suc n) = zero_value ∷ zeros zero_value n

  unfoldable pub reverse : E → List E → List E
  unfolding reverse_from zeros
  reverse zero_value s = reverse_from zero_value s (length s) 0 (zeros zero_value (length s))

  unfoldable pub concat : List (List E) → List E
  unfolding range_from
  concat slices = range (λ result slice i. result ++ slice) [] slices

  unfoldable pub fill : List E → E → List E
  unfolding range_from
  fill s value = range (λ s' item i. set s' i value) s s

  -- rand.IntN answers the draw for its bound.
  unfoldable pub random : E → List E → (ℕ → ℕ) → E
  unfolding or_zero
  random zero_value [] draw = zero_value
  random zero_value (item ∷ s) draw =
      or_zero zero_value (get_elem? (item ∷ s) (draw (length (item ∷ s))))

  swap : List E → Option E → Option E → ℕ → ℕ → List E
  swap s (some a) (some b) i j = set (set s i b) j a
  swap s none b i j = s
  swap s (some a) none i j = s

  -- rand.Shuffle makes the swaps, of indices below the length.
  unfoldable pub shuffle : List E → List (ℕ × ℕ) → List E
  unfolding swap
  shuffle s [] = s
  shuffle s ((i, j) ∷ swaps) = shuffle (swap s (get_elem? s i) (get_elem? s j) i j) swaps

  -- `<` of the ordered type is given.
  unfoldable pub min : E → (E → E → Bool) → List E → E
  unfolding range_from
  min zero_value less [] = zero_value
  min zero_value less (item ∷ s) =
      range (λ m item i. if less item m then item else m) item (item ∷ s)

  unfoldable pub max : E → (E → E → Bool) → List E → E
  unfolding range_from
  max zero_value less [] = zero_value
  max zero_value less (item ∷ s) =
      range (λ m item i. if less m item then item else m) item (item ∷ s)

  -- `+` of the numeric type is given.
  unfoldable pub sum : E → (E → E → E) → List E → E
  unfolding range_from
  sum zero_value plus s = range (λ sum item i. plus sum item) zero_value s

  unfoldable pub is_empty : List E → Bool
  is_empty [] = true
  is_empty (item ∷ s) = false

  unfoldable pub is_not_empty : List E → Bool
  is_not_empty s = ltb 0 (length s)
