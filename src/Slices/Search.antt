-- ===== src/Slices/Search.antt =====
-- slices/slices.go: the functions that look for an item.
--
-- An index is `some`, and -1 is `none`.
pub mod Found
use fries.Prelude.{
  ℕ, suc, Bool, true, false, not, Option, none, some, List, [], ◌∷◌, ◌-◌, if◌then◌else◌, ite,
  length, get_elem?,
}
use fries.Slices.{range_until, range_until_from, range_down, range_down_from}

abbrev pub returned : Bool → Option Bool → Bool
returned b none = b
returned b (some b') = b'

abbrev pub with_flag : Option ℕ → Option ℕ × Bool
with_flag none = (none, false)
with_flag (some i) = (some i, true)

abbrev pub with_zero : {E : Type 0} → E → Option E → E × Bool
with_zero zero_value none = (zero_value, false)
with_zero zero_value (some item) = (item, true)

module _ {E : Type 0} where
  -- slices.ContainsFunc of the standard library.
  unfoldable pub any : List E → (E → Bool) → Bool
  any [] fn = false
  any (item ∷ s) fn = let rest = any s fn in if fn item then true else rest

  unfoldable pub every : List E → (E → Bool) → Bool
  unfolding range_until_from
  every s fn = returned true (range_until (λ item i. if fn item then none else some false) s)

  unfoldable pub first : E → List E → E × Bool
  first zero_value [] = (zero_value, false)
  first zero_value (item ∷ s) = (item, true)

  unfoldable pub last : E → List E → E × Bool
  last zero_value [] = (zero_value, false)
  last zero_value (item ∷ s) = with_zero zero_value (get_elem? (item ∷ s) (length (item ∷ s) - 1))

  unfoldable pub find : E → List E → (E → Bool) → E × Bool
  unfolding range_until_from
  find zero_value s fn =
      with_zero zero_value (range_until (λ item i. if fn item then some item else none) s)

  unfoldable pub find_n : E → List E → (E → ℕ → Bool) → E × Bool
  unfolding range_until_from
  find_n zero_value s fn =
      with_zero zero_value (range_until (λ item i. if fn item i then some item else none) s)

  unfoldable pub find_last : E → List E → (E → Bool) → E × Bool
  unfolding range_down_from
  find_last zero_value s fn =
      with_zero zero_value (range_down (λ item i. if fn item then some item else none) s)

  unfoldable pub find_last_n : E → List E → (E → ℕ → Bool) → E × Bool
  unfolding range_down_from
  find_last_n zero_value s fn =
      with_zero zero_value (range_down (λ item i. if fn item i then some item else none) s)

  unfoldable pub index : List E → (E → Bool) → Option ℕ × Bool
  unfolding range_until_from
  index s fn = with_flag (range_until (λ item i. if fn item then some i else none) s)

  unfoldable pub index_n : List E → (E → ℕ → Bool) → Option ℕ × Bool
  unfolding range_until_from
  index_n s fn = with_flag (range_until (λ item i. if fn item i then some i else none) s)

  unfoldable pub last_index : List E → (E → Bool) → Option ℕ × Bool
  unfolding range_down_from
  last_index s fn = with_flag (range_down (λ item i. if fn item then some i else none) s)

  unfoldable pub last_index_n : List E → (E → ℕ → Bool) → Option ℕ × Bool
  unfolding range_down_from
  last_index_n s fn = with_flag (range_down (λ item i. if fn item i then some i else none) s)

module _ {E : Type 0} (same : Discrete E) where
  -- slices.Contains of the standard library.
  unfoldable pub contains : List E → E → Bool
  contains [] e = false
  contains (item ∷ s) e = let rest = contains s e in ite (same item e) true rest

  unfoldable pub index_of : List E → E → Option ℕ
  unfolding range_until_from
  index_of s e = range_until (λ item i. ite (same item e) (some i) none) s

  unfoldable pub last_index_of : List E → E → Option ℕ
  unfolding range_down_from
  last_index_of s e = range_down (λ item i. ite (same item e) (some i) none) s
