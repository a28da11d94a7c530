-- ===== src/Slices/Sets.antt =====
-- slices/slices.go: the functions that compare items or keys.
pub mod Members
pub mod Distinct
use fries.Prelude.{
  ℕ, Bool, true, false, Option, none, some, List, [], ◌∷◌, ◌++◌, lookup, insert, if◌then◌else◌,
}
use fries.Slices.{range, range_from}

abbrev pub Set : Type 0 → Type 0
Set E = List (E × Unit {0})

abbrev pub is_present : Option (Unit {0}) → Bool
is_present none = false
is_present (some u) = true

module _ {E : Type 0} (same : Discrete E) where
  unfoldable pub index_set : List E → Set E
  unfolding range_from insert
  index_set s = range (λ result item i. insert same item tt result) [] s

  -- The item is a key of the map.
  unfoldable pub has : Set E → E → Bool
  unfolding lookup
  has m item = is_present (lookup same item m)

module _ {E K : Type 0} (same : Discrete K) where
  -- The body of the loops of Unique, UniqueBy and UniqueByN for an item with its key.
  abbrev pub keep_new : List E × Set K → K → E → List E × Set K
  keep_new (result, seeds) key item =
      if has same seeds key
      then (result, seeds)
      else (result ++ (item ∷ []), insert same key tt seeds)

  unfoldable pub unique_by : List E → (E → K) → List E
  unfolding range_from has
  unique_by s fn = (range (λ r item i. keep_new r (fn item) item) ([], []) s).0

  unfoldable pub unique_by_n : List E → (E → ℕ → K) → List E
  unfolding range_from has
  unique_by_n s fn = (range (λ r item i. keep_new r (fn item i) item) ([], []) s).0

module _ {E : Type 0} (same : Discrete E) where
  unfoldable pub unique : List E → List E
  unfolding range_from has
  unique s = (range (λ r item i. keep_new same r item item) ([], []) s).0

  -- The loops of Difference and Without, and of Intersect and Only.
  unfoldable pub excluding : List E → List E → List E
  unfolding range_from has index_set
  excluding s items =
      range
        (λ result item i.
          if has same (index_set same items) item then result else result ++ (item ∷ []))
        [] s

  unfoldable pub including : List E → List E → List E
  unfolding range_from has index_set
  including s items =
      range
        (λ result item i.
          if has same (index_set same items) item then result ++ (item ∷ []) else result)
        [] s

  unfoldable pub difference : List E → List E → List E
  unfolding excluding
  difference [] s2 = []
  difference (item ∷ s1) [] = [] ++ (item ∷ s1)
  difference (item ∷ s1) (item' ∷ s2) = excluding (item ∷ s1) (item' ∷ s2)

  unfoldable pub intersect : List E → List E → List E
  unfolding including
  intersect [] s2 = []
  intersect (item ∷ s1) [] = []
  intersect (item ∷ s1) (item' ∷ s2) = including (item ∷ s1) (item' ∷ s2)

  unfoldable pub only : List E → List E → List E
  unfolding including
  only [] items = []
  only (item ∷ s) [] = []
  only (item ∷ s) (item' ∷ items) = including (item ∷ s) (item' ∷ items)

  unfoldable pub without : List E → List E → List E
  unfolding excluding
  without [] items = []
  without (item ∷ s) [] = [] ++ (item ∷ s)
  without (item ∷ s) (item' ∷ items) = excluding (item ∷ s) (item' ∷ items)

  unfoldable pub remove : List E → List E → List E
  unfolding without
  remove s items = without s items
