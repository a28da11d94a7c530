-- ===== src/Slices/Search/Found.antt =====
-- Which item the searches of slices/slices.go find.
use fries.Prelude.{
  ℕ, zero, suc, ◌≡◌, refl, ◌∙◌, ap, sym, subst, Bool, true, false, Option, none, some, List, [],
  ◌∷◌, ◌++◌, if◌then◌else◌, Bool-cases, inl, inr, arith, length, get_elem?, get_elem?-append,
  append-nil, append_assoc, length-append,
}
use fries.Slices.{range_until_from, range_down_from, at_index}
use fries.Slices.Search.{with_flag, with_zero, index, find, last_index, find_last}

module _ {E : Type 0} where
  -- No item satisfies the test.
  abbrev pub NoneOf : (E → Bool) → List E → Type 0
  NoneOf fn [] = Unit
  NoneOf fn (item ∷ s) = (fn item ≡ false) × NoneOf fn s

  -- Results for a slice: the index, and the item, of the first item that satisfies the test.
  pub data IsFirst (zero_value : E) (s : List E) (fn : E → Bool)
      : Option ℕ × Bool → E × Bool → Type 0 where
    missing : NoneOf fn s → IsFirst zero_value s fn (none, false) (zero_value, false)
    found :
        (before : List E) (item : E) (after : List E)
        → s ≡ before ++ (item ∷ after)
        → NoneOf fn before
        → fn item ≡ true
        → IsFirst zero_value s fn (some (length before), true) (item, true)

  pub data IsLast (zero_value : E) (s : List E) (fn : E → Bool)
      : Option ℕ × Bool → E × Bool → Type 0 where
    missing : NoneOf fn s → IsLast zero_value s fn (none, false) (zero_value, false)
    found :
        (before : List E) (item : E) (after : List E)
        → s ≡ before ++ (item ∷ after)
        → NoneOf fn after
        → fn item ≡ true
        → IsLast zero_value s fn (some (length before), true) (item, true)

  snoc_NoneOf :
      (fn : E → Bool) (s : List E) (item : E)
      → NoneOf fn s
      → fn item ≡ false
      → NoneOf fn (s ++ (item ∷ []))
  snoc_NoneOf fn [] item h e = (e, tt)
  snoc_NoneOf fn (x ∷ s) item h e = (h.0, snoc_NoneOf fn s item h.1 e)

  abbrev index_body : (E → Bool) → E → ℕ → Option ℕ
  index_body fn item i = if fn item then some i else none

  abbrev item_body : (E → Bool) → E → ℕ → Option E
  item_body fn item i = if fn item then some item else none

  IsFirst-from :
      (zero_value : E) (fn : E → Bool) (before s whole : List E)
      → NoneOf fn before
      → whole ≡ before ++ s
      → IsFirst zero_value whole fn
          (with_flag (range_until_from (index_body fn) (length before) s))
          (with_zero zero_value (range_until_from (item_body fn) (length before) s))
  unfolding range_until_from
  IsFirst-from zero_value fn before [] whole h e = missing (rw (e ∙ append-nil before) h)
  IsFirst-from zero_value fn before (item ∷ s) whole h e = elim (Bool-cases (fn item)) [
    | inl f ↦ rw (f, range_until_from) (found before item s e h f)
    | inr f ↦
        let next =
          IsFirst-from zero_value fn (before ++ (item ∷ [])) s whole
            (snoc_NoneOf fn before item h f) (e ∙ sym (append_assoc before (item ∷ []) s)) in
        rw (f, range_until_from)
          (subst
            (λ n.
              IsFirst zero_value whole fn (with_flag (range_until_from (index_body fn) n s))
                (with_zero zero_value (range_until_from (item_body fn) n s)))
            (omega (arith, length-append before (item ∷ []))) next)
  ]

  -- The last item of a list apart.
  pub split_last :
      (xs : List E) (n : ℕ)
      → length xs ≡ suc n
      → (ys : List E) × (y : E) × (xs ≡ ys ++ (y ∷ [])) × (length ys ≡ n)
  split_last [] n e = absurd (omega (arith, e))
  split_last (x ∷ []) n e = ([], x, refl, omega (arith, e))
  split_last (x ∷ (x' ∷ xs)) zero e = absurd (omega (arith, e))
  split_last (x ∷ (x' ∷ xs)) (suc n) e =
      let (ys, y, s, l) = split_last (x' ∷ xs) n (omega (arith, e)) in
      (x ∷ ys, y, ap (◌∷◌ x) s, omega (arith, l))

  IsLast-from :
      (zero_value : E) (fn : E → Bool) (n : ℕ) (front back whole : List E)
      → length front ≡ n
      → NoneOf fn back
      → whole ≡ front ++ back
      → IsLast zero_value whole fn
          (with_flag (range_down_from (index_body fn) whole n))
          (with_zero zero_value (range_down_from (item_body fn) whole n))
  unfolding range_down_from at_index
  IsLast-from zero_value fn zero [] back whole l h e = missing (rw e h)
  IsLast-from zero_value fn zero (x ∷ front) back whole l h e = absurd (omega (arith, l))
  IsLast-from zero_value fn (suc n) front back whole l h e =
      let (ys, y, s, k) = split_last front n l in
      let parts : whole ≡ ys ++ (y ∷ back) =
        e ∙ (ap (λ x. x ++ back) s ∙ append_assoc ys (y ∷ []) back) in
      let here : get_elem? whole n ≡ some y =
        ap (λ x. get_elem? x n) parts
        ∙ (ap (λ i. get_elem? (ys ++ (y ∷ back)) i) (sym k) ∙ get_elem?-append y y back ys) in
      elim (Bool-cases (fn y)) [
        | inl f ↦
            rw (here, range_down_from, at_index)
              (rw (f, range_down_from)
                (subst (λ i. IsLast zero_value whole fn (some i, true) (y, true)) k
                  (found ys y back parts h f)))
        | inr f ↦
            rw (here, range_down_from, at_index)
              (rw (f, range_down_from)
                (IsLast-from zero_value fn n ys (y ∷ back) whole k (f, h) parts))
      ]

  -- Index and Find report the first item that satisfies the test, with its index, and -1 and the zero
  -- value exactly if no item does.
  pub find-IsFirst :
      (zero_value : E) (s : List E) (fn : E → Bool)
      → IsFirst zero_value s fn (index s fn) (find zero_value s fn)
  unfolding index find
  find-IsFirst zero_value s fn = IsFirst-from zero_value fn [] s s tt refl

  -- LastIndex and FindLast report the last item that satisfies the test, with its index, and -1 and the
  -- zero value exactly if no item does.
  pub find_last-IsLast :
      (zero_value : E) (s : List E) (fn : E → Bool)
      → IsLast zero_value s fn (last_index s fn) (find_last zero_value s fn)
  unfolding last_index find_last
  find_last-IsLast zero_value s fn =
      IsLast-from zero_value fn (length s) s [] s refl tt (sym (append-nil s))
