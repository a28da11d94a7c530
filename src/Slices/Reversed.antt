-- ===== src/Slices/Reversed.antt =====
-- `Reverse` of slices/slices.go, which writes the items of the slice into another one by their indices.
use fries.Prelude.{
  ℕ, zero, suc, ◌-◌, ◌≡◌, refl, ◌∙◌, sym, ap, List, [], ◌∷◌, ◌++◌, some, arith, length, get_elem?,
  set, get_elem?-append, set-append, length-append, append-nil, append_assoc,
}
use fries.Slices.{reverse, reverse_from, zeros, or_zero}
use fries.Slices.Search.Found.{split_last}

module _ {E : Type 0} where
  backwards : List E → List E
  backwards [] = []
  backwards (item ∷ s) = backwards s ++ (item ∷ [])

  length-backwards : (s : List E) → length (backwards s) ≡ length s
  unfolding backwards
  length-backwards [] = refl
  length-backwards (item ∷ s) =
      omega (arith, length-append (backwards s) (item ∷ []), length-backwards s)

  backwards-append : (s t : List E) → backwards (s ++ t) ≡ backwards t ++ backwards s
  unfolding backwards
  backwards-append [] t = sym (append-nil (backwards t))
  backwards-append (item ∷ s) t =
      ap (λ x. x ++ (item ∷ [])) (backwards-append s t)
      ∙ append_assoc (backwards t) (backwards s) (item ∷ [])

  backwards-backwards : (s : List E) → backwards (backwards s) ≡ s
  unfolding backwards
  backwards-backwards [] = refl
  backwards-backwards (item ∷ s) =
      backwards-append (backwards s) (item ∷ []) ∙ ap (◌∷◌ item) (backwards-backwards s)

  -- The loop when the items of `back` have been written.
  reverse_from-backwards :
      (zero_value : E) (n i : ℕ) (pre back s : List E)
      → s ≡ pre ++ back
      → length pre ≡ n
      → length back ≡ i
      → reverse_from zero_value s n i (backwards back ++ zeros zero_value n) ≡ backwards s
  unfolding reverse_from zeros or_zero backwards
  reverse_from-backwards zero_value zero i [] back s e l k =
      append-nil (backwards back) ∙ ap backwards (sym e)
  reverse_from-backwards zero_value zero i (x ∷ pre) back s e l k = absurd (omega (arith, l))
  reverse_from-backwards zero_value (suc n) i pre back s e l k =
      let (ys, y, parts, m) = split_last pre n l in
      let whole : s ≡ ys ++ (y ∷ back) =
        e ∙ (ap (λ x. x ++ back) parts ∙ append_assoc ys (y ∷ []) back) in
      let place : length s - 1 - i ≡ length ys =
        omega (arith, ap length whole, length-append ys (y ∷ back), k) in
      let read : get_elem? s (length s - 1 - i) ≡ some y =
        ap (get_elem? s) place
        ∙ (ap (λ x. get_elem? x (length ys)) whole ∙ get_elem?-append y y back ys) in
      let item = or_zero zero_value (get_elem? s (length s - 1 - i)) in
      let written : set (backwards back ++ (zero_value ∷ zeros zero_value n)) i item
          ≡ backwards (y ∷ back) ++ zeros zero_value n =
        ap (λ j. set (backwards back ++ (zero_value ∷ zeros zero_value n)) j item)
          (sym (length-backwards back ∙ k))
        ∙ (set-append zero_value item (zeros zero_value n) (backwards back)
            ∙ (ap (λ v. backwards back ++ (v ∷ zeros zero_value n)) (ap (or_zero zero_value) read)
                ∙ sym (append_assoc (backwards back) (y ∷ []) (zeros zero_value n)))) in
      ap (reverse_from zero_value s n (suc i)) written
      ∙ reverse_from-backwards zero_value n (suc i) ys (y ∷ back) s whole m (ap suc k)

  reverse-backwards : (zero_value : E) (s : List E) → reverse zero_value s ≡ backwards s
  unfolding reverse backwards
  reverse-backwards zero_value s =
      reverse_from-backwards zero_value (length s) 0 s [] s (sym (append-nil s)) refl refl

  -- Reverse reversed gives the slice back, whatever the zero values are; it keeps the length, and
  -- reverses two slices one after the other into their reverses in the other order.
  pub reverse_lem :
      (zero_value other : E) (s t : List E)
      → (reverse zero_value (reverse other s) ≡ s)
        × (length (reverse zero_value s) ≡ length s)
        × (reverse zero_value (s ++ t) ≡ reverse zero_value t ++ reverse zero_value s)
  reverse_lem zero_value other s t = (
    reverse-backwards zero_value (reverse other s)
        ∙ (ap backwards (reverse-backwards other s) ∙ backwards-backwards s),
    ap length (reverse-backwards zero_value s) ∙ length-backwards s,
    reverse-backwards zero_value (s ++ t)
        ∙ (backwards-append s t
            ∙ rw (reverse-backwards zero_value t, reverse-backwards zero_value s) refl),
  )
