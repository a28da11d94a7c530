-- ===== src/Slices/Chunks/Pieces.antt =====
-- The pieces that `Chunk` of slices/slices.go cuts.
use fries.Prelude.{
  ℕ, zero, suc, ◌+◌, ◌^◌, ◌≤◌, ◌<◌, ◌≡◌, refl, ◌⊎◌, ◌∙◌, ap, sym, false, List, [], ◌∷◌, ◌++◌, arith,
  ltb, min, length, take, drop, length-take, length-drop, take-append-drop, append-nil,
  append_assoc, Bool-cases, inl, inr,
}
use fries.Prelude.Words.{half_word, add64, add64-exact, lt64-ltb, nonpos64, nonpos64-exact}
use fries.Slices.{concat}
use fries.Slices.Loops.{collected, range_from-collected}
use fries.Slices.Chunks.{slice, smaller, chunks_from, chunk}

module _ {E : Type 0} where
  -- The pieces, cut one after the other from the front.
  pieces : ℕ → ℕ → List E → List (List E)
  pieces size zero s = []
  pieces size (suc fuel) [] = []
  pieces size (suc fuel) (item ∷ s) = take size (item ∷ s) ∷ pieces size fuel (drop size (item ∷ s))

  take_short : (n m : ℕ) (s : List E) → m ≡ min n (length s) → take m s ≡ take n s
  take_short zero zero s e = refl
  take_short zero (suc m) s e = absurd (omega (arith, e))
  take_short (suc n) zero [] e = refl
  take_short (suc n) zero (item ∷ s) e = absurd (omega (arith, e))
  take_short (suc n) (suc m) [] e = refl
  take_short (suc n) (suc m) (item ∷ s) e = ap (◌∷◌ item) (take_short n m s (omega (arith, e)))

  drop-nil : (n : ℕ) → drop {A = E} n [] ≡ []
  drop-nil zero = refl
  drop-nil (suc n) = refl

  drop_sum : (n m t : ℕ) (s : List E) → t ≡ n + m → drop t s ≡ drop m (drop n s)
  drop_sum zero m t s e = let same : t ≡ m = omega (arith, e) in ap (λ t. drop t s) same
  drop_sum (suc n) m zero s e = absurd (omega (arith, e))
  drop_sum (suc n) m (suc t) [] e = sym (drop-nil m)
  drop_sum (suc n) m (suc t) (item ∷ s) e = drop_sum n m t s (omega (arith, e))

  drop_all : (n : ℕ) (s : List E) → length s ≤ n → drop n s ≡ []
  drop_all n [] h = drop-nil n
  drop_all zero (item ∷ s) h = absurd (omega (arith, h))
  drop_all (suc n) (item ∷ s) h = drop_all n s (omega (arith, h))

  pieces_step :
      (size fuel : ℕ) (s : List E)
      → 0 < length s
      → pieces size (suc fuel) s ≡ take size s ∷ pieces size fuel (drop size s)
  unfolding pieces
  pieces_step size fuel [] h = absurd (omega (arith, h))
  pieces_step size fuel (item ∷ s) h = refl

  chunks_from-pieces :
      (s : List E) (size fuel i : ℕ) (result : List (List E))
      → 0 < size
      → size < half_word
      → length s < 2 ^ 62
      → i < half_word
      → (i ≡ 0) ⊎ (size ≤ i)
      → chunks_from s size fuel i result ≡ result ++ pieces size fuel (drop i s)
  unfolding chunks_from pieces
  chunks_from-pieces s size zero i result pos h l k j = sym (append-nil result)
  chunks_from-pieces s size (suc fuel) i result pos h l k j =
      rw (lt64-ltb i (length s) k (omega (arith, l))) (elim (Bool-cases (ltb i (length s))) [
        | inr e ↦ rw e (rw (drop_all i s (ground arith)) (sym (append-nil result)))
        | inl e ↦
            let below : i < length s = ground arith in
            let exact : add64 i size ≡ i + size = add64-exact i size (omega (arith, h, l)) in
            let small : i + size < half_word = ground arith in
            let end : smaller (add64 i size) (length s) ≡ min (i + size) (length s) =
              rw (exact, lt64-ltb (i + size) (length s) small (omega (arith, l))) (ground arith) in
            let left = length-drop i s in
            let cut : slice s i (smaller (add64 i size) (length s)) ≡ take size (drop i s) =
              take_short size _ (drop i s) (omega (arith, end, left, below)) in
            let next =
              chunks_from-pieces s size fuel (i + size) (result ++ (take size (drop i s) ∷ [])) pos
                h l small (inr (omega arith)) in
            rw (e, cut, exact)
              (next
                ∙ (append_assoc result (take size (drop i s) ∷ [])
                      (pieces size fuel (drop (i + size) s))
                    ∙ ap (λ x. result ++ x)
                        (ap (λ x. take size (drop i s) ∷ pieces size fuel x)
                            (drop_sum i size (i + size) s refl)
                          ∙ sym (pieces_step size fuel (drop i s) (omega (arith, left, below))))))
      ])

  -- Each piece has the size, but the last one may be shorter; none is empty.
  abbrev pub IsChunked : ℕ → List (List E) → Type 0
  IsChunked size [] = Unit
  IsChunked size (c ∷ []) = (0 < length c) × (length c ≤ size)
  IsChunked size (c ∷ (c' ∷ cs)) = (length c ≡ size) × IsChunked size (c' ∷ cs)

  abbrev whole : List E → ℕ → List E
  whole piece i = piece

  collected-pieces :
      (size fuel i : ℕ) (s : List E)
      → 0 < size
      → length s ≤ fuel
      → collected whole i (pieces size fuel s) ≡ s
  unfolding pieces collected
  collected-pieces size zero i [] pos h = refl
  collected-pieces size zero i (item ∷ s) pos h = absurd (omega (arith, h))
  collected-pieces size (suc fuel) i [] pos h = refl
  collected-pieces size (suc fuel) i (item ∷ s) pos h =
      ap (λ x. take size (item ∷ s) ++ x)
        (collected-pieces size fuel (suc i) (drop size (item ∷ s)) pos
          (omega (arith, length-drop size (item ∷ s), h)))
      ∙ take-append-drop size (item ∷ s)

  pieces-IsChunked :
      (size fuel : ℕ) (s : List E)
      → 0 < size
      → length s ≤ fuel
      → IsChunked size (pieces size fuel s)
  unfolding pieces
  pieces-IsChunked size zero s pos h = tt
  pieces-IsChunked size (suc fuel) [] pos h = tt
  pieces-IsChunked size (suc zero) (item ∷ s) pos h =
      let cut = length-take size (item ∷ s) in (omega (arith, cut), omega (arith, cut))
  pieces-IsChunked size (suc (suc fuel)) (item ∷ s) pos h =
      let cut = length-take size (item ∷ s) in
      let left = length-drop size (item ∷ s) in
      let rest =
        pieces-IsChunked size (suc fuel) (drop size (item ∷ s)) pos (omega (arith, left, h)) in
      add_first (take size (item ∷ s)) (drop size (item ∷ s)) rest (omega (arith, cut))
        (omega (arith, cut)) (λ g. omega (arith, cut, left, g))
    where
      add_first :
          (c t : List E)
          → IsChunked size (pieces size (suc fuel) t)
          → 0 < length c
          → length c ≤ size
          → (0 < length t → length c ≡ size)
          → IsChunked size (c ∷ pieces size (suc fuel) t)
      add_first c [] r low high full = (low, high)
      add_first c (item ∷ t) r low high full = (full (omega arith), r)

  -- Chunk of a positive size cuts a slice of fewer than 2 ^ 62 items into pieces of that size, of which
  -- only the last one may be shorter and none is empty, and Concat puts the slice together again.
  pub chunk_lem :
      (s : List E) (size : ℕ)
      → 0 < size
      → size < half_word
      → length s < 2 ^ 62
      → (concat (chunk s size) ≡ s) × IsChunked size (chunk s size)
  unfolding concat chunk
  chunk_lem s size pos h l =
      let positive : nonpos64 size ≡ false = rw (nonpos64-exact size h) (ground arith) in
      let cut : chunks_from s size (length s) 0 [] ≡ pieces size (length s) s =
        chunks_from-pieces s size (length s) 0 [] pos h l (omega arith) (inl refl) in
      rw (positive, cut)
        (
          range_from-collected _ whole (λ r item i. refl) 0 [] (pieces size (length s) s)
              ∙ collected-pieces size (length s) 0 s pos (omega arith),
          pieces-IsChunked size (length s) s pos (omega arith),
        )
