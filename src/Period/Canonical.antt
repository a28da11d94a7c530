-- ===== src/Period/Canonical.antt =====
-- `Merge` of time/period/set.go gives a normal form of the set of instants.
use fries.Prelude.{ℕ, suc, ◌≤◌, ◌<◌, ◌≡◌, refl, sym, ◌↔◌, inl, inr, List, [], ◌∷◌, arith, All}
use fries.Period.{Period}
use fries.Period.Points.{Covered, SeparatedFrom, IsOrdered}
use fries.Period.Set.{merge}
use fries.Period.Merging.{merge_lem}

abbrev SameInstants : List Period → List Period → Type 0
SameInstants ps qs = (n : ℕ) → Covered ps n ↔ Covered qs n

-- Nothing before the bound is covered.
pub SeparatedFrom-above : (b n : ℕ) (ps : List Period) → SeparatedFrom b ps → Covered ps n → b ≤ n
SeparatedFrom-above b n [] s c = absurd c
SeparatedFrom-above b n (p ∷ ps) s (inl h) = omega arith
SeparatedFrom-above b n (p ∷ ps) s (inr c) =
    omega (arith, SeparatedFrom-above (suc p.end) n ps s.2 c)

-- The bound of a separated list is where its first interval begins, at the latest.
abbrev Tight : Period → List Period → Type 0
Tight p ps = SeparatedFrom p.start (p ∷ ps)

module _ (p q : Period) (ps qs : List Period) (s : Tight p ps) (t : Tight q qs)
    (e : SameInstants (p ∷ ps) (q ∷ qs)) where
  head_le : q.start ≤ p.start
  head_le = SeparatedFrom-above q.start p.start (q ∷ qs) t ((e p.start).0 (inl (omega arith, s.1)))

  end_le : p.start ≡ q.start → q.end ≤ p.end
  end_le h =
      let escape : p.end < q.end → ⊥ = λ k. not_at_end ((e p.end).1 (inl (omega arith, k))) in
      omega arith
    where
      not_at_end : ¬ Covered (p ∷ ps) p.end
      not_at_end (inl g) = omega arith
      not_at_end (inr c) = omega (arith, SeparatedFrom-above (suc p.end) p.end ps s.2 c)

  tails : p.end ≡ q.end → (n : ℕ) → Covered ps n → Covered qs n
  tails h n c =
      let above = SeparatedFrom-above (suc p.end) n ps s.2 c in ground (arith, (e n).0 (inr c))

separated_unique :
    (b c : ℕ) (ps qs : List Period)
    → SeparatedFrom b ps
    → SeparatedFrom c qs
    → SameInstants ps qs
    → ps ≡ qs
separated_unique b c [] [] s t e = refl
separated_unique b c [] (q ∷ qs) s t e = absurd ((e q.start).1 (inl (omega arith, t.1)))
separated_unique b c (p ∷ ps) [] s t e = absurd ((e p.start).0 (inl (omega arith, s.1)))
separated_unique b c (p ∷ ps) (q ∷ qs) s t e =
    let s' : Tight p ps = (omega arith, s.1, s.2) in
    let t' : Tight q qs = (omega arith, t.1, t.2) in
    let e' : SameInstants (q ∷ qs) (p ∷ ps) = λ n. ((e n).1, (e n).0) in
    let start : p.start ≡ q.start =
      omega (arith, head_le p q ps qs s' t' e, head_le q p qs ps t' s' e') in
    let end : p.end ≡ q.end =
      omega (arith, end_le p q ps qs s' t' e start, end_le q p qs ps t' s' e' (sym start)) in
    let rest =
      separated_unique (suc p.end) (suc q.end) ps qs s.2 t.2
        (λ n. (tails p q ps qs s' t' e end n, tails q p qs ps t' s' e' (sym end) n)) in
    ground (arith, rest)

-- Two lists of ordered intervals with the same instants are merged into the same list: the order,
-- the overlaps, the repetitions and the empty intervals of the input do not show.
pub merge-canonical :
    (ps qs : List Period)
    → All IsOrdered ps
    → All IsOrdered qs
    → ((n : ℕ) → Covered ps n ↔ Covered qs n)
    → merge ps ≡ merge qs
merge-canonical ps qs hp hq e =
    separated_unique 0 0 (merge ps) (merge qs) (merge_lem ps hp).0 (merge_lem qs hq).0 λ n.
      let m = (merge_lem ps hp).1 n in
      let k = (merge_lem qs hq).1 n in (λ c. k.1 ((e n).0 (m.0 c)), λ c. m.1 ((e n).1 (k.0 c)))

pub SeparatedFrom-IsOrdered : (b : ℕ) (ps : List Period) → SeparatedFrom b ps → All IsOrdered ps
SeparatedFrom-IsOrdered b [] s = tt
SeparatedFrom-IsOrdered b (p ∷ ps) s = (omega arith, SeparatedFrom-IsOrdered (suc p.end) ps s.2)

-- Merging the result again changes nothing.
pub merge-merge : (ps : List Period) → All IsOrdered ps → merge (merge ps) ≡ merge ps
merge-merge ps h =
    merge-canonical (merge ps) ps (SeparatedFrom-IsOrdered 0 (merge ps) (merge_lem ps h).0) h
      (merge_lem ps h).1
