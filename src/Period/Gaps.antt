-- ===== src/Period/Gaps.antt =====
-- `Gaps` of time/period/set.go against the instants.
use fries.Prelude.{ℕ, suc, ◌<◌, ◌↔◌, inl, inr, List, [], ◌∷◌, arith, All}
use fries.Period.{Period}
use fries.Period.Points.{Covered, SeparatedFrom, IsOrdered}
use fries.Period.Set.{merge, gaps_between, gaps}
use fries.Period.Merging.{merge_lem}
use fries.Period.Canonical.{SeparatedFrom-above}

-- Not covered, with covered instants before and after.
abbrev pub Between : List Period → ℕ → Type 0
Between ps n =
    (¬ Covered ps n) × ((m : ℕ) × (m < n) × Covered ps m) × ((m : ℕ) × (n < m) × Covered ps m)

gaps_between_fwd :
    (b : ℕ) (ps : List Period) (n : ℕ)
    → SeparatedFrom b ps
    → Covered (gaps_between ps) n
    → Between ps n
unfolding gaps_between
gaps_between_fwd b [] n s c = absurd c
gaps_between_fwd b (p ∷ []) n s c = absurd c
gaps_between_fwd b (p ∷ q ∷ ps) n s (inl h) = (
  λ c. ground (arith, SeparatedFrom-above q.start n (q ∷ ps) (omega arith, s.2.1, s.2.2)),
  (p.start, omega arith, inl (omega arith, s.1)),
  (q.start, h.1, inr (inl (omega arith, s.2.1))),
)
gaps_between_fwd b (p ∷ q ∷ ps) n s (inr c) =
    let (away, (m, below, cm), (k, above, ck)) = gaps_between_fwd (suc p.end) (q ∷ ps) n s.2 c in
    (
      λ g. ground (arith, away, SeparatedFrom-above (suc p.end) m (q ∷ ps) s.2 cm),
      (m, below, inr cm),
      (k, above, inr ck),
    )

gaps_between_bwd :
    (b : ℕ) (ps : List Period) (n : ℕ)
    → SeparatedFrom b ps
    → Between ps n
    → Covered (gaps_between ps) n
unfolding gaps_between
gaps_between_bwd b [] n s (away, (m, below, cm), k) = absurd cm
gaps_between_bwd b (p ∷ []) n s (away, (m, below, cm), (k, above, ck)) = ground arith
gaps_between_bwd b (p ∷ q ∷ ps) n s (away, (m, below, cm), (k, above, ck)) =
    let ih : q.start < n → Covered (q ∷ ps) k → _ = λ g c.
      gaps_between_bwd (suc p.end) (q ∷ ps) n s.2
        (λ e. away (inr e), (q.start, g, inl (omega arith, s.2.1)), (k, above, c)) in
    ground (
      arith,
      ih,
      SeparatedFrom-above q.start m (q ∷ ps) (omega arith, s.2.1, s.2.2),
      SeparatedFrom-above q.start k (q ∷ ps) (omega arith, s.2.1, s.2.2),
    )

-- Gaps of ordered intervals has exactly the instants that no interval has, although some interval
-- has an earlier and some interval a later one.
pub gaps-Covered :
    (ps : List Period)
    → All IsOrdered ps
    → (n : ℕ)
    → Covered (gaps ps) n
      ↔ ((¬ Covered ps n) × ((m : ℕ) × (m < n) × Covered ps m) × ((m : ℕ) × (n < m) × Covered ps m))
unfolding gaps
gaps-Covered ps h n =
    let s = (merge_lem ps h).0 in
    let e = (merge_lem ps h).1 in
    (
      λ c.
          let (away, (m, below, cm), (k, above, ck)) = gaps_between_fwd 0 (merge ps) n s c in
          (λ g. away ((e n).1 g), (m, below, (e m).0 cm), (k, above, (e k).0 ck)),
      λ (away, (m, below, cm), (k, above, ck)).
          gaps_between_bwd 0 (merge ps) n s
            (λ g. away ((e n).0 g), (m, below, (e m).1 cm), (k, above, (e k).1 ck)),
    )
