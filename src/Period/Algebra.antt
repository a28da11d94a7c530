-- ===== src/Period/Algebra.antt =====
-- The tests and `Intersect` of time/period/period.go against the instants of the intervals.
use fries.Prelude.{ℕ, ◌-◌, ◌≤◌, ◌<◌, ◌≡◌, ◌↔◌, ◌⊎◌, ◌≢◌, true, false, none, some, min, max, arith}
use fries.Period.{
  Period, Time, invalid_range, zero_period, new, equal, contains, contains_period, overlaps,
  adjacent, intersect,
}
use fries.Period.Points.{Has, IsOrdered}

-- New succeeds exactly if the end does not precede the start on the wall clock, whatever the
-- monotonic readings say, and then keeps both wall clock readings. If it fails it returns the error
-- with the zero interval. The interval is ordered in both cases.
pub new-IsOrdered :
    (s e : Time)
    → IsOrdered (new s e).0
      × (((new s e).1 ≡ none) ↔ (s.wall ≤ e.wall))
      × ((new s e).1 ≡ none → ((new s e).0.start ≡ s.wall) × ((new s e).0.end ≡ e.wall))
      × ((new s e).1 ≢ none → (new s e) ≡ (zero_period, some invalid_range))
unfolding new
new-IsOrdered s e =
    (ground arith, (ground arith, ground arith), λ h. (ground arith, ground arith), ground arith)

-- Contains holds exactly at the instants from the start up to, and without, the end; the monotonic
-- reading of the argument does not matter.
pub contains_iff : (p : Period) (t : Time) → (contains p t ≡ true) ↔ Has p t.wall
unfolding contains
contains_iff p t = (λ h. (ground arith, ground arith), ground arith)

-- Equal holds of two ordered intervals exactly if they have the same instants.
pub equal_iff :
    (p q : Period) → IsOrdered p → IsOrdered q → (equal p q ≡ true) ↔ ((n : ℕ) → Has p n ↔ Has q n)
unfolding equal
equal_iff p q hp hq = (
  λ e n. (λ h. (ground arith, ground arith), λ h. (ground arith, ground arith)),
  λ h. ground (arith, h p.start, h q.start, h (p.end - 1), h (q.end - 1)),
)

-- ContainsPeriod holds of ordered intervals exactly if every instant of the second lies in the
-- first.
pub contains_period_iff :
    (p q : Period)
    → IsOrdered p
    → IsOrdered q
    → (contains_period p q ≡ true) ↔ ((n : ℕ) → Has q n → Has p n)
unfolding contains_period
contains_period_iff p q hp hq =
    (λ e n h. (ground arith, ground arith), λ h. ground (arith, h q.start, h (q.end - 1)))

-- Overlaps holds of ordered intervals exactly if they share an instant.
pub overlaps_iff :
    (p q : Period)
    → IsOrdered p
    → IsOrdered q
    → (overlaps p q ≡ true) ↔ ((n : ℕ) × Has p n × Has q n)
unfolding overlaps
overlaps_iff p q hp hq = (
  λ e. (max p.start q.start, (ground arith, ground arith), (ground arith, ground arith)),
  λ h. ground arith,
)

-- Intersect of ordered intervals returns an interval whose instants are exactly the shared ones,
-- with a flag that is set exactly if there is one; without one it returns the zero interval.
pub intersect_lem :
    (p q : Period)
    → IsOrdered p
    → IsOrdered q
    → ((n : ℕ) → Has (intersect p q).0 n ↔ (Has p n × Has q n))
      × (((intersect p q).1 ≡ true) ↔ ((n : ℕ) × Has p n × Has q n))
      × (((intersect p q).1 ≡ true) ⊎ ((intersect p q).0 ≡ zero_period))
unfolding intersect
intersect_lem p q hp hq = (
  λ n. (
    λ h. ((ground arith, ground arith), (ground arith, ground arith)),
    λ h. (ground arith, ground arith),
  ),
  (
    λ e. (overlaps_iff p q hp hq).0 (ground arith),
    λ h. ground (arith, (overlaps_iff p q hp hq).1 h),
  ),
  ground arith,
)

-- Adjacent intervals share no instant, and together they have exactly the instants of one interval:
-- the one from the smaller start to the larger end.
pub adjacent_joins :
    (p q : Period)
    → IsOrdered p
    → IsOrdered q
    → adjacent p q ≡ true
    → (overlaps p q ≡ false)
      × ((n : ℕ) → (Has p n ⊎ Has q n) ↔ ((min p.start q.start ≤ n) × (n < max p.end q.end)))
unfolding adjacent overlaps
adjacent_joins p q hp hq e =
    (ground arith, λ n. (λ h. (ground arith, ground arith), λ h. ground arith))
