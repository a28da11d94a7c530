-- ===== src/Period.antt =====
-- time/period/period.go and time/period/errors.go: half-open intervals [start, end).
--
-- A `time.Time` is its wall clock reading in nanoseconds, counted from the earliest instant that a
-- `time.Time` can hold (2 ^ 63 seconds before year 1), and an optional monotonic reading. The
-- endpoints of a Period went through `UTC()`, so they are wall clock readings alone.
pub mod Set
pub mod Points
pub mod Algebra
pub mod Sorted
pub mod Merging
pub mod Canonical
pub mod Subtracting
pub mod Gaps
pub mod InPlace
mod Tests
use fries.Prelude.{
  ℕ, ◌-◌, ◌*◌, ◌^◌, min, Bool, true, false, not, ◌&&◌, ◌||◌, Option, none, some, List, [], ◌∷◌, ltb,
  ◌==◌, if◌then◌else◌,
}

pub record Time : Type 0 where
  pub wall : ℕ
  pub monotonic : Option ℕ

-- The zero `time.Time`: January 1, year 1.
abbrev pub zero_time : ℕ
zero_time = 2 ^ 63 * 1_000_000_000

-- `math.MaxInt64`, the longest `time.Duration`.
abbrev pub max_duration : ℕ
max_duration = 2 ^ 63 - 1

-- `t.UTC()` drops the monotonic reading.
abbrev pub utc : Time → ℕ
utc t = t.wall

-- An endpoint as a `time.Time`.
abbrev pub at : ℕ → Time
at n = record { wall = n; monotonic = none }

-- `t.Before(u)`: monotonic readings decide only if both have one.
before_monotonic : Option ℕ → Option ℕ → Bool → Bool
before_monotonic none m wall = wall
before_monotonic (some a) none wall = wall
before_monotonic (some a) (some b) wall = ltb a b

unfoldable pub before : Time → Time → Bool
unfolding before_monotonic
before t u = before_monotonic t.monotonic u.monotonic (ltb t.wall u.wall)

pub record Period : Type 0 where
  pub start : ℕ
  pub end : ℕ

pub data PeriodError : Type 0 where
  invalid_range : PeriodError

abbrev pub zero_period : Period
zero_period = record { start = zero_time; end = zero_time }

unfoldable pub new : Time → Time → Period × Option PeriodError
new start end =
    if ltb (utc end) (utc start)
    then (zero_period, some invalid_range)
    else (record { start = utc start; end = utc end }, none)

unfoldable pub is_empty : Period → Bool
is_empty p = p.start == p.end

-- `p.end.Sub(p.start)` saturates.
unfoldable pub duration : Period → ℕ
duration p = min (p.end - p.start) max_duration

unfoldable pub equal : Period → Period → Bool
unfolding is_empty
equal p other =
    if is_empty p && is_empty other then true else p.start == other.start && p.end == other.end

unfoldable pub contains : Period → Time → Bool
unfolding before
contains p t = not (before t (at p.start)) && before t (at p.end)

unfoldable pub contains_period : Period → Period → Bool
unfolding is_empty
contains_period p other =
    if is_empty other
    then true
    else not (is_empty p) && not (ltb other.start p.start) && not (ltb p.end other.end)

unfoldable pub overlaps : Period → Period → Bool
unfolding is_empty
overlaps p other =
    not (is_empty p) && not (is_empty other) && ltb p.start other.end && ltb other.start p.end

unfoldable pub adjacent : Period → Period → Bool
unfolding is_empty
adjacent p other =
    not (is_empty p) && not (is_empty other) && (p.end == other.start || other.end == p.start)

unfoldable pub intersect : Period → Period → Period × Bool
unfolding overlaps
intersect p other =
    let start = if ltb p.start other.start then other.start else p.start in
    let end = if ltb other.end p.end then other.end else p.end in
    if not (overlaps p other)
    then (zero_period, false)
    else (record { start = start; end = end }, true)
