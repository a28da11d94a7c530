-- ===== src/Period/Points.antt =====
-- The instants of an interval and of a list of intervals, for the statements on time/period.
use fries.Prelude.{ℕ, suc, ◌≤◌, ◌<◌, ◌⊎◌, List, [], ◌∷◌, arith}
use fries.Period.{Period}

-- The instant lies in the interval.
abbrev pub Has : Period → ℕ → Type 0
Has p n = (p.start ≤ n) × (n < p.end)

-- Some interval of the list has the instant.
abbrev pub Covered : List Period → ℕ → Type 0
Covered [] n = ⊥
Covered (p ∷ ps) n = Has p n ⊎ Covered ps n

-- Non-empty intervals in ascending order, the first not before `bound`, none touching the next.
abbrev pub SeparatedFrom : ℕ → List Period → Type 0
SeparatedFrom bound [] = Unit
SeparatedFrom bound (p ∷ ps) = (bound ≤ p.start) × (p.start < p.end) × SeparatedFrom (suc p.end) ps

abbrev pub IsSeparated : List Period → Type 0
IsSeparated = SeparatedFrom 0

-- Endpoints in order, as `New` leaves them.
abbrev pub IsOrdered : Period → Type 0
IsOrdered p = p.start ≤ p.end

pub SeparatedFrom-mono :
    (b c : ℕ) (ps : List Period) → c ≤ b → SeparatedFrom b ps → SeparatedFrom c ps
SeparatedFrom-mono b c [] h s = tt
SeparatedFrom-mono b c (p ∷ ps) h s = (omega arith, s.1, s.2)
