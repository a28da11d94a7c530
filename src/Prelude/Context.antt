-- ===== src/Prelude/Context.antt =====
-- A context.Context as the program sees it: nil, or what `context.Cause` answers each time that the
-- program asks. A cancellation may come between two calls, so the answers are given by their number.
use Prim.Native.Nat.{ℕ, suc}
use Prim.Native.String.{String}
use mathlib.Core.Option.{Option}

pub data Context : Type 0 where
  nil : Context
  live : (ℕ → Option String) → Context

-- The context after it has been asked once.
abbrev pub asked : Context → Context
asked nil = nil
asked (live causes) = live (λ n. causes (suc n))
