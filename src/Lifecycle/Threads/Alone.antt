-- ===== src/Lifecycle/Threads/Alone.antt =====
-- A call of lifecycle/runner.go that is alone: the functions of Lifecycle.antt are runs of its moves.
use fries.Prelude.{Option, none, some, List, [], ◌∷◌}
use fries.Lifecycle.{Context, Error, Provider, Runner, World, Returned, join, bootstrapped}
use fries.Lifecycle.Threads.{Shared, Pc, idle, returned, Move}

-- Any number of moves of one call.
pub data Moves {H : Type 0} : Shared H → Pc H → Shared H → Pc H → Type 0 where
  rests : {m : Shared H} {p : Pc H} → Moves m p m p
  moves :
      {m m' m'' : Shared H} {p p' p'' : Pc H}
      → Move m p m' p'
      → Moves m' p' m'' p''
      → Moves m p m'' p''

module _ {H : Type 0} where
  -- A run that ends with this runner, and some record of the calls.
  abbrev pub Runs : Shared H → Pc H → Runner H → Pc H → Type 0
  Runs m p r q =
      (boots : List (Provider H)) × (stops : List (Provider H)) × Moves m p
        (record { runner = r; boots = boots; stops = stops }) q

  -- Where a rollback returns, and where a shutdown does.
  abbrev rolled : Error → World H × Context × Option Error → Pc H
  rolled cause out = returned out.1 (join (some cause ∷ out.2 ∷ []))

  abbrev stopped_at : World H × Context × Option Error → Pc H
  stopped_at out = returned out.1 out.2

  -- What Bootstrap leaves, after the loop of its providers.
  abbrev Boots : Shared H → Pc H → World H × Context × List (Provider H) × Option Error → Type 0
  Boots m p out =
      Runs m p (bootstrapped m.runner out).runner
        (returned (bootstrapped m.runner out).context (bootstrapped m.runner out).error)

  -- Where a call returns.
  abbrev pub Ends : Shared H → Returned H → Type 0
  Ends m out = Runs m idle out.runner (returned out.context out.error)

  -- The same of a call that does not wait.
  abbrev pub EndsIf : Shared H → Option (Returned H) → Type 0
  EndsIf m none = Unit
  EndsIf m (some out) = Ends m out
