-- ===== src/Idempotency/Memory/Claims.antt =====
-- Claims and results of idempotency/memory/store.go over runs of calls by many callers.
use fries.Prelude.{
  ℕ, ◌+◌, ◌≤◌, ◌<◌, ◌≡◌, refl, ap, sym, ◌∙◌, ◌≢◌, inl, inr, true, false, Option, none, some, List,
  [], ◌∷◌, String, arith, if◌then◌else◌, if_pos, if_neg, string_discrete, Option-cases, Bool-cases,
}
use fries.Idempotency.{
  acquired, in_progress, completed, BeginRequest, CompleteRequest, AbortRequest, key_conflict, ok,
  err,
}
use fries.Idempotency.Memory.{Record, Store, is_lost, begin_at, complete_at, abort_at}
use fries.Idempotency.Memory.Invariant.{find, alive, IsValid}
use fries.Idempotency.Memory.Refinement.{
  View, view, put, claim, result_of, conflicts, begin_view, complete_view, abort_view,
  store_refines,
}

-- A call of some caller, at a reading of the clock.
pub data Call : Type 0 where
  begins : ℕ → BeginRequest → Call
  completes : ℕ → CompleteRequest → Call
  aborts : ℕ → AbortRequest → Call

abbrev pub time_of : Call → ℕ
time_of (begins t q) = t
time_of (completes t q) = t
time_of (aborts t q) = t

pub step : Store → Call → Store
step s (begins t q) = (begin_at s t q).0
step s (completes t q) = (complete_at s t q).0
step s (aborts t q) = (abort_at s t q).0

unfoldable pub run : Store → List Call → Store
unfolding step
run s [] = s
run s (c ∷ cs) = run (step s c) cs

-- The call does not end the record of the key: it is no Complete or Abort by the owner of the claim.
abbrev Spares : String → Record → Call → Type 0
Spares key r (begins t q) = Unit
Spares key r (completes t q) = q.key ≡ key → is_lost r q.token ≡ true
Spares key r (aborts t q) = q.key ≡ key → is_lost r q.token ≡ true

-- Calls from the time `now` on, before the record's expiry, that spare it.
abbrev pub Sparing : String → Record → ℕ → List Call → Type 0
Sparing key r now [] = Unit
Sparing key r now (c ∷ cs) =
    (now ≤ time_of c) × (time_of c < r.expires_at) × Spares key r c × Sparing key r (time_of c) cs

abbrev pub last_time : ℕ → List Call → ℕ
last_time now [] = now
last_time now (c ∷ cs) = last_time (time_of c) cs

view_later :
    (s : Store) (now t : ℕ) (key : String) (r : Record)
    → view s now key ≡ some r
    → now ≤ t
    → t < r.expires_at
    → view s t key ≡ some r
view_later s now t key r e h l = elim (Option-cases (find key s.records)) [
  | inl f ↦ ground (arith, e)
  | inr (a, f) ↦ ground (arith, e)
]

module _ (w : View) (u : ℕ) (key : String) (r : Record) (e : w key ≡ some r) where
  put_other : (k : String) (o : Option Record) → k ≢ key → put w k o key ≡ some r
  put_other k o d = rw (if_neg (string_discrete k key) d) e

  begin_view_spares : (q : BeginRequest) → (begin_view w u q).0 key ≡ some r
  begin_view_spares q = elim (Option-cases (w q.key)) [
    | inl f ↦ rw f (put_other q.key (some (claim q u)) (λ p. cc (ap w p)))
    | inr (a, f) ↦ rw f (ground (arith, e))
  ]

  complete_view_spares :
      (q : CompleteRequest)
      → (q.key ≡ key → is_lost r q.token ≡ true)
      → (complete_view w u q).0 key ≡ some r
  complete_view_spares q lost = elim (Option-cases (w q.key)) [
    | inl f ↦ rw f e
    | inr (a, f) ↦ elim (Bool-cases (is_lost a q.token)) [
      | inl g ↦ rw f (rw g e)
      | inr g ↦
          rw f
            (rw g (put_other q.key (some (result_of q u a)) (λ p. ground (arith, lost p, ap w p))))
    ]
  ]

  abort_view_spares :
      (q : AbortRequest)
      → (q.key ≡ key → is_lost r q.token ≡ true)
      → (abort_view w q).0 key ≡ some r
  abort_view_spares q lost = elim (Option-cases (w q.key)) [
    | inl f ↦ rw f e
    | inr (a, f) ↦ elim (Bool-cases (is_lost a q.token)) [
      | inl g ↦ rw f (rw g e)
      | inr g ↦ rw f (rw g (put_other q.key none (λ p. ground (arith, lost p, ap w p))))
    ]
  ]

step-Spares :
    (s : Store) (key : String) (r : Record) (c : Call)
    → IsValid s
    → 0 < time_of c
    → time_of c < r.expires_at
    → view s (time_of c) key ≡ some r
    → Spares key r c
    → IsValid (step s c) × (view (step s c) (time_of c) key ≡ some r)
unfolding step
step-Spares s key r (begins u q) v pos l e spares =
    let (valid, _, shows) = (store_refines s u v pos).0 q in
    let kept = begin_view_spares (view s u) u key r e q in
    (valid, rw (shows u (omega arith) key, kept) (ground arith))
step-Spares s key r (completes u q) v pos l e spares =
    let (valid, _, shows) = (store_refines s u v pos).1 q in
    let kept = complete_view_spares (view s u) u key r e q spares in
    (valid, rw (shows u (omega arith) key, kept) (ground arith))
step-Spares s key r (aborts u q) v pos l e spares =
    let (valid, _, shows) = (store_refines s u v pos).2 q in
    let kept = abort_view_spares (view s u) u key r e q spares in
    (valid, rw (shows u (omega arith) key, kept) (ground arith))

-- A record stays until its expiry, whatever else is called.
pub run_spares :
    (s : Store) (key : String) (r : Record) (now : ℕ) (cs : List Call) (t : ℕ)
    → IsValid s
    → 0 < now
    → view s now key ≡ some r
    → Sparing key r now cs
    → last_time now cs ≤ t
    → t < r.expires_at
    → IsValid (run s cs) × (view (run s cs) t key ≡ some r)
unfolding run
run_spares s key r now [] t v pos e h l x = (v, view_later s now t key r e l x)
run_spares s key r now (c ∷ cs) t v pos e h l x =
    let here = view_later s now (time_of c) key r e h.0 h.1 in
    let (valid, kept) = step-Spares s key r c v (omega arith) h.1 here h.2 in
    run_spares (step s c) key r (time_of c) cs t valid (omega arith) kept h.3 l x

-- What Begin answers while the key holds the record.
pub begin_held :
    (s : Store) (t : ℕ) (r : Record) (q : BeginRequest)
    → IsValid s
    → 0 < t
    → view s t q.key ≡ some r
    → (begin_at s t q).1 ≡ (
        if conflicts q.fingerprint r.fingerprint
        then err key_conflict
        else ok (record { status = r.status; result = r.data_ }))
begin_held s t r q v pos e = rw (((store_refines s t v pos).0 q).1, e) (ground arith)

pub last_time-ge :
    (key : String) (r : Record) (now : ℕ) (cs : List Call)
    → Sparing key r now cs
    → now ≤ last_time now cs
last_time-ge key r now [] h = omega arith
last_time-ge key r now (c ∷ cs) h = omega (arith, last_time-ge key r (time_of c) cs h.3)

alive_at : (now : ℕ) (r : Record) → now < r.expires_at → alive now (some r) ≡ some r
alive_at now r h = ground arith

owned :
    (r : Record) (token : String)
    → r.status ≡ in_progress
    → r.token ≡ token
    → is_lost r token ≡ false
unfolding is_lost
owned r token e p = ground arith

-- A Begin on a free key leaves the claim there.
pub begin_free :
    (s : Store) (now : ℕ) (q : BeginRequest)
    → IsValid s
    → 0 < now
    → 0 < q.ttl
    → view s now q.key ≡ none
    → ((begin_at s now q).1 ≡ ok (record { status = acquired; result = [] }))
      × IsValid (begin_at s now q).0
      × (view (begin_at s now q).0 now q.key ≡ some (claim q now))
begin_free s now q v pos some_ttl free =
    let (valid, answer, shows) = (store_refines s now v pos).0 q in
    (
      answer ∙ rw free refl,
      valid,
      rw (shows now (omega arith) q.key, free)
          (rw (if_pos (string_discrete q.key q.key) refl)
            (alive_at now (claim q now) (omega arith))),
    )

-- A Complete by the owner leaves the result there.
pub complete_owned :
    (s : Store) (now : ℕ) (c : CompleteRequest) (r : Record)
    → IsValid s
    → 0 < now
    → 0 < c.ttl
    → view s now c.key ≡ some r
    → r.status ≡ in_progress
    → r.token ≡ c.token
    → ((complete_at s now c).1 ≡ none)
      × IsValid (complete_at s now c).0
      × (view (complete_at s now c).0 now c.key ≡ some (result_of c now r))
complete_owned s now c r v pos some_ttl e progress mine =
    let (valid, answer, shows) = (store_refines s now v pos).1 c in
    let own = owned r c.token progress mine in
    (
      answer ∙ rw e (rw own refl),
      valid,
      rw (shows now (omega arith) c.key, e)
          (rw (own, if_pos (string_discrete c.key c.key) refl)
            (alive_at now (result_of c now r) (omega arith))),
    )

-- A Begin on a free key acquires it for its TTL: after any calls within that time of which none is a
-- Complete or Abort with the claim's key and token, every Begin on the key reports that it is in
-- progress, or a conflict if it has another fingerprint, and the owner's Complete succeeds.
pub claim_exclusive :
    (s : Store) (now t : ℕ) (q q' : BeginRequest) (c : CompleteRequest) (cs : List Call)
    → IsValid s
    → 0 < now
    → view s now q.key ≡ none
    → Sparing q.key (claim q now) now cs
    → last_time now cs ≤ t
    → t < now + q.ttl
    → q'.key ≡ q.key
    → c.key ≡ q.key
    → c.token ≡ q.token
    → ((begin_at s now q).1 ≡ ok (record { status = acquired; result = [] }))
      × ((begin_at (run (begin_at s now q).0 cs) t q').1 ≡ (
          if conflicts q'.fingerprint q.fingerprint
          then err key_conflict
          else ok (record { status = in_progress; result = [] })))
      × ((complete_at (run (begin_at s now q).0 cs) t c).1 ≡ none)
claim_exclusive s now t q q' c cs v pos free sparing l x again mine token =
    let r = claim q now in
    let after = last_time-ge q.key r now cs sparing in
    let (answer, valid, held) = begin_free s now q v pos (omega arith) free in
    let s' = run (begin_at s now q).0 cs in
    let (valid', kept) =
      run_spares (begin_at s now q).0 q.key r now cs t valid pos held sparing l x in
    (
      answer,
      begin_held s' t r q' valid' (omega arith) (rw again kept),
      rw (((store_refines s' t valid' (omega arith)).1 c).1, mine, kept)
          (rw (owned r c.token refl (sym token)) refl),
    )

finished : (r : Record) (token : String) → r.status ≡ completed → is_lost r token ≡ true
unfolding is_lost
finished r token e = ground arith

-- Calls from the time `now` on and before `stop`.
abbrev pub Timed : ℕ → ℕ → List Call → Type 0
Timed now stop [] = Unit
Timed now stop (c ∷ cs) = (now ≤ time_of c) × (time_of c < stop) × Timed (time_of c) stop cs

pub Timed-Sparing :
    (key : String) (r : Record) (now : ℕ) (cs : List Call)
    → r.status ≡ completed
    → Timed now r.expires_at cs
    → Sparing key r now cs
Timed-Sparing key r now [] e h = tt
Timed-Sparing key r now (begins u q ∷ cs) e h = (h.0, h.1, tt, Timed-Sparing key r u cs e h.2)
Timed-Sparing key r now (completes u q ∷ cs) e h =
    (h.0, h.1, λ _. finished r q.token e, Timed-Sparing key r u cs e h.2)
Timed-Sparing key r now (aborts u q ∷ cs) e h =
    (h.0, h.1, λ _. finished r q.token e, Timed-Sparing key r u cs e h.2)

-- A Complete by the owner of a claim succeeds, and its result is replayed for its TTL: after any
-- calls at all within that time, every Begin on the key answers that it is completed, with that
-- result, or a conflict if it has another fingerprint than the claim.
pub result_replayed :
    (s : Store) (now t : ℕ) (c : CompleteRequest) (q : BeginRequest) (r : Record) (cs : List Call)
    → IsValid s
    → 0 < now
    → view s now c.key ≡ some r
    → r.status ≡ in_progress
    → r.token ≡ c.token
    → Timed now (now + c.ttl) cs
    → last_time now cs ≤ t
    → t < now + c.ttl
    → q.key ≡ c.key
    → ((complete_at s now c).1 ≡ none)
      × ((begin_at (run (complete_at s now c).0 cs) t q).1 ≡ (
          if conflicts q.fingerprint r.fingerprint
          then err key_conflict
          else ok (record { status = completed; result = c.result })))
result_replayed s now t c q r cs v pos e progress mine timed l x again =
    let done = result_of c now r in
    let sparing = Timed-Sparing c.key done now cs refl timed in
    let after = last_time-ge c.key done now cs sparing in
    let (answer, valid, held) = complete_owned s now c r v pos (omega arith) e progress mine in
    let (valid', kept) =
      run_spares (complete_at s now c).0 c.key done now cs t valid pos held sparing l x in
    (
      answer,
      begin_held (run (complete_at s now c).0 cs) t done q valid' (omega arith) (rw again kept),
    )

-- An Abort by the owner frees the key.
pub abort_owned :
    (s : Store) (now : ℕ) (q : AbortRequest) (r : Record)
    → IsValid s
    → 0 < now
    → view s now q.key ≡ some r
    → r.status ≡ in_progress
    → r.token ≡ q.token
    → ((abort_at s now q).1 ≡ none)
      × IsValid (abort_at s now q).0
      × (view (abort_at s now q).0 now q.key ≡ none)
abort_owned s now q r v pos e progress mine =
    let (valid, answer, shows) = (store_refines s now v pos).2 q in
    let own = owned r q.token progress mine in
    (
      answer ∙ rw e (rw own refl),
      valid,
      rw (shows now (omega arith) q.key, e)
          (rw (own, if_pos (string_discrete q.key q.key) refl) refl),
    )
