-- ===== src/Idempotency/Memory/Refinement.antt =====
-- The store of idempotency/memory/store.go against its contract in idempotency/store.go: a map from
-- keys to records that vanish at their expiry. The cleanup, its schedule and the order of the map do
-- not show.
use fries.Prelude.{
  ℕ, ◌+◌, ◌≤◌, ◌<◌, ◌≡◌, refl, inl, inr, Bool, not, ◌&&◌, Option, none, some, [], String, arith,
  if◌then◌else◌, ite, string_discrete, Bool-cases, delete,
}
use fries.Idempotency.{
  acquired, in_progress, completed, BeginRequest, BeginResult, CompleteRequest, AbortRequest, Error,
  key_conflict, claim_lost, Result, ok, err,
}
use fries.Idempotency.Memory.{
  Record, Store, cleanup, save, same, is_lost, begin_with, complete_with, abort_with, begin_at,
  complete_at, abort_at,
}
use fries.Idempotency.Memory.Invariant.{find, alive, IsValid, cleanup_lem, save_lem, delete_lem}

-- The abstract view: what each key holds at the time.
abbrev pub View : Type 0
View = String → Option Record

abbrev pub view : Store → ℕ → View
view s now k = alive now (find k s.records)

abbrev pub put : View → String → Option Record → View
put w key r k = ite (string_discrete key k) r (w k)

abbrev pub claim : BeginRequest → ℕ → Record
claim request now = record {
  status = in_progress;
  token = request.token;
  fingerprint = request.fingerprint;
  data_ = [];
  expires_at = now + request.ttl;
}

abbrev pub result_of : CompleteRequest → ℕ → Record → Record
result_of request now current = record current {
  status = completed;
  token = "";
  data_ = request.result;
  expires_at = now + request.ttl;
}

-- The fingerprint of the request differs from that of the record.
abbrev pub conflicts : String → String → Bool
conflicts asked held = not (same asked "") && not (same asked held)

-- Begin on the view: a free key is claimed; a held one conflicts with another fingerprint, unless
-- the request has none, and else answers its status and result.
abbrev begin_case : View → ℕ → BeginRequest → Option Record → View × Result BeginResult
begin_case w now request none =
    (put w request.key (some (claim request now)), ok (record { status = acquired; result = [] }))
begin_case w now request (some r) =
    if conflicts request.fingerprint r.fingerprint
    then (w, err key_conflict)
    else (w, ok (record { status = r.status; result = r.data_ }))

abbrev pub begin_view : View → ℕ → BeginRequest → View × Result BeginResult
begin_view w now request = begin_case w now request (w request.key)

-- Complete and Abort on the view: a claim is lost unless the key holds one with the token.
abbrev complete_case : View → ℕ → CompleteRequest → Option Record → View × Option Error
complete_case w now request none = (w, some claim_lost)
complete_case w now request (some r) =
    if is_lost r request.token
    then (w, some claim_lost)
    else (put w request.key (some (result_of request now r)), none)

abbrev pub complete_view : View → ℕ → CompleteRequest → View × Option Error
complete_view w now request = complete_case w now request (w request.key)

abbrev abort_case : View → AbortRequest → Option Record → View × Option Error
abort_case w request none = (w, some claim_lost)
abort_case w request (some r) =
    if is_lost r request.token then (w, some claim_lost) else (put w request.key none, none)

abbrev pub abort_view : View → AbortRequest → View × Option Error
abort_view w request = abort_case w request (w request.key)

-- The store shows the view at each later time, the expired records gone.
abbrev pub Shows : Store → ℕ → View → Type 0
Shows s now w = (t : ℕ) → now ≤ t → (k : String) → view s t k ≡ alive t (w k)

module _ (s : Store) (now : ℕ) (v : IsValid s) (pos : 0 < now) where
  Shows-cleanup : Shows (cleanup s now) now (view s now)
  Shows-cleanup t h k = rw ((cleanup_lem s now v).1 k) refl

  found : (k : String) → find k (cleanup s now).records ≡ view s now k
  found k = (cleanup_lem s now v).1 k

  cleaned : IsValid (cleanup s now)
  cleaned = (cleanup_lem s now v).0

  saved :
      (key : String) (r : Record)
      → 0 < r.expires_at
      → IsValid (save (cleanup s now) key r)
        × Shows (save (cleanup s now) key r) now (put (view s now) key (some r))
  saved key r h =
      let (valid, at) = save_lem (cleanup s now) key r cleaned h in
      (valid, λ t g k. rw (at k, found k) refl)

  deleted :
      (key : String)
      → let s' : Store = record (cleanup s now) {
        records = delete string_discrete key (cleanup s now).records;
      } in
        IsValid s' × Shows s' now (put (view s now) key none)
  deleted key =
      let (valid, at) = delete_lem (cleanup s now) key cleaned in
      (valid, λ t g k. rw (at k, found k) refl)

  begin_with_refines :
      (request : BeginRequest) (o : Option Record)
      → let r = begin_with (cleanup s now) now request o in
        let spec = begin_case (view s now) now request o in
        IsValid r.0 × (r.1 ≡ spec.1) × Shows r.0 now spec.0
  unfolding begin_with
  begin_with_refines request none =
      let (valid, shows) = saved request.key (claim request now) (omega arith) in
      (valid, refl, shows)
  begin_with_refines request (some r) =
      elim (Bool-cases (conflicts request.fingerprint r.fingerprint)) [
        | inl e ↦ rw e (cleaned, refl, Shows-cleanup)
        | inr e ↦ rw e (cleaned, refl, Shows-cleanup)
      ]

  complete_with_refines :
      (request : CompleteRequest) (o : Option Record)
      → let r = complete_with (cleanup s now) now request o in
        let spec = complete_case (view s now) now request o in
        IsValid r.0 × (r.1 ≡ spec.1) × Shows r.0 now spec.0
  unfolding complete_with
  complete_with_refines request none = (cleaned, refl, Shows-cleanup)
  complete_with_refines request (some r) = elim (Bool-cases (is_lost r request.token)) [
    | inl e ↦ rw e (cleaned, refl, Shows-cleanup)
    | inr e ↦
        let (valid, shows) = saved request.key (result_of request now r) (omega arith) in
        rw e (valid, refl, shows)
  ]

  abort_with_refines :
      (request : AbortRequest) (o : Option Record)
      → let r = abort_with (cleanup s now) request o in
        let spec = abort_case (view s now) request o in
        IsValid r.0 × (r.1 ≡ spec.1) × Shows r.0 now spec.0
  unfolding abort_with
  abort_with_refines request none = (cleaned, refl, Shows-cleanup)
  abort_with_refines request (some r) = elim (Bool-cases (is_lost r request.token)) [
    | inl e ↦ rw e (cleaned, refl, Shows-cleanup)
    | inr e ↦ let (valid, shows) = deleted request.key in rw e (valid, refl, shows)
  ]

-- On a valid store, at a time after the zero time, Begin, Complete and Abort return what they return
-- on the view of the store at that time, leave a store that shows the view they lead to at every
-- later time, and keep the store valid: whether the lazy cleanup ran makes no difference.
pub store_refines :
    (s : Store) (now : ℕ)
    → IsValid s
    → 0 < now
    → ((q : BeginRequest)
        → IsValid (begin_at s now q).0
          × ((begin_at s now q).1 ≡ (begin_view (view s now) now q).1)
          × Shows (begin_at s now q).0 now (begin_view (view s now) now q).0)
      × ((q : CompleteRequest)
          → IsValid (complete_at s now q).0
            × ((complete_at s now q).1 ≡ (complete_view (view s now) now q).1)
            × Shows (complete_at s now q).0 now (complete_view (view s now) now q).0)
      × ((q : AbortRequest)
          → IsValid (abort_at s now q).0
            × ((abort_at s now q).1 ≡ (abort_view (view s now) q).1)
            × Shows (abort_at s now q).0 now (abort_view (view s now) q).0)
unfolding begin_at complete_at abort_at
store_refines s now v pos = (
  λ q. rw (found s now v pos q.key) (begin_with_refines s now v pos q (view s now q.key)),
  λ q. rw (found s now v pos q.key) (complete_with_refines s now v pos q (view s now q.key)),
  λ q. rw (found s now v pos q.key) (abort_with_refines s now v pos q (view s now q.key)),
)
