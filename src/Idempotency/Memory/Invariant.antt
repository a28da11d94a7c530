-- ===== src/Idempotency/Memory/Invariant.antt =====
-- The records of idempotency/memory/store.go and the time of the next cleanup.
use fries.Prelude.{
  ℕ, ◌≤◌, ◌<◌, ◌≡◌, refl, subst, ◌⊎◌, inl, inr, Option, none, some, List, [], ◌∷◌, String, arith,
  ltb, ◌==◌, ◌||◌, if◌then◌else◌, ite, if_pos, lookup, insert, delete, string_discrete, All,
  Bool-cases, IsKeyed, NotIn, lookup-insert, lookup-delete, insert-IsKeyed, delete-IsKeyed,
  lookup-NotIn,
}
use fries.Idempotency.Memory.{Record, Store, new, schedule_cleanup, sweep, cleanup, save}

abbrev pub find : String → List (String × Record) → Option Record
find = lookup string_discrete

-- The record is not seen from its expiry on.
abbrev pub alive : ℕ → Option Record → Option Record
alive now none = none
alive now (some r) = if ltb now r.expires_at then some r else none

-- A cleanup is scheduled, and no record expires before it.
abbrev Scheduled : ℕ → List (String × Record) → Type 0
Scheduled next = All (λ e. (0 < next) × (next ≤ e.1.expires_at))

pub record IsValid (s : Store) : Type 0 where
  pub keyed : IsKeyed s.records
  pub scheduled : Scheduled s.next_cleanup s.records

schedule_cleanup_bounds :
    (next expires_at : ℕ)
    → 0 < expires_at
    → (0 < schedule_cleanup next expires_at)
      × (schedule_cleanup next expires_at ≤ expires_at)
      × (0 < next → schedule_cleanup next expires_at ≤ next)
unfolding schedule_cleanup
schedule_cleanup_bounds next expires_at h = (ground arith, ground arith, ground arith)

Scheduled-mono :
    (a b : ℕ) (m : List (String × Record)) → 0 < b → b ≤ a → Scheduled a m → Scheduled b m
Scheduled-mono a b [] h k s = tt
Scheduled-mono a b (e ∷ m) h k s = ((omega arith, omega arith), Scheduled-mono a b m h k s.1)

-- Every expiry is a real time.
abbrev Dated : List (String × Record) → Type 0
Dated = All (λ e. 0 < e.1.expires_at)

NotIn-sweep :
    (now next : ℕ) (k : String) (m : List (String × Record))
    → NotIn k m
    → NotIn k (sweep now next m).records
unfolding sweep
NotIn-sweep now next k [] n = tt
NotIn-sweep now next k (e ∷ m) n = ground (
  arith,
  NotIn-sweep now next k m n.1,
  NotIn-sweep now (schedule_cleanup next e.1.expires_at) k m n.1,
)

sweep-IsKeyed :
    (now next : ℕ) (m : List (String × Record)) → IsKeyed m → IsKeyed (sweep now next m).records
unfolding sweep
sweep-IsKeyed now next [] d = tt
sweep-IsKeyed now next (e ∷ m) d =
    let later = schedule_cleanup next e.1.expires_at in
    ground (
      arith,
      sweep-IsKeyed now next m d.1,
      sweep-IsKeyed now later m d.1,
      NotIn-sweep now later e.0 m d.0,
    )

sweep-Scheduled :
    (now next : ℕ) (m : List (String × Record))
    → Dated m
    → let s = sweep now next m in
      Scheduled s.next_cleanup s.records
      × (0 < next → (0 < s.next_cleanup) × (s.next_cleanup ≤ next))
unfolding sweep
sweep-Scheduled now next [] d = (tt, λ h. (h, omega arith))
sweep-Scheduled now next (e ∷ m) d =
    let later = schedule_cleanup next e.1.expires_at in
    let bounds = schedule_cleanup_bounds next e.1.expires_at d.0 in
    let dropped = sweep-Scheduled now next m d.1 in
    let kept = sweep-Scheduled now later m d.1 in
    (
      ground (arith, bounds, dropped, kept),
      λ h. (ground (arith, bounds, dropped, kept), ground (arith, bounds, dropped, kept)),
    )

sweep_finds :
    (now next : ℕ) (k : String) (m : List (String × Record))
    → IsKeyed m
    → find k (sweep now next m).records ≡ alive now (find k m)
unfolding sweep lookup
sweep_finds now next k [] d = refl
sweep_finds now next k (e ∷ m) d =
    let later = schedule_cleanup next e.1.expires_at in
    elim (string_discrete e.0 k) [
      | yes p ↦
          let gone : find k m ≡ none =
            lookup-NotIn string_discrete k m (subst (λ j. NotIn j m) p d.0) in
          rw (if_pos (string_discrete e.0 k) p) (ground (arith, sweep_finds now next k m d.1, gone))
      | no p ↦ ground (arith, sweep_finds now next k m d.1, sweep_finds now later k m d.1)
    ]

Scheduled-Dated : (next : ℕ) (m : List (String × Record)) → Scheduled next m → Dated m
Scheduled-Dated next [] s = tt
Scheduled-Dated next (e ∷ m) s = (omega arith, Scheduled-Dated next m s.1)

-- Before the scheduled cleanup no record has expired.
early_finds :
    (now next : ℕ) (k : String) (m : List (String × Record))
    → Scheduled next m
    → (next ≡ 0) ⊎ (now < next)
    → find k m ≡ alive now (find k m)
unfolding lookup
early_finds now next k [] s h = refl
early_finds now next k (e ∷ m) s h = ground (arith, early_finds now next k m s.1 h)

-- After `cleanup` the store holds exactly the records that have not expired, and stays valid.
pub cleanup_lem :
    (s : Store) (now : ℕ)
    → IsValid s
    → IsValid (cleanup s now)
      × ((k : String) → find k (cleanup s now).records ≡ alive now (find k s.records))
unfolding cleanup
cleanup_lem s now v = elim (Bool-cases (s.next_cleanup == 0 || ltb now s.next_cleanup)) [
  | inl early ↦
      rw early (v, λ k. early_finds now s.next_cleanup k s.records v.scheduled (ground arith))
  | inr due ↦ rw due (
    record {
      keyed = sweep-IsKeyed now 0 s.records v.keyed;
      scheduled =
          (sweep-Scheduled now 0 s.records
            (Scheduled-Dated s.next_cleanup s.records v.scheduled)).0;
    },
    λ k. sweep_finds now 0 k s.records v.keyed,
  )
]

insert-Scheduled :
    (next : ℕ) (k : String) (r : Record) (m : List (String × Record))
    → 0 < next
    → next ≤ r.expires_at
    → Scheduled next m
    → Scheduled next (insert string_discrete k r m)
unfolding insert
insert-Scheduled next k r [] h l s = ((h, l), tt)
insert-Scheduled next k r (e ∷ m) h l s = ground (arith, insert-Scheduled next k r m h l s.1)

empty_or_Scheduled :
    (next later : ℕ) (m : List (String × Record))
    → 0 < later
    → (0 < next → later ≤ next)
    → Scheduled next m
    → Scheduled later m
empty_or_Scheduled next later [] h l s = tt
empty_or_Scheduled next later (e ∷ m) h l s = Scheduled-mono next later (e ∷ m) h (l s.0.0) s

pub save_lem :
    (s : Store) (key : String) (r : Record)
    → IsValid s
    → 0 < r.expires_at
    → IsValid (save s key r)
      × ((k : String)
          → find k (save s key r).records ≡ ite (string_discrete key k) (some r) (find k s.records))
unfolding save
save_lem s key r v h =
    let next = schedule_cleanup s.next_cleanup r.expires_at in
    let bounds = schedule_cleanup_bounds s.next_cleanup r.expires_at h in
    (
      record {
        keyed = insert-IsKeyed string_discrete key r s.records v.keyed;
        scheduled =
            insert-Scheduled next key r s.records bounds.0 bounds.1
              (empty_or_Scheduled s.next_cleanup next s.records bounds.0 bounds.2 v.scheduled);
      },
      λ k. lookup-insert string_discrete key k r s.records,
    )

delete-Scheduled :
    (next : ℕ) (k : String) (m : List (String × Record))
    → Scheduled next m
    → Scheduled next (delete string_discrete k m)
unfolding delete
delete-Scheduled next k [] s = tt
delete-Scheduled next k (e ∷ m) s = ground (arith, delete-Scheduled next k m s.1)

pub delete_lem :
    (s : Store) (key : String)
    → IsValid s
    → let s' : Store = record s { records = delete string_discrete key s.records } in
      IsValid s'
      × ((k : String) → find k s'.records ≡ ite (string_discrete key k) none (find k s.records))
delete_lem s key v = (
  record {
    keyed = delete-IsKeyed string_discrete key s.records v.keyed;
    scheduled = delete-Scheduled s.next_cleanup key s.records v.scheduled;
  },
  λ k. lookup-delete string_discrete key k s.records,
)

pub new-IsValid : IsValid new
unfolding new
new-IsValid = record { keyed = tt; scheduled = tt }
