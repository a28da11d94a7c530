-- ===== src/Ratelimit/Memory/Resets.antt =====
-- `Reset` of ratelimit/memory/store.go.
use fries.Prelude.{
  ℕ, ◌+◌, ◌/◌, ◌≤◌, ◌≡◌, sym, ◌∙◌, ite, if_neg, inl, inr, Option-cases, none, some, String, arith,
  string_discrete,
}
use fries.Prelude.Words.{max_int64}
use fries.Ratelimit.{microsecond}
use fries.Ratelimit.Memory.{Store, cleanup, reset_at}
use fries.Ratelimit.Memory.Invariant.{IsValid, find, cleanup_lem, removed_lem}
use fries.Ratelimit.Memory.Exact.{InRange, IsRecent}
use fries.Ratelimit.Memory.Level.{level, cleanup-IsRecent, level-cleanup}

still_recent :
    (s : Store) (now : ℕ) (key k : String) (t : ℕ)
    → IsValid s
    → InRange now
    → IsRecent now s
    → ite (string_discrete key k) none (find k (cleanup s now).records) ≡ some t
    → t ≤ now + max_int64 / microsecond
still_recent s now key k t v n r e = elim (string_discrete key k) [
  | yes p ↦ ground arith
  | no p ↦ cleanup-IsRecent s now v n r k t (sym (if_neg (string_discrete key k) p _ _) ∙ e)
]

-- Reset of a valid store gives the key its full burst again, changes no other key's level, and keeps
-- the store valid.
pub reset_at_lem :
    (s : Store) (now : ℕ) (key : String)
    → IsValid s
    → InRange now
    → IsRecent now s
    → IsValid (reset_at s now key)
      × IsRecent now (reset_at s now key)
      × ((t : ℕ)
          → now ≤ t
          → (k : String)
          → level (reset_at s now key) t k ≡ ite (string_discrete key k) t (level s t k))
unfolding reset_at
reset_at_lem s now key v n r =
    let c = cleanup s now in
    let valid = (cleanup_lem s now (omega arith) v).0 in
    elim (Option-cases (find key c.records)) [
      | inl e ↦
          rw (e, reset_at)
            (
              valid,
              cleanup-IsRecent s now v n r,
              λ t h k.
                  ground (arith, level-cleanup s now v n t h k, level-cleanup s now v n t h key),
            )
      | inr (a, e) ↦
          let (removed, found) = removed_lem c key valid in
          rw (e, reset_at)
            (
              removed,
              λ k t f. still_recent s now key k t v n r (rw (found k) at f),
              λ t h k. rw (found k) (ground (arith, level-cleanup s now v n t h k)),
            )
    ]
