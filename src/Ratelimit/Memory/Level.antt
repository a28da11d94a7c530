-- ===== src/Ratelimit/Memory/Level.antt =====
-- What `Take` and `Reset` of ratelimit/memory/store.go promise, in terms of each key's level: the
-- arrival time from which the key's next request is charged.
use fries.Prelude.{
  ℕ, ◌+◌, ◌-◌, ◌*◌, ◌/◌, ◌≤◌, ◌<◌, ◌≡◌, refl, sym, ◌∙◌, ◌↔◌, max, ite, if_pos, if_neg, inl, inr,
  Bool-cases, true, false, Option, none, some, String, arith, leb, ltb, if◌then◌else◌,
  string_discrete,
}
use fries.Prelude.Words.{max_int64}
use fries.Ratelimit.{Decision, TakeRequest, microsecond}
use fries.Ratelimit.Limits.{IsUsable, interval_of, interval_of_pos, div_le}
use fries.Ratelimit.Memory.{Store, cleanup, write, take_at}
use fries.Ratelimit.Memory.Invariant.{IsValid, find, kept, cleanup_lem, write_lem}
use fries.Ratelimit.Memory.Exact.{
  InRange, IsRecent, base, base-ge, charge, charge_mono, rejection, acceptance, take_at_exact,
}

abbrev pub level : Store → ℕ → String → ℕ
level s t k = base t (find k s.records)

base-kept : (now t : ℕ) (o : Option ℕ) → now ≤ t → base t (kept now o) ≡ base t o
base-kept now t none h = refl
base-kept now t (some a) h = ground arith

kept-some : (now : ℕ) (o : Option ℕ) {t : ℕ} → kept now o ≡ some t → o ≡ some t
kept-some now none e = e
kept-some now (some a) e = ground arith

-- A Take that is accepted charges its key and no other; one that is refused charges none.
pub record Takes (s : Store) (now : ℕ) (request : TakeRequest) (s' : Store) (d : Decision)
    : Type 0 where
  pub decided :
      d.allowed
      ≡ leb
          (level s now request.key + charge request.limit request.cost)
          (now + charge request.limit request.limit.burst)
  pub charged :
      (t : ℕ)
      → now ≤ t
      → (k : String)
      → level s' t k ≡ (
          if d.allowed
          then ite
              (string_discrete request.key k)
              (max t (level s now request.key + charge request.limit request.cost))
              (level s t k)
          else level s t k)
  pub waits : d.retry_after ≡ (
      if d.allowed
      then 0
      else (level s now request.key
          + charge request.limit request.cost
          - charge request.limit request.limit.burst
          - now)
        * microsecond)
  pub left :
      d.remaining
      ≡ (now + charge request.limit request.limit.burst - level s' now request.key)
        / interval_of request.limit
  pub resets : d.reset_after ≡ (level s' now request.key - now) * microsecond
  pub valid : IsValid s'
  pub recent : IsRecent now s'

-- Cleaning up forgets no level that a present or later request could meet.
module _ (s : Store) (now : ℕ) (v : IsValid s) (n : InRange now) where
  pub cleanup-IsRecent : IsRecent now s → IsRecent now (cleanup s now)
  cleanup-IsRecent r k t e =
      r k t (kept-some now (find k s.records) (sym ((cleanup_lem s now (omega arith) v).1 k) ∙ e))

  pub level-cleanup : (t : ℕ) → now ≤ t → (k : String) → level (cleanup s now) t k ≡ level s t k
  level-cleanup t h k =
      rw ((cleanup_lem s now (omega arith) v).1 k) (base-kept now t (find k s.records) h)

pub recent_later : (now t : ℕ) (s : Store) → now ≤ t → IsRecent now s → IsRecent t s
recent_later now t s h r k a e = omega (arith, r k a e)

pub base_later : (now t : ℕ) (o : Option ℕ) → now ≤ t → base t o ≡ max t (base now o)
base_later now t none h = omega arith
base_later now t (some a) h = omega arith

module _ (s : Store) (now : ℕ) (request : TakeRequest) (v : IsValid s) (n : InRange now)
    (r : IsRecent now s) (u : IsUsable request.limit)
    (hc : request.cost ≤ request.limit.burst) where
  open request use {limit, cost, key}

  abbrev cleaned_recent : IsRecent now (cleanup s now)
  cleaned_recent = cleanup-IsRecent s now v n r

  abbrev cleaned_level : (t : ℕ) → now ≤ t → (k : String) → level (cleanup s now) t k ≡ level s t k
  cleaned_level = level-cleanup s now v n

  refused :
      now + charge limit limit.burst < level s now key + charge limit cost
      → Takes s now request (cleanup s now) (rejection limit now (level s now key) cost)
  refused h = record {
    decided = ground arith;
    charged = cleaned_level;
    waits = refl;
    left = rw (cleaned_level now (omega arith) key);
    resets = rw (cleaned_level now (omega arith) key);
    valid = (cleanup_lem s now (omega arith) v).0;
    recent = cleaned_recent;
  }

  written_recent :
      (new : ℕ)
      → new ≤ now + charge limit limit.burst
      → (k : String) (t : ℕ)
      → ite (string_discrete key k) (some new) (find k (cleanup s now).records) ≡ some t
      → t ≤ now + max_int64 / microsecond
  written_recent new h k t e = elim (string_discrete key k) [
    | yes p ↦
        let same : some new ≡ some t = sym (if_pos (string_discrete key k) p _ _) ∙ e in
        ground (arith, u.fits)
    | no p ↦ cleaned_recent k t (sym (if_neg (string_discrete key k) p _ _) ∙ e)
  ]

  accepted :
      level s now key + charge limit cost ≤ now + charge limit limit.burst
      → Takes s now request
          (write
            (cleanup s now)
            key
            (level s now key + charge limit cost)
            (find key (cleanup s now).records))
          (acceptance limit now (level s now key) cost)
  accepted h =
      let (valid, found) =
        write_lem (cleanup s now) key (level s now key + charge limit cost)
          (find key (cleanup s now).records) refl (omega (arith, u.fits))
          (cleanup_lem s now (omega arith) v).0 in
      let above : max now (level s now key + charge limit cost)
          ≡ level s now key + charge limit cost =
        omega (arith, base-ge now (find key s.records)) in
      record {
        decided = ground arith;
        charged = λ t g k. rw (found k) (ground (arith, cleaned_level t g k));
        waits = refl;
        left = rw (found key, if_pos (string_discrete key key) refl) (rw above);
        resets = rw (found key, if_pos (string_discrete key key) refl) (rw above);
        valid = valid;
        recent =
            λ k t e. written_recent (level s now key + charge limit cost) h k t (rw (found k) at e);
      }

  -- Take of a usable limit and a cost within the burst, on a valid store whose clock has not gone
  -- back, accepts exactly if the key's level and the charge of the cost do not exceed the present and
  -- the charge of the burst. It then raises the level of that key by the charge and changes no other
  -- key's; a refusal changes no level at all. The store stays valid.
  pub take_at-Takes : Takes s now request (take_at s now request).0 (take_at s now request).1
  take_at-Takes =
      rw (take_at_exact s now request v n r u hc)
        (elim (Bool-cases
          (ltb (now + charge limit limit.burst) (level s now key + charge limit cost))) [
            | inl g ↦ rw g (refused (ground arith))
            | inr g ↦ rw g (accepted (ground arith))
          ])

-- A refused request is told the least wait: at a later time, with nothing taken in between, the same
-- request is accepted exactly if RetryAfter nanoseconds have passed. (The store is valid, the clock
-- does not go back, the limit is usable and the cost is within the burst.)
pub retry_after_least :
    (s : Store) (now t : ℕ) (request : TakeRequest)
    → IsValid s
    → InRange t
    → IsRecent now s
    → IsUsable request.limit
    → request.cost ≤ request.limit.burst
    → now ≤ t
    → (take_at s now request).1.allowed ≡ false
    → ((take_at (take_at s now request).0 t request).1.allowed ≡ true)
      ↔ (now * microsecond + (take_at s now request).1.retry_after ≤ t * microsecond)
retry_after_least s now t request v nt r u hc h e =
    let first = take_at-Takes s now request v (omega arith) r u hc in
    let s' = (take_at s now request).0 in
    let second =
      take_at-Takes s' t request first.valid nt (recent_later now t s' h first.recent) u hc in
    let less = charge_mono request.limit request.cost request.limit.burst hc in
    let moved = first.charged t h request.key in
    let later = base_later now t (find request.key s.records) h in
    (
      ground (arith, first.decided, second.decided, first.waits, moved, later, less),
      ground (arith, first.decided, second.decided, first.waits, moved, later, less),
    )

-- Remaining is exact: right after a decision a request of the same key and limit is accepted exactly
-- if its cost, from 1 to the burst, is Remaining at most. (Under the same conditions.)
pub remaining_exactly :
    (s : Store) (now : ℕ) (request : TakeRequest) (cost : ℕ)
    → IsValid s
    → InRange now
    → IsRecent now s
    → IsUsable request.limit
    → request.cost ≤ request.limit.burst
    → 1 ≤ cost
    → cost ≤ request.limit.burst
    → ((take_at (take_at s now request).0 now (record request { cost = cost })).1.allowed ≡ true)
      ↔ (cost ≤ (take_at s now request).1.remaining)
remaining_exactly s now request cost v n r u hc low high =
    let first = take_at-Takes s now request v n r u hc in
    let s' = (take_at s now request).0 in
    let second =
      take_at-Takes s' now (record request { cost = cost }) first.valid n first.recent u high in
    let room = now + charge request.limit request.limit.burst - level s' now request.key in
    let fits = div_le cost room (interval_of request.limit) (interval_of_pos request.limit u) in
    let some_cost : interval_of request.limit ≤ charge request.limit cost = grind arith in
    let pos = interval_of_pos request.limit u in
    (
      ground (arith, second.decided, first.left, fits, some_cost, pos),
      ground (arith, second.decided, first.left, fits, some_cost, pos),
    )
