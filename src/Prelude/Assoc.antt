-- ===== src/Prelude/Assoc.antt =====
-- Go maps as association lists over keys with a decidable equality. The order of the entries
-- stands for the unspecified order in which Go ranges over a map.
use Prim.Native.String.{String}
use mathlib.Core.Path.{◌≡◌, refl, sym}
use mathlib.Core.Bool.{Bool, true, false}
use mathlib.Core.Logic.{◌≢◌, ite, if_pos, if_neg}
use mathlib.Core.List.{List, [], ◌∷◌, map}
use mathlib.Core.Option.{Option, none, some}
use native.Mathlib.Omega.{arith}
use text.Mathlib.Text.{◌==◌ as str_eq}
use text.Mathlib.TextEquality.{eq_iff}

-- Equality of strings, as a decision.
decide_eq : (s t : String) (b : Bool) → str_eq s t ≡ b → Dec (s ≡ t)
decide_eq s t true e = yes ((eq_iff s t).0 e)
decide_eq s t false e = no (λ p. cc ((eq_iff s t).1 p))

unfoldable pub string_discrete : Discrete String
unfolding decide_eq
string_discrete s t = decide_eq s t (str_eq s t) refl

module _ {ℓ} {K V : Type ℓ} where
  abbrev pub keys : List (K × V) → List K
  keys = map (λ e. e.0)

  -- The key has no entry.
  abbrev pub NotIn : K → List (K × V) → Type ℓ
  NotIn k [] = Unit
  NotIn k (e ∷ m) = (e.0 ≢ k) × NotIn k m

  -- Every key has one entry at most.
  abbrev pub IsKeyed : List (K × V) → Type ℓ
  IsKeyed [] = Unit
  IsKeyed (e ∷ m) = NotIn e.0 m × IsKeyed m

module _ {ℓ} {K V : Type ℓ} (dec : Discrete K) where
  -- `m[k]` with its `ok` flag.
  unfoldable pub lookup : K → List (K × V) → Option V
  lookup k [] = none
  lookup k ((j, v) ∷ m) = ite (dec j k) (some v) (lookup k m)

  -- `m[k] = v`.
  unfoldable pub insert : K → V → List (K × V) → List (K × V)
  insert k v [] = (k, v) ∷ []
  insert k v ((j, w) ∷ m) = ite (dec j k) ((k, v) ∷ m) ((j, w) ∷ insert k v m)

  -- `delete(m, k)`.
  unfoldable pub delete : K → List (K × V) → List (K × V)
  delete k [] = []
  delete k ((j, w) ∷ m) = ite (dec j k) (delete k m) ((j, w) ∷ delete k m)

  pub lookup-insert :
      (k j : K) (v : V) (m : List (K × V))
      → lookup j (insert k v m) ≡ ite (dec k j) (some v) (lookup j m)
  unfolding lookup insert
  lookup-insert k j v [] = refl
  lookup-insert k j v ((i, w) ∷ m) = ground (arith, lookup-insert k j v m)

  pub lookup-delete :
      (k j : K) (m : List (K × V)) → lookup j (delete k m) ≡ ite (dec k j) none (lookup j m)
  unfolding lookup delete
  lookup-delete k j [] = ground arith
  lookup-delete k j ((i, w) ∷ m) = ground (arith, lookup-delete k j m)

  pub lookup-NotIn : (k : K) (m : List (K × V)) → NotIn k m → lookup k m ≡ none
  unfolding lookup
  lookup-NotIn k [] h = refl
  lookup-NotIn k (e ∷ m) h = rw (if_neg _ h.0) (lookup-NotIn k m h.1)

  pub NotIn-of_lookup : (k : K) (m : List (K × V)) → lookup k m ≡ none → NotIn k m
  unfolding lookup
  NotIn-of_lookup k [] h = tt
  NotIn-of_lookup k (e ∷ m) h = elim (dec e.0 k) [
    | yes p ↦ ground arith
    | no p ↦ (p, NotIn-of_lookup k m (ground arith))
  ]

  pub NotIn-insert :
      (k j : K) (v : V) (m : List (K × V)) → k ≢ j → NotIn j m → NotIn j (insert k v m)
  unfolding insert
  NotIn-insert k j v [] d h = (d, tt)
  NotIn-insert k j v (e ∷ m) d h = elim (dec e.0 k) [
    | yes p ↦ rw (if_pos _ p) (d, h.1)
    | no p ↦ rw (if_neg _ p) (h.0, NotIn-insert k j v m d h.1)
  ]

  pub insert-IsKeyed : (k : K) (v : V) (m : List (K × V)) → IsKeyed m → IsKeyed (insert k v m)
  unfolding insert
  insert-IsKeyed k v [] h = (tt, tt)
  insert-IsKeyed k v (e ∷ m) h = elim (dec e.0 k) [
    | yes p ↦ rw (if_pos _ p) (rw p at h.0, h.1)
    | no p ↦ rw (if_neg _ p) (NotIn-insert k e.0 v m (λ q. p (sym q)) h.0, insert-IsKeyed k v m h.1)
  ]

  pub NotIn-delete : (k j : K) (m : List (K × V)) → NotIn j m → NotIn j (delete k m)
  unfolding delete
  NotIn-delete k j [] h = tt
  NotIn-delete k j (e ∷ m) h = elim (dec e.0 k) [
    | yes p ↦ rw (if_pos _ p) (NotIn-delete k j m h.1)
    | no p ↦ rw (if_neg _ p) (h.0, NotIn-delete k j m h.1)
  ]

  pub delete-IsKeyed : (k : K) (m : List (K × V)) → IsKeyed m → IsKeyed (delete k m)
  unfolding delete
  delete-IsKeyed k [] h = tt
  delete-IsKeyed k (e ∷ m) h = elim (dec e.0 k) [
    | yes p ↦ rw (if_pos _ p) (delete-IsKeyed k m h.1)
    | no p ↦ rw (if_neg _ p) (NotIn-delete k e.0 m h.0, delete-IsKeyed k m h.1)
  ]

-- Tests of two different strings.
abbrev IsNo : {P : Type 0} → Dec P → Type 0
IsNo (yes p) = ⊥
IsNo (no n) = Unit

pub differ : {P : Type 0} (d : Dec P) → IsNo d → ¬ P
differ (yes p) h = absurd h
differ (no n) h = n
