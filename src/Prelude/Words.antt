-- ===== src/Prelude/Words.antt =====
-- Go's int64 (and int) as 64-bit patterns: a negative number x is 2 ^ 64 + x. Operations wrap.
use Prim.Native.Nat.{ℕ, ◌+◌, ◌-◌, ◌*◌, ◌%◌, ◌^◌, ◌≤◌, ◌<◌}
use mathlib.Core.Path.{◌≡◌}
use mathlib.Core.Logic.{◌↔◌}
use mathlib.Core.Bool.{Bool, true, false, not}
use native.Mathlib.Omega.{arith}
use fries.Prelude.Tests.{ltb, leb}

abbrev pub word : ℕ
word = 2 ^ 64

abbrev pub half_word : ℕ
half_word = 2 ^ 63

-- `math.MaxInt64`.
abbrev pub max_int64 : ℕ
max_int64 = 2 ^ 63 - 1

unfoldable pub add64 : ℕ → ℕ → ℕ
add64 a b = (a + b) % word

unfoldable pub sub64 : ℕ → ℕ → ℕ
sub64 a b = (a + (word - b)) % word

unfoldable pub mul64 : ℕ → ℕ → ℕ
mul64 a b = (a * b) % word

-- Signed order: a pattern from 2 ^ 63 on is negative.
unfoldable pub lt64 : ℕ → ℕ → Bool
lt64 a b = ltb ((a + half_word) % word) ((b + half_word) % word)

-- The number is zero or negative.
unfoldable pub nonpos64 : ℕ → Bool
nonpos64 a = not (lt64 0 a)

module _ (a b : ℕ) where
  pub add64-exact : a + b < word → add64 a b ≡ a + b
  unfolding add64
  add64-exact h = omega arith

  pub sub64-exact : a < word → b ≤ a → sub64 a b ≡ a - b
  unfolding sub64
  sub64-exact h k = omega arith

  pub sub64-lt : sub64 a b < word
  unfolding sub64
  sub64-lt = omega arith

  pub sub64_negative : a < half_word → b < half_word → a < b → half_word ≤ sub64 a b
  unfolding sub64
  sub64_negative h k l = omega arith

  pub mul64-exact : a * b < word → mul64 a b ≡ a * b
  unfolding mul64
  mul64-exact h = omega arith

  pub lt64-ltb : a < half_word → b < half_word → lt64 a b ≡ ltb a b
  unfolding lt64
  lt64-ltb h k = ground arith

  pub lt64-exact : a < half_word → b < half_word → (lt64 a b ≡ true) ↔ (a < b)
  unfolding lt64
  lt64-exact h k = (ground arith, ground arith)

pub nonpos64-exact : (a : ℕ) → a < half_word → nonpos64 a ≡ leb a 0
unfolding nonpos64 lt64
nonpos64-exact a h = ground arith

pub nonpos64_iff : (a : ℕ) → a < word → (nonpos64 a ≡ false) ↔ ((0 < a) × (a < half_word))
unfolding nonpos64 lt64
nonpos64_iff a h = (λ e. (ground arith, ground arith), ground arith)

pub nonpos64-false : (a : ℕ) → nonpos64 a ≡ false → 0 < a
unfolding nonpos64 lt64
nonpos64-false a e = ground arith
