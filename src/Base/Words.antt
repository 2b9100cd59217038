-- ===== src/Base/Words.antt =====
-- Unsigned machine arithmetic. A debug build checks for overflow and panics; a release build wraps,
-- and takes the amount of a shift modulo the width.
use Prim.Native.Nat.{ℕ, zero, suc, ◌+◌, ◌-◌, ◌*◌, ◌%◌, ◌^◌, ◌≤◌, ◌<◌}
use native.Mathlib.Nat.{mod-eq_of_lt}
use mathlib.Core.Bool.{Bool, true, ◌&&◌}
use mathlib.Core.Option.{Option, none, some}
use mathlib.Core.Path.{◌≡◌}
use native.Mathlib.Omega.{arith}
use ingot_engine.Base.Tests.{ltb, leb, if◌then◌else◌}

pub data Profile : Type 0 where
  debug release : Profile

-- `a + b`, `a - b` and `a << k` at width `w`; `none` is a panic.
unfoldable pub add_word : ℕ → Profile → ℕ → ℕ → Option ℕ
add_word w debug a b = if ltb (a + b) (2 ^ w) then some (a + b) else none
add_word w release a b = some ((a + b) % 2 ^ w)

unfoldable pub sub_word : ℕ → Profile → ℕ → ℕ → Option ℕ
sub_word w debug a b = if leb b a then some (a - b) else none
sub_word w release a b = some ((a + 2 ^ w - b) % 2 ^ w)

unfoldable pub shl_word : ℕ → Profile → ℕ → ℕ → Option ℕ
shl_word w debug a k = if ltb k w then some (a * 2 ^ k % 2 ^ w) else none
shl_word w release a k = some (a * 2 ^ (k % w) % 2 ^ w)

module _ (w a : ℕ) where
  pub add_word_fits : (p : Profile) (b : ℕ) → a + b < 2 ^ w → add_word w p a b ≡ some (a + b)
  unfolding add_word
  add_word_fits debug b h = ground arith
  add_word_fits release b h = rw (mod-eq_of_lt h)

  pub sub_word_fits : (p : Profile) (b : ℕ) → b ≤ a → a < 2 ^ w → sub_word w p a b ≡ some (a - b)
  unfolding sub_word
  sub_word_fits debug b h k = ground arith
  sub_word_fits release b h k = let wrap : (a + 2 ^ w - b) % 2 ^ w ≡ a - b = grind arith in rw wrap

  pub shl_word_fits :
      (p : Profile) (k : ℕ) → k < w → a * 2 ^ k < 2 ^ w → shl_word w p a k ≡ some (a * 2 ^ k)
  unfolding shl_word
  shl_word_fits debug k h l = rw (mod-eq_of_lt l) (ground arith)
  shl_word_fits release k h l = rw (mod-eq_of_lt h) (rw (mod-eq_of_lt l))

-- A test of every number below a bound.
unfoldable pub all_below : ℕ → (ℕ → Bool) → Bool
all_below zero p = true
all_below (suc n) p = p n && all_below n p

pub at_below : (n : ℕ) (p : ℕ → Bool) (x : ℕ) → all_below n p ≡ true → x < n → p x ≡ true
unfolding all_below
at_below zero p x h lt = absurd (omega arith)
at_below (suc n) p x h lt = ground (arith, at_below n p x)
