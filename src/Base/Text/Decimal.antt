-- ===== src/Base/Text/Decimal.antt =====
-- Decimal numbers: `Display` of the unsigned integers, and their `FromStr`.

use Prim.Native.Nat.{ℕ, zero, suc, ◌+◌, ◌-◌, ◌*◌, ◌/◌, ◌%◌, ◌<◌, ◌≤◌}
use mathlib.Core.Bool.{◌&&◌}
use mathlib.Core.List.{List, [], ◌∷◌, ◌++◌}
use mathlib.Core.Option.{Option, none, some}
use mathlib.Core.Path.{◌≡◌, refl}
use native.Mathlib.Omega.{arith}
use ingot_engine.Base.Tests.{◌==◌, if◌then◌else◌, leb, ltb}

-- `u8`'s `Display`.
unfoldable pub show_u8 : ℕ → List ℕ
show_u8 n =
    if ltb n 10
    then (n + 48) ∷ []
    else if ltb n 100
    then (n / 10 + 48) ∷ (n % 10 + 48) ∷ []
    else (n / 100 + 48) ∷ (n / 10 % 10 + 48) ∷ (n % 10 + 48) ∷ []

-- The digits of `from_str_radix(s, 10)`, with the overflow checks of a type whose largest value is `top`.
parse_digits : ℕ → ℕ → List ℕ → Option ℕ
parse_digits top acc [] = some acc
parse_digits top acc (c ∷ s) =
    if leb b'0' c && leb c b'9' && leb (acc * 10 + (c - 48)) top
    then parse_digits top (acc * 10 + (c - 48)) s
    else none

-- Decimal digits, at most `n` of them.
unfoldable pub show_digits : ℕ → ℕ → List ℕ
show_digits zero n = []
show_digits (suc k) n =
    let rest = show_digits k (n / 10) in
    if ltb n 10 then (n + 48) ∷ [] else rest ++ (n % 10 + 48) ∷ []

-- `to_string()` of a `u16`.
abbrev pub show_u16 : ℕ → List ℕ
show_u16 = show_digits 5

-- `s.parse::<uN>()`: an optional `+`, then at least one digit.
unfoldable pub parse_unsigned : ℕ → List ℕ → Option ℕ
unfolding parse_digits
parse_unsigned top [] = none
parse_unsigned top (c ∷ []) = if c == b'+' then none else parse_digits top 0 (c ∷ [])
parse_unsigned top (c ∷ d ∷ s) =
    if c == b'+' then parse_digits top 0 (d ∷ s) else parse_digits top 0 (c ∷ d ∷ s)

abbrev pub parse_u8 : List ℕ → Option ℕ
parse_u8 = parse_unsigned 255

abbrev pub parse_u16 : List ℕ → Option ℕ
parse_u16 = parse_unsigned 65535

pub parse_u8-show_u8 : (n : ℕ) → n < 256 → parse_u8 (show_u8 n) ≡ some n
unfolding show_u8 parse_unsigned
parse_u8-show_u8 n h = ground arith

parse_u8_runs :
    (parse_u8 (b'2' ∷ b'5' ∷ b'6' ∷ []) ≡ none) × (parse_u8 (b'+' ∷ b'0' ∷ b'7' ∷ []) ≡ some 7)
unfolding parse_unsigned
parse_u8_runs = (refl, refl)

parse_digits-le :
    (top acc : ℕ) (s : List ℕ) (n : ℕ) → acc ≤ top → parse_digits top acc s ≡ some n → n ≤ top
unfolding parse_digits
parse_digits-le top acc [] n h e = ground arith
parse_digits-le top acc (c ∷ s) n h e =
    ground (arith, parse_digits-le top (acc * 10 + (c - 48)) s n)

-- No number above the largest of its type is read.
pub parse_unsigned-le : (top : ℕ) (s : List ℕ) (n : ℕ) → parse_unsigned top s ≡ some n → n ≤ top
unfolding parse_unsigned
parse_unsigned-le top [] n e = cc e
parse_unsigned-le top (c ∷ []) n e = ground (arith, parse_digits-le top 0 (c ∷ []) n)
parse_unsigned-le top (c ∷ d ∷ s) n e =
    ground (arith, parse_digits-le top 0 (d ∷ s) n, parse_digits-le top 0 (c ∷ d ∷ s) n)
