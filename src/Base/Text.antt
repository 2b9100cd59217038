-- ===== src/Base/Text.antt =====
-- Rust's `str`, as the list of its characters' code points, and the methods that the program calls.
pub mod Decimal
pub mod Split
use Prim.Native.Char.{code}
use Prim.Native.Nat.{ℕ}
use Prim.Native.String.{String}
use mathlib.Core.Bool.{Bool, true, false, not, ◌&&◌, ◌||◌}
use mathlib.Core.List.{List, [], ◌∷◌, ◌++◌, reverse}
use mathlib.Core.Logic.{◌↔◌}
use mathlib.Core.Option.{Option, none, some}
use mathlib.Core.Path.{◌≡◌, refl}
use native.Mathlib.Omega.{arith}
use ingot_engine.Base.Lists.{elem, any}
use ingot_engine.Base.Tests.{◌==◌, if◌then◌else◌, leb}

abbrev pub Text : Type 0
Text = List ℕ

abbrev pub codes : String → Text
codes String.[] = []
codes (String.◌∷◌ c s) = code c ∷ codes s

unfoldable pub same : Text → Text → Bool
same [] [] = true
same (x ∷ xs) (y ∷ ys) = x == y && same xs ys
same _ _ = false

pub same_iff : (a b : Text) → (same a b ≡ true) ↔ (a ≡ b)
unfolding same
same_iff (x ∷ a) (y ∷ b) = ground (arith, same_iff a b)
same_iff _ _ = ground arith

pub same_self : (a : Text) → same a a ≡ true
same_self a = (same_iff a a).1 refl

abbrev pub is_empty : Text → Bool
is_empty [] = true
is_empty (c ∷ s) = false

abbrev within : ℕ → ℕ → ℕ → Bool
within lo hi c = leb lo c && leb c hi

abbrev pub is_ascii_digit : ℕ → Bool
is_ascii_digit c = within b'0' b'9' c

unfoldable pub is_ascii_alphanumeric : ℕ → Bool
is_ascii_alphanumeric c = within b'a' b'z' c || within b'A' b'Z' c || is_ascii_digit c

unfoldable pub is_ascii_hexdigit : ℕ → Bool
is_ascii_hexdigit c = is_ascii_digit c || within b'a' b'f' c || within b'A' b'F' c

-- `char::is_control`: the general category Cc.
unfoldable pub is_control : ℕ → Bool
is_control c = leb c 31 || within 127 159 c

-- `char::is_whitespace`: the property White_Space.
unfoldable pub is_whitespace : ℕ → Bool
is_whitespace c =
    within 9 13 c
    || c == 32
    || c == 133
    || c == 160
    || c == 5760
    || within 8192 8202 c
    || c == 8232
    || c == 8233
    || c == 8239
    || c == 8287
    || c == 12288

-- `strip_prefix` of a text.
unfoldable pub strip_prefix : Text → Text → Option Text
strip_prefix [] s = some s
strip_prefix (p ∷ ps) [] = none
strip_prefix (p ∷ ps) (c ∷ s) = if p == c then strip_prefix ps s else none

unfoldable pub starts_with : Text → Text → Bool
unfolding strip_prefix
starts_with p s = elim (strip_prefix p s) [ none ↦ false | some r ↦ true ]

-- `ends_with` of a character.
unfoldable pub ends_with : ℕ → Text → Bool
ends_with c [] = false
ends_with c (x ∷ []) = x == c
ends_with c (x ∷ y ∷ s) = ends_with c (y ∷ s)

abbrev pub prepend : ℕ → Option (Text × Text) → Option (Text × Text)
prepend c none = none
prepend c (some (a, b)) = some (c ∷ a, b)

-- At the first character that `at` accepts.
unfoldable pub split_once_at : (ℕ → Bool) → Text → Option (Text × Text)
split_once_at at [] = none
split_once_at at (x ∷ s) =
    let rest = split_once_at at s in if at x then some ([], s) else prepend x rest

abbrev pub split_once : ℕ → Text → Option (Text × Text)
split_once c = split_once_at (λ x. x == c)

-- At the last `c`.
unfoldable pub rsplit_once : ℕ → Text → Option (Text × Text)
rsplit_once c [] = none
rsplit_once c (x ∷ s) = elim (rsplit_once c s) [
  | some (a, b) ↦ some (x ∷ a, b)
  | none ↦ if x == c then some ([], s) else none
]

abbrev pub onto_first : ℕ → List Text → List Text
onto_first c [] = (c ∷ []) ∷ []
onto_first c (l ∷ ls) = (c ∷ l) ∷ ls

-- `split(c)`: one piece more than there are separators.
unfoldable pub split : ℕ → Text → List Text
split c [] = [] ∷ []
split c (x ∷ s) = let rest = split c s in if x == c then [] ∷ rest else onto_first x rest

-- `lines()`: a line ends at `\n` or `\r\n`, and no empty line follows the last end.
unfoldable pub lines : Text → List Text
lines [] = []
lines (c ∷ s) =
    let rest = lines s in
    if c == b'\n'
    then [] ∷ rest
    else if c == 13 && starts_with (b'\n' ∷ []) s
    then rest
    else onto_first c rest

unfoldable pub trim_start_matches : (ℕ → Bool) → Text → Text
trim_start_matches p [] = []
trim_start_matches p (c ∷ s) = let rest = trim_start_matches p s in if p c then rest else c ∷ s

unfoldable pub trim_end_matches : (ℕ → Bool) → Text → Text
trim_end_matches p [] = []
trim_end_matches p (c ∷ s) =
    let rest = trim_end_matches p s in if is_empty rest && p c then [] else c ∷ rest

unfoldable pub trim_end : Text → Text
unfolding trim_end_matches is_whitespace
trim_end = trim_end_matches is_whitespace

unfoldable pub trim : Text → Text
unfolding trim_start_matches trim_end
trim s = trim_end (trim_start_matches is_whitespace s)
