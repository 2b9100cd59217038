-- ===== src/Util/Ignore/Parse.antt =====
-- `parse_ignore` of ignore.rs.
pub mod Shape
use ingot_engine.Base.{
  ℕ, ◌≡◌, Bool, true, false, not, ◌&&◌, ◌||◌, Option, none, some, List, [], ◌∷◌, ◌++◌, ◌==◌,
  if◌then◌else◌, elem,
}
use ingot_engine.Base.Text.{
  Text, codes, same, is_empty, trim, strip_prefix, starts_with, ends_with, split, lines,
  trim_start_matches, trim_end_matches,
}

pub record Pattern : Type 0 where
  pub parts : List Text
  pub anchored : Bool
  pub dir_only : Bool
  pub negated : Bool

-- `**`.
abbrev pub stars : Text
stars = b'*' ∷ b'*' ∷ []

abbrev pub is_stars : Text → Bool
is_stars part = same part stars

-- A leading `!`, and the escapes `\#` and `\!`: the flag `negated` and the line that is left.
unfoldable pub strip_marks : Text → Bool × Text
strip_marks line = elim (strip_prefix (b'!' ∷ []) line) [
  | some rest ↦ (true, rest)
  | none ↦ elim (strip_prefix (b'\\' ∷ b'#' ∷ []) line) [
    | some rest ↦ (false, b'#' ∷ rest)
    | none ↦ elim (strip_prefix (b'\\' ∷ b'!' ∷ []) line) [
      | some rest ↦ (false, b'!' ∷ rest)
      | none ↦ (false, line)
    ]
  ]
]

-- `while parts.first() == "**"`: what is left, and whether anything went.
unfoldable pub drop_leading : List Text → List Text × Bool
drop_leading [] = ([], false)
drop_leading (p ∷ ps) =
    let (rest, _) = drop_leading ps in if is_stars p then (rest, true) else (p ∷ ps, false)

abbrev pub none_left : List Text → Bool
none_left [] = true
none_left (p ∷ ps) = false

-- `while parts.last() == "**"`.
unfoldable pub drop_trailing : List Text → List Text × Bool
drop_trailing [] = ([], false)
drop_trailing (p ∷ ps) =
    let (rest, gone) = drop_trailing ps in
    if none_left rest && is_stars p then ([], true) else (p ∷ rest, gone)

-- From the slashes on; `line` is not empty.
unfoldable pub pattern_of : Bool → Text → Option Pattern
pattern_of negated line =
    let slash = λ (c : ℕ). c == b'/' in
    let bare = trim_end_matches slash line in
    let name = trim_start_matches slash bare in
    let (behind, leading) = drop_leading (split b'/' name) in
    let (parts, trailing) = drop_trailing behind in
    let rooted = starts_with (b'/' ∷ []) bare || elem b'/' bare in
    if is_empty bare || is_empty name
    then none
    else some (record {
      parts = if none_left parts then stars ∷ [] else parts;
      anchored = rooted && not leading && not (none_left parts);
      dir_only = ends_with b'/' line || trailing;
      negated = negated;
    })

-- One line; `none` skips it.
unfoldable pub parse_line : Text → Option Pattern
unfolding strip_marks pattern_of
parse_line raw =
    let line = trim raw in
    let (negated, rest) = strip_marks line in
    if is_empty line || starts_with (b'#' ∷ []) line || is_empty rest
    then none
    else pattern_of negated rest

abbrev push_some : Option Pattern → List Pattern → List Pattern
push_some none ps = ps
push_some (some p) ps = p ∷ ps

unfoldable pub parse_lines : List Text → List Pattern
parse_lines [] = []
parse_lines (l ∷ ls) = push_some (parse_line l) (parse_lines ls)

unfoldable pub parse_ignore : Text → List Pattern
unfolding parse_lines parse_line
parse_ignore content = parse_lines (lines content)
