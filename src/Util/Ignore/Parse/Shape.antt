-- ===== src/Util/Ignore/Parse/Shape.antt =====
-- The shape of the patterns that `parse_ignore` returns.
use ingot_engine.Base.{
  ℕ, ◌≤◌, ◌≡◌, ◌⊎◌, refl, Bool, true, false, not, ◌&&◌, ◌||◌, Option, none, some, List, [], ◌∷◌,
  ◌==◌, if◌then◌else◌, length, All, inl, inr, arith, elem,
}
use ingot_engine.Base.Text.{
  Text, lines, split, is_empty, starts_with, ends_with, trim, trim_start_matches, trim_end_matches,
}
use ingot_engine.Util.Ignore.Parse.{
  Pattern, stars, is_stars, drop_leading, drop_trailing, none_left, pattern_of, parse_line,
  strip_marks, push_some, parse_lines, parse_ignore,
}

abbrev head_is_stars : List Text → Bool
head_is_stars [] = false
head_is_stars (p ∷ ps) = is_stars p

pub last_is_stars : List Text → Bool
last_is_stars [] = false
last_is_stars (p ∷ ps) = if none_left ps then is_stars p else last_is_stars ps

drop_leading-head : (ps : List Text) → head_is_stars (drop_leading ps).0 ≡ false
unfolding drop_leading
drop_leading-head [] = refl
drop_leading-head (p ∷ ps) = ground (arith, drop_leading-head ps)

drop_trailing-last : (ps : List Text) → last_is_stars (drop_trailing ps).0 ≡ false
unfolding drop_trailing last_is_stars
drop_trailing-last [] = refl
drop_trailing-last (p ∷ ps) = ground (arith, drop_trailing-last ps)

drop_trailing-head :
    (ps : List Text) → head_is_stars ps ≡ false → head_is_stars (drop_trailing ps).0 ≡ false
unfolding drop_trailing
drop_trailing-head [] h = refl
drop_trailing-head (p ∷ ps) h = ground arith

-- Some part, and no `**` at either end but in the pattern that is `**` alone.
pub record HasShape (p : Pattern) : Type 0 where
  pub some_part : 1 ≤ length p.parts
  pub ends :
      ((p.parts ≡ stars ∷ []) × (p.anchored ≡ false))
      ⊎ ((head_is_stars p.parts ≡ false) × (last_is_stars p.parts ≡ false))

abbrev shape_of : List Text → Bool → Bool → Bool → Bool → Pattern
shape_of parts rooted leading dir negated = record {
  parts = if none_left parts then stars ∷ [] else parts;
  anchored = rooted && not leading && not (none_left parts);
  dir_only = dir;
  negated = negated;
}

shape_of-HasShape :
    (parts : List Text) (rooted leading dir negated : Bool)
    → head_is_stars parts ≡ false
    → last_is_stars parts ≡ false
    → HasShape (shape_of parts rooted leading dir negated)
shape_of-HasShape [] rooted leading dir negated h l = record {
  some_part = omega arith;
  ends = inl (refl, ground arith);
}
shape_of-HasShape (p ∷ ps) rooted leading dir negated h l = record {
  some_part = omega arith;
  ends = inr (h, l);
}

abbrev SomeShape : Option Pattern → Type 0
SomeShape none = Unit
SomeShape (some p) = HasShape p

some_if-SomeShape : (b : Bool) (p : Pattern) → HasShape p → SomeShape (if b then none else some p)
some_if-SomeShape true p h = tt
some_if-SomeShape false p h = h

skip-SomeShape : (b : Bool) (o : Option Pattern) → SomeShape o → SomeShape (if b then none else o)
skip-SomeShape true o h = tt
skip-SomeShape false o h = h

pattern_of-SomeShape : (negated : Bool) (line : Text) → SomeShape (pattern_of negated line)
unfolding pattern_of
pattern_of-SomeShape negated line =
    let slash = λ (c : ℕ). c == b'/' in
    let bare = trim_end_matches slash line in
    let name = trim_start_matches slash bare in
    let behind = drop_leading (split b'/' name) in
    let parts = drop_trailing behind.0 in
    let rooted = starts_with (b'/' ∷ []) bare || elem b'/' bare in
    let dir = ends_with b'/' line || parts.1 in
    some_if-SomeShape (is_empty bare || is_empty name)
      (shape_of parts.0 rooted behind.1 dir negated)
      (shape_of-HasShape parts.0 rooted behind.1 dir negated
        (drop_trailing-head behind.0 (drop_leading-head (split b'/' name)))
        (drop_trailing-last behind.0))

parse_line-SomeShape : (raw : Text) → SomeShape (parse_line raw)
unfolding parse_line
parse_line-SomeShape raw =
    let line = trim raw in
    let marks = strip_marks line in
    skip-SomeShape (is_empty line || starts_with (b'#' ∷ []) line || is_empty marks.1)
      (pattern_of marks.0 marks.1) (pattern_of-SomeShape marks.0 marks.1)

push_some-HasShape :
    (o : Option Pattern) (ps : List Pattern)
    → SomeShape o
    → All HasShape ps
    → All HasShape (push_some o ps)
push_some-HasShape none ps h hs = hs
push_some-HasShape (some p) ps h hs = (h, hs)

parse_lines-HasShape : (ls : List Text) → All HasShape (parse_lines ls)
unfolding parse_lines
parse_lines-HasShape [] = tt
parse_lines-HasShape (l ∷ ls) =
    push_some-HasShape (parse_line l) (parse_lines ls) (parse_line-SomeShape l)
      (parse_lines-HasShape ls)

-- Whatever the file holds, each of its patterns has a part, and a `**` at an end only if it is the bare
-- `**`, which is not anchored.
pub parse_ignore-HasShape : (content : Text) → All HasShape (parse_ignore content)
unfolding parse_ignore
parse_ignore-HasShape content = parse_lines-HasShape (lines content)
