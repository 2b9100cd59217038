-- ===== src/Util/Ignore.antt =====
-- crates/util/src/ignore.rs: ignore files, the decision that they make, and the matching of one pattern.
pub mod Glob
pub mod Parse
pub mod Parts
pub mod Whole
pub mod Verdict
mod Tests
use ingot_engine.Base.{
  ℕ, zero, suc, ◌+◌, ◌≤◌, Bool, true, false, not, ◌&&◌, ◌||◌, Option, none, some, List, [], ◌∷◌,
  ◌==◌, if◌then◌else◌, ltb, leb, length, take, drop, any,
}
use ingot_engine.Base.Text.{Text, split, is_empty}
use ingot_engine.Util.Ignore.Glob.{match_component, any_suffix}
use ingot_engine.Util.Ignore.Parse.{Pattern, is_stars}

-- `match_parts`; the recursion is on the pattern's parts.
unfoldable pub match_parts : List Text → List Text → Bool
match_parts [] path = elim path [ [] ↦ true | _ ∷ _ ↦ false ]
match_parts (part ∷ parts) path =
    let spans = any_suffix (match_parts parts) path in
    let step : Bool = elim path [
      | [] ↦ false
      | c ∷ cs ↦ match_component part c && match_parts parts cs
    ] in
    if is_stars part then spans else step

-- `(from..from + n).any(f)`.
unfoldable pub any_range : ℕ → ℕ → (ℕ → Bool) → Bool
any_range zero from f = false
any_range (suc n) from f = f from || any_range n (from + 1) f

-- `Pattern::matches` of an anchored pattern.
unfoldable pub matches_anchored : Pattern → List Text → Bool → Bool
matches_anchored p comps is_dir =
    if p.dir_only
    then any_range (length comps) 1
        (λ end. match_parts p.parts (take end comps) && (ltb end (length comps) || is_dir))
    else match_parts p.parts comps

-- The test at one start of an unanchored pattern.
unfoldable pub matches_suffix : Pattern → Bool → List Text → Bool
matches_suffix p is_dir suffix =
    if p.dir_only
    then leb (length p.parts) (length suffix)
      && match_parts p.parts (take (length p.parts) suffix)
      && (ltb (length p.parts) (length suffix) || is_dir)
    else match_parts p.parts suffix

unfoldable pub matches : Pattern → List Text → Bool → Bool
matches p comps is_dir =
    if p.anchored
    then matches_anchored p comps is_dir
    else any_range (length comps) 0 (λ start. matches_suffix p is_dir (drop start comps))

-- `verdict` is what the patterns before decided.
unfoldable pub last_verdict : Option Bool → List Pattern → List Text → Bool → Option Bool
last_verdict verdict [] comps is_dir = verdict
last_verdict verdict (p ∷ ps) comps is_dir =
    last_verdict (if matches p comps is_dir then some p.negated else verdict) ps comps is_dir

-- `trim_start_matches("./")`.
unfoldable pub trim_dot_slash : Text → Text
trim_dot_slash [] = []
trim_dot_slash (a ∷ []) = a ∷ []
trim_dot_slash (a ∷ b ∷ s) =
    let rest = trim_dot_slash s in if a == b'.' && b == b'/' then rest else a ∷ b ∷ s

abbrev pub is_excluding : Option Bool → Bool
is_excluding none = false
is_excluding (some negated) = not negated

unfoldable pub is_excluded : List Pattern → Text → Bool → Bool
is_excluded patterns path is_dir =
    let rel = trim_dot_slash path in
    if is_empty rel
    then false
    else is_excluding (last_verdict none patterns (split b'/' rel) is_dir)

unfoldable pub has_negations : List Pattern → Bool
has_negations patterns = any (λ p. p.negated) patterns
