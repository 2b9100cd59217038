-- ===== src/Builder/Expand.antt =====
-- `expand_vars` of crates/builder/src/parser.rs: `$VAR`, `${VAR}` and `${VAR:-default}`.
pub mod Pieces
use mathlib.Core.List.{append_assoc}
use ingot_engine.Base.{
  ℕ, zero, suc, ◌+◌, ◌≡◌, refl, sym, ap, ◌∙◌, Bool, true, false, not, ◌&&◌, ◌||◌, Option, none,
  some, List, [], ◌∷◌, ◌++◌, ◌==◌, if◌then◌else◌, elem, length, arith, all, Bool-cases, inl, inr,
}
use ingot_engine.Base.Text.{Text, codes, same, split_once, strip_prefix}
use ingot_engine.Base.Text.Split.{split_once-append}
use ingot_engine.Builder.Given.{Given, is_alphabetic, is_alphanumeric}

abbrev pub Env : Type 0
Env = List (Text × Text)

-- `env.iter().find(|(k, _)| *k == name)`.
unfoldable pub find_var : Text → Env → Option Text
find_var name [] = none
find_var name ((k, v) ∷ env) = let rest = find_var name env in if same k name then some v else rest

abbrev prefix : ℕ → Option (Text × Text) → Option (Text × Text)
prefix a none = none
prefix a (some (v, d)) = some (a ∷ v, d)

-- `split_once(":-")`.
unfoldable pub split_default : Text → Option (Text × Text)
split_default [] = none
split_default (a ∷ []) = none
split_default (a ∷ b ∷ s) =
    let rest = split_default (b ∷ s) in
    if a == b':' && b == b'-' then some ([], s) else prefix a rest

abbrev pub or_text : Option Text → Text → Text
or_text none d = d
or_text (some v) d = v

-- What `${name}` stands for.
unfoldable pub braced : Env → Text → Text
unfolding split_default find_var
braced env name = elim (split_default name) [
  | none ↦ or_text (find_var name env) []
  | some (var, default) ↦ or_text (find_var var env) default
]

-- The longest run of name characters in front.
unfoldable pub var_name : Given → Text → Text
var_name g [] = []
var_name g (c ∷ s) =
    let rest = var_name g s in if is_alphanumeric g c || c == b'_' then c ∷ rest else []

abbrev pub starts_name : Given → Text → Bool
starts_name g [] = false
starts_name g (c ∷ s) = is_alphabetic g c || c == b'_'

abbrev pub closing : Text → Option (Text × Text)
closing [] = none
closing (c ∷ s) = if c == b'{' then split_once b'}' s else none

-- The loop; `skip` is the number of characters up to the next index.
unfoldable pub expand_from : Given → Env → ℕ → Text → Text
unfolding braced var_name
expand_from g env skip [] = []
expand_from g env (suc skip) (c ∷ s) = expand_from g env skip s
expand_from g env zero (c ∷ s) =
    let name = var_name g s in
    let plain = c ∷ expand_from g env zero s in
    let named = or_text (find_var name env) [] ++ expand_from g env (length name) s in
    let closed : Text = elim (closing s) [
      | none ↦ if starts_name g s then named else plain
      | some (inner, rest) ↦ braced env inner ++ expand_from g env (length inner + 2) s
    ] in
    if c == b'$' then closed else plain

unfoldable pub expand_vars : Given → Env → Text → Text
unfolding expand_from
expand_vars g env input = expand_from g env zero input
