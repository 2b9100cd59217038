-- ===== src/Builder/Scope.antt =====
-- crates/builder/src/build.rs: the variables of a stage, `ENV` and `ARG`, and the scope that an instruction is
-- expanded in. The environment of a `ConfigState` is its list of `key=value` texts.
pub mod Bindings
mod Tests
use ingot_engine.Base.{
  ℕ, ◌≡◌, ◌∙◌, refl, sym, ap, Bool, true, false, not, ◌&&◌, ◌||◌, Option, none, some, List, [], ◌∷◌,
  ◌++◌, ◌==◌, if◌then◌else◌, any, keep, elem, arith, Bool-cases, Option-cases, inl, inr, Outcome,
  ok, err, bail_if, ◌>>=◌, ◌>>◌,
}
use ingot_engine.Base.Maps.{lookup, insert}
use ingot_engine.Base.Text.{
  Text, same, same_iff, same_self, is_empty, is_whitespace, starts_with, strip_prefix, split_once,
  split_once_at, trim, trim_start_matches, trim_end_matches,
}
use ingot_engine.Base.Text.Split.{split_once-append}
use ingot_engine.Builder.Expand.{Env, find_var}

pub data ArgError : Type 0 where
  invalid_declaration : Text → ArgError

abbrev or_bare : Text → Option (Text × Text) → Text × Option Text
or_bare s none = (s, none)
or_bare s (some (n, v)) = (trim n, some (trim v))

unfoldable pub parse_arg_decl : Text → Outcome ArgError (Text × Option Text)
parse_arg_decl text =
    let s = trim text in
    let (name, default) = or_bare s (split_once b'=' s) in
    do bail_if (is_empty name || any is_whitespace name) (invalid_declaration s); ok (name, default)

abbrev pub or_else : Option Text → Option Text → Option Text
or_else none o = o
or_else (some v) o = some v

unfoldable pub resolve_stage_arg : Text → Option Text → Env → Env → Option Text
resolve_stage_arg name default build_args globals =
    or_else (lookup name build_args) (or_else default (lookup name globals))

-- `HashMap<String, Option<String>>`, in the order of an iteration.
abbrev pub StageArgs : Type 0
StageArgs = List (Text × Option Text)

abbrev pub is_bound : Text → Env → Bool
is_bound k env = any (λ e. same e.0 k) env

abbrev pub pushed_arg : Text → Option Text → Env → Env
pushed_arg k none out = out
pushed_arg k (some v) out = if is_bound k out then out else out ++ (k, v) ∷ []

unfoldable pub merge_scope : Env → StageArgs → Env
merge_scope out [] = out
merge_scope out ((k, v) ∷ stage) = merge_scope (pushed_arg k v out) stage

abbrev pub onto_pairs : Option (Text × Text) → Env → Env
onto_pairs none rest = rest
onto_pairs (some kv) rest = kv ∷ rest

unfoldable pub env_pairs : List Text → Env
env_pairs [] = []
env_pairs (e ∷ env) = onto_pairs (split_once b'=' e) (env_pairs env)

abbrev pub entry : Text → Text → Text
entry k v = k ++ b'=' ∷ v

unfoldable pub set_env : Text → Text → List Text → List Text
set_env k v env = keep (λ e. not (starts_with (entry k []) e)) env ++ entry k v ∷ []

abbrev unquoted : Text → Text
unquoted v = trim_end_matches (λ c. c == b'"') (trim_start_matches (λ c. c == b'"') (trim v))

abbrev set_from : Option (Text × Text) → List Text → List Text
set_from none env = env
set_from (some (k, v)) env = set_env (trim k) (unquoted v) env

-- `ENV k=v`, or `ENV k v` where there is no `=`.
abbrev or_at_blank : Option (Text × Text) → Text → Option (Text × Text)
or_at_blank (some kv) s = some kv
or_at_blank none s = split_once_at is_whitespace s

unfoldable pub apply_env : Text → List Text → List Text
unfolding set_env trim_start_matches trim_end_matches
apply_env args env = let s = trim args in set_from (or_at_blank (split_once b'=' s) s) env
