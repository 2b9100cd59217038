-- ===== src/Builder/Scope/Tests.antt =====
-- Runs of the declarations, and each theorem at a small stage.
use ingot_engine.Base.{◌≡◌, refl, none, some, [], ◌∷◌, ok, err, elem, any, keep, if◌then◌else◌}
use ingot_engine.Base.Text.{codes, same, trim, trim_start_matches, trim_end_matches, split_once_at}
use ingot_engine.Builder.Expand.{Env, find_var}
use ingot_engine.Builder.Scope.{
  StageArgs, or_else, parse_arg_decl, invalid_declaration, merge_scope, env_pairs, set_env,
  apply_env,
}
use ingot_engine.Builder.Scope.Bindings.{arg_value, find_var-merge_scope, find_var-set_env}

declarations :
    (parse_arg_decl (codes "NAME=default=with=equals")
      ≡ ok (codes "NAME", some (codes "default=with=equals")))
    × (parse_arg_decl (codes "  NAME  ") ≡ ok (codes "NAME", none))
    × (parse_arg_decl (codes "=novalue") ≡ err (invalid_declaration (codes "=novalue")))
unfolding parse_arg_decl split_once_at trim trim_start_matches trim_end_matches any
declarations = (refl, refl, refl)

-- Two pairs in one line make one variable.
two_pairs : apply_env (codes "A=1 B=2") [] ≡ codes "A=1 B=2" ∷ []
unfolding apply_env set_env split_once_at trim trim_start_matches trim_end_matches keep
two_pairs = refl

abbrev stage : StageArgs
stage = (codes "A", some (codes "9")) ∷ (codes "B", some (codes "7")) ∷ (codes "C", none) ∷ []

abbrev pairs : Env
pairs = (codes "A", codes "1") ∷ []

find_var-merge_scope_example :
    find_var (codes "B") (merge_scope pairs stage)
    ≡ or_else (find_var (codes "B") pairs) (arg_value (codes "B") stage)
find_var-merge_scope_example = find_var-merge_scope (codes "B") pairs stage

find_var-set_env_example :
    find_var
      (codes "A")
      (env_pairs (set_env (codes "A") (codes "2") (codes "A=1" ∷ codes "B=3" ∷ [])))
    ≡ (if same (codes "A") (codes "A")
        then some (codes "2")
        else find_var (codes "A") (env_pairs (codes "A=1" ∷ codes "B=3" ∷ [])))
unfolding elem
find_var-set_env_example =
    find_var-set_env (codes "A") (codes "2") (codes "A") (codes "A=1" ∷ codes "B=3" ∷ []) refl
