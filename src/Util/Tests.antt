-- ===== src/Util/Tests.antt =====
-- Each theorem on names, paths and ignore files at an input that meets its hypotheses.
use ingot_engine.Base.{
  ℕ, ◌≡◌, ◌↔◌, refl, Bool, true, false, Option, none, some, List, [], ◌∷◌, ◌==◌, ◌&&◌,
  if◌then◌else◌, elem, ok, arith,
}
use ingot_engine.Base.Text.{Text, codes, same, split, strip_prefix, starts_with}
use ingot_engine.Util.Ignore.{matches, is_excluded, trim_dot_slash}
use ingot_engine.Util.Ignore.Glob.{match_component}
use ingot_engine.Util.Ignore.Glob.Spec.{Globs, match_component_iff}
use ingot_engine.Util.Ignore.Parse.{Pattern}
use ingot_engine.Util.Ignore.Whole.{Match, matches_iff}
use ingot_engine.Util.Ignore.Verdict.{Decides, is_excluded_iff}
use ingot_engine.Util.ResourceName.{
  validate_resource_name, IsResourceName, validate_resource_name_iff,
}
use ingot_engine.Util.FilePath.{Fs, walk, openat_walk, path_components, pieces, piece}
use ingot_engine.Util.FilePath.Confined.{Inside, ParentsAgree, openat_walk-Inside}

match_component_iff_example :
    (match_component (codes "[a-c]*.log") (codes "bx.log") ≡ true)
    ↔ Globs (codes "[a-c]*.log") (codes "bx.log")
match_component_iff_example = match_component_iff (codes "[a-c]*.log") (codes "bx.log")

abbrev in_docs : List Text
in_docs = codes "docs" ∷ codes "**" ∷ codes "*.md" ∷ []

abbrev a_doc : List Text
a_doc = codes "docs" ∷ codes "guide" ∷ codes "a.md" ∷ []

abbrev docs_pattern : Pattern
docs_pattern = record { parts = in_docs; anchored = true; dir_only = false; negated = false }

matches_iff_example : (matches docs_pattern a_doc false ≡ true) ↔ Match docs_pattern a_doc false
matches_iff_example = matches_iff docs_pattern false a_doc (omega arith) (omega arith)

is_excluded_iff_example : (is_excluded (docs_pattern ∷ []) (codes "./docs/a.md") false ≡ true) ↔ (
    (p : Pattern) × Decides p
      (docs_pattern ∷ [])
      (split b'/' (trim_dot_slash (codes "./docs/a.md")))
      false
    × (p.negated ≡ false))
unfolding trim_dot_slash strip_prefix
is_excluded_iff_example = is_excluded_iff (docs_pattern ∷ []) (codes "./docs/a.md") false refl

validate_resource_name_iff_example :
    (validate_resource_name (codes "data-1") ≡ ok tt) ↔ IsResourceName (codes "data-1")
validate_resource_name_iff_example = validate_resource_name_iff (codes "data-1")

-- The root 1 holds the directory 2, named `a`, which holds the link 3, named `up`, with the target `../a`.
abbrev tree_child : Bool → ℕ → Text → Option ℕ
tree_child last dir name =
    if dir == 1 && same name (codes "a")
    then some 2
    else if dir == 2 && same name (codes "up")
    then some 3
    else none

abbrev tree_parent : ℕ → Option ℕ
tree_parent x = if x == 2 then some 1 else none

abbrev tree : Fs
tree = record {
  root = 1;
  open_child = tree_child;
  open_parent = tree_parent;
  is_link = λ x. x == 3;
  read_link = λ x. if x == 3 then some (codes "../a") else none;
}

tree_agrees : ParentsAgree tree
tree_agrees last dir x y name i n o p = ground arith

tree_walk : openat_walk tree (codes "/a/./up/../../a") ≡ ok 2
unfolding openat_walk walk path_components pieces piece split starts_with strip_prefix same elem
tree_walk = refl

openat_walk-Inside_example : Inside tree 2
openat_walk-Inside_example =
    openat_walk-Inside tree tree_agrees (codes "/a/./up/../../a") 2 tree_walk
