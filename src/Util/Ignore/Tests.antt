-- ===== src/Util/Ignore/Tests.antt =====
-- Runs of the ignore files' model.
use ingot_engine.Base.{◌≡◌, refl, Bool, true, false, elem, any}
use ingot_engine.Base.Text.{
  Text, codes, split, same, strip_prefix, starts_with, ends_with, lines, trim,
}
use ingot_engine.Base.Text.{trim_start_matches, trim_end_matches}
use ingot_engine.Util.Ignore.{
  is_excluded, last_verdict, matches, matches_anchored, matches_suffix, any_range, match_parts,
  trim_dot_slash,
}
use ingot_engine.Util.Ignore.Glob.{any_suffix, match_component, match_comp, parse_class, in_class}
use ingot_engine.Util.Ignore.Parse.{parse_ignore, drop_leading, drop_trailing}

abbrev excluded : Text → Text → Bool
unfolding is_excluded parse_ignore
excluded content rel = is_excluded (parse_ignore content) rel false

runs :
    (excluded (codes "*.log") (codes "sub/dir/a.log") ≡ true)
    × (excluded (codes "/root-only") (codes "sub/root-only") ≡ false)
    × (excluded (codes "doc/*.md") (codes "doc/sub/a.md") ≡ false)
    × (excluded (codes "build/") (codes "x/build/y/z") ≡ true)
    × (excluded (codes "a/**/b") (codes "a/x/y/b") ≡ true)
    × (excluded (codes "*.log\n!keep.log") (codes "keep.log") ≡ false)
    × (excluded (codes "[a-c]x") (codes "bx") ≡ true)
    × (excluded (codes "[!a-c]x") (codes "bx") ≡ false)
unfolding is_excluded parse_ignore last_verdict matches matches_anchored matches_suffix any_range
    match_parts trim_dot_slash any_suffix match_component match_comp parse_class in_class
    drop_leading drop_trailing split same strip_prefix starts_with ends_with lines trim
    trim_start_matches trim_end_matches elem any
runs = (refl, refl, refl, refl, refl, refl, refl, refl)
