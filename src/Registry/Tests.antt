-- ===== src/Registry/Tests.antt =====
-- Runs of image references, and each theorem at an input that meets its hypotheses.
use ingot_engine.Base.{◌≡◌, refl, none, some, ok, err, elem}
use ingot_engine.Base.Text.{
  codes, same, starts_with, strip_prefix, split, split_once_at, rsplit_once, trim,
  trim_start_matches, trim_end_matches, is_whitespace,
}
use ingot_engine.Registry.Reference.{
  ImageRef, RefError, parse, display_ref, split_registry, split_tag, normalize_repo,
  split_digest_mark, default_registry,
}
use ingot_engine.Registry.Reference.RoundTrip.{Canonical, official, parse-display_ref}
use ingot_engine.Registry.Reference.Normalized.{Normalized, parse-Normalized}

abbrev busybox : ImageRef
busybox = record {
  registry = default_registry;
  repo = codes "library/busybox";
  tag = some (codes "1.36");
  digest = none;
}

abbrev nested : ImageRef
nested = record {
  registry = default_registry;
  repo = codes "library/team/app";
  tag = some (codes "latest");
  digest = none;
}

runs :
    (parse (codes "busybox:1.36") ≡ ok busybox)
    × (parse (codes " ") ≡ err RefError.empty_reference)
    × (parse (codes "a@md5:00") ≡ err RefError.unsupported_digest)
    × (parse (codes "ghcr.io/:x") ≡ err RefError.missing_repository)
    × (parse (codes "library/team/app") ≡ ok nested)
    × (display_ref nested ≡ codes "team/app:latest")
unfolding parse split_registry split_tag normalize_repo split_digest_mark same starts_with
    strip_prefix split split_once_at rsplit_once trim trim_start_matches trim_end_matches
    is_whitespace elem display_ref
runs = (refl, refl, refl, refl, refl, refl)

busybox_trimmed : trim (display_ref busybox) ≡ display_ref busybox
unfolding display_ref starts_with strip_prefix same trim trim_start_matches trim_end_matches
    is_whitespace
busybox_trimmed = refl

busybox-Canonical : Canonical busybox (codes "busybox")
unfolding elem same
busybox-Canonical = record {
  placed = official (codes "busybox") refl refl refl;
  named = refl;
  tag_form = (refl, refl, refl);
  some_mark = refl;
  digest_form = refl;
  no_at = refl;
  trimmed = busybox_trimmed;
}

parse-display_ref_example : parse (display_ref busybox) ≡ ok busybox
parse-display_ref_example = parse-display_ref busybox (codes "busybox") busybox-Canonical

parse-Normalized_example : Normalized busybox
parse-Normalized_example = parse-Normalized (codes "busybox:1.36") busybox runs.0
