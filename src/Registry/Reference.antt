-- ===== src/Registry/Reference.antt =====
-- crates/registry/src/reference.rs: image references, their text and their keys in the tag index.
pub mod RoundTrip
pub mod Normalized
use ingot_engine.Base.{
  ℕ, Bool, true, false, not, ◌&&◌, ◌||◌, Option, none, some, List, [], ◌∷◌, ◌++◌, if◌then◌else◌,
  elem, drop, length, Outcome, ok, err, bail_if, ◌>>=◌, ◌>>◌,
}
use ingot_engine.Base.Text.{
  Text, codes, same, is_empty, trim, starts_with, split, split_once, rsplit_once,
}

abbrev pub default_registry : Text
default_registry = codes "docker.io"

abbrev pub official_repo_prefix : Text
official_repo_prefix = codes "library/"

abbrev pub default_tag : Text
default_tag = codes "latest"

pub record ImageRef : Type 0 where
  pub registry : Text
  pub repo : Text
  pub tag : Option Text
  pub digest : Option Text

pub data RefError : Type 0 where
  empty_reference unsupported_digest missing_repository : RefError

abbrev pub registry_is_default_host : Text → Bool
registry_is_default_host host =
    same host default_registry
    || same host (codes "index.docker.io")
    || same host (codes "registry-1.docker.io")

abbrev pub first_segment : List Text → Text
first_segment [] = []
first_segment (p ∷ ps) = p

abbrev pub looks_like_host : Text → Bool
looks_like_host first = elem b'.' first || elem b':' first || same first (codes "localhost")

abbrev pub with_host : Text → Option (Text × Text) → Text × Text
with_host rest none = (default_registry, rest)
with_host rest (some (host, path)) =
    (if registry_is_default_host host then default_registry else host, path)

-- `rest` contains a `/` exactly when `split_once` finds one.
unfoldable pub split_registry : Text → Text × Text
split_registry rest =
    if looks_like_host (first_segment (split b'/' rest))
    then with_host rest (split_once b'/' rest)
    else (default_registry, rest)

unfoldable pub normalize_repo : Text → Bool → Text
normalize_repo repo is_default =
    if is_default && not (elem b'/' repo) then official_repo_prefix ++ repo else repo

unfoldable pub split_tag : Text → Text × Option Text
split_tag path = elim (rsplit_once b':' path) [
  | none ↦ (path, none)
  | some (r, t) ↦ if elem b'/' t then (path, none) else (r, some t)
]

unfoldable pub split_digest_mark : Text → Option (Text × Text) → Text × Option Text
split_digest_mark s none = (s, none)
split_digest_mark s (some (rest, d)) = (rest, some d)

abbrev pub bad_digest : Option Text → Bool
bad_digest none = false
bad_digest (some d) = not (starts_with (codes "sha256:") d)

-- `latest`, when there is neither a tag nor a digest.
abbrev pub or_latest : Option Text → Option Text → Option Text
or_latest (some t) digest = some t
or_latest none (some d) = none
or_latest none none = some default_tag

unfoldable pub parse : Text → Outcome RefError ImageRef
parse input =
    let s = trim input in
    let (rest, digest) = split_digest_mark s (split_once b'@' s) in
    let (registry, path) = split_registry rest in
    let (repo, tag) = split_tag path in
    do
      bail_if (is_empty s) empty_reference
      bail_if (bad_digest digest) unsupported_digest
      bail_if (is_empty repo) missing_repository
      ok (record {
        registry = registry;
        repo = normalize_repo repo (same registry default_registry);
        tag = or_latest tag digest;
        digest = digest;
      })

abbrev pub registry_is_default : ImageRef → Bool
registry_is_default r = same r.registry default_registry

abbrev pub host_text : ImageRef → Text
host_text r = if registry_is_default r then [] else r.registry ++ (b'/' ∷ [])

abbrev pub repo_display : ImageRef → Text
repo_display r =
    if registry_is_default r && starts_with official_repo_prefix r.repo
    then drop (length official_repo_prefix) r.repo
    else r.repo

abbrev pub marked : ℕ → Option Text → Text
marked mark none = []
marked mark (some s) = mark ∷ s

unfoldable pub display_ref : ImageRef → Text
display_ref r = host_text r ++ (repo_display r ++ (marked b':' r.tag ++ marked b'@' r.digest))

unfoldable pub display_ref_no_tag : ImageRef → Text
display_ref_no_tag r = host_text r ++ repo_display r

unfoldable pub tag_key_opt : ImageRef → Option Text
unfolding display_ref_no_tag
tag_key_opt r = elim r.tag [ none ↦ none | some t ↦ some (display_ref_no_tag r ++ (b':' ∷ t)) ]

abbrev pub key_or : Text → Option Text → Text
key_or d none = d
key_or d (some k) = k

unfoldable pub tag_key : ImageRef → Text
unfolding tag_key_opt display_ref_no_tag
tag_key r = key_or (display_ref_no_tag r ++ (b':' ∷ default_tag)) (tag_key_opt r)
