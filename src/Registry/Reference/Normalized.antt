-- ===== src/Registry/Reference/Normalized.antt =====
-- What `parse` returns.
use mathlib.Core.Path.{subst}
use ingot_engine.Base.{
  ℕ, ◌≡◌, refl, sym, ap, Bool, true, false, Option, none, some, List, [], ◌∷◌, ◌==◌, elem, ok,
  bail_if-eq-ok, ok-injective, arith, Bool-cases, inl, inr, ◌⊎◌,
}
use ingot_engine.Base.Text.{
  Text, same, same_self, is_empty, trim, split, split_once, split_once_at, onto_first, prepend,
}
use ingot_engine.Registry.Reference.{
  default_registry, ImageRef, RefError, registry_is_default_host, first_segment, looks_like_host,
  with_host, split_registry, normalize_repo, split_tag, split_digest_mark, bad_digest, or_latest,
  parse,
}

-- A registry that is not the default one: a host, none of the default's other names, with no slash.
abbrev pub RegistryForm : Text → Type 0
RegistryForm registry =
    (registry ≡ default_registry)
    ⊎ ((looks_like_host registry ≡ true)
        × (registry_is_default_host registry ≡ false)
        × (elem b'/' registry ≡ false))

pub record Normalized (r : ImageRef) : Type 0 where
  pub registry_form : RegistryForm r.registry
  pub named : is_empty r.repo ≡ false
  pub two_segments : r.registry ≡ default_registry → elem b'/' r.repo ≡ true
  pub some_mark : or_latest r.tag r.digest ≡ r.tag
  pub digest_form : bad_digest r.digest ≡ false

first_onto : (x : ℕ) (ps : List Text) → first_segment (onto_first x ps) ≡ x ∷ first_segment ps
first_onto x [] = refl
first_onto x (p ∷ ps) = refl

abbrev FrontOf : Text → Text → Option (Text × Text) → Type 0
FrontOf s first none = Unit
FrontOf s first (some (a, b)) = (a ≡ first) × (elem b'/' a ≡ false)

prepend-FrontOf :
    (x : ℕ) (s first : Text) (o : Option (Text × Text))
    → (x == b'/') ≡ false
    → FrontOf s first o
    → FrontOf (x ∷ s) (x ∷ first) (prepend x o)
unfolding elem
prepend-FrontOf x s first none e h = tt
prepend-FrontOf x s first (some (a, b)) e h = (ap (◌∷◌ x) h.0, ground (arith, h.1))

split_once-FrontOf : (s : Text) → FrontOf s (first_segment (split b'/' s)) (split_once b'/' s)
unfolding split split_once_at elem
split_once-FrontOf [] = tt
split_once-FrontOf (x ∷ s) = elim (Bool-cases (x == b'/')) [
  | inl e ↦ rw e (refl, refl)
  | inr e ↦
      rw (e, first_onto)
        (prepend-FrontOf x s (first_segment (split b'/' s)) (split_once b'/' s) e
          (split_once-FrontOf s))
]

with_host-RegistryForm :
    (rest first : Text) (o : Option (Text × Text))
    → FrontOf rest first o
    → looks_like_host first ≡ true
    → RegistryForm (with_host rest o).0
with_host-RegistryForm rest first none h l = inl refl
with_host-RegistryForm rest first (some (host, path)) h l =
    elim (Bool-cases (registry_is_default_host host)) [
      | inl e ↦ rw e (inl refl)
      | inr e ↦ rw e (inr (subst (λ f. looks_like_host f ≡ true) (sym h.0) l, e, h.1))
    ]

split_registry-RegistryForm : (rest : Text) → RegistryForm (split_registry rest).0
unfolding split_registry
split_registry-RegistryForm rest =
    elim (Bool-cases (looks_like_host (first_segment (split b'/' rest)))) [
      | inl e ↦ rw e (
          with_host-RegistryForm rest (first_segment (split b'/' rest)) (split_once b'/' rest)
            (split_once-FrontOf rest) e)
      | inr e ↦ rw e (inl refl)
    ]

normalize_repo_named :
    (repo : Text) (b : Bool) → is_empty repo ≡ false → is_empty (normalize_repo repo b) ≡ false
unfolding normalize_repo
normalize_repo_named [] b h = cc h
normalize_repo_named (c ∷ s) b h = ground arith

normalize_repo_segments : (repo : Text) → elem b'/' (normalize_repo repo true) ≡ true
unfolding normalize_repo elem
normalize_repo_segments repo = ground arith

or_latest_again : (t d : Option Text) → or_latest (or_latest t d) d ≡ or_latest t d
or_latest_again (some t) d = refl
or_latest_again none (some d) = refl
or_latest_again none none = refl

-- Every reference that `parse` returns has a repository, in the default registry one of two segments or
-- more, a tag or a digest, no digest but a sha256 one, and for registry the default or a host without a
-- slash that is none of the default's other names.
pub parse-Normalized : (input : Text) (r : ImageRef) → parse input ≡ ok r → Normalized r
unfolding parse
parse-Normalized input r h =
    let s = trim input in
    let marks = split_digest_mark s (split_once b'@' s) in
    let place = split_registry marks.0 in
    let (repo, tag) = split_tag place.1 in
    let full = bail_if-eq-ok (is_empty s) RefError.empty_reference _ r h in
    let sha = bail_if-eq-ok (bad_digest marks.1) RefError.unsupported_digest _ r full.1 in
    let named = bail_if-eq-ok (is_empty repo) RefError.missing_repository _ r sha.1 in
    subst Normalized (ok-injective named.1) (record {
      registry_form = split_registry-RegistryForm marks.0;
      named = normalize_repo_named repo (same place.0 default_registry) named.0;
      two_segments = λ e. rw (e, same_self default_registry) (normalize_repo_segments repo);
      some_mark = or_latest_again tag marks.1;
      digest_form = sha.0;
    })
