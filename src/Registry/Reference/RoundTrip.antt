-- ===== src/Registry/Reference/RoundTrip.antt =====
-- A reference that is printed reads back, and where it does not.
use mathlib.Core.List.{append_assoc, append-nil}
use ingot_engine.Base.{
  ◌≡◌, refl, sym, ap, ◌∙◌, true, false, Option, none, some, [], ◌∷◌, ◌++◌, elem, ok, arith,
}
use ingot_engine.Base.Text.{
  Text, codes, same, same_self, is_empty, trim, starts_with, strip_prefix, split_once, rsplit_once,
}
use ingot_engine.Base.Text.Split.{
  split-append, elem-append, elem-any, split_once-append, split_once-none, rsplit_once-append,
}
use ingot_engine.Registry.Reference.{
  default_registry, official_repo_prefix, ImageRef, registry_is_default_host, looks_like_host,
  split_registry, normalize_repo, split_tag, split_digest_mark, bad_digest, or_latest, parse,
  host_text, repo_display, marked, display_ref,
}

-- The repository as it is printed, with the reason why it reads back: an official image, another one of the
-- default registry, whose first segment is not taken for a host or for `library`, or one behind a host.
pub data Placed (r : ImageRef) : Text → Type 0 where
  official :
      (n : Text)
      → r.registry ≡ default_registry
      → r.repo ≡ official_repo_prefix ++ n
      → elem b'/' n ≡ false
      → Placed r n
  hub :
      (a b : Text)
      → r.registry ≡ default_registry
      → r.repo ≡ a ++ b'/' ∷ b
      → elem b'/' a ≡ false
      → looks_like_host a ≡ false
      → same a (codes "library") ≡ false
      → Placed r (a ++ b'/' ∷ b)
  hosted :
      looks_like_host r.registry ≡ true
      → elem b'/' r.registry ≡ false
      → registry_is_default_host r.registry ≡ false
      → Placed r r.repo

abbrev pub TagForm : Text → Option Text → Type 0
TagForm n none = split_tag n ≡ (n, none)
TagForm n (some t) = (elem b':' t ≡ false) × (elem b'/' t ≡ false) × (elem b'@' t ≡ false)

pub record Canonical (r : ImageRef) (n : Text) : Type 0 where
  pub placed : Placed r n
  pub named : is_empty n ≡ false
  pub tag_form : TagForm n r.tag
  pub some_mark : or_latest r.tag r.digest ≡ r.tag
  pub digest_form : bad_digest r.digest ≡ false
  pub no_at : elem b'@' (host_text r ++ n) ≡ false
  pub trimmed : trim (display_ref r) ≡ display_ref r

not_library :
    (a b : Text)
    → elem b'/' a ≡ false
    → same a (codes "library") ≡ false
    → starts_with official_repo_prefix (a ++ b'/' ∷ b) ≡ false
unfolding starts_with strip_prefix elem same
not_library [] b h k = refl
not_library (a ∷ []) b h k = ground arith
not_library (a ∷ c ∷ []) b h k = ground arith
not_library (a ∷ c ∷ d ∷ []) b h k = ground arith
not_library (a ∷ c ∷ d ∷ e ∷ []) b h k = ground arith
not_library (a ∷ c ∷ d ∷ e ∷ f ∷ []) b h k = ground arith
not_library (a ∷ c ∷ d ∷ e ∷ f ∷ g ∷ []) b h k = ground arith
not_library (a ∷ c ∷ d ∷ e ∷ f ∷ g ∷ x ∷ []) b h k = ground arith
not_library (a ∷ c ∷ d ∷ e ∷ f ∷ g ∷ x ∷ y ∷ s) b h k = ground arith

host_not_default : (h : Text) → registry_is_default_host h ≡ false → same h default_registry ≡ false
host_not_default h e = ground arith

repo_display-Placed : (r : ImageRef) (n : Text) → Placed r n → repo_display r ≡ n
repo_display-Placed r _ (official n e p h) =
    unfold starts_with strip_prefix in rw (e, p, same_self default_registry)
repo_display-Placed r n (hub a b e p h k l) =
    rw (e, p, not_library a b h l, same_self default_registry)
repo_display-Placed r n (hosted l h k) = rw (host_not_default r.registry k)

-- The registry and the rest come apart again.
split_registry-Placed :
    (r : ImageRef) (n t : Text)
    → Placed r n
    → elem b'/' t ≡ false
    → split_registry (host_text r ++ (n ++ t)) ≡ (r.registry, n ++ t)
unfolding split_registry
split_registry-Placed r _ t (official n e p h) k =
    let plain : elem b'/' (n ++ t) ≡ false = elem-append b'/' n t ∙ rw (h, k) in
    rw (e, same_self default_registry, split_once-none b'/' (n ++ t) plain) (ground arith)
split_registry-Placed r n t (hub a b e p h l m) k =
    rw (
      e,
      same_self default_registry,
      append_assoc a (b'/' ∷ b) t,
      split-append b'/' a (b ++ t) h,
      l,
    )
split_registry-Placed r n t (hosted l h m) k = rw (
  host_not_default r.registry m,
  append_assoc r.registry (b'/' ∷ []) (r.repo ++ t),
  split-append b'/' r.registry (r.repo ++ t) h,
  l,
  split_once-append b'/' r.registry (r.repo ++ t) h,
  m,
)

split_tag-some :
    (n t : Text)
    → rsplit_once b':' (n ++ b':' ∷ t) ≡ some (n, t)
    → elem b'/' t ≡ false
    → split_tag (n ++ b':' ∷ t) ≡ (n, some t)
unfolding split_tag
split_tag-some n t e h = rw (split_tag, e, h)

split_tag-marked :
    (n : Text) (tag : Option Text) → TagForm n tag → split_tag (n ++ marked b':' tag) ≡ (n, tag)
split_tag-marked n none h = rw (append-nil n) h
split_tag-marked n (some t) h =
    split_tag-some n t (rsplit_once-append b':' n t (sym (elem-any b':' t) ∙ h.0)) h.1

normalize_repo-Placed :
    (r : ImageRef) (n : Text)
    → Placed r n
    → normalize_repo n (same r.registry default_registry) ≡ r.repo
unfolding normalize_repo
normalize_repo-Placed r _ (official n e p h) = rw (e, same_self default_registry, h, p)
normalize_repo-Placed r n (hub a b e p h l m) =
    rw (e, same_self default_registry, elem-append b'/' a (b'/' ∷ b), p)
      (unfold elem in ground arith)
normalize_repo-Placed r n (hosted l h m) = rw (host_not_default r.registry m)

split_digest-marked :
    (s : Text) (digest : Option Text)
    → elem b'@' s ≡ false
    → split_digest_mark (s ++ marked b'@' digest) (split_once b'@' (s ++ marked b'@' digest))
      ≡ (s, digest)
unfolding split_digest_mark
split_digest-marked s none h = rw (append-nil s, split_once-none b'@' s h)
split_digest-marked s (some d) h = rw (split_once-append b'@' s d h)

tag_no_slash : (n : Text) (tag : Option Text) → TagForm n tag → elem b'/' (marked b':' tag) ≡ false
unfolding elem
tag_no_slash n none h = refl
tag_no_slash n (some t) h = h.1

tag_no_at : (n : Text) (tag : Option Text) → TagForm n tag → elem b'@' (marked b':' tag) ≡ false
unfolding elem
tag_no_at n none h = refl
tag_no_at n (some t) h = h.2

front-some : (a n t d : Text) → is_empty n ≡ false → is_empty ((a ++ (n ++ t)) ++ d) ≡ false
front-some [] [] t d h = cc h
front-some [] (c ∷ n) t d h = refl
front-some (c ∷ a) n t d h = refl

front : ImageRef → Text → Text
front r n = host_text r ++ (n ++ marked b':' r.tag)

display_ref-front :
    (r : ImageRef) (n : Text) → Placed r n → display_ref r ≡ front r n ++ marked b'@' r.digest
unfolding display_ref front
display_ref-front r n p = rw (repo_display-Placed r n p) (
    sym (
      append_assoc (host_text r) (n ++ marked b':' r.tag) (marked b'@' r.digest)
      ∙ ap (λ x. host_text r ++ x) (append_assoc n (marked b':' r.tag) (marked b'@' r.digest))))

front-no_at : (r : ImageRef) (n : Text) → Canonical r n → elem b'@' (front r n) ≡ false
unfolding front
front-no_at r n c =
    ap (elem b'@') (sym (append_assoc (host_text r) n (marked b':' r.tag)))
    ∙ elem-append b'@' (host_text r ++ n) (marked b':' r.tag)
    ∙ rw (c.no_at, tag_no_at n r.tag c.tag_form)

-- A reference reads back from its text when it is placed, has a tag or a digest and a repository that is not
-- empty, the tag holds none of `:`, `/` and `@`, a repository without a tag does not end like one with a tag,
-- neither registry nor repository holds an `@`, the digest is a sha256 one, and no white space stands at an
-- end of the text.
pub parse-display_ref : (r : ImageRef) (n : Text) → Canonical r n → parse (display_ref r) ≡ ok r
unfolding parse front
parse-display_ref r n c =
    rw
      (
        c.trimmed,
        display_ref-front r n c.placed,
        split_digest-marked (front r n) r.digest (front-no_at r n c),
        split_registry-Placed r n (marked b':' r.tag) c.placed (tag_no_slash n r.tag c.tag_form),
        split_tag-marked n r.tag c.tag_form,
        normalize_repo-Placed r n c.placed,
        c.some_mark,
        c.digest_form,
        c.named,
        front-some (host_text r) n (marked b':' r.tag) (marked b'@' r.digest) c.named,
      )
      refl
