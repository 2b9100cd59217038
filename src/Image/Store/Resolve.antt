-- ===== src/Image/Store/Resolve.antt =====
-- `resolve`: the names under which an image is found.
use ingot_engine.Base.{
  ℕ, ◌≡◌, ◌∙◌, refl, sym, Bool, true, false, Option, none, some, [], ◌∷◌, ◌++◌, all, elem, arith,
  ok,
}
use ingot_engine.Base.Text.{Text, codes, starts_with, is_ascii_hexdigit}
use ingot_engine.Base.Text.Split.{elem-any, rsplit_once-append}
use ingot_engine.Registry.Reference
use ingot_engine.Image.Store.{
  ImageRecord, ImageStore, contains, load, name_key, resolve_id, resolve_tag, put_image, resolve,
}
use ingot_engine.Image.Store.Index.{lookup-point_tags}
use ingot_engine.Image.Store.Put.{put_image-tags}

-- There is an image under the id.
abbrev pub IsStored : ImageStore → Text → Type 0
IsStored s id = (o : ImageRecord) × (load id s ≡ some o)

abbrev is_held : Option ImageRecord → Bool
is_held none = false
is_held (some o) = true

all-apart : (p : ℕ → Bool) (a b : Text) (c : ℕ) → p c ≡ false → all p (a ++ c ∷ b) ≡ false
unfolding all
all-apart p [] b c h = rw h refl
all-apart p (x ∷ a) b c h = ground (arith, all-apart p a b c h)

resolve_id-tagged :
    (s : ImageStore) (repo tag : Text)
    → starts_with (codes "sha256:") (repo ++ b':' ∷ tag) ≡ false
    → resolve_id (repo ++ b':' ∷ tag) s ≡ none
unfolding resolve_id is_ascii_hexdigit
resolve_id-tagged s repo tag h = rw (h, all-apart is_ascii_hexdigit repo tag b':' refl) refl

-- `repo:tag`, where the tag has no `:` or `/`, the whole is no digest reference and does not start like a
-- digest, resolves to the image that was put with this tag.
pub resolve-put_image :
    (recent : Bool) (r : ImageRecord) (s : ImageStore) (repo tag : Text)
    → contains (repo ++ b':' ∷ tag) r.repo_tags ≡ true
    → elem b':' tag ≡ false
    → elem b'/' tag ≡ false
    → elem b'@' (repo ++ b':' ∷ tag) ≡ false
    → starts_with (codes "sha256:") (repo ++ b':' ∷ tag) ≡ false
    → (resolve recent (repo ++ b':' ∷ tag) (put_image r s)).0 ≡ ok r.id
unfolding resolve resolve_tag name_key
resolve-put_image recent r s repo tag tagged no_colon no_slash no_at no_digest =
    rw
      (
        resolve_id-tagged (put_image r s) repo tag no_digest,
        no_at,
        rsplit_once-append b':' repo tag (sym (elem-any b':' tag) ∙ no_colon),
        no_slash,
        put_image-tags r s,
        lookup-point_tags,
        tagged,
      )
      refl
