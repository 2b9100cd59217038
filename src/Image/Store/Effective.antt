-- ===== src/Image/Store/Effective.antt =====
-- What the tag index decides: the tags that a listing shows, and what `tag` adds.
use ingot_engine.Base.{
  ◌≡◌, ◌∙◌, refl, ap, Bool, true, Option, none, some, List, [], ◌∷◌, ◌++◌, map, any, All, arith,
  Bool-cases, inl, inr, ok,
}
use ingot_engine.Base.Maps.{lookup}
use ingot_engine.Base.Text.{Text, same_iff, same_self}
use ingot_engine.Image.Store.{
  ImageRecord, ImageStore, contains, load, points, names, effective, list, list_effective, tag,
  tag_loaded,
}
use ingot_engine.Image.Store.Index.{
  IsNamed, embeds, contains-keep, contains-append, lookup-point_tags,
}
use ingot_engine.Image.Store.Put.{IsStore, put_image-tags}

-- The index has each of the record's tags for the record.
abbrev pub IsTrue : List (Text × Text) → ImageRecord → Type 0
IsTrue tags r = (t : Text) → contains t r.repo_tags ≡ true → lookup t tags ≡ some r.id

names-held : (id : Text) (o : Option Text) → names id o ≡ true → o ≡ some id
names-held id none h = cc
names-held id (some held) h = ap some ((same_iff held id).0 h)

effective-All :
    (tags : List (Text × Text)) (out : List ImageRecord)
    → All (IsTrue tags) (map (effective tags) out)
effective-All tags [] = tt
effective-All tags (r ∷ out) = (
  λ t h.
      names-held r.id (lookup t tags)
        (ground (arith, contains-keep t (λ u. points tags u r.id) r.repo_tags)),
  effective-All tags out,
)

-- Whatever the state of the records' own tag lists, `list_effective` shows a tag on a record only where
-- the index has the tag for this record: no tag on two images.
pub list_effective-IsTrue :
    (recent : Bool) (s : ImageStore) → All (IsTrue s.tags) (list_effective recent s).0
unfolding list_effective
list_effective-IsTrue recent s = effective-All s.tags (list recent s).0

tag_loaded_lem :
    (id t : Text) (r : ImageRecord) (s : ImageStore)
    → IsStore s
    → load id s ≡ some r
    → ((tag_loaded id t (some r) s).0 ≡ ok tt)
      × (lookup t (tag_loaded id t (some r) s).1.tags ≡ some id)
unfolding any
tag_loaded_lem id t r s v e = elim (Bool-cases (contains t r.repo_tags)) [
  | inl h ↦
      let here : embeds s id t ≡ true = rw e h in
      rw h (refl, names-held id (lookup t s.tags) (v.agrees t id ∙ here))
  | inr h ↦
      let n : IsNamed id (some r) = rw e at (v.named id) in
      let last = contains-append t r.repo_tags (t ∷ []) in
      let tagged : contains t (r.repo_tags ++ t ∷ []) ≡ true = ground (arith, last, same_self t) in
      rw h (refl, rw (put_image-tags, lookup-point_tags, tagged) (ap some n.0))
]

-- In a store that meets the invariant, `tag` of a stored image succeeds, and the index has the tag for
-- the image.
pub tag_lem :
    (id t : Text) (r : ImageRecord) (s : ImageStore)
    → IsStore s
    → load id s ≡ some r
    → ((tag id t s).0 ≡ ok tt) × (lookup t (tag id t s).1.tags ≡ some id)
unfolding tag
tag_lem id t r s v e = rw e (tag_loaded_lem id t r s v e)
