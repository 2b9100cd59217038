-- ===== src/Image/Store/Put.antt =====
-- The invariant of the image store, and `put_image`, `put_image_merged` and `tag`, which keep it.
use ingot_engine.Base.{
  ◌≡◌, ◌∙◌, refl, ap, true, false, not, ◌&&◌, ◌||◌, Option, none, some, List, [], ◌∷◌, ◌++◌,
  if◌then◌else◌, arith, Bool-cases, inl, inr,
}
use ingot_engine.Base.Text.{Text, same, same_iff}
use ingot_engine.Image.Store.{
  ImageRecord, ImageStore, contains, load, write_record, evict, point_tags, points, put_image,
  put_image_merged, merged, tag, tag_loaded, list_uncached,
}
use ingot_engine.Image.Store.Filed.{IsFiled, put_image-IsFiled}
use ingot_engine.Image.Store.Index.{
  IsNamed, embeds, embeds_in, hidden_id, write_record-IsNamed, load-write_record, evict-IsNamed,
  evict-images, embeds-evict, lookup-point_tags, contains-append, contains-union,
}

abbrev pub IsCached : Option (List ImageRecord) → List ImageRecord → Type 0
IsCached none out = Unit
IsCached (some cached) out = cached ≡ out

-- Every file is named by its record's id; the index points a tag at a record exactly when the record embeds the
-- tag; the index is saved; what is cached is what a scan finds.
pub record IsStore (s : ImageStore) : Type 0 where
  pub named : (k : Text) → IsNamed k (load k s)
  pub filed : IsFiled s.images
  pub agrees : (t k : Text) → points s.tags t k ≡ embeds s k t
  pub saved : s.saved_tags ≡ s.tags
  pub cached : IsCached s.list_cache (list_uncached s)

points-point_tags :
    (id : Text) (ts : List Text) (t k : Text) (tags : List (Text × Text))
    → points (point_tags id ts tags) t k ≡ (if contains t ts then same id k else points tags t k)
points-point_tags id ts t k tags = rw lookup-point_tags (ground arith)

module _ (r : ImageRecord) (s : ImageStore) where
  abbrev written : ImageStore
  written = write_record r s

  abbrev evicted : ImageStore
  evicted = evict r.id r.repo_tags written

  pub put_image-tags : (put_image r s).tags ≡ point_tags r.id r.repo_tags s.tags
  unfolding put_image
  put_image-tags =
      ap (λ x. point_tags r.id r.repo_tags x.tags) (evict-images r.id r.repo_tags written)

  put_image-saved : (put_image r s).saved_tags ≡ (put_image r s).tags
  unfolding put_image
  put_image-saved = refl

  put_image-list_cache : (put_image r s).list_cache ≡ none
  unfolding put_image
  put_image-list_cache = refl

  module _ (named : (k : Text) → IsNamed k (load k s)) (shown : same r.id hidden_id ≡ false) where
    written-IsNamed : (k : Text) → IsNamed k (load k written)
    written-IsNamed k = write_record-IsNamed r s k shown (named k)

    embeds-put_image :
        (k t : Text)
        → embeds (put_image r s) k t ≡ (
            if same r.id k
            then contains t r.repo_tags
            else embeds s k t && not (contains t r.repo_tags && points s.tags t k))
    unfolding put_image
    embeds-put_image k t =
        embeds-evict r.id r.repo_tags k t written written-IsNamed
        ∙ elim (Bool-cases (same r.id k)) [
          | inl h ↦ rw (load-write_record, h) (ground (arith, same_iff r.id k, same_iff k r.id))
          | inr h ↦ rw (load-write_record, h) (ground (arith, same_iff r.id k, same_iff k r.id))
        ]

    put_image-IsNamed : (k : Text) → IsNamed k (load k (put_image r s))
    unfolding put_image
    put_image-IsNamed = evict-IsNamed r.id r.repo_tags written written-IsNamed

-- A record that embeds whatever its predecessor under the same id did, at least, is put in keeping with
-- the invariant.
pub put_image-IsStore :
    (r : ImageRecord) (s : ImageStore)
    → IsStore s
    → same r.id hidden_id ≡ false
    → ((t : Text) → embeds s r.id t ≡ true → contains t r.repo_tags ≡ true)
    → IsStore (put_image r s)
put_image-IsStore r s v shown more = record {
  named = put_image-IsNamed r s v.named shown;
  filed = put_image-IsFiled r s v.filed;
  agrees = λ t k.
      ap (λ m. points m t k) (put_image-tags r s)
      ∙ points-point_tags r.id r.repo_tags t k s.tags
      ∙ ground
          (arith, embeds-put_image r s v.named shown k t, v.agrees t k, more t, same_iff r.id k);
  saved = put_image-saved r s;
  cached = rw put_image-list_cache tt;
}

merged-id : (r : ImageRecord) (o : Option ImageRecord) → (merged r o).id ≡ r.id
merged-id r none = refl
merged-id r (some existing) = refl

merged-tags :
    (r : ImageRecord) (o : Option ImageRecord) (t : Text)
    → contains t (merged r o).repo_tags ≡ (contains t r.repo_tags || embeds_in o t)
merged-tags r none t = ground arith
merged-tags r (some existing) t = contains-union t r.repo_tags existing.repo_tags

pub put_image_merged-IsStore :
    (r : ImageRecord) (s : ImageStore)
    → IsStore s
    → same r.id hidden_id ≡ false
    → IsStore (put_image_merged r s)
unfolding put_image_merged
put_image_merged-IsStore r s v shown =
    put_image-IsStore (merged r (load r.id s)) s v (rw merged-id shown)
      (λ t h. let here = rw merged-id at h in merged-tags r (load r.id s) t ∙ ground arith)

tag_loaded-IsStore :
    (id t : Text) (s : ImageStore) (o : Option ImageRecord)
    → IsStore s
    → load id s ≡ o
    → IsStore (tag_loaded id t o s).1
tag_loaded-IsStore id t s none v e = v
tag_loaded-IsStore id t s (some r) v e = elim (Bool-cases (contains t r.repo_tags)) [
  | inl h ↦ rw h v
  | inr h ↦
      let n : IsNamed id (some r) = rw e at (v.named id) in
      rw h (
        put_image-IsStore (record r { repo_tags = r.repo_tags ++ t ∷ [] }) s v n.1
          (λ u g.
            let here = rw (n.0, e) at g in contains-append u r.repo_tags (t ∷ []) ∙ ground arith))
]

pub tag-IsStore : (id t : Text) (s : ImageStore) → IsStore s → IsStore (tag id t s).1
unfolding tag
tag-IsStore id t s v = tag_loaded-IsStore id t s (load id s) v refl
