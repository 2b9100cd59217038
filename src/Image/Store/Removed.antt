-- ===== src/Image/Store/Removed.antt =====
-- `remove_image`, with a tag or without one, keeps the invariant of the image store.
use ingot_engine.Base.{
  ◌≡◌, ◌∙◌, refl, sym, true, false, not, ◌&&◌, Option, none, some, List, [], ◌∷◌, if◌then◌else◌,
  any, arith, Bool-cases, inl, inr, length, ◌==◌,
}
use ingot_engine.Base.Maps.{lookup, lookup-remove}
use ingot_engine.Base.Text.{Text, same, same_iff}
use ingot_engine.Image.Store.{
  ImageRecord, ImageStore, contains, load, points, names, untagged, unpoint, unpoint_all,
  delete_record, remove_image, remove_loaded, invalidate_list,
}
use ingot_engine.Image.Store.Index.{
  IsNamed, embeds, write_record-IsNamed, load-write_record, lookup-unpoint, lookup-unpoint_all,
  contains-keep,
}
use ingot_engine.Image.Store.Filed.{IsFiled, delete_record-IsFiled, write_record-IsFiled}
use ingot_engine.Image.Store.Put.{IsStore}

pub load-delete_record :
    (r : ImageRecord) (s : ImageStore) (k : Text)
    → load k (delete_record r s) ≡ (if same r.id k then none else load k s)
unfolding delete_record
load-delete_record r s k = lookup-remove r.id k s.images

pub delete_record-IsNamed :
    (r : ImageRecord) (s : ImageStore) (k : Text)
    → IsNamed k (load k s)
    → IsNamed k (load k (delete_record r s))
delete_record-IsNamed r s k named =
    rw load-delete_record (elim (Bool-cases (same r.id k)) [ inl h ↦ rw h tt | inr h ↦ rw h named ])

delete_record-tags : (r : ImageRecord) (s : ImageStore) → (delete_record r s).tags ≡ s.tags
unfolding delete_record
delete_record-tags r s = refl

delete_record-saved : (r : ImageRecord) (s : ImageStore) → (delete_record r s).saved_tags ≡ s.tags
unfolding delete_record
delete_record-saved r s = refl

-- Once the index names the record nowhere and agrees elsewhere, the record can go.
delete_record-IsStore :
    (r : ImageRecord) (s : ImageStore)
    → ((k : Text) → IsNamed k (load k s))
    → ((t k : Text) → points s.tags t k ≡ (not (same r.id k) && embeds s k t))
    → IsFiled s.images
    → IsStore (invalidate_list (delete_record r s))
delete_record-IsStore r s named agrees filed = record {
  filed = delete_record-IsFiled r s filed;
  named = λ k. delete_record-IsNamed r s k (named k);
  agrees = λ t k.
      rw (delete_record-tags, load-delete_record)
        (agrees t k ∙ elim (Bool-cases (same r.id k)) [ inl h ↦ rw h refl | inr h ↦ rw h refl ]);
  saved = rw (delete_record-saved, delete_record-tags) refl;
  cached = tt;
}

names-same : (id k : Text) (o : Option Text) → names id o ≡ true → names k o ≡ same id k
names-same id k none h = cc
names-same id k (some held) h = ground (arith, same_iff held id)

points-unpoint :
    (id t u k : Text) (tags : List (Text × Text))
    → points (unpoint id t tags) u k ≡ (points tags u k && not (same t u && same id k))
points-unpoint id t u k tags =
    rw lookup-unpoint (ground (arith, same_iff t u, same_iff id k, names-same id k (lookup u tags)))

points-unpoint_all :
    (id : Text) (ts : List Text) (u k : Text) (tags : List (Text × Text))
    → points (unpoint_all id ts tags) u k ≡ (points tags u k && not (contains u ts && same id k))
points-unpoint_all id ts u k tags =
    rw lookup-unpoint_all (ground (arith, same_iff id k, names-same id k (lookup u tags)))

none-contains : (t : Text) (ts : List Text) → (length ts == 0) ≡ true → contains t ts ≡ false
unfolding any
none-contains t [] h = refl
none-contains t (x ∷ xs) h = ground arith

embeds-loaded :
    (id k u : Text) (r : ImageRecord) (s : ImageStore)
    → r.id ≡ id
    → load id s ≡ some r
    → same r.id k ≡ true
    → embeds s k u ≡ contains u r.repo_tags
embeds-loaded id k u r s n e h = rw (sym ((same_iff r.id k).0 h), n, e) refl

remove_loaded-IsStore :
    (id : Text) (t : Option Text) (s : ImageStore) (o : Option ImageRecord)
    → IsStore s
    → load id s ≡ o
    → IsStore (remove_loaded id t o s).1
remove_loaded-IsStore id t s none v e = v
remove_loaded-IsStore id none s (some r) v e =
    let n : IsNamed id (some r) = rw e at (v.named id) in
    delete_record-IsStore r (record s { tags = unpoint_all r.id r.repo_tags s.tags }) v.named
      (λ u k.
        points-unpoint_all r.id r.repo_tags u k s.tags
        ∙ ground (arith, v.agrees u k, embeds-loaded id k u r s n.0 e))
      v.filed
remove_loaded-IsStore id (some t) s (some r) v e =
    let n : IsNamed id (some r) = rw e at (v.named id) in
    let left = untagged t r in
    let unpointed = record s { tags = unpoint r.id t s.tags } in
    elim (Bool-cases (length left.repo_tags == 0)) [
      | inl h ↦ rw h (
          delete_record-IsStore left unpointed v.named
            (λ u k.
              points-unpoint r.id t u k s.tags
              ∙ ground (
                arith,
                v.agrees u k,
                embeds-loaded id k u r s n.0 e,
                same_iff u t,
                same_iff t u,
                none-contains u left.repo_tags h,
                contains-keep u (λ x. not (same x t)) r.repo_tags,
              ))
            v.filed)
      | inr h ↦ rw h (record {
        named = λ k. write_record-IsNamed left unpointed k n.1 (v.named k);
        filed = write_record-IsFiled left unpointed v.filed;
        agrees = λ u k. points-unpoint r.id t u k s.tags ∙ elim (Bool-cases (same r.id k)) [
          | inl g ↦
              rw (load-write_record, g)
                (ground (
                  arith,
                  v.agrees u k,
                  embeds-loaded id k u r s n.0 e g,
                  same_iff u t,
                  same_iff t u,
                  contains-keep u (λ x. not (same x t)) r.repo_tags,
                ))
          | inr g ↦ rw (load-write_record, g) (ground (arith, v.agrees u k))
        ];
        saved = refl;
        cached = tt;
      })
    ]

pub remove_image-IsStore :
    (id : Text) (t : Option Text) (s : ImageStore) → IsStore s → IsStore (remove_image id t s).1
unfolding remove_image
remove_image-IsStore id t s v = remove_loaded-IsStore id t s (load id s) v refl
