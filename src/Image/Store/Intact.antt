-- ===== src/Image/Store/Intact.antt =====
-- What `remove_image` and `gc_replaced_layers` leave on disk.
use ingot_engine.Base.{
  ◌≡◌, ◌≢◌, ◌∙◌, refl, sym, ap, false, not, Option, none, some, List, arith, Bool-cases, inl, inr,
  length, ◌==◌,
}
use ingot_engine.Base.Text.{Text, same, same_iff}
use ingot_engine.Image.Store.{
  ImageRecord, ImageStore, contains, load, layer_dir, blob_file, remove_entry, list_uncached,
  delete_record, remove_image, remove_loaded, untagged, unpoint, unpoint_all,
}
use ingot_engine.Image.Store.Index.{IsNamed, contains-keep}
use ingot_engine.Image.Store.Put.{IsStore}
use ingot_engine.Image.Store.Removed.{load-delete_record, delete_record-IsNamed}
use ingot_engine.Image.Store.Collect.{
  Intact, HasDigests, collect-kept, contains-collect, used_by-list_uncached, delete_record-layers,
  delete_record-blobs, dropped-other,
}

contains-remove_entry :
    (x name : Text) (xs : List Text) → x ≢ name → contains x (remove_entry name xs) ≡ contains x xs
contains-remove_entry x name xs ne =
    contains-keep x (λ y. not (same y name)) xs ∙ ground (arith, same_iff x name)

-- A loaded record, with whatever tags, is deleted, with whatever index.
module _ (s : ImageStore) (v : IsStore s) (h : HasDigests s) (id : Text) (r : ImageRecord)
    (e : load id s ≡ some r) (ts : List Text) (tags : List (Text × Text)) where
  abbrev gone : ImageRecord
  gone = record r { repo_tags = ts }

  abbrev after : ImageStore
  after = delete_record gone (record s { tags = tags })

  still_loaded :
      (k : Text) (o : ImageRecord)
      → load k after ≡ some o
      → (same r.id k ≡ false) × (load k s ≡ some o)
  still_loaded k o l = elim (Bool-cases (same r.id k)) [
    | inl g ↦ let here = rw (load-delete_record, g) at l in cc
    | inr g ↦ (g, rw (load-delete_record, g) at l)
  ]

  -- Ids are the names of their blobs, so another record has another one.
  met :
      (k : Text) (o : ImageRecord)
      → load k s ≡ some o
      → same r.id k ≡ false
      → IsNamed id (some r)
      → IsNamed k (some o)
      → blob_file o.id ≢ blob_file r.id
  met k o before other n m q =
      let one : r.id ≡ k =
        n.0
        ∙ sym (h.bare id r e)
        ∙ ap blob_file (sym n.0)
        ∙ sym q
        ∙ ap blob_file m.0
        ∙ h.bare k o before in
      absurd (ground (arith, (same_iff r.id k).1 one))

  pub deleted-Intact : (k : Text) (o : ImageRecord) → load k after ≡ some o → Intact o s after
  deleted-Intact k o l =
      let (other, before) = still_loaded k o l in
      let n : IsNamed id (some r) = rw e at (v.named id) in
      let m : IsNamed k (some o) = rw before at (v.named k) in
      let named = delete_record-IsNamed gone (record s { tags = tags }) k (v.named k) in
      record {
        layers = λ d c. rw delete_record-layers (
            collect-kept layer_dir (λ x. x.diff_ids) (list_uncached after) r.diff_ids s.layers d
              (used_by-list_uncached (λ x. x.diff_ids) after k o d named l c)
              (h.diffs k o d before c) (λ f. h.diffs id r f e));
        blobs = λ b c. rw delete_record-blobs (
            contains-remove_entry (blob_file b) (blob_file r.id) _
              (λ q. h.apart k id o r b before e c (q ∙ ap blob_file n.0))
            ∙ collect-kept blob_file (λ x. x.layer_blobs) (list_uncached after) r.layer_blobs
                s.blobs b (used_by-list_uncached (λ x. x.layer_blobs) after k o b named l c)
                (h.blobs k o b before c) (λ f. h.blobs id r f e));
        config =
            let unmoved =
              dropped-other blob_file (λ x. x.layer_blobs) (list_uncached after) r.layer_blobs
                (blob_file o.id) (λ f c q. h.apart id k r o f e before c (q ∙ ap blob_file m.0)) in
            rw delete_record-blobs (
              contains-remove_entry (blob_file o.id) (blob_file r.id) _
                (λ q. met k o before other n m q)
              ∙ contains-collect blob_file (λ x. x.layer_blobs) (list_uncached after) r.layer_blobs
                  s.blobs (blob_file o.id)
              ∙ ground arith);
      }

remove_loaded-Intact :
    (s : ImageStore) (id : Text) (t : Option Text) (x : Option ImageRecord)
    → IsStore s
    → HasDigests s
    → load id s ≡ x
    → (k : Text) (o : ImageRecord) → load k (remove_loaded id t x s).1 ≡ some o
    → Intact o s (remove_loaded id t x s).1
remove_loaded-Intact s id t none v h e k o l = record {
  layers = λ d c. refl;
  blobs = λ b c. refl;
  config = refl;
}
remove_loaded-Intact s id none (some r) v h e k o l =
    let i = deleted-Intact s v h id r e r.repo_tags (unpoint_all r.id r.repo_tags s.tags) k o l in
    record { layers = i.layers; blobs = i.blobs; config = i.config }
remove_loaded-Intact s id (some t) (some r) v h e k o l =
    elim (Bool-cases (length (untagged t r).repo_tags == 0)) [
      | inl g ↦
          let here = rw g at l in
          let i =
            deleted-Intact s v h id r e (untagged t r).repo_tags (unpoint r.id t s.tags) k o here in
          rw g (record { layers = i.layers; blobs = i.blobs; config = i.config })
      | inr g ↦ rw g (record { layers = λ d c. refl; blobs = λ b c. refl; config = refl })
    ]

-- In a store that meets the invariant and whose digests are spelled out, `remove_image`, of a tag or of
-- the whole image, takes away no layer, no layer blob and no configuration of a record that is left.
pub remove_image-Intact :
    (s : ImageStore) (id : Text) (t : Option Text)
    → IsStore s
    → HasDigests s
    → (k : Text) (o : ImageRecord) → load k (remove_image id t s).1 ≡ some o
    → Intact o s (remove_image id t s).1
unfolding remove_image
remove_image-Intact s id t v h = remove_loaded-Intact s id t (load id s) v h refl
