-- ===== src/Image/Store/Swept.antt =====
-- `gc_replaced_layers` keeps what is referred to, and `remove_image` leaves nothing of an image behind.
use ingot_engine.Base.{◌≡◌, ◌≢◌, ◌∙◌, refl, ap, true, false, not, none, some, List, arith, ok}
use ingot_engine.Base.Text.{Text, same, same_self}
use ingot_engine.Image.Store.{
  ImageRecord, ImageStore, contains, load, layer_dir, blob_file, used_by, remove_entry,
  list_uncached, delete_record, gc_replaced_layers, remove_image, unpoint_all,
}
use ingot_engine.Image.Store.Index.{IsNamed, contains-keep}
use ingot_engine.Image.Store.Put.{IsStore}
use ingot_engine.Image.Store.Removed.{load-delete_record}
use ingot_engine.Image.Store.Collect.{
  Intact, IsSpelled, HasDigests, collect-kept, contains-collect, used_by-list_uncached,
  dropped-unused, dropped-other, delete_record-layers, delete_record-blobs,
}

-- The revision whose layers are collected: its digests are spelled out, and none is an image's
-- configuration.
pub record IsReplaced (old : ImageRecord) (s : ImageStore) : Type 0 where
  pub diffs : (d : Text) → contains d old.diff_ids ≡ true → IsSpelled layer_dir d
  pub blobs : (b : Text) → contains b old.layer_blobs ≡ true → IsSpelled blob_file b
  pub apart :
      (k b : Text) (r : ImageRecord)
      → load k s ≡ some r
      → contains b old.layer_blobs ≡ true
      → blob_file b ≢ blob_file k

-- In a well-formed store whose records and whose old revision spell every digest as `sha256:` and the name of
-- its entry, with bare ids and with no configuration of a record among the layer blobs of the records or of
-- the old revision, `gc_replaced_layers` of the old revision takes away no layer, no layer blob and no configuration of a
-- record of the store.
pub gc_replaced_layers-Intact :
    (old : ImageRecord) (s : ImageStore)
    → IsStore s
    → HasDigests s
    → IsReplaced old s
    → (k : Text) (r : ImageRecord) → load k s ≡ some r
    → Intact r s (gc_replaced_layers old s)
unfolding gc_replaced_layers
gc_replaced_layers-Intact old s v h o k r e =
    let m : IsNamed k (some r) = rw e at (v.named k) in
    record {
      layers = λ d c.
          collect-kept layer_dir (λ x. x.diff_ids) (list_uncached s) old.diff_ids s.layers d
            (used_by-list_uncached (λ x. x.diff_ids) s k r d (v.named k) e c) (h.diffs k r d e c)
            o.diffs;
      blobs = λ b c.
          collect-kept blob_file (λ x. x.layer_blobs) (list_uncached s) old.layer_blobs s.blobs b
            (used_by-list_uncached (λ x. x.layer_blobs) s k r b (v.named k) e c) (h.blobs k r b e c)
            o.blobs;
      config =
          let unmoved =
            dropped-other blob_file (λ x. x.layer_blobs) (list_uncached s) old.layer_blobs
              (blob_file r.id) (λ f c q. o.apart k f r e c (q ∙ ap blob_file m.0)) in
          contains-collect blob_file (λ x. x.layer_blobs) (list_uncached s) old.layer_blobs s.blobs
            (blob_file r.id)
          ∙ ground arith;
    }

-- Nothing of the record is left but what another record uses.
pub record Swept (r : ImageRecord) (after : ImageStore) : Type 0 where
  pub gone : load r.id after ≡ none
  pub layers :
      (d : Text)
      → contains d r.diff_ids ≡ true
      → used_by (λ x. x.diff_ids) (list_uncached after) d ≡ false
      → contains (layer_dir d) after.layers ≡ false
  pub blobs :
      (b : Text)
      → contains b r.layer_blobs ≡ true
      → used_by (λ x. x.layer_blobs) (list_uncached after) b ≡ false
      → contains (blob_file b) after.blobs ≡ false
  pub config : contains (blob_file r.id) after.blobs ≡ false

contains-removed : (name : Text) (xs : List Text) → contains name (remove_entry name xs) ≡ false
contains-removed name xs =
    contains-keep name (λ y. not (same y name)) xs ∙ ground (arith, same_self name)

delete_record-Swept : (r : ImageRecord) (s : ImageStore) → Swept r (delete_record r s)
delete_record-Swept r s =
    let left = list_uncached (delete_record r s) in
    record {
      gone = rw (load-delete_record, same_self) refl;
      layers = λ d c u. rw delete_record-layers (
          contains-collect layer_dir (λ x. x.diff_ids) left r.diff_ids s.layers (layer_dir d)
          ∙ ground (arith, dropped-unused layer_dir (λ x. x.diff_ids) left r.diff_ids d u c));
      blobs = λ b c u. rw delete_record-blobs (
          contains-keep (blob_file b) (λ y. not (same y (blob_file r.id))) _
          ∙ ground (
            arith,
            contains-collect blob_file (λ x. x.layer_blobs) left r.layer_blobs s.blobs
                (blob_file b),
            dropped-unused blob_file (λ x. x.layer_blobs) left r.layer_blobs b u c,
          ));
      config = rw delete_record-blobs (contains-removed (blob_file r.id) _);
    }

-- `remove_image` of a stored image, without a tag, returns its record and removes it, its configuration
-- and each of its layers and layer blobs that no record that is left uses.
pub remove_image-Swept :
    (id : Text) (r : ImageRecord) (s : ImageStore)
    → load id s ≡ some r
    → ((remove_image id none s).0 ≡ ok r) × Swept r (remove_image id none s).1
unfolding remove_image list_uncached
remove_image-Swept id r s e =
    let d = delete_record-Swept r (record s { tags = unpoint_all r.id r.repo_tags s.tags }) in
    rw e (refl, record { gone = d.gone; layers = d.layers; blobs = d.blobs; config = d.config })
