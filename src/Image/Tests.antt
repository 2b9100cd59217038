-- ===== src/Image/Tests.antt =====
-- Runs of the image store, and each of its theorems at an input that meets its hypotheses.
use ingot_engine.Base.{
  ◌≡◌, ◌≢◌, refl, sym, true, false, none, some, List, [], ◌∷◌, keep, any, All, arith, Bool-cases,
  inl, inr, ok,
}
use ingot_engine.Base.Maps.{lookup, insert, remove}
use ingot_engine.Base.Text.{Text, codes, same, same_iff, strip_prefix}
use ingot_engine.Image.Store.{
  Described, ImageRecord, ImageStore, contains, layer_dir, blob_file, trim_digest_prefix, put_image,
  put_image_merged, tag, remove_image, evict, point_tags, list_uncached, delete_record, unpoint_all,
  collect, gc_replaced_layers,
}
use ingot_engine.Image.Store.Index.{embeds}
use ingot_engine.Image.Store.Put.{IsStore}
use ingot_engine.Image.Store.Collect.{Intact, IsSpelled, HasDigests}
use ingot_engine.Image.Store.Intact.{remove_image-Intact}
use ingot_engine.Image.Store.Swept.{
  IsReplaced, Swept, gc_replaced_layers-Intact, remove_image-Swept,
}
use ingot_engine.Image.Store.Requests.{
  put_request, tag_request, remove_request, restart, serve_all, serve, serve_all-IsStore,
}

abbrev plain : Described
plain = record {
  created = [];
  architecture = [];
  os = [];
  author = [];
  comment = [];
  docker_version = [];
  chain_ids = [];
}

-- Two images that share a layer.
abbrev image : Text → List Text → List Text → List Text → ImageRecord
image id tags diffs blobs = record {
  id = id;
  manifest_digest = [];
  repo_tags = tags;
  repo_digests = [];
  diff_ids = diffs;
  layer_blobs = blobs;
  described = plain;
}

abbrev aaa : ImageRecord
aaa =
    image (codes "aaa") (codes "x:latest" ∷ []) (codes "sha256:d1" ∷ codes "sha256:d2" ∷ [])
      (codes "sha256:b1" ∷ [])

abbrev bbb : ImageRecord
bbb = image (codes "bbb") (codes "y:1" ∷ []) (codes "sha256:d1" ∷ []) (codes "sha256:b2" ∷ [])

abbrev two_images : ImageStore
two_images = record {
  images = (codes "aaa", aaa) ∷ (codes "bbb", bbb) ∷ [];
  tags = (codes "x:latest", codes "aaa") ∷ (codes "y:1", codes "bbb") ∷ [];
  saved_tags = (codes "x:latest", codes "aaa") ∷ (codes "y:1", codes "bbb") ∷ [];
  list_cache = none;
  layers = codes "d1" ∷ codes "d2" ∷ [];
  blobs = codes "b1" ∷ codes "b2" ∷ codes "aaa" ∷ codes "bbb" ∷ [];
}

abbrev empty_store : ImageStore
empty_store = record {
  images = [];
  tags = [];
  saved_tags = [];
  list_cache = none;
  layers = [];
  blobs = [];
}

lookup-All :
    (P : Text × ImageRecord → Type 0) (m : List (Text × ImageRecord)) (k : Text) (r : ImageRecord)
    → All P m
    → lookup k m ≡ some r
    → P (k, r)
unfolding lookup
lookup-All P [] k r a e = cc
lookup-All P ((j, w) ∷ m) k r a e = elim (Bool-cases (same j k)) [
  | inl h ↦
      let here = rw h at e in
      let met : w ≡ r = cc in
      let there : k ≡ j = sym ((same_iff j k).0 h) in rw there (rw met at a.0)
  | inr h ↦ lookup-All P m k r a.1 (rw h at e)
]

contains-All :
    (P : Text → Type 0) (t : Text) (ts : List Text) → All P ts → contains t ts ≡ true → P t
unfolding any
contains-All P t [] a c = cc
contains-All P t (u ∷ ts) a c = elim (Bool-cases (same t u)) [
  | inl h ↦ rw ((same_iff t u).0 h) a.0
  | inr h ↦ contains-All P t ts a.1 (rw h at c)
]

-- The layers and the blobs are there before their records.
abbrev pulled : ImageStore
pulled = record two_images { images = []; tags = []; saved_tags = [] }

pulled-IsStore : IsStore pulled
unfolding lookup
pulled-IsStore = record {
  named = λ k. tt;
  filed = tt;
  agrees = λ t k. refl;
  saved = refl;
  cached = tt;
}

both_put : serve_all (put_request aaa ∷ put_request bbb ∷ []) pulled ≡ two_images
unfolding serve_all serve put_image_merged put_image evict point_tags lookup insert same
both_put = refl

two_images-IsStore : IsStore two_images
unfolding same
two_images-IsStore = rw both_put at (
    serve_all-IsStore (put_request aaa ∷ put_request bbb ∷ []) pulled (refl, (refl, tt))
      pulled-IsStore)

-- The tag `y:1` moves to the other image, and the record that held it loses it.
serve_all-IsStore_example : IsStore (
    serve_all
      (tag_request (codes "aaa") (codes "y:1") ∷ remove_request (codes "aaa") none ∷ restart ∷ [])
      two_images)
serve_all-IsStore_example =
    serve_all-IsStore
      (tag_request (codes "aaa") (codes "y:1") ∷ remove_request (codes "aaa") none ∷ restart ∷ [])
      two_images (tt, (tt, (tt, tt))) two_images-IsStore

moved :
    (lookup (codes "y:1") (tag (codes "aaa") (codes "y:1") two_images).1.tags ≡ some (codes "aaa"))
    × (embeds (tag (codes "aaa") (codes "y:1") two_images).1 (codes "bbb") (codes "y:1") ≡ false)
unfolding tag put_image evict point_tags lookup insert any keep same
moved = (refl, refl)

-- A record that lists a tag which the index has for another image: the tag is not moved, and no error
-- is reported.
abbrev stale : ImageStore
stale = record two_images {
  images =
      (codes "aaa", aaa) ∷ (codes "bbb", record bbb { repo_tags = codes "x:latest" ∷ [] }) ∷ [];
}

tag-stale : tag (codes "bbb") (codes "x:latest") stale ≡ (ok tt, stale)
unfolding tag lookup same any
tag-stale = refl

differ : {a b : Text} → same a b ≡ false → a ≢ b
differ {a = a} {b = b} h q = absurd (ground (arith, (same_iff a b).1 q))

two_images-HasDigests : HasDigests two_images
unfolding trim_digest_prefix strip_prefix lookup any same
two_images-HasDigests = record {
  diffs = λ k r d e c.
      contains-All (IsSpelled layer_dir) d r.diff_ids
        (lookup-All (λ x. All (IsSpelled layer_dir) x.1.diff_ids) two_images.images k r
          ((refl, (refl, tt)), ((refl, tt), tt)) e)
        c;
  blobs = λ k r b e c.
      contains-All (IsSpelled blob_file) b r.layer_blobs
        (lookup-All (λ x. All (IsSpelled blob_file) x.1.layer_blobs) two_images.images k r
          ((refl, tt), ((refl, tt), tt)) e)
        c;
  bare = λ k r e. lookup-All (λ x. blob_file x.0 ≡ x.0) two_images.images k r (refl, (refl, tt)) e;
  apart = λ k j r other b e f c q.
      contains-All (λ x. blob_file x ≢ blob_file j) b r.layer_blobs
        (lookup-All (λ y. All (λ x. blob_file x ≢ blob_file y.0) r.layer_blobs) two_images.images j
          other
          (lookup-All
            (λ z.
              All (λ y. All (λ x. blob_file x ≢ blob_file y.0) z.1.layer_blobs) two_images.images)
            two_images.images k r
            (
              ((differ refl, tt), ((differ refl, tt), tt)),
              (((differ refl, tt), ((differ refl, tt), tt)), tt),
            )
            e)
          f)
        c q;
}

remove_image-Intact_example : Intact bbb two_images (remove_image (codes "aaa") none two_images).1
unfolding remove_image lookup same remove delete_record
remove_image-Intact_example =
    remove_image-Intact two_images (codes "aaa") none two_images-IsStore two_images-HasDigests
      (codes "bbb") bbb refl

remove_image-Swept_example :
    ((remove_image (codes "aaa") none two_images).0 ≡ ok aaa)
    × Swept aaa (remove_image (codes "aaa") none two_images).1
unfolding lookup same
remove_image-Swept_example = remove_image-Swept (codes "aaa") aaa two_images refl

-- The shared layer stays, the other goes.
collected :
    ((remove_image (codes "aaa") none two_images).1.layers ≡ codes "d1" ∷ [])
    × ((remove_image (codes "aaa") none two_images).1.blobs ≡ codes "b2" ∷ codes "bbb" ∷ [])
unfolding remove_image lookup same remove delete_record list_uncached collect any keep
    trim_digest_prefix strip_prefix unpoint_all
collected = (refl, refl)

abbrev replaced : ImageRecord
replaced =
    image (codes "bbb") [] (codes "sha256:d2" ∷ codes "sha256:d1" ∷ []) (codes "sha256:b9" ∷ [])

replaced-IsReplaced : IsReplaced replaced two_images
unfolding trim_digest_prefix strip_prefix lookup any same
replaced-IsReplaced = record {
  diffs = λ d c. contains-All (IsSpelled layer_dir) d replaced.diff_ids (refl, (refl, tt)) c;
  blobs = λ b c. contains-All (IsSpelled blob_file) b replaced.layer_blobs (refl, tt) c;
  apart = λ k b r e c.
      contains-All (λ x. blob_file x ≢ blob_file k) b replaced.layer_blobs
        (lookup-All (λ y. All (λ x. blob_file x ≢ blob_file y.0) replaced.layer_blobs)
          two_images.images k r ((differ refl, tt), ((differ refl, tt), tt)) e)
        c;
}

gc_replaced_layers-Intact_example : Intact aaa two_images (gc_replaced_layers replaced two_images)
unfolding lookup same
gc_replaced_layers-Intact_example =
    gc_replaced_layers-Intact replaced two_images two_images-IsStore two_images-HasDigests
      replaced-IsReplaced (codes "aaa") aaa refl
