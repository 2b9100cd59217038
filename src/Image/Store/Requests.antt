-- ===== src/Image/Store/Requests.antt =====
-- Runs of the image store: whatever is asked of it, the tag index and the records stay in agreement.
use ingot_engine.Base.{◌≡◌, refl, Bool, true, false, Option, none, some, List, [], ◌∷◌}
use ingot_engine.Base.Text.{Text, same}
use ingot_engine.Image.Store.{
  ImageRecord, ImageStore, put_image_merged, tag, remove_image, gc_replaced_layers, list,
  list_cached, list_uncached, new,
}
use ingot_engine.Image.Store.Index.{hidden_id}
use ingot_engine.Image.Store.Put.{IsStore, put_image_merged-IsStore, tag-IsStore}
use ingot_engine.Image.Store.Removed.{remove_image-IsStore}

-- The calls that the daemon makes; `restart` is a start on the same directories.
pub data Request : Type 0 where
  put_request : ImageRecord → Request
  tag_request : Text → Text → Request
  remove_request : Text → Option Text → Request
  collect_request : ImageRecord → Request
  list_request : Bool → Request
  restart : Request

unfoldable pub serve : Request → ImageStore → ImageStore
serve (put_request r) s = put_image_merged r s
serve (tag_request id t) s = (tag id t s).1
serve (remove_request id t) s = (remove_image id t s).1
serve (collect_request old) s = gc_replaced_layers old s
serve (list_request recent) s = (list recent s).1
serve restart s = new s

unfoldable pub serve_all : List Request → ImageStore → ImageStore
serve_all [] s = s
serve_all (q ∷ qs) s = serve_all qs (serve q s)

-- The id of what is put is not the one whose file is skipped.
abbrev pub IsServable : Request → Type 0
IsServable (put_request r) = same r.id hidden_id ≡ false
IsServable _ = Unit

abbrev pub AreServable : List Request → Type 0
AreServable [] = Unit
AreServable (q ∷ qs) = IsServable q × AreServable qs

gc_replaced_layers-IsStore :
    (old : ImageRecord) (s : ImageStore) → IsStore s → IsStore (gc_replaced_layers old s)
unfolding gc_replaced_layers list_uncached
gc_replaced_layers-IsStore old s v = record {
  named = v.named;
  filed = v.filed;
  agrees = v.agrees;
  saved = v.saved;
  cached = v.cached;
}

scanned-IsStore :
    (s : ImageStore) → IsStore s → IsStore (record s { list_cache = some (list_uncached s) })
unfolding list_uncached
scanned-IsStore s v = record {
  named = v.named;
  filed = v.filed;
  agrees = v.agrees;
  saved = v.saved;
  cached = refl;
}

list_cached-IsStore :
    (recent : Bool) (o : Option (List ImageRecord)) (s : ImageStore)
    → IsStore s
    → IsStore (list_cached recent o s).1
list_cached-IsStore true (some out) s v = v
list_cached-IsStore true none s v = scanned-IsStore s v
list_cached-IsStore false o s v = scanned-IsStore s v

new-IsStore : (s : ImageStore) → IsStore s → IsStore (new s)
new-IsStore s v = record {
  named = v.named;
  filed = v.filed;
  agrees = λ t k. rw v.saved (v.agrees t k);
  saved = refl;
  cached = tt;
}

serve-IsStore : (q : Request) (s : ImageStore) → IsServable q → IsStore s → IsStore (serve q s)
unfolding serve list
serve-IsStore (put_request r) s h v = put_image_merged-IsStore r s v h
serve-IsStore (tag_request id t) s h v = tag-IsStore id t s v
serve-IsStore (remove_request id t) s h v = remove_image-IsStore id t s v
serve-IsStore (collect_request old) s h v = gc_replaced_layers-IsStore old s v
serve-IsStore (list_request recent) s h v = list_cached-IsStore recent s.list_cache s v
serve-IsStore restart s h v = new-IsStore s v

-- From a store in which the index and the records' own tag lists agree, any run of puts, tags, untags,
-- removals, collections, listings and restarts leads to one in which they agree: the index points a
-- tag at an image exactly when that image's record lists the tag, the index file holds the index, and
-- what is cached is what a scan of the directory finds.
pub serve_all-IsStore :
    (qs : List Request) (s : ImageStore) → AreServable qs → IsStore s → IsStore (serve_all qs s)
unfolding serve_all
serve_all-IsStore [] s h v = v
serve_all-IsStore (q ∷ qs) s h v = serve_all-IsStore qs (serve q s) h.1 (serve-IsStore q s h.0 v)
