-- ===== src/Image/Store.antt =====
-- crates/image/src/store.rs: `ImageStore`, with the directories that it keeps. A method takes the store
-- and returns its result and the new store; the file system calls succeed.
pub mod Index
pub mod Filed
pub mod Put
pub mod Removed
pub mod Collect
pub mod Intact
pub mod Swept
pub mod Requests
pub mod Effective
pub mod Resolve
use ingot_engine.Base.{
  ℕ, zero, suc, ◌+◌, Bool, true, false, not, ◌&&◌, ◌||◌, Option, none, some, List, [], ◌∷◌, ◌++◌,
  map, leb, ltb, ◌==◌, if◌then◌else◌, length, keep, any, all, elem, Outcome, ok, err, panic,
}
use ingot_engine.Base.Maps.{lookup, insert, remove}
use ingot_engine.Base.Text.{
  Text, codes, same, is_empty, starts_with, strip_prefix, rsplit_once, is_ascii_hexdigit,
}
use ingot_engine.Registry.Reference
use ingot_engine.Registry.Reference.{ImageRef, RefError, display_ref_no_tag}

-- The fields that the store carries and never reads.
pub record Described : Type 0 where
  pub created : Text
  pub architecture : Text
  pub os : Text
  pub author : Text
  pub comment : Text
  pub docker_version : Text
  pub chain_ids : List Text

-- The record but for `config`, `history`, `created_unix` and `size`, which the store never reads.
pub record ImageRecord : Type 0 where
  pub id : Text
  pub manifest_digest : Text
  pub repo_tags : List Text
  pub repo_digests : List Text
  pub diff_ids : List Text
  pub layer_blobs : List Text
  pub described : Described

-- `images` are the files images/<id>.json under their ids, in the order of the directory; `saved_tags`
-- is the file tags.json; `layers` and `blobs` are the entries of the two directories. `list_cache` is
-- `none` once it is invalidated.
pub record ImageStore : Type 0 where
  pub images : List (Text × ImageRecord)
  pub tags : List (Text × Text)
  pub saved_tags : List (Text × Text)
  pub list_cache : Option (List ImageRecord)
  pub layers : List Text
  pub blobs : List Text

pub data StoreError : Type 0 where
  no_such_image : Text → StoreError
  bad_reference : RefError → StoreError

-- `contains` on a list of texts.
abbrev pub contains : Text → List Text → Bool
contains t = any (same t)

abbrev pub invalidate_list : ImageStore → ImageStore
invalidate_list s = record s { list_cache = none }

abbrev pub save_tags : ImageStore → ImageStore
save_tags s = record s { saved_tags = s.tags }

abbrev pub write_record : ImageRecord → ImageStore → ImageStore
write_record r s = record s { images = insert r.id r s.images }

abbrev pub load : Text → ImageStore → Option ImageRecord
load id s = lookup id s.images

-- A start of the daemon: the index is read from its file, and the cache is stale.
abbrev pub new : ImageStore → ImageStore
new s = record s { tags = s.saved_tags; list_cache = none }

abbrev pub untagged : Text → ImageRecord → ImageRecord
untagged t r = record r { repo_tags = keep (λ x. not (same x t)) r.repo_tags }

abbrev pub drop_embed : Text → Option ImageRecord → ImageStore → ImageStore
drop_embed t none s = s
drop_embed t (some old) s = if contains t old.repo_tags then write_record (untagged t old) s else s

-- The body of the first loop of `put_image`.
abbrev pub evict_holder : Text → Text → Option Text → ImageStore → ImageStore
evict_holder id t none s = s
evict_holder id t (some prev_id) s = if same prev_id id then s else drop_embed t (load prev_id s) s

unfoldable pub evict : Text → List Text → ImageStore → ImageStore
evict id [] s = s
evict id (t ∷ ts) s = evict id ts (evict_holder id t (lookup t s.tags) s)

-- The second loop.
unfoldable pub point_tags : Text → List Text → List (Text × Text) → List (Text × Text)
point_tags id [] tags = tags
point_tags id (t ∷ ts) tags = point_tags id ts (insert t id tags)

unfoldable pub put_image : ImageRecord → ImageStore → ImageStore
put_image r s =
    let evicted = evict r.id r.repo_tags (write_record r s) in
    let pointed = record evicted { tags = point_tags r.id r.repo_tags evicted.tags } in
    invalidate_list (save_tags pointed)

-- `for t in more { if !texts.contains(&t) { texts.push(t) } }`.
unfoldable pub union : List Text → List Text → List Text
union texts [] = texts
union texts (t ∷ more) = union (if contains t texts then texts else texts ++ t ∷ []) more

abbrev pub merged : ImageRecord → Option ImageRecord → ImageRecord
merged r none = r
merged r (some existing) = record r {
  repo_tags = union r.repo_tags existing.repo_tags;
  repo_digests = union r.repo_digests existing.repo_digests;
  manifest_digest =
      if is_empty r.manifest_digest then existing.manifest_digest else r.manifest_digest;
}

unfoldable pub put_image_merged : ImageRecord → ImageStore → ImageStore
put_image_merged r s = put_image (merged r (load r.id s)) s

abbrev pub tag_loaded :
    Text → Text → Option ImageRecord → ImageStore → Outcome StoreError (Unit {0}) × ImageStore
tag_loaded image_id tag_key none s = (err (no_such_image image_id), s)
tag_loaded image_id tag_key (some r) s =
    if contains tag_key r.repo_tags
    then (ok tt, s)
    else (ok tt, put_image (record r { repo_tags = r.repo_tags ++ tag_key ∷ [] }) s)

unfoldable pub tag : Text → Text → ImageStore → Outcome StoreError (Unit {0}) × ImageStore
tag image_id tag_key s = tag_loaded image_id tag_key (load image_id s) s

abbrev pub values : List (Text × ImageRecord) → List ImageRecord
values = map (λ x. x.1)

-- `tags.json` in the directory is not taken for a record.
unfoldable pub list_uncached : ImageStore → List ImageRecord
list_uncached s = values (keep (λ x. not (same x.0 (codes "tags"))) s.images)

-- `recent`: less than a second has passed since the cache was filled.
abbrev pub list_cached :
    Bool → Option (List ImageRecord) → ImageStore → List ImageRecord × ImageStore
list_cached true (some out) s = (out, s)
list_cached _ _ s = let out = list_uncached s in (out, record s { list_cache = some out })

unfoldable pub list : Bool → ImageStore → List ImageRecord × ImageStore
list recent s = list_cached recent s.list_cache s

abbrev pub names : Text → Option Text → Bool
names id none = false
names id (some held) = same held id

-- The index points the tag at the record.
abbrev pub points : List (Text × Text) → Text → Text → Bool
points tags t id = names id (lookup t tags)

unfoldable pub effective_tags : ImageRecord → ImageStore → List Text
effective_tags r s = keep (λ t. points s.tags t r.id) r.repo_tags

abbrev pub effective : List (Text × Text) → ImageRecord → ImageRecord
effective tags r = record r { repo_tags = keep (λ t. points tags t r.id) r.repo_tags }

unfoldable pub list_effective : Bool → ImageStore → List ImageRecord × ImageStore
list_effective recent s = let (out, after) = list recent s in (map (effective s.tags) out, after)

abbrev digest_prefix : Text
digest_prefix = codes "sha256:"

-- `trim_start_matches("sha256:")`, on fuel.
unfoldable pub trim_digest_prefix : ℕ → Text → Text
trim_digest_prefix zero d = d
trim_digest_prefix (suc n) d = elim (strip_prefix digest_prefix d) [
  | none ↦ d
  | some rest ↦ trim_digest_prefix n rest
]

-- Every round takes seven characters off.
abbrev pub hex_of : Text → Text
hex_of d = trim_digest_prefix (length d) d

-- The entry of layers/ for a diff id.
abbrev pub layer_dir : Text → Text
layer_dir = hex_of

abbrev pub or_self : Text → Option Text → Text
or_self d none = d
or_self d (some hex) = hex

-- `DataPaths::blob`.
abbrev pub blob_file : Text → Text
blob_file d = or_self d (strip_prefix digest_prefix d)

unfoldable pub has_blob : Text → ImageStore → Bool
has_blob digest s = contains (blob_file digest) s.blobs

abbrev pub remove_entry : Text → List Text → List Text
remove_entry name = keep (λ x. not (same x name))

unfoldable pub remove_layer : Text → ImageStore → ImageStore
remove_layer d s = record s { layers = remove_entry (layer_dir d) s.layers }

abbrev pub used_by : (ImageRecord → List Text) → List ImageRecord → Text → Bool
used_by digests remaining d = any (λ r. contains d (digests r)) remaining

-- The loops of `delete_record` and `gc_replaced_layers`: over the diff ids, whose entries are layer
-- directories, and over the layer blobs, whose entries are blob files.
unfoldable pub collect :
    (Text → Text) → (ImageRecord → List Text) → List ImageRecord → List Text → List Text → List Text
collect entry digests remaining [] entries = entries
collect entry digests remaining (d ∷ ds) entries =
    collect entry digests remaining ds
      (if used_by digests remaining d then entries else remove_entry (entry d) entries)

abbrev pub collect_layers : List ImageRecord → List Text → List Text → List Text
collect_layers = collect layer_dir (λ r. r.diff_ids)

abbrev pub collect_blobs : List ImageRecord → List Text → List Text → List Text
collect_blobs = collect blob_file (λ r. r.layer_blobs)

unfoldable pub delete_record : ImageRecord → ImageStore → ImageStore
delete_record r s =
    let removed = record (save_tags s) { images = remove r.id s.images } in
    let remaining = list_uncached removed in
    invalidate_list (record removed {
      layers = collect_layers remaining r.diff_ids removed.layers;
      blobs = remove_entry (blob_file r.id) (collect_blobs remaining r.layer_blobs removed.blobs);
    })

unfoldable pub gc_replaced_layers : ImageRecord → ImageStore → ImageStore
gc_replaced_layers old s =
    let remaining = list_uncached s in
    record s {
      layers = collect_layers remaining old.diff_ids s.layers;
      blobs = collect_blobs remaining old.layer_blobs s.blobs;
    }

-- Only an entry that still names the record is dropped.
abbrev pub unpoint : Text → Text → List (Text × Text) → List (Text × Text)
unpoint id t tags = if points tags t id then remove t tags else tags

unfoldable pub unpoint_all : Text → List Text → List (Text × Text) → List (Text × Text)
unpoint_all id [] tags = tags
unpoint_all id (t ∷ ts) tags = unpoint_all id ts (unpoint id t tags)

abbrev pub remove_loaded :
    Text
    → Option Text
    → Option ImageRecord
    → ImageStore
    → Outcome StoreError ImageRecord × ImageStore
remove_loaded image_id tag_key none s = (err (no_such_image image_id), s)
remove_loaded image_id none (some r) s = (
  ok r,
  invalidate_list (delete_record r (record s { tags = unpoint_all r.id r.repo_tags s.tags })),
)
remove_loaded image_id (some t) (some r) s =
    let left = untagged t r in
    let unpointed = record s { tags = unpoint r.id t s.tags } in
    (
      ok left,
      invalidate_list (
          if length left.repo_tags == 0
          then delete_record left unpointed
          else save_tags (write_record left unpointed)),
    )

unfoldable pub remove_image :
    Text → Option Text → ImageStore → Outcome StoreError ImageRecord × ImageStore
remove_image image_id tag_key s = remove_loaded image_id tag_key (load image_id s) s

-- `str::len`: the bytes of the UTF-8 encoding.
unfoldable pub byte_length : Text → ℕ
byte_length [] = 0
byte_length (c ∷ s) =
    let rest = byte_length s in
    rest + (if ltb c 128 then 1 else if ltb c 2048 then 2 else if ltb c 65536 then 3 else 4)

unfoldable pub find_by_prefix : Text → List (Text × ImageRecord) → Option Text
find_by_prefix prefix [] = none
find_by_prefix prefix ((id, r) ∷ m) =
    let rest = find_by_prefix prefix m in if starts_with prefix id then some id else rest

abbrev present : Text → Option ImageRecord → Option Text
present hex none = none
present hex (some r) = some hex

unfoldable pub resolve_id : Text → ImageStore → Option Text
resolve_id name s =
    let hex = hex_of name in
    if (starts_with digest_prefix name || all is_ascii_hexdigit name) && leb 12 (byte_length hex)
    then if byte_length hex == 64 then present hex (load hex s) else find_by_prefix hex s.images
    else none

unfoldable pub find_by_digest : Text → List ImageRecord → Option Text
find_by_digest want [] = none
find_by_digest want (r ∷ rs) =
    let rest = find_by_digest want rs in if contains want r.repo_digests then some r.id else rest

abbrev pub found : Text → Option Text → Outcome StoreError Text
found name none = err (no_such_image name)
found name (some id) = ok id

-- `repo:tag`, with `latest` where there is no tag; a `:` before a `/` belongs to the host.
unfoldable pub name_key : Text → Option (Text × Text) → Text
name_key name none = name ++ codes ":latest"
name_key name (some (r, t)) = if elem b'/' t then name ++ codes ":latest" else r ++ b':' ∷ t

unfoldable pub resolve_tag : Text → ImageStore → Outcome StoreError Text × ImageStore
resolve_tag name s = (found name (lookup (name_key name (rsplit_once b':' name)) s.tags), s)

abbrev pub resolve_probe :
    Bool → Text → Text → Option Text → ImageStore → Outcome StoreError Text × ImageStore
resolve_probe recent name repo none s = resolve_tag name s
resolve_probe recent name repo (some pinned) s =
    let (records, listed) = list recent s in
    (found name (find_by_digest (repo ++ b'@' ∷ pinned) records), listed)

abbrev pub resolve_digest :
    Bool → Text → Outcome RefError ImageRef → ImageStore → Outcome StoreError Text × ImageStore
resolve_digest recent name (err e) s = (err (bad_reference e), s)
resolve_digest recent name panic s = (panic, s)
resolve_digest recent name (ok probe) s =
    resolve_probe recent name (display_ref_no_tag probe) probe.digest s

-- By the digest or the tag, where there is no such id.
abbrev pub or_name : Bool → Text → Option Text → ImageStore → Outcome StoreError Text × ImageStore
or_name recent name (some id) s = (ok id, s)
or_name recent name none s =
    if elem b'@' name
    then resolve_digest recent name (Reference.parse name) s
    else resolve_tag name s

unfoldable pub resolve : Bool → Text → ImageStore → Outcome StoreError Text × ImageStore
resolve recent name s = or_name recent name (resolve_id name s) s
