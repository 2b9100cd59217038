-- ===== src/Image/Store/Filed.antt =====
-- Every file of images/, whichever a listing meets first, holds a record under its own id.
use ingot_engine.Base.{◌≡◌, refl, sym, Option, none, some, List, [], ◌∷◌, Bool-cases, inl, inr, All}
use ingot_engine.Base.Maps.{lookup, insert, remove}
use ingot_engine.Base.Text.{Text, same, same_iff}
use ingot_engine.Image.Store.{
  ImageRecord, ImageStore, contains, load, write_record, untagged, drop_embed, evict_holder, evict,
  put_image, delete_record,
}

abbrev pub IsFiled : List (Text × ImageRecord) → Type 0
IsFiled = All (λ x. x.1.id ≡ x.0)

insert-IsFiled :
    (r : ImageRecord) (m : List (Text × ImageRecord)) → IsFiled m → IsFiled (insert r.id r m)
unfolding insert
insert-IsFiled r [] f = (refl, tt)
insert-IsFiled r ((j, w) ∷ m) f = elim (Bool-cases (same j r.id)) [
  | inl h ↦ rw h (sym ((same_iff j r.id).0 h), f.1)
  | inr h ↦ rw h (f.0, insert-IsFiled r m f.1)
]

remove-IsFiled : (k : Text) (m : List (Text × ImageRecord)) → IsFiled m → IsFiled (remove k m)
unfolding remove
remove-IsFiled k [] f = tt
remove-IsFiled k ((j, w) ∷ m) f = elim (Bool-cases (same j k)) [
  | inl h ↦ rw h (remove-IsFiled k m f.1)
  | inr h ↦ rw h (f.0, remove-IsFiled k m f.1)
]

drop_embed-IsFiled :
    (t : Text) (o : Option ImageRecord) (s : ImageStore)
    → IsFiled s.images
    → IsFiled (drop_embed t o s).images
drop_embed-IsFiled t none s f = f
drop_embed-IsFiled t (some old) s f = elim (Bool-cases (contains t old.repo_tags)) [
  | inl h ↦ rw h (insert-IsFiled (untagged t old) s.images f)
  | inr h ↦ rw h f
]

evict_holder-IsFiled :
    (id t : Text) (o : Option Text) (s : ImageStore)
    → IsFiled s.images
    → IsFiled (evict_holder id t o s).images
evict_holder-IsFiled id t none s f = f
evict_holder-IsFiled id t (some prev) s f = elim (Bool-cases (same prev id)) [
  | inl h ↦ rw h f
  | inr h ↦ rw h (drop_embed-IsFiled t (load prev s) s f)
]

evict-IsFiled :
    (id : Text) (ts : List Text) (s : ImageStore)
    → IsFiled s.images
    → IsFiled (evict id ts s).images
unfolding evict
evict-IsFiled id [] s f = f
evict-IsFiled id (t ∷ ts) s f =
    evict-IsFiled id ts (evict_holder id t (lookup t s.tags) s)
      (evict_holder-IsFiled id t (lookup t s.tags) s f)

pub put_image-IsFiled :
    (r : ImageRecord) (s : ImageStore) → IsFiled s.images → IsFiled (put_image r s).images
unfolding put_image
put_image-IsFiled r s f =
    evict-IsFiled r.id r.repo_tags (write_record r s) (insert-IsFiled r s.images f)

pub write_record-IsFiled :
    (r : ImageRecord) (s : ImageStore) → IsFiled s.images → IsFiled (write_record r s).images
write_record-IsFiled r s = insert-IsFiled r s.images

pub delete_record-IsFiled :
    (r : ImageRecord) (s : ImageStore) → IsFiled s.images → IsFiled (delete_record r s).images
unfolding delete_record
delete_record-IsFiled r s = remove-IsFiled r.id s.images
