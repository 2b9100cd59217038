-- ===== src/Image/Store/Index.antt =====
-- The tag lists and the tag index of the image store: what each change does to them, as equations.
use ingot_engine.Base.{
  ◌≡◌, ◌∙◌, refl, sym, ap, Bool, false, not, ◌&&◌, ◌||◌, Option, none, some, List, [], ◌∷◌, ◌++◌,
  if◌then◌else◌, keep, any, arith, Bool-cases, inl, inr,
}
use ingot_engine.Base.Maps.{lookup, insert, lookup-insert, lookup-remove}
use ingot_engine.Base.Text.{Text, codes, same, same_iff, same_self}
use ingot_engine.Image.Store.{
  ImageRecord, ImageStore, contains, load, write_record, untagged, drop_embed, evict_holder, evict,
  point_tags, union, names, points, unpoint, unpoint_all,
}

pub contains-append :
    (t : Text) (xs ys : List Text) → contains t (xs ++ ys) ≡ (contains t xs || contains t ys)
unfolding any
contains-append t [] ys = refl
contains-append t (x ∷ xs) ys = ground (arith, contains-append t xs ys)

pub contains-keep :
    (t : Text) (p : Text → Bool) (xs : List Text) → contains t (keep p xs) ≡ (contains t xs && p t)
unfolding any keep
contains-keep t p [] = refl
contains-keep t p (x ∷ xs) = ground (arith, contains-keep t p xs, same_iff t x, ap p)

pub contains-union :
    (t : Text) (xs ys : List Text) → contains t (union xs ys) ≡ (contains t xs || contains t ys)
unfolding union any
contains-union t xs [] = ground arith
contains-union t xs (y ∷ ys) = elim (Bool-cases (contains y xs)) [
  | inl h ↦ rw (h, union) (contains-union t xs ys ∙ ground (arith, same_iff t y))
  | inr h ↦
      rw (h, union)
        (contains-union t (xs ++ y ∷ []) ys ∙ ground (arith, contains-append t xs (y ∷ [])))
]

pub lookup-point_tags :
    (id : Text) (ts : List Text) (t : Text) (tags : List (Text × Text))
    → lookup t (point_tags id ts tags) ≡ (if contains t ts then some id else lookup t tags)
unfolding point_tags any
lookup-point_tags id [] t tags = refl
lookup-point_tags id (u ∷ ts) t tags =
    lookup-point_tags id ts t (insert u id tags)
    ∙ ground (arith, lookup-insert u t id tags, same_iff u t, same_iff t u)

pub points-insert :
    (t u id k : Text) (tags : List (Text × Text))
    → points (insert u id tags) t k ≡ (if same u t then same id k else points tags t k)
points-insert t u id k tags = rw lookup-insert (ground arith)

pub lookup-unpoint :
    (id t u : Text) (tags : List (Text × Text))
    → lookup u (unpoint id t tags) ≡ (if same t u && points tags t id then none else lookup u tags)
lookup-unpoint id t u tags = ground (arith, lookup-remove t u tags)

pub lookup-unpoint_all :
    (id : Text) (ts : List Text) (u : Text) (tags : List (Text × Text))
    → lookup u (unpoint_all id ts tags)
      ≡ (if contains u ts && points tags u id then none else lookup u tags)
unfolding unpoint_all any
lookup-unpoint_all id [] u tags = refl
lookup-unpoint_all id (t ∷ ts) u tags =
    lookup-unpoint_all id ts u (unpoint id t tags)
    ∙ ground (arith, lookup-unpoint id t u tags, same_iff t u, same_iff u t)

-- The tag stands in the record, if there is one.
abbrev pub embeds_in : Option ImageRecord → Text → Bool
embeds_in none t = false
embeds_in (some r) t = contains t r.repo_tags

abbrev pub embeds : ImageStore → Text → Text → Bool
embeds s id t = embeds_in (load id s) t

-- The id under which `list_uncached` takes no file for a record.
abbrev pub hidden_id : Text
hidden_id = codes "tags"

-- A file's record carries the file's id, and `list_uncached` finds the file.
abbrev pub IsNamed : Text → Option ImageRecord → Type 0
IsNamed id none = Unit
IsNamed id (some r) = (r.id ≡ id) × (same r.id hidden_id ≡ false)

pub load-write_record :
    (r : ImageRecord) (s : ImageStore) (k : Text)
    → load k (write_record r s) ≡ (if same r.id k then some r else load k s)
load-write_record r s k = lookup-insert r.id k r s.images

pub write_record-IsNamed :
    (r : ImageRecord) (s : ImageStore) (k : Text)
    → same r.id hidden_id ≡ false
    → IsNamed k (load k s)
    → IsNamed k (load k (write_record r s))
write_record-IsNamed r s k shown named = rw load-write_record (elim (Bool-cases (same r.id k)) [
  | inl h ↦ rw h ((same_iff r.id k).0 h, shown)
  | inr h ↦ rw h named
])

-- Under the name of a loaded record, `drop_embed` takes the tag out and leaves the rest.
pub embeds-drop_embed :
    (t prev k u : Text) (s : ImageStore) (o : Option ImageRecord)
    → load prev s ≡ o
    → IsNamed prev o
    → embeds (drop_embed t o s) k u ≡ (embeds s k u && not (same prev k && same u t))
embeds-drop_embed t prev k u s none e named = elim (Bool-cases (same prev k)) [
  | inl p ↦ rw (sym ((same_iff prev k).0 p), e) (ground arith)
  | inr p ↦ rw p (ground arith)
]
embeds-drop_embed t prev k u s (some old) e named = elim (Bool-cases (same prev k)) [
  | inl p ↦
      rw (sym ((same_iff prev k).0 p), e, same_self)
        (elim (Bool-cases (contains t old.repo_tags)) [
          | inl h ↦
              rw (h, load-write_record, named.0, same_self)
                (contains-keep u (λ x. not (same x t)) old.repo_tags)
          | inr h ↦ rw (h, e) (ground (arith, same_iff u t))
        ])
  | inr p ↦ rw p (elim (Bool-cases (contains t old.repo_tags)) [
    | inl h ↦ rw (h, load-write_record, named.0, p) (ground arith)
    | inr h ↦ rw h (ground arith)
  ])
]

pub drop_embed-IsNamed :
    (t prev k : Text) (s : ImageStore) (o : Option ImageRecord)
    → IsNamed prev o
    → IsNamed k (load k s)
    → IsNamed k (load k (drop_embed t o s))
drop_embed-IsNamed t prev k s none held named = named
drop_embed-IsNamed t prev k s (some old) held named = elim (Bool-cases (contains t old.repo_tags)) [
  | inl h ↦ rw h (write_record-IsNamed (untagged t old) s k held.1 named)
  | inr h ↦ rw h named
]

-- The holder of a tag that moves, another record than the new one, loses the tag.
pub embeds-evict_holder :
    (id t k u : Text) (s : ImageStore) (o : Option Text)
    → ((j : Text) → IsNamed j (load j s))
    → embeds (evict_holder id t o s) k u
      ≡ (embeds s k u && not (same u t && (names k o && not (same k id))))
embeds-evict_holder id t k u s none named = ground arith
embeds-evict_holder id t k u s (some prev) named = elim (Bool-cases (same prev id)) [
  | inl p ↦ rw p (ground (arith, same_iff prev id, same_iff prev k, same_iff k id))
  | inr p ↦ rw p (
      embeds-drop_embed t prev k u s (load prev s) refl (named prev)
      ∙ ground (arith, same_iff prev id, same_iff prev k, same_iff k id))
]

pub evict_holder-IsNamed :
    (id t : Text) (s : ImageStore) (o : Option Text)
    → ((j : Text) → IsNamed j (load j s))
    → (k : Text) → IsNamed k (load k (evict_holder id t o s))
evict_holder-IsNamed id t s none named k = named k
evict_holder-IsNamed id t s (some prev) named k = elim (Bool-cases (same prev id)) [
  | inl p ↦ rw p (named k)
  | inr p ↦ rw p (drop_embed-IsNamed t prev k s (load prev s) (named prev) (named k))
]

-- Only the files of the images change.
pub drop_embed-images :
    (t : Text) (s : ImageStore) (o : Option ImageRecord)
    → drop_embed t o s ≡ record s { images = (drop_embed t o s).images }
drop_embed-images t s none = refl
drop_embed-images t s (some old) = elim (Bool-cases (contains t old.repo_tags)) [
  | inl h ↦ rw h refl
  | inr h ↦ rw h refl
]

pub evict_holder-images :
    (id t : Text) (s : ImageStore) (o : Option Text)
    → evict_holder id t o s ≡ record s { images = (evict_holder id t o s).images }
evict_holder-images id t s none = refl
evict_holder-images id t s (some prev) = elim (Bool-cases (same prev id)) [
  | inl p ↦ rw p refl
  | inr p ↦ rw p (drop_embed-images t s (load prev s))
]

pub evict-images :
    (id : Text) (ts : List Text) (s : ImageStore)
    → evict id ts s ≡ record s { images = (evict id ts s).images }
unfolding evict
evict-images id [] s = refl
evict-images id (t ∷ ts) s =
    let next = evict_holder id t (lookup t s.tags) s in
    evict-images id ts next
    ∙ ap {A = ImageStore} (λ x. record x { images = (evict id ts next).images })
        (evict_holder-images id t s (lookup t s.tags))

pub evict-IsNamed :
    (id : Text) (ts : List Text) (s : ImageStore)
    → ((j : Text) → IsNamed j (load j s))
    → (k : Text) → IsNamed k (load k (evict id ts s))
unfolding evict
evict-IsNamed id [] s named = named
evict-IsNamed id (t ∷ ts) s named =
    evict-IsNamed id ts (evict_holder id t (lookup t s.tags) s)
      (evict_holder-IsNamed id t s (lookup t s.tags) named)

-- After the first loop of `put_image`, no other record embeds a tag of the new one that was its own.
pub embeds-evict :
    (id : Text) (ts : List Text) (k u : Text) (s : ImageStore)
    → ((j : Text) → IsNamed j (load j s))
    → embeds (evict id ts s) k u
      ≡ (embeds s k u && not (contains u ts && (points s.tags u k && not (same k id))))
unfolding evict any
embeds-evict id [] k u s named = ground arith
embeds-evict id (t ∷ ts) k u s named =
    let next = evict_holder id t (lookup t s.tags) s in
    let kept = ap (λ x. x.tags) (evict_holder-images id t s (lookup t s.tags)) in
    embeds-evict id ts k u next (evict_holder-IsNamed id t s (lookup t s.tags) named)
    ∙ rw (kept, embeds-evict_holder id t k u s (lookup t s.tags) named)
        (ground (arith, same_iff u t))
