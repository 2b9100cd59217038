-- ===== src/Image/Store/Collect.antt =====
-- Garbage collection of layers and blobs: what a record that stays refers to is never removed, and what
-- no record refers to is.
use ingot_engine.Base.{
  ◌≡◌, ◌≢◌, ◌∙◌, refl, sym, ap, Bool, true, false, not, ◌&&◌, some, List, [], ◌∷◌, ◌++◌, keep, any,
  arith, Bool-cases, inl, inr,
}
use ingot_engine.Base.Maps.{lookup}
use ingot_engine.Base.Text.{Text, same, same_iff, same_self}
use ingot_engine.Image.Store.{
  ImageRecord, ImageStore, contains, load, digest_prefix, layer_dir, blob_file, collect,
  collect_layers, collect_blobs, used_by, remove_entry, values, list_uncached, delete_record,
}
use ingot_engine.Image.Store.Index.{IsNamed, hidden_id, contains-keep}

module _ (entry : Text → Text) (digests : ImageRecord → List Text)
    (remaining : List ImageRecord) where
  -- The entry `x` is one that the loop over `ds` takes away.
  abbrev dropped : List Text → Text → Bool
  dropped ds x = any (λ d. same (entry d) x && not (used_by digests remaining d)) ds

  pub contains-collect :
      (ds entries : List Text) (x : Text)
      → contains x (collect entry digests remaining ds entries)
        ≡ (contains x entries && not (dropped ds x))
  unfolding collect any
  contains-collect [] entries x = ground arith
  contains-collect (d ∷ ds) entries x = elim (Bool-cases (used_by digests remaining d)) [
    | inl h ↦ rw (h, collect) (contains-collect ds entries x ∙ ground arith)
    | inr h ↦
        rw (h, collect)
          (contains-collect ds (remove_entry (entry d) entries) x
            ∙ ground (
              arith,
              contains-keep x (λ y. not (same y (entry d))) entries,
              same_iff x (entry d),
              same_iff (entry d) x,
            ))
  ]

  -- No two of the digests share an entry, as far as the loop can tell.
  dropped-used :
      (ds : List Text) (d : Text)
      → used_by digests remaining d ≡ true
      → ((e : Text) → contains e ds ≡ true → entry e ≡ entry d → e ≡ d)
      → dropped ds (entry d) ≡ false
  unfolding any
  dropped-used [] d u same_entry = refl
  dropped-used (e ∷ ds) d u same_entry =
      let rest = dropped-used ds d u (λ f c. same_entry f (ground arith)) in
      elim (Bool-cases (same (entry e) (entry d))) [
        | inl h ↦
            let met = same_entry e (rw same_self refl) ((same_iff (entry e) (entry d)).0 h) in
            rw met (rw u (ground arith))
        | inr h ↦ rw h rest
      ]

  pub dropped-other :
      (ds : List Text) (x : Text)
      → ((e : Text) → contains e ds ≡ true → entry e ≢ x)
      → dropped ds x ≡ false
  unfolding any
  dropped-other [] x other = refl
  dropped-other (e ∷ ds) x other =
      let rest = dropped-other ds x (λ f c. other f (ground arith)) in
      let differs = other e (rw same_self refl) in ground (arith, same_iff (entry e) x)

  pub dropped-unused :
      (ds : List Text) (d : Text)
      → used_by digests remaining d ≡ false
      → contains d ds ≡ true
      → dropped ds (entry d) ≡ true
  unfolding any
  dropped-unused [] d u c = absurd (ground arith)
  dropped-unused (e ∷ ds) d u c =
      ground (arith, same_iff d e, same_self (entry d), dropped-unused ds d u)

-- `sha256:` and the name of the entry.
abbrev pub IsSpelled : (Text → Text) → Text → Type 0
IsSpelled entry d = d ≡ digest_prefix ++ entry d

-- Every digest that a record of the store holds is spelled out; an id is a bare one; no layer's blob is
-- an image's configuration.
pub record HasDigests (s : ImageStore) : Type 0 where
  pub diffs :
      (k : Text) (r : ImageRecord) (d : Text)
      → load k s ≡ some r
      → contains d r.diff_ids ≡ true
      → IsSpelled layer_dir d
  pub blobs :
      (k : Text) (r : ImageRecord) (b : Text)
      → load k s ≡ some r
      → contains b r.layer_blobs ≡ true
      → IsSpelled blob_file b
  pub bare : (k : Text) (r : ImageRecord) → load k s ≡ some r → blob_file k ≡ k
  pub apart :
      (k j : Text) (r other : ImageRecord) (b : Text)
      → load k s ≡ some r
      → load j s ≡ some other
      → contains b r.layer_blobs ≡ true
      → blob_file b ≢ blob_file j

-- Of what the record refers to, nothing came or went.
pub record Intact (r : ImageRecord) (before after : ImageStore) : Type 0 where
  pub layers :
      (d : Text)
      → contains d r.diff_ids ≡ true
      → contains (layer_dir d) after.layers ≡ contains (layer_dir d) before.layers
  pub blobs :
      (b : Text)
      → contains b r.layer_blobs ≡ true
      → contains (blob_file b) after.blobs ≡ contains (blob_file b) before.blobs
  pub config : contains (blob_file r.id) after.blobs ≡ contains (blob_file r.id) before.blobs

any-values :
    (p : ImageRecord → Bool) (k : Text) (r : ImageRecord) (m : List (Text × ImageRecord))
    → lookup k m ≡ some r
    → same k hidden_id ≡ false
    → p r ≡ true
    → any p (values (keep (λ x. not (same x.0 hidden_id)) m)) ≡ true
unfolding any keep lookup
any-values p k r [] e h q = cc
any-values p k r ((j, w) ∷ m) e h q = elim (Bool-cases (same j k)) [
  | inl g ↦
      let here = rw g at e in
      let met : w ≡ r = cc in rw ((same_iff j k).0 g, h) (ground (arith, ap p met))
  | inr g ↦
      let later = any-values p k r m (rw g at e) h q in
      elim (Bool-cases (same j hidden_id)) [ inl f ↦ rw f later | inr f ↦ rw f (ground arith) ]
]

pub collect-kept :
    (entry : Text → Text) (digests : ImageRecord → List Text) (remaining : List ImageRecord)
    (ds entries : List Text) (d : Text)
    → used_by digests remaining d ≡ true
    → IsSpelled entry d
    → ((e : Text) → contains e ds ≡ true → IsSpelled entry e)
    → contains (entry d) (collect entry digests remaining ds entries) ≡ contains (entry d) entries
collect-kept entry digests remaining ds entries d u spelled all_spelled =
    let kept =
      dropped-used entry digests remaining ds d u
        (λ e c meet. all_spelled e c ∙ ap (λ x. digest_prefix ++ x) meet ∙ sym spelled) in
    contains-collect entry digests remaining ds entries (entry d) ∙ ground arith

pub used_by-list_uncached :
    (digests : ImageRecord → List Text) (s : ImageStore) (k : Text) (r : ImageRecord) (d : Text)
    → IsNamed k (load k s)
    → load k s ≡ some r
    → contains d (digests r) ≡ true
    → used_by digests (list_uncached s) d ≡ true
unfolding list_uncached
used_by-list_uncached digests s k r d named e c =
    let n : IsNamed k (some r) = rw e at named in
    any-values (λ x. contains d (digests x)) k r s.images e (rw n.0 at n.1) c

module _ (r : ImageRecord) (s : ImageStore) where
  pub delete_record-layers :
      (delete_record r s).layers
      ≡ collect_layers (list_uncached (delete_record r s)) r.diff_ids s.layers
  unfolding delete_record list_uncached
  delete_record-layers = refl

  pub delete_record-blobs :
      (delete_record r s).blobs
      ≡ remove_entry
          (blob_file r.id)
          (collect_blobs (list_uncached (delete_record r s)) r.layer_blobs s.blobs)
  unfolding delete_record list_uncached
  delete_record-blobs = refl
