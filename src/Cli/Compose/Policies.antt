-- ===== src/Cli/Compose/Policies.antt =====
-- Profiles, the conditions of dependencies, and the mounts of secrets.
use ingot_engine.Base.{
  ◌≡◌, ◌≢◌, elem, ◌∙◌, refl, sym, ap, ◌≤◌, Bool, true, false, not, ◌&&◌, ◌||◌, Option, none, some,
  List, [], ◌∷◌, ◌++◌, map, if◌then◌else◌, any, arith, Bool-cases, inl, inr, ok, bind-eq-ok,
  bail_if-eq-ok, ok-injective,
}
use mathlib.Core.Path.{subst}
use ingot_engine.Base.Json.{Value}
use ingot_engine.Base.Maps.{lookup}
use ingot_engine.Base.Text.{Text, codes, same, same_iff, is_empty, split, trim}
use ingot_engine.Base.Text.Split.{any-append}
use ingot_engine.Cli.Compose.{
  contains, push_profiles, push_all, of_env, active_profiles_from, DependsOnSpec, list_deps,
  map_deps, to_vec, DepCondition, started, condition_of, conditions_of, dependency_conditions, sort,
  SecretRef, ComposeSecretConfig, source_of, target_of, absolute, bad_name, with_file, with_entry,
  why, credential_mount, credential_mounts,
}
use ingot_engine.Cli.Compose.Order.Count.{count, count-append, count-sort, contains-count}

-- The profile is one of the pieces of the text.
abbrev pub names_profile : Text → Text → Bool
names_profile p raw = any (λ piece. same p (trim piece)) (split b',' raw)

push_profiles-contains :
    (p : Text) (raws out : List Text)
    → contains p (push_profiles raws out)
      ≡ (contains p out || (not (is_empty p) && any (λ piece. same p (trim piece)) raws))
unfolding push_profiles any
push_profiles-contains p [] out = ground arith
push_profiles-contains p (raw ∷ raws) out =
    elim (Bool-cases (not (is_empty (trim raw)) && not (contains (trim raw) out))) [
      | inl h ↦
          rw (h, push_profiles)
            (push_profiles-contains p raws (out ++ trim raw ∷ [])
              ∙ ground (arith, any-append (same p) out (trim raw ∷ []), same_iff p (trim raw)))
      | inr h ↦
          rw (h, push_profiles)
            (push_profiles-contains p raws out ∙ ground (arith, same_iff p (trim raw)))
    ]

push_all-contains :
    (p : Text) (raws out : List Text)
    → contains p (push_all raws out)
      ≡ (contains p out || (not (is_empty p) && any (names_profile p) raws))
unfolding push_all any
push_all-contains p [] out = ground arith
push_all-contains p (raw ∷ raws) out =
    push_all-contains p raws (push_profiles (split b',' raw) out)
    ∙ ground (arith, push_profiles-contains p (split b',' raw) out)

push_profiles-once :
    (raws out : List Text)
    → ((p : Text) → count p out ≤ 1)
    → (p : Text) → count p (push_profiles raws out) ≤ 1
unfolding push_profiles
push_profiles-once [] out h = h
push_profiles-once (raw ∷ raws) out h =
    elim (Bool-cases (not (is_empty (trim raw)) && not (contains (trim raw) out))) [
      | inl e ↦
          rw (e, push_profiles)
            (push_profiles-once raws (out ++ trim raw ∷ []) (λ p. ground (
              arith,
              h p,
              count-append p out (trim raw ∷ []),
              same_iff p (trim raw),
              contains-count p out,
            )))
      | inr e ↦ rw (e, push_profiles) (push_profiles-once raws out h)
    ]

push_all-once :
    (raws out : List Text)
    → ((p : Text) → count p out ≤ 1)
    → (p : Text) → count p (push_all raws out) ≤ 1
unfolding push_all
push_all-once [] out h = h
push_all-once (raw ∷ raws) out h =
    push_all-once raws (push_profiles (split b',' raw) out)
      (push_profiles-once (split b',' raw) out h)

-- A profile is active exactly when it is not empty and a piece between commas of a flag or of the
-- environment variable is its name, spaces aside; and none is listed twice.
pub active_profiles_from_lem :
    (cli : List Text) (env : Option Text) (p : Text)
    → (contains p (active_profiles_from cli env)
        ≡ (not (is_empty p) && (any (names_profile p) cli || any (names_profile p) (of_env env))))
      × (count p (active_profiles_from cli env) ≤ 1)
unfolding active_profiles_from any
active_profiles_from_lem cli env p =
    let first = push_all cli [] in
    (
      push_all-contains p (of_env env) first ∙ ground (arith, push_all-contains p cli []),
      push_all-once (of_env env) first (push_all-once cli [] (λ q. omega arith)) p,
    )

-- The names with a condition.
abbrev pub named : List (Text × DepCondition) → List Text
named = map (λ x. x.0)

conditions_of-names :
    (names : List Text) (m : List (Text × Value)) (out : List (Text × DepCondition))
    → conditions_of names m ≡ ok out
    → named out ≡ names
unfolding conditions_of
conditions_of-names [] m out e = sym (ap named (ok-injective e))
conditions_of-names (n ∷ names) m out e =
    let (cond, e1, f1) = bind-eq-ok _ (condition_of n _) out e in
    let (rest, e2, f2) = bind-eq-ok _ (conditions_of names m) out e1 in
    sym (ap named (ok-injective e2)) ∙ ap (λ ns. n ∷ ns) (conditions_of-names names m rest f2)

map-started : (names : List Text) → named (map (λ n. (n, started)) names) ≡ names
map-started [] = refl
map-started (n ∷ names) = ap (λ ns. n ∷ ns) (map-started names)

-- Where the conditions are read, every dependency has one, as often as it is named, and nothing else.
pub dependency_conditions-count :
    (spec : DependsOnSpec) (out : List (Text × DepCondition)) (n : Text)
    → dependency_conditions (some spec) ≡ ok out
    → count n (named out) ≡ count n (to_vec spec)
unfolding dependency_conditions
dependency_conditions-count (list_deps names) out n e =
    ap (λ o. count n (named o)) (sym (ok-injective e)) ∙ ap (count n) (map-started names)
dependency_conditions-count (map_deps m) out n e =
    ap (count n) (conditions_of-names (sort (map (λ x. x.0) m)) m out e)
    ∙ count-sort n (map (λ x. x.0) m)

-- What a mount that is accepted is: a target that is not empty and holds neither a slash nor a NUL, behind
-- /run/secrets/ for secrets and behind / for others, and a source that is a file.
abbrev pub IsMount :
    (Text → Bool) → Text → List (Text × ComposeSecretConfig) → Text → SecretRef → Text → Type 0
IsMount is_file kind top compose_dir r mount =
    (target_of r ≢ [])
    × (elem b'/' (target_of r) ≡ false)
    × (elem 0 (target_of r) ≡ false)
    × ((entry : ComposeSecretConfig) × (file : Text) × (lookup (source_of r) top ≡ some entry)
        × (entry.file ≡ some file)
        × (is_file (absolute compose_dir file) ≡ true)
        × (mount
            ≡ absolute compose_dir file
              ++ b':'
                ∷ ((if same kind (codes "secrets") then codes "/run/secrets/" else codes "/")
                    ++ target_of r
                    ++ codes ":ro")))

good_name : (t : Text) → bad_name t ≡ false → (t ≢ []) × (elem b'/' t ≡ false) × (elem 0 t ≡ false)
unfolding elem
good_name [] h = cc h
good_name (c ∷ t) h = (λ e. cc e, ground arith, ground arith)

abbrev pub AreMounts :
    (Text → Bool)
    → Text
    → List (Text × ComposeSecretConfig)
    → Text
    → List SecretRef
    → List Text
    → Type 0
AreMounts is_file kind top compose_dir [] [] = Unit
AreMounts is_file kind top compose_dir (r ∷ refs) (mount ∷ mounts) =
    IsMount is_file kind top compose_dir r mount
    × AreMounts is_file kind top compose_dir refs mounts
AreMounts is_file kind top compose_dir _ _ = ⊥

module _ (is_file : Text → Bool) (kind : Text) (top : List (Text × ComposeSecretConfig))
    (compose_dir : Text) where
  with_file-IsMount :
      (r : SecretRef) (entry : ComposeSecretConfig) (o : Option Text) (mount : Text)
      → lookup (source_of r) top ≡ some entry
      → entry.file ≡ o
      → bad_name (target_of r) ≡ false
      → with_file is_file kind compose_dir (source_of r) (target_of r) (why entry) o ≡ ok mount
      → IsMount is_file kind top compose_dir r mount
  with_file-IsMount r entry none mount e f b h = cc
  with_file-IsMount r entry (some file) mount e f b h =
      elim (Bool-cases (is_file (absolute compose_dir file))) [
        | inl g ↦
            let good = good_name (target_of r) b in
            (good.0, good.1, good.2, (entry, file, e, f, g, sym (ok-injective (rw g at h))))
        | inr g ↦ let here = rw g at h in cc
      ]

  with_entry-IsMount :
      (r : SecretRef) (o : Option ComposeSecretConfig) (mount : Text)
      → lookup (source_of r) top ≡ o
      → bad_name (target_of r) ≡ false
      → with_entry is_file kind compose_dir (source_of r) (target_of r) o ≡ ok mount
      → IsMount is_file kind top compose_dir r mount
  with_entry-IsMount r none mount e b h = cc
  with_entry-IsMount r (some entry) mount e b h =
      with_file-IsMount r entry entry.file mount e refl b h

  credential_mount-IsMount :
      (r : SecretRef) (mount : Text)
      → credential_mount is_file kind top compose_dir r ≡ ok mount
      → IsMount is_file kind top compose_dir r mount
  unfolding credential_mount
  credential_mount-IsMount r mount h =
      let (good, found) = bail_if-eq-ok (bad_name (target_of r)) _ _ mount h in
      with_entry-IsMount r (lookup (source_of r) top) mount refl good found

  -- Where `credential_mounts` succeeds, there is one mount for each reference, in order: read-only, from
  -- the file of its top-level entry, which exists, to /run/secrets/TARGET for secrets and to /TARGET for any
  -- other kind. The target is not empty and holds neither a slash nor a NUL; it can still be `.` or `..`.
  pub credential_mounts-AreMounts :
      (refs : List SecretRef) (mounts : List Text)
      → credential_mounts is_file kind refs top compose_dir ≡ ok mounts
      → AreMounts is_file kind top compose_dir refs mounts
  unfolding credential_mounts
  credential_mounts-AreMounts [] mounts h =
      subst (AreMounts is_file kind top compose_dir []) (ok-injective h) tt
  credential_mounts-AreMounts (r ∷ refs) mounts h =
      let (mount, e1, f1) =
        bind-eq-ok _ (credential_mount is_file kind top compose_dir r) mounts h in
      let (rest, e2, f2) =
        bind-eq-ok _ (credential_mounts is_file kind refs top compose_dir) mounts e1 in
      subst (AreMounts is_file kind top compose_dir (r ∷ refs)) (ok-injective e2)
        (credential_mount-IsMount r mount f1, credential_mounts-AreMounts refs rest f2)
