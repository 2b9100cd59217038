-- ===== src/Util/Ignore/Whole.antt =====
-- `Pattern::matches` against a description: where a pattern may stand in a path.
use mathlib.Core.List.{append-nil}
use ingot_engine.Base.{
  ℕ, ◌+◌, ◌≤◌, ◌<◌, ◌≡◌, ◌↔◌, ◌⊎◌, refl, sym, ◌∙◌, Bool, true, false, ◌&&◌, ◌||◌, List, [], ◌∷◌,
  ◌++◌, length, take, drop, take-append-drop, take-append, drop-append, length-take, length-split,
  length-append, Bool-cases, inl, inr, arith, ltb, leb, leb→le, le→leb,
}
use ingot_engine.Base.Text.{Text}
use ingot_engine.Util.Ignore.Parse.{Pattern}
use ingot_engine.Util.Ignore.Parts.{PartsMatch, match_parts_iff, any_range-index, index-any_range}
use ingot_engine.Util.Ignore.{match_parts, any_range, matches_anchored, matches_suffix, matches}

-- Something lies beneath the matched directory, or the path is that directory.
abbrev pub Beneath : List Text → Bool → Type 0
Beneath rest is_dir = (1 ≤ length rest) ⊎ (is_dir ≡ true)

-- `a` is the part of the path in front of the match, `b` the match, and `c` what lies beneath it.
pub record Describes (p : Pattern) (comps : List Text) (is_dir : Bool) (a b c : List Text)
    : Type 0 where
  pub splits : comps ≡ a ++ (b ++ c)
  pub parts_match : PartsMatch p.parts b
  pub from_root : p.anchored ≡ true → length a ≡ 0
  pub to_end : p.dir_only ≡ false → length c ≡ 0
  pub beneath : p.dir_only ≡ true → Beneath c is_dir

tested_below :
    (n : ℕ) (rest : List Text) (m : ℕ) (is_dir : Bool)
    → n + length rest ≡ m
    → (ltb n m || is_dir) ≡ true
    → Beneath rest is_dir
tested_below n rest m is_dir e h = ground arith

below_tested :
    (n : ℕ) (rest : List Text) (m : ℕ) (is_dir : Bool)
    → n + length rest ≡ m
    → Beneath rest is_dir
    → (ltb n m || is_dir) ≡ true
below_tested n rest m is_dir e (inl h) = ground arith
below_tested n rest m is_dir e (inr h) = ground arith

and_split_three : (a b c : Bool) → (a && b && c) ≡ true → (a ≡ true) × (b ≡ true) × (c ≡ true)
and_split_three a b c h = ground arith

and_split : (a b : Bool) → (a && b) ≡ true → (a ≡ true) × (b ≡ true)
and_split a b h = ground arith

-- A place of the path that the pattern describes. An unanchored pattern for directories takes as many
-- components as it has parts, so there a `**` between its parts stands for exactly one component.
abbrev pub Match : Pattern → List Text → Bool → Type 0
Match p comps is_dir =
    (a b c : List Text) × Describes p comps is_dir a b c
    × (1 ≤ length b)
    × (p.anchored ≡ false → p.dir_only ≡ true → length b ≡ length p.parts)

module _ (p : Pattern) (is_dir : Bool) (comps : List Text) where
  abbrev dir_test : ℕ → Bool
  dir_test end = match_parts p.parts (take end comps) && (ltb end (length comps) || is_dir)

  abbrev suffix_test : List Text → Bool
  suffix_test rest =
      leb (length p.parts) (length rest)
      && match_parts p.parts (take (length p.parts) rest)
      && (ltb (length p.parts) (length rest) || is_dir)

  abbrev start_test : ℕ → Bool
  start_test start = matches_suffix p is_dir (drop start comps)

  matches-anchored_dir :
      p.anchored ≡ true
      → p.dir_only ≡ true
      → matches p comps is_dir ≡ any_range (length comps) 1 dir_test
  unfolding matches matches_anchored
  matches-anchored_dir a d = rw (a, d)

  matches-anchored_file :
      p.anchored ≡ true → p.dir_only ≡ false → matches p comps is_dir ≡ match_parts p.parts comps
  unfolding matches matches_anchored
  matches-anchored_file a d = rw (a, d)

  matches-floating :
      p.anchored ≡ false → matches p comps is_dir ≡ any_range (length comps) 0 start_test
  unfolding matches
  matches-floating a = rw a

  matches_suffix-dir :
      (rest : List Text) → p.dir_only ≡ true → matches_suffix p is_dir rest ≡ suffix_test rest
  unfolding matches_suffix
  matches_suffix-dir rest d = rw d

  matches_suffix-file :
      (rest : List Text)
      → p.dir_only ≡ false
      → matches_suffix p is_dir rest ≡ match_parts p.parts rest
  unfolding matches_suffix
  matches_suffix-file rest d = rw d

  -- The part of the path up to `end`, matched from the root.
  anchored_dir-Match :
      (end : ℕ)
      → p.anchored ≡ true
      → p.dir_only ≡ true
      → 1 ≤ end
      → end ≤ length comps
      → dir_test end ≡ true
      → Match p comps is_dir
  anchored_dir-Match end a d low le t =
      let both =
        and_split (match_parts p.parts (take end comps)) (ltb end (length comps) || is_dir) t in
      let len = length-take end comps le in
      let sum : end + length (drop end comps) ≡ length comps =
        omega (arith, length-split end comps) in
      (
        [],
        take end comps,
        drop end comps,
        record {
          splits = sym (take-append-drop end comps);
          parts_match = (match_parts_iff p.parts (take end comps)).0 both.0;
          from_root = λ _. refl;
          to_end = λ e. cc;
          beneath = λ _. tested_below end (drop end comps) (length comps) is_dir sum both.1;
        },
        omega arith,
        λ e. cc,
      )

  anchored_file-Match :
      p.anchored ≡ true
      → p.dir_only ≡ false
      → 1 ≤ length comps
      → match_parts p.parts comps ≡ true
      → Match p comps is_dir
  anchored_file-Match a d pos t = (
    [],
    comps,
    [],
    record {
      splits = sym (append-nil comps);
      parts_match = (match_parts_iff p.parts comps).0 t;
      from_root = λ _. refl;
      to_end = λ _. refl;
      beneath = λ e. cc;
    },
    pos,
    λ e. cc,
  )

  floating_file-Match :
      (start : ℕ)
      → p.anchored ≡ false
      → p.dir_only ≡ false
      → start < length comps
      → match_parts p.parts (drop start comps) ≡ true
      → Match p comps is_dir
  floating_file-Match start a d lt t = (
    take start comps,
    drop start comps,
    [],
    record {
      splits = rw append-nil (sym (take-append-drop start comps));
      parts_match = (match_parts_iff p.parts (drop start comps)).0 t;
      from_root = λ e. cc;
      to_end = λ _. refl;
      beneath = λ e. cc;
    },
    omega (arith, length-split start comps, length-take start comps),
    λ _ e. cc,
  )

  floating_dir-Match :
      (start : ℕ)
      → p.anchored ≡ false
      → p.dir_only ≡ true
      → 1 ≤ length p.parts
      → suffix_test (drop start comps) ≡ true
      → Match p comps is_dir
  floating_dir-Match start a d pos t =
      let rest = drop start comps in
      let n = length p.parts in
      let (fits, found, below) =
        and_split_three (leb n (length rest)) (match_parts p.parts (take n rest))
          (ltb n (length rest) || is_dir) t in
      let le : n ≤ length rest = leb→le n (length rest) fits in
      let sum : n + length (drop n rest) ≡ length rest =
        omega (arith, length-split n rest, length-take n rest le) in
      (
        take start comps,
        take n rest,
        drop n rest,
        record {
          splits = rw (take-append-drop n rest) (sym (take-append-drop start comps));
          parts_match = (match_parts_iff p.parts (take n rest)).0 found;
          from_root = λ e. cc;
          to_end = λ e. cc;
          beneath = λ _. tested_below n (drop n rest) (length rest) is_dir sum below;
        },
        omega (arith, length-take n rest le),
        λ _ _. length-take n rest le,
      )

  matches-Match :
      1 ≤ length comps → 1 ≤ length p.parts → matches p comps is_dir ≡ true → Match p comps is_dir
  matches-Match pos parts h = elim (Bool-cases p.anchored) [
    | inl a ↦ elim (Bool-cases p.dir_only) [
      | inl d ↦
          let (end, low, high, t) =
            any_range-index (length comps) 1 dir_test (sym (matches-anchored_dir a d) ∙ h) in
          anchored_dir-Match end a d low (omega arith) t
      | inr d ↦ anchored_file-Match a d pos (sym (matches-anchored_file a d) ∙ h)
    ]
    | inr a ↦
        let (start, low, high, t) =
          any_range-index (length comps) 0 start_test (sym (matches-floating a) ∙ h) in
        elim (Bool-cases p.dir_only) [
          | inl d ↦
              floating_dir-Match start a d parts (sym (matches_suffix-dir (drop start comps) d) ∙ t)
          | inr d ↦
              floating_file-Match start a d (omega arith)
                (sym (matches_suffix-file (drop start comps) d) ∙ t)
        ]
  ]

module _ (p : Pattern) (is_dir : Bool) where
  dir_matches :
      (b c : List Text)
      → p.anchored ≡ true
      → p.dir_only ≡ true
      → PartsMatch p.parts b
      → 1 ≤ length b
      → Beneath c is_dir
      → matches p (b ++ c) is_dir ≡ true
  dir_matches b c a d m pos below =
      let sum = length-append b c in
      let t : dir_test p is_dir (b ++ c) (length b) ≡ true =
        rw (take-append b c, (match_parts_iff p.parts b).1 m)
          (below_tested (length b) c (length (b ++ c)) is_dir (sym sum) below) in
      matches-anchored_dir p is_dir (b ++ c) a d
      ∙ index-any_range (length (b ++ c)) 1 (dir_test p is_dir (b ++ c)) (length b) pos
          (omega arith) t

  floating_matches :
      (a b c : List Text)
      → p.anchored ≡ false
      → 1 ≤ length b
      → matches_suffix p is_dir (b ++ c) ≡ true
      → matches p (a ++ (b ++ c)) is_dir ≡ true
  floating_matches a b c f pos t =
      let sum = length-append a (b ++ c) in
      let t' : start_test p is_dir (a ++ (b ++ c)) (length a) ≡ true =
        rw (drop-append a (b ++ c)) t in
      matches-floating p is_dir (a ++ (b ++ c)) f
      ∙ index-any_range (length (a ++ (b ++ c))) 0 (start_test p is_dir (a ++ (b ++ c))) (length a)
          (omega arith) (omega (arith, length-append b c)) t'

  floating_dir_suffix :
      (b c : List Text)
      → p.dir_only ≡ true
      → PartsMatch p.parts b
      → length b ≡ length p.parts
      → Beneath c is_dir
      → matches_suffix p is_dir (b ++ c) ≡ true
  floating_dir_suffix b c d m len below =
      let le : leb (length b) (length (b ++ c)) ≡ true =
        le→leb (length b) (length (b ++ c)) (omega (arith, length-append b c)) in
      matches_suffix-dir p is_dir [] (b ++ c) d
      ∙ rw (← len, le, take-append b c, (match_parts_iff p.parts b).1 m)
          (below_tested (length b) c (length (b ++ c)) is_dir (sym (length-append b c)) below)

empty_of_length {ℓ} : {A : Type ℓ} (xs : List A) → length xs ≡ 0 → xs ≡ []
empty_of_length [] h = refl
empty_of_length (x ∷ xs) h = absurd (omega arith)

-- Every described place is found.
Match-matches :
    (p : Pattern) (is_dir : Bool) (comps : List Text)
    → Match p comps is_dir
    → matches p comps is_dir ≡ true
Match-matches p is_dir comps (a, b, c, h, pos, exact) = rw h.splits (elim (Bool-cases p.anchored) [
  | inl r ↦ rw (empty_of_length a (h.from_root r)) (elim (Bool-cases p.dir_only) [
    | inl d ↦ dir_matches p is_dir b c r d h.parts_match pos (h.beneath d)
    | inr d ↦
        rw (empty_of_length c (h.to_end d), append-nil b)
          (matches-anchored_file p is_dir b r d ∙ (match_parts_iff p.parts b).1 h.parts_match)
  ])
  | inr f ↦ floating_matches p is_dir a b c f pos (elim (Bool-cases p.dir_only) [
    | inl d ↦ floating_dir_suffix p is_dir b c d h.parts_match (exact f d) (h.beneath d)
    | inr d ↦
        rw (empty_of_length c (h.to_end d), append-nil b)
          (matches_suffix-file p is_dir [] b d ∙ (match_parts_iff p.parts b).1 h.parts_match)
  ])
])

-- On a path and a pattern that are not empty, the pattern matches exactly when it describes a place of the
-- path: a run of components that its parts match, which begins at the root if it is anchored, ends the path
-- unless the pattern is for directories, and for directories has something beneath it or is a directory.
-- An unanchored pattern for directories wants as many components as it has parts.
pub matches_iff :
    (p : Pattern) (is_dir : Bool) (comps : List Text)
    → 1 ≤ length comps
    → 1 ≤ length p.parts
    → (matches p comps is_dir ≡ true) ↔ Match p comps is_dir
matches_iff p is_dir comps pos parts =
    (matches-Match p is_dir comps pos parts, Match-matches p is_dir comps)
