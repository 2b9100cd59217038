-- ===== src/Util/FilePath/Confined.antt =====
-- A walk below a root directory ends inside it.
use ingot_engine.Base.{
  ℕ, zero, suc, ◌≡◌, refl, sym, Bool, true, false, ◌||◌, Option, none, some, List, [], ◌∷◌, ◌++◌,
  ◌==◌, if◌then◌else◌, elem, All, All-append, Bool-cases, inl, inr, arith, Outcome, ok, err,
  ok-injective,
}
use ingot_engine.Base.Text.{Text, codes, same, is_empty, split, starts_with}
use ingot_engine.Base.Text.Split.{split-All}
use ingot_engine.Util.FilePath.{
  Component, root_dir, cur_dir, parent_dir, normal, piece, pieces, relative, slash, path_components,
  Fs, WalkError, or_fail, none_left, visit, with_target, walk, max_hops, openat_walk,
}

-- A name of an entry of a directory.
pub record IsName (name : Text) : Type 0 where
  pub some_char : is_empty name ≡ false
  pub no_slash : elem b'/' name ≡ false
  pub not_dot : same name (codes ".") ≡ false
  pub not_dots : same name (codes "..") ≡ false

-- The root, and what is opened by a name in a directory that is inside.
pub data Inside (fs : Fs) : ℕ → Type 0 where
  top : Inside fs fs.root
  below :
      (last : Bool) (dir x : ℕ) (name : Text)
      → Inside fs dir
      → IsName name
      → fs.open_child last dir name ≡ some x
      → Inside fs x

-- `..` of what was opened by a name in a directory is that directory.
abbrev pub ParentsAgree : Fs → Type 0
ParentsAgree fs =
    (last : Bool) (dir x y : ℕ) (name : Text)
    → Inside fs dir
    → IsName name
    → fs.open_child last dir name ≡ some x
    → fs.open_parent x ≡ some y
    → y ≡ dir

abbrev pub Named : Component → Type 0
Named root_dir = Unit
Named cur_dir = Unit
Named parent_dir = Unit
Named (normal name) = IsName name

piece-Named : (p : Text) → elem b'/' p ≡ false → All Named (piece p)
unfolding piece
piece-Named p h = elim (Bool-cases (is_empty p || same p (codes "."))) [
  | inl e ↦ rw e tt
  | inr e ↦ elim (Bool-cases (same p (codes ".."))) [
    | inl d ↦ rw (e, d) (tt, tt)
    | inr d ↦
        rw (e, d)
          (
            record { some_char = ground arith; no_slash = h; not_dot = ground arith; not_dots = d },
            tt,
          )
  ]
]

pieces-Named : (ps : List Text) → All (λ p. elem b'/' p ≡ false) ps → All Named (pieces ps)
unfolding pieces
pieces-Named [] h = tt
pieces-Named (p ∷ ps) h =
    All-append Named (piece p) (pieces ps) (piece-Named p h.0) (pieces-Named ps h.1)

relative-Named : (ps : List Text) → All (λ p. elem b'/' p ≡ false) ps → All Named (relative ps)
relative-Named [] h = tt
relative-Named (p ∷ ps) h = elim (Bool-cases (same p (codes "."))) [
  | inl e ↦ rw e (tt, pieces-Named ps h.1)
  | inr e ↦ rw e (pieces-Named (p ∷ ps) h)
]

pub path_components-Named : (path : Text) → All Named (path_components path)
unfolding path_components
path_components-Named path =
    let parts = split-All b'/' path in
    elim (Bool-cases (starts_with slash path)) [
      | inl e ↦ rw e (tt, pieces-Named (split b'/' path) parts)
      | inr e ↦ rw e (relative-Named (split b'/' path) parts)
    ]

or_fail-eq-ok :
    (o : Option ℕ) (next : ℕ → Outcome WalkError ℕ) (x : ℕ)
    → or_fail o next ≡ ok x
    → (y : ℕ) × (o ≡ some y) × (next y ≡ ok x)
or_fail-eq-ok none next x h = cc
or_fail-eq-ok (some y) next x h = (y, refl, h)

module _ (fs : Fs) (agree : ParentsAgree fs) where
  parent-Inside :
      (cur y : ℕ)
      → Inside fs cur
      → (cur == fs.root) ≡ false
      → fs.open_parent cur ≡ some y
      → Inside fs y
  parent-Inside cur y top h e = absurd (ground arith)
  parent-Inside cur y (below last dir x name i n o) h e = rw (agree last dir cur y name i n o e) i

  -- A step into a name, whose two outcomes lead inside.
  visit-Inside :
      (last : Bool) (name : Text) (cur : ℕ) (enter : ℕ → Outcome WalkError ℕ)
      (follow : Option Text → Outcome WalkError ℕ) (x : ℕ)
      → Inside fs cur
      → IsName name
      → ((y : ℕ) → Inside fs y → enter y ≡ ok x → Inside fs x)
      → ((t : Option Text) → follow t ≡ ok x → Inside fs x)
      → visit fs last name cur enter follow ≡ ok x
      → Inside fs x
  visit-Inside last name cur enter follow x i n into past h = elim (Bool-cases (elem 0 name)) [
    | inl e ↦ let bad = rw e at h in cc bad
    | inr e ↦
        let opened =
          or_fail-eq-ok (fs.open_child last cur name)
            (λ x. if fs.is_link x then follow (fs.read_link x) else enter x) x (rw e at h) in
        elim (Bool-cases (fs.is_link opened.0)) [
          | inl l ↦ past (fs.read_link opened.0) (rw l at opened.2)
          | inr l ↦ into opened.0 (below last cur opened.0 name i n opened.1) (rw l at opened.2)
        ]
  ]

  with_target-Inside :
      (t : Option Text) (go : Text → Outcome WalkError ℕ) (x : ℕ)
      → ((target : Text) → go target ≡ ok x → Inside fs x)
      → with_target t go ≡ ok x
      → Inside fs x
  with_target-Inside none go x k h = cc h
  with_target-Inside (some target) go x k h =
      elim (Bool-cases (starts_with (codes "/proc/") target)) [
        | inl e ↦ let bad = rw e at h in cc bad
        | inr e ↦ k target (rw e at h)
      ]

  start-Inside : (b : Bool) (cur : ℕ) → Inside fs cur → Inside fs (if b then fs.root else cur)
  start-Inside true cur i = top
  start-Inside false cur i = i

  walk-Inside :
      (left : ℕ) (cs : List Component) (cur x : ℕ)
      → All Named cs
      → Inside fs cur
      → walk fs left cs cur ≡ ok x
      → Inside fs x
  unfolding walk
  walk-Inside left [] cur x n i h = rw (sym (ok-injective h)) i
  walk-Inside left (root_dir ∷ cs) cur x n i h = walk-Inside left cs fs.root x n.1 top h
  walk-Inside left (cur_dir ∷ cs) cur x n i h = walk-Inside left cs cur x n.1 i h
  walk-Inside left (parent_dir ∷ cs) cur x n i h = elim (Bool-cases (cur == fs.root)) [
    | inl e ↦ walk-Inside left cs cur x n.1 i (rw e at h)
    | inr e ↦
        let opened = or_fail-eq-ok (fs.open_parent cur) (walk fs left cs) x (rw e at h) in
        walk-Inside left cs opened.0 x n.1 (parent-Inside cur opened.0 i e opened.1) opened.2
  ]
  walk-Inside zero (normal name ∷ cs) cur x n i h =
      visit-Inside (none_left cs) name cur (walk fs zero cs) (λ t. err WalkError.too_many_links) x i
        n.0 (λ y j. walk-Inside zero cs y x n.1 j) (λ t e. cc e) h
  walk-Inside (suc left) (normal name ∷ cs) cur x n i h =
      visit-Inside (none_left cs) name cur (walk fs (suc left) cs)
        (λ target. with_target target λ t.
          walk fs left (path_components t ++ cs) (if starts_with slash t then fs.root else cur))
        x i n.0 (λ y j. walk-Inside (suc left) cs y x n.1 j)
        (λ o e.
          with_target-Inside o
            (λ t.
              walk fs left (path_components t ++ cs) (if starts_with slash t then fs.root else cur))
            x
            (λ t.
              walk-Inside left (path_components t ++ cs)
                (if starts_with slash t then fs.root else cur) x
                (All-append Named (path_components t) cs (path_components-Named t) n.1)
                (start-Inside (starts_with slash t) cur i))
            e)
        h

  -- When `..` of an entry is the directory in which it was opened, then a walk that succeeds, with whatever
  -- links and `..` on its way, ends at the root or at what was opened by a name inside it.
  pub openat_walk-Inside : (path : Text) (x : ℕ) → openat_walk fs path ≡ ok x → Inside fs x
  unfolding openat_walk
  openat_walk-Inside path x =
      walk-Inside max_hops (path_components path) fs.root x (path_components-Named path) top
