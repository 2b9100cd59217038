-- ===== src/Util/Ignore/Glob/ClassReads.antt =====
-- What `class_items` accepts is a text of items.
use mathlib.Core.Path.{subst}
use ingot_engine.Base.{
  ℕ, ◌≡◌, refl, ap, true, false, not, ◌&&◌, Option, none, some, List, [], ◌∷◌, ◌==◌, Bool-cases,
  inl, inr,
}
use ingot_engine.Base.Text.{Text}
use ingot_engine.Util.Ignore.Glob.{Class, class_items, add_single, add_range}
use ingot_engine.Util.Ignore.Glob.Bracketed.{
  Item, single, range, Items, closed, backslashed, ranged, alone, opens_range, Adds, Adds-none,
  Adds-single, Adds-range,
}

abbrev pub Reads : Class → Text → Class → Text → Type 0
Reads k s out rest = (items : List Item) × Items s items rest × Adds k items out

abbrev value_or : {A : Type 0} → A → Option A → A
value_or a none = a
value_or a (some x) = x

some-injective : {A : Type 0} (x y : A) → ◌≡◌ {A = Option A} (some x) (some y) → x ≡ y
some-injective x y e = ap (value_or x) e

Reads-closed :
    (k out : Class) (a : ℕ) (s rest : Text)
    → (a == b']') ≡ true
    → ◌≡◌ {A = Option (Class × Text)} (some (k, s)) (some (out, rest))
    → Reads k (a ∷ s) out rest
Reads-closed k out a s rest e h =
    let same = some-injective (k, s) (out, rest) h in
    let here : Reads k (a ∷ s) k s = ([], closed e, Adds-none k) in
    subst (λ (x : Class × Text). Reads k (a ∷ s) x.0 x.1) same here

Reads-backslashed :
    (k out : Class) (a b : ℕ) (s rest : Text)
    → (a == b'\\') ≡ true
    → Reads (add_single b k) s out rest
    → Reads k (a ∷ b ∷ s) out rest
Reads-backslashed k out a b s rest f (items, r, adds) =
    (single b ∷ items, backslashed f r, Adds-single k out b items adds)

Reads-ranged :
    (k out : Class) (a d c : ℕ) (s rest : Text)
    → (a == b']') ≡ false
    → (a == b'\\') ≡ false
    → opens_range (d ∷ c ∷ s) ≡ true
    → Reads (add_range a c k) s out rest
    → Reads k (a ∷ d ∷ c ∷ s) out rest
Reads-ranged k out a d c s rest e f g (items, r, adds) =
    (range a c ∷ items, ranged e f g r, Adds-range k out a c items adds)

Reads-alone :
    (k out : Class) (a : ℕ) (s rest : Text)
    → (a == b']') ≡ false
    → (a == b'\\') ≡ false
    → opens_range s ≡ false
    → Reads (add_single a k) s out rest
    → Reads k (a ∷ s) out rest
Reads-alone k out a s rest e f g (items, r, adds) =
    (single a ∷ items, alone e f g r, Adds-single k out a items adds)

pub class_items-Reads :
    (k : Class) (s : Text) (out : Class) (rest : Text)
    → class_items k s ≡ some (out, rest)
    → Reads k s out rest
unfolding class_items
class_items-Reads k [] out rest h = cc
class_items-Reads k (a ∷ []) out rest h = elim (Bool-cases (a == b']')) [
  | inl e ↦ Reads-closed k out a [] rest e (rw e at h)
  | inr e ↦ let here = rw e at h in cc
]
class_items-Reads k (a ∷ b ∷ []) out rest h = elim (Bool-cases (a == b']')) [
  | inl e ↦ Reads-closed k out a (b ∷ []) rest e (rw e at h)
  | inr e ↦ elim (Bool-cases (a == b'\\')) [
    | inl f ↦ let here = rw (e, f) at h in cc
    | inr f ↦
        Reads-alone k out a (b ∷ []) rest e f refl
          (class_items-Reads (add_single a k) (b ∷ []) out rest (rw (e, f) at h))
  ]
]
class_items-Reads k (a ∷ b ∷ c ∷ s) out rest h = elim (Bool-cases (a == b']')) [
  | inl e ↦ Reads-closed k out a (b ∷ c ∷ s) rest e (rw e at h)
  | inr e ↦ elim (Bool-cases (a == b'\\')) [
    | inl f ↦
        Reads-backslashed k out a b (c ∷ s) rest f
          (class_items-Reads (add_single b k) (c ∷ s) out rest (rw (e, f) at h))
    | inr f ↦ elim (Bool-cases (b == b'-' && not (c == b']'))) [
      | inl g ↦
          Reads-ranged k out a b c s rest e f g
            (class_items-Reads (add_range a c k) s out rest (rw (e, f, g) at h))
      | inr g ↦
          Reads-alone k out a (b ∷ c ∷ s) rest e f g
            (class_items-Reads (add_single a k) (b ∷ c ∷ s) out rest (rw (e, f, g) at h))
    ]
  ]
]
