-- ===== src/Util/Ignore/Glob/Bracketed.antt =====
-- The text of a class, `[...]`, and the characters that it admits.
use ingot_engine.Base.{
  ℕ, ◌≡◌, ◌∙◌, refl, Bool, true, false, not, ◌&&◌, ◌||◌, List, [], ◌∷◌, ◌==◌, leb, elem, any, arith,
}
use ingot_engine.Base.Text.{Text}
use ingot_engine.Util.Ignore.Glob.{Class, add_single, add_range}

-- A character, or all from one to another.
pub data Item : Type 0 where
  single : ℕ → Item
  range : (lo hi : ℕ) → Item

abbrev pub holds : ℕ → Item → Bool
holds x (single c) = x == c
holds x (range lo hi) = leb lo x && leb x hi

abbrev pub holds_any : ℕ → List Item → Bool
holds_any x [] = false
holds_any x (i ∷ items) = holds x i || holds_any x items

-- A negated class admits what none of its items holds.
abbrev pub admits : Bool → List Item → ℕ → Bool
admits true items x = not (holds_any x items)
admits false items x = holds_any x items

-- A dash makes a range, unless the class closes behind it.
abbrev pub opens_range : Text → Bool
opens_range [] = false
opens_range (d ∷ []) = false
opens_range (d ∷ c ∷ s) = d == b'-' && not (c == b']')

-- The items of a text up to its closing bracket, and what is behind it.
pub data Items : Text → List Item → Text → Type 0 where
  closed : {a : ℕ} {s : Text} → (a == b']') ≡ true → Items (a ∷ s) [] s
  backslashed :
      {a b : ℕ} {s rest : Text} {items : List Item}
      → (a == b'\\') ≡ true
      → Items s items rest
      → Items (a ∷ b ∷ s) (single b ∷ items) rest
  ranged :
      {a d c : ℕ} {s rest : Text} {items : List Item}
      → (a == b']') ≡ false
      → (a == b'\\') ≡ false
      → opens_range (d ∷ c ∷ s) ≡ true
      → Items s items rest
      → Items (a ∷ d ∷ c ∷ s) (range a c ∷ items) rest
  alone :
      {a : ℕ} {s rest : Text} {items : List Item}
      → (a == b']') ≡ false
      → (a == b'\\') ≡ false
      → opens_range s ≡ false
      → Items s items rest
      → Items (a ∷ s) (single a ∷ items) rest

-- A closing bracket in front is an item.
pub data Opened : Text → List Item → Text → Type 0 where
  bracket :
      {a : ℕ} {s rest : Text} {items : List Item}
      → (a == b']') ≡ true
      → Items s items rest
      → Opened (a ∷ s) (single a ∷ items) rest
  other :
      {a : ℕ} {s rest : Text} {items : List Item}
      → (a == b']') ≡ false
      → Items (a ∷ s) items rest
      → Opened (a ∷ s) items rest

-- What stands behind a `[`.
pub data Brackets : Text → Bool → List Item → Text → Type 0 where
  negated :
      {a : ℕ} {s rest : Text} {items : List Item}
      → (a == b'^' || a == b'!') ≡ true
      → Opened s items rest
      → Brackets (a ∷ s) true items rest
  positive :
      {a : ℕ} {s rest : Text} {items : List Item}
      → (a == b'^' || a == b'!') ≡ false
      → Opened (a ∷ s) items rest
      → Brackets (a ∷ s) false items rest

-- What the class `k` holds before its negation.
abbrev pub hits : Class → ℕ → Bool
hits k x = elem x k.singles || any (λ (m : ℕ × ℕ). leb m.0 x && leb x m.1) k.members

-- `out` is `k` with the items.
abbrev pub Adds : Class → List Item → Class → Type 0
Adds k items out =
    (out.negate ≡ k.negate) × ((x : ℕ) → hits out x ≡ (hits k x || holds_any x items))

pub Adds-none : (k : Class) → Adds k [] k
Adds-none k = (refl, λ x. ground arith)

pub Adds-single :
    (k out : Class) (a : ℕ) (items : List Item)
    → Adds (add_single a k) items out
    → Adds k (single a ∷ items) out
unfolding elem any
Adds-single k out a items (n, h) = (n, λ x. h x ∙ ground arith)

pub Adds-range :
    (k out : Class) (a c : ℕ) (items : List Item)
    → Adds (add_range a c k) items out
    → Adds k (range a c ∷ items) out
unfolding elem any
Adds-range k out a c items (n, h) = (n, λ x. h x ∙ ground arith)
