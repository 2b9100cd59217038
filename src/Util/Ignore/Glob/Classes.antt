-- ===== src/Util/Ignore/Glob/Classes.antt =====
-- `parse_class` reads exactly the texts of classes, and the predicate that it returns admits what they say.
use ingot_engine.Base.{
  ℕ, ◌≡◌, ◌∙◌, refl, ap, Bool, true, false, not, ◌||◌, some, List, [], ◌∷◌, ◌==◌, elem, any,
  Bool-cases, inl, inr,
}
use ingot_engine.Base.Text.{Text}
use ingot_engine.Util.Ignore.Glob.{Class, xor, in_class, first_literal, parse_class}
use ingot_engine.Util.Ignore.Glob.Bracketed.{
  Item, single, Opened, bracket, other, Brackets, negated, positive, admits, holds_any, hits, Adds,
  Adds-single,
}
use ingot_engine.Util.Ignore.Glob.ClassReads.{class_items-Reads}
use ingot_engine.Util.Ignore.Glob.ClassMakes.{Items-Makes}

-- The class admits what the text says.
abbrev Admits : Class → Bool → List Item → Type 0
Admits out negate items = (x : ℕ) → in_class out x ≡ admits negate items x

xor-true : (b : Bool) → xor b true ≡ not b
xor-true true = refl
xor-true false = refl

xor-false : (b : Bool) → xor b false ≡ b
xor-false true = refl
xor-false false = refl

Adds-Admits :
    (negate : Bool) (items : List Item) (k out : Class)
    → k.negate ≡ negate
    → ((x : ℕ) → hits k x ≡ false)
    → Adds k items out
    → Admits out negate items
unfolding in_class
Adds-Admits true items k out m empty (n, h) x =
    rw (n, m) (xor-true (hits out x) ∙ ap not (h x ∙ ap (λ b. b || holds_any x items) (empty x)))
Adds-Admits false items k out m empty (n, h) x =
    rw (n, m) (xor-false (hits out x) ∙ h x ∙ ap (λ b. b || holds_any x items) (empty x))

abbrev fresh : Bool → Class
fresh negate = record { negate = negate; singles = []; members = [] }

-- The class of `first_literal`, from no item on.
first_bracket :
    (negate : Bool) (c : ℕ) (items : List Item) (out : Class)
    → Adds (record { negate = negate; singles = c ∷ []; members = [] }) items out
    → Adds (fresh negate) (single c ∷ items) out
unfolding elem any
first_bracket negate c items out adds = Adds-single (fresh negate) out c items adds

hits-fresh : (negate : Bool) (x : ℕ) → hits (fresh negate) x ≡ false
unfolding elem any
hits-fresh negate x = refl

first_literal-Opened :
    (negate : Bool) (s : Text) (out : Class) (rest : Text)
    → first_literal negate s ≡ some (out, rest)
    → (items : List Item) × Opened s items rest × Admits out negate items
first_literal-Opened negate [] out rest h = cc
first_literal-Opened negate (c ∷ s) out rest h = elim (Bool-cases (c == b']')) [
  | inl e ↦
      let k : Class = record { negate = negate; singles = c ∷ []; members = [] } in
      let (items, r, adds) = class_items-Reads k s out rest (rw e at h) in
      (
        single c ∷ items,
        bracket e r,
        Adds-Admits negate (single c ∷ items) (fresh negate) out refl (hits-fresh negate)
            (first_bracket negate c items out adds),
      )
  | inr e ↦
      let (items, r, adds) = class_items-Reads (fresh negate) (c ∷ s) out rest (rw e at h) in
      (items, other e r, Adds-Admits negate items (fresh negate) out refl (hits-fresh negate) adds)
]

pub parse_class-Brackets :
    (s : Text) (out : Class) (rest : Text)
    → parse_class s ≡ some (out, rest)
    → (negate : Bool) × (items : List Item) × Brackets s negate items rest
      × ((x : ℕ) → in_class out x ≡ admits negate items x)
unfolding parse_class
parse_class-Brackets [] out rest h = cc
parse_class-Brackets (c ∷ s) out rest h = elim (Bool-cases (c == b'^' || c == b'!')) [
  | inl e ↦
      let (items, o, a) = first_literal-Opened true s out rest (rw e at h) in
      (true, items, negated e o, a)
  | inr e ↦
      let (items, o, a) = first_literal-Opened false (c ∷ s) out rest (rw e at h) in
      (false, items, positive e o, a)
]

Opened-first_literal :
    (negate : Bool) {s rest : Text} {items : List Item}
    → Opened s items rest
    → (out : Class) × (first_literal negate s ≡ some (out, rest)) × Admits out negate items
Opened-first_literal negate (bracket {a} {s} {rest} {items} e i) =
    let k : Class = record { negate = negate; singles = a ∷ []; members = [] } in
    let (out, q, adds) = Items-Makes i k in
    (
      out,
      rw e q,
      Adds-Admits negate (single a ∷ items) (fresh negate) out refl (hits-fresh negate)
          (first_bracket negate a items out adds),
    )
Opened-first_literal negate (other {a} {s} {rest} {items} e i) =
    let (out, q, adds) = Items-Makes i (fresh negate) in
    (out, rw e q, Adds-Admits negate items (fresh negate) out refl (hits-fresh negate) adds)

pub Brackets-parse_class :
    (s : Text) (negate : Bool) (items : List Item) (rest : Text)
    → Brackets s negate items rest
    → (out : Class) × (parse_class s ≡ some (out, rest))
      × ((x : ℕ) → in_class out x ≡ admits negate items x)
unfolding parse_class
Brackets-parse_class _ _ _ _ (negated {a} {s} {rest} {items} e o) =
    let (out, q, a) = Opened-first_literal true o in (out, rw e q, a)
Brackets-parse_class _ _ _ _ (positive {a} {s} {rest} {items} e o) =
    let (out, q, a) = Opened-first_literal false o in (out, rw e q, a)
