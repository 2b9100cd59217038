-- ===== src/Util/Ignore/Glob/ClassMakes.antt =====
-- `class_items` accepts every text of items.
use ingot_engine.Base.{ℕ, ◌≡◌, refl, true, false, some, List, [], ◌∷◌, ◌==◌, arith}
use ingot_engine.Base.Text.{Text, is_empty}
use ingot_engine.Util.Ignore.Glob.{Class, class_items, add_single, add_range}
use ingot_engine.Util.Ignore.Glob.Bracketed.{
  Item, single, range, Items, closed, backslashed, ranged, alone, opens_range, Adds, Adds-none,
  Adds-single, Adds-range,
}

-- The class that `class_items` makes of the items.
abbrev pub Makes : Class → Text → List Item → Text → Type 0
Makes k s items rest = (out : Class) × (class_items k s ≡ some (out, rest)) × Adds k items out

filled : {s rest : Text} {items : List Item} → Items s items rest → is_empty s ≡ false
filled (closed e) = refl
filled (backslashed e i) = refl
filled (ranged e f g i) = refl
filled (alone e f g i) = refl

Makes-closed : (k : Class) (a : ℕ) (s : Text) → (a == b']') ≡ true → Makes k (a ∷ s) [] s
unfolding class_items
Makes-closed k a [] e = (k, rw e refl, Adds-none k)
Makes-closed k a (b ∷ []) e = (k, rw e refl, Adds-none k)
Makes-closed k a (b ∷ c ∷ s) e = (k, rw e refl, Adds-none k)

Makes-backslashed :
    (k : Class) (a b : ℕ) (s rest : Text) (items : List Item)
    → (a == b'\\') ≡ true
    → is_empty s ≡ false
    → Makes (add_single b k) s items rest
    → Makes k (a ∷ b ∷ s) (single b ∷ items) rest
unfolding class_items
Makes-backslashed k a b [] rest items e n (out, q, adds) = cc n
Makes-backslashed k a b (c ∷ s) rest items e n (out, q, adds) =
    let unclosed : (a == b']') ≡ false = ground arith in
    (out, rw (unclosed, e) q, Adds-single k out b items adds)

Makes-ranged :
    (k : Class) (a d c : ℕ) (s rest : Text) (items : List Item)
    → (a == b']') ≡ false
    → (a == b'\\') ≡ false
    → opens_range (d ∷ c ∷ s) ≡ true
    → Makes (add_range a c k) s items rest
    → Makes k (a ∷ d ∷ c ∷ s) (range a c ∷ items) rest
unfolding class_items
Makes-ranged k a d c s rest items e f g (out, q, adds) =
    (out, rw (e, f, g) q, Adds-range k out a c items adds)

Makes-alone :
    (k : Class) (a : ℕ) (s rest : Text) (items : List Item)
    → (a == b']') ≡ false
    → (a == b'\\') ≡ false
    → opens_range s ≡ false
    → is_empty s ≡ false
    → Makes (add_single a k) s items rest
    → Makes k (a ∷ s) (single a ∷ items) rest
unfolding class_items
Makes-alone k a [] rest items e f g n (out, q, adds) = cc n
Makes-alone k a (b ∷ []) rest items e f g n (out, q, adds) =
    (out, rw (e, f) q, Adds-single k out a items adds)
Makes-alone k a (b ∷ c ∷ s) rest items e f g n (out, q, adds) =
    (out, rw (e, f, g) q, Adds-single k out a items adds)

pub Items-Makes :
    {s rest : Text} {items : List Item} → Items s items rest → (k : Class) → Makes k s items rest
Items-Makes (closed {a} {s} e) k = Makes-closed k a s e
Items-Makes (backslashed {a} {b} {s} {rest} {items} e i) k =
    Makes-backslashed k a b s rest items e (filled i) (Items-Makes i (add_single b k))
Items-Makes (ranged {a} {d} {c} {s} {rest} {items} e f g i) k =
    Makes-ranged k a d c s rest items e f g (Items-Makes i (add_range a c k))
Items-Makes (alone {a} {s} {rest} {items} e f g i) k =
    Makes-alone k a s rest items e f g (filled i) (Items-Makes i (add_single a k))
