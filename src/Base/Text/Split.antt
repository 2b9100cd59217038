-- ===== src/Base/Text/Split.antt =====
-- Where a text splits: the laws of `split_once` and `rsplit_once`.
use Prim.Native.Nat.{ℕ}
use mathlib.Core.Bool.{Bool, true, false, ◌||◌}
use mathlib.Core.List.{List, [], ◌∷◌, ◌++◌}
use mathlib.Core.Option.{none, some}
use mathlib.Core.Path.{◌≡◌, refl, sym, ◌∙◌}
use native.Mathlib.Omega.{arith}
use mathlib.Core.Logic.{inl, inr}
use ingot_engine.Base.Lists.{any, elem, All}
use ingot_engine.Base.Tests.{◌==◌, Bool-cases}
use ingot_engine.Base.Text.{Text, split_once_at, rsplit_once, split_once, split, onto_first}

pub any-append {ℓ} :
    {A : Type ℓ} (p : A → Bool) (xs ys : List A) → any p (xs ++ ys) ≡ (any p xs || any p ys)
unfolding any
any-append p [] ys = refl
any-append p (x ∷ xs) ys = ground (arith, any-append p xs ys)

-- The first separator decides.
pub split_once_at-append :
    (at : ℕ → Bool) (a : Text) (c : ℕ) (b : Text)
    → any at a ≡ false
    → at c ≡ true
    → split_once_at at (a ++ c ∷ b) ≡ some (a, b)
unfolding split_once_at any
split_once_at-append at [] c b h k = rw k
split_once_at-append at (x ∷ a) c b h k = ground (arith, split_once_at-append at a c b)

-- With no separator there is no split.
pub split_once_at-none : (at : ℕ → Bool) (a : Text) → any at a ≡ false → split_once_at at a ≡ none
unfolding split_once_at any
split_once_at-none at [] h = refl
split_once_at-none at (x ∷ a) h = ground (arith, split_once_at-none at a)

pub rsplit_once-none : (c : ℕ) (a : Text) → any (λ x. x == c) a ≡ false → rsplit_once c a ≡ none
unfolding rsplit_once any
rsplit_once-none c [] h = refl
rsplit_once-none c (x ∷ a) h = ground (arith, rsplit_once-none c a)

-- The last separator decides.
pub rsplit_once-append :
    (c : ℕ) (a b : Text) → any (λ x. x == c) b ≡ false → rsplit_once c (a ++ c ∷ b) ≡ some (a, b)
unfolding rsplit_once any
rsplit_once-append c [] b h = rw (rsplit_once-none c b h) (ground arith)
rsplit_once-append c (x ∷ a) b h = rw (rsplit_once-append c a b h)

onto_first-All :
    (c x : ℕ) (ps : List Text)
    → (x == c) ≡ false
    → All (λ p. elem c p ≡ false) ps
    → All (λ p. elem c p ≡ false) (onto_first x ps)
unfolding elem
onto_first-All c x [] h hs = (ground arith, tt)
onto_first-All c x (p ∷ ps) h hs = (ground (arith, hs.0), hs.1)

-- No piece holds the separator.
pub split-All : (c : ℕ) (s : Text) → All (λ p. elem c p ≡ false) (split c s)
unfolding split elem
split-All c [] = (refl, tt)
split-All c (x ∷ s) = elim (Bool-cases (x == c)) [
  | inl e ↦ rw e (refl, split-All c s)
  | inr e ↦ rw e (onto_first-All c x (split c s) e (split-All c s))
]

-- A text without the separator is one piece, and the first piece of a text that goes on behind one.
pub split-alone : (c : ℕ) (n : Text) → elem c n ≡ false → split c n ≡ n ∷ []
unfolding split elem
split-alone c [] h = refl
split-alone c (x ∷ n) h = rw (split-alone c n (ground arith)) (ground arith)

pub split-append : (c : ℕ) (n s : Text) → elem c n ≡ false → split c (n ++ c ∷ s) ≡ n ∷ split c s
unfolding split elem
split-append c [] s h = ground arith
split-append c (x ∷ n) s h = rw (split-append c n s (ground arith)) (ground arith)

pub elem-any : (c : ℕ) (s : Text) → elem c s ≡ any (λ x. x == c) s
unfolding elem any
elem-any c [] = refl
elem-any c (x ∷ s) = ground (arith, elem-any c s)

pub elem-append : (c : ℕ) (a b : Text) → elem c (a ++ b) ≡ (elem c a || elem c b)
unfolding elem
elem-append c [] b = refl
elem-append c (x ∷ a) b = ground (arith, elem-append c a b)

-- With membership for the test.
pub split_once-append :
    (c : ℕ) (a b : Text) → elem c a ≡ false → split_once c (a ++ c ∷ b) ≡ some (a, b)
split_once-append c a b h =
    split_once_at-append (λ x. x == c) a c b (sym (elem-any c a) ∙ h) (ground arith)

pub split_once-none : (c : ℕ) (a : Text) → elem c a ≡ false → split_once c a ≡ none
split_once-none c a h = split_once_at-none (λ x. x == c) a (sym (elem-any c a) ∙ h)
