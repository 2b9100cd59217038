-- ===== src/Base/Lists.antt =====
-- Lists measured by native numbers, and membership of numbers as a test and as a type.
use Prim.Native.Nat.{ℕ, zero, suc, ◌+◌, ◌≤◌}
use mathlib.Core.Path.{◌≡◌, refl, ap, sym, ◌∙◌}
use mathlib.Core.Bool.{Bool, true, false, not, ◌&&◌, ◌||◌}
use mathlib.Core.List.{List, [], ◌∷◌, ◌++◌}
use native.Mathlib.Omega.{arith}
use ingot_engine.Base.Tests.{◌==◌, if◌then◌else◌}

module _ {ℓ} {A : Type ℓ} where
  abbrev pub length : List A → ℕ
  length [] = 0
  length (x ∷ xs) = suc (length xs)

  abbrev pub take : ℕ → List A → List A
  take zero xs = []
  take (suc n) [] = []
  take (suc n) (x ∷ xs) = x ∷ take n xs

  abbrev pub drop : ℕ → List A → List A
  drop zero xs = xs
  drop (suc n) [] = []
  drop (suc n) (x ∷ xs) = drop n xs

  pub length-append : (xs ys : List A) → length (xs ++ ys) ≡ length xs + length ys
  length-append [] ys = omega arith
  length-append (x ∷ xs) ys = omega (arith, length-append xs ys)

  pub take-append-drop : (n : ℕ) (xs : List A) → take n xs ++ drop n xs ≡ xs
  take-append-drop zero xs = refl
  take-append-drop (suc n) [] = refl
  take-append-drop (suc n) (x ∷ xs) = rw (take-append-drop n xs)

  pub take-append : (xs ys : List A) → take (length xs) (xs ++ ys) ≡ xs
  take-append [] ys = refl
  take-append (x ∷ xs) ys = ap (◌∷◌ x) (take-append xs ys)

  pub drop-append : (xs ys : List A) → drop (length xs) (xs ++ ys) ≡ ys
  drop-append [] ys = refl
  drop-append (x ∷ xs) ys = drop-append xs ys

  pub length-take : (n : ℕ) (xs : List A) → n ≤ length xs → length (take n xs) ≡ n
  length-take zero xs h = refl
  length-take (suc n) [] h = absurd (omega arith)
  length-take (suc n) (x ∷ xs) h = omega (arith, length-take n xs (omega arith))

  pub length-split : (n : ℕ) (xs : List A) → length (take n xs) + length (drop n xs) ≡ length xs
  length-split n xs =
      sym (length-append (take n xs) (drop n xs)) ∙ ap length (take-append-drop n xs)

  -- `iter().filter(p)` and `retain(p)`.
  unfoldable pub keep : (A → Bool) → List A → List A
  keep p [] = []
  keep p (x ∷ xs) = let rest = keep p xs in if p x then x ∷ rest else rest

  -- `iter().any(p)` and `iter().all(p)`.
  unfoldable pub any : (A → Bool) → List A → Bool
  any p [] = false
  any p (x ∷ xs) = p x || any p xs

  unfoldable pub all : (A → Bool) → List A → Bool
  all p [] = true
  all p (x ∷ xs) = p x && all p xs

  abbrev pub All {κ} : (A → Type κ) → List A → Type κ
  All P [] = Unit
  All P (x ∷ xs) = P x × All P xs

  pub All-append {κ} : (P : A → Type κ) (xs ys : List A) → All P xs → All P ys → All P (xs ++ ys)
  All-append P [] ys hx hy = hy
  All-append P (x ∷ xs) ys hx hy = (hx.0, All-append P xs ys hx.1 hy)

  pub all-append :
      (p : A → Bool) (xs ys : List A) → all p xs ≡ true → all p ys ≡ true → all p (xs ++ ys) ≡ true
  unfolding all
  all-append p [] ys h k = k
  all-append p (x ∷ xs) ys h k = ground (arith, all-append p xs ys)

-- Sets of numbers, held as lists.
unfoldable pub elem : ℕ → List ℕ → Bool
elem a [] = false
elem a (x ∷ xs) = a == x || elem a xs

unfoldable pub remove_all : ℕ → List ℕ → List ℕ
remove_all a [] = []
remove_all a (x ∷ xs) = let rest = remove_all a xs in if a == x then rest else x ∷ rest

-- No number stands twice.
abbrev pub Distinct : List ℕ → Type 0
Distinct [] = Unit
Distinct (x ∷ xs) = (elem x xs ≡ false) × Distinct xs

pub elem-keep : (p : ℕ → Bool) (a : ℕ) (xs : List ℕ) → elem a (keep p xs) ≡ (elem a xs && p a)
unfolding elem keep
elem-keep p a [] = refl
elem-keep p a (x ∷ xs) = ground (arith, elem-keep p a xs, ap p)

pub elem-remove_all :
    (a b : ℕ) (xs : List ℕ) → elem b (remove_all a xs) ≡ (not (a == b) && elem b xs)
unfolding elem remove_all
elem-remove_all a b [] = ground arith
elem-remove_all a b (x ∷ xs) = ground (arith, elem-remove_all a b xs)

pub length-keep {ℓ} : {A : Type ℓ} (p : A → Bool) (xs : List A) → length (keep p xs) ≤ length xs
unfolding keep
length-keep p [] = omega arith
length-keep p (x ∷ xs) = ground (arith, length-keep p xs)
