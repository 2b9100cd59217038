-- ===== src/Util/RandomName.antt =====
-- crates/util/src/name.rs: `random_name`. The two choices of the random generator are arguments.
pub mod Words
use ingot_engine.Base.{
  ℕ, zero, suc, ◌+◌, ◌%◌, ◌<◌, ◌≡◌, refl, sym, ap, ◌∙◌, Bool, true, false, not, ◌&&◌, ◌||◌, Option,
  none, some, List, [], ◌∷◌, ◌++◌, if◌then◌else◌, length, all, all-append, arith, and-eq-true,
  Bool-cases, inl, inr,
}
use ingot_engine.Base.Text.{Text, codes, same, same_iff, is_ascii_alphanumeric}
use ingot_engine.Util.RandomName.Words.{adjectives, scientists}
use ingot_engine.Util.ResourceName.{IsResourceName, is_name_char}

-- `choose`: the element that the generator picks; `none` is the `unwrap` of an empty list.
unfoldable pub choose : List Text → ℕ → Option Text
choose [] i = none
choose (w ∷ ws) zero = some w
choose (w ∷ ws) (suc i) = choose ws i

-- The name for two chosen words.
unfoldable pub name_of : Text → Text → Text
name_of adjective scientist =
    let name = adjective ++ (b'_' ∷ scientist) in
    let grumpy =
      same adjective (codes "boring")
      || same adjective (codes "angry")
      || same adjective (codes "stupefied") in
    if grumpy && same scientist (codes "wozniak") then name ++ codes "_right" else name

both : Option Text → Option Text → Option Text
both none s = none
both (some a) none = none
both (some a) (some s) = some (name_of a s)

-- The generator's picks `i` and `j` are below the lengths of the lists.
unfoldable pub random_name : ℕ → ℕ → Option Text
unfolding both
random_name i j = both (choose adjectives i) (choose scientists j)

-- A lower-case word of at least one letter.
is_word : Text → Bool
is_word [] = false
is_word (c ∷ s) = all is_ascii_alphanumeric (c ∷ s)

adjectives_words : all is_word adjectives ≡ true
unfolding all is_word adjectives is_ascii_alphanumeric
adjectives_words = refl

scientists_words : all is_word scientists ≡ true
unfolding all is_word scientists is_ascii_alphanumeric
scientists_words = refl

choose-is_word :
    (ws : List Text) (i : ℕ) (w : Text)
    → all is_word ws ≡ true
    → choose ws i ≡ some w
    → is_word w ≡ true
unfolding all choose
choose-is_word [] i w h e = cc
choose-is_word (v ∷ ws) zero w h e = ground arith
choose-is_word (v ∷ ws) (suc i) w h e =
    choose-is_word ws i w (and-eq-true (is_word v) (all is_word ws) h).1 e

choose_total : (ws : List Text) (i : ℕ) → i < length ws → (w : Text) × (choose ws i ≡ some w)
unfolding choose
choose_total [] i h = absurd (omega arith)
choose_total (w ∷ ws) zero h = (w, refl)
choose_total (w ∷ ws) (suc i) h = choose_total ws i (omega arith)

name_chars : (s : Text) → all is_ascii_alphanumeric s ≡ true → all is_name_char s ≡ true
unfolding all
name_chars [] h = refl
name_chars (c ∷ s) h =
    let parts = and-eq-true (is_ascii_alphanumeric c) (all is_ascii_alphanumeric s) h in
    rw (parts.0, name_chars s parts.1)

is_word-chars : (w : Text) → is_word w ≡ true → all is_ascii_alphanumeric w ≡ true
unfolding is_word
is_word-chars [] h = unfold all in refl
is_word-chars (c ∷ s) h = h

append-IsResourceName :
    (name s : Text) → IsResourceName name → all is_name_char s ≡ true → IsResourceName (name ++ s)
append-IsResourceName [] s h k = absurd h
append-IsResourceName (c ∷ name) s (first, rest) k = (first, all-append is_name_char name s rest k)

is_word-IsResourceName : (w : Text) → is_word w ≡ true → IsResourceName w
unfolding is_word all
is_word-IsResourceName [] h = cc
is_word-IsResourceName (c ∷ s) h =
    let parts = and-eq-true (is_ascii_alphanumeric c) (all is_ascii_alphanumeric s) h in
    (parts.0, name_chars s parts.1)

if-IsResourceName :
    (b : Bool) (x y : Text)
    → IsResourceName x
    → IsResourceName y
    → IsResourceName (if b then x else y)
if-IsResourceName true x y h k = h
if-IsResourceName false x y h k = k

right_chars : all is_name_char (codes "_right") ≡ true
unfolding all is_ascii_alphanumeric
right_chars = refl

name_of-IsResourceName :
    (a s : Text) → is_word a ≡ true → is_word s ≡ true → IsResourceName (name_of a s)
unfolding name_of
name_of-IsResourceName a s ha hs =
    let tail : all is_name_char (b'_' ∷ s) ≡ true =
      unfold all is_ascii_alphanumeric in name_chars s (is_word-chars s hs) in
    let plain = append-IsResourceName a (b'_' ∷ s) (is_word-IsResourceName a ha) tail in
    if-IsResourceName _ ((a ++ (b'_' ∷ s)) ++ codes "_right") (a ++ (b'_' ∷ s))
      (append-IsResourceName (a ++ (b'_' ∷ s)) (codes "_right") plain right_chars) plain

-- Whatever the generator picks, there is a name, and it is a valid resource name.
pub random_name-IsResourceName :
    (i j : ℕ)
    → i < length adjectives
    → j < length scientists
    → (name : Text) × (random_name i j ≡ some name) × IsResourceName name
unfolding random_name
random_name-IsResourceName i j hi hj =
    let (a, ea) = choose_total adjectives i hi in
    let (s, es) = choose_total scientists j hj in
    (
      name_of a s,
      rw (ea, es),
      name_of-IsResourceName a s (choose-is_word adjectives i a adjectives_words ea)
          (choose-is_word scientists j s scientists_words es),
    )
