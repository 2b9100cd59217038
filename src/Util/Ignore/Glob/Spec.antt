-- ===== src/Util/Ignore/Glob/Spec.antt =====
-- What it means that a component matches a glob, and that `match_component` decides it.
use ingot_engine.Base.{
  ℕ, zero, suc, ◌<◌, ◌≡◌, ◌↔◌, refl, sym, ◌∙◌, Bool, true, false, not, ◌&&◌, ◌||◌, Option, none,
  some, List, [], ◌∷◌, ◌==◌, ==_iff, length, Bool-cases, inl, inr, arith,
}
use ingot_engine.Base.Text.{Text, is_empty}
use ingot_engine.Util.Ignore.Glob.Bracketed.{Item, Brackets, admits}
use ingot_engine.Util.Ignore.Glob.Classes.{parse_class-Brackets, Brackets-parse_class}
use ingot_engine.Util.Ignore.Glob.{
  any_suffix, Class, in_class, class_items, add_single, add_range, parse_class, first_literal,
  first_and_rest, with_class, escaped, match_comp, match_component,
}

-- Plain characters stand for themselves; so does a backslash at the end.
abbrev plain : ℕ → Text → Bool
plain c p =
    not (c == b'*') && not (c == b'?') && not (c == b'[') && (is_empty p || not (c == b'\\'))

pub data Globs : Text → Text → Type 0 where
  done : Globs [] []
  star_none : {c : ℕ} {p n : Text} → c ≡ b'*' → Globs p n → Globs (c ∷ p) n
  star_more : {c x : ℕ} {p n : Text} → c ≡ b'*' → Globs (c ∷ p) n → Globs (c ∷ p) (x ∷ n)
  any_one : {c x : ℕ} {p n : Text} → c ≡ b'?' → Globs p n → Globs (c ∷ p) (x ∷ n)
  one_of :
      {c x : ℕ} {p n rest : Text} {negated : Bool} {items : List Item}
      → c ≡ b'['
      → Brackets p negated items rest
      → admits negated items x ≡ true
      → Globs rest n
      → Globs (c ∷ p) (x ∷ n)
  quoted : {c d x : ℕ} {p n : Text} → c ≡ b'\\' → d ≡ x → Globs p n → Globs (c ∷ d ∷ p) (x ∷ n)
  literal : {c x : ℕ} {p n : Text} → plain c p ≡ true → c ≡ x → Globs p n → Globs (c ∷ p) (x ∷ n)

class_items-lt :
    (k : Class) (s : Text) (x : Class × Text) → class_items k s ≡ some x → length x.1 < length s
unfolding class_items
class_items-lt k [] x h = cc
class_items-lt k (a ∷ []) x h = ground arith
class_items-lt k (a ∷ b ∷ []) x h = ground (arith, class_items-lt (add_single a k) (b ∷ []) x)
class_items-lt k (a ∷ b ∷ c ∷ s) x h = ground (
  arith,
  class_items-lt (add_single b k) (c ∷ s) x,
  class_items-lt (add_range a c k) s x,
  class_items-lt (add_single a k) (b ∷ c ∷ s) x,
)

first_literal-lt :
    (b : Bool) (s : Text) (x : Class × Text) → first_literal b s ≡ some x → length x.1 < length s
first_literal-lt b [] x h = cc
first_literal-lt b (c ∷ s) x h = ground (
  arith,
  class_items-lt (record { negate = b; singles = c ∷ []; members = [] }) s x,
  class_items-lt (record { negate = b; singles = []; members = [] }) (c ∷ s) x,
)

-- A class takes at least its closing bracket.
parse_class-lt : (s : Text) (x : Class × Text) → parse_class s ≡ some x → length x.1 < length s
unfolding parse_class
parse_class-lt [] x h = cc
parse_class-lt (c ∷ s) x h =
    ground (arith, first_literal-lt true s x, first_literal-lt false (c ∷ s) x)

-- The branch that the first character selects.
data Head (c : ℕ) : Type 0 where
  star : c ≡ b'*' → Head c
  question : c ≡ b'?' → Head c
  bracket : c ≡ b'[' → Head c
  backslash : c ≡ b'\\' → Head c
  other :
      (c == b'*') ≡ false
      → (c == b'?') ≡ false
      → (c == b'[') ≡ false
      → (c == b'\\') ≡ false
      → Head c

head : (c : ℕ) → Head c
head c = elim (Bool-cases (c == b'*')) [
  | inl e ↦ star ((==_iff c b'*').0 e)
  | inr s ↦ elim (Bool-cases (c == b'?')) [
    | inl e ↦ question ((==_iff c b'?').0 e)
    | inr q ↦ elim (Bool-cases (c == b'[')) [
      | inl e ↦ bracket ((==_iff c b'[').0 e)
      | inr k ↦ elim (Bool-cases (c == b'\\')) [
        | inl e ↦ backslash ((==_iff c b'\\').0 e)
        | inr l ↦ other s q k l
      ]
    ]
  ]
]

abbrev branch : {c : ℕ} → ℕ → Text → Head c → Text → Bool
branch f p (star e) n = any_suffix (match_comp f p) n
branch f p (question e) n = first_and_rest (λ x. true) (match_comp f p) n
branch f p (bracket e) n = with_class (match_comp f) (parse_class p) n
branch f p (backslash e) n = escaped (match_comp f) p n
branch {c} f p (other s q k l) n = first_and_rest (λ x. c == x) (match_comp f p) n

match_comp-branch :
    (f c : ℕ) (p n : Text) (h : Head c) → match_comp (suc f) (c ∷ p) n ≡ branch f p h n
unfolding match_comp
match_comp-branch f c p n (star e) = rw e
match_comp-branch f c p n (question e) = rw e
match_comp-branch f c p n (bracket e) = rw e
match_comp-branch f c p n (backslash e) = rw e
match_comp-branch f c p n (other s q k l) = rw (s, q, k, l)

star-Globs :
    (c : ℕ) (p : Text) (test : Text → Bool)
    → c ≡ b'*'
    → ((n : Text) → test n ≡ true → Globs p n)
    → (n : Text) → any_suffix test n ≡ true
    → Globs (c ∷ p) n
unfolding any_suffix
star-Globs c p test e ih [] h = star_none e (ih [] h)
star-Globs c p test e ih (x ∷ n) h = elim (Bool-cases (test (x ∷ n))) [
  | inl t ↦ star_none e (ih (x ∷ n) t)
  | inr t ↦ star_more e (star-Globs c p test e ih n (rw t at h))
]

-- A run of one character, split into its test and the run behind it.
pub first_and_rest-cons : (t b : Bool) → (t && b) ≡ true → (t ≡ true) × (b ≡ true)
first_and_rest-cons t b h = ground arith

module _ (f : ℕ) (ih : (p n : Text) → match_comp f p n ≡ true → Globs p n) where
  class-Globs :
      (c : ℕ) (p n : Text) (o : Option (Class × Text))
      → c ≡ b'['
      → parse_class p ≡ o
      → with_class (match_comp f) o n ≡ true
      → Globs (c ∷ p) n
  class-Globs c p n none e q h = cc
  class-Globs c p [] (some (k, rest)) e q h = cc
  class-Globs c p (x ∷ n) (some (k, rest)) e q h =
      let parts = first_and_rest-cons (in_class k x) (match_comp f rest n) h in
      let (negated, items, reads, admitted) = parse_class-Brackets p k rest q in
      one_of e reads (sym (admitted x) ∙ parts.0) (ih rest n parts.1)

  escaped-Globs :
      (c : ℕ) (p n : Text) → c ≡ b'\\' → escaped (match_comp f) p n ≡ true → Globs (c ∷ p) n
  escaped-Globs c [] [] e h = cc
  escaped-Globs c [] (x ∷ n) e h =
      let parts = first_and_rest-cons (b'\\' == x) (match_comp f [] n) h in
      literal (rw e) (e ∙ (==_iff b'\\' x).0 parts.0) (ih [] n parts.1)
  escaped-Globs c (d ∷ p) [] e h = cc
  escaped-Globs c (d ∷ p) (x ∷ n) e h =
      let parts = first_and_rest-cons (d == x) (match_comp f p n) h in
      quoted e ((==_iff d x).0 parts.0) (ih p n parts.1)

  branch-Globs : (c : ℕ) (p n : Text) (h : Head c) → branch f p h n ≡ true → Globs (c ∷ p) n
  branch-Globs c p n (star e) h = star-Globs c p (match_comp f p) e (ih p) n h
  branch-Globs c p [] (question e) h = cc
  branch-Globs c p (x ∷ n) (question e) h = any_one e (ih p n h)
  branch-Globs c p n (bracket e) h = class-Globs c p n (parse_class p) e refl h
  branch-Globs c p n (backslash e) h = escaped-Globs c p n e h
  branch-Globs c p [] (other s q k l) h = cc
  branch-Globs c p (x ∷ n) (other s q k l) h =
      let parts = first_and_rest-cons (c == x) (match_comp f p n) h in
      literal (ground arith) ((==_iff c x).0 parts.0) (ih p n parts.1)

match_comp-Globs : (f : ℕ) (p n : Text) → match_comp f p n ≡ true → Globs p n
match_comp-Globs zero p n h = unfold match_comp in cc h
match_comp-Globs (suc f) [] [] h = done
match_comp-Globs (suc f) [] (x ∷ n) h = unfold match_comp in cc h
match_comp-Globs (suc f) (c ∷ p) n h =
    branch-Globs f (match_comp-Globs f) c p n (head c)
      (sym (match_comp-branch f c p n (head c)) ∙ h)

pub any_suffix-head {ℓ} :
    {A : Type ℓ} (test : List A → Bool) (n : List A) → test n ≡ true → any_suffix test n ≡ true
unfolding any_suffix
any_suffix-head test [] h = h
any_suffix-head test (x ∷ n) h = rw h

pub any_suffix-tail {ℓ} :
    {A : Type ℓ} (test : List A → Bool) (x : A) (n : List A)
    → any_suffix test n ≡ true
    → any_suffix test (x ∷ n) ≡ true
unfolding any_suffix
any_suffix-tail test x n h = ground arith

literal-run :
    (f c x : ℕ) (p n : Text) (h : Head c)
    → plain c p ≡ true
    → c ≡ x
    → match_comp f p n ≡ true
    → match_comp (suc f) (c ∷ p) (x ∷ n) ≡ true
literal-run f c x p n (star e) l q m = absurd (ground arith)
literal-run f c x p n (question e) l q m = absurd (ground arith)
literal-run f c x p n (bracket e) l q m = absurd (ground arith)
literal-run f c x [] n (backslash e) l q m =
    match_comp-branch f c [] (x ∷ n) (backslash e) ∙ rw ((==_iff b'\\' x).1 (sym e ∙ q), m)
literal-run f c x (d ∷ p) n (backslash e) l q m = absurd (ground arith)
literal-run f c x p n (other s k b z) l q m =
    match_comp-branch f c p (x ∷ n) (other s k b z) ∙ rw ((==_iff c x).1 q, m)

-- With enough fuel every match is found.
Globs-match_comp : {p n : Text} → Globs p n → (f : ℕ) → length p < f → match_comp f p n ≡ true
Globs-match_comp done zero h = absurd (omega arith)
Globs-match_comp done (suc f) h = unfold match_comp in refl
Globs-match_comp g zero h = absurd (omega arith)
Globs-match_comp (star_none {c} {p} {n} e g) (suc f) h =
    match_comp-branch f c p n (star e)
    ∙ any_suffix-head (match_comp f p) n (Globs-match_comp g f (omega arith))
Globs-match_comp (star_more {c} {x} {p} {n} e g) (suc f) h =
    let rest = Globs-match_comp g (suc f) h in
    match_comp-branch f c p (x ∷ n) (star e)
    ∙ any_suffix-tail (match_comp f p) x n (sym (match_comp-branch f c p n (star e)) ∙ rest)
Globs-match_comp (any_one {c} {x} {p} {n} e g) (suc f) h =
    match_comp-branch f c p (x ∷ n) (question e) ∙ Globs-match_comp g f (omega arith)
Globs-match_comp (one_of {c} {x} {p} {n} {rest} {negated} {items} e reads m g) (suc f) h =
    let (k, q, admitted) = Brackets-parse_class p negated items rest reads in
    let fits = parse_class-lt p (k, rest) q in
    let within : in_class k x ≡ true = admitted x ∙ m in
    match_comp-branch f c p (x ∷ n) (bracket e)
    ∙ rw (q, with_class) (rw (within, Globs-match_comp g f (omega arith)))
Globs-match_comp (quoted {c} {d} {x} {p} {n} e q g) (suc f) h =
    match_comp-branch f c (d ∷ p) (x ∷ n) (backslash e)
    ∙ rw ((==_iff d x).1 q, Globs-match_comp g f (omega arith))
Globs-match_comp (literal {c} {x} {p} {n} l q g) (suc f) h =
    literal-run f c x p n (head c) l q (Globs-match_comp g f (omega arith))

-- A component matches exactly when the glob describes it, and the fuel is always enough. `*` stands for any text,
-- `?` for any character, a backslash takes the next character as it is, and a class in brackets admits the
-- characters and ranges between them, or with `^` or `!` in front all others. A class that is not closed matches
-- nothing.
pub match_component_iff : (p n : Text) → (match_component p n ≡ true) ↔ Globs p n
unfolding match_component
match_component_iff p n =
    (match_comp-Globs (suc (length p)) p n, λ g. Globs-match_comp g (suc (length p)) (omega arith))
