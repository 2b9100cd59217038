-- ===== src/Util/Ignore/Glob.antt =====
-- `match_component`, `match_comp` and `parse_class` of ignore.rs: one component against a glob.
pub mod Spec
pub mod Bracketed
pub mod ClassReads
pub mod ClassMakes
pub mod Classes
use ingot_engine.Base.{
  ℕ, zero, suc, ◌+◌, ◌≤◌, ◌<◌, ◌≡◌, Bool, true, false, not, ◌&&◌, ◌||◌, Option, none, some, List,
  [], ◌∷◌, ◌==◌, if◌then◌else◌, leb, length, elem, any,
}
use ingot_engine.Base.Text.{Text}

-- `(0..=xs.len()).any(|skip| f(&xs[skip..]))`.
unfoldable pub any_suffix {ℓ} : {A : Type ℓ} → (List A → Bool) → List A → Bool
any_suffix f [] = f []
any_suffix f (x ∷ xs) = f (x ∷ xs) || any_suffix f xs

pub record Class : Type 0 where
  pub negate : Bool
  pub singles : List ℕ
  pub members : List (ℕ × ℕ)

abbrev pub xor : Bool → Bool → Bool
xor true b = not b
xor false b = b

-- The predicate that `parse_class` returns.
unfoldable pub in_class : Class → ℕ → Bool
in_class k c =
    xor (elem c k.singles || any (λ (m : ℕ × ℕ). leb m.0 c && leb c m.1) k.members) k.negate

abbrev add_single : ℕ → Class → Class
add_single c k = record k { singles = c ∷ k.singles }

abbrev add_range : ℕ → ℕ → Class → Class
add_range lo hi k = record k { members = (lo, hi) ∷ k.members }

-- The loop of `parse_class`; at the end of the text the class is unclosed.
unfoldable pub class_items : Class → Text → Option (Class × Text)
class_items k [] = none
class_items k (a ∷ []) = if a == b']' then some (k, []) else none
class_items k (a ∷ b ∷ []) =
    let one = class_items (add_single a k) (b ∷ []) in
    if a == b']' then some (k, b ∷ []) else if a == b'\\' then none else one
class_items k (a ∷ b ∷ c ∷ s) =
    let escaped = class_items (add_single b k) (c ∷ s) in
    let range = class_items (add_range a c k) s in
    let one = class_items (add_single a k) (b ∷ c ∷ s) in
    if a == b']'
    then some (k, b ∷ c ∷ s)
    else if a == b'\\'
    then escaped
    else if b == b'-' && not (c == b']')
    then range
    else one

-- A `]` right behind the opening is literal.
abbrev first_literal : Bool → Text → Option (Class × Text)
first_literal negate [] = none
first_literal negate (c ∷ s) =
    if c == b']'
    then class_items (record { negate = negate; singles = c ∷ []; members = [] }) s
    else class_items (record { negate = negate; singles = []; members = [] }) (c ∷ s)

-- On the text behind the `[`.
unfoldable pub parse_class : Text → Option (Class × Text)
unfolding class_items
parse_class [] = none
parse_class (c ∷ s) =
    if c == b'^' || c == b'!' then first_literal true s else first_literal false (c ∷ s)

-- `!n.is_empty() && test(n[0]) && go(&n[1..])`.
abbrev pub first_and_rest : (ℕ → Bool) → (Text → Bool) → Text → Bool
first_and_rest test go [] = false
first_and_rest test go (x ∷ n) = test x && go n

abbrev pub with_class : (Text → Text → Bool) → Option (Class × Text) → Text → Bool
with_class go none n = false
with_class go (some (k, rest)) n = first_and_rest (in_class k) (go rest) n

-- `'\\' if p.len() > 1`; a last backslash is literal.
abbrev pub escaped : (Text → Text → Bool) → Text → Text → Bool
escaped go [] n = first_and_rest (λ x. b'\\' == x) (go []) n
escaped go (c ∷ p) n = first_and_rest (λ x. c == x) (go p) n

-- The fuel bounds the length of the pattern.
unfoldable pub match_comp : ℕ → Text → Text → Bool
match_comp zero p n = false
match_comp (suc f) [] n = elim n [ [] ↦ true | _ ∷ _ ↦ false ]
match_comp (suc f) (c ∷ p) n =
    let star = any_suffix (match_comp f p) n in
    let one = first_and_rest (λ x. true) (match_comp f p) n in
    let class = with_class (match_comp f) (parse_class p) n in
    let quoted = escaped (match_comp f) p n in
    let literal = first_and_rest (λ x. c == x) (match_comp f p) n in
    if c == b'*'
    then star
    else if c == b'?'
    then one
    else if c == b'['
    then class
    else if c == b'\\'
    then quoted
    else literal

unfoldable pub match_component : Text → Text → Bool
match_component p n = match_comp (suc (length p)) p n
