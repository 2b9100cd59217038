-- ===== src/Util/ResourceName.antt =====
-- crates/util/src/path.rs: `validate_resource_name` and `validate_container_name`.
use ingot_engine.Base.{
  ℕ, ◌≡◌, ◌↔◌, refl, Bool, true, false, not, ◌||◌, Option, none, some, [], ◌∷◌, ◌==◌, any, all,
  elem, Outcome, ok, panic, bail_if, ◌>>◌, arith, and-eq-true, bind-eq-ok, bail_if-eq-ok,
  ok-injective,
}
use mathlib.Core.Path.{subst}
use ingot_engine.Base.Text.{
  Text, codes, same, is_empty, is_control, is_ascii_alphanumeric, strip_prefix,
}

-- The messages of `bail!`, one constructor each.
pub data NameError : Type 0 where
  empty_name dot_name separator control bad_first bad_char : NameError

abbrev pub is_name_char : ℕ → Bool
is_name_char c = is_ascii_alphanumeric c || c == b'_' || c == b'.' || c == b'-'

-- `chars.next().unwrap()`, and the loop over the other characters.
abbrev check_chars : Text → Outcome NameError (Unit {0})
check_chars [] = panic
check_chars (first ∷ rest) = do
  bail_if (not (is_ascii_alphanumeric first)) bad_first
  bail_if (any (λ c. not (is_name_char c)) rest) bad_char
  ok tt

unfoldable pub validate_resource_name : Text → Outcome NameError (Unit {0})
validate_resource_name name = do
  bail_if (is_empty name) empty_name
  bail_if (same name (codes ".") || same name (codes "..")) dot_name
  bail_if (elem b'/' name || elem b'\\' name) separator
  bail_if (any is_control name) control
  check_chars name

abbrev pub unwrap_or : Option Text → Text → Text
unwrap_or none d = d
unwrap_or (some s) d = s

-- An optional `/` in front; the bare name is returned.
unfoldable pub validate_container_name : Text → Outcome NameError Text
validate_container_name name =
    let bare = unwrap_or (strip_prefix (b'/' ∷ []) name) name in
    do validate_resource_name bare; ok bare

-- `[a-zA-Z0-9][a-zA-Z0-9_.-]*`, as the documentation has it.
abbrev pub IsResourceName : Text → Type 0
IsResourceName [] = ⊥
IsResourceName (c ∷ s) = (is_ascii_alphanumeric c ≡ true) × (all is_name_char s ≡ true)

name_char_plain :
    (c : ℕ)
    → is_name_char c ≡ true
    → (is_control c ≡ false) × ((b'/' == c) ≡ false) × ((b'\\' == c) ≡ false)
unfolding is_control is_ascii_alphanumeric
name_char_plain c h = ground arith

all-any : (s : Text) → all is_name_char s ≡ true → any (λ c. not (is_name_char c)) s ≡ false
unfolding any all
all-any [] h = refl
all-any (c ∷ s) h = ground (arith, all-any s)

name_chars_plain :
    (s : Text)
    → all is_name_char s ≡ true
    → (any is_control s ≡ false) × (elem b'/' s ≡ false) × (elem b'\\' s ≡ false)
unfolding any all elem
name_chars_plain [] h = (refl, refl, refl)
name_chars_plain (c ∷ s) h =
    let both = and-eq-true (is_name_char c) (all is_name_char s) h in
    let head = name_char_plain c both.0 in
    let tail = name_chars_plain s both.1 in
    (rw (head.0, tail.0), rw (head.1, tail.1), rw (head.2, tail.2))

pub alphanumeric-name_char : (c : ℕ) → is_ascii_alphanumeric c ≡ true → is_name_char c ≡ true
alphanumeric-name_char c h = rw h

not_dots :
    (c : ℕ) (s : Text)
    → is_ascii_alphanumeric c ≡ true
    → (same (c ∷ s) (codes ".") || same (c ∷ s) (codes "..")) ≡ false
unfolding is_ascii_alphanumeric same
not_dots c s h = ground arith

-- A name of the documented form passes every check.
accepts : (name : Text) → IsResourceName name → validate_resource_name name ≡ ok tt
unfolding validate_resource_name
accepts [] h = absurd h
accepts (c ∷ s) (first, rest) =
    let every : all is_name_char (c ∷ s) ≡ true = unfold all in rw (first, rest) in
    let plain = name_chars_plain (c ∷ s) every in
    rw (not_dots c s first, plain.1, plain.2, plain.0, first, all-any s rest)

any-all : (s : Text) → any (λ c. not (is_name_char c)) s ≡ false → all is_name_char s ≡ true
unfolding any all
any-all [] h = refl
any-all (c ∷ s) h = ground (arith, any-all s)

check_chars-IsResourceName : (name : Text) → check_chars name ≡ ok tt → IsResourceName name
check_chars-IsResourceName [] h = cc
check_chars-IsResourceName (c ∷ s) h =
    let first = bail_if-eq-ok (not (is_ascii_alphanumeric c)) bad_first _ tt h in
    let rest = bail_if-eq-ok (any (λ c. not (is_name_char c)) s) bad_char _ tt first.1 in
    (ground (arith, first.0), any-all s rest.0)

rejects : (name : Text) → validate_resource_name name ≡ ok tt → IsResourceName name
unfolding validate_resource_name
rejects name h =
    let full = bail_if-eq-ok (is_empty name) empty_name _ tt h in
    let no_dots =
      bail_if-eq-ok (same name (codes ".") || same name (codes "..")) dot_name _ tt full.1 in
    let plain = bail_if-eq-ok (elem b'/' name || elem b'\\' name) separator _ tt no_dots.1 in
    let printing = bail_if-eq-ok (any is_control name) control _ tt plain.1 in
    check_chars-IsResourceName name printing.1

-- Exactly the names of the documented form `[a-zA-Z0-9][a-zA-Z0-9_.-]*` are valid.
pub validate_resource_name_iff :
    (name : Text) → (validate_resource_name name ≡ ok tt) ↔ IsResourceName name
validate_resource_name_iff name = (rejects name, accepts name)

no_slash_in_front : (c : ℕ) → is_ascii_alphanumeric c ≡ true → (b'/' == c) ≡ false
unfolding is_ascii_alphanumeric
no_slash_in_front c h = ground arith

-- A resource name is accepted as a container name, as it is and behind a single `/`, and is returned bare.
pub validate_container_name_bare :
    (name : Text)
    → IsResourceName name
    → (validate_container_name name ≡ ok name) × (validate_container_name (b'/' ∷ name) ≡ ok name)
unfolding validate_container_name strip_prefix
validate_container_name_bare [] h = absurd h
validate_container_name_bare (c ∷ s) h =
    let plain = no_slash_in_front c h.0 in
    let valid = accepts (c ∷ s) h in (rw (plain, valid), rw valid)

-- What `validate_container_name` returns is a resource name.
pub validate_container_name-IsResourceName :
    (name bare : Text) → validate_container_name name ≡ ok bare → IsResourceName bare
unfolding validate_container_name
validate_container_name-IsResourceName name bare h =
    let (u, e, v) =
      bind-eq-ok _ (validate_resource_name (unwrap_or (strip_prefix (b'/' ∷ []) name) name)) bare
        h in
    subst IsResourceName (ok-injective e) (rejects _ v)
