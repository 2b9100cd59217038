-- ===== src/Builder/Expand/Pieces.antt =====
-- `expand_vars` against a reading of the text in pieces.
use mathlib.Core.List.{append_assoc}
use ingot_engine.Base.{
  ℕ, zero, ◌+◌, ◌≡◌, refl, ap, ◌∙◌, Bool, true, false, ◌||◌, some, List, [], ◌∷◌, ◌++◌, ◌==◌, elem,
  length, arith, all, length-append, none, ◌&&◌, Bool-cases, inl, inr,
}
use ingot_engine.Base.Maps.{lookup}
use ingot_engine.Base.Text.{Text, split_once}
use ingot_engine.Base.Text.Split.{split_once-append}
use ingot_engine.Builder.Given.{Given, is_alphabetic, is_alphanumeric}
use ingot_engine.Builder.Expand.{
  Env, find_var, split_default, or_text, braced, var_name, starts_name, expand_from, expand_vars,
}

pub data Piece : Type 0 where
  literal braces bare : Text → Piece
  defaulted : (name default : Text) → Piece

unfoldable pub text_of : Piece → Text
text_of (literal t) = t
text_of (braces n) = b'$' ∷ b'{' ∷ (n ++ (b'}' ∷ []))
text_of (bare n) = b'$' ∷ n
text_of (defaulted n d) = b'$' ∷ b'{' ∷ ((n ++ (b':' ∷ b'-' ∷ d)) ++ (b'}' ∷ []))

-- A variable is looked up in the environment as in a map; without a value it is empty, or its default.
unfoldable pub value_of : Env → Piece → Text
value_of env (literal t) = t
value_of env (braces n) = or_text (lookup n env) []
value_of env (bare n) = or_text (lookup n env) []
value_of env (defaulted n d) = or_text (lookup n env) d

-- Is there a `:-`?
unfoldable pub has_mark : Text → Bool
has_mark [] = false
has_mark (a ∷ []) = false
has_mark (a ∷ b ∷ s) = a == b':' && b == b'-' || has_mark (b ∷ s)

unfoldable pub texts : List Piece → Text
unfolding text_of
texts [] = []
texts (p ∷ ps) = text_of p ++ texts ps

unfoldable pub values : Env → List Piece → Text
unfolding value_of
values env [] = []
values env (p ∷ ps) = value_of env p ++ values env ps

abbrev pub goes_on : Given → Text → Bool
goes_on g [] = false
goes_on g (c ∷ s) = is_alphanumeric g c || c == b'_'

-- A literal holds no `$`, what stands in braces no `}` and a name there no `:-`, and a bare name is a longest
-- one.
abbrev pub ReadsAs : Given → List Piece → Type 0
ReadsAs g [] = Unit
ReadsAs g (literal t ∷ ps) = (elem b'$' t ≡ false) × ReadsAs g ps
ReadsAs g (braces n ∷ ps) = (elem b'}' n ≡ false) × (has_mark n ≡ false) × ReadsAs g ps
ReadsAs g (defaulted n d ∷ ps) =
    (elem b'}' (n ++ (b':' ∷ b'-' ∷ d)) ≡ false) × (has_mark n ≡ false) × ReadsAs g ps
ReadsAs g (bare n ∷ ps) =
    (starts_name g n ≡ true)
    × (all (λ c. is_alphanumeric g c || c == b'_') n ≡ true)
    × (goes_on g (texts ps) ≡ false)
    × ReadsAs g ps

find_var-lookup : (name : Text) (env : Env) → find_var name env ≡ lookup name env
unfolding find_var lookup
find_var-lookup name [] = refl
find_var-lookup name ((k, v) ∷ env) = ground (arith, find_var-lookup name env)

split_default-none : (n : Text) → has_mark n ≡ false → split_default n ≡ none
unfolding split_default has_mark
split_default-none [] h = refl
split_default-none (a ∷ []) h = refl
split_default-none (a ∷ b ∷ s) h = elim (Bool-cases (a == b':' && b == b'-')) [
  | inl m ↦ let here = rw m at h in cc here
  | inr m ↦
      let rest : has_mark (b ∷ s) ≡ false = ground arith in
      rw (m, split_default-none (b ∷ s) rest) refl
]

split_default-append :
    (n d : Text) → has_mark n ≡ false → split_default (n ++ (b':' ∷ b'-' ∷ d)) ≡ some (n, d)
unfolding split_default has_mark
split_default-append [] d h = refl
split_default-append (a ∷ []) d h =
    let no : (a == b':' && b':' == b'-') ≡ false = ground arith in rw no refl
split_default-append (a ∷ b ∷ s) d h = elim (Bool-cases (a == b':' && b == b'-')) [
  | inl m ↦ let here = rw m at h in cc here
  | inr m ↦
      let rest : has_mark (b ∷ s) ≡ false = ground arith in
      rw (m, split_default-append (b ∷ s) d rest) refl
]

module _ (env : Env) where
  braced-none : (n : Text) → split_default n ≡ none → braced env n ≡ or_text (lookup n env) []
  unfolding braced
  braced-none n e = rw (e, braced) (ap (λ o. or_text o []) (find_var-lookup n env))

  braced-default :
      (s n d : Text) → split_default s ≡ some (n, d) → braced env s ≡ or_text (lookup n env) d
  unfolding braced
  braced-default s n d e = rw (e, braced) (ap (λ o. or_text o d) (find_var-lookup n env))

module _ (g : Given) (env : Env) where
  expand_from-skip : (a s : Text) → expand_from g env (length a) (a ++ s) ≡ expand_from g env zero s
  unfolding expand_from
  expand_from-skip [] s = refl
  expand_from-skip (c ∷ a) s = expand_from-skip a s

  expand_from-plain :
      (c : ℕ) (s : Text)
      → (c == b'$') ≡ false
      → expand_from g env zero (c ∷ s) ≡ c ∷ expand_from g env zero s
  unfolding expand_from
  expand_from-plain c s h = rw h

  expand_from-literal :
      (t s : Text)
      → elem b'$' t ≡ false
      → expand_from g env zero (t ++ s) ≡ t ++ expand_from g env zero s
  unfolding elem
  expand_from-literal [] s h = refl
  expand_from-literal (c ∷ t) s h =
      expand_from-plain c (t ++ s) (ground arith)
      ∙ ap (◌∷◌ c) (expand_from-literal t s (ground arith))

  expand_from-closed :
      (n s : Text)
      → split_once b'}' (n ++ (b'}' ∷ s)) ≡ some (n, s)
      → expand_from g env zero (b'$' ∷ b'{' ∷ (n ++ (b'}' ∷ s)))
        ≡ braced env n ++ expand_from g env (length n + 2) (b'{' ∷ (n ++ (b'}' ∷ s)))
  unfolding expand_from
  expand_from-closed n s e = rw e

  braces_skip :
      (n s : Text)
      → expand_from g env (length n + 2) (b'{' ∷ (n ++ (b'}' ∷ s))) ≡ expand_from g env zero s
  braces_skip n s =
      let len : length n + 2 ≡ length (b'{' ∷ (n ++ (b'}' ∷ []))) =
        omega (arith, length-append n (b'}' ∷ [])) in
      rw (len, ← append_assoc n (b'}' ∷ []) s) (expand_from-skip (b'{' ∷ (n ++ (b'}' ∷ []))) s)

  expand_from-braces :
      (n s : Text)
      → elem b'}' n ≡ false
      → expand_from g env zero (b'$' ∷ b'{' ∷ (n ++ (b'}' ∷ s)))
        ≡ braced env n ++ expand_from g env zero s
  expand_from-braces n s h =
      expand_from-closed n s (split_once-append b'}' n s h)
      ∙ ap (λ x. braced env n ++ x) (braces_skip n s)

  var_name-append :
      (n s : Text)
      → all (λ c. is_alphanumeric g c || c == b'_') n ≡ true
      → goes_on g s ≡ false
      → var_name g (n ++ s) ≡ n
  unfolding var_name all
  var_name-append [] [] h k = refl
  var_name-append [] (c ∷ s) h k = rw k
  var_name-append (c ∷ n) s h k = ground (arith, var_name-append n s)

  no_brace : (c : ℕ) (n : Text) → starts_name g (c ∷ n) ≡ true → (c == b'{') ≡ false
  unfolding is_alphabetic
  no_brace c n h = ground arith

  expand_from-bare :
      (n s : Text)
      → starts_name g n ≡ true
      → var_name g (n ++ s) ≡ n
      → expand_from g env zero (b'$' ∷ (n ++ s))
        ≡ or_text (find_var n env) [] ++ expand_from g env zero s
  unfolding expand_from
  expand_from-bare [] s h e = cc h
  expand_from-bare (c ∷ n) s h e =
      rw (no_brace c n h, h, e)
        (ap (λ x. or_text (find_var (c ∷ n) env) [] ++ x) (expand_from-skip (c ∷ n) s))

  expand_from-texts :
      (ps : List Piece) → ReadsAs g ps → expand_from g env zero (texts ps) ≡ values env ps
  unfolding texts text_of values value_of
  expand_from-texts [] h = unfold expand_from in refl
  expand_from-texts (literal t ∷ ps) h =
      expand_from-literal t (texts ps) h.0 ∙ ap (λ x. t ++ x) (expand_from-texts ps h.1)
  expand_from-texts (braces n ∷ ps) h = rw (append_assoc n (b'}' ∷ []) (texts ps)) (
      expand_from-braces n (texts ps) h.0
      ∙ ap (λ x. x ++ expand_from g env zero (texts ps))
          (braced-none env n (split_default-none n h.1))
      ∙ ap (λ x. or_text (lookup n env) [] ++ x) (expand_from-texts ps h.2))
  expand_from-texts (defaulted n d ∷ ps) h =
      let inner = n ++ (b':' ∷ b'-' ∷ d) in
      rw (append_assoc inner (b'}' ∷ []) (texts ps)) (
        expand_from-braces inner (texts ps) h.0
        ∙ ap (λ x. x ++ expand_from g env zero (texts ps))
            (braced-default env inner n d (split_default-append n d h.1))
        ∙ ap (λ x. or_text (lookup n env) d ++ x) (expand_from-texts ps h.2))
  expand_from-texts (bare n ∷ ps) h =
      expand_from-bare n (texts ps) h.0 (var_name-append n (texts ps) h.1 h.2)
      ∙ ap (λ x. x ++ expand_from g env zero (texts ps))
          (ap (λ o. or_text o []) (find_var-lookup n env))
      ∙ ap (λ x. or_text (lookup n env) [] ++ x) (expand_from-texts ps h.3)

  -- A text that is a sequence of literals without `$`, of `${NAME}`, of `${NAME:-DEFAULT}` and of bare `$NAME`
  -- with its longest name, none with a `}` in its braces or a `:-` in a name there, expands to the literals and
  -- to what the environment has for the names, in that order; a name without a value gives its default, or
  -- nothing.
  pub expand_vars-texts :
      (ps : List Piece) → ReadsAs g ps → expand_vars g env (texts ps) ≡ values env ps
  unfolding expand_vars
  expand_vars-texts ps = expand_from-texts ps
