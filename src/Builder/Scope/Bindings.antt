-- ===== src/Builder/Scope/Bindings.antt =====
-- What a name is bound to: by `merge_scope`, and behind an `ENV`.
use mathlib.Core.Path.{subst}
use ingot_engine.Base.{
  ℕ, ◌≡◌, ◌∙◌, refl, sym, ap, Bool, true, false, not, ◌&&◌, Option, none, some, List, [], ◌∷◌, ◌++◌,
  ◌==◌, if◌then◌else◌, any, keep, elem, arith, Bool-cases, Option-cases, inl, inr,
}
use ingot_engine.Base.Text.{
  Text, same, same_iff, starts_with, strip_prefix, split_once, split_once_at, prepend,
}
use ingot_engine.Base.Text.Split.{split_once-append}
use ingot_engine.Builder.Expand.{Env, find_var}
use ingot_engine.Builder.Scope.{
  or_else, StageArgs, is_bound, pushed_arg, merge_scope, onto_pairs, env_pairs, entry, set_env,
}

pub find_var-append :
    (n : Text) (a b : Env) → find_var n (a ++ b) ≡ or_else (find_var n a) (find_var n b)
unfolding find_var
find_var-append n [] b = refl
find_var-append n ((k, v) ∷ a) b = elim (Bool-cases (same k n)) [
  | inl e ↦ rw e refl
  | inr e ↦ rw e (find_var-append n a b)
]

find_var-unbound : (n : Text) (a : Env) → is_bound n a ≡ false → find_var n a ≡ none
unfolding find_var any
find_var-unbound n [] h = refl
find_var-unbound n ((k, v) ∷ a) h = elim (Bool-cases (same k n)) [
  | inl e ↦ let here = rw e at h in cc
  | inr e ↦ rw e (find_var-unbound n a (rw e at h))
]

find_var-bound :
    (n : Text) (a : Env) (o : Option Text)
    → is_bound n a ≡ true
    → or_else (find_var n a) o ≡ find_var n a
unfolding find_var any
find_var-bound n [] o h = cc
find_var-bound n ((k, v) ∷ a) o h = elim (Bool-cases (same k n)) [
  | inl e ↦ rw e refl
  | inr e ↦ rw e (find_var-bound n a o (rw e at h))
]

-- The value of the name among the arguments of the stage: that of its entry, if it has one.
unfoldable pub arg_value : Text → StageArgs → Option Text
arg_value n [] = none
arg_value n ((k, v) ∷ stage) =
    let rest = arg_value n stage in if same k n then or_else v rest else rest

or_else_assoc : (a b c : Option Text) → or_else (or_else a b) c ≡ or_else a (or_else b c)
or_else_assoc none b c = refl
or_else_assoc (some v) b c = refl

or_else-none : (a : Option Text) → or_else a none ≡ a
or_else-none none = refl
or_else-none (some v) = refl

abbrev its_value : Text → Text → Option Text → Option Text
its_value k n v = if same k n then v else none

find_var-pushed_arg :
    (n k : Text) (v : Option Text) (out : Env)
    → find_var n (pushed_arg k v out) ≡ or_else (find_var n out) (its_value k n v)
unfolding find_var
find_var-pushed_arg n k none out = elim (Bool-cases (same k n)) [
  | inl e ↦ rw e (sym (or_else-none (find_var n out)))
  | inr e ↦ rw e (sym (or_else-none (find_var n out)))
]
find_var-pushed_arg n k (some v) out = elim (Bool-cases (is_bound k out)) [
  | inl b ↦ elim (Bool-cases (same k n)) [
    | inl e ↦
        let here : k ≡ n = (same_iff k n).0 e in
        rw (b, e) (sym (find_var-bound n out (some v) (rw here at b)))
    | inr e ↦ rw (b, e) (sym (or_else-none (find_var n out)))
  ]
  | inr b ↦ rw b (find_var-append n out ((k, v) ∷ []))
]

-- In the scope of an instruction a name has the value that the environment gives it, and only where the
-- environment has none the value of the stage's argument.
pub find_var-merge_scope :
    (n : Text) (env : Env) (stage : StageArgs)
    → find_var n (merge_scope env stage) ≡ or_else (find_var n env) (arg_value n stage)
unfolding merge_scope arg_value
find_var-merge_scope n env [] = sym (or_else-none (find_var n env))
find_var-merge_scope n env ((k, v) ∷ stage) =
    find_var-merge_scope n (pushed_arg k v env) stage
    ∙ ap (λ o. or_else o (arg_value n stage)) (find_var-pushed_arg n k v env)
    ∙ or_else_assoc (find_var n env) (its_value k n v) (arg_value n stage)
    ∙ ap (or_else (find_var n env))
        (elim (Bool-cases (same k n)) [ inl e ↦ rw e refl | inr e ↦ rw e refl ])

is_some-if :
    (b : Bool) (o : Option Text)
    → elim (if b then o else none) [ none ↦ false | some r ↦ true ]
      ≡ (b && elim o [ none ↦ false | some r ↦ true ])
is_some-if true o = refl
is_some-if false o = refl

starts_with-cons :
    (p c : ℕ) (ps s : Text) → starts_with (p ∷ ps) (c ∷ s) ≡ (p == c && starts_with ps s)
unfolding starts_with strip_prefix
starts_with-cons p c ps s = is_some-if (p == c) (strip_prefix ps s)

-- Is the text an entry of `k`?
abbrev keyed : Text → Option (Text × Text) → Bool
keyed k none = false
keyed k (some (j, v)) = same j k

keyed-prepend : (x : ℕ) (k : Text) (o : Option (Text × Text)) → keyed [] (prepend x o) ≡ false
unfolding same
keyed-prepend x k none = refl
keyed-prepend x k (some (a, b)) = refl

keyed-prepend_cons :
    (x c : ℕ) (k : Text) (o : Option (Text × Text))
    → keyed (c ∷ k) (prepend x o) ≡ (c == x && keyed k o)
unfolding same
keyed-prepend_cons x c k none = ground arith
keyed-prepend_cons x c k (some (a, b)) = ground arith

starts_with-entry :
    (k e : Text) → elem b'=' k ≡ false → starts_with (entry k []) e ≡ keyed k (split_once b'=' e)
unfolding split_once_at elem
starts_with-entry [] [] h = unfold starts_with strip_prefix in refl
starts_with-entry (c ∷ k) [] h = unfold starts_with strip_prefix in refl
starts_with-entry [] (x ∷ s) h = elim (Bool-cases (x == b'=')) [
  | inl e ↦
      let back : (b'=' == x) ≡ true = ground arith in
      rw e (starts_with-cons b'=' x [] s ∙ rw back (unfold starts_with strip_prefix same in refl))
  | inr e ↦
      let back : (b'=' == x) ≡ false = ground arith in
      rw e (starts_with-cons b'=' x [] s ∙ rw back (sym (keyed-prepend x [] (split_once b'=' s))))
]
starts_with-entry (c ∷ k) (x ∷ s) h = elim (Bool-cases (x == b'=')) [
  | inl e ↦
      let apart : (c == x) ≡ false = ground arith in
      rw e (starts_with-cons c x (entry k []) s ∙ rw apart (unfold same in refl))
  | inr e ↦
      let rest : elem b'=' k ≡ false = ground arith in
      rw e (
        starts_with-cons c x (entry k []) s
        ∙ rw (starts_with-entry k s rest) (sym (keyed-prepend_cons x c k (split_once b'=' s))))
]

find_var-onto_pairs :
    (n k : Text) (o : Option (Text × Text)) (x y : Env)
    → same k n ≡ false
    → find_var n x ≡ find_var n y
    → find_var n (if not (keyed k o) then onto_pairs o x else x) ≡ find_var n (onto_pairs o y)
unfolding find_var
find_var-onto_pairs n k none x y d h = h
find_var-onto_pairs n k (some (j, v)) x y d h =
    ground (arith, same_iff j k, same_iff k n, same_iff j n)

module _ (k : Text) (plain : elem b'=' k ≡ false) where
  abbrev without : List Text → List Text
  without env = keep (λ e. not (starts_with (entry k []) e)) env

  pairs-without :
      (e : Text) (env : List Text)
      → env_pairs (without (e ∷ env)) ≡ (
          if not (keyed k (split_once b'=' e))
          then onto_pairs (split_once b'=' e) (env_pairs (without env))
          else env_pairs (without env))
  unfolding env_pairs keep
  pairs-without e env =
      ap (λ b. env_pairs (if not b then e ∷ without env else without env))
        (starts_with-entry k e plain)
      ∙ (elim (Bool-cases (keyed k (split_once b'=' e))) [ inl y ↦ rw y refl | inr y ↦ rw y refl ])

  find_var-without :
      (n : Text) (env : List Text)
      → same k n ≡ false
      → find_var n (env_pairs (without env)) ≡ find_var n (env_pairs env)
  unfolding env_pairs keep
  find_var-without n [] d = refl
  find_var-without n (e ∷ env) d =
      ap (find_var n) (pairs-without e env)
      ∙ find_var-onto_pairs n k (split_once b'=' e) (env_pairs (without env)) (env_pairs env) d
          (find_var-without n env d)

  gone :
      (o : Option (Text × Text)) (x : Env)
      → find_var k x ≡ none
      → find_var k (if not (keyed k o) then onto_pairs o x else x) ≡ none
  unfolding find_var
  gone none x h = h
  gone (some (j, v)) x h = ground arith

  find_var-without_self : (env : List Text) → find_var k (env_pairs (without env)) ≡ none
  unfolding env_pairs find_var keep
  find_var-without_self [] = refl
  find_var-without_self (e ∷ env) =
      ap (find_var k) (pairs-without e env)
      ∙ gone (split_once b'=' e) (env_pairs (without env)) (find_var-without_self env)

env_pairs-append : (a b : List Text) → env_pairs (a ++ b) ≡ env_pairs a ++ env_pairs b
unfolding env_pairs
env_pairs-append [] b = refl
env_pairs-append (e ∷ a) b = elim (Option-cases (split_once b'=' e)) [
  | inl x ↦ rw x (env_pairs-append a b)
  | inr (kv, x) ↦ rw x (ap (λ r. kv ∷ r) (env_pairs-append a b))
]

-- Behind `set_env` the key has the new value and every other name the value that it had, if the key has
-- no `=`.
pub find_var-set_env :
    (k v n : Text) (env : List Text)
    → elem b'=' k ≡ false
    → find_var n (env_pairs (set_env k v env))
      ≡ (if same k n then some v else find_var n (env_pairs env))
unfolding set_env find_var env_pairs
find_var-set_env k v n env plain =
    ap (find_var n) (env_pairs-append (without k plain env) (entry k v ∷ []))
    ∙ find_var-append n (env_pairs (without k plain env)) (env_pairs (entry k v ∷ []))
    ∙ rw (split_once-append b'=' k v plain) (elim (Bool-cases (same k n)) [
      | inl e ↦
          let here : k ≡ n = (same_iff k n).0 e in
          rw e (
            ap (λ o. or_else o (some v))
              (subst (λ m. find_var m (env_pairs (without k plain env)) ≡ none) here
                (find_var-without_self k plain env)))
      | inr e ↦ rw e (or_else-none _ ∙ find_var-without k plain n env e)
    ])
