-- ===== src/Util/Ignore/Parts.antt =====
-- What a whole pattern matches: the components one by one, `**` across components, directories with all
-- that lies beneath them.
use native.Mathlib.Decide.{dec_lt}
use ingot_engine.Base.{
  ℕ, zero, suc, ◌+◌, ◌≤◌, ◌<◌, ◌≡◌, ◌↔◌, refl, sym, ◌∙◌, Bool, true, false, ◌&&◌, List, [], ◌∷◌,
  Bool-cases, inl, inr, arith,
}
use ingot_engine.Base.Text.{Text}
use ingot_engine.Util.Ignore.Glob.{any_suffix, match_component}
use ingot_engine.Util.Ignore.Glob.Spec.{
  Globs, match_component_iff, any_suffix-head, any_suffix-tail, first_and_rest-cons,
}
use ingot_engine.Util.Ignore.Parse.{is_stars}
use ingot_engine.Util.Ignore.{match_parts, any_range}

pub data PartsMatch : List Text → List Text → Type 0 where
  done : PartsMatch [] []
  span_none :
      {part : Text} {ps cs : List Text}
      → is_stars part ≡ true
      → PartsMatch ps cs
      → PartsMatch (part ∷ ps) cs
  span_more :
      {part c : Text} {ps cs : List Text}
      → is_stars part ≡ true
      → PartsMatch (part ∷ ps) cs
      → PartsMatch (part ∷ ps) (c ∷ cs)
  one :
      {part c : Text} {ps cs : List Text}
      → is_stars part ≡ false
      → Globs part c
      → PartsMatch ps cs
      → PartsMatch (part ∷ ps) (c ∷ cs)

match_parts-stars :
    (part : Text) (ps cs : List Text)
    → is_stars part ≡ true
    → match_parts (part ∷ ps) cs ≡ any_suffix (match_parts ps) cs
unfolding match_parts
match_parts-stars part ps cs h = rw h

match_parts-one :
    (part c : Text) (ps cs : List Text)
    → is_stars part ≡ false
    → match_parts (part ∷ ps) (c ∷ cs) ≡ (match_component part c && match_parts ps cs)
unfolding match_parts
match_parts-one part c ps cs h = rw h

match_parts-empty :
    (part : Text) (ps : List Text) → is_stars part ≡ false → match_parts (part ∷ ps) [] ≡ false
unfolding match_parts
match_parts-empty part ps h = rw h

span-PartsMatch :
    (part : Text) (ps : List Text) (test : List Text → Bool)
    → is_stars part ≡ true
    → ((cs : List Text) → test cs ≡ true → PartsMatch ps cs)
    → (cs : List Text) → any_suffix test cs ≡ true
    → PartsMatch (part ∷ ps) cs
unfolding any_suffix
span-PartsMatch part ps test e ih [] h = span_none e (ih [] h)
span-PartsMatch part ps test e ih (c ∷ cs) h = elim (Bool-cases (test (c ∷ cs))) [
  | inl t ↦ span_none e (ih (c ∷ cs) t)
  | inr t ↦ span_more e (span-PartsMatch part ps test e ih cs (rw t at h))
]

one-PartsMatch :
    (part : Text) (ps cs : List Text)
    → is_stars part ≡ false
    → ((ds : List Text) → match_parts ps ds ≡ true → PartsMatch ps ds)
    → match_parts (part ∷ ps) cs ≡ true
    → PartsMatch (part ∷ ps) cs
one-PartsMatch part ps [] n ih h = cc (match_parts-empty part ps n)
one-PartsMatch part ps (c ∷ cs) n ih h =
    let both =
      first_and_rest-cons (match_component part c) (match_parts ps cs)
        (sym (match_parts-one part c ps cs n) ∙ h) in
    one n ((match_component_iff part c).0 both.0) (ih cs both.1)

match_parts-PartsMatch : (ps cs : List Text) → match_parts ps cs ≡ true → PartsMatch ps cs
match_parts-PartsMatch [] [] h = done
match_parts-PartsMatch [] (c ∷ cs) h = unfold match_parts in cc h
match_parts-PartsMatch (part ∷ ps) cs h = elim (Bool-cases (is_stars part)) [
  | inl s ↦
      span-PartsMatch part ps (match_parts ps) s (match_parts-PartsMatch ps) cs
        (sym (match_parts-stars part ps cs s) ∙ h)
  | inr n ↦ one-PartsMatch part ps cs n (match_parts-PartsMatch ps) h
]

PartsMatch-match_parts : {ps cs : List Text} → PartsMatch ps cs → match_parts ps cs ≡ true
PartsMatch-match_parts done = unfold match_parts in refl
PartsMatch-match_parts (span_none {part} {ps} {cs} s g) =
    match_parts-stars part ps cs s ∙ any_suffix-head (match_parts ps) cs (PartsMatch-match_parts g)
PartsMatch-match_parts (span_more {part} {c} {ps} {cs} s g) =
    match_parts-stars part ps (c ∷ cs) s
    ∙ any_suffix-tail (match_parts ps) c cs
        (sym (match_parts-stars part ps cs s) ∙ PartsMatch-match_parts g)
PartsMatch-match_parts (one {part} {c} {ps} {cs} n g r) =
    match_parts-one part c ps cs n ∙ rw ((match_component_iff part c).1 g, PartsMatch-match_parts r)

-- The components match the parts exactly when each part but `**` describes one component, in order, and
-- each `**` takes any run of components.
pub match_parts_iff : (ps cs : List Text) → (match_parts ps cs ≡ true) ↔ PartsMatch ps cs
match_parts_iff ps cs = (match_parts-PartsMatch ps cs, PartsMatch-match_parts)

pub any_range-index :
    (n from : ℕ) (f : ℕ → Bool)
    → any_range n from f ≡ true
    → (i : ℕ) × (from ≤ i) × (i < from + n) × (f i ≡ true)
unfolding any_range
any_range-index zero from f h = cc
any_range-index (suc n) from f h = elim (Bool-cases (f from)) [
  | inl e ↦ (from, omega arith, omega arith, e)
  | inr e ↦
      let (i, a, b, p) = any_range-index n (from + 1) f (rw e at h) in
      (i, omega arith, omega arith, p)
]

pub index-any_range :
    (n from : ℕ) (f : ℕ → Bool) (i : ℕ)
    → from ≤ i
    → i < from + n
    → f i ≡ true
    → any_range n from f ≡ true
unfolding any_range
index-any_range zero from f i a b p = absurd (omega arith)
index-any_range (suc n) from f i a b p = elim (dec_lt from i) [
  | yes l ↦
      let rest = index-any_range n (from + 1) f i (omega arith) (omega arith) p in ground arith
  | no l ↦ let e : from ≡ i = omega arith in rw (e, p)
]
