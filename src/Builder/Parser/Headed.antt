-- ===== src/Builder/Parser/Headed.antt =====
-- What a parsed Dockerfile begins with.
use ingot_engine.Base.{
  ℕ, ◌≡◌, refl, ap, Bool, true, false, not, Option, none, some, List, [], ◌∷◌, ◌++◌, any, take, All,
  ◌>>=◌, ◌>>◌, ok, bail_if, ok_or, bail_if-eq-ok, bind-eq-ok, ok-injective, arith, Bool-cases, inl,
  inr,
}
use mathlib.Core.Path.{subst}
use ingot_engine.Base.Text.{Text, codes, same_iff, lines}
use ingot_engine.Builder.Given.{Given}
use ingot_engine.Builder.Parser.{
  Instruction, ParseError, has_verb, position, next_index, check_from, no_list, parse, parse_loop,
  last_flush, start,
}

-- Global ARGs, and then a FROM.
pub record Headed (is : List Instruction) : Type 0 where
  pub before : List Instruction
  pub from : Instruction
  pub after : List Instruction
  pub splits : is ≡ before ++ from ∷ after
  pub args : All (λ i. i.verb ≡ codes "ARG") before
  pub base : from.verb ≡ codes "FROM"

abbrev AtPosition : List Instruction → Option ℕ → Type 0
AtPosition is none = Unit
AtPosition is (some n) =
    (from : Instruction) × (after : List Instruction) × (is ≡ take n is ++ from ∷ after)
    × (from.verb ≡ codes "FROM")

module _ {ℓ} {A : Type ℓ} (p : A → Bool) (x : A) (xs : List A) where
  position-cons : p x ≡ false → position p (x ∷ xs) ≡ next_index (position p xs)
  unfolding position
  position-cons h = rw (position, h)

  position_hit : p x ≡ true → position p (x ∷ xs) ≡ some 0
  unfolding position
  position_hit h = rw (position, h)

next-AtPosition :
    (i : Instruction) (is : List Instruction) (o : Option ℕ)
    → AtPosition is o
    → AtPosition (i ∷ is) (next_index o)
next-AtPosition i is none h = tt
next-AtPosition i is (some n) (from, after, e, v) = (from, after, ap (◌∷◌ i) e, v)

position-AtPosition :
    (is : List Instruction) → AtPosition is (position (has_verb (codes "FROM")) is)
position-AtPosition [] = unfold position in tt
position-AtPosition (i ∷ is) = elim (Bool-cases (has_verb (codes "FROM") i)) [
  | inl e ↦
      rw (position_hit (has_verb (codes "FROM")) i is e)
        (i, is, refl, (same_iff i.verb (codes "FROM")).0 e)
  | inr e ↦
      rw (position-cons (has_verb (codes "FROM")) i is e)
        (next-AtPosition i is (position (has_verb (codes "FROM")) is) (position-AtPosition is))
]

args-All :
    (is : List Instruction)
    → any (λ i. not (has_verb (codes "ARG") i)) is ≡ false
    → All (λ i. i.verb ≡ codes "ARG") is
unfolding any
args-All [] h = tt
args-All (i ∷ is) h = ((same_iff i.verb (codes "ARG")).0 (ground arith), args-All is (ground arith))

found-Headed :
    (is out : List Instruction) (o : Option ℕ)
    → AtPosition is o
    → (ok_or o ParseError.no_from >>= λ pos.
        bail_if (any (λ i. not (has_verb (codes "ARG") i)) (take pos is)) ParseError.not_from_first
        >> ok is)
      ≡ ok out
    → Headed out
found-Headed is out none h e = cc e
found-Headed is out (some n) (from, after, s, v) e =
    let args =
      bail_if-eq-ok (any (λ i. not (has_verb (codes "ARG") i)) (take n is))
        ParseError.not_from_first _ out e in
    subst Headed (ok-injective args.1) (record {
      before = take n is;
      from = from;
      after = after;
      splits = s;
      args = args-All (take n is) args.0;
      base = v;
    })

check_from-Headed : (is out : List Instruction) → check_from is ≡ ok out → Headed out
unfolding check_from
check_from-Headed is out h =
    let some_one = bail_if-eq-ok (no_list is) ParseError.no_instructions _ out h in
    found-Headed is out (position (has_verb (codes "FROM")) is) (position-AtPosition is) some_one.1

-- A Dockerfile that parses consists of any number of ARG instructions, a FROM, and the rest.
pub parse-Headed :
    (g : Given) (content : Text) (is : List Instruction) → parse g content ≡ ok is → Headed is
unfolding parse
parse-Headed g content is h =
    let ran = bind-eq-ok _ (parse_loop g 1 (lines content) start) is h in
    let last = bind-eq-ok _ (last_flush g ran.0) is ran.1 in check_from-Headed last.0 is last.1
