-- ===== src/Builder/Parser/Flags.antt =====
-- `split_flags` reads every flag that stands in front.
use ingot_engine.Base.{
  ℕ, zero, suc, ◌≤◌, ◌<◌, ◌≡◌, refl, Bool, true, false, Option, none, some, List, [], ◌∷◌, length,
  drop, arith, Bool-cases, inl, inr,
}
use ingot_engine.Base.Text.{
  Text, codes, is_whitespace, trim, trim_end, trim_start_matches, trim_end_matches, starts_with,
  split_once, split_once_at, prepend,
}
use ingot_engine.Builder.Parser.Tokens.{flag_of, flags_loop, split_flags}

-- The flags in front of a text, and what is left: a word that begins with `--` and ends at white space is a
-- flag, with its value behind the first `=`.
pub data Splits : Text → List (Text × Text) → Text → Type 0 where
  no_dashes : {s : Text} → starts_with (codes "--") s ≡ false → Splits s [] s
  one_word : {s : Text} → split_once_at is_whitespace s ≡ none → Splits s [] s
  flag :
      {s tok behind left : Text} {flags : List (Text × Text)}
      → starts_with (codes "--") s ≡ true
      → split_once_at is_whitespace s ≡ some (tok, behind)
      → Splits (trim behind) flags left
      → Splits s (flag_of (drop 2 tok) (split_once b'=' (drop 2 tok)) ∷ flags) left

length-trim_start : (p : ℕ → Bool) (s : Text) → length (trim_start_matches p s) ≤ length s
unfolding trim_start_matches
length-trim_start p [] = omega arith
length-trim_start p (c ∷ s) = ground (arith, length-trim_start p s)

length-trim_end : (p : ℕ → Bool) (s : Text) → length (trim_end_matches p s) ≤ length s
unfolding trim_end_matches
length-trim_end p [] = omega arith
length-trim_end p (c ∷ s) = ground (arith, length-trim_end p s)

length-trim : (s : Text) → length (trim s) ≤ length s
unfolding trim trim_end
length-trim s = omega (
  arith,
  length-trim_start is_whitespace s,
  length-trim_end is_whitespace (trim_start_matches is_whitespace s),
)

abbrev BehindBelow : ℕ → Option (Text × Text) → Type 0
BehindBelow n none = Unit
BehindBelow n (some (a, b)) = length b < n

prepend-BehindBelow :
    (c n : ℕ) (o : Option (Text × Text)) → BehindBelow n o → BehindBelow (suc n) (prepend c o)
prepend-BehindBelow c n none h = tt
prepend-BehindBelow c n (some (a, b)) h = omega arith

split-BehindBelow : (at : ℕ → Bool) (s : Text) → BehindBelow (length s) (split_once_at at s)
unfolding split_once_at
split-BehindBelow at [] = tt
split-BehindBelow at (c ∷ s) = elim (Bool-cases (at c)) [
  | inl e ↦ rw e (omega arith)
  | inr e ↦ rw e (prepend-BehindBelow c (length s) (split_once_at at s) (split-BehindBelow at s))
]

flags_loop-found :
    (f : ℕ) (s : Text) (o : Option (Text × Text))
    → ((t : Text) → length t < f → Splits t (flags_loop f t).0 (flags_loop f t).1)
    → length s ≤ f
    → starts_with (codes "--") s ≡ true
    → split_once_at is_whitespace s ≡ o
    → BehindBelow (length s) o
    → Splits s (flags_loop (suc f) s).0 (flags_loop (suc f) s).1
unfolding flags_loop
flags_loop-found f s none ih b h e l = rw (h, e) (one_word e)
flags_loop-found f s (some (tok, behind)) ih b h e l =
    rw (h, e) (flag h e (ih (trim behind) (omega (arith, length-trim behind))))

flags_loop-plain :
    (f : ℕ) (s : Text)
    → starts_with (codes "--") s ≡ false
    → Splits s (flags_loop (suc f) s).0 (flags_loop (suc f) s).1
unfolding flags_loop
flags_loop-plain f s h = rw h (no_dashes h)

flags_loop-Splits :
    (f : ℕ) (s : Text) → length s < f → Splits s (flags_loop f s).0 (flags_loop f s).1
flags_loop-Splits zero s h = absurd (omega arith)
flags_loop-Splits (suc f) s h = elim (Bool-cases (starts_with (codes "--") s)) [
  | inl e ↦
      flags_loop-found f s (split_once_at is_whitespace s) (flags_loop-Splits f) (omega arith) e
        refl (split-BehindBelow is_whitespace s)
  | inr e ↦ flags_loop-plain f s e
]

-- On every text the loop ends, and it takes off all flags that stand in front: what is left does not begin
-- with `--` or is a single word.
pub split_flags-Splits :
    (args : Text) → Splits (trim args) (split_flags args).0 (split_flags args).1
unfolding split_flags
split_flags-Splits args = flags_loop-Splits (suc (length (trim args))) (trim args) (omega arith)
