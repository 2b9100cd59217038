-- ===== src/Builder/Given.antt =====
-- What crates/builder/src/parser.rs takes from outside: the tables of Unicode for the characters that are not
-- ASCII, and serde_json, as the reading of an array of strings.
use ingot_engine.Base.{
  ℕ, Bool, ◌||◌, ◌&&◌, ◌-◌, Option, List, [], ◌∷◌, ◌++◌, if◌then◌else◌, leb, ltb,
}
use ingot_engine.Base.Text.{Text, is_ascii_alphanumeric}

pub record Given : Type 0 where
  pub upper : ℕ → Text
  pub alphabetic : ℕ → Bool
  pub alphanumeric : ℕ → Bool
  pub json_strings : Text → Option (List Text)

abbrev is_ascii_lower : ℕ → Bool
is_ascii_lower c = leb b'a' c && leb c b'z'

-- `char::is_alphabetic` and `char::is_alphanumeric`.
unfoldable pub is_alphabetic : Given → ℕ → Bool
is_alphabetic g c =
    if ltb c 128 then is_ascii_lower c || (leb b'A' c && leb c b'Z') else g.alphabetic c

unfoldable pub is_alphanumeric : Given → ℕ → Bool
is_alphanumeric g c = if ltb c 128 then is_ascii_alphanumeric c else g.alphanumeric c

abbrev upper_char : Given → ℕ → Text
upper_char g c = if ltb c 128 then (if is_ascii_lower c then c - 32 else c) ∷ [] else g.upper c

-- `str::to_uppercase`.
unfoldable pub to_uppercase : Given → Text → Text
to_uppercase g [] = []
to_uppercase g (c ∷ s) = upper_char g c ++ to_uppercase g s
