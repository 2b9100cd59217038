-- ===== src/Builder/Parser/Tokens.antt =====
-- The helpers of crates/builder/src/parser.rs: heredoc marks, heredoc bodies and leading flags.
use ingot_engine.Base.{
  ℕ, zero, suc, ◌+◌, Bool, false, ◌&&◌, ◌||◌, Option, none, some, List, [], ◌∷◌, ◌++◌, ◌==◌,
  if◌then◌else◌, length, drop,
}
use ingot_engine.Base.Text.{
  Text, codes, same, is_empty, is_whitespace, trim, trim_end, lines, starts_with, split_once,
  split_once_at,
}

pub record Heredoc : Type 0 where
  pub target : Text
  pub content : Text

-- `u8::is_ascii_whitespace`.
unfoldable pub is_ascii_whitespace : ℕ → Bool
is_ascii_whitespace c = c == 32 || c == 9 || c == 10 || c == 12 || c == 13

-- A `-` behind the mark: what is left, and the characters passed.
abbrev after_dash : Text → Text × ℕ
after_dash [] = ([], 0)
after_dash (c ∷ s) = if c == b'-' then (s, 1) else (c ∷ s, 0)

-- The quote, if there is one.
abbrev open_quote : Text → Option ℕ × Text × ℕ
open_quote [] = (none, [], 0)
open_quote (c ∷ s) = if c == b'"' || c == b'\'' then (some c, s, 1) else (none, c ∷ s, 0)

abbrev terminates : Option ℕ → ℕ → Bool
terminates none c = is_ascii_whitespace c
terminates (some q) c = c == q

unfoldable pub take_until : (ℕ → Bool) → Text → Text
take_until at [] = []
take_until at (c ∷ s) = let rest = take_until at s in if at c then [] else c ∷ rest

-- On the text behind `<<`: the delimiter, and the number of characters up to the next index.
unfoldable pub delimiter : Text → Text × ℕ
unfolding is_ascii_whitespace take_until
delimiter s =
    let (undashed, dash) = after_dash s in
    let (quote, unquoted, mark) = open_quote undashed in
    let delim = take_until (terminates quote) unquoted in (delim, dash + mark + length delim)

abbrev is_mark : ℕ → Text → Bool
is_mark c [] = false
is_mark c (d ∷ s) = c == b'<' && d == b'<'

abbrev push_named : Text → List Text → List Text
push_named delim rest = if is_empty delim then rest else delim ∷ rest

-- The loop; `skip` is the number of characters up to the next index.
unfoldable pub delims_from : ℕ → Text → List Text
unfolding delimiter
delims_from skip [] = []
delims_from (suc skip) (c ∷ s) = delims_from skip s
delims_from zero (c ∷ s) =
    let found = delimiter (drop 1 s) in
    let behind = delims_from (found.1 + 1) s in
    let next = delims_from zero s in if is_mark c s then push_named found.0 behind else next

unfoldable pub extract_heredoc_delims : Text → List Text
unfolding delims_from
extract_heredoc_delims line = delims_from zero line

-- The lines in front of the one that is the delimiter, and those behind it.
unfoldable pub take_block : Text → List Text → List Text × List Text
take_block delim [] = ([], [])
take_block delim (l ∷ ls) =
    let (content, rest) = take_block delim ls in
    if same (trim_end l) delim then ([], ls) else (l ∷ content, rest)

-- `join("\n")`.
unfoldable pub join_lines : List Text → Text
join_lines [] = []
join_lines (l ∷ []) = l
join_lines (l ∷ m ∷ ls) = l ++ (b'\n' ∷ join_lines (m ∷ ls))

unfoldable pub blocks : List Text → List Text → List Heredoc
blocks [] remaining = []
blocks (d ∷ ds) remaining =
    let (content, rest) = take_block d remaining in
    record { target = []; content = join_lines content } ∷ blocks ds rest

abbrev head_and_blocks : List Text → Text × List Heredoc
head_and_blocks [] = ([], blocks (extract_heredoc_delims []) [])
head_and_blocks (head_line ∷ body) = (head_line, blocks (extract_heredoc_delims head_line) body)

unfoldable pub split_heredocs : Text → Text × List Heredoc
split_heredocs text = head_and_blocks (lines text)

-- One flag without its dashes.
abbrev pub flag_of : Text → Option (Text × Text) → Text × Text
flag_of tok none = (tok, [])
flag_of tok (some (k, v)) = (k, v)

-- The loop of `split_flags`, on fuel that bounds the length of the text.
unfoldable pub flags_loop : ℕ → Text → List (Text × Text) × Text
flags_loop zero rest = ([], rest)
flags_loop (suc f) rest =
    if starts_with (codes "--") rest
    then elim (split_once_at is_whitespace rest) [
      | none ↦ ([], rest)
      | some (tok, behind) ↦
          let (flags, left) = flags_loop f (trim behind) in
          (flag_of (drop 2 tok) (split_once b'=' (drop 2 tok)) ∷ flags, left)
    ]
    else ([], rest)

unfoldable pub split_flags : Text → List (Text × Text) × Text
split_flags args = let rest = trim args in flags_loop (suc (length rest)) rest
