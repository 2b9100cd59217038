-- ===== src/Builder/Parser.antt =====
-- `parse` of crates/builder/src/parser.rs: from the lines of a Dockerfile to its instructions.
pub mod Tokens
pub mod Flags
pub mod Headed
pub mod Plain
pub mod LineNumber
use ingot_engine.Base.{
  ℕ, zero, suc, ◌+◌, Bool, true, false, not, ◌&&◌, ◌||◌, Option, none, some, List, [], ◌∷◌, ◌++◌,
  ◌==◌, if◌then◌else◌, any, take, map, Outcome, ok, err, bail_if, ok_or, ◌>>=◌, ◌>>◌,
}
use ingot_engine.Base.Text.{
  Text, codes, same, is_empty, is_whitespace, trim, trim_end, trim_start_matches, trim_end_matches,
  lines, starts_with, ends_with, split_once, split_once_at,
}
use ingot_engine.Builder.Given.{Given, to_uppercase}
use ingot_engine.Builder.Parser.Tokens.{
  Heredoc, extract_heredoc_delims, split_heredocs, split_flags,
}

pub record Instruction : Type 0 where
  pub verb : Text
  pub args : Text
  pub json_args : Option (List Text)
  pub flags : List (Text × Text)
  pub heredocs : List Heredoc
  pub line : ℕ

-- The local variables of `parse`.
pub record State : Type 0 where
  pub instructions : List Instruction
  pub logical : Text
  pub start_line : ℕ
  pub heredoc_delims : List Text

pub data ParseError : Type 0 where
  malformed no_instructions no_from not_from_first : ParseError

-- `parse_json_form`.
unfoldable pub parse_json_form : Given → Text → Option (List Text)
parse_json_form g args =
    let t = trim args in if starts_with (b'[' ∷ []) t then g.json_strings t else none

-- An instruction from its head: the verb and what stands behind the white space.
unfoldable pub instruction : Given → Text → Text → List Heredoc → ℕ → Instruction
instruction g verb rest heredocs line =
    let (flags, args) = split_flags (trim rest) in
    record {
      verb = to_uppercase g verb;
      args = args;
      json_args = parse_json_form g args;
      flags = flags;
      heredocs = heredocs;
      line = line;
    }

-- What `flush` adds for a text that is not empty.
unfoldable pub flush_head : Given → ℕ → Text × List Heredoc → Outcome ParseError Instruction
flush_head g line (head, heredocs) = do
  (verb, rest) ← ok_or (split_once_at is_whitespace head) malformed
  ok (instruction g verb rest heredocs line)

-- The instructions after `flush`; the logical line is then empty.
unfoldable pub flush :
    Given → Text → ℕ → List Instruction → Bool → Outcome ParseError (List Instruction)
flush g logical line instructions has_heredoc =
    let text = trim logical in
    if is_empty text then ok instructions else do
      i ← flush_head g line (if has_heredoc then split_heredocs text else (text, []))
      ok (instructions ++ i ∷ [])

abbrev pub last_of : List Text → Text
last_of [] = []
last_of (d ∷ []) = d
last_of (d ∷ e ∷ ds) = last_of (e ∷ ds)

unfoldable pub drop_last {ℓ} : {A : Type ℓ} → List A → List A
drop_last [] = []
drop_last (d ∷ []) = []
drop_last (d ∷ e ∷ ds) = d ∷ drop_last (e ∷ ds)

abbrev pub flushed : State → ℕ → List Instruction → State
flushed st line is = record {
  instructions = is;
  logical = [];
  start_line = line;
  heredoc_delims = [];
}

-- A line inside a heredoc. The start line stays as it is.
unfoldable pub inside_heredoc : Given → Text → State → Outcome ParseError State
inside_heredoc g raw st =
    let logical = st.logical ++ b'\n' ∷ raw in
    let left = drop_last st.heredoc_delims in
    let collected : State = record st { logical = logical } in
    if same (trim_end raw) (last_of st.heredoc_delims)
    then elim left [
      | [] ↦ (do
        is ← flush g logical st.start_line st.instructions true
        ok (flushed st st.start_line is))
      | d ∷ ds ↦ ok (record collected { heredoc_delims = d ∷ ds })
    ]
    else ok collected

-- A line that is neither blank nor a comment, pushed onto the logical line.
unfoldable pub pushed_line : Given → ℕ → Text → State → Outcome ParseError State
pushed_line g start logical st = elim (ends_with b'\\' (trim_end logical)) [
  | true ↦ ok (record st { logical = drop_last logical ++ b' ' ∷ []; start_line = start })
  | false ↦ elim (extract_heredoc_delims logical) [
    | d ∷ ds ↦ ok (record st { logical = logical; start_line = start; heredoc_delims = d ∷ ds })
    | [] ↦ (do is ← flush g logical start st.instructions false; ok (flushed st 0 is))
  ]
]

abbrev pub is_skipped : Text → Bool
is_skipped raw =
    let trimmed = trim (trim_end raw) in is_empty trimmed || starts_with (b'#' ∷ []) trimmed

unfoldable pub outside_heredoc : Given → ℕ → Text → State → Outcome ParseError State
outside_heredoc g line_no raw st =
    let line = trim_end raw in
    if is_skipped raw
    then ok st
    else if st.start_line == 0
    then pushed_line g line_no line st
    else pushed_line g st.start_line (st.logical ++ line) st

unfoldable pub parse_step : Given → ℕ → Text → State → Outcome ParseError State
parse_step g line_no raw st = elim st.heredoc_delims [
  | [] ↦ outside_heredoc g line_no raw st
  | d ∷ ds ↦ inside_heredoc g raw st
]

-- The loop, from a line number on.
unfoldable pub parse_loop : Given → ℕ → List Text → State → Outcome ParseError State
parse_loop g line_no [] st = ok st
parse_loop g line_no (raw ∷ raws) st = do
  next ← parse_step g line_no raw st
  parse_loop g (line_no + 1) raws next

-- What is left at the end of the file.
unfoldable pub last_flush : Given → State → Outcome ParseError (List Instruction)
last_flush g st =
    if not (is_empty (trim st.logical)) && not (st.start_line == 0)
    then flush g st.logical st.start_line st.instructions false
    else ok st.instructions

abbrev pub next_index : Option ℕ → Option ℕ
next_index none = none
next_index (some i) = some (suc i)

-- `iter().position(...)`.
unfoldable pub position {ℓ} : {A : Type ℓ} → (A → Bool) → List A → Option ℕ
position p [] = none
position p (x ∷ xs) = elim (p x) [ true ↦ some 0 | false ↦ next_index (position p xs) ]

abbrev pub has_verb : Text → Instruction → Bool
has_verb verb i = same i.verb verb

abbrev pub no_list : List Instruction → Bool
no_list [] = true
no_list (i ∷ is) = false

-- The checks at the end.
unfoldable pub check_from : List Instruction → Outcome ParseError (List Instruction)
check_from is = do
  bail_if (no_list is) no_instructions
  pos ← ok_or (position (has_verb (codes "FROM")) is) no_from
  bail_if (any (λ i. not (has_verb (codes "ARG") i)) (take pos is)) not_from_first
  ok is

abbrev pub start : State
start = record { instructions = []; logical = []; start_line = 0; heredoc_delims = [] }

unfoldable pub parse : Given → Text → Outcome ParseError (List Instruction)
parse g content = do st ← parse_loop g 1 (lines content) start; is ← last_flush g st; check_from is

abbrev first_word : Text → Text
first_word s = elim (split_once_at is_whitespace s) [ none ↦ s | some (w, rest) ↦ w ]

-- `base_image`: the first word behind the first FROM.
unfoldable pub base_image : List Instruction → Option Text
base_image [] = none
base_image (i ∷ is) =
    if has_verb (codes "FROM") i
    then some (first_word (trim_start_matches is_whitespace i.args))
    else base_image is

abbrev is_quote : ℕ → Bool
is_quote c = c == b'"'

abbrev push_default : Option (Text × Text) → List (Text × Text) → List (Text × Text)
push_default none rest = rest
push_default (some (k, v)) rest =
    (trim k, trim_end_matches is_quote (trim_start_matches is_quote (trim v))) ∷ rest

-- `arg_defaults`: the ARGs with a default before the first FROM, none of which starts at line 0.
unfoldable pub arg_defaults : List Instruction → List (Text × Text)
arg_defaults [] = []
arg_defaults (i ∷ is) =
    let rest = arg_defaults is in
    if has_verb (codes "FROM") i
    then []
    else if has_verb (codes "ARG") i && not (i.line == 0)
    then push_default (split_once b'=' i.args) rest
    else rest
