-- ===== src/Builder/Tests.antt =====
-- Runs of the Dockerfile parser, and each theorem at an input that meets its hypotheses.
use ingot_engine.Base.{ℕ, ◌≡◌, refl, true, false, none, List, [], ◌∷◌, ◌++◌, ok, elem, any, all}
use ingot_engine.Base.Text.{
  Text, codes, same, is_whitespace, is_ascii_alphanumeric, trim, trim_end, trim_start_matches,
  trim_end_matches, lines, starts_with, strip_prefix, ends_with, split_once_at,
}
use ingot_engine.Builder.Given.{Given, to_uppercase, is_alphabetic, is_alphanumeric}
use ingot_engine.Builder.Expand.{
  Env, expand_vars, expand_from, braced, split_default, find_var, var_name,
}
use ingot_engine.Builder.Expand.Pieces.{
  Piece, literal, braces, defaulted, has_mark, bare, texts, values, text_of, ReadsAs,
  expand_vars-texts,
}
use ingot_engine.Builder.Parser.{
  Instruction, parse, parse_loop, parse_step, outside_heredoc, pushed_line, flush, flush_head,
  instruction, last_flush, check_from, position, drop_last, parse_json_form,
}
use ingot_engine.Builder.Parser.Tokens.{
  extract_heredoc_delims, delims_from, delimiter, take_until, is_ascii_whitespace, split_heredocs,
  blocks, take_block, join_lines, split_flags, flags_loop,
}
use ingot_engine.Builder.Parser.Flags.{Splits, split_flags-Splits}
use ingot_engine.Builder.Parser.Headed.{Headed, parse-Headed}
use ingot_engine.Builder.Parser.Plain.{IsLine, Reads, done, read, parse-Reads}

-- Nothing but ASCII, and no JSON.
abbrev ascii : Given
ascii = record {
  upper = λ c. c ∷ [];
  alphabetic = λ c. false;
  alphanumeric = λ c. false;
  json_strings = λ s. none;
}

abbrev env : Env
env = (codes "A", codes "1") ∷ []

abbrev some_pieces : List Piece
some_pieces =
    literal (codes "x=")
    ∷ defaulted (codes "B") (codes "2")
    ∷ braces (codes "C")
    ∷ bare (codes "A")
    ∷ literal (codes "-")
    ∷ []

some_pieces-ReadsAs : ReadsAs ascii some_pieces
unfolding elem all is_alphabetic is_alphanumeric is_ascii_alphanumeric texts text_of has_mark
some_pieces-ReadsAs = (refl, (refl, refl, (refl, refl, (refl, refl, refl, (refl, tt)))))

expand_vars-texts_example : expand_vars ascii env (texts some_pieces) ≡ values env some_pieces
expand_vars-texts_example = expand_vars-texts ascii env some_pieces some_pieces-ReadsAs

expanded : expand_vars ascii env (codes "x=${B:-2}$A-$") ≡ codes "x=21-$"
unfolding expand_vars expand_from braced split_default find_var var_name is_alphabetic
    is_alphanumeric is_ascii_alphanumeric split_once_at same
expanded = refl

split_flags-Splits_example :
    Splits
      (trim (codes "--from=build --link a b"))
      (split_flags (codes "--from=build --link a b")).0
      (split_flags (codes "--from=build --link a b")).1
split_flags-Splits_example = split_flags-Splits (codes "--from=build --link a b")

abbrev small_file : Text
small_file = codes "# base\nFROM alpine\nrun make"

abbrev plain : Text → Text → ℕ → Instruction
plain verb args line = record {
  verb = verb;
  args = args;
  json_args = none;
  flags = [];
  heredocs = [];
  line = line;
}

small_parsed :
    parse ascii small_file
    ≡ ok (plain (codes "FROM") (codes "alpine") 2 ∷ plain (codes "RUN") (codes "make") 3 ∷ [])
unfolding parse parse_loop parse_step outside_heredoc pushed_line flush flush_head instruction
    last_flush check_from position drop_last parse_json_form extract_heredoc_delims delims_from
    split_flags flags_loop to_uppercase same is_whitespace trim trim_end trim_start_matches
    trim_end_matches lines starts_with strip_prefix ends_with split_once_at any
small_parsed = refl

parse-Headed_example :
    Headed (plain (codes "FROM") (codes "alpine") 2 ∷ plain (codes "RUN") (codes "make") 3 ∷ [])
parse-Headed_example = parse-Headed ascii small_file _ small_parsed

from-IsLine : IsLine (codes "FROM alpine") (codes "FROM") (codes "alpine")
unfolding same is_whitespace trim trim_end trim_start_matches trim_end_matches starts_with
    strip_prefix ends_with split_once_at extract_heredoc_delims delims_from
from-IsLine = record { kept = refl; ends = refl; no_heredoc = refl; full = refl; splits = refl }

one_line :
    Reads ascii 1
      (lines (codes "FROM alpine"))
      (instruction ascii (codes "FROM") (codes "alpine") [] 1 ∷ [])
unfolding lines
one_line = read from-IsLine done

parse-Reads_example :
    parse ascii (codes "FROM alpine")
    ≡ check_from (instruction ascii (codes "FROM") (codes "alpine") [] 1 ∷ [])
parse-Reads_example = parse-Reads ascii (codes "FROM alpine") _ one_line

abbrev heredoc_parsed : List Instruction
heredoc_parsed =
    record {
      verb = codes "RUN";
      args = codes "<<E";
      json_args = none;
      flags = [];
      heredocs = record { target = []; content = codes "x" } ∷ [];
      line = 1;
    }
    ∷ []

heredoc_flushed :
    flush ascii (codes "RUN <<E\nx" ++ b'\n' ∷ codes "E") 1 [] true ≡ ok heredoc_parsed
unfolding flush flush_head instruction parse_json_form split_heredocs blocks take_block join_lines
    extract_heredoc_delims delims_from delimiter take_until is_ascii_whitespace split_flags
    flags_loop to_uppercase same is_whitespace trim trim_end trim_start_matches trim_end_matches
    lines starts_with strip_prefix split_once_at
heredoc_flushed = refl

same_E : same (trim_end (codes "E")) (codes "E") ≡ true
unfolding same trim_end trim_end_matches is_whitespace
same_E = refl
