-- ===== src/Builder/Parser/Plain.antt =====
-- Dockerfiles whose instructions take a line each.
use mathlib.Core.List.{append_assoc, append-nil}
use ingot_engine.Base.{
  ℕ, ◌+◌, ◌≡◌, refl, ap, ◌∙◌, true, false, some, List, [], ◌∷◌, ◌++◌, ok, ◌>>=◌,
}
use ingot_engine.Base.Text.{
  Text, is_empty, is_whitespace, trim, trim_end, trim_start_matches, trim_end_matches, lines,
  ends_with, split_once_at,
}
use ingot_engine.Builder.Given.{Given}
use ingot_engine.Builder.Parser.Tokens.{extract_heredoc_delims}
use ingot_engine.Builder.Parser.{
  Instruction, State, instruction, flush_head, flush, pushed_line, is_skipped, flushed,
  outside_heredoc, parse_step, parse_loop, last_flush, check_from, parse, start,
}

-- A line that is an instruction by itself: no continuation, no heredoc, a verb and white space.
pub record IsLine (raw verb rest : Text) : Type 0 where
  pub kept : is_skipped raw ≡ false
  pub ends : ends_with b'\\' (trim_end (trim_end raw)) ≡ false
  pub no_heredoc : extract_heredoc_delims (trim_end raw) ≡ []
  pub full : is_empty (trim (trim_end raw)) ≡ false
  pub splits : split_once_at is_whitespace (trim (trim_end raw)) ≡ some (verb, rest)

-- The instructions of lines from the given number on; blank lines and comments are passed over.
pub data Reads (g : Given) : ℕ → List Text → List Instruction → Type 0 where
  done : {n : ℕ} → Reads g n [] []
  skipped :
      {n : ℕ} {raw : Text} {raws : List Text} {is : List Instruction}
      → is_skipped raw ≡ true
      → Reads g (n + 1) raws is
      → Reads g n (raw ∷ raws) is
  read :
      {n : ℕ} {raw verb rest : Text} {raws : List Text} {is : List Instruction}
      → IsLine raw verb rest
      → Reads g (n + 1) raws is
      → Reads g n (raw ∷ raws) (instruction g verb rest [] n ∷ is)

module _ (g : Given) where
  abbrev between : List Instruction → State
  between is = flushed start 0 is

  step_skipped :
      (n : ℕ) (raw : Text) (st : List Instruction)
      → is_skipped raw ≡ true
      → parse_step g n raw (between st) ≡ ok (between st)
  unfolding parse_step outside_heredoc
  step_skipped n raw st h = rw h

  pub flush_line :
      (n : ℕ) (raw verb rest : Text) (before : List Instruction)
      → IsLine raw verb rest
      → flush g (trim_end raw) n before false ≡ ok (before ++ instruction g verb rest [] n ∷ [])
  unfolding flush flush_head
  flush_line n raw verb rest before l = rw (l.full, l.splits)

  pub pushed_is_flushed :
      (n : ℕ) (logical : Text) (st : State)
      → ends_with b'\\' (trim_end logical) ≡ false
      → extract_heredoc_delims logical ≡ []
      → pushed_line g n logical st
        ≡ (flush g logical n st.instructions false >>= λ is. ok (flushed st 0 is))
  unfolding pushed_line
  pushed_is_flushed n logical st h k = rw (pushed_line, h, k)

  step_read :
      (n : ℕ) (raw verb rest : Text) (before : List Instruction)
      → IsLine raw verb rest
      → parse_step g n raw (between before)
        ≡ ok (between (before ++ instruction g verb rest [] n ∷ []))
  unfolding parse_step outside_heredoc
  step_read n raw verb rest before l = rw (
    l.kept,
    pushed_is_flushed n (trim_end raw) (between before) l.ends l.no_heredoc,
    flush_line n raw verb rest before l,
  )

  parse_loop-Reads :
      {n : ℕ} {raws : List Text} {is : List Instruction}
      → Reads g n raws is
      → (before : List Instruction)
      → parse_loop g n raws (between before) ≡ ok (between (before ++ is))
  unfolding parse_loop
  parse_loop-Reads done before = rw (append-nil before)
  parse_loop-Reads (skipped {n} {raw} {raws} {is} h r) before =
      rw (step_skipped n raw before h) (parse_loop-Reads r before)
  parse_loop-Reads (read {n} {raw} {verb} {rest} {raws} {is} l r) before =
      rw (step_read n raw verb rest before l) (
        parse_loop-Reads r (before ++ instruction g verb rest [] n ∷ [])
        ∙ ap (λ x. ok (between x)) (append_assoc before (instruction g verb rest [] n ∷ []) is))

  nothing_left : (is : List Instruction) → last_flush g (between is) ≡ ok is
  unfolding last_flush trim trim_end trim_start_matches trim_end_matches
  nothing_left is = refl

  -- When each line of a Dockerfile is blank, a comment, or an instruction by itself, the file parses to the
  -- instructions of those lines in order, each with its own line number, if they pass the final checks.
  pub parse-Reads :
      (content : Text) (is : List Instruction)
      → Reads g 1 (lines content) is
      → parse g content ≡ check_from is
  unfolding parse
  parse-Reads content is r = rw (parse_loop-Reads r [], nothing_left is)
