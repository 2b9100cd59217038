-- ===== src/Builder/Parser/LineNumber.antt =====
-- The line number of the instruction behind a heredoc.
use ingot_engine.Base.{ℕ, ◌+◌, ◌≡◌, true, false, List, [], ◌∷◌, ◌++◌, ◌==◌, ok, ◌>>=◌}
use ingot_engine.Base.Text.{Text, same, trim_end}
use ingot_engine.Builder.Given.{Given}
use ingot_engine.Builder.Parser.{
  Instruction, State, instruction, flush, flushed, drop_last, inside_heredoc, outside_heredoc,
  parse_step, start,
}
use ingot_engine.Builder.Parser.Plain.{IsLine, pushed_is_flushed, flush_line}

module _ (g : Given) where
  abbrev behind_heredoc : ℕ → List Instruction → State
  behind_heredoc k is = flushed start k is

  inside : List Instruction → Text → ℕ → Text → State
  inside before logical k delim = record {
    instructions = before;
    logical = logical;
    start_line = k;
    heredoc_delims = delim ∷ [];
  }

  close_heredoc :
      (n k : ℕ) (raw logical delim : Text) (before is : List Instruction)
      → same (trim_end raw) delim ≡ true
      → flush g (logical ++ b'\n' ∷ raw) k before true ≡ ok is
      → parse_step g n raw (inside before logical k delim) ≡ ok (behind_heredoc k is)
  unfolding parse_step inside_heredoc drop_last inside
  close_heredoc n k raw logical delim before is h f = rw (h, f)

  step_behind :
      (n k : ℕ) (raw verb rest : Text) (before : List Instruction)
      → (k == 0) ≡ false
      → IsLine raw verb rest
      → parse_step g n raw (behind_heredoc k before)
        ≡ ok (behind_heredoc 0 (before ++ instruction g verb rest [] k ∷ []))
  unfolding parse_step outside_heredoc
  step_behind n k raw verb rest before z l = rw (
    l.kept,
    z,
    pushed_is_flushed g k (trim_end raw) (behind_heredoc k before) l.ends l.no_heredoc,
    flush_line g k raw verb rest before l,
  )

  -- When a line closes the last heredoc of an instruction that starts at line `k`, an instruction on the
  -- next line is given the line number `k` too, not its own.
  pub parse_step_behind_heredoc :
      (n k : ℕ) (raw logical delim next verb rest : Text) (before is : List Instruction)
      → same (trim_end raw) delim ≡ true
      → flush g (logical ++ b'\n' ∷ raw) k before true ≡ ok is
      → (k == 0) ≡ false
      → IsLine next verb rest
      → (parse_step g n raw (record {
        instructions = before;
        logical = logical;
        start_line = k;
        heredoc_delims = delim ∷ [];
      })
          >>= parse_step g (n + 1) next)
        ≡ ok (flushed start 0 (is ++ instruction g verb rest [] k ∷ []))
  unfolding inside
  parse_step_behind_heredoc n k raw logical delim next verb rest before is h f z l =
      rw (close_heredoc n k raw logical delim before is h f)
        (step_behind (n + 1) k next verb rest is z l)
