-- ===== src/Runtime/Stdio.antt =====
-- crates/runtime/src/stdio.rs: the rotation of the container's log, and the frames of attached streams.
-- A text and its bytes are the same list here for the ASCII options.
pub mod Rotated
pub mod Frames
mod Tests
use ingot_engine.Base.{
  ℕ, zero, suc, ◌+◌, ◌-◌, ◌*◌, ◌/◌, ◌%◌, ◌^◌, Bool, true, false, not, ◌&&◌, ◌||◌, Option, none,
  some, List, [], ◌∷◌, ◌++◌, ◌==◌, ltb, leb, if◌then◌else◌, length, take, drop, Outcome, ok, err,
  panic, ◌>>=◌, ◌>>◌, ok_or, bail_if,
}
use ingot_engine.Base.Maps.{lookup}
use ingot_engine.Base.Text.{Text, codes, same, is_empty, trim}
use ingot_engine.Base.Text.Decimal.{parse_unsigned}

abbrev pub u64_max : ℕ
u64_max = 2 ^ 64 - 1

pub record LogRotation : Type 0 where
  pub max_bytes : ℕ
  pub max_files : ℕ

-- `strip_suffix` of either character.
unfoldable pub strip_last : ℕ → ℕ → Text → Option Text
strip_last a b [] = none
strip_last a b (c ∷ []) = if c == a || c == b then some [] else none
strip_last a b (c ∷ d ∷ s) = elim (strip_last a b (d ∷ s)) [
  | none ↦ none
  | some rest ↦ some (c ∷ rest)
]

abbrev or_else : Option (Text × ℕ) → Option (Text × ℕ) → Option (Text × ℕ)
or_else (some x) o = some x
or_else none o = o

abbrev times : ℕ → Option Text → Option (Text × ℕ)
times mult none = none
times mult (some n) = some (n, mult)

-- The number, and what its suffix multiplies it by.
abbrev suffixed : Text → Option (Text × ℕ)
suffixed s = or_else (times 1024 (strip_last b'k' b'K' s)) (
    or_else (times 1048576 (strip_last b'm' b'M' s))
      (or_else (times 1073741824 (strip_last b'g' b'G' s)) (some (s, 1))))

-- `checked_mul` of a `u64`.
abbrev pub checked_mul : ℕ → Option ℕ → Option ℕ
checked_mul mult none = none
checked_mul mult (some n) = if leb (n * mult) u64_max then some (n * mult) else none

abbrev sized : Option (Text × ℕ) → Option ℕ
sized none = none
sized (some (num, mult)) = checked_mul mult (parse_unsigned u64_max num)

unfoldable pub parse_max_size : Text → Option ℕ
parse_max_size s = let t = trim s in if same t (codes "-1") then none else sized (suffixed t)

abbrev pub or_blank : Option Text → Text
or_blank none = []
or_blank (some s) = s

pub data RotationError : Type 0 where
  invalid_max_size invalid_max_file : Text → RotationError

unfoldable pub bytes_of : Text → Outcome RotationError ℕ
bytes_of size =
    if is_empty size || same size (codes "-1")
    then ok u64_max
    else ok_or (parse_max_size size) (invalid_max_size size)

abbrev at_least_one : Text → Option ℕ → Outcome RotationError ℕ
at_least_one files none = err (invalid_max_file files)
at_least_one files (some n) = if leb 1 n then ok n else err (invalid_max_file files)

unfoldable pub files_of : Text → Outcome RotationError ℕ
files_of files =
    if is_empty files then ok 1 else at_least_one files (parse_unsigned (2 ^ 32 - 1) files)

abbrev policy_of : ℕ → ℕ → Bool → Option LogRotation
policy_of max_bytes max_files no_files =
    if max_bytes == u64_max && no_files
    then none
    else some (record { max_bytes = max_bytes; max_files = max_files })

unfoldable pub parse_log_rotation : List (Text × Text) → Outcome RotationError (Option LogRotation)
parse_log_rotation config =
    let size = or_blank (lookup (codes "max-size") config) in
    let files = or_blank (lookup (codes "max-file") config) in
    if is_empty size && is_empty files then ok none else do
      max_bytes ← bytes_of size
      max_files ← files_of files
      ok (policy_of max_bytes max_files (is_empty files))

unfoldable pub rotation_from_config : List (Text × Text) → Option LogRotation
rotation_from_config config = elim (parse_log_rotation config) [
  | ok policy ↦ policy
  | err e ↦ none
  | panic ↦ none
]

-- The files of one log: the active one under 1, and `log.i` under `i`.
abbrev pub Files : Type 0
Files = ℕ → Option (List ℕ)

-- `written` counts the bytes since the file was opened last; what is written is flushed at once.
pub record LogFile : Type 0 where
  pub files : Files
  pub written : ℕ
  pub rotation : Option LogRotation

abbrev pub remove_file : ℕ → Files → Files
remove_file i files j = if i == j then none else files j

-- `rename`, which fails where there is no file and replaces the target.
abbrev pub moved : Option (List ℕ) → ℕ → ℕ → Files → Files
moved none i k files = files
moved (some content) i k files =
    λ j. if k == j then some content else if i == j then none else files j

unfoldable pub rename : ℕ → ℕ → Files → Files
rename i k files = moved (files i) i k files

-- `for i in (1..keep).rev()`: from `i` down.
unfoldable pub shift_down : ℕ → Files → Files
shift_down zero files = files
shift_down (suc i) files = shift_down i (rename (suc i) (suc (suc i)) files)

abbrev pub or_created : Option (List ℕ) → List ℕ
or_created none = []
or_created (some content) = content

-- `open_log_file` creates the file or opens it for appending.
abbrev pub open_log_file : Files → Files
open_log_file files j = if 1 == j then some (or_created (files 1)) else files j

unfoldable pub shifted : ℕ → Files → Files
shifted keep files = if ltb 1 keep then shift_down (keep - 1) (remove_file keep files) else files

abbrev pub at_least : ℕ → ℕ
at_least n = if ltb n 1 then 1 else n

unfoldable pub rotate_locked : LogFile → Option LogRotation → LogFile
rotate_locked log none = log
rotate_locked log (some rot) = record log {
  files = open_log_file (shifted (at_least rot.max_files) log.files);
  written = 0;
}

abbrev pub saturating_add : ℕ → ℕ → ℕ
saturating_add a b = if leb (a + b) u64_max then a + b else u64_max

abbrev pub exceeds : ℕ → List ℕ → Option LogRotation → Bool
exceeds written buf none = false
exceeds written buf (some rot) = ltb rot.max_bytes (saturating_add written (length buf))

abbrev pub write_all : List ℕ → LogFile → LogFile
write_all buf log = record log {
  files = λ j. if 1 == j then some (or_created (log.files 1) ++ buf) else log.files j;
  written = saturating_add log.written (length buf);
}

-- `append_log` of a serialized line.
unfoldable pub append_log : List ℕ → LogFile → LogFile
append_log buf log =
    write_all buf
      (if exceeds log.written buf log.rotation then rotate_locked log log.rotation else log)

-- `to_be_bytes` of a `u32`.
abbrev pub be_bytes : ℕ → List ℕ
be_bytes n = n / 2 ^ 24 % 256 ∷ n / 2 ^ 16 % 256 ∷ n / 2 ^ 8 % 256 ∷ n % 256 ∷ []

unfoldable pub frame : ℕ → List ℕ → List ℕ
frame stream bytes = stream ∷ 0 ∷ 0 ∷ 0 ∷ (be_bytes (length bytes % 2 ^ 32) ++ bytes)

abbrev stream_stdout : ℕ
stream_stdout = 1

-- `demux`. A buffer that is shorter than a header is taken for output.
unfoldable pub demux : List ℕ → ℕ × List ℕ
demux (stream ∷ x ∷ y ∷ z ∷ a ∷ b ∷ c ∷ d ∷ bytes) =
    (stream, take (a * 2 ^ 24 + b * 2 ^ 16 + c * 2 ^ 8 + d) bytes)
demux buf = (stream_stdout, buf)
