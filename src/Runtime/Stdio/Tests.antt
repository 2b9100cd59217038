-- ===== src/Runtime/Stdio/Tests.antt =====
-- Runs of the log and the frames, and each theorem at an input that meets its hypotheses.
use ingot_engine.Base.{
  ◌≡◌, ◌≤◌, ◌⊎◌, refl, none, some, [], ◌∷◌, ◌++◌, ◌==◌, if◌then◌else◌, length, arith, ok, err,
}
use ingot_engine.Base.Maps.{lookup}
use ingot_engine.Base.Text.{codes, same, trim}
use ingot_engine.Base.Text.Decimal.{parse_unsigned}
use ingot_engine.Runtime.Stdio.{
  LogRotation, LogFile, RotationError, parse_max_size, strip_last, parse_log_rotation, bytes_of,
  files_of, rotate_locked, append_log, frame, demux,
}
use ingot_engine.Runtime.Stdio.Frames.{demux-frame}
use ingot_engine.Runtime.Stdio.Rotated.{
  Shifted, rotate_locked-Shifted, active, IsCounted, under, append_log-Bounded, append_log-one_file,
}

sizes :
    (parse_max_size (codes "10") ≡ some 10)
    × (parse_max_size (codes " 2K") ≡ some 2048)
    × (parse_max_size (codes "1g") ≡ some 1073741824)
    × (parse_max_size (codes "-1") ≡ none)
    × (parse_max_size (codes "18446744073709551615k") ≡ none)
unfolding parse_max_size strip_last trim same parse_unsigned
sizes = (refl, refl, refl, refl, refl)

options :
    (parse_log_rotation [] ≡ ok none)
    × (parse_log_rotation ((codes "max-size", codes "1k") ∷ [])
        ≡ ok (some (record { max_bytes = 1024; max_files = 1 })))
    × (parse_log_rotation ((codes "max-file", codes "0") ∷ [])
        ≡ err (RotationError.invalid_max_file (codes "0")))
unfolding parse_log_rotation bytes_of files_of lookup parse_max_size strip_last trim same
    parse_unsigned
options = (refl, refl, refl)

abbrev three_files : LogRotation
three_files = record { max_bytes = 4; max_files = 3 }

abbrev single_file : LogRotation
single_file = record { max_bytes = 4; max_files = 1 }

abbrev short_log : LogFile
short_log = record {
  files = λ i. if i == 1 then some (1 ∷ 2 ∷ 3 ∷ []) else none;
  written = 3;
  rotation = some three_files;
}

rotate_locked-Shifted_example :
    Shifted 3 short_log.files (rotate_locked short_log (some three_files)).files
rotate_locked-Shifted_example = rotate_locked-Shifted short_log three_files (omega arith)

append_log-Bounded_example :
    IsCounted (append_log (7 ∷ 8 ∷ []) (under three_files short_log))
    × ((length (active (append_log (7 ∷ 8 ∷ []) (under three_files short_log))) ≤ 4)
        ⊎ (active (append_log (7 ∷ 8 ∷ []) (under three_files short_log)) ≡ 7 ∷ 8 ∷ []))
append_log-Bounded_example =
    append_log-Bounded short_log three_files (7 ∷ 8 ∷ []) (omega arith) (omega arith) (omega arith)
      refl

append_log-one_file_example :
    active (append_log (7 ∷ 8 ∷ []) (under single_file short_log)) ≡ 1 ∷ 2 ∷ 3 ∷ 7 ∷ 8 ∷ []
append_log-one_file_example = append_log-one_file short_log single_file (7 ∷ 8 ∷ []) refl

demux-frame_example : demux (frame 2 (104 ∷ 105 ∷ []) ++ frame 1 (111 ∷ [])) ≡ (2, 104 ∷ 105 ∷ [])
demux-frame_example = demux-frame 2 (104 ∷ 105 ∷ []) (frame 1 (111 ∷ [])) (omega arith)
