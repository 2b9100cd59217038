-- ===== src/Runtime/Tests.antt =====
-- Runs of the validators, and their theorems at inputs that meet their hypotheses.
use ingot_engine.Base.{◌≡◌, refl, true, false, none, some, [], ◌∷◌, ok, err, all}
use ingot_engine.Base.Text.{
  codes, same, trim, trim_end, trim_start_matches, trim_end_matches, is_whitespace, strip_prefix,
  split, split_once_at,
}
use ingot_engine.Base.Text.Decimal.{parse_unsigned}
use ingot_engine.Builder.Given.{Given, to_uppercase}
use ingot_engine.Runtime.Options.{
  split_exposed_key, valid_port, valid_cpuset, valid_cpu_item, parse_i32, SignalError, signals,
  find_signal, parse_signal,
}

abbrev ascii : Given
ascii = record {
  upper = λ c. c ∷ [];
  alphabetic = λ c. false;
  alphanumeric = λ c. false;
  json_strings = λ s. none;
}

runs :
    (valid_port (codes "65536") ≡ false)
    × (valid_cpuset (codes "0-2,7") ≡ true)
    × (valid_cpuset (codes "2-0") ≡ false)
    × (split_exposed_key (codes "53/udp") ≡ some (53, codes "udp"))
    × (parse_signal ascii (codes "65") ≡ err SignalError.out_of_range)
    × (parse_signal ascii (codes "sigusr1") ≡ ok 10)
    × (parse_signal ascii (codes "nope") ≡ err SignalError.unknown)
unfolding valid_port valid_cpuset valid_cpu_item split_exposed_key parse_signal parse_i32
    parse_unsigned signals find_signal to_uppercase same trim trim_end trim_start_matches
    trim_end_matches is_whitespace strip_prefix split split_once_at all
runs = (refl, refl, refl, refl, refl, refl, refl)
