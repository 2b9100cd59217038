-- ===== src/Runtime/Options.antt =====
-- The small validators of crates/runtime/src/error.rs: names, ports, signals and CPU lists.
pub mod Bounds
use ingot_engine.Base.{
  ℕ, ◌+◌, ◌≤◌, ◌≡◌, ◌⊎◌, refl, sym, ap, ◌∙◌, Bool, true, false, not, ◌&&◌, ◌||◌, Option, none, some,
  List, [], ◌∷◌, ◌++◌, ◌==◌, if◌then◌else◌, leb, ltb, all, Outcome, ok, err, panic, ok-injective,
  arith, Bool-cases, inl, inr,
}
use ingot_engine.Base.Text.{
  Text, codes, same, same_iff, is_empty, trim, strip_prefix, split, split_once,
}
use ingot_engine.Base.Text.Decimal.{parse_unsigned, parse_u16}
use ingot_engine.Builder.Given.{Given, to_uppercase}
use ingot_engine.Util.ResourceName.{validate_container_name}

abbrev is_ok {ℓ} : {E : Type 0} {A : Type ℓ} → Outcome E A → Bool
is_ok (ok a) = true
is_ok _ = false

unfoldable pub valid_name : Text → Bool
valid_name name = is_ok (validate_container_name name)

abbrev pub port_and_proto : Text → Option (Text × Text) → Text × Text
port_and_proto k none = (k, codes "tcp")
port_and_proto k (some (p, t)) = (p, t)

abbrev pub nonzero : Option ℕ → Text → Option (ℕ × Text)
nonzero none proto = none
nonzero (some p) proto = if p == 0 then none else some (p, proto)

unfoldable pub split_exposed_key : Text → Option (ℕ × Text)
split_exposed_key k =
    let (port, proto) = port_and_proto k (split_once b'/' k) in
    if same proto (codes "tcp") || same proto (codes "udp")
    then nonzero (parse_u16 port) proto
    else none

unfoldable pub valid_port : Text → Bool
valid_port p = elim (parse_u16 p) [ none ↦ false | some n ↦ not (n == 0) ]

abbrev ordered : Option ℕ → Option ℕ → Bool
ordered none hi = false
ordered (some lo) none = false
ordered (some lo) (some hi) = leb lo hi

abbrev pub parse_u32 : Text → Option ℕ
parse_u32 = parse_unsigned 4294967295

abbrev is_number : Option ℕ → Bool
is_number none = false
is_number (some n) = true

-- One item of a CPU list.
unfoldable pub valid_cpu_item : Text → Bool
valid_cpu_item item = elim (split_once b'-' item) [
  | none ↦ is_number (parse_u32 item)
  | some (lo, hi) ↦ ordered (parse_u32 lo) (parse_u32 hi)
]

unfoldable pub valid_cpuset : Text → Bool
valid_cpuset s = not (is_empty s) && all valid_cpu_item (split b',' s)

-- `parse::<i32>()`: whether the number is negative, and its magnitude.
abbrev signed : Bool → Option ℕ → Option (Bool × ℕ)
signed negative none = none
signed negative (some n) = some (negative, n)

unfoldable pub parse_i32 : Text → Option (Bool × ℕ)
parse_i32 [] = none
parse_i32 (c ∷ []) = signed false (parse_unsigned 2147483647 (c ∷ []))
parse_i32 (c ∷ d ∷ s) =
    let below = if d == b'+' then none else signed true (parse_unsigned 2147483648 (d ∷ s)) in
    if c == b'-' then below else signed false (parse_unsigned 2147483647 (c ∷ d ∷ s))

pub data SignalError : Type 0 where
  out_of_range unknown : SignalError

-- The signals with their numbers.
unfoldable pub signals : List (Text × ℕ)
signals =
    (codes "HUP", 1)
    ∷ (codes "INT", 2)
    ∷ (codes "QUIT", 3)
    ∷ (codes "ILL", 4)
    ∷ (codes "TRAP", 5)
    ∷ (codes "ABRT", 6)
    ∷ (codes "BUS", 7)
    ∷ (codes "FPE", 8)
    ∷ (codes "KILL", 9)
    ∷ (codes "USR1", 10)
    ∷ (codes "SEGV", 11)
    ∷ (codes "USR2", 12)
    ∷ (codes "PIPE", 13)
    ∷ (codes "ALRM", 14)
    ∷ (codes "TERM", 15)
    ∷ (codes "STKFLT", 16)
    ∷ (codes "CHLD", 17)
    ∷ (codes "CONT", 18)
    ∷ (codes "STOP", 19)
    ∷ (codes "TSTP", 20)
    ∷ (codes "TTIN", 21)
    ∷ (codes "TTOU", 22)
    ∷ (codes "URG", 23)
    ∷ (codes "XCPU", 24)
    ∷ (codes "XFSZ", 25)
    ∷ (codes "VTALRM", 26)
    ∷ (codes "PROF", 27)
    ∷ (codes "WINCH", 28)
    ∷ (codes "IO", 29)
    ∷ (codes "PWR", 30)
    ∷ (codes "SYS", 31)
    ∷ []

unfoldable pub find_signal : Text → List (Text × ℕ) → Outcome SignalError ℕ
find_signal name [] = err unknown
find_signal name ((n, num) ∷ rest) =
    let behind = find_signal name rest in if same name n then ok num else behind

abbrev pub without_sig : Text → Option Text → Text
without_sig upper none = upper
without_sig upper (some rest) = rest

abbrev pub by_number : Bool × ℕ → Outcome SignalError ℕ
by_number (negative, n) = if not negative && leb 1 n && leb n 64 then ok n else err out_of_range

unfoldable pub parse_signal : Given → Text → Outcome SignalError ℕ
parse_signal g s = elim (parse_i32 (trim s)) [
  | some x ↦ by_number x
  | none ↦
      let upper = to_uppercase g (trim s) in
      find_signal (without_sig upper (strip_prefix (codes "SIG") upper)) signals
]
