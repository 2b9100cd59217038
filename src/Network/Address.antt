-- ===== src/Network/Address.antt =====
-- `std::net::Ipv4Addr`, as the program uses it: a `u32` in host order, its text, and the parser.
pub mod V6
use mathlib.Core.List.{append-nil}
use ingot_engine.Base.{
  ℕ, ◌+◌, ◌*◌, ◌/◌, ◌%◌, ◌^◌, ◌<◌, ◌-◌, ◌≤◌, ◌≡◌, refl, ◌∙◌, Bool, true, false, ◌&&◌, ◌||◌, Option,
  none, some, [], ◌∷◌, ◌++◌, arith, ltb, ◌==◌, if◌then◌else◌, length, sym, ◌≢◌, Bool-cases, inl,
  inr, ltb→lt, ap, length-append, any,
}
use ingot_engine.Base.Text.{Text, codes, is_ascii_digit}
use ingot_engine.Base.Text.Split.{any-append}
use ingot_engine.Base.Text.Decimal.{show_u8}

abbrev pub octet : ℕ → ℕ → ℕ
octet ip k = ip / 2 ^ k % 256

-- `Ipv4Addr::from(ip).to_string()`.
pub show_ipv4 : ℕ → Text
show_ipv4 ip =
    show_u8 (octet ip 24)
    ++ (b'.'
        ∷ (show_u8 (octet ip 16)
            ++ (b'.' ∷ (show_u8 (octet ip 8) ++ (b'.' ∷ show_u8 (octet ip 0))))))

-- `read_number(10, Some(3), false)` into a `u8`: the value, and the text behind its digits.
-- `n` digits were read, of value `acc`; `lead` tells that the first one was 0.
read_digits : Text → ℕ → ℕ → Bool → Option (ℕ × Text)
read_digits [] n acc lead =
    if n == 0 || (lead && ltb 1 n) || ltb 255 acc then none else some (acc, [])
read_digits (c ∷ s) n acc lead =
    let more = read_digits s (n + 1) (acc * 10 + (c - 48)) (if n == 0 then c == b'0' else lead) in
    if is_ascii_digit c
    then (if ltb n 3 then more else none)
    else if n == 0 || (lead && ltb 1 n) || ltb 255 acc
    then none
    else some (acc, c ∷ s)

pub read_octet : Text → Option (ℕ × Text)
unfolding read_digits
read_octet s = read_digits s 0 0 false

-- `read_given_char`.
pub read_dot : Text → Option Text
read_dot [] = none
read_dot (c ∷ s) = if c == b'.' then some s else none

infixl 5 ◌>>=◌
abbrev ◌>>=◌ {ℓ κ} : {A : Type ℓ} {B : Type κ} → Option A → (A → Option B) → Option B
none >>= f = none
some a >>= f = f a

abbrev at_end : Text → ℕ → Option ℕ
at_end [] ip = some ip
at_end (c ∷ s) ip = none

-- `read_ipv4_addr`, up to the end of the text.
read_ipv4 : Text → Option ℕ
read_ipv4 s = do
  (a, s1) ← read_octet s
  s2 ← read_dot s1
  (b, s3) ← read_octet s2
  s4 ← read_dot s3
  (c, s5) ← read_octet s4
  s6 ← read_dot s5
  (d, s7) ← read_octet s6
  at_end s7 (a * 2 ^ 24 + b * 2 ^ 16 + c * 2 ^ 8 + d)

-- `s.parse::<Ipv4Addr>()`, as a `u32`.
unfoldable pub parse_ipv4 : Text → Option ℕ
unfolding read_ipv4 read_octet read_dot
parse_ipv4 s = if ltb 15 (length s) then none else read_ipv4 s

parse_ipv4_runs :
    (parse_ipv4 (codes "10.1.2.99") ≡ some 0x0a010263)
    × (parse_ipv4 (codes "10.1.2") ≡ none)
    × (parse_ipv4 (codes "10.01.2.3") ≡ none)
    × (parse_ipv4 (codes "10.1.2.256") ≡ none)
    × (parse_ipv4 (codes "1.1.2.25.6") ≡ none)
unfolding parse_ipv4
parse_ipv4_runs = (refl, refl, refl, refl, refl)

abbrev StopsDigits : Text → Type 0
StopsDigits [] = Unit
StopsDigits (c ∷ s) = is_ascii_digit c ≡ false

read_octet-show_u8 :
    (n : ℕ) (rest : Text)
    → n < 256
    → StopsDigits rest
    → read_octet (show_u8 n ++ rest) ≡ some (n, rest)
unfolding read_octet show_u8
read_octet-show_u8 n [] h st = ground arith
read_octet-show_u8 n (c ∷ rest) h st = ground arith

length-show_u8 : (n : ℕ) → length (show_u8 n) ≤ 3
unfolding show_u8
length-show_u8 n = ground arith

length-show_ipv4 : (ip : ℕ) → length (show_ipv4 ip) ≤ 15
unfolding show_ipv4
length-show_ipv4 ip =
    let a = show_u8 (octet ip 24) in
    let b = show_u8 (octet ip 16) in
    let c = show_u8 (octet ip 8) in
    let d = show_u8 (octet ip 0) in
    omega (
      arith,
      length-append a (b'.' ∷ (b ++ (b'.' ∷ (c ++ (b'.' ∷ d))))),
      length-append b (b'.' ∷ (c ++ (b'.' ∷ d))),
      length-append c (b'.' ∷ d),
      length-show_u8 (octet ip 24),
      length-show_u8 (octet ip 16),
      length-show_u8 (octet ip 8),
      length-show_u8 (octet ip 0),
    )

module _ (a b c d : ℕ) (ha : a < 256) (hb : b < 256) (hc : c < 256) (hd : d < 256) where
  read_ipv4_octets :
      read_ipv4 (show_u8 a ++ (b'.' ∷ (show_u8 b ++ (b'.' ∷ (show_u8 c ++ (b'.' ∷ show_u8 d))))))
      ≡ some (a * 2 ^ 24 + b * 2 ^ 16 + c * 2 ^ 8 + d)
  unfolding read_ipv4 read_dot
  read_ipv4_octets = rw (read_octet-show_u8 a _ ha refl) (
      rw (read_octet-show_u8 b _ hb refl) (
        rw (read_octet-show_u8 c _ hc refl)
          (rw (rw (append-nil (show_u8 d)) at (read_octet-show_u8 d [] hd tt)) refl)))

read_it : (s : Text) → ltb 15 (length s) ≡ false → parse_ipv4 s ≡ read_ipv4 s
unfolding parse_ipv4
read_it s fits = rw fits

too_long : (s : Text) (ip : ℕ) → ltb 15 (length s) ≡ true → parse_ipv4 s ≢ some ip
unfolding parse_ipv4
too_long s ip long = rw long (λ e. cc)

parse_ipv4-read_ipv4 : (s : Text) → length s ≤ 15 → parse_ipv4 s ≡ read_ipv4 s
parse_ipv4-read_ipv4 s h = elim (Bool-cases (ltb 15 (length s))) [
  | inl long ↦ absurd (omega (arith, ltb→lt 15 (length s) long))
  | inr fits ↦ read_it s fits
]

octets :
    (ip : ℕ)
    → ip < 2 ^ 32
    → octet ip 24 * 2 ^ 24 + octet ip 16 * 2 ^ 16 + octet ip 8 * 2 ^ 8 + octet ip 0 ≡ ip
octets ip h = omega arith

read_ipv4-show_ipv4 : (ip : ℕ) → ip < 2 ^ 32 → read_ipv4 (show_ipv4 ip) ≡ some ip
unfolding show_ipv4
read_ipv4-show_ipv4 ip h =
    read_ipv4_octets (octet ip 24) (octet ip 16) (octet ip 8) (octet ip 0) (omega arith)
      (omega arith) (omega arith) (omega arith)
    ∙ ap some (octets ip h)

-- What is printed reads back.
pub parse_ipv4-show_ipv4 : (ip : ℕ) → ip < 2 ^ 32 → parse_ipv4 (show_ipv4 ip) ≡ some ip
parse_ipv4-show_ipv4 ip h =
    parse_ipv4-read_ipv4 (show_ipv4 ip) (length-show_ipv4 ip) ∙ read_ipv4-show_ipv4 ip h

read_digits-lt :
    (s : Text) (n acc : ℕ) (lead : Bool) (x : ℕ × Text)
    → read_digits s n acc lead ≡ some x
    → x.0 < 256
unfolding read_digits
read_digits-lt [] n acc lead x h = ground arith
read_digits-lt (c ∷ s) n acc lead x h =
    ground
      (arith, read_digits-lt s (n + 1) (acc * 10 + (c - 48)) (if n == 0 then c == b'0' else lead) x)

pub read_octet-lt : (s : Text) (x : ℕ × Text) → read_octet s ≡ some x → x.0 < 256
unfolding read_octet
read_octet-lt s x h = read_digits-lt s 0 0 false x h

read_ipv4-lt : (s : Text) (ip : ℕ) → read_ipv4 s ≡ some ip → ip < 2 ^ 32
unfolding read_ipv4
read_ipv4-lt s ip h = grind (arith, read_octet-lt)

-- Only 32-bit addresses are read.
pub parse_ipv4-lt : (s : Text) (ip : ℕ) → parse_ipv4 s ≡ some ip → ip < 2 ^ 32
parse_ipv4-lt s ip h = elim (Bool-cases (ltb 15 (length s))) [
  | inl long ↦ absurd (too_long s ip long h)
  | inr fits ↦ read_ipv4-lt s ip (sym (read_it s fits) ∙ h)
]

show_u8-no_slash : (n : ℕ) → any (λ c. c == b'/') (show_u8 n) ≡ false
unfolding show_u8 any
show_u8-no_slash n = ground arith

-- An address is printed with no slash.
pub show_ipv4-no_slash : (ip : ℕ) → any (λ c. c == b'/') (show_ipv4 ip) ≡ false
unfolding show_ipv4
show_ipv4-no_slash ip =
    simp (any-append, show_u8-no_slash) (unfold any in simp (any-append, show_u8-no_slash))
