-- ===== src/Network/Address/V6.antt =====
-- `std::net::Ipv6Addr` and `IpAddr`, as the program uses them: a `u128`, its parser and its text.
pub mod Bound
use ingot_engine.Base.{
  ℕ, zero, suc, ◌+◌, ◌*◌, ◌/◌, ◌%◌, ◌^◌, ◌<◌, ◌-◌, ◌≤◌, ◌≡◌, refl, ◌∙◌, Bool, true, false, not,
  ◌&&◌, ◌||◌, Option, none, some, List, [], ◌∷◌, ◌++◌, arith, ltb, leb, ◌==◌, if◌then◌else◌, length,
  take, drop, All, Bool-cases, inl, inr,
}
use ingot_engine.Base.Text.{Text, codes, is_ascii_digit, is_ascii_hexdigit}
use ingot_engine.Base.Text.Decimal.{show_u8}
use ingot_engine.Network.Address.{read_octet, read_dot, show_ipv4}

infixl 5 ◌>>=◌
abbrev ◌>>=◌ {ℓ κ} : {A : Type ℓ} {B : Type κ} → Option A → (A → Option B) → Option B
none >>= f = none
some a >>= f = f a

-- `read_ipv4_addr`: the address, and the text behind it.
unfoldable pub read_ipv4_addr : Text → Option (ℕ × Text)
unfolding read_octet read_dot
read_ipv4_addr s = do
  (a, s1) ← read_octet s
  s2 ← read_dot s1
  (b, s3) ← read_octet s2
  s4 ← read_dot s3
  (c, s5) ← read_octet s4
  s6 ← read_dot s5
  (d, s7) ← read_octet s6
  some (a * 2 ^ 24 + b * 2 ^ 16 + c * 2 ^ 8 + d, s7)

-- `to_digit(16)` of a hexadecimal digit.
abbrev pub hex_value : ℕ → ℕ
hex_value c = if is_ascii_digit c then c - b'0' else if leb b'a' c then c - 87 else c - 55

-- `read_number(16, Some(4), true)` into a `u16`: `n` digits were read, of value `acc`.
unfoldable pub read_hex : Text → ℕ → ℕ → Option (ℕ × Text)
unfolding is_ascii_hexdigit
read_hex [] n acc = if n == 0 then none else some (acc, [])
read_hex (c ∷ s) n acc =
    let more = read_hex s (n + 1) (acc * 16 + hex_value c) in
    if is_ascii_hexdigit c
    then (if ltb n 4 then more else none)
    else if n == 0
    then none
    else some (acc, c ∷ s)

pub read_colon : Text → Option Text
read_colon [] = none
read_colon (c ∷ s) = if c == b':' then some s else none

-- `read_separator`: a colon before every group but the first.
abbrev pub separated : Bool → Text → Option Text
separated true s = some s
separated false s = read_colon s

pub read_group : Bool → Text → Option (ℕ × Text)
unfolding read_hex read_colon
read_group first s = do s1 ← separated first s; read_hex s1 0 0

pub read_embedded : Bool → Text → Option (ℕ × Text)
unfolding read_colon
read_embedded first s = do s1 ← separated first s; read_ipv4_addr s1

-- The groups that were read, whether the last two are an IPv4 address, and the text behind them.
abbrev pub Groups : Type 0
Groups = List ℕ × Bool × Text

abbrev pub halves : ℕ × Text → Groups
halves (ip, s) = (ip / 2 ^ 16 ∷ ip % 2 ^ 16 ∷ [], true, s)

abbrev pub onto : ℕ → Groups → Groups
onto g (gs, embedded, s) = (g ∷ gs, embedded, s)

abbrev pub address_or : Option (ℕ × Text) → Groups → Groups
address_or none group = group
address_or (some found) group = halves found

abbrev pub then_groups : Option (ℕ × Text) → Text → (Text → Groups) → Groups
then_groups none s more = ([], false, s)
then_groups (some (g, rest)) s more = onto g (more rest)

-- An address needs two slots.
abbrev pub embedded_at : ℕ → Bool → Text → Option (ℕ × Text)
embedded_at n first s = if ltb 0 n then read_embedded first s else none

-- `read_groups` into `n` slots.
pub read_groups : ℕ → Bool → Text → Groups
unfolding read_group read_embedded
read_groups zero first s = ([], false, s)
read_groups (suc n) first s =
    address_or (embedded_at n first s)
      (then_groups (read_group first s) s (λ rest. read_groups n false rest))

unfoldable pub zeros : ℕ → List ℕ
zeros zero = []
zeros (suc n) = 0 ∷ zeros n

-- The address of eight groups.
unfoldable pub of_groups : ℕ → List ℕ → ℕ
of_groups acc [] = acc
of_groups acc (g ∷ gs) = of_groups (acc * 2 ^ 16 + g) gs

abbrev pub with_tail : List ℕ → Groups → ℕ × Text
with_tail head (tail, embedded, s) =
    (of_groups 0 (head ++ zeros (8 - length head - length tail) ++ tail), s)

abbrev pub behind_head : Groups → Option (ℕ × Text)
behind_head (head, embedded, s) =
    if length head == 8 then some (of_groups 0 head, s) else if embedded then none else do
      s1 ← read_colon s
      s2 ← read_colon s1
      some (with_tail head (read_groups (8 - (length head + 1)) true s2))

-- `read_ipv6_addr`.
unfoldable pub read_ipv6_addr : Text → Option (ℕ × Text)
unfolding read_groups read_colon zeros of_groups
read_ipv6_addr s = behind_head (read_groups 8 true s)

abbrev pub at_end : Option (ℕ × Text) → Option ℕ
at_end none = none
at_end (some (ip, [])) = some ip
at_end (some (ip, c ∷ s)) = none

-- `s.parse::<Ipv6Addr>()`.
unfoldable pub parse_ipv6 : Text → Option ℕ
unfolding read_ipv6_addr
parse_ipv6 s = at_end (read_ipv6_addr s)

pub data IpAddr : Type 0 where
  v4 v6 : ℕ → IpAddr

abbrev as_addr : (ℕ → IpAddr) → Option ℕ → Option IpAddr
as_addr family none = none
as_addr family (some ip) = some (family ip)

-- `s.parse::<IpAddr>()`: the IPv6 reader is tried where no IPv4 address stands at the front.
unfoldable pub parse_ip : Text → Option IpAddr
unfolding read_ipv4_addr parse_ipv6
parse_ip s = elim (read_ipv4_addr s) [
  | some found ↦ as_addr v4 (at_end (some found))
  | none ↦ as_addr v6 (parse_ipv6 s)
]

-- `{:x}` of a `u16`.
abbrev hex_digit : ℕ → ℕ
hex_digit d = if ltb d 10 then d + b'0' else d + 87

abbrev pub show_hex : ℕ → Text
show_hex g =
    let low = hex_digit (g % 16) ∷ [] in
    let second = hex_digit (g / 16 % 16) ∷ low in
    let third = hex_digit (g / 256 % 16) ∷ second in
    if ltb g 16
    then low
    else if ltb g 256
    then second
    else if ltb g 4096
    then third
    else hex_digit (g / 4096) ∷ third

abbrev pub group_of : ℕ → ℕ → ℕ
group_of ip k = ip / 2 ^ (16 * k) % 2 ^ 16

abbrev pub groups_of : ℕ → List ℕ
groups_of ip =
    group_of ip 7
    ∷ group_of ip 6
    ∷ group_of ip 5
    ∷ group_of ip 4
    ∷ group_of ip 3
    ∷ group_of ip 2
    ∷ group_of ip 1
    ∷ group_of ip 0
    ∷ []

-- The start and the length of the longest run of zeros, the first of them. `at` is the position,
-- `run` the length of the run that ends there, `best` the longest so far.
unfoldable pub longest_run : List ℕ → ℕ → ℕ → ℕ × ℕ → ℕ × ℕ
longest_run [] at run best = best
longest_run (g ∷ gs) at run (start, len) =
    let next = if g == 0 then run + 1 else 0 in
    longest_run gs (at + 1) next (if ltb len next then (at + 1 - next, next) else (start, len))

unfoldable pub join_groups : List ℕ → Text
join_groups [] = []
join_groups (g ∷ []) = show_hex g
join_groups (g ∷ h ∷ gs) = show_hex g ++ b':' ∷ join_groups (h ∷ gs)

abbrev is_mapped : ℕ → Bool
is_mapped ip = ip / 2 ^ 32 == 0xffff

-- `Ipv6Addr::from(ip).to_string()`.
unfoldable pub show_ipv6 : ℕ → Text
unfolding longest_run join_groups
show_ipv6 ip =
    let gs = groups_of ip in
    let (start, len) = longest_run gs 0 0 (0, 0) in
    if is_mapped ip
    then codes "::ffff:" ++ show_ipv4 (ip % 2 ^ 32)
    else if ltb 1 len
    then join_groups (take start gs) ++ codes "::" ++ join_groups (drop (start + len) gs)
    else join_groups gs
