-- ===== src/Network/Subnet/V6.antt =====
-- crates/network/src/ipam.rs: `V6Subnet`, its parser and its usable range.
use Prim.Native.Nat.{bit_and, bit_or}
use native.Mathlib.Nat.{div-lt_iff_lt-mul, mul_comm, mul-le-mul_left, mul-suc, pow-le-pow_right}
use mathlib.Core.Path.{subst}
use ingot_engine.Base.{
  ℕ, ◌+◌, ◌-◌, ◌*◌, ◌/◌, ◌%◌, ◌^◌, ◌<◌, ◌≤◌, ◌≡◌, refl, ◌∙◌, Bool, true, ◌&&◌, Option, none, some,
  ◌∷◌, ◌++◌, ltb, leb, ◌==◌, ==_iff, if◌then◌else◌, elem, arith, Outcome, ok, ok_or, bail_if, ◌>>=◌,
  ◌>>◌, Bool-cases, Option-cases, inl, inr, ok-injective, ◌↔◌,
}
use ingot_engine.Base.Bits.{bit_and_high, bit_and_ones, bit_or_low, pow_pos}
use ingot_engine.Base.Text.{Text, split_once}
use ingot_engine.Base.Text.Decimal.{parse_u8, show_u8}
use ingot_engine.Base.Words.{
  Profile, add_word, sub_word, add_word_fits, sub_word_fits, all_below, at_below,
}
use ingot_engine.Network.Address.V6.{parse_ipv6, show_ipv6}
use ingot_engine.Network.Address.V6.Bound.{parse_ipv6-lt}
use ingot_engine.Network.Subnet.{SubnetError, in_range}
use ingot_engine.Network.Subnet.Range.{between_iff}

pub record V6Subnet : Type 0 where
  pub network : ℕ
  pub prefix : ℕ

abbrev u128_max : ℕ
u128_max = 2 ^ 128 - 1

pub mask_v6 : ℕ → ℕ
mask_v6 prefix = if prefix == 0 then 0 else u128_max * 2 ^ (128 - prefix) % 2 ^ 128

-- The steps behind the reads of the address and the prefix.
abbrev checked_v6 : Text → Option ℕ → Option ℕ → Outcome SubnetError V6Subnet
checked_v6 addr o q = do
  ip ← ok_or o SubnetError.bad_address
  bail_if (elem b'.' addr) SubnetError.bad_address
  prefix ← ok_or q SubnetError.bad_prefix
  bail_if (ltb 126 prefix) SubnetError.no_hosts
  ok (record { network = bit_and ip (mask_v6 prefix); prefix = prefix })

unfoldable pub parse_v6 : Text → Outcome SubnetError V6Subnet
unfolding mask_v6
parse_v6 cidr = do
  (addr, rest) ← ok_or (split_once b'/' cidr) SubnetError.no_slash
  checked_v6 addr (parse_ipv6 addr) (parse_u8 rest)

abbrev and_then {ℓ κ} : {A : Type ℓ} {B : Type κ} → Option A → (A → Option B) → Option B
and_then none f = none
and_then (some a) f = f a

-- `none` is an overflow of a debug build.
unfoldable pub usable_range_v6 : Profile → V6Subnet → Option (ℕ × ℕ)
unfolding mask_v6
usable_range_v6 pr s =
    let last = bit_or s.network (u128_max - mask_v6 s.prefix) in
    and_then (add_word 128 pr s.network 1)
      λ lo. and_then (sub_word 128 pr last 1) λ hi. some (lo, hi)

unfoldable pub contains_v6 : Profile → V6Subnet → ℕ → Option Bool
contains_v6 pr s ip = and_then (usable_range_v6 pr s) λ r. some (in_range r ip)

unfoldable pub overlaps_v6 : Profile → V6Subnet → V6Subnet → Option Bool
overlaps_v6 pr s other =
    and_then (usable_range_v6 pr s)
      λ a. and_then (usable_range_v6 pr other) λ b. some (leb a.0 b.1 && leb b.0 a.1)

unfoldable pub cidr_v6 : V6Subnet → Text
cidr_v6 s = show_ipv6 s.network ++ (b'/' ∷ show_u8 s.prefix)

unfoldable pub default_gateway_v6 : Profile → V6Subnet → Option ℕ
default_gateway_v6 pr s = and_then (usable_range_v6 pr s) λ r. some r.0

-- What `parse_v6` returns.
pub record IsV6Subnet (s : V6Subnet) : Type 0 where
  pub leaves_hosts : s.prefix ≤ 126
  pub index : ℕ
  pub masked : s.network ≡ 2 ^ (128 - s.prefix) * index
  pub fits : s.network + 2 ^ (128 - s.prefix) ≤ 2 ^ 128

mask_table : all_below 129 (λ p. mask_v6 p == 2 ^ (128 - p) * (2 ^ p - 1)) ≡ true
unfolding all_below mask_v6
mask_table = refl

pow_table : all_below 129 (λ p. 2 ^ (128 - p) * 2 ^ p == 2 ^ 128) ≡ true
unfolding all_below
pow_table = refl

host_table : all_below 129 (λ p. u128_max - mask_v6 p == 2 ^ (128 - p) - 1) ≡ true
unfolding all_below mask_v6
host_table = refl

module _ (p : ℕ) (le : p ≤ 128) where
  mask_lem : mask_v6 p ≡ 2 ^ (128 - p) * (2 ^ p - 1)
  mask_lem = (==_iff (mask_v6 p) _).0 (at_below 129 _ p mask_table (omega arith))

  pow_split : 2 ^ (128 - p) * 2 ^ p ≡ 2 ^ 128
  pow_split =
      (==_iff _ _).0
        (at_below 129 (λ p. 2 ^ (128 - p) * 2 ^ p == 2 ^ 128) p pow_table (omega arith))

  hosts_lem : u128_max - mask_v6 p ≡ 2 ^ (128 - p) - 1
  hosts_lem =
      (==_iff _ _).0
        (at_below 129 (λ p. u128_max - mask_v6 p == 2 ^ (128 - p) - 1) p host_table (omega arith))

  index_small : (ip : ℕ) → ip < 2 ^ 128 → ip / 2 ^ (128 - p) < 2 ^ p
  index_small ip h =
      (div-lt_iff_lt-mul (pow_pos (128 - p))).1
        (omega (arith, pow_split, mul_comm (2 ^ (128 - p)) (2 ^ p)))

  bit_and-mask :
      (ip : ℕ) → ip < 2 ^ 128 → bit_and ip (mask_v6 p) ≡ 2 ^ (128 - p) * (ip / 2 ^ (128 - p))
  bit_and-mask ip h = rw (
    mask_lem,
    bit_and_high (128 - p) ip (2 ^ p - 1),
    bit_and_ones p (ip / 2 ^ (128 - p)) (index_small ip h),
  )

masked-IsV6Subnet :
    (ip p : ℕ)
    → ip < 2 ^ 128
    → p ≤ 126
    → IsV6Subnet (record { network = bit_and ip (mask_v6 p); prefix = p })
masked-IsV6Subnet ip p h k =
    let le : p ≤ 128 = omega arith in
    let e = bit_and-mask p le ip h in
    record {
      leaves_hosts = k;
      index = ip / 2 ^ (128 - p);
      masked = e;
      fits = rw e (
          omega (
            arith,
            mul-le-mul_left (2 ^ (128 - p)) (index_small p le ip h),
            pow_split p le,
            mul-suc (2 ^ (128 - p)) (ip / 2 ^ (128 - p)),
          ));
    }

abbrev with_prefix : ℕ → Option ℕ → Outcome SubnetError V6Subnet
with_prefix ip q = do
  prefix ← ok_or q SubnetError.bad_prefix
  bail_if (ltb 126 prefix) SubnetError.no_hosts
  ok (record { network = bit_and ip (mask_v6 prefix); prefix = prefix })

with_prefix-IsV6Subnet :
    (ip : ℕ) (q : Option ℕ) (s : V6Subnet) → ip < 2 ^ 128 → with_prefix ip q ≡ ok s → IsV6Subnet s
with_prefix-IsV6Subnet ip none s b h = cc
with_prefix-IsV6Subnet ip (some p) s b h = elim (Bool-cases (ltb 126 p)) [
  | inl big ↦ cc (rw big at h)
  | inr small ↦
      subst IsV6Subnet (ok-injective (rw small at h)) (masked-IsV6Subnet ip p b (ground arith))
]

checked-IsV6Subnet :
    (addr : Text) (o q : Option ℕ) (s : V6Subnet)
    → ((ip : ℕ) → o ≡ some ip → ip < 2 ^ 128)
    → checked_v6 addr o q ≡ ok s
    → IsV6Subnet s
checked-IsV6Subnet addr none q s b h = cc
checked-IsV6Subnet addr (some ip) q s b h = elim (Bool-cases (elem b'.' addr)) [
  | inl dotted ↦ cc (rw dotted at h)
  | inr plain ↦ with_prefix-IsV6Subnet ip q s (b ip refl) (rw plain at h)
]

-- Whatever the text, an accepted IPv6 subnet is masked, leaves hosts and fits in 128 bits.
pub parse_v6-IsV6Subnet : (text : Text) (s : V6Subnet) → parse_v6 text ≡ ok s → IsV6Subnet s
unfolding parse_v6
parse_v6-IsV6Subnet text s h = elim (Option-cases (split_once b'/' text)) [
  | inl e ↦ let here = rw e at h in cc
  | inr ((addr, rest), e) ↦
      checked-IsV6Subnet addr (parse_ipv6 addr) (parse_u8 rest) s (parse_ipv6-lt addr) (rw e at h)
]

abbrev pub size_v6 : V6Subnet → ℕ
size_v6 s = 2 ^ (128 - s.prefix)

abbrev pub first_host_v6 : V6Subnet → ℕ
first_host_v6 s = s.network + 1

abbrev pub last_host_v6 : V6Subnet → ℕ
last_host_v6 s = s.network + size_v6 s - 2

size_v6-ge : (s : V6Subnet) → IsV6Subnet s → 4 ≤ size_v6 s
size_v6-ge s v =
    let le : 2 ≤ 128 - s.prefix = omega arith in
    let two : 0 < 2 = omega arith in pow-le-pow_right {n = 2} two le

module _ (pr : Profile) (s : V6Subnet) (v : IsV6Subnet s) where
  last_lem : bit_or s.network (u128_max - mask_v6 s.prefix) ≡ s.network + size_v6 s - 1
  last_lem =
      let low : size_v6 s - 1 < size_v6 s = omega (arith, size_v6-ge s v) in
      rw (hosts_lem s.prefix (omega arith), v.masked)
        (bit_or_low (128 - s.prefix) v.index (size_v6 s - 1) low ∙ omega (arith, size_v6-ge s v))

  -- Both builds give the addresses but the first and the last, whatever the prefix, the empty one
  -- included.
  pub usable_range_v6_lem : usable_range_v6 pr s ≡ some (first_host_v6 s, last_host_v6 s)
  unfolding usable_range_v6
  usable_range_v6_lem =
      let n : s.network + 1 < 2 ^ 128 = omega (arith, size_v6-ge s v) in
      let b : s.network + size_v6 s - 1 < 2 ^ 128 = omega (arith, size_v6-ge s v) in
      let one : 1 ≤ s.network + size_v6 s - 1 = omega (arith, size_v6-ge s v) in
      let e : s.network + size_v6 s - 1 - 1 ≡ last_host_v6 s = omega arith in
      rw (last_lem, add_word_fits 128 s.network pr 1 n, sub_word_fits 128 _ pr 1 one b, e) refl

  pub contains_v6_iff :
      (ip : ℕ)
      → (contains_v6 pr s ip ≡ some true) ↔ ((first_host_v6 s ≤ ip) × (ip ≤ last_host_v6 s))
  unfolding contains_v6
  contains_v6_iff ip = rw usable_range_v6_lem (between_iff (first_host_v6 s) (last_host_v6 s) ip)
