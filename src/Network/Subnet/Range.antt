-- ===== src/Network/Subnet/Range.antt =====
-- The usable hosts of a subnet: the range in closed form, the /0 case, and the default gateway.
use Prim.Native.Nat.{bit_or}
use native.Mathlib.Nat.{pow-le-pow_right, one-mul}
use ingot_engine.Base.{
  ℕ, ◌+◌, ◌-◌, ◌*◌, ◌^◌, ◌<◌, ◌≤◌, ◌≡◌, ◌∙◌, Bool, true, false, Option, none, some, arith, ◌==◌,
  ◌↔◌, ◌⊎◌, Bool-cases, inl, inr,
}
use ingot_engine.Base.Bits.{bit_or_low}
use ingot_engine.Base.Words.{
  Profile, debug, release, add_word, sub_word, shl_word, add_word_fits, sub_word_fits,
  shl_word_fits,
}
use ingot_engine.Network.Subnet.{
  Subnet, IsSubnet, host_bits, ends, usable_range, in_range, contains, default_gateway,
}

-- The number of addresses of the subnet.
abbrev pub size : Subnet → ℕ
size s = 2 ^ (32 - s.prefix)

abbrev pub first_host : Subnet → ℕ
first_host s = s.network + 1

abbrev pub last_host : Subnet → ℕ
last_host s = s.network + size s - 2

pub size-ge : (s : Subnet) → IsSubnet s → 4 ≤ size s
size-ge s v =
    let le : 2 ≤ 32 - s.prefix = omega arith in
    let two : 0 < 2 = omega arith in pow-le-pow_right {n = 2} two le

pub first-le-last : (s : Subnet) → IsSubnet s → first_host s ≤ last_host s
first-le-last s v = omega (arith, size-ge s v)

range_of_bits :
    (pr : Profile) (s : Subnet) (hosts : ℕ)
    → host_bits pr s.prefix ≡ some hosts
    → usable_range pr s ≡ ends pr s.network hosts
unfolding usable_range
range_of_bits pr s hosts e = rw e

pub between_iff :
    (lo hi ip : ℕ)
    → (◌≡◌ {A = Option Bool} (some (in_range (lo, hi) ip)) (some true)) ↔ ((lo ≤ ip) × (ip ≤ hi))
between_iff lo hi ip = ground arith

module _ (pr : Profile) (s : Subnet) (v : IsSubnet s) (pos : 1 ≤ s.prefix) where
  size-lt : size s < 2 ^ 32
  size-lt =
      let le : 32 - s.prefix ≤ 31 = omega arith in
      let two : 0 < 2 = omega arith in omega (arith, pow-le-pow_right {n = 2} two le)

  host_bits_lem : host_bits pr s.prefix ≡ some (size s - 1)
  unfolding host_bits
  host_bits_lem =
      let ne : (s.prefix == 32) ≡ false = ground arith in
      let bit : 1 * size s < 2 ^ 32 = omega (arith, size-lt) in
      rw (ne, shl_word_fits 32 1 pr (32 - s.prefix) (omega arith) bit, one-mul)
        (sub_word_fits 32 (size s) pr 1 (omega (arith, size-ge s v)) size-lt)

  broadcast : bit_or s.network (size s - 1) ≡ s.network + size s - 1
  broadcast =
      let low : size s - 1 < size s = omega (arith, size-ge s v) in
      rw v.masked (bit_or_low (32 - s.prefix) v.index (size s - 1) low ∙ omega (arith, size-ge s v))

  ends_lem : ends pr s.network (size s - 1) ≡ some (first_host s, last_host s)
  unfolding ends
  ends_lem =
      let n : s.network + 1 < 2 ^ 32 = omega (arith, size-ge s v) in
      let b : s.network + size s - 1 < 2 ^ 32 = omega (arith, size-ge s v) in
      let one : 1 ≤ s.network + size s - 1 = omega (arith, size-ge s v) in
      let e : s.network + size s - 1 - 1 ≡ last_host s = omega arith in
      rw (add_word_fits 32 s.network pr 1 n, broadcast, sub_word_fits 32 _ pr 1 one b, e)

  -- From /1 to /30 both builds give the addresses but the first and the last.
  pub usable_range_lem : usable_range pr s ≡ some (first_host s, last_host s)
  usable_range_lem = range_of_bits pr s (size s - 1) host_bits_lem ∙ ends_lem

  -- An address counts as contained exactly when it lies between the first and the last host.
  pub contains_iff :
      (ip : ℕ) → (contains pr s ip ≡ some true) ↔ ((first_host s ≤ ip) × (ip ≤ last_host s))
  unfolding contains
  contains_iff ip = rw usable_range_lem (between_iff (first_host s) (last_host s) ip)

  pub contains_lem : (ip : ℕ) → contains pr s ip ≡ some (in_range (first_host s, last_host s) ip)
  unfolding contains
  contains_lem ip = rw usable_range_lem

  -- The default gateway is a usable host, the lowest.
  pub default_gateway_contained :
      (default_gateway pr s ≡ some (first_host s)) × (contains pr s (first_host s) ≡ some true)
  unfolding default_gateway
  default_gateway_contained =
      (rw usable_range_lem, (contains_iff (first_host s)).1 (omega arith, first-le-last s v))

-- The subnet without a prefix.
usable_range_unmasked :
    (s : Subnet)
    → IsSubnet s
    → s.prefix ≡ 0
    → (usable_range debug s ≡ none) × (usable_range release s ≡ some (1, 2 ^ 32 - 1))
unfolding usable_range add_word sub_word shl_word
usable_range_unmasked s v z =
    let full : s.network + 2 ^ 32 ≤ 2 ^ 32 = rw z at v.fits in
    let n : s.network ≡ 0 = omega arith in (rw z, rw (z, n))

-- For every subnet that is masked, fits and leaves hosts: with a prefix of at least 1 both builds give the
-- addresses but the first and the last. Without a prefix a debug build panics on the shift by 32, and a
-- release build, which shifts by 0, takes every address but 0.0.0.0 for a host.
pub usable_range_cases :
    (s : Subnet)
    → IsSubnet s
    → ((1 ≤ s.prefix) × ((pr : Profile) → usable_range pr s ≡ some (first_host s, last_host s)))
      ⊎ ((s.prefix ≡ 0)
          × (usable_range debug s ≡ none)
          × (usable_range release s ≡ some (1, 2 ^ 32 - 1)))
usable_range_cases s v = elim (Bool-cases (s.prefix == 0)) [
  | inl e ↦
      let z : s.prefix ≡ 0 = ground arith in
      let both = usable_range_unmasked s v z in inr (z, both.0, both.1)
  | inr e ↦ let pos : 1 ≤ s.prefix = ground arith in inl (pos, λ pr. usable_range_lem pr s v pos)
]
