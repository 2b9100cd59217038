-- ===== src/Network/Subnet.antt =====
-- crates/network/src/ipam.rs: `Subnet`, its parser and its usable range.
pub mod Parsed
pub mod Range
pub mod Overlap
pub mod V6
use Prim.Native.Nat.{bit_and, bit_or}
use ingot_engine.Base.{
  ℕ, ◌+◌, ◌-◌, ◌*◌, ◌/◌, ◌%◌, ◌^◌, ◌<◌, ◌≤◌, ◌≡◌, Bool, ◌&&◌, Option, none, some, List, [], ◌∷◌,
  ◌++◌, ltb, leb, ◌==◌, if◌then◌else◌, Outcome, ok, err, ok_or, bail_if, ◌>>=◌, ◌>>◌,
}
use ingot_engine.Base.Text.{Text, split_once}
use ingot_engine.Base.Text.Decimal.{parse_u8, show_u8}
use ingot_engine.Base.Words.{Profile, add_word, sub_word, shl_word}
use ingot_engine.Network.Address.{parse_ipv4, show_ipv4}

pub record Subnet : Type 0 where
  pub network : ℕ
  pub prefix : ℕ

-- The messages of `anyhow!` and `bail!`, one constructor each.
pub data SubnetError : Type 0 where
  no_slash bad_address bad_prefix no_hosts : SubnetError

abbrev pub u32_max : ℕ
u32_max = 2 ^ 32 - 1

-- `u32::MAX << (32 - prefix)`; the shift is below the width, so both builds agree.
pub mask : ℕ → ℕ
mask prefix = if prefix == 0 then 0 else u32_max * 2 ^ (32 - prefix) % 2 ^ 32

unfoldable pub parse : Text → Outcome SubnetError Subnet
unfolding mask
parse cidr = do
  (addr, rest) ← ok_or (split_once b'/' cidr) no_slash
  ip ← ok_or (parse_ipv4 addr) bad_address
  prefix ← ok_or (parse_u8 rest) bad_prefix
  bail_if (ltb 30 prefix) no_hosts
  ok (record { network = bit_and ip (mask prefix); prefix = prefix })

abbrev and_then {ℓ κ} : {A : Type ℓ} {B : Type κ} → Option A → (A → Option B) → Option B
and_then none f = none
and_then (some a) f = f a

-- `none` is an overflow of a debug build.
host_bits : Profile → ℕ → Option ℕ
host_bits pr prefix =
    if prefix == 32
    then some 1
    else and_then (shl_word 32 pr 1 (32 - prefix)) (λ one. sub_word 32 pr one 1)

-- The two ends, once the host bits are known.
ends : Profile → ℕ → ℕ → Option (ℕ × ℕ)
ends pr network hosts =
    and_then (add_word 32 pr network 1)
      λ lo. and_then (sub_word 32 pr (bit_or network hosts) 1) λ hi. some (lo, hi)

unfoldable pub usable_range : Profile → Subnet → Option (ℕ × ℕ)
unfolding host_bits ends
usable_range pr s = and_then (host_bits pr s.prefix) λ hosts. ends pr s.network hosts

abbrev pub in_range : ℕ × ℕ → ℕ → Bool
in_range (lo, hi) ip = leb lo ip && leb ip hi

unfoldable pub contains : Profile → Subnet → ℕ → Option Bool
contains pr s ip = and_then (usable_range pr s) λ r. some (in_range r ip)

unfoldable pub overlaps : Profile → Subnet → Subnet → Option Bool
overlaps pr s other =
    and_then (usable_range pr s)
      λ a. and_then (usable_range pr other) λ b. some (leb a.0 b.1 && leb b.0 a.1)

unfoldable pub cidr : Subnet → Text
cidr s = show_ipv4 s.network ++ (b'/' ∷ show_u8 s.prefix)

-- The address of `default_gateway`, as a `u32`.
unfoldable pub default_gateway : Profile → Subnet → Option ℕ
default_gateway pr s = and_then (usable_range pr s) λ r. some r.0

-- What `parse` returns: a prefix that leaves hosts, and a network with no host bits.
pub record IsSubnet (s : Subnet) : Type 0 where
  pub leaves_hosts : s.prefix ≤ 30
  pub index : ℕ
  pub masked : s.network ≡ 2 ^ (32 - s.prefix) * index
  pub fits : s.network + 2 ^ (32 - s.prefix) ≤ 2 ^ 32
