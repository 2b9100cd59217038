-- ===== src/Network/Subnet/Parsed.antt =====
-- The parser of subnets: what it accepts, and the round trip through `cidr`.
use Prim.Native.Nat.{bit_and}
use native.Mathlib.Nat.{div-lt_iff_lt-mul, mul_comm, mul-le-mul_left, mul-suc, mul-div_cancel_left}
use ingot_engine.Base.{
  ℕ, ◌-◌, ◌*◌, ◌/◌, ◌^◌, ◌<◌, ◌≤◌, ◌≡◌, refl, sym, ap, ◌∙◌, true, false, Option, none, some, arith,
  ltb, ◌==◌, ==_iff, Outcome, ok, err, ok_or, bail_if, ◌>>=◌, ◌>>◌, Bool-cases, Option-cases, inl,
  inr, ok-injective,
}
use mathlib.Core.Path.{subst, ap₂}
use ingot_engine.Base.Text.Split.{split_once_at-append}
use ingot_engine.Base.Text.{Text, split_once}
use ingot_engine.Base.Bits.{bit_and_high, bit_and_ones, pow_pos}
use ingot_engine.Base.Words.{all_below, at_below}
use ingot_engine.Base.Text.Decimal.{parse_u8, show_u8, parse_u8-show_u8}
use ingot_engine.Network.Address.{
  parse_ipv4, show_ipv4, parse_ipv4-lt, parse_ipv4-show_ipv4, show_ipv4-no_slash,
}
use ingot_engine.Network.Subnet.{Subnet, SubnetError, parse, mask, cidr, IsSubnet}

-- Each mask is a run of ones above a run of zeros.
mask_table : all_below 33 (λ p. mask p == 2 ^ (32 - p) * (2 ^ p - 1)) ≡ true
unfolding all_below mask
mask_table = refl

mask_lem : (p : ℕ) → p ≤ 32 → mask p ≡ 2 ^ (32 - p) * (2 ^ p - 1)
mask_lem p h = (==_iff (mask p) _).0 (at_below 33 _ p mask_table (omega arith))

pow_table : all_below 33 (λ p. 2 ^ (32 - p) * 2 ^ p == 2 ^ 32) ≡ true
unfolding all_below
pow_table = refl

pow_split : (p : ℕ) → p ≤ 32 → 2 ^ (32 - p) * 2 ^ p ≡ 2 ^ 32
pow_split p h =
    (==_iff _ _).0 (at_below 33 (λ p. 2 ^ (32 - p) * 2 ^ p == 2 ^ 32) p pow_table (omega arith))

index_small : (ip p : ℕ) → ip < 2 ^ 32 → p ≤ 32 → ip / 2 ^ (32 - p) < 2 ^ p
index_small ip p h k =
    (div-lt_iff_lt-mul (pow_pos (32 - p))).1
      (omega (arith, pow_split p k, mul_comm (2 ^ (32 - p)) (2 ^ p)))

-- Masking rounds an address down to a multiple of the subnet's size.
pub bit_and-mask :
    (ip p : ℕ) → ip < 2 ^ 32 → p ≤ 32 → bit_and ip (mask p) ≡ 2 ^ (32 - p) * (ip / 2 ^ (32 - p))
bit_and-mask ip p h k = rw (
  mask_lem p k,
  bit_and_high (32 - p) ip (2 ^ p - 1),
  bit_and_ones p (ip / 2 ^ (32 - p)) (index_small ip p h k),
)

masked-IsSubnet :
    (ip p : ℕ)
    → ip < 2 ^ 32
    → p ≤ 30
    → IsSubnet (record { network = bit_and ip (mask p); prefix = p })
masked-IsSubnet ip p h k =
    let e : bit_and ip (mask p) ≡ 2 ^ (32 - p) * (ip / 2 ^ (32 - p)) =
      bit_and-mask ip p h (omega arith) in
    record {
      leaves_hosts = k;
      index = ip / 2 ^ (32 - p);
      masked = e;
      fits = rw e (
          omega (
            arith,
            mul-le-mul_left (2 ^ (32 - p)) (index_small ip p h (omega arith)),
            pow_split p (omega arith),
            mul-suc (2 ^ (32 - p)) (ip / 2 ^ (32 - p)),
          ));
    }

-- The steps of the parser behind the two reads.
abbrev finish : Option ℕ → Option ℕ → Outcome SubnetError Subnet
finish o q = do
  ip ← ok_or o SubnetError.bad_address
  prefix ← ok_or q SubnetError.bad_prefix
  bail_if (ltb 30 prefix) SubnetError.no_hosts
  ok (record { network = bit_and ip (mask prefix); prefix = prefix })

finish-IsSubnet :
    (o q : Option ℕ) (s : Subnet)
    → ((ip : ℕ) → o ≡ some ip → ip < 2 ^ 32)
    → finish o q ≡ ok s
    → IsSubnet s
finish-IsSubnet none q s b h = cc
finish-IsSubnet (some ip) none s b h = cc
finish-IsSubnet (some ip) (some p) s b h = elim (Bool-cases (ltb 30 p)) [
  | inl big ↦ cc (rw big at h)
  | inr small ↦
      subst IsSubnet (ok-injective (rw small at h))
        (masked-IsSubnet ip p (b ip refl) (ground arith))
]

parse-finish :
    (text addr rest : Text)
    → split_once b'/' text ≡ some (addr, rest)
    → parse text ≡ finish (parse_ipv4 addr) (parse_u8 rest)
unfolding parse
parse-finish text addr rest e = rw e

parse-no_slash : (text : Text) → split_once b'/' text ≡ none → parse text ≡ err SubnetError.no_slash
unfolding parse
parse-no_slash text e = rw e

-- Whatever the text, an accepted subnet is masked, leaves hosts and fits in 32 bits.
pub parse-IsSubnet : (text : Text) (s : Subnet) → parse text ≡ ok s → IsSubnet s
parse-IsSubnet text s h = elim (Option-cases (split_once b'/' text)) [
  | inl e ↦ cc (parse-no_slash text e)
  | inr ((addr, rest), e) ↦
      finish-IsSubnet (parse_ipv4 addr) (parse_u8 rest) s (parse_ipv4-lt addr)
        (sym (parse-finish text addr rest e) ∙ h)
]

-- Masking an accepted network once more changes nothing.
mask-network : (s : Subnet) → IsSubnet s → bit_and s.network (mask s.prefix) ≡ s.network
mask-network s v =
    let k : s.prefix ≤ 32 = omega arith in
    let n : s.network < 2 ^ 32 = omega (arith, pow_pos (32 - s.prefix)) in
    let q : s.network / 2 ^ (32 - s.prefix) ≡ v.index =
      ap (λ x. x / 2 ^ (32 - s.prefix)) v.masked
      ∙ mul-div_cancel_left v.index (pow_pos (32 - s.prefix)) in
    bit_and-mask s.network s.prefix n k ∙ ap (λ x. 2 ^ (32 - s.prefix) * x) q ∙ sym v.masked

finish-some :
    (ip p : ℕ)
    → p ≤ 30
    → finish (some ip) (some p) ≡ ok (record { network = bit_and ip (mask p); prefix = p })
finish-some ip p h = let small : ltb 30 p ≡ false = ground arith in rw small

-- The printed form of an accepted subnet reads back to it.
pub parse-cidr : (s : Subnet) → IsSubnet s → parse (cidr s) ≡ ok s
unfolding cidr
parse-cidr s v =
    let n : s.network < 2 ^ 32 = omega (arith, pow_pos (32 - s.prefix)) in
    let split =
      split_once_at-append (λ c. c == b'/') (show_ipv4 s.network) b'/' (show_u8 s.prefix)
        (show_ipv4-no_slash s.network) refl in
    parse-finish _ _ _ split
    ∙ ap₂ finish (parse_ipv4-show_ipv4 s.network n) (parse_u8-show_u8 s.prefix (omega arith))
    ∙ finish-some s.network s.prefix v.leaves_hosts
    ∙ ap (λ x. ok (record { network = x; prefix = s.prefix })) (mask-network s v)
