-- ===== src/Network/Ipam/V6.antt =====
-- crates/network/src/ipam.rs: the leases of IPv6 addresses, which the same state and file hold.
pub mod Grant
pub mod Freed
mod Tests
use ingot_engine.Base.{
  ℕ, zero, suc, ◌≡◌, ◌≢◌, ◌∙◌, refl, ◌+◌, ◌-◌, ◌≤◌, ◌<◌, Bool, true, false, not, ◌&&◌, ◌||◌, Option,
  none, some, List, [], ◌∷◌, ◌++◌, ltb, ◌==◌, if◌then◌else◌, elem, elem-remove_all, arith,
  Bool-cases, Option-cases, inl, inr, ◌⊎◌, remove_all, Outcome, ok, err, panic, ok_or, checked,
  bail_if, ◌>>=◌, ◌>>◌,
}
use ingot_engine.Base.Maps.{lookup, insert, lookup-insert}
use ingot_engine.Base.Text.{Text, same, same_iff}
use ingot_engine.Base.Words.{Profile}
use ingot_engine.Network.Address.V6.{parse_ipv6}
use ingot_engine.Network.Subnet.{SubnetError}
use ingot_engine.Network.Subnet.V6.{
  V6Subnet, IsV6Subnet, parse_v6, parse_v6-IsV6Subnet, usable_range_v6, usable_range_v6_lem,
  contains_v6, contains_v6_iff, first_host_v6, last_host_v6,
}
use ingot_engine.Network.Ipam.{
  Ipam, IpamError, bad_gateway, gateway_outside, bad_ip, ip_outside, ip_is_gateway, ip_taken,
  exhausted, in_subnet, bucket, leased, log_write, atomic, batched, first_free, after_check,
  sweep_buckets,
}
use ingot_engine.Network.Ipam.Leased.{Taken, Lowest, first_free-Lowest}

abbrev pub leased_v6 : Ipam → Text → ℕ → Bool
leased_v6 ipam net ip = elem ip (bucket ipam.state.allocated_v6 net)

abbrev pub set_bucket_v6 : Text → List ℕ → Ipam → Ipam
set_bucket_v6 net used ipam = record ipam {
  state = record ipam.state { allocated_v6 = insert net used ipam.state.allocated_v6 };
}

abbrev pub lease_v6 : Text → ℕ → List ℕ → Ipam → Ipam
lease_v6 net c used ipam = log_write atomic (set_bucket_v6 net (c ∷ used) ipam)

-- The loop from `c` that stops behind `hi`, on the number of addresses that are left.
pub scan_v6 : ℕ → ℕ → ℕ → ℕ → List ℕ → Option ℕ
scan_v6 zero c hi gw used = none
scan_v6 (suc n) c hi gw used = elim (not (c == gw) && not (elem c used)) [
  | true ↦ some c
  | false ↦ elim (c == hi) [ true ↦ none | false ↦ scan_v6 n (c + 1) hi gw used ]
]

-- The steps before the lock.
unfoldable pub check_allocate_v6 : Profile → Text → Text → Outcome IpamError (V6Subnet × ℕ)
check_allocate_v6 pr subnet gateway = do
  sub ← in_subnet (parse_v6 subnet)
  gw ← ok_or (parse_ipv6 gateway) bad_gateway
  inside ← checked (contains_v6 pr sub gw)
  bail_if (not inside) gateway_outside
  ok (sub, gw)

abbrev pub grant_v6 : Text → List ℕ → Ipam → Option ℕ → Outcome IpamError ℕ × Ipam
grant_v6 net used opened none = (err exhausted, opened)
grant_v6 net used opened (some c) = (ok c, lease_v6 net c used opened)

abbrev in_range_v6 : Text → ℕ → List ℕ → Ipam → Option (ℕ × ℕ) → Outcome IpamError ℕ × Ipam
in_range_v6 net gw used opened none = (panic, opened)
in_range_v6 net gw used opened (some (lo, hi)) =
    grant_v6 net used opened (scan_v6 (hi + 1 - lo) lo hi gw used)

unfoldable pub allocate_locked_v6 :
    Profile → Text → V6Subnet → ℕ → Ipam → Outcome IpamError ℕ × Ipam
unfolding scan_v6
allocate_locked_v6 pr net sub gw ipam =
    let used = bucket ipam.state.allocated_v6 net in
    let opened = set_bucket_v6 net used ipam in
    in_range_v6 net gw used opened (usable_range_v6 pr sub)

unfoldable pub allocate_v6 : Profile → Text → Text → Text → Ipam → Outcome IpamError ℕ × Ipam
allocate_v6 pr net subnet gateway ipam =
    after_check (check_allocate_v6 pr subnet gateway) ipam
      λ (sub, gw). allocate_locked_v6 pr net sub gw ipam

unfoldable pub check_reserve_v6 : Profile → Text → Text → Text → Outcome IpamError ℕ
check_reserve_v6 pr subnet gateway ip = do
  sub ← in_subnet (parse_v6 subnet)
  gw ← ok_or (parse_ipv6 gateway) bad_gateway
  want ← ok_or (parse_ipv6 ip) bad_ip
  inside ← checked (contains_v6 pr sub want)
  bail_if (not inside) ip_outside
  bail_if (want == gw) ip_is_gateway
  ok want

unfoldable pub reserve_locked_v6 : Text → ℕ → Ipam → Outcome IpamError ℕ × Ipam
reserve_locked_v6 net want ipam =
    let used = bucket ipam.state.allocated_v6 net in
    let opened = set_bucket_v6 net used ipam in
    if elem want used then (err ip_taken, opened) else (ok want, lease_v6 net want used opened)

unfoldable pub reserve_v6 : Profile → Text → Text → Text → Text → Ipam → Outcome IpamError ℕ × Ipam
reserve_v6 pr net subnet gateway ip ipam =
    after_check (check_reserve_v6 pr subnet gateway ip) ipam λ want. reserve_locked_v6 net want ipam

unfoldable pub release_from_v6 : Text → ℕ → Option (List ℕ) → Ipam → Ipam
release_from_v6 net ip none ipam = ipam
release_from_v6 net ip (some used) ipam =
    let removed = set_bucket_v6 net (remove_all ip used) ipam in
    if elem ip used then log_write batched removed else removed

unfoldable pub release_v6 : Text → Text → Ipam → Ipam
release_v6 net ip ipam = elim (parse_ipv6 ip) [
  | none ↦ ipam
  | some v ↦ release_from_v6 net v (lookup net ipam.state.allocated_v6) ipam
]

-- The loop over the buckets is the one of `sweep_orphans`.
unfoldable pub sweep_orphans_v6 : List Text → List (Text × ℕ) → Ipam → (ℕ × ℕ) × Ipam
sweep_orphans_v6 known live ipam =
    let (kept, dropped, released) = sweep_buckets known live ipam.state.allocated_v6 in
    let swept = record ipam { state = record ipam.state { allocated_v6 = kept } } in
    (
      (dropped, released),
      if ltb 0 dropped || ltb 0 released then log_write batched swept else swept,
    )
