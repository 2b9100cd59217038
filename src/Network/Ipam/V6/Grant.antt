-- ===== src/Network/Ipam/V6/Grant.antt =====
-- `allocate_v6` and `reserve_v6` behind their checks.
use ingot_engine.Base.{
  ℕ, zero, suc, ◌≡◌, ◌≢◌, ◌∙◌, refl, ◌+◌, ◌-◌, ◌≤◌, ◌<◌, true, false, not, ◌&&◌, ◌||◌, Option, none,
  some, List, [], ◌∷◌, ◌++◌, ◌==◌, if◌then◌else◌, elem, arith, Bool-cases, inl, inr, ◌⊎◌, Outcome,
  ok, err,
}
use ingot_engine.Base.Maps.{lookup-insert}
use ingot_engine.Base.Text.{Text, same, same_iff}
use ingot_engine.Base.Words.{Profile}
use ingot_engine.Network.Address.V6.{parse_ipv6}
use ingot_engine.Network.Subnet.V6.{
  V6Subnet, parse_v6, parse_v6-IsV6Subnet, usable_range_v6_lem, contains_v6_iff, first_host_v6,
  last_host_v6,
}
use ingot_engine.Network.Ipam.{Ipam, IpamError, bucket, atomic, first_free}
use ingot_engine.Network.Ipam.Leased.{Taken, Lowest, first_free-Lowest}
use ingot_engine.Network.Ipam.V6.{
  leased_v6, set_bucket_v6, lease_v6, scan_v6, grant_v6, check_allocate_v6, allocate_locked_v6,
  allocate_v6, check_reserve_v6, reserve_locked_v6, reserve_v6,
}

-- The loop that tests for the last address does not run past it, and finds what a scan of the range finds.
scan_v6-first_free :
    (n c hi gw : ℕ) (used : List ℕ)
    → c + n ≡ hi + 1
    → scan_v6 n c hi gw used ≡ first_free n c gw used
unfolding scan_v6 first_free
scan_v6-first_free zero c hi gw used h = refl
scan_v6-first_free (suc n) c hi gw used h = elim (Bool-cases (not (c == gw) && not (elem c used))) [
  | inl free ↦ rw (free, scan_v6, first_free) refl
  | inr busy ↦ elim (Bool-cases (c == hi)) [
    | inl last ↦
        let none_left : n ≡ 0 = ground arith in rw (busy, last, none_left, scan_v6, first_free) refl
    | inr before ↦
        rw (busy, before, scan_v6, first_free)
          (scan_v6-first_free n (c + 1) hi gw used (omega arith))
  ]
]

-- The address `ip` was handed out on `net`, and nothing else changed.
pub record LeasesV6 (net : Text) (ip : ℕ) (before after : Ipam) : Type 0 where
  pub was_free : leased_v6 before net ip ≡ false
  pub leases :
      (n : Text) (j : ℕ) → leased_v6 after n j ≡ (same net n && j == ip || leased_v6 before n j)
  pub others : after.state.allocated ≡ before.state.allocated
  pub written : after.writes ≡ before.writes ++ atomic after.state ∷ []

-- No lease and no file changed.
pub record UntouchedV6 (before after : Ipam) : Type 0 where
  pub leases : (n : Text) (j : ℕ) → leased_v6 after n j ≡ leased_v6 before n j
  pub others : after.state.allocated ≡ before.state.allocated
  pub written : after.writes ≡ before.writes

-- What `allocate_v6` owes its caller.
abbrev pub AllocatesV6 : Text → V6Subnet → ℕ → Ipam → Outcome IpamError ℕ × Ipam → Type 0
AllocatesV6 net sub gw before (r, after) =
    ((ip : ℕ) × (r ≡ ok ip)
      × (first_host_v6 sub ≤ ip)
      × (ip ≤ last_host_v6 sub)
      × (ip ≢ gw)
      × ((y : ℕ)
          → first_host_v6 sub ≤ y
          → y < ip
          → Taken gw (bucket before.state.allocated_v6 net) y)
      × LeasesV6 net ip before after)
    ⊎ ((r ≡ err IpamError.exhausted)
        × ((y : ℕ)
            → first_host_v6 sub ≤ y
            → y ≤ last_host_v6 sub
            → Taken gw (bucket before.state.allocated_v6 net) y)
        × UntouchedV6 before after)

-- What `reserve_v6` owes its caller.
abbrev pub ReservesV6 : Text → ℕ → Ipam → Outcome IpamError ℕ × Ipam → Type 0
ReservesV6 net want before (r, after) =
    ((r ≡ ok want) × LeasesV6 net want before after)
    ⊎ ((r ≡ err IpamError.ip_taken) × (leased_v6 before net want ≡ true) × UntouchedV6 before after)

module _ (net : Text) (before : Ipam) where
  abbrev used_v6 : List ℕ
  used_v6 = bucket before.state.allocated_v6 net

  abbrev opened_v6 : Ipam
  opened_v6 = set_bucket_v6 net used_v6 before

  pub leased_v6-set_bucket_v6 :
      (s : Ipam) (used : List ℕ) (n : Text) (j : ℕ)
      → leased_v6 (set_bucket_v6 net used s) n j
        ≡ (if same net n then elem j used else leased_v6 s n j)
  leased_v6-set_bucket_v6 s used n j = rw lookup-insert (ground arith)

  leased_v6-opened_v6 : (n : Text) (j : ℕ) → leased_v6 opened_v6 n j ≡ leased_v6 before n j
  leased_v6-opened_v6 n j =
      leased_v6-set_bucket_v6 before used_v6 n j ∙ ground (arith, same_iff net n)

  opened-UntouchedV6 : UntouchedV6 before opened_v6
  opened-UntouchedV6 = record { leases = leased_v6-opened_v6; others = refl; written = refl }

  leased_v6-lease_v6 :
      (ip : ℕ) (n : Text) (j : ℕ)
      → leased_v6 (lease_v6 net ip used_v6 opened_v6) n j
        ≡ (same net n && j == ip || leased_v6 before n j)
  unfolding elem
  leased_v6-lease_v6 ip n j =
      leased_v6-set_bucket_v6 opened_v6 (ip ∷ used_v6) n j
      ∙ ground (arith, leased_v6-opened_v6 n j, same_iff net n)

  lease-LeasesV6 :
      (ip : ℕ)
      → elem ip used_v6 ≡ false
      → LeasesV6 net ip before (lease_v6 net ip used_v6 opened_v6)
  lease-LeasesV6 ip free = record {
    was_free = free;
    leases = leased_v6-lease_v6 ip;
    others = refl;
    written = refl;
  }

  grant-AllocatesV6 :
      (sub : V6Subnet) (gw : ℕ) (o : Option ℕ)
      → Lowest (last_host_v6 sub + 1 - first_host_v6 sub) (first_host_v6 sub) gw used_v6 o
      → AllocatesV6 net sub gw before (grant_v6 net used_v6 opened_v6 o)
  grant-AllocatesV6 sub gw none h = inr (refl, λ y p q. h y p (omega arith), opened-UntouchedV6)
  grant-AllocatesV6 sub gw (some ip) (low, high, ne, free, below) =
      inl (ip, refl, low, omega arith, ne, below, lease-LeasesV6 ip free)

  reserve_locked-ReservesV6 :
      (want : ℕ) → ReservesV6 net want before (reserve_locked_v6 net want before)
  unfolding reserve_locked_v6
  reserve_locked-ReservesV6 want = elim (Bool-cases (elem want used_v6)) [
    | inl taken ↦ rw taken (inr (refl, refl, opened-UntouchedV6))
    | inr free ↦ rw free (inl (refl, lease-LeasesV6 want free))
  ]

module _ (pr : Profile) (net subnet gateway : Text) (sub : V6Subnet) (gw : ℕ)
    (parsed : parse_v6 subnet ≡ ok sub) (gateway_read : parse_ipv6 gateway ≡ some gw) where
  allocate_locked_v6_lem :
      (before : Ipam)
      → first_host_v6 sub ≤ gw
      → gw ≤ last_host_v6 sub
      → allocate_v6 pr net subnet gateway before
        ≡ grant_v6 net (used_v6 net before) (opened_v6 net before) (
            first_free
              (last_host_v6 sub + 1 - first_host_v6 sub)
              (first_host_v6 sub)
              gw
              (used_v6 net before))
  unfolding allocate_v6 check_allocate_v6 allocate_locked_v6
  allocate_locked_v6_lem before low high =
      let v = parse_v6-IsV6Subnet subnet sub parsed in
      let scanned =
        scan_v6-first_free (last_host_v6 sub + 1 - first_host_v6 sub) (first_host_v6 sub)
          (last_host_v6 sub) gw (used_v6 net before) (omega arith) in
      rw (parsed, gateway_read, (contains_v6_iff pr sub v gw).1 (low, high), allocate_v6)
        (rw (usable_range_v6_lem pr sub v, scanned) refl)

  -- With a gateway among the hosts of a subnet that `parse_v6` accepts, `allocate_v6` leases the lowest
  -- IPv6 address that is neither leased nor the gateway, or fails for want of one and changes no lease. The
  -- leases of IPv4 stay.
  pub allocate_v6_lem :
      (before : Ipam)
      → first_host_v6 sub ≤ gw
      → gw ≤ last_host_v6 sub
      → AllocatesV6 net sub gw before (allocate_v6 pr net subnet gateway before)
  allocate_v6_lem before low high = rw (allocate_locked_v6_lem before low high) (
      grant-AllocatesV6 net before sub gw _ (
        first_free-Lowest (last_host_v6 sub + 1 - first_host_v6 sub) (first_host_v6 sub) gw
          (used_v6 net before)))

  -- A host address that is not the gateway is leased by `reserve_v6`, unless it is leased already: then the
  -- call fails and changes no lease.
  pub reserve_v6_lem :
      (before : Ipam) (ip : Text) (want : ℕ)
      → parse_ipv6 ip ≡ some want
      → first_host_v6 sub ≤ want
      → want ≤ last_host_v6 sub
      → want ≢ gw
      → ReservesV6 net want before (reserve_v6 pr net subnet gateway ip before)
  unfolding reserve_v6 check_reserve_v6
  reserve_v6_lem before ip want ip_read low high ne =
      let v = parse_v6-IsV6Subnet subnet sub parsed in
      let differs : (want == gw) ≡ false = ground arith in
      rw
        (
          parsed,
          gateway_read,
          ip_read,
          (contains_v6_iff pr sub v want).1 (low, high),
          differs,
          reserve_v6,
        )
        (reserve_locked-ReservesV6 net before want)
