-- ===== src/Network/Ipam/Grant.antt =====
-- `allocate` and `reserve` on a subnet with a prefix of at least 1. On the one without a prefix a debug build
-- panics.
use ingot_engine.Base.{
  ℕ, ◌≡◌, ◌≢◌, ◌∙◌, ◌+◌, ◌-◌, ◌≤◌, ◌<◌, refl, true, false, ◌&&◌, ◌||◌, Option, none, some, List, [],
  ◌∷◌, ◌++◌, arith, ◌==◌, if◌then◌else◌, elem, Bool-cases, inl, inr, ◌⊎◌, Outcome, ok, err,
}
use ingot_engine.Base.Text.{Text, same}
use ingot_engine.Base.Words.{Profile}
use ingot_engine.Network.Address.{parse_ipv4}
use ingot_engine.Network.Subnet
use ingot_engine.Network.Subnet.{Subnet, IsSubnet, usable_range, contains, in_range}
use ingot_engine.Network.Subnet.Parsed.{parse-IsSubnet}
use ingot_engine.Network.Subnet.Range.{
  first_host, last_host, usable_range_lem, contains_iff, contains_lem,
}
use ingot_engine.Network.Ipam.{
  Ipam, IpamError, atomic, bucket, leased, set_bucket, lease, first_free, grant, check_allocate,
  allocate_locked, allocate, check_reserve, reserve_locked, reserve,
}
use ingot_engine.Network.Ipam.Leased.{leased-open, leased-lease, Taken, Lowest, first_free-Lowest}

-- The address `ip` was handed out on `net`, and nothing else changed.
pub record Leases (net : Text) (ip : ℕ) (before after : Ipam) : Type 0 where
  pub was_free : leased before net ip ≡ false
  pub leases : (n : Text) (j : ℕ) → leased after n j ≡ (same net n && j == ip || leased before n j)
  pub written : after.writes ≡ before.writes ++ atomic after.state ∷ []

-- No lease and no file changed.
pub record Untouched (before after : Ipam) : Type 0 where
  pub leases : (n : Text) (j : ℕ) → leased after n j ≡ leased before n j
  pub written : after.writes ≡ before.writes

-- What `allocate` owes its caller.
abbrev pub Allocates : Text → Subnet → ℕ → Ipam → Outcome IpamError ℕ × Ipam → Type 0
Allocates net sub gw before (r, after) =
    ((ip : ℕ) × (r ≡ ok ip)
      × (first_host sub ≤ ip)
      × (ip ≤ last_host sub)
      × (ip ≢ gw)
      × ((y : ℕ) → first_host sub ≤ y → y < ip → Taken gw (bucket before.state.allocated net) y)
      × Leases net ip before after)
    ⊎ ((r ≡ err IpamError.exhausted)
        × ((y : ℕ)
            → first_host sub ≤ y
            → y ≤ last_host sub
            → Taken gw (bucket before.state.allocated net) y)
        × Untouched before after)

-- What `reserve` owes its caller for a host that is not the gateway.
abbrev pub Reserves : Text → ℕ → Ipam → Outcome IpamError ℕ × Ipam → Type 0
Reserves net want before (r, after) =
    ((r ≡ ok want) × Leases net want before after)
    ⊎ ((r ≡ err IpamError.ip_taken) × (leased before net want ≡ true) × Untouched before after)

-- What `reserve` owes its caller for any address that reads.
abbrev pub ReservesRead : Text → Subnet → ℕ → ℕ → Ipam → Outcome IpamError ℕ × Ipam → Type 0
ReservesRead net sub gw want before x =
    (((want < first_host sub) ⊎ (last_host sub < want)) × (x ≡ (err IpamError.ip_outside, before)))
    ⊎ (((first_host sub ≤ want)
          × (want ≤ last_host sub)
          × (want ≡ gw)
          × (x ≡ (err IpamError.ip_is_gateway, before)))
        ⊎ ((first_host sub ≤ want)
            × (want ≤ last_host sub)
            × (want ≢ gw)
            × Reserves net want before x))

module _ (net : Text) (before : Ipam) where
  abbrev pub used : List ℕ
  used = bucket before.state.allocated net

  abbrev pub opened : Ipam
  opened = set_bucket net used before

  pub opened-Untouched : Untouched before opened
  opened-Untouched = record { leases = λ n j. leased-open net n j before; written = refl }

  pub lease-Leases :
      (ip : ℕ) → elem ip used ≡ false → Leases net ip before (lease net ip used opened)
  lease-Leases ip free = record {
    was_free = free;
    leases = λ n j. leased-lease net n ip j before;
    written = refl;
  }

  grant-Allocates :
      (sub : Subnet) (gw : ℕ) (o : Option ℕ)
      → Lowest (last_host sub + 1 - first_host sub) (first_host sub) gw used o
      → Allocates net sub gw before (grant net used opened o)
  grant-Allocates sub gw none h = inr (refl, λ y p q. h y p (omega arith), opened-Untouched)
  grant-Allocates sub gw (some ip) (low, high, ne, free, below) =
      inl (ip, refl, low, omega arith, ne, below, lease-Leases ip free)

  pub reserve_locked-Reserves :
      (want : ℕ) → Reserves net want before (reserve_locked net want before)
  unfolding reserve_locked
  reserve_locked-Reserves want = elim (Bool-cases (elem want used)) [
    | inl taken ↦ rw taken (inr (refl, refl, opened-Untouched))
    | inr free ↦ rw free (inl (refl, lease-Leases want free))
  ]

module _ (pr : Profile) (net subnet gateway : Text) (sub : Subnet) (gw : ℕ)
    (parsed : Subnet.parse subnet ≡ ok sub) (masked : 1 ≤ sub.prefix)
    (gateway_read : parse_ipv4 gateway ≡ some gw) where
  check_allocate_passes :
      first_host sub ≤ gw → gw ≤ last_host sub → check_allocate pr subnet gateway ≡ ok (sub, gw)
  unfolding check_allocate
  check_allocate_passes low high =
      let v = parse-IsSubnet subnet sub parsed in
      rw (parsed, gateway_read, (contains_iff pr sub v masked gw).1 (low, high))

  allocate_locked_lem :
      (before : Ipam)
      → first_host sub ≤ gw
      → gw ≤ last_host sub
      → allocate pr net subnet gateway before
        ≡ grant net
            (used net before)
            (opened net before)
            (first_free (last_host sub + 1 - first_host sub) (first_host sub) gw (used net before))
  unfolding allocate allocate_locked
  allocate_locked_lem before low high =
      rw (check_allocate_passes low high, allocate)
        (rw (usable_range_lem pr sub (parse-IsSubnet subnet sub parsed) masked, allocate_locked)
          refl)

  -- On a subnet text that `Subnet::parse` accepts with a prefix of at least 1, and with a gateway that reads
  -- as one of the hosts, `allocate` leases the lowest address that is neither leased nor the gateway, or
  -- fails for want of one and changes no lease.
  pub allocate_lem :
      (before : Ipam)
      → first_host sub ≤ gw
      → gw ≤ last_host sub
      → Allocates net sub gw before (allocate pr net subnet gateway before)
  allocate_lem before low high = rw (allocate_locked_lem before low high) (
      grant-Allocates net before sub gw _ (
        first_free-Lowest (last_host sub + 1 - first_host sub) (first_host sub) gw
          (used net before)))

  module _ (ip : Text) (want : ℕ) (ip_read : parse_ipv4 ip ≡ some want) where
    -- The checks before the lock, by what `contains` answers.
    check_reserve_lem : check_reserve pr subnet gateway ip ≡ (
        if in_range (first_host sub, last_host sub) want
        then if want == gw then err IpamError.ip_is_gateway else ok want
        else err IpamError.ip_outside)
    unfolding check_reserve
    check_reserve_lem =
        let v = parse-IsSubnet subnet sub parsed in
        rw (parsed, gateway_read, ip_read, contains_lem pr sub v masked want)
          (elim (Bool-cases (in_range (first_host sub, last_host sub) want)) [
            | inl i ↦ elim (Bool-cases (want == gw)) [
              | inl g ↦ rw (i, g) refl
              | inr g ↦ rw (i, g) refl
            ]
            | inr o ↦ rw o refl
          ])

    -- On a subnet text that `Subnet::parse` accepts with a prefix of at least 1, and with a gateway and an
    -- address that read: `reserve` refuses an address that is no host, and the gateway, and changes nothing
    -- then. Any other address is leased, unless it is leased already: then the call fails and changes no
    -- lease.
    pub reserve_lem :
        (before : Ipam)
        → ReservesRead net sub gw want before (reserve pr net subnet gateway ip before)
    unfolding reserve
    reserve_lem before = elim (Bool-cases (in_range (first_host sub, last_host sub) want)) [
      | inl i ↦ elim (Bool-cases (want == gw)) [
        | inl g ↦
            let refused : check_reserve pr subnet gateway ip ≡ err IpamError.ip_is_gateway =
              check_reserve_lem ∙ rw (i, g) refl in
            rw (refused, reserve) (inr (inl (ground arith, ground arith, ground arith, refl)))
        | inr g ↦
            let passed : check_reserve pr subnet gateway ip ≡ ok want =
              check_reserve_lem ∙ rw (i, g) refl in
            rw (passed, reserve)
              (inr (
                inr (
                  ground arith,
                  ground arith,
                  ground arith,
                  reserve_locked-Reserves net before want,
                )))
      ]
      | inr o ↦
          let refused : check_reserve pr subnet gateway ip ≡ err IpamError.ip_outside =
            check_reserve_lem ∙ rw o refl in
          rw (refused, reserve) (inl (ground arith, refl))
    ]
