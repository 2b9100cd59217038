-- ===== src/Network/Ipam.antt =====
-- crates/network/src/ipam.rs: the lease allocator `Ipam` and its operations for IPv4. A method takes the state behind the
-- lock and returns its result and the new state. Writes of the lease file are a log: the code ignores
-- their failures.
pub mod Leased
pub mod Grant
pub mod Freed
pub mod History
pub mod Sweep
pub mod Live
pub mod Refines
pub mod V6
use ingot_engine.Base.{
  ℕ, zero, suc, ◌+◌, ◌-◌, Bool, true, false, not, ◌&&◌, ◌||◌, Option, none, some, List, [], ◌∷◌,
  ◌++◌, ltb, ◌==◌, if◌then◌else◌, length, keep, any, elem, remove_all, Outcome, ok, err, panic,
  ok_or, checked, bail_if, ◌>>=◌, ◌>>◌,
}
use ingot_engine.Base.Maps.{lookup, insert, remove}
use ingot_engine.Base.Text.{Text, same}
use ingot_engine.Base.Words.{Profile}
use ingot_engine.Network.Address.{parse_ipv4}
use ingot_engine.Network.Subnet
use ingot_engine.Network.Subnet.{Subnet, SubnetError, usable_range, contains}

abbrev pub Buckets : Type 0
Buckets = List (Text × List ℕ)

pub record IpamLeases : Type 0 where
  pub allocated : Buckets
  pub allocated_v6 : Buckets

-- `write_json_atomic` and `write_json_batched`, with what they are given.
pub data Write : Type 0 where
  atomic batched : IpamLeases → Write

pub record Ipam : Type 0 where
  pub state : IpamLeases
  pub writes : List Write

pub data IpamError : Type 0 where
  bad_subnet : SubnetError → IpamError
  bad_gateway gateway_outside bad_ip ip_outside ip_is_gateway ip_taken exhausted : IpamError

abbrev pub in_subnet : {A : Type 0} → Outcome SubnetError A → Outcome IpamError A
in_subnet (ok a) = ok a
in_subnet (err e) = err (bad_subnet e)
in_subnet panic = panic

abbrev pub or_default : Option (List ℕ) → List ℕ
or_default none = []
or_default (some used) = used

-- The leases of one network.
abbrev pub bucket : Buckets → Text → List ℕ
bucket m net = or_default (lookup net m)

-- Is the address leased on the network?
abbrev pub leased : Ipam → Text → ℕ → Bool
leased ipam net ip = elem ip (bucket ipam.state.allocated net)

abbrev pub set_bucket : Text → List ℕ → Ipam → Ipam
set_bucket net used ipam = record ipam {
  state = record ipam.state { allocated = insert net used ipam.state.allocated };
}

abbrev pub log_write : (IpamLeases → Write) → Ipam → Ipam
log_write w ipam = record ipam { writes = ipam.writes ++ w ipam.state ∷ [] }

-- `used.insert(c)`, for a `c` that is not there, and the write behind it.
abbrev pub lease : Text → ℕ → List ℕ → Ipam → Ipam
lease net c used ipam = log_write atomic (set_bucket net (c ∷ used) ipam)

-- `for c in lo..=hi`, with the number of addresses that are left.
pub first_free : ℕ → ℕ → ℕ → List ℕ → Option ℕ
first_free zero c gw used = none
first_free (suc n) c gw used = elim (not (c == gw) && not (elem c used)) [
  | true ↦ some c
  | false ↦ first_free n (c + 1) gw used
]

-- A check that fails returns before the lock is taken.
abbrev pub after_check :
    {A : Type 0}
    → Outcome IpamError A
    → Ipam
    → (A → Outcome IpamError ℕ × Ipam)
    → Outcome IpamError ℕ × Ipam
after_check (ok a) ipam locked = locked a
after_check (err e) ipam locked = (err e, ipam)
after_check panic ipam locked = (panic, ipam)

-- The steps of `allocate` before the lock: the subnet and the gateway.
unfoldable pub check_allocate : Profile → Text → Text → Outcome IpamError (Subnet × ℕ)
check_allocate pr subnet gateway = do
  sub ← in_subnet (Subnet.parse subnet)
  gw ← ok_or (parse_ipv4 gateway) bad_gateway
  inside ← checked (contains pr sub gw)
  bail_if (not inside) gateway_outside
  ok (sub, gw)

abbrev pub grant : Text → List ℕ → Ipam → Option ℕ → Outcome IpamError ℕ × Ipam
grant net used opened none = (err exhausted, opened)
grant net used opened (some c) = (ok c, lease net c used opened)

abbrev pub in_range : Text → ℕ → List ℕ → Ipam → Option (ℕ × ℕ) → Outcome IpamError ℕ × Ipam
in_range net gw used opened none = (panic, opened)
in_range net gw used opened (some (lo, hi)) =
    grant net used opened (first_free (hi + 1 - lo) lo gw used)

unfoldable pub allocate_locked : Profile → Text → Subnet → ℕ → Ipam → Outcome IpamError ℕ × Ipam
unfolding first_free
allocate_locked pr net sub gw ipam =
    let used = bucket ipam.state.allocated net in
    let opened = set_bucket net used ipam in in_range net gw used opened (usable_range pr sub)

unfoldable pub allocate : Profile → Text → Text → Text → Ipam → Outcome IpamError ℕ × Ipam
allocate pr net subnet gateway ipam =
    after_check (check_allocate pr subnet gateway) ipam
      λ (sub, gw). allocate_locked pr net sub gw ipam

-- The steps of `reserve` before the lock.
unfoldable pub check_reserve : Profile → Text → Text → Text → Outcome IpamError ℕ
check_reserve pr subnet gateway ip = do
  sub ← in_subnet (Subnet.parse subnet)
  gw ← ok_or (parse_ipv4 gateway) bad_gateway
  want ← ok_or (parse_ipv4 ip) bad_ip
  inside ← checked (contains pr sub want)
  bail_if (not inside) ip_outside
  bail_if (want == gw) ip_is_gateway
  ok want

unfoldable pub reserve_locked : Text → ℕ → Ipam → Outcome IpamError ℕ × Ipam
reserve_locked net want ipam =
    let used = bucket ipam.state.allocated net in
    let opened = set_bucket net used ipam in
    if elem want used then (err ip_taken, opened) else (ok want, lease net want used opened)

unfoldable pub reserve : Profile → Text → Text → Text → Text → Ipam → Outcome IpamError ℕ × Ipam
reserve pr net subnet gateway ip ipam =
    after_check (check_reserve pr subnet gateway ip) ipam λ want. reserve_locked net want ipam

abbrev pub is_some {ℓ} : {A : Type ℓ} → Option A → Bool
is_some none = false
is_some (some a) = true

unfoldable pub reset_bucket : Text → Ipam → Ipam
reset_bucket net ipam =
    let drop4 = is_some (lookup net ipam.state.allocated) in
    let drop6 = is_some (lookup net ipam.state.allocated_v6) in
    let dropped = record ipam {
      state = record {
        allocated = remove net ipam.state.allocated;
        allocated_v6 = remove net ipam.state.allocated_v6;
      };
    } in
    if drop4 || drop6 then log_write batched dropped else dropped

-- `release` once the address is parsed, on the network's bucket if it has one.
unfoldable pub release_from : Text → ℕ → Option (List ℕ) → Ipam → Ipam
release_from net ip none ipam = ipam
release_from net ip (some used) ipam =
    let removed = set_bucket net (remove_all ip used) ipam in
    if elem ip used then log_write batched removed else removed

unfoldable pub release : Text → Text → Ipam → Ipam
release net ip ipam = elim (parse_ipv4 ip) [
  | none ↦ ipam
  | some v ↦ release_from net v (lookup net ipam.state.allocated) ipam
]

-- The sets that `sweep_orphans` is given.
abbrev pub known_net : List Text → Text → Bool
known_net known net = any (same net) known

abbrev pub is_live : List (Text × ℕ) → Text → ℕ → Bool
is_live live net ip = any (λ x. same net x.0 && x.1 == ip) live

-- `retain` over the buckets: what is kept, the buckets dropped and the leases released.
unfoldable pub sweep_buckets : List Text → List (Text × ℕ) → Buckets → Buckets × ℕ × ℕ
sweep_buckets known live [] = ([], 0, 0)
sweep_buckets known live ((net, ips) ∷ m) =
    let (kept, dropped, released) = sweep_buckets known live m in
    let live_ips = keep (is_live live net) ips in
    if not (known_net known net)
    then (kept, dropped + 1, released + length ips)
    else ((net, live_ips) ∷ kept, dropped, released + (length ips - length live_ips))

unfoldable pub sweep_orphans : List Text → List (Text × ℕ) → Ipam → (ℕ × ℕ) × Ipam
sweep_orphans known live ipam =
    let (kept, dropped, released) = sweep_buckets known live ipam.state.allocated in
    let swept = record ipam { state = record ipam.state { allocated = kept } } in
    (
      (dropped, released),
      if ltb 0 dropped || ltb 0 released then log_write batched swept else swept,
    )
