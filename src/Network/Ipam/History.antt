-- ===== src/Network/Ipam/History.antt =====
-- Histories of calls: an address that is leased stays leased, and is not handed out again, until a
-- call frees it.
use ingot_engine.Base.{
  ℕ, ◌≡◌, ◌≢◌, ◌+◌, ◌-◌, refl, ◌∙◌, Bool, true, false, not, ◌&&◌, Option, none, some, List, [], ◌∷◌,
  arith, inl, inr, Outcome, ok, err, panic, All,
}
use mathlib.Core.Path.{subst}
use mathlib.Core.Option.{some-injective}
use ingot_engine.Base.Text.{Text, same, same_self}
use ingot_engine.Base.Words.{Profile}
use ingot_engine.Network.Address.{parse_ipv4}
use ingot_engine.Network.Subnet.{usable_range}
use ingot_engine.Network.Ipam.{
  Ipam, IpamError, leased, lease, first_free, after_check, in_range, grant, check_allocate,
  allocate_locked, allocate, check_reserve, reserve_locked, reserve, reset_bucket, release,
  known_net, is_live, sweep_orphans,
}
use ingot_engine.Network.Ipam.Freed.{
  reads_as, leased-release, leased-reset_bucket, leased-sweep_orphans,
}
use ingot_engine.Network.Ipam.Leased.{Lowest, first_free-Lowest}
use ingot_engine.Network.Ipam.Grant.{
  Leases, Untouched, lease-Leases, used, opened, opened-Untouched, Reserves,
  reserve_locked-Reserves,
}

pub data Op : Type 0 where
  allocate_op : Text → Text → Text → Op
  reserve_op : Text → Text → Text → Text → Op
  release_op : Text → Text → Op
  reset_op : Text → Op
  sweep_op : List Text → List (Text × ℕ) → Op

-- The network on which a call handed out an address, and the address.
abbrev pub granted_of : Text → Outcome IpamError ℕ × Ipam → Option (Text × ℕ) × Ipam
granted_of net (ok ip, ipam) = (some (net, ip), ipam)
granted_of net (err e, ipam) = (none, ipam)
granted_of net (panic, ipam) = (none, ipam)

unfoldable pub step : Profile → Op → Ipam → Option (Text × ℕ) × Ipam
step pr (allocate_op net subnet gateway) s = granted_of net (allocate pr net subnet gateway s)
step pr (reserve_op net subnet gateway ip) s = granted_of net (reserve pr net subnet gateway ip s)
step pr (release_op net ip) s = (none, release net ip s)
step pr (reset_op net) s = (none, reset_bucket net s)
step pr (sweep_op known live) s = (none, (sweep_orphans known live s).1)

-- Does the call give the lease of `ip` on `net` up?
abbrev pub frees : Text → ℕ → Op → Bool
frees net ip (allocate_op n subnet gateway) = false
frees net ip (reserve_op n subnet gateway text) = false
frees net ip (release_op n text) = same n net && reads_as (parse_ipv4 text) ip
frees net ip (reset_op n) = same n net
frees net ip (sweep_op known live) = not (known_net known net && is_live live net ip)

-- What a call hands out was free and is leased now, and whatever was leased stays leased.
abbrev Fresh : Text → Ipam → Outcome IpamError ℕ × Ipam → Type 0
Fresh net before (r, after) =
    ((ip : ℕ) → r ≡ ok ip → (leased before net ip ≡ false) × (leased after net ip ≡ true))
    × ((n : Text) (j : ℕ) → leased before n j ≡ true → leased after n j ≡ true)

module _ (net : Text) (before : Ipam) where
  Leases-Fresh :
      (ip : ℕ) (after : Ipam) → Leases net ip before after → Fresh net before (ok ip, after)
  Leases-Fresh ip after l = (
    λ j e. (ground (arith, l.was_free), ground (arith, l.leases net j, same_self net)),
    λ n j h. ground (arith, l.leases n j),
  )

  Untouched-Fresh :
      (r : Outcome IpamError ℕ) (after : Ipam)
      → ((ip : ℕ) → r ≢ ok ip)
      → Untouched before after
      → Fresh net before (r, after)
  Untouched-Fresh r after ne u = (λ ip e. absurd (ne ip e), λ n j h. u.leases n j ∙ h)

  Reserves-Fresh :
      (want : ℕ) (x : Outcome IpamError ℕ × Ipam) → Reserves net want before x → Fresh net before x
  Reserves-Fresh want (r, after) (inl (e, l)) = rw e (Leases-Fresh want after l)
  Reserves-Fresh want (r, after) (inr (e, t, u)) =
      rw e (Untouched-Fresh (err IpamError.ip_taken) after (λ ip e. cc) u)

  grant-Fresh :
      (n lo gw : ℕ) (o : Option ℕ)
      → Lowest n lo gw (used net before) o
      → Fresh net before (grant net (used net before) (opened net before) o)
  grant-Fresh n lo gw none l =
      Untouched-Fresh (err IpamError.exhausted) (opened net before) (λ ip e. cc)
        (opened-Untouched net before)
  grant-Fresh n lo gw (some ip) l =
      Leases-Fresh ip (lease net ip (used net before) (opened net before))
        (lease-Leases net before ip l.3)

  in_range-Fresh :
      (gw : ℕ) (r : Option (ℕ × ℕ))
      → Fresh net before (in_range net gw (used net before) (opened net before) r)
  in_range-Fresh gw none =
      Untouched-Fresh panic (opened net before) (λ ip e. cc) (opened-Untouched net before)
  in_range-Fresh gw (some (lo, hi)) =
      grant-Fresh (hi + 1 - lo) lo gw (first_free (hi + 1 - lo) lo gw (used net before))
        (first_free-Lowest (hi + 1 - lo) lo gw (used net before))

  after_check-Fresh :
      {A : Type 0} (c : Outcome IpamError A) (locked : A → Outcome IpamError ℕ × Ipam)
      → ((a : A) → Fresh net before (locked a))
      → Fresh net before (after_check c before locked)
  after_check-Fresh (ok a) locked h = h a
  after_check-Fresh (err e) locked h = (λ ip e. cc, λ n j l. l)
  after_check-Fresh panic locked h = (λ ip e. cc, λ n j l. l)

  allocate-Fresh :
      (pr : Profile) (subnet gateway : Text)
      → Fresh net before (allocate pr net subnet gateway before)
  unfolding allocate allocate_locked
  allocate-Fresh pr subnet gateway =
      after_check-Fresh (check_allocate pr subnet gateway)
        (λ (sub, gw). allocate_locked pr net sub gw before)
        (λ (sub, gw). in_range-Fresh gw (usable_range pr sub))

  reserve_locked-Fresh : (want : ℕ) → Fresh net before (reserve_locked net want before)
  reserve_locked-Fresh want = Reserves-Fresh want _ (reserve_locked-Reserves net before want)

  reserve-Fresh :
      (pr : Profile) (subnet gateway ip : Text)
      → Fresh net before (reserve pr net subnet gateway ip before)
  unfolding reserve
  reserve-Fresh pr subnet gateway ip =
      after_check-Fresh (check_reserve pr subnet gateway ip)
        (λ want. reserve_locked net want before) reserve_locked-Fresh

granted_of-keeps :
    (n : Text) (x : Outcome IpamError ℕ × Ipam) (net : Text) (ip : ℕ)
    → leased x.1 net ip ≡ true
    → leased (granted_of n x).1 net ip ≡ true
granted_of-keeps n (ok a, s) net ip h = h
granted_of-keeps n (err e, s) net ip h = h
granted_of-keeps n (panic, s) net ip h = h

granted_of-Fresh :
    (n : Text) (before : Ipam) (x : Outcome IpamError ℕ × Ipam) (net : Text) (ip : ℕ)
    → Fresh n before x
    → (granted_of n x).0 ≡ some (net, ip)
    → (leased before net ip ≡ false) × (leased (granted_of n x).1 net ip ≡ true)
granted_of-Fresh n before (ok a, s) net ip f e =
    let q : ◌≡◌ {A = Text × ℕ} (n, a) (net, ip) = some-injective (n, a) (net, ip) e in
    subst (λ (x : Text × ℕ). (leased before x.0 x.1 ≡ false) × (leased s x.0 x.1 ≡ true)) q
      (f.0 a refl)
granted_of-Fresh n before (err _, s) net ip f e = cc
granted_of-Fresh n before (panic, s) net ip f e = cc

step-keeps :
    (pr : Profile) (op : Op) (s : Ipam) (net : Text) (ip : ℕ)
    → frees net ip op ≡ false
    → leased s net ip ≡ true
    → leased (step pr op s).1 net ip ≡ true
unfolding step
step-keeps pr (allocate_op n subnet gateway) s net ip f h =
    granted_of-keeps n (allocate pr n subnet gateway s) net ip
      ((allocate-Fresh n s pr subnet gateway).1 net ip h)
step-keeps pr (reserve_op n subnet gateway text) s net ip f h =
    granted_of-keeps n (reserve pr n subnet gateway text s) net ip
      ((reserve-Fresh n s pr subnet gateway text).1 net ip h)
step-keeps pr (release_op n text) s net ip f h = leased-release n text net ip s ∙ rw (f, h)
step-keeps pr (reset_op n) s net ip f h = leased-reset_bucket n net ip s ∙ rw (f, h)
step-keeps pr (sweep_op known live) s net ip f h =
    leased-sweep_orphans known live net ip s ∙ ground arith

step-Fresh :
    (pr : Profile) (op : Op) (s : Ipam) (net : Text) (ip : ℕ)
    → (step pr op s).0 ≡ some (net, ip)
    → (leased s net ip ≡ false) × (leased (step pr op s).1 net ip ≡ true)
unfolding step
step-Fresh pr (allocate_op n subnet gateway) s net ip e =
    granted_of-Fresh n s (allocate pr n subnet gateway s) net ip
      (allocate-Fresh n s pr subnet gateway) e
step-Fresh pr (reserve_op n subnet gateway text) s net ip e =
    granted_of-Fresh n s (reserve pr n subnet gateway text s) net ip
      (reserve-Fresh n s pr subnet gateway text) e
step-Fresh pr (release_op n text) s net ip e = cc
step-Fresh pr (reset_op n) s net ip e = cc
step-Fresh pr (sweep_op known live) s net ip e = cc

unfoldable pub run : Profile → List Op → Ipam → Ipam
run pr [] s = s
run pr (op ∷ ops) s = run pr ops (step pr op s).1

-- The addresses handed out along the way, in order.
unfoldable pub grants : Profile → List Op → Ipam → List (Option (Text × ℕ))
unfolding step
grants pr [] s = []
grants pr (op ∷ ops) s = (step pr op s).0 ∷ grants pr ops (step pr op s).1

run_exclusive :
    (pr : Profile) (net : Text) (ip : ℕ) (ops : List Op) (s : Ipam)
    → leased s net ip ≡ true
    → All (λ op. frees net ip op ≡ false) ops
    → (leased (run pr ops s) net ip ≡ true) × All (λ g. g ≢ some (net, ip)) (grants pr ops s)
unfolding run grants
run_exclusive pr net ip [] s h f = (h, tt)
run_exclusive pr net ip (op ∷ ops) s h (f, fs) =
    let rest = run_exclusive pr net ip ops (step pr op s).1 (step-keeps pr op s net ip f h) fs in
    (rest.0, (λ g. cc ((step-Fresh pr op s net ip g).0), rest.1))

-- Once a call has handed an address out, no later call of the history hands it out again on that network,
-- and the address stays leased, as long as no call in between frees it.
pub grant_exclusive :
    (pr : Profile) (net : Text) (ip : ℕ) (op : Op) (ops : List Op) (s : Ipam)
    → (step pr op s).0 ≡ some (net, ip)
    → All (λ o. frees net ip o ≡ false) ops
    → (leased (run pr (op ∷ ops) s) net ip ≡ true)
      × All (λ g. g ≢ some (net, ip)) (grants pr ops (step pr op s).1)
unfolding run
grant_exclusive pr net ip op ops s g f =
    run_exclusive pr net ip ops (step pr op s).1 (step-Fresh pr op s net ip g).1 f
