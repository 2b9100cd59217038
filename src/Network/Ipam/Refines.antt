-- ===== src/Network/Ipam/Refines.antt =====
-- The contract of the allocator, with no buckets and no files: a set of leases, from which a call takes
-- what it frees or to which it adds one that was not there.
use ingot_engine.Base.{
  ℕ, ◌≡◌, ◌≢◌, ◌+◌, ◌-◌, ◌∙◌, refl, Bool, false, not, ◌&&◌, ◌||◌, Option, none, some, List, [], ◌∷◌,
  ◌==◌, arith, inl, inr, ◌⊎◌, Outcome, ok, err, panic,
}
use ingot_engine.Base.Text.{Text, same}
use ingot_engine.Base.Words.{Profile}
use ingot_engine.Network.Subnet.{usable_range}
use ingot_engine.Network.Ipam.{
  Ipam, IpamError, leased, first_free, after_check, in_range, grant, check_allocate,
  allocate_locked, allocate, check_reserve, reserve_locked, reserve, reset_bucket, release,
  sweep_orphans,
}
use ingot_engine.Network.Ipam.Freed.{leased-release, leased-reset_bucket, leased-sweep_orphans}
use ingot_engine.Network.Ipam.Leased.{Lowest, first_free-Lowest}
use ingot_engine.Network.Ipam.Grant.{
  Leases, Untouched, lease-Leases, used, opened, opened-Untouched, Reserves,
  reserve_locked-Reserves,
}
use ingot_engine.Network.Ipam.History.{
  Op, allocate_op, reserve_op, release_op, reset_op, sweep_op, granted_of, step, frees, run, grants,
}

-- What is leased on which network.
abbrev pub LeaseSet : Type 0
LeaseSet = Text → ℕ → Bool

-- The abstract allocator. It may refuse whatever it is asked, by freeing nothing.
pub data Permitted (a : LeaseSet) : Op → Option (Text × ℕ) → LeaseSet → Type 0 where
  hands_out :
      (op : Op) (net : Text) (ip : ℕ) (b : LeaseSet)
      → a net ip ≡ false
      → ((n : Text) (j : ℕ) → b n j ≡ (same net n && j == ip || a n j))
      → Permitted a op (some (net, ip)) b
  gives_up :
      (op : Op) (b : LeaseSet)
      → ((n : Text) (j : ℕ) → b n j ≡ (not (frees n j op) && a n j))
      → Permitted a op none b

pub data PermittedRun : LeaseSet → List Op → List (Option (Text × ℕ)) → LeaseSet → Type 0 where
  stays : (a b : LeaseSet) → ((n : Text) (j : ℕ) → b n j ≡ a n j) → PermittedRun a [] [] b
  goes_on :
      (a b c : LeaseSet) (op : Op) (ops : List Op) (g : Option (Text × ℕ))
      (gs : List (Option (Text × ℕ)))
      → Permitted a op g b
      → PermittedRun b ops gs c
      → PermittedRun a (op ∷ ops) (g ∷ gs) c

-- Either one address was leased and returned, or nothing changed and nothing was returned.
abbrev Answers : Text → Ipam → Outcome IpamError ℕ × Ipam → Type 0
Answers net before (r, after) =
    ((ip : ℕ) × (r ≡ ok ip) × Leases net ip before after)
    ⊎ (((ip : ℕ) → r ≢ ok ip) × Untouched before after)

module _ (net : Text) (before : Ipam) where
  grant-Answers :
      (n lo gw : ℕ) (o : Option ℕ)
      → Lowest n lo gw (used net before) o
      → Answers net before (grant net (used net before) (opened net before) o)
  grant-Answers n lo gw none l = inr (λ ip e. cc, opened-Untouched net before)
  grant-Answers n lo gw (some ip) l = inl (ip, refl, lease-Leases net before ip l.3)

  in_range-Answers :
      (gw : ℕ) (r : Option (ℕ × ℕ))
      → Answers net before (in_range net gw (used net before) (opened net before) r)
  in_range-Answers gw none = inr (λ ip e. cc, opened-Untouched net before)
  in_range-Answers gw (some (lo, hi)) =
      grant-Answers (hi + 1 - lo) lo gw (first_free (hi + 1 - lo) lo gw (used net before))
        (first_free-Lowest (hi + 1 - lo) lo gw (used net before))

  unchanged : Untouched before before
  unchanged = record { leases = λ n j. refl; written = refl }

  after_check-Answers :
      {A : Type 0} (c : Outcome IpamError A) (locked : A → Outcome IpamError ℕ × Ipam)
      → ((a : A) → Answers net before (locked a))
      → Answers net before (after_check c before locked)
  after_check-Answers (ok a) locked h = h a
  after_check-Answers (err e) locked h = inr (λ ip e. cc, unchanged)
  after_check-Answers panic locked h = inr (λ ip e. cc, unchanged)

  allocate-Answers :
      (pr : Profile) (subnet gateway : Text)
      → Answers net before (allocate pr net subnet gateway before)
  unfolding allocate allocate_locked
  allocate-Answers pr subnet gateway =
      after_check-Answers (check_allocate pr subnet gateway)
        (λ (sub, gw). allocate_locked pr net sub gw before)
        (λ (sub, gw). in_range-Answers gw (usable_range pr sub))

  Reserves-Answers :
      (want : ℕ) (x : Outcome IpamError ℕ × Ipam)
      → Reserves net want before x
      → Answers net before x
  Reserves-Answers want (r, after) (inl (e, l)) = inl (want, e, l)
  Reserves-Answers want (r, after) (inr (e, t, u)) = inr (λ ip f. cc, u)

  reserve-Answers :
      (pr : Profile) (subnet gateway ip : Text)
      → Answers net before (reserve pr net subnet gateway ip before)
  unfolding reserve
  reserve-Answers pr subnet gateway ip =
      after_check-Answers (check_reserve pr subnet gateway ip)
        (λ want. reserve_locked net want before)
        (λ want. Reserves-Answers want _ (reserve_locked-Reserves net before want))

  granted_of-Permitted :
      (op : Op) (x : Outcome IpamError ℕ × Ipam)
      → ((n : Text) (j : ℕ) → frees n j op ≡ false)
      → Answers net before x
      → Permitted (leased before) op (granted_of net x).0 (leased (granted_of net x).1)
  granted_of-Permitted op (ok ip, after) keeps (inl (j, e, l)) =
      let met : j ≡ ip = cc in
      hands_out op net ip (leased after) (rw met at l.was_free) (rw met at l.leases)
  granted_of-Permitted op (err e, after) keeps (inl (j, f, l)) = cc
  granted_of-Permitted op (panic, after) keeps (inl (j, f, l)) = cc
  granted_of-Permitted op (ok ip, after) keeps (inr (never, u)) = absurd (never ip refl)
  granted_of-Permitted op (err e, after) keeps (inr (never, u)) =
      gives_up op (leased after) (λ n j. u.leases n j ∙ rw keeps refl)
  granted_of-Permitted op (panic, after) keeps (inr (never, u)) =
      gives_up op (leased after) (λ n j. u.leases n j ∙ rw keeps refl)

pub step-Permitted :
    (pr : Profile) (op : Op) (s : Ipam)
    → Permitted (leased s) op (step pr op s).0 (leased (step pr op s).1)
unfolding step
step-Permitted pr (allocate_op net subnet gateway) s =
    granted_of-Permitted net s (allocate_op net subnet gateway) (allocate pr net subnet gateway s)
      (λ n j. refl) (allocate-Answers net s pr subnet gateway)
step-Permitted pr (reserve_op net subnet gateway ip) s =
    granted_of-Permitted net s (reserve_op net subnet gateway ip)
      (reserve pr net subnet gateway ip s) (λ n j. refl)
      (reserve-Answers net s pr subnet gateway ip)
step-Permitted pr (release_op net ip) s =
    gives_up (release_op net ip) (leased (release net ip s)) (λ n j. leased-release net ip n j s)
step-Permitted pr (reset_op net) s =
    gives_up (reset_op net) (leased (reset_bucket net s)) (λ n j. leased-reset_bucket net n j s)
step-Permitted pr (sweep_op known live) s =
    gives_up (sweep_op known live) (leased (sweep_orphans known live s).1)
      (λ n j. leased-sweep_orphans known live n j s ∙ ground arith)

-- Every history of calls of the allocator, in either build, is one that the abstract allocator permits: what
-- it hands out was not leased and is leased then, and a call gives up exactly the leases it is meant to.
pub run-PermittedRun :
    (pr : Profile) (ops : List Op) (s : Ipam)
    → PermittedRun (leased s) ops (grants pr ops s) (leased (run pr ops s))
unfolding grants run
run-PermittedRun pr [] s = stays (leased s) (leased s) (λ n j. refl)
run-PermittedRun pr (op ∷ ops) s =
    let next = (step pr op s).1 in
    goes_on (leased s) (leased next) (leased (run pr ops next)) op ops (step pr op s).0
      (grants pr ops next) (step-Permitted pr op s) (run-PermittedRun pr ops next)
