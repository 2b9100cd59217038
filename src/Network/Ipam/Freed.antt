-- ===== src/Network/Ipam/Freed.antt =====
-- What the calls that free leases give up.
use ingot_engine.Base.{
  ℕ, ◌≡◌, refl, sym, ap, ◌∙◌, Bool, true, false, not, ◌&&◌, ◌||◌, Option, none, some, List, [], ◌∷◌,
  arith, if◌then◌else◌, ◌==◌, elem, keep, elem-keep, remove_all, elem-remove_all, Bool-cases,
  Option-cases, inl, inr, ltb,
}
use mathlib.Core.Path.{subst}
use ingot_engine.Base.Maps.{lookup, lookup-remove}
use ingot_engine.Base.Text.{Text, same, same_iff, same_self}
use ingot_engine.Network.Address.{parse_ipv4}
use ingot_engine.Network.Ipam.{
  Ipam, Buckets, leased, set_bucket, or_default, reset_bucket, release_from, release, known_net,
  is_live, sweep_buckets, sweep_orphans, is_some, log_write, batched,
}
use ingot_engine.Network.Ipam.Leased.{leased-set_bucket}
use ingot_engine.Network.Ipam.Grant.{used}

abbrev pub reads_as : Option ℕ → ℕ → Bool
reads_as none ip = false
reads_as (some v) ip = v == ip

if_same_state :
    (b : Bool) (net : Text) (j : ℕ) (x y : Ipam)
    → x.state ≡ y.state
    → leased (if b then x else y) net j ≡ leased y net j
if_same_state true net j x y e = rw e
if_same_state false net j x y e = refl

leased-release_from :
    (net : Text) (v : ℕ) (n : Text) (j : ℕ) (s : Ipam) (o : Option (List ℕ))
    → lookup net s.state.allocated ≡ o
    → leased (release_from net v o s) n j ≡ (not (same net n && v == j) && leased s n j)
unfolding release_from elem
leased-release_from net v n j s none e = ground (arith, same_iff net n)
leased-release_from net v n j s (some used) e =
    let removed = set_bucket net (remove_all v used) s in
    if_same_state (elem v used) n j _ removed refl
    ∙ leased-set_bucket net n j s (remove_all v used)
    ∙ ground (arith, same_iff net n, elem-remove_all v j used)

-- `release` gives up the one lease that its text names, whoever asks.
pub leased-release :
    (net text n : Text) (j : ℕ) (s : Ipam)
    → leased (release net text s) n j
      ≡ (not (same net n && reads_as (parse_ipv4 text) j) && leased s n j)
unfolding release
leased-release net text n j s = elim (Option-cases (parse_ipv4 text)) [
  | inl e ↦ rw (e, release) (ground arith)
  | inr (v, e) ↦
      rw (e, release) (leased-release_from net v n j s (lookup net s.state.allocated) refl)
]

-- `reset_bucket` gives up the leases of its network and of no other.
pub leased-reset_bucket :
    (net n : Text) (j : ℕ) (s : Ipam)
    → leased (reset_bucket net s) n j ≡ (not (same net n) && leased s n j)
unfolding reset_bucket elem
leased-reset_bucket net n j s =
    if_same_state
      (is_some (lookup net s.state.allocated) || is_some (lookup net s.state.allocated_v6)) n j _ _
      refl
    ∙ ground (arith, lookup-remove net n s.state.allocated)

abbrev pub kept_of : Bool → (ℕ → Bool) → Option (List ℕ) → Option (List ℕ)
kept_of false p o = none
kept_of true p none = none
kept_of true p (some ips) = some (keep p ips)

kept_of-none : (b : Bool) (p : ℕ → Bool) → kept_of b p none ≡ none
kept_of-none true p = refl
kept_of-none false p = refl

abbrev SweptAt : List Text → List (Text × ℕ) → Text → Buckets → Type 0
SweptAt known live n m =
    lookup n (sweep_buckets known live m).0
    ≡ kept_of (known_net known n) (is_live live n) (lookup n m)

sweep_self :
    (known : List Text) (live : List (Text × ℕ)) (n : Text) (ips : List ℕ) (m : Buckets)
    → SweptAt known live n m
    → SweptAt known live n ((n, ips) ∷ m)
unfolding sweep_buckets lookup
sweep_self known live n ips m h = elim (Bool-cases (known_net known n)) [
  | inl k ↦ rw (k, same_self n)
  | inr k ↦ rw k (h ∙ rw k)
]

sweep_other :
    (known : List Text) (live : List (Text × ℕ)) (n net : Text) (ips : List ℕ) (m : Buckets)
    → same net n ≡ false
    → SweptAt known live n m
    → SweptAt known live n ((net, ips) ∷ m)
unfolding sweep_buckets lookup
sweep_other known live n net ips m d h = elim (Bool-cases (known_net known net)) [
  | inl k ↦ rw (k, d) h
  | inr k ↦ rw (k, d) h
]

pub lookup-sweep_buckets :
    (known : List Text) (live : List (Text × ℕ)) (n : Text) (m : Buckets)
    → lookup n (sweep_buckets known live m).0
      ≡ kept_of (known_net known n) (is_live live n) (lookup n m)
unfolding sweep_buckets lookup
lookup-sweep_buckets known live n [] = sym (kept_of-none (known_net known n) (is_live live n))
lookup-sweep_buckets known live n ((net, ips) ∷ m) =
    let ih = lookup-sweep_buckets known live n m in
    elim (Bool-cases (same net n)) [
      | inl e ↦
          subst (λ k. SweptAt known live n ((k, ips) ∷ m)) (sym ((same_iff net n).0 e))
            (sweep_self known live n ips m ih)
      | inr d ↦ sweep_other known live n net ips m d ih
    ]

pub elem-kept_of :
    (b : Bool) (p : ℕ → Bool) (j : ℕ) (o : Option (List ℕ))
    → elem j (or_default (kept_of b p o)) ≡ (b && p j && elem j (or_default o))
unfolding elem
elem-kept_of false p j o = refl
elem-kept_of true p j none = ground arith
elem-kept_of true p j (some ips) = elem-keep p j ips ∙ ground arith

-- `sweep_orphans` keeps exactly the leases of known networks that a live record references.
pub leased-sweep_orphans :
    (known : List Text) (live : List (Text × ℕ)) (n : Text) (j : ℕ) (s : Ipam)
    → leased (sweep_orphans known live s).1 n j
      ≡ (known_net known n && is_live live n j && leased s n j)
unfolding sweep_orphans elem
leased-sweep_orphans known live n j s =
    let swept = sweep_buckets known live s.state.allocated in
    let after = record s { state = record s.state { allocated = swept.0 } } in
    if_same_state (ltb 0 swept.1 || ltb 0 swept.2) n j (log_write batched after) after refl
    ∙ ap (λ o. elem j (or_default o)) (lookup-sweep_buckets known live n s.state.allocated)
    ∙ elem-kept_of (known_net known n) (is_live live n) j (lookup n s.state.allocated)
