-- ===== src/Network/Ipam/V6/Freed.antt =====
-- What the calls that free leases of IPv6 give up.
use ingot_engine.Base.{
  ℕ, ◌≡◌, refl, ap, ◌∙◌, Bool, true, false, not, ◌&&◌, ◌||◌, Option, none, some, List, arith,
  if◌then◌else◌, ◌==◌, elem, remove_all, elem-remove_all, Option-cases, inl, inr, ltb,
}
use ingot_engine.Base.Maps.{lookup, lookup-remove}
use ingot_engine.Base.Text.{Text, same, same_iff}
use ingot_engine.Network.Address.V6.{parse_ipv6}
use ingot_engine.Network.Ipam.{
  Ipam, or_default, reset_bucket, known_net, is_live, sweep_buckets, is_some, log_write, batched,
}
use ingot_engine.Network.Ipam.Freed.{reads_as, lookup-sweep_buckets, elem-kept_of}
use ingot_engine.Network.Ipam.V6.{
  leased_v6, set_bucket_v6, release_from_v6, release_v6, sweep_orphans_v6,
}
use ingot_engine.Network.Ipam.V6.Grant.{leased_v6-set_bucket_v6}

if_same_state :
    (b : Bool) (net : Text) (j : ℕ) (x y : Ipam)
    → x.state ≡ y.state
    → leased_v6 (if b then x else y) net j ≡ leased_v6 y net j
if_same_state true net j x y e = rw e
if_same_state false net j x y e = refl

leased_v6-release_from_v6 :
    (net : Text) (v : ℕ) (n : Text) (j : ℕ) (s : Ipam) (o : Option (List ℕ))
    → lookup net s.state.allocated_v6 ≡ o
    → leased_v6 (release_from_v6 net v o s) n j ≡ (not (same net n && v == j) && leased_v6 s n j)
unfolding release_from_v6 elem
leased_v6-release_from_v6 net v n j s none e = ground (arith, same_iff net n)
leased_v6-release_from_v6 net v n j s (some used) e =
    let removed = set_bucket_v6 net (remove_all v used) s in
    if_same_state (elem v used) n j _ removed refl
    ∙ leased_v6-set_bucket_v6 net s s (remove_all v used) n j
    ∙ ground (arith, same_iff net n, elem-remove_all v j used)

-- `release_v6` gives up the one lease that its text names.
pub leased_v6-release_v6 :
    (net text n : Text) (j : ℕ) (s : Ipam)
    → leased_v6 (release_v6 net text s) n j
      ≡ (not (same net n && reads_as (parse_ipv6 text) j) && leased_v6 s n j)
unfolding release_v6
leased_v6-release_v6 net text n j s = elim (Option-cases (parse_ipv6 text)) [
  | inl e ↦ rw (e, release_v6) (ground arith)
  | inr (v, e) ↦
      rw (e, release_v6)
        (leased_v6-release_from_v6 net v n j s (lookup net s.state.allocated_v6) refl)
]

-- `reset_bucket` gives up the IPv6 leases of its network and of no other.
pub leased_v6-reset_bucket :
    (net n : Text) (j : ℕ) (s : Ipam)
    → leased_v6 (reset_bucket net s) n j ≡ (not (same net n) && leased_v6 s n j)
unfolding reset_bucket elem
leased_v6-reset_bucket net n j s =
    if_same_state
      (is_some (lookup net s.state.allocated) || is_some (lookup net s.state.allocated_v6)) n j _ _
      refl
    ∙ ground (arith, lookup-remove net n s.state.allocated_v6)

-- `sweep_orphans_v6` keeps exactly the leases of known networks that a live record references.
pub leased_v6-sweep_orphans_v6 :
    (known : List Text) (live : List (Text × ℕ)) (n : Text) (j : ℕ) (s : Ipam)
    → leased_v6 (sweep_orphans_v6 known live s).1 n j
      ≡ (known_net known n && is_live live n j && leased_v6 s n j)
unfolding sweep_orphans_v6 elem
leased_v6-sweep_orphans_v6 known live n j s =
    let swept = sweep_buckets known live s.state.allocated_v6 in
    let after = record s { state = record s.state { allocated_v6 = swept.0 } } in
    if_same_state (ltb 0 swept.1 || ltb 0 swept.2) n j (log_write batched after) after refl
    ∙ ap (λ o. elem j (or_default o)) (lookup-sweep_buckets known live n s.state.allocated_v6)
    ∙ elem-kept_of (known_net known n) (is_live live n) j (lookup n s.state.allocated_v6)
