-- ===== src/Network/Ipam/Sweep.antt =====
-- The counts that `sweep_orphans` returns.
use ingot_engine.Base.{ℕ, ◌≡◌, ◌+◌, List, [], ◌∷◌, arith, length, length-keep, Bool-cases, inl, inr}
use ingot_engine.Base.Text.{Text}
use ingot_engine.Network.Ipam.{Ipam, Buckets, sweep_buckets, sweep_orphans, known_net, is_live}

-- The number of leases, over all networks.
abbrev pub total : Buckets → ℕ
total [] = 0
total ((net, ips) ∷ m) = length ips + total m

sweep_buckets_counts :
    (known : List Text) (live : List (Text × ℕ)) (m : Buckets)
    → ((sweep_buckets known live m).1 + length (sweep_buckets known live m).0 ≡ length m)
      × ((sweep_buckets known live m).2 + total (sweep_buckets known live m).0 ≡ total m)
unfolding sweep_buckets
sweep_buckets_counts known live [] = (omega arith, omega arith)
sweep_buckets_counts known live ((net, ips) ∷ m) =
    let ih = sweep_buckets_counts known live m in
    let le = length-keep (is_live live net) ips in
    elim (Bool-cases (known_net known net)) [
      | inl k ↦ rw k (omega arith)
      | inr k ↦ rw k (omega arith)
    ]

-- The sweep reports the buckets and the leases that are gone, no more and no fewer.
pub sweep_orphans_counts :
    (known : List Text) (live : List (Text × ℕ)) (s : Ipam)
    → ((sweep_orphans known live s).0.0 + length (sweep_orphans known live s).1.state.allocated
        ≡ length s.state.allocated)
      × ((sweep_orphans known live s).0.1 + total (sweep_orphans known live s).1.state.allocated
          ≡ total s.state.allocated)
unfolding sweep_orphans
sweep_orphans_counts known live s =
    ground (arith, sweep_buckets_counts known live s.state.allocated)
