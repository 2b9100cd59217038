-- ===== src/Network/Ipam/Leased.antt =====
-- What each change of the buckets does to the leases, as equations on `leased`.
use ingot_engine.Base.{
  ℕ, ◌≡◌, ◌≢◌, ◌+◌, ◌≤◌, ◌<◌, ◌∙◌, true, false, not, ◌&&◌, ◌||◌, Option, none, some, List, ◌∷◌,
  zero, suc, arith, if◌then◌else◌, ◌==◌, elem, Bool-cases, inl, inr, ◌⊎◌,
}
use mathlib.Core.Path.{subst}
use native.Mathlib.Decide.{dec_lt}
use ingot_engine.Base.Maps.{lookup-insert}
use ingot_engine.Base.Text.{Text, same, same_iff}
use ingot_engine.Network.Ipam.{Ipam, bucket, leased, set_bucket, lease, first_free}

module _ (net n : Text) (j : ℕ) (ipam : Ipam) where
  pub leased-set_bucket :
      (used : List ℕ)
      → leased (set_bucket net used ipam) n j
        ≡ (if same net n then elem j used else leased ipam n j)
  leased-set_bucket used = rw lookup-insert (ground arith)

  -- `entry(net).or_default()` changes no lease.
  pub leased-open :
      leased (set_bucket net (bucket ipam.state.allocated net) ipam) n j ≡ leased ipam n j
  leased-open = leased-set_bucket (bucket ipam.state.allocated net) ∙ ground (arith, same_iff net n)

-- Nothing but the new address is leased by `lease`.
pub leased-lease :
    (net n : Text) (c j : ℕ) (ipam : Ipam)
    → leased
        (lease net c
          (bucket ipam.state.allocated net)
          (set_bucket net (bucket ipam.state.allocated net) ipam))
        n
        j
      ≡ (same net n && j == c || leased ipam n j)
unfolding elem
leased-lease net n c j ipam =
    let used = bucket ipam.state.allocated net in
    leased-set_bucket net n j (set_bucket net used ipam) (c ∷ used)
    ∙ ground (arith, leased-open net n j ipam, same_iff net n)

-- Not to be handed out: the gateway, and what is leased.
abbrev pub Taken : ℕ → List ℕ → ℕ → Type 0
Taken gw used y = (y ≡ gw) ⊎ (elem y used ≡ true)

-- The lowest of the addresses from `c` up to `c + n` that is not taken.
abbrev pub Lowest : ℕ → ℕ → ℕ → List ℕ → Option ℕ → Type 0
Lowest n c gw used none = (y : ℕ) → c ≤ y → y < c + n → Taken gw used y
Lowest n c gw used (some x) =
    (c ≤ x)
    × (x < c + n)
    × (x ≢ gw)
    × (elem x used ≡ false)
    × ((y : ℕ) → c ≤ y → y < x → Taken gw used y)

busy-Taken :
    (gw c : ℕ) (used : List ℕ) → (not (c == gw) && not (elem c used)) ≡ false → Taken gw used c
busy-Taken gw c used h = ground arith

Taken-next :
    (gw c y : ℕ) (used : List ℕ)
    → Taken gw used c
    → c ≤ y
    → (c + 1 ≤ y → Taken gw used y)
    → Taken gw used y
Taken-next gw c y used t p later = elim (dec_lt c y) [
  | yes q ↦ later (omega arith)
  | no q ↦ subst (Taken gw used) (omega arith) t
]

Lowest-next :
    (n c gw : ℕ) (used : List ℕ) (o : Option ℕ)
    → Taken gw used c
    → Lowest n (c + 1) gw used o
    → Lowest (suc n) c gw used o
Lowest-next n c gw used none t h = λ y p q. Taken-next gw c y used t p (λ r. h y r (omega arith))
Lowest-next n c gw used (some x) t h =
    (omega arith, omega arith, h.2, h.3, λ y p q. Taken-next gw c y used t p (λ r. h.4 y r q))

pub first_free-Lowest : (n c gw : ℕ) (used : List ℕ) → Lowest n c gw used (first_free n c gw used)
unfolding first_free
first_free-Lowest zero c gw used = λ y p q. absurd (omega arith)
first_free-Lowest (suc n) c gw used = elim (Bool-cases (not (c == gw) && not (elem c used))) [
  | inl free ↦
      rw (free, first_free)
        (omega arith, omega arith, ground arith, ground arith, λ y p q. absurd (omega arith))
  | inr busy ↦
      rw (busy, first_free)
        (Lowest-next n c gw used _ (busy-Taken gw c used busy)
          (first_free-Lowest n (c + 1) gw used))
]
