-- ===== src/Network/Ipam/Live.antt =====
-- `allocate` finds an address while there are fewer leases than hosts beside the gateway.
use ingot_engine.Base.{
  ℕ, zero, suc, ◌≡◌, ◌+◌, ◌-◌, ◌≤◌, ◌<◌, true, false, some, List, [], ◌∷◌, arith, ◌==◌,
  if◌then◌else◌, elem, remove_all, elem-remove_all, length, inl, inr, Outcome, ok,
}
use ingot_engine.Base.Text.{Text}
use ingot_engine.Base.Words.{Profile}
use ingot_engine.Network.Address.{parse_ipv4}
use ingot_engine.Network.Subnet
use ingot_engine.Network.Subnet.{Subnet}
use ingot_engine.Network.Subnet.Range.{first_host, last_host}
use ingot_engine.Network.Ipam.{Ipam, IpamError, bucket, allocate}
use ingot_engine.Network.Ipam.Grant.{Allocates, allocate_lem}

length-remove_all :
    (a : ℕ) (xs : List ℕ) → length (remove_all a xs) + (if elem a xs then 1 else 0) ≤ length xs
unfolding remove_all elem
length-remove_all a [] = omega arith
length-remove_all a (x ∷ xs) = ground (arith, length-remove_all a xs)

-- A list that holds `n` numbers in a row has room for them.
run-le-length :
    (n c : ℕ) (xs : List ℕ) → ((y : ℕ) → c ≤ y → y < c + n → elem y xs ≡ true) → n ≤ length xs
run-le-length zero c xs h = omega arith
run-le-length (suc n) c xs h =
    let here = h c (omega arith) (omega arith) in
    let rest = run-le-length n (c + 1) (remove_all c xs) (λ y lo hi.
      let there = h y (omega arith) (omega arith) in
      let apart : (c == y) ≡ false = ground arith in ground (arith, elem-remove_all c y xs)) in
    ground (arith, length-remove_all c xs)

module _ (pr : Profile) (net subnet gateway : Text) (sub : Subnet) (gw : ℕ)
    (parsed : Subnet.parse subnet ≡ ok sub) (masked : 1 ≤ sub.prefix)
    (gateway_read : parse_ipv4 gateway ≡ some gw) where
  Allocates-ok :
      (before : Ipam) (x : Outcome IpamError ℕ × Ipam)
      → length (bucket before.state.allocated net) + 1 < last_host sub + 1 - first_host sub
      → Allocates net sub gw before x
      → (ip : ℕ) × (x.0 ≡ ok ip)
  Allocates-ok before (r, after) room (inl (ip, e, low, high, ne, below, l)) = (ip, e)
  Allocates-ok before (r, after) room (inr (e, all_taken, same_leases)) =
      let used = bucket before.state.allocated net in
      let full =
        run-le-length (last_host sub + 1 - first_host sub) (first_host sub) (gw ∷ used) (λ y lo hi.
          elim (all_taken y lo (omega arith)) [
            | inl is_gateway ↦ unfold elem in ground arith
            | inr is_used ↦ unfold elem in ground arith
          ]) in
      absurd (omega (arith, full))

  -- On a subnet text that `Subnet::parse` accepts with a prefix of at least 1, and with a gateway that reads
  -- as one of the hosts, `allocate` returns an address whenever fewer addresses are leased on the network
  -- than the subnet has hosts beside the gateway.
  pub allocate-ok :
      (before : Ipam)
      → first_host sub ≤ gw
      → gw ≤ last_host sub
      → length (bucket before.state.allocated net) + 1 < last_host sub + 1 - first_host sub
      → (ip : ℕ) × ((allocate pr net subnet gateway before).0 ≡ ok ip)
  allocate-ok before low high room =
      Allocates-ok before (allocate pr net subnet gateway before) room
        (allocate_lem pr net subnet gateway sub gw parsed masked gateway_read before low high)
