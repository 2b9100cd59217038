-- ===== src/Network/Tests.antt =====
-- Runs of the network model, and each theorem at an input that meets its hypotheses.
use ingot_engine.Base.{
  ℕ, ◌≤◌, ◌⊎◌, ◌-◌, ◌^◌, ◌≡◌, ◌≢◌, ◌↔◌, refl, [], ◌∷◌, true, some, none, arith, elem, ok, err, All,
}
use ingot_engine.Base.Text.{Text, codes, same, split_once_at}
use ingot_engine.Base.Text.Decimal.{parse_unsigned}
use ingot_engine.Base.Words.{Profile, debug, release, add_word, sub_word, shl_word}
use ingot_engine.Base.Maps
use ingot_engine.Network.Address.{parse_ipv4, show_ipv4, parse_ipv4-show_ipv4}
use ingot_engine.Network.Subnet
use ingot_engine.Network.Subnet.{
  Subnet, SubnetError, IsSubnet, usable_range, contains, overlaps, cidr, default_gateway,
}
use ingot_engine.Network.Subnet.Parsed.{parse-cidr}
use ingot_engine.Network.Subnet.Range.{usable_range_cases, first_host, last_host}
use ingot_engine.Network.Subnet.Overlap.{overlaps-contains}
use ingot_engine.Network.Ipam.{
  Ipam, allocate, check_allocate, allocate_locked, leased, reset_bucket, known_net, is_live,
  sweep_orphans,
}
use ingot_engine.Network.Ipam
use ingot_engine.Network.Ipam.Grant.{Allocates, ReservesRead, allocate_lem, reserve_lem}
use ingot_engine.Network.Ipam.Live.{allocate-ok}
use ingot_engine.Network.Ipam.Refines.{PermittedRun, run-PermittedRun}
use ingot_engine.Network.Ipam.History.{
  Op, allocate_op, release_op, step, run, grants, grant_exclusive,
}

abbrev small_text : Text
small_text = codes "10.0.0.9/29"

abbrev small : Subnet
small = record { network = 0x0a000008; prefix = 29 }

abbrev wide : Subnet
wide = record { network = 0x0a000000; prefix = 8 }

abbrev any_net : Subnet
any_net = record { network = 0; prefix = 0 }

small-parsed : Subnet.parse small_text ≡ ok small
unfolding Subnet.parse parse_ipv4 split_once_at parse_unsigned
small-parsed = refl

subnet_errors :
    (Subnet.parse (codes "10.0.0.0/31") ≡ err SubnetError.no_hosts)
    × (Subnet.parse (codes "nope") ≡ err SubnetError.no_slash)
    × (Subnet.parse (codes "::1/128") ≡ err SubnetError.bad_address)
unfolding Subnet.parse parse_ipv4 split_once_at parse_unsigned
subnet_errors = (refl, refl, refl)

small-IsSubnet : IsSubnet small
small-IsSubnet = record {
  leaves_hosts = omega arith;
  index = 0x1400001;
  masked = refl;
  fits = omega arith;
}

wide-IsSubnet : IsSubnet wide
wide-IsSubnet = record { leaves_hosts = omega arith; index = 10; masked = refl; fits = omega arith }

any_net-IsSubnet : IsSubnet any_net
any_net-IsSubnet = record {
  leaves_hosts = omega arith;
  index = 0;
  masked = refl;
  fits = omega arith;
}

parse-cidr_example : Subnet.parse (cidr small) ≡ ok small
parse-cidr_example = parse-cidr small small-IsSubnet

usable_range_cases_example :
    ((1 ≤ any_net.prefix)
      × ((pr : Profile) → usable_range pr any_net ≡ some (first_host any_net, last_host any_net)))
    ⊎ ((any_net.prefix ≡ 0)
        × (usable_range debug any_net ≡ none)
        × (usable_range release any_net ≡ some (1, 2 ^ 32 - 1)))
usable_range_cases_example = usable_range_cases any_net any_net-IsSubnet

overlaps-contains_example :
    (overlaps debug wide small ≡ some true)
    ↔ ((ip : ℕ) × (contains debug wide ip ≡ some true) × (contains debug small ip ≡ some true))
overlaps-contains_example =
    overlaps-contains debug wide small wide-IsSubnet small-IsSubnet (omega arith) (omega arith)

wide-overlaps : overlaps debug wide small ≡ some true
unfolding overlaps usable_range add_word sub_word shl_word
wide-overlaps = refl

abbrev gateway_text : Text
gateway_text = codes "10.0.0.9"

abbrev gateway : ℕ
gateway = 0x0a000009

gateway-read : parse_ipv4 gateway_text ≡ some gateway
unfolding parse_ipv4
gateway-read = refl

abbrev net : Text
net = codes "br0"

abbrev empty : Ipam
empty = record { state = record { allocated = []; allocated_v6 = [] }; writes = [] }

allocate_lem_example :
    Allocates net small gateway empty (allocate debug net small_text gateway_text empty)
allocate_lem_example =
    allocate_lem debug net small_text gateway_text small gateway small-parsed (omega arith)
      gateway-read empty (omega arith) (omega arith)

abbrev want_text : Text
want_text = codes "10.0.0.12"

want-read : parse_ipv4 want_text ≡ some 0x0a00000c
unfolding parse_ipv4
want-read = refl

reserve_lem_example :
    ReservesRead net small gateway 0x0a00000c empty
      (Ipam.reserve debug net small_text gateway_text want_text empty)
reserve_lem_example =
    reserve_lem debug net small_text gateway_text small gateway small-parsed (omega arith)
      gateway-read want_text 0x0a00000c want-read empty

abbrev first_op : Op
first_op = allocate_op net small_text gateway_text

first-granted : (step debug first_op empty).0 ≡ some (net, 0x0a00000a)
unfolding step allocate check_allocate allocate_locked Subnet.parse parse_ipv4 split_once_at
    parse_unsigned contains usable_range add_word sub_word shl_word Maps.lookup same elem
first-granted = refl

-- The abstract allocator permits two allocations and a release.
run-PermittedRun_example :
    PermittedRun
      (leased empty)
      (first_op ∷ first_op ∷ release_op net want_text ∷ [])
      (grants debug (first_op ∷ first_op ∷ release_op net want_text ∷ []) empty)
      (leased (run debug (first_op ∷ first_op ∷ release_op net want_text ∷ []) empty))
run-PermittedRun_example =
    run-PermittedRun debug (first_op ∷ first_op ∷ release_op net want_text ∷ []) empty

allocate-ok_example : (ip : ℕ) × ((allocate debug net small_text gateway_text empty).0 ≡ ok ip)
unfolding Maps.lookup
allocate-ok_example =
    allocate-ok debug net small_text gateway_text small gateway small-parsed (omega arith)
      gateway-read empty (omega arith) (omega arith) (omega arith)

grant_exclusive_example :
    (leased (run debug (first_op ∷ first_op ∷ []) empty) net 0x0a00000a ≡ true)
    × All
        (λ g. g ≢ some (net, 0x0a00000a))
        (grants debug (first_op ∷ []) (step debug first_op empty).1)
grant_exclusive_example =
    grant_exclusive debug net 0x0a00000a first_op (first_op ∷ []) empty first-granted (refl, tt)

parse_ipv4-show_ipv4_example : parse_ipv4 (show_ipv4 gateway) ≡ some gateway
parse_ipv4-show_ipv4_example = parse_ipv4-show_ipv4 gateway (omega arith)

abbrev in_use : Ipam
in_use = record {
  state = record {
    allocated = (net, 0x0a00000a ∷ 0x0a00000b ∷ []) ∷ (codes "br1", 0x0a00000a ∷ []) ∷ [];
    allocated_v6 = [];
  };
  writes = [];
}
