-- ===== src/Network/Ipam/V6/Tests.antt =====
-- A small IPv6 network, and each theorem at it.
use ingot_engine.Base.{ℕ, elem, ◌≡◌, refl, [], ◌∷◌, some, arith, ok, ◌^◌, ◌*◌, ◌+◌}
use ingot_engine.Base.Text.{Text, codes, split_once_at}
use ingot_engine.Base.Text.Decimal.{parse_unsigned}
use ingot_engine.Base.Words.{debug}
use ingot_engine.Network.Address.V6.{parse_ipv6, read_ipv4_addr}
use ingot_engine.Network.Subnet.V6.{V6Subnet, parse_v6}
use ingot_engine.Network.Ipam.{Ipam}
use ingot_engine.Network.Ipam.V6.{allocate_v6}
use ingot_engine.Network.Ipam.V6.Grant.{AllocatesV6, allocate_v6_lem}

abbrev base_v6 : ℕ
base_v6 = 0xfd00 * 2 ^ 112

abbrev ula : V6Subnet
ula = record { network = base_v6; prefix = 125 }

abbrev on_net : Text
on_net = codes "n"

-- Its second host has a lease.
abbrev one_lease_v6 : Ipam
one_lease_v6 = record {
  state = record { allocated = []; allocated_v6 = (on_net, (base_v6 + 2) ∷ []) ∷ [] };
  writes = [];
}

ula_parsed : parse_v6 (codes "fd00::/125") ≡ ok ula
unfolding parse_v6 parse_ipv6 parse_unsigned split_once_at read_ipv4_addr elem
ula_parsed = refl

gateway_parsed : parse_ipv6 (codes "fd00::1") ≡ some (base_v6 + 1)
unfolding parse_ipv6 read_ipv4_addr
gateway_parsed = refl

third_parsed : parse_ipv6 (codes "fd00::3") ≡ some (base_v6 + 3)
unfolding parse_ipv6 read_ipv4_addr
third_parsed = refl

allocate_v6_lem_example :
    AllocatesV6 on_net ula
      (base_v6 + 1)
      one_lease_v6
      (allocate_v6 debug on_net (codes "fd00::/125") (codes "fd00::1") one_lease_v6)
allocate_v6_lem_example =
    allocate_v6_lem debug on_net (codes "fd00::/125") (codes "fd00::1") ula (base_v6 + 1) ula_parsed
      gateway_parsed one_lease_v6 (omega arith) (omega arith)
