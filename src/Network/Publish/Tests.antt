-- ===== src/Network/Publish/Tests.antt =====
-- Runs of the published ports, and each theorem at an input that meets its hypotheses.
use ingot_engine.Base.{ℕ, ◌≡◌, refl, true, false, ◌⊎◌, ◌≤◌, none, some, [], ◌∷◌, elem, any, keep}
use ingot_engine.Base.Text.{Text, codes, same, starts_with, strip_prefix}
use ingot_engine.Base.Text.Decimal.{show_digits}
use ingot_engine.Network.Address.V6.{parse_ipv6, parse_ip, show_ipv6, v4, v6}
use ingot_engine.Network.Publish.{
  PortRule, Host, Ports, proxy_key, publish_ip_wild, publish_overlaps, same_rule, find_rule,
  check_publish, host_port_free, prepare, commit, publish_port, unpublish_all, used_ports, is_open,
  allocate_ephemeral_port,
}
use ingot_engine.Network.Publish.Apart.{Apart, publish_call, serve, serve-Apart}
use ingot_engine.Network.Publish.Race.{look, finish, play, play-not_Apart}
use ingot_engine.Network.Publish.Removal.{Withdrawn, unpublish_all-Withdrawn}
use ingot_engine.Network.Publish.Ephemeral.{allocate_ephemeral_port_lem}

addresses :
    (parse_ipv6 (codes "fd00::1") ≡ some 0xfd000000000000000000000000000001)
    × (parse_ipv6 (codes "::ffff:1.2.3.4") ≡ some 0xffff01020304)
    × (parse_ipv6 (codes "1:2:3:4:5:6:7:8") ≡ some 0x00010002000300040005000600070008)
    × (parse_ipv6 (codes "1:2:3:4:5:6:7") ≡ none)
    × (parse_ipv6 (codes "1::2::3") ≡ none)
    × (parse_ip (codes "10.0.0.1") ≡ some (v4 0x0a000001))
    × (parse_ip (codes "::") ≡ some (v6 0))
unfolding parse_ipv6 parse_ip
addresses = (refl, refl, refl, refl, refl, refl, refl)

address_texts :
    (show_ipv6 0xfd000000000000000000000000000001 ≡ codes "fd00::1")
    × (show_ipv6 0 ≡ codes "::")
    × (show_ipv6 0x00010002000300040005000600070008 ≡ codes "1:2:3:4:5:6:7:8")
    × (show_ipv6 0x00010000000000040000000000000008 ≡ codes "1:0:0:4::8")
unfolding show_ipv6
address_texts = (refl, refl, refl, refl)

-- Every port can be bound and every command succeeds.
abbrev willing : Host
willing = record {
  can_bind = λ ip port proto. true;
  runs = λ e. true;
  reads_target = λ ip port. true;
}

abbrev rule : Text → Text → PortRule
rule id ip = record {
  container_id = id;
  host_ip = ip;
  host_port = 80;
  container_ip = codes "10.0.0.2";
  container_port = 8080;
  proto = codes "tcp";
}

abbrev nothing : Ports
nothing = record { published = []; proxy_handles = []; effects = [] }

abbrev web : PortRule
web = rule (codes "a1") []

abbrev other : PortRule
other = rule (codes "b2") (codes "127.0.0.1")

abbrev publish_both : Ports
publish_both = serve willing (publish_call web ∷ publish_call other ∷ []) nothing

serve-Apart_example : Apart publish_both.published
serve-Apart_example = serve-Apart willing (publish_call web ∷ publish_call other ∷ []) nothing tt

one_published : publish_both.published ≡ web ∷ []
unfolding serve publish_port check_publish find_rule prepare commit any same_rule publish_overlaps
    publish_ip_wild same host_port_free
one_published = refl

play-not_Apart_example :
    ¬ Apart
      (play willing
        (look web ∷ look other ∷ finish web ∷ finish other ∷ [])
        (record { ports = nothing; waiting = [] })).ports.published
unfolding check_publish find_rule publish_overlaps publish_ip_wild same any prepare host_port_free
    parse_ip
play-not_Apart_example = play-not_Apart willing web other nothing (refl, refl) (refl, refl) refl

unpublish_all-Withdrawn_example :
    Withdrawn (codes "a1") publish_both (unpublish_all (codes "a1") publish_both)
unfolding elem
unpublish_all-Withdrawn_example = unpublish_all-Withdrawn (codes "a1") publish_both refl

withdrawn :
    ((unpublish_all (codes "a1") publish_both).published ≡ [])
    × ((unpublish_all (codes "a1") publish_both).proxy_handles ≡ [])
unfolding unpublish_all serve publish_port check_publish find_rule prepare commit any same_rule
    publish_overlaps publish_ip_wild same host_port_free keep starts_with strip_prefix proxy_key
    show_digits
withdrawn = (refl, refl)

allocate_ephemeral_port_lem_example :
    let p = allocate_ephemeral_port willing (none ∷ some 40000 ∷ []) (codes "tcp") publish_both in
    let used = used_ports (codes "tcp") publish_both.published in
    ((elem p used ≡ false) × (host_port_free willing [] p (codes "tcp") ≡ true))
    ⊎ ((p ≡ 32768)
        × ((q : ℕ) → 32768 ≤ q → q ≤ 60999 → is_open willing (codes "tcp") used q ≡ false))
allocate_ephemeral_port_lem_example =
    allocate_ephemeral_port_lem willing (none ∷ some 40000 ∷ []) (codes "tcp") publish_both
