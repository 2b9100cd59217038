-- ===== src/Network/Dns/Tests.antt =====
-- Runs of the name server's model, and each theorem at an input that meets its hypotheses.
use ingot_engine.Base.{◌+◌, ◌*◌, ◌≡◌, refl, none, some, List, [], ◌∷◌, ◌++◌, map, arith}
use ingot_engine.Base.Text.{
  Text, codes, same, lines, is_whitespace, split_once_at, trim_start_matches,
}
use ingot_engine.Base.Maps.{lookup}
use ingot_engine.Network.Address.{parse_ipv4}
use ingot_engine.Network.Dns.{
  Bytes, extract_query_name_type, name_of_labels, resolve_name, resolve_search, to_ascii_lowercase,
  build_answer, host_nameservers, nameservers_of, update, join_dots,
}
use ingot_engine.Network.Dns.Query.{encode_name, extract_query_name_type-encode_name}

abbrev plain : Bytes → Text
plain b = b

abbrev header : Bytes
header = 1 ∷ 2 ∷ 1 ∷ 0 ∷ 0 ∷ 1 ∷ 0 ∷ 0 ∷ 0 ∷ 0 ∷ 0 ∷ 0 ∷ []

abbrev web : List Bytes
web = codes "Web" ∷ codes "lan" ∷ []

extract_query_name_type-encode_name_example :
    extract_query_name_type plain (header ++ (encode_name web ++ (0 ∷ 28 ∷ 0 ∷ 1 ∷ [])))
    ≡ (name_of_labels (map plain web), 0 * 256 + 28)
extract_query_name_type-encode_name_example =
    extract_query_name_type-encode_name plain header web 0 28 (0 ∷ 1 ∷ []) refl
      ((omega arith, omega arith), ((omega arith, omega arith), tt))

abbrev records : List (Text × Text)
records = (codes "web.lan", codes "10.0.0.2") ∷ []

abbrev searches : List (Text × List Text)
searches = (codes "10.0.0.3", codes "LAN" ∷ []) ∷ []

runs :
    (name_of_labels web ≡ some (codes "web.lan"))
    × (resolve_name records searches (codes "10.0.0.3") (some (codes "web"))
        ≡ some (codes "10.0.0.2"))
    × (resolve_name records searches (codes "10.0.0.4") (some (codes "web")) ≡ none)
    × (host_nameservers (codes "# x\nnameserver 1.1.1.1\n") ≡ 0x01010101 ∷ [])
    × (build_answer header (codes "10.0.0.2")
        ≡ 1 ∷ 2 ∷ 129 ∷ 128 ∷ 0 ∷ 1 ∷ 0 ∷ 1 ∷ 0 ∷ 0 ∷ 0 ∷ 0 ∷ 192 ∷ 12 ∷ 0 ∷ 1 ∷ 0 ∷ 1 ∷ 0 ∷ 0 ∷ 0
          ∷ 0 ∷ 0 ∷ 4 ∷ 10 ∷ 0 ∷ 0 ∷ 2 ∷ [])
unfolding to_ascii_lowercase join_dots resolve_name resolve_search lookup same host_nameservers
    nameservers_of lines parse_ipv4 is_whitespace split_once_at trim_start_matches build_answer
    update
runs = (refl, refl, refl, refl, refl)
