-- ===== src/Network/Dns.antt =====
-- crates/network/src/dns.rs: the embedded name server, as far as it decides from bytes and tables. A message
-- is a list of bytes. `String::from_utf8_lossy` is an argument.
pub mod Query
pub mod Reply
pub mod Decision
mod Tests
use Prim.Native.Nat.{bit_or, bit_and}
use ingot_engine.Base.{
  ℕ, zero, suc, ◌+◌, ◌*◌, Bool, true, false, ◌&&◌, ◌||◌, Option, none, some, List, [], ◌∷◌, ◌++◌,
  ◌==◌, if◌then◌else◌, length, take, drop, leb, ltb,
}
use ingot_engine.Base.Text.{Text, is_empty, is_whitespace, split_once_at, trim_start_matches, lines}
use ingot_engine.Base.Maps.{lookup}
use ingot_engine.Network.Address.{parse_ipv4, octet}

abbrev pub Bytes : Type 0
Bytes = List ℕ

-- `to_ascii_lowercase`.
unfoldable pub to_ascii_lowercase : Text → Text
to_ascii_lowercase [] = []
to_ascii_lowercase (c ∷ s) =
    let rest = to_ascii_lowercase s in
    if leb b'A' c && leb c b'Z' then (c + 32) ∷ rest else c ∷ rest

-- `join(".")`.
unfoldable pub join_dots : List Text → Text
join_dots [] = []
join_dots (l ∷ []) = l
join_dots (l ∷ m ∷ ls) = l ++ (b'.' ∷ join_dots (m ∷ ls))

-- The labels from an index on, and what stands at the index behind them, the end of the name included. The
-- fuel bounds the number of bytes.
unfoldable pub read_labels : (Bytes → Text) → ℕ → Bytes → Option (List Text × Bytes)
read_labels lossy zero s = none
read_labels lossy (suc f) [] = some ([], [])
read_labels lossy (suc f) (len ∷ s) =
    let more = read_labels lossy f (drop len s) in
    if len == 0
    then some ([], len ∷ s)
    else if ltb 0 (bit_and len 0xc0) || ltb (length s) len
    then none
    else elim more [ none ↦ none | some (labels, rest) ↦ some (lossy (take len s) ∷ labels, rest) ]

-- The type behind the end of the name.
abbrev pub query_type : Bytes → ℕ
query_type (end ∷ hi ∷ lo ∷ s) = hi * 256 + lo
query_type _ = 1

abbrev pub name_of_labels : List Text → Option Text
name_of_labels [] = none
name_of_labels (l ∷ ls) = some (to_ascii_lowercase (join_dots (l ∷ ls)))

abbrev pub name_and_type : Option (List Text × Bytes) → Option Text × ℕ
name_and_type none = (none, 1)
name_and_type (some (labels, rest)) = (name_of_labels labels, query_type rest)

unfoldable pub extract_query_name_type : (Bytes → Text) → Bytes → Option Text × ℕ
extract_query_name_type lossy query =
    if ltb (length query) 12
    then (none, 1)
    else name_and_type (read_labels lossy (suc (length query)) (drop 12 query))

-- The search domains in their order.
unfoldable pub resolve_search : List (Text × Text) → List Text → Text → Option Text
resolve_search records [] name = none
resolve_search records (d ∷ ds) name =
    elim (lookup (name ++ (b'.' ∷ to_ascii_lowercase d)) records) [
      | some ip ↦ some ip
      | none ↦ resolve_search records ds name
    ]

abbrev with_searches : List (Text × Text) → Option (List Text) → Text → Option Text
with_searches records none name = none
with_searches records (some domains) name = resolve_search records domains name

-- The closure `lookup`: the name itself, and then with the search domains of the one who asks.
unfoldable pub resolve_name :
    List (Text × Text) → List (Text × List Text) → Text → Option Text → Option Text
resolve_name records searches peer none = none
resolve_name records searches peer (some name) = elim (lookup name records) [
  | some ip ↦ some ip
  | none ↦ with_searches records (lookup peer searches) name
]

pub data DnsDecision : Type 0 where
  a_record aaaa_record : Text → DnsDecision
  nodata forward : DnsDecision

abbrev pub decide_aaaa : Option Text → Option Text → DnsDecision
decide_aaaa v4 (some ip) = aaaa_record ip
decide_aaaa (some ip) none = nodata
decide_aaaa none none = forward

abbrev pub decide_a : Option Text → DnsDecision
decide_a (some ip) = a_record ip
decide_a none = forward

unfoldable pub decide : ℕ → Option Text → Option Text → DnsDecision
decide qtype v4 v6 = if qtype == 28 then decide_aaaa v4 v6 else decide_a v4

-- An update of one byte.
unfoldable pub update : ℕ → (ℕ → ℕ) → Bytes → Bytes
update n f [] = []
update zero f (x ∷ xs) = f x ∷ xs
update (suc n) f (x ∷ xs) = x ∷ update n f xs

abbrev pub as_response : ℕ → ℕ
as_response b = bit_or b 0x80

abbrev pub with_rcode : ℕ → ℕ → ℕ
with_rcode rcode b = bit_or (bit_or (bit_and b 0xf0) 0x80) (bit_and rcode 0x0f)

unfoldable pub build_error : Bytes → ℕ → Bytes
build_error query rcode =
    if ltb (length query) 12
    then query
    else update 3 (with_rcode rcode) (update 2 as_response query)

abbrev octets_of : Option ℕ → Bytes
octets_of none = 0 ∷ 0 ∷ 0 ∷ 0 ∷ []
octets_of (some ip) = octet ip 24 ∷ octet ip 16 ∷ octet ip 8 ∷ octet ip 0 ∷ []

abbrev pub answer_head : Bytes
answer_head = 0xc0 ∷ 0x0c ∷ 0 ∷ 1 ∷ 0 ∷ 1 ∷ 0 ∷ 0 ∷ 0 ∷ 0 ∷ 0 ∷ 4 ∷ []

unfoldable pub build_answer : Bytes → Text → Bytes
build_answer query ip =
    let out = update 7 (λ b. 1) (update 3 as_response (update 2 as_response query)) in
    if ltb (length query) 12 then query else out ++ (answer_head ++ octets_of (parse_ipv4 ip))

-- `split_whitespace().nth(1)`.
abbrev second_word : Text → Option Text
second_word l = elim (split_once_at is_whitespace (trim_start_matches is_whitespace l)) [
  | none ↦ none
  | some (w, rest) ↦
      let behind = trim_start_matches is_whitespace rest in
      if is_empty behind then none else elim (split_once_at is_whitespace behind) [
        | none ↦ some behind
        | some (v, more) ↦ some v
      ]
]

abbrev push_parsed : Option Text → List ℕ → List ℕ
push_parsed none rest = rest
push_parsed (some w) rest = elim (parse_ipv4 w) [ none ↦ rest | some ip ↦ ip ∷ rest ]

unfoldable pub nameservers_of : List Text → List ℕ
nameservers_of [] = []
nameservers_of (l ∷ ls) = push_parsed (second_word l) (nameservers_of ls)

-- `host_nameservers`, on the text of /etc/resolv.conf.
unfoldable pub host_nameservers : Text → List ℕ
host_nameservers content = nameservers_of (lines content)
