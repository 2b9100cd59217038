-- ===== src/Network/Publish.antt =====
-- crates/network/src/lib.rs: published ports, `publish_port`, `unpublish_all`, `published_for` and
-- `allocate_ephemeral_port`. `publish_port` gives its lock up between its two looks at the rules, so it
-- is three functions here, and `publish_port` is what they come to when nothing else runs.
pub mod Apart
pub mod Race
pub mod Removal
pub mod Ephemeral
mod Tests
use ingot_engine.Base.{
  ℕ, zero, suc, ◌+◌, Bool, true, false, not, ◌&&◌, ◌||◌, Option, none, some, List, [], ◌∷◌, ◌++◌,
  ◌==◌, if◌then◌else◌, any, keep, elem, map, take, Outcome, ok, err, panic,
}
use ingot_engine.Base.Text.{Text, codes, same, is_empty, starts_with}
use ingot_engine.Base.Text.Decimal.{show_u16}
use ingot_engine.Network.Address.V6.{IpAddr, v4, parse_ip}

pub record PortRule : Type 0 where
  pub container_id : Text
  pub host_ip : Text
  pub host_port : ℕ
  pub container_ip : Text
  pub container_port : ℕ
  pub proto : Text

unfoldable pub proxy_key : PortRule → Text
proxy_key r =
    r.container_id ++ b'|' ∷ (r.proto ++ b'|' ∷ (r.host_ip ++ b':' ∷ show_u16 r.host_port))

pub record PortConflict : Type 0 where
  pub proto : Text
  pub host_ip : Text
  pub host_port : ℕ
  pub occupier : Option Text

abbrev pub any_v4 : Text
any_v4 = codes "0.0.0.0"

unfoldable pub publish_ip_wild : Text → Bool
publish_ip_wild ip = is_empty ip || same ip any_v4 || same ip (codes "::")

unfoldable pub publish_overlaps : Text → Text → ℕ → PortRule → Bool
publish_overlaps proto ip port other =
    same other.proto proto
    && other.host_port == port
    && (publish_ip_wild ip || publish_ip_wild other.host_ip || same ip other.host_ip)

-- The commands that are run, with the destination of the first kind, and the proxies that are started and
-- told to stop, by the key of their handle.
pub data Effect : Type 0 where
  append_dnat delete_dnat : (destination : Text) → PortRule → Effect
  append_forward delete_forward spawn_proxy : PortRule → Effect
  stop_proxy : (handle : Text) → Effect

-- What the host answers: can the port be bound, does the command succeed, is the text a socket address.
pub record Host : Type 0 where
  pub can_bind : IpAddr → ℕ → Text → Bool
  pub runs : Effect → Bool
  pub reads_target : Text → ℕ → Bool

-- `proxy_handles` holds the keys of the handles.
pub record Ports : Type 0 where
  pub published : List PortRule
  pub proxy_handles : List Text
  pub effects : List Effect

pub data PublishError : Type 0 where
  conflict : PortConflict → PublishError
  command_failed bad_target bad_host_ip : PublishError

abbrev pub bind_ip : Text → Option IpAddr
bind_ip host_ip = if is_empty host_ip then some (v4 0) else parse_ip host_ip

abbrev binds : Host → ℕ → Text → Option IpAddr → Bool
binds host port proto none = false
binds host port proto (some ip) = host.can_bind ip port proto

unfoldable pub host_port_free : Host → Text → ℕ → Text → Bool
host_port_free host host_ip port proto =
    if port == 0 then false else binds host port proto (bind_ip host_ip)

unfoldable pub same_rule : PortRule → PortRule → Bool
same_rule r rule =
    same r.container_id rule.container_id
    && same r.proto rule.proto
    && same r.host_ip rule.host_ip
    && r.host_port == rule.host_port
    && same r.container_ip rule.container_ip
    && r.container_port == rule.container_port

-- A rule of another container that a new one collides with.
abbrev pub clashes : PortRule → PortRule → Bool
clashes rule r =
    not (same r.container_id rule.container_id)
    && publish_overlaps rule.proto rule.host_ip rule.host_port r

unfoldable pub find_rule : (PortRule → Bool) → List PortRule → Option PortRule
find_rule p [] = none
find_rule p (r ∷ rs) = let rest = find_rule p rs in if p r then some r else rest

pub data Check : Type 0 where
  already clear : Check
  taken : PortConflict → Check

abbrev pub conflict_of : PortRule → Option Text → PortConflict
conflict_of rule occupier = record {
  proto = rule.proto;
  host_ip = rule.host_ip;
  host_port = rule.host_port;
  occupier = occupier;
}

abbrev pub no_prior : PortRule → Option PortRule → Check
no_prior rule none = clear
no_prior rule (some prior) = taken (conflict_of rule (some prior.container_id))

-- The first look, under the lock.
unfoldable pub check_publish : PortRule → List PortRule → Check
check_publish rule rules =
    if any (λ r. same_rule r rule) rules
    then already
    else no_prior rule (find_rule (clashes rule) rules)

abbrev log_effect : Effect → Ports → Ports
log_effect e s = record s { effects = s.effects ++ e ∷ [] }

abbrev pub then_run :
    Host
    → Effect
    → Ports
    → (Ports → Outcome PublishError (Unit {0}) × Ports)
    → Outcome PublishError (Unit {0}) × Ports
then_run host e s next =
    let ran = log_effect e s in if host.runs e then next ran else (err command_failed, ran)

abbrev pub with_bind_ip : Option IpAddr → PortRule → Ports → Outcome PublishError (Unit {0}) × Ports
with_bind_ip none rule s = (err bad_host_ip, s)
with_bind_ip (some ip) rule s = (ok tt, log_effect (spawn_proxy rule) s)

-- `0.0.0.0/0` for every address of the host.
abbrev pub dnat_destination : PortRule → Text
dnat_destination rule = if publish_ip_wild rule.host_ip then codes "0.0.0.0/0" else rule.host_ip

-- The userland proxy, for a target and an address that are read.
abbrev pub start_proxy : Host → PortRule → Ports → Outcome PublishError (Unit {0}) × Ports
start_proxy host rule s =
    if not (host.reads_target rule.container_ip rule.container_port)
    then (err bad_target, s)
    else with_bind_ip (bind_ip rule.host_ip) rule s

abbrev pub accept_forward : Host → PortRule → Ports → Outcome PublishError (Unit {0}) × Ports
accept_forward host rule s = then_run host (append_forward rule) s (start_proxy host rule)

-- The steps between the two looks, without the lock.
unfoldable pub prepare : Host → PortRule → Ports → Outcome PublishError (Unit {0}) × Ports
prepare host rule s =
    if not (host_port_free host rule.host_ip rule.host_port rule.proto)
    then (err (conflict (conflict_of rule none)), s)
    else then_run host (append_dnat (dnat_destination rule) rule) s (accept_forward host rule)

-- The second look, under the lock, and the new rule.
unfoldable pub commit : PortRule → Ports → Ports
commit rule s = if any (λ r. same_rule r rule) s.published then s else record s {
  proxy_handles =
      if any (same (proxy_key rule)) s.proxy_handles
      then s.proxy_handles
      else s.proxy_handles ++ proxy_key rule ∷ [];
  published = s.published ++ rule ∷ [];
}

abbrev pub committed :
    PortRule → Outcome PublishError (Unit {0}) × Ports → Outcome PublishError (Unit {0}) × Ports
committed rule (ok done, s) = (ok tt, commit rule s)
committed rule (err e, s) = (err e, s)
committed rule (panic, s) = (panic, s)

abbrev pub when_clear : Host → PortRule → Check → Ports → Outcome PublishError (Unit {0}) × Ports
when_clear host rule already s = (ok tt, s)
when_clear host rule (taken c) s = (err (conflict c), s)
when_clear host rule clear s = committed rule (prepare host rule s)

unfoldable pub publish_port : Host → PortRule → Ports → Outcome PublishError (Unit {0}) × Ports
publish_port host rule s = when_clear host rule (check_publish rule s.published) s

abbrev pub is_of : Text → PortRule → Bool
is_of container_id r = same r.container_id container_id

unfoldable pub published_for : Text → Ports → List PortRule
published_for container_id s = keep (is_of container_id) s.published

abbrev withdraw : PortRule → List Effect
withdraw r = delete_dnat (dnat_destination r) r ∷ delete_forward r ∷ []

unfoldable pub withdraw_all : List PortRule → List Effect
withdraw_all [] = []
withdraw_all (r ∷ rs) = withdraw r ++ withdraw_all rs

abbrev pub has_handle_of : Text → Text → Bool
has_handle_of container_id = starts_with (container_id ++ b'|' ∷ [])

-- The proxies are told to stop before the commands run. Failures of the commands are ignored.
unfoldable pub unpublish_all : Text → Ports → Ports
unpublish_all container_id s = record {
  published = keep (λ r. not (is_of container_id r)) s.published;
  proxy_handles = keep (λ k. not (has_handle_of container_id k)) s.proxy_handles;
  effects =
      s.effects
      ++ map stop_proxy (keep (has_handle_of container_id) s.proxy_handles)
      ++ withdraw_all (keep (is_of container_id) s.published);
}

-- The ports that are published for the protocol.
abbrev pub used_ports : Text → List PortRule → List ℕ
used_ports proto rules = map (λ r. r.host_port) (keep (λ r. same r.proto proto) rules)

abbrev pub is_open : Host → Text → List ℕ → ℕ → Bool
is_open host proto used p = not (elem p used) && host_port_free host [] p proto

-- The kernel's picks, `none` where it had none.
unfoldable pub first_pick : (ℕ → Bool) → List (Option ℕ) → Option ℕ
first_pick accepts [] = none
first_pick accepts (none ∷ picks) = first_pick accepts picks
first_pick accepts (some p ∷ picks) =
    let rest = first_pick accepts picks in if not (p == 0) && accepts p then some p else rest

-- `for p in 32768..=60999`, with the number of ports that are left.
unfoldable pub scan_ports : (ℕ → Bool) → ℕ → ℕ → ℕ
scan_ports accepts zero p = 32768
scan_ports accepts (suc n) p =
    let rest = scan_ports accepts n (p + 1) in if accepts p then p else rest

abbrev pub or_scan : (ℕ → Bool) → Option ℕ → ℕ
or_scan accepts (some p) = p
or_scan accepts none = scan_ports accepts 28232 32768

unfoldable pub allocate_ephemeral_port : Host → List (Option ℕ) → Text → Ports → ℕ
allocate_ephemeral_port host picks proto s =
    let accepts = is_open host proto (used_ports proto s.published) in
    or_scan accepts (first_pick accepts (take 16 picks))
