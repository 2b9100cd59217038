-- ===== src/Network/Publish/Apart.antt =====
-- A publish that is not interleaved with another: no two containers ever hold colliding bindings.
use ingot_engine.Base.{
  ◌≡◌, ◌∙◌, refl, Bool, false, not, Option, none, some, List, [], ◌∷◌, ◌++◌, any, keep, All, arith,
  Bool-cases, Option-cases, inl, inr, Outcome, ok, err, panic,
}
use ingot_engine.Base.Text.{Text, same_iff}
use ingot_engine.Network.Address.V6.{IpAddr}
use ingot_engine.Network.Publish.{
  PortRule, Ports, Host, Check, already, clear, taken, PublishError, Effect, publish_overlaps,
  same_rule, clashes, find_rule, check_publish, prepare, commit, committed, when_clear,
  publish_port, unpublish_all, is_of, bind_ip, host_port_free, append_dnat, append_forward,
  start_proxy, accept_forward, then_run, with_bind_ip, dnat_destination,
}

-- No rule of the list collides with a rule of another container behind it.
abbrev pub Apart : List PortRule → Type 0
Apart [] = Unit
Apart (r ∷ rs) = All (λ q. clashes r q ≡ false) rs × Apart rs

pub clashes_sym : (r q : PortRule) → clashes r q ≡ clashes q r
unfolding publish_overlaps
clashes_sym r q = ground (
  arith,
  same_iff r.container_id q.container_id,
  same_iff q.container_id r.container_id,
  same_iff r.proto q.proto,
  same_iff q.proto r.proto,
  same_iff r.host_ip q.host_ip,
  same_iff q.host_ip r.host_ip,
)

All-push :
    (P : PortRule → Type 0) (rs : List PortRule) (r : PortRule)
    → All P rs
    → P r
    → All P (rs ++ r ∷ [])
All-push P [] r h k = (k, tt)
All-push P (q ∷ rs) r h k = (h.0, All-push P rs r h.1 k)

pub Apart-push :
    (rs : List PortRule) (r : PortRule)
    → Apart rs
    → All (λ q. clashes r q ≡ false) rs
    → Apart (rs ++ r ∷ [])
Apart-push [] r a h = (tt, tt)
Apart-push (q ∷ rs) r a h =
    (All-push (λ x. clashes q x ≡ false) rs r a.0 (clashes_sym q r ∙ h.0), Apart-push rs r a.1 h.1)

All-keep :
    (p : PortRule → Bool) (P : PortRule → Type 0) (rs : List PortRule)
    → All P rs
    → All P (keep p rs)
unfolding keep
All-keep p P [] h = tt
All-keep p P (r ∷ rs) h = elim (Bool-cases (p r)) [
  | inl g ↦ rw g (h.0, All-keep p P rs h.1)
  | inr g ↦ rw g (All-keep p P rs h.1)
]

pub Apart-keep : (p : PortRule → Bool) (rs : List PortRule) → Apart rs → Apart (keep p rs)
unfolding keep
Apart-keep p [] a = tt
Apart-keep p (r ∷ rs) a = elim (Bool-cases (p r)) [
  | inl h ↦ rw h (All-keep p (λ q. clashes r q ≡ false) rs a.0, Apart-keep p rs a.1)
  | inr h ↦ rw h (Apart-keep p rs a.1)
]

find_rule-none :
    (p : PortRule → Bool) (rs : List PortRule) → find_rule p rs ≡ none → All (λ q. p q ≡ false) rs
unfolding find_rule
find_rule-none p [] e = tt
find_rule-none p (r ∷ rs) e = elim (Bool-cases (p r)) [
  | inl h ↦ let here = rw h at e in cc
  | inr h ↦ (h, find_rule-none p rs (rw h at e))
]

-- A clear check: nothing collides.
pub check_publish-clear :
    (rule : PortRule) (rs : List PortRule)
    → check_publish rule rs ≡ clear
    → All (λ q. clashes rule q ≡ false) rs
unfolding check_publish
check_publish-clear rule rs e = elim (Bool-cases (any (λ r. same_rule r rule) rs)) [
  | inl h ↦ let here = rw h at e in cc
  | inr h ↦ elim (Option-cases (find_rule (clashes rule) rs)) [
    | inl g ↦ find_rule-none (clashes rule) rs g
    | inr (prior, g) ↦ let here = rw (h, g) at e in cc
  ]
]

-- Neither a rule nor a handle changed.
abbrev pub Kept : Ports → Outcome PublishError (Unit {0}) × Ports → Type 0
Kept s (r, after) = (after.published ≡ s.published) × (after.proxy_handles ≡ s.proxy_handles)

then_run-Kept :
    (host : Host) (e : Effect) (s : Ports) (next : Ports → Outcome PublishError (Unit {0}) × Ports)
    → ((t : Ports) → Kept t (next t))
    → Kept s (then_run host e s next)
then_run-Kept host e s next h = elim (Bool-cases (host.runs e)) [
  | inl g ↦ let k = h (record s { effects = s.effects ++ e ∷ [] }) in rw g (k.0, k.1)
  | inr g ↦ rw g (refl, refl)
]

with_bind_ip-Kept :
    (o : Option IpAddr) (rule : PortRule) (s : Ports) → Kept s (with_bind_ip o rule s)
with_bind_ip-Kept none rule s = (refl, refl)
with_bind_ip-Kept (some ip) rule s = (refl, refl)

start_proxy-Kept : (host : Host) (rule : PortRule) (s : Ports) → Kept s (start_proxy host rule s)
start_proxy-Kept host rule s =
    elim (Bool-cases (host.reads_target rule.container_ip rule.container_port)) [
      | inl h ↦ rw h (with_bind_ip-Kept (bind_ip rule.host_ip) rule s)
      | inr h ↦ rw h (refl, refl)
    ]

-- Between its looks `publish_port` changes no rule.
pub prepare-Kept : (host : Host) (rule : PortRule) (s : Ports) → Kept s (prepare host rule s)
unfolding prepare
prepare-Kept host rule s =
    elim (Bool-cases (host_port_free host rule.host_ip rule.host_port rule.proto)) [
      | inl free ↦ rw free (
          then_run-Kept host (append_dnat (dnat_destination rule) rule) s (accept_forward host rule)
            λ t.
              then_run-Kept host (append_forward rule) t (start_proxy host rule)
                (start_proxy-Kept host rule))
      | inr busy ↦ rw busy (refl, refl)
    ]

pub commit-Apart :
    (rule : PortRule) (s : Ports)
    → Apart s.published
    → All (λ q. clashes rule q ≡ false) s.published
    → Apart (commit rule s).published
unfolding commit
commit-Apart rule s a h = elim (Bool-cases (any (λ r. same_rule r rule) s.published)) [
  | inl g ↦ rw g a
  | inr g ↦ rw g (Apart-push s.published rule a h)
]

committed-Apart :
    (rule : PortRule) (s : Ports) (x : Outcome PublishError (Unit {0}) × Ports)
    → Kept s x
    → Apart s.published
    → All (λ q. clashes rule q ≡ false) s.published
    → Apart (committed rule x).1.published
committed-Apart rule s (ok done, t) k a h = commit-Apart rule t (rw k.0 a) (rw k.0 h)
committed-Apart rule s (err e, t) k a h = rw k.0 a
committed-Apart rule s (panic, t) k a h = rw k.0 a

when_clear-Apart :
    (host : Host) (rule : PortRule) (c : Check) (s : Ports)
    → check_publish rule s.published ≡ c
    → Apart s.published
    → Apart (when_clear host rule c s).1.published
when_clear-Apart host rule already s e a = a
when_clear-Apart host rule (taken c) s e a = a
when_clear-Apart host rule clear s e a =
    committed-Apart rule s (prepare host rule s) (prepare-Kept host rule s) a
      (check_publish-clear rule s.published e)

-- What may be asked, one call at a time.
pub data Call : Type 0 where
  publish_call : PortRule → Call
  unpublish_call : Text → Call

unfoldable pub serve : Host → List Call → Ports → Ports
serve host [] s = s
serve host (publish_call rule ∷ cs) s = serve host cs (publish_port host rule s).1
serve host (unpublish_call id ∷ cs) s = serve host cs (unpublish_all id s)

-- Calls that run one after another, on whatever host, keep the published rules apart: no rule of one
-- container collides with a rule of another.
pub serve-Apart :
    (host : Host) (cs : List Call) (s : Ports)
    → Apart s.published
    → Apart (serve host cs s).published
unfolding serve publish_port unpublish_all
serve-Apart host [] s a = a
serve-Apart host (publish_call rule ∷ cs) s a =
    serve-Apart host cs (publish_port host rule s).1
      (when_clear-Apart host rule (check_publish rule s.published) s refl a)
serve-Apart host (unpublish_call id ∷ cs) s a =
    serve-Apart host cs (unpublish_all id s) (Apart-keep (λ r. not (is_of id r)) s.published a)
