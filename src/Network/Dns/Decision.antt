-- ===== src/Network/Dns/Decision.antt =====
-- When a query leaves the host.
use ingot_engine.Base.{
  ℕ, ◌≡◌, ◌↔◌, refl, true, Option, none, some, ◌==◌, List, Bool-cases, inl, inr,
}
use ingot_engine.Base.Text.{Text}
use ingot_engine.Network.Dns.{forward, decide, resolve_name}

-- The name has an address in neither family, or in the one of IPv4 when no AAAA record is asked for.
abbrev pub Unknown : ℕ → Option Text → Option Text → Type 0
Unknown qtype v4 v6 = (v4 ≡ none) × ((qtype == 28) ≡ true → v6 ≡ none)

forward-Unknown :
    (qtype : ℕ) (v4 v6 : Option Text) → decide qtype v4 v6 ≡ forward → Unknown qtype v4 v6
unfolding decide
forward-Unknown qtype none none h = (refl, λ e. refl)
forward-Unknown qtype none (some b) h = elim (Bool-cases (qtype == 28)) [
  | inl e ↦ let bad = rw e at h in cc bad
  | inr e ↦ (refl, λ d. cc (e, d))
]
forward-Unknown qtype (some a) none h = elim (Bool-cases (qtype == 28)) [
  | inl e ↦ let bad = rw e at h in cc bad
  | inr e ↦ let bad = rw e at h in cc bad
]
forward-Unknown qtype (some a) (some b) h = elim (Bool-cases (qtype == 28)) [
  | inl e ↦ let bad = rw e at h in cc bad
  | inr e ↦ let bad = rw e at h in cc bad
]

Unknown-forward :
    (qtype : ℕ) (v4 v6 : Option Text) → Unknown qtype v4 v6 → decide qtype v4 v6 ≡ forward
unfolding decide
Unknown-forward qtype v4 v6 (e, k) = elim (Bool-cases (qtype == 28)) [
  | inl d ↦ rw (d, e, k d)
  | inr d ↦ rw (d, e)
]

-- A query is forwarded exactly when its name has no IPv4 address here and, if it asks for an AAAA record, no
-- IPv6 address either. So a name that has only an IPv6 address is forwarded when an A record is asked for.
pub decide_forward_iff :
    (records records_v6 : List (Text × Text)) (searches : List (Text × List Text)) (peer : Text)
    (name : Option Text) (qtype : ℕ)
    → (decide qtype
          (resolve_name records searches peer name)
          (resolve_name records_v6 searches peer name)
        ≡ forward)
      ↔ Unknown qtype
          (resolve_name records searches peer name)
          (resolve_name records_v6 searches peer name)
decide_forward_iff records records_v6 searches peer name qtype =
    (forward-Unknown qtype _ _, Unknown-forward qtype _ _)
