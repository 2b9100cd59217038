-- ===== src/Network/Publish/Race.antt =====
-- Two calls of `publish_port` that interleave: the second look does not ask for collisions again.
use ingot_engine.Base.{
  ◌≡◌, ◌∙◌, refl, ap, true, false, List, [], ◌∷◌, ◌++◌, any, arith, Bool-cases, inl, inr,
  if◌then◌else◌, Outcome, ok, err, panic,
}
use ingot_engine.Base.Text.{same_self}
use ingot_engine.Base.Text.Split.{any-append}
use ingot_engine.Network.Publish.{
  PortRule, Ports, Host, PublishError, Check, already, clear, taken, same_rule, clashes,
  check_publish, prepare, commit,
}
use ingot_engine.Network.Publish.Apart.{Apart, prepare-Kept, clashes_sym}

-- A call runs up to its second look, or from there to its end.
pub data Move : Type 0 where
  look finish : PortRule → Move

-- The ports, and the rules of the calls that stand before their second look.
pub record Calls : Type 0 where
  pub ports : Ports
  pub waiting : List PortRule

-- Where the host turns a call down, the call ends with its error.
abbrev pub waits : PortRule → List PortRule → Outcome PublishError (Unit {0}) × Ports → Calls
waits rule waiting (ok done, s) = record { ports = s; waiting = rule ∷ waiting }
waits rule waiting (err e, s) = record { ports = s; waiting = waiting }
waits rule waiting (panic, s) = record { ports = s; waiting = waiting }

-- So does a call that the first look turns away, or that has nothing to do.
abbrev half : Host → PortRule → Check → Calls → Calls
half host rule already c = c
half host rule (taken e) c = c
half host rule clear c = waits rule c.waiting (prepare host rule c.ports)

-- Only a call that waits has a second half.
unfoldable pub play : Host → List Move → Calls → Calls
play host [] c = c
play host (look rule ∷ ms) c =
    play host ms (half host rule (check_publish rule c.ports.published) c)
play host (finish rule ∷ ms) c =
    if any (λ r. same_rule r rule) c.waiting
    then play host ms (record c { ports = commit rule c.ports })
    else play host ms c

check_publish-new :
    (rule : PortRule) (rs : List PortRule)
    → check_publish rule rs ≡ clear
    → any (λ r. same_rule r rule) rs ≡ false
unfolding check_publish
check_publish-new rule rs e = elim (Bool-cases (any (λ r. same_rule r rule) rs)) [
  | inl h ↦ let here = rw h at e in cc
  | inr h ↦ h
]

commit-new :
    (rule : PortRule) (s : Ports)
    → any (λ r. same_rule r rule) s.published ≡ false
    → (commit rule s).published ≡ s.published ++ rule ∷ []
unfolding commit
commit-new rule s h = rw h refl

clashes-new :
    (first second : PortRule) → clashes second first ≡ true → same_rule first second ≡ false
unfolding same_rule
clashes-new first second h = ground arith

Apart-last :
    (rs : List PortRule) (first second : PortRule)
    → Apart (rs ++ first ∷ [] ++ second ∷ [])
    → clashes first second ≡ false
Apart-last [] first second a = a.0.0
Apart-last (r ∷ rs) first second a = Apart-last rs first second a.1

same_rule_self : (r : PortRule) → same_rule r r ≡ true
unfolding same_rule
same_rule_self r = ground (
  arith,
  same_self r.container_id,
  same_self r.proto,
  same_self r.host_ip,
  same_self r.container_ip,
)

-- The call got to its second look.
abbrev pub Accepts : Host → PortRule → Ports → Type 0
Accepts host rule s = (check_publish rule s.published ≡ clear) × ((prepare host rule s).0 ≡ ok tt)

look-waits :
    (host : Host) (rule : PortRule) (ms : List Move) (c : Calls)
    → Accepts host rule c.ports
    → play host (look rule ∷ ms) c
      ≡ play host ms (record { ports = (prepare host rule c.ports).1; waiting = rule ∷ c.waiting })
unfolding play
look-waits host rule ms c (e, f) =
    ap (λ x. play host ms (half host rule x c)) e
    ∙ ap (λ x. play host ms (waits rule c.waiting (x, (prepare host rule c.ports).1))) f

finish-commits :
    (host : Host) (rule : PortRule) (ms : List Move) (c : Calls)
    → any (λ r. same_rule r rule) c.waiting ≡ true
    → play host (finish rule ∷ ms) c ≡ play host ms (record c { ports = commit rule c.ports })
unfolding play
finish-commits host rule ms c e = rw (e, play) refl

module _ (host : Host) (first second : PortRule) (s : Ports) (first_accepted : Accepts host first s)
    (second_accepted : Accepts host second (prepare host first s).1)
    (meet : clashes second first ≡ true) where
  abbrev prepared : Ports
  prepared = (prepare host second (prepare host first s).1).1

  play-commits :
      (play host
        (look first ∷ look second ∷ finish first ∷ finish second ∷ [])
        (record { ports = s; waiting = [] })).ports
      ≡ commit second (commit first prepared)
  unfolding any play
  play-commits =
      let start : Calls = record { ports = s; waiting = [] } in
      let one : Calls = record { ports = (prepare host first s).1; waiting = first ∷ [] } in
      let two : Calls = record { ports = prepared; waiting = second ∷ first ∷ [] } in
      let three : Calls = record two { ports = commit first prepared } in
      ap (λ c. c.ports)
        (look-waits host first (look second ∷ finish first ∷ finish second ∷ []) start
            first_accepted
          ∙ look-waits host second (finish first ∷ finish second ∷ []) one second_accepted
          ∙ finish-commits host first (finish second ∷ []) two
              (ground (arith, same_rule_self first))
          ∙ finish-commits host second [] three (ground (arith, same_rule_self second)))

  play-both :
      (commit second (commit first prepared)).published ≡ s.published ++ first ∷ [] ++ second ∷ []
  unfolding any
  play-both =
      let first_kept = (prepare-Kept host first s).0 in
      let second_kept = (prepare-Kept host second (prepare host first s).1).0 in
      let same_rules : prepared.published ≡ s.published = second_kept ∙ first_kept in
      let second_clear : check_publish second s.published ≡ clear =
        rw first_kept at second_accepted.0 in
      let pushed : (commit first prepared).published ≡ s.published ++ first ∷ [] =
        commit-new first prepared
          (rw same_rules (check_publish-new first s.published first_accepted.0))
        ∙ ap (λ x. x ++ first ∷ []) same_rules in
      let unseen : any (λ r. same_rule r second) (s.published ++ first ∷ []) ≡ false =
        any-append (λ r. same_rule r second) s.published (first ∷ [])
        ∙ ground (
          arith,
          check_publish-new second s.published second_clear,
          clashes-new first second meet,
        ) in
      commit-new second (commit first prepared) (rw pushed unseen)
      ∙ ap (λ x. x ++ second ∷ []) pushed

  -- Two rules of two containers that collide, neither of which collides with what is published, and a host
  -- that lets both calls through to their second look: when both look before either finishes, both rules end
  -- up published, against what `publish_port` is for.
  pub play-not_Apart :
      ¬ Apart
        (play host
          (look first ∷ look second ∷ finish first ∷ finish second ∷ [])
          (record { ports = s; waiting = [] })).ports.published
  play-not_Apart a =
      let both = ap (λ p. p.published) play-commits ∙ play-both in
      let last = Apart-last s.published first second (rw both at a) in
      absurd (ground (arith, clashes_sym first second))
