-- ===== src/Util/Ignore/Verdict.antt =====
-- The last matching pattern decides.
use ingot_engine.Base.{
  ◌≡◌, ◌↔◌, ◌⊎◌, refl, sym, ap, ◌∙◌, Bool, true, false, not, Option, none, some, List, [], ◌∷◌,
  ◌++◌, if◌then◌else◌, All, Bool-cases, inl, inr, arith,
}
use mathlib.Core.Path.{subst}
use ingot_engine.Base.Text.{Text, split, is_empty}
use ingot_engine.Util.Ignore.Parse.{Pattern}
use ingot_engine.Util.Ignore.{matches, last_verdict, is_excluding, is_excluded, trim_dot_slash}

-- `p` matches, and no pattern behind it does.
pub record Decides (p : Pattern) (patterns : List Pattern) (comps : List Text) (is_dir : Bool)
    : Type 0 where
  pub before : List Pattern
  pub after : List Pattern
  pub splits : patterns ≡ before ++ p ∷ after
  pub hit : matches p comps is_dir ≡ true
  pub no_later : All (λ q. matches q comps is_dir ≡ false) after

module _ (comps : List Text) (is_dir : Bool) where
  abbrev NoMatch : List Pattern → Type 0
  NoMatch ps = All (λ q. matches q comps is_dir ≡ false) ps

  -- With no match the verdict stays as it was; else the deciding pattern gives it.
  abbrev Verdict : Option Bool → List Pattern → Option Bool → Type 0
  Verdict v ps r =
      (NoMatch ps × (r ≡ v)) ⊎ ((p : Pattern) × Decides p ps comps is_dir × (r ≡ some p.negated))

  Verdict-cons :
      (q : Pattern) (v w : Option Bool) (ps : List Pattern) (r : Option Bool)
      → ((matches q comps is_dir ≡ false) × (w ≡ v))
        ⊎ ((matches q comps is_dir ≡ true) × (w ≡ some q.negated))
      → Verdict w ps r
      → Verdict v (q ∷ ps) r
  Verdict-cons q v w ps r (inl (miss, e)) (inl (no_match, o)) = inl ((miss, no_match), o ∙ e)
  Verdict-cons q v w ps r (inr (hit, e)) (inl (no_match, o)) =
      inr (
        q,
        record { before = []; after = ps; splits = refl; hit = hit; no_later = no_match },
        o ∙ e,
      )
  Verdict-cons q v w ps r how (inr (p, d, o)) = inr (
    p,
    record {
      before = q ∷ d.before;
      after = d.after;
      splits = ap (◌∷◌ q) d.splits;
      hit = d.hit;
      no_later = d.no_later;
    },
    o,
  )

  last_verdict_hit :
      (q : Pattern) (ps : List Pattern) (v : Option Bool)
      → matches q comps is_dir ≡ true
      → last_verdict v (q ∷ ps) comps is_dir ≡ last_verdict (some q.negated) ps comps is_dir
  unfolding last_verdict
  last_verdict_hit q ps v hit = rw hit

  last_verdict_miss :
      (q : Pattern) (ps : List Pattern) (v : Option Bool)
      → matches q comps is_dir ≡ false
      → last_verdict v (q ∷ ps) comps is_dir ≡ last_verdict v ps comps is_dir
  unfolding last_verdict
  last_verdict_miss q ps v miss = rw miss

  last_verdict_next :
      (q : Pattern) (ps : List Pattern) (v : Option Bool)
      → last_verdict v (q ∷ ps) comps is_dir
        ≡ last_verdict (if matches q comps is_dir then some q.negated else v) ps comps is_dir
  unfolding last_verdict
  last_verdict_next q ps v = refl

  last_verdict-Verdict :
      (ps : List Pattern) (v : Option Bool) → Verdict v ps (last_verdict v ps comps is_dir)
  last_verdict-Verdict [] v = inl (tt, unfold last_verdict in refl)
  last_verdict-Verdict (q ∷ ps) v = elim (Bool-cases (matches q comps is_dir)) [
    | inl hit ↦ subst (Verdict v (q ∷ ps)) (sym (last_verdict_hit q ps v hit)) (
        Verdict-cons q v (some q.negated) ps _ (inr (hit, refl))
          (last_verdict-Verdict ps (some q.negated)))
    | inr miss ↦
        subst (Verdict v (q ∷ ps)) (sym (last_verdict_miss q ps v miss))
          (Verdict-cons q v v ps _ (inl (miss, refl)) (last_verdict-Verdict ps v))
  ]

  last_verdict-NoMatch :
      (ps : List Pattern) (v : Option Bool) → NoMatch ps → last_verdict v ps comps is_dir ≡ v
  last_verdict-NoMatch [] v t = unfold last_verdict in refl
  last_verdict-NoMatch (q ∷ ps) v (miss, t) =
      last_verdict_miss q ps v miss ∙ last_verdict-NoMatch ps v t

  last_verdict-append :
      (before : List Pattern) (p : Pattern) (after : List Pattern) (v : Option Bool)
      → matches p comps is_dir ≡ true
      → NoMatch after
      → last_verdict v (before ++ p ∷ after) comps is_dir ≡ some p.negated
  last_verdict-append [] p after v hit t =
      last_verdict_hit p after v hit ∙ last_verdict-NoMatch after (some p.negated) t
  last_verdict-append (q ∷ before) p after v hit t =
      last_verdict_next q (before ++ p ∷ after) v
      ∙ last_verdict-append before p after (if matches q comps is_dir then some q.negated else v)
          hit t

  excluding-Decides :
      (ps : List Pattern) (r : Option Bool)
      → Verdict none ps r
      → is_excluding r ≡ true
      → (p : Pattern) × Decides p ps comps is_dir × (p.negated ≡ false)
  excluding-Decides ps r (inl (no_match, e)) h = cc (rw e at h)
  excluding-Decides ps r (inr (p, d, e)) h =
      let kept : not p.negated ≡ true = rw e at h in (p, d, ground arith)

  Decides-excluding :
      (ps : List Pattern) (p : Pattern)
      → Decides p ps comps is_dir
      → p.negated ≡ false
      → is_excluding (last_verdict none ps comps is_dir) ≡ true
  Decides-excluding ps p d n =
      rw (d.splits, last_verdict-append d.before p d.after none d.hit d.no_later, n)

-- A path that is not empty is excluded exactly when the last pattern that matches it is not negated.
pub is_excluded_iff :
    (patterns : List Pattern) (path : Text) (is_dir : Bool)
    → is_empty (trim_dot_slash path) ≡ false
    → (is_excluded patterns path is_dir ≡ true) ↔ (
        (p : Pattern) × Decides p patterns (split b'/' (trim_dot_slash path)) is_dir
        × (p.negated ≡ false))
unfolding is_excluded
is_excluded_iff patterns path is_dir full =
    let comps = split b'/' (trim_dot_slash path) in
    rw full (
      excluding-Decides comps is_dir patterns _ (last_verdict-Verdict comps is_dir patterns none),
      λ (p, d, n). Decides-excluding comps is_dir patterns p d n,
    )
