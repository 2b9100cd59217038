-- ===== src/Network/Publish/Removal.antt =====
-- `unpublish_all` withdraws what one container published and touches nothing else.
use ingot_engine.Base.{
  ◌≡◌, ◌≢◌, ◌∙◌, refl, ap, Bool, true, false, not, ◌&&◌, List, [], ◌∷◌, ◌++◌, any, keep, elem,
  arith, Bool-cases, inl, inr, ◌⊎◌, ◌↔◌, map,
}
use ingot_engine.Base.Text.{Text, same, same_iff, starts_with, strip_prefix}
use ingot_engine.Network.Publish.{
  PortRule, Ports, Effect, delete_dnat, delete_forward, stop_proxy, dnat_destination, proxy_key,
  is_of, has_handle_of, published_for, withdraw_all, unpublish_all,
}

keep-neither :
    (p q : PortRule → Bool) (rs : List PortRule)
    → ((r : PortRule) → q r ≡ true → p r ≡ false)
    → keep p (keep q rs) ≡ []
unfolding keep
keep-neither p q [] h = refl
keep-neither p q (r ∷ rs) h = elim (Bool-cases (q r)) [
  | inl g ↦ rw (g, h r g) (keep-neither p q rs h)
  | inr g ↦ rw g (keep-neither p q rs h)
]

keep-both :
    (p q : PortRule → Bool) (rs : List PortRule)
    → ((r : PortRule) → p r ≡ true → q r ≡ true)
    → keep p (keep q rs) ≡ keep p rs
unfolding keep
keep-both p q [] h = refl
keep-both p q (r ∷ rs) h = elim (Bool-cases (p r)) [
  | inl g ↦ rw (h r g, g) (ap (λ x. r ∷ x) (keep-both p q rs h))
  | inr g ↦ elim (Bool-cases (q r)) [
    | inl k ↦ rw (g, k, g) (keep-both p q rs h)
    | inr k ↦ rw (g, k) (keep-both p q rs h)
  ]
]

-- A mark behind a text that does not hold it tells the text.
starts_with-marked :
    (a b rest : Text) (c : _)
    → elem c a ≡ false
    → elem c b ≡ false
    → starts_with (a ++ c ∷ []) (b ++ c ∷ rest) ≡ same a b
unfolding starts_with strip_prefix same elem
starts_with-marked [] [] rest c ha hb = ground arith
starts_with-marked [] (y ∷ b) rest c ha hb = ground arith
starts_with-marked (x ∷ a) [] rest c ha hb = ground arith
starts_with-marked (x ∷ a) (y ∷ b) rest c ha hb = ground (arith, starts_with-marked a b rest c)

contains-keep_key :
    (k : Text) (p : Text → Bool) (ks : List Text)
    → any (same k) (keep p ks) ≡ (any (same k) ks && p k)
unfolding any keep
contains-keep_key k p [] = refl
contains-keep_key k p (x ∷ ks) = ground (arith, contains-keep_key k p ks, same_iff k x, ap p)

key_of :
    (id : Text) (r : PortRule)
    → elem b'|' id ≡ false
    → elem b'|' r.container_id ≡ false
    → starts_with (id ++ b'|' ∷ []) (proxy_key r) ≡ is_of id r
unfolding proxy_key
key_of id r bare plain =
    starts_with-marked id r.container_id _ b'|' bare plain
    ∙ ground (arith, same_iff id r.container_id, same_iff r.container_id id)

abbrev pub Among : {A : Type 0} → A → List A → Type 0
Among x [] = ⊥
Among x (y ∷ ys) = (x ≡ y) ⊎ Among x ys

module _ {A : Type 0} (x : A) where
  Among-append : (xs ys : List A) → Among x (xs ++ ys) ↔ (Among x xs ⊎ Among x ys)
  Among-append [] ys = (λ m. inr m, λ m. elim m [ inl n ↦ absurd n | inr n ↦ n ])
  Among-append (y ∷ xs) ys =
      let rest = Among-append xs ys in
      (
        λ m. elim m [
          | inl e ↦ inl (inl e)
          | inr n ↦ elim (rest.0 n) [ inl l ↦ inl (inr l) | inr r ↦ inr r ]
        ],
        λ m. elim m [
          | inl n ↦ elim n [ inl e ↦ inl e | inr l ↦ inr (rest.1 (inl l)) ]
          | inr r ↦ inr (rest.1 (inr r))
        ],
      )

-- A proxy of the container is told to stop.
abbrev pub Stops : Text → Ports → Effect → Type 0
Stops id s e =
    (k : Text) × Among k s.proxy_handles
    × (starts_with (id ++ b'|' ∷ []) k ≡ true)
    × (e ≡ stop_proxy k)

-- A command deletes what publishing a rule of the container appended.
abbrev pub Deletes : Text → Ports → Effect → Type 0
Deletes id s e =
    (r : PortRule) × Among r s.published
    × (same r.container_id id ≡ true)
    × ((e ≡ delete_dnat (dnat_destination r) r) ⊎ (e ≡ delete_forward r))

stopped :
    (id : Text) (e : Effect) (ks : List Text)
    → Among e (map stop_proxy (keep (has_handle_of id) ks))
      ↔ ((k : Text) × Among k ks × (starts_with (id ++ b'|' ∷ []) k ≡ true) × (e ≡ stop_proxy k))
unfolding keep
stopped id e [] = (λ m. absurd m, λ (k, m, p, q). absurd m)
stopped id e (k ∷ ks) =
    let rest = stopped id e ks in
    elim (Bool-cases (has_handle_of id k)) [
      | inl h ↦ rw h (
        λ m. elim m [
          | inl q ↦ (k, inl refl, h, q)
          | inr n ↦ let (j, m, p, q) = rest.0 n in (j, inr m, p, q)
        ],
        λ (j, m, p, q). elim m [
          | inl same_key ↦ inl (q ∙ ap stop_proxy same_key)
          | inr n ↦ inr (rest.1 (j, n, p, q))
        ],
      )
      | inr h ↦ rw h (
        λ n. let (j, m, p, q) = rest.0 n in (j, inr m, p, q),
        λ (j, m, p, q). elim m [
          | inl same_key ↦ absurd (cc (h, p, ap (has_handle_of id) same_key))
          | inr n ↦ rest.1 (j, n, p, q)
        ],
      )
    ]

deleted :
    (id : Text) (e : Effect) (rs : List PortRule)
    → Among e (withdraw_all (keep (is_of id) rs)) ↔ (
        (r : PortRule) × Among r rs
        × (same r.container_id id ≡ true)
        × ((e ≡ delete_dnat (dnat_destination r) r) ⊎ (e ≡ delete_forward r)))
unfolding keep withdraw_all
deleted id e [] = (λ m. absurd m, λ (r, m, p, q). absurd m)
deleted id e (r ∷ rs) =
    let rest = deleted id e rs in
    elim (Bool-cases (is_of id r)) [
      | inl h ↦ rw h (
        λ m. elim m [
          | inl q ↦ (r, inl refl, h, inl q)
          | inr n ↦ elim n [
            | inl q ↦ (r, inl refl, h, inr q)
            | inr o ↦ let (j, m, p, q) = rest.0 o in (j, inr m, p, q)
          ]
        ],
        λ (j, m, p, q). elim m [
          | inl same_rule ↦ elim q [
            | inl d ↦ inl (d ∙ ap (λ x. delete_dnat (dnat_destination x) x) same_rule)
            | inr f ↦ inr (inl (f ∙ ap delete_forward same_rule))
          ]
          | inr n ↦ inr (inr (rest.1 (j, n, p, q)))
        ],
      )
      | inr h ↦ rw h (
        λ n. let (j, m, p, q) = rest.0 n in (j, inr m, p, q),
        λ (j, m, p, q). elim m [
          | inl same_rule ↦ absurd (cc (h, p, ap (is_of id) same_rule))
          | inr n ↦ rest.1 (j, n, p, q)
        ],
      )
    ]

effects_lem :
    (id : Text) (s : Ports) (e : Effect)
    → Among e (unpublish_all id s).effects ↔ ((Among e s.effects ⊎ Stops id s e) ⊎ Deletes id s e)
unfolding unpublish_all
effects_lem id s e =
    let stops = map stop_proxy (keep (has_handle_of id) s.proxy_handles) in
    let whole = Among-append e (s.effects ++ stops) (withdraw_all (keep (is_of id) s.published)) in
    let front = Among-append e s.effects stops in
    let stop = stopped id e s.proxy_handles in
    let delete = deleted id e s.published in
    (
      λ m. elim (whole.0 m) [
        | inl n ↦ elim (front.0 n) [ inl o ↦ inl (inl o) | inr o ↦ inl (inr (stop.0 o)) ]
        | inr n ↦ inr (delete.0 n)
      ],
      λ m. elim m [
        | inl n ↦ elim n [
          | inl o ↦ whole.1 (inl (front.1 (inl o)))
          | inr o ↦ whole.1 (inl (front.1 (inr (stop.1 o))))
        ]
        | inr n ↦ whole.1 (inr (delete.1 n))
      ],
    )

-- One container's rules and handles are gone; every other rule is there, and the handle of every rule
-- of another container whose id has no bar. What was done beside: the stops and the deletes.
pub record Withdrawn (container_id : Text) (before after : Ports) : Type 0 where
  pub mine : published_for container_id after ≡ []
  pub others : (id : Text) → id ≢ container_id → published_for id after ≡ published_for id before
  pub handles :
      (r : PortRule)
      → elem b'|' r.container_id ≡ false
      → any (same (proxy_key r)) after.proxy_handles
        ≡ (any (same (proxy_key r)) before.proxy_handles && not (is_of container_id r))
  pub done :
      (e : Effect)
      → Among e after.effects
        ↔ ((Among e before.effects ⊎ Stops container_id before e) ⊎ Deletes container_id before e)

-- For an id without a bar, `unpublish_all` withdraws the container's rules and keeps those of every other
-- container in their order. It tells exactly the proxies whose handles begin with the id and a bar to stop,
-- and deletes from the firewall exactly what publishing the container's rules appended. Of the rules whose
-- container ids have no bar, the handles that are left are those of the other containers.
pub unpublish_all-Withdrawn :
    (container_id : Text) (s : Ports)
    → elem b'|' container_id ≡ false
    → Withdrawn container_id s (unpublish_all container_id s)
unfolding unpublish_all published_for
unpublish_all-Withdrawn id s bare = record {
  mine = keep-neither (is_of id) (λ r. not (is_of id r)) s.published (λ r h. ground arith);
  others = λ other ne.
      keep-both (is_of other) (λ r. not (is_of id r)) s.published
        (λ r h. ground (arith, same_iff r.container_id other, same_iff r.container_id id));
  handles = λ r plain.
      contains-keep_key (proxy_key r) (λ k. not (has_handle_of id k)) s.proxy_handles
      ∙ ap (λ b. any (same (proxy_key r)) s.proxy_handles && not b) (key_of id r bare plain);
  done = effects_lem id s;
}
