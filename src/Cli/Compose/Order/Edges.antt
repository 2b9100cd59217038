-- ===== src/Cli/Compose/Order/Edges.antt =====
-- The graph that `topological_sort` builds: an edge for every dependency that is a service of the project.
use ingot_engine.Base.{
  ℕ, ◌≡◌, ◌∙◌, refl, ap, ◌+◌, ◌≤◌, true, ◌&&◌, List, [], ◌∷◌, ◌++◌, ◌==◌, if◌then◌else◌, any, keep,
  length, map, arith, Bool-cases, inl, inr, length-append,
}
use ingot_engine.Base.Maps.{lookup, insert, lookup-insert}
use ingot_engine.Base.Text.{Text, same, same_iff}
use ingot_engine.Cli.Compose.{
  Services, deps_of, names, contains, Graph, degree, neighbors, no_edges, add_edge, add_deps,
  add_services, graph_of, roots, or_zero,
}
use ingot_engine.Cli.Compose.Order.Count.{count, count-append, contains-count, degree-insert}

-- Everything that the entries of the name depend on.
abbrev pub all_deps : Services → Text → List Text
all_deps [] n = []
all_deps ((name, cfg) ∷ services) n =
    if same name n then deps_of cfg ++ all_deps services n else all_deps services n

-- Those of the dependencies that are services.
abbrev pub inside : List Text → List Text → List Text
inside known = keep (λ d. contains d known)

neighbors-add_edge :
    (dep name d : Text) (g : Graph)
    → neighbors (add_edge dep name g) d
      ≡ (if same dep d then neighbors g dep ++ name ∷ [] else neighbors g d)
neighbors-add_edge dep name d g = rw lookup-insert (ground arith)

module _ (known : List Text) where
  neighbors-add_deps :
      (name : Text) (deps : List Text) (g : Graph) (d n : Text)
      → count n (neighbors (add_deps known name deps g) d)
        ≡ count n (neighbors g d) + (if same n name && contains d known then count d deps else 0)
  unfolding add_deps
  neighbors-add_deps name [] g d n = ground arith
  neighbors-add_deps name (dep ∷ deps) g d n = elim (Bool-cases (contains dep known)) [
    | inl h ↦
        rw (h, add_deps)
          (neighbors-add_deps name deps (add_edge dep name g) d n
            ∙ rw neighbors-add_edge (elim (Bool-cases (same dep d)) [
              | inl e ↦
                  let met : dep ≡ d = (same_iff dep d).0 e in
                  rw e (
                    ground (
                      arith,
                      count-append n (neighbors g dep) (name ∷ []),
                      ap (neighbors g) met,
                      ap (λ x. contains x known) met,
                      same_iff dep d,
                      same_iff d dep,
                    ))
              | inr e ↦ rw e (ground (arith, same_iff dep d, same_iff d dep))
            ]))
    | inr h ↦ rw (h, add_deps) (neighbors-add_deps name deps g d n ∙ ground (arith, same_iff d dep))
  ]

  degree-add_deps :
      (name : Text) (deps : List Text) (g : Graph) (n : Text)
      → degree (add_deps known name deps g) n
        ≡ degree g n + (if same n name then length (inside known deps) else 0)
  unfolding add_deps keep
  degree-add_deps name [] g n = ground arith
  degree-add_deps name (dep ∷ deps) g n = elim (Bool-cases (contains dep known)) [
    | inl h ↦
        rw (h, add_deps)
          (degree-add_deps name deps (add_edge dep name g) n
            ∙ ground (
              arith,
              degree-insert name n (degree g name + 1) g,
              same_iff name n,
              same_iff n name,
            ))
    | inr h ↦ rw (h, add_deps) (degree-add_deps name deps g n)
  ]

  inside-append : (xs ys : List Text) → inside known (xs ++ ys) ≡ inside known xs ++ inside known ys
  unfolding keep
  inside-append [] ys = refl
  inside-append (x ∷ xs) ys = elim (Bool-cases (contains x known)) [
    | inl h ↦ rw h (ap (λ zs. x ∷ zs) (inside-append xs ys))
    | inr h ↦ rw h (inside-append xs ys)
  ]

  neighbors-add_services :
      (services : Services) (g : Graph) (d n : Text)
      → count n (neighbors (add_services known services g) d)
        ≡ count n (neighbors g d) + (if contains d known then count d (all_deps services n) else 0)
  unfolding add_services
  neighbors-add_services [] g d n = ground arith
  neighbors-add_services ((name, cfg) ∷ services) g d n =
      neighbors-add_services services (add_deps known name (deps_of cfg) g) d n
      ∙ ground (
        arith,
        neighbors-add_deps name (deps_of cfg) g d n,
        count-append d (deps_of cfg) (all_deps services n),
        same_iff name n,
        same_iff n name,
      )

  degree-add_services :
      (services : Services) (g : Graph) (n : Text)
      → degree (add_services known services g) n
        ≡ degree g n + length (inside known (all_deps services n))
  unfolding add_services keep
  degree-add_services [] g n = omega arith
  degree-add_services ((name, cfg) ∷ services) g n =
      let rest = degree-add_services services (add_deps known name (deps_of cfg) g) n in
      let here = degree-add_deps name (deps_of cfg) g n in
      elim (Bool-cases (same name n)) [
        | inl e ↦ rw e (
            rest
            ∙ ground (
              arith,
              here,
              same_iff name n,
              same_iff n name,
              ap length (inside-append (deps_of cfg) (all_deps services n)),
              length-append (inside known (deps_of cfg)) (inside known (all_deps services n)),
            ))
        | inr e ↦ rw e (rest ∙ ground (arith, here, same_iff name n, same_iff n name))
      ]

degree-no_edges : (ns : List Text) (n : Text) → degree (no_edges ns) n ≡ 0
unfolding no_edges lookup
degree-no_edges [] n = refl
degree-no_edges (m ∷ ns) n = ground (arith, degree-no_edges ns n)

neighbors-no_edges : (ns : List Text) (n : Text) → neighbors (no_edges ns) n ≡ []
unfolding no_edges lookup
neighbors-no_edges [] n = refl
neighbors-no_edges (m ∷ ns) n = ground (arith, neighbors-no_edges ns n)

-- The edges from a service lead to what names it as a dependency.
pub neighbors-graph_of :
    (services : Services) (d n : Text)
    → count n (neighbors (graph_of services) d)
      ≡ (if contains d (names services) then count d (all_deps services n) else 0)
unfolding graph_of
neighbors-graph_of services d n =
    neighbors-add_services (names services) services (no_edges (names services)) d n
    ∙ rw neighbors-no_edges (ground arith)

pub degree-graph_of :
    (services : Services) (n : Text)
    → degree (graph_of services) n ≡ length (inside (names services) (all_deps services n))
unfolding graph_of
degree-graph_of services n =
    degree-add_services (names services) services (no_edges (names services)) n
    ∙ omega (arith, degree-no_edges (names services) n)

abbrev keys : {V : Type 0} → List (Text × V) → List Text
keys m = map (λ x. x.0) m

keys-insert :
    {V : Type 0} (k : Text) (v : V) (m : List (Text × V))
    → contains k (keys m) ≡ true
    → keys (insert k v m) ≡ keys m
unfolding insert any
keys-insert k v [] h = cc
keys-insert k v ((j, w) ∷ m) h = elim (Bool-cases (same j k)) [
  | inl e ↦ rw e refl
  | inr e ↦
      rw e (ap (λ ks. j ∷ ks) (keys-insert k v m (ground (arith, same_iff j k, same_iff k j))))
]

keys-add_deps :
    (known : List Text) (name : Text) (deps : List Text) (g : Graph)
    → contains name (keys g.in_degree) ≡ true
    → keys (add_deps known name deps g).in_degree ≡ keys g.in_degree
unfolding add_deps
keys-add_deps known name [] g h = refl
keys-add_deps known name (dep ∷ deps) g h = elim (Bool-cases (contains dep known)) [
  | inl e ↦
      let kept = keys-insert name (degree g name + 1) g.in_degree h in
      rw (e, add_deps) (keys-add_deps known name deps (add_edge dep name g) (rw kept h) ∙ kept)
  | inr e ↦ rw (e, add_deps) (keys-add_deps known name deps g h)
]

keys-add_services :
    (known : List Text) (services : Services) (g : Graph)
    → ((n : Text) → contains n (names services) ≡ true → contains n (keys g.in_degree) ≡ true)
    → keys (add_services known services g).in_degree ≡ keys g.in_degree
unfolding add_services any
keys-add_services known [] g h = refl
keys-add_services known ((name, cfg) ∷ services) g h =
    let kept =
      keys-add_deps known name (deps_of cfg) g (h name (ground (arith, same_iff name name))) in
    keys-add_services known services (add_deps known name (deps_of cfg) g)
      (λ n c. rw kept (h n (ground arith)))
    ∙ kept

keys-no_edges : (ns : List Text) → keys (no_edges ns).in_degree ≡ ns
unfolding no_edges
keys-no_edges [] = refl
keys-no_edges (n ∷ ns) = ap (λ ks. n ∷ ks) (keys-no_edges ns)

count-zeros :
    (m : List (Text × ℕ)) (n : Text)
    → ((k : Text) → count k (keys m) ≤ 1)
    → count n (keys (keep (λ x. x.1 == 0) m))
      ≡ (if contains n (keys m) && or_zero (lookup n m) == 0 then 1 else 0)
unfolding keep lookup any
count-zeros [] n once = refl
count-zeros ((j, w) ∷ m) n once =
    let here = once n in
    let rest = count-zeros m n (λ k. omega (arith, once k)) in
    ground (arith, same_iff j n, same_iff n j, contains-count n (keys m))

-- Every service that depends on no other is queued first, once.
pub count-roots :
    (services : Services) (n : Text)
    → ((k : Text) → count k (names services) ≤ 1)
    → count n (roots (graph_of services))
      ≡ (if contains n (names services) && degree (graph_of services) n == 0 then 1 else 0)
unfolding graph_of
count-roots services n once =
    let g = no_edges (names services) in
    let made : keys (graph_of services).in_degree ≡ names services =
      keys-add_services (names services) services g (λ k c. rw (keys-no_edges (names services)) c)
      ∙ keys-no_edges (names services) in
    count-zeros (graph_of services).in_degree n (λ k. rw made (once k)) ∙ rw made refl
