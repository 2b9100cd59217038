-- ===== src/Cli/Compose/Order/Drained.antt =====
-- The loop of `topological_sort`: what holds of the queue and the in-degrees in each round, and what
-- the rounds push.
use ingot_engine.Base.{
  ℕ, zero, suc, ◌≡◌, ◌∙◌, refl, sym, ◌+◌, ◌-◌, ◌≤◌, Bool, true, false, not, ◌&&◌, ◌||◌, Option,
  none, some, List, [], ◌∷◌, ◌==◌, if◌then◌else◌, any, keep, length, arith, Bool-cases, inl, inr,
}
use ingot_engine.Base.Text.{Text, same, same_iff, same_self}
use ingot_engine.Cli.Compose.{
  Services, names, contains, Graph, degree, neighbors, sort, pop, relax, drain_from, drain,
  graph_of, roots,
}
use ingot_engine.Cli.Compose.Order.Count.{
  count, count-sort, Popped, pop-Popped, relax-adj, degree-relax, count-relax,
}
use ingot_engine.Cli.Compose.Order.Edges.{
  all_deps, inside, neighbors-graph_of, degree-graph_of, count-roots,
}

module _ (services : Services) where
  abbrev waits : List Text → Text → Bool
  waits seen d = contains d (names services) && not (contains d seen)

  -- The dependencies of `n` that have not been pushed.
  abbrev pending : List Text → Text → ℕ
  pending seen n = length (keep (waits seen) (all_deps services n))

  pub record IsDraining (seen queue : List Text) (g : Graph) : Type 0 where
    pub edges :
        (d n : Text)
        → count n (neighbors g d)
          ≡ (if contains d (names services) then count d (all_deps services n) else 0)
    pub degrees : (n : Text) → degree g n ≡ pending seen n
    pub settled : (n : Text) → contains n seen ≡ true → degree g n ≡ 0
    pub ready :
        (n : Text)
        → count n queue ≡ (
            if contains n (names services) && degree g n == 0 && not (contains n seen)
            then 1
            else 0)

  keep-push :
      (seen : List Text) (node : Text) (ds : List Text)
      → waits seen node ≡ true
      → length (keep (waits seen) ds) ≡ length (keep (waits (node ∷ seen)) ds) + count node ds
  unfolding keep any
  keep-push seen node [] w = omega arith
  keep-push seen node (d ∷ ds) w =
      ground (arith, keep-push seen node ds w, same_iff d node, same_iff node d)

  all_deps-unknown :
      (ss : Services) (n d : Text) → contains n (names ss) ≡ false → count d (all_deps ss n) ≡ 0
  unfolding any
  all_deps-unknown [] n d h = refl
  all_deps-unknown ((name, cfg) ∷ ss) n d h =
      ground (arith, all_deps-unknown ss n d, same_iff name n, same_iff n name)

  module _ (seen queue rest : List Text) (g : Graph) (node : Text) (inv : IsDraining seen queue g)
      (popped : Popped queue (some (rest, node))) where
    node-ready :
        (contains node (names services) ≡ true)
        × (degree g node ≡ 0)
        × (contains node seen ≡ false)
        × ((n : Text) → count n rest ≡ count n queue - (if same n node then 1 else 0))
    node-ready =
        let here = inv.ready node in
        let one = popped node in
        (
          ground (arith, same_self node),
          ground (arith, same_self node),
          ground (arith, same_self node),
          λ n. omega (arith, popped n),
        )

    abbrev relaxed : List Text × Graph
    relaxed = relax (neighbors g node) rest g

    loses : (n : Text) → count n (neighbors g node) ≡ count node (all_deps services n)
    loses n = let (known, zero_in, fresh, left) = node-ready in rw (inv.edges, known) refl

    pushed :
        (n : Text) → pending seen n ≡ pending (node ∷ seen) n + count node (all_deps services n)
    pushed n =
        let (known, zero_in, fresh, left) = node-ready in
        keep-push seen node (all_deps services n) (rw (known, fresh) refl)

    room : (n : Text) → count n (neighbors g node) ≤ degree g n
    room n = omega (arith, loses n, pushed n, inv.degrees n)

    pub relax-IsDraining : IsDraining (node ∷ seen) relaxed.0 relaxed.1
    unfolding any
    relax-IsDraining = record {
      edges = λ d n. rw relax-adj (inv.edges d n);
      degrees = λ n.
          degree-relax (neighbors g node) rest g n
          ∙ omega (arith, loses n, pushed n, inv.degrees n);
      settled = λ n h.
          let (known, zero_in, fresh, left) = node-ready in
          degree-relax (neighbors g node) rest g n ∙ ground (arith, inv.settled n, same_iff n node);
      ready = λ n.
          let (known, zero_in, fresh, left) = node-ready in
          count-relax (neighbors g node) rest g room n
          ∙ ground (
            arith,
            degree-relax (neighbors g node) rest g n,
            inv.ready n,
            left n,
            room n,
            inv.settled n,
            loses n,
            same_iff n node,
            all_deps-unknown services n node,
          );
    }

  -- Whatever of its dependencies is a service stands in front of each name.
  abbrev pub IsOrdered : List Text → List Text → Type 0
  IsOrdered seen [] = Unit
  IsOrdered seen (x ∷ xs) =
      ((d : Text)
        → contains d (inside (names services) (all_deps services x)) ≡ true
        → contains d seen ≡ true)
      × IsOrdered (x ∷ seen) xs

  pub record Drains (seen xs : List Text) : Type 0 where
    pub ordered : IsOrdered seen xs
    pub once :
        (n : Text)
        → count n xs ≤ (if contains n (names services) && not (contains n seen) then 1 else 0)
    pub closed :
        (n : Text)
        → contains n (names services) ≡ true
        → ((d : Text)
            → contains d (inside (names services) (all_deps services n)) ≡ true
            → (contains d seen || contains d xs) ≡ true)
        → (contains n seen || contains n xs) ≡ true

  none-pending :
      (seen ds : List Text) (d : Text)
      → length (keep (waits seen) ds) ≡ 0
      → contains d (inside (names services) ds) ≡ true
      → contains d seen ≡ true
  unfolding keep any
  none-pending seen [] d z h = absurd (ground arith)
  none-pending seen (e ∷ ds) d z h = ground (arith, none-pending seen ds d, same_iff d e)

  pending-none :
      (seen ds : List Text)
      → ((d : Text) → contains d (inside (names services) ds) ≡ true → contains d seen ≡ true)
      → length (keep (waits seen) ds) ≡ 0
  unfolding keep any
  pending-none seen [] h = refl
  pending-none seen (e ∷ ds) h = elim (Bool-cases (contains e (names services))) [
    | inl k ↦
        let there = h e (rw k (ground (arith, same_self e))) in
        let rest = pending-none seen ds (λ d c. h d (rw k (ground arith))) in rw (k, there) rest
    | inr k ↦ rw k (pending-none seen ds (λ d c. h d (rw k c)))
  ]

  -- The services that are still to be pushed.
  abbrev pub unseen : List Text → ℕ
  unseen seen = length (keep (λ n. not (contains n seen)) (names services))

  unseen-le :
      (seen : List Text) (node : Text) (ns : List Text)
      → length (keep (λ n. not (contains n (node ∷ seen))) ns)
        ≤ length (keep (λ n. not (contains n seen)) ns)
  unfolding keep any
  unseen-le seen node [] = omega arith
  unseen-le seen node (n ∷ ns) = ground (arith, unseen-le seen node ns)

  pub unseen-step :
      (seen : List Text) (node : Text) (ns : List Text)
      → contains node seen ≡ false
      → contains node ns ≡ true
      → suc (length (keep (λ n. not (contains n (node ∷ seen))) ns))
        ≤ length (keep (λ n. not (contains n seen)) ns)
  unfolding keep any
  unseen-step seen node [] f h = absurd (ground arith)
  unseen-step seen node (n ∷ ns) f h =
      ground (
        arith,
        unseen-step seen node ns f,
        unseen-le seen node ns,
        same_iff node n,
        same_iff n node,
      )

  pub none-unseen :
      (seen : List Text) (n : Text) (ns : List Text)
      → length (keep (λ m. not (contains m seen)) ns) ≤ 0
      → contains n ns ≡ true
      → contains n seen ≡ true
  unfolding keep any
  none-unseen seen n [] z h = absurd (ground arith)
  none-unseen seen n (m ∷ ns) z h = ground (arith, none-unseen seen n ns, same_iff n m)

  empty-Drains :
      (seen queue : List Text) (g : Graph)
      → IsDraining seen queue g
      → Popped queue none
      → Drains seen []
  unfolding any
  empty-Drains seen queue g inv popped = record {
    ordered = tt;
    once = λ n. omega arith;
    closed = λ n k h.
        let no_deps = pending-none seen (all_deps services n) (λ d c. ground (arith, h d c)) in
        ground (arith, inv.ready n, popped n, inv.degrees n);
  }

  step-Drains :
      (seen queue rest xs : List Text) (g : Graph) (node : Text)
      → IsDraining seen queue g
      → Popped queue (some (rest, node))
      → Drains (node ∷ seen) xs
      → Drains seen (node ∷ xs)
  unfolding any
  step-Drains seen queue rest xs g node inv popped next =
      let (known, zero_in, fresh, left) = node-ready seen queue rest g node inv popped in
      record {
        ordered = (
          λ d c. none-pending seen (all_deps services node) d (sym (inv.degrees node) ∙ zero_in) c,
          next.ordered,
        );
        once = λ n. ground (arith, next.once n, same_iff n node);
        closed = λ n k h.
            let later = next.closed n k (λ d c. ground (arith, h d c, same_iff d node)) in
            ground arith;
      }

  drain_from-Drains :
      (fuel : ℕ) (seen queue : List Text) (g : Graph) (o : Option (List Text × Text))
      → IsDraining seen queue g
      → Popped queue o
      → unseen seen ≤ fuel
      → Drains seen (drain_from fuel o g)
  unfolding drain_from
  drain_from-Drains fuel seen queue g none inv popped enough = empty-Drains seen queue g inv popped
  drain_from-Drains zero seen queue g (some (rest, node)) inv popped enough =
      let (known, zero_in, fresh, left) = node-ready seen queue rest g node inv popped in
      absurd (ground (arith, none-unseen seen node (names services) enough known))
  drain_from-Drains (suc fuel) seen queue g (some (rest, node)) inv popped enough =
      let (known, zero_in, fresh, left) = node-ready seen queue rest g node inv popped in
      let (queue', g') = relax (neighbors g node) rest g in
      let fewer = unseen-step seen node (names services) fresh known in
      step-Drains seen queue rest (drain_from fuel (pop queue') g') g node inv popped (
        drain_from-Drains fuel (node ∷ seen) queue' g' (pop queue')
          (relax-IsDraining seen queue rest g node inv popped) (pop-Popped queue')
          (omega (arith, fewer)))

  pub length-keep_all : (ns : List Text) → length (keep (λ n. not (contains n [])) ns) ≡ length ns
  unfolding keep any
  length-keep_all [] = refl
  length-keep_all (n ∷ ns) = omega (arith, length-keep_all ns)

  pub length-names : (ss : Services) → length (names ss) ≡ length ss
  length-names [] = refl
  length-names (s ∷ ss) = omega (arith, length-names ss)

  inside-pending :
      (ds : List Text) → length (inside (names services) ds) ≡ length (keep (waits []) ds)
  unfolding keep any
  inside-pending [] = refl
  inside-pending (d ∷ ds) = ground (arith, inside-pending ds)

  started-IsDraining :
      ((k : Text) → count k (names services) ≤ 1)
      → IsDraining [] (sort (roots (graph_of services))) (graph_of services)
  unfolding any
  started-IsDraining once = record {
    edges = neighbors-graph_of services;
    degrees = λ n. degree-graph_of services n ∙ inside-pending (all_deps services n);
    settled = λ n h. absurd (ground arith);
    ready =
        λ n. count-sort n (roots (graph_of services)) ∙ count-roots services n once ∙ ground arith;
  }

  pub drain-Drains :
      ((k : Text) → count k (names services) ≤ 1)
      → Drains [] (drain (length services) (sort (roots (graph_of services))) (graph_of services))
  unfolding drain
  drain-Drains once =
      let queue = sort (roots (graph_of services)) in
      drain_from-Drains (length services) [] queue (graph_of services) (pop queue)
        (started-IsDraining once) (pop-Popped queue)
        (omega (arith, length-keep_all (names services), length-names services))
