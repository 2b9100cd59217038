-- ===== src/Cli/Compose/Order/Sorted.antt =====
-- What `topological_sort` returns.
use ingot_engine.Base.{
  ℕ, zero, suc, ◌≡◌, ◌∙◌, refl, ◌+◌, ◌≤◌, ◌<◌, true, false, not, ◌&&◌, List, [], ◌∷◌, ◌++◌, ltb,
  if◌then◌else◌, any, keep, length, arith, Bool-cases, inl, inr,
}
use ingot_engine.Base.Text.{Text, same_iff, same_self}
use ingot_engine.Cli.Compose.{
  Services, names, contains, sort, drain, graph_of, roots, add_missing, topological_sort,
}
use ingot_engine.Cli.Compose.Order.Count.{count, count-append, contains-count}
use ingot_engine.Cli.Compose.Order.Edges.{all_deps, inside}
use ingot_engine.Cli.Compose.Order.Drained.{
  IsOrdered, Drains, drain-Drains, unseen, unseen-step, none-unseen, length-keep_all, length-names,
}

-- No name has two services.
abbrev pub HasDistinctNames : Services → Type 0
HasDistinctNames services = (k : Text) → count k (names services) ≤ 1

count-add_missing :
    (ns result : List Text) (n : Text)
    → count n (add_missing ns result)
      ≡ count n result + (if contains n ns && not (contains n result) then 1 else 0)
unfolding add_missing any
count-add_missing [] result n = omega arith
count-add_missing (m ∷ ns) result n = elim (Bool-cases (contains m result)) [
  | inl h ↦ rw (h, add_missing) (count-add_missing ns result n ∙ ground (arith, same_iff n m))
  | inr h ↦
      rw (h, add_missing)
        (count-add_missing ns (result ++ m ∷ []) n
          ∙ ground (
            arith,
            same_iff n m,
            count-append n result (m ∷ []),
            contains-count n result,
            contains-count n (result ++ m ∷ []),
          ))
]

add_missing-none :
    (ns result : List Text)
    → ((n : Text) → contains n ns ≡ true → contains n result ≡ true)
    → add_missing ns result ≡ result
unfolding add_missing any
add_missing-none [] result h = refl
add_missing-none (m ∷ ns) result h =
    let here = h m (ground (arith, same_self m)) in
    rw (here, add_missing) (add_missing-none ns result (λ n c. h n (ground arith)))

module _ (services : Services) (distinct : HasDistinctNames services) where
  abbrev drained : List Text
  drained = drain (length services) (sort (roots (graph_of services))) (graph_of services)

  drains : Drains services [] drained
  drains = drain-Drains services distinct

  -- Each name that occurs once takes one of the services that are left.
  used-unseen :
      (xs : List Text)
      → ((n : Text) → count n xs ≤ (if contains n (names services) then 1 else 0))
      → length xs + unseen services xs ≤ length services
  unfolding any
  used-unseen [] h =
      omega (arith, length-keep_all services (names services), length-names services services)
  used-unseen (x ∷ xs) h =
      let here = h x in
      let fresh : contains x xs ≡ false = ground (arith, same_self x, contains-count x xs) in
      let known : contains x (names services) ≡ true = ground (arith, same_self x) in
      omega (
        arith,
        unseen-step services xs x (names services) fresh known,
        used-unseen xs (λ n. omega (arith, h n)),
      )

  drained-once : (n : Text) → count n drained ≤ (if contains n (names services) then 1 else 0)
  unfolding any
  drained-once n = ground (arith, drains.once n)

  full-contains :
      (n : Text)
      → ltb (length drained) (length services) ≡ false
      → contains n (names services) ≡ true
      → contains n drained ≡ true
  full-contains n full k =
      none-unseen services drained n (names services)
        (ground (arith, used-unseen drained drained-once)) k

  -- `topological_sort` returns every service of the project once and nothing else, cycles or not.
  pub count-topological_sort :
      (n : Text)
      → count n (topological_sort services) ≡ (if contains n (names services) then 1 else 0)
  unfolding topological_sort
  count-topological_sort n = elim (Bool-cases (ltb (length drained) (length services))) [
    | inl short ↦ rw short (
        count-add_missing (names services) drained n
        ∙ ground (arith, drained-once n, contains-count n drained))
    | inr full ↦
        rw full (ground (arith, drained-once n, contains-count n drained, full-contains n full))
  ]

  module _ (rank : Text → ℕ)
      (descends : (n d : Text)
        → contains d (inside (names services) (all_deps services n)) ≡ true
        → rank d < rank n) where
    inside-known :
        (d : Text) (ds : List Text)
        → contains d (inside (names services) ds) ≡ true
        → contains d (names services) ≡ true
    unfolding keep any
    inside-known d [] h = absurd (ground arith)
    inside-known d (e ∷ ds) h = ground (arith, inside-known d ds, same_iff d e)

    drained-all :
        (k : ℕ) (n : Text)
        → rank n < k
        → contains n (names services) ≡ true
        → contains n drained ≡ true
    unfolding any
    drained-all zero n lt known = absurd (omega arith)
    drained-all (suc k) n lt known =
        let there = drains.closed n known (λ d c.
          let earlier = drained-all k d (omega (arith, descends n d c)) (inside-known d _ c) in
          ground arith) in
        ground arith

    -- Where the dependencies have no cycle, as a rank that falls from every service to what it depends
    -- on shows, each service stands behind all the services it depends on.
    pub topological_sort-IsOrdered : IsOrdered services [] (topological_sort services)
    unfolding topological_sort
    topological_sort-IsOrdered =
        let nothing_missing =
          add_missing-none (names services) drained
            (λ n known. drained-all (suc (rank n)) n (omega arith) known) in
        elim (Bool-cases (ltb (length drained) (length services))) [
          | inl short ↦ rw (short, nothing_missing) drains.ordered
          | inr full ↦ rw full drains.ordered
        ]
