-- ===== src/Cli/Compose/Order/Count.antt =====
-- How often a name occurs in the queue and in the lists of neighbors.
use ingot_engine.Base.{
  ℕ, ◌≡◌, ◌∙◌, refl, ◌+◌, ◌-◌, ◌≤◌, ◌&&◌, Option, none, some, List, [], ◌∷◌, ◌++◌, ◌==◌, ltb,
  if◌then◌else◌, any, arith, Bool-cases, inl, inr,
}
use ingot_engine.Base.Maps.{insert, lookup-insert}
use ingot_engine.Base.Text.{Text, same, same_iff}
use ingot_engine.Cli.Compose.{contains, insert_sorted, sort, behind, pop, Graph, degree, relax}

abbrev pub count : Text → List Text → ℕ
count t [] = 0
count t (u ∷ us) = (if same t u then 1 else 0) + count t us

pub count-append : (t : Text) (xs ys : List Text) → count t (xs ++ ys) ≡ count t xs + count t ys
count-append t [] ys = omega arith
count-append t (x ∷ xs) ys = omega (arith, count-append t xs ys)

count-insert_sorted :
    (t u : Text) (us : List Text) → count t (insert_sorted u us) ≡ count t (u ∷ us)
unfolding insert_sorted
count-insert_sorted t u [] = refl
count-insert_sorted t u (v ∷ us) = ground (arith, count-insert_sorted t u us)

pub count-sort : (t : Text) (us : List Text) → count t (sort us) ≡ count t us
unfolding sort
count-sort t [] = refl
count-sort t (u ∷ us) = count-insert_sorted t u (sort us) ∙ omega (arith, count-sort t us)

-- `pop` takes one occurrence of the last name.
abbrev pub Popped : List Text → Option (List Text × Text) → Type 0
Popped q none = (t : Text) → count t q ≡ 0
Popped q (some (rest, last)) =
    (t : Text) → count t q ≡ count t rest + (if same t last then 1 else 0)

behind-Popped :
    (t : Text) (q : List Text) (o : Option (List Text × Text))
    → Popped q o
    → Popped (t ∷ q) (behind t o)
behind-Popped t q none h = λ u. omega (arith, h u)
behind-Popped t q (some (rest, last)) h = λ u. omega (arith, h u)

pub pop-Popped : (q : List Text) → Popped q (pop q)
unfolding pop
pop-Popped [] = λ t. refl
pop-Popped (t ∷ q) = behind-Popped t q (pop q) (pop-Popped q)

pub contains-count : (t : Text) (us : List Text) → contains t us ≡ ltb 0 (count t us)
unfolding any
contains-count t [] = refl
contains-count t (u ∷ us) = ground (arith, contains-count t us)

pub degree-insert :
    (n m : Text) (left : ℕ) (g : Graph)
    → degree (record g { in_degree = insert n left g.in_degree }) m
      ≡ (if same n m then left else degree g m)
degree-insert n m left g = rw lookup-insert (ground arith)

pub relax-adj : (ns queue : List Text) (g : Graph) → (relax ns queue g).1.adj ≡ g.adj
unfolding relax
relax-adj [] queue g = refl
relax-adj (n ∷ ns) queue g =
    relax-adj ns _ (record g { in_degree = insert n (degree g n - 1) g.in_degree })

-- Each neighbor loses as many edges as it is named.
pub degree-relax :
    (ns queue : List Text) (g : Graph) (m : Text)
    → degree (relax ns queue g).1 m ≡ degree g m - count m ns
unfolding relax
degree-relax [] queue g m = omega arith
degree-relax (n ∷ ns) queue g m =
    degree-relax ns _ (record g { in_degree = insert n (degree g n - 1) g.in_degree }) m
    ∙ ground (arith, degree-insert n m (degree g n - 1) g, same_iff n m, same_iff m n)

-- A name is queued when its last edge goes, once.
pub count-relax :
    (ns queue : List Text) (g : Graph)
    → ((m : Text) → count m ns ≤ degree g m)
    → (m : Text)
    → count m (relax ns queue g).0
      ≡ count m queue + (if ltb 0 (count m ns) && count m ns == degree g m then 1 else 0)
unfolding relax
count-relax [] queue g h m = omega arith
count-relax (n ∷ ns) queue g h m =
    let left = degree g n - 1 in
    let g' = record g { in_degree = insert n left g.in_degree } in
    let inserted = degree-insert n m left g in
    let room : (k : Text) → count k ns ≤ degree g' k =
      λ k. ground (arith, h k, degree-insert n k left g, same_iff n k, same_iff k n) in
    elim (Bool-cases (left == 0)) [
      | inl e ↦
          rw (e, relax)
            (count-relax ns (sort (queue ++ n ∷ [])) g' room m
              ∙ ground (
                arith,
                count-sort m (queue ++ n ∷ []),
                count-append m queue (n ∷ []),
                inserted,
                h m,
                same_iff n m,
                same_iff m n,
              ))
      | inr e ↦
          rw (e, relax)
            (count-relax ns queue g' room m
              ∙ ground (arith, inserted, h m, same_iff n m, same_iff m n))
    ]
