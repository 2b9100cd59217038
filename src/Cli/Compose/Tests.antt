-- ===== src/Cli/Compose/Tests.antt =====
-- Runs of the compose decisions, and each theorem at an input that meets its hypotheses.
use ingot_engine.Base.{
  ℕ, ◌≡◌, ◌<◌, refl, true, false, none, some, List, [], ◌∷◌, any, keep, if◌then◌else◌, ok, err,
  arith, elem,
}
use ingot_engine.Base.Json.{string, object, no_members, member_and}
use ingot_engine.Base.Maps.{lookup, insert}
use ingot_engine.Base.Text.{
  Text, codes, same, same_iff, split, trim, starts_with, ends_with, strip_prefix,
}
use ingot_engine.Cli.Compose.{
  decide_pull, build, require_local, ComposeError, DependsOnSpec, ComposeSecretConfig, list_deps,
  map_deps, text_le, insert_sorted, sort, ServiceConfig, Services, names, contains, no_edges,
  add_deps, add_services, graph_of, drain, add_missing, topological_sort, push_profiles, push_all,
  active_profiles_from, short, credential_mount, credential_mounts,
}
use ingot_engine.Cli.Compose.Order.Count.{count}
use ingot_engine.Cli.Compose.Order.Edges.{all_deps, inside}
use ingot_engine.Cli.Compose.Order.Drained.{IsOrdered}
use ingot_engine.Cli.Compose.Order.Sorted.{
  HasDistinctNames, count-topological_sort, topological_sort-IsOrdered,
}
use ingot_engine.Cli.Compose.Policies.{AreMounts, credential_mounts-AreMounts}

abbrev service : List Text → ServiceConfig
service deps = record { depends_on = some (list_deps deps); profiles = [] }

-- `web` needs `db` and `cache`, `cache` needs `db`; `log` is no service of the project.
abbrev project : Services
project =
    (codes "web", service (codes "db" ∷ codes "cache" ∷ codes "log" ∷ []))
    ∷ (codes "cache", service (codes "db" ∷ []))
    ∷ (codes "db", service [])
    ∷ []

abbrev cyclic : Services
cyclic =
    (codes "a", service (codes "b" ∷ []))
    ∷ (codes "b", service (codes "a" ∷ []))
    ∷ (codes "c", service [])
    ∷ []

sorted :
    (topological_sort project ≡ codes "db" ∷ codes "cache" ∷ codes "web" ∷ [])
    × (topological_sort cyclic ≡ codes "c" ∷ codes "a" ∷ codes "b" ∷ [])
unfolding topological_sort graph_of no_edges add_services add_deps lookup insert any same keep sort
    insert_sorted text_le drain add_missing
sorted = (refl, refl)

project-HasDistinctNames : HasDistinctNames project
project-HasDistinctNames k =
    ground (arith, same_iff k (codes "web"), same_iff k (codes "cache"), same_iff k (codes "db"))

count-topological_sort_example :
    count (codes "db") (topological_sort project)
    ≡ (if contains (codes "db") (names project) then 1 else 0)
count-topological_sort_example =
    count-topological_sort project project-HasDistinctNames (codes "db")

abbrev rank : Text → ℕ
rank n = if same n (codes "web") then 2 else if same n (codes "cache") then 1 else 0

rank-descends :
    (n d : Text) → contains d (inside (names project) (all_deps project n)) ≡ true → rank d < rank n
unfolding same any keep
rank-descends n d h = ground (
  arith,
  same_iff n (codes "web"),
  same_iff n (codes "cache"),
  same_iff n (codes "db"),
  same_iff (codes "web") n,
  same_iff (codes "cache") n,
  same_iff (codes "db") n,
  same_iff d (codes "db"),
  same_iff d (codes "cache"),
  same_iff d (codes "web"),
)

topological_sort-IsOrdered_example : IsOrdered project [] (topological_sort project)
topological_sort-IsOrdered_example =
    topological_sort-IsOrdered project project-HasDistinctNames rank rank-descends

policies :
    (decide_pull none false true false ≡ ok build)
    × (decide_pull (some (codes "never")) true true false ≡ ok require_local)
    × (decide_pull (some (codes "sometimes")) true true true ≡ ok build)
    × (decide_pull (some (codes "sometimes")) true true false
        ≡ err (ComposeError.unknown_pull_policy (codes "sometimes")))
unfolding decide_pull same
policies = (refl, refl, refl, refl)

profiles :
    active_profiles_from (codes "a, dev" ∷ []) (some (codes "dev,x"))
    ≡ codes "a" ∷ codes "dev" ∷ codes "x" ∷ []
unfolding active_profiles_from push_all push_profiles split trim any same
profiles = refl

abbrev long_deps : DependsOnSpec
long_deps = map_deps (
    (
      codes "db",
      object (member_and (codes "condition") (string (codes "service_healthy")) no_members),
    )
    ∷ (codes "cache", string (codes "service_started"))
    ∷ [])

abbrev key_entry : List (Text × ComposeSecretConfig)
key_entry =
    (codes "key", record { file = some (codes "key.pem"); environment = none; external = none })
    ∷ []

credential_mounts-AreMounts_example :
    AreMounts
      (λ path. true)
      (codes "secrets")
      key_entry
      (codes "/srv")
      (short (codes "key") ∷ [])
      (codes "/srv/key.pem:/run/secrets/key:ro" ∷ [])
unfolding credential_mounts credential_mount lookup same elem starts_with ends_with strip_prefix
credential_mounts-AreMounts_example =
    credential_mounts-AreMounts (λ path. true) (codes "secrets") key_entry (codes "/srv")
      (short (codes "key") ∷ []) (codes "/srv/key.pem:/run/secrets/key:ro" ∷ []) refl
