-- ===== src/Cli/Compose.antt =====
-- crates/ingot-cli/src/compose.rs: what `compose up` decides before it calls the daemon. A `HashMap` is
-- an association list with distinct keys, in the order of its iteration.
pub mod Order
pub mod Policies
mod Tests
use ingot_engine.Base.{
  ℕ, zero, suc, ◌+◌, ◌-◌, Bool, true, false, not, ◌&&◌, ◌||◌, Option, none, some, List, [], ◌∷◌,
  ◌++◌, map, ◌==◌, ltb, if◌then◌else◌, length, keep, any, elem, Outcome, ok, err, panic, ◌>>=◌,
  ◌>>◌, bail_if,
}
use ingot_engine.Base.Json.{Value, string, object, Members, get, as_str}
use ingot_engine.Base.Maps.{lookup, insert}
use ingot_engine.Base.Text.{Text, codes, same, is_empty, split, trim, starts_with, ends_with}

pub data PullAction : Type 0 where
  build pull_always pull_if_missing require_local : PullAction

-- Why a secret has no file to mount.
pub data Source : Type 0 where
  is_external no_file : Source
  in_environment : Text → Source

pub data ComposeError : Type 0 where
  unknown_pull_policy : Text → ComposeError
  unknown_condition : Text → Text → ComposeError
  bad_target : Text → ComposeError
  not_defined : Text → ComposeError
  unsupported_source : Text → Source → ComposeError
  file_not_found : Text → ComposeError

abbrev or_build : Bool → Bool → PullAction → Outcome ComposeError PullAction
or_build has_image has_build other = if not has_image && has_build then ok build else ok other

abbrev policy_or_missing : Option Text → Text
policy_or_missing none = codes "missing"
policy_or_missing (some policy) = policy

unfoldable pub decide_pull : Option Text → Bool → Bool → Bool → Outcome ComposeError PullAction
decide_pull policy has_image has_build force_build =
    let p = policy_or_missing policy in
    if force_build
    then ok build
    else if is_empty p || same p (codes "missing")
    then or_build has_image has_build pull_if_missing
    else if same p (codes "always")
    then or_build has_image has_build pull_always
    else if same p (codes "never")
    then ok require_local
    else if same p (codes "build")
    then (if has_build then ok build else ok pull_if_missing)
    else err (unknown_pull_policy p)

pub data DependsOnSpec : Type 0 where
  list_deps : List Text → DependsOnSpec
  map_deps : List (Text × Value) → DependsOnSpec

abbrev pub to_vec : DependsOnSpec → List Text
to_vec (list_deps names) = names
to_vec (map_deps m) = map (λ x. x.0) m

pub data DepCondition : Type 0 where
  started healthy completed : DepCondition

-- `cmp` of texts, as the test that `a` does not come behind `b`.
unfoldable pub text_le : Text → Text → Bool
text_le [] b = true
text_le (x ∷ a) [] = false
text_le (x ∷ a) (y ∷ b) = let rest = text_le a b in ltb x y || (x == y && rest)

-- `sort()`, by insertion.
unfoldable pub insert_sorted : Text → List Text → List Text
insert_sorted t [] = t ∷ []
insert_sorted t (u ∷ us) =
    let rest = insert_sorted t us in if text_le t u then t ∷ u ∷ us else u ∷ rest

unfoldable pub sort : List Text → List Text
sort [] = []
sort (t ∷ ts) = insert_sorted t (sort ts)

abbrev or_empty : Option Text → Text
or_empty none = []
or_empty (some s) = s

abbrev str_of : Option Value → Option Text
str_of none = none
str_of (some v) = as_str v

-- The text of a condition, in either form.
abbrev condition_text : Option Value → Text
condition_text (some (string s)) = s
condition_text (some (object o)) = or_empty (str_of (get (codes "condition") o))
condition_text o = []

unfoldable pub condition_of : Text → Text → Outcome ComposeError DepCondition
condition_of name cond =
    if is_empty cond || same cond (codes "service_started")
    then ok started
    else if same cond (codes "service_healthy")
    then ok healthy
    else if same cond (codes "service_completed_successfully")
    then ok completed
    else err (unknown_condition name cond)

unfoldable pub conditions_of :
    List Text → List (Text × Value) → Outcome ComposeError (List (Text × DepCondition))
conditions_of [] m = ok []
conditions_of (n ∷ names) m = do
  cond ← condition_of n (condition_text (lookup n m))
  rest ← conditions_of names m
  ok ((n, cond) ∷ rest)

unfoldable pub dependency_conditions :
    Option DependsOnSpec → Outcome ComposeError (List (Text × DepCondition))
dependency_conditions none = ok []
dependency_conditions (some (list_deps names)) = ok (map (λ n. (n, started)) names)
dependency_conditions (some (map_deps m)) = conditions_of (sort (map (λ x. x.0) m)) m

-- What is read of a service here.
pub record ServiceConfig : Type 0 where
  pub depends_on : Option DependsOnSpec
  pub profiles : List Text

abbrev pub Services : Type 0
Services = List (Text × ServiceConfig)

abbrev deps_in : Option DependsOnSpec → List Text
deps_in none = []
deps_in (some spec) = to_vec spec

-- The names that a service depends on.
abbrev pub deps_of : ServiceConfig → List Text
deps_of cfg = deps_in cfg.depends_on

abbrev pub names : Services → List Text
names = map (λ x. x.0)

abbrev pub contains : Text → List Text → Bool
contains t = any (same t)

-- The two maps, as they are filled and counted down.
pub record Graph : Type 0 where
  pub in_degree : List (Text × ℕ)
  pub adj : List (Text × List Text)

abbrev pub or_zero : Option ℕ → ℕ
or_zero none = 0
or_zero (some n) = n

abbrev or_none : Option (List Text) → List Text
or_none none = []
or_none (some ns) = ns

abbrev pub degree : Graph → Text → ℕ
degree g n = or_zero (lookup n g.in_degree)

abbrev pub neighbors : Graph → Text → List Text
neighbors g n = or_none (lookup n g.adj)

-- The first loop: every service, with no edge.
unfoldable pub no_edges : List Text → Graph
no_edges [] = record { in_degree = []; adj = [] }
no_edges (n ∷ ns) =
    let g = no_edges ns in record { in_degree = (n, 0) ∷ g.in_degree; adj = (n, []) ∷ g.adj }

-- `adj.entry(dep).or_default().push(name)` and `*in_degree.entry(name).or_default() += 1`.
abbrev pub add_edge : Text → Text → Graph → Graph
add_edge dep name g = record {
  adj = insert dep (neighbors g dep ++ name ∷ []) g.adj;
  in_degree = insert name (degree g name + 1) g.in_degree;
}

unfoldable pub add_deps : List Text → Text → List Text → Graph → Graph
add_deps known name [] g = g
add_deps known name (dep ∷ deps) g =
    add_deps known name deps (if contains dep known then add_edge dep name g else g)

unfoldable pub add_services : List Text → Services → Graph → Graph
add_services known [] g = g
add_services known ((name, cfg) ∷ services) g =
    add_services known services (add_deps known name (deps_of cfg) g)

unfoldable pub graph_of : Services → Graph
graph_of services = add_services (names services) services (no_edges (names services))

-- The names of in-degree 0.
abbrev pub roots : Graph → List Text
roots g = map (λ x. x.0) (keep (λ x. x.1 == 0) g.in_degree)

-- The inner loop: a neighbor loses an edge, and is queued with its last one.
unfoldable pub relax : List Text → List Text → Graph → List Text × Graph
relax [] queue g = (queue, g)
relax (n ∷ ns) queue g =
    let left = degree g n - 1 in
    relax ns (if left == 0 then sort (queue ++ n ∷ []) else queue)
      (record g { in_degree = insert n left g.in_degree })

abbrev pub behind : Text → Option (List Text × Text) → Option (List Text × Text)
behind t none = some ([], t)
behind t (some (rest, last)) = some (t ∷ rest, last)

-- `pop()`: the rest, and the last.
unfoldable pub pop : List Text → Option (List Text × Text)
pop [] = none
pop (t ∷ ts) = behind t (pop ts)

-- The loop over the queue, on fuel: what it pushes to the result.
pub drain_from : ℕ → Option (List Text × Text) → Graph → List Text
unfolding pop relax
drain_from fuel none g = []
drain_from zero (some (queue, node)) g = []
drain_from (suc fuel) (some (queue, node)) g =
    let (queue', g') = relax (neighbors g node) queue g in node ∷ drain_from fuel (pop queue') g'

unfoldable pub drain : ℕ → List Text → Graph → List Text
unfolding drain_from pop
drain fuel queue g = drain_from fuel (pop queue) g

-- `for name in services.keys() { if !result.contains(name) { result.push(name) } }`.
unfoldable pub add_missing : List Text → List Text → List Text
add_missing [] result = result
add_missing (n ∷ ns) result =
    add_missing ns (if contains n result then result else result ++ n ∷ [])

-- Every round pushes another service, so their number is fuel enough.
unfoldable pub topological_sort : Services → List Text
topological_sort services =
    let g = graph_of services in
    let result = drain (length services) (sort (roots g)) g in
    if ltb (length result) (length services) then add_missing (names services) result else result

-- The closure `push` of `active_profiles_from`, on the pieces of a text.
unfoldable pub push_profiles : List Text → List Text → List Text
push_profiles [] out = out
push_profiles (raw ∷ raws) out =
    let p = trim raw in
    push_profiles raws (if not (is_empty p) && not (contains p out) then out ++ p ∷ [] else out)

unfoldable pub push_all : List Text → List Text → List Text
push_all [] out = out
push_all (raw ∷ raws) out = push_all raws (push_profiles (split b',' raw) out)

abbrev pub of_env : Option Text → List Text
of_env none = []
of_env (some e) = e ∷ []

unfoldable pub active_profiles_from : List Text → Option Text → List Text
active_profiles_from cli env = push_all (of_env env) (push_all cli [])

unfoldable pub service_enabled : ServiceConfig → List Text → Bool
service_enabled svc active = length svc.profiles == 0 || any (λ p. contains p active) svc.profiles

-- The services that `up` goes on with.
unfoldable pub enabled_services : List Text → Services → Services
enabled_services active = keep (λ x. service_enabled x.1 active)

pub data SecretRef : Type 0 where
  short : Text → SecretRef
  long : (source : Text) → (target : Option Text) → SecretRef

pub record ComposeSecretConfig : Type 0 where
  pub file : Option Text
  pub environment : Option Text
  pub external : Option Bool

abbrev pub source_of : SecretRef → Text
source_of (short s) = s
source_of (long source target) = source

abbrev target_or : Text → Option Text → Text
target_or source none = source
target_or source (some t) = t

abbrev pub target_of : SecretRef → Text
target_of (short s) = s
target_of (long source target) = target_or source target

-- `compose_dir.join(file)`, of a file that may be absolute.
abbrev pub absolute : Text → Text → Text
absolute compose_dir file =
    if starts_with (b'/' ∷ []) file
    then file
    else if is_empty compose_dir || ends_with b'/' compose_dir
    then compose_dir ++ file
    else compose_dir ++ b'/' ∷ file

abbrev pub bad_name : Text → Bool
bad_name target = is_empty target || elem b'/' target || elem 0 target

abbrev or_false : Option Bool → Bool
or_false none = false
or_false (some b) = b

abbrev environment_or : Option Text → Source
environment_or none = no_file
environment_or (some var) = in_environment var

abbrev pub why : ComposeSecretConfig → Source
why entry = if or_false entry.external then is_external else environment_or entry.environment

abbrev pub with_file :
    (Text → Bool) → Text → Text → Text → Text → Source → Option Text → Outcome ComposeError Text
with_file is_file kind compose_dir source target reason none =
    err (unsupported_source source reason)
with_file is_file kind compose_dir source target reason (some file) =
    let abs = absolute compose_dir file in
    let dest =
      (if same kind (codes "secrets") then codes "/run/secrets/" else codes "/") ++ target in
    if is_file abs then ok (abs ++ b':' ∷ (dest ++ codes ":ro")) else err (file_not_found abs)

abbrev pub with_entry :
    (Text → Bool)
    → Text
    → Text
    → Text
    → Text
    → Option ComposeSecretConfig
    → Outcome ComposeError Text
with_entry is_file kind compose_dir source target none = err (not_defined source)
with_entry is_file kind compose_dir source target (some entry) =
    with_file is_file kind compose_dir source target (why entry) entry.file

unfoldable pub credential_mount :
    (Text → Bool)
    → Text
    → List (Text × ComposeSecretConfig)
    → Text
    → SecretRef
    → Outcome ComposeError Text
credential_mount is_file kind top compose_dir r = do
  bail_if (bad_name (target_of r)) (ComposeError.bad_target (target_of r))
  with_entry is_file kind compose_dir (source_of r) (target_of r) (lookup (source_of r) top)

-- `credential_mounts`; `is_file` is what the file system answers.
unfoldable pub credential_mounts :
    (Text → Bool)
    → Text
    → List SecretRef
    → List (Text × ComposeSecretConfig)
    → Text
    → Outcome ComposeError (List Text)
credential_mounts is_file kind [] top compose_dir = ok []
credential_mounts is_file kind (r ∷ refs) top compose_dir = do
  mount ← credential_mount is_file kind top compose_dir r
  mounts ← credential_mounts is_file kind refs top compose_dir
  ok (mount ∷ mounts)
