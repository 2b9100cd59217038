-- ===== src/Util/FilePath.antt =====
-- crates/util/src/path.rs: the components of a path, `clean_relative_path`, and `openat_walk`, the resolution
-- of a path below a root directory. The file system is a parameter: what `openat`, `fstat` and `readlink` say
-- of a descriptor. `fcntl` and `fstat` on an open descriptor are taken to succeed.
pub mod Clean
pub mod Confined
use ingot_engine.Base.{
  ℕ, zero, suc, Bool, true, false, not, ◌&&◌, ◌||◌, Option, none, some, List, [], ◌∷◌, ◌++◌, ◌==◌,
  if◌then◌else◌, elem, Outcome, ok, err, panic,
}
use ingot_engine.Base.Text.{Text, codes, same, is_empty, split, starts_with}

-- `OwnedComponent`.
pub data Component : Type 0 where
  root_dir cur_dir parent_dir : Component
  normal : Text → Component

abbrev pub slash : Text
slash = b'/' ∷ []

-- A piece between slashes, but for a `.` in front of a relative path.
unfoldable pub piece : Text → List Component
piece p =
    if is_empty p || same p (codes ".")
    then []
    else if same p (codes "..")
    then parent_dir ∷ []
    else normal p ∷ []

unfoldable pub pieces : List Text → List Component
pieces [] = []
pieces (p ∷ ps) = piece p ++ pieces ps

abbrev pub relative : List Text → List Component
relative [] = []
relative (p ∷ ps) = if same p (codes ".") then cur_dir ∷ pieces ps else pieces (p ∷ ps)

-- `Path::components`.
unfoldable pub path_components : Text → List Component
unfolding piece pieces
path_components path =
    let parts = split b'/' path in
    if starts_with slash path then root_dir ∷ pieces parts else relative parts

-- `PathBuf::pop`, on the names of a relative path.
unfoldable pub pop : List Text → List Text
pop [] = []
pop (n ∷ []) = []
pop (n ∷ m ∷ ns) = n ∷ pop (m ∷ ns)

unfoldable pub clean_from : List Text → List Component → List Text
unfolding pop
clean_from out [] = out
clean_from out (normal c ∷ cs) = clean_from (out ++ c ∷ []) cs
clean_from out (cur_dir ∷ cs) = clean_from out cs
clean_from out (parent_dir ∷ cs) = clean_from (pop out) cs
clean_from out (root_dir ∷ cs) = clean_from out cs

-- The names of the path that is returned.
unfoldable pub clean_relative_path : Text → List Text
clean_relative_path path = clean_from [] (path_components path)

-- The text of a path with these names.
unfoldable pub path_text : List Text → Text
path_text [] = []
path_text (n ∷ []) = n
path_text (n ∷ m ∷ ns) = n ++ (b'/' ∷ path_text (m ∷ ns))

-- What the kernel answers. The flag of `open_child` tells that the component is the last one.
pub record Fs : Type 0 where
  pub root : ℕ
  pub open_child : Bool → ℕ → Text → Option ℕ
  pub open_parent : ℕ → Option ℕ
  pub is_link : ℕ → Bool
  pub read_link : ℕ → Option Text

pub data WalkError : Type 0 where
  nul_byte open_failed too_many_links read_failed magic_link : WalkError

abbrev pub none_left : List Component → Bool
none_left [] = true
none_left (c ∷ cs) = false

abbrev pub or_fail : Option ℕ → (ℕ → Outcome WalkError ℕ) → Outcome WalkError ℕ
or_fail none next = err open_failed
or_fail (some x) next = next x

-- A `Normal` component: what was opened is entered, or it is a link and is followed.
abbrev pub visit :
    Fs
    → Bool
    → Text
    → ℕ
    → (ℕ → Outcome WalkError ℕ)
    → (Option Text → Outcome WalkError ℕ)
    → Outcome WalkError ℕ
visit fs last name cur enter follow =
    if elem 0 name
    then err nul_byte
    else or_fail (fs.open_child last cur name)
        λ x. if fs.is_link x then follow (fs.read_link x) else enter x

abbrev pub with_target : Option Text → (Text → Outcome WalkError ℕ) → Outcome WalkError ℕ
with_target none go = err read_failed
with_target (some target) go =
    if starts_with (codes "/proc/") target then err magic_link else go target

-- `left` is the number of links that may still be followed.
unfoldable pub walk : Fs → ℕ → List Component → ℕ → Outcome WalkError ℕ
walk fs left [] cur = ok cur
walk fs left (root_dir ∷ cs) cur = walk fs left cs fs.root
walk fs left (cur_dir ∷ cs) cur = walk fs left cs cur
walk fs left (parent_dir ∷ cs) cur =
    if cur == fs.root then walk fs left cs cur else or_fail (fs.open_parent cur) (walk fs left cs)
walk fs zero (normal name ∷ cs) cur =
    visit fs (none_left cs) name cur (walk fs zero cs) λ target. err too_many_links
walk fs (suc left) (normal name ∷ cs) cur =
    visit fs (none_left cs) name cur (walk fs (suc left) cs) λ target.
      with_target target
        λ t. walk fs left (path_components t ++ cs) (if starts_with slash t then fs.root else cur)

abbrev pub max_hops : ℕ
max_hops = 40

unfoldable pub openat_walk : Fs → Text → Outcome WalkError ℕ
unfolding walk
openat_walk fs path = walk fs max_hops (path_components path) fs.root
