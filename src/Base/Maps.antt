-- ===== src/Base/Maps.antt =====
-- `HashMap<String, V>` as an association list. Nothing here depends on the order of the entries.
use mathlib.Core.List.{List, [], ◌∷◌}
use mathlib.Core.Option.{Option, none, some}
use mathlib.Core.Path.{◌≡◌, refl}
use native.Mathlib.Omega.{arith}
use ingot_engine.Base.Tests.{if◌then◌else◌}
use ingot_engine.Base.Text.{Text, same, same_iff}

module _ {ℓ} {V : Type ℓ} where
  unfoldable pub lookup : Text → List (Text × V) → Option V
  lookup k [] = none
  lookup k ((j, v) ∷ m) = if same j k then some v else lookup k m

  unfoldable pub insert : Text → V → List (Text × V) → List (Text × V)
  insert k v [] = (k, v) ∷ []
  insert k v ((j, w) ∷ m) = if same j k then (j, v) ∷ m else (j, w) ∷ insert k v m

  unfoldable pub remove : Text → List (Text × V) → List (Text × V)
  remove k [] = []
  remove k ((j, w) ∷ m) = let rest = remove k m in if same j k then rest else (j, w) ∷ rest

  pub lookup-insert :
      (k j : Text) (v : V) (m : List (Text × V))
      → lookup j (insert k v m) ≡ (if same k j then some v else lookup j m)
  unfolding lookup insert
  lookup-insert k j v [] = refl
  lookup-insert k j v ((i, w) ∷ m) =
      ground (arith, same_iff k j, same_iff i k, same_iff i j, lookup-insert k j v m)

  pub lookup-remove :
      (k j : Text) (m : List (Text × V))
      → lookup j (remove k m) ≡ (if same k j then none else lookup j m)
  unfolding lookup remove
  lookup-remove k j [] = ground arith
  lookup-remove k j ((i, w) ∷ m) =
      ground (arith, same_iff k j, same_iff i k, same_iff i j, lookup-remove k j m)
