-- ===== src/Base/Json.antt =====
-- `serde_json::Value`. A number is kept as it is written; an object's members are in the order of the
-- map, whose keys are distinct.
use mathlib.Core.Bool.{Bool}
use mathlib.Core.Option.{Option, none, some}
use ingot_engine.Base.Tests.{if◌then◌else◌}
use ingot_engine.Base.Text.{Text, same}

mutual
  pub data Value : Type 0 where
    null : Value
    boolean : Bool → Value
    number string : Text → Value
    array : Values → Value
    object : Members → Value

  pub data Values : Type 0 where
    no_values : Values
    value_and : Value → Values → Values

  pub data Members : Type 0 where
    no_members : Members
    member_and : Text → Value → Members → Members

-- `get(key)` of an object's members.
unfoldable pub get : Text → Members → Option Value
get key no_members = none
get key (member_and k v ms) = let rest = get key ms in if same k key then some v else rest

-- `as_str()`.
abbrev pub as_str : Value → Option Text
as_str (string s) = some s
as_str v = none
