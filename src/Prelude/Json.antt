-- ===== src/Prelude/Json.antt =====
-- A JSON payload as Python holds it: None, bool, int, float, str, list and dict. A float is kept as
-- its literal, since the program computes with none that stands in a payload.
use mathlib.Core.Bool.{Bool}
use mathlib.Core.Option.{Option, none, some}
use mathlib.Core.List.{List, [], ◌∷◌}
use Prim.Native.String.{String}
use text.Mathlib.Text.{◌==◌}
use atlas_agent_control_plan.Prelude.Tests.{if◌then◌else◌}
use atlas_agent_control_plan.Prelude.Int.{ℤ}

mutual
  pub data Value : Type 0 where
    null : Value
    bool : Bool → Value
    num : ℤ → Value
    real : String → Value
    str : String → Value
    obj : Fields → Value
    arr : Items → Value

  pub data Items : Type 0 where
    nil : Items
    cons : Value → Items → Items

  pub data Fields : Type 0 where
    end : Fields
    field : String → Value → Fields → Fields

-- mapping.get(key)
abbrev pub get_field : String → Fields → Option Value
get_field key end = none
get_field key (field k v rest) = if k == key then some v else get_field key rest

-- The elements of a list value.
abbrev pub items : Items → List Value
items nil = []
items (cons v rest) = v ∷ items rest

-- payload[key] = value: a key that is present keeps its place
abbrev pub put_field : String → Value → Fields → Fields
put_field key value end = field key value end
put_field key value (field k v rest) =
    if k == key then field k value rest else field k v (put_field key value rest)
