-- ===== src/Tools/Deps/Examples.antt =====
-- A page is opened before it is read; two calls that need each other are refused.
use atlas_agent_control_plan.Prelude.{
  ℕ, String, Bool, ◌≡◌, refl, none, List, [], ◌∷◌, length, count_if, nat_eq, string_eq,
}
use atlas_agent_control_plan.Prelude.Result.{ok, err}
use atlas_agent_control_plan.Tools.Deps.{
  ToolCall, dependencies, range, plan_positions, plan_parallel_batches,
}
use atlas_agent_control_plan.Tools.Deps.Rounds.{IsOrdered, IsStuck, flat}
use atlas_agent_control_plan.Tools.Deps.Laws.{plan_positions-planned, plan_positions-refused}

abbrev call : String → List String → List String → ToolCall
call name provides requires = record {
  name = name;
  arguments = "{}";
  provides = provides;
  requires = requires;
  call_id = none;
}

abbrev open_page : ToolCall
open_page = call "open" ("page" ∷ []) []

abbrev read_page : ToolCall
read_page = call "read" [] ("page" ∷ "cookie" ∷ [])

abbrev search : ToolCall
search = call "search" [] []

abbrev request : List ToolCall
request = read_page ∷ search ∷ open_page ∷ []

plans_two_batches :
    plan_parallel_batches request ≡ ok ((search ∷ open_page ∷ []) ∷ (read_page ∷ []) ∷ [])
unfolding plan_parallel_batches
plans_two_batches = refl

plans_positions : plan_positions request ≡ ok ((1 ∷ 2 ∷ []) ∷ (0 ∷ []) ∷ [])
unfolding plan_positions
plans_positions = refl

abbrev cycle : List ToolCall
cycle = call "a" ("x" ∷ []) ("y" ∷ []) ∷ call "b" ("y" ∷ []) ("x" ∷ []) ∷ []

refuses_cycle : plan_positions cycle ≡ err (0 ∷ 1 ∷ [])
unfolding plan_positions
refuses_cycle = refl

plan_positions-planned_example :
    IsOrdered (dependencies request 0 request) [] ((1 ∷ 2 ∷ []) ∷ (0 ∷ []) ∷ [])
    × ((p : ℕ → Bool)
        → count_if p (flat ((1 ∷ 2 ∷ []) ∷ (0 ∷ []) ∷ [])) ≡ count_if p (range 0 (length request)))
plan_positions-planned_example =
    plan_positions-planned request ((1 ∷ 2 ∷ []) ∷ (0 ∷ []) ∷ []) plans_positions

plan_positions-refused_example : IsStuck (dependencies cycle 0 cycle) (0 ∷ 1 ∷ [])
plan_positions-refused_example = plan_positions-refused cycle (0 ∷ 1 ∷ []) refuses_cycle
