-- ===== src/Tools/Budget/Examples.antt =====
-- Runs of the budget, and its theorems at concrete inputs.
use atlas_agent_control_plan.Prelude.{
  ◌<◌, ◌≤◌, String, ◌≡◌, refl, true, List, [], ◌∷◌, arith, string_eq,
}
use atlas_agent_control_plan.Prelude.Dict
use atlas_agent_control_plan.Prelude.Int.{pos}
use atlas_agent_control_plan.Prelude.Result.{ok, err}
use atlas_agent_control_plan.Tools.Call.{ToolCallRequest}
use atlas_agent_control_plan.Tools.Budget.{
  ToolRuntime, ToolBudget, create, check_call, calls_used_for, estimate_tokens,
  execute_sequentially, gather, record_call, execute_with_budget, run_tool, build_exceeded_result,
  remaining_calls,
}
use atlas_agent_control_plan.Tools.Budget.Laws.{IsSound}
use atlas_agent_control_plan.Tools.Budget.Gather.{gather_overshoots}

abbrev fresh : ToolBudget
fresh = record {
  max_calls_per_step = 2;
  max_calls_per_tool = 2;
  max_token_estimate = 10;
  calls_used = 0;
  calls_by_tool = [];
  token_estimate_used = 0;
}

abbrev search_web : ToolCallRequest
search_web = record { name = "search_web"; arguments = "{}" }

abbrev batch : List ToolCallRequest
batch = search_web ∷ search_web ∷ search_web ∷ []

abbrev dumps : String → String
dumps reason = reason

abbrev runtime : ToolRuntime
runtime = record { answer = λ request. err "no"; suspends = λ request. true; locks = true }

fresh-create : create (pos 2) (pos 2) (pos 10) ≡ ok fresh
unfolding create
fresh-create = refl

IsSound-fresh : IsSound fresh
unfolding calls_used_for Dict.get_or
IsSound-fresh = record { step = omega arith; tool = λ name. omega arith; balanced = refl }

refused_third : (execute_sequentially dumps runtime fresh batch).0.calls_used ≡ 2
unfolding execute_sequentially execute_with_budget run_tool build_exceeded_result check_call
    record_call Dict.get_or Dict.put estimate_tokens
refused_third = refl

output_estimate :
    (request : ToolCallRequest) → estimate_tokens (run_tool dumps runtime request).output ≤ 1
unfolding estimate_tokens run_tool
output_estimate request = omega arith

gather_overshoots_example :
    (gather dumps runtime fresh batch).0.max_calls_per_step
    < (gather dumps runtime fresh batch).0.calls_used
unfolding check_call Dict.get_or remaining_calls
gather_overshoots_example =
    gather_overshoots dumps runtime fresh batch (refl, (refl, (refl, tt)))
      (refl, (refl, (refl, tt))) (omega arith)
