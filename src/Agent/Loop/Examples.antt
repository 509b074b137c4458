-- ===== src/Agent/Loop/Examples.antt =====
-- A step whose strategy asks for two reads of a page and its opening, and then answers.
use atlas_agent_control_plan.Prelude.{
  ◌+◌, ◌≤◌, ◌<◌, true, ℕ, zero, suc, String, false, ◌≡◌, refl, nat_beq, Option, none, some, List,
  [], ◌∷◌, arith, string_eq, ◌==◌, if◌then◌else◌,
}
use atlas_agent_control_plan.Prelude.Dict
use atlas_agent_control_plan.Prelude.Result.{Result, ok, err}
use atlas_agent_control_plan.Tools.Budget.{
  ToolRuntime, ToolBudget, estimate_tokens, run_tool, calls_used_for,
}
use atlas_agent_control_plan.Tools.Budget.Laws.{IsSound}
use atlas_agent_control_plan.Tools.Call.{ToolCallRequest}
use atlas_agent_control_plan.Agent.Loop.{TurnOutcome, LoopSettings, LoopState, run_turn, run_loop}
use atlas_agent_control_plan.Agent.Loop.Laws.{IsWithin, run_loop-IsWithin}
use atlas_agent_control_plan.Agent.Loop.Results.{run_turn-answers}
use atlas_agent_control_plan.Agent.Loop.Spending.{run_loop-limits}

abbrev budget : ToolBudget
budget = record {
  max_calls_per_step = 2;
  max_calls_per_tool = 2;
  max_token_estimate = 10;
  calls_used = 0;
  calls_by_tool = [];
  token_estimate_used = 0;
}

budget-IsSound : IsSound budget
unfolding calls_used_for Dict.get_or
budget-IsSound = record { step = omega arith; tool = λ name. omega arith; balanced = refl }

abbrev settings : LoopSettings
settings = record {
  max_iterations = 4;
  max_tool_calls = 6;
  repeat_call_limit = 3;
  parallel_batches = false;
}

abbrev opens : ToolCallRequest
opens = record { name = "browser_open"; arguments = "{}" }

abbrev reads : ToolCallRequest
reads = record { name = "browser_read"; arguments = "{}" }

abbrev requests : List ToolCallRequest
requests = reads ∷ reads ∷ opens ∷ []

abbrev dumps : String → String
dumps reason = reason

abbrev runtime : ToolRuntime
runtime = record { answer = λ request. err "no page"; suspends = λ request. true; locks = true }

abbrev tags : String → Option (List String × List String)
tags name =
    if name == "browser_open"
    then some ("page_opened" ∷ [], [])
    else if name == "browser_read"
    then some ([], "page_opened" ∷ [])
    else none

abbrev key_of : ToolCallRequest → String
key_of request = request.name

abbrev trim : String → String
trim text = text

abbrev next_turn : ℕ → Result String TurnOutcome
next_turn zero = err "no turn"
next_turn (suc turn) =
    if nat_beq turn 0
    then ok (record { tool_calls = requests; content = "" })
    else ok (record { tool_calls = []; content = "done" })

abbrev unreachable : ℕ → Result String TurnOutcome
unreachable turn = err "no model"

abbrev first_state : LoopState
first_state = record {
  executed = [];
  total_tool_calls = 0;
  repeat_key = none;
  repeat_count = 0;
  notices = 0;
  budget = budget;
}

run_turn-answers_example :
    (next : LoopState) × (run_turn dumps runtime settings tags key_of 1 requests first_state
      ≡ some next)
    × (next.total_tool_calls ≡ 3)
run_turn-answers_example =
    run_turn-answers dumps runtime settings tags key_of 1 requests first_state

run_loop-IsWithin_example :
    IsWithin settings 5 (run_loop dumps runtime settings tags key_of trim next_turn budget).1
run_loop-IsWithin_example =
    run_loop-IsWithin dumps runtime settings tags key_of trim next_turn budget

output_estimate :
    (request : ToolCallRequest) → estimate_tokens (run_tool dumps runtime request).output ≤ 4
unfolding estimate_tokens run_tool
output_estimate request = omega arith

run_loop-limits_example :
    IsSound (run_loop dumps runtime settings tags key_of trim next_turn budget).0.budget
    × ((run_loop dumps runtime settings tags key_of trim next_turn
          budget).0.budget.token_estimate_used
        < 10 + 4)
run_loop-limits_example =
    run_loop-limits dumps runtime settings refl tags key_of trim next_turn 4 budget output_estimate
      budget-IsSound (omega arith)
