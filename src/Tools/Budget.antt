-- ===== src/Tools/Budget.antt =====
-- backend/api/app/domain/agent_core/tool_budget.py, and the calls that
-- backend/api/app/application/agent_loop.py makes of it. Texts for a reader (detail, suggestion) are
-- left out.
pub mod Laws
pub mod Gather
mod Examples
use atlas_agent_control_plan.Prelude.{
  ℕ, suc, ◌+◌, ◌-◌, ◌/◌, String, Bool, true, false, not, ◌&&◌, ◌||◌, Option, none, some, List, [],
  ◌∷◌, ◌++◌, map, leb, max, str_len, string_eq, if◌then◌else◌,
}
use atlas_agent_control_plan.Prelude.Dict
use atlas_agent_control_plan.Prelude.Dict.{Dict}
use atlas_agent_control_plan.Prelude.Int.{ℤ, pos_part, is_nonpos}
use atlas_agent_control_plan.Prelude.Result.{Result, ok, err}
use atlas_agent_control_plan.Tools.Call.{ToolCallRequest, ToolCallResult, ToolInvocationStatus}

-- math.ceil(len(text) / 2), at least 1 for a text that is not empty
unfoldable pub estimate_tokens : String → ℕ
estimate_tokens text = if leb (str_len text) 0 then 0 else max 1 ((str_len text + 1) / 2)

pub record BudgetCheckResult : Type 0 where
  pub allowed : Bool
  pub reason : String

pub record ToolBudget : Type 0 where
  pub max_calls_per_step : ℕ
  pub max_calls_per_tool : ℕ
  pub max_token_estimate : ℕ
  pub calls_used : ℕ
  pub calls_by_tool : Dict String ℕ
  pub token_estimate_used : ℕ

-- The constructor and `__post_init__`.
pub create : ℤ → ℤ → ℤ → Result String ToolBudget
create per_step per_tool tokens =
    if is_nonpos per_step
    then err "max_calls_per_step must be positive"
    else if is_nonpos per_tool
    then err "max_calls_per_tool must be positive"
    else if is_nonpos tokens
    then err "max_token_estimate must be positive"
    else ok (record {
      max_calls_per_step = pos_part per_step;
      max_calls_per_tool = pos_part per_tool;
      max_token_estimate = pos_part tokens;
      calls_used = 0;
      calls_by_tool = [];
      token_estimate_used = 0;
    })

unfoldable pub calls_used_for : ToolBudget → String → ℕ
calls_used_for b tool_name = Dict.get_or tool_name b.calls_by_tool 0

-- max(0, a - b) is the subtraction of ℕ
pub remaining_calls : ToolBudget → ℕ
remaining_calls b = b.max_calls_per_step - b.calls_used

unfoldable pub check_call : ToolBudget → String → BudgetCheckResult
unfolding calls_used_for
check_call b tool_name =
    if leb b.max_calls_per_step b.calls_used
    then record { allowed = false; reason = "step_call_limit" }
    else if leb b.max_calls_per_tool (calls_used_for b tool_name)
    then record { allowed = false; reason = "tool_call_limit" }
    else if leb b.max_token_estimate b.token_estimate_used
    then record { allowed = false; reason = "token_estimate_limit" }
    else record { allowed = true; reason = "" }

unfoldable pub record_call : ToolBudget → String → String → ToolBudget
unfolding calls_used_for
record_call b tool_name output = record b {
  calls_used = b.calls_used + 1;
  calls_by_tool = Dict.put tool_name (calls_used_for b tool_name + 1) b.calls_by_tool;
  token_estimate_used = b.token_estimate_used + estimate_tokens output;
}

-- ToolRuntime.execute as a batch meets it: its answer, whether it gives up control before it has one
-- (an unknown tool, refused arguments and a remembered answer are answered at once), and whether
-- there is a unit of work, so that a call waits for the lock while another one is under way.
pub record ToolRuntime : Type 0 where
  pub answer : ToolCallRequest → Result String ToolCallResult
  pub suspends : ToolCallRequest → Bool
  pub locks : Bool

-- The JSON text of the payload is `dumps reason`.
module _ (dumps : String → String) where
  pub build_exceeded_result : String → BudgetCheckResult → String → ToolCallResult
  build_exceeded_result tool_name check arguments = record {
    tool_name = tool_name;
    arguments = arguments;
    invocation_id = none;
    request_hash = none;
    cache_hit = false;
    output = dumps check.reason;
    status = ToolInvocationStatus.failed;
    budget_exceeded = some check.reason;
  }

  module _ (runtime : ToolRuntime) where
    -- the `try` around the runtime: an AppException becomes a failed result
    unfoldable pub run_tool : ToolCallRequest → ToolCallResult
    run_tool request = elim (runtime.answer request) [
      | ok result ↦ result
      | err message ↦ record {
        tool_name = request.name;
        arguments = request.arguments;
        invocation_id = none;
        request_hash = none;
        cache_hit = false;
        output = message;
        status = ToolInvocationStatus.failed;
        budget_exceeded = none;
      }
    ]

    -- StepAgentLoop._execute_with_budget, where no other call runs between check and record
    unfoldable pub execute_with_budget : ToolBudget → ToolCallRequest → ToolBudget × ToolCallResult
    execute_with_budget b request =
        let check = check_call b request.name in
        if check.allowed
        then (let result = run_tool request in (record_call b request.name result.output, result))
        else (b, build_exceeded_result request.name check request.arguments)

    -- a batch that is not run in parallel: one call after the other
    unfoldable pub execute_sequentially :
        ToolBudget → List ToolCallRequest → ToolBudget × List ToolCallResult
    execute_sequentially b [] = (b, [])
    execute_sequentially b (request ∷ rest) =
        let (b', result) = execute_with_budget b request in
        let (b'', results) = execute_sequentially b' rest in (b'', result ∷ results)

    -- The coroutines of a parallel batch run in order, each up to its first suspension, which is inside
    -- the runtime; `held` is whether an earlier one holds the lock. A call that the runtime answers
    -- without suspending is recorded before the next check; the others are left waiting.
    unfoldable pub start_all :
        Bool
        → ToolBudget
        → List ToolCallRequest
        → ToolBudget × List ToolCallRequest × List ToolCallResult
    start_all held b [] = (b, [], [])
    start_all held b (request ∷ rest) =
        let check = check_call b request.name in
        let result = run_tool request in
        let waits = check.allowed && (held || runtime.suspends request) in
        let (b', waiting, results) =
          start_all (held || runtime.locks && waits)
            (if check.allowed && not waits then record_call b request.name result.output else b)
            rest in
        (
          b',
          (if waits then request ∷ waiting else waiting),
          (if check.allowed
                then result
                else build_exceeded_result request.name check request.arguments)
              ∷ results,
        )

    -- The calls that waited are recorded as they come back; the counts are the same in any order.
    unfoldable pub record_all : ToolBudget → List ToolCallRequest → ToolBudget
    record_all b [] = b
    record_all b (request ∷ rest) =
        record_all (record_call b request.name (run_tool request).output) rest

    -- asyncio.gather of the batch
    unfoldable pub gather : ToolBudget → List ToolCallRequest → ToolBudget × List ToolCallResult
    unfolding start_all record_all
    gather b batch =
        let (b', waiting, results) = start_all false b batch in (record_all b' waiting, results)
