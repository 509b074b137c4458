-- ===== src/Tools/Runtime/Examples.antt =====
-- A runtime with a tool that times out once, whose fallback needs a permission.
use atlas_agent_control_plan.Prelude.{
  String, true, false, ◌≡◌, refl, none, some, List, [], ◌∷◌, string_eq, if◌then◌else◌, ◌==◌,
}
use atlas_agent_control_plan.Prelude.Int.{pos}
use atlas_agent_control_plan.Prelude.Result.{Result, ok, err}
use atlas_agent_control_plan.Tools.Call.{ToolCallResult, ToolInvocationStatus}
use atlas_agent_control_plan.Tools.Policy.{ToolExecutionContext, ToolRiskLevel, policy_decision}
use atlas_agent_control_plan.Tools.Policy.Laws.{policy_decision-executable}
use atlas_agent_control_plan.Tools.Runtime.{
  Runtime, RuntimeState, RuntimeError, app_exception, AgentTool, InvocationOutcome, InvocationRow,
  given, find_memory, find_stored, is_succeeded, stored_result,
}
use atlas_agent_control_plan.Tools.Runtime.Execute.{ran, execute_alone, execute}
use atlas_agent_control_plan.Tools.Runtime.Permitted.{Ran, execute-Ran}
use atlas_agent_control_plan.Tools.Runtime.Clean.{IsClean, execute-IsClean}
use atlas_agent_control_plan.Tools.Runtime.Replay.{execute-again, execute-stored}

abbrev search : AgentTool
search = record {
  definition = record {
    name = "web_search";
    version = "1";
    risk_level = ToolRiskLevel.high;
    required_permissions = "net" ∷ [];
    idempotent = true;
  };
  cacheable = false;
  cache_ttl_seconds = pos 300;
  fallback_tool = none;
}

abbrev registered : String → Result RuntimeError AgentTool
registered name = if name == "web_search" then ok search else err (app_exception "tool not found")

abbrev runtime : Runtime
runtime = record {
  registry = registered;
  validate = λ tool arguments. ok arguments;
  request_hash = λ name version arguments. arguments;
  build_key = λ name version arguments. arguments;
  configured = [];
  sorted = λ texts. texts;
  auto_approve = ToolRiskLevel.medium;
  retry_policy = record {
    enabled = true;
    max_retries = pos 2;
    base_backoff_seconds = 1;
    backoff_factor = 2;
  };
  lower = λ text. text;
  invoke_tool = λ invoked tool arguments. answer invoked;
  preview = λ text. text;
}
  where
    answer : List String → InvocationOutcome
    answer [] = record {
      output = "slow";
      status = ToolInvocationStatus.timed_out;
      error = "timeout";
    }
    answer (name ∷ names) = record {
      output = "found";
      status = ToolInvocationStatus.succeeded;
      error = "";
    }

abbrev context : ToolExecutionContext
context = record {
  allowed_permissions = "net" ∷ [];
  approved = true;
  approval_reason = "";
  idempotency_key = some "k";
}

abbrev fresh : RuntimeState
fresh = record {
  result_cache = none;
  memory_idempotency = [];
  rows = none;
  invoked = [];
  next_id = 0;
}

found : ToolCallResult
found = record {
  tool_name = "web_search";
  arguments = "q";
  output = "found";
  invocation_id = some 0;
  status = ToolInvocationStatus.succeeded;
  budget_exceeded = none;
  request_hash = some "q";
  cache_hit = false;
}

-- The first run times out, the second succeeds.
abbrev after : RuntimeState
after = record fresh {
  memory_idempotency = (("web_search", "k"), found) ∷ [];
  invoked = "web_search" ∷ "web_search" ∷ [];
  next_id = 1;
}

retries_once :
    execute_alone runtime "web_search" "q" context 5 fresh ≡ (after, ok (ran search found ""))
unfolding execute_alone found
retries_once = refl

execute-Ran_example :
    Ran runtime context 6 [] (execute runtime "web_search" "q" context 5 fresh).0.invoked
execute-Ran_example = execute-Ran runtime context "web_search" "q" 5 fresh

execute-IsClean_example : IsClean (execute runtime "web_search" "q" context 5 fresh).0
execute-IsClean_example =
    execute-IsClean runtime context "web_search" "q" 5 fresh (record { cache = tt; memory = tt })

execute-again_example :
    execute runtime "web_search" "q" (record context { approved = false }) 9 after
    ≡ (after, ok (record found { status = ToolInvocationStatus.deduplicated }))
unfolding given found is_succeeded
execute-again_example =
    execute-again runtime "web_search" "q" "q" "k" search refl refl context
      (record context { approved = false }) 5 9 fresh after search found "" refl refl retries_once
      refl

-- The call waited for an approval, and has it now.
abbrev waiting_row : InvocationRow
waiting_row = record {
  id = 0;
  tool_name = "web_search";
  idempotency_key = some "k";
  request_hash = "q";
  arguments = "q";
  status = ToolInvocationStatus.approval_required;
  output_preview = "high risk tool requires explicit approval";
}

abbrev stored : RuntimeState
stored = record fresh { rows = some (waiting_row ∷ []); next_id = 1 }

execute-stored_example :
    execute runtime "web_search" "q" context 9 stored
    ≡ (stored, ok (stored_result "web_search" "q" waiting_row))
unfolding given find_memory find_stored is_succeeded stored_result
execute-stored_example =
    execute-stored runtime "web_search" "q" "q" "k" search refl refl context 9 stored
      (waiting_row ∷ []) waiting_row refl refl refl refl refl

policy_decision-executable_example :
    (policy_decision
      (λ texts. texts)
      (("search", false) ∷ [])
      ToolRiskLevel.medium
      "web_search"
      search.definition
      context).executable
    ≡ false
unfolding policy_decision
policy_decision-executable_example =
    policy_decision-executable (λ texts. texts) ToolRiskLevel.medium search.definition context
      (("search", false) ∷ []) "web_search"
