-- ===== src/Tools/Runtime/Execute.antt =====
-- ToolRuntime._execute_one and execute of backend/api/app/application/tool_runtime.py.
use atlas_agent_control_plan.Prelude.{
  ℕ, zero, suc, ◌+◌, String, false, ◌&&◌, ◌||◌, Option, none, some, List, [], ◌∷◌, ◌++◌, string_eq,
  ◌==◌, if◌then◌else◌,
}
use atlas_agent_control_plan.Prelude.Int.{pos_part}
use atlas_agent_control_plan.Prelude.Result.{Result, ok, err}
use atlas_agent_control_plan.Prelude.Text.{is_empty}
use atlas_agent_control_plan.Acceptance.Gate.{concat}
use atlas_agent_control_plan.Tools.Call.{ToolCallResult}
use atlas_agent_control_plan.Tools.Policy.{
  ToolExecutionContext, ToolPolicyDecision, policy_decision,
}
use atlas_agent_control_plan.Tools.Resilience.{is_retryable_error_text}
use atlas_agent_control_plan.Tools.Runtime.{
  Runtime, RuntimeState, RuntimeError, app_exception, other_exception, AgentTool, InvocationOutcome,
  InvocationRow, is_cache_eligible, is_succeeded, is_failure, given, find_idempotent, deduplicate,
  mark_result_cache_hit, read_cache, write_cache, record_start, record_finish, remember_success,
}

-- How a single execution ends: a reply without a run of the handler, or a run of the tool, with the
-- result and the error of the outcome.
pub data Answer : Type 0 where
  replied : ToolCallResult → Answer
  ran : AgentTool → ToolCallResult → String → Answer

module _ (runtime : Runtime) where
  unfoldable pub decide : String → AgentTool → ToolExecutionContext → ToolPolicyDecision
  unfolding policy_decision
  decide tool_name tool context =
      policy_decision runtime.sorted runtime.configured runtime.auto_approve tool_name
        tool.definition context

  -- The retries that _invoke_with_resilience may make after the first invocation.
  unfoldable pub retries_of : AgentTool → ℕ
  retries_of tool =
      if runtime.retry_policy.enabled && tool.definition.idempotent
      then pos_part runtime.retry_policy.max_retries
      else 0

  -- The `while` loop, with `left` retries to go.
  unfoldable pub retry_loop :
      ℕ
      → String
      → AgentTool
      → String
      → List String
      → InvocationOutcome
      → List String × InvocationOutcome
  unfolding is_failure is_retryable_error_text
  retry_loop zero tool_name tool arguments invoked outcome = (invoked, outcome)
  retry_loop (suc left) tool_name tool arguments invoked outcome =
      if is_failure outcome.status && is_retryable_error_text runtime.lower outcome.error
      then retry_loop left tool_name tool arguments (invoked ++ tool_name ∷ [])
          (runtime.invoke_tool invoked tool arguments)
      else (invoked, outcome)

  unfoldable pub invoke_with_resilience :
      String → AgentTool → String → List String → List String × InvocationOutcome
  unfolding retries_of retry_loop
  invoke_with_resilience tool_name tool arguments invoked =
      retry_loop (retries_of tool) tool_name tool arguments (invoked ++ tool_name ∷ [])
        (runtime.invoke_tool invoked tool arguments)

  unfoldable pub build_result : String → String → ℕ → String → InvocationOutcome → ToolCallResult
  build_result tool_name arguments id request_hash outcome = record {
    tool_name = tool_name;
    arguments = arguments;
    output = runtime.preview outcome.output;
    invocation_id = some id;
    status = outcome.status;
    budget_exceeded = none;
    request_hash = some request_hash;
    cache_hit = false;
  }

  -- The result of _finish_denied.
  unfoldable pub denied_result : String → String → ℕ → ToolPolicyDecision → ToolCallResult
  denied_result tool_name arguments id decision = record {
    tool_name = tool_name;
    arguments = arguments;
    output = decision.reason;
    invocation_id = some id;
    status = decision.status;
    budget_exceeded = none;
    request_hash = none;
    cache_hit = false;
  }

  unfoldable pub start_row :
      String
      → String
      → String
      → AgentTool
      → ToolExecutionContext
      → ToolPolicyDecision
      → ℕ
      → InvocationRow
  start_row tool_name arguments request_hash tool context decision id = record {
    id = id;
    tool_name = tool.definition.name;
    idempotency_key = context.idempotency_key;
    request_hash = request_hash;
    arguments = arguments;
    status = decision.status;
    output_preview = "";
  }

  -- From the outcome to the end: the row, the result cache and the memory of successes.
  unfoldable pub finish_run :
      String
      → Option String
      → String
      → AgentTool
      → ToolCallResult
      → String
      → ℕ
      → ℕ
      → RuntimeState
      → RuntimeState × Result RuntimeError Answer
  unfolding write_cache record_finish remember_success is_cache_eligible is_succeeded
  finish_run tool_name key cache_key tool result error id now state =
      let rows = record_finish id result state.rows in
      elim (write_cache (is_cache_eligible tool && is_succeeded result.status) state.result_cache
        cache_key result tool.cache_ttl_seconds now) [
          | err raised ↦ (record state { rows = rows }, err raised)
          | ok result_cache ↦ (
            record state {
              rows = rows;
              result_cache = result_cache;
              memory_idempotency = remember_success tool_name key result state.memory_idempotency;
            },
            ok (ran tool result error),
          )
        ]

  -- A call that neither cache answers: its row, then the denial or the run.
  -- What follows the row of a call.
  unfoldable pub run_started :
      String
      → String
      → String
      → AgentTool
      → ToolExecutionContext
      → ℕ
      → Option (List InvocationRow)
      → RuntimeState
      → RuntimeState × Result RuntimeError Answer
  unfolding decide record_finish denied_result build_result invoke_with_resilience finish_run given
  run_started tool_name arguments request_hash tool context now rows state =
      let decision = decide tool_name tool context in
      let id = state.next_id in
      let denied = denied_result tool_name arguments id decision in
      if decision.executable
      then (let (invoked, outcome) =
            invoke_with_resilience tool_name tool arguments state.invoked in
          finish_run tool_name (given context.idempotency_key)
            (runtime.build_key tool_name tool.definition.version arguments) tool
            (build_result tool_name arguments id request_hash outcome) outcome.error id now
            (record state { rows = rows; invoked = invoked; next_id = id + 1 }))
      else (
        record state { rows = record_finish id denied rows; next_id = id + 1 },
        ok (replied denied),
      )

  unfoldable pub run_or_deny :
      String
      → String
      → String
      → AgentTool
      → ToolExecutionContext
      → ℕ
      → RuntimeState
      → RuntimeState × Result RuntimeError Answer
  unfolding decide record_start start_row run_started
  run_or_deny tool_name arguments request_hash tool context now state =
      let decision = decide tool_name tool context in
      let started =
        record_start
          (start_row tool_name arguments request_hash tool context decision state.next_id)
          state.rows in
      elim started [
        | err raised ↦ (state, err raised)
        | ok rows ↦ run_started tool_name arguments request_hash tool context now rows state
      ]

  -- The result cache is asked only for a call that may run and a tool that may be cached.
  unfoldable pub ask_cache :
      String
      → String
      → String
      → AgentTool
      → ToolExecutionContext
      → ℕ
      → RuntimeState
      → RuntimeState × Result RuntimeError Answer
  unfolding decide read_cache is_cache_eligible mark_result_cache_hit run_or_deny
  ask_cache tool_name arguments request_hash tool context now state =
      let (hit, result_cache) =
        read_cache ((decide tool_name tool context).executable && is_cache_eligible tool)
          state.result_cache (runtime.build_key tool_name tool.definition.version arguments) now in
      let state' = record state { result_cache = result_cache } in
      elim hit [
        | some cached ↦ (state', ok (replied (mark_result_cache_hit arguments cached)))
        | none ↦ run_or_deny tool_name arguments request_hash tool context now state'
      ]

  unfoldable pub with_arguments :
      String
      → String
      → AgentTool
      → ToolExecutionContext
      → ℕ
      → RuntimeState
      → RuntimeState × Result RuntimeError Answer
  unfolding find_idempotent deduplicate ask_cache given
  with_arguments tool_name arguments tool context now state =
      let request_hash = runtime.request_hash tool_name tool.definition.version arguments in
      elim (find_idempotent tool_name (given context.idempotency_key) request_hash state) [
        | err raised ↦ (state, err raised)
        | ok (some cached) ↦ (state, ok (replied (deduplicate cached)))
        | ok none ↦ ask_cache tool_name arguments request_hash tool context now state
      ]

  -- _execute_one up to the fallback
  unfoldable pub execute_alone :
      String
      → String
      → ToolExecutionContext
      → ℕ
      → RuntimeState
      → RuntimeState × Result RuntimeError Answer
  unfolding with_arguments
  execute_alone tool_name arguments context now state = elim (runtime.registry tool_name) [
    | err raised ↦ (state, err raised)
    | ok tool ↦ elim (runtime.validate tool arguments) [
      | err raised ↦ (state, err raised)
      | ok checked ↦ with_arguments tool_name checked tool context now state
    ]
  ]

  unfoldable pub result_of : Answer → ToolCallResult
  result_of (replied result) = result
  result_of (ran tool result error) = result

  -- The note of _mark_fallback.
  unfoldable pub fallback_note : String → ToolCallResult → String
  unfolding is_succeeded concat
  fallback_note primary_name result =
      if is_succeeded result.status
      then concat "[降级提示：主工具 "
          (concat primary_name (concat " 失败，已自动切换降级工具 " (concat result.tool_name "]")))
      else concat "[降级提示：主工具 "
          (concat primary_name (concat " 与降级工具 " (concat result.tool_name " 均失败]")))

  unfoldable pub mark_fallback : String → ToolCallResult → ToolCallResult
  unfolding fallback_note concat
  mark_fallback primary_name result = record result {
    output = concat (fallback_note primary_name result) (concat "\n" result.output);
  }

  -- _try_fallback, and its answer in place of the primary result
  unfoldable pub settle_fallback :
      String
      → ToolCallResult
      → RuntimeState × Result RuntimeError Answer
      → RuntimeState × Result RuntimeError ToolCallResult
  unfolding result_of mark_fallback
  settle_fallback primary_name primary (state, ok answer) =
      (state, ok (mark_fallback primary_name (result_of answer)))
  settle_fallback primary_name primary (state, err (app_exception message)) = (state, ok primary)
  settle_fallback primary_name primary (state, err (other_exception message)) =
      (state, err (other_exception message))

  -- fallback_tool, where there is one of another name
  unfoldable pub fallback_of : String → AgentTool → Option String
  fallback_of tool_name tool = elim tool.fallback_tool [
    | none ↦ none
    | some fallback ↦ if is_empty fallback || fallback == tool_name then none else some fallback
  ]

  unfoldable pub after_run :
      String
      → String
      → ToolExecutionContext
      → ℕ
      → RuntimeState × Result RuntimeError Answer
      → RuntimeState × Result RuntimeError ToolCallResult
  unfolding execute_alone settle_fallback fallback_of is_failure
  after_run tool_name arguments context now (state, err raised) = (state, err raised)
  after_run tool_name arguments context now (state, ok (replied result)) = (state, ok result)
  after_run tool_name arguments context now (state, ok (ran tool result error)) =
      elim (fallback_of tool_name tool) [
        | none ↦ (state, ok result)
        | some fallback ↦
            if is_failure result.status
            then settle_fallback tool.definition.name result
                (execute_alone fallback arguments context now state)
            else (state, ok result)
      ]

  -- execute
  unfoldable pub execute :
      String
      → String
      → ToolExecutionContext
      → ℕ
      → RuntimeState
      → RuntimeState × Result RuntimeError ToolCallResult
  unfolding execute_alone after_run
  execute tool_name arguments context now state =
      after_run tool_name arguments context now
        (execute_alone tool_name arguments context now state)
