-- ===== src/Agent/Loop.antt =====
-- The turns of a step in backend/api/app/application/agent_loop.py. `next_turn` is what the strategy
-- answers turn by turn, `tags` what a registered tool provides and requires, `key_of` the JSON text of
-- a call, and `trim` cuts an output. Messages are left out but for the count of notices to stop, and
-- so are the ids of calls.
pub mod Laws
mod Examples
pub mod Steps
pub mod Results
pub mod Spending
use atlas_agent_control_plan.Prelude.{
  ℕ, zero, suc, ◌+◌, String, Bool, true, false, ◌&&◌, Option, none, some, List, [], ◌∷◌, ◌++◌, map,
  any_of, length, get_elem?, leb, ltb, nat_eq, string_eq, ◌==◌, if◌then◌else◌,
}
use atlas_agent_control_plan.Prelude.Dict
use atlas_agent_control_plan.Prelude.Dict.{Dict}
use atlas_agent_control_plan.Prelude.Result.{Result, ok, err}
use atlas_agent_control_plan.Prelude.Text.{is_empty, strip}
use atlas_agent_control_plan.Acceptance.Gate.{concat}
use atlas_agent_control_plan.Tools.Budget.{ToolRuntime, ToolBudget, execute_sequentially, gather}
use atlas_agent_control_plan.Tools.Call.{ToolCallRequest, ToolCallResult}
use atlas_agent_control_plan.Tools.Deps.{ToolCall, plan_positions, range}

pub record TurnOutcome : Type 0 where
  pub tool_calls : List ToolCallRequest
  pub content : String

pub record StepToolCall : Type 0 where
  pub turn : ℕ
  pub result : ToolCallResult

pub record StepLoopResult : Type 0 where
  pub tool_calls : List StepToolCall
  pub summary : String

-- agent_step_max_iterations, agent_step_max_tool_calls, agent_step_repeat_call_limit and
-- tool_parallel_batches_enabled
pub record LoopSettings : Type 0 where
  pub max_iterations : ℕ
  pub max_tool_calls : ℕ
  pub repeat_call_limit : ℕ
  pub parallel_batches : Bool

-- The variables of the loop, and the budget that it shares.
pub record LoopState : Type 0 where
  pub executed : List StepToolCall
  pub total_tool_calls : ℕ
  pub repeat_key : Option String
  pub repeat_count : ℕ
  pub notices : ℕ
  pub budget : ToolBudget

-- The loop returns a result or None, or raises.
pub data LoopEnd : Type 0 where
  returned : StepLoopResult → LoopEnd
  nothing : LoopEnd
  raised : String → LoopEnd

-- A step ends by the loop of a strategy, or by the rule that calls one tool on a budget.
pub data StepEnd : Type 0 where
  by_loop : LoopEnd → StepEnd
  by_rule : ToolBudget → StepEnd

unfoldable pub is_key : String → Option String → Bool
is_key key none = false
is_key key (some current) = key == current

-- _track_repeat
unfoldable pub track_repeat : Option String → ℕ → String → Option String × ℕ
unfolding is_key
track_repeat current_key current_count key =
    if is_key key current_key then (some key, current_count + 1) else (some key, 1)

-- The lines of _fallback_summary.
unfoldable pub summary_lines : (String → String) → List StepToolCall → String
unfolding concat
summary_lines trim [] = ""
summary_lines trim (item ∷ items) = concat "\n- " (
    concat item.result.tool_name
      (concat "：" (concat (trim item.result.output) (summary_lines trim items))))

unfoldable pub fallback_summary : (String → String) → List StepToolCall → String
unfolding summary_lines concat
fallback_summary trim [] = "本步骤未执行任何工具。"
fallback_summary trim (item ∷ items) = concat "本步骤执行了以下操作：" (summary_lines trim (item ∷ items))

-- [(index, requests[index]) for index in positions]
unfoldable pub at_positions : List ToolCallRequest → List ℕ → List (ℕ × ToolCallRequest)
at_positions requests [] = []
at_positions requests (index ∷ rest) = elim (get_elem? requests index) [
  | none ↦ at_positions requests rest
  | some request ↦ (index, request) ∷ at_positions requests rest
]

-- [[(index, request)] for index, request in enumerate(requests)], from `index` on
unfoldable pub one_by_one : ℕ → List ToolCallRequest → List (List (ℕ × ToolCallRequest))
one_by_one index [] = []
one_by_one index (request ∷ requests) = ((index, request) ∷ []) ∷ one_by_one (index + 1) requests

module _ (tags : String → Option (List String × List String)) where
  -- tool_call_from_definition, or a call without tags for an unknown tool
  unfoldable pub to_tool_call : ToolCallRequest → ToolCall
  to_tool_call request = elim (tags request.name) [
    | none ↦ record {
      name = request.name;
      arguments = request.arguments;
      provides = [];
      requires = [];
      call_id = none;
    }
    | some (provides, requires) ↦ record {
      name = request.name;
      arguments = request.arguments;
      provides = provides;
      requires = requires;
      call_id = none;
    }
  ]

  unfoldable pub plan_batches : List ToolCallRequest → List (List (ℕ × ToolCallRequest))
  unfolding to_tool_call at_positions one_by_one plan_positions
  plan_batches requests = elim (plan_positions (map to_tool_call requests)) [
    | err stuck ↦ one_by_one 0 requests
    | ok batches ↦ map (at_positions requests) batches
  ]

-- for (offset, _), result in zip(batch, batch_results): offset_to_result[offset] = result
unfoldable pub collect :
    List (ℕ × ToolCallRequest) → List ToolCallResult → Dict ℕ ToolCallResult → Dict ℕ ToolCallResult
unfolding Dict.put
collect [] results found = found
collect (item ∷ items) [] found = found
collect ((offset, request) ∷ items) (result ∷ results) found =
    collect items results (Dict.put offset result found)

-- [offset_to_result[offset] for offset in range(len(tool_calls))], none for a KeyError
unfoldable pub in_order : List ℕ → Dict ℕ ToolCallResult → Option (List ToolCallResult)
unfolding Dict.get
in_order [] found = some []
in_order (offset ∷ offsets) found = elim (Dict.get offset found) [
  | none ↦ none
  | some result ↦ elim (in_order offsets found) [
    | none ↦ none
    | some results ↦ some (result ∷ results)
  ]
]

-- The requests of a batch.
abbrev pub requests_of : List (ℕ × ToolCallRequest) → List ToolCallRequest
requests_of batch = map (λ (item : ℕ × ToolCallRequest). item.1) batch

unfoldable pub is_budget_exceeded : ToolCallResult → Bool
is_budget_exceeded result = elim result.budget_exceeded [ none ↦ false | some reason ↦ true ]

module _ (dumps : String → String) (runtime : ToolRuntime) (settings : LoopSettings) where
  unfoldable pub execute_batch :
      ToolBudget → List (ℕ × ToolCallRequest) → ToolBudget × List ToolCallResult
  unfolding gather execute_sequentially
  execute_batch budget batch =
      if ltb 1 (length batch) && settings.parallel_batches
      then gather dumps runtime budget (requests_of batch)
      else execute_sequentially dumps runtime budget (requests_of batch)

  unfoldable pub execute_batches :
      ToolBudget
      → List (List (ℕ × ToolCallRequest))
      → Dict ℕ ToolCallResult
      → ToolBudget × Dict ℕ ToolCallResult
  unfolding execute_batch collect
  execute_batches budget [] found = (budget, found)
  execute_batches budget (batch ∷ batches) found =
      let (budget', results) = execute_batch budget batch in
      execute_batches budget' batches (collect batch results found)

  -- The loop over the calls of a turn and their results.
  unfoldable pub add_results :
      (ToolCallRequest → String)
      → ℕ
      → List ToolCallRequest
      → List ToolCallResult
      → LoopState
      → LoopState
  unfolding track_repeat
  add_results key_of turn [] results state = state
  add_results key_of turn (request ∷ requests) [] state = state
  add_results key_of turn (request ∷ requests) (result ∷ results) state =
      let (repeat_key, repeat_count) =
        track_repeat state.repeat_key state.repeat_count (key_of request) in
      let repeated = leb settings.repeat_call_limit repeat_count in
      add_results key_of turn requests results (record state {
        executed = state.executed ++ record { turn = turn; result = result } ∷ [];
        total_tool_calls = state.total_tool_calls + 1;
        repeat_key = repeat_key;
        repeat_count = if repeated then 0 else repeat_count;
        notices = if repeated then state.notices + 1 else state.notices;
      })

  module _ (tags : String → Option (List String × List String))
      (key_of : ToolCallRequest → String) where
    -- A turn with calls; none for a KeyError among the results.
    unfoldable pub run_turn : ℕ → List ToolCallRequest → LoopState → Option LoopState
    unfolding execute_batches in_order range plan_batches add_results is_budget_exceeded
    run_turn turn requests state =
        let (budget, found) = execute_batches state.budget (plan_batches tags requests) [] in
        elim (in_order (range 0 (length requests)) found) [
          | none ↦ none
          | some results ↦
              (let after =
                  add_results key_of turn requests results (record state { budget = budget }) in
                some (record after {
                  notices =
                      if any_of is_budget_exceeded results
                      then after.notices + 1
                      else after.notices;
                }))
        ]

    module _ (trim : String → String) (next_turn : ℕ → Result String TurnOutcome) where
      unfoldable pub final_summary : String → List StepToolCall → String
      unfolding fallback_summary
      final_summary content executed =
          if is_empty (strip content) then fallback_summary trim executed else strip content

      abbrev pub fallback_result : LoopState → LoopEnd
      fallback_result state =
          returned
            (record { tool_calls = state.executed; summary = fallback_summary trim state.executed })

      -- The `for` loop of _run_loop, with `left` turns to go.
      unfoldable pub turns : ℕ → ℕ → Bool → LoopState → LoopState × LoopEnd
      unfolding run_turn fallback_summary final_summary
      turns zero turn first_turn state = (state, fallback_result state)
      turns (suc left) turn first_turn state = elim (next_turn turn) [
        | err message ↦ (state, if first_turn then nothing else raised message)
        | ok outcome ↦ elim outcome.tool_calls [
          | [] ↦ (
            state,
            returned (record {
              tool_calls = state.executed;
              summary = final_summary outcome.content state.executed;
            }),
          )
          | request ∷ requests ↦
              if ltb settings.max_tool_calls (state.total_tool_calls + length (request ∷ requests))
              then (state, fallback_result state)
              else elim (run_turn turn (request ∷ requests) state) [
                | none ↦ (state, raised "KeyError")
                | some next ↦ turns left (turn + 1) false next
              ]
        ]
      ]

      unfoldable pub run_loop : ToolBudget → LoopState × LoopEnd
      unfolding turns
      run_loop budget = turns settings.max_iterations 1 true (record {
        executed = [];
        total_tool_calls = 0;
        repeat_key = none;
        repeat_count = 0;
        notices = 0;
        budget = budget;
      })

    -- The strategies of run_step, each by what it answers; None goes on to the next one.
    unfoldable pub run_step :
        (String → String) → List (ℕ → Result String TurnOutcome) → ToolBudget → StepEnd
    unfolding run_loop
    run_step trim [] budget = by_rule budget
    run_step trim (next_turn ∷ strategies) budget =
        let (state, end) = run_loop trim next_turn budget in
        elim end [
          | returned result ↦ by_loop (returned result)
          | raised message ↦ by_loop (raised message)
          | nothing ↦ run_step trim strategies state.budget
        ]
