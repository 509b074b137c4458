-- ===== src/Agent/Machine/Examples.antt =====
-- Runs of the machine on a plan of one step with an acceptance command.
use atlas_agent_control_plan.Prelude.{
  ℕ, zero, suc, get_elem?, ◌≤◌, ◌<◌, ◌+◌, String, ◌≡◌, refl, true, false, none, some, List, [], ◌∷◌,
  ◌++◌, arith, count_if, string_eq,
}
use atlas_agent_control_plan.Prelude.Int.{pos}
use atlas_agent_control_plan.Prelude.Json.{
  Value, Fields, end, field, obj, arr, nil, cons, str, items,
}
use atlas_agent_control_plan.Prelude.Result.{Result, ok, err}
use atlas_agent_control_plan.Prelude.Text.{strip}
use atlas_agent_control_plan.Tools.Call.{ToolInvocationStatus}
use atlas_agent_control_plan.Acceptance.Config.{
  AcceptanceGateConfig, gate_config_from_plan, gate_allow_retry,
}
use atlas_agent_control_plan.Acceptance.Gate.{digest, CommandOutcome, verify}
use atlas_agent_control_plan.Acceptance.Gate.Laws.{verify_reports}
use atlas_agent_control_plan.Agent.Entities.{
  AgentPhase, ReflectionAction, PlanStepStatus, RunPlanStep, RunPlan, AgentRunState, initial_state,
}
use atlas_agent_control_plan.Agent.Router.{is_success}
use atlas_agent_control_plan.Agent.Machine.Types.{
  SessionEvent, from_executor, step_reflected, step_completed, acceptance_gate_started,
  acceptance_gate_finished, scope_audit_finished, step_failed, task_error, MachineSnapshot,
  MachineConfig, StepExecutionOutcome, Answers,
}
use atlas_agent_control_plan.Agent.Machine.Chain.{
  left, failed_transition, count_gate_failures, count_audit_failures, with_events, gate_can_retry,
  summarize_node, finish, gate_stage,
}
use atlas_agent_control_plan.Agent.Machine.Run.{stream, dispatch, after_node}
use atlas_agent_control_plan.Agent.Machine.Nodes.{execute_node, reflect_node}
use atlas_agent_control_plan.Agent.Machine.Trace.{stream-events}
use atlas_agent_control_plan.Agent.Machine.Budget.Claims.{
  is_review_failure, NamesCommand, stream-review_budget, stream-gate_budget,
}
use atlas_agent_control_plan.Agent.Machine.Resume.{
  resumed_gate_failure_raises, gate_can_retry-reviews,
}
use atlas_agent_control_plan.Agent.Machine.Progress.{accepting_run_completes}
use atlas_agent_control_plan.Agent.Machine.Progress.Steps.{IsAccepting, IsExecutable, Returns}
use atlas_agent_control_plan.Agent.Machine.Progress.Summary.{IsCompleted}

abbrev text_of : Value → String
text_of (str text) = text
text_of _ = ""

abbrev uuid_of : String → Result String ℕ
uuid_of text = ok 1

abbrev uuid_text : ℕ → String
uuid_text n = "1"

abbrev config : MachineConfig
config = record {
  has_gate = true;
  has_scope_auditor = true;
  has_coverage_reviewer = true;
  has_replanner = false;
  max_retries = 1;
}

abbrev step : RunPlanStep
step = record {
  id = 1;
  title = "write";
  description = "write the file";
  expected_output = "a file";
  status = PlanStepStatus.pending;
}

abbrev run_plan : RunPlan
run_plan = record { goal = "a file"; steps = step ∷ [] }

abbrev payload : Fields
payload =
    field "steps" (arr (cons (obj end) nil))
      (field "acceptance" (obj (field "command" (str "pytest") end)) end)

abbrev state : AgentRunState
state = record {
  session_id = 1;
  run_id = 2;
  plan_revision = 0;
  plan = run_plan;
  phase = AgentPhase.executing;
  step_index = 0;
  attempt = 1;
  observation = none;
  reflection = none;
  final_answer = none;
}

abbrev start : MachineSnapshot
start = record { state = state; plan = payload; step_history = []; events = [] }

abbrev gate : AcceptanceGateConfig
gate = record {
  command = "pytest";
  timeout_seconds = 600;
  success_exit_codes = pos 0 ∷ [];
  working_dir = "";
}

abbrev outcome : ℕ → CommandOutcome
outcome code = record { exit_code = some (pos code); output = ""; error = none; duration_ms = 1 }

abbrev executed : StepExecutionOutcome
executed = record {
  events = "step_started" ∷ [];
  observation = record { status = ToolInvocationStatus.succeeded; output = "done" };
  history = "done";
}

-- Every collaborator approves, but for the acceptance command, which exits with `code`.
abbrev answering : ℕ → Answers
answering code = record {
  outcome = ok executed;
  reflection = ok (record { action = ReflectionAction.accept; reason = "done" });
  replacement = err "no";
  gate = λ g. verify g (ok (outcome code));
  in_scope = true;
  adequate = true;
  summary = ok "a file";
}

-- The gate of these runs answers with the verdict alone.
abbrev approving : Answers
approving = record (answering 0) {
  gate = λ g. record {
    passed = true;
    exit_code = some (pos 0);
    command = g.command;
    output_digest = "";
    duration_ms = 1;
  };
}

approving-IsAccepting : IsAccepting approving
unfolding is_success
approving-IsAccepting = record {
  outcome = executed;
  executed = refl;
  succeeded = refl;
  reflection = record { action = ReflectionAction.accept; reason = "done" };
  reflected = refl;
  accepted = refl;
  gate = λ g. refl;
  in_scope = refl;
  adequate = refl;
  answer = "a file";
  summarised = refl;
}

payload_objects :
    (i : ℕ)
    → i < 1
    → (object : Fields) × (get_elem? (items (cons (obj end) nil)) i ≡ some (obj object))
payload_objects zero h = (end, refl)
payload_objects (suc i) h = absurd (omega arith)

payload-IsExecutable : IsExecutable payload 1
payload-IsExecutable = record {
  steps = cons (obj end) nil;
  found = refl;
  objects = payload_objects;
}

accepting_run_completes_example :
    Returns
      (stream text_of uuid_of uuid_text config start (approving ∷ approving ∷ approving ∷ []))
      IsCompleted
accepting_run_completes_example =
    accepting_run_completes text_of uuid_of uuid_text config 0 start
      (approving ∷ approving ∷ approving ∷ []) refl refl payload-IsExecutable
      (approving-IsAccepting, (approving-IsAccepting, (approving-IsAccepting, tt))) refl

names_command : (code : ℕ) → NamesCommand (answering code)
names_command code g = (verify_reports g (ok (outcome code))).0

-- The command fails once: the run goes back to `executing`.
abbrev once : List Answers
once = answering 1 ∷ answering 1 ∷ answering 1 ∷ []

abbrev once_events : List SessionEvent
once_events =
    from_executor "step_started"
    ∷ step_reflected ReflectionAction.accept 1 1
    ∷ step_completed 1
    ∷ acceptance_gate_started "pytest"
    ∷ acceptance_gate_finished false "pytest"
    ∷ step_reflected ReflectionAction.retry 1 1
    ∷ []

abbrev once_end : MachineSnapshot
once_end = record {
  state = record state {
    attempt = 2;
    observation = some executed.observation;
    reflection =
        some (record { action = ReflectionAction.retry; reason = "acceptance chain failed" });
  };
  plan = payload;
  step_history = "done" ∷ [];
  events = once_events;
}

once_retries : stream text_of uuid_of uuid_text config start once ≡ ok (once_events, once_end)
unfolding verify stream execute_node reflect_node summarize_node finish gate_stage
    gate_config_from_plan strip digest after_node dispatch gate_allow_retry
once_retries = refl

stream-events_example : once_events ≡ [] ++ once_events
stream-events_example =
    stream-events text_of uuid_of uuid_text config once start once_end once_events once_retries

stream-review_budget_example : count_if is_review_failure once_events ≤ 1 + 0
stream-review_budget_example =
    stream-review_budget text_of uuid_of uuid_text config once start once_end once_events refl
      once_retries

stream-gate_budget_example : count_gate_failures once_events "pytest" ≤ 1 + 0
stream-gate_budget_example =
    stream-gate_budget text_of uuid_of uuid_text config "pytest" once start once_end once_events
      (names_command 1, (names_command 1, (names_command 1, tt))) refl once_retries

-- A scope audit that fails with no retry left.
abbrev audited : MachineSnapshot
audited = record start {
  state = record state { phase = AgentPhase.summarizing; observation = some executed.observation };
}

abbrev failed_events : List SessionEvent
failed_events =
    scope_audit_finished false
    ∷ step_reflected ReflectionAction.fail 1 1
    ∷ step_failed 1
    ∷ task_error 1
    ∷ []

abbrev failed_end : MachineSnapshot
failed_end = record start {
  state = record state {
    phase = AgentPhase.failed;
    observation = some executed.observation;
    reflection =
        some (record { action = ReflectionAction.fail; reason = "acceptance chain failed" });
  };
  events = failed_events;
}

audit_fails :
    failed_transition audited (scope_audit_finished false ∷ []) false
    ≡ ok (left failed_events failed_end)
unfolding failed_transition
audit_fails = refl

-- A resumed run whose steps are all completed.
abbrev resumed : MachineSnapshot
resumed = record start { state = initial_state 1 2 0 run_plan 1 }

resumed_gate_failure_raises_example :
    (resumed.state.phase ≡ AgentPhase.summarizing)
    × (resumed.state.step_index + 1 ≡ 1)
    × (summarize_node config resumed (answering 1) ≡ err "state has no observation")
unfolding gate_config_from_plan strip verify
resumed_gate_failure_raises_example =
    resumed_gate_failure_raises config (answering 1) gate resumed 1 2 0 1 run_plan refl
      (omega arith) (omega arith) refl refl refl

gate_can_retry-reviews_example :
    (gate_can_retry config
        (answering 1)
        (with_events start (scope_audit_finished false ∷ []))
        (verify gate (ok (outcome 1)))
      ≡ gate_can_retry config (answering 1) start (verify gate (ok (outcome 1))))
    × (count_audit_failures ([] ++ scope_audit_finished false ∷ []) ≡ count_audit_failures [] + 1)
gate_can_retry-reviews_example =
    gate_can_retry-reviews config (answering 1) (verify gate (ok (outcome 1))) start
      (scope_audit_finished false ∷ []) (refl, tt)
