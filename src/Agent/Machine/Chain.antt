-- ===== src/Agent/Machine/Chain.antt =====
-- The node summarize: the acceptance gate, the scope audit and the coverage review in this order, and
-- then the summary. A stage that fails leaves the chain by a retry or a failure.
use atlas_agent_control_plan.Prelude.{
  ℕ, ◌+◌, String, Bool, true, false, not, ◌&&◌, none, some, List, [], ◌∷◌, ◌++◌, ltb, leb, count_if,
  string_eq, ◌==◌, if◌then◌else◌,
}
use atlas_agent_control_plan.Prelude.Result.{Result, ok, err, ◌>>=◌}
use atlas_agent_control_plan.Acceptance.Config.{
  AcceptanceGateConfig, gate_config_from_plan, enforce_coverage_from_plan, gate_allow_retry,
  scope_allow_retry,
}
use atlas_agent_control_plan.Acceptance.Gate.{AcceptanceGateResult}
use atlas_agent_control_plan.Acceptance.Scope
use atlas_agent_control_plan.Agent.Entities.{AgentPhase, Reflection, ReflectionAction}
use atlas_agent_control_plan.Agent.Router.{after_reflection, after_summary}
use atlas_agent_control_plan.Agent.Machine.Types.{
  SessionEvent, acceptance_gate_started, acceptance_gate_finished, scope_audit_finished,
  coverage_review_finished, acceptance_chain_finished, message, task_done, MachineSnapshot,
  MachineConfig, Answers,
}
use atlas_agent_control_plan.Agent.Machine.Events.{add_reflected_event, reflection_events}
use atlas_agent_control_plan.Agent.Machine.Nodes.{NodeResult}

-- A stage was not run, ended and lets the chain go on, or left the chain with a transition.
pub data StageOutcome : Type 0 where
  skipped : StageOutcome
  went_on : List SessionEvent → StageOutcome
  left : List SessionEvent → MachineSnapshot → StageOutcome

abbrev pub is_gate_failure : String → SessionEvent → Bool
is_gate_failure command (acceptance_gate_finished passed ran) = not passed && ran == command
is_gate_failure command _ = false

-- _count_gate_failures
unfoldable pub count_gate_failures : List SessionEvent → String → ℕ
count_gate_failures events command = count_if (is_gate_failure command) events

abbrev pub is_audit_failure : SessionEvent → Bool
is_audit_failure (acceptance_gate_finished passed ran) = not passed
is_audit_failure (scope_audit_finished in_scope) = not in_scope
is_audit_failure (coverage_review_finished enforced adequate) = enforced && not adequate
is_audit_failure _ = false

-- _count_audit_failures
unfoldable pub count_audit_failures : List SessionEvent → ℕ
count_audit_failures events = count_if is_audit_failure events

abbrev pub retry_or_fail : Bool → Reflection
retry_or_fail true = record { action = ReflectionAction.retry; reason = "acceptance chain failed" }
retry_or_fail false = record { action = ReflectionAction.fail; reason = "acceptance chain failed" }

-- _gate_failed_transition, _scope_failed_transition and _coverage_failed_transition, which differ in
-- `can_retry` and in the text of the reason.
unfoldable pub failed_transition :
    MachineSnapshot → List SessionEvent → Bool → Result String StageOutcome
unfolding after_reflection add_reflected_event reflection_events
failed_transition snapshot stage_events can_retry = do
  let reflection = retry_or_fail can_retry
  let reflecting_state = record (snapshot.state) { phase = AgentPhase.reflecting }
  next_state ← after_reflection reflecting_state reflection
  reflected ← add_reflected_event reflecting_state reflection
  terminal ← reflection_events reflecting_state next_state reflection
  let emitted = stage_events ++ reflected ∷ terminal
  ok (left emitted (record snapshot { state = next_state; events = snapshot.events ++ emitted }))

module _ (config : MachineConfig) (answers : Answers) (snapshot : MachineSnapshot) where
  unfoldable pub gate_can_retry : AcceptanceGateResult → Bool
  unfolding count_gate_failures
  gate_can_retry result =
      gate_allow_retry snapshot.plan
      && ltb (count_gate_failures snapshot.events result.command) config.max_retries

  unfoldable pub gate_cycle : AcceptanceGateConfig → Result String StageOutcome
  unfolding failed_transition gate_can_retry
  gate_cycle gate_config =
      let result = answers.gate gate_config in
      let events =
        acceptance_gate_started gate_config.command
        ∷ acceptance_gate_finished result.passed gate_config.command
        ∷ [] in
      if result.passed
      then ok (went_on events)
      else failed_transition snapshot events (gate_can_retry result)

  unfoldable pub gate_stage : Result String StageOutcome
  unfolding gate_cycle
  gate_stage =
      if config.has_gate
      then elim (gate_config_from_plan snapshot.plan 600) [
        | none ↦ ok skipped
        | some gate_config ↦ gate_cycle gate_config
      ]
      else ok skipped

  unfoldable pub scope_can_retry : Bool
  unfolding count_audit_failures
  scope_can_retry =
      scope_allow_retry snapshot.plan
      && ltb (count_audit_failures snapshot.events) config.max_retries

  unfoldable pub scope_cycle : Result String StageOutcome
  unfolding failed_transition scope_can_retry
  scope_cycle =
      let events = scope_audit_finished answers.in_scope ∷ [] in
      if answers.in_scope
      then ok (went_on events)
      else failed_transition snapshot events scope_can_retry

  unfoldable pub scope_stage : Result String StageOutcome
  unfolding scope_cycle
  scope_stage =
      if config.has_scope_auditor
      then elim (Scope.from_plan snapshot.plan) [ none ↦ ok skipped | some policy ↦ scope_cycle ]
      else ok skipped

  unfoldable pub coverage_can_retry : Bool
  unfolding count_audit_failures
  coverage_can_retry =
      gate_allow_retry snapshot.plan
      && ltb (count_audit_failures snapshot.events) config.max_retries

  unfoldable pub coverage_stage : Result String StageOutcome
  unfolding failed_transition coverage_can_retry
  coverage_stage =
      if config.has_coverage_reviewer
      then (let enforced = enforce_coverage_from_plan snapshot.plan in
          let events = coverage_review_finished enforced answers.adequate ∷ [] in
          if enforced && not answers.adequate
          then failed_transition snapshot events coverage_can_retry
          else ok (went_on events))
      else ok skipped

-- How far the chain is: what was yielded, the snapshot with it, and how many stages ran.
pub record ChainProgress : Type 0 where
  pub emitted : List SessionEvent
  pub snapshot : MachineSnapshot
  pub ran : ℕ

abbrev pub with_events : MachineSnapshot → List SessionEvent → MachineSnapshot
with_events snapshot events = record snapshot { events = snapshot.events ++ events }

abbrev pub advance :
    ChainProgress → Result String StageOutcome → (ChainProgress → NodeResult) → NodeResult
advance p (err x) k = err x
advance p (ok skipped) k = k p
advance p (ok (went_on events)) k = k (record {
  emitted = p.emitted ++ events;
  snapshot = with_events p.snapshot events;
  ran = p.ran + 1;
})
advance p (ok (left events snapshot)) k = ok (p.emitted ++ events, snapshot)

-- acceptance_chain_finished is written where two stages or more ran.
abbrev pub chain_events : ℕ → List SessionEvent
chain_events ran = if leb 2 ran then acceptance_chain_finished ran ∷ [] else []

unfoldable pub finish : Answers → ChainProgress → NodeResult
unfolding after_summary
finish answers p = do
  let snapshot = p.snapshot
  final_answer ← answers.summary
  state ← after_summary snapshot.state final_answer
  let last = chain_events p.ran ++ message final_answer ∷ task_done final_answer ∷ []
  ok (p.emitted ++ last, record snapshot { state = state; events = snapshot.events ++ last })

unfoldable pub summarize_node : MachineConfig → MachineSnapshot → Answers → NodeResult
summarize_node config snapshot answers =
    advance (record { emitted = []; snapshot = snapshot; ran = 0 })
      (gate_stage config answers snapshot)
      λ p.
        advance p (scope_stage config answers p.snapshot)
          λ q. advance q (coverage_stage config answers q.snapshot) (finish answers)
