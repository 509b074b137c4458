-- ===== src/Agent/Machine/Resume.antt =====
-- Where the machine departs from what its comments and the README say of a retry.
use atlas_agent_control_plan.Prelude.{
  ℕ, ◌+◌, ◌≤◌, Bool, true, false, ◌≡◌, refl, ap, ◌∙◌, none, some, List, [], ◌∷◌, ◌++◌, arith,
  length, ltb, ◌&&◌, count_if, count_if-append, All,
}
use atlas_agent_control_plan.Prelude.Result.{err}
use atlas_agent_control_plan.Acceptance.Config.{
  AcceptanceGateConfig, gate_config_from_plan, gate_allow_retry,
}
use atlas_agent_control_plan.Acceptance.Gate.{AcceptanceGateResult}
use atlas_agent_control_plan.Agent.Entities.{AgentPhase, RunPlan, initial_state}
use atlas_agent_control_plan.Agent.Machine.Types.{
  SessionEvent, acceptance_gate_started, acceptance_gate_finished, MachineSnapshot, MachineConfig,
  Answers,
}
use atlas_agent_control_plan.Agent.Machine.Chain.{
  is_gate_failure, count_audit_failures, is_audit_failure, gate_can_retry, gate_stage,
  failed_transition, summarize_node, with_events,
}
use atlas_agent_control_plan.Agent.Machine.Budget.Claims.{is_review_failure}

unobserved_transition :
    (s : MachineSnapshot) (events : List SessionEvent) (can_retry : Bool)
    → s.state.observation ≡ none
    → failed_transition s events can_retry ≡ err "state has no observation"
unfolding failed_transition
unobserved_transition s events true h = rw h
unobserved_transition s events false h = rw h

unobserved_gate_stage :
    (config : MachineConfig) (answers : Answers) (gate : AcceptanceGateConfig) (s : MachineSnapshot)
    → s.state.observation ≡ none
    → config.has_gate ≡ true
    → gate_config_from_plan s.plan 600 ≡ some gate
    → (answers.gate gate).passed ≡ false
    → gate_stage config answers s ≡ err "state has no observation"
unfolding gate_stage
unobserved_gate_stage config answers gate s unobserved on there failed =
    rw (on, there, failed)
      (unobserved_transition s
        (acceptance_gate_started gate.command ∷ acceptance_gate_finished false gate.command ∷ [])
        (gate_can_retry config answers s (answers.gate gate)) unobserved)

-- A run resumed with every step completed starts in `summarizing` at the last step, and where the
-- plan names an acceptance command that fails then, the node raises, whatever the retries left.
pub resumed_gate_failure_raises :
    (config : MachineConfig) (answers : Answers) (gate : AcceptanceGateConfig) (s : MachineSnapshot)
    (session_id run_id revision index : ℕ) (plan : RunPlan)
    → s.state ≡ initial_state session_id run_id revision plan index
    → 1 ≤ length plan.steps
    → length plan.steps ≤ index
    → config.has_gate ≡ true
    → gate_config_from_plan s.plan 600 ≡ some gate
    → (answers.gate gate).passed ≡ false
    → (s.state.phase ≡ AgentPhase.summarizing)
      × (s.state.step_index + 1 ≡ length plan.steps)
      × (summarize_node config s answers ≡ err "state has no observation")
unfolding initial_state summarize_node
resumed_gate_failure_raises config answers gate s sid rid rev index plan e some_steps past on there
      failed =
    (
      ground arith,
      ground arith,
      rw (
          unobserved_gate_stage config answers gate s (ap (λ state. state.observation) e) on there
            failed),
    )

-- The gate decides on a retry by the failures of its own command alone: failures of the scope audit
-- and of the coverage review, which the shared count holds, never spend its retries.
pub gate_can_retry-reviews :
    (config : MachineConfig) (answers : Answers) (result : AcceptanceGateResult)
    (s : MachineSnapshot) (reviews : List SessionEvent)
    → All (λ e. is_review_failure e ≡ true) reviews
    → (gate_can_retry config answers (with_events s reviews) result
        ≡ gate_can_retry config answers s result)
      × (count_audit_failures (s.events ++ reviews)
          ≡ count_audit_failures s.events + length reviews)
unfolding gate_can_retry count_audit_failures
gate_can_retry-reviews config answers result s reviews h = (
  ap (λ (n : ℕ). gate_allow_retry s.plan && ltb n config.max_retries)
      (count_if-append (is_gate_failure result.command) s.events reviews
        ∙ omega (arith, own reviews h)),
  count_if-append is_audit_failure s.events reviews ∙ omega (arith, shared reviews h),
)
  where
    own :
        (reviews : List SessionEvent)
        → All (λ e. is_review_failure e ≡ true) reviews
        → count_if (is_gate_failure result.command) reviews ≡ 0
    own [] h = refl
    own (e ∷ rest) h = ground (arith, h.0, own rest h.1)

    shared :
        (reviews : List SessionEvent)
        → All (λ e. is_review_failure e ≡ true) reviews
        → count_if is_audit_failure reviews ≡ length reviews
    shared [] h = refl
    shared (e ∷ rest) h = ground (arith, h.0, shared rest h.1)
