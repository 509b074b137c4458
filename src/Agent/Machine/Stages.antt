-- ===== src/Agent/Machine/Stages.antt =====
-- The three stages of the acceptance chain end in one of three ways.
use atlas_agent_control_plan.Prelude.{
  String, Bool, true, false, not, ◌&&◌, ◌≡◌, refl, inl, inr, List, [], ◌∷◌, arith, Bool-cases,
  Option-cases,
}
use atlas_agent_control_plan.Prelude.Result.{Result, ok}
use atlas_agent_control_plan.Acceptance.Config.{
  AcceptanceGateConfig, gate_config_from_plan, enforce_coverage_from_plan,
}
use atlas_agent_control_plan.Acceptance.Scope
use atlas_agent_control_plan.Agent.Machine.Types.{
  SessionEvent, acceptance_gate_started, acceptance_gate_finished, scope_audit_finished,
  coverage_review_finished, MachineSnapshot, MachineConfig, Answers,
}
use atlas_agent_control_plan.Agent.Machine.Chain.{
  StageOutcome, skipped, went_on, failed_transition, count_audit_failures, gate_can_retry,
  gate_stage, scope_can_retry, scope_stage, coverage_can_retry, coverage_stage,
}

-- `r` is skipped, or goes on with no failure among its events, or is a transition that writes
-- `events` and may retry by `can_retry`, of which `Q` holds.
pub data StageCases (s : MachineSnapshot) (Q : List SessionEvent → Bool → Type 0)
    (r : Result String StageOutcome) : Type 0 where
  skips : r ≡ ok skipped → StageCases s Q r
  goes_on :
      (events : List SessionEvent)
      → count_audit_failures events ≡ 0
      → r ≡ ok (went_on events)
      → StageCases s Q r
  fails :
      (events : List SessionEvent) (can_retry : Bool)
      → Q events can_retry
      → r ≡ failed_transition s events can_retry
      → StageCases s Q r

module _ (config : MachineConfig) (answers : Answers) (s : MachineSnapshot) where
  -- What is known of a gate that fails, of an audit that fails, and of a review that fails.
  pub record GateFails (events : List SessionEvent) (can_retry : Bool) : Type 0 where
    pub gate : AcceptanceGateConfig
    pub wrote :
        events
        ≡ acceptance_gate_started gate.command ∷ acceptance_gate_finished false gate.command ∷ []
    pub retries : can_retry ≡ gate_can_retry config answers s (answers.gate gate)

  pub record ScopeFails (events : List SessionEvent) (can_retry : Bool) : Type 0 where
    pub wrote : events ≡ scope_audit_finished false ∷ []
    pub retries : can_retry ≡ scope_can_retry config answers s

  pub record CoverageFails (events : List SessionEvent) (can_retry : Bool) : Type 0 where
    pub wrote : events ≡ coverage_review_finished true false ∷ []
    pub retries : can_retry ≡ coverage_can_retry config answers s

  pub gate_stage-StageCases : StageCases s GateFails (gate_stage config answers s)
  unfolding gate_stage count_audit_failures
  gate_stage-StageCases = elim (Bool-cases config.has_gate) [
    | inr off ↦ skips (rw off)
    | inl on ↦ elim (Option-cases (gate_config_from_plan s.plan 600)) [
      | inl absent ↦ skips (rw (on, absent))
      | inr (gate, there) ↦ elim (Bool-cases (answers.gate gate).passed) [
        | inl passed ↦
            goes_on
              (acceptance_gate_started gate.command
                ∷ acceptance_gate_finished true gate.command
                ∷ [])
              refl (rw (on, there, passed))
        | inr failed ↦
            fails
              (acceptance_gate_started gate.command
                ∷ acceptance_gate_finished false gate.command
                ∷ [])
              (gate_can_retry config answers s (answers.gate gate))
              (record { gate = gate; wrote = refl; retries = refl }) (rw (on, there, failed))
      ]
    ]
  ]

  pub scope_stage-StageCases : StageCases s ScopeFails (scope_stage config answers s)
  unfolding scope_stage count_audit_failures
  scope_stage-StageCases = elim (Bool-cases config.has_scope_auditor) [
    | inr off ↦ skips (rw off)
    | inl on ↦ elim (Option-cases (Scope.from_plan s.plan)) [
      | inl absent ↦ skips (rw (on, absent))
      | inr (policy, there) ↦ elim (Bool-cases answers.in_scope) [
        | inl passed ↦ goes_on (scope_audit_finished true ∷ []) refl (rw (on, there, passed))
        | inr failed ↦
            fails (scope_audit_finished false ∷ []) (scope_can_retry config answers s)
              (record { wrote = refl; retries = refl }) (rw (on, there, failed))
      ]
    ]
  ]

  pub coverage_stage-StageCases : StageCases s CoverageFails (coverage_stage config answers s)
  unfolding coverage_stage count_audit_failures
  coverage_stage-StageCases = elim (Bool-cases config.has_coverage_reviewer) [
    | inr off ↦ skips (rw off)
    | inl on ↦ elim (Bool-cases (enforce_coverage_from_plan s.plan && not answers.adequate)) [
      | inl failed ↦
          fails (coverage_review_finished true false ∷ []) (coverage_can_retry config answers s)
            (record { wrote = refl; retries = refl }) (ground (arith, on, failed))
      | inr passed ↦
          goes_on
            (coverage_review_finished (enforce_coverage_from_plan s.plan) answers.adequate ∷ [])
            (rw passed) (rw (on, passed))
    ]
  ]
