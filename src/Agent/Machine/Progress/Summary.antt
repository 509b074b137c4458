-- ===== src/Agent/Machine/Progress/Summary.antt =====
-- The summary returns where every stage of the chain lets it go on.
use atlas_agent_control_plan.Prelude.{
  String, true, ◌≡◌, refl, List, [], ◌∷◌, arith, Bool-cases, Option-cases, ◌⊎◌, inl, inr, nat_eq,
}
use atlas_agent_control_plan.Prelude.Result.{Result, ok}
use atlas_agent_control_plan.Acceptance.Config.{gate_config_from_plan, enforce_coverage_from_plan}
use atlas_agent_control_plan.Acceptance.Scope
use atlas_agent_control_plan.Agent.Entities.{AgentPhase}
use atlas_agent_control_plan.Agent.Router.{after_summary}
use atlas_agent_control_plan.Agent.Machine.Types.{
  SessionEvent, acceptance_gate_started, acceptance_gate_finished, scope_audit_finished,
  coverage_review_finished, MachineSnapshot, MachineConfig, Answers,
}
use atlas_agent_control_plan.Agent.Machine.Nodes.{NodeResult}
use atlas_agent_control_plan.Agent.Machine.Chain.{
  skipped, went_on, StageOutcome, ChainProgress, advance, gate_stage, scope_stage, coverage_stage,
  finish, summarize_node,
}
use atlas_agent_control_plan.Agent.Machine.Progress.Steps.{IsAccepting, Returns}

-- A stage that was not run or lets the chain go on.
abbrev GoesOn : Result String StageOutcome → Type 0
GoesOn r = (r ≡ ok skipped) ⊎ ((events : List SessionEvent) × (r ≡ ok (went_on events)))

abbrev pub IsCompleted : MachineSnapshot → Type 0
IsCompleted t = t.state.phase ≡ AgentPhase.completed

advance-Returns :
    (p : ChainProgress) (r : Result String StageOutcome) (k : ChainProgress → NodeResult)
    → p.snapshot.state.phase ≡ AgentPhase.summarizing
    → GoesOn r
    → ((q : ChainProgress)
        → q.snapshot.state.phase ≡ AgentPhase.summarizing
        → Returns (k q) IsCompleted)
    → Returns (advance p r k) IsCompleted
advance-Returns p r k h (inl e) rest = rw e (rest p h)
advance-Returns p r k h (inr (events, e)) rest = rw e (rest _ h)

finish-Returns :
    (a : Answers) (p : ChainProgress)
    → IsAccepting a
    → p.snapshot.state.phase ≡ AgentPhase.summarizing
    → Returns (finish a p) IsCompleted
unfolding finish after_summary
finish-Returns a p acc h =
    rw (acc.summarised, h) (record { emitted = _; next = _; returned = refl; holds = refl })

module _ (config : MachineConfig) (a : Answers) (s : MachineSnapshot) (acc : IsAccepting a) where
  gate_stage-GoesOn : GoesOn (gate_stage config a s)
  unfolding gate_stage
  gate_stage-GoesOn = elim (Bool-cases config.has_gate) [
    | inr off ↦ inl (rw off refl)
    | inl on ↦ elim (Option-cases (gate_config_from_plan s.plan 600)) [
      | inl absent ↦ inl (rw (on, absent) refl)
      | inr (gate, there) ↦ inr (
        acceptance_gate_started gate.command ∷ acceptance_gate_finished true gate.command ∷ [],
        rw (on, there, acc.gate gate),
      )
    ]
  ]

  scope_stage-GoesOn : GoesOn (scope_stage config a s)
  unfolding scope_stage
  scope_stage-GoesOn = elim (Bool-cases config.has_scope_auditor) [
    | inr off ↦ inl (rw off refl)
    | inl on ↦ elim (Option-cases (Scope.from_plan s.plan)) [
      | inl absent ↦ inl (rw (on, absent) refl)
      | inr (policy, there) ↦ inr (scope_audit_finished true ∷ [], rw (on, there, acc.in_scope))
    ]
  ]

  coverage_stage-GoesOn : GoesOn (coverage_stage config a s)
  unfolding coverage_stage
  coverage_stage-GoesOn = elim (Bool-cases config.has_coverage_reviewer) [
    | inr off ↦ inl (rw off refl)
    | inl on ↦ inr (
      coverage_review_finished (enforce_coverage_from_plan s.plan) true ∷ [],
      ground (arith, on, acc.adequate),
    )
  ]

pub summarize_accepting :
    (config : MachineConfig) (s : MachineSnapshot) (a : Answers)
    → IsAccepting a
    → s.state.phase ≡ AgentPhase.summarizing
    → Returns (summarize_node config s a) IsCompleted
unfolding summarize_node
summarize_accepting config s a acc h =
    advance-Returns _ (gate_stage config a s) _ h (gate_stage-GoesOn config a s acc) λ p hp.
      advance-Returns p (scope_stage config a p.snapshot) _ hp
        (scope_stage-GoesOn config a p.snapshot acc)
        λ q hq.
          advance-Returns q (coverage_stage config a q.snapshot) _ hq
            (coverage_stage-GoesOn config a q.snapshot acc) λ r hr. finish-Returns a r acc hr
