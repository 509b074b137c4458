-- ===== src/Agent/Machine/Progress.antt =====
-- A run whose collaborators approve of everything completes, within a known number of nodes.
pub mod Steps
pub mod Summary
use atlas_agent_control_plan.Prelude.{
  ℕ, zero, suc, ◌+◌, ◌*◌, ◌<◌, String, true, false, ◌≡◌, refl, sym, ◌∙◌, subst, some, List, [], ◌∷◌,
  ◌++◌, map, arith, length, get_elem?, All, Bool-cases, Option-cases, ◌⊎◌, inl, inr, nat_eq,
}
use atlas_agent_control_plan.Prelude.Json.{Value, Fields, Items, items, arr, obj, get_field}
use atlas_agent_control_plan.Prelude.Result.{Result, ok, >>=_ok}
use atlas_agent_control_plan.Acceptance.Config.{
  AcceptanceGateConfig, gate_config_from_plan, enforce_coverage_from_plan,
}
use atlas_agent_control_plan.Acceptance.Scope
use atlas_agent_control_plan.Agent.Entities.{
  AgentPhase, AgentRunState, ReflectionAction, Reflection, StepObservation,
}
use atlas_agent_control_plan.Agent.Router.{
  is_success, after_execution, after_reflection, after_summary,
}
use atlas_agent_control_plan.Agent.Router.Laws.{IsAccepted, after_reflection-IsAccepted}
use atlas_agent_control_plan.Agent.Machine.Events.{
  require_observation, require_step, add_reflected_event, add_terminal_event, reflection_events,
}
use atlas_agent_control_plan.Agent.Machine.Types.{
  SessionEvent, from_executor, step_reflected, step_completed, acceptance_gate_started,
  acceptance_gate_finished, scope_audit_finished, coverage_review_finished, StepExecutionOutcome,
  MachineSnapshot, MachineConfig, Answers,
}
use atlas_agent_control_plan.Agent.Machine.Nodes.{
  NodeResult, execution_request, execute_node, reflect_node,
}
use atlas_agent_control_plan.Agent.Machine.Chain.{
  skipped, went_on, StageOutcome, ChainProgress, advance, gate_stage, scope_stage, coverage_stage,
  finish, summarize_node,
}
use atlas_agent_control_plan.Agent.Machine.Run.{is_terminal, after_node, dispatch, stream}
use atlas_agent_control_plan.Agent.Machine.Progress.Steps.{
  IsAccepting, IsExecutable, Returns, IsObserved, execution_request-ok, execute_accepting,
  reflect_accepting,
}
use atlas_agent_control_plan.Agent.Machine.Progress.Summary.{IsCompleted, summarize_accepting}

module _ (text_of : Value → String) (uuid_of : String → Result String ℕ) (uuid_text : ℕ → String)
    (config : MachineConfig) where
  -- A node that returns, and a run that returns from its snapshot on.
  stream-Returns :
      (phase : AgentPhase) (Q R : MachineSnapshot → Type 0) (s : MachineSnapshot) (a : Answers)
      (rest : List Answers)
      → s.state.phase ≡ phase
      → is_terminal phase ≡ false
      → Returns (dispatch text_of uuid_of uuid_text config phase s a) Q
      → ((t : MachineSnapshot) → Q t → Returns (stream text_of uuid_of uuid_text config t rest) R)
      → Returns (stream text_of uuid_of uuid_text config s (a ∷ rest)) R
  unfolding stream after_node
  stream-Returns phase Q R s a rest e more node onward =
      let run = onward node.next node.holds in
      let here = subst (λ x. is_terminal x ≡ false) (sym e) more in
      let left =
        subst (λ x. dispatch text_of uuid_of uuid_text config x s a ≡ ok (node.emitted, node.next))
          (sym e) node.returned in
      record {
        emitted = node.emitted ++ run.emitted;
        next = run.next;
        returned = rw (here, left, run.returned) refl;
        holds = run.holds;
      }

  abbrev pub run : MachineSnapshot → List Answers → NodeResult
  run s answers = stream text_of uuid_of uuid_text config s answers

  -- The two nodes of an accepted step.
  step-Returns :
      (s : MachineSnapshot) (a b : Answers) (rest : List Answers)
      → s.state.phase ≡ AgentPhase.executing
      → s.state.step_index < length s.state.plan.steps
      → IsExecutable s.plan (length s.state.plan.steps)
      → IsAccepting a
      → IsAccepting b
      → ((t : MachineSnapshot)
          → t.plan ≡ s.plan
          → IsAccepted s.state t.state
          → Returns (run t rest) IsCompleted)
      → Returns (run s (a ∷ b ∷ rest)) IsCompleted
  unfolding dispatch stream
  step-Returns s a b rest h i x ha hb onward =
      let (step, requested) = execution_request-ok s (length s.state.plan.steps) x i in
      stream-Returns AgentPhase.executing (IsObserved s) IsCompleted s a (b ∷ rest) h refl
        (execute_accepting s a step ha h requested)
        λ t o.
          stream-Returns AgentPhase.reflecting (λ u. (u.plan ≡ t.plan) × IsAccepted t.state u.state)
            IsCompleted t b rest o.phase refl
            (reflect_accepting t b o.observation hb o.phase o.observed (ground arith))
            λ u v. onward u (v.0 ∙ o.payload) (ground arith)

  -- A run that stands in `executing` with `k + 1` steps left of a plan whose payload has an object for
  -- each step, and whose collaborators approve of everything (the executor succeeds, the critic
  -- accepts, the gate passes, the change set is in scope, the coverage is adequate, there is a
  -- summary), returns a snapshot in `completed` after `2 * k + 3` nodes.
  pub accepting_run_completes :
      (k : ℕ) (s : MachineSnapshot) (answers : List Answers)
      → s.state.phase ≡ AgentPhase.executing
      → s.state.step_index + suc k ≡ length s.state.plan.steps
      → IsExecutable s.plan (length s.state.plan.steps)
      → All IsAccepting answers
      → length answers ≡ 2 * k + 3
      → Returns (run s answers) IsCompleted
  unfolding dispatch stream
  accepting_run_completes zero s (a ∷ b ∷ c ∷ []) h i x (ha, (hb, (hc, tt))) n =
      step-Returns s a b (c ∷ []) h (omega arith) x ha hb λ t p accepted.
        let summarizing = accepted.last (omega arith) in
        stream-Returns AgentPhase.summarizing IsCompleted IsCompleted t c [] summarizing refl
          (summarize_accepting config t c hc summarizing)
          λ u completed. record { emitted = []; next = u; returned = refl; holds = completed }
  accepting_run_completes (suc k) s (a ∷ b ∷ rest) h i x (ha, (hb, hrest)) n =
      step-Returns s a b rest h (omega arith) x ha hb λ t p accepted.
        let (executing, index) = accepted.more (omega arith) in
        accepting_run_completes k t rest executing (ground arith) (ground arith) hrest (omega arith)
  accepting_run_completes k s answers h i x all n = absurd (omega arith)
