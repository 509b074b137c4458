-- ===== src/Agent/Machine/Types.antt =====
-- The machine's snapshot, its events, and the answers of its collaborators.
use atlas_agent_control_plan.Prelude.{ℕ, String, Bool, List}
use atlas_agent_control_plan.Prelude.Json.{Fields}
use atlas_agent_control_plan.Prelude.Result.{Result}
use atlas_agent_control_plan.Acceptance.Config.{AcceptanceGateConfig}
use atlas_agent_control_plan.Acceptance.Gate.{AcceptanceGateResult}
use atlas_agent_control_plan.Agent.Entities.{
  AgentRunState, ReflectionAction, Reflection, StepObservation,
}

-- SessionEvent, with the part of each payload that the machine reads back or that its order shows:
-- a step's number from 1, an attempt, a revision, verdicts. `from_executor` is an event of the step
-- executor (step_started, tool_called), which writes none of the others.
pub data SessionEvent : Type 0 where
  from_executor : String → SessionEvent
  step_reflected : ReflectionAction → ℕ → ℕ → SessionEvent
  step_completed step_failed step_blocked task_error : ℕ → SessionEvent
  plan_created : ℕ → SessionEvent
  acceptance_gate_started : String → SessionEvent
  acceptance_gate_finished : Bool → String → SessionEvent
  scope_audit_finished : Bool → SessionEvent
  coverage_review_finished : Bool → Bool → SessionEvent
  acceptance_chain_finished : ℕ → SessionEvent
  message : String → SessionEvent
  task_done : String → SessionEvent

pub record MachineSnapshot : Type 0 where
  pub state : AgentRunState
  pub plan : Fields
  pub step_history : List String
  pub events : List SessionEvent

-- Which collaborators are injected, and `acceptance_gate_max_retries`.
pub record MachineConfig : Type 0 where
  pub has_gate : Bool
  pub has_scope_auditor : Bool
  pub has_coverage_reviewer : Bool
  pub has_replanner : Bool
  pub max_retries : ℕ

pub record StepExecutionOutcome : Type 0 where
  pub events : List String
  pub observation : StepObservation
  pub history : String

-- What each collaborator answers if the node asks it; `err` where it raises.
pub record Answers : Type 0 where
  pub outcome : Result String StepExecutionOutcome
  pub reflection : Result String Reflection
  pub replacement : Result String Fields
  pub gate : AcceptanceGateConfig → AcceptanceGateResult
  pub in_scope : Bool
  pub adequate : Bool
  pub summary : Result String String
