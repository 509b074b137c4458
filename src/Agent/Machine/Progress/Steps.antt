-- ===== src/Agent/Machine/Progress/Steps.antt =====
-- An accepted step: its execution and its reflection return.
use atlas_agent_control_plan.Prelude.{
  ℕ, zero, suc, ◌+◌, ◌<◌, String, true, ◌≡◌, refl, some, List, [], ◌∷◌, ◌++◌, map, arith, length,
  get_elem?, nat_eq,
}
use atlas_agent_control_plan.Prelude.Json.{Fields, Items, items, arr, obj, get_field}
use atlas_agent_control_plan.Prelude.Result.{ok, >>=_ok}
use atlas_agent_control_plan.Acceptance.Config.{AcceptanceGateConfig}
use atlas_agent_control_plan.Agent.Entities.{
  AgentPhase, AgentRunState, ReflectionAction, Reflection, StepObservation,
}
use atlas_agent_control_plan.Agent.Router.{is_success, after_execution, after_reflection}
use atlas_agent_control_plan.Agent.Router.Laws.{IsAccepted, after_reflection-IsAccepted}
use atlas_agent_control_plan.Agent.Machine.Events.{
  require_observation, require_step, add_reflected_event, add_terminal_event, reflection_events,
}
use atlas_agent_control_plan.Agent.Machine.Types.{
  SessionEvent, from_executor, step_reflected, step_completed, StepExecutionOutcome,
  MachineSnapshot, Answers,
}
use atlas_agent_control_plan.Agent.Machine.Nodes.{
  NodeResult, execution_request, execute_node, reflect_node,
}

-- The step succeeds, the critic accepts, every stage passes, and there is a summary.
pub record IsAccepting (a : Answers) : Type 0 where
  pub outcome : StepExecutionOutcome
  pub executed : a.outcome ≡ ok outcome
  pub succeeded : is_success outcome.observation.status ≡ true
  pub reflection : Reflection
  pub reflected : a.reflection ≡ ok reflection
  pub accepted : reflection.action ≡ ReflectionAction.accept
  pub gate : (gate : AcceptanceGateConfig) → (a.gate gate).passed ≡ true
  pub in_scope : a.in_scope ≡ true
  pub adequate : a.adequate ≡ true
  pub answer : String
  pub summarised : a.summary ≡ ok answer

-- The payload has `count` steps at least, and each of them is an object.
pub record IsExecutable (payload : Fields) (count : ℕ) : Type 0 where
  pub steps : Items
  pub found : get_field "steps" payload ≡ some (arr steps)
  pub objects :
      (i : ℕ) → i < count → (step : Fields) × (get_elem? (items steps) i ≡ some (obj step))

pub execution_request-ok :
    (s : MachineSnapshot) (count : ℕ)
    → IsExecutable s.plan count
    → s.state.step_index < count
    → (step : Fields) × (execution_request s ≡ ok step)
unfolding execution_request
execution_request-ok s count x i =
    let (step, there) = x.objects s.state.step_index i in (step, ground (arith, x.found, there))

-- `r` returns a snapshot for which `Q` holds.
pub record Returns (r : NodeResult) (Q : MachineSnapshot → Type 0) : Type 0 where
  pub emitted : List SessionEvent
  pub next : MachineSnapshot
  pub returned : r ≡ ok (emitted, next)
  pub holds : Q next

-- What an execution leaves for the reflection.
pub record IsObserved (s t : MachineSnapshot) : Type 0 where
  pub phase : t.state.phase ≡ AgentPhase.reflecting
  pub payload : t.plan ≡ s.plan
  pub plan : t.state.plan ≡ s.state.plan
  pub step_index : t.state.step_index ≡ s.state.step_index
  pub observation : StepObservation
  pub observed : t.state.observation ≡ some observation

after_success :
    (state : AgentRunState) (o : StepObservation)
    → state.phase ≡ AgentPhase.executing
    → is_success o.status ≡ true
    → after_execution state o
      ≡ ok (record state { phase = AgentPhase.reflecting; observation = some o })
unfolding after_execution
after_success state o h e = ground arith

pub execute_accepting :
    (s : MachineSnapshot) (a : Answers) (step : Fields)
    → IsAccepting a
    → s.state.phase ≡ AgentPhase.executing
    → execution_request s ≡ ok step
    → Returns (execute_node s a) (IsObserved s)
unfolding execute_node
execute_accepting s a step acc h e =
    let o = acc.outcome.observation in
    let observed = record (s.state) { phase = AgentPhase.reflecting; observation = some o } in
    let emitted = map from_executor acc.outcome.events ++ [] in
    record {
      emitted = emitted;
      next = record {
        state = observed;
        plan = s.plan;
        step_history = s.step_history ++ acc.outcome.history ∷ [];
        events = s.events ++ emitted;
      };
      returned = >>=_ok (execution_request s) _ e (
          >>=_ok a.outcome _ acc.executed
            (>>=_ok (after_execution s.state o) _ (after_success s.state o h acc.succeeded) refl));
      holds = record {
        phase = refl;
        payload = refl;
        plan = refl;
        step_index = refl;
        observation = o;
        observed = refl;
      };
    }

get_elem?-some {ℓ} :
    {A : Type ℓ} (xs : List A) (i : ℕ) → i < length xs → (x : A) × (get_elem? xs i ≡ some x)
get_elem?-some [] i h = absurd (omega arith)
get_elem?-some (x ∷ xs) zero h = (x, refl)
get_elem?-some (x ∷ xs) (suc i) h = get_elem?-some xs i (omega arith)

require_observation-ok :
    (s : AgentRunState) (o : StepObservation)
    → s.observation ≡ some o
    → require_observation s ≡ ok o
unfolding require_observation
require_observation-ok s o e = rw e refl

require_step-ok : (s : AgentRunState) → s.step_index < length s.plan.steps → require_step s ≡ ok tt
unfolding require_step
require_step-ok s i =
    let (step, there) = get_elem?-some s.plan.steps s.step_index i in ground (arith, there)

reflection_events-accept :
    (s t : AgentRunState) (r : Reflection) (o : StepObservation)
    → s.observation ≡ some o
    → s.step_index < length s.plan.steps
    → r.action ≡ ReflectionAction.accept
    → reflection_events s t r ≡ ok (step_completed (s.step_index + 1) ∷ [])
unfolding reflection_events add_terminal_event
reflection_events-accept s t r o e i a = rw a (
    >>=_ok (add_terminal_event s step_completed) _
      (>>=_ok (require_observation s) _ (require_observation-ok s o e)
        (>>=_ok (require_step s) _ (require_step-ok s i) refl))
      refl)

pub reflect_accepting :
    (s : MachineSnapshot) (a : Answers) (o : StepObservation)
    → IsAccepting a
    → s.state.phase ≡ AgentPhase.reflecting
    → s.state.observation ≡ some o
    → s.state.step_index < length s.state.plan.steps
    → Returns (reflect_node s a) λ t. (t.plan ≡ s.plan) × IsAccepted s.state t.state
unfolding reflect_node add_reflected_event
reflect_accepting s a o acc h e i =
    let observed = require_observation-ok s.state o e in
    let present = require_step-ok s.state i in
    let (t, after, accepted) = after_reflection-IsAccepted s.state acc.reflection h acc.accepted in
    let event = step_reflected acc.reflection.action (s.state.step_index + 1) s.state.attempt in
    let ended = step_completed (s.state.step_index + 1) ∷ [] in
    record {
      emitted = event ∷ ended;
      next = record s { state = t; events = s.events ++ event ∷ ended };
      returned = >>=_ok (require_observation s.state) _ observed (
          >>=_ok (require_step s.state) _ present (
            >>=_ok a.reflection _ acc.reflected (
              >>=_ok (add_reflected_event s.state acc.reflection) _
                (>>=_ok (require_observation s.state) _ observed
                  (>>=_ok (require_step s.state) _ present refl))
                (>>=_ok (after_reflection s.state acc.reflection) _ after (
                  >>=_ok (reflection_events s.state t acc.reflection) _
                    (reflection_events-accept s.state t acc.reflection o e i acc.accepted)
                    refl)))));
      holds = (refl, accepted);
    }
