-- ===== src/Agent/Machine/Events.antt =====
-- agent_execution_event_writer.py and `_reflection_events`: the events of a reflection and of the end
-- of a step. Each reads `state.plan.steps[state.step_index]`, and most want an observation.
use atlas_agent_control_plan.Prelude.{ℕ, ◌+◌, String, none, some, List, [], ◌∷◌, get_elem?}
use atlas_agent_control_plan.Prelude.Result.{Result, ok, err, ◌>>=◌, ◌>>◌}
use atlas_agent_control_plan.Agent.Entities.{
  AgentPhase, AgentRunState, Reflection, ReflectionAction, StepObservation,
}
use atlas_agent_control_plan.Agent.Machine.Types.{
  SessionEvent, step_reflected, step_completed, step_failed, task_error,
}

-- `if state.observation is None: raise`
unfoldable pub require_observation : AgentRunState → Result String StepObservation
require_observation state = elim state.observation [
  | none ↦ err "state has no observation"
  | some observation ↦ ok observation
]

-- the read of the current step, with Python's IndexError
unfoldable pub require_step : AgentRunState → Result String (Unit {0})
require_step state = elim (get_elem? state.plan.steps state.step_index) [
  | none ↦ err "tuple index out of range"
  | some step ↦ ok tt
]

unfoldable pub add_reflected_event : AgentRunState → Reflection → Result String SessionEvent
unfolding require_observation require_step
add_reflected_event state reflection = do
  observation ← require_observation state
  require_step state
  ok (step_reflected reflection.action (state.step_index + 1) state.attempt)

unfoldable pub add_terminal_event : AgentRunState → (ℕ → SessionEvent) → Result String SessionEvent
unfolding require_observation require_step
add_terminal_event state event_type = do
  observation ← require_observation state
  require_step state
  ok (event_type (state.step_index + 1))

unfoldable pub add_failure_event : AgentRunState → Result String SessionEvent
unfolding require_step
add_failure_event state = do require_step state; ok (task_error (state.step_index + 1))

-- The events that follow a failed reflection.
failure_events : AgentRunState → Result String (List SessionEvent)
unfolding add_terminal_event add_failure_event
failure_events state = do
  failed ← add_terminal_event state step_failed
  error ← add_failure_event state
  ok (failed ∷ error ∷ [])

-- AgentExecutionMachine._reflection_events
unfoldable pub reflection_events :
    AgentRunState → AgentRunState → Reflection → Result String (List SessionEvent)
unfolding add_terminal_event failure_events
reflection_events state next_state reflection = elim reflection.action [
  | ReflectionAction.accept ↦ do
    completed ← add_terminal_event state step_completed
    ok (completed ∷ [])
  | _ ↦ elim next_state.phase [ AgentPhase.failed ↦ failure_events state | _ ↦ ok [] ]
]
