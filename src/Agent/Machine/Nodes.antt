-- ===== src/Agent/Machine/Nodes.antt =====
-- The nodes execute, reflect and replan. A node answers the events that it yields, in order, and the
-- snapshot of its NodeTransition.
use atlas_agent_control_plan.Prelude.{
  ℕ, ◌+◌, String, none, some, List, [], ◌∷◌, ◌++◌, map, get_elem?, if◌then◌else◌,
}
use atlas_agent_control_plan.Prelude.Int.{pos}
use atlas_agent_control_plan.Prelude.Json.{
  Value, Fields, get_field, put_field, items, num, str, arr, obj,
}
use atlas_agent_control_plan.Prelude.Result.{Result, ok, err, ◌>>=◌, ◌>>◌}
use atlas_agent_control_plan.Agent.Entities.{AgentPhase, AgentRunState, from_plan}
use atlas_agent_control_plan.Agent.Router.{after_execution, after_reflection}
use atlas_agent_control_plan.Agent.Machine.Types.{
  SessionEvent, from_executor, step_blocked, plan_created, MachineSnapshot, MachineConfig, Answers,
}
use atlas_agent_control_plan.Agent.Machine.Events.{
  require_observation, require_step, add_reflected_event, add_terminal_event, reflection_events,
}

abbrev pub NodeResult : Type 0
NodeResult = Result String (List SessionEvent × MachineSnapshot)

-- The checks of `_execution_request`: the step of the payload at the state's index is an object.
unfoldable pub execution_request : MachineSnapshot → Result String Fields
execution_request snapshot = elim (get_field "steps" snapshot.plan) [
  | some (arr steps) ↦ elim (get_elem? (items steps) snapshot.state.step_index) [
    | none ↦ err "plan step index is out of range"
    | some (obj step) ↦ ok step
    | some _ ↦ err "plan step must be an object"
  ]
  | _ ↦ err "plan steps must be a sequence"
]

-- `step_blocked` is written where the next phase is blocked.
unfoldable pub blocked_events : AgentRunState → Result String (List SessionEvent)
unfolding add_terminal_event
blocked_events next_state = elim next_state.phase [
  | AgentPhase.blocked ↦ do blocked ← add_terminal_event next_state step_blocked; ok (blocked ∷ [])
  | _ ↦ ok []
]

unfoldable pub execute_node : MachineSnapshot → Answers → NodeResult
unfolding execution_request after_execution blocked_events
execute_node snapshot answers = do
  step ← execution_request snapshot
  outcome ← answers.outcome
  next_state ← after_execution snapshot.state outcome.observation
  blocked ← blocked_events next_state
  let emitted = map from_executor outcome.events ++ blocked
  ok (
    emitted,
    record {
      state = next_state;
      plan = snapshot.plan;
      step_history = snapshot.step_history ++ outcome.history ∷ [];
      events = snapshot.events ++ emitted;
    },
  )

unfoldable pub reflect_node : MachineSnapshot → Answers → NodeResult
unfolding require_observation require_step add_reflected_event after_reflection reflection_events
reflect_node snapshot answers = do
  observation ← require_observation snapshot.state
  require_step snapshot.state
  reflection ← answers.reflection
  reflected ← add_reflected_event snapshot.state reflection
  next_state ← after_reflection snapshot.state reflection
  terminal ← reflection_events snapshot.state next_state reflection
  ok (
    reflected ∷ terminal,
    record snapshot { state = next_state; events = snapshot.events ++ reflected ∷ terminal },
  )

-- `text_of` is Python's `str` of a value, `uuid_of` the parser of UUIDs and `uuid_text` its inverse.
module _ (text_of : Value → String) (uuid_of : String → Result String ℕ)
    (uuid_text : ℕ → String) where
  unfoldable pub replan_node : MachineConfig → MachineSnapshot → Answers → NodeResult
  unfolding from_plan
  replan_node config snapshot answers =
      if config.has_replanner
      then (do
        answered ← answers.replacement
        let revision = snapshot.state.plan_revision + 1
        let replacement =
            put_field "run_id" (str (uuid_text snapshot.state.run_id))
              (put_field "plan_revision" (num (pos revision)) answered)
        state ←
            from_plan text_of uuid_of snapshot.state.session_id replacement snapshot.state.run_id
              (pos revision) (pos 0)
        ok (
          plan_created revision ∷ [],
          record {
            state = state;
            plan = replacement;
            step_history = [];
            events = snapshot.events ++ plan_created revision ∷ [];
          },
        ))
      else err "replanner is not configured"
