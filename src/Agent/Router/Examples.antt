-- ===== src/Agent/Router/Examples.antt =====
-- A run of one step through the router.
use atlas_agent_control_plan.Prelude.{◌≡◌, refl, none, some, [], ◌∷◌, arith}
use atlas_agent_control_plan.Prelude.Result.{ok}
use atlas_agent_control_plan.Tools.Call.{ToolInvocationStatus}
use atlas_agent_control_plan.Agent.Entities.{
  AgentPhase, ReflectionAction, PlanStepStatus, RunPlanStep, StepObservation, Reflection,
  AgentRunState, initial_state,
}
use atlas_agent_control_plan.Agent.Router.{
  after_execution, after_reflection, after_summary, route, accepted,
}
use atlas_agent_control_plan.Agent.Router.Laws.{
  IsWellFormed, IsOnRoute, Route, here, next, executes, reflects, summarises, Route-IsOnRoute,
}

abbrev step : RunPlanStep
step = record {
  id = 1;
  title = "write";
  description = "write the file";
  expected_output = "a file";
  status = PlanStepStatus.pending;
}

abbrev start : AgentRunState
start = record {
  session_id = 1;
  run_id = 2;
  plan_revision = 0;
  plan = record { goal = "a file"; steps = step ∷ [] };
  phase = AgentPhase.executing;
  step_index = 0;
  attempt = 1;
  observation = none;
  reflection = none;
  final_answer = none;
}

from_plan_starts : initial_state 1 2 0 start.plan 0 ≡ start
unfolding initial_state
from_plan_starts = refl

abbrev observed : StepObservation
observed = record { status = ToolInvocationStatus.succeeded; output = "done" }

abbrev accepts_it : Reflection
accepts_it = record { action = ReflectionAction.accept; reason = "done" }

abbrev executed : AgentRunState
executed = record start { phase = AgentPhase.reflecting; observation = some observed }

abbrev reflected : AgentRunState
reflected = record executed { phase = AgentPhase.summarizing; reflection = some accepts_it }

abbrev ended : AgentRunState
ended = record reflected { phase = AgentPhase.completed; final_answer = some "a file" }

start-IsWellFormed : IsWellFormed start
start-IsWellFormed = record { in_plan = omega arith; observed = λ h. cc }

whole-Route : Route start ended 1
unfolding after_execution after_reflection after_summary route accepted
whole-Route =
    next (next (next here (executes observed refl) refl) (reflects accepts_it refl) refl)
      (summarises "a file" refl) refl

Route-IsOnRoute_example : IsOnRoute start ended 1
Route-IsOnRoute_example = Route-IsOnRoute start refl start-IsWellFormed whole-Route

execution_reflects : after_execution start observed ≡ ok executed
unfolding after_execution
execution_reflects = refl
