-- ===== src/Agent/Router.antt =====
-- backend/api/app/domain/agent_runtime/router.py
pub mod Laws
mod Examples
use atlas_agent_control_plan.Prelude.{
  ◌+◌, String, Bool, true, false, ◌||◌, some, length, if◌then◌else◌, nat_eq, ◌==◌,
}
use atlas_agent_control_plan.Prelude.Result.{Result, ok, err, ◌>>=◌, ◌>>◌}
use atlas_agent_control_plan.Tools.Call.{ToolInvocationStatus}
use atlas_agent_control_plan.Agent.Entities.{
  AgentPhase, ReflectionAction, StepObservation, Reflection, AgentRunState,
}

-- SUCCESS_STATUSES and FINAL_FAILURE_STATUSES
unfoldable pub is_success : ToolInvocationStatus → Bool
is_success ToolInvocationStatus.succeeded = true
is_success ToolInvocationStatus.deduplicated = true
is_success _ = false

unfoldable pub is_final_failure : ToolInvocationStatus → Bool
is_final_failure ToolInvocationStatus.failed = true
is_final_failure ToolInvocationStatus.timed_out = true
is_final_failure ToolInvocationStatus.denied = true
is_final_failure _ = false

abbrev pub same_phase : AgentPhase → AgentPhase → Bool
same_phase AgentPhase.executing AgentPhase.executing = true
same_phase AgentPhase.reflecting AgentPhase.reflecting = true
same_phase AgentPhase.replanning AgentPhase.replanning = true
same_phase AgentPhase.summarizing AgentPhase.summarizing = true
same_phase AgentPhase.completed AgentPhase.completed = true
same_phase AgentPhase.failed AgentPhase.failed = true
same_phase AgentPhase.blocked AgentPhase.blocked = true
same_phase _ _ = false

unfoldable pub require_phase : AgentRunState → AgentPhase → Result String (Unit {0})
require_phase state expected =
    if same_phase state.phase expected then ok tt else err "transition requires another phase"

unfoldable pub after_execution : AgentRunState → StepObservation → Result String AgentRunState
unfolding require_phase is_success is_final_failure
after_execution state observation = do
  require_phase state AgentPhase.executing
  if is_success observation.status || is_final_failure observation.status
      then ok (record state { phase = AgentPhase.reflecting; observation = some observation })
      else elim observation.status [
        | ToolInvocationStatus.approval_required ↦
            ok (record state { phase = AgentPhase.blocked; observation = some observation })
        | _ ↦ err "execution status is not terminal"
      ]

accepted : AgentRunState → Reflection → AgentRunState
accepted state reflection =
    if state.step_index + 1 == length state.plan.steps
    then record state { phase = AgentPhase.summarizing; reflection = some reflection }
    else record state {
      phase = AgentPhase.executing;
      step_index = state.step_index + 1;
      attempt = 1;
      reflection = some reflection;
    }

route : ReflectionAction → AgentRunState → Reflection → AgentRunState
unfolding accepted
route ReflectionAction.retry state reflection = record state {
  phase = AgentPhase.executing;
  attempt = state.attempt + 1;
  reflection = some reflection;
}
route ReflectionAction.replan state reflection = record state {
  phase = AgentPhase.replanning;
  reflection = some reflection;
}
route ReflectionAction.accept state reflection = accepted state reflection
route ReflectionAction.fail state reflection = record state {
  phase = AgentPhase.failed;
  reflection = some reflection;
}

unfoldable pub after_reflection : AgentRunState → Reflection → Result String AgentRunState
unfolding require_phase route
after_reflection state reflection = do
  require_phase state AgentPhase.reflecting
  ok (route reflection.action state reflection)

unfoldable pub after_summary : AgentRunState → String → Result String AgentRunState
unfolding require_phase
after_summary state final_answer = do
  require_phase state AgentPhase.summarizing
  ok (record state { phase = AgentPhase.completed; final_answer = some final_answer })
