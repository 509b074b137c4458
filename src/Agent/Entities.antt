-- ===== src/Agent/Entities.antt =====
-- backend/api/app/domain/agent_runtime/entities.py. A UUID is a number. `from_payload` of a plan step
-- takes `text_of` for Python's `str` of a value and `uuid_of` for the parser of UUIDs.
pub mod Laws
mod Examples
use atlas_agent_control_plan.Prelude.{
  ℕ, zero, suc, ◌+◌, ◌-◌, ◌<◌, ◌≢◌, String, Bool, true, false, ◌&&◌, Option, none, some, List, [],
  ◌∷◌, leb, length, ◌==◌, string_eq, if◌then◌else◌,
}
use atlas_agent_control_plan.Prelude.Int.{ℤ, pos, negsuc, pos_part}
use atlas_agent_control_plan.Prelude.Json.{Value, Fields, get_field, items, str, arr, obj}
use atlas_agent_control_plan.Prelude.Result.{Result, ok, err, ◌>>=◌}
use atlas_agent_control_plan.Tools.Call.{ToolInvocationStatus}

pub data AgentPhase : Type 0 where
  executing reflecting replanning summarizing completed failed blocked : AgentPhase

pub data ReflectionAction : Type 0 where
  accept retry replan fail : ReflectionAction

pub data PlanStepStatus : Type 0 where
  pending running completed failed : PlanStepStatus

pub record RunPlanStep : Type 0 where
  pub id : ℕ
  pub title : String
  pub description : String
  pub expected_output : String
  pub status : PlanStepStatus

pub record RunPlan : Type 0 where
  pub goal : String
  pub steps : List RunPlanStep

pub record StepObservation : Type 0 where
  pub status : ToolInvocationStatus
  pub output : String

pub record Reflection : Type 0 where
  pub action : ReflectionAction
  pub reason : String

pub record AgentRunState : Type 0 where
  pub session_id : ℕ
  pub run_id : ℕ
  pub plan_revision : ℕ
  pub plan : RunPlan
  pub phase : AgentPhase
  pub step_index : ℕ
  pub attempt : ℕ
  pub observation : Option StepObservation
  pub reflection : Option Reflection
  pub final_answer : Option String

-- PlanStepStatus(text)
plan_step_status : String → Result String PlanStepStatus
plan_step_status text =
    if text == "pending"
    then ok PlanStepStatus.pending
    else if text == "running"
    then ok PlanStepStatus.running
    else if text == "completed"
    then ok PlanStepStatus.completed
    else if text == "failed"
    then ok PlanStepStatus.failed
    else err "is not a valid PlanStepStatus"

-- payload[key]
required : String → Fields → Result String Value
required key payload = elim (get_field key payload) [ none ↦ err key | some value ↦ ok value ]

module _ (text_of : Value → String) (uuid_of : String → Result String ℕ) where
  step_from_payload : Fields → Result String RunPlanStep
  unfolding required plan_step_status
  step_from_payload payload = do
    raw_id ← required "id" payload
    id ← uuid_of (text_of raw_id)
    title ← required "title" payload
    description ← required "description" payload
    expected ← required "expected_output" payload
    raw_status ← required "status" payload
    status ← plan_step_status (text_of raw_status)
    ok (record {
      id = id;
      title = text_of title;
      description = text_of description;
      expected_output = text_of expected;
      status = status;
    })

  steps_from_payload : List Value → Result String (List RunPlanStep)
  unfolding step_from_payload
  steps_from_payload [] = ok []
  steps_from_payload (obj step ∷ rest) = do
    parsed ← step_from_payload step
    more ← steps_from_payload rest
    ok (parsed ∷ more)
  steps_from_payload (_ ∷ rest) = err "plan payload step must be an object"

  -- RunPlan.from_payload; str(payload.get("goal", ""))
  unfoldable pub plan_from_payload : Fields → Result String RunPlan
  unfolding steps_from_payload
  plan_from_payload payload = do
    raw_steps ← required "steps" payload
    elim raw_steps [
      | arr steps ↦ do
        parsed ← steps_from_payload (items steps)
        ok (record {
          goal = elim (get_field "goal" payload) [ none ↦ "" | some goal ↦ text_of goal ];
          steps = parsed;
        })
      | _ ↦ err "plan payload steps must be a sequence"
    ]

-- The state that `from_plan` returns once the plan is read. `index` is max(start_step_index, 0).
unfoldable pub initial_state : ℕ → ℕ → ℕ → RunPlan → ℕ → AgentRunState
initial_state session_id run_id plan_revision plan index =
    let step_count = length plan.steps in
    let past_end = leb 1 step_count && leb step_count index in
    record {
      session_id = session_id;
      run_id = run_id;
      plan_revision = plan_revision;
      plan = plan;
      phase = if past_end then AgentPhase.summarizing else AgentPhase.executing;
      step_index = if past_end then step_count - 1 else index;
      attempt = 1;
      observation = none;
      reflection = none;
      final_answer = none;
    }

module _ (text_of : Value → String) (uuid_of : String → Result String ℕ) where
  -- AgentRunState.from_plan
  unfoldable pub from_plan : ℕ → Fields → ℕ → ℤ → ℤ → Result String AgentRunState
  unfolding initial_state
  from_plan session_id payload run_id (pos plan_revision) start_step_index = do
    plan ← plan_from_payload text_of uuid_of payload
    ok (initial_state session_id run_id plan_revision plan (pos_part start_step_index))
  from_plan session_id payload run_id (negsuc _) start_step_index =
      err "plan_revision must be non-negative"
