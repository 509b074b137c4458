-- ===== src/Agent/Entities/Examples.antt =====
-- Runs started from a payload of one step.
use atlas_agent_control_plan.Prelude.{ℕ, String, ◌≡◌, refl, none, [], ◌∷◌, string_eq}
use atlas_agent_control_plan.Prelude.Int.{pos, negsuc}
use atlas_agent_control_plan.Prelude.Json.{Value, Fields, end, field, obj, arr, nil, cons, str}
use atlas_agent_control_plan.Prelude.Result.{Result, ok}
use atlas_agent_control_plan.Agent.Entities.{
  AgentPhase, PlanStepStatus, AgentRunState, plan_from_payload, from_plan,
}
use atlas_agent_control_plan.Agent.Entities.Laws.{IsReady, from_plan-IsReady}

abbrev text_of : Value → String
text_of (str text) = text
text_of _ = ""

abbrev uuid_of : String → Result String ℕ
uuid_of text = ok 5

abbrev step : Fields
step = field "id" (str "5") (
    field "title" (str "write") (
      field "description" (str "write the file")
        (field "expected_output" (str "a file") (field "status" (str "pending") end))))

abbrev payload : Fields
payload = field "steps" (arr (cons (obj step) nil)) end

abbrev started : AgentRunState
started = record {
  session_id = 1;
  run_id = 2;
  plan_revision = 3;
  plan = record {
    goal = "";
    steps =
        record {
          id = 5;
          title = "write";
          description = "write the file";
          expected_output = "a file";
          status = PlanStepStatus.pending;
        }
        ∷ [];
  };
  phase = AgentPhase.executing;
  step_index = 0;
  attempt = 1;
  observation = none;
  reflection = none;
  final_answer = none;
}

starts : from_plan text_of uuid_of 1 payload 2 (pos 3) (negsuc 4) ≡ ok started
unfolding from_plan plan_from_payload
starts = refl

from_plan-IsReady_example :
    (plan_from_payload text_of uuid_of payload ≡ ok started.plan)
    × IsReady started.plan 0 started
    × ((n : ℕ) × (pos 3 ≡ pos n) × (3 ≡ n))
from_plan-IsReady_example =
    from_plan-IsReady text_of uuid_of 1 2 payload (pos 3) (negsuc 4) started starts
