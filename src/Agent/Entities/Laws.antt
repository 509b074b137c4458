-- ===== src/Agent/Entities/Laws.antt =====
-- The state that a run starts in.
use atlas_agent_control_plan.Prelude.{
  ℕ, ◌≤◌, ◌<◌, String, ◌≡◌, refl, subst, ◌↔◌, none, arith, length,
}
use atlas_agent_control_plan.Prelude.Int.{ℤ, pos, negsuc, pos_part}
use atlas_agent_control_plan.Prelude.Json.{Value, Fields}
use atlas_agent_control_plan.Prelude.Result.{Result, ok, >>=-eq-ok, ok_inj}
use atlas_agent_control_plan.Agent.Entities.{
  AgentPhase, RunPlan, AgentRunState, plan_from_payload, initial_state, from_plan,
}

-- The state `t` is ready to run `source` from the step `index`.
pub record IsReady (source : RunPlan) (index : ℕ) (t : AgentRunState) : Type 0 where
  pub plan : t.plan ≡ source
  pub in_plan : 1 ≤ length source.steps → t.step_index < length source.steps
  pub resumes :
      index < length source.steps → (t.phase ≡ AgentPhase.executing) × (t.step_index ≡ index)
  pub summarises :
      (t.phase ≡ AgentPhase.summarizing)
      ↔ ((1 ≤ length source.steps) × (length source.steps ≤ index))
  pub attempt : t.attempt ≡ 1
  pub unobserved : t.observation ≡ none

initial_state-IsReady :
    (session_id run_id revision index : ℕ) (plan : RunPlan)
    → IsReady plan index (initial_state session_id run_id revision plan index)
unfolding initial_state
initial_state-IsReady session_id run_id revision index plan = record {
  plan = refl;
  in_plan = λ h. ground (arith, h);
  resumes = λ h. (ground (arith, h), ground (arith, h));
  summarises = (λ h. ground (arith, h), λ (a, b). ground (arith, a, b));
  attempt = refl;
  unobserved = refl;
}

-- A run that `from_plan` starts carries the plan that its payload holds, stands inside the plan where
-- it has steps, resumes at the asked step where the plan has it, and starts in `summarizing` exactly
-- where the asked step is past the last of a plan that has steps. A negative asked step counts as 0, and
-- a negative revision is refused.
pub from_plan-IsReady :
    (text_of : Value → String) (uuid_of : String → Result String ℕ) (session_id run_id : ℕ)
    (payload : Fields) (revision start : ℤ) (t : AgentRunState)
    → from_plan text_of uuid_of session_id payload run_id revision start ≡ ok t
    → (plan_from_payload text_of uuid_of payload ≡ ok t.plan)
      × IsReady t.plan (pos_part start) t
      × ((n : ℕ) × (revision ≡ pos n) × (t.plan_revision ≡ n))
unfolding from_plan initial_state
from_plan-IsReady text_of uuid_of session_id run_id payload (pos n) start t h =
    let (plan, found, e) = >>=-eq-ok (plan_from_payload text_of uuid_of payload) _ h in
    let ready = initial_state-IsReady session_id run_id n (pos_part start) plan in
    subst
      (λ u.
        (plan_from_payload text_of uuid_of payload ≡ ok u.plan)
        × IsReady u.plan (pos_part start) u
        × ((m : ℕ) × (pos n ≡ pos m) × (u.plan_revision ≡ m)))
      (ok_inj e) (found, ready, (n, refl, refl))
from_plan-IsReady text_of uuid_of session_id run_id payload (negsuc n) start t h = cc
