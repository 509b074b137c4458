-- ===== src/Agent/Router/Laws.antt =====
-- The router moves along the phase graph, changes nothing of a run but what a move names, and keeps
-- the current step inside the plan.
use atlas_agent_control_plan.Prelude.{
  ℕ, ◌+◌, ◌<◌, String, ◌≡◌, ◌≢◌, ◌↔◌, Bool, true, false, ◌||◌, none, some, length, arith,
  if◌then◌else◌,
}
use atlas_agent_control_plan.Prelude.Result.{ok}
use atlas_agent_control_plan.Tools.Call.{ToolInvocationStatus}
use atlas_agent_control_plan.Agent.Entities.{
  AgentPhase, ReflectionAction, StepObservation, Reflection, AgentRunState,
}
use atlas_agent_control_plan.Agent.Router.{
  is_success, is_final_failure, after_execution, after_reflection, after_summary, route, accepted,
}

-- The session, the run and its plan are the same.
pub record SameRun (s t : AgentRunState) : Type 0 where
  pub session_id : t.session_id ≡ s.session_id
  pub run_id : t.run_id ≡ s.run_id
  pub plan_revision : t.plan_revision ≡ s.plan_revision
  pub plan : t.plan ≡ s.plan

-- The current step is one of the plan, and what is reflected on has been observed.
pub record IsWellFormed (s : AgentRunState) : Type 0 where
  pub in_plan : s.step_index < length s.plan.steps
  pub observed : s.phase ≡ AgentPhase.reflecting → s.observation ≢ none

-- One call of the router that does not raise.
pub data RouterStep (s t : AgentRunState) : Type 0 where
  executes : (observation : StepObservation) → after_execution s observation ≡ ok t → RouterStep s t
  reflects : (reflection : Reflection) → after_reflection s reflection ≡ ok t → RouterStep s t
  summarises : (answer : String) → after_summary s answer ≡ ok t → RouterStep s t

abbrev pub is_accept : ReflectionAction → ℕ
is_accept ReflectionAction.accept = 1
is_accept _ = 0

-- How many reflections of a call accept a step.
abbrev pub accepts : {s t : AgentRunState} → RouterStep s t → ℕ
accepts (executes observation h) = 0
accepts (reflects reflection h) = is_accept reflection.action
accepts (summarises answer h) = 0

-- A sequence of calls, with the number of its accepts.
pub data Route (s : AgentRunState) : AgentRunState → ℕ → Type 0 where
  here : Route s s 0
  next :
      {t u : AgentRunState} {n m : ℕ}
      → Route s t n
      → (step : RouterStep t u) → m ≡ n + accepts step
      → Route s u m

-- All steps are accepted.
abbrev pub is_done : AgentPhase → Bool
is_done AgentPhase.summarizing = true
is_done AgentPhase.completed = true
is_done _ = false

-- `t` lies on the run that starts at step `start` of `s`, `n` accepts later.
pub record IsOnRoute (s t : AgentRunState) (n : ℕ) : Type 0 where
  pub same : SameRun s t
  pub well_formed : IsWellFormed t
  pub progress : s.step_index + n ≡ (if is_done t.phase then length s.plan.steps else t.step_index)

executes-IsOnRoute :
    (s t u : AgentRunState) (n : ℕ) (observation : StepObservation)
    → after_execution t observation ≡ ok u
    → IsOnRoute s t n
    → IsOnRoute s u n
unfolding after_execution
executes-IsOnRoute s t u n observation e h = ground arith

reflects-IsOnRoute :
    (s t u : AgentRunState) (n : ℕ) (reflection : Reflection)
    → after_reflection t reflection ≡ ok u
    → IsOnRoute s t n
    → IsOnRoute s u (n + is_accept reflection.action)
unfolding after_reflection route accepted
reflects-IsOnRoute s t u n reflection e h = ground arith

summarises-IsOnRoute :
    (s t u : AgentRunState) (n : ℕ) (answer : String)
    → after_summary t answer ≡ ok u
    → IsOnRoute s t n
    → IsOnRoute s u n
unfolding after_summary
summarises-IsOnRoute s t u n answer e h = ground arith

start-IsOnRoute :
    (s : AgentRunState) → s.phase ≡ AgentPhase.executing → IsWellFormed s → IsOnRoute s s 0
start-IsOnRoute s h w = ground arith

-- Every sequence of router calls from a well-formed executing state keeps the session, the run, the
-- revision and the plan, ends well formed, stands under way at the start's step plus the number of
-- accepts, and when it is done has accepted every step from the start's on.
pub Route-IsOnRoute :
    (s : AgentRunState) {t : AgentRunState} {n : ℕ}
    → s.phase ≡ AgentPhase.executing
    → IsWellFormed s
    → Route s t n
    → IsOnRoute s t n
Route-IsOnRoute s h w here = start-IsOnRoute s h w
Route-IsOnRoute s h w (next {t = t} {u = u} {n = n} r (executes observation e) m) =
    let on = executes-IsOnRoute s t u n observation e (Route-IsOnRoute s h w r) in ground arith
Route-IsOnRoute s h w (next {t = t} {u = u} {n = n} r (reflects reflection e) m) =
    let on = reflects-IsOnRoute s t u n reflection e (Route-IsOnRoute s h w r) in rw m on
Route-IsOnRoute s h w (next {t = t} {u = u} {n = n} r (summarises answer e) m) =
    let on = summarises-IsOnRoute s t u n answer e (Route-IsOnRoute s h w r) in ground arith

-- A sequence of router calls from a well-formed executing state never stands at `completed` unless its accepts, counted from the start's
-- step, are as many as the steps of the plan that were left.
completed_accepts_all :
    (s : AgentRunState) {t : AgentRunState} {n : ℕ}
    → s.phase ≡ AgentPhase.executing
    → IsWellFormed s
    → Route s t n
    → t.phase ≡ AgentPhase.completed
    → s.step_index + n ≡ length s.plan.steps
completed_accepts_all s h w r c = let on = Route-IsOnRoute s h w r in ground arith

-- The state after an accepted step: the summary after the last one, the next step else.
pub record IsAccepted (s t : AgentRunState) : Type 0 where
  pub plan : t.plan ≡ s.plan
  pub last : s.step_index + 1 ≡ length s.plan.steps → t.phase ≡ AgentPhase.summarizing
  pub more :
      s.step_index + 1 < length s.plan.steps
      → (t.phase ≡ AgentPhase.executing) × (t.step_index ≡ s.step_index + 1)

pub after_reflection-IsAccepted :
    (s : AgentRunState) (reflection : Reflection)
    → s.phase ≡ AgentPhase.reflecting
    → reflection.action ≡ ReflectionAction.accept
    → (t : AgentRunState) × (after_reflection s reflection ≡ ok t) × IsAccepted s t
unfolding after_reflection route accepted
after_reflection-IsAccepted s reflection h a = (
  accepted s reflection,
  ground arith,
  record {
    plan = ground arith;
    last = λ e. ground arith;
    more = λ e. (ground arith, ground arith);
  },
)

-- From `executing` the router refuses exactly the observations of a call under way, and blocks exactly
-- where approval is required; an observation of any other status is reflected on.
pub after_execution-phase_iff :
    (s t : AgentRunState) (observation : StepObservation)
    → s.phase ≡ AgentPhase.executing
    → after_execution s observation ≡ ok t
    → ((t.phase ≡ AgentPhase.blocked)
        ↔ (observation.status ≡ ToolInvocationStatus.approval_required))
      × ((t.phase ≡ AgentPhase.reflecting)
          ↔ ((is_success observation.status || is_final_failure observation.status) ≡ true))
      × (observation.status ≢ ToolInvocationStatus.pending)
      × (observation.status ≢ ToolInvocationStatus.running)
      × (t.observation ≡ some observation)
unfolding after_execution
after_execution-phase_iff s t observation h e = (
  (λ c. ground arith, λ c. ground arith),
  (λ c. ground arith, λ c. ground arith),
  ground arith,
  ground arith,
  ground arith,
)
