-- ===== src/Agent/Machine/Budget/Quiet.antt =====
-- The nodes execute, reflect and replan, and the end of the chain, write no failure of the chain.
use atlas_agent_control_plan.Prelude.{
  ℕ, String, ◌≡◌, refl, ◌∙◌, List, [], ◌∷◌, ◌++◌, map, arith, count_if-append,
}
use atlas_agent_control_plan.Prelude.Json.{Value}
use atlas_agent_control_plan.Prelude.Result.{Result, ok, err, ◌>>=◌}
use atlas_agent_control_plan.Agent.Entities.{AgentRunState}
use atlas_agent_control_plan.Agent.Router.{after_execution}
use atlas_agent_control_plan.Agent.Machine.Types.{
  SessionEvent, from_executor, message, task_done, MachineSnapshot, MachineConfig, Answers,
}
use atlas_agent_control_plan.Agent.Machine.Nodes.{
  NodeResult, execution_request, blocked_events, execute_node, reflect_node, replan_node,
}
use atlas_agent_control_plan.Agent.Machine.Chain.{
  is_audit_failure, count_audit_failures, chain_events,
}

abbrev pub IsQuiet : NodeResult → Type 0
IsQuiet (ok (emitted, t)) = count_audit_failures emitted ≡ 0
IsQuiet (err x) = Unit

IsQuiet-bind {ℓ} :
    {A : Type ℓ} (m : Result String A) (f : A → NodeResult)
    → ((a : A) → m ≡ ok a → IsQuiet (f a))
    → IsQuiet (m >>= f)
IsQuiet-bind (ok a) f h = h a refl
IsQuiet-bind (err x) f h = tt

executor_events : (xs : List String) → count_audit_failures (map from_executor xs) ≡ 0
unfolding count_audit_failures
executor_events [] = refl
executor_events (x ∷ xs) = omega (arith, executor_events xs)

blocked_quiet :
    (s : AgentRunState) (events : List SessionEvent)
    → blocked_events s ≡ ok events
    → count_audit_failures events ≡ 0
unfolding blocked_events count_audit_failures
blocked_quiet s events h = ground arith

pub execute_node-IsQuiet :
    (s : MachineSnapshot) (answers : Answers) → IsQuiet (execute_node s answers)
unfolding execute_node count_audit_failures
execute_node-IsQuiet s answers = IsQuiet-bind (execution_request s) _ λ step _.
    IsQuiet-bind answers.outcome _ λ outcome _.
      IsQuiet-bind (after_execution s.state outcome.observation) _ λ next _.
        IsQuiet-bind (blocked_events next) _ λ blocked e.
          count_if-append is_audit_failure (map from_executor outcome.events) blocked
          ∙ omega (arith, executor_events outcome.events, blocked_quiet next blocked e)

pub reflect_node-IsQuiet :
    (s : MachineSnapshot) (answers : Answers) → IsQuiet (reflect_node s answers)
unfolding reflect_node count_audit_failures
reflect_node-IsQuiet s answers = ground arith

module _ (text_of : Value → String) (uuid_of : String → Result String ℕ) (uuid_text : ℕ → String)
    (config : MachineConfig) where
  pub replan_node-IsQuiet :
      (s : MachineSnapshot) (answers : Answers)
      → IsQuiet (replan_node text_of uuid_of uuid_text config s answers)
  unfolding replan_node count_audit_failures
  replan_node-IsQuiet s answers = ground arith

pub last_events_quiet :
    (ran : ℕ) (answer : String)
    → count_audit_failures (chain_events ran ++ message answer ∷ task_done answer ∷ []) ≡ 0
unfolding count_audit_failures
last_events_quiet ran answer = ground arith
