-- ===== src/Agent/Machine/Run.antt =====
-- `stream` and `_dispatch`: the node of the phase, again and again until a terminal phase.
use atlas_agent_control_plan.Prelude.{
  ℕ, String, Bool, true, false, List, [], ◌∷◌, ◌++◌, if◌then◌else◌,
}
use atlas_agent_control_plan.Prelude.Json.{Value}
use atlas_agent_control_plan.Prelude.Result.{Result, ok, err, ◌>>=◌}
use atlas_agent_control_plan.Agent.Entities.{AgentPhase}
use atlas_agent_control_plan.Agent.Machine.Types.{
  SessionEvent, MachineSnapshot, MachineConfig, Answers,
}
use atlas_agent_control_plan.Agent.Machine.Nodes.{
  NodeResult, execute_node, reflect_node, replan_node,
}
use atlas_agent_control_plan.Agent.Machine.Chain.{summarize_node}

-- _TERMINAL_PHASES
abbrev pub is_terminal : AgentPhase → Bool
is_terminal AgentPhase.completed = true
is_terminal AgentPhase.failed = true
is_terminal AgentPhase.blocked = true
is_terminal _ = false

-- What a node yielded comes before what the rest of the run yields.
unfoldable pub after_node :
    (MachineSnapshot → NodeResult) → List SessionEvent × MachineSnapshot → NodeResult
after_node run (emitted, next) = do (more, last) ← run next; ok (emitted ++ more, last)

module _ (text_of : Value → String) (uuid_of : String → Result String ℕ) (uuid_text : ℕ → String)
    (config : MachineConfig) where
  unfoldable pub dispatch : AgentPhase → MachineSnapshot → Answers → NodeResult
  dispatch AgentPhase.executing snapshot answers = execute_node snapshot answers
  dispatch AgentPhase.reflecting snapshot answers = reflect_node snapshot answers
  dispatch AgentPhase.replanning snapshot answers =
      replan_node text_of uuid_of uuid_text config snapshot answers
  dispatch AgentPhase.summarizing snapshot answers = summarize_node config snapshot answers
  dispatch _ snapshot answers = err "unsupported agent phase"

  -- The `while` loop of `stream`, one `Answers` for each node. A run that ends before its phase is
  -- terminal is a prefix of a longer run.
  unfoldable pub stream : MachineSnapshot → List Answers → NodeResult
  unfolding dispatch after_node
  stream snapshot [] = ok ([], snapshot)
  stream snapshot (answers ∷ rest) =
      if is_terminal snapshot.state.phase
      then ok ([], snapshot)
      else dispatch snapshot.state.phase snapshot answers >>= after_node (λ next. stream next rest)
