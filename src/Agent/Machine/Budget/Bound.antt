-- ===== src/Agent/Machine/Budget/Bound.antt =====
-- The budget over a whole run: of the audits and reviews, and of one acceptance command.
use atlas_agent_control_plan.Prelude.{
  ℕ, String, Bool, false, ◌≡◌, ◌≢◌, refl, inl, inr, List, [], ◌∷◌, ◌++◌, arith, Bool-cases, All,
  string_eq,
}
use atlas_agent_control_plan.Prelude.Json.{Value}
use atlas_agent_control_plan.Prelude.Result.{Result, ok, err, ◌>>=◌}
use atlas_agent_control_plan.Agent.Entities.{AgentPhase}
use atlas_agent_control_plan.Agent.Router.{after_summary}
use atlas_agent_control_plan.Agent.Machine.Types.{
  SessionEvent, MachineSnapshot, MachineConfig, Answers,
}
use atlas_agent_control_plan.Agent.Machine.Nodes.{NodeResult}
use atlas_agent_control_plan.Agent.Machine.Chain.{
  is_audit_failure, ChainProgress, gate_stage, scope_stage, coverage_stage, finish, summarize_node,
}
use atlas_agent_control_plan.Agent.Machine.Stages.{
  GateFails, ScopeFails, CoverageFails, gate_stage-StageCases, scope_stage-StageCases,
  coverage_stage-StageCases,
}
use atlas_agent_control_plan.Agent.Machine.Run.{is_terminal, after_node, dispatch, stream}
use atlas_agent_control_plan.Agent.Machine.Trace.{
  Remembers, execute_node-Remembers, reflect_node-Remembers, replan_node-Remembers,
}
use atlas_agent_control_plan.Agent.Machine.Budget.{
  IsWithin, Within, Spends, IsOpen, advance-Within, grow-IsWithin,
}
use atlas_agent_control_plan.Agent.Machine.Budget.Quiet.{
  IsQuiet, execute_node-IsQuiet, reflect_node-IsQuiet, replan_node-IsQuiet, last_events_quiet,
}

module _ (P : SessionEvent → Bool)
    (quiet : (e : SessionEvent) → is_audit_failure e ≡ false → P e ≡ false)
    (config : MachineConfig) where
  abbrev pub limit : ℕ
  limit = config.max_retries

  -- What the three stages must show, whatever the snapshot.
  pub record StagesSpend (answers : Answers) : Type 0 where
    pub gate :
        (s : MachineSnapshot) (events : List SessionEvent) (c : Bool)
        → GateFails config answers s events c
        → Spends P quiet limit s events c
    pub scope :
        (s : MachineSnapshot) (events : List SessionEvent) (c : Bool)
        → ScopeFails config answers s events c
        → Spends P quiet limit s events c
    pub coverage :
        (s : MachineSnapshot) (events : List SessionEvent) (c : Bool)
        → CoverageFails config answers s events c
        → Spends P quiet limit s events c

  quiet_node-Within :
      (s : MachineSnapshot) (r : NodeResult)
      → IsWithin P quiet limit s
      → s.state.phase ≢ AgentPhase.failed
      → Remembers s.events r
      → IsQuiet r
      → Within P quiet limit r
  quiet_node-Within s (ok (emitted, t)) w o remembered q =
      grow-IsWithin P quiet limit s t emitted w o remembered q
  quiet_node-Within s (err x) w o remembered q = tt

  Within-bind {ℓ} :
      {A : Type ℓ} (m : Result String A) (f : A → NodeResult)
      → ((a : A) → Within P quiet limit (f a))
      → Within P quiet limit (m >>= f)
  Within-bind (ok a) f h = h a
  Within-bind (err x) f h = tt

  finish-Within :
      (answers : Answers) (p : ChainProgress)
      → IsOpen P quiet limit p
      → Within P quiet limit (finish answers p)
  unfolding finish
  finish-Within answers p h = Within-bind answers.summary _ λ answer.
      Within-bind (after_summary p.snapshot.state answer) _ λ state.
        grow-IsWithin P quiet limit p.snapshot _ _ h.0 h.1 refl (last_events_quiet p.ran answer)

  summarize_node-Within :
      (answers : Answers) (s : MachineSnapshot)
      → StagesSpend answers
      → IsWithin P quiet limit s
      → s.state.phase ≢ AgentPhase.failed
      → Within P quiet limit (summarize_node config s answers)
  unfolding summarize_node
  summarize_node-Within answers s spends w o =
      advance-Within P quiet limit _ _ (gate_stage config answers s) _
        (gate_stage-StageCases config answers s) (w, o) (spends.gate s)
        λ p hp.
          advance-Within P quiet limit p _ (scope_stage config answers p.snapshot) _
            (scope_stage-StageCases config answers p.snapshot) hp (spends.scope p.snapshot)
            λ q hq.
              advance-Within P quiet limit q _ (coverage_stage config answers q.snapshot) _
                (coverage_stage-StageCases config answers q.snapshot) hq
                (spends.coverage q.snapshot) (finish-Within answers)

  module _ (text_of : Value → String) (uuid_of : String → Result String ℕ)
      (uuid_text : ℕ → String) where
    dispatch-Within :
        (phase : AgentPhase) (answers : Answers) (s : MachineSnapshot)
        → StagesSpend answers
        → IsWithin P quiet limit s
        → s.state.phase ≢ AgentPhase.failed
        → Within P quiet limit (dispatch text_of uuid_of uuid_text config phase s answers)
    unfolding dispatch
    dispatch-Within AgentPhase.executing a s spends w o =
        quiet_node-Within s _ w o (execute_node-Remembers s a) (execute_node-IsQuiet s a)
    dispatch-Within AgentPhase.reflecting a s spends w o =
        quiet_node-Within s _ w o (reflect_node-Remembers s a) (reflect_node-IsQuiet s a)
    dispatch-Within AgentPhase.replanning a s spends w o =
        quiet_node-Within s _ w o (replan_node-Remembers text_of uuid_of uuid_text config s a)
          (replan_node-IsQuiet text_of uuid_of uuid_text config s a)
    dispatch-Within AgentPhase.summarizing a s spends w o = summarize_node-Within a s spends w o
    dispatch-Within _ a s spends w o = tt

    after_node-Within :
        (m : NodeResult) (run : MachineSnapshot → NodeResult)
        → Within P quiet limit m
        → ((next : MachineSnapshot) → IsWithin P quiet limit next → Within P quiet limit (run next))
        → Within P quiet limit (m >>= after_node run)
    unfolding after_node
    after_node-Within (err x) run h rest = tt
    after_node-Within (ok (emitted, next)) run h rest = prefix (run next) (rest next h)
      where
        prefix :
            (r : NodeResult)
            → Within P quiet limit r
            → Within P quiet limit (r >>= λ (more, last). ok (emitted ++ more, last))
        prefix (err x) w = tt
        prefix (ok (more, last)) w = w

    pub stream-Within :
        (answers : List Answers) (s : MachineSnapshot)
        → All StagesSpend answers
        → IsWithin P quiet limit s
        → Within P quiet limit (stream text_of uuid_of uuid_text config s answers)
    unfolding stream
    stream-Within [] s spends w = w
    stream-Within (a ∷ rest) s spends w = elim (Bool-cases (is_terminal s.state.phase)) [
      | inl ended ↦ rw ended w
      | inr more ↦ rw more (
          after_node-Within (dispatch text_of uuid_of uuid_text config s.state.phase s a)
            (λ next. stream text_of uuid_of uuid_text config next rest)
            (dispatch-Within s.state.phase a s spends.0 w (λ f. ground arith))
            (λ next h. stream-Within rest next spends.1 h))
    ]
