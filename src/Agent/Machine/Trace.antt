-- ===== src/Agent/Machine/Trace.antt =====
-- What a run yields is what its snapshot remembers.
use mathlib.Core.List.{append-nil, append_assoc}
use atlas_agent_control_plan.Prelude.{
  ℕ, String, Bool, true, false, ◌≡◌, ◌≢◌, refl, sym, subst, ◌∙◌, inl, inr, List, [], ◌∷◌, ◌++◌,
  arith, Bool-cases,
}
use atlas_agent_control_plan.Prelude.Json.{Value}
use atlas_agent_control_plan.Prelude.Result.{Result, ok, err, ◌>>=◌}
use atlas_agent_control_plan.Agent.Entities.{AgentPhase}
use atlas_agent_control_plan.Agent.Router.{after_execution, after_summary}
use atlas_agent_control_plan.Agent.Machine.Types.{
  SessionEvent, MachineSnapshot, MachineConfig, Answers,
}
use atlas_agent_control_plan.Agent.Machine.Nodes.{
  NodeResult, execution_request, blocked_events, execute_node, reflect_node, replan_node,
}
use atlas_agent_control_plan.Agent.Machine.Chain.{
  StageOutcome, skipped, went_on, left, ChainProgress, advance, failed_transition, gate_stage,
  scope_stage, coverage_stage, finish, summarize_node,
}
use atlas_agent_control_plan.Agent.Machine.Stages.{
  StageCases, skips, goes_on, fails, gate_stage-StageCases, scope_stage-StageCases,
  coverage_stage-StageCases,
}
use atlas_agent_control_plan.Agent.Machine.Run.{is_terminal, after_node, dispatch, stream}

-- The events of the snapshot that a node answers are those before it and those that it yields.
abbrev pub Remembers : List SessionEvent → NodeResult → Type 0
Remembers before (ok (emitted, next)) = next.events ≡ before ++ emitted
Remembers before (err x) = Unit

Remembers-bind {ℓ} :
    {A : Type ℓ} (before : List SessionEvent) (m : Result String A) (f : A → NodeResult)
    → ((a : A) → Remembers before (f a))
    → Remembers before (m >>= f)
Remembers-bind before (ok a) f h = h a
Remembers-bind before (err x) f h = tt

pub execute_node-Remembers :
    (s : MachineSnapshot) (answers : Answers) → Remembers s.events (execute_node s answers)
unfolding execute_node
execute_node-Remembers s answers = Remembers-bind s.events (execution_request s) _ λ step.
    Remembers-bind s.events answers.outcome _ λ outcome.
      Remembers-bind s.events (after_execution s.state outcome.observation) _
        λ next. Remembers-bind s.events (blocked_events next) _ λ blocked. refl

pub reflect_node-Remembers :
    (s : MachineSnapshot) (answers : Answers) → Remembers s.events (reflect_node s answers)
unfolding reflect_node
reflect_node-Remembers s answers = ground arith

module _ (text_of : Value → String) (uuid_of : String → Result String ℕ) (uuid_text : ℕ → String)
    (config : MachineConfig) where
  pub replan_node-Remembers :
      (s : MachineSnapshot) (answers : Answers)
      → Remembers s.events (replan_node text_of uuid_of uuid_text config s answers)
  unfolding replan_node
  replan_node-Remembers s answers = ground arith

-- A stage that leaves the chain answers a snapshot that remembers what the stage yields.
abbrev StageRemembers : List SessionEvent → Result String StageOutcome → Type 0
StageRemembers before (ok (left emitted next)) = next.events ≡ before ++ emitted
StageRemembers before _ = Unit

failed_transition-Remembers :
    (s : MachineSnapshot) (events : List SessionEvent) (can_retry : Bool)
    → StageRemembers s.events (failed_transition s events can_retry)
unfolding failed_transition
failed_transition-Remembers s events true = ground arith
failed_transition-Remembers s events false = ground arith

-- The chain so far remembers what it yielded.
abbrev IsTraced : List SessionEvent → ChainProgress → Type 0
IsTraced before p = p.snapshot.events ≡ before ++ p.emitted

advance_left-Remembers :
    (before : List SessionEvent) (p : ChainProgress) (r : Result String StageOutcome)
    (k : ChainProgress → NodeResult)
    → IsTraced before p
    → ((events : List SessionEvent) → r ≢ ok (went_on events))
    → r ≢ ok skipped
    → StageRemembers p.snapshot.events r
    → Remembers before (advance p r k)
advance_left-Remembers before p (err x) k h g n t = tt
advance_left-Remembers before p (ok skipped) k h g n t = absurd (n refl)
advance_left-Remembers before p (ok (went_on events)) k h g n t = absurd (g events refl)
advance_left-Remembers before p (ok (left emitted next)) k h g n t =
    t ∙ rw h (append_assoc before p.emitted emitted)

pub failed_transition_leaves :
    (s : MachineSnapshot) (events : List SessionEvent) (can_retry : Bool)
    → ((more : List SessionEvent) → failed_transition s events can_retry ≢ ok (went_on more))
      × (failed_transition s events can_retry ≢ ok skipped)
unfolding failed_transition
failed_transition_leaves s events true = (λ more e. ground arith, λ e. ground arith)
failed_transition_leaves s events false = (λ more e. ground arith, λ e. ground arith)

advance-Remembers :
    (before : List SessionEvent) (p : ChainProgress) (Q : List SessionEvent → Bool → Type 0)
    (r : Result String StageOutcome) (k : ChainProgress → NodeResult)
    → StageCases p.snapshot Q r
    → IsTraced before p
    → ((q : ChainProgress) → IsTraced before q → Remembers before (k q))
    → Remembers before (advance p r k)
advance-Remembers before p Q r k (skips e) h rest = rw e (rest p h)
advance-Remembers before p Q r k (goes_on events _ e) h rest =
    rw e (rest _ (rw h (append_assoc before p.emitted events)))
advance-Remembers before p Q r k (fails events c _ e) h rest =
    let (goes, skip) = failed_transition_leaves p.snapshot events c in
    rw e (
      advance_left-Remembers before p (failed_transition p.snapshot events c) k h goes skip
        (failed_transition-Remembers p.snapshot events c))

finish-Remembers :
    (before : List SessionEvent) (answers : Answers) (p : ChainProgress)
    → IsTraced before p
    → Remembers before (finish answers p)
unfolding finish
finish-Remembers before answers p h = Remembers-bind before answers.summary _ λ answer.
    Remembers-bind before (after_summary p.snapshot.state answer) _
      λ state. rw h (append_assoc before p.emitted _)

summarize_node-Remembers :
    (config : MachineConfig) (s : MachineSnapshot) (answers : Answers)
    → Remembers s.events (summarize_node config s answers)
unfolding summarize_node
summarize_node-Remembers config s answers =
    advance-Remembers s.events _ _ (gate_stage config answers s) _
      (gate_stage-StageCases config answers s) (sym (append-nil s.events))
      λ p hp.
        advance-Remembers s.events p _ (scope_stage config answers p.snapshot) _
          (scope_stage-StageCases config answers p.snapshot) hp
          λ q hq.
            advance-Remembers s.events q _ (coverage_stage config answers q.snapshot) _
              (coverage_stage-StageCases config answers q.snapshot) hq
              (finish-Remembers s.events answers)

append-Remembers :
    (before emitted : List SessionEvent) (middle : List SessionEvent) (r : NodeResult)
    → middle ≡ before ++ emitted
    → Remembers middle r
    → Remembers before (r >>= λ (more, last). ok (emitted ++ more, last))
append-Remembers before emitted middle (err x) h t = tt
append-Remembers before emitted middle (ok (more, last)) h t =
    t ∙ rw h (append_assoc before emitted more)

after_node-Remembers :
    (before : List SessionEvent) (m : NodeResult) (run : MachineSnapshot → NodeResult)
    → Remembers before m
    → ((next : MachineSnapshot) → Remembers next.events (run next))
    → Remembers before (m >>= after_node run)
unfolding after_node
after_node-Remembers before (err x) run h rest = tt
after_node-Remembers before (ok (emitted, next)) run h rest =
    append-Remembers before emitted next.events (run next) h (rest next)

module _ (text_of : Value → String) (uuid_of : String → Result String ℕ) (uuid_text : ℕ → String)
    (config : MachineConfig) where
  dispatch-Remembers :
      (phase : AgentPhase) (s : MachineSnapshot) (answers : Answers)
      → Remembers s.events (dispatch text_of uuid_of uuid_text config phase s answers)
  unfolding dispatch
  dispatch-Remembers AgentPhase.executing s answers = execute_node-Remembers s answers
  dispatch-Remembers AgentPhase.reflecting s answers = reflect_node-Remembers s answers
  dispatch-Remembers AgentPhase.replanning s answers =
      replan_node-Remembers text_of uuid_of uuid_text config s answers
  dispatch-Remembers AgentPhase.summarizing s answers = summarize_node-Remembers config s answers
  dispatch-Remembers _ s answers = tt

  stream-Remembers :
      (answers : List Answers) (s : MachineSnapshot)
      → Remembers s.events (stream text_of uuid_of uuid_text config s answers)
  unfolding stream
  stream-Remembers [] s = sym (append-nil s.events)
  stream-Remembers (a ∷ rest) s = elim (Bool-cases (is_terminal s.state.phase)) [
    | inl ended ↦ rw ended (sym (append-nil s.events))
    | inr more ↦ rw more (
        after_node-Remembers s.events (dispatch text_of uuid_of uuid_text config s.state.phase s a)
          (λ next. stream text_of uuid_of uuid_text config next rest)
          (dispatch-Remembers s.state.phase s a) (λ next. stream-Remembers rest next))
  ]

  -- Whatever the collaborators answer, a run that does not raise yields exactly the events by which
  -- its snapshot grows, in their order.
  pub stream-events :
      (answers : List Answers) (s t : MachineSnapshot) (emitted : List SessionEvent)
      → stream text_of uuid_of uuid_text config s answers ≡ ok (emitted, t)
      → t.events ≡ s.events ++ emitted
  stream-events answers s t emitted h = subst (Remembers s.events) h (stream-Remembers answers s)
