-- ===== src/Agent/Machine/Budget/Claims.antt =====
-- The retry budget of the scope audit and the coverage review, and of one acceptance command.
use text.Mathlib.TextEquality.{eq_iff}
use atlas_agent_control_plan.Prelude.{
  ℕ, ◌+◌, ◌≤◌, ◌<◌, String, Bool, true, false, not, ◌&&◌, ◌≡◌, ◌≢◌, inl, inr, List, [], ◌∷◌, arith,
  subst, ◌∙◌, Bool-cases, count_if, All, if◌then◌else◌, ◌==◌, string_eq,
}
use atlas_agent_control_plan.Prelude.Json.{Value}
use atlas_agent_control_plan.Prelude.Result.{Result, ok}
use atlas_agent_control_plan.Acceptance.Config.{AcceptanceGateConfig}
use atlas_agent_control_plan.Agent.Entities.{AgentPhase}
use atlas_agent_control_plan.Agent.Router.{same_phase}
use atlas_agent_control_plan.Agent.Machine.Types.{
  SessionEvent, scope_audit_finished, coverage_review_finished, MachineSnapshot, MachineConfig,
  Answers,
}
use atlas_agent_control_plan.Agent.Machine.Chain.{
  is_audit_failure, is_gate_failure, count_audit_failures, count_gate_failures, gate_can_retry,
  scope_can_retry, coverage_can_retry,
}
use atlas_agent_control_plan.Agent.Machine.Run.{stream}
use atlas_agent_control_plan.Agent.Machine.Budget.{Within}
use atlas_agent_control_plan.Agent.Machine.Budget.Bound.{StagesSpend, stream-Within}

-- The failures of the scope audit and of the enforced coverage review.
abbrev pub is_review_failure : SessionEvent → Bool
is_review_failure (scope_audit_finished in_scope) = not in_scope
is_review_failure (coverage_review_finished enforced adequate) = enforced && not adequate
is_review_failure _ = false

review_quiet : (e : SessionEvent) → is_audit_failure e ≡ false → is_review_failure e ≡ false
review_quiet e h = ground arith

gate_quiet :
    (command : String) (e : SessionEvent)
    → is_audit_failure e ≡ false
    → is_gate_failure command e ≡ false
gate_quiet command e h = ground arith

review-le-audit :
    (events : List SessionEvent) → count_if is_review_failure events ≤ count_audit_failures events
unfolding count_audit_failures
review-le-audit [] = omega arith
review-le-audit (e ∷ rest) = ground (arith, review-le-audit rest)

review_spends :
    (config : MachineConfig) (answers : Answers)
    → StagesSpend is_review_failure review_quiet config answers
unfolding scope_can_retry coverage_can_retry
review_spends config answers = record {
  gate = λ s events c known. (rw known.wrote (omega arith), λ _. inr (rw known.wrote));
  scope = λ s events c known. (
    rw known.wrote (omega arith),
    λ e. inl (ground (arith, known.retries, review-le-audit s.events)),
  );
  coverage = λ s events c known. (
    rw known.wrote (omega arith),
    λ e. inl (ground (arith, known.retries, review-le-audit s.events)),
  );
}

-- The gate answers with the command that it was given.
abbrev pub NamesCommand : Answers → Type 0
NamesCommand answers = (gate : AcceptanceGateConfig) → (answers.gate gate).command ≡ gate.command

gate_below :
    (config : MachineConfig) (command : String) (answers : Answers) (s : MachineSnapshot)
    (gate : AcceptanceGateConfig)
    → gate.command ≡ command
    → (answers.gate gate).command ≡ gate.command
    → gate_can_retry config answers s (answers.gate gate) ≡ true
    → count_if (is_gate_failure command) s.events < config.max_retries
unfolding gate_can_retry count_gate_failures
gate_below config command answers s gate same named e =
    subst (λ name. count_if (is_gate_failure name) s.events < config.max_retries) (named ∙ same)
      (ground (arith, e))

gate_spends :
    (config : MachineConfig) (command : String) (answers : Answers)
    → NamesCommand answers
    → StagesSpend (is_gate_failure command) (gate_quiet command) config answers
unfolding gate_can_retry
gate_spends config command answers named = record {
  gate = λ s events c known. (
    rw known.wrote (ground arith),
    λ e. elim (Bool-cases (known.gate.command == command)) [
      | inr other ↦ inr (rw known.wrote (rw other))
      | inl same ↦ inl (
          gate_below config command answers s known.gate ((eq_iff _ command).0 same)
            (named known.gate) (ground (arith, known.retries)))
    ],
  );
  scope = λ s events c known. (rw known.wrote (omega arith), λ _. inr (rw known.wrote));
  coverage = λ s events c known. (rw known.wrote (omega arith), λ _. inr (rw known.wrote));
}

last_failure :
    (n limit : ℕ) (phase : AgentPhase)
    → n ≤ limit + 1
    → (phase ≢ AgentPhase.failed → n ≤ limit)
    → n ≤ limit + (if same_phase phase AgentPhase.failed then 1 else 0)
last_failure n limit phase total open_run = elim (Bool-cases (same_phase phase AgentPhase.failed)) [
  | inl e ↦ rw e total
  | inr e ↦ rw e (omega (arith, open_run (λ f. absurd (ground (arith, e, f)))))
]

module _ (text_of : Value → String) (uuid_of : String → Result String ℕ) (uuid_text : ℕ → String)
    (config : MachineConfig) where
  -- Whatever the collaborators answer, a run that starts with an empty event list and does not raise
  -- writes at most `max_retries` failures of the scope audit and of the enforced coverage review
  -- together, and one more where it ends in `failed`.
  pub stream-review_budget :
      (answers : List Answers) (s t : MachineSnapshot) (emitted : List SessionEvent)
      → s.events ≡ []
      → stream text_of uuid_of uuid_text config s answers ≡ ok (emitted, t)
      → count_if is_review_failure t.events
        ≤ config.max_retries + (if same_phase t.state.phase AgentPhase.failed then 1 else 0)
  stream-review_budget answers s t emitted fresh h =
      let w = subst (Within is_review_failure review_quiet config.max_retries) h (
        stream-Within is_review_failure review_quiet config text_of uuid_of uuid_text answers s
          (all_review answers)
          (record { total = rw fresh (omega arith); open_run = λ _. rw fresh (omega arith) })) in
      last_failure _ config.max_retries t.state.phase w.total w.open_run
    where
      all_review :
          (answers : List Answers) → All (StagesSpend is_review_failure review_quiet config) answers
      all_review [] = tt
      all_review (a ∷ rest) = (review_spends config a, all_review rest)

  -- Where the gate answers with the command that it was given, a run that starts with an empty event
  -- list and does not raise writes at most `max_retries` failures of any one acceptance command, and one
  -- more where it ends in `failed`.
  pub stream-gate_budget :
      (command : String) (answers : List Answers) (s t : MachineSnapshot)
      (emitted : List SessionEvent)
      → All NamesCommand answers
      → s.events ≡ []
      → stream text_of uuid_of uuid_text config s answers ≡ ok (emitted, t)
      → count_gate_failures t.events command
        ≤ config.max_retries + (if same_phase t.state.phase AgentPhase.failed then 1 else 0)
  unfolding count_gate_failures
  stream-gate_budget command answers s t emitted named fresh h =
      let w = subst (Within (is_gate_failure command) (gate_quiet command) config.max_retries) h (
        stream-Within (is_gate_failure command) (gate_quiet command) config text_of uuid_of
          uuid_text answers s (all_gate answers named)
          (record { total = rw fresh (omega arith); open_run = λ _. rw fresh (omega arith) })) in
      last_failure _ config.max_retries t.state.phase w.total w.open_run
    where
      all_gate :
          (answers : List Answers)
          → All NamesCommand answers
          → All (StagesSpend (is_gate_failure command) (gate_quiet command) config) answers
      all_gate [] named = tt
      all_gate (a ∷ rest) named = (gate_spends config command a named.0, all_gate rest named.1)
