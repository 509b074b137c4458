-- ===== src/Agent/Machine/Budget.antt =====
-- The retry budget of the acceptance chain, over every run.
pub mod Quiet
pub mod Bound
pub mod Claims
use mathlib.Core.Bool.{false≢true}
use atlas_agent_control_plan.Prelude.{
  ℕ, zero, suc, ◌+◌, ◌≤◌, ◌<◌, String, Bool, true, false, not, ◌&&◌, ◌||◌, ◌≡◌, ◌≢◌, refl, sym, ap,
  ◌∙◌, subst, ◌⊎◌, inl, inr, Option, none, some, List, [], ◌∷◌, ◌++◌, map, arith, ltb, Bool-cases,
  count_if, count_if-append, if◌then◌else◌, ◌==◌, string_eq,
}
use atlas_agent_control_plan.Prelude.Json.{Value}
use atlas_agent_control_plan.Prelude.Result.{Result, ok, err, ◌>>=◌}
use atlas_agent_control_plan.Agent.Entities.{AgentPhase, ReflectionAction}
use atlas_agent_control_plan.Agent.Machine.Types.{
  SessionEvent, from_executor, step_reflected, step_failed, task_error, MachineSnapshot,
  MachineConfig, Answers,
}
use atlas_agent_control_plan.Agent.Machine.Chain.{
  StageOutcome, skipped, went_on, left, failed_transition, count_audit_failures, is_audit_failure,
  ChainProgress, advance,
}
use atlas_agent_control_plan.Agent.Machine.Nodes.{NodeResult}
use atlas_agent_control_plan.Agent.Machine.Stages.{StageCases, skips, goes_on, fails}
use atlas_agent_control_plan.Agent.Machine.Trace.{failed_transition_leaves}

-- What a transition writes after the events of its stage.
abbrev pub after_failure : MachineSnapshot → Bool → List SessionEvent
after_failure s true =
    step_reflected ReflectionAction.retry (s.state.step_index + 1) s.state.attempt ∷ []
after_failure s false =
    step_reflected ReflectionAction.fail (s.state.step_index + 1) s.state.attempt
    ∷ step_failed (s.state.step_index + 1)
    ∷ task_error (s.state.step_index + 1)
    ∷ []

-- A failed stage with a retry left writes its events and the reflection `retry` and goes back to
-- `executing`, the same step with one more attempt; with none left it writes the reflection `fail`,
-- step_failed and task_error, in this order, and ends in `failed`.
pub failed_transition_lem :
    (s t : MachineSnapshot) (events emitted : List SessionEvent) (can_retry : Bool)
    → failed_transition s events can_retry ≡ ok (left emitted t)
    → (emitted ≡ events ++ after_failure s can_retry)
      × (t.events ≡ s.events ++ emitted)
      × (t.state.step_index ≡ s.state.step_index)
      × (t.state.phase ≡ (if can_retry then AgentPhase.executing else AgentPhase.failed))
      × (t.state.attempt ≡ (if can_retry then s.state.attempt + 1 else s.state.attempt))
unfolding failed_transition
failed_transition_lem s t events emitted true h = ground arith
failed_transition_lem s t events emitted false h = ground arith

-- `P` picks some of the failures of the chain.
module _ (P : SessionEvent → Bool)
    (quiet : (e : SessionEvent) → is_audit_failure e ≡ false → P e ≡ false) (limit : ℕ) where
  pub quiet_events :
      (events : List SessionEvent) → count_audit_failures events ≡ 0 → count_if P events ≡ 0
  unfolding count_audit_failures
  quiet_events [] h = refl
  quiet_events (e ∷ rest) h = elim (Bool-cases (is_audit_failure e)) [
    | inl failure ↦ absurd (ground (arith, failure))
    | inr other ↦ ground (arith, quiet e other, other, quiet_events rest)
  ]

  -- At most `limit` failures before the run has failed, and one more when it has.
  pub record IsWithin (s : MachineSnapshot) : Type 0 where
    pub total : count_if P s.events ≤ limit + 1
    pub open_run : s.state.phase ≢ AgentPhase.failed → count_if P s.events ≤ limit

  pub grow-IsWithin :
      (s t : MachineSnapshot) (events : List SessionEvent)
      → IsWithin s
      → s.state.phase ≢ AgentPhase.failed
      → t.events ≡ s.events ++ events
      → count_audit_failures events ≡ 0
      → IsWithin t
  grow-IsWithin s t events w o e q =
      let same : count_if P t.events ≡ count_if P s.events =
        ap (count_if P) e
        ∙ count_if-append P s.events events
        ∙ omega (arith, quiet_events events q) in
      record {
        total = omega (arith, w.total, same);
        open_run = λ _. omega (arith, w.open_run o, same);
      }

  -- The transition of a failed stage stays within the budget, where the stage writes at most one
  -- failure and retries only below the limit.
  pub failed_transition-IsWithin :
      (s t : MachineSnapshot) (events emitted : List SessionEvent) (can_retry : Bool)
      → IsWithin s
      → s.state.phase ≢ AgentPhase.failed
      → count_if P events ≤ 1
      → (can_retry ≡ true → (count_if P s.events < limit) ⊎ (count_if P events ≡ 0))
      → failed_transition s events can_retry ≡ ok (left emitted t)
      → IsWithin t
  unfolding count_audit_failures
  failed_transition-IsWithin s t events emitted can_retry w o one below h =
      let (wrote, grown, _, phase, _) = failed_transition_lem s t events emitted can_retry h in
      let counted : count_if P t.events
          ≡ count_if P s.events + (count_if P events + count_if P (after_failure s can_retry)) =
        ap (count_if P) (grown ∙ ap (◌++◌ s.events) wrote)
        ∙ count_if-append P s.events (events ++ after_failure s can_retry)
        ∙ ap (◌+◌ (count_if P s.events)) (count_if-append P events (after_failure s can_retry)) in
      spend can_retry counted phase below
    where
      spend :
          (c : Bool)
          → count_if P t.events
            ≡ count_if P s.events + (count_if P events + count_if P (after_failure s c))
          → t.state.phase ≡ (if c then AgentPhase.executing else AgentPhase.failed)
          → (c ≡ true → (count_if P s.events < limit) ⊎ (count_if P events ≡ 0))
          → IsWithin t
      spend true counted phase below =
          let none_more = quiet_events (after_failure s true) refl in
          let fits : count_if P t.events ≤ limit = elim (below refl) [
            | inl lt ↦ omega (arith, w.open_run o, none_more)
            | inr zero_new ↦ omega (arith, w.open_run o, none_more)
          ] in
          record { total = omega arith; open_run = λ _. fits }
      spend false counted phase below =
          let none_more = quiet_events (after_failure s false) refl in
          record {
            total = omega (arith, w.open_run o, none_more);
            open_run = λ other. absurd (other phase);
          }

  abbrev pub Within : NodeResult → Type 0
  Within (ok (emitted, t)) = IsWithin t
  Within (err x) = Unit

  -- What a stage must show of the failure that it writes.
  abbrev pub Spends : MachineSnapshot → List SessionEvent → Bool → Type 0
  Spends s events can_retry =
      (count_if P events ≤ 1)
      × (can_retry ≡ true → (count_if P s.events < limit) ⊎ (count_if P events ≡ 0))

  advance_left-Within :
      (p : ChainProgress) (r : Result String StageOutcome) (k : ChainProgress → NodeResult)
      (events : List SessionEvent) (can_retry : Bool)
      → failed_transition p.snapshot events can_retry ≡ r
      → IsWithin p.snapshot
      → p.snapshot.state.phase ≢ AgentPhase.failed
      → Spends p.snapshot events can_retry
      → Within (advance p r k)
  advance_left-Within p (err x) k events c e w o sp = tt
  advance_left-Within p (ok skipped) k events c e w o sp =
      absurd ((failed_transition_leaves p.snapshot events c).1 e)
  advance_left-Within p (ok (went_on more)) k events c e w o sp =
      absurd ((failed_transition_leaves p.snapshot events c).0 more e)
  advance_left-Within p (ok (left emitted t)) k events c e w o sp =
      failed_transition-IsWithin p.snapshot t events emitted c w o sp.0 sp.1 e

  -- Inside the chain: within the budget, and not failed.
  abbrev pub IsOpen : ChainProgress → Type 0
  IsOpen p = IsWithin p.snapshot × (p.snapshot.state.phase ≢ AgentPhase.failed)

  pub advance-Within :
      (p : ChainProgress) (Q : List SessionEvent → Bool → Type 0) (r : Result String StageOutcome)
      (k : ChainProgress → NodeResult)
      → StageCases p.snapshot Q r
      → IsOpen p
      → ((events : List SessionEvent) (can_retry : Bool)
          → Q events can_retry
          → Spends p.snapshot events can_retry)
      → ((q : ChainProgress) → IsOpen q → Within (k q))
      → Within (advance p r k)
  advance-Within p Q r k (skips e) h spends rest = rw e (rest p h)
  advance-Within p Q r k (goes_on events quiet_ones e) h spends rest =
      rw e (rest _ (grow-IsWithin p.snapshot _ events h.0 h.1 refl quiet_ones, h.1))
  advance-Within p Q r k (fails events c known e) h spends rest = rw e (
      advance_left-Within p (failed_transition p.snapshot events c) k events c refl h.0 h.1
        (spends events c known))
