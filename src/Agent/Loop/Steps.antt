-- ===== src/Agent/Loop/Steps.antt =====
-- How a step comes to its rule: with the budget that it started with.
use mathlib.Core.Path.{Path}
use atlas_agent_control_plan.Prelude.{
  ℕ, zero, suc, ◌+◌, String, Bool, true, false, ◌≡◌, ◌⊎◌, refl, ap, ◌∙◌, sym, Option, List, [], ◌∷◌,
  length, arith, ltb, Bool-cases, Option-cases, inl, inr,
}
use atlas_agent_control_plan.Prelude.Result.{Result}
use atlas_agent_control_plan.Tools.Budget.{ToolRuntime, ToolBudget}
use atlas_agent_control_plan.Tools.Call.{ToolCallRequest}
use atlas_agent_control_plan.Tools.Policy.Laws.{List-cases}
use atlas_agent_control_plan.Tools.Runtime.Permitted.{Result-cases}
use atlas_agent_control_plan.Agent.Loop.{
  TurnOutcome, LoopSettings, LoopState, LoopEnd, StepEnd, StepLoopResult, returned, nothing, raised,
  by_loop, by_rule, run_turn, turns, run_loop, run_step,
}

abbrev is_nothing : LoopEnd → Bool
is_nothing nothing = true
is_nothing _ = false

End-cases :
    (end : LoopEnd)
    → (end ≡ nothing)
      ⊎ (((result : StepLoopResult) × (end ≡ returned result))
          ⊎ ((message : String) × (end ≡ raised message)))
End-cases (returned result) = inr (inl (result, refl))
End-cases nothing = inl refl
End-cases (raised message) = inr (inr (message, refl))

by_rule_inj : {b c : ToolBudget} → Path StepEnd (by_rule b) (by_rule c) → b ≡ c
by_rule_inj h = cc

loop_not_rule : {end : LoopEnd} {b : ToolBudget} → Path StepEnd (by_loop end) (by_rule b) → ⊥
loop_not_rule h = cc

module _ (dumps : String → String) (runtime : ToolRuntime) (settings : LoopSettings)
    (tags : String → Option (List String × List String)) (key_of : ToolCallRequest → String)
    (trim : String → String) where
  module _ (next_turn : ℕ → Result String TurnOutcome) where
    ended : ℕ → ℕ → Bool → LoopState → LoopState × LoopEnd
    ended left turn first_turn state =
        turns dumps runtime settings tags key_of trim next_turn left turn first_turn state

    turns-later :
        (left turn : ℕ) (state : LoopState) → is_nothing (ended left turn false state).1 ≡ false
    unfolding ended turns
    turns-later zero turn state = refl
    turns-later (suc left) turn state = elim (Result-cases (next_turn turn)) [
      | inr (message, e) ↦ rw (turns, e) refl
      | inl (outcome, e) ↦ elim (List-cases outcome.tool_calls) [
        | inl f ↦ rw (turns, e, f) refl
        | inr (request, requests, f) ↦
            elim (Bool-cases (
              ltb settings.max_tool_calls (state.total_tool_calls + length (request ∷ requests)))) [
                | inl over ↦ rw (turns, e, f, over) refl
                | inr room ↦
                    elim (Option-cases (
                      run_turn dumps runtime settings tags key_of turn (request ∷ requests)
                        state)) [
                          | inl g ↦ rw (turns, e, f, room, g) refl
                          | inr (next, g) ↦
                              rw (turns, e, f, room, g) (turns-later left (turn + 1) next)
                        ]
              ]
      ]
    ]

    -- None is the answer only of the first turn, when nothing was done.
    turns-nothing :
        (left turn : ℕ) (state : LoopState)
        → (ended left turn true state).1 ≡ nothing
        → (ended left turn true state).0.budget ≡ state.budget
    unfolding ended turns
    turns-nothing zero turn state h = refl
    turns-nothing (suc left) turn state h = elim (Result-cases (next_turn turn)) [
      | inr (message, e) ↦ rw (turns, e) refl
      | inl (outcome, e) ↦ elim (List-cases outcome.tool_calls) [
        | inl f ↦ rw (turns, e, f) refl
        | inr (request, requests, f) ↦
            elim (Bool-cases (
              ltb settings.max_tool_calls (state.total_tool_calls + length (request ∷ requests)))) [
                | inl over ↦ rw (turns, e, f, over) refl
                | inr room ↦
                    elim (Option-cases (
                      run_turn dumps runtime settings tags key_of turn (request ∷ requests)
                        state)) [
                          | inl g ↦ rw (turns, e, f, room, g) refl
                          | inr (next, g) ↦ absurd (
                              ground (
                                arith,
                                turns-later left (turn + 1) next,
                                ap is_nothing (rw (turns, e, f, room, g) at h),
                              ))
                        ]
              ]
      ]
    ]

    run_loop-nothing :
        (budget : ToolBudget)
        → (run_loop dumps runtime settings tags key_of trim next_turn budget).1 ≡ nothing
        → (run_loop dumps runtime settings tags key_of trim next_turn budget).0.budget ≡ budget
    unfolding run_loop ended
    run_loop-nothing budget h = turns-nothing settings.max_iterations 1 _ h

  -- A step that falls back to its rule, after any strategies, has spent nothing: the budget that the
  -- rule records its call in is the one that the step began with.
  pub run_step-rule :
      (strategies : List (ℕ → Result String TurnOutcome)) (budget rest : ToolBudget)
      → run_step dumps runtime settings tags key_of trim strategies budget ≡ by_rule rest
      → rest ≡ budget
  unfolding run_step
  run_step-rule [] budget rest h = sym (by_rule_inj h)
  run_step-rule (next_turn ∷ strategies) budget rest h =
      let loop = run_loop dumps runtime settings tags key_of trim next_turn budget in
      elim (End-cases loop.1) [
        | inl e ↦
            run_step-rule strategies loop.0.budget rest (rw (run_step, e) at h)
            ∙ run_loop-nothing next_turn budget e
        | inr (inl (result, e)) ↦ absurd (loop_not_rule (rw (run_step, e) at h))
        | inr (inr (message, e)) ↦ absurd (loop_not_rule (rw (run_step, e) at h))
      ]
