-- ===== src/Agent/Loop/Laws.antt =====
-- What bounds the turns of a step.
use mathlib.Core.Option.{some_inj}
use atlas_agent_control_plan.Prelude.{
  ℕ, zero, suc, ◌+◌, ◌≤◌, ◌<◌, String, Bool, true, false, ◌≡◌, refl, ◌∙◌, subst, Option, some, List,
  [], ◌∷◌, length, length-append, All, All-append, arith, ltb, Bool-cases, Option-cases, inl, inr,
}
use atlas_agent_control_plan.Prelude.Result.{Result}
use atlas_agent_control_plan.Tools.Budget.{ToolRuntime, ToolBudget}
use atlas_agent_control_plan.Tools.Call.{ToolCallRequest, ToolCallResult}
use atlas_agent_control_plan.Tools.Deps.{range}
use atlas_agent_control_plan.Tools.Policy.Laws.{List-cases}
use atlas_agent_control_plan.Tools.Runtime.Permitted.{Result-cases}
use atlas_agent_control_plan.Agent.Loop.{
  TurnOutcome, StepToolCall, LoopSettings, LoopState, LoopEnd, returned, nothing, raised,
  plan_batches, in_order, execute_batches, add_results, run_turn, turns, run_loop,
}

-- The calls that the loop has executed are those it has counted, within the limit of calls, each of a
-- turn before the next one.
pub record IsBounded (settings : LoopSettings) (turn : ℕ) (state : LoopState) : Type 0 where
  pub counted : length state.executed ≡ state.total_tool_calls
  pub limited : state.total_tool_calls ≤ settings.max_tool_calls
  pub dated : All (λ (call : StepToolCall). call.turn < turn) state.executed

module _ (dumps : String → String) (runtime : ToolRuntime) (settings : LoopSettings)
    (key_of : ToolCallRequest → String) (turn : ℕ) where
  abbrev added : List ToolCallRequest → List ToolCallResult → LoopState → LoopState
  added requests results state =
      add_results dumps runtime settings key_of turn requests results state

  -- What the loop over the results adds.
  pub record Adds (n : ℕ) (before after : LoopState) : Type 0 where
    pub counted :
        length before.executed ≡ before.total_tool_calls
        → length after.executed ≡ after.total_tool_calls
    pub limited : after.total_tool_calls ≤ before.total_tool_calls + n
    pub dated :
        All (λ (call : StepToolCall). call.turn < turn + 1) before.executed
        → All (λ (call : StepToolCall). call.turn < turn + 1) after.executed
    pub same_budget : after.budget ≡ before.budget

  pub add_results-Adds :
      (requests : List ToolCallRequest) (results : List ToolCallResult) (state : LoopState)
      → Adds (length requests) state (added requests results state)
  unfolding add_results
  add_results-Adds [] results state = record {
    counted = λ h. h;
    limited = omega arith;
    dated = λ h. h;
    same_budget = refl;
  }
  add_results-Adds (request ∷ requests) [] state = record {
    counted = λ h. h;
    limited = omega arith;
    dated = λ h. h;
    same_budget = refl;
  }
  add_results-Adds (request ∷ requests) (result ∷ results) state =
      let rest = add_results-Adds requests results _ in
      record {
        counted = λ h. rest.counted (
            length-append state.executed (record { turn = turn; result = result } ∷ [])
            ∙ omega (arith, h));
        limited = omega (arith, rest.limited);
        dated = λ h. rest.dated (
            All-append (λ (call : StepToolCall). call.turn < turn + 1) state.executed _ h
              (omega arith, tt));
        same_budget = rest.same_budget;
      }

-- The executed calls of an end that is a result.
abbrev pub IsWithin : LoopSettings → ℕ → LoopEnd → Type 0
IsWithin settings last (returned result) =
    (length result.tool_calls ≤ settings.max_tool_calls)
    × All (λ (call : StepToolCall). call.turn < last) result.tool_calls
IsWithin settings last nothing = Unit
IsWithin settings last (raised message) = Unit

module _ (dumps : String → String) (runtime : ToolRuntime) (settings : LoopSettings)
    (tags : String → Option (List String × List String)) (key_of : ToolCallRequest → String) where
  -- A turn within the limit keeps the loop within it.
  run_turn-IsBounded :
      (turn : ℕ) (requests : List ToolCallRequest) (state next : LoopState)
      → IsBounded settings turn state
      → state.total_tool_calls + length requests ≤ settings.max_tool_calls
      → run_turn dumps runtime settings tags key_of turn requests state ≡ some next
      → IsBounded settings (turn + 1) next
  unfolding run_turn
  run_turn-IsBounded turn requests state next v room e =
      let done =
        execute_batches dumps runtime settings state.budget (plan_batches tags requests) [] in
      elim (Option-cases (in_order (range 0 (length requests)) done.1)) [
        | inl f ↦ absurd (ground (arith, rw (run_turn, f) at e))
        | inr (results, f) ↦
            let step =
              add_results-Adds dumps runtime settings key_of turn requests results
                (record state { budget = done.0 }) in
            subst (IsBounded settings (turn + 1)) (some_inj.0 (rw (run_turn, f) at e)) (record {
              counted = step.counted v.counted;
              limited = omega (arith, step.limited, room);
              dated = step.dated (earlier turn state.executed v.dated);
            })
      ]
    where
      earlier :
          (turn : ℕ) (calls : List StepToolCall)
          → All (λ (call : StepToolCall). call.turn < turn) calls
          → All (λ (call : StepToolCall). call.turn < turn + 1) calls
      earlier turn [] h = tt
      earlier turn (call ∷ calls) h = (omega (arith, h.0), earlier turn calls h.1)

  module _ (trim : String → String) (next_turn : ℕ → Result String TurnOutcome) where
    state-IsWithin :
        (turn left : ℕ) (calls : List StepToolCall) (total : ℕ)
        → length calls ≡ total
        → total ≤ settings.max_tool_calls
        → All (λ (call : StepToolCall). call.turn < turn) calls
        → (length calls ≤ settings.max_tool_calls)
          × All (λ (call : StepToolCall). call.turn < turn + left) calls
    state-IsWithin turn left calls total same le dated =
        (omega (arith, same, le), sooner turn left calls dated)
      where
        sooner :
            (turn left : ℕ) (calls : List StepToolCall)
            → All (λ (call : StepToolCall). call.turn < turn) calls
            → All (λ (call : StepToolCall). call.turn < turn + left) calls
        sooner turn left [] h = tt
        sooner turn left (call ∷ calls) h = (omega (arith, h.0), sooner turn left calls h.1)

    turns-IsWithin :
        (left turn : ℕ) (first_turn : Bool) (state : LoopState)
        → IsBounded settings turn state
        → IsWithin settings
            (turn + left)
            (turns dumps runtime settings tags key_of trim next_turn left turn first_turn state).1
    unfolding turns
    turns-IsWithin zero turn first_turn state v =
        state-IsWithin turn 0 state.executed state.total_tool_calls v.counted v.limited v.dated
    turns-IsWithin (suc left) turn first_turn state v =
        let here =
          state-IsWithin turn (suc left) state.executed state.total_tool_calls v.counted v.limited
            v.dated in
        elim (Result-cases (next_turn turn)) [
          | inr (message, e) ↦ elim (Bool-cases first_turn) [
            | inl first ↦ rw (turns, e, first) tt
            | inr later ↦ rw (turns, e, later) tt
          ]
          | inl (outcome, e) ↦ elim (List-cases outcome.tool_calls) [
            | inl f ↦ rw (turns, e, f) here
            | inr (request, requests, f) ↦
                elim (Bool-cases (
                  ltb settings.max_tool_calls
                    (state.total_tool_calls + length (request ∷ requests)))) [
                      | inl over ↦ rw (turns, e, f, over) here
                      | inr room ↦
                          elim (Option-cases (
                            run_turn dumps runtime settings tags key_of turn (request ∷ requests)
                              state)) [
                                | inl g ↦ rw (turns, e, f, room, g) tt
                                | inr (next, g) ↦
                                    rw (turns, e, f, room, g)
                                      (subst
                                        (λ n.
                                          IsWithin settings n
                                            (turns dumps runtime settings tags key_of trim next_turn
                                              left (turn + 1) false next).1)
                                        (omega arith)
                                        (turns-IsWithin left (turn + 1) false next (
                                          run_turn-IsBounded turn (request ∷ requests) state next v
                                            (ground (arith, room)) g)))
                              ]
                    ]
          ]
        ]

    -- Whatever the strategy answers, the result of the loop has at most as many calls as the limit of a
    -- step, each of one of the turns that the limit of iterations gives.
    pub run_loop-IsWithin :
        (budget : ToolBudget)
        → IsWithin settings
            (1 + settings.max_iterations)
            (run_loop dumps runtime settings tags key_of trim next_turn budget).1
    unfolding run_loop
    run_loop-IsWithin budget =
        turns-IsWithin settings.max_iterations 1 true _
          (record { counted = refl; limited = omega arith; dated = tt })
