-- ===== src/Agent/Loop/Spending.antt =====
-- What every guarded call keeps of a budget is kept through the turns of a step, where batches are not
-- run in parallel.
use mathlib.Core.Option.{some_inj}
use atlas_agent_control_plan.Prelude.{
  ℕ, zero, suc, ◌+◌, ◌≤◌, ◌<◌, refl, ◌∙◌, String, Bool, true, false, ◌≡◌, sym, subst, Option, some,
  List, [], ◌∷◌, length, arith, ltb, Bool-cases, Option-cases, inl, inr,
}
use atlas_agent_control_plan.Prelude.Dict.{Dict}
use atlas_agent_control_plan.Prelude.Result.{Result}
use atlas_agent_control_plan.Tools.Budget.{
  ToolRuntime, ToolBudget, execute_with_budget, execute_sequentially, estimate_tokens, run_tool,
}
use atlas_agent_control_plan.Tools.Budget.Laws.{
  IsSound, execute_with_budget-IsSound, one_call-tokens,
}
use atlas_agent_control_plan.Tools.Call.{ToolCallRequest, ToolCallResult}
use atlas_agent_control_plan.Tools.Deps.{range}
use atlas_agent_control_plan.Tools.Policy.Laws.{List-cases}
use atlas_agent_control_plan.Tools.Runtime.Permitted.{Result-cases}
use atlas_agent_control_plan.Agent.Loop.{
  TurnOutcome, LoopSettings, LoopState, plan_batches, in_order, execute_batch, execute_batches,
  run_turn, turns, run_loop, requests_of,
}
use atlas_agent_control_plan.Agent.Loop.Laws.{add_results-Adds}

module _ (dumps : String → String) (runtime : ToolRuntime) (settings : LoopSettings)
    (sequential : settings.parallel_batches ≡ false) (P : ToolBudget → Type 0)
    (keeps : (b : ToolBudget) (request : ToolCallRequest)
      → P b
      → P (execute_with_budget dumps runtime b request).0) where
  -- A fact of the budget that every guarded call keeps is kept by a sequence of calls, by the batches
  -- of a turn, and by the turns.
  execute_sequentially-Kept :
      (b : ToolBudget) (batch : List ToolCallRequest)
      → P b
      → P (execute_sequentially dumps runtime b batch).0
  unfolding execute_sequentially
  execute_sequentially-Kept b [] s = s
  execute_sequentially-Kept b (request ∷ rest) s =
      execute_sequentially-Kept (execute_with_budget dumps runtime b request).0 rest
        (keeps b request s)

  execute_batch-Kept :
      (budget : ToolBudget) (batch : List (ℕ × ToolCallRequest))
      → P budget
      → P (execute_batch dumps runtime settings budget batch).0
  unfolding execute_batch
  execute_batch-Kept budget batch s = elim (Bool-cases (ltb 1 (length batch))) [
    | inl many ↦ rw (many, sequential) (execute_sequentially-Kept budget (requests_of batch) s)
    | inr one ↦ rw one (execute_sequentially-Kept budget (requests_of batch) s)
  ]

  execute_batches-Kept :
      (budget : ToolBudget) (batches : List (List (ℕ × ToolCallRequest)))
      (found : Dict ℕ ToolCallResult)
      → P budget
      → P (execute_batches dumps runtime settings budget batches found).0
  unfolding execute_batches
  execute_batches-Kept budget [] found s = s
  execute_batches-Kept budget (batch ∷ batches) found s =
      execute_batches-Kept (execute_batch dumps runtime settings budget batch).0 batches _
        (execute_batch-Kept budget batch s)

  module _ (tags : String → Option (List String × List String))
      (key_of : ToolCallRequest → String) where
    run_turn-Kept :
        (turn : ℕ) (requests : List ToolCallRequest) (state next : LoopState)
        → P state.budget
        → run_turn dumps runtime settings tags key_of turn requests state ≡ some next
        → P next.budget
    unfolding run_turn
    run_turn-Kept turn requests state next s e =
        let done =
          execute_batches dumps runtime settings state.budget (plan_batches tags requests) [] in
        let spent = execute_batches-Kept state.budget (plan_batches tags requests) [] s in
        elim (Option-cases (in_order (range 0 (length requests)) done.1)) [
          | inl f ↦ absurd (ground (arith, rw (run_turn, f) at e))
          | inr (results, f) ↦
              let step =
                add_results-Adds dumps runtime settings key_of turn requests results
                  (record state { budget = done.0 }) in
              subst (λ (r : LoopState). P r.budget) (some_inj.0 (rw (run_turn, f) at e))
                (subst P (sym step.same_budget) spent)
        ]

    module _ (trim : String → String) (next_turn : ℕ → Result String TurnOutcome) where
      turns-Kept :
          (left turn : ℕ) (first_turn : Bool) (state : LoopState)
          → P state.budget
          → P
              (turns dumps runtime settings tags key_of trim next_turn left turn first_turn
                state).0.budget
      unfolding turns
      turns-Kept zero turn first_turn state s = s
      turns-Kept (suc left) turn first_turn state s = elim (Result-cases (next_turn turn)) [
        | inr (message, e) ↦ rw (turns, e) s
        | inl (outcome, e) ↦ elim (List-cases outcome.tool_calls) [
          | inl f ↦ rw (turns, e, f) s
          | inr (request, requests, f) ↦
              elim (Bool-cases (
                ltb settings.max_tool_calls
                  (state.total_tool_calls + length (request ∷ requests)))) [
                    | inl over ↦ rw (turns, e, f, over) s
                    | inr room ↦
                        elim (Option-cases (
                          run_turn dumps runtime settings tags key_of turn (request ∷ requests)
                            state)) [
                              | inl g ↦ rw (turns, e, f, room, g) s
                              | inr (next, g) ↦
                                  rw (turns, e, f, room, g)
                                    (turns-Kept left (turn + 1) false next
                                      (run_turn-Kept turn (request ∷ requests) state next s g))
                            ]
                  ]
        ]
      ]

      run_loop-Kept :
          (budget : ToolBudget)
          → P budget
          → P (run_loop dumps runtime settings tags key_of trim next_turn budget).0.budget
      unfolding run_loop
      run_loop-Kept budget s = turns-Kept settings.max_iterations 1 true _ s

-- The token estimate stays below its limit and `m` more.
record IsBelow (limit m : ℕ) (b : ToolBudget) : Type 0 where
  same : b.max_token_estimate ≡ limit
  below : b.token_estimate_used < limit + m

module _ (dumps : String → String) (runtime : ToolRuntime) (settings : LoopSettings)
    (sequential : settings.parallel_batches ≡ false)
    (tags : String → Option (List String × List String)) (key_of : ToolCallRequest → String)
    (trim : String → String) (next_turn : ℕ → Result String TurnOutcome) where
  execute_with_budget-IsBelow :
      (limit m : ℕ)
      → ((request : ToolCallRequest) → estimate_tokens (run_tool dumps runtime request).output ≤ m)
      → (b : ToolBudget) (request : ToolCallRequest) → IsBelow limit m b
      → IsBelow limit m (execute_with_budget dumps runtime b request).0
  execute_with_budget-IsBelow limit m small b request h =
      let (below, same) =
        one_call-tokens dumps runtime m b request (small request)
          (omega (arith, h.same, h.below)) in
      record { same = same ∙ h.same; below = omega (arith, h.same, below) }

  pub run_loop-IsSound :
      (budget : ToolBudget)
      → IsSound budget
      → IsSound (run_loop dumps runtime settings tags key_of trim next_turn budget).0.budget
  run_loop-IsSound =
      run_loop-Kept dumps runtime settings sequential IsSound
        (execute_with_budget-IsSound dumps runtime) tags key_of trim next_turn

  -- Where batches are not run in parallel and no output is estimated above `m` tokens, a step that starts
  -- within its limits stays so through all turns of the loop, whatever the strategy asks for and however
  -- the loop ends: the calls used stay within the limit of the step, those of each tool within the limit
  -- of a tool, and the token estimate below its limit plus `m`, so that only the last output can pass it.
  pub run_loop-limits :
      (m : ℕ) (budget : ToolBudget)
      → ((request : ToolCallRequest) → estimate_tokens (run_tool dumps runtime request).output ≤ m)
      → IsSound budget
      → budget.token_estimate_used < budget.max_token_estimate + m
      → IsSound (run_loop dumps runtime settings tags key_of trim next_turn budget).0.budget
        × ((run_loop dumps runtime settings tags key_of trim next_turn
              budget).0.budget.token_estimate_used
            < budget.max_token_estimate + m)
  run_loop-limits m budget small s below =
      let kept =
        run_loop-Kept dumps runtime settings sequential (IsBelow budget.max_token_estimate m)
          (execute_with_budget-IsBelow budget.max_token_estimate m small) tags key_of trim next_turn
          budget (record { same = refl; below = below }) in
      (run_loop-IsSound budget s, kept.below)
