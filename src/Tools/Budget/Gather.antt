-- ===== src/Tools/Budget/Gather.antt =====
-- The budget of a batch whose calls run in parallel: where they all suspend, every check reads the
-- budget as it stood before the batch.
use atlas_agent_control_plan.Prelude.{
  ℕ, ◌+◌, ◌<◌, String, ◌≡◌, refl, Bool, false, ◌||◌, ◌&&◌, ap, ◌∙◌, true, List, [], ◌∷◌, arith,
  Bool-cases, inl, inr, length, count_if, All,
}
use atlas_agent_control_plan.Tools.Call.{ToolCallRequest}
use atlas_agent_control_plan.Tools.Budget.{
  ToolRuntime, ToolBudget, remaining_calls, check_call, record_call, start_all, record_all,
  run_tool, gather,
}

-- How many calls of the batch a budget allows, each on its own.
abbrev pub allowed_count : ToolBudget → List ToolCallRequest → ℕ
allowed_count b = count_if (λ request. (check_call b request.name).allowed)

allowed_count-eq-length :
    (b : ToolBudget) (batch : List ToolCallRequest)
    → All (λ request. (check_call b request.name).allowed ≡ true) batch
    → allowed_count b batch ≡ length batch
allowed_count-eq-length b [] h = refl
allowed_count-eq-length b (request ∷ rest) h =
    ground (arith, h.0, allowed_count-eq-length b rest h.1)

or_true : (b : Bool) → (b || true) ≡ true
or_true true = refl
or_true false = refl

and_true : (b : Bool) → (b && true) ≡ b
and_true true = refl
and_true false = refl

module _ (dumps : String → String) (runtime : ToolRuntime) where
  -- Where every call of the batch suspends, each check reads the budget of before the batch.
  start_all-suspended :
      (held : Bool) (b : ToolBudget) (batch : List ToolCallRequest)
      → All (λ request. runtime.suspends request ≡ true) batch
      → ((start_all dumps runtime held b batch).0 ≡ b)
        × (length (start_all dumps runtime held b batch).1 ≡ allowed_count b batch)
  unfolding start_all
  start_all-suspended held b [] s = (refl, refl)
  start_all-suspended held b (request ∷ rest) s =
      elim (Bool-cases (check_call b request.name).allowed) [
        | inl passed ↦
            let (same, waiting) = start_all-suspended (held || runtime.locks) b rest s.1 in
            rw (passed, s.0, or_true held, and_true runtime.locks) (same, omega (arith, waiting))
        | inr refused ↦
            let (same, waiting) = start_all-suspended (held || runtime.locks && false) b rest s.1 in
            rw refused (same, omega (arith, waiting))
      ]

  record_all-calls_used :
      (b : ToolBudget) (waiting : List ToolCallRequest)
      → ((record_all dumps runtime b waiting).calls_used ≡ b.calls_used + length waiting)
        × ((record_all dumps runtime b waiting).max_calls_per_step ≡ b.max_calls_per_step)
  unfolding record_all record_call
  record_all-calls_used b [] = (omega arith, refl)
  record_all-calls_used b (request ∷ rest) =
      let (more, same) =
        record_all-calls_used (record_call b request.name (run_tool dumps runtime request).output)
          rest in
      (omega (arith, more), same)

  -- A parallel batch whose calls all suspend spends exactly the calls that the budget before the batch
  -- allows one by one, under the limit of before.
  pub gather-calls_used :
      (b : ToolBudget) (batch : List ToolCallRequest)
      → All (λ request. runtime.suspends request ≡ true) batch
      → ((gather dumps runtime b batch).0.calls_used ≡ b.calls_used + allowed_count b batch)
        × ((gather dumps runtime b batch).0.max_calls_per_step ≡ b.max_calls_per_step)
  unfolding gather
  gather-calls_used b batch s =
      let (same, waiting) = start_all-suspended false b batch s in
      let started = start_all dumps runtime false b batch in
      let (used, limit) = record_all-calls_used started.0 started.1 in
      (used ∙ rw (same, waiting) refl, limit ∙ ap (λ (x : ToolBudget). x.max_calls_per_step) same)

  -- Where each call of a parallel batch is allowed on its own and suspends in the runtime, and the batch
  -- is longer than the calls that remain, the batch leaves more calls spent than its limit of the step.
  pub gather_overshoots :
      (b : ToolBudget) (batch : List ToolCallRequest)
      → All (λ request. (check_call b request.name).allowed ≡ true) batch
      → All (λ request. runtime.suspends request ≡ true) batch
      → remaining_calls b < length batch
      → (gather dumps runtime b batch).0.max_calls_per_step
        < (gather dumps runtime b batch).0.calls_used
  unfolding remaining_calls
  gather_overshoots b batch h s more =
      let (used, limit) = gather-calls_used b batch s in
      omega (arith, used, limit, allowed_count-eq-length b batch h)
