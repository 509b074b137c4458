-- ===== src/Tools/Budget/Laws.antt =====
-- What the budget of a step guarantees when its calls run one after the other.
use mathlib.Core.Logic.{inl, inr}
use atlas_agent_control_plan.Prelude.{
  ℕ, ◌+◌, ◌≤◌, ◌<◌, String, ◌≡◌, refl, ◌↔◌, true, List, [], ◌∷◌, arith, Bool-cases, string_eq,
}
use atlas_agent_control_plan.Prelude.Dict
use atlas_agent_control_plan.Prelude.Dict.{Dict}
use atlas_agent_control_plan.Prelude.Int.{ℤ}
use atlas_agent_control_plan.Prelude.Result.{ok}
use atlas_agent_control_plan.Tools.Call.{ToolCallRequest}
use atlas_agent_control_plan.Tools.Budget.{
  ToolRuntime, ToolBudget, create, calls_used_for, check_call, record_call, estimate_tokens,
  run_tool, execute_with_budget, execute_sequentially,
}

-- The sum of the counters of all tools.
abbrev pub total_by_tool : Dict String ℕ → ℕ
total_by_tool [] = 0
total_by_tool ((name, n) ∷ d) = n + total_by_tool d

pub total_by_tool-put :
    (name : String) (n : ℕ) (d : Dict String ℕ)
    → total_by_tool (Dict.put name n d) + Dict.get_or name d 0 ≡ total_by_tool d + n
unfolding Dict.put Dict.get_or
total_by_tool-put name n [] = ground arith
total_by_tool-put name n ((j, m) ∷ d) = ground (arith, total_by_tool-put name n d)

-- Nothing is spent beyond the limits, and the two counts of calls agree.
pub record IsSound (b : ToolBudget) : Type 0 where
  pub step : b.calls_used ≤ b.max_calls_per_step
  pub tool : (name : String) → calls_used_for b name ≤ b.max_calls_per_tool
  pub balanced : total_by_tool b.calls_by_tool ≡ b.calls_used

-- A call is allowed exactly when all three counters stand below their limits.
pub check_call-allowed_iff :
    (b : ToolBudget) (name : String)
    → ((check_call b name).allowed ≡ true) ↔ (
        (b.calls_used < b.max_calls_per_step)
        × (calls_used_for b name < b.max_calls_per_tool)
        × (b.token_estimate_used < b.max_token_estimate))
unfolding check_call
check_call-allowed_iff b name = (λ h. ground arith, λ h. ground arith)

-- The limits that `create` accepts are positive, and a fresh budget is sound.
pub create-IsSound :
    (per_step per_tool tokens : ℤ) (b : ToolBudget)
    → create per_step per_tool tokens ≡ ok b
    → IsSound b
      × (0 < b.max_calls_per_step)
      × (0 < b.max_calls_per_tool)
      × (0 < b.max_token_estimate)
unfolding create calls_used_for Dict.get_or
create-IsSound per_step per_tool tokens b h = (
  record { step = ground arith; tool = λ name. ground arith; balanced = ground arith },
  ground arith,
  ground arith,
  ground arith,
)

record_call-IsSound :
    (b : ToolBudget) (name output : String)
    → (check_call b name).allowed ≡ true
    → IsSound b
    → IsSound (record_call b name output)
unfolding record_call check_call
record_call-IsSound b name output h s = record {
  step = ground arith;
  tool = λ other. rw Dict.get_or-put (ground (arith, s.tool other));
  balanced =
      ground
        (arith, total_by_tool-put name (calls_used_for b name + 1) b.calls_by_tool, s.balanced);
}

module _ (dumps : String → String) (runtime : ToolRuntime) where
  -- One guarded call, refused or not, keeps a sound budget sound.
  pub execute_with_budget-IsSound :
      (b : ToolBudget) (request : ToolCallRequest)
      → IsSound b
      → IsSound (execute_with_budget dumps runtime b request).0
  unfolding execute_with_budget
  execute_with_budget-IsSound b request s = elim (Bool-cases (check_call b request.name).allowed) [
    | inl yes' ↦ rw yes' (record_call-IsSound b request.name _ yes' s)
    | inr no' ↦ rw no' s
  ]

  -- Whatever a sequence of calls asks for, the budget stays sound.
  pub execute_sequentially-IsSound :
      (b : ToolBudget) (batch : List ToolCallRequest)
      → IsSound b
      → IsSound (execute_sequentially dumps runtime b batch).0
  unfolding execute_sequentially
  execute_sequentially-IsSound b [] s = s
  execute_sequentially-IsSound b (request ∷ rest) s =
      execute_sequentially-IsSound (execute_with_budget dumps runtime b request).0 rest
        (execute_with_budget-IsSound b request s)

  pub one_call-tokens :
      (m : ℕ) (b : ToolBudget) (request : ToolCallRequest)
      → estimate_tokens (run_tool dumps runtime request).output ≤ m
      → b.token_estimate_used < b.max_token_estimate + m
      → ((execute_with_budget dumps runtime b request).0.token_estimate_used
          < b.max_token_estimate + m)
        × ((execute_with_budget dumps runtime b request).0.max_token_estimate
            ≡ b.max_token_estimate)
  unfolding execute_with_budget record_call
  one_call-tokens m b request small h = elim (Bool-cases (check_call b request.name).allowed) [
    | inl passed ↦
        let (_, _, below) = (check_call-allowed_iff b request.name).0 passed in
        rw passed (omega arith, refl)
    | inr refused ↦ rw refused (h, refl)
  ]

  -- Where no output is estimated above `m` tokens, a sequence of calls that starts below the token
  -- limit ends below the limit plus `m`: only the last output can go past it.
  pub execute_sequentially-tokens :
      (m : ℕ)
      → ((request : ToolCallRequest) → estimate_tokens (run_tool dumps runtime request).output ≤ m)
      → (b : ToolBudget) (batch : List ToolCallRequest)
      → b.token_estimate_used < b.max_token_estimate + m
      → (execute_sequentially dumps runtime b batch).0.token_estimate_used
        < b.max_token_estimate + m
  unfolding execute_sequentially
  execute_sequentially-tokens m small b [] h = h
  execute_sequentially-tokens m small b (request ∷ rest) h =
      let (below, same) = one_call-tokens m b request (small request) h in
      let rest_below =
        execute_sequentially-tokens m small (execute_with_budget dumps runtime b request).0 rest
          (rw same below) in
      rw same at rest_below
