-- ===== src/Agent/Loop/Results.antt =====
-- Every call of a turn has its result: the batches of a turn cover its calls.
use atlas_agent_control_plan.Prelude.{
  Bool, true, false, ℕ, zero, suc, ◌+◌, ◌≤◌, ◌<◌, String, true, ◌&&◌, ◌≡◌, refl, ap, ◌∙◌, sym,
  Option, some, List, [], ◌∷◌, map, length, length-map, get_elem?, contains, count_if, All, arith,
  any_of, if◌then◌else◌, ltb, nat_eq, nat_beq_iff, ◌==◌, Bool-cases, Option-cases, inl, inr,
}
use atlas_agent_control_plan.Prelude.Dict
use atlas_agent_control_plan.Prelude.Dict.{Dict, get-put}
use atlas_agent_control_plan.Prelude.Filters.{contains-append}
use atlas_agent_control_plan.Tools.Budget.{
  ToolRuntime, ToolBudget, execute_sequentially, execute_with_budget, gather, start_all,
}
use atlas_agent_control_plan.Tools.Call.{ToolCallRequest, ToolCallResult}
use atlas_agent_control_plan.Tools.Deps.{range, plan_positions}
use atlas_agent_control_plan.Tools.Deps.Rounds.{flat}
use atlas_agent_control_plan.Tools.Deps.Laws.{plan_positions-planned}
use atlas_agent_control_plan.Tools.Runtime.Permitted.{Result-cases}
use atlas_agent_control_plan.Agent.Loop.{
  LoopSettings, LoopState, to_tool_call, at_positions, one_by_one, plan_batches, collect, in_order,
  execute_batch, execute_batches, add_results, run_turn, requests_of, is_budget_exceeded,
}

-- The offset has a result.
HasResult : ℕ → Dict ℕ ToolCallResult → Type 0
HasResult offset found = (result : ToolCallResult) × (Dict.get offset found ≡ some result)

abbrev offsets_of : List (ℕ × ToolCallRequest) → List ℕ
offsets_of batch = map (λ (item : ℕ × ToolCallRequest). item.0) batch

put-HasResult :
    (offset other : ℕ) (result : ToolCallResult) (found : Dict ℕ ToolCallResult)
    → HasResult offset found
    → HasResult offset (Dict.put other result found)
unfolding HasResult
put-HasResult offset other result found (old, h) = elim (Bool-cases (other == offset)) [
  | inl same ↦ (result, get-put other offset result found ∙ rw same refl)
  | inr differs ↦ (old, get-put other offset result found ∙ rw differs h)
]

put-HasResult_self :
    (offset other : ℕ) (result : ToolCallResult) (found : Dict ℕ ToolCallResult)
    → (other == offset) ≡ true
    → HasResult offset (Dict.put other result found)
unfolding HasResult
put-HasResult_self offset other result found same =
    (result, get-put other offset result found ∙ rw same refl)

collect-HasResult :
    (offset : ℕ) (batch : List (ℕ × ToolCallRequest)) (results : List ToolCallResult)
    (found : Dict ℕ ToolCallResult)
    → HasResult offset found
    → HasResult offset (collect batch results found)
unfolding collect
collect-HasResult offset [] results found h = h
collect-HasResult offset ((other, request) ∷ batch) [] found h = h
collect-HasResult offset ((other, request) ∷ batch) (result ∷ results) found h =
    collect-HasResult offset batch results (Dict.put other result found)
      (put-HasResult offset other result found h)

collect-HasResult_new :
    (offset : ℕ) (batch : List (ℕ × ToolCallRequest)) (results : List ToolCallResult)
    (found : Dict ℕ ToolCallResult)
    → contains offset (offsets_of batch) ≡ true
    → length results ≡ length batch
    → HasResult offset (collect batch results found)
unfolding collect
collect-HasResult_new offset [] results found h n = cc
collect-HasResult_new offset ((other, request) ∷ batch) [] found h n = absurd (omega (arith, n))
collect-HasResult_new offset ((other, request) ∷ batch) (result ∷ results) found h n =
    elim (Bool-cases (other == offset)) [
      | inl same ↦
          collect-HasResult offset batch results (Dict.put other result found)
            (put-HasResult_self offset other result found same)
      | inr differs ↦
          collect-HasResult_new offset batch results (Dict.put other result found) (rw differs at h)
            (omega (arith, n))
    ]

in_order-some :
    (offsets : List ℕ) (found : Dict ℕ ToolCallResult)
    → All (λ offset. HasResult offset found) offsets
    → (results : List ToolCallResult) × (in_order offsets found ≡ some results)
      × (length results ≡ length offsets)
unfolding in_order HasResult
in_order-some [] found h = ([], refl, refl)
in_order-some (offset ∷ offsets) found h =
    let (results, e, n) = in_order-some offsets found h.1 in
    (h.0.0 ∷ results, rw (in_order, h.0.1, e) refl, ap suc n)

module _ (dumps : String → String) (runtime : ToolRuntime) where
  length-sequentially :
      (requests : List ToolCallRequest) (budget : ToolBudget)
      → length (execute_sequentially dumps runtime budget requests).1 ≡ length requests
  unfolding execute_sequentially
  length-sequentially [] budget = refl
  length-sequentially (request ∷ requests) budget =
      ap suc (length-sequentially requests (execute_with_budget dumps runtime budget request).0)

  length-start_all :
      (requests : List ToolCallRequest) (held : Bool) (budget : ToolBudget)
      → length (start_all dumps runtime held budget requests).2 ≡ length requests
  unfolding start_all
  length-start_all [] held budget = refl
  length-start_all (request ∷ requests) held budget = ap suc (length-start_all requests _ _)

  module _ (settings : LoopSettings) where
    length-execute_batch :
        (budget : ToolBudget) (batch : List (ℕ × ToolCallRequest))
        → length (execute_batch dumps runtime settings budget batch).1 ≡ length batch
    unfolding execute_batch gather
    length-execute_batch budget batch =
        elim (Bool-cases (ltb 1 (length batch) && settings.parallel_batches)) [
          | inl together ↦
              rw together (length-start_all (requests_of batch) false budget ∙ length-map _ batch)
          | inr apart ↦
              rw apart (length-sequentially (requests_of batch) budget ∙ length-map _ batch)
        ]

    execute_batches-HasResult :
        (offset : ℕ) (batches : List (List (ℕ × ToolCallRequest))) (budget : ToolBudget)
        (found : Dict ℕ ToolCallResult)
        → HasResult offset found
        → HasResult offset (execute_batches dumps runtime settings budget batches found).1
    unfolding execute_batches
    execute_batches-HasResult offset [] budget found h = h
    execute_batches-HasResult offset (batch ∷ batches) budget found h =
        execute_batches-HasResult offset batches _ _ (collect-HasResult offset batch _ found h)

    execute_batches-HasResult_new :
        (offset : ℕ) (batches : List (List (ℕ × ToolCallRequest))) (budget : ToolBudget)
        (found : Dict ℕ ToolCallResult)
        → contains offset (flat (map offsets_of batches)) ≡ true
        → HasResult offset (execute_batches dumps runtime settings budget batches found).1
    unfolding execute_batches
    execute_batches-HasResult_new offset [] budget found h = cc
    execute_batches-HasResult_new offset (batch ∷ batches) budget found h =
        elim (Bool-cases (contains offset (offsets_of batch))) [
          | inl here ↦
              execute_batches-HasResult offset batches _ _ (
                collect-HasResult_new offset batch _ found here (length-execute_batch budget batch))
          | inr later ↦ execute_batches-HasResult_new offset batches _ _ (
              ground (
                arith,
                h,
                later,
                contains-append offset (offsets_of batch) (flat (map offsets_of batches)),
              ))
        ]

add_results-total :
    (dumps : String → String) (runtime : ToolRuntime) (settings : LoopSettings)
    (key_of : ToolCallRequest → String) (turn : ℕ) (requests : List ToolCallRequest)
    (results : List ToolCallResult) (state : LoopState)
    → length results ≡ length requests
    → (add_results dumps runtime settings key_of turn requests results state).total_tool_calls
      ≡ state.total_tool_calls + length requests
unfolding add_results
add_results-total dumps runtime settings key_of turn [] results state h = omega arith
add_results-total dumps runtime settings key_of turn (request ∷ requests) [] state h =
    absurd (omega (arith, h))
add_results-total dumps runtime settings key_of turn (request ∷ requests) (result ∷ results) state
      h =
    add_results-total dumps runtime settings key_of turn requests results _ (omega (arith, h))
    ∙ omega arith

-- What the batches of a turn cover.
count_contains :
    (offset : ℕ) (xs : List ℕ) → 1 ≤ count_if (λ x. x == offset) xs → contains offset xs ≡ true
count_contains offset [] h = absurd (omega (arith, h))
count_contains offset (x ∷ xs) h = ground (arith, h, count_contains offset xs)

count-range :
    (offset start count : ℕ)
    → start ≤ offset
    → offset < start + count
    → 1 ≤ count_if (λ x. x == offset) (range start count)
unfolding range
count-range offset start zero low high = absurd (omega (arith, low, high))
count-range offset start (suc count) low high =
    ground (arith, low, high, count-range offset (start + 1) count)

get_elem?-some :
    {A : Type 0} (xs : List A) (offset : ℕ)
    → offset < length xs
    → (x : A) × (get_elem? xs offset ≡ some x)
get_elem?-some [] offset h = absurd (omega (arith, h))
get_elem?-some (x ∷ xs) zero h = (x, refl)
get_elem?-some (x ∷ xs) (suc offset) h = get_elem?-some xs offset (omega (arith, h))

at_positions-contains :
    (requests : List ToolCallRequest) (offset : ℕ) (positions : List ℕ)
    → offset < length requests
    → contains offset positions ≡ true
    → contains offset (offsets_of (at_positions requests positions)) ≡ true
unfolding at_positions
at_positions-contains requests offset [] in_range h = cc
at_positions-contains requests offset (position ∷ positions) in_range h =
    elim (Option-cases (get_elem? requests position)) [
      | inr (request, e) ↦
          rw (at_positions, e)
            (elim (Bool-cases (position == offset)) [
              | inl same ↦ rw same refl
              | inr differs ↦
                  rw differs
                    (at_positions-contains requests offset positions in_range (rw differs at h))
            ])
      | inl e ↦ elim (Bool-cases (position == offset)) [
        | inl same ↦
            let (request, there) = get_elem?-some requests offset in_range in
            absurd (
              ground (
                arith,
                sym e ∙ ap (get_elem? requests) ((nat_beq_iff position offset).0 same) ∙ there,
              ))
        | inr differs ↦
            rw (at_positions, e)
              (at_positions-contains requests offset positions in_range (rw differs at h))
      ]
    ]

at_batches-contains :
    (requests : List ToolCallRequest) (offset : ℕ) (batches : List (List ℕ))
    → offset < length requests
    → contains offset (flat batches) ≡ true
    → contains offset (flat (map offsets_of (map (at_positions requests) batches))) ≡ true
at_batches-contains requests offset [] in_range h = cc
at_batches-contains requests offset (batch ∷ batches) in_range h =
    let split = contains-append offset batch (flat batches) in
    let here = offsets_of (at_positions requests batch) in
    let joined =
      contains-append offset here (flat (map offsets_of (map (at_positions requests) batches))) in
    elim (Bool-cases (contains offset batch)) [
      | inl first ↦ joined ∙ rw (at_positions-contains requests offset batch in_range first) refl
      | inr later ↦
          let rest =
            at_batches-contains requests offset batches in_range
              (ground (arith, h, later, split)) in
          ground (arith, joined, rest)
    ]

one_by_one-contains :
    (offset start : ℕ) (rest : List ToolCallRequest)
    → start ≤ offset
    → offset < start + length rest
    → contains offset (flat (map offsets_of (one_by_one start rest))) ≡ true
unfolding one_by_one
one_by_one-contains offset start [] low high = absurd (omega (arith, low, high))
one_by_one-contains offset start (request ∷ rest) low high =
    ground (arith, low, high, one_by_one-contains offset (start + 1) rest)

plan_batches-contains :
    (tags : String → Option (List String × List String)) (requests : List ToolCallRequest)
    (offset : ℕ)
    → offset < length requests
    → contains offset (flat (map offsets_of (plan_batches tags requests))) ≡ true
unfolding plan_batches
plan_batches-contains tags requests offset in_range =
    let calls = map (to_tool_call tags) requests in
    elim (Result-cases (plan_positions calls)) [
      | inr (stuck, e) ↦
          rw (plan_batches, e)
            (one_by_one-contains offset 0 requests (omega arith) (omega (arith, in_range)))
      | inl (batches, e) ↦
          let same = (plan_positions-planned calls batches e).1 (λ x. x == offset) in
          let once =
            count-range offset 0 (length calls) (omega arith)
              (omega (arith, in_range, length-map (to_tool_call tags) requests)) in
          rw (plan_batches, e)
            (at_batches-contains requests offset batches in_range
              (count_contains offset (flat batches) (omega (arith, same, once))))
    ]

All-range :
    (P : ℕ → Type 0) (start count : ℕ)
    → ((x : ℕ) → start ≤ x → x < start + count → P x)
    → All P (range start count)
unfolding range
All-range P start zero h = tt
All-range P start (suc count) h = (
  h start (omega arith) (omega arith),
  All-range P (start + 1) count (λ x low high. h x (omega (arith, low)) (omega (arith, high))),
)

length-range : (start count : ℕ) → length (range start count) ≡ count
unfolding range
length-range start zero = refl
length-range start (suc count) = ap suc (length-range (start + 1) count)

-- Whatever tags the tools have, also where the planner refuses them for a cycle, every call of a turn
-- is in a batch and has its result: the look up of the results never fails.
pub run_turn-answers :
    (dumps : String → String) (runtime : ToolRuntime) (settings : LoopSettings)
    (tags : String → Option (List String × List String)) (key_of : ToolCallRequest → String)
    (turn : ℕ) (requests : List ToolCallRequest) (state : LoopState)
    → (next : LoopState) × (run_turn dumps runtime settings tags key_of turn requests state
        ≡ some next)
      × (next.total_tool_calls ≡ state.total_tool_calls + length requests)
unfolding run_turn
run_turn-answers dumps runtime settings tags key_of turn requests state =
    let done =
      execute_batches dumps runtime settings state.budget (plan_batches tags requests) [] in
    let (results, e, n) = in_order-some (range 0 (length requests)) done.1 (
      All-range (λ offset. HasResult offset done.1) 0 (length requests)
        (λ offset low high.
          execute_batches-HasResult_new dumps runtime settings offset (plan_batches tags requests)
            state.budget [] (plan_batches-contains tags requests offset (omega (arith, high))))) in
    let after =
      add_results dumps runtime settings key_of turn requests results
        (record state { budget = done.0 }) in
    (
      record after {
        notices = if any_of is_budget_exceeded results then after.notices + 1 else after.notices;
      },
      rw (run_turn, e) refl,
      add_results-total dumps runtime settings key_of turn requests results
          (record state { budget = done.0 }) (n ∙ length-range 0 (length requests)),
    )
