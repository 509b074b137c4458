-- ===== src/Tools/Deps/Laws.antt =====
-- The batches run every call once and after the calls that it needs; the only error is a cycle.
use atlas_agent_control_plan.Prelude.{
  ℕ, zero, suc, ◌+◌, String, Bool, true, not, ◌≡◌, refl, ap, List, [], ◌∷◌, arith, length, contains,
  keep_if, count_if, nat_eq, string_eq, Bool-cases, inl, inr, ◌==◌,
}
use atlas_agent_control_plan.Prelude.Filters.{contains-append}
use atlas_agent_control_plan.Prelude.Result.{ok, err}
use atlas_agent_control_plan.Tools.Deps.{
  ToolCall, providers, required_providers, dependencies, nth_or_empty, range, plan_positions,
}
use atlas_agent_control_plan.Tools.Deps.Rounds.{
  flat, IsOrdered, IsStuck, Covers, IsPlan, batch_loop-IsPlan,
}

-- The providers of a tag are positions of calls.
providers-in :
    (tag : String) (index : ℕ) (calls : List ToolCall) (other : ℕ)
    → contains other (providers tag index calls) ≡ true
    → contains other (range index (length calls)) ≡ true
unfolding providers range
providers-in tag index [] other h = h
providers-in tag index (call ∷ rest) other h = elim (Bool-cases (contains tag call.provides)) [
  | inl there ↦ elim (Bool-cases (index == other)) [
    | inl same ↦ ground (arith, same)
    | inr differs ↦
        let later = providers-in tag (index + 1) rest other (ground (arith, there, differs, h)) in
        ground (arith, later)
  ]
  | inr absent ↦
      let later = providers-in tag (index + 1) rest other (ground (arith, absent, h)) in
      ground (arith, later)
]

keep_if-in :
    (q : ℕ → Bool) (xs : List ℕ) (other : ℕ)
    → contains other (keep_if q xs) ≡ true
    → contains other xs ≡ true
keep_if-in q [] other h = h
keep_if-in q (x ∷ xs) other h = ground (arith, h, keep_if-in q xs other)

required_providers-in :
    (calls : List ToolCall) (index : ℕ) (tags : List String) (other : ℕ)
    → contains other (required_providers calls index tags) ≡ true
    → contains other (range 0 (length calls)) ≡ true
unfolding required_providers
required_providers-in calls index [] other h = cc
required_providers-in calls index (tag ∷ rest) other h =
    let found = keep_if (λ provider. not (provider == index)) (providers tag 0 calls) in
    elim (Bool-cases (contains other found)) [
      | inl here ↦
          providers-in tag 0 calls other
            (keep_if-in (λ provider. not (provider == index)) (providers tag 0 calls) other here)
      | inr there ↦ required_providers-in calls index rest other (
          ground
            (arith, h, there, contains-append other found (required_providers calls index rest)))
    ]

dependencies-in :
    (calls : List ToolCall) (start : ℕ) (rest : List ToolCall) (index other : ℕ)
    → contains other (nth_or_empty (dependencies calls start rest) index) ≡ true
    → contains other (range 0 (length calls)) ≡ true
unfolding dependencies nth_or_empty
dependencies-in calls start [] index other h = cc
dependencies-in calls start (call ∷ rest) zero other h =
    required_providers-in calls start call.requires other h
dependencies-in calls start (call ∷ rest) (suc index) other h =
    dependencies-in calls (start + 1) rest index other h

length-range : (start count : ℕ) → length (range start count) ≡ count
unfolding range
length-range start zero = refl
length-range start (suc count) = ap suc (length-range (start + 1) count)

plan_positions-IsPlan :
    (calls : List ToolCall)
    → IsPlan (dependencies calls 0 calls) [] (range 0 (length calls)) (plan_positions calls)
unfolding plan_positions Covers
plan_positions-IsPlan calls =
    batch_loop-IsPlan (dependencies calls 0 calls) (length calls) [] (range 0 (length calls))
      (λ index other h. dependencies-in calls 0 calls index other h)
      (omega (arith, length-range 0 (length calls)))

-- The batches that the planner answers hold each position of the request, as often as the request
-- has it; no batch is empty; and what a call depends on stands in a batch before its own.
pub plan_positions-planned :
    (calls : List ToolCall) (batches : List (List ℕ))
    → plan_positions calls ≡ ok batches
    → IsOrdered (dependencies calls 0 calls) [] batches
      × ((p : ℕ → Bool) → count_if p (flat batches) ≡ count_if p (range 0 (length calls)))
plan_positions-planned calls batches h = (plan_positions-IsPlan calls).planned batches h

-- The positions that the planner refuses are some, and each depends on one of them, so the
-- declarations have a cycle.
pub plan_positions-refused :
    (calls : List ToolCall) (stuck : List ℕ)
    → plan_positions calls ≡ err stuck
    → IsStuck (dependencies calls 0 calls) stuck
plan_positions-refused calls stuck h = (plan_positions-IsPlan calls).refused stuck h
