-- ===== src/Agent/Granularity/Laws.antt =====
-- What the clamping of a plan keeps.
use atlas_agent_control_plan.Prelude.{
  ◌≤◌, String, ◌≡◌, ◌↔◌, refl, Option, List, [], length, length-take, ltb, arith, Bool-cases, inl,
  inr,
}
use atlas_agent_control_plan.Agent.Granularity.{
  ComplexitySignals, Complexity, light, standard, heavy, GranularityPolicy, assess, clamp_steps,
  step_range, StepWarning,
}

-- What the two answers are for a policy.
pub record IsClamped {ℓ} {S : Type ℓ} (steps : List S) (policy : GranularityPolicy)
    (answer : List S × List StepWarning) : Type ℓ where
  pub bounded : length answer.0 ≤ policy.max_steps
  pub kept : length steps ≤ policy.max_steps → answer.0 ≡ steps
  pub quiet :
      (answer.1 ≡ []) ↔ ((policy.min_steps ≤ length steps) × (length steps ≤ policy.max_steps))

-- The steps of a plan that are clamped are at most the limit of the policy, all of them where they are
-- within it, and a warning stands exactly where their number is outside the range of the policy.
pub clamp_steps-IsClamped {ℓ} :
    {S : Type ℓ} (steps : List S) (policy : GranularityPolicy)
    → policy.min_steps ≤ policy.max_steps
    → IsClamped steps policy (clamp_steps steps policy)
unfolding clamp_steps
clamp_steps-IsClamped steps policy range = elim (Bool-cases (ltb policy.max_steps (length steps))) [
  | inl many ↦ rw many (record {
    bounded = omega (arith, length-take policy.max_steps steps);
    kept = λ few. absurd (ground (arith, many, few));
    quiet = (λ e. cc, λ h. absurd (ground (arith, many, h.1)));
  })
  | inr within ↦ elim (Bool-cases (ltb (length steps) policy.min_steps)) [
    | inl few ↦
        rw (within, few)
          (record {
            bounded = ground (arith, within);
            kept = λ h. refl;
            quiet = (λ e. cc, λ h. absurd (ground (arith, few, h.0)));
          })
    | inr enough ↦
        rw (within, enough)
          (record {
            bounded = ground (arith, within);
            kept = λ h. refl;
            quiet = (λ e. (ground (arith, enough), ground (arith, within)), λ h. refl);
          })
  ]
]

-- The policy of a task has a range of steps, which is one of the three.
pub assess-range :
    (lower : String → String) (task : String) (given : Option ComplexitySignals)
    → (assess lower task given).min_steps ≤ (assess lower task given).max_steps
unfolding assess
assess-range lower task given = range _
  where
    range : (c : Complexity) → (step_range c).0 ≤ (step_range c).1
    range light = omega arith
    range standard = omega arith
    range heavy = omega arith

-- A plan that is clamped by the policy of its task has at most 15 steps.
pub clamp_steps-assess {ℓ} :
    {S : Type ℓ} (lower : String → String) (task : String) (given : Option ComplexitySignals)
    (steps : List S)
    → IsClamped steps (assess lower task given) (clamp_steps steps (assess lower task given))
clamp_steps-assess lower task given steps =
    clamp_steps-IsClamped steps (assess lower task given) (assess-range lower task given)
