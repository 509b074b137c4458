-- ===== src/Tools/Policy/Laws.antt =====
-- When the policy lets a tool run.
use atlas_agent_control_plan.Prelude.{
  String, Bool, true, false, not, ◌&&◌, ◌||◌, ◌⊎◌, ◌≡◌, refl, Option, none, some, List, [], ◌∷◌,
  keep_if, all_of, contains, arith, leb, string_eq, Bool-cases, Option-cases, inl, inr,
}
use atlas_agent_control_plan.Prelude.Dict.{Dict}
use atlas_agent_control_plan.Tools.Policy.{
  ToolDefinition, ToolExecutionContext, ToolRiskLevel, order, module_for_tool, module_enabled,
  missing_permissions, needs_approval, evaluate_approval, evaluate, policy_decision,
}

-- Whether the module of the tool, where it has one, is enabled.
abbrev module_open : Dict String Bool → Option String → Bool
module_open configured none = true
module_open configured (some module_key) = module_enabled configured module_key

abbrev pub is_open : Dict String Bool → String → Bool
is_open configured tool_name = module_open configured (module_for_tool tool_name)

-- Whether the context has every permission, and the risk is within the automatic approval or approved.
abbrev pub has_permissions : ToolDefinition → ToolExecutionContext → Bool
has_permissions definition context =
    all_of (λ permission. contains permission context.allowed_permissions)
      definition.required_permissions

abbrev pub is_within : ToolRiskLevel → ToolDefinition → ToolExecutionContext → Bool
is_within auto_approve definition context =
    leb (order definition.risk_level) (order auto_approve) || context.approved

-- The decision on a list of missing permissions.
nothing_missing :
    (allowed required : List String)
    → keep_if (λ permission. not (contains permission allowed)) required ≡ []
    → all_of (λ permission. contains permission allowed) required ≡ true
nothing_missing allowed [] h = refl
nothing_missing allowed (p ∷ required) h = elim (Bool-cases (contains p allowed)) [
  | inl held ↦ rw held (nothing_missing allowed required (rw held at h))
  | inr lacks ↦ absurd (ground (arith, rw lacks at h))
]

something_missing :
    (allowed required : List String) (first : String) (rest : List String)
    → keep_if (λ permission. not (contains permission allowed)) required ≡ first ∷ rest
    → all_of (λ permission. contains permission allowed) required ≡ false
something_missing allowed [] first rest h = cc
something_missing allowed (p ∷ required) first rest h = elim (Bool-cases (contains p allowed)) [
  | inl held ↦ rw held (something_missing allowed required first rest (rw held at h))
  | inr lacks ↦ rw lacks refl
]

pub List-cases {ℓ} :
    {A : Type ℓ} (xs : List A) → (xs ≡ []) ⊎ ((x : A) × (rest : List A) × (xs ≡ x ∷ rest))
List-cases [] = inl refl
List-cases (x ∷ xs) = inr (x, xs, refl)

module _ (sorted : List String → List String) (auto_approve : ToolRiskLevel)
    (definition : ToolDefinition) (context : ToolExecutionContext) where
  approval-executable :
      (evaluate_approval auto_approve definition context).executable
      ≡ is_within auto_approve definition context
  unfolding evaluate_approval needs_approval
  approval-executable = ground arith

  evaluate-executable :
      (evaluate sorted auto_approve definition context).executable
      ≡ (has_permissions definition context && is_within auto_approve definition context)
  unfolding evaluate missing_permissions
  evaluate-executable = elim (List-cases (missing_permissions definition context)) [
    | inl e ↦ rw (evaluate, e, nothing_missing context.allowed_permissions _ e) approval-executable
    | inr (first, rest, e) ↦
        rw (evaluate, e, something_missing context.allowed_permissions _ first rest e) refl
  ]

  -- The policy lets a tool run exactly where its module, if it has one, is enabled, the context has all
  -- its permissions, and its risk is within the automatic approval or the call is approved.
  pub policy_decision-executable :
      (configured : Dict String Bool) (tool_name : String)
      → (policy_decision sorted configured auto_approve tool_name definition context).executable ≡ (
          is_open configured tool_name
          && has_permissions definition context
          && is_within auto_approve definition context)
  unfolding policy_decision
  policy_decision-executable configured tool_name =
      elim (Option-cases (module_for_tool tool_name)) [
        | inl e ↦ rw (policy_decision, e) evaluate-executable
        | inr (key, e) ↦ elim (Bool-cases (module_enabled configured key)) [
          | inl enabled ↦ rw (policy_decision, e, enabled) evaluate-executable
          | inr disabled ↦ rw (policy_decision, e, disabled) refl
        ]
      ]
