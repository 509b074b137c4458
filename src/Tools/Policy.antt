-- ===== src/Tools/Policy.antt =====
-- Who may run a tool: backend/api/app/core/module_policy.py and the policy engine of
-- backend/api/app/application/tool_runtime_support.py. `configured` is what the file of modules says
-- and `sorted` is Python's sorted of a set.
pub mod Laws
use atlas_agent_control_plan.Prelude.{
  ℕ, String, Bool, true, false, not, ◌&&◌, ◌||◌, Option, none, some, List, [], ◌∷◌, keep_if,
  contains, ltb, string_eq, ◌==◌, if◌then◌else◌,
}
use atlas_agent_control_plan.Prelude.Dict
use atlas_agent_control_plan.Prelude.Dict.{Dict}
use atlas_agent_control_plan.Prelude.Text.{is_empty}
use atlas_agent_control_plan.Acceptance.Gate.{concat}
use atlas_agent_control_plan.Tools.Call.{ToolInvocationStatus}
use atlas_agent_control_plan.Tools.Resilience.{starts_with}

pub data ToolRiskLevel : Type 0 where
  low medium high critical : ToolRiskLevel

-- ToolPolicyEngine._ORDER
unfoldable pub order : ToolRiskLevel → ℕ
order low = 0
order medium = 1
order high = 2
order critical = 3

-- The fields of ToolDefinition that the runtime reads.
pub record ToolDefinition : Type 0 where
  pub name : String
  pub version : String
  pub risk_level : ToolRiskLevel
  pub required_permissions : List String
  pub idempotent : Bool

-- The fields of ToolExecutionContext that the runtime reads.
pub record ToolExecutionContext : Type 0 where
  pub allowed_permissions : List String
  pub approved : Bool
  pub approval_reason : String
  pub idempotency_key : Option String

pub record ToolPolicyDecision : Type 0 where
  pub decision : String
  pub reason : String
  pub executable : Bool
  pub status : ToolInvocationStatus

-- DEFAULT_MODULES and TOOL_MODULES
abbrev pub default_modules : List String
default_modules = "llm" ∷ "search" ∷ "mcp" ∷ "a2a" ∷ "multi_agent" ∷ "sandbox" ∷ "rag" ∷ []

abbrev pub tool_modules : Dict String String
tool_modules =
    ("web_search", "search")
    ∷ ("mcp_call", "mcp")
    ∷ ("a2a_call", "a2a")
    ∷ ("multi_agent_collaborate", "multi_agent")
    ∷ ("knowledge_search", "rag")
    ∷ []

unfoldable pub module_for_tool : String → Option String
unfolding starts_with Dict.get
module_for_tool tool_name =
    if starts_with "shell_" tool_name
      || starts_with "file_" tool_name
      || starts_with "browser_" tool_name
    then some "sandbox"
    else Dict.get tool_name tool_modules

-- load_module_policy().get(module_key, True), where every default is True
unfoldable pub module_enabled : Dict String Bool → String → Bool
unfolding Dict.get_or
module_enabled configured module_key =
    if contains module_key default_modules then Dict.get_or module_key configured true else true

-- ", ".join(texts)
unfoldable pub join : List String → String
unfolding concat
join [] = ""
join (text ∷ []) = text
join (text ∷ texts) = concat text (concat ", " (join texts))

unfoldable pub risk_value : ToolRiskLevel → String
risk_value low = "low"
risk_value medium = "medium"
risk_value high = "high"
risk_value critical = "critical"

unfoldable pub missing_permissions : ToolDefinition → ToolExecutionContext → List String
missing_permissions definition context =
    keep_if (λ permission. not (contains permission context.allowed_permissions))
      definition.required_permissions

unfoldable pub needs_approval : ToolRiskLevel → ToolDefinition → Bool
unfolding order
needs_approval auto_approve definition = ltb (order auto_approve) (order definition.risk_level)

-- The test `if missing` is on the set of the missing permissions.
unfoldable pub evaluate_approval :
    ToolRiskLevel → ToolDefinition → ToolExecutionContext → ToolPolicyDecision
unfolding needs_approval risk_value concat
evaluate_approval auto_approve definition context =
    if needs_approval auto_approve definition && not context.approved
    then record {
      decision = "require_approval";
      reason = concat (risk_value definition.risk_level) " risk tool requires explicit approval";
      executable = false;
      status = ToolInvocationStatus.approval_required;
    }
    else record {
      decision = "allow";
      reason =
          if is_empty context.approval_reason
          then "policy and permission checks passed"
          else context.approval_reason;
      executable = true;
      status = ToolInvocationStatus.running;
    }

module _ (sorted : List String → List String) where
  unfoldable pub evaluate :
      ToolRiskLevel → ToolDefinition → ToolExecutionContext → ToolPolicyDecision
  unfolding missing_permissions evaluate_approval join concat
  evaluate auto_approve definition context = elim (missing_permissions definition context) [
    | [] ↦ evaluate_approval auto_approve definition context
    | first ∷ rest ↦ record {
      decision = "deny";
      reason = concat "missing permissions: " (join (sorted (first ∷ rest)));
      executable = false;
      status = ToolInvocationStatus.denied;
    }
  ]

  -- ToolRuntime._policy_decision
  unfoldable pub policy_decision :
      Dict String Bool
      → ToolRiskLevel
      → String
      → ToolDefinition
      → ToolExecutionContext
      → ToolPolicyDecision
  unfolding evaluate module_for_tool module_enabled concat
  policy_decision configured auto_approve tool_name definition context =
      elim (module_for_tool tool_name) [
        | none ↦ evaluate auto_approve definition context
        | some module_key ↦
            if module_enabled configured module_key
            then evaluate auto_approve definition context
            else record {
              decision = "deny";
              reason = concat "module is disabled: " module_key;
              executable = false;
              status = ToolInvocationStatus.denied;
            }
      ]
