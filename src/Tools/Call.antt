-- ===== src/Tools/Call.antt =====
-- The parts of backend/api/app/domain/agent_core/tools.py that the tool layer hands around.
use atlas_agent_control_plan.Prelude.{ℕ, String, Bool, Option}

pub data ToolInvocationStatus : Type 0 where
  pending running succeeded failed denied approval_required timed_out deduplicated :
      ToolInvocationStatus

pub record ToolCallRequest : Type 0 where
  pub name : String
  pub arguments : String

-- Of the audit, the entries `budget_exceeded` and `request_hash`; an id of an invocation is the number
-- of uuid4's answer. The risk, the duration and the artifact are left out.
pub record ToolCallResult : Type 0 where
  pub tool_name : String
  pub arguments : String
  pub output : String
  pub invocation_id : Option ℕ
  pub status : ToolInvocationStatus
  pub budget_exceeded : Option String
  pub request_hash : Option String
  pub cache_hit : Bool
