-- ===== src/Tasks/Entities.antt =====
-- backend/api/app/domain/tasks/entities.py. Times are ticks of a clock, identifiers are their texts.
use atlas_agent_control_plan.Prelude.{ℕ, String, Bool, true, false, Option}
use atlas_agent_control_plan.Prelude.Dict.{Dict}

pub data AgentTaskStatus : Type 0 where
  queued running waiting completed failed stopped succeeded cancelled : AgentTaskStatus

-- status in TERMINAL_STATUSES
unfoldable pub in_terminal_statuses : AgentTaskStatus → Bool
in_terminal_statuses AgentTaskStatus.completed = true
in_terminal_statuses AgentTaskStatus.succeeded = true
in_terminal_statuses AgentTaskStatus.failed = true
in_terminal_statuses AgentTaskStatus.stopped = true
in_terminal_statuses AgentTaskStatus.cancelled = true
in_terminal_statuses _ = false

-- status in ABORTED_STATUSES
unfoldable pub in_aborted_statuses : AgentTaskStatus → Bool
in_aborted_statuses AgentTaskStatus.stopped = true
in_aborted_statuses AgentTaskStatus.cancelled = true
in_aborted_statuses _ = false

pub record AgentTask : Type 0 where
  pub id : String
  pub session_id : String
  pub type : String
  pub status : AgentTaskStatus
  pub error : Option String
  pub created_at : ℕ
  pub updated_at : ℕ
  pub parent_task_id : Option String
  pub retry_count : ℕ

unfoldable pub is_terminal : AgentTask → Bool
unfolding in_terminal_statuses
is_terminal task = in_terminal_statuses task.status

unfoldable pub is_aborted : AgentTask → Bool
unfolding in_aborted_statuses
is_aborted task = in_aborted_statuses task.status

-- The number `id` stands for its text, which acknowledge reads back.
pub record QueuedTaskMessage : Type 0 where
  pub id : ℕ
  pub payload : Dict String String
