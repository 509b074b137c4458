-- ===== src/Tasks/Queue/Examples.antt =====
-- A queue of two tasks whose messages are pending, and one that failed.
use atlas_agent_control_plan.Prelude.{
  ℕ, String, true, false, ◌≡◌, refl, Option, none, some, List, [], ◌∷◌, ◌++◌, contains, arith,
  string_eq, nat_eq,
}
use atlas_agent_control_plan.Prelude.Int.{pos}
use atlas_agent_control_plan.Tasks.Entities.{AgentTaskStatus, AgentTask}
use atlas_agent_control_plan.Tasks.Queue.{
  Queue, TaskRow, MessageRow, reserve_messages, reclaim_stale_messages, retry_task,
  is_retryable_status, get_task, payload_of, new_task, is_stale,
}
use atlas_agent_control_plan.Tasks.Queue.Messages.{message_ids}
use atlas_agent_control_plan.Tasks.Queue.Calls.{Call, reclaims, cancels, run, IsNumbered}
use atlas_agent_control_plan.Tasks.Queue.Contract.{reserved_once}
use atlas_agent_control_plan.Tasks.Queue.Recovery.{reserved_reclaimed}
use atlas_agent_control_plan.Tasks.Queue.Retry.{retry_task-queues, retry_of, message_of}

abbrev pub digits : ℕ → String
digits n = "0"

abbrev row : String → AgentTaskStatus → TaskRow
row id status = record {
  id = id;
  session_id = "s";
  type = "execute_plan";
  status = status;
  error = "";
  created_at = 1;
  updated_at = 1;
  parent_task_id = "";
  retry_count = 0;
}

abbrev pub message_row : ℕ → String → Option ℕ → MessageRow
message_row id task_id reserved_at = record {
  id = id;
  payload = payload_of digits (new_task task_id "s" none 0 1);
  enqueued_at = 1;
  reserved_at = reserved_at;
  acknowledged_at = none;
}

-- The message of the first task was reserved by a process that is gone.
abbrev pub two_tasks : Queue
two_tasks = record {
  tasks =
      row "a" AgentTaskStatus.queued
      ∷ row "b" AgentTaskStatus.queued
      ∷ row "f" AgentTaskStatus.failed
      ∷ [];
  messages = message_row 1 "a" (some 3) ∷ message_row 2 "b" none ∷ [];
  next_id = 3;
}

pub two_tasks-IsNumbered : IsNumbered two_tasks
two_tasks-IsNumbered = record {
  below = (omega arith, (omega arith, tt));
  ordered = ((omega arith, tt), (tt, tt));
}

reserves_pending : message_ids (reserve_messages (pos 5) 9 two_tasks).0 ≡ 2 ∷ []
unfolding reserve_messages
reserves_pending = refl

abbrev calls : List Call
calls = reclaims (pos 100) 50 51 ∷ cancels "b" 60 ∷ []

reserved_once_example :
    contains 2 (
      message_ids
        (reserve_messages
          (pos 5)
          70
          (run 10 digits (reserve_messages (pos 1) 9 two_tasks).1 calls)).0)
    ≡ false
unfolding reserve_messages
reserved_once_example =
    reserved_once 10 digits 2 9 70 (pos 1) (pos 5) two_tasks calls two_tasks-IsNumbered refl
      (refl, (refl, tt))

reserved_reclaimed_example :
    contains 2 (
      message_ids
        (reclaim_stale_messages 10 (pos 100) 50 51 (reserve_messages (pos 1) 9 two_tasks).1).0)
    ≡ true
unfolding reserve_messages is_stale
reserved_reclaimed_example =
    reserved_reclaimed 2 9 10 50 51 (pos 1) (pos 100) two_tasks refl (omega arith) (omega arith)

abbrev failed_task : AgentTask
failed_task = record {
  id = "f";
  session_id = "s";
  type = "execute_plan";
  status = AgentTaskStatus.failed;
  error = none;
  created_at = 1;
  updated_at = 1;
  parent_task_id = none;
  retry_count = 0;
}

retry_task-queues_example :
    (get_task "g" (retry_task digits "g" "f" 7 two_tasks).1 ≡ some (retry_of "g" "f" failed_task 7))
    × (get_task "f" (retry_task digits "g" "f" 7 two_tasks).1 ≡ some failed_task)
    × ((retry_task digits "g" "f" 7 two_tasks).1.messages
        ≡ two_tasks.messages ++ message_of 3 digits (new_task "g" "s" (some "f") 1 7) 7 ∷ [])
unfolding get_task is_retryable_status
retry_task-queues_example = retry_task-queues digits "g" "f" 7 two_tasks failed_task refl refl refl
