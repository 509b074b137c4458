-- ===== src/Tasks/Runner/Examples.antt =====
-- The runner on the message of a queued task.
use atlas_agent_control_plan.Prelude.{
  ℕ, String, false, ◌≡◌, refl, Option, none, some, List, [], ◌∷◌, map, contains, arith, string_eq,
  nat_eq,
}
use atlas_agent_control_plan.Prelude.Int.{pos}
use atlas_agent_control_plan.Tasks.Entities.{
  AgentTaskStatus, AgentTask, QueuedTaskMessage, is_aborted,
}
use atlas_agent_control_plan.Tasks.Queue.{
  Queue, get_task, mark_running, payload_of, new_task, start, to_message, is_null, reserve_messages,
  reclaim_stale_messages, cancel_task,
}
use atlas_agent_control_plan.Tasks.Queue.Messages.{message_ids}
use atlas_agent_control_plan.Tasks.Queue.Calls.{Call, starts, cancels, run}
use atlas_agent_control_plan.Tasks.Queue.Examples.{digits, two_tasks, two_tasks-IsNumbered}
use atlas_agent_control_plan.Tasks.Queue.Recovery.{polls}
use atlas_agent_control_plan.Tasks.Runner.{
  ExecutionEnd, finished, raised, cancelled, handle_message, process_message, poll, is_stopped,
}
use atlas_agent_control_plan.Tasks.Runner.Claims.{
  process_message-never, handle_message-revives, process_message-recovers,
}
use atlas_agent_control_plan.Tasks.Runner.Polls.{Starts, poll-Starts}

abbrev b_message : QueuedTaskMessage
b_message = record { id = 2; payload = payload_of digits (new_task "b" "s" none 0 1) }

abbrev task : String → AgentTaskStatus → ℕ → Option String → AgentTask
task id status updated_at error = record {
  id = id;
  session_id = "s";
  type = "execute_plan";
  status = status;
  error = error;
  created_at = 1;
  updated_at = updated_at;
  parent_task_id = none;
  retry_count = 0;
}

abbrev raises : String → ExecutionEnd
raises session_id = raised "no plan"

abbrev finishes : String → ExecutionEnd
finishes session_id = finished []

abbrev interrupts : String → ExecutionEnd
interrupts session_id = cancelled

abbrev after_start : Queue
after_start = process_message 10 digits finishes [] b_message 9 two_tasks

process_message-never_example :
    (contains 2
        (message_ids (reserve_messages (pos 5) 70 (run 10 digits after_start (starts ∷ []))).0)
      ≡ false)
    × (contains 2 (
          message_ids
            (reclaim_stale_messages 10 (pos 5) 60 70 (run 10 digits after_start (starts ∷ []))).0)
        ≡ false)
process_message-never_example =
    process_message-never 10 digits finishes [] b_message 9 70 60 (pos 5) two_tasks (starts ∷ [])
      (omega arith) refl

-- The user cancels the task while its plan is executed.
abbrev user_cancels : List Call
user_cancels = cancels "b" 12 ∷ []

handle_message-revives_example :
    get_task "b" (handle_message 10 digits raises user_cancels b_message.payload 9 two_tasks).0
    ≡ some (task "b" AgentTaskStatus.failed 9 (some "no plan"))
unfolding get_task mark_running cancel_task is_aborted
handle_message-revives_example =
    handle_message-revives 10 digits raises user_cancels "b" "s" none 0 1 9 two_tasks
      (task "b" AgentTaskStatus.queued 1 none) refl refl refl refl "no plan"
      (task "b" AgentTaskStatus.stopped 12 none) refl refl refl

process_message-recovers_example :
    polls 2 50 (start (process_message 10 digits interrupts [] b_message 9 two_tasks))
    ≡ map to_message two_tasks.messages
unfolding get_task mark_running is_aborted is_stopped is_null
process_message-recovers_example =
    process_message-recovers 10 digits interrupts [] "b" "s" none 0 1 9 two_tasks
      (task "b" AgentTaskStatus.queued 1 none) refl refl refl refl 2 2 50 refl refl
      two_tasks-IsNumbered

poll-Starts_example :
    Starts digits
      ("x" ∷ [])
      (poll digits 10 50 51 two_tasks ("x" ∷ [])).1
      (poll digits 10 50 51 two_tasks ("x" ∷ [])).2
poll-Starts_example = poll-Starts digits 10 50 51 two_tasks ("x" ∷ []) (refl, tt)
