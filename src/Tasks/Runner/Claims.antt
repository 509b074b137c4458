-- ===== src/Tasks/Runner/Claims.antt =====
-- What the queue holds once the runner has processed a message.
use atlas_agent_control_plan.Prelude.{
  ℕ, ◌<◌, String, Bool, true, false, ◌≡◌, refl, ap, ◌∙◌, Option, none, some, List, map, take,
  keep_if, contains, arith, string_eq, nat_eq,
}
use atlas_agent_control_plan.Prelude.Dict
use atlas_agent_control_plan.Prelude.Dict.{Dict}
use atlas_agent_control_plan.Prelude.Int.{ℤ}
use atlas_agent_control_plan.Prelude.Text.{is_empty}
use atlas_agent_control_plan.Tasks.Entities.{
  AgentTaskStatus, AgentTask, QueuedTaskMessage, is_aborted,
}
use atlas_agent_control_plan.Tasks.Queue.{
  Queue, get_task, mark_running, mark_failed, reserve_messages, reclaim_stale_messages, start,
  new_task, payload_of, to_message, is_null, update_status,
}
use atlas_agent_control_plan.Tasks.Queue.Messages.{message_ids}
use atlas_agent_control_plan.Tasks.Queue.Calls.{Call, marks, run, IsNumbered}
use atlas_agent_control_plan.Tasks.Queue.Histories.{run-next_id, run-IsNumbered, step-IsNumbered}
use atlas_agent_control_plan.Tasks.Queue.Contract.{acknowledged_never}
use atlas_agent_control_plan.Tasks.Queue.Recovery.{polls, start-polls}
use atlas_agent_control_plan.Tasks.Queue.Table.{marked, update_status-marked}
use atlas_agent_control_plan.Tasks.Runner.{
  ExecutionEnd, finished, raised, cancelled, ExecutionEvent, find_blocked, find_error, after_events,
  after_execution, is_stopped, conclude, execute_task, handle_found, handle_message, settle,
  process_message,
}
use atlas_agent_control_plan.Tasks.Runner.Laws.{
  is_cancelled, handle_message-answers, handle_message-keeps, settle-acknowledges,
  update_status-messages,
}

module _ (claim_idle : ℕ) (to_text : ℕ → String) (execute : String → ExecutionEnd)
    (meanwhile : List Call) where
  -- A message of the queue that is processed, however its execution ends but for a cancellation, is
  -- never handed out again after any calls, a start of a new process and reclaims among them.
  pub process_message-never :
      (message : QueuedTaskMessage) (now later asked : ℕ) (count : ℤ) (q : Queue) (cs : List Call)
      → message.id < q.next_id
      → is_cancelled (execute (Dict.get_or "session_id" message.payload "")) ≡ false
      → (contains message.id (
            message_ids
              (reserve_messages count later (
                run claim_idle to_text
                  (process_message claim_idle to_text execute meanwhile message now q)
                  cs)).0)
          ≡ false)
        × (contains message.id (
              message_ids
                (reclaim_stale_messages claim_idle count asked later (
                  run claim_idle to_text
                    (process_message claim_idle to_text execute meanwhile message now q)
                    cs)).0)
            ≡ false)
  unfolding process_message
  process_message-never message now later asked count q cs n h =
      let handled = handle_message claim_idle to_text execute meanwhile message.payload now q in
      let under =
        handle_message-keeps (λ (r : Queue). message.id < r.next_id)
          (λ id status error now r below.
            omega (arith, below, (update_status-messages id status error now r).1))
          claim_idle to_text execute meanwhile
          (λ r below. run-next_id claim_idle to_text message.id r meanwhile below) message.payload
          now q n in
      rw
        (settle-acknowledges message now handled.0 handled.1
          (handle_message-answers claim_idle to_text execute meanwhile message.payload now q h))
        (acknowledged_never claim_idle to_text message.id now later asked count handled.0 cs under)

  -- The handling of the message that was put into the queue with a task that is not aborted.
  module _ (task_id session_id : String) (parent : Option String) (retry_count created now : ℕ)
      (q : Queue) (task : AgentTask) (named : is_empty task_id ≡ false)
      (in_session : is_empty session_id ≡ false) (there : get_task task_id q ≡ some task)
      (runs : is_aborted task ≡ false) where
    -- The queue when the execution ends.
    abbrev pub at_end : Queue
    at_end = run claim_idle to_text (mark_running task_id now q).1 meanwhile

    abbrev queued_payload : Dict String String
    queued_payload = payload_of to_text (new_task task_id session_id parent retry_count created)

    handle_message-queued :
        handle_message claim_idle to_text execute meanwhile queued_payload now q
        ≡ conclude task_id now (after_execution task_id now at_end (execute session_id))
    unfolding handle_message payload_of new_task Dict.get_or handle_found execute_task
    handle_message-queued = rw (named, in_session, there, runs) refl

    -- A task that was cancelled during an execution that ends without a blocked step or an error keeps
    -- its status, while the message is acknowledged.
    pub handle_message-stopped :
        (events : List ExecutionEvent) (task' : AgentTask)
        → execute session_id ≡ finished events
        → find_blocked events ≡ none
        → find_error events ≡ none
        → get_task task_id at_end ≡ some task'
        → is_aborted task' ≡ true
        → handle_message claim_idle to_text execute meanwhile queued_payload now q
          ≡ (at_end, some true)
    unfolding after_execution after_events conclude is_stopped
    handle_message-stopped events task' e blocked error h aborted =
        handle_message-queued ∙ rw (e, after_events, blocked, error, is_stopped, h, aborted) refl

    -- A task that was cancelled during an execution that raises is failed then: the status of the
    -- cancelling is lost.
    pub handle_message-revives :
        (text : String) (task' : AgentTask)
        → execute session_id ≡ raised text
        → get_task task_id at_end ≡ some task'
        → is_aborted task' ≡ true
        → get_task task_id
            (handle_message claim_idle to_text execute meanwhile queued_payload now q).0
          ≡ some (marked task' AgentTaskStatus.failed (some text) now)
    unfolding after_execution conclude mark_failed
    handle_message-revives text task' e h aborted =
        ap (λ (r : Queue × Option Bool). get_task task_id r.0) handle_message-queued
        ∙ rw e (update_status-marked task_id AgentTaskStatus.failed (some text) now at_end task' h)

    interrupted-keeps :
        (id : ℕ)
        → execute session_id ≡ cancelled
        → is_stopped (get_task task_id at_end) ≡ false
        → process_message claim_idle to_text execute meanwhile
            (record { id = id; payload = queued_payload })
            now
            q
          ≡ at_end
    unfolding process_message payload_of new_task Dict.get_or after_execution conclude settle
    interrupted-keeps id e shutdown =
        ap (settle (record { id = id; payload = queued_payload }) now) (
          handle_message-queued
          ∙ ap (λ end. conclude task_id now (after_execution task_id now at_end end)) e)
        ∙ rw (settle, named, shutdown) refl

    -- Where the process is shut down during the execution of a task that nobody stopped, the next
    -- process polls every message that was not acknowledged, the message of the task like the others,
    -- in the order of their enqueueing.
    pub process_message-recovers :
        (id n later : ℕ)
        → execute session_id ≡ cancelled
        → is_stopped (get_task task_id at_end) ≡ false
        → IsNumbered q
        → polls n later (
            start (
              process_message claim_idle to_text execute meanwhile
                (record { id = id; payload = queued_payload })
                now
                q))
          ≡ take n (map to_message (keep_if (λ m. is_null m.acknowledged_at) at_end.messages))
    unfolding mark_running update_status
    process_message-recovers id n later e shutdown v = rw (interrupted-keeps id e shutdown) (
        start-polls n later at_end
          (run-IsNumbered claim_idle to_text _ meanwhile (running-IsNumbered v)))
      where
        running-IsNumbered : IsNumbered q → IsNumbered (mark_running task_id now q).1
        running-IsNumbered v =
            step-IsNumbered claim_idle to_text q (marks task_id AgentTaskStatus.running none now) v
