-- ===== src/Tasks/Runner.antt =====
-- backend/api/app/application/agent_task_runner.py: one message from the queue to its
-- acknowledgement, and the messages that a poll starts. `execute` is how the execution of a session's
-- latest plan ends, and `meanwhile` are the calls of the queue that others make during it.
pub mod Laws
pub mod Claims
pub mod Polls
mod Examples
use Prim.Native.String
use atlas_agent_control_plan.Prelude.{
  ℕ, String, Bool, true, false, not, ◌&&◌, ◌||◌, Option, none, some, List, [], ◌∷◌, ◌++◌, contains,
  string_eq, ◌==◌, if◌then◌else◌,
}
use atlas_agent_control_plan.Prelude.Dict
use atlas_agent_control_plan.Prelude.Dict.{Dict}
use atlas_agent_control_plan.Prelude.Int.{pos}
use atlas_agent_control_plan.Prelude.Text.{is_empty}
use atlas_agent_control_plan.Tasks.Entities.{AgentTask, QueuedTaskMessage, is_aborted}
use atlas_agent_control_plan.Tasks.Queue.{
  Queue, get_task, mark_running, mark_waiting, mark_succeeded, mark_failed, acknowledge,
  reserve_messages, reclaim_stale_messages,
}
use atlas_agent_control_plan.Tasks.Queue.Calls.{Call, run}

-- The events of an execution that are looked for, with the text of their payload.
pub data ExecutionEvent : Type 0 where
  step_blocked task_error : String → ExecutionEvent
  other_event : ExecutionEvent

-- The execution returns, raises, or its coroutine is cancelled.
pub data ExecutionEnd : Type 0 where
  finished : List ExecutionEvent → ExecutionEnd
  raised : String → ExecutionEnd
  cancelled : ExecutionEnd

-- text or default
unfoldable pub text_or : String → String → String
text_or text default = if is_empty text then default else text

-- _find_event for step_blocked, and for task_error
unfoldable pub find_blocked : List ExecutionEvent → Option String
find_blocked [] = none
find_blocked (step_blocked text ∷ events) = some text
find_blocked (event ∷ events) = find_blocked events

unfoldable pub find_error : List ExecutionEvent → Option String
find_error [] = none
find_error (task_error text ∷ events) = some text
find_error (event ∷ events) = find_error events

-- How _execute_task ends: its Boolean, an exception, or the cancellation.
pub data TaskEnd : Type 0 where
  completed : Bool → TaskEnd
  failing : String → TaskEnd
  interrupted : TaskEnd

unfoldable pub after_events : String → ℕ → Queue → List ExecutionEvent → Queue × TaskEnd
unfolding find_blocked find_error text_or
after_events task_id now q events = elim (find_blocked events) [
  | some summary ↦
      ((mark_waiting task_id (some (text_or summary "approval required")) now q).1, completed false)
  | none ↦ elim (find_error events) [
    | some message ↦ (q, failing (text_or message "task failed"))
    | none ↦ (q, completed true)
  ]
]

unfoldable pub after_execution : String → ℕ → Queue → ExecutionEnd → Queue × TaskEnd
unfolding after_events
after_execution task_id now q (finished events) = after_events task_id now q events
after_execution task_id now q (raised error) = (q, failing error)
after_execution task_id now q cancelled = (q, interrupted)

-- The end of _handle_message after the execution: the Boolean it returns, or the cancellation.
unfoldable pub is_stopped : Option AgentTask → Bool
unfolding is_aborted
is_stopped none = false
is_stopped (some task) = is_aborted task

unfoldable pub conclude : String → ℕ → Queue × TaskEnd → Queue × Option Bool
unfolding is_stopped
conclude task_id now (q, failing error) = ((mark_failed task_id error now q).1, some true)
conclude task_id now (q, interrupted) = (q, none)
conclude task_id now (q, completed false) = (q, some true)
conclude task_id now (q, completed true) =
    if is_stopped (get_task task_id q)
    then (q, some true)
    else ((mark_succeeded task_id now q).1, some true)

-- The `except` and the `finally` of _process_message.
unfoldable pub settle : QueuedTaskMessage → ℕ → Queue × Option Bool → Queue
unfolding is_stopped
settle message now (q, some should_acknowledge) =
    if should_acknowledge then acknowledge message.id now q else q
settle message now (q, none) =
    let task_id = Dict.get_or "task_id" message.payload "" in
    if not (is_empty task_id) && is_stopped (get_task task_id q)
    then acknowledge message.id now q
    else q

module _ (claim_idle : ℕ) (to_text : ℕ → String) (execute : String → ExecutionEnd)
    (meanwhile : List Call) where
  unfoldable pub execute_task : String → String → String → ℕ → Queue → Queue × TaskEnd
  unfolding after_execution
  execute_task task_id task_type session_id_text now q =
      if task_type == "execute_plan"
      then after_execution task_id now (run claim_idle to_text q meanwhile)
          (execute session_id_text)
      else (q, failing (String.◌++◌ "unsupported task type: " task_type))

  unfoldable pub handle_found :
      String → String → String → ℕ → Queue → Option AgentTask → Queue × Option Bool
  unfolding execute_task conclude
  handle_found task_id task_type session_id_text now q none = (q, some true)
  handle_found task_id task_type session_id_text now q (some task) =
      if is_aborted task
      then (q, some true)
      else conclude task_id now
          (execute_task task_id task_type session_id_text now (mark_running task_id now q).1)

  unfoldable pub handle_message : Dict String String → ℕ → Queue → Queue × Option Bool
  unfolding handle_found
  handle_message payload now q =
      let task_id = Dict.get_or "task_id" payload "" in
      let task_type = Dict.get_or "type" payload "" in
      let session_id_text = Dict.get_or "session_id" payload "" in
      if is_empty task_id || is_empty session_id_text
      then (q, some true)
      else handle_found task_id task_type session_id_text now q (get_task task_id q)

  unfoldable pub process_message : QueuedTaskMessage → ℕ → Queue → Queue
  unfolding handle_message settle
  process_message message now q = settle message now (handle_message message.payload now q)

module _ (to_text : ℕ → String) where
  -- payload.get("task_id") or message.id
  unfoldable pub task_key : QueuedTaskMessage → String
  unfolding text_or
  task_key message = text_or (Dict.get_or "task_id" message.payload "") (to_text message.id)

  -- _start_message for each message: the task ids that are active then, and the messages started
  unfoldable pub start_messages :
      List QueuedTaskMessage → List String → List String × List QueuedTaskMessage
  unfolding task_key
  start_messages [] active = (active, [])
  start_messages (message ∷ messages) active =
      if contains (task_key message) active
      then start_messages messages active
      else (let (active', started) = start_messages messages (active ++ task_key message ∷ []) in
          (active', message ∷ started))

  -- One round of _run_loop: reclaim, then reserve one, where no task ends while the queue is asked.
  unfoldable pub poll :
      ℕ → ℕ → ℕ → Queue → List String → Queue × List String × List QueuedTaskMessage
  unfolding start_messages
  poll claim_idle asked now q active =
      let (stale, q') = reclaim_stale_messages claim_idle (pos 100) asked now q in
      let (active', restarted) = start_messages stale active in
      let (fresh, q'') = reserve_messages (pos 1) now q' in
      let (active'', started) = start_messages fresh active' in
      (q'', active'', restarted ++ started)
