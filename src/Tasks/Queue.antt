-- ===== src/Tasks/Queue.antt =====
-- backend/api/app/infrastructure/tasks/local_queue.py: the two tables of the queue as lists in the
-- order of their row ids. `now` is what a call reads from the clock, `task_id` what uuid4 answers and
-- `to_text` is str of a number; the lock makes each call one step.
pub mod Messages
pub mod Calls
pub mod Contract
pub mod Recovery
pub mod Table
pub mod Retry
pub mod Examples
pub mod Histories
use atlas_agent_control_plan.Prelude.{
  ℕ, ◌+◌, String, Bool, true, false, not, ◌&&◌, Option, none, some, List, [], ◌∷◌, ◌++◌, map, take,
  keep_if, count_if, contains, leb, ltb, max, string_eq, nat_eq, ◌==◌, if◌then◌else◌,
}
use atlas_agent_control_plan.Prelude.Dict.{Dict}
use atlas_agent_control_plan.Prelude.Int.{ℤ, pos_part}
use atlas_agent_control_plan.Prelude.Text.{is_empty}
use atlas_agent_control_plan.Tasks.Entities.{
  AgentTaskStatus, AgentTask, QueuedTaskMessage, is_terminal,
}

-- A row of agent_queue_tasks; the status stands for its value.
pub record TaskRow : Type 0 where
  pub id : String
  pub session_id : String
  pub type : String
  pub status : AgentTaskStatus
  pub error : String
  pub created_at : ℕ
  pub updated_at : ℕ
  pub parent_task_id : String
  pub retry_count : ℕ

-- A row of agent_queue_messages; the payload stands for its JSON text.
pub record MessageRow : Type 0 where
  pub id : ℕ
  pub payload : Dict String String
  pub enqueued_at : ℕ
  pub reserved_at : Option ℕ
  pub acknowledged_at : Option ℕ

-- `next_id` is the counter of AUTOINCREMENT.
pub record Queue : Type 0 where
  pub tasks : List TaskRow
  pub messages : List MessageRow
  pub next_id : ℕ

-- IS NULL
unfoldable pub is_null : Option ℕ → Bool
is_null none = true
is_null (some t) = false

unfoldable pub release : MessageRow → MessageRow
unfolding is_null
release m = if is_null m.acknowledged_at then record m { reserved_at = none } else m

unfoldable pub start : Queue → Queue
unfolding release
start q = record q { messages = map release q.messages }

-- The WHERE of reserve_messages.
unfoldable pub is_pending : MessageRow → Bool
unfolding is_null
is_pending m = is_null m.acknowledged_at && is_null m.reserved_at

unfoldable pub reserved_before : ℕ → ℕ → Option ℕ → Bool
reserved_before asked claim_idle none = false
reserved_before asked claim_idle (some reserved) = ltb (reserved + claim_idle) asked

-- The WHERE of reclaim_stale_messages: reserved_at < asked - claim_idle.
unfoldable pub is_stale : ℕ → ℕ → MessageRow → Bool
unfolding is_null reserved_before
is_stale asked claim_idle m =
    is_null m.acknowledged_at && reserved_before asked claim_idle m.reserved_at

-- UPDATE ... SET reserved_at = now, for each id of `ids`
unfoldable pub reserve_row : List ℕ → ℕ → MessageRow → MessageRow
reserve_row ids now m = if contains m.id ids then record m { reserved_at = some now } else m

-- LIMIT max(1, count)
unfoldable pub limit_of : ℤ → ℕ
limit_of count = max 1 (pos_part count)

-- The ids of some rows.
abbrev pub ids_of : List MessageRow → List ℕ
ids_of rows = map (λ m. m.id) rows

unfoldable pub to_message : MessageRow → QueuedTaskMessage
to_message m = record { id = m.id; payload = m.payload }

-- The rows that are read, marked as reserved and handed out.
unfoldable pub hand_out : List MessageRow → ℕ → Queue → List QueuedTaskMessage × Queue
unfolding reserve_row to_message
hand_out rows now q =
    (map to_message rows, record q { messages = map (reserve_row (ids_of rows) now) q.messages })

unfoldable pub reserve_messages : ℤ → ℕ → Queue → List QueuedTaskMessage × Queue
unfolding hand_out is_pending limit_of
reserve_messages count now q =
    hand_out (take (limit_of count) (keep_if is_pending q.messages)) now q

unfoldable pub reclaim_stale_messages : ℕ → ℤ → ℕ → ℕ → Queue → List QueuedTaskMessage × Queue
unfolding hand_out is_stale limit_of
reclaim_stale_messages claim_idle count asked now q =
    hand_out (take (limit_of count) (keep_if (is_stale asked claim_idle) q.messages)) now q

unfoldable pub acknowledge_row : ℕ → ℕ → MessageRow → MessageRow
acknowledge_row message_id now m =
    if m.id == message_id then record m { acknowledged_at = some now } else m

unfoldable pub acknowledge : ℕ → ℕ → Queue → Queue
unfolding acknowledge_row
acknowledge message_id now q = record q {
  messages = map (acknowledge_row message_id now) q.messages;
}

-- text or None, and value or ""
unfoldable pub text_or_none : String → Option String
text_or_none text = if is_empty text then none else some text

unfoldable pub or_empty : Option String → String
or_empty none = ""
or_empty (some text) = text

unfoldable pub to_row : AgentTask → TaskRow
unfolding or_empty
to_row task = record {
  id = task.id;
  session_id = task.session_id;
  type = task.type;
  status = task.status;
  error = or_empty task.error;
  created_at = task.created_at;
  updated_at = task.updated_at;
  parent_task_id = or_empty task.parent_task_id;
  retry_count = task.retry_count;
}

-- _to_task
unfoldable pub to_task : TaskRow → AgentTask
unfolding text_or_none
to_task row = record {
  id = row.id;
  session_id = row.session_id;
  type = row.type;
  status = row.status;
  error = text_or_none row.error;
  created_at = row.created_at;
  updated_at = row.updated_at;
  parent_task_id = text_or_none row.parent_task_id;
  retry_count = row.retry_count;
}

-- INSERT ... ON CONFLICT(id) DO UPDATE
unfoldable pub upsert : TaskRow → List TaskRow → List TaskRow
upsert new [] = new ∷ []
upsert new (row ∷ rows) =
    if row.id == new.id
    then record row { status = new.status; error = new.error; updated_at = new.updated_at } ∷ rows
    else row ∷ upsert new rows

-- _write_task
unfoldable pub write_task : AgentTask → Queue → Queue
unfolding upsert to_row
write_task task q = record q { tasks = upsert (to_row task) q.tasks }

unfoldable pub find_row : String → List TaskRow → Option AgentTask
unfolding to_task
find_row task_id [] = none
find_row task_id (row ∷ rows) =
    if row.id == task_id then some (to_task row) else find_row task_id rows

-- _read_task and get_task
unfoldable pub get_task : String → Queue → Option AgentTask
unfolding find_row
get_task task_id q = find_row task_id q.tasks

-- The task and the payload of its message.
unfoldable pub new_task : String → String → Option String → ℕ → ℕ → AgentTask
new_task task_id session_id parent_task_id retry_count now = record {
  id = task_id;
  session_id = session_id;
  type = "execute_plan";
  status = AgentTaskStatus.queued;
  error = none;
  created_at = now;
  updated_at = now;
  parent_task_id = parent_task_id;
  retry_count = retry_count;
}

unfoldable pub payload_of : (ℕ → String) → AgentTask → Dict String String
unfolding or_empty
payload_of to_text task =
    ("task_id", task.id)
    ∷ ("session_id", task.session_id)
    ∷ ("type", task.type)
    ∷ ("parent_task_id", or_empty task.parent_task_id)
    ∷ ("retry_count", to_text task.retry_count)
    ∷ []

unfoldable pub insert_message : Dict String String → ℕ → Queue → Queue
insert_message payload now q = record q {
  messages =
      q.messages
      ++ record {
        id = q.next_id;
        payload = payload;
        enqueued_at = now;
        reserved_at = none;
        acknowledged_at = none;
      }
        ∷ [];
  next_id = q.next_id + 1;
}

unfoldable pub enqueue_execute_plan :
    (ℕ → String) → String → String → Option String → ℕ → ℕ → Queue → AgentTask × Queue
unfolding new_task payload_of insert_message write_task
enqueue_execute_plan to_text task_id session_id parent_task_id retry_count now q =
    let task = new_task task_id session_id parent_task_id retry_count now in
    (task, insert_message (payload_of to_text task) now (write_task task q))

-- ORDER BY created_at DESC, rowid DESC LIMIT 1
unfoldable pub later_of : TaskRow → Option TaskRow → Option TaskRow
later_of row none = some row
later_of row (some later) = if leb row.created_at later.created_at then some later else some row

unfoldable pub newest_row : String → List TaskRow → Option TaskRow
unfolding later_of
newest_row session_id [] = none
newest_row session_id (row ∷ rows) =
    let later = newest_row session_id rows in
    if row.session_id == session_id then later_of row later else later

unfoldable pub recover_session_task : String → Queue → Option AgentTask
unfolding newest_row to_task
recover_session_task session_id q = elim (newest_row session_id q.tasks) [
  | none ↦ none
  | some row ↦ some (to_task row)
]

unfoldable pub cancel_found : ℕ → Queue → Option AgentTask → Option AgentTask × Queue
unfolding is_terminal write_task
cancel_found now q none = (none, q)
cancel_found now q (some task) =
    if is_terminal task
    then (some task, q)
    else (let stopped = record task { status = AgentTaskStatus.stopped; updated_at = now } in
        (some stopped, write_task stopped q))

unfoldable pub cancel_task : String → ℕ → Queue → Option AgentTask × Queue
unfolding cancel_found get_task
cancel_task task_id now q = cancel_found now q (get_task task_id q)

-- task.status in {failed, stopped, cancelled}
unfoldable pub is_retryable_status : AgentTaskStatus → Bool
is_retryable_status AgentTaskStatus.failed = true
is_retryable_status AgentTaskStatus.stopped = true
is_retryable_status AgentTaskStatus.cancelled = true
is_retryable_status _ = false

unfoldable pub retry_found :
    (ℕ → String) → String → ℕ → Queue → Option AgentTask → Option AgentTask × Queue
unfolding is_retryable_status enqueue_execute_plan
retry_found to_text new_id now q none = (none, q)
retry_found to_text new_id now q (some task) =
    if is_retryable_status task.status
    then (let (task', q') =
          enqueue_execute_plan to_text new_id task.session_id (some task.id) (task.retry_count + 1)
            now q in
        (some task', q'))
    else (some task, q)

unfoldable pub retry_task : (ℕ → String) → String → String → ℕ → Queue → Option AgentTask × Queue
unfolding retry_found get_task
retry_task to_text new_id task_id now q = retry_found to_text new_id now q (get_task task_id q)

unfoldable pub update_found :
    AgentTaskStatus → Option String → ℕ → Queue → Option AgentTask → Option AgentTask × Queue
unfolding write_task
update_found status error now q none = (none, q)
update_found status error now q (some task) =
    let updated = record task { status = status; error = error; updated_at = now } in
    (some updated, write_task updated q)

-- _update_status
unfoldable pub update_status :
    String → AgentTaskStatus → Option String → ℕ → Queue → Option AgentTask × Queue
unfolding update_found get_task
update_status task_id status error now q = update_found status error now q (get_task task_id q)

unfoldable pub mark_running : String → ℕ → Queue → Option AgentTask × Queue
unfolding update_status
mark_running task_id now q = update_status task_id AgentTaskStatus.running none now q

unfoldable pub mark_waiting : String → Option String → ℕ → Queue → Option AgentTask × Queue
unfolding update_status
mark_waiting task_id reason now q = update_status task_id AgentTaskStatus.waiting reason now q

unfoldable pub mark_succeeded : String → ℕ → Queue → Option AgentTask × Queue
unfolding update_status
mark_succeeded task_id now q = update_status task_id AgentTaskStatus.completed none now q

unfoldable pub mark_failed : String → String → ℕ → Queue → Option AgentTask × Queue
unfolding update_status
mark_failed task_id error now q = update_status task_id AgentTaskStatus.failed (some error) now q

-- The count of health.
unfoldable pub pending_count : Queue → ℕ
unfolding is_null
pending_count q = count_if (λ m. is_null m.acknowledged_at) q.messages
