-- ===== src/Tasks/Queue/Retry.antt =====
-- What a retry adds to the queue.
use text.Mathlib.TextEquality.{eq_iff}
use atlas_agent_control_plan.Prelude.{
  ℕ, ◌+◌, String, true, false, ◌≡◌, refl, ap, ◌∙◌, sym, subst, none, some, List, [], ◌∷◌, ◌++◌,
  arith, string_eq, ◌==◌, Bool-cases, inl, inr,
}
use atlas_agent_control_plan.Prelude.Dict.{Dict}
use atlas_agent_control_plan.Tasks.Entities.{AgentTask}
use atlas_agent_control_plan.Tasks.Queue.{
  Queue, TaskRow, MessageRow, text_or_none, to_row, to_task, upsert, write_task, find_row, get_task,
  retry_task, retry_found, enqueue_execute_plan, new_task, payload_of, insert_message,
  is_retryable_status,
}
use atlas_agent_control_plan.Tasks.Queue.Table.{get_task-id, find_row-upsert-other}

find_row-upsert-new :
    (new : TaskRow) (rows : List TaskRow)
    → find_row new.id rows ≡ none
    → find_row new.id (upsert new rows) ≡ some (to_task new)
unfolding find_row upsert
find_row-upsert-new new [] h = rw ((eq_iff new.id new.id).1 refl) refl
find_row-upsert-new new (row ∷ rows) h = elim (Bool-cases (row.id == new.id)) [
  | inl same ↦ absurd (ground (arith, rw same at h))
  | inr differs ↦ rw (differs, differs) (find_row-upsert-new new rows (rw differs at h))
]

-- The task of a retry as it is read: a task without an identifier is no parent.
abbrev pub retry_of : String → String → AgentTask → ℕ → AgentTask
retry_of new_id id task now =
    new_task new_id task.session_id (text_or_none id) (task.retry_count + 1) now

abbrev pub message_of : ℕ → (ℕ → String) → AgentTask → ℕ → MessageRow
message_of id to_text task now = record {
  id = id;
  payload = payload_of to_text task;
  enqueued_at = now;
  reserved_at = none;
  acknowledged_at = none;
}

abbrev queued_by : String → String → AgentTask → ℕ → AgentTask
queued_by new_id id task now = new_task new_id task.session_id (some id) (task.retry_count + 1) now

retry-again :
    (to_text : ℕ → String) (new_id id : String) (now : ℕ) (q : Queue) (task : AgentTask)
    → get_task id q ≡ some task
    → is_retryable_status task.status ≡ true
    → retry_task to_text new_id id now q ≡ (
      some (queued_by new_id id task now),
      insert_message
          (payload_of to_text (queued_by new_id id task now))
          now
          (write_task (queued_by new_id id task now) q),
    )
unfolding retry_task retry_found enqueue_execute_plan
retry-again to_text new_id id now q task h again =
    ap (retry_found to_text new_id now q) h
    ∙ rw again (
        ap
          (λ i. (
            some (queued_by new_id i task now),
            insert_message (payload_of to_text (queued_by new_id i task now)) now
                (write_task (queued_by new_id i task now) q),
          ))
          (get_task-id id q task h))

get-queued :
    (new_id id : String) (now : ℕ) (payload : Dict String String) (q : Queue) (task : AgentTask)
    → get_task new_id q ≡ none
    → get_task new_id (insert_message payload now (write_task (queued_by new_id id task now) q))
      ≡ some (retry_of new_id id task now)
unfolding get_task insert_message write_task new_task to_row to_task
get-queued new_id id now payload q task fresh =
    find_row-upsert-new (to_row (queued_by new_id id task now)) q.tasks fresh

get-queued-other :
    (new_id id other : String) (now : ℕ) (payload : Dict String String) (q : Queue)
    (task : AgentTask)
    → (new_id == other) ≡ false
    → get_task other (insert_message payload now (write_task (queued_by new_id id task now) q))
      ≡ get_task other q
unfolding get_task insert_message write_task new_task to_row
get-queued-other new_id id other now payload q task apart =
    find_row-upsert-other other (to_row (queued_by new_id id task now)) q.tasks apart

inserted :
    (payload : Dict String String) (now : ℕ) (q : Queue) (task : AgentTask)
    → (insert_message payload now (write_task task q)).messages
      ≡ q.messages
        ++ record {
          id = q.next_id;
          payload = payload;
          enqueued_at = now;
          reserved_at = none;
          acknowledged_at = none;
        }
          ∷ []
unfolding insert_message write_task
inserted payload now q task = refl

apart_ids :
    (new_id id : String) (q : Queue) (task : AgentTask)
    → get_task id q ≡ some task
    → get_task new_id q ≡ none
    → (new_id == id) ≡ false
apart_ids new_id id q task h fresh = elim (Bool-cases (new_id == id)) [
  | inr apart ↦ apart
  | inl same ↦ absurd (
      ground (
        arith,
        sym fresh ∙ subst (λ i. get_task i q ≡ some task) (sym ((eq_iff new_id id).0 same)) h,
      ))
]

-- A retry of a failed, stopped or cancelled task under a new identifier leaves the task as it was,
-- and adds a queued task with one retry more and the task as its parent, whose message is the last
-- one and is pending.
pub retry_task-queues :
    (to_text : ℕ → String) (new_id id : String) (now : ℕ) (q : Queue) (task : AgentTask)
    → get_task id q ≡ some task
    → is_retryable_status task.status ≡ true
    → get_task new_id q ≡ none
    → (get_task new_id (retry_task to_text new_id id now q).1 ≡ some (retry_of new_id id task now))
      × (get_task id (retry_task to_text new_id id now q).1 ≡ some task)
      × ((retry_task to_text new_id id now q).1.messages
          ≡ q.messages
            ++ message_of q.next_id to_text
                (new_task new_id task.session_id (some id) (task.retry_count + 1) now)
                now
              ∷ [])
retry_task-queues to_text new_id id now q task h again fresh =
    let payload = payload_of to_text (queued_by new_id id task now) in
    rw (retry-again to_text new_id id now q task h again) (
      get-queued new_id id now payload q task fresh,
      get-queued-other new_id id id now payload q task (apart_ids new_id id q task h fresh) ∙ h,
      inserted payload now q (queued_by new_id id task now),
    )

-- Only a task at a terminal status is retried; any other task, and a completed one, is answered as it
-- is with the queue as it was.
pub retry_task-refused :
    (to_text : ℕ → String) (new_id id : String) (now : ℕ) (q : Queue) (task : AgentTask)
    → get_task id q ≡ some task
    → is_retryable_status task.status ≡ false
    → retry_task to_text new_id id now q ≡ (some task, q)
unfolding retry_task retry_found
retry_task-refused to_text new_id id now q task h refused =
    ap (retry_found to_text new_id now q) h ∙ rw refused refl
