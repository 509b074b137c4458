-- ===== src/Tasks/Queue/Calls.antt =====
-- Histories of calls of the queue, and what every history keeps. `claim_idle` is the setting
-- agent_task_claim_idle_ms in ticks; the four marks are one call with their status.
use atlas_agent_control_plan.Prelude.{
  ℕ, ◌+◌, ◌<◌, String, Bool, true, false, ◌≡◌, refl, Option, none, some, List, [], ◌∷◌, ◌++◌, map,
  take, keep_if, All, nat_eq, Bool-cases, inl, inr,
}
use atlas_agent_control_plan.Prelude.Int.{ℤ}
use atlas_agent_control_plan.Tasks.Entities.{AgentTaskStatus, AgentTask, is_terminal}
use atlas_agent_control_plan.Tasks.Queue.{
  Queue, MessageRow, start, reserve_messages, reclaim_stale_messages, acknowledge,
  enqueue_execute_plan, cancel_task, cancel_found, retry_task, retry_found, update_status,
  update_found, get_task, is_pending, is_stale, release, reserve_row, acknowledge_row, hand_out,
  ids_of, insert_message, write_task, limit_of, is_retryable_status,
}
use atlas_agent_control_plan.Tasks.Queue.Messages.{IsOrdered}

pub data Call : Type 0 where
  starts : Call
  reserves : ℤ → ℕ → Call
  reclaims : ℤ → ℕ → ℕ → Call
  acknowledges : ℕ → ℕ → Call
  enqueues : String → String → Option String → ℕ → ℕ → Call
  cancels : String → ℕ → Call
  retries : String → String → ℕ → Call
  marks : String → AgentTaskStatus → Option String → ℕ → Call

-- Only a new process calls start.
abbrev pub is_start : Call → Bool
is_start starts = true
is_start _ = false

module _ (claim_idle : ℕ) (to_text : ℕ → String) where
  abbrev pub step : Queue → Call → Queue
  step q starts = start q
  step q (reserves count now) = (reserve_messages count now q).1
  step q (reclaims count asked now) = (reclaim_stale_messages claim_idle count asked now q).1
  step q (acknowledges id now) = acknowledge id now q
  step q (enqueues task_id session_id parent_task_id retry_count now) =
      (enqueue_execute_plan to_text task_id session_id parent_task_id retry_count now q).1
  step q (cancels task_id now) = (cancel_task task_id now q).1
  step q (retries new_id task_id now) = (retry_task to_text new_id task_id now q).1
  step q (marks task_id status error now) = (update_status task_id status error now q).1

  abbrev pub run : Queue → List Call → Queue
  run q [] = q
  run q (c ∷ cs) = run (step q c) cs

-- The ids of the messages grow from row to row and stay below the counter.
pub record IsNumbered (q : Queue) : Type 0 where
  pub below : All (λ m. m.id < q.next_id) q.messages
  pub ordered : IsOrdered q.messages

-- What a call does to the messages and the counter: an update of each row that keeps its id, or a new
-- row at the end.
pub data Moves (f : MessageRow → MessageRow) (q r : Queue) : Type 0 where
  updated : r.messages ≡ map f q.messages → r.next_id ≡ q.next_id → Moves f q r
  added :
      (m : MessageRow)
      → r.messages ≡ q.messages ++ m ∷ []
      → m.id ≡ q.next_id
      → r.next_id ≡ q.next_id + 1
      → Moves f q r
  left : r.messages ≡ q.messages → r.next_id ≡ q.next_id → Moves f q r

cancel_found-Moves :
    (f : MessageRow → MessageRow) (now : ℕ) (q : Queue) (found : Option AgentTask)
    → Moves f q (cancel_found now q found).1
unfolding cancel_found write_task
cancel_found-Moves f now q none = left refl refl
cancel_found-Moves f now q (some task) = elim (Bool-cases (is_terminal task)) [
  | inl over ↦ rw over (left refl refl)
  | inr runs ↦ rw runs (left refl refl)
]

retry_found-Moves :
    (f : MessageRow → MessageRow) (to_text : ℕ → String) (new_id : String) (now : ℕ) (q : Queue)
    (found : Option AgentTask)
    → Moves f q (retry_found to_text new_id now q found).1
unfolding retry_found enqueue_execute_plan insert_message write_task
retry_found-Moves f to_text new_id now q none = left refl refl
retry_found-Moves f to_text new_id now q (some task) =
    elim (Bool-cases (is_retryable_status task.status)) [
      | inl again ↦ rw again (added _ refl refl refl)
      | inr keeps ↦ rw keeps (left refl refl)
    ]

update_found-Moves :
    (f : MessageRow → MessageRow) (status : AgentTaskStatus) (error : Option String) (now : ℕ)
    (q : Queue) (found : Option AgentTask)
    → Moves f q (update_found status error now q found).1
unfolding update_found write_task
update_found-Moves f status error now q none = left refl refl
update_found-Moves f status error now q (some task) = left refl refl

module _ (claim_idle : ℕ) (to_text : ℕ → String) where
  -- The update of a row by a call that updates them all.
  abbrev pub row_update : Queue → Call → MessageRow → MessageRow
  row_update q starts m = release m
  row_update q (reserves count now) m =
      reserve_row (ids_of (take (limit_of count) (keep_if is_pending q.messages))) now m
  row_update q (reclaims count asked now) m =
      reserve_row (ids_of (take (limit_of count) (keep_if (is_stale asked claim_idle) q.messages)))
        now m
  row_update q (acknowledges id now) m = acknowledge_row id now m
  row_update q _ m = m

  pub step-Moves : (q : Queue) (c : Call) → Moves (row_update q c) q (step claim_idle to_text q c)
  unfolding start reserve_messages reclaim_stale_messages acknowledge enqueue_execute_plan
      insert_message write_task hand_out cancel_task retry_task update_status
  step-Moves q starts = updated refl refl
  step-Moves q (reserves count now) = updated refl refl
  step-Moves q (reclaims count asked now) = updated refl refl
  step-Moves q (acknowledges id now) = updated refl refl
  step-Moves q (enqueues task_id session_id parent retry_count now) = added _ refl refl refl
  step-Moves q (cancels task_id now) = cancel_found-Moves _ now q (get_task task_id q)
  step-Moves q (retries new_id task_id now) =
      retry_found-Moves _ to_text new_id now q (get_task task_id q)
  step-Moves q (marks task_id status error now) =
      update_found-Moves _ status error now q (get_task task_id q)
