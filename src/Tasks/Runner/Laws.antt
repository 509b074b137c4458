-- ===== src/Tasks/Runner/Laws.antt =====
-- What processing a message leaves: the acknowledgement, and the status of a task that was stopped.
use atlas_agent_control_plan.Prelude.{
  ℕ, String, Bool, true, false, ◌||◌, ◌≡◌, refl, Option, none, some, List, string_eq, nat_eq, ◌==◌,
  Bool-cases, Option-cases, inl, inr,
}
use atlas_agent_control_plan.Prelude.Dict
use atlas_agent_control_plan.Prelude.Dict.{Dict}
use atlas_agent_control_plan.Prelude.Text.{is_empty}
use atlas_agent_control_plan.Tasks.Entities.{
  AgentTaskStatus, AgentTask, QueuedTaskMessage, is_aborted,
}
use atlas_agent_control_plan.Tasks.Queue.{
  Queue, get_task, mark_running, mark_failed, mark_waiting, mark_succeeded, acknowledge, write_task,
  update_status, update_found,
}
use atlas_agent_control_plan.Tasks.Queue.Calls.{Call, run}
use atlas_agent_control_plan.Tasks.Runner.{
  ExecutionEnd, finished, raised, cancelled, ExecutionEvent, TaskEnd, completed, failing,
  interrupted, find_blocked, find_error, after_events, after_execution, is_stopped, conclude,
  execute_task, handle_found, handle_message, settle,
}

-- Whether the coroutine of the execution is cancelled.
abbrev pub is_cancelled : ExecutionEnd → Bool
is_cancelled cancelled = true
is_cancelled _ = false

after_events-answers :
    (task_id : String) (now : ℕ) (q : Queue) (events : List ExecutionEvent)
    → (conclude task_id now (after_events task_id now q events)).1 ≡ some true
unfolding after_events conclude
after_events-answers task_id now q events = elim (Option-cases (find_blocked events)) [
  | inr (summary, e) ↦ rw (after_events, e) refl
  | inl e ↦ elim (Option-cases (find_error events)) [
    | inr (message, f) ↦ rw (after_events, e, f) refl
    | inl f ↦
        rw (after_events, e, f)
          (elim (Bool-cases (is_stopped (get_task task_id q))) [
            | inl stopped ↦ rw stopped refl
            | inr runs ↦ rw runs refl
          ])
  ]
]

after_execution-answers :
    (task_id : String) (now : ℕ) (q : Queue) (answer : ExecutionEnd)
    → is_cancelled answer ≡ false
    → (conclude task_id now (after_execution task_id now q answer)).1 ≡ some true
unfolding after_execution conclude
after_execution-answers task_id now q (finished events) h =
    after_events-answers task_id now q events
after_execution-answers task_id now q (raised error) h = refl
after_execution-answers task_id now q cancelled h = cc

module _ (claim_idle : ℕ) (to_text : ℕ → String) (execute : String → ExecutionEnd)
    (meanwhile : List Call) where
  handle_found-answers :
      (task_id task_type session_id_text : String) (now : ℕ) (q : Queue) (found : Option AgentTask)
      → is_cancelled (execute session_id_text) ≡ false
      → (handle_found claim_idle to_text execute meanwhile task_id task_type session_id_text now q
          found).1
        ≡ some true
  unfolding handle_found execute_task conclude
  handle_found-answers task_id task_type session_id_text now q none h = refl
  handle_found-answers task_id task_type session_id_text now q (some task) h =
      elim (Bool-cases (is_aborted task)) [
        | inl aborted ↦ rw aborted refl
        | inr runs ↦ rw runs (elim (Bool-cases (task_type == "execute_plan")) [
          | inl known ↦ rw known (after_execution-answers task_id now _ (execute session_id_text) h)
          | inr unknown ↦ rw unknown refl
        ])
      ]

  pub handle_message-answers :
      (payload : Dict String String) (now : ℕ) (q : Queue)
      → is_cancelled (execute (Dict.get_or "session_id" payload "")) ≡ false
      → (handle_message claim_idle to_text execute meanwhile payload now q).1 ≡ some true
  unfolding handle_message
  handle_message-answers payload now q h =
      elim (Bool-cases (
        is_empty (Dict.get_or "task_id" payload "")
        || is_empty (Dict.get_or "session_id" payload ""))) [
          | inl blank ↦ rw blank refl
          | inr named ↦ rw named (
              handle_found-answers (Dict.get_or "task_id" payload "")
                (Dict.get_or "type" payload "") (Dict.get_or "session_id" payload "") now q
                (get_task (Dict.get_or "task_id" payload "") q) h)
        ]

pub settle-acknowledges :
    (message : QueuedTaskMessage) (now : ℕ) (q : Queue) (answer : Option Bool)
    → answer ≡ some true
    → settle message now (q, answer) ≡ acknowledge message.id now q
unfolding settle
settle-acknowledges message now q answer h = rw (settle, h) refl

pub update_status-messages :
    (id : String) (status : AgentTaskStatus) (error : Option String) (now : ℕ) (q : Queue)
    → ((update_status id status error now q).1.messages ≡ q.messages)
      × ((update_status id status error now q).1.next_id ≡ q.next_id)
unfolding update_status update_found write_task
update_status-messages id status error now q = elim (Option-cases (get_task id q)) [
  | inl missing ↦ rw (update_found, missing) (refl, refl)
  | inr (task, h) ↦ rw (update_found, h) (refl, refl)
]

-- The queue at the end of the handling, where a part of it kept a fact that marks keep.
module _ (P : Queue → Type 0)
    (marks : (id : String) (status : AgentTaskStatus) (error : Option String) (now : ℕ) (q : Queue)
      → P q
      → P (update_status id status error now q).1) where
  conclude-keeps :
      (task_id : String) (now : ℕ) (q : Queue) (end : TaskEnd)
      → P q
      → P (conclude task_id now (q, end)).0
  unfolding conclude mark_failed mark_succeeded
  conclude-keeps task_id now q (failing error) h = marks task_id _ _ now q h
  conclude-keeps task_id now q interrupted h = h
  conclude-keeps task_id now q (completed false) h = h
  conclude-keeps task_id now q (completed true) h =
      elim (Bool-cases (is_stopped (get_task task_id q))) [
        | inl stopped ↦ rw stopped h
        | inr runs ↦ rw runs (marks task_id _ _ now q h)
      ]

  after_events-keeps :
      (task_id : String) (now : ℕ) (q : Queue) (events : List ExecutionEvent)
      → P q
      → P (conclude task_id now (after_events task_id now q events)).0
  unfolding after_events mark_waiting
  after_events-keeps task_id now q events h = elim (Option-cases (find_blocked events)) [
    | inr (summary, e) ↦
        rw (after_events, e)
          (conclude-keeps task_id now _ (completed false) (marks task_id _ _ now q h))
    | inl e ↦ elim (Option-cases (find_error events)) [
      | inr (message, f) ↦ rw (after_events, e, f) (conclude-keeps task_id now q _ h)
      | inl f ↦ rw (after_events, e, f) (conclude-keeps task_id now q (completed true) h)
    ]
  ]

  after_execution-keeps :
      (task_id : String) (now : ℕ) (q : Queue) (answer : ExecutionEnd)
      → P q
      → P (conclude task_id now (after_execution task_id now q answer)).0
  unfolding after_execution
  after_execution-keeps task_id now q (finished events) h =
      after_events-keeps task_id now q events h
  after_execution-keeps task_id now q (raised error) h = conclude-keeps task_id now q _ h
  after_execution-keeps task_id now q cancelled h = conclude-keeps task_id now q interrupted h

  module _ (claim_idle : ℕ) (to_text : ℕ → String) (execute : String → ExecutionEnd)
      (meanwhile : List Call)
      (calls : (q : Queue) → P q → P (run claim_idle to_text q meanwhile)) where
    execute_task-keeps :
        (task_id task_type session_id_text : String) (now : ℕ) (q : Queue)
        → P q
        → P
            (conclude task_id now (
              execute_task claim_idle to_text execute meanwhile task_id task_type session_id_text
                now q)).0
    unfolding execute_task
    execute_task-keeps task_id task_type session_id_text now q h =
        elim (Bool-cases (task_type == "execute_plan")) [
          | inl known ↦
              rw known (after_execution-keeps task_id now _ (execute session_id_text) (calls q h))
          | inr unknown ↦ rw unknown (conclude-keeps task_id now q _ h)
        ]

    handle_found-keeps :
        (task_id task_type session_id_text : String) (now : ℕ) (q : Queue)
        (found : Option AgentTask)
        → P q
        → P
            (handle_found claim_idle to_text execute meanwhile task_id task_type session_id_text now
              q found).0
    unfolding handle_found mark_running
    handle_found-keeps task_id task_type session_id_text now q none h = h
    handle_found-keeps task_id task_type session_id_text now q (some task) h =
        elim (Bool-cases (is_aborted task)) [
          | inl aborted ↦ rw aborted h
          | inr runs ↦ rw runs (
              execute_task-keeps task_id task_type session_id_text now _
                (marks task_id AgentTaskStatus.running none now q h))
        ]

    pub handle_message-keeps :
        (payload : Dict String String) (now : ℕ) (q : Queue)
        → P q
        → P (handle_message claim_idle to_text execute meanwhile payload now q).0
    unfolding handle_message
    handle_message-keeps payload now q h =
        elim (Bool-cases (
          is_empty (Dict.get_or "task_id" payload "")
          || is_empty (Dict.get_or "session_id" payload ""))) [
            | inl blank ↦ rw blank h
            | inr named ↦ rw named (
                handle_found-keeps (Dict.get_or "task_id" payload "")
                  (Dict.get_or "type" payload "") (Dict.get_or "session_id" payload "") now q
                  (get_task (Dict.get_or "task_id" payload "") q) h)
          ]
