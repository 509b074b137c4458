-- ===== src/Tasks/Queue/Table.antt =====
-- The task table: what cancelling, retrying and marking a task leave to be read.
use mathlib.Core.Option.{some_inj}
use text.Mathlib.TextEquality.{eq_iff}
use atlas_agent_control_plan.Prelude.{
  ℕ, String, true, false, ◌≡◌, refl, ap, ◌∙◌, sym, subst, Option, none, some, List, [], ◌∷◌,
  string_eq, ◌==◌, if◌then◌else◌, Bool-cases, Option-cases, inl, inr,
}
use atlas_agent_control_plan.Tasks.Entities.{AgentTaskStatus, AgentTask, is_terminal}
use atlas_agent_control_plan.Tasks.Queue.{
  Queue, TaskRow, text_or_none, or_empty, to_row, to_task, upsert, write_task, find_row, get_task,
  cancel_task, cancel_found, update_status, update_found,
}

normal_text : (text : String) → text_or_none (or_empty (text_or_none text)) ≡ text_or_none text
unfolding text_or_none or_empty
normal_text String.[] = refl
normal_text (String.◌∷◌ c text) = refl

-- A task as it is read after it was written with a status, an error and a time.
abbrev pub marked : AgentTask → AgentTaskStatus → Option String → ℕ → AgentTask
marked task status error now = record task {
  status = status;
  error = text_or_none (or_empty error);
  updated_at = now;
}

abbrev with_status : AgentTask → AgentTaskStatus → Option String → ℕ → AgentTask
with_status task status error now = record task { status = status; error = error; updated_at = now }

pub find_row-id :
    (id : String) (rows : List TaskRow) (task : AgentTask)
    → find_row id rows ≡ some task
    → task.id ≡ id
unfolding find_row to_task
find_row-id id [] task h = cc
find_row-id id (row ∷ rows) task h = elim (Bool-cases (row.id == id)) [
  | inl same ↦
      sym (ap (λ (t : AgentTask). t.id) (some_inj.0 (rw same at h))) ∙ (eq_iff row.id id).0 same
  | inr differs ↦ find_row-id id rows task (rw differs at h)
]

find_row-upsert :
    (new : TaskRow) (rows : List TaskRow) (task : AgentTask)
    → find_row new.id rows ≡ some task
    → find_row new.id (upsert new rows)
      ≡ some (record task {
        status = new.status;
        error = text_or_none new.error;
        updated_at = new.updated_at;
      })
unfolding find_row upsert to_task
find_row-upsert new [] task h = cc
find_row-upsert new (row ∷ rows) task h = elim (Bool-cases (row.id == new.id)) [
  | inl same ↦
      subst
        (λ (t : AgentTask).
          find_row new.id (upsert new (row ∷ rows))
          ≡ some (record t {
            status = new.status;
            error = text_or_none new.error;
            updated_at = new.updated_at;
          }))
        (some_inj.0 (rw same at h)) (rw (same, same) refl)
  | inr differs ↦ rw (differs, differs) (find_row-upsert new rows task (rw differs at h))
]

pub find_row-upsert-other :
    (other : String) (new : TaskRow) (rows : List TaskRow)
    → (new.id == other) ≡ false
    → find_row other (upsert new rows) ≡ find_row other rows
unfolding find_row upsert to_task
find_row-upsert-other other new [] h = rw h refl
find_row-upsert-other other new (row ∷ rows) h = elim (Bool-cases (row.id == new.id)) [
  | inl same ↦
      let apart = subst (λ id. (id == other) ≡ false) (sym ((eq_iff row.id new.id).0 same)) h in
      rw (same, apart) refl
  | inr differs ↦ rw differs (
      ap (λ rest. if row.id == other then some (to_task row) else rest)
        (find_row-upsert-other other new rows h))
]

-- The task that is read after a write of one that was read.
get-write :
    (id : String) (status : AgentTaskStatus) (error : Option String) (now : ℕ) (q : Queue)
    (task : AgentTask)
    → get_task id q ≡ some task
    → get_task id (write_task (with_status task status error now) q)
      ≡ some (marked task status error now)
unfolding get_task write_task to_row
get-write id status error now q task h =
    let same = find_row-id id q.tasks task h in
    subst
      (λ i.
        find_row i (upsert (to_row (with_status task status error now)) q.tasks)
        ≡ some (marked task status error now))
      same
      (find_row-upsert (to_row (with_status task status error now)) q.tasks task
        (subst (λ i. find_row i q.tasks ≡ some task) (sym same) h))

get-write-other :
    (other : String) (task : AgentTask) (q : Queue)
    → (task.id == other) ≡ false
    → get_task other (write_task task q) ≡ get_task other q
unfolding get_task write_task to_row
get-write-other other task q h = find_row-upsert-other other (to_row task) q.tasks h

pub get_task-id :
    (id : String) (q : Queue) (task : AgentTask) → get_task id q ≡ some task → task.id ≡ id
unfolding get_task
get_task-id id q task h = find_row-id id q.tasks task h

pub update_status-marked :
    (id : String) (status : AgentTaskStatus) (error : Option String) (now : ℕ) (q : Queue)
    (task : AgentTask)
    → get_task id q ≡ some task
    → get_task id (update_status id status error now q).1 ≡ some (marked task status error now)
unfolding update_status update_found
update_status-marked id status error now q task h = rw h (get-write id status error now q task h)

-- Whatever status a task has, a mark of it is what is read then, with an empty error read as none,
-- and the other tasks are as before.
pub update_status-get :
    (id other : String) (status : AgentTaskStatus) (error : Option String) (now : ℕ) (q : Queue)
    (task : AgentTask)
    → get_task id q ≡ some task
    → (id == other) ≡ false
    → (get_task id (update_status id status error now q).1 ≡ some (marked task status error now))
      × (get_task other (update_status id status error now q).1 ≡ get_task other q)
unfolding update_status update_found
update_status-get id other status error now q task h apart =
    let new = with_status task status error now in
    let same = get_task-id id q task h in
    (
      update_status-marked id status error now q task h,
      rw h (get-write-other other new q (subst (λ i. (i == other) ≡ false) (sym same) apart)),
    )

find_row-normal :
    (id : String) (rows : List TaskRow) (task : AgentTask)
    → find_row id rows ≡ some task
    → text_or_none (or_empty task.error) ≡ task.error
unfolding find_row to_task
find_row-normal id [] task h = cc
find_row-normal id (row ∷ rows) task h = elim (Bool-cases (row.id == id)) [
  | inl same ↦
      subst (λ (t : AgentTask). text_or_none (or_empty t.error) ≡ t.error)
        (some_inj.0 (rw same at h)) (normal_text row.error)
  | inr differs ↦ find_row-normal id rows task (rw differs at h)
]

get_task-normal :
    (id : String) (q : Queue) (task : AgentTask)
    → get_task id q ≡ some task
    → text_or_none (or_empty task.error) ≡ task.error
unfolding get_task
get_task-normal id q task h = find_row-normal id q.tasks task h

cancel-missing :
    (id : String) (now : ℕ) (q : Queue) → get_task id q ≡ none → cancel_task id now q ≡ (none, q)
unfolding cancel_task cancel_found
cancel-missing id now q h = ap (cancel_found now q) h

cancel-over :
    (id : String) (now : ℕ) (q : Queue) (task : AgentTask)
    → get_task id q ≡ some task
    → is_terminal task ≡ true
    → cancel_task id now q ≡ (some task, q)
unfolding cancel_task cancel_found
cancel-over id now q task h over = ap (cancel_found now q) h ∙ rw over refl

abbrev stopped : AgentTask → ℕ → AgentTask
stopped task now = record task { status = AgentTaskStatus.stopped; updated_at = now }

cancel-runs :
    (id : String) (now : ℕ) (q : Queue) (task : AgentTask)
    → get_task id q ≡ some task
    → is_terminal task ≡ false
    → cancel_task id now q ≡ (some (stopped task now), write_task (stopped task now) q)
unfolding cancel_task cancel_found
cancel-runs id now q task h runs = ap (cancel_found now q) h ∙ rw runs refl

get-stopped :
    (id : String) (now : ℕ) (q : Queue) (task : AgentTask)
    → get_task id q ≡ some task
    → get_task id (write_task (stopped task now) q) ≡ some (stopped task now)
get-stopped id now q task h =
    get-write id AgentTaskStatus.stopped task.error now q task h
    ∙ ap (λ e. some (with_status task AgentTaskStatus.stopped e now)) (get_task-normal id q task h)

stopped-over : (task : AgentTask) (now : ℕ) → is_terminal (stopped task now) ≡ true
unfolding is_terminal
stopped-over task now = refl

-- A second cancelling of a task, at any time, answers what the first answered and changes nothing.
pub cancel_task-twice :
    (id : String) (now later : ℕ) (q : Queue)
    → cancel_task id later (cancel_task id now q).1 ≡ cancel_task id now q
cancel_task-twice id now later q = elim (Option-cases (get_task id q)) [
  | inl missing ↦ rw (cancel-missing id now q missing) (cancel-missing id later q missing)
  | inr (task, h) ↦ elim (Bool-cases (is_terminal task)) [
    | inl over ↦ rw (cancel-over id now q task h over) (cancel-over id later q task h over)
    | inr runs ↦ rw (cancel-runs id now q task h runs) (
        cancel-over id later (write_task (stopped task now) q) (stopped task now)
          (get-stopped id now q task h) (stopped-over task now))
  ]
]

-- A cancelling of a task that is at a terminal status changes nothing, and one of another task that is
-- there leaves it stopped.
pub cancel_task-get :
    (id : String) (now : ℕ) (q : Queue) (task : AgentTask)
    → get_task id q ≡ some task
    → get_task id (cancel_task id now q).1
      ≡ some (if is_terminal task then task else stopped task now)
cancel_task-get id now q task h = elim (Bool-cases (is_terminal task)) [
  | inl over ↦ rw (over, cancel-over id now q task h over) h
  | inr runs ↦ rw (runs, cancel-runs id now q task h runs) (get-stopped id now q task h)
]
