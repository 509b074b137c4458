-- ===== src/Todo/Service.antt =====
-- backend/api/app/application/todo_service.py: the board as the replay of its events, and the manual
-- mark. `initial` is the board that the latest plan gives and `events` are the events after that plan;
-- the lookup of the session is left out, and so is the percentage of a progress payload.
use atlas_agent_control_plan.Prelude.{
  String, ◌≡◌, refl, sym, subst, ap, ◌∙◌, Option, none, some, List, [], ◌∷◌, ◌++◌, arith, any_of,
  Bool-cases, inl, inr, string_eq, ◌==◌, if◌then◌else◌,
}
use atlas_agent_control_plan.Prelude.Int.{pos}
use atlas_agent_control_plan.Prelude.Json.{Value, Fields, end, field, str, num, obj, get_field}
use atlas_agent_control_plan.Prelude.Result.{Result, ok, err, ◌>>=◌, >>=-eq-ok, ok_inj}
use atlas_agent_control_plan.Todo.{TodoStatus, TodoItem, TodoBoard, Progress, mark, progress}

-- A session event after the plan: todo_updated with its payload, or another one.
pub data BoardEvent : Type 0 where
  todo_updated : Fields → BoardEvent
  other_event : BoardEvent

-- status.value, and TodoStatus(raw_status)
unfoldable pub status_value : TodoStatus → String
status_value TodoStatus.pending = "pending"
status_value TodoStatus.in_progress = "in_progress"
status_value TodoStatus.done = "done"
status_value TodoStatus.failed = "failed"
status_value TodoStatus.skipped = "skipped"

unfoldable pub status_of : String → Option TodoStatus
status_of text =
    if text == "pending"
    then some TodoStatus.pending
    else if text == "in_progress"
    then some TodoStatus.in_progress
    else if text == "done"
    then some TodoStatus.done
    else if text == "failed"
    then some TodoStatus.failed
    else if text == "skipped"
    then some TodoStatus.skipped
    else none

-- A mark that raises is passed over.
abbrev pub board_after : TodoBoard → Result String (TodoItem × TodoBoard) → TodoBoard
board_after board (ok (item, marked)) = marked
board_after board (err message) = board

unfoldable pub mark_named : TodoBoard → Option TodoStatus → String → TodoBoard
mark_named board none todo_id = board
mark_named board (some status) todo_id = board_after board (mark status todo_id board)

unfoldable pub mark_texts : TodoBoard → Option Value → Option Value → TodoBoard
unfolding mark_named status_of
mark_texts board (some (str todo_id)) (some (str raw_status)) =
    mark_named board (status_of raw_status) todo_id
mark_texts board _ _ = board

-- _apply_todo_event, for todo_updated events
unfoldable pub apply_todo_event : TodoBoard → BoardEvent → TodoBoard
unfolding mark_texts
apply_todo_event board (todo_updated payload) =
    mark_texts board (get_field "todo_id" payload) (get_field "status" payload)
apply_todo_event board other_event = board

-- the loop of get_board
unfoldable pub replay : List BoardEvent → TodoBoard → TodoBoard
unfolding apply_todo_event
replay [] board = board
replay (event ∷ rest) board = replay rest (apply_todo_event board event)

abbrev pub todo_event_payload : String → TodoStatus → Progress → Fields
todo_event_payload todo_id status p = field "todo_id" (str todo_id) (
    field "status" (str (status_value status)) (
      field "progress"
        (obj (
          field "total" (num (pos p.total)) (
            field "done" (num (pos p.done))
              (field "failed" (num (pos p.failed)) (field "pending" (num (pos p.pending)) end)))))
        end))

-- update_status: the progress that it answers, and the events with the one that it adds
unfoldable pub update_status :
    String → TodoStatus → TodoBoard → List BoardEvent → Result String (Progress × List BoardEvent)
unfolding replay
update_status todo_id status initial events =
    let board = replay events initial in
    if any_of (λ item. item.id == todo_id) board.items
    then (do
      (item, marked) ← mark status todo_id board
      let p = progress marked
      ok (p, events ++ todo_updated (todo_event_payload todo_id status p) ∷ []))
    else err "todo not found"

replay-append :
    (events : List BoardEvent) (event : BoardEvent) (board : TodoBoard)
    → replay (events ++ event ∷ []) board ≡ apply_todo_event (replay events board) event
unfolding replay
replay-append [] event board = refl
replay-append (e ∷ rest) event board = replay-append rest event (apply_todo_event board e)

status_of-status_value : (status : TodoStatus) → status_of (status_value status) ≡ some status
unfolding status_of status_value
status_of-status_value TodoStatus.pending = refl
status_of-status_value TodoStatus.in_progress = refl
status_of-status_value TodoStatus.done = refl
status_of-status_value TodoStatus.failed = refl
status_of-status_value TodoStatus.skipped = refl

-- The replay of the event that a mark adds applies the mark again.
pub replay-marked :
    (todo_id : String) (status : TodoStatus) (initial : TodoBoard) (events : List BoardEvent)
    (item : TodoItem) (marked : TodoBoard)
    → mark status todo_id (replay events initial) ≡ ok (item, marked)
    → replay
        (events ++ todo_updated (todo_event_payload todo_id status (progress marked)) ∷ [])
        initial
      ≡ marked
unfolding apply_todo_event
replay-marked todo_id status initial events item marked h =
    replay-append events (todo_updated (todo_event_payload todo_id status (progress marked)))
      initial
    ∙ ap (λ s. mark_named (replay events initial) s todo_id) (status_of-status_value status)
    ∙ ap (board_after (replay events initial)) h

-- A manual mark that is not refused marks the board that the replay of the events gives, and the
-- replay of the events with the one that it adds gives the marked board, whose progress it answers.
pub update_status-replay :
    (todo_id : String) (status : TodoStatus) (initial : TodoBoard) (events after : List BoardEvent)
    (p : Progress)
    → update_status todo_id status initial events ≡ ok (p, after)
    → (item : TodoItem) × (mark status todo_id (replay events initial)
        ≡ ok (item, replay after initial))
      × (p ≡ progress (replay after initial))
unfolding update_status
update_status-replay todo_id status initial events after p h =
    elim (Bool-cases (any_of (λ item. item.id == todo_id) (replay events initial).items)) [
      | inr absent ↦ absurd (ground (arith, absent, h))
      | inl there ↦
          let ((item, marked), found, e) =
            >>=-eq-ok (mark status todo_id (replay events initial)) _ (rw there at h) in
          subst
            (λ (r : Progress × List BoardEvent).
              (x : TodoItem) × (mark status todo_id (replay events initial)
                ≡ ok (x, replay r.1 initial))
              × (r.0 ≡ progress (replay r.1 initial)))
            (ok_inj e)
            (let same = replay-marked todo_id status initial events item marked found in
              (item, found ∙ ap (λ b. ok (item, b)) (sym same), ap progress (sym same)))
    ]
