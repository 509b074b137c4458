-- ===== src/Todo/Sync.antt =====
-- `sync_from_step_event` of backend/api/app/application/todo_service.py: the events of the steps mark
-- the board, as far as the marks are allowed.
pub mod Laws
pub mod Marked
use atlas_agent_control_plan.Prelude.{
  ℕ, suc, String, Bool, true, false, ◌≡◌, refl, sym, ap, ◌∙◌, Option, none, some, List, [], ◌∷◌,
  ◌++◌, arith, get_elem?, Bool-cases, inl, inr, ◌⊎◌, nat_eq, string_eq, ◌==◌, if◌then◌else◌,
}
use mathlib.Core.Option.{some_inj}
use atlas_agent_control_plan.Prelude.Int.{pos}
use atlas_agent_control_plan.Prelude.Json.{Value, Fields, str, num, get_field}
use atlas_agent_control_plan.Prelude.Result.{Result, ok, err}
use atlas_agent_control_plan.Todo.{
  TodoStatus, TodoItem, TodoBoard, allowed, mark_items, mark, progress,
}
use atlas_agent_control_plan.Todo.Marks.{Marks, here, next, Marks-done}
use atlas_agent_control_plan.Todo.Service.{
  BoardEvent, todo_updated, other_event, board_after, mark_named, mark_texts, apply_todo_event,
  replay, todo_event_payload, status_of, replay-marked,
}

-- The events that _STEP_EVENT_STATUS maps, with their payloads, and the others.
pub data StepEvent : Type 0 where
  step_completed step_failed : Fields → StepEvent
  other_step : StepEvent

-- The first item that passes a test.
unfoldable pub first_item : (TodoItem → Bool) → List TodoItem → Option TodoItem
first_item test [] = none
first_item test (item ∷ rest) =
    let later = first_item test rest in if test item then some item else later

-- The match by the index of a step, which counts from 1.
unfoldable pub match_index : TodoBoard → Option Value → Option TodoItem
unfolding first_item
match_index board (some (num (pos (suc index)))) =
    first_item (λ item. item.step_index == index) board.items
match_index board _ = none

abbrev pub or_index : Option TodoItem → Option TodoItem → Option TodoItem
or_index none later = later
or_index (some item) later = some item

-- _match_step
unfoldable pub match_step : TodoBoard → Fields → Option TodoItem
unfolding match_index
match_step board payload =
    let by_index = match_index board (get_field "index" payload) in
    elim (get_field "step_id" payload) [
      | some (str step_id) ↦ or_index (first_item (λ item. item.id == step_id) board.items) by_index
      | _ ↦ by_index
    ]

abbrev pub same_status : TodoStatus → TodoStatus → Bool
same_status TodoStatus.pending TodoStatus.pending = true
same_status TodoStatus.in_progress TodoStatus.in_progress = true
same_status TodoStatus.done TodoStatus.done = true
same_status TodoStatus.failed TodoStatus.failed = true
same_status TodoStatus.skipped TodoStatus.skipped = true
same_status _ _ = false

-- The events after a mark: one more, or none where the mark raises.
unfoldable pub events_after :
    List BoardEvent → String → TodoStatus → Result String (TodoItem × TodoBoard) → List BoardEvent
events_after events todo_id target (ok (item, marked)) =
    events ++ todo_updated (todo_event_payload todo_id target (progress marked)) ∷ []
events_after events todo_id target (err message) = events

unfoldable pub sync_item :
    TodoStatus → TodoBoard → List BoardEvent → Option TodoItem → List BoardEvent
unfolding events_after
sync_item target board events none = events
sync_item target board events (some item) =
    if same_status item.status target
    then events
    else events_after events item.id target (mark target item.id board)

-- sync_from_step_event, where the session has a plan
unfoldable pub sync_from_step_event : StepEvent → TodoBoard → List BoardEvent → List BoardEvent
unfolding sync_item match_step
sync_from_step_event (step_completed payload) initial events =
    let board = replay events initial in
    sync_item TodoStatus.done board events (match_step board payload)
sync_from_step_event (step_failed payload) initial events =
    let board = replay events initial in
    sync_item TodoStatus.failed board events (match_step board payload)
sync_from_step_event other_step initial events = events
