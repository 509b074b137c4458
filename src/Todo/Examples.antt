-- ===== src/Todo/Examples.antt =====
-- A board of two items, the second after the first.
use atlas_agent_control_plan.Prelude.{◌+◌, ◌≡◌, refl, none, some, [], ◌∷◌, get_elem?, string_eq}
use atlas_agent_control_plan.Prelude.Dict
use atlas_agent_control_plan.Prelude.Dict.{get}
use atlas_agent_control_plan.Prelude.Result.{ok, err}
use atlas_agent_control_plan.Todo.{TodoStatus, TodoItem, TodoBoard, mark, next_runnable, progress}
use atlas_agent_control_plan.Todo.Service.{
  BoardEvent, todo_updated, todo_event_payload, replay, update_status, update_status-replay,
  status_value,
}
use atlas_agent_control_plan.Todo.Sync.{step_completed, first_item, sync_from_step_event}
use atlas_agent_control_plan.Todo.Sync.Marked.{IsSynced, sync_from_step_event-IsSynced}
use atlas_agent_control_plan.Todo.Sync.Laws.{replay-done, completed_after_failed}
use atlas_agent_control_plan.Prelude.Int.{pos}
use atlas_agent_control_plan.Prelude.Json.{Fields, end, field, str, num}
use atlas_agent_control_plan.Todo.Marks.{Marks, here, next, mark-progress}

abbrev write : TodoStatus → TodoItem
write status = record {
  id = "write";
  title = "write";
  description = "";
  status = status;
  verify_command = none;
  depends_on = [];
  step_index = 0;
}

abbrev test : TodoItem
test = record {
  id = "test";
  title = "test";
  description = "";
  status = TodoStatus.pending;
  verify_command = some "pytest";
  depends_on = "write" ∷ [];
  step_index = 1;
}

abbrev board : TodoStatus → TodoBoard
board status = record { items = write status ∷ test ∷ [] }

marks_done :
    mark TodoStatus.done "write" (board TodoStatus.pending)
    ≡ ok (write TodoStatus.done, board TodoStatus.done)
unfolding mark
marks_done = refl

refuses_back :
    mark TodoStatus.pending "write" (board TodoStatus.done) ≡ err "illegal todo transition"
unfolding mark
refuses_back = refl

runs_after : next_runnable (board TodoStatus.done) ≡ some test
unfolding next_runnable Dict.get Dict.put
runs_after = refl

abbrev both_done : TodoBoard
both_done = record { items = write TodoStatus.done ∷ record test { status = TodoStatus.done } ∷ [] }

marks_both :
    mark TodoStatus.done "test" (board TodoStatus.done)
    ≡ ok (record test { status = TodoStatus.done }, both_done)
unfolding mark
marks_both = refl

both-Marks : Marks (board TodoStatus.done) both_done
both-Marks = next TodoStatus.done "test" (record test { status = TodoStatus.done }) here marks_both

mark-progress_example :
    ((progress (board TodoStatus.done)).total ≡ (progress (board TodoStatus.pending)).total)
    × ((progress (board TodoStatus.done)).done ≡ (progress (board TodoStatus.pending)).done + 1)
mark-progress_example =
    mark-progress TodoStatus.done "write" (board TodoStatus.pending) (board TodoStatus.done)
      (write TodoStatus.done) marks_done

abbrev marked_event : BoardEvent
marked_event =
    todo_updated (todo_event_payload "write" TodoStatus.failed (progress (board TodoStatus.failed)))

marks_failed :
    update_status "write" TodoStatus.failed (board TodoStatus.pending) []
    ≡ ok (progress (board TodoStatus.failed), marked_event ∷ [])
unfolding update_status mark
marks_failed = refl

replays_failed : replay (marked_event ∷ []) (board TodoStatus.pending) ≡ board TodoStatus.failed
unfolding replay status_value mark
replays_failed = refl

update_status-replay_example :
    (item : TodoItem) × (mark TodoStatus.failed "write" (replay [] (board TodoStatus.pending))
      ≡ ok (item, replay (marked_event ∷ []) (board TodoStatus.pending)))
    × (progress (board TodoStatus.failed)
        ≡ progress (replay (marked_event ∷ []) (board TodoStatus.pending)))
update_status-replay_example =
    update_status-replay "write" TodoStatus.failed (board TodoStatus.pending) [] (marked_event ∷ [])
      (progress (board TodoStatus.failed)) marks_failed

replay-done_example :
    get_elem? (replay (marked_event ∷ []) (board TodoStatus.done)).items 0
    ≡ some (write TodoStatus.done)
replay-done_example =
    replay-done (marked_event ∷ []) (board TodoStatus.done) 0 (write TodoStatus.done) refl refl

abbrev completed : Fields
completed = field "step_id" (str "write") (field "index" (num (pos 1)) end)

sync_from_step_event-IsSynced_example :
    IsSynced
      (step_completed completed)
      (board TodoStatus.in_progress)
      []
      (sync_from_step_event (step_completed completed) (board TodoStatus.in_progress) [])
sync_from_step_event-IsSynced_example =
    sync_from_step_event-IsSynced (step_completed completed) (board TodoStatus.in_progress) []

completed_after_failed_example :
    sync_from_step_event (step_completed completed) (board TodoStatus.pending) (marked_event ∷ [])
    ≡ marked_event ∷ []
unfolding replay status_value mark first_item
completed_after_failed_example =
    completed_after_failed completed "write" (board TodoStatus.pending) (marked_event ∷ [])
      (write TodoStatus.failed) refl refl refl refl
