-- ===== src/Todo/Sync/Laws.antt =====
-- The events of the steps move the board by allowed marks only.
use atlas_agent_control_plan.Prelude.{
  ℕ, String, false, ◌≡◌, refl, ap, ◌∙◌, Option, none, some, List, [], ◌∷◌, arith, get_elem?,
  Bool-cases, inl, inr, nat_eq, string_eq, ◌==◌,
}
use atlas_agent_control_plan.Prelude.Json.{Value, Fields, str, get_field}
use atlas_agent_control_plan.Prelude.Result.{Result, ok, err}
use atlas_agent_control_plan.Todo.{TodoStatus, TodoItem, TodoBoard, allowed, mark_items, mark}
use atlas_agent_control_plan.Todo.Marks.{Marks, here, next, Marks-done}
use atlas_agent_control_plan.Todo.Service.{
  BoardEvent, todo_updated, other_event, board_after, mark_named, mark_texts, apply_todo_event,
  replay, status_of,
}
use atlas_agent_control_plan.Todo.Sync.{
  step_completed, first_item, match_step, events_after, sync_item, sync_from_step_event,
}

Marks-append : {b c d : TodoBoard} → Marks b c → Marks c d → Marks b d
Marks-append m here = m
Marks-append m (next status todo_id item n h) = next status todo_id item (Marks-append m n) h

mark_named-Marks :
    (board : TodoBoard) (status : Option TodoStatus) (todo_id : String)
    → Marks board (mark_named board status todo_id)
unfolding mark_named
mark_named-Marks board none todo_id = here
mark_named-Marks board (some status) todo_id = go (mark status todo_id board) refl
  where
    go :
        (r : Result String (TodoItem × TodoBoard))
        → mark status todo_id board ≡ r
        → Marks board (board_after board r)
    go (ok (item, marked)) e = next status todo_id item here e
    go (err message) e = here

mark_texts-Marks :
    (board : TodoBoard) (todo_id status : Option Value)
    → Marks board (mark_texts board todo_id status)
unfolding mark_texts
mark_texts-Marks board (some (str todo_id)) (some (str raw)) =
    mark_named-Marks board (status_of raw) todo_id
mark_texts-Marks board _ _ = here

replay-Marks : (events : List BoardEvent) (board : TodoBoard) → Marks board (replay events board)
unfolding replay apply_todo_event
replay-Marks [] board = here
replay-Marks (todo_updated payload ∷ rest) board =
    let now = mark_texts board (get_field "todo_id" payload) (get_field "status" payload) in
    Marks-append (mark_texts-Marks board (get_field "todo_id" payload) (get_field "status" payload))
      (replay-Marks rest now)
replay-Marks (other_event ∷ rest) board = replay-Marks rest board

-- An item that is done on a board is done, where and as it was, on the board that the replay of any
-- events gives, whatever their payloads hold.
pub replay-done :
    (events : List BoardEvent) (board : TodoBoard) (i : ℕ) (x : TodoItem)
    → get_elem? board.items i ≡ some x
    → x.status ≡ TodoStatus.done
    → get_elem? (replay events board).items i ≡ some x
replay-done events board i x found done = Marks-done i x (replay-Marks events board) found done

mark_items-refused :
    (status : TodoStatus) (todo_id : String) (items : List TodoItem) (item : TodoItem)
    → first_item (λ x. x.id == todo_id) items ≡ some item
    → allowed item.status status ≡ false
    → (message : String) × (mark_items status todo_id items ≡ err message)
unfolding first_item mark_items
mark_items-refused status todo_id [] item f a = cc
mark_items-refused status todo_id (x ∷ rest) item f a = elim (Bool-cases (x.id == todo_id)) [
  | inl same ↦ ("illegal todo transition", ground (arith, same, f, a))
  | inr other ↦
      let (message, e) = mark_items-refused status todo_id rest item (rw other at f) a in
      (message, rw (other, e) refl)
]

match_step-named :
    (board : TodoBoard) (payload : Fields) (step_id : String) (item : TodoItem)
    → get_field "step_id" payload ≡ some (str step_id)
    → first_item (λ x. x.id == step_id) board.items ≡ some item
    → match_step board payload ≡ some item
unfolding match_step
match_step-named board payload step_id item named found = rw (match_step, named, found) refl

mark-refused :
    (status : TodoStatus) (todo_id : String) (board : TodoBoard) (item : TodoItem)
    → first_item (λ x. x.id == todo_id) board.items ≡ some item
    → allowed item.status status ≡ false
    → (message : String) × (mark status todo_id board ≡ err message)
unfolding mark
mark-refused status todo_id board item found refused =
    let (message, e) = mark_items-refused status todo_id board.items item found refused in
    (message, rw (mark, e) refl)

done_after_failed :
    (item : TodoItem)
    → item.status ≡ TodoStatus.failed
    → allowed item.status TodoStatus.done ≡ false
unfolding allowed
done_after_failed item failed = rw failed refl

-- Where the board has a failed item of the step's id, first of that id, a later step_completed of the
-- step adds no event: the item stays failed.
pub completed_after_failed :
    (payload : Fields) (step_id : String) (initial : TodoBoard) (events : List BoardEvent)
    (item : TodoItem)
    → get_field "step_id" payload ≡ some (str step_id)
    → first_item (λ x. x.id == step_id) (replay events initial).items ≡ some item
    → item.id ≡ step_id
    → item.status ≡ TodoStatus.failed
    → sync_from_step_event (step_completed payload) initial events ≡ events
unfolding sync_from_step_event
completed_after_failed payload step_id initial events item named found same failed =
    let board = replay events initial in
    let (message, refused) =
      mark-refused TodoStatus.done step_id board item found (done_after_failed item failed) in
    ap (sync_item TodoStatus.done board events)
      (match_step-named board payload step_id item named found)
    ∙ rw failed (
        ap (λ id. events_after events id TodoStatus.done (mark TodoStatus.done id board)) same
        ∙ ap (events_after events step_id TodoStatus.done) refused)
