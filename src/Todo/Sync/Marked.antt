-- ===== src/Todo/Sync/Marked.antt =====
-- What the event of a step does to the events of the board: the status it asks for, the item it is
-- about, and whether an event is added.
use atlas_agent_control_plan.Prelude.{
  ℕ, zero, suc, String, Bool, true, false, ◌≡◌, ◌≢◌, refl, sym, ap, ◌∙◌, Option, none, some, List,
  [], ◌∷◌, ◌++◌, All, arith, get_elem?, Bool-cases, inl, inr, ◌⊎◌, nat_eq, string_eq, ◌==◌,
}
use atlas_agent_control_plan.Prelude.Int.{pos, negsuc}
use atlas_agent_control_plan.Prelude.Json.{
  Value, Fields, null, bool, num, real, str, obj, arr, get_field,
}
use atlas_agent_control_plan.Prelude.Result.{Result, ok, err}
use atlas_agent_control_plan.Todo.{TodoStatus, TodoItem, TodoBoard, mark, progress}
use atlas_agent_control_plan.Todo.Service.{
  BoardEvent, todo_updated, replay, todo_event_payload, replay-marked,
}
use atlas_agent_control_plan.Todo.Sync.{
  StepEvent, step_completed, step_failed, other_step, first_item, match_index, match_step, or_index,
  same_status, events_after, sync_item, sync_from_step_event,
}

-- The step_id of a payload names an item, and its index counts to an item's step.
abbrev pub is_named : Option Value → TodoItem → Bool
is_named (some (str step_id)) item = item.id == step_id
is_named _ item = false

abbrev pub is_numbered : Option Value → TodoItem → Bool
is_numbered (some (num (pos (suc index)))) item = item.step_index == index
is_numbered _ item = false

abbrev Found : (TodoItem → Bool) → List TodoItem → Option TodoItem → Type 0
Found test items none = All (λ item. test item ≡ false) items
Found test items (some item) = (test item ≡ true) × ((i : ℕ) × (get_elem? items i ≡ some item))

first_item-Found :
    (test : TodoItem → Bool) (items : List TodoItem) → Found test items (first_item test items)
unfolding first_item
first_item-Found test [] = tt
first_item-Found test (item ∷ rest) = elim (Bool-cases (test item)) [
  | inl yes' ↦ rw yes' (yes', (0, refl))
  | inr no' ↦ rw no' (later (first_item test rest) no' (first_item-Found test rest))
]
  where
    later :
        (o : Option TodoItem) → test item ≡ false → Found test rest o → Found test (item ∷ rest) o
    later none no' h = (no', h)
    later (some x) no' (t, (i, e)) = (t, (suc i, e))

-- `o` is an item of the list that the step is about: one that its id names, or, where its id names
-- none, one that its index counts to; or there is no such item.
abbrev pub IsStepItem : Option Value → Option Value → List TodoItem → Option TodoItem → Type 0
IsStepItem step_id index items none =
    All (λ item. is_named step_id item ≡ false) items
    × All (λ item. is_numbered index item ≡ false) items
IsStepItem step_id index items (some item) =
    ((i : ℕ) × (get_elem? items i ≡ some item))
    × ((is_named step_id item ≡ true)
        ⊎ (All (λ x. is_named step_id x ≡ false) items × (is_numbered index item ≡ true)))

no_item : (items : List TodoItem) → All (λ item. false ≡ false) items
no_item [] = tt
no_item (item ∷ rest) = (refl, no_item rest)

match_index-Found :
    (board : TodoBoard) (index : Option Value)
    → Found (is_numbered index) board.items (match_index board index)
unfolding match_index
match_index-Found board none = no_item board.items
match_index-Found board (some null) = no_item board.items
match_index-Found board (some (bool b)) = no_item board.items
match_index-Found board (some (num (pos zero))) = no_item board.items
match_index-Found board (some (num (pos (suc index)))) =
    first_item-Found (λ item. item.step_index == index) board.items
match_index-Found board (some (num (negsuc n))) = no_item board.items
match_index-Found board (some (real text)) = no_item board.items
match_index-Found board (some (str text)) = no_item board.items
match_index-Found board (some (obj fields)) = no_item board.items
match_index-Found board (some (arr elements)) = no_item board.items

or_index-IsStepItem :
    (step_id index : Option Value) (items : List TodoItem) (by_id by_index : Option TodoItem)
    → Found (is_named step_id) items by_id
    → Found (is_numbered index) items by_index
    → IsStepItem step_id index items (or_index by_id by_index)
or_index-IsStepItem step_id index items (some item) by_index (t, there) n = (there, inl t)
or_index-IsStepItem step_id index items none none none_named n = (none_named, n)
or_index-IsStepItem step_id index items none (some item) none_named (t, there) =
    (there, inr (none_named, t))

match_step-IsStepItem :
    (board : TodoBoard) (payload : Fields)
    → IsStepItem
        (get_field "step_id" payload)
        (get_field "index" payload)
        board.items
        (match_step board payload)
unfolding match_step
match_step-IsStepItem board payload = go (get_field "step_id" payload)
  where
    index : Option Value
    index = get_field "index" payload

    unnamed :
        (step_id : Option Value)
        → All (λ item. is_named step_id item ≡ false) board.items
        → IsStepItem step_id index board.items (match_index board index)
    unnamed step_id h =
        or_index-IsStepItem step_id index board.items none (match_index board index) h
          (match_index-Found board index)

    go :
        (step_id : Option Value)
        → IsStepItem step_id index board.items (elim step_id [
          | some (str id) ↦
              or_index (first_item (λ item. item.id == id) board.items) (match_index board index)
          | _ ↦ match_index board index
        ])
    go none = unnamed none (no_item board.items)
    go (some null) = unnamed (some null) (no_item board.items)
    go (some (bool b)) = unnamed (some (bool b)) (no_item board.items)
    go (some (num n)) = unnamed (some (num n)) (no_item board.items)
    go (some (real text)) = unnamed (some (real text)) (no_item board.items)
    go (some (str id)) =
        or_index-IsStepItem (some (str id)) index board.items
          (first_item (λ item. item.id == id) board.items) (match_index board index)
          (first_item-Found (λ item. item.id == id) board.items) (match_index-Found board index)
    go (some (obj fields)) = unnamed (some (obj fields)) (no_item board.items)
    go (some (arr elements)) = unnamed (some (arr elements)) (no_item board.items)

same_status-eq : (a b : TodoStatus) → same_status a b ≡ true → a ≡ b
same_status-eq a b h = ground (arith, h)

same_status_refl : (a : TodoStatus) → same_status a a ≡ true
same_status_refl a = ground arith

-- An event that asks for the status `target` of the step of a payload turns `events` into `after`.
pub data IsMarked (target : TodoStatus) (payload : Fields) (board : TodoBoard) (initial : TodoBoard)
    (events after : List BoardEvent) : Type 0 where
  unmatched :
      IsStepItem (get_field "step_id" payload) (get_field "index" payload) board.items none
      → after ≡ events
      → IsMarked target payload board initial events after
  settled :
      (item : TodoItem)
      → IsStepItem (get_field "step_id" payload) (get_field "index" payload) board.items (some item)
      → item.status ≡ target
      → after ≡ events
      → IsMarked target payload board initial events after
  refused :
      (item : TodoItem) (message : String)
      → IsStepItem (get_field "step_id" payload) (get_field "index" payload) board.items (some item)
      → mark target item.id board ≡ err message
      → after ≡ events
      → IsMarked target payload board initial events after
  marked :
      (item moved : TodoItem) (written : Fields)
      → IsStepItem (get_field "step_id" payload) (get_field "index" payload) board.items (some item)
      → item.status ≢ target
      → after ≡ events ++ todo_updated written ∷ []
      → mark target item.id board ≡ ok (moved, replay after initial)
      → IsMarked target payload board initial events after

sync_item-IsMarked :
    (target : TodoStatus) (payload : Fields) (initial : TodoBoard) (events : List BoardEvent)
    (found : Option TodoItem)
    → IsStepItem
        (get_field "step_id" payload)
        (get_field "index" payload)
        (replay events initial).items
        found
    → IsMarked target payload
        (replay events initial)
        initial
        events
        (sync_item target (replay events initial) events found)
unfolding sync_item
sync_item-IsMarked target payload initial events none h = unmatched h refl
sync_item-IsMarked target payload initial events (some item) h =
    elim (Bool-cases (same_status item.status target)) [
      | inl same ↦ rw same (settled item h (same_status-eq item.status target same) refl)
      | inr other ↦ rw other (
          go (λ same. absurd (ground (arith, same_status_refl target, rw same at other)))
            (mark target item.id (replay events initial)) refl)
    ]
  where
    go :
        item.status ≢ target
        → (r : Result String (TodoItem × TodoBoard))
        → mark target item.id (replay events initial) ≡ r
        → IsMarked target payload
            (replay events initial)
            initial
            events
            (events_after events item.id target r)
    go differs (err message) e = refused item message h e refl
    go differs (ok (moved, board)) e =
        let same = replay-marked item.id target initial events moved board e in
        marked item moved (todo_event_payload item.id target (progress board)) h differs refl
          (e ∙ ap (λ b. ok (moved, b)) (sym same))

-- What the event of a step turns the events of a board into.
abbrev pub IsSynced : StepEvent → TodoBoard → List BoardEvent → List BoardEvent → Type 0
IsSynced (step_completed payload) initial events after =
    IsMarked TodoStatus.done payload (replay events initial) initial events after
IsSynced (step_failed payload) initial events after =
    IsMarked TodoStatus.failed payload (replay events initial) initial events after
IsSynced other_step initial events after = after ≡ events

-- The event of a completed step asks for `done` and that of a failed step for `failed`, of an item that
-- the step's id names or, where none is named, its index counts to. The events of the board stay as
-- they are where there is no such item, it has the status, or the mark of its id is refused;
-- else one event is added, and the replay of all is the mark of its id. Other events add none.
pub sync_from_step_event-IsSynced :
    (event : StepEvent) (initial : TodoBoard) (events : List BoardEvent)
    → IsSynced event initial events (sync_from_step_event event initial events)
unfolding sync_from_step_event
sync_from_step_event-IsSynced (step_completed payload) initial events =
    sync_item-IsMarked TodoStatus.done payload initial events _
      (match_step-IsStepItem (replay events initial) payload)
sync_from_step_event-IsSynced (step_failed payload) initial events =
    sync_item-IsMarked TodoStatus.failed payload initial events _
      (match_step-IsStepItem (replay events initial) payload)
sync_from_step_event-IsSynced other_step initial events = refl
