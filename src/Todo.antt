-- ===== src/Todo.antt =====
-- The todo board of backend/api/app/domain/agent_core/todo.py: the state machine of an item, the next
-- runnable item and the progress. `from_plan` and its topology check are left out, and so is the
-- rounded percentage.
pub mod Laws
pub mod Table
pub mod Service
pub mod Sync
pub mod Marks
mod Examples
use atlas_agent_control_plan.Prelude.{
  ℕ, zero, suc, ◌+◌, String, Bool, true, false, Option, none, some, List, [], ◌∷◌, leb, length,
  count_if, all_of, string_eq, ◌==◌, if◌then◌else◌,
}
use atlas_agent_control_plan.Prelude.Dict.{Dict, get, put}
use atlas_agent_control_plan.Prelude.Result.{Result, ok, err, ◌>>=◌}

pub data TodoStatus : Type 0 where
  pending in_progress done failed skipped : TodoStatus

-- _ALLOWED_TRANSITIONS
unfoldable pub allowed : TodoStatus → TodoStatus → Bool
allowed TodoStatus.pending TodoStatus.in_progress = true
allowed TodoStatus.pending TodoStatus.done = true
allowed TodoStatus.pending TodoStatus.skipped = true
allowed TodoStatus.pending TodoStatus.failed = true
allowed TodoStatus.in_progress TodoStatus.done = true
allowed TodoStatus.in_progress TodoStatus.failed = true
allowed TodoStatus.failed TodoStatus.in_progress = true
allowed TodoStatus.failed TodoStatus.skipped = true
allowed TodoStatus.skipped TodoStatus.pending = true
allowed _ _ = false

pub record TodoItem : Type 0 where
  pub id : String
  pub title : String
  pub description : String
  pub status : TodoStatus
  pub verify_command : Option String
  pub depends_on : List String
  pub step_index : ℕ

pub record TodoBoard : Type 0 where
  pub items : List TodoItem

-- The first item with the id, marked; the item is shared with the board, so the board changes with it.
unfoldable pub mark_items :
    TodoStatus → String → List TodoItem → Result String (TodoItem × List TodoItem)
unfolding allowed
mark_items status todo_id [] = err "todo does not exist"
mark_items status todo_id (item ∷ rest) =
    let later = mark_items status todo_id rest in
    if item.id == todo_id
    then if allowed item.status status
      then ok (record item { status = status }, record item { status = status } ∷ rest)
      else err "illegal todo transition"
    else later >>= λ (marked, more). ok (marked, item ∷ more)

-- TodoBoard.mark, with TodoBoard._find
unfoldable pub mark : TodoStatus → String → TodoBoard → Result String (TodoItem × TodoBoard)
unfolding mark_items
mark status todo_id board =
    mark_items status todo_id board.items >>= λ (item, items). ok (item, record { items = items })

-- {item.id: item.status for item in self.items}: the last item of an id stands
unfoldable pub status_by_id : Dict String TodoStatus → List TodoItem → Dict String TodoStatus
status_by_id table [] = table
status_by_id table (item ∷ rest) = status_by_id (put item.id item.status table) rest

abbrev pub is_satisfied : Option TodoStatus → Bool
is_satisfied (some TodoStatus.done) = true
is_satisfied (some TodoStatus.skipped) = true
is_satisfied _ = false

abbrev pub is_pending : TodoStatus → Bool
is_pending TodoStatus.pending = true
is_pending _ = false

abbrev pub is_done : TodoStatus → Bool
is_done TodoStatus.done = true
is_done _ = false

abbrev pub is_failed : TodoStatus → Bool
is_failed TodoStatus.failed = true
is_failed _ = false

-- sorted(self.items, key=lambda i: i.step_index), which is stable
unfoldable pub insert_by_step : TodoItem → List TodoItem → List TodoItem
insert_by_step item [] = item ∷ []
insert_by_step item (other ∷ rest) =
    let later = insert_by_step item rest in
    if leb item.step_index other.step_index then item ∷ other ∷ rest else other ∷ later

unfoldable pub sort_by_step : List TodoItem → List TodoItem
unfolding insert_by_step
sort_by_step [] = []
sort_by_step (item ∷ rest) = insert_by_step item (sort_by_step rest)

unfoldable pub is_runnable : Dict String TodoStatus → TodoItem → Bool
is_runnable table item =
    if is_pending item.status
    then all_of (λ dep. is_satisfied (get dep table)) item.depends_on
    else false

unfoldable pub first_runnable : Dict String TodoStatus → List TodoItem → Option TodoItem
unfolding is_runnable
first_runnable table [] = none
first_runnable table (item ∷ rest) =
    let later = first_runnable table rest in if is_runnable table item then some item else later

unfoldable pub next_runnable : TodoBoard → Option TodoItem
unfolding status_by_id sort_by_step first_runnable
next_runnable board = first_runnable (status_by_id [] board.items) (sort_by_step board.items)

-- The counts of the progress snapshot.
pub record Progress : Type 0 where
  pub total : ℕ
  pub done : ℕ
  pub failed : ℕ
  pub pending : ℕ

unfoldable pub progress : TodoBoard → Progress
progress board = record {
  total = length board.items;
  done = count_if (λ item. is_done item.status) board.items;
  failed = count_if (λ item. is_failed item.status) board.items;
  pending = count_if (λ item. is_pending item.status) board.items;
}
