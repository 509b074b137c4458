-- ===== src/Todo/Table.antt =====
-- The status table of a board tells the statuses of its items.
use atlas_agent_control_plan.Prelude.{
  ℕ, zero, suc, String, false, ◌≡◌, refl, subst, ◌∙◌, some, List, [], ◌∷◌, get_elem?, All,
  string_eq, ◌==◌,
}
use mathlib.Core.Option.{some_inj}
use text.Mathlib.TextEquality.{eq_iff}
use atlas_agent_control_plan.Prelude.Dict.{Dict, get, put, get-put}
use atlas_agent_control_plan.Todo.{TodoStatus, TodoItem, status_by_id}
use atlas_agent_control_plan.Todo.Laws.{Stands}

-- No two items have the same id.
abbrev pub IdsDiffer : List TodoItem → Type 0
IdsDiffer [] = Unit
IdsDiffer (item ∷ rest) = All (λ other. (other.id == item.id) ≡ false) rest × IdsDiffer rest

-- Items of other ids do not change what the table tells of an id.
status_by_id-other :
    (id : String) (table : Dict String TodoStatus) (items : List TodoItem)
    → All (λ other. (other.id == id) ≡ false) items
    → get id (status_by_id table items) ≡ get id table
unfolding status_by_id
status_by_id-other id table [] h = refl
status_by_id-other id table (item ∷ rest) h =
    status_by_id-other id (put item.id item.status table) rest h.1
    ∙ get-put item.id id item.status table
    ∙ rw h.0 refl

status_by_id-from :
    (table : Dict String TodoStatus) (items : List TodoItem) (i : ℕ) (item : TodoItem)
    → IdsDiffer items
    → get_elem? items i ≡ some item
    → get item.id (status_by_id table items) ≡ some item.status
unfolding status_by_id
status_by_id-from table [] i item d h = cc
status_by_id-from table (x ∷ rest) zero item d h =
    subst (λ y. get y.id (status_by_id (put x.id x.status table) rest) ≡ some y.status)
      (some_inj.0 h)
      (status_by_id-other x.id (put x.id x.status table) rest d.0
        ∙ get-put x.id x.id x.status table
        ∙ rw ((eq_iff x.id x.id).1 refl) refl)
status_by_id-from table (x ∷ rest) (suc i) item d h =
    status_by_id-from (put x.id x.status table) rest i item d.1 h

-- Where no two items have the same id, the table that `next_runnable` reads tells for the id of each
-- item of the board the status of that item.
pub status_by_id-Stands :
    (items : List TodoItem) (item : TodoItem)
    → IdsDiffer items
    → Stands item items
    → get item.id (status_by_id [] items) ≡ some item.status
status_by_id-Stands items item d (i, h) = status_by_id-from [] items i item d h
