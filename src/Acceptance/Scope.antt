-- ===== src/Acceptance/Scope.antt =====
-- The scope policy of backend/api/app/domain/acceptance/scope.py. `fnmatchcase` of Python's fnmatch
-- module is a parameter.
pub mod Laws
mod Examples
use atlas_agent_control_plan.Prelude.{
  ℕ, ◌+◌, String, Bool, true, false, ◌&&◌, ◌||◌, Option, none, some, List, [], ◌∷◌, ltb, nat_beq,
  any_of, if◌then◌else◌,
}
use atlas_agent_control_plan.Prelude.Json.{Value, Fields, get_field, items, str, arr, obj}
use atlas_agent_control_plan.Prelude.Text.{is_empty}

pub data ChangeType : Type 0 where
  added modified deleted : ChangeType

pub record FileChange : Type 0 where
  pub path : String
  pub change_type : ChangeType
  pub additions : ℕ
  pub deletions : ℕ

unfoldable pub total_lines : FileChange → ℕ
total_lines change = change.additions + change.deletions

-- _change_type
unfoldable pub change_type_of : ℕ → ℕ → ChangeType
change_type_of additions deletions =
    if ltb 0 additions && nat_beq deletions 0
    then ChangeType.added
    else if nat_beq additions 0 && ltb 0 deletions
    then ChangeType.deleted
    else ChangeType.modified

pub record ScopePolicy : Type 0 where
  pub allowed_globs : List String
  pub forbidden_globs : List String

-- [item for item in raw if isinstance(item, str) and item]
texts : List Value → List String
texts [] = []
texts (str text ∷ rest) = if is_empty text then texts rest else text ∷ texts rest
texts (_ ∷ rest) = texts rest

texts_of : Option Value → List String
unfolding texts
texts_of (some (arr raw)) = texts (items raw)
texts_of _ = []

policy_of_lists : List String → List String → Option ScopePolicy
policy_of_lists [] forbidden = none
policy_of_lists (glob ∷ rest) forbidden =
    some (record { allowed_globs = glob ∷ rest; forbidden_globs = forbidden })

-- ScopePolicy.from_plan
unfoldable pub from_plan : Fields → Option ScopePolicy
unfolding texts_of policy_of_lists
from_plan plan = elim (get_field "scope" plan) [
  | some (obj scope) ↦
      policy_of_lists (texts_of (get_field "allowed" scope))
        (texts_of (get_field "forbidden" scope))
  | _ ↦ none
]

module _ (fnmatchcase : String → String → Bool) (policy : ScopePolicy) where
  unfoldable pub is_allowed : String → Bool
  is_allowed path = any_of (λ glob. fnmatchcase path glob) policy.allowed_globs

  unfoldable pub is_forbidden : String → Bool
  is_forbidden path = any_of (λ glob. fnmatchcase path glob) policy.forbidden_globs

  unfoldable pub check : List FileChange → List FileChange
  unfolding is_allowed is_forbidden
  check [] = []
  check (change ∷ rest) =
      let violations = check rest in
      if is_forbidden change.path
      then change ∷ violations
      else if is_allowed change.path
      then violations
      else change ∷ violations
