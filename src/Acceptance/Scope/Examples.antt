-- ===== src/Acceptance/Scope/Examples.antt =====
-- The scope check with a matcher of whole paths.
use atlas_agent_control_plan.Prelude.{String, ◌≡◌, refl, Bool, some, List, [], ◌∷◌, string_eq, ◌==◌}
use atlas_agent_control_plan.Prelude.Json.{Fields, end, field, obj, str, arr, nil, cons}
use atlas_agent_control_plan.Acceptance.Scope.{
  FileChange, ScopePolicy, ChangeType, change_type_of, check, from_plan,
}

abbrev same_path : String → String → Bool
same_path path glob = path == glob

abbrev policy : ScopePolicy
policy = record { allowed_globs = "a.py" ∷ "b.py" ∷ []; forbidden_globs = "b.py" ∷ [] }

abbrev plan : Fields
plan =
    field "scope"
      (obj (
        field "allowed" (arr (cons (str "a.py") (cons (str "") (cons (str "b.py") nil))))
          (field "forbidden" (arr (cons (str "b.py") nil)) end)))
      end

abbrev change : String → FileChange
change path = record { path = path; change_type = change_type_of 3 0; additions = 3; deletions = 0 }

abbrev changes : List FileChange
changes = change "a.py" ∷ change "b.py" ∷ change "c.py" ∷ []

reads_policy : from_plan plan ≡ some policy
unfolding from_plan
reads_policy = refl

forbidden_wins : check same_path policy changes ≡ change "b.py" ∷ change "c.py" ∷ []
unfolding check
forbidden_wins = refl

types_of_changes :
    (change_type_of 3 0 ≡ ChangeType.added)
    × (change_type_of 0 2 ≡ ChangeType.deleted)
    × (change_type_of 0 0 ≡ ChangeType.modified)
unfolding change_type_of
types_of_changes = (refl, refl, refl)
