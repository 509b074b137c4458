-- ===== src/Acceptance/Config.antt =====
-- What the chain reads from a plan's payload: `gate_config_from_plan` of
-- backend/api/app/application/acceptance_gate_service.py, `enforce_coverage_from_plan` of
-- coverage_review_service.py, the retry switches of agent_execution_machine.py and `plan_revision` of
-- agent_execution_types.py.
mod Examples
pub mod Laws
use atlas_agent_control_plan.Prelude.{
  ℕ, zero, suc, String, Bool, true, false, Option, none, some, List, [], ◌∷◌, if◌then◌else◌,
}
use atlas_agent_control_plan.Prelude.Int.{ℤ, pos, negsuc}
use atlas_agent_control_plan.Prelude.Json.{
  Value, Fields, get_field, items, bool, num, str, arr, obj,
}
use atlas_agent_control_plan.Prelude.Result.{Result, ok, err}
use atlas_agent_control_plan.Prelude.Text.{strip, is_empty}

pub record AcceptanceGateConfig : Type 0 where
  pub command : String
  pub timeout_seconds : ℕ
  pub success_exit_codes : List ℤ
  pub working_dir : String

-- isinstance(timeout, int), not a bool, and positive; or else the default
timeout_of : Option Value → ℕ → ℕ
timeout_of (some (num (pos (suc n)))) default_timeout = suc n
timeout_of _ default_timeout = default_timeout

working_dir_of : Option Value → String
working_dir_of (some (str dir)) = strip dir
working_dir_of _ = ""

int_codes : List Value → List ℤ
int_codes [] = []
int_codes (num code ∷ rest) = code ∷ int_codes rest
int_codes (_ ∷ rest) = int_codes rest

listed_codes : Option Value → List ℤ
unfolding int_codes
listed_codes (some (arr codes)) = int_codes (items codes)
listed_codes _ = []

-- `if not success_codes: success_codes = (0,)`
or_zero : List ℤ → List ℤ
or_zero [] = pos 0 ∷ []
or_zero (code ∷ rest) = code ∷ rest

config_of_command : String → Fields → ℕ → Option AcceptanceGateConfig
unfolding timeout_of working_dir_of listed_codes or_zero
config_of_command command raw default_timeout_seconds =
    if is_empty (strip command)
    then none
    else some (record {
      command = strip command;
      timeout_seconds = timeout_of (get_field "timeout_seconds" raw) default_timeout_seconds;
      success_exit_codes = or_zero (listed_codes (get_field "success_exit_codes" raw));
      working_dir = working_dir_of (get_field "working_dir" raw);
    })

config_of_acceptance : Option Value → ℕ → Option AcceptanceGateConfig
unfolding config_of_command
config_of_acceptance (some (obj raw)) default_timeout_seconds = elim (get_field "command" raw) [
  | some (str command) ↦ config_of_command command raw default_timeout_seconds
  | _ ↦ none
]
config_of_acceptance _ default_timeout_seconds = none

-- `default_timeout_seconds` is 600 where the machine calls it.
unfoldable pub gate_config_from_plan : Fields → ℕ → Option AcceptanceGateConfig
unfolding config_of_acceptance
gate_config_from_plan plan default_timeout_seconds =
    config_of_acceptance (get_field "acceptance" plan) default_timeout_seconds

-- The flag `key` of the object at `section`, where both are there; `value is True` else.
flag_of : Option Value → String → Bool → Bool
flag_of (some (obj raw)) key default_flag = elim (get_field key raw) [
  | none ↦ default_flag
  | some (bool flag) ↦ flag
  | some _ ↦ false
]
flag_of _ key default_flag = default_flag

unfoldable pub enforce_coverage_from_plan : Fields → Bool
unfolding flag_of
enforce_coverage_from_plan plan = flag_of (get_field "acceptance" plan) "enforce_coverage" false

-- AgentExecutionMachine._gate_allow_retry and _scope_allow_retry
unfoldable pub gate_allow_retry : Fields → Bool
unfolding flag_of
gate_allow_retry plan = flag_of (get_field "acceptance" plan) "allow_retry" true

unfoldable pub scope_allow_retry : Fields → Bool
unfolding flag_of
scope_allow_retry plan = flag_of (get_field "scope" plan) "allow_retry" true

-- plan_revision(plan): missing is 0; a bool, another type or a negative number is refused
unfoldable pub plan_revision : Fields → Result String ℕ
plan_revision plan = elim (get_field "plan_revision" plan) [
  | none ↦ ok 0
  | some (num (pos revision)) ↦ ok revision
  | some _ ↦ err "plan_revision must be a non-negative integer"
]
