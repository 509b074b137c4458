-- ===== src/Acceptance/Gate/Examples.antt =====
-- The gate at concrete commands and outcomes.
use atlas_agent_control_plan.Prelude.{◌≡◌, refl, true, none, some, [], ◌∷◌, string_eq}
use atlas_agent_control_plan.Prelude.Int.{pos}
use atlas_agent_control_plan.Prelude.Json.{Fields, end, field, obj, str}
use atlas_agent_control_plan.Prelude.Result.{ok}
use atlas_agent_control_plan.Prelude.Text.{strip}
use atlas_agent_control_plan.Acceptance.Config.{AcceptanceGateConfig}
use atlas_agent_control_plan.Acceptance.Gate.{CommandOutcome, digest, verify}
use atlas_agent_control_plan.Acceptance.Gate.Laws.{verify-passed_iff}

abbrev plan : Fields
plan = field "acceptance" (obj (field "command" (str "pytest") end)) end

abbrev gate : AcceptanceGateConfig
gate = record {
  command = "pytest";
  timeout_seconds = 600;
  success_exit_codes = pos 0 ∷ [];
  working_dir = "";
}

abbrev passing : CommandOutcome
passing = record { exit_code = some (pos 0); output = " ok "; error = none; duration_ms = 7 }

short_digest : digest " ok " ≡ "ok"
unfolding digest strip
short_digest = refl

verify-passed_iff_example : (verify gate (ok passing)).passed ≡ true
unfolding strip
verify-passed_iff_example =
    (verify-passed_iff gate (ok passing)).1 (refl, (passing, refl, (pos 0, refl, (0, refl))))
