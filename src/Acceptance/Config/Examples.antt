-- ===== src/Acceptance/Config/Examples.antt =====
-- Plans with an acceptance command.
use atlas_agent_control_plan.Prelude.{◌≡◌, refl, true, false, some, [], ◌∷◌, string_eq}
use atlas_agent_control_plan.Prelude.Int.{pos}
use atlas_agent_control_plan.Prelude.Json.{Fields, end, field, obj, str, bool}
use atlas_agent_control_plan.Prelude.Text.{strip}
use atlas_agent_control_plan.Acceptance.Config.{
  AcceptanceGateConfig, gate_config_from_plan, enforce_coverage_from_plan, gate_allow_retry,
}

abbrev plan : Fields
plan =
    field "acceptance"
      (obj (
        field "command" (str " pytest ")
          (field "timeout_seconds" (bool true) (field "allow_retry" (bool false) end))))
      end

abbrev gate : AcceptanceGateConfig
gate = record {
  command = "pytest";
  timeout_seconds = 600;
  success_exit_codes = pos 0 ∷ [];
  working_dir = "";
}

reads_gate : gate_config_from_plan plan 600 ≡ some gate
unfolding gate_config_from_plan strip
reads_gate = refl

reads_flags : (enforce_coverage_from_plan plan ≡ false) × (gate_allow_retry plan ≡ false)
unfolding enforce_coverage_from_plan gate_allow_retry
reads_flags = (refl, refl)
