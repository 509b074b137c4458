-- ===== src/Acceptance/Config/Laws.antt =====
-- What a gate configuration that a plan yields guarantees.
use atlas_agent_control_plan.Prelude.{
  ℕ, suc, ◌≤◌, String, false, ◌≡◌, subst, ap, ◌∙◌, Option, some, List, [], ◌∷◌, arith, length,
  Bool-cases, Option-cases, inl, inr,
}
use mathlib.Core.Option.{some_inj}
use atlas_agent_control_plan.Prelude.Int.{ℤ, pos}
use atlas_agent_control_plan.Prelude.Json.{Value, Fields, get_field, num, str, obj}
use atlas_agent_control_plan.Prelude.Text.{strip, is_empty, strip-strip}
use atlas_agent_control_plan.Acceptance.Config.{
  AcceptanceGateConfig, timeout_of, or_zero, config_of_command, config_of_acceptance,
  gate_config_from_plan,
}

timeout_of-positive : (raw : Option Value) (n : ℕ) → 1 ≤ n → 1 ≤ timeout_of raw n
unfolding timeout_of
timeout_of-positive (some (num (pos (suc m)))) n h = omega arith
timeout_of-positive _ n h = h

or_zero-nonempty : (codes : List ℤ) → 1 ≤ length (or_zero codes)
unfolding or_zero
or_zero-nonempty [] = omega arith
or_zero-nonempty (c ∷ rest) = omega arith

-- A command that is not blank and has no space around it, a positive timeout and a success code.
pub record IsRunnable (config : AcceptanceGateConfig) : Type 0 where
  pub command : is_empty (strip config.command) ≡ false
  pub stripped : strip config.command ≡ config.command
  pub timeout : 1 ≤ config.timeout_seconds
  pub codes : 1 ≤ length config.success_exit_codes

config_of_command-IsRunnable :
    (command : String) (raw : Fields) (n : ℕ) (config : AcceptanceGateConfig)
    → 1 ≤ n
    → config_of_command command raw n ≡ some config
    → IsRunnable config
unfolding config_of_command
config_of_command-IsRunnable command raw n config h e =
    elim (Bool-cases (is_empty (strip command))) [
      | inl blank ↦ absurd (ground (arith, blank, e))
      | inr text ↦ subst IsRunnable (some_inj.0 (rw text at e)) (record {
        command = ap is_empty (strip-strip command) ∙ text;
        stripped = strip-strip command;
        timeout = timeout_of-positive (get_field "timeout_seconds" raw) n h;
        codes = or_zero-nonempty _;
      })
    ]

-- A plan that yields a gate configuration, with a positive default timeout, yields a runnable one.
pub gate_config_from_plan-IsRunnable :
    (plan : Fields) (n : ℕ) (config : AcceptanceGateConfig)
    → 1 ≤ n
    → gate_config_from_plan plan n ≡ some config
    → IsRunnable config
unfolding gate_config_from_plan config_of_acceptance
gate_config_from_plan-IsRunnable plan n config h e = of_acceptance (get_field "acceptance" plan) e
  where
    of_acceptance :
        (raw : Option Value) → config_of_acceptance raw n ≡ some config → IsRunnable config
    of_acceptance (some (obj raw)) e = elim (Option-cases (get_field "command" raw)) [
      | inl absent ↦ absurd (ground (arith, absent, e))
      | inr (str command, there) ↦
          config_of_command-IsRunnable command raw n config h (ground (arith, there, e))
      | inr (_, there) ↦ absurd (ground (arith, there, e))
    ]
    of_acceptance _ e = cc
