-- ===== src/Acceptance/Gate.antt =====
-- The acceptance gate of backend/api/app/domain/acceptance/gate.py. What the command runner answers
-- is an argument: an outcome, or the text of the exception that it raised.
pub mod Laws
mod Examples
use Prim.Native.String
use atlas_agent_control_plan.Prelude.{
  ℕ, zero, suc, ◌-◌, String, Bool, true, false, Option, none, some, List, [], ◌∷◌, leb, str_len,
  nat_beq, if◌then◌else◌,
}
use atlas_agent_control_plan.Prelude.Int.{ℤ, pos, negsuc}
use atlas_agent_control_plan.Prelude.Result.{Result, ok, err}
use atlas_agent_control_plan.Prelude.Text.{strip, is_empty}
use atlas_agent_control_plan.Acceptance.Config.{AcceptanceGateConfig}

pub record CommandOutcome : Type 0 where
  pub exit_code : Option ℤ
  pub output : String
  pub error : Option String
  pub duration_ms : ℕ

pub record AcceptanceGateResult : Type 0 where
  pub passed : Bool
  pub exit_code : Option ℤ
  pub command : String
  pub output_digest : String
  pub duration_ms : ℕ

abbrev pub output_digest_limit : ℕ
output_digest_limit = 2000

abbrev pub digest_truncation_mark : String
digest_truncation_mark = "...(已截断)"

-- text[:n]
unfoldable pub prefix : ℕ → String → String
prefix zero s = ""
prefix (suc n) String.[] = ""
prefix (suc n) (String.◌∷◌ c s) = String.◌∷◌ c (prefix n s)

-- s + t
unfoldable pub concat : String → String → String
concat String.[] t = t
concat (String.◌∷◌ c s) t = String.◌∷◌ c (concat s t)

unfoldable pub digest : String → String
unfolding prefix concat
digest output =
    let text = strip output in
    if leb (str_len text) output_digest_limit
    then text
    else concat (prefix (output_digest_limit - str_len digest_truncation_mark) text)
        digest_truncation_mark

abbrev pub int_eq : ℤ → ℤ → Bool
int_eq (pos a) (pos b) = nat_beq a b
int_eq (negsuc a) (negsuc b) = nat_beq a b
int_eq _ _ = false

-- exit_code in config.success_exit_codes
pub is_listed : ℤ → List ℤ → Bool
is_listed code [] = false
is_listed code (c ∷ rest) = if int_eq c code then true else is_listed code rest

unfoldable pub not_run : AcceptanceGateConfig → AcceptanceGateResult
not_run config = record {
  passed = false;
  exit_code = none;
  command = config.command;
  output_digest = "";
  duration_ms = 0;
}

judge : AcceptanceGateConfig → CommandOutcome → AcceptanceGateResult
judge config outcome = record {
  passed = elim outcome.exit_code [
    | none ↦ false
    | some code ↦ is_listed code config.success_exit_codes
  ];
  exit_code = outcome.exit_code;
  command = config.command;
  output_digest = digest outcome.output;
  duration_ms = outcome.duration_ms;
}

-- AcceptanceGate.verify; the `reason` texts are left out
unfoldable pub verify : AcceptanceGateConfig → Result String CommandOutcome → AcceptanceGateResult
unfolding judge not_run is_listed
verify config answer =
    if is_empty (strip config.command)
    then not_run config
    else elim answer [ err message ↦ not_run config | ok outcome ↦ judge config outcome ]
