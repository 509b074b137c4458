-- ===== src/Acceptance/Gate/Laws.antt =====
-- When the gate passes, and the bound on the digest of an output.
use atlas_agent_control_plan.Prelude.{
  ℕ, zero, suc, ◌+◌, ◌-◌, ◌≤◌, String, true, false, ◌≡◌, refl, ap, ◌↔◌, some, List, [], ◌∷◌, arith,
  str_len, get_elem?, leb, Bool-cases, Option-cases, inl, inr, nat_beq_iff,
}
use atlas_agent_control_plan.Prelude.Int.{ℤ, pos, negsuc}
use atlas_agent_control_plan.Prelude.Result.{Result, ok, err}
use atlas_agent_control_plan.Prelude.Text.{strip, is_empty}
use atlas_agent_control_plan.Prelude.Json.{Fields}
use atlas_agent_control_plan.Acceptance.Config.{AcceptanceGateConfig, gate_config_from_plan}
use atlas_agent_control_plan.Acceptance.Config.Laws.{gate_config_from_plan-IsRunnable}
use atlas_agent_control_plan.Acceptance.Gate.{
  CommandOutcome, output_digest_limit, digest_truncation_mark, prefix, concat, digest, int_eq,
  is_listed, not_run, judge, verify,
}

str_len-concat : (s t : String) → str_len (concat s t) ≡ str_len s + str_len t
unfolding concat
str_len-concat String.[] t = omega arith
str_len-concat (String.◌∷◌ c s) t = omega (arith, str_len-concat s t)

str_len-prefix : (n : ℕ) (s : String) → str_len (prefix n s) ≤ n
unfolding prefix
str_len-prefix zero s = omega arith
str_len-prefix (suc n) String.[] = omega arith
str_len-prefix (suc n) (String.◌∷◌ c s) = omega (arith, str_len-prefix n s)

-- A digest has at most `output_digest_limit` code points, however long the output is.
pub str_len-digest : (output : String) → str_len (digest output) ≤ output_digest_limit
unfolding digest
str_len-digest output = elim (Bool-cases (leb (str_len (strip output)) 2000)) [
  | inl short ↦ ground (arith, short)
  | inr long ↦ rw long (
      omega (
        arith,
        str_len-concat
            (prefix (output_digest_limit - str_len digest_truncation_mark) (strip output))
            digest_truncation_mark,
        str_len-prefix (output_digest_limit - str_len digest_truncation_mark) (strip output),
      ))
]

int_eq_iff : (a b : ℤ) → (int_eq a b ≡ true) ↔ (a ≡ b)
int_eq_iff (pos a) (pos b) =
    (λ h. ap pos ((nat_beq_iff a b).0 h), λ h. (nat_beq_iff a b).1 (ground (arith, h)))
int_eq_iff (negsuc a) (negsuc b) =
    (λ h. ap negsuc ((nat_beq_iff a b).0 h), λ h. (nat_beq_iff a b).1 (ground (arith, h)))
int_eq_iff (pos a) (negsuc b) = (λ h. cc, λ h. cc)
int_eq_iff (negsuc a) (pos b) = (λ h. cc, λ h. cc)

is_listed-found :
    (code : ℤ) (codes : List ℤ)
    → is_listed code codes ≡ true
    → (i : ℕ) × (get_elem? codes i ≡ some code)
unfolding is_listed
is_listed-found code [] h = cc
is_listed-found code (c ∷ rest) h = elim (Bool-cases (int_eq c code)) [
  | inl same ↦ (0, ap some ((int_eq_iff c code).0 same))
  | inr other ↦
      let (i, there) = is_listed-found code rest (ground (arith, other, h)) in (suc i, there)
]

found-is_listed :
    (code : ℤ) (codes : List ℤ) (i : ℕ)
    → get_elem? codes i ≡ some code
    → is_listed code codes ≡ true
unfolding is_listed
found-is_listed code [] i h = cc
found-is_listed code (c ∷ rest) zero h =
    let same = (int_eq_iff c code).1 (ground (arith, h)) in rw same
found-is_listed code (c ∷ rest) (suc i) h = ground (arith, found-is_listed code rest i h)

-- The gate passes exactly where the command is not blank, the runner returned an outcome, and the
-- outcome has an exit code that stands among the success codes.
pub verify-passed_iff :
    (config : AcceptanceGateConfig) (answer : Result String CommandOutcome)
    → ((verify config answer).passed ≡ true) ↔ (
        (is_empty (strip config.command) ≡ false)
        × ((outcome : CommandOutcome) × (answer ≡ ok outcome)
            × ((code : ℤ) × (outcome.exit_code ≡ some code)
                × ((i : ℕ) × (get_elem? config.success_exit_codes i ≡ some code)))))
unfolding verify judge not_run
verify-passed_iff config (err message) =
    (λ h. absurd (ground (arith, h)), λ (b, (o, e, r)). absurd (ground (arith, e)))
verify-passed_iff config (ok outcome) = elim (Bool-cases (is_empty (strip config.command))) [
  | inl blank ↦
      (λ h. absurd (ground (arith, blank, h)), λ (b, r). absurd (ground (arith, blank, b)))
  | inr text ↦ elim (Option-cases outcome.exit_code) [
    | inl absent ↦ (
      λ h. absurd (ground (arith, text, absent, h)),
      λ (b, (o, e, (c, f, r))). absurd (ground (arith, absent, e, f)),
    )
    | inr (code, there) ↦ (
      λ h. (
        text,
        (
          outcome,
          refl,
          (
            code,
            there,
            is_listed-found code config.success_exit_codes (ground (arith, text, there, h)),
          ),
        ),
      ),
      λ (b, (o, e, (c, f, (i, g)))).
          let listed =
            found-is_listed code config.success_exit_codes i (ground (arith, there, e, f, g)) in
          ground (arith, text, there, listed),
    )
  ]
]

-- Whatever the runner answers, the result names the command that it was asked to run, and its digest
-- is within the limit.
pub verify_reports :
    (config : AcceptanceGateConfig) (answer : Result String CommandOutcome)
    → ((verify config answer).command ≡ config.command)
      × (str_len (verify config answer).output_digest ≤ output_digest_limit)
unfolding verify judge not_run
verify_reports config answer = elim (Bool-cases (is_empty (strip config.command))) [
  | inl blank ↦ (ground (arith, blank), rw blank (omega arith))
  | inr text ↦ ran config answer text
]
  where
    ran :
        (config : AcceptanceGateConfig) (answer : Result String CommandOutcome)
        → is_empty (strip config.command) ≡ false
        → ((verify config answer).command ≡ config.command)
          × (str_len (verify config answer).output_digest ≤ output_digest_limit)
    ran config (err message) text = (rw text refl, rw text (omega arith))
    ran config (ok outcome) text = (rw text refl, rw text (str_len-digest outcome.output))

-- The command of a configuration that a plan yields is always run: the result carries the exit code
-- and the duration of the outcome, and passes exactly where the exit code is a success code.
pub verify_from_plan :
    (plan : Fields) (default_timeout : ℕ) (config : AcceptanceGateConfig) (outcome : CommandOutcome)
    (code : ℤ)
    → 1 ≤ default_timeout
    → gate_config_from_plan plan default_timeout ≡ some config
    → outcome.exit_code ≡ some code
    → ((verify config (ok outcome)).exit_code ≡ some code)
      × ((verify config (ok outcome)).duration_ms ≡ outcome.duration_ms)
      × (((verify config (ok outcome)).passed ≡ true)
          ↔ ((i : ℕ) × (get_elem? config.success_exit_codes i ≡ some code)))
unfolding verify judge
verify_from_plan plan n config outcome code h e there =
    let text = (gate_config_from_plan-IsRunnable plan n config h e).command in
    (
      rw text there,
      rw text refl,
      (
        rw (text, there) (is_listed-found code config.success_exit_codes),
        rw (text, there) λ (i, found). found-is_listed code config.success_exit_codes i found,
      ),
    )
