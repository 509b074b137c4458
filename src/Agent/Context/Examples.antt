-- ===== src/Agent/Context/Examples.antt =====
-- A history of three steps in 30 characters.
use atlas_agent_control_plan.Prelude.{ℕ, ◌≤◌, ◌⊎◌, String, true, ◌≡◌, refl, List, [], ◌∷◌}
use atlas_agent_control_plan.Agent.Context.{ContextBudgetConfig, estimate_chars, compress}
use atlas_agent_control_plan.Agent.Context.Laws.{titles, compress-fits}

abbrev title_line : String → ℕ → String
title_line entry index = "step"

abbrev digits : ℕ → String
digits n = "9"

abbrev cfg : ContextBudgetConfig
cfg = record {
  max_history_chars = 30;
  recent_steps_full = 1;
  older_steps_digest_chars = 8;
  oldest_steps_title_only = true;
}

abbrev history : List String
history = "the first step was done" ∷ "the second step was done" ∷ "the third" ∷ []

-- The second step is down to its title too.
compresses : compress title_line digits cfg history ≡ "step" ∷ "step" ∷ "the third" ∷ []
unfolding compress
compresses = refl

compress-fits_example :
    (estimate_chars (compress title_line digits cfg history) ≤ 30)
    ⊎ (compress title_line digits cfg history ≡ titles title_line 0 history)
compress-fits_example = compress-fits title_line digits cfg history
