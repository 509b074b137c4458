-- ===== src/Memories/Lifecycle/Examples.antt =====
-- The lifecycle on one memory.
use atlas_agent_control_plan.Prelude.{ℕ, ◌-◌, ◌*◌, ◌≡◌, refl, arith, none, some, [], ◌∷◌, false}
use atlas_agent_control_plan.Memories.Lifecycle.{
  AgentMemory, MemoryKind, MemoryStatus, MemoryAuthority, MemorySettings, anchor_of, apply_decay,
  run_lifecycle, is_consolidation_eligible, new_confidence,
}
use atlas_agent_control_plan.Memories.Lifecycle.Laws.{
  run_lifecycle-undoes_decay, apply_decay-compounds,
}

abbrev day_settings : MemorySettings
day_settings = record {
  decay_lambda_preference = 1;
  decay_lambda_fact = 5;
  decay_lambda_event = 10;
  decay_floor = 500;
  decay_min_drop = 100;
  consolidation_min_accesses = 3;
  consolidation_confidence = 8000;
  lifecycle_limit = 1000;
}

-- A straight line in place of the exponential.
abbrev less : ℕ → ℕ → ℕ → ℕ
less lambda ticks base = base - lambda * ticks

abbrev whole : ℕ → ℕ
whole c = c

abbrev hit_memory : AgentMemory
hit_memory = record {
  id = 1;
  kind = MemoryKind.episode;
  status = MemoryStatus.verified;
  authority = MemoryAuthority.suggested;
  confidence = 9000;
  provenance = "event" ∷ [];
  access_count = 3;
  last_accessed_at = some 100;
  created_at = some 10;
  valid_from = none;
  deleted = false;
}

abbrev verified_memory : AgentMemory
verified_memory = record hit_memory { authority = MemoryAuthority.verified }

-- The first decay of the memory, which the consolidation undoes.
first_decay :
    (apply_decay day_settings 10000 less whole 150 (hit_memory ∷ []) (hit_memory ∷ [])).1
    ≡ record hit_memory { confidence = 8500 } ∷ []
unfolding apply_decay
first_decay = refl

run_lifecycle-undoes_decay_example :
    (run_lifecycle day_settings 10000 less whole 150 (hit_memory ∷ [])).2 ≡ verified_memory ∷ []
unfolding is_consolidation_eligible
run_lifecycle-undoes_decay_example =
    run_lifecycle-undoes_decay day_settings 10000 less whole 150 hit_memory refl refl (omega arith)

apply_decay-compounds_example :
    (apply_decay day_settings 10000 less whole 150
      (apply_decay day_settings 10000 less whole 150 (hit_memory ∷ []) (hit_memory ∷ [])).1
      (apply_decay day_settings 10000 less whole 150 (hit_memory ∷ []) (hit_memory ∷ [])).1).1
    ≡ record hit_memory { confidence = 8000 } ∷ []
unfolding anchor_of new_confidence
apply_decay-compounds_example =
    apply_decay-compounds day_settings 10000 less whole 150 100 hit_memory refl refl refl refl
