-- ===== src/Memories/Lifecycle.antt =====
-- backend/api/app/domain/memories/lifecycle.py: decay and consolidation, on the rows of the memory
-- repository. A confidence is a number of units of which `one` make 1.0; `forget lambda ticks base`
-- stands for base * exp(-lambda * days) and `round4` for round(x, 4). Audit events are left out.
pub mod Laws
mod Examples
use atlas_agent_control_plan.Prelude.{
  ℕ, ◌+◌, ◌-◌, String, Bool, true, false, not, ◌&&◌, ◌||◌, Option, none, some, List, [], ◌∷◌, take,
  keep_if, leb, ltb, min, max, nat_eq, ◌==◌, if◌then◌else◌,
}

pub data MemoryKind : Type 0 where
  user_preference project_fact task_experience constraint requirement decision environment
        bug_lesson episode code_fact :
      MemoryKind

pub data MemoryStatus : Type 0 where
  candidate verified superseded expired deleted : MemoryStatus

pub data MemoryAuthority : Type 0 where
  explicit_user tool_verified test_verified suggested verified agent_inferred : MemoryAuthority

-- The fields of AgentMemory that the lifecycle reads; `deleted` is whether deleted_at is set.
pub record AgentMemory : Type 0 where
  pub id : ℕ
  pub kind : MemoryKind
  pub status : MemoryStatus
  pub authority : MemoryAuthority
  pub confidence : ℕ
  pub provenance : List String
  pub access_count : ℕ
  pub last_accessed_at : Option ℕ
  pub created_at : Option ℕ
  pub valid_from : Option ℕ
  pub deleted : Bool

pub record MemorySettings : Type 0 where
  pub decay_lambda_preference : ℕ
  pub decay_lambda_fact : ℕ
  pub decay_lambda_event : ℕ
  pub decay_floor : ℕ
  pub decay_min_drop : ℕ
  pub consolidation_min_accesses : ℕ
  pub consolidation_confidence : ℕ
  pub lifecycle_limit : ℕ

pub record MemoryDecayRecord : Type 0 where
  pub memory_id : ℕ
  pub kind : MemoryKind
  pub old_confidence : ℕ
  pub new_confidence : ℕ

unfoldable pub decay_lambda : MemorySettings → MemoryKind → ℕ
decay_lambda settings MemoryKind.user_preference = settings.decay_lambda_preference
decay_lambda settings MemoryKind.episode = settings.decay_lambda_event
decay_lambda settings MemoryKind.task_experience = settings.decay_lambda_event
decay_lambda settings MemoryKind.bug_lesson = settings.decay_lambda_event
decay_lambda settings _ = settings.decay_lambda_fact

-- a or b, for times
unfoldable pub or_time : Option ℕ → Option ℕ → Option ℕ
or_time none other = other
or_time (some time) other = some time

unfoldable pub anchor_of : AgentMemory → Option ℕ
unfolding or_time
anchor_of memory = or_time memory.last_accessed_at (or_time memory.created_at memory.valid_from)

-- AgentMemoryRepository.list_for_lifecycle
unfoldable pub list_for_lifecycle : Option ℕ → List AgentMemory → List AgentMemory
list_for_lifecycle none rows = keep_if (λ (row : AgentMemory). not row.deleted) rows
list_for_lifecycle (some limit) rows =
    take limit (keep_if (λ (row : AgentMemory). not row.deleted) rows)

-- AgentMemoryRepository.update, which also puts a confidence between 0 and 1 (written where it is
-- called), of a row that is not deleted, with the row that it answers
unfoldable pub update :
    ℕ → (AgentMemory → AgentMemory) → List AgentMemory → Option AgentMemory × List AgentMemory
update memory_id change [] = (none, [])
update memory_id change (row ∷ rows) =
    let (found, rest) = update memory_id change rows in
    if row.id == memory_id && not row.deleted
    then (some (change row), change row ∷ rows)
    else (found, row ∷ rest)

unfoldable pub is_verified_status : MemoryStatus → Bool
is_verified_status MemoryStatus.verified = true
is_verified_status _ = false

unfoldable pub is_suggested : MemoryAuthority → Bool
is_suggested MemoryAuthority.suggested = true
is_suggested _ = false

unfoldable pub has_provenance : List String → Bool
has_provenance [] = false
has_provenance (source ∷ sources) = true

-- is_consolidation_eligible, without its reasons
unfoldable pub is_consolidation_eligible : ℕ → AgentMemory → Bool
unfolding is_verified_status is_suggested has_provenance
is_consolidation_eligible min_accesses memory =
    leb min_accesses memory.access_count
    && is_verified_status memory.status
    && has_provenance memory.provenance
    && is_suggested memory.authority

module _ (settings : MemorySettings) (one : ℕ) (forget : ℕ → ℕ → ℕ → ℕ) (round4 : ℕ → ℕ) where
  unfoldable pub decay_confidence : ℕ → AgentMemory → ℕ
  unfolding anchor_of decay_lambda
  decay_confidence now memory =
      let base = min one memory.confidence in
      elim (anchor_of memory) [
        | none ↦ base
        | some anchor ↦ forget (decay_lambda settings memory.kind) (now - anchor) base
      ]

  -- max(decay_confidence(memory), floor)
  unfoldable pub new_confidence : ℕ → AgentMemory → ℕ
  unfolding decay_confidence
  new_confidence now memory = max (decay_confidence now memory) settings.decay_floor

  -- The body of the loop of apply_decay; the difference of the two confidences may be below zero.
  unfoldable pub decay_one :
      ℕ → AgentMemory → List AgentMemory → Option MemoryDecayRecord × List AgentMemory
  unfolding new_confidence update
  decay_one now memory rows =
      if memory.deleted
        || ltb memory.confidence (new_confidence now memory + settings.decay_min_drop)
      then (none, rows)
      else (let (updated, rows') =
            update memory.id
              (λ row. record row { confidence = min one (round4 (new_confidence now memory)) })
              rows in
          elim updated [
            | none ↦ (none, rows')
            | some row ↦ (
              some (record {
                memory_id = memory.id;
                kind = memory.kind;
                old_confidence = memory.confidence;
                new_confidence = row.confidence;
              }),
              rows',
            )
          ])

  unfoldable pub add_record :
      Option MemoryDecayRecord → List MemoryDecayRecord → List MemoryDecayRecord
  add_record none records = records
  add_record (some decay) records = decay ∷ records

  unfoldable pub apply_decay :
      ℕ → List AgentMemory → List AgentMemory → List MemoryDecayRecord × List AgentMemory
  unfolding decay_one add_record
  apply_decay now [] rows = ([], rows)
  apply_decay now (memory ∷ memories) rows =
      let (decay, rows') = decay_one now memory rows in
      let (records, rows'') = apply_decay now memories rows' in (add_record decay records, rows'')

  unfoldable pub consolidate :
      AgentMemory → List AgentMemory → Option AgentMemory × List AgentMemory
  unfolding is_consolidation_eligible update
  consolidate memory rows =
      if is_consolidation_eligible settings.consolidation_min_accesses memory
      then update memory.id
          (λ row. record row {
            authority = MemoryAuthority.verified;
            confidence = min one (max memory.confidence settings.consolidation_confidence);
          })
          rows
      else (none, rows)

  -- The second loop of run_lifecycle, over the memories that were read before the decay.
  unfoldable pub consolidate_each : List AgentMemory → List AgentMemory → List ℕ × List AgentMemory
  unfolding consolidate
  consolidate_each [] rows = ([], rows)
  consolidate_each (memory ∷ memories) rows =
      let (updated, rows') = consolidate memory rows in
      let (ids, rows'') = consolidate_each memories rows' in
      (elim updated [ none ↦ ids | some row ↦ row.id ∷ ids ], rows'')

  -- run_lifecycle: what decayed, what was consolidated, and the rows after it
  unfoldable pub run_lifecycle :
      ℕ → List AgentMemory → List MemoryDecayRecord × List ℕ × List AgentMemory
  unfolding apply_decay consolidate_each list_for_lifecycle
  run_lifecycle now rows =
      let memories = list_for_lifecycle (some settings.lifecycle_limit) rows in
      let (decayed, rows') = apply_decay now memories rows in
      let (consolidated, rows'') = consolidate_each memories rows' in
      (decayed, consolidated, rows'')
