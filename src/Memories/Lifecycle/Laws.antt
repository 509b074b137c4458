-- ===== src/Memories/Lifecycle/Laws.antt =====
-- What decay and consolidation do to a memory of the store.
use atlas_agent_control_plan.Prelude.{
  ℕ, ◌+◌, ◌-◌, ◌<◌, zero, suc, Bool, true, false, not, ◌||◌, Option, none, some, List, [], ◌∷◌,
  take, ltb, min, max, nat_eq, if◌then◌else◌, ◌≡◌, refl, ap, ◌∙◌, arith, Bool-cases, inl, inr,
  nat_beq_iff,
}
use atlas_agent_control_plan.Memories.Lifecycle.{
  AgentMemory, MemoryAuthority, MemorySettings, MemoryDecayRecord, update, decay_confidence,
  new_confidence, decay_one, apply_decay, consolidate, consolidate_each, list_for_lifecycle,
  run_lifecycle, is_consolidation_eligible, anchor_of, decay_lambda,
}

update-found :
    (id : ℕ) (change : AgentMemory → AgentMemory) (row : AgentMemory) (rows : List AgentMemory)
    → row.id ≡ id
    → row.deleted ≡ false
    → update id change (row ∷ rows) ≡ (some (change row), change row ∷ rows)
unfolding update
update-found id change row rows same kept = rw ((nat_beq_iff row.id id).1 same, kept) refl

if-true {ℓ} : {A : Type ℓ} (x y : A) (b : Bool) → b ≡ true → (if b then x else y) ≡ x
if-true x y b h = ap (λ t. if t then x else y) h

if-false {ℓ} : {A : Type ℓ} (x y : A) (b : Bool) → b ≡ false → (if b then x else y) ≡ y
if-false x y b h = ap (λ t. if t then x else y) h

or-true : (a : Bool) {b : Bool} → b ≡ true → (a || b) ≡ true
or-true true h = refl
or-true false h = h

or-false : {a b : Bool} → a ≡ false → b ≡ false → (a || b) ≡ false
or-false f g = rw (f, g) refl

with_record :
    AgentMemory
    → (Option AgentMemory × List AgentMemory)
    → Option MemoryDecayRecord × List AgentMemory
with_record m u = elim (u.0) [
  | none ↦ (none, u.1)
  | some row ↦ (
    some (record {
      memory_id = m.id;
      kind = m.kind;
      old_confidence = m.confidence;
      new_confidence = row.confidence;
    }),
    u.1,
  )
]

take-none : (limit : ℕ) → take {A = AgentMemory} limit [] ≡ []
take-none zero = refl
take-none (suc limit) = refl

take-one : (m : AgentMemory) (limit : ℕ) → 0 < limit → take limit (m ∷ []) ≡ m ∷ []
take-one m zero h = absurd (omega arith)
take-one m (suc limit) h = ap (λ rest. m ∷ rest) (take-none limit)

not-true : {b : Bool} → not b ≡ true → b ≡ false
not-true {b} h = ground (arith, h)

module _ (settings : MemorySettings) (one : ℕ) (forget : ℕ → ℕ → ℕ → ℕ) (round4 : ℕ → ℕ) where
  -- A memory that the decay left at some confidence.
  abbrev pub at_confidence : AgentMemory → ℕ → AgentMemory
  at_confidence m c = record m { confidence = c }

  decay-small :
      (now : ℕ) (m : AgentMemory) (rows : List AgentMemory)
      → ltb m.confidence (new_confidence settings one forget round4 now m + settings.decay_min_drop)
        ≡ true
      → decay_one settings one forget round4 now m rows ≡ (none, rows)
  unfolding decay_one
  decay-small now m rows small = if-true _ _ _ (or-true m.deleted small)

  decay-large :
      (now : ℕ) (m : AgentMemory) (rows : List AgentMemory)
      → m.deleted ≡ false
      → ltb m.confidence (new_confidence settings one forget round4 now m + settings.decay_min_drop)
        ≡ false
      → (decay_one settings one forget round4 now m (m ∷ rows)).1
        ≡ at_confidence m (min one (round4 (new_confidence settings one forget round4 now m)))
          ∷ rows
  unfolding decay_one with_record
  decay-large now m rows kept large =
      ap (λ d. d.1)
        (if-false _ _ _ (or-false kept large)
          ∙ ap (with_record m) (
              update-found m.id
                (λ row.
                  at_confidence row
                    (min one (round4 (new_confidence settings one forget round4 now m))))
                m rows refl kept))

  decay-first :
      (now : ℕ) (m : AgentMemory)
      → m.deleted ≡ false
      → (c : ℕ) × ((apply_decay settings one forget round4 now (m ∷ []) (m ∷ [])).1
          ≡ at_confidence m c ∷ [])
  unfolding apply_decay
  decay-first now m kept =
      elim (Bool-cases (
        ltb m.confidence
          (new_confidence settings one forget round4 now m + settings.decay_min_drop))) [
            | inl small ↦ (m.confidence, ap (λ d. d.1) (decay-small now m (m ∷ []) small))
            | inr large ↦ (
              min one (round4 (new_confidence settings one forget round4 now m)),
              decay-large now m [] kept large,
            )
          ]

  listed :
      (m : AgentMemory)
      → m.deleted ≡ false
      → 0 < settings.lifecycle_limit
      → list_for_lifecycle (some settings.lifecycle_limit) (m ∷ []) ≡ m ∷ []
  unfolding list_for_lifecycle
  listed m kept positive =
      ap (take settings.lifecycle_limit) (if-true _ _ _ (ap not kept))
      ∙ take-one m settings.lifecycle_limit positive

  -- What a consolidation of a memory, as it was read, makes of its row.
  abbrev pub consolidated : AgentMemory → AgentMemory → AgentMemory
  consolidated memory row = record row {
    authority = MemoryAuthority.verified;
    confidence = min one (max memory.confidence settings.consolidation_confidence);
  }

  consolidate-eligible :
      (m : AgentMemory) (rows : List AgentMemory)
      → is_consolidation_eligible settings.consolidation_min_accesses m ≡ true
      → consolidate settings one forget round4 m rows ≡ update m.id (consolidated m) rows
  unfolding consolidate
  consolidate-eligible m rows eligible = if-true _ _ _ eligible

  -- A run of the lifecycle, of a limit that is not 0, over a store of one memory that is not deleted
  -- and that is to be consolidated leaves it verified, at the larger of the confidence before the run
  -- and the one of the consolidation, at most 1.0: whatever the decay of the run wrote is lost.
  pub run_lifecycle-undoes_decay :
      (now : ℕ) (m : AgentMemory)
      → m.deleted ≡ false
      → is_consolidation_eligible settings.consolidation_min_accesses m ≡ true
      → 0 < settings.lifecycle_limit
      → (run_lifecycle settings one forget round4 now (m ∷ [])).2 ≡ consolidated m m ∷ []
  unfolding run_lifecycle consolidate_each
  run_lifecycle-undoes_decay now m kept eligible positive =
      let (c, decayed) = decay-first now m kept in
      ap
        (λ l.
          (consolidate_each settings one forget round4 l
            (apply_decay settings one forget round4 now l (m ∷ [])).1).1)
        (listed m kept positive)
      ∙ ap (λ rows. (consolidate_each settings one forget round4 (m ∷ []) rows).1) decayed
      ∙ ap (λ d. d.1)
          (consolidate-eligible m (at_confidence m c ∷ []) eligible
            ∙ update-found m.id (consolidated m) (at_confidence m c) [] refl kept)

  -- The confidence that a decay writes for a memory of a confidence, with its times as they are.
  abbrev pub decayed_from : ℕ → AgentMemory → ℕ → ℕ
  decayed_from now m c =
      min one (round4 (new_confidence settings one forget round4 now (at_confidence m c)))

  abbrev pub drops_from : ℕ → AgentMemory → ℕ → Bool
  drops_from now m c = not (
      ltb c (
        new_confidence settings one forget round4 now (at_confidence m c)
        + settings.decay_min_drop))

  -- The confidence that is written where the time since `anchor` is forgotten from a confidence.
  abbrev pub forgotten : ℕ → ℕ → AgentMemory → ℕ → ℕ
  forgotten now anchor m c = min one (
      round4 (
        max (forget (decay_lambda settings m.kind) (now - anchor) (min one c))
          settings.decay_floor))

  decayed_from-forgotten :
      (now anchor : ℕ) (m : AgentMemory) (c : ℕ)
      → anchor_of m ≡ some anchor
      → decayed_from now m c ≡ forgotten now anchor m c
  unfolding new_confidence decay_confidence anchor_of
  decayed_from-forgotten now anchor m c known =
      ap
        (λ time. min one (
          round4 (
            max
              (elim time [
                | none ↦ min one c
                | some since ↦ forget (decay_lambda settings m.kind) (now - since) (min one c)
              ])
              settings.decay_floor)))
        known

  apply_decay-large :
      (now : ℕ) (m : AgentMemory) (c : ℕ)
      → m.deleted ≡ false
      → drops_from now m c ≡ true
      → (apply_decay settings one forget round4 now
          (at_confidence m c ∷ [])
          (at_confidence m c ∷ [])).1
        ≡ at_confidence m (decayed_from now m c) ∷ []
  unfolding apply_decay
  apply_decay-large now m c kept large =
      decay-large now (at_confidence m c) [] kept (not-true large)

  -- Two decays in a row at the same time over a store of one memory, each over the row as it is then,
  -- where the memory is not deleted, has a time `anchor` and drops enough each time: the second one
  -- takes the confidence that the first one wrote and forgets over the whole time since `anchor` again.
  pub apply_decay-compounds :
      (now anchor : ℕ) (m : AgentMemory)
      → anchor_of m ≡ some anchor
      → m.deleted ≡ false
      → drops_from now m m.confidence ≡ true
      → drops_from now m (decayed_from now m m.confidence) ≡ true
      → (apply_decay settings one forget round4 now
          (apply_decay settings one forget round4 now (m ∷ []) (m ∷ [])).1
          (apply_decay settings one forget round4 now (m ∷ []) (m ∷ [])).1).1
        ≡ at_confidence m (forgotten now anchor m (forgotten now anchor m m.confidence)) ∷ []
  apply_decay-compounds now anchor m known kept once twice =
      ap (λ rows. (apply_decay settings one forget round4 now rows rows).1)
        (apply_decay-large now m m.confidence kept once)
      ∙ apply_decay-large now m (decayed_from now m m.confidence) kept twice
      ∙ ap (λ c. at_confidence m c ∷ [])
          (ap (decayed_from now m) (decayed_from-forgotten now anchor m m.confidence known)
            ∙ decayed_from-forgotten now anchor m (forgotten now anchor m m.confidence) known)
