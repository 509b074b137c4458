-- ===== src/Tools/Resilience/Laws.antt =====
-- Which attempts run, what is retried and what the outcome says of them.
use atlas_agent_control_plan.Prelude.{
  ℕ, zero, suc, ◌+◌, ◌-◌, ◌≤◌, Bool, true, false, ◌≡◌, refl, ap, ◌∙◌, subst, ◌⊎◌, Option, none,
  some, List, [], ◌∷◌, ◌++◌, arith, length, length-append, Bool-cases, inl, inr,
}
use atlas_agent_control_plan.Prelude.Result.{Result, ok, err, >>=-eq-ok, ok_inj}
use atlas_agent_control_plan.Tools.Resilience.{
  ToolError, RetryEvent, RetryPolicy, ResilienceOutcome, LoopEnd, returned, gave_up, max_retries_of,
  retry_event, attempt_loop, conclude, execute_with_resilience,
}

module _ (V : Type 0) (retryable : ToolError → Bool) (policy : RetryPolicy)
    (operation : ℕ → Result ToolError V) where
  -- The attempts before attempt `k` failed with errors that may be retried, and the events record them.
  pub data Retried : ℕ → List RetryEvent → Type 0 where
    nothing_yet : Retried 1 []
    once_more :
        {k : ℕ} {events : List RetryEvent} (error : ToolError)
        → Retried k events
        → operation k ≡ err error
        → retryable error ≡ true
        → Retried (k + 1) (events ++ retry_event V retryable policy operation k error ∷ [])

  Retried-length : {k : ℕ} {events : List RetryEvent} → Retried k events → k ≡ length events + 1
  Retried-length nothing_yet = omega arith
  Retried-length (once_more {k = k} {events = events} error r e t) =
      let later = length-append events (retry_event V retryable policy operation k error ∷ []) in
      omega (arith, Retried-length r, later)

  -- What the end of the loop says of the attempts.
  abbrev IsEnd : LoopEnd V → Type 0
  IsEnd (returned value k events) =
      (operation k ≡ ok value) × Retried k events × (k ≤ 1 + max_retries_of policy)
  IsEnd (gave_up error k events) =
      (operation k ≡ err error)
      × Retried k events
      × ((k ≡ 1 + max_retries_of policy) ⊎ (retryable error ≡ false))
      × (k ≤ 1 + max_retries_of policy)

  Answered : Result ToolError V → Type 0
  Answered r = ((value : V) × (r ≡ ok value)) ⊎ ((error : ToolError) × (r ≡ err error))

  answered : (r : Result ToolError V) → Answered r
  unfolding Answered
  answered (ok value) = inl (value, refl)
  answered (err error) = inr (error, refl)

  attempt_loop-IsEnd :
      (left k : ℕ) (events : List RetryEvent)
      → Retried k events
      → k + left ≡ 1 + max_retries_of policy
      → IsEnd (attempt_loop V retryable policy operation left k events)
  unfolding attempt_loop Answered
  attempt_loop-IsEnd zero k events r n = elim (answered (operation k)) [
    | inl (value, e) ↦ rw (attempt_loop, e) (e, r, omega (arith, n))
    | inr (error, e) ↦ rw (attempt_loop, e) (e, r, inl (omega (arith, n)), omega (arith, n))
  ]
  attempt_loop-IsEnd (suc left) k events r n = elim (answered (operation k)) [
    | inl (value, e) ↦ rw (attempt_loop, e) (e, r, omega (arith, n))
    | inr (error, e) ↦ elim (Bool-cases (retryable error)) [
      | inr final ↦ rw (attempt_loop, e, final) (e, r, inr final, omega (arith, n))
      | inl again ↦
          rw (attempt_loop, e, again)
            (attempt_loop-IsEnd left (k + 1)
              (events ++ retry_event V retryable policy operation k error ∷ [])
              (once_more error r e again) (omega (arith, n)))
    ]
  ]

  -- An outcome of the operation itself, or of the fallback.
  pub data IsOutcome (fallback : Option (Result ToolError V)) (o : ResilienceOutcome V)
      : Type 0 where
    succeeded :
        operation o.attempts ≡ ok o.value
        → Retried o.attempts o.retry_events
        → o.attempts ≤ 1 + max_retries_of policy
        → o.fell_back ≡ false
        → IsOutcome fallback o
    degraded :
        (error : ToolError) (k : ℕ)
        → fallback ≡ some (ok o.value)
        → operation k ≡ err error
        → Retried k o.retry_events
        → (k ≡ 1 + max_retries_of policy) ⊎ (retryable error ≡ false)
        → o.last_error ≡ some error
        → o.fell_back ≡ true
        → IsOutcome fallback o

  conclude-IsOutcome :
      (fallback : Option (Result ToolError V)) (end : LoopEnd V) (o : ResilienceOutcome V)
      → IsEnd end
      → conclude V retryable policy operation fallback end ≡ ok o
      → IsOutcome fallback o
  unfolding conclude
  conclude-IsOutcome fallback (returned value k events) o (e, r, n) h =
      subst (IsOutcome fallback) (ok_inj h) (succeeded e r n refl)
  conclude-IsOutcome none (gave_up error k events) o s h = cc
  conclude-IsOutcome (some answer) (gave_up error k events) o (e, r, final, n) h =
      let (value, found, all) = >>=-eq-ok answer _ h in
      subst (IsOutcome (some answer)) (ok_inj all)
        (degraded error k (ap some found) e r final refl refl)

  -- An outcome carries the value of the attempt that it names, after attempts that all failed with
  -- errors that may be retried and that its events record, within the policy's attempts; or the value of
  -- the fallback, after an attempt that was the last one or failed with an error not to be retried.
  pub execute_with_resilience-IsOutcome :
      (fallback : Option (Result ToolError V)) (o : ResilienceOutcome V)
      → execute_with_resilience V retryable policy operation fallback ≡ ok o
      → IsOutcome fallback o
  unfolding execute_with_resilience
  execute_with_resilience-IsOutcome fallback o h =
      conclude-IsOutcome fallback
        (attempt_loop V retryable policy operation (max_retries_of policy) 1 []) o
        (attempt_loop-IsEnd (max_retries_of policy) 1 [] nothing_yet (omega arith)) h

  loop_reaches :
      {k : ℕ} {events : List RetryEvent} (left : ℕ)
      → Retried k events
      → k + left ≡ 1 + max_retries_of policy
      → attempt_loop V retryable policy operation (max_retries_of policy) 1 []
        ≡ attempt_loop V retryable policy operation left k events
  unfolding attempt_loop
  loop_reaches left nothing_yet n =
      ap (λ m. attempt_loop V retryable policy operation m 1 []) (omega (arith, n))
  loop_reaches left (once_more {k = k} {events = events} error r e again) n =
      loop_reaches (suc left) r (omega (arith, n)) ∙ rw (attempt_loop, e, again) refl

  -- Where the attempts before `k` fail with errors that may be retried and attempt `k`, within the
  -- policy's attempts, answers a value, that value is the outcome.
  pub execute_returns :
      (fallback : Option (Result ToolError V)) (k : ℕ) (events : List RetryEvent) (value : V)
      → Retried k events
      → operation k ≡ ok value
      → k ≤ 1 + max_retries_of policy
      → execute_with_resilience V retryable policy operation fallback
        ≡ ok (record {
          value = value;
          attempts = k;
          retry_events = events;
          fell_back = false;
          last_error = none;
        })
  unfolding execute_with_resilience
  execute_returns fallback k events value r e n =
      ap (conclude V retryable policy operation fallback) (
        loop_reaches (1 + max_retries_of policy - k) r (omega (arith, n))
        ∙ ends (1 + max_retries_of policy - k))
    where
      ends :
          (left : ℕ)
          → attempt_loop V retryable policy operation left k events ≡ returned value k events
      ends zero = rw (attempt_loop, e) refl
      ends (suc left) = rw (attempt_loop, e) refl

  -- Where the first attempt fails with an error that is not to be retried and there is a fallback, the
  -- outcome names all the attempts of the policy, though one ran and no retry is recorded.
  pub fallback_attempts :
      (error : ToolError) (value : V)
      → operation 1 ≡ err error
      → retryable error ≡ false
      → execute_with_resilience V retryable policy operation (some (ok value))
        ≡ ok (record {
          value = value;
          attempts = 1 + max_retries_of policy;
          retry_events = [];
          fell_back = true;
          last_error = some error;
        })
  unfolding execute_with_resilience
  fallback_attempts error value e final =
      ap (conclude V retryable policy operation (some (ok value))) (ends (max_retries_of policy))
    where
      ends : (left : ℕ) → attempt_loop V retryable policy operation left 1 [] ≡ gave_up error 1 []
      ends zero = rw (attempt_loop, e) refl
      ends (suc left) = rw (attempt_loop, e, final) refl
