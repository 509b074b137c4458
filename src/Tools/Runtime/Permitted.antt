-- ===== src/Tools/Runtime/Permitted.antt =====
-- Which handlers a call runs, and how often.
use atlas_agent_control_plan.Prelude.{
  ℕ, zero, suc, ◌+◌, ◌*◌, ◌≤◌, String, true, ◌&&◌, ◌≡◌, ◌⊎◌, refl, ap, ◌∙◌, sym, Option, List, [],
  ◌∷◌, ◌++◌, length, length-append, All, All-append, arith, string_eq, Bool-cases, Option-cases,
  inl, inr,
}
use atlas_agent_control_plan.Prelude.Int.{pos_part}
use atlas_agent_control_plan.Prelude.Result.{Result, ok, err}
use atlas_agent_control_plan.Tools.Call.{ToolCallResult}
use atlas_agent_control_plan.Tools.Policy.{ToolExecutionContext}
use atlas_agent_control_plan.Tools.Resilience.{is_retryable_error_text}
use atlas_agent_control_plan.Tools.Runtime.{
  record_start, InvocationRow, Runtime, RuntimeState, RuntimeError, app_exception, other_exception,
  AgentTool, InvocationOutcome, is_cache_eligible, is_succeeded, is_failure, given, find_idempotent,
  read_cache, write_cache,
}
use atlas_agent_control_plan.Tools.Runtime.Execute.{
  start_row, run_started, Answer, replied, ran, decide, retries_of, retry_loop,
  invoke_with_resilience, finish_run, run_or_deny, ask_cache, with_arguments, execute_alone,
  settle_fallback, fallback_of, after_run, execute,
}

append_assoc {ℓ} : {A : Type ℓ} (xs ys zs : List A) → (xs ++ ys) ++ zs ≡ xs ++ (ys ++ zs)
append_assoc [] ys zs = refl
append_assoc (x ∷ xs) ys zs = ap (λ rest. x ∷ rest) (append_assoc xs ys zs)

append_nil {ℓ} : {A : Type ℓ} (xs : List A) → xs ++ [] ≡ xs
append_nil [] = refl
append_nil (x ∷ xs) = ap (λ rest. x ∷ rest) (append_nil xs)

-- How an exception or a value ends is told apart once.
pub Result-cases {ℓ κ} :
    {E : Type ℓ} {A : Type κ} (r : Result E A) → ((a : A) × (r ≡ ok a)) ⊎ ((e : E) × (r ≡ err e))
Result-cases (ok a) = inl (a, refl)
Result-cases (err e) = inr (e, refl)

module _ (runtime : Runtime) (context : ToolExecutionContext) where
  -- The registry has the tool, and the policy lets it run.
  abbrev pub MayRun : String → Type 0
  MayRun name =
      (tool : AgentTool) × (runtime.registry name ≡ ok tool)
      × ((decide runtime name tool context).executable ≡ true)

  -- At most n handlers ran in between, each of a tool that may run.
  pub record Ran (n : ℕ) (before after : List String) : Type 0 where
    pub new : List String
    pub grows : after ≡ before ++ new
    pub permitted : All MayRun new
    pub bounded : length new ≤ n

  none-Ran : (n : ℕ) (before : List String) → Ran n before before
  none-Ran n before = record {
    new = [];
    grows = sym (append_nil before);
    permitted = tt;
    bounded = omega arith;
  }

  then-Ran :
      (n m : ℕ) {before between after : List String}
      → Ran n before between
      → Ran m between after
      → Ran (n + m) before after
  then-Ran n m {before = before} r s = record {
    new = r.new ++ s.new;
    grows = s.grows ∙ ap (λ xs. xs ++ s.new) r.grows ∙ append_assoc before r.new s.new;
    permitted = All-append MayRun r.new s.new r.permitted s.permitted;
    bounded = omega (arith, length-append r.new s.new, r.bounded, s.bounded);
  }

  weaken-Ran :
      (n m : ℕ) {before after : List String} → n ≤ m → Ran n before after → Ran m before after
  weaken-Ran n m le r = record {
    new = r.new;
    grows = r.grows;
    permitted = r.permitted;
    bounded = omega (arith, le, r.bounded);
  }

  one-Ran :
      (name : String) (before : List String) → MayRun name → Ran 1 before (before ++ name ∷ [])
  one-Ran name before may = record {
    new = name ∷ [];
    grows = refl;
    permitted = (may, tt);
    bounded = omega arith;
  }

  retry_loop-Ran :
      (left : ℕ) (name : String) (tool : AgentTool) (arguments : String) (invoked : List String)
      (outcome : InvocationOutcome)
      → MayRun name
      → Ran left invoked (retry_loop runtime left name tool arguments invoked outcome).0
  unfolding retry_loop
  retry_loop-Ran zero name tool arguments invoked outcome may = none-Ran 0 invoked
  retry_loop-Ran (suc left) name tool arguments invoked outcome may =
      elim (Bool-cases
        (is_failure outcome.status && is_retryable_error_text runtime.lower outcome.error)) [
          | inr ends ↦ rw ends (none-Ran (suc left) invoked)
          | inl again ↦ rw again (
              weaken-Ran (1 + left) (suc left) (omega arith) (
                then-Ran 1 left (one-Ran name invoked may)
                  (retry_loop-Ran left name tool arguments _ _ may)))
        ]

  finish_run-invoked :
      (name : String) (key : Option String) (cache_key : String) (tool : AgentTool)
      (result : ToolCallResult) (error : String) (id now : ℕ) (state : RuntimeState)
      → (finish_run runtime name key cache_key tool result error id now state).0.invoked
        ≡ state.invoked
  unfolding finish_run
  finish_run-invoked name key cache_key tool result error id now state =
      elim (Result-cases (
        write_cache (is_cache_eligible tool && is_succeeded result.status) state.result_cache
          cache_key result tool.cache_ttl_seconds now)) [
            | inl (cache, e) ↦ rw (finish_run, e) refl
            | inr (raised, e) ↦ rw (finish_run, e) refl
          ]

  -- The most invocations of one execution.
  abbrev pub most : AgentTool → ℕ
  most tool = 1 + retries_of runtime tool

  invoke-Ran :
      (name arguments : String) (tool : AgentTool) (invoked : List String)
      → MayRun name
      → Ran (most tool) invoked (invoke_with_resilience runtime name tool arguments invoked).0
  unfolding invoke_with_resilience
  invoke-Ran name arguments tool invoked may =
      then-Ran 1 (retries_of runtime tool) (one-Ran name invoked may)
        (retry_loop-Ran (retries_of runtime tool) name tool arguments _ _ may)

  run_started-Ran :
      (name arguments request_hash : String) (tool : AgentTool) (now : ℕ)
      (rows : Option (List InvocationRow)) (state : RuntimeState)
      → runtime.registry name ≡ ok tool
      → Ran
          (most tool)
          state.invoked
          (run_started runtime name arguments request_hash tool context now rows state).0.invoked
  unfolding run_started
  run_started-Ran name arguments request_hash tool now rows state known =
      elim (Bool-cases (decide runtime name tool context).executable) [
        | inr denied ↦ rw denied (none-Ran _ state.invoked)
        | inl allowed ↦
            rw (allowed, finish_run-invoked name _ _ tool _ _ state.next_id now _)
              (invoke-Ran name arguments tool state.invoked (tool, known, allowed))
      ]

  run_or_deny-Ran :
      (name arguments request_hash : String) (tool : AgentTool) (now : ℕ) (state : RuntimeState)
      → runtime.registry name ≡ ok tool
      → Ran
          (most tool)
          state.invoked
          (run_or_deny runtime name arguments request_hash tool context now state).0.invoked
  unfolding run_or_deny
  run_or_deny-Ran name arguments request_hash tool now state known =
      elim (Result-cases (
        record_start
          (start_row runtime name arguments request_hash tool context
            (decide runtime name tool context) state.next_id)
          state.rows)) [
            | inr (raised, e) ↦ rw (run_or_deny, e) (none-Ran _ state.invoked)
            | inl (rows, e) ↦
                rw (run_or_deny, e)
                  (run_started-Ran name arguments request_hash tool now rows state known)
          ]

  ask_cache-Ran :
      (name arguments request_hash : String) (tool : AgentTool) (now : ℕ) (state : RuntimeState)
      → runtime.registry name ≡ ok tool
      → Ran
          (most tool)
          state.invoked
          (ask_cache runtime name arguments request_hash tool context now state).0.invoked
  unfolding ask_cache
  ask_cache-Ran name arguments request_hash tool now state known =
      let asked =
        read_cache ((decide runtime name tool context).executable && is_cache_eligible tool)
          state.result_cache (runtime.build_key name tool.definition.version arguments) now in
      elim (Option-cases asked.0) [
        | inr (cached, e) ↦ rw (ask_cache, e) (none-Ran _ state.invoked)
        | inl e ↦
            rw (ask_cache, e)
              (run_or_deny-Ran name arguments request_hash tool now
                (record state { result_cache = asked.1 }) known)
      ]

  retries_of-le :
      (tool : AgentTool) → retries_of runtime tool ≤ pos_part runtime.retry_policy.max_retries
  unfolding retries_of
  retries_of-le tool = ground arith

  with_arguments-Ran :
      (name arguments : String) (tool : AgentTool) (now : ℕ) (state : RuntimeState)
      → runtime.registry name ≡ ok tool
      → Ran
          (most tool)
          state.invoked
          (with_arguments runtime name arguments tool context now state).0.invoked
  unfolding with_arguments
  with_arguments-Ran name arguments tool now state known =
      let request_hash = runtime.request_hash name tool.definition.version arguments in
      elim (Result-cases
        (find_idempotent name (given context.idempotency_key) request_hash state)) [
          | inr (raised, e) ↦ rw (with_arguments, e) (none-Ran _ state.invoked)
          | inl (found, e) ↦ elim (Option-cases found) [
            | inl f ↦
                rw (with_arguments, e, f)
                  (ask_cache-Ran name arguments request_hash tool now state known)
            | inr (cached, f) ↦ rw (with_arguments, e, f) (none-Ran _ state.invoked)
          ]
        ]

  -- An execution of a tool without its fallback runs only its handler, where the policy lets it: once,
  -- and again for each retry.
  pub execute_alone-Ran :
      (name arguments : String) (now : ℕ) (state : RuntimeState)
      → Ran
          (1 + pos_part runtime.retry_policy.max_retries)
          state.invoked
          (execute_alone runtime name arguments context now state).0.invoked
  unfolding execute_alone
  execute_alone-Ran name arguments now state = elim (Result-cases (runtime.registry name)) [
    | inr (raised, e) ↦ rw (execute_alone, e) (none-Ran _ state.invoked)
    | inl (tool, e) ↦ elim (Result-cases (runtime.validate tool arguments)) [
      | inr (raised, f) ↦ rw (execute_alone, e, f) (none-Ran _ state.invoked)
      | inl (checked, f) ↦
          rw (execute_alone, e, f)
            (weaken-Ran (most tool) _ (omega (arith, retries_of-le tool))
              (with_arguments-Ran name checked tool now state e))
    ]
  ]

  pub settle_fallback-state :
      (primary_name : String) (primary : ToolCallResult) (state : RuntimeState)
      (answer : Result RuntimeError Answer)
      → (settle_fallback runtime primary_name primary (state, answer)).0 ≡ state
  unfolding settle_fallback
  settle_fallback-state primary_name primary state (ok answer) = refl
  settle_fallback-state primary_name primary state (err (app_exception message)) = refl
  settle_fallback-state primary_name primary state (err (other_exception message)) = refl

  after_run-Ran :
      (name arguments : String) (now : ℕ) (state : RuntimeState)
      (answer : Result RuntimeError Answer)
      → Ran
          (1 + pos_part runtime.retry_policy.max_retries)
          state.invoked
          (after_run runtime name arguments context now (state, answer)).0.invoked
  unfolding after_run
  after_run-Ran name arguments now state (err raised) = none-Ran _ state.invoked
  after_run-Ran name arguments now state (ok (replied result)) = none-Ran _ state.invoked
  after_run-Ran name arguments now state (ok (ran tool result error)) =
      elim (Option-cases (fallback_of runtime name tool)) [
        | inl e ↦ rw (after_run, e) (none-Ran _ state.invoked)
        | inr (fallback, e) ↦ elim (Bool-cases (is_failure result.status)) [
          | inr fine ↦ rw (after_run, e, fine) (none-Ran _ state.invoked)
          | inl failed ↦
              rw
                (
                  after_run,
                  e,
                  failed,
                  settle_fallback-state tool.definition.name result
                      (execute_alone runtime fallback arguments context now state).0
                      (execute_alone runtime fallback arguments context now state).1,
                )
                (execute_alone-Ran fallback arguments now state)
        ]
      ]

  -- A call, its fallback included, runs only handlers of tools that are registered and that the policy
  -- lets run in its context, at most twice as many as the attempts of the retry policy.
  pub execute-Ran :
      (name arguments : String) (now : ℕ) (state : RuntimeState)
      → Ran
          (2 * (1 + pos_part runtime.retry_policy.max_retries))
          state.invoked
          (execute runtime name arguments context now state).0.invoked
  unfolding execute
  execute-Ran name arguments now state =
      let alone = execute_alone runtime name arguments context now state in
      weaken-Ran _ _ (omega arith) (
        then-Ran (1 + pos_part runtime.retry_policy.max_retries)
          (1 + pos_part runtime.retry_policy.max_retries)
          (execute_alone-Ran name arguments now state)
          (after_run-Ran name arguments now alone.0 alone.1))
