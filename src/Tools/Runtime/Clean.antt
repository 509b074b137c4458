-- ===== src/Tools/Runtime/Clean.antt =====
-- What the two caches of the runtime hold.
use atlas_agent_control_plan.Prelude.{
  ℕ, String, Bool, true, ◌&&◌, ◌≡◌, subst, Option, none, some, List, [], ◌∷◌, All, arith, string_eq,
  ◌==◌, Bool-cases, Option-cases, inl, inr,
}
use atlas_agent_control_plan.Prelude.Int.{ℤ}
use atlas_agent_control_plan.Prelude.Result.{Result, ok, err, ok_inj}
use atlas_agent_control_plan.Tools.Cache
use atlas_agent_control_plan.Tools.Cache.{ToolResultCache}
use atlas_agent_control_plan.Tools.Cache.Values.{CacheValues, get-Values, put-Values}
use atlas_agent_control_plan.Tools.Call.{ToolCallResult}
use atlas_agent_control_plan.Tools.Policy.{ToolExecutionContext}
use atlas_agent_control_plan.Tools.Runtime.{
  record_start, InvocationRow, Runtime, RuntimeState, RuntimeError, AgentTool, is_cache_eligible,
  is_succeeded, is_failure, given, find_idempotent, read_cache, write_cache, remember_success,
  put_memory,
}
use atlas_agent_control_plan.Tools.Runtime.Execute.{
  start_row, run_started, Answer, replied, ran, decide, finish_run, run_or_deny, ask_cache,
  with_arguments, execute_alone, fallback_of, after_run, execute,
}
use atlas_agent_control_plan.Tools.Runtime.Permitted.{Result-cases, settle_fallback-state}

abbrev pub Succeeded : ToolCallResult → Type 0
Succeeded result = is_succeeded result.status ≡ true

abbrev pub IsCleanCache : Option (ToolResultCache ToolCallResult) → Type 0
IsCleanCache none = Unit
IsCleanCache (some cache) = CacheValues Succeeded cache

abbrev pub IsCleanMemory : List ((String × String) × ToolCallResult) → Type 0
IsCleanMemory memory = All (λ kv. Succeeded kv.1) memory

-- Both hold results of succeeded runs only.
pub record IsClean (state : RuntimeState) : Type 0 where
  pub cache : IsCleanCache state.result_cache
  pub memory : IsCleanMemory state.memory_idempotency

read_cache-Clean :
    (usable : Bool) (cache : Option (ToolResultCache ToolCallResult)) (key : String) (now : ℕ)
    → IsCleanCache cache
    → IsCleanCache (read_cache usable cache key now).1
unfolding read_cache
read_cache-Clean usable none key now h = tt
read_cache-Clean usable (some cache) key now h = elim (Bool-cases usable) [
  | inl asked ↦ rw asked (get-Values Succeeded key now cache h).1
  | inr skipped ↦ rw skipped h
]

write_cache-Clean :
    (usable : Bool) (cache cache' : Option (ToolResultCache ToolCallResult)) (key : String)
    (result : ToolCallResult) (ttl : ℤ) (now : ℕ)
    → (usable ≡ true → Succeeded result)
    → IsCleanCache cache
    → write_cache usable cache key result ttl now ≡ ok cache'
    → IsCleanCache cache'
unfolding write_cache
write_cache-Clean usable none cache' key result ttl now fine h e = subst IsCleanCache (ok_inj e) tt
write_cache-Clean usable (some cache) cache' key result ttl now fine h e =
    elim (Bool-cases usable) [
      | inr skipped ↦ subst IsCleanCache (ok_inj (rw skipped at e)) h
      | inl written ↦
          elim (Result-cases (Cache.put ToolCallResult key result (some ttl) now cache)) [
            | inr (message, f) ↦ absurd (ground (arith, rw (written, write_cache, f) at e))
            | inl (kept, f) ↦
                subst IsCleanCache (ok_inj (rw (written, write_cache, f) at e))
                  (put-Values Succeeded key result (some ttl) now cache kept (fine written) h f)
          ]
    ]

put_memory-Clean :
    (name key : String) (result : ToolCallResult)
    (memory : List ((String × String) × ToolCallResult))
    → Succeeded result
    → IsCleanMemory memory
    → IsCleanMemory (put_memory name key result memory)
unfolding put_memory
put_memory-Clean name key result [] p h = (p, tt)
put_memory-Clean name key result (((n, k), old) ∷ rest) p h =
    elim (Bool-cases (n == name && k == key)) [
      | inl same ↦ rw same (p, h.1)
      | inr differs ↦ rw differs (h.0, put_memory-Clean name key result rest p h.1)
    ]

remember_success-Clean :
    (name : String) (key : Option String) (result : ToolCallResult)
    (memory : List ((String × String) × ToolCallResult))
    → IsCleanMemory memory
    → IsCleanMemory (remember_success name key result memory)
unfolding remember_success
remember_success-Clean name none result memory h = h
remember_success-Clean name (some key) result memory h =
    elim (Bool-cases (is_succeeded result.status)) [
      | inl succeeded ↦ rw succeeded (put_memory-Clean name key result memory succeeded h)
      | inr failed ↦ rw failed h
    ]

module _ (runtime : Runtime) where
  finish_run-IsClean :
      (name : String) (key : Option String) (cache_key : String) (tool : AgentTool)
      (result : ToolCallResult) (error : String) (id now : ℕ) (state : RuntimeState)
      → IsClean state
      → IsClean (finish_run runtime name key cache_key tool result error id now state).0
  unfolding finish_run
  finish_run-IsClean name key cache_key tool result error id now state v =
      elim (Result-cases (
        write_cache (is_cache_eligible tool && is_succeeded result.status) state.result_cache
          cache_key result tool.cache_ttl_seconds now)) [
            | inr (raised, e) ↦ rw (finish_run, e) (record { cache = v.cache; memory = v.memory })
            | inl (cache, e) ↦
                rw (finish_run, e)
                  (record {
                    cache =
                        write_cache-Clean _ state.result_cache cache cache_key result
                          tool.cache_ttl_seconds now (λ both. ground (arith, both)) v.cache e;
                    memory =
                        remember_success-Clean name key result state.memory_idempotency v.memory;
                  })
          ]

  module _ (context : ToolExecutionContext) where
    run_started-IsClean :
        (name arguments request_hash : String) (tool : AgentTool) (now : ℕ)
        (rows : Option (List InvocationRow)) (state : RuntimeState)
        → IsClean state
        → IsClean (run_started runtime name arguments request_hash tool context now rows state).0
    unfolding run_started
    run_started-IsClean name arguments request_hash tool now rows state v =
        elim (Bool-cases (decide runtime name tool context).executable) [
          | inr denied ↦ rw denied (record { cache = v.cache; memory = v.memory })
          | inl allowed ↦ rw allowed (
              finish_run-IsClean name _ _ tool _ _ state.next_id now _
                (record { cache = v.cache; memory = v.memory }))
        ]

    run_or_deny-IsClean :
        (name arguments request_hash : String) (tool : AgentTool) (now : ℕ) (state : RuntimeState)
        → IsClean state
        → IsClean (run_or_deny runtime name arguments request_hash tool context now state).0
    unfolding run_or_deny
    run_or_deny-IsClean name arguments request_hash tool now state v =
        elim (Result-cases (
          record_start
            (start_row runtime name arguments request_hash tool context
              (decide runtime name tool context) state.next_id)
            state.rows)) [
              | inr (raised, e) ↦ rw (run_or_deny, e) v
              | inl (rows, e) ↦
                  rw (run_or_deny, e)
                    (run_started-IsClean name arguments request_hash tool now rows state v)
            ]

    ask_cache-IsClean :
        (name arguments request_hash : String) (tool : AgentTool) (now : ℕ) (state : RuntimeState)
        → IsClean state
        → IsClean (ask_cache runtime name arguments request_hash tool context now state).0
    unfolding ask_cache
    ask_cache-IsClean name arguments request_hash tool now state v =
        let usable = (decide runtime name tool context).executable && is_cache_eligible tool in
        let key = runtime.build_key name tool.definition.version arguments in
        let asked = read_cache usable state.result_cache key now in
        let clean = read_cache-Clean usable state.result_cache key now v.cache in
        elim (Option-cases asked.0) [
          | inr (cached, e) ↦ rw (ask_cache, e) (record { cache = clean; memory = v.memory })
          | inl e ↦
              rw (ask_cache, e)
                (run_or_deny-IsClean name arguments request_hash tool now
                  (record state { result_cache = asked.1 })
                  (record { cache = clean; memory = v.memory }))
        ]

    with_arguments-IsClean :
        (name arguments : String) (tool : AgentTool) (now : ℕ) (state : RuntimeState)
        → IsClean state
        → IsClean (with_arguments runtime name arguments tool context now state).0
    unfolding with_arguments
    with_arguments-IsClean name arguments tool now state v =
        let request_hash = runtime.request_hash name tool.definition.version arguments in
        elim (Result-cases
          (find_idempotent name (given context.idempotency_key) request_hash state)) [
            | inr (raised, e) ↦ rw (with_arguments, e) v
            | inl (found, e) ↦ elim (Option-cases found) [
              | inl f ↦
                  rw (with_arguments, e, f)
                    (ask_cache-IsClean name arguments request_hash tool now state v)
              | inr (cached, f) ↦ rw (with_arguments, e, f) v
            ]
          ]

    execute_alone-IsClean :
        (name arguments : String) (now : ℕ) (state : RuntimeState)
        → IsClean state
        → IsClean (execute_alone runtime name arguments context now state).0
    unfolding execute_alone
    execute_alone-IsClean name arguments now state v = elim (Result-cases (runtime.registry name)) [
      | inr (raised, e) ↦ rw (execute_alone, e) v
      | inl (tool, e) ↦ elim (Result-cases (runtime.validate tool arguments)) [
        | inr (raised, f) ↦ rw (execute_alone, e, f) v
        | inl (checked, f) ↦
            rw (execute_alone, e, f) (with_arguments-IsClean name checked tool now state v)
      ]
    ]

    after_run-IsClean :
        (name arguments : String) (now : ℕ) (state : RuntimeState)
        (answer : Result RuntimeError Answer)
        → IsClean state
        → IsClean (after_run runtime name arguments context now (state, answer)).0
    unfolding after_run
    after_run-IsClean name arguments now state (err raised) v = v
    after_run-IsClean name arguments now state (ok (replied result)) v = v
    after_run-IsClean name arguments now state (ok (ran tool result error)) v =
        elim (Option-cases (fallback_of runtime name tool)) [
          | inl e ↦ rw (after_run, e) v
          | inr (fallback, e) ↦ elim (Bool-cases (is_failure result.status)) [
            | inr fine ↦ rw (after_run, e, fine) v
            | inl failed ↦
                let again = execute_alone runtime fallback arguments context now state in
                rw
                  (
                    after_run,
                    e,
                    failed,
                    settle_fallback-state runtime context tool.definition.name result again.0
                        again.1,
                  )
                  (execute_alone-IsClean fallback arguments now state v)
          ]
        ]

    -- Whatever a call ends with, its fallback included, the result cache and the memory of idempotency
    -- keys hold only results of succeeded runs after it, where they did before.
    pub execute-IsClean :
        (name arguments : String) (now : ℕ) (state : RuntimeState)
        → IsClean state
        → IsClean (execute runtime name arguments context now state).0
    unfolding execute
    execute-IsClean name arguments now state v =
        let alone = execute_alone runtime name arguments context now state in
        after_run-IsClean name arguments now alone.0 alone.1
          (execute_alone-IsClean name arguments now state v)
