-- ===== src/Tools/Runtime/Replay.antt =====
-- What a repeated call gets: the result of a run under the same idempotency key.
use text.Mathlib.TextEquality.{eq_iff}
use atlas_agent_control_plan.Prelude.{
  ℕ, String, true, ◌&&◌, ◌≡◌, refl, ap, ◌∙◌, sym, subst, Option, none, some, List, [], ◌∷◌,
  string_eq, ◌==◌, Bool-cases, Option-cases, inl, inr, if◌then◌else◌,
}
use atlas_agent_control_plan.Prelude.Result.{Result, ok, err}
use atlas_agent_control_plan.Prelude.Text.{is_empty}
use atlas_agent_control_plan.Tools.Call.{ToolCallResult, ToolInvocationStatus}
use atlas_agent_control_plan.Tools.Policy.{ToolExecutionContext}
use atlas_agent_control_plan.Tools.Runtime.{
  record_start, InvocationRow, Runtime, RuntimeState, RuntimeError, AgentTool, InvocationRow,
  is_cache_eligible, is_succeeded, given, find_memory, put_memory, find_stored, find_in_rows,
  find_idempotent, hash_of, assert_idempotency_matches, stored_result, deduplicate, read_cache,
  write_cache, remember_success,
}
use atlas_agent_control_plan.Tools.Runtime.Execute.{
  start_row, run_started, Answer, replied, ran, decide, build_result, finish_run, run_or_deny,
  ask_cache, with_arguments, execute_alone, after_run, execute,
}
use atlas_agent_control_plan.Tools.Runtime.Permitted.{Result-cases}

abbrev Memory : Type 0
Memory = List ((String × String) × ToolCallResult)

find_memory-put_memory :
    (name key : String) (result : ToolCallResult) (memory : Memory)
    → find_memory name key (put_memory name key result memory) ≡ some result
unfolding find_memory put_memory
find_memory-put_memory name key result [] =
    rw ((eq_iff name name).1 refl, (eq_iff key key).1 refl) refl
find_memory-put_memory name key result (((n, k), old) ∷ rest) =
    elim (Bool-cases (n == name && k == key)) [
      | inl same ↦ rw (same, same) refl
      | inr differs ↦ rw (differs, differs) (find_memory-put_memory name key result rest)
    ]

-- What a run leaves: a result that carries the hash of the request, and the memory of it.
abbrev IsRun :
    String
    → Option String
    → String
    → AgentTool
    → Memory
    → RuntimeState × Result RuntimeError Answer
    → Type 0
IsRun name key hash tool memory (after, err raised) = Unit
IsRun name key hash tool memory (after, ok (replied result)) = Unit
IsRun name key hash tool memory (after, ok (ran tool' result error)) =
    (tool' ≡ tool)
    × (result.request_hash ≡ some hash)
    × (after.memory_idempotency ≡ remember_success name key result memory)

module _ (runtime : Runtime) (context : ToolExecutionContext) (name : String) where
  abbrev key : Option String
  key = given context.idempotency_key

  finish_run-IsRun :
      (cache_key hash : String) (tool : AgentTool) (result : ToolCallResult) (error : String)
      (id now : ℕ) (state : RuntimeState)
      → result.request_hash ≡ some hash
      → IsRun name key hash tool state.memory_idempotency
          (finish_run runtime name key cache_key tool result error id now state)
  unfolding finish_run
  finish_run-IsRun cache_key hash tool result error id now state h =
      elim (Result-cases (
        write_cache (is_cache_eligible tool && is_succeeded result.status) state.result_cache
          cache_key result tool.cache_ttl_seconds now)) [
            | inr (raised, e) ↦ rw (finish_run, e) tt
            | inl (cache, e) ↦ rw (finish_run, e) (refl, h, refl)
          ]

  run_started-IsRun :
      (arguments hash : String) (tool : AgentTool) (now : ℕ) (rows : Option (List InvocationRow))
      (state : RuntimeState)
      → IsRun name key hash tool state.memory_idempotency
          (run_started runtime name arguments hash tool context now rows state)
  unfolding run_started build_result
  run_started-IsRun arguments hash tool now rows state =
      elim (Bool-cases (decide runtime name tool context).executable) [
        | inr denied ↦ rw denied tt
        | inl allowed ↦ rw allowed (finish_run-IsRun _ hash tool _ _ state.next_id now _ refl)
      ]

  run_or_deny-IsRun :
      (arguments hash : String) (tool : AgentTool) (now : ℕ) (state : RuntimeState)
      → IsRun name key hash tool state.memory_idempotency
          (run_or_deny runtime name arguments hash tool context now state)
  unfolding run_or_deny
  run_or_deny-IsRun arguments hash tool now state =
      elim (Result-cases (
        record_start
          (start_row runtime name arguments hash tool context (decide runtime name tool context)
            state.next_id)
          state.rows)) [
            | inr (raised, e) ↦ rw (run_or_deny, e) tt
            | inl (rows, e) ↦
                rw (run_or_deny, e) (run_started-IsRun arguments hash tool now rows state)
          ]

  ask_cache-IsRun :
      (arguments hash : String) (tool : AgentTool) (now : ℕ) (state : RuntimeState)
      → IsRun name key hash tool state.memory_idempotency
          (ask_cache runtime name arguments hash tool context now state)
  unfolding ask_cache
  ask_cache-IsRun arguments hash tool now state =
      let asked =
        read_cache ((decide runtime name tool context).executable && is_cache_eligible tool)
          state.result_cache (runtime.build_key name tool.definition.version arguments) now in
      elim (Option-cases asked.0) [
        | inr (cached, e) ↦ rw (ask_cache, e) tt
        | inl e ↦
            rw (ask_cache, e)
              (run_or_deny-IsRun arguments hash tool now (record state { result_cache = asked.1 }))
      ]

  with_arguments-IsRun :
      (arguments : String) (tool : AgentTool) (now : ℕ) (state : RuntimeState)
      → IsRun name key
          (runtime.request_hash name tool.definition.version arguments)
          tool
          state.memory_idempotency
          (with_arguments runtime name arguments tool context now state)
  unfolding with_arguments
  with_arguments-IsRun arguments tool now state =
      let hash = runtime.request_hash name tool.definition.version arguments in
      elim (Result-cases (find_idempotent name key hash state)) [
        | inr (raised, e) ↦ rw (with_arguments, e) tt
        | inl (found, e) ↦ elim (Option-cases found) [
          | inl f ↦ rw (with_arguments, e, f) (ask_cache-IsRun arguments hash tool now state)
          | inr (cached, f) ↦ rw (with_arguments, e, f) tt
        ]
      ]

execute_alone-known :
    (runtime : Runtime) (context : ToolExecutionContext) (name arguments checked : String)
    (tool : AgentTool) (now : ℕ) (state : RuntimeState)
    → runtime.registry name ≡ ok tool
    → runtime.validate tool arguments ≡ ok checked
    → execute_alone runtime name arguments context now state
      ≡ with_arguments runtime name checked tool context now state
unfolding execute_alone
execute_alone-known runtime context name arguments checked tool now state known valid =
    rw (execute_alone, known, valid) refl

-- The same key with the same hash finds what is remembered, and what is stored.
same_text :
    (hash : String) (result : ToolCallResult)
    → assert_idempotency_matches hash hash result ≡ ok (some result)
unfolding assert_idempotency_matches
same_text hash result = elim (Bool-cases (is_empty hash)) [
  | inl blank ↦ rw blank refl
  | inr text ↦ rw (text, (eq_iff hash hash).1 refl) refl
]

same_hash :
    (hash : String) (result : ToolCallResult)
    → result.request_hash ≡ some hash
    → assert_idempotency_matches (hash_of result.request_hash) hash result ≡ ok (some result)
unfolding hash_of
same_hash hash result h =
    ap (λ cached. assert_idempotency_matches (hash_of cached) hash result) h ∙ same_text hash result

find_idempotent-stored :
    (name key hash : String) (state : RuntimeState) (rows : List InvocationRow)
    (row : InvocationRow)
    → find_memory name key state.memory_idempotency ≡ none
    → state.rows ≡ some rows
    → find_stored name key rows ≡ some row
    → row.request_hash ≡ hash
    → find_idempotent name (some key) hash state ≡ ok (some (stored_result name hash row))
unfolding find_idempotent find_in_rows
find_idempotent-stored name key hash state rows row fresh has found same =
    rw (find_idempotent, fresh, find_in_rows, has, found, same)
      (same_text hash (stored_result name hash row))

find_idempotent-remembered :
    (name key hash : String) (result : ToolCallResult) (state : RuntimeState)
    → find_memory name key state.memory_idempotency ≡ some result
    → result.request_hash ≡ some hash
    → find_idempotent name (some key) hash state ≡ ok (some result)
unfolding find_idempotent
find_idempotent-remembered name key hash result state found h =
    rw (find_idempotent, found) (same_hash hash result h)

with_arguments-replied :
    (runtime : Runtime) (context : ToolExecutionContext) (name checked key : String)
    (tool : AgentTool) (now : ℕ) (state : RuntimeState) (result : ToolCallResult)
    → given context.idempotency_key ≡ some key
    → find_idempotent name
        (some key)
        (runtime.request_hash name tool.definition.version checked)
        state
      ≡ ok (some result)
    → with_arguments runtime name checked tool context now state
      ≡ (state, ok (replied (deduplicate result)))
unfolding with_arguments
with_arguments-replied runtime context name checked key tool now state result keyed found =
    rw (with_arguments, keyed, found) refl

remembered :
    (name key : String) (result : ToolCallResult) (memory : Memory)
    → is_succeeded result.status ≡ true
    → find_memory name key (remember_success name (some key) result memory) ≡ some result
unfolding remember_success
remembered name key result memory h = rw h (find_memory-put_memory name key result memory)

module _ (runtime : Runtime) (name arguments checked key : String) (tool : AgentTool)
    (known : runtime.registry name ≡ ok tool)
    (valid : runtime.validate tool arguments ≡ ok checked) where
  execute-replied :
      (context : ToolExecutionContext) (now : ℕ) (state : RuntimeState) (result : ToolCallResult)
      → given context.idempotency_key ≡ some key
      → find_idempotent name
          (some key)
          (runtime.request_hash name tool.definition.version checked)
          state
        ≡ ok (some result)
      → execute runtime name arguments context now state ≡ (state, ok (deduplicate result))
  unfolding execute after_run
  execute-replied context now state result keyed found =
      rw
        (execute_alone-known runtime context name arguments checked tool now state known valid
          ∙ with_arguments-replied runtime context name checked key tool now state result keyed
              found)
        refl

  -- Once a call under an idempotency key has run its tool and succeeded, the same call under the key,
  -- at any time and with any permissions and approval, runs nothing, changes nothing and is answered the same
  -- result, marked as deduplicated.
  pub execute-again :
      (context context' : ToolExecutionContext) (now later : ℕ) (state state' : RuntimeState)
      (ran_tool : AgentTool) (result : ToolCallResult) (error : String)
      → given context.idempotency_key ≡ some key
      → given context'.idempotency_key ≡ some key
      → execute_alone runtime name arguments context now state
        ≡ (state', ok (ran ran_tool result error))
      → is_succeeded result.status ≡ true
      → execute runtime name arguments context' later state'
        ≡ (state', ok (record result { status = ToolInvocationStatus.deduplicated }))
  unfolding deduplicate
  execute-again context context' now later state state' ran_tool result error keyed keyed' runs h =
      let run =
        subst
          (IsRun name (given context.idempotency_key)
            (runtime.request_hash name tool.definition.version checked) tool
            state.memory_idempotency)
          (sym (
              execute_alone-known runtime context name arguments checked tool now state known valid)
            ∙ runs)
          (with_arguments-IsRun runtime context name checked tool now state) in
      let found =
        subst (λ m. find_memory name key m ≡ some result) (sym run.2)
          (rw keyed (remembered name key result state.memory_idempotency h)) in
      execute-replied context' later state' result keyed'
        (find_idempotent-remembered name key _ result state' found run.1)
      ∙ rw h refl

  -- A call whose key is not remembered, and has a stored row with the same hash, is answered by the row
  -- with its status, or as deduplicated where the row succeeded, whatever permissions and approval
  -- the call has, and changes nothing.
  pub execute-stored :
      (context : ToolExecutionContext) (now : ℕ) (state : RuntimeState) (rows : List InvocationRow)
      (row : InvocationRow)
      → given context.idempotency_key ≡ some key
      → find_memory name key state.memory_idempotency ≡ none
      → state.rows ≡ some rows
      → find_stored name key rows ≡ some row
      → row.request_hash ≡ runtime.request_hash name tool.definition.version checked
      → execute runtime name arguments context now state ≡ (
        state,
        ok
            (record (stored_result name
              (runtime.request_hash name tool.definition.version checked)
              row) {
                status =
                    if is_succeeded row.status
                    then ToolInvocationStatus.deduplicated
                    else row.status;
              }),
      )
  unfolding deduplicate stored_result
  execute-stored context now state rows row keyed fresh has found same =
      execute-replied context now state
        (stored_result name (runtime.request_hash name tool.definition.version checked) row) keyed
        (find_idempotent-stored name key _ state rows row fresh has found same)
      ∙ ap (λ answer. (state, ok answer))
          (elim (Bool-cases (is_succeeded row.status)) [
            | inl succeeded ↦ rw succeeded refl
            | inr other ↦ rw other refl
          ])
