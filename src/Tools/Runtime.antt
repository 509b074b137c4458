-- ===== src/Tools/Runtime.antt =====
-- The execution pipeline of backend/api/app/application/tool_runtime.py: policy, idempotency, result
-- cache, retries and fallback. A call reads the clock once, as `now`; sleeping, logging and the texts
-- of the notes are left out, and so is the storing of long outputs, of which `preview` is the text.
pub mod Execute
pub mod Permitted
pub mod Clean
pub mod Replay
mod Examples
use atlas_agent_control_plan.Prelude.{
  ℕ, zero, suc, ◌+◌, ◌-◌, String, Bool, true, false, not, ◌&&◌, ◌||◌, Option, none, some, List, [],
  ◌∷◌, ◌++◌, nat_beq, string_eq, ◌==◌, if◌then◌else◌,
}
use atlas_agent_control_plan.Prelude.Dict.{Dict}
use atlas_agent_control_plan.Prelude.Int.{ℤ, pos_part}
use atlas_agent_control_plan.Prelude.Result.{Result, ok, err}
use atlas_agent_control_plan.Prelude.Text.{is_empty}
use atlas_agent_control_plan.Acceptance.Gate.{concat}
use atlas_agent_control_plan.Tools.Cache
use atlas_agent_control_plan.Tools.Cache.{ToolResultCache}
use atlas_agent_control_plan.Tools.Call.{ToolCallResult, ToolInvocationStatus}
use atlas_agent_control_plan.Tools.Policy.{
  ToolDefinition, ToolExecutionContext, ToolPolicyDecision, ToolRiskLevel, policy_decision,
}
use atlas_agent_control_plan.Tools.Resilience.{RetryPolicy, is_retryable_error_text, max_retries_of}

-- The exceptions by which a call ends: AppException, which the fallback catches, or another.
pub data RuntimeError : Type 0 where
  app_exception other_exception : String → RuntimeError

pub record AgentTool : Type 0 where
  pub definition : ToolDefinition
  pub cacheable : Bool
  pub cache_ttl_seconds : ℤ
  pub fallback_tool : Option String

pub record InvocationOutcome : Type 0 where
  pub output : String
  pub status : ToolInvocationStatus
  pub error : String

-- A row of the control plane's invocations, with the columns that the runtime reads back.
pub record InvocationRow : Type 0 where
  pub id : ℕ
  pub tool_name : String
  pub idempotency_key : Option String
  pub request_hash : String
  pub arguments : String
  pub status : ToolInvocationStatus
  pub output_preview : String

-- What a runtime is made of and what it calls: the registry, the settings, the retry policy, argument
-- checks, hashes, and the handler of a tool, whose answer may depend on the tools that ran before.
pub record Runtime : Type 0 where
  pub registry : String → Result RuntimeError AgentTool
  pub validate : AgentTool → String → Result RuntimeError String
  pub request_hash : String → String → String → String
  pub build_key : String → String → String → String
  pub configured : Dict String Bool
  pub sorted : List String → List String
  pub auto_approve : ToolRiskLevel
  pub retry_policy : RetryPolicy
  pub lower : String → String
  pub invoke_tool : List String → AgentTool → String → InvocationOutcome
  pub preview : String → String

-- What a call changes: the two caches, the rows where there is a unit of work, the tools whose handlers
-- ran, and the count of the ids of invocations given out.
pub record RuntimeState : Type 0 where
  pub result_cache : Option (ToolResultCache ToolCallResult)
  pub memory_idempotency : List ((String × String) × ToolCallResult)
  pub rows : Option (List InvocationRow)
  pub invoked : List String
  pub next_id : ℕ

-- AgentTool.is_cache_eligible
unfoldable pub is_low : ToolRiskLevel → Bool
is_low ToolRiskLevel.low = true
is_low _ = false

unfoldable pub is_cache_eligible : AgentTool → Bool
unfolding is_low
is_cache_eligible tool =
    tool.cacheable && tool.definition.idempotent && is_low tool.definition.risk_level

unfoldable pub is_succeeded : ToolInvocationStatus → Bool
is_succeeded ToolInvocationStatus.succeeded = true
is_succeeded _ = false

-- status in (failed, timed_out)
unfoldable pub is_failure : ToolInvocationStatus → Bool
is_failure ToolInvocationStatus.failed = true
is_failure ToolInvocationStatus.timed_out = true
is_failure _ = false

-- An idempotency key that is None or the empty text is none.
unfoldable pub given : Option String → Option String
given none = none
given (some key) = if is_empty key then none else some key

-- self._memory_idempotency.get((tool_name, key))
unfoldable pub find_memory :
    String → String → List ((String × String) × ToolCallResult) → Option ToolCallResult
find_memory tool_name key [] = none
find_memory tool_name key (((name, k), result) ∷ rest) =
    if name == tool_name && k == key then some result else find_memory tool_name key rest

-- self._memory_idempotency[(tool_name, key)] = result
unfoldable pub put_memory :
    String
    → String
    → ToolCallResult
    → List ((String × String) × ToolCallResult)
    → List ((String × String) × ToolCallResult)
put_memory tool_name key result [] = ((tool_name, key), result) ∷ []
put_memory tool_name key result (((name, k), old) ∷ rest) =
    if name == tool_name && k == key
    then ((name, k), result) ∷ rest
    else ((name, k), old) ∷ put_memory tool_name key result rest

unfoldable pub has_key : String → Option String → Bool
has_key key none = false
has_key key (some k) = k == key

-- get_tool_invocation_by_idempotency
unfoldable pub find_stored : String → String → List InvocationRow → Option InvocationRow
unfolding has_key
find_stored tool_name key [] = none
find_stored tool_name key (row ∷ rows) =
    if row.tool_name == tool_name && has_key key row.idempotency_key
    then some row
    else find_stored tool_name key rows

-- _assert_idempotency_matches
unfoldable pub assert_idempotency_matches :
    String → String → ToolCallResult → Result RuntimeError (Option ToolCallResult)
assert_idempotency_matches cached_hash request_hash result =
    if is_empty cached_hash || cached_hash == request_hash
    then ok (some result)
    else err (app_exception "idempotency key was already used with different arguments")

unfoldable pub hash_of : Option String → String
hash_of none = ""
hash_of (some text) = text

unfoldable pub stored_result : String → String → InvocationRow → ToolCallResult
stored_result tool_name request_hash row = record {
  tool_name = tool_name;
  arguments = row.arguments;
  output = row.output_preview;
  invocation_id = some row.id;
  status = row.status;
  budget_exceeded = none;
  request_hash = some request_hash;
  cache_hit = false;
}

unfoldable pub find_in_rows :
    String
    → String
    → String
    → Option (List InvocationRow)
    → Result RuntimeError (Option ToolCallResult)
unfolding find_stored stored_result assert_idempotency_matches
find_in_rows tool_name key request_hash none = ok none
find_in_rows tool_name key request_hash (some rows) = elim (find_stored tool_name key rows) [
  | none ↦ ok none
  | some row ↦
      assert_idempotency_matches row.request_hash request_hash
        (stored_result tool_name request_hash row)
]

unfoldable pub find_idempotent :
    String → Option String → String → RuntimeState → Result RuntimeError (Option ToolCallResult)
unfolding find_memory find_in_rows hash_of assert_idempotency_matches
find_idempotent tool_name none request_hash state = ok none
find_idempotent tool_name (some key) request_hash state =
    elim (find_memory tool_name key state.memory_idempotency) [
      | some result ↦ assert_idempotency_matches (hash_of result.request_hash) request_hash result
      | none ↦ find_in_rows tool_name key request_hash state.rows
    ]

-- The mark of _cache_hit, on a copy of what is remembered.
unfoldable pub deduplicate : ToolCallResult → ToolCallResult
unfolding is_succeeded
deduplicate result =
    if is_succeeded result.status
    then record result { status = ToolInvocationStatus.deduplicated }
    else result

unfoldable pub mark_result_cache_hit : String → ToolCallResult → ToolCallResult
mark_result_cache_hit arguments cached = record cached { arguments = arguments; cache_hit = true }

-- The read of the result cache.
unfoldable pub read_cache :
    Bool
    → Option (ToolResultCache ToolCallResult)
    → String
    → ℕ
    → Option ToolCallResult × Option (ToolResultCache ToolCallResult)
unfolding Cache.get
read_cache usable none key now = (none, none)
read_cache usable (some cache) key now =
    if usable
    then (let (hit, cache') = Cache.get ToolCallResult key now cache in (hit, some cache'))
    else (none, some cache)

-- The write to it, which raises where the tool's time to live is not positive.
unfoldable pub write_cache :
    Bool
    → Option (ToolResultCache ToolCallResult)
    → String
    → ToolCallResult
    → ℤ
    → ℕ
    → Result RuntimeError (Option (ToolResultCache ToolCallResult))
unfolding Cache.put
write_cache usable none key result ttl now = ok none
write_cache usable (some cache) key result ttl now =
    if usable
    then elim (Cache.put ToolCallResult key result (some ttl) now cache) [
      | ok cache' ↦ ok (some cache')
      | err message ↦ err (other_exception message)
    ]
    else ok (some cache)

-- The rows are unique in a tool and a key that is not None, also where the key is empty.
unfoldable pub is_taken : String → Option String → List InvocationRow → Bool
unfolding find_stored
is_taken tool_name none rows = false
is_taken tool_name (some key) rows = elim (find_stored tool_name key rows) [
  | none ↦ false
  | some row ↦ true
]

-- _record_start and _record_finish
unfoldable pub record_start :
    InvocationRow → Option (List InvocationRow) → Result RuntimeError (Option (List InvocationRow))
unfolding is_taken
record_start row none = ok none
record_start row (some rows) =
    if is_taken row.tool_name row.idempotency_key rows
    then err (other_exception "IntegrityError")
    else ok (some (rows ++ row ∷ []))

unfoldable pub finish_rows :
    ℕ → ToolInvocationStatus → String → List InvocationRow → List InvocationRow
finish_rows id status output [] = []
finish_rows id status output (row ∷ rows) =
    let rest = finish_rows id status output rows in
    if nat_beq row.id id
    then record row { status = status; output_preview = output } ∷ rest
    else row ∷ rest

unfoldable pub record_finish :
    ℕ → ToolCallResult → Option (List InvocationRow) → Option (List InvocationRow)
unfolding finish_rows
record_finish id result none = none
record_finish id result (some rows) = some (finish_rows id result.status result.output rows)

-- _remember_success
unfoldable pub remember_success :
    String
    → Option String
    → ToolCallResult
    → List ((String × String) × ToolCallResult)
    → List ((String × String) × ToolCallResult)
unfolding is_succeeded put_memory
remember_success tool_name none result memory = memory
remember_success tool_name (some key) result memory =
    if is_succeeded result.status then put_memory tool_name key result memory else memory
