-- ===== src/Tools/Resilience.antt =====
-- The retries of backend/api/app/domain/agent_core/tool_resilience.py. The operation is its answers by
-- attempt, the fallback its answer where there is one; `lower` stands for str.lower. Delays are ticks,
-- and sleeping and the callback `on_retry` are left out.
pub mod Laws
mod Examples
use Prim.Native.Char.{code}
use Prim.Native.String
use atlas_agent_control_plan.Prelude.{
  ℕ, zero, suc, ◌+◌, ◌-◌, ◌*◌, String, Bool, true, false, not, ◌&&◌, ◌||◌, Option, none, some, List,
  [], ◌∷◌, ◌++◌, any_of, leb, nat_beq, if◌then◌else◌, ◌==◌,
}
use atlas_agent_control_plan.Prelude.Int.{ℤ, pos_part}
use atlas_agent_control_plan.Prelude.Result.{Result, ok, err, ◌>>=◌}

-- An exception, by the tests of `is_retryable_error` that tell it apart.
pub data ToolError : Type 0 where
  app_exception : Bool → ℕ → String → ToolError
  argument_error : String → ToolError
  transport_error : String → ToolError
  other_error : String → ToolError

-- text.startswith(keyword), and keyword in text
unfoldable pub starts_with : String → String → Bool
starts_with String.[] text = true
starts_with (String.◌∷◌ c keyword) String.[] = false
starts_with (String.◌∷◌ c keyword) (String.◌∷◌ d text) =
    nat_beq (code c) (code d) && starts_with keyword text

unfoldable pub has_keyword : String → String → Bool
unfolding starts_with
has_keyword keyword String.[] = starts_with keyword String.[]
has_keyword keyword (String.◌∷◌ c text) =
    let later = has_keyword keyword text in starts_with keyword (String.◌∷◌ c text) || later

abbrev pub retryable_error_keywords : List String
retryable_error_keywords =
    "timeout" ∷ "timed out" ∷ "connection" ∷ "connect" ∷ "network" ∷ "unreachable" ∷ "bad gateway"
    ∷ "service unavailable" ∷ "502" ∷ "503" ∷ "ssl" ∷ []

unfoldable pub is_retryable_error_text : (String → String) → String → Bool
unfolding has_keyword
is_retryable_error_text lower text =
    any_of (λ keyword. has_keyword keyword (lower text)) retryable_error_keywords

unfoldable pub is_retryable_error : (String → String) → ToolError → Bool
unfolding is_retryable_error_text
is_retryable_error lower (app_exception is_timeout status_code text) =
    is_timeout || nat_beq status_code 408 || nat_beq status_code 429 || leb 500 status_code
is_retryable_error lower (argument_error text) = false
is_retryable_error lower (transport_error text) = true
is_retryable_error lower (other_error text) = is_retryable_error_text lower text

abbrev pub power : ℕ → ℕ → ℕ
power factor zero = 1
power factor (suc n) = factor * power factor n

-- base * factor^(attempt - 1); ℕ subtraction stops at 0 as max(0, attempt - 1) does
unfoldable pub retry_delay : ℕ → ℕ → ℕ → ℕ
retry_delay attempt base_backoff factor = base_backoff * power factor (attempt - 1)

pub record RetryEvent : Type 0 where
  pub attempt : ℕ
  pub delay_seconds : ℕ
  pub error : ToolError

pub record RetryPolicy : Type 0 where
  pub enabled : Bool
  pub max_retries : ℤ
  pub base_backoff_seconds : ℕ
  pub backoff_factor : ℕ

pub record ResilienceOutcome (V : Type 0) : Type 0 where
  pub value : V
  pub attempts : ℕ
  pub retry_events : List RetryEvent
  pub fell_back : Bool
  pub last_error : Option ToolError

-- The retries that may follow the first attempt: `max_attempts` - 1.
unfoldable pub max_retries_of : RetryPolicy → ℕ
max_retries_of policy = if policy.enabled then pos_part policy.max_retries else 0

-- How the loop ends: `return` or `break`, at an attempt, with the retries recorded.
pub data LoopEnd (V : Type 0) : Type 0 where
  returned : V → ℕ → List RetryEvent → LoopEnd V
  gave_up : ToolError → ℕ → List RetryEvent → LoopEnd V

module _ (V : Type 0) (retryable : ToolError → Bool) (policy : RetryPolicy)
    (operation : ℕ → Result ToolError V) where
  abbrev pub retry_event : ℕ → ToolError → RetryEvent
  retry_event attempt error = record {
    attempt = attempt;
    delay_seconds = retry_delay attempt policy.base_backoff_seconds policy.backoff_factor;
    error = error;
  }

  -- The `for` loop from `attempt` on, with `left` attempts after it.
  unfoldable pub attempt_loop : ℕ → ℕ → List RetryEvent → LoopEnd V
  attempt_loop zero attempt events = elim (operation attempt) [
    | ok value ↦ returned value attempt events
    | err error ↦ gave_up error attempt events
  ]
  attempt_loop (suc left) attempt events = elim (operation attempt) [
    | ok value ↦ returned value attempt events
    | err error ↦
        if retryable error
        then attempt_loop left (attempt + 1) (events ++ retry_event attempt error ∷ [])
        else gave_up error attempt events
  ]

  -- After the loop: return, fall back or raise.
  unfoldable pub conclude :
      Option (Result ToolError V) → LoopEnd V → Result ToolError (ResilienceOutcome V)
  conclude fallback (returned value attempt events) = ok (record {
    value = value;
    attempts = attempt;
    retry_events = events;
    fell_back = false;
    last_error = none;
  })
  conclude none (gave_up error attempt events) = err error
  conclude (some answer) (gave_up error attempt events) = do
    value ← answer
    ok (record {
      value = value;
      attempts = 1 + max_retries_of policy;
      retry_events = events;
      fell_back = true;
      last_error = some error;
    })

  -- execute_with_resilience and execute_with_resilience_sync
  unfoldable pub execute_with_resilience :
      Option (Result ToolError V) → Result ToolError (ResilienceOutcome V)
  unfolding attempt_loop conclude max_retries_of
  execute_with_resilience fallback = conclude fallback (attempt_loop (max_retries_of policy) 1 [])
