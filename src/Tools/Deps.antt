-- ===== src/Tools/Deps.antt =====
-- The batches of parallel tool calls of backend/api/app/domain/agent_core/tool_deps.py. A set of
-- positions is a list of them; the arguments of a call are a text.
pub mod Rounds
pub mod Laws
mod Examples
use atlas_agent_control_plan.Prelude.{
  ℕ, zero, suc, ◌+◌, String, Bool, true, false, not, ◌&&◌, Option, none, some, List, [], ◌∷◌, ◌++◌,
  length, map, get_elem?, nat_beq, contains, all_of, keep_if, nat_eq, string_eq, ◌==◌,
  if◌then◌else◌,
}
use atlas_agent_control_plan.Prelude.Result.{Result, ok, err, ◌>>=◌}

pub record ToolCall : Type 0 where
  pub name : String
  pub arguments : String
  pub provides : List String
  pub requires : List String
  pub call_id : Option String

-- providers.get(tag, ()): the positions, from `index` on, of the calls that provide the tag
unfoldable pub providers : String → ℕ → List ToolCall → List ℕ
providers tag index [] = []
providers tag index (call ∷ rest) =
    let later = providers tag (index + 1) rest in
    if contains tag call.provides then index ∷ later else later

-- The providers of the tags, but for the call at `index` itself.
unfoldable pub required_providers : List ToolCall → ℕ → List String → List ℕ
unfolding providers
required_providers calls index [] = []
required_providers calls index (tag ∷ rest) =
    keep_if (λ provider. not (provider == index)) (providers tag 0 calls)
    ++ required_providers calls index rest

-- depends_on, one set for each of the calls from `index` on
unfoldable pub dependencies : List ToolCall → ℕ → List ToolCall → List (List ℕ)
unfolding required_providers
dependencies calls index [] = []
dependencies calls index (call ∷ rest) =
    required_providers calls index call.requires ∷ dependencies calls (index + 1) rest

-- depends_on[index]
unfoldable pub nth_or_empty : List (List ℕ) → ℕ → List ℕ
nth_or_empty [] index = []
nth_or_empty (set ∷ rest) zero = set
nth_or_empty (set ∷ rest) (suc index) = nth_or_empty rest index

-- depends_on[index] <= satisfied
unfoldable pub is_ready : List (List ℕ) → List ℕ → ℕ → Bool
unfolding nth_or_empty
is_ready depends_on satisfied index =
    all_of (λ dependency. contains dependency satisfied) (nth_or_empty depends_on index)

-- One round: no position is ready, or the ready ones are a batch before the later ones.
abbrev pub round :
    List ℕ → List ℕ → Result (List ℕ) (List (List ℕ)) → Result (List ℕ) (List (List ℕ))
round [] remaining later = err remaining
round (first ∷ more) remaining later = later >>= λ batches. ok ((first ∷ more) ∷ batches)

-- The loop of `plan_parallel_batches`, on fuel, over positions; `remaining` ascends, as `sorted` leaves
-- it. An error carries the positions among which `_find_cycle` looks for its path.
unfoldable pub batch_loop : ℕ → List (List ℕ) → List ℕ → List ℕ → Result (List ℕ) (List (List ℕ))
unfolding is_ready
batch_loop fuel depends_on satisfied [] = ok []
batch_loop zero depends_on satisfied (index ∷ rest) = err (index ∷ rest)
batch_loop (suc fuel) depends_on satisfied (index ∷ rest) =
    let remaining = index ∷ rest in
    let ready = keep_if (is_ready depends_on satisfied) remaining in
    let later =
      batch_loop fuel depends_on (satisfied ++ ready)
        (keep_if (λ i. not (is_ready depends_on satisfied i)) remaining) in
    round ready remaining later

-- range(start, start + count)
unfoldable pub range : ℕ → ℕ → List ℕ
range start zero = []
range start (suc count) = start ∷ range (start + 1) count

-- [calls[index] for index in ready]
unfoldable pub calls_at : List ToolCall → List ℕ → List ToolCall
calls_at calls [] = []
calls_at calls (index ∷ rest) = elim (get_elem? calls index) [
  | none ↦ calls_at calls rest
  | some call ↦ call ∷ calls_at calls rest
]

-- The batches as positions, and as calls.
unfoldable pub plan_positions : List ToolCall → Result (List ℕ) (List (List ℕ))
unfolding batch_loop dependencies range
plan_positions calls =
    batch_loop (length calls) (dependencies calls 0 calls) [] (range 0 (length calls))

unfoldable pub plan_parallel_batches : List ToolCall → Result (List ℕ) (List (List ToolCall))
unfolding plan_positions calls_at
plan_parallel_batches calls = plan_positions calls >>= λ batches. ok (map (calls_at calls) batches)
