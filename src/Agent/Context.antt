-- ===== src/Agent/Context.antt =====
-- backend/api/app/domain/agent_core/context_budget.py: the compression of a step history to a budget
-- of characters. `title_line` stands for the line of _title_only_line, which a regular expression
-- reads off an entry, and `to_text` for str of a number.
pub mod Laws
mod Examples
use atlas_agent_control_plan.Prelude.{
  ℕ, zero, suc, ◌+◌, ◌-◌, ◌/◌, String, Bool, true, false, ◌&&◌, Option, none, some, List, [], ◌∷◌,
  length, str_len, leb, ltb, min, max, if◌then◌else◌,
}
use atlas_agent_control_plan.Prelude.Int.{ℤ, pos, negsuc, pos_part, is_nonpos}
use atlas_agent_control_plan.Prelude.Result.{Result, ok, err}
use atlas_agent_control_plan.Acceptance.Gate.{concat, prefix}

pub record ContextBudgetConfig : Type 0 where
  pub max_history_chars : ℕ
  pub recent_steps_full : ℕ
  pub older_steps_digest_chars : ℕ
  pub oldest_steps_title_only : Bool

unfoldable pub is_negative : ℤ → Bool
is_negative (pos n) = false
is_negative (negsuc n) = true

-- The constructor and `__post_init__`.
unfoldable pub create : ℤ → ℤ → ℤ → Bool → Result String ContextBudgetConfig
unfolding is_negative
create max_history_chars recent_steps_full older_steps_digest_chars oldest_steps_title_only =
    if is_nonpos max_history_chars
    then err "max_history_chars must be positive"
    else if is_negative recent_steps_full
    then err "recent_steps_full must be non-negative"
    else if is_nonpos older_steps_digest_chars
    then err "older_steps_digest_chars must be positive"
    else ok (record {
      max_history_chars = pos_part max_history_chars;
      recent_steps_full = pos_part recent_steps_full;
      older_steps_digest_chars = pos_part older_steps_digest_chars;
      oldest_steps_title_only = oldest_steps_title_only;
    })

-- The sum of the lengths, and one character between two items.
unfoldable pub estimate_chars : List String → ℕ
estimate_chars [] = 0
estimate_chars (item ∷ []) = str_len item
estimate_chars (item ∷ next ∷ items) = str_len item + 1 + estimate_chars (next ∷ items)

-- The three variables that the loop of `compress` tightens.
pub record Level : Type 0 where
  pub title_only : ℕ
  pub digest_chars : ℕ
  pub recent : ℕ

unfoldable pub first_level : ContextBudgetConfig → ℕ → Level
first_level cfg total =
    let recent = min cfg.recent_steps_full total in
    record {
      title_only = if cfg.oldest_steps_title_only && leb 2 (total - recent) then 1 else 0;
      digest_chars = max cfg.older_steps_digest_chars 1;
      recent = recent;
    }

-- The body of the loop, which breaks where nothing is left to tighten.
unfoldable pub tighten : ℕ → Level → Option Level
tighten total level =
    if ltb level.title_only (total - level.recent)
    then some (record level { title_only = level.title_only + 1 })
    else if ltb 1 level.digest_chars
    then some (record level { digest_chars = max 1 (level.digest_chars / 2) })
    else if ltb 0 level.recent
    then some (record level { recent = level.recent - 1 })
    else none

-- What the variables can be tightened at most.
unfoldable pub fuel_of : ℕ → Level → ℕ
fuel_of total level =
    level.recent + level.recent + level.digest_chars + (total - level.recent - level.title_only)

module _ (title_line : String → ℕ → String) (to_text : ℕ → String) where
  unfoldable pub digest_line : String → ℕ → String
  unfolding concat prefix
  digest_line entry digest_chars =
      if leb (str_len entry) digest_chars
      then entry
      else concat (prefix digest_chars entry)
          (concat "…[digest " (concat (to_text (str_len entry - digest_chars)) " chars]"))

  -- `render`, for the entries from `index` on
  unfoldable pub render : ℕ → Level → ℕ → List String → List String
  unfolding digest_line
  render total level index [] = []
  render total level index (entry ∷ entries) =
      (if leb (total - level.recent) index
        then entry
        else if ltb index level.title_only
        then title_line entry index
        else digest_line entry level.digest_chars)
      ∷ render total level (index + 1) entries

  -- The `while` loop, on fuel.
  unfoldable pub tighten_loop : ℕ → ℕ → List String → Level → Level
  unfolding render estimate_chars tighten
  tighten_loop zero max_history_chars history level = level
  tighten_loop (suc fuel) max_history_chars history level =
      if leb (estimate_chars (render (length history) level 0 history)) max_history_chars
      then level
      else elim (tighten (length history) level) [
        | none ↦ level
        | some next ↦ tighten_loop fuel max_history_chars history next
      ]

  unfoldable pub compress : ContextBudgetConfig → List String → List String
  unfolding tighten_loop fuel_of first_level render
  compress cfg history =
      let total = length history in
      let first = first_level cfg total in
      render total (tighten_loop (fuel_of total first) cfg.max_history_chars history first) 0
        history
