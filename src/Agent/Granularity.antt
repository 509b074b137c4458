-- ===== src/Agent/Granularity.antt =====
-- backend/api/app/domain/agent_core/plan_granularity.py: how many steps a plan is to have. `lower`
-- stands for str.lower; the hints for the prompt and the texts of the warnings are left out.
pub mod Laws
use atlas_agent_control_plan.Prelude.{
  ℕ, ◌+◌, String, Bool, true, false, not, ◌&&◌, ◌||◌, List, [], ◌∷◌, Option, none, some, any_of,
  count_if, length, str_len, take, leb, ltb, if◌then◌else◌,
}
use atlas_agent_control_plan.Prelude.Text.{strip}
use atlas_agent_control_plan.Tools.Resilience.{has_keyword}

abbrev pub heavy_keywords : List String
heavy_keywords = "实现" ∷ "重构" ∷ "迁移" ∷ "部署" ∷ "全链路" ∷ "端到端" ∷ "end to end" ∷ "e2e" ∷ []

abbrev pub test_keywords : List String
test_keywords = "测试" ∷ "test" ∷ "单测" ∷ "集成测试" ∷ []

abbrev pub file_keywords : List String
file_keywords = "文件" ∷ "路径" ∷ "file" ∷ "path" ∷ []

abbrev pub component_keywords : List String
component_keywords = "前端" ∷ "后端" ∷ "数据库" ∷ "接口" ∷ "服务" ∷ "模块" ∷ "组件" ∷ "缓存" ∷ "队列" ∷ "api" ∷ []

pub record ComplexitySignals : Type 0 where
  pub keyword_hits : ℕ
  pub task_char_len : ℕ
  pub mentions_tests : Bool
  pub mentions_files : Bool
  pub mentions_multi_component : Bool

pub data Complexity : Type 0 where
  light standard heavy : Complexity

pub record GranularityPolicy : Type 0 where
  pub min_steps : ℕ
  pub max_steps : ℕ
  pub complexity : Complexity

-- _STEP_RANGES
unfoldable pub step_range : Complexity → ℕ × ℕ
step_range light = (2, 4)
step_range standard = (4, 8)
step_range heavy = (10, 15)

unfoldable pub signals_of : (String → String) → String → ComplexitySignals
unfolding has_keyword
signals_of lower task =
    let clean_task = strip task in
    let named = λ (keyword : String). has_keyword keyword (lower clean_task) in
    record {
      keyword_hits = count_if named heavy_keywords;
      task_char_len = str_len clean_task;
      mentions_tests = any_of named test_keywords;
      mentions_files = any_of named file_keywords;
      mentions_multi_component = leb 2 (count_if named component_keywords);
    }

unfoldable pub has_heavy_signal : ComplexitySignals → Bool
has_heavy_signal signals =
    ltb 0 signals.keyword_hits
    || signals.mentions_tests
    || signals.mentions_files
    || signals.mentions_multi_component

unfoldable pub complexity_of : ComplexitySignals → Complexity
unfolding has_heavy_signal
complexity_of signals =
    if ltb 300 signals.task_char_len
      || leb 3 signals.keyword_hits
      || signals.mentions_tests && signals.mentions_files
    then heavy
    else if ltb signals.task_char_len 80 && not (has_heavy_signal signals)
    then light
    else standard

-- The signals given, or those of the task.
unfoldable pub given_or : ComplexitySignals → Option ComplexitySignals → ComplexitySignals
given_or own none = own
given_or own (some signals) = signals

-- GranularityPolicy.assess
unfoldable pub assess : (String → String) → String → Option ComplexitySignals → GranularityPolicy
unfolding signals_of complexity_of step_range given_or
assess lower task given =
    let complexity = complexity_of (given_or (signals_of lower task) given) in
    record {
      min_steps = (step_range complexity).0;
      max_steps = (step_range complexity).1;
      complexity = complexity;
    }

pub data StepWarning : Type 0 where
  too_many too_few : ℕ → StepWarning

unfoldable pub clamp_steps {ℓ} :
    {S : Type ℓ} → List S → GranularityPolicy → List S × List StepWarning
clamp_steps steps policy =
    if ltb policy.max_steps (length steps)
    then (take policy.max_steps steps, too_many (length steps) ∷ [])
    else if ltb (length steps) policy.min_steps
    then (steps, too_few (length steps) ∷ [])
    else (steps, [])
