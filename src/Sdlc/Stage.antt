-- ===== src/Sdlc/Stage.antt =====
-- The stages of the pipeline, their order, chains and roles, and the nodes of the DAG
-- (src/core/engine/SdlcEngine.ts). A node's id is the text of its stage.
use xcoder.Prelude.{ℕ, String, Bool, false, Option, none, some, List, [], ◌∷◌, ◌||◌, str_eq}
use xcoder.Prelude.Text.{Text}

pub data Stage : Type 0 where
  conversation requirements design code refactor test ui_api_test : Stage
  fix_defect ui_ux fix_deployment document deploy : Stage

abbrev pub stage_name : Stage → String
stage_name conversation = "conversation"
stage_name requirements = "requirements"
stage_name design = "design"
stage_name code = "code"
stage_name refactor = "refactor"
stage_name test = "test"
stage_name ui_api_test = "ui_api_test"
stage_name fix_defect = "fix_defect"
stage_name ui_ux = "ui_ux"
stage_name fix_deployment = "fix_deployment"
stage_name document = "document"
stage_name deploy = "deploy"

-- `a === b` and `xs.includes(a)`: a stage is its text
abbrev pub same_stage : Stage → Stage → Bool
same_stage a b = str_eq (stage_name a) (stage_name b)

abbrev pub includes : List Stage → Stage → Bool
includes [] a = false
includes (x ∷ xs) a = same_stage x a || includes xs a

abbrev pub all_stages : List Stage
all_stages =
    conversation ∷ requirements ∷ design ∷ code ∷ refactor ∷ test ∷ ui_api_test ∷ fix_defect ∷ ui_ux
    ∷ fix_deployment ∷ document ∷ deploy ∷ []

abbrev pub stage_order : List Stage
stage_order =
    requirements ∷ design ∷ code ∷ refactor ∷ test ∷ ui_api_test ∷ fix_defect ∷ document ∷ deploy
    ∷ []

abbrev pub optional_stages : List Stage
optional_stages =
    refactor ∷ ui_api_test ∷ fix_defect ∷ ui_ux ∷ fix_deployment ∷ document ∷ deploy ∷ []

unfoldable pub entry_chain : Stage → Option (List Stage)
entry_chain fix_defect = some (fix_defect ∷ test ∷ [])
entry_chain ui_ux = some (ui_ux ∷ test ∷ [])
entry_chain fix_deployment = some (fix_deployment ∷ deploy ∷ [])
entry_chain _ = none

unfoldable pub stage_role : Stage → String
stage_role conversation = "generalist"
stage_role requirements = "business-analyst"
stage_role design = "architect"
stage_role code = "programmer"
stage_role refactor = "programmer"
stage_role test = "tester"
stage_role ui_api_test = "tester"
stage_role fix_defect = "programmer"
stage_role ui_ux = "ux-engineer"
stage_role fix_deployment = "devops"
stage_role document = "technical-writer"
stage_role deploy = "devops"

pub data AcceptanceType : Type 0 where
  command rubric : AcceptanceType

pub record AcceptanceCriteria : Type 0 where
  pub kind : AcceptanceType
  pub command : Option Text
  pub rubric : Option Text

pub data Status : Type 0 where
  pending in_progress completed failed escalated : Status

pub data AttemptOutcome : Type 0 where
  passed failed crashed timed_out budget_exceeded : AttemptOutcome

pub record AttemptRecord : Type 0 where
  pub attempt : ℕ
  pub outcome : AttemptOutcome
  pub detail : Text

pub record SdlcNode : Type 0 where
  pub id : String
  pub stage : Stage
  pub role : String
  pub dependencies : List String
  pub status : Status
  pub acceptance : AcceptanceCriteria
  pub attempts : ℕ
  pub result : Option Text
  pub error : Option Text
  pub iteration_count : Option ℕ
  pub history : List AttemptRecord

-- The options that shape the pipeline and bound a run. `none` is an option left out.
pub record SdlcEngineOptions : Type 0 where
  pub max_healing_attempts : Option ℕ
  pub include_document : Bool
  pub include_deploy : Bool
  pub persist_artifacts : Bool
  pub acceptance_overrides : Stage → Option AcceptanceCriteria
  pub max_total_tokens : Option ℕ
  pub max_wall_clock_ms : Option ℕ

abbrev pub default_max_healing_attempts : ℕ
default_max_healing_attempts = 2

abbrev pub default_max_total_tokens : ℕ
default_max_total_tokens = 2_000_000

abbrev pub default_max_wall_clock_ms : ℕ
default_max_wall_clock_ms = 1_800_000

abbrev pub max_task_chars : ℕ
max_task_chars = 100_000

abbrev pub max_persisted_result_chars : ℕ
max_persisted_result_chars = 100_000
