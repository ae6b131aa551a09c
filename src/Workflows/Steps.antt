-- ===== src/Workflows/Steps.antt =====
-- The data of a procedure (src/core/workflows/types.ts), and the world that its steps act on: the tools, the
-- file system and the model.
use xcoder.Prelude.{ℕ, Bool, Option, List}
use xcoder.Prelude.Text.{Text}
use xcoder.Health.Json.{Json}
use xcoder.Health.Messages.{LlmMessage}
use xcoder.Sdlc.World.{Usage}
use xcoder.Lean.Engine.{Completion, DispatchResult}

pub data Action : Type 0 where
  shell llm_call file url theme : Action

pub data OnFailure : Type 0 where
  auto_fix halt skip : OnFailure

pub record ProcedureStep : Type 0 where
  pub step_id : Text
  pub name : Text
  pub action : Action
  pub command : Text
  pub depends_on : List Text
  pub on_failure : OnFailure
  pub max_retries : ℕ

pub record Procedure : Type 0 where
  pub procedure_id : Text
  pub steps : List ProcedureStep

pub record StepReport : Type 0 where
  pub step_id : Text
  pub ok : Bool
  pub output : Text
  pub error : Option Text
  pub attempts : ℕ

pub data RunStatus : Type 0 where
  completed failed halted : RunStatus

pub record ProcedureRunReport : Type 0 where
  pub procedure_id : Text
  pub status : RunStatus
  pub step_reports : List StepReport
  pub final_output : Text

pub record RawActionResult : Type 0 where
  pub ok : Bool
  pub output : Text
  pub error : Option Text

-- A call of the file system under a resolved path; `append_file` makes the directory first.
pub data FileCall : Type 0 where
  append_file : Text → Text → FileCall
  delete_file list_files make_directory : Text → FileCall

-- The entries of a directory, or the text of the exception.
pub data FileAnswer : Type 0 where
  file_done : List Text → FileAnswer
  file_error : Text → FileAnswer

-- `JSON.parse`
pub data Parse : Type 0 where
  parsed : Json → Parse
  unparsable : Text → Parse

-- The options of a call of the model through the router.
pub record CallOptions : Type 0 where
  pub model : Option Text
  pub temperature : Text
  pub json : Bool

-- What the steps act on answers by the number of the call.
pub record World : Type 0 where
  -- a tool, by its name and the text of its arguments
  pub dispatch : ℕ → Text → Text → DispatchResult
  pub complete : ℕ → List LlmMessage → Completion
  pub complete_with : ℕ → List LlmMessage → CallOptions → Completion
  pub files : ℕ → FileCall → FileAnswer
  pub parse : Text → Parse
  pub quote : Text → Text
  -- `JSON.stringify` with an indentation of 2
  pub pretty : Json → Text
  -- `path.resolve` of these parts
  pub resolve : List Text → Text
  pub lower : Text → Text
  pub workspace_root : Text
  -- the prompts for a plan of a task, for a procedure of a plan, for a plan alone
  pub plan_prompt : Text → Text
  pub schema_prompt : Text → Text
  pub outline_prompt : Text → Text
  -- `Number(value)`; ids by `Math.random`
  pub number : Json → Option ℕ
  pub random_step_id : ℕ → Text
  pub random_procedure_id : Text
  -- the caller's cancellations while the engine waits for its procedure and for the steps
  pub cancels_generating : List (Option Text)
  pub cancels_executing : List (Option Text)

-- What `onStepStart` and `onStepEnd` are told.
pub data Notice : Type 0 where
  step_started : ProcedureStep → Notice
  step_ended : ProcedureStep → StepReport → Notice

-- The calls made so far, the usage that the engine counts, and the notices.
pub record Context : Type 0 where
  pub asked : ℕ
  pub usage : Usage
  pub notices : List Notice

-- A result or an exception.
pub data Did (A : Type 0) : Type 0 where
  did : A → Context → Did A
  raised : Text → Context → Did A
