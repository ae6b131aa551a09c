-- ===== src/Workflows/Attempts.antt =====
-- `executeStep` of src/core/workflows/stepExecution.ts: one step, tried as often as it may be.
pub mod Bounded
use xcoder.Prelude.{
  ℕ, zero, suc, ◌+◌, max, ltb, Bool, true, false, ◌&&◌, Option, none, some, ◌++◌, ◌∷◌, [],
  or_default, if◌then◌else◌,
}
use xcoder.Prelude.Text.{Text, codes}
use xcoder.Workflows.Steps.{
  Action, shell, llm_call, file, url, theme, OnFailure, auto_fix, halt, skip, ProcedureStep,
  Procedure, StepReport, RunStatus, completed, failed, halted, ProcedureRunReport, RawActionResult,
  FileCall, append_file, delete_file, list_files, make_directory, FileAnswer, file_done, file_error,
  Parse, parsed, unparsable, World, Notice, step_started, step_ended, Context, Did, did, raised,
}
use xcoder.Workflows.Actions.{run_step_action}

abbrev pub max_attempts : ProcedureStep → ℕ
max_attempts step = max 1 step.max_retries

abbrev pub fixes : ProcedureStep → Bool
fixes step = elim step.on_failure [ auto_fix ↦ true | halt ↦ false | skip ↦ false ]

-- `${error}` of an error that may be undefined
abbrev pub error_text : Option Text → Text
error_text e = or_default e (codes "undefined")

-- The command of the next attempt.
unfoldable pub next_command : ProcedureStep → ℕ → Text → RawActionResult → Text
next_command step attempt command r =
    if ltb attempt (max_attempts step) && fixes step
    then command
      ++ (10 ∷ codes "# ERROR from previous attempt ("
          ++ (error_text r.error ++ codes "); adjust the command accordingly."))
    else command

abbrev pub success : ProcedureStep → ℕ → RawActionResult → StepReport
success step attempt r = record {
  step_id = step.step_id;
  ok = true;
  output = r.output;
  error = none;
  attempts = attempt;
}

-- The last result is reported after the last attempt.
abbrev pub failure : ProcedureStep → RawActionResult → StepReport
failure step r = record {
  step_id = step.step_id;
  ok = r.ok;
  output = r.output;
  error = some (or_default r.error (codes "Unknown failure"));
  attempts = max_attempts step;
}

-- The attempts from this one on, as many as are left.
unfoldable pub attempts :
    World → ProcedureStep → ℕ → ℕ → Text → RawActionResult → Context → Did StepReport
unfolding run_step_action next_command
attempts w step zero attempt command last c = did (failure step last) c
attempts w step (suc left) attempt command last c = elim (run_step_action w step.action command c) [
  | raised message c' ↦ raised message c'
  | did r c' ↦ elim r.ok [
    | true ↦ did (success step attempt r) c'
    | false ↦ attempts w step left (attempt + 1) (next_command step attempt command r) r c'
  ]
]

abbrev pub nothing_yet : RawActionResult
nothing_yet = record { ok = false; output = []; error = none }

-- `executeStep`
unfoldable pub execute_step : World → ProcedureStep → Context → Did StepReport
unfolding attempts
execute_step w step c = attempts w step (max_attempts step) 1 step.command nothing_yet c
