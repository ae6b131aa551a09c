-- ===== src/Workflows/Procedures.antt =====
-- `executeProcedure` of src/core/workflows/stepExecution.ts: sweeps over the pending steps, from the last to
-- the first; the sweeps take fuel, one for each step and one more.
pub mod Courses
pub mod Sweeps
pub mod Ordered
use xcoder.Prelude.{
  ltb, ℕ, zero, suc, ◌+◌, Bool, true, false, not, ◌&&◌, Option, none, some, List, [], ◌∷◌, ◌++◌,
  map, length, keep, every, exists, or_default, if◌then◌else◌,
}
use xcoder.Prelude.Text.{Text, codes, same_text, trim, non_empty}
use xcoder.Workflows.Steps.{
  OnFailure, auto_fix, halt, skip, ProcedureStep, Procedure, StepReport, RunStatus, completed,
  failed, halted, ProcedureRunReport, World, Notice, step_started, step_ended, Context, Did, did,
  raised,
}
use xcoder.Workflows.Actions.{join_texts}
use xcoder.Workflows.Attempts.{execute_step}
use mathlib.Core.List.{reverse}

-- The keys of the map of reports are the ids of the reports.
abbrev pub reported : List StepReport → Text → Bool
reported reports id = exists (λ r. same_text r.step_id id) reports

abbrev pub is_ready : List StepReport → ProcedureStep → Bool
is_ready reports step = every (reported reports) step.depends_on

abbrev pub is_halt : OnFailure → Bool
is_halt halt = true
is_halt _ = false

abbrev pub halts : ProcedureStep → StepReport → Bool
halts step r = not r.ok && is_halt step.on_failure

abbrev pub notify : Notice → Context → Context
notify n c = record c { notices = c.notices ++ n ∷ [] }

abbrev pub noticed : ProcedureStep → Did StepReport → Did StepReport
noticed step (did r c) = did r (notify (step_ended step r) c)
noticed step (raised message c) = raised message c

-- One step between its two notices.
unfoldable pub perform : World → ProcedureStep → Context → Did StepReport
unfolding execute_step
perform w step c = noticed step (execute_step w step (notify (step_started step) c))

-- How a sweep ends: with the steps that are still pending, by a step that halts, or by an exception.
pub data Swept : Type 0 where
  swept stopped : List ProcedureStep → List StepReport → Context → Swept
  broken : Text → Context → Swept

-- The sweep over the steps before this one, with those that were passed over.
unfoldable pub sweep :
    World → List ProcedureStep → List ProcedureStep → List StepReport → Context → Swept
unfolding perform
sweep w [] passed reports c = swept passed reports c
sweep w (step ∷ steps) passed reports c = elim (is_ready reports step) [
  | false ↦ sweep w steps (step ∷ passed) reports c
  | true ↦ elim (perform w step c) [
    | raised message c' ↦ broken message c'
    | did r c' ↦ elim (halts step r) [
      | true ↦ stopped (reverse steps ++ passed) (reports ++ r ∷ []) c'
      | false ↦ sweep w steps passed (reports ++ r ∷ []) c'
    ]
  ]
]

-- The sweeps end, with the steps that could not run, or are out of fuel.
pub data Executed : Type 0 where
  executed halted_at : List ProcedureStep → List StepReport → Context → Executed
  threw : Text → Context → Executed
  unfinished : Executed

-- A sweep that ran no step has made no progress.
unfoldable pub sweeps : ℕ → World → List ProcedureStep → List StepReport → Context → Executed
unfolding sweep
sweeps zero w pending reports c = unfinished
sweeps (suc fuel) w [] reports c = executed [] reports c
sweeps (suc fuel) w (step ∷ pending) reports c =
    elim (sweep w (reverse (step ∷ pending)) [] reports c) [
      | broken message c' ↦ threw message c'
      | stopped left reports' c' ↦ halted_at left reports' c'
      | swept left reports' c' ↦ elim (ltb (length left) (length (step ∷ pending))) [
        | true ↦ sweeps fuel w left reports' c'
        | false ↦ executed left reports' c'
      ]
    ]

-- The outputs of the steps that succeeded, one to a line.
unfoldable pub finalize : List StepReport → Text
unfolding join_texts trim
finalize reports =
    join_texts (10 ∷ [])
      (map (λ r. trim r.output) (keep (λ r. r.ok && non_empty (trim r.output)) reports))

abbrev pub non_empty_or : Text → Text → Text
non_empty_or [] fallback = fallback
non_empty_or (x ∷ s) fallback = x ∷ s

-- The report of a step whose dependencies could not be satisfied.
unfoldable pub not_run : ProcedureStep → StepReport
unfolding join_texts
not_run step = record {
  step_id = step.step_id;
  ok = false;
  output = [];
  error = some (
      codes "Step not run: dependencies could not be satisfied ("
      ++ (non_empty_or (join_texts (codes ", ") step.depends_on) (codes "none") ++ codes ")."));
  attempts = 0;
}

abbrev pub status_of : List StepReport → RunStatus
status_of reports = if exists (λ r. not r.ok) reports then failed else completed

abbrev pub report_of : Procedure → RunStatus → List StepReport → ProcedureRunReport
report_of p status reports = record {
  procedure_id = p.procedure_id;
  status = status;
  step_reports = reports;
  final_output = finalize reports;
}

pub data Ran : Type 0 where
  returned : ProcedureRunReport → Context → Ran
  threw : Text → Context → Ran
  unfinished : Ran

abbrev pub concluded : Procedure → Executed → Ran
concluded p (Executed.executed left reports c) =
    let all = reports ++ map not_run left in returned (report_of p (status_of all) all) c
concluded p (Executed.halted_at left reports c) = returned (report_of p halted reports) c
concluded p (Executed.threw message c) = Ran.threw message c
concluded p Executed.unfinished = Ran.unfinished

-- `executeProcedure`
unfoldable pub execute_procedure : World → Procedure → Context → Ran
unfolding sweeps not_run finalize
execute_procedure w p c = concluded p (sweeps (length p.steps + 1) w p.steps [] c)
