-- ===== src/Workflows/Procedures/Courses.antt =====
-- Courses of steps, each after all that it depends on (src/core/workflows/stepExecution.ts).
use mathlib.Core.List.{Perm, map-append}
use xcoder.Prelude.{◌≡◌, refl, sym, ap, ◌∙◌, Bool, true, false, List, [], ◌∷◌, ◌++◌, map, every}
use xcoder.Prelude.Text.{Text, one_of}
use xcoder.Workflows.Steps.{file, ProcedureStep, StepReport}
use xcoder.Workflows.Procedures.{reported, is_ready, is_halt, halts}

abbrev pub ids : List ProcedureStep → List Text
ids steps = map (λ s. s.step_id) steps

-- All that the step depends on is among these steps.
abbrev pub met : List ProcedureStep → ProcedureStep → Bool
met ran s = every (one_of (ids ran)) s.depends_on

-- Steps that ran one after the other, each after all that it depends on, and their reports.
pub data Course : List ProcedureStep → List StepReport → Type 0 where
  nothing : Course [] []
  ran_next :
      {ran : List ProcedureStep} {reports : List StepReport}
      → Course ran reports
      → (s : ProcedureStep) (r : StepReport) → met ran s ≡ true
      → r.step_id ≡ s.step_id
      → halts s r ≡ false
      → Course (ran ++ s ∷ []) (reports ++ r ∷ [])

pub Course-ids :
    (ran : List ProcedureStep) (reports : List StepReport)
    → Course ran reports
    → map (λ r. r.step_id) reports ≡ ids ran
Course-ids _ _ nothing = refl
Course-ids _ _ (ran_next {ran} {reports} c s r m same h) =
    map-append (λ (r : StepReport). r.step_id) reports (r ∷ [])
    ∙ ap (λ xs. xs ++ r.step_id ∷ []) (Course-ids ran reports c)
    ∙ ap (λ x. ids ran ++ x ∷ []) same
    ∙ sym (map-append (λ (s : ProcedureStep). s.step_id) ran (s ∷ []))

reported-one_of :
    (reports : List StepReport) (id : Text)
    → reported reports id ≡ one_of (map (λ r. r.step_id) reports) id
reported-one_of [] id = refl
reported-one_of (r ∷ reports) id = rw (reported-one_of reports id) refl

every-reported :
    (reports : List StepReport) (names : List Text)
    → every (reported reports) names ≡ every (one_of (map (λ r. r.step_id) reports)) names
every-reported reports [] = refl
every-reported reports (d ∷ names) =
    rw (reported-one_of reports d) (rw (every-reported reports names) refl)

-- A step is ready exactly if what it depends on has run.
pub ready-met :
    (ran : List ProcedureStep) (reports : List StepReport) (s : ProcedureStep)
    → Course ran reports
    → is_ready reports s ≡ met ran s
ready-met ran reports s c =
    every-reported reports s.depends_on
    ∙ ap (λ names. every (one_of names) s.depends_on) (Course-ids ran reports c)

-- What has run and what is pending are all the steps.
pub record Sweeping (all pending : List ProcedureStep) (reports : List StepReport) : Type 0 where
  pub ran : List ProcedureStep
  pub course : Course ran reports
  pub split : Perm (ran ++ pending) all

-- The last step of a course failed and halts; what it left is not run.
pub record Halted (all : List ProcedureStep) (reports : List StepReport) : Type 0 where
  pub ran : List ProcedureStep
  pub before : List StepReport
  pub course : Course ran before
  pub step : ProcedureStep
  pub report : StepReport
  pub left : List ProcedureStep
  pub split : Perm (ran ++ (step ∷ left)) all
  pub ready : met ran step ≡ true
  pub same_id : report.step_id ≡ step.step_id
  pub failed : report.ok ≡ false
  pub halts : is_halt step.on_failure ≡ true
  pub reports_are : reports ≡ before ++ report ∷ []

-- A file step among these raised.
abbrev pub Raised : List ProcedureStep → Type 0
Raised all =
    (s : ProcedureStep) × (others : List ProcedureStep) × Perm (s ∷ others) all × (s.action ≡ file)
