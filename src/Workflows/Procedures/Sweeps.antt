-- ===== src/Workflows/Procedures/Sweeps.antt =====
-- One sweep over the pending steps (src/core/workflows/stepExecution.ts).
use mathlib.Core.List.{Perm, perm_middle, append_assoc, reverse}
use mathlib.Core.List.Perm
use xcoder.Prelude.{
  ◌+◌, ◌≤◌, ◌<◌, ◌≡◌, refl, sym, ◌∙◌, subst, ◌⊎◌, inl, inr, Bool, true, false, not, ◌&&◌, List, [],
  ◌∷◌, ◌++◌, length, All, arith, either-both,
}
use xcoder.Workflows.Steps.{
  ProcedureStep, StepReport, World, step_started, step_ended, Context, Did, did, raised,
}
use xcoder.Workflows.Attempts.{execute_step}
use xcoder.Workflows.Attempts.Bounded.{Reports, execute_step-Reports}
use xcoder.Workflows.Procedures.{
  is_ready, is_halt, halts, notify, noticed, perform, Swept, swept, stopped, broken, sweep,
}
use xcoder.Workflows.Procedures.Courses.{ran_next, ready-met, Sweeping, Halted, Raised}

and_parts : (ok is : Bool) → (not ok && is) ≡ true → (ok ≡ false) × (is ≡ true)
and_parts false is h = (refl, h)
and_parts true is h = ground (arith, h)

abbrev pub Waiting : List StepReport → ProcedureStep → Type 0
Waiting reports s = is_ready reports s ≡ false

-- A sweep ran a step, or it left all steps waiting.
pub record SweptWell (all steps passed : List ProcedureStep) (reports : List StepReport)
    (left : List ProcedureStep) (reports' : List StepReport) : Type 0 where
  pub so_far : Sweeping all left reports'
  pub no_more : length left ≤ length steps + length passed
  pub progress :
      (length left < length steps + length passed)
      ⊎ ((reports' ≡ reports) × (All (Waiting reports) passed → All (Waiting reports) left))

abbrev pub SweepsWell :
    List ProcedureStep → List ProcedureStep → List ProcedureStep → List StepReport → Swept → Type 0
SweepsWell all steps passed reports (swept left reports' c) =
    SweptWell all steps passed reports left reports'
SweepsWell all steps passed reports (stopped left reports' c) = Halted all reports'
SweepsWell all steps passed reports (broken m c) = Raised all

perform-Reports :
    (w : World) (step : ProcedureStep) (c : Context)
    → Reports w step
        (notify (step_started step) c)
        (execute_step w step (notify (step_started step) c))
perform-Reports w step c = execute_step-Reports w step (notify (step_started step) c)

module _ (all : List ProcedureStep) where
  pass :
      (step : ProcedureStep) (steps passed : List ProcedureStep) (reports : List StepReport)
      → Waiting reports step
      → (d : Swept) → SweepsWell all steps (step ∷ passed) reports d
      → SweepsWell all (step ∷ steps) passed reports d
  pass step steps passed reports waiting (swept left reports' c) h = record {
    so_far = h.so_far;
    no_more = omega (arith, h.no_more);
    progress = elim h.progress [
      | inl less ↦ inl (omega (arith, less))
      | inr (same, keeps) ↦ inr (same, λ others. keeps (waiting, others))
    ];
  }
  pass step steps passed reports waiting (stopped left reports' c) h = h
  pass step steps passed reports waiting (broken m c) h = h

  go_on :
      (step : ProcedureStep) (steps passed : List ProcedureStep) (reports before : List StepReport)
      → (d : Swept) → SweepsWell all steps passed reports d
      → SweepsWell all (step ∷ steps) passed before d
  go_on step steps passed reports before (swept left reports' c) h = record {
    so_far = h.so_far;
    no_more = omega (arith, h.no_more);
    progress = inl (omega (arith, h.no_more));
  }
  go_on step steps passed reports before (stopped left reports' c) h = h
  go_on step steps passed reports before (broken m c) h = h

  after_step :
      (w : World) (step : ProcedureStep) (steps passed : List ProcedureStep)
      (reports : List StepReport)
      → (h : Sweeping all (step ∷ (steps ++ passed)) reports) → is_ready reports step ≡ true
      → (rest : StepReport → Context → Swept)
      → ((r : StepReport) (c : Context)
          → Sweeping all (steps ++ passed) (reports ++ r ∷ [])
          → SweepsWell all steps passed (reports ++ r ∷ []) (rest r c))
      → (c : Context) (d : Did StepReport) → Reports w step c d
      → SweepsWell all (step ∷ steps) passed reports (elim (noticed step d) [
        | raised message c' ↦ broken message c'
        | did r c' ↦ elim (halts step r) [
          | true ↦ stopped (reverse steps ++ passed) (reports ++ r ∷ []) c'
          | false ↦ rest r c'
        ]
      ])
  after_step w step steps passed reports h ready rest more c (raised m c') k = (
    step,
    h.ran ++ (steps ++ passed),
    Perm.trans (Perm.symm (perm_middle h.ran (steps ++ passed))) h.split,
    k,
  )
  after_step w step steps passed reports h ready rest more c (did r c') k =
      either-both (SweepsWell all (step ∷ steps) passed reports) (halts step r)
        (λ halting. record {
          ran = h.ran;
          before = reports;
          course = h.course;
          step = step;
          report = r;
          left = steps ++ passed;
          split = h.split;
          ready = sym (ready-met h.ran reports step h.course) ∙ ready;
          same_id = k.same_id;
          failed = (and_parts r.ok (is_halt step.on_failure) halting).0;
          halts = (and_parts r.ok (is_halt step.on_failure) halting).1;
          reports_are = refl;
        })
        (λ going.
          go_on step steps passed (reports ++ r ∷ []) reports
            (rest r (notify (step_ended step r) c'))
            (more r (notify (step_ended step r) c') (record {
              ran = h.ran ++ step ∷ [];
              course =
                  ran_next h.course step r (sym (ready-met h.ran reports step h.course) ∙ ready)
                    k.same_id going;
              split =
                  subst (λ xs. Perm xs all) (sym (append_assoc h.ran (step ∷ []) (steps ++ passed)))
                    h.split;
            })))

module _ (w : World) (all : List ProcedureStep) where
  pub sweep-SweepsWell :
      (steps passed : List ProcedureStep) (reports : List StepReport) (c : Context)
      → Sweeping all (steps ++ passed) reports
      → SweepsWell all steps passed reports (sweep w steps passed reports c)
  unfolding sweep perform
  sweep-SweepsWell [] passed reports c h = record {
    so_far = h;
    no_more = omega arith;
    progress = inr (refl, λ waiting. waiting);
  }
  sweep-SweepsWell (step ∷ steps) passed reports c h =
      either-both (SweepsWell all (step ∷ steps) passed reports) (is_ready reports step)
        (λ ready.
          after_step all w step steps passed reports h ready
            (λ r c'. sweep w steps passed (reports ++ r ∷ []) c')
            (λ r c' k. sweep-SweepsWell steps passed (reports ++ r ∷ []) c' k)
            (notify (step_started step) c) (execute_step w step (notify (step_started step) c))
            (perform-Reports w step c))
        (λ waiting.
          pass all step steps passed reports waiting (sweep w steps (step ∷ passed) reports c) (
            sweep-SweepsWell steps (step ∷ passed) reports c (record {
              ran = h.ran;
              course = h.course;
              split = Perm.trans (Perm.append_left h.ran (perm_middle steps passed)) h.split;
            })))
