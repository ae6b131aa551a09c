-- ===== src/Workflows/Procedures/Ordered.antt =====
-- In which order the steps of a procedure run, and what is reported (src/core/workflows/stepExecution.ts).
use mathlib.Core.List.{Perm, reverse_perm, append-nil, reverse-cons, reverse}
use mathlib.Core.List.Perm
use xcoder.Prelude.{
  ℕ, zero, suc, ◌+◌, ◌<◌, ◌≡◌, refl, sym, ap, ◌∙◌, subst, ltb, ltb→lt, inl, inr, true, false, not,
  List, [], ◌∷◌, ◌++◌, map, length, length-append, exists, All, arith, either-both, Bool-cases,
  if◌then◌else◌,
}
use xcoder.Prelude.Text.{Text}
use xcoder.Workflows.Steps.{
  ProcedureStep, Procedure, StepReport, completed, failed, halted, ProcedureRunReport, World,
  Context,
}
use xcoder.Workflows.Procedures.{
  Swept, swept, stopped, broken, sweep, Executed, sweeps, not_run, status_of, report_of, Ran,
  returned, concluded, execute_procedure,
}
use xcoder.Workflows.Procedures.Courses.{met, Course, nothing, ready-met, Sweeping, Halted, Raised}
use xcoder.Workflows.Procedures.Sweeps.{Waiting, SweepsWell, sweep-SweepsWell}

-- What the report says of a run without an exception.
pub data Executes (p : Procedure) (rep : ProcedureRunReport) : Type 0 where
  all_ok :
      (ran : List ProcedureStep)
      → Course ran rep.step_reports
      → Perm ran p.steps
      → All (λ r. r.ok ≡ true) rep.step_reports
      → rep.status ≡ completed
      → Executes p rep
  with_failures :
      (ran left : List ProcedureStep) (reports : List StepReport)
      → Course ran reports
      → Perm (ran ++ left) p.steps
      → All (λ s. met ran s ≡ false) left
      → rep.step_reports ≡ reports ++ map not_run left
      → exists (λ r. not r.ok) rep.step_reports ≡ true
      → rep.status ≡ failed
      → Executes p rep
  halted_early : Halted p.steps rep.step_reports → rep.status ≡ halted → Executes p rep

pub data Concludes (p : Procedure) : Ran → Type 0 where
  returns : (rep : ProcedureRunReport) (c : Context) → Executes p rep → Concludes p (returned rep c)
  throws : (message : Text) (c : Context) → Raised p.steps → Concludes p (Ran.threw message c)

-- After the sweeps all that is left waits for a step that has not run.
abbrev Well : List ProcedureStep → Executed → Type 0
Well all (Executed.executed left reports c) = Sweeping all left reports × All (Waiting reports) left
Well all (Executed.halted_at left reports c) = Halted all reports
Well all (Executed.threw m c) = Raised all
Well all Executed.unfinished = ⊥

length-reverse : (steps : List ProcedureStep) → length (reverse steps) ≡ length steps
length-reverse [] = refl
length-reverse (s ∷ steps) =
    ap length (reverse-cons s steps)
    ∙ (omega (arith, length-append (reverse steps) (s ∷ []), length-reverse steps))

module _ (all : List ProcedureStep) where
  after_sweep :
      (pending : List ProcedureStep) (reports : List StepReport)
      → (rest : List ProcedureStep → List StepReport → Context → Executed)
      → ((left : List ProcedureStep) (reports' : List StepReport) (c : Context)
          → length left < length pending
          → Sweeping all left reports'
          → Well all (rest left reports' c))
      → (d : Swept) → SweepsWell all (reverse pending) [] reports d
      → Well all (elim d [
        | broken message c' ↦ Executed.threw message c'
        | stopped left reports' c' ↦ Executed.halted_at left reports' c'
        | swept left reports' c' ↦ elim (ltb (length left) (length pending)) [
          | true ↦ rest left reports' c'
          | false ↦ Executed.executed left reports' c'
        ]
      ])
  after_sweep pending reports rest more (broken m c) h = h
  after_sweep pending reports rest more (stopped left reports' c) h = h
  after_sweep pending reports rest more (swept left reports' c) h =
      either-both (Well all) (ltb (length left) (length pending))
        (λ less. more left reports' c (ltb→lt (length left) (length pending) less) h.so_far)
        (λ done. (
          h.so_far,
          elim h.progress [
            | inl less ↦ absurd (ground (arith, less, done, length-reverse pending))
            | inr (same, keeps) ↦ subst (λ rs. All (Waiting rs) left) (sym same) (keeps tt)
          ],
        ))

module _ (w : World) (all : List ProcedureStep) where
  sweeps-Well :
      (fuel : ℕ) (pending : List ProcedureStep) (reports : List StepReport) (c : Context)
      → length pending < fuel
      → Sweeping all pending reports
      → Well all (sweeps fuel w pending reports c)
  unfolding sweeps
  sweeps-Well zero pending reports c enough h = omega (arith, enough)
  sweeps-Well (suc fuel) [] reports c enough h = (h, tt)
  sweeps-Well (suc fuel) (step ∷ pending) reports c enough h =
      after_sweep all (step ∷ pending) reports (λ left reports' c'. sweeps fuel w left reports' c')
        (λ left reports' c' less k.
          sweeps-Well fuel left reports' c' (omega (arith, less, enough)) k)
        (sweep w (reverse (step ∷ pending)) [] reports c)
        (sweep-SweepsWell w all (reverse (step ∷ pending)) [] reports c (record {
          ran = h.ran;
          course = h.course;
          split =
              Perm.trans
                (Perm.append_left h.ran (
                  subst (λ xs. Perm xs (step ∷ pending))
                    (sym (append-nil (reverse (step ∷ pending)))) (reverse_perm (step ∷ pending))))
                h.split;
        }))

none-failed :
    (reports : List StepReport)
    → exists (λ r. not r.ok) reports ≡ false
    → All (λ r. r.ok ≡ true) reports
none-failed [] h = tt
none-failed (r ∷ reports) h = (ground (arith, h), none-failed reports (ground (arith, h)))

failed_later :
    (reports : List StepReport) (s : ProcedureStep) (left : List StepReport)
    → exists (λ r. not r.ok) (reports ++ not_run s ∷ left) ≡ true
unfolding not_run
failed_later [] s left = refl
failed_later (r ∷ reports) s left = ground (arith, failed_later reports s left)

Waiting-unmet :
    (ran : List ProcedureStep) (reports : List StepReport)
    → Course ran reports
    → (left : List ProcedureStep) → All (Waiting reports) left
    → All (λ s. met ran s ≡ false) left
Waiting-unmet ran reports c [] h = tt
Waiting-unmet ran reports c (s ∷ left) h =
    (sym (ready-met ran reports s c) ∙ h.0, Waiting-unmet ran reports c left h.1)

settled :
    (p : Procedure) (reports : List StepReport)
    → Sweeping p.steps [] reports
    → Executes p (report_of p (status_of (reports ++ [])) (reports ++ []))
settled p reports h = elim (Bool-cases (exists (λ r. not r.ok) (reports ++ []))) [
  | inl bad ↦
      with_failures h.ran [] reports h.course h.split tt refl bad
        (ap (λ b. if b then failed else completed) bad)
  | inr good ↦
      all_ok h.ran (subst (Course h.ran) (sym (append-nil reports)) h.course)
        (subst (λ xs. Perm xs p.steps) (append-nil h.ran) h.split)
        (none-failed (reports ++ []) good) (ap (λ b. if b then failed else completed) good)
]

concluded-Concludes : (p : Procedure) (e : Executed) → Well p.steps e → Concludes p (concluded p e)
concluded-Concludes p (Executed.executed [] reports c) h = returns _ c (settled p reports h.0)
concluded-Concludes p (Executed.executed (s ∷ left) reports c) h = returns _ c (
    with_failures h.0.ran (s ∷ left) reports h.0.course h.0.split
      (Waiting-unmet h.0.ran reports h.0.course (s ∷ left) h.1) refl
      (failed_later reports s (map not_run left))
      (ap (λ b. if b then failed else completed) (failed_later reports s (map not_run left))))
concluded-Concludes p (Executed.halted_at left reports c) h =
    returns (report_of p halted reports) c (halted_early h refl)
concluded-Concludes p (Executed.threw m c) h = throws m c h
concluded-Concludes p Executed.unfinished h = elim h [ ]

-- Every run of a procedure ends. The steps that ran did so after all that they depend on. A run that completes
-- ran every step, each with success; one that fails reports a failure and left exactly steps that depend
-- on one that has not run; one that halts ended with a step that failed and halts. Else a file step raised.
pub execute_procedure-Concludes :
    (w : World) (p : Procedure) (c : Context) → Concludes p (execute_procedure w p c)
unfolding execute_procedure
execute_procedure-Concludes w p c =
    concluded-Concludes p (sweeps (length p.steps + 1) w p.steps [] c) (
      sweeps-Well w p.steps (length p.steps + 1) p.steps [] c (omega arith)
        (record { ran = []; course = nothing; split = Perm.refl p.steps }))
