-- ===== src/Workflows/Engine/Settled.antt =====
-- How a run of the procedure engine ends (src/core/engine/ProcedureEngine.ts).
use xcoder.Prelude.{◌≡◌, ◌≢◌, refl, some, ◌++◌, map, arith}
use xcoder.Prelude.Text.{Text, codes}
use xcoder.Lean.Engine.{EngineState, llm_error, outcome_completed, partial_completion}
use xcoder.Workflows.Steps.{
  Procedure, RunStatus, completed, failed, halted, ProcedureRunReport, World, Context, Did, did,
  raised,
}
use xcoder.Workflows.Procedures.{Ran, returned, non_empty_or, execute_procedure}
use xcoder.Workflows.Procedures.Ordered.{
  Executes, Concludes, returns, throws, execute_procedure-Concludes,
}
use xcoder.Workflows.Engine.{
  ProcedureEngine, transition, message_of, partial_answer, Outcome, waited, reporting, by_status,
  after_execution, after_generation, begin_steps, start, run,
}

-- The run ends completed, with the outcome that the report of the generated procedure has, or with the error
-- of its generation or of its execution; a cancellation in between leaves no trace in the state.
pub data Settles (w : World) (task : Text) (generated : Did Procedure) : Outcome → Type 0 where
  all_done :
      {answer : Text} {e : ProcedureEngine} (p : Procedure) (c c' : Context)
      (rep : ProcedureRunReport)
      → generated ≡ did p c
      → execute_procedure w p c ≡ returned rep c'
      → Executes p rep
      → rep.status ≡ completed
      → e.state ≡ EngineState.completed task outcome_completed
      → e.last_outcome ≡ outcome_completed
      → e.last_messages ≡ map message_of rep.step_reports
      → answer ≡ non_empty_or rep.final_output (codes "Procedure completed with no output.")
      → Settles w task generated (some (answer, e))
  partly_done :
      {answer : Text} {e : ProcedureEngine} (p : Procedure) (c c' : Context)
      (rep : ProcedureRunReport)
      → generated ≡ did p c
      → execute_procedure w p c ≡ returned rep c'
      → Executes p rep
      → rep.status ≢ completed
      → e.state ≡ EngineState.completed task partial_completion
      → e.last_outcome ≡ partial_completion
      → e.last_messages ≡ map message_of rep.step_reports
      → answer ≡ partial_answer rep
      → Settles w task generated (some (answer, e))
  ungenerated :
      {e : ProcedureEngine} (message : Text) (c : Context)
      → generated ≡ raised message c
      → e.state ≡ llm_error task message
      → e.last_outcome ≡ partial_completion
      → Settles w task generated (some (codes "Stopped: " ++ message, e))
  broken_off :
      {e : ProcedureEngine} (p : Procedure) (c c' : Context) (message : Text)
      → generated ≡ did p c
      → execute_procedure w p c ≡ Ran.threw message c'
      → e.state ≡ llm_error task message
      → e.last_outcome ≡ partial_completion
      → Settles w task generated (some (codes "Stopped: " ++ message, e))

module _ (w : World) (task : Text) (generated : Did Procedure) (p : Procedure) (c : Context)
    (made : generated ≡ did p c) where
  status-Settles :
      (c' : Context) (rep : ProcedureRunReport) (s : RunStatus)
      → execute_procedure w p c ≡ returned rep c'
      → rep.status ≡ s
      → Executes p rep
      → (e : ProcedureEngine) → e.last_messages ≡ map message_of rep.step_reports
      → Settles w task generated (by_status task rep s e)
  unfolding transition
  status-Settles c' rep completed ran same h e told =
      all_done p c c' rep made ran h same refl refl told refl
  status-Settles c' rep failed ran same h e told =
      partly_done p c c' rep made ran h (λ done. ground (arith, same, done)) refl refl told refl
  status-Settles c' rep halted ran same h e told =
      partly_done p c c' rep made ran h (λ done. ground (arith, same, done)) refl refl told refl

  execution-Settles :
      (r : Ran)
      → execute_procedure w p c ≡ r
      → Concludes p r
      → (e : ProcedureEngine) → Settles w task generated (after_execution w task r e)
  unfolding transition
  execution-Settles _ ran (returns rep c' h) e =
      status-Settles c' rep rep.status ran refl h (reporting rep (waited w.cancels_executing c' e))
        refl
  execution-Settles _ ran (throws message c' h) e = broken_off p c c' message made ran refl refl

generation-Settles :
    (w : World) (task : Text) (generated d : Did Procedure)
    → generated ≡ d
    → (e : ProcedureEngine) → Settles w task generated (after_generation w task d e)
unfolding transition
generation-Settles w task generated (raised message c) made e = ungenerated message c made refl refl
generation-Settles w task generated (did p c) made e =
    execution-Settles w task generated p c made (execute_procedure w p c) refl
      (execute_procedure-Concludes w p c) (begin_steps task p (waited w.cancels_generating c e))

-- Every run of the engine returns, whatever generates the procedure: it executes the procedure that was generated
-- and ends completed with the outcome and the answer that its report has and with its steps as the messages, or
-- with the error of the generation or of the execution; a cancellation that comes while it runs does not show in
-- the state.
pub run-Settles :
    (w : World) (generate : Text → Context → Did Procedure) (task : Text) (e : ProcedureEngine)
    → Settles w task (generate task e.context) (run w generate task e)
unfolding run
run-Settles w generate task e =
    generation-Settles w task (generate task e.context) (generate task e.context) refl
      (start task e)
