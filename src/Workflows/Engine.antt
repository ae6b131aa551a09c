-- ===== src/Workflows/Engine.antt =====
-- `ProcedureEngine` of src/core/engine/ProcedureEngine.ts: a procedure is generated, then executed. The calls
-- of `io` are left out.
pub mod Settled
use xcoder.Prelude.{
  ℕ, ◌+◌, Bool, true, false, not, Option, none, some, List, [], ◌∷◌, ◌++◌, map, keep, length,
  or_default, if◌then◌else◌, ◌==◌,
}
use xcoder.Prelude.Text.{Text, codes, show, trim}
use xcoder.Prelude.Keys.{Dict}
use xcoder.Health.Messages.{LlmMessage}
use xcoder.Lean.Engine.{
  EngineState, RunOutcome, planning, running, cancelled, llm_error, outcome_completed,
  partial_completion, is_settled, task_of,
}
use xcoder.Lean.Calls.{message}
use xcoder.Workflows.Steps.{
  Procedure, StepReport, RunStatus, completed, failed, halted, ProcedureRunReport, World, Context,
  Did, did, raised,
}
use xcoder.Workflows.Actions.{join_texts}
use xcoder.Workflows.Router.{RoleConfig, chat}
use xcoder.Workflows.Generation.{generate_procedure, user_call}
use xcoder.Workflows.Procedures.{Ran, returned, threw, unfinished, non_empty_or, execute_procedure}

-- `seen` holds what an observer is told; the context holds the usage.
pub record ProcedureEngine : Type 0 where
  pub state : EngineState
  pub seen : List EngineState
  pub is_cancelled : Bool
  pub last_messages : List LlmMessage
  pub iteration_count : ℕ
  pub last_outcome : RunOutcome
  pub context : Context

unfoldable pub transition : EngineState → ProcedureEngine → ProcedureEngine
transition s e = record e { state = s; seen = e.seen ++ s ∷ [] }

unfoldable pub cancel : Option Text → ProcedureEngine → ProcedureEngine
unfolding transition
cancel reason e =
    if is_settled e.state
    then e
    else transition (cancelled (task_of e.state) (or_default reason (codes "cancelled by caller")))
        (record e { is_cancelled = true })

unfoldable pub cancel_all : List (Option Text) → ProcedureEngine → ProcedureEngine
unfolding cancel
cancel_all [] e = e
cancel_all (reason ∷ reasons) e = cancel_all reasons (cancel reason e)

-- The roles that the constructor configures.
abbrev pub roles : Dict Text RoleConfig
roles =
    (codes "orchestrator", record { model = none; temperature = none; json = false })
    ∷ (codes "executor", record { model = none; temperature = none; json = false })
    ∷ []

abbrev pub message_of : StepReport → LlmMessage
message_of r =
    record (message (codes "tool")
      (if r.ok then r.output else codes "ERROR: " ++ or_default r.error [])) {
        name = some r.step_id;
      }

abbrev pub failure_line : StepReport → Text
failure_line r = codes "- " ++ (r.step_id ++ (codes ": " ++ or_default r.error (codes "failed")))

abbrev pub verb : RunStatus → Text
verb halted = codes "halted"
verb _ = codes "failed"

unfoldable pub partial_answer : ProcedureRunReport → Text
unfolding join_texts show
partial_answer report =
    codes "Procedure "
    ++ (verb report.status
        ++ (codes " after "
            ++ (show (length report.step_reports)
                ++ (codes " step(s)."
                    ++ (10
                        ∷ (join_texts (10 ∷ [])
                              (map failure_line (keep (λ r. not r.ok) report.step_reports))
                            ++ (10 ∷ 10 ∷ codes "Partial output:")
                            ++ 10 ∷ report.final_output))))))

-- The answer and the engine after the run.
abbrev pub Outcome : Type 0
Outcome = Option (Text × ProcedureEngine)

abbrev pub settle : Text → RunOutcome → Text → ProcedureEngine → Outcome
settle task outcome answer e =
    some (
      answer,
      transition (EngineState.completed task outcome) (record e { last_outcome = outcome }),
    )

abbrev pub by_status : Text → ProcedureRunReport → RunStatus → ProcedureEngine → Outcome
by_status task report completed e =
    settle task outcome_completed
      (non_empty_or report.final_output (codes "Procedure completed with no output.")) e
by_status task report _ e = settle task partial_completion (partial_answer report) e

-- The `catch` of the run.
abbrev pub stop : Text → Text → ProcedureEngine → Outcome
stop task message e = some (
  codes "Stopped: " ++ message,
  transition (llm_error task message) (record e { last_outcome = partial_completion }),
)

abbrev pub waited : List (Option Text) → Context → ProcedureEngine → ProcedureEngine
waited cancels c e = record (cancel_all cancels e) { context = c }

abbrev pub reporting : ProcedureRunReport → ProcedureEngine → ProcedureEngine
reporting report e = record e {
  iteration_count = length report.step_reports;
  last_messages = map message_of report.step_reports;
}

abbrev pub after_execution : World → Text → Ran → ProcedureEngine → Outcome
after_execution w task (returned report c) e =
    by_status task report report.status (reporting report (waited w.cancels_executing c e))
after_execution w task (threw message c) e = stop task message (waited w.cancels_executing c e)
after_execution w task unfinished e = none

abbrev pub at_least_one : ℕ → ℕ
at_least_one n = if n == 0 then 1 else n

abbrev pub begin_steps : Text → Procedure → ProcedureEngine → ProcedureEngine
begin_steps task p e = transition (running task 1 (at_least_one (length p.steps))) e

abbrev pub after_generation : World → Text → Did Procedure → ProcedureEngine → Outcome
after_generation w task (raised message c) e = stop task message (waited w.cancels_generating c e)
after_generation w task (did p c) e =
    after_execution w task (execute_procedure w p c)
      (begin_steps task p (waited w.cancels_generating c e))

unfoldable pub start : Text → ProcedureEngine → ProcedureEngine
unfolding transition
start task e = transition (planning task) (record e {
  is_cancelled = false;
  last_outcome = outcome_completed;
  iteration_count = 0;
  last_messages = [];
})

-- `run`, with the procedures of this generator
unfoldable pub run : World → (Text → Context → Did Procedure) → Text → ProcedureEngine → Outcome
unfolding transition cancel_all execute_procedure partial_answer start
run w generate task e = after_generation w task (generate task e.context) (start task e)

-- The generator of the constructor, if none is injected.
unfoldable pub generate : World → Text → Context → Did Procedure
unfolding generate_procedure
generate w task c = generate_procedure w roles (some (codes "orchestrator")) task c

abbrev pub by_plan : Text → Did Text → ProcedureEngine → Did Text × ProcedureEngine
by_plan task (raised message c) e = (raised message c, record e { context = c })
by_plan task (did plan c) e = (
  did (trim plan) c,
  transition (EngineState.completed task outcome_completed) (record e { context = c }),
)

-- `generatePlan`; an exception leaves the engine planning.
unfoldable pub generate_plan : World → Text → ProcedureEngine → Did Text × ProcedureEngine
unfolding chat transition trim
generate_plan w task e =
    by_plan task
      (chat w roles (user_call (codes "orchestrator") (w.outline_prompt task) false) e.context)
      (transition (planning task) e)
