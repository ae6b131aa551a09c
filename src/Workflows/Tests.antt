-- ===== src/Workflows/Tests.antt =====
-- Runs of procedures (src/core/workflows/stepExecution.ts, src/core/engine/ProcedureEngine.ts).
use xcoder.Prelude.{◌≡◌, refl, false, none, List, [], ◌∷◌, map}
use xcoder.Prelude.Text.{Text, codes}
use xcoder.Health.Json.{text}
use xcoder.Sdlc.World.{no_usage}
use xcoder.Lean.Engine.{call_failed, idle, outcome_completed}
use xcoder.Workflows.Steps.{
  shell, halt, ProcedureStep, Procedure, parsed, World, Context, did, file_error,
}
use xcoder.Workflows.Attempts.{execute_step}
use xcoder.Workflows.Attempts.Bounded.{Reports, execute_step-Reports}
use xcoder.Workflows.Procedures.{Ran, returned, threw, unfinished, execute_procedure}
use xcoder.Workflows.Procedures.Ordered.{Concludes, execute_procedure-Concludes}
use xcoder.Workflows.Engine.{ProcedureEngine, run}
use xcoder.Workflows.Engine.Settled.{Settles, run-Settles}

abbrev world : World
world = record {
  dispatch = λ n name arguments. record {
    tool_call_id = codes "w";
    tool_name = name;
    observation = text (codes "done");
    is_error = false;
  };
  complete = λ n messages. call_failed (codes "offline");
  complete_with = λ n messages options. call_failed (codes "offline");
  files = λ n call. file_error (codes "read-only");
  parse = λ s. parsed (text s);
  quote = λ s. s;
  pretty = λ x. codes "{}";
  resolve = λ parts. codes "/";
  lower = λ s. s;
  workspace_root = codes "/";
  plan_prompt = λ s. s;
  schema_prompt = λ s. s;
  outline_prompt = λ s. s;
  number = λ x. none;
  random_step_id = λ i. codes "r";
  random_procedure_id = codes "p";
  cancels_generating = [];
  cancels_executing = none ∷ [];
}

abbrev step_after : Text → List Text → ProcedureStep
step_after id depends_on = record {
  step_id = id;
  name = id;
  action = shell;
  command = codes "echo";
  depends_on = depends_on;
  on_failure = halt;
  max_retries = 2;
}

-- The second step depends on the first one, the third on a step that is missing.
abbrev procedure : Procedure
procedure = record {
  procedure_id = codes "p";
  steps =
      step_after (codes "a") []
      ∷ step_after (codes "b") (codes "a" ∷ [])
      ∷ step_after (codes "c") (codes "x" ∷ [])
      ∷ [];
}

abbrev context : Context
context = record { asked = 0; usage = no_usage; notices = [] }

abbrev reported_ids : Ran → List Text
reported_ids (returned report c) = map (λ r. r.step_id) report.step_reports
reported_ids (threw message c) = []
reported_ids unfinished = []

runs_in_order :
    reported_ids (execute_procedure world procedure context)
    ≡ codes "a" ∷ codes "b" ∷ codes "c" ∷ []
unfolding execute_procedure
runs_in_order = refl

execute_procedure-Concludes_example :
    Concludes procedure (execute_procedure world procedure context)
execute_procedure-Concludes_example = execute_procedure-Concludes world procedure context

execute_step-Reports_example :
    Reports world
      (step_after (codes "a") [])
      context
      (execute_step world (step_after (codes "a") []) context)
execute_step-Reports_example = execute_step-Reports world (step_after (codes "a") []) context

abbrev engine : ProcedureEngine
engine = record {
  state = idle;
  seen = [];
  is_cancelled = false;
  last_messages = [];
  iteration_count = 0;
  last_outcome = outcome_completed;
  context = context;
}

run-Settles_example :
    Settles world
      (codes "task")
      (did procedure context)
      (run world (λ task c. did procedure c) (codes "task") engine)
run-Settles_example = run-Settles world (λ task c. did procedure c) (codes "task") engine
