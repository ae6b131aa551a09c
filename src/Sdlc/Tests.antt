-- ===== src/Sdlc/Tests.antt =====
-- Runs of the pipeline model on concrete worlds (src/core/engine/SdlcEngine.ts).
use xcoder.Prelude.{ℕ, zero, suc, ◌≡◌, refl, true, false, ◌↔◌, none, [], ◌∷◌}
use xcoder.Prelude.Text.{codes, trim}
use xcoder.Sdlc.Stage.{Status, AcceptanceType, SdlcNode, SdlcEngineOptions, fix_defect}
use xcoder.Sdlc.Dag.{
  build_dag, link, plan_stages, validate_dag, search_cycles, visit_all, visit, visit_marked, Marks,
  finished, visiting, mark_of,
}
use xcoder.Sdlc.Dag.Acyclic.{Reaches, validate_dag-acyclic}
use xcoder.Sdlc.Dag.Built.{IsDone, build_dag-IsDone}
use xcoder.Sdlc.World.{
  Attempt, AgentRun, World, answered, Reply, parsed, unparsed, exited, no_usage,
}
use xcoder.Sdlc.Gate.{validate_node}
use xcoder.Sdlc.Gate.Exact.{Supported, validate_node-exact}
use xcoder.Sdlc.Healing.{Work, run_node_with_healing}
use xcoder.Sdlc.Healing.Bounded.{StageEnds, run_node-StageEnds}
use xcoder.Sdlc.Run.{Phase, Engine, RunOutcome}
use xcoder.Sdlc.Entry.{run}
use xcoder.Sdlc.Entry.Reported.{Reports}
use xcoder.Sdlc.Entry.Total.{run-Reports}

abbrev plain : SdlcEngineOptions
plain = record {
  max_healing_attempts = none;
  include_document = false;
  include_deploy = false;
  persist_artifacts = true;
  acceptance_overrides = λ s. none;
  max_total_tokens = none;
  max_wall_clock_ms = none;
}

abbrev attempt_with : AgentRun → Reply → Attempt
attempt_with agent reply = record {
  elapsed_ms = 10;
  agent = agent;
  cancelled_in_agent = false;
  command_run = exited 0 [];
  first_reply = reply;
  second_reply = reply;
  cancelled_in_gate = false;
}

-- The first attempt crashes, the second is refused, and all later ones pass.
abbrev shaky : ℕ → Attempt
shaky zero = attempt_with (AgentRun.crashed (codes "boom")) (parsed true [] none)
shaky (suc zero) =
    attempt_with (answered (codes "draft") 3 no_usage) (parsed false (codes "no") none)
shaky _ = attempt_with (answered (codes "done") 3 no_usage) (unparsed (codes "fine") none)

abbrev shaky_world : World
shaky_world = record { tape = shaky; redact = λ s. s }

abbrev idle : Engine
idle = record {
  dag = [];
  phase = Phase.idle;
  cancelled = false;
  iteration_count = 0;
  node_scores = [];
  usage = no_usage;
  last_outcome = RunOutcome.completed;
  checkpoints = [];
  next = 0;
}

abbrev fixing : SdlcNode
fixing = record {
  id = "fix_defect";
  stage = fix_defect;
  role = "programmer";
  dependencies = [];
  status = Status.in_progress;
  acceptance = record { kind = AcceptanceType.rubric; command = none; rubric = none };
  attempts = 0;
  result = none;
  error = none;
  iteration_count = none;
  history = [];
}

abbrev begun : Work
begun = record { node = fixing; node_scores = []; usage = no_usage; cancelled = false; next = 0 }

validate_node-exact_example :
    ((validate_node (λ s. s) fixing.acceptance (shaky 2) no_usage).0.pass ≡ true)
    ↔ Supported AcceptanceType.rubric none (shaky 2)
validate_node-exact_example = validate_node-exact (λ s. s) fixing.acceptance (shaky 2) no_usage

run_node-StageEnds_example :
    StageEnds shaky_world plain fixing.acceptance 2 0 begun
      (run_node_with_healing shaky_world plain begun)
run_node-StageEnds_example = run_node-StageEnds shaky_world plain begun

build_dag-IsDone_example : IsDone (validate_dag 3 (build_dag fix_defect plain))
unfolding build_dag link plan_stages
build_dag-IsDone_example = build_dag-IsDone fix_defect plain

run-Reports_example :
    Reports shaky_world plain
      (codes "fix it")
      none
      (run shaky_world plain false (codes "fix it") fix_defect none idle)
unfolding trim
run-Reports_example = run-Reports shaky_world plain (codes "fix it") none fix_defect idle refl refl

abbrev fix_marks : Marks
fix_marks =
    ("test", finished)
    ∷ ("test", visiting)
    ∷ ("fix_defect", finished)
    ∷ ("fix_defect", visiting)
    ∷ []

validate_dag-acyclic_example : ¬ (Reaches (build_dag fix_defect plain) "test" "test")
unfolding build_dag link plan_stages validate_dag search_cycles visit visit_all visit_marked mark_of
validate_dag-acyclic_example =
    validate_dag-acyclic 3 (build_dag fix_defect plain) fix_marks "test" refl refl
