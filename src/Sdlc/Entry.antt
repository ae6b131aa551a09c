-- ===== src/Sdlc/Entry.antt =====
-- The entry and the ending of a run: the resume from a checkpoint, the guard against a stuck DAG, the
-- reported outcome, and the checks of the public `run` (`run`, `runInternal`, `getHealthScore` of
-- src/core/engine/SdlcEngine.ts). The entry stage is that of `classifyIntake`, an argument here.
pub mod Reported
pub mod Total
use Prim.Native.String.{◌++◌ as append_string}
use xcoder.Prelude.{
  ℕ, suc, ◌+◌, ◌*◌, ◌/◌, String, Bool, false, ◌&&◌, ◌||◌, Option, none, some, List, [], ◌∷◌, ◌++◌,
  map, str_eq, ltb, if◌then◌else◌, length, take, take_last, keep, find,
}
use xcoder.Prelude.Text.{Text, codes, trim, non_empty, same_text}
use xcoder.Sdlc.Stage.{Stage, Status, SdlcNode, SdlcEngineOptions, max_task_chars}
use xcoder.Sdlc.Dag.{Visit, Marks, done, thrown, no_fuel, DagError, ids, build_dag, validate_dag}
use xcoder.Sdlc.World.{no_usage, World}
use xcoder.Sdlc.Run.{
  Phase, Engine, Checkpoint, CheckpointStatus, RunOutcome, Loop, continue, halted, stopped,
  is_status, put_node, persist_state, frontier_loop,
}

-- `xs.join(">")`
unfoldable pub join_ids : List String → String
join_ids [] = ""
join_ids (id ∷ []) = id
join_ids (id ∷ j ∷ rest) = append_string id (append_string ">" (join_ids (j ∷ rest)))

-- One node of the checkpoint goes back into the DAG, if the DAG has its id and the node is completed
-- with a result.
unfoldable pub restore_into :
    List SdlcNode → SdlcNode → Option SdlcNode → Option Text → List SdlcNode
restore_into dag prior none result = dag
restore_into dag prior (some n) none = dag
restore_into dag prior (some n) (some r) =
    if is_status Status.completed prior
    then put_node
        (record n { status = Status.completed; result = some r; attempts = prior.attempts }) dag
    else dag

unfoldable pub restore_node : List SdlcNode → SdlcNode → List SdlcNode
restore_node dag prior = restore_into dag prior (find (λ n. str_eq n.id prior.id) dag) prior.result

unfoldable pub restore : List SdlcNode → List SdlcNode → List SdlcNode
restore dag [] = dag
restore dag (prior ∷ rest) = restore (restore_node dag prior) rest

-- `sameShape`, and the restoring. A checkpoint that was not found or is not valid is `none`.
unfoldable pub resume : World → Text → Option Checkpoint → List SdlcNode → List SdlcNode
resume world task none dag = dag
resume world task (some cp) dag =
    if same_text cp.task (take max_task_chars (world.redact task))
      && str_eq (join_ids (ids cp.dag)) (join_ids (ids dag))
    then restore dag cp.dag
    else dag

-- `this.dag.find((n) => n.status === "pending" || n.status === "in_progress")`
unfoldable pub stuck_node : List SdlcNode → Option SdlcNode
stuck_node = find (λ n. is_status Status.pending n || is_status Status.in_progress n)

unfoldable pub never_runnable : SdlcNode → SdlcNode
never_runnable n = record n {
  status = Status.escalated;
  error = some (
      codes "Stage \""
      ++ codes n.id
      ++ codes "\" was never runnable (its dependencies did not complete).");
}

unfoldable pub set_pending : SdlcNode → SdlcNode
set_pending n = if is_status Status.in_progress n then record n { status = Status.pending } else n

-- What the promise of `run` resolves to.
pub data Answer : Type 0 where
  halted_at : String → List SdlcNode → Answer
  was_cancelled : Answer
  finished : List SdlcNode → Answer
  task_empty task_too_long already_running out_of_fuel : Answer
  crashed : DagError → Answer

unfoldable pub end_halted : World → SdlcEngineOptions → Text → SdlcNode → Engine → Engine × Answer
end_halted world opts task n e =
    let e' =
      persist_state world opts task CheckpointStatus.halted
        (record e { last_outcome = RunOutcome.partial_completion }) in
    (record e' { phase = Phase.error }, halted_at n.id (keep (is_status Status.completed) e'.dag))

unfoldable pub end_cancelled : World → SdlcEngineOptions → Text → Engine → Engine × Answer
end_cancelled world opts task e = (
  persist_state world opts task CheckpointStatus.cancelled
      (record e { dag = map set_pending e.dag; last_outcome = RunOutcome.partial_completion }),
  was_cancelled,
)

unfoldable pub end_completed : World → SdlcEngineOptions → Text → Engine → Engine × Answer
end_completed world opts task e =
    let e' =
      persist_state world opts task CheckpointStatus.completed
        (record e { last_outcome = RunOutcome.completed }) in
    (record e' { phase = Phase.completed }, finished (keep (is_status Status.completed) e'.dag))

-- the guard against a stuck DAG
unfoldable pub end_stopped :
    World → SdlcEngineOptions → Text → Option SdlcNode → Engine → Engine × Answer
end_stopped world opts task (some n) e =
    let n' = never_runnable n in
    end_halted world opts task n' (record e { dag = put_node n' e.dag })
end_stopped world opts task none e = end_completed world opts task e

-- after the frontier loop
unfoldable pub end_run : World → SdlcEngineOptions → Text → Option Loop → Engine → Engine × Answer
end_run world opts task none e = (e, out_of_fuel)
end_run world opts task (some (halted n e)) _ = end_halted world opts task n e
end_run world opts task (some (continue e)) _ = (e, out_of_fuel)
end_run world opts task (some (stopped e)) _ =
    if e.cancelled
    then end_cancelled world opts task e
    else end_stopped world opts task (stuck_node e.dag) e

-- What a run resets before it starts. The tape and the files written go on.
unfoldable pub fresh : List SdlcNode → Engine → Engine
fresh dag e = record e {
  dag = dag;
  phase = Phase.planning;
  cancelled = false;
  iteration_count = 0;
  node_scores = [];
  usage = no_usage;
}

-- `handleCrash`
unfoldable pub crash : World → SdlcEngineOptions → Text → DagError → Engine → Engine × Answer
crash world opts task d e = (
  persist_state world opts task CheckpointStatus.halted
      (record e { last_outcome = RunOutcome.partial_completion }),
  crashed d,
)

-- the run proper, once the DAG is known to be valid
unfoldable pub run_pipeline :
    World → SdlcEngineOptions → Text → Option Checkpoint → List SdlcNode → Engine → Engine × Answer
run_pipeline world opts task checkpoint dag e =
    let begun =
      persist_state world opts task CheckpointStatus.running
        (record (fresh (resume world task checkpoint dag) e) { phase = Phase.running }) in
    end_run world opts task (frontier_loop world opts task (suc (length dag)) begun) begun

unfoldable pub if_valid :
    World
    → SdlcEngineOptions
    → Text
    → Option Checkpoint
    → List SdlcNode
    → Engine
    → Visit Marks
    → Engine × Answer
if_valid world opts task checkpoint dag e (thrown d) = crash world opts task d (fresh dag e)
if_valid world opts task checkpoint dag e no_fuel = (fresh dag e, out_of_fuel)
if_valid world opts task checkpoint dag e (done marks) =
    run_pipeline world opts task checkpoint dag e

-- `runInternal` from the classified stage; one round of the loop for each node and one to see that
-- nothing is left.
unfoldable pub run_internal :
    World → SdlcEngineOptions → Text → Stage → Option Checkpoint → Engine → Engine × Answer
run_internal world opts task start checkpoint e =
    let dag = build_dag start opts in
    if_valid world opts task checkpoint dag e (validate_dag (suc (length dag)) dag)

-- `run`: the checks before a run; `busy` is the flag `running`
unfoldable pub run :
    World → SdlcEngineOptions → Bool → Text → Stage → Option Checkpoint → Engine → Engine × Answer
run world opts busy task start checkpoint e =
    if non_empty (trim task)
    then if ltb max_task_chars (length task)
      then (record e { last_outcome = RunOutcome.partial_completion }, task_too_long)
      else if busy
      then (e, already_running)
      else run_internal world opts task start checkpoint e
    else (record e { last_outcome = RunOutcome.partial_completion }, task_empty)

abbrev pub sum : List ℕ → ℕ
sum [] = 0
sum (x ∷ xs) = x + sum xs

-- `Math.round(window.reduce(...) / window.length)`
unfoldable pub health_score : List ℕ → ℕ
health_score [] = 100
health_score (s ∷ rest) =
    let window = take_last 5 (s ∷ rest) in (2 * sum window + length window) / (2 * length window)
