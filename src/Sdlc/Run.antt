-- ===== src/Sdlc/Run.antt =====
-- A whole run: the frontier loop, the isolation boundary, the guard against a stuck DAG, the ending,
-- the resume from a checkpoint and the checkpoints written (`run`, `runInternal`, `persistState`,
-- `cancel` and `getHealthScore` of src/core/engine/SdlcEngine.ts).
pub mod Put
pub mod Progress
use xcoder.Prelude.{
  ℕ, zero, suc, ◌+◌, String, Bool, true, false, ◌&&◌, Option, none, some, List, [], ◌∷◌, ◌++◌, map,
  str_eq, if◌then◌else◌, take, keep, every,
}
use xcoder.Prelude.Text.{Text, codes, truncate}
use xcoder.Sdlc.Stage.{
  Status, SdlcNode, SdlcEngineOptions, max_task_chars, max_persisted_result_chars,
}
use xcoder.Sdlc.Dag.{member, ids}
use xcoder.Sdlc.World.{Usage, World}
use xcoder.Sdlc.Healing.{Work, StageOutcome, StageEnd, returned, raised, run_node_with_healing}

pub data Phase : Type 0 where
  idle planning running cancelled completed error : Phase

pub data CheckpointStatus : Type 0 where
  running completed halted cancelled : CheckpointStatus

pub data RunOutcome : Type 0 where
  completed partial_completion : RunOutcome

pub record Checkpoint : Type 0 where
  pub task : Text
  pub status : CheckpointStatus
  pub dag : List SdlcNode

-- The engine's fields that a run changes. `checkpoints` are the files written, newest first.
pub record Engine : Type 0 where
  pub dag : List SdlcNode
  pub phase : Phase
  pub cancelled : Bool
  pub iteration_count : ℕ
  pub node_scores : List ℕ
  pub usage : Usage
  pub last_outcome : RunOutcome
  pub checkpoints : List Checkpoint
  pub next : ℕ

abbrev pub is_status : Status → SdlcNode → Bool
is_status s n = elim s [
  | Status.pending ↦ elim n.status [ Status.pending ↦ true | _ ↦ false ]
  | Status.in_progress ↦ elim n.status [ Status.in_progress ↦ true | _ ↦ false ]
  | Status.completed ↦ elim n.status [ Status.completed ↦ true | _ ↦ false ]
  | Status.failed ↦ elim n.status [ Status.failed ↦ true | _ ↦ false ]
  | Status.escalated ↦ elim n.status [ Status.escalated ↦ true | _ ↦ false ]
]

-- The node with this id is written back: in the source the loop holds a reference into the DAG.
unfoldable pub put_node : SdlcNode → List SdlcNode → List SdlcNode
put_node n [] = []
put_node n (m ∷ rest) =
    let later = put_node n rest in if str_eq m.id n.id then n ∷ rest else m ∷ later

-- what `persistState` writes of a node
unfoldable pub persisted : (Text → Text) → SdlcNode → SdlcNode
persisted redact n = record n {
  result = elim n.result [
    | none ↦ none
    | some r ↦ some (take max_persisted_result_chars (redact r))
  ];
  error = elim n.error [ none ↦ none | some e ↦ some (truncate 2000 (redact e)) ];
}

unfoldable pub persist_state : World → SdlcEngineOptions → Text → CheckpointStatus → Engine → Engine
persist_state world opts task status e =
    if opts.persist_artifacts
    then record e {
      checkpoints =
          record {
            task = take max_task_chars (world.redact task);
            status = status;
            dag = map (persisted world.redact) e.dag;
          }
          ∷ e.checkpoints;
    }
    else e

-- `cancel`: the guard is on the phase
unfoldable pub cancel : Engine → Engine
cancel e = elim e.phase [
  | Phase.idle ↦ e
  | Phase.completed ↦ e
  | Phase.cancelled ↦ e
  | _ ↦ record e { cancelled = true; phase = Phase.cancelled }
]

-- Dependencies all completed, and still pending.
abbrev pub completed_ids : List SdlcNode → List String
completed_ids dag = ids (keep (is_status Status.completed) dag)

unfoldable pub runnable : List String → SdlcNode → Bool
runnable finished n = is_status Status.pending n && every (λ d. member d finished) n.dependencies

unfoldable pub frontier : List SdlcNode → List SdlcNode
frontier dag = keep (runnable (completed_ids dag)) dag

-- The stage's result goes back into the engine. A cancellation on the way moved the phase.
unfoldable pub absorb : Engine → Work → Engine
absorb e w =
    let e' = record e {
      dag = put_node w.node e.dag;
      node_scores = w.node_scores;
      usage = w.usage;
      next = w.next;
    } in
    if w.cancelled then cancel e' else e'

-- What the isolation boundary writes into a stage that threw.
unfoldable pub isolate : (Text → Text) → Text → Work → Work
isolate redact message w = record w {
  node = record w.node {
    status = Status.escalated;
    error = some (codes "Isolation boundary caught an unexpected error: " ++ redact message);
  };
  node_scores = w.node_scores ++ 0 ∷ [];
}

-- How the loops leave: on to the next round, or with the stage that escalated, or stopped.
pub data Loop : Type 0 where
  continue : Engine → Loop
  halted : SdlcNode → Engine → Loop
  stopped : Engine → Loop

unfoldable pub end_stage : World → SdlcEngineOptions → Text → Engine → StageEnd → Loop
end_stage world opts task e (returned StageOutcome.completed w) =
    continue (persist_state world opts task CheckpointStatus.running (absorb e w))
end_stage world opts task e (returned StageOutcome.cancelled w) =
    stopped (persist_state world opts task CheckpointStatus.running (absorb e w))
end_stage world opts task e (returned StageOutcome.escalated w) =
    halted w.node (persist_state world opts task CheckpointStatus.running (absorb e w))
end_stage world opts task e (raised message w) =
    let w' = isolate world.redact message w in
    halted w'.node (persist_state world opts task CheckpointStatus.running (absorb e w'))

-- the body of the inner loop, for one node of the frontier
unfoldable pub run_stage : World → SdlcEngineOptions → Text → SdlcNode → Engine → Loop
run_stage world opts task n e =
    let node = record n { status = Status.in_progress } in
    let e' = record e {
      dag = put_node node e.dag;
      iteration_count = e.iteration_count + 1;
      phase = Phase.running;
    } in
    end_stage world opts task e' (
      run_node_with_healing world opts (record {
        node = node;
        node_scores = e'.node_scores;
        usage = e'.usage;
        cancelled = e'.cancelled;
        next = e'.next;
      }))

unfoldable pub next_stage : Loop → (Engine → Loop) → Loop
next_stage (continue e) again = again e
next_stage (halted n e) again = halted n e
next_stage (stopped e) again = stopped e

unfoldable pub run_frontier : World → SdlcEngineOptions → Text → List SdlcNode → Engine → Loop
run_frontier world opts task [] e = continue e
run_frontier world opts task (n ∷ rest) e =
    if e.cancelled
    then continue e
    else next_stage (run_stage world opts task n e) (run_frontier world opts task rest)

-- After the inner loop: an escalation leaves the outer loop, all else goes back to its test.
unfoldable pub next_round : Loop → (Engine → Option Loop) → Option Loop
next_round (continue e) again = again e
next_round (halted n e) again = some (halted n e)
next_round (stopped e) again = again e

-- one round, with the frontier that was found
unfoldable pub round :
    World → SdlcEngineOptions → Text → List SdlcNode → (Engine → Option Loop) → Engine → Option Loop
round world opts task [] again e = some (stopped e)
round world opts task (n ∷ rest) again e =
    next_round (run_frontier world opts task (n ∷ rest) e) again

-- `while (!this.cancelled)`; `none` means that the fuel ran out
unfoldable pub frontier_loop : World → SdlcEngineOptions → Text → ℕ → Engine → Option Loop
frontier_loop world opts task zero e = none
frontier_loop world opts task (suc fuel) e =
    if e.cancelled
    then some (stopped e)
    else round world opts task (frontier e.dag) (frontier_loop world opts task fuel) e
