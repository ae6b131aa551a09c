-- ===== src/Sdlc/Entry/Total.antt =====
-- Every run comes to an answer (`run` of src/core/engine/SdlcEngine.ts).
use mathlib.Core.Option.{some-injective}
use native.Mathlib.Nat.{le_trans}
use xcoder.Prelude.{
  ℕ, suc, ◌≤◌, ◌<◌, ◌≡◌, refl, sym, ap, subst, inl, inr, Bool, true, false, Option, some, none,
  List, [], ◌∷◌, arith, str_eq, eq_iff, if-both, All, length, find, ltb,
}
use xcoder.Prelude.Text.{Text, trim, non_empty}
use xcoder.Sdlc.Stage.{Stage, Status, SdlcNode, SdlcEngineOptions, max_task_chars}
use xcoder.Sdlc.Dag.{
  Visit, Marks, done, thrown, no_fuel, ids, member, has_duplicate, build_dag, validate_dag,
}
use xcoder.Sdlc.Dag.Built.{IsDone, build_dag-IsDone, IsPending, build_dag-IsPending}
use xcoder.Sdlc.World.{World}
use xcoder.Sdlc.Run.{Engine, Checkpoint, CheckpointStatus, is_status}
use xcoder.Sdlc.Run.Put.{pending_count, Has, Distinct, put-All, pending-put-le, Distinct-put}
use xcoder.Sdlc.Run.Progress.{FineNode, frontier_loop-Ended}
use xcoder.Sdlc.Entry.{
  restore_into, restore_node, restore, resume, fresh, run_pipeline, if_valid, run_internal, run,
}
use xcoder.Sdlc.Entry.Reported.{Restored, Reports, end_run-Reports, dag-persist}

Has-member : (n : SdlcNode) (dag : List SdlcNode) → Has n dag → member n.id (ids dag) ≡ true
Has-member n [] h = absurd h
Has-member n (m ∷ rest) (inl same) =
    ground (arith, eq_iff m.id n.id, ap (λ (k : SdlcNode). k.id) same)
Has-member n (m ∷ rest) (inr later) = ground (arith, Has-member n rest later)

Distinct-of_ids : (dag : List SdlcNode) → has_duplicate (ids dag) ≡ false → Distinct dag
unfolding has_duplicate
Distinct-of_ids [] h = tt
Distinct-of_ids (m ∷ rest) h = (
  (λ n has same. ground (arith, Has-member n rest has, ap (λ k. member k (ids rest)) same)),
  Distinct-of_ids rest (ground arith),
)

completed_status :
    (n : SdlcNode) → is_status Status.completed n ≡ true → n.status ≡ Status.completed
completed_status n h = ground arith

valid-Distinct : (fuel : ℕ) (dag : List SdlcNode) → IsDone (validate_dag fuel dag) → Distinct dag
unfolding validate_dag
valid-Distinct fuel dag =
    if-both (λ v. IsDone v → Distinct dag) (has_duplicate (ids dag)) (λ _ h. absurd h)
      (λ ok _. Distinct-of_ids dag ok)

pending-le-length : (dag : List SdlcNode) → pending_count dag ≤ length dag
unfolding pending_count
pending-le-length [] = omega arith
pending-le-length (n ∷ rest) = ground (arith, pending-le-length rest)

find-passes {ℓ} :
    {A : Type ℓ} (p : A → Bool) (xs : List A) (a : A) → find p xs ≡ some a → p a ≡ true
find-passes p [] a = λ e. cc
find-passes p (x ∷ xs) a =
    if-both (λ o. o ≡ some a → p a ≡ true) (p x)
      (λ t e. subst (λ k. p k ≡ true) (some-injective x a e) t) (λ _ e. find-passes p xs a e)

-- The DAG that a run starts from, restored from this checkpoint.
module _ (world : World) (task : Text) (checkpoint : Option Checkpoint) where
  abbrev Good : ℕ → List SdlcNode → Type 0
  Good bound dag =
      Distinct dag × All (FineNode world (Restored checkpoint)) dag × (pending_count dag ≤ bound)

  restore_into-Good :
      (cp : Checkpoint) (bound : ℕ) (dag : List SdlcNode) (prior : SdlcNode)
      (found : Option SdlcNode) (result : Option Text)
      → checkpoint ≡ some cp
      → Has prior cp.dag
      → find (λ n. str_eq n.id prior.id) dag ≡ found
      → prior.result ≡ result
      → Good bound dag
      → Good bound (restore_into dag prior found result)
  unfolding restore_into
  restore_into-Good cp bound dag prior none result given has f r g = g
  restore_into-Good cp bound dag prior (some n) none given has f r g = g
  restore_into-Good cp bound dag prior (some n) (some out) given has f r g =
      if-both (Good bound) (is_status Status.completed prior)
        (λ was.
          let m : SdlcNode = record n {
            status = Status.completed;
            result = some out;
            attempts = prior.attempts;
          } in
          (
            Distinct-put m dag g.0,
            put-All (FineNode world (Restored checkpoint)) m dag
                (inr (
                  refl,
                  inl (record {
                    source = cp;
                    given = given;
                    prior = prior;
                    listed = has;
                    was_completed = completed_status prior was;
                    same_id = sym (
                        (eq_iff n.id prior.id).0
                          (find-passes (λ (k : SdlcNode). str_eq k.id prior.id) dag n f));
                    same_result = r;
                  }),
                ))
                g.1,
            le_trans (pending-put-le m dag refl) g.2,
          ))
        (λ _. g)

  restore-Good :
      (cp : Checkpoint) (bound : ℕ) (rest : List SdlcNode) (dag : List SdlcNode)
      → checkpoint ≡ some cp
      → ((n : SdlcNode) → Has n rest → Has n cp.dag)
      → Good bound dag
      → Good bound (restore dag rest)
  unfolding restore restore_node
  restore-Good cp bound [] dag given within g = g
  restore-Good cp bound (prior ∷ rest) dag given within g =
      restore-Good cp bound rest (restore_node dag prior) given (λ n h. within n (inr h))
        (restore_into-Good cp bound dag prior _ _ given (within prior (inl refl)) refl refl g)

resume-Good :
    (world : World) (task : Text) (checkpoint : Option Checkpoint) (bound : ℕ) (dag : List SdlcNode)
    → Good world task checkpoint bound dag
    → Good world task checkpoint bound (resume world task checkpoint dag)
unfolding resume
resume-Good world task none bound dag g = g
resume-Good world task (some cp) bound dag g =
    if-both (Good world task (some cp) bound) _
      (λ _. restore-Good world task (some cp) cp bound cp.dag dag refl (λ n h. h) g) (λ _. g)

pending-Fine :
    (world : World) (R : SdlcNode → Type 0) (dag : List SdlcNode)
    → All IsPending dag
    → All (FineNode world R) dag
pending-Fine world R [] h = tt
pending-Fine world R (n ∷ rest) h = (inl h.0, pending-Fine world R rest h.1)

module _ (world : World) (opts : SdlcEngineOptions) (task : Text)
    (checkpoint : Option Checkpoint) where
  run_pipeline-Reports :
      (dag : List SdlcNode) (e : Engine)
      → Distinct dag
      → All IsPending dag
      → Reports world opts task checkpoint (run_pipeline world opts task checkpoint dag e)
  unfolding run_pipeline fresh
  run_pipeline-Reports dag e d p =
      let good : Good world task checkpoint (length dag) (resume world task checkpoint dag) =
        resume-Good world task checkpoint (length dag) dag
          (d, pending-Fine world (Restored checkpoint) dag p, pending-le-length dag) in
      end_run-Reports world opts task checkpoint _ _ (
        frontier_loop-Ended world opts task (Restored checkpoint) (suc (length dag)) _ (omega arith)
          (inr (
            subst
              (λ l.
                Distinct l
                × All (FineNode world (Restored checkpoint)) l
                × (pending_count l < suc (length dag)))
              (sym (dag-persist world opts task checkpoint CheckpointStatus.running _))
              (good.0, good.1, omega (arith, good.2)))))

  if_valid-Reports :
      (dag : List SdlcNode) (e : Engine) (v : Visit Marks)
      → IsDone v
      → Distinct dag
      → All IsPending dag
      → Reports world opts task checkpoint (if_valid world opts task checkpoint dag e v)
  unfolding if_valid
  if_valid-Reports dag e (done marks) ok d p = run_pipeline-Reports dag e d p
  if_valid-Reports dag e (thrown x) ok d p = absurd ok
  if_valid-Reports dag e no_fuel ok d p = absurd ok

  -- A task that is accepted always comes to one of three answers. Completed: the outcome says so,
  -- every stage of the pipeline is reported, and each was let through by the gate or was restored, as
  -- completed and with that result, from the checkpoint. Halted or cancelled: the outcome is partial
  -- completion, and a cancelled run leaves no stage in progress. It never crashes on its own DAG, and
  -- never runs out of the rounds that the model gives it.
  pub run-Reports :
      (start : Stage) (e : Engine)
      → non_empty (trim task) ≡ true
      → ltb max_task_chars (length task) ≡ false
      → Reports world opts task checkpoint (run world opts false task start checkpoint e)
  unfolding run run_internal
  run-Reports start e given short =
      if-both (Reports world opts task checkpoint) (non_empty (trim task))
        (λ _.
          if-both (Reports world opts task checkpoint) (ltb max_task_chars (length task))
            (λ long. cc)
            (λ _.
              if_valid-Reports (build_dag start opts) e _ (build_dag-IsDone start opts)
                (valid-Distinct _ (build_dag start opts) (build_dag-IsDone start opts))
                (build_dag-IsPending start opts)))
        (λ blank. cc)
