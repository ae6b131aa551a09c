-- ===== src/Sdlc/Entry/Reported.antt =====
-- What a run reports (`run` of src/core/engine/SdlcEngine.ts).
use xcoder.Prelude.{
  String, ◌≡◌, refl, sym, ◌∙◌, ap, subst, ◌⊎◌, inl, inr, false, Option, some, none, List, [], ◌∷◌,
  map, arith, if-both, All, keep,
}
use xcoder.Prelude.Text.{Text}
use xcoder.Sdlc.Stage.{Status, SdlcNode, SdlcEngineOptions}
use xcoder.Sdlc.World.{World}
use xcoder.Sdlc.Run.{
  Engine, Checkpoint, CheckpointStatus, RunOutcome, Loop, continue, halted, stopped, is_status,
  persist_state,
}
use xcoder.Sdlc.Run.Put.{Has}
use xcoder.Sdlc.Run.Progress.{Won, FineNode, Ended}
use xcoder.Sdlc.Entry.{
  stuck_node, set_pending, Answer, halted_at, was_cancelled, finished, end_halted, end_cancelled,
  end_completed, end_stopped, end_run,
}

-- A node of the checkpoint that was completed, with its result.
pub record Restored (checkpoint : Option Checkpoint) (n : SdlcNode) : Type 0 where
  pub source : Checkpoint
  pub given : checkpoint ≡ some source
  pub prior : SdlcNode
  pub listed : Has prior source.dag
  pub was_completed : prior.status ≡ Status.completed
  pub same_id : prior.id ≡ n.id
  pub same_result : prior.result ≡ n.result

module _ (world : World) (opts : SdlcEngineOptions) (task : Text)
    (checkpoint : Option Checkpoint) where
  -- Completed, by the gate or by the checkpoint.
  abbrev pub Done : SdlcNode → Type 0
  Done n = (n.status ≡ Status.completed) × (Restored checkpoint n ⊎ Won world n)

  -- What each answer means for the engine that it comes with.
  pub data Reports : Engine × Answer → Type 0 where
    reports_completed :
        {e : Engine} {ns : List SdlcNode}
        → e.last_outcome ≡ RunOutcome.completed
        → All Done e.dag
        → ns ≡ e.dag
        → Reports (e, finished ns)
    reports_halted :
        {e : Engine} {id : String} {ns : List SdlcNode}
        → e.last_outcome ≡ RunOutcome.partial_completion
        → Reports (e, halted_at id ns)
    reports_cancelled :
        {e : Engine}
        → e.last_outcome ≡ RunOutcome.partial_completion
        → All (λ n. is_status Status.in_progress n ≡ false) e.dag
        → Reports (e, was_cancelled)

  stuck-pending :
      (n : SdlcNode) (rest : List SdlcNode)
      → n.status ≡ Status.pending
      → stuck_node (n ∷ rest) ≡ some n
  unfolding stuck_node
  stuck-pending n rest p = ground arith

  stuck-later :
      (n : SdlcNode) (rest : List SdlcNode)
      → n.status ≡ Status.completed
      → stuck_node rest ≡ stuck_node (n ∷ rest)
  unfolding stuck_node
  stuck-later n rest c = ground arith

  keep-completed :
      (n : SdlcNode) (rest : List SdlcNode)
      → n.status ≡ Status.completed
      → keep (is_status Status.completed) rest ≡ rest
      → keep (is_status Status.completed) (n ∷ rest) ≡ n ∷ rest
  keep-completed n rest c same = ground arith

  stuck-none :
      (dag : List SdlcNode)
      → All (FineNode world (Restored checkpoint)) dag
      → stuck_node dag ≡ none
      → All Done dag × (keep (is_status Status.completed) dag ≡ dag)
  unfolding stuck_node
  stuck-none [] f e = (tt, refl)
  stuck-none (n ∷ rest) f e = elim f.0 [
    | inl p ↦ cc (stuck-pending n rest p, e)
    | inr c ↦
        let (all_done, same) = stuck-none rest f.1 (stuck-later n rest c.0 ∙ e) in
        ((c, all_done), keep-completed n rest c.0 same)
  ]

  set_pending-All :
      (dag : List SdlcNode)
      → All (λ n. is_status Status.in_progress n ≡ false) (map set_pending dag)
  unfolding set_pending
  set_pending-All [] = tt
  set_pending-All (n ∷ rest) = (ground arith, set_pending-All rest)

  last-persist :
      (c : CheckpointStatus) (e : Engine)
      → (persist_state world opts task c e).last_outcome ≡ e.last_outcome
  unfolding persist_state
  last-persist c e = ground arith

  pub dag-persist :
      (c : CheckpointStatus) (e : Engine) → (persist_state world opts task c e).dag ≡ e.dag
  unfolding persist_state
  dag-persist c e = ground arith

  end_halted-Reports : (n : SdlcNode) (e : Engine) → Reports (end_halted world opts task n e)
  unfolding end_halted
  end_halted-Reports n e = reports_halted (last-persist CheckpointStatus.halted _)

  end_cancelled-Reports : (e : Engine) → Reports (end_cancelled world opts task e)
  unfolding end_cancelled
  end_cancelled-Reports e = reports_cancelled (last-persist CheckpointStatus.cancelled _) (
      subst (All (λ n. is_status Status.in_progress n ≡ false))
        (sym (dag-persist CheckpointStatus.cancelled _)) (set_pending-All e.dag))

  end_completed-Reports :
      (e : Engine)
      → All Done e.dag
      → keep (is_status Status.completed) e.dag ≡ e.dag
      → Reports (end_completed world opts task e)
  unfolding end_completed
  end_completed-Reports e all_done same =
      let kept =
        dag-persist CheckpointStatus.completed (record e { last_outcome = RunOutcome.completed }) in
      reports_completed (last-persist CheckpointStatus.completed _)
        (subst (All Done) (sym kept) all_done)
        (ap (keep (is_status Status.completed)) kept ∙ same ∙ sym kept)

  end_stopped-Reports :
      (e : Engine) (found : Option SdlcNode)
      → stuck_node e.dag ≡ found
      → All (FineNode world (Restored checkpoint)) e.dag
      → Reports (end_stopped world opts task found e)
  unfolding end_stopped
  end_stopped-Reports e none none_stuck f =
      let (all_done, same) = stuck-none e.dag f none_stuck in end_completed-Reports e all_done same
  end_stopped-Reports e (some n) stuck f = end_halted-Reports _ _

  pub end_run-Reports :
      (l : Option Loop) (e : Engine)
      → Ended world opts task (Restored checkpoint) l
      → Reports (end_run world opts task l e)
  unfolding end_run
  end_run-Reports none e h = absurd h
  end_run-Reports (some (continue e')) e h = absurd h
  end_run-Reports (some (halted n e')) e h = end_halted-Reports n e'
  end_run-Reports (some (stopped e')) e h =
      if-both Reports e'.cancelled (λ _. end_cancelled-Reports e')
        (λ going. elim h [ inl c ↦ cc | inr g ↦ end_stopped-Reports e' _ refl g.1 ])
