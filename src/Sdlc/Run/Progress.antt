-- ===== src/Sdlc/Run/Progress.antt =====
-- The frontier loop of src/core/engine/SdlcEngine.ts: it comes to an end, and what it leaves.
use native.Mathlib.Nat.{le_trans}
use xcoder.Prelude.{
  ℕ, zero, suc, ◌+◌, ◌≤◌, ◌<◌, ◌≡◌, refl, sym, ◌∙◌, ap, subst, ◌⊎◌, inl, inr, true, false, Option,
  some, none, List, [], ◌∷◌, arith, if-both, All,
}
use xcoder.Prelude.Text.{Text}
use xcoder.Sdlc.Stage.{AcceptanceCriteria, Status, SdlcNode, SdlcEngineOptions}
use xcoder.Sdlc.World.{World}
use xcoder.Sdlc.Healing.{Work, StageEnd, max_healing}
use xcoder.Sdlc.Healing.Bounded.{
  Accepted, StageEnds, completes, stops, exhausts, overspends, escapes, run_node-StageEnds,
}
use xcoder.Sdlc.Run.{
  Phase, Engine, CheckpointStatus, Loop, continue, halted, stopped, is_status, put_node,
  persist_state, cancel, runnable, frontier, absorb, isolate, end_stage, run_stage, next_stage,
  run_frontier, next_round, round, frontier_loop, completed_ids,
}
use xcoder.Sdlc.Run.Put.{
  pending_count, Has, Distinct, put-put, put-All, pending-put-le, pending-put, Distinct-put,
  Has-keep,
}

-- A text of the sub-agent that the gate let through is the node's result.
pub record Won (world : World) (n : SdlcNode) : Type 0 where
  pub place : ℕ
  pub out : Text
  pub accepted : Accepted world n.acceptance place out
  pub kept : n.result ≡ some out

-- `R` is what is known of a node restored from a checkpoint. Between two rounds a node is pending, or
-- completed with a reason.
abbrev pub FineNode : World → (SdlcNode → Type 0) → SdlcNode → Type 0
FineNode world R n =
    (n.status ≡ Status.pending) ⊎ ((n.status ≡ Status.completed) × (R n ⊎ Won world n))

module _ (world : World) (opts : SdlcEngineOptions) (task : Text) (R : SdlcNode → Type 0) where
  abbrev Fine : SdlcNode → Type 0
  Fine = FineNode world R

  abbrev LoopFacts : ℕ → Loop → Type 0
  LoopFacts bound (continue e') = Distinct e'.dag × All Fine e'.dag × (pending_count e'.dag ≤ bound)
  LoopFacts bound (stopped e') = e'.cancelled ≡ true
  LoopFacts bound (halted n e') = n.status ≡ Status.escalated

  dag-end_stage :
      (e : Engine) (s : CheckpointStatus) (w : Work)
      → (persist_state world opts task s (absorb e w)).dag ≡ put_node w.node e.dag
  unfolding persist_state absorb cancel
  dag-end_stage e s w = ground arith

  cancelled-end_stage :
      (e : Engine) (s : CheckpointStatus) (w : Work)
      → e.phase ≡ Phase.running
      → w.cancelled ≡ true
      → (persist_state world opts task s (absorb e w)).cancelled ≡ true
  unfolding persist_state absorb cancel
  cancelled-end_stage e s w p c = ground arith

  -- one stage, from the engine `e` in which its node was pending
  module _ (n : SdlcNode) (e : Engine) (bound : ℕ) (distinct : Distinct e.dag)
      (fine : All Fine e.dag)
      (below : (m : SdlcNode)
        → m.id ≡ n.id
        → is_status Status.pending m ≡ false
        → pending_count (put_node m e.dag) ≤ bound) where
    continue-Facts :
        (begun e' : Engine) (m : SdlcNode)
        → begun.dag ≡ put_node (record n { status = Status.in_progress }) e.dag
        → e'.dag ≡ put_node m begun.dag
        → m.id ≡ n.id
        → m.status ≡ Status.completed
        → Won world m
        → LoopFacts bound (continue e')
    continue-Facts begun e' m b d same s won =
        let written : e'.dag ≡ put_node m e.dag =
          d
          ∙ ap (put_node m) b
          ∙ put-put (record n { status = Status.in_progress }) m e.dag (sym same) in
        (
          subst Distinct (sym written) (Distinct-put m e.dag distinct),
          subst (All Fine) (sym written) (put-All Fine m e.dag (inr (s, inr won)) fine),
          subst (λ l. pending_count l ≤ bound) (sym written) (below m same (rw s refl)),
        )

    end_stage-Facts :
        (begun : Engine) (c : AcceptanceCriteria) (w : Work) (end : StageEnd)
        → begun.dag ≡ put_node (record n { status = Status.in_progress }) e.dag
        → begun.phase ≡ Phase.running
        → w.node.id ≡ n.id
        → w.node.acceptance ≡ c
        → StageEnds world opts c (max_healing opts) 0 w end
        → LoopFacts bound (end_stage world opts task begun end)
    unfolding end_stage
    end_stage-Facts begun c w end b p same k (completes {w' = w'} {out} i le fs acc r a) =
        continue-Facts begun
          (persist_state world opts task CheckpointStatus.running (absorb begun w')) w'.node b
          (dag-end_stage begun _ w') (sym a.same.id ∙ same) a.status
          (record {
            place = w.next + i;
            out = out;
            accepted =
                subst (λ d. Accepted world d (w.next + i) out) (sym k ∙ a.same.acceptance) acc;
            kept = r;
          })
    end_stage-Facts begun c w end b p same k (stops {w' = w'} i le fs stop a) =
        cancelled-end_stage begun _ w' p stop
    end_stage-Facts begun c w end b p same k (exhausts i le fs a) = a.status
    end_stage-Facts begun c w end b p same k (overspends i le fs o a) = a.status
    end_stage-Facts begun c w end b p same k (escapes i le fs x a) = unfold isolate in refl

    run_stage-Facts : LoopFacts bound (run_stage world opts task n e)
    unfolding run_stage
    run_stage-Facts =
        end_stage-Facts _ n.acceptance _ _ refl refl refl refl (run_node-StageEnds world opts _)

  -- What a round goes on with, and the rest of the round from there.
  next_stage-Facts :
      (bound : ℕ) (l : Loop) (again : Engine → Loop)
      → LoopFacts bound l
      → ((e : Engine)
          → Distinct e.dag
          → All Fine e.dag
          → pending_count e.dag ≤ bound
          → LoopFacts bound (again e))
      → LoopFacts bound (next_stage l again)
  unfolding next_stage
  next_stage-Facts bound (continue e) again h rest = rest e h.0 h.1 h.2
  next_stage-Facts bound (halted n e) again h rest = h
  next_stage-Facts bound (stopped e) again h rest = h

  run_frontier-Facts :
      (ns : List SdlcNode) (e : Engine) (bound : ℕ)
      → Distinct e.dag
      → All Fine e.dag
      → pending_count e.dag ≤ bound
      → LoopFacts bound (run_frontier world opts task ns e)
  unfolding run_frontier
  run_frontier-Facts [] e bound d f le = (d, f, le)
  run_frontier-Facts (n ∷ rest) e bound d f le =
      if-both (LoopFacts bound) e.cancelled (λ _. (d, f, le))
        (λ _.
          next_stage-Facts bound (run_stage world opts task n e) (run_frontier world opts task rest)
            (run_stage-Facts n e bound d f
              (λ m _ ready. le_trans (pending-put-le m e.dag ready) le))
            (λ e'. run_frontier-Facts rest e' bound))

  -- A round with a runnable node leaves fewer nodes pending.
  round_of-Facts :
      (n : SdlcNode) (rest : List SdlcNode) (e : Engine) (bound : ℕ)
      → Distinct e.dag
      → All Fine e.dag
      → e.cancelled ≡ false
      → Has n e.dag
      → is_status Status.pending n ≡ true
      → pending_count e.dag ≤ suc bound
      → LoopFacts bound (run_frontier world opts task (n ∷ rest) e)
  unfolding run_frontier
  round_of-Facts n rest e bound d f going has ready count =
      if-both (LoopFacts bound) e.cancelled (λ stop. cc)
        (λ _.
          next_stage-Facts bound (run_stage world opts task n e) (run_frontier world opts task rest)
            (run_stage-Facts n e bound d f
              (λ m same idle. omega (arith, pending-put n m e.dag d has ready same idle)))
            (λ e'. run_frontier-Facts rest e' bound))

  -- How the outer loop ends: cancelled, with no runnable node left, or with the stage that escalated.
  abbrev pub LoopEnd : Loop → Type 0
  LoopEnd (continue e) = ⊥
  LoopEnd (stopped e) =
      (e.cancelled ≡ true) ⊎ (Distinct e.dag × All Fine e.dag × (frontier e.dag ≡ []))
  LoopEnd (halted n e) = n.status ≡ Status.escalated

  abbrev pub Ended : Option Loop → Type 0
  Ended none = ⊥
  Ended (some l) = LoopEnd l

  next_round-Ended :
      (bound : ℕ) (l : Loop) (again : Engine → Option Loop)
      → LoopFacts bound l
      → ((e : Engine)
          → (e.cancelled ≡ true) ⊎ (Distinct e.dag × All Fine e.dag × (pending_count e.dag ≤ bound))
          → Ended (again e))
      → Ended (next_round l again)
  unfolding next_round
  next_round-Ended bound (continue e) again h rest = rest e (inr h)
  next_round-Ended bound (halted n e) again h rest = h
  next_round-Ended bound (stopped e) again h rest = rest e (inl h)

  frontier-ready :
      (n : SdlcNode) (ns dag : List SdlcNode)
      → frontier dag ≡ n ∷ ns
      → Has n dag × (is_status Status.pending n ≡ true)
  unfolding frontier runnable
  frontier-ready n ns dag e =
      let (has, ready) =
        Has-keep (runnable (completed_ids dag)) n dag (subst (Has n) (sym e) (inl refl)) in
      (has, ground arith)

  -- `again` is the loop with less fuel than nodes were pending.
  round-Ended :
      (ns : List SdlcNode) (again : Engine → Option Loop) (e : Engine) (fuel : ℕ)
      → frontier e.dag ≡ ns
      → e.cancelled ≡ false
      → Distinct e.dag
      → All Fine e.dag
      → pending_count e.dag ≤ fuel
      → ((e : Engine)
          → 0 < fuel
          → (e.cancelled ≡ true) ⊎ (Distinct e.dag × All Fine e.dag × (pending_count e.dag < fuel))
          → Ended (again e))
      → Ended (round world opts task ns again e)
  unfolding round
  round-Ended [] again e fuel none_left going d f le rest = inr (d, f, none_left)
  round-Ended (n ∷ ns) again e zero found going d f le rest =
      let (has, ready) = frontier-ready n ns e.dag found in
      absurd (
        omega (
          arith,
          pending-put n (record n { status = Status.completed }) e.dag d has ready refl refl,
        ))
  round-Ended (n ∷ ns) again e (suc fuel) found going d f le rest =
      let (has, ready) = frontier-ready n ns e.dag found in
      next_round-Ended fuel _ again (round_of-Facts n ns e fuel d f going has ready le) (λ e' h.
        rest e' (omega arith)
          (elim h [ inl c ↦ inl c | inr g ↦ inr (g.0, g.1, omega (arith, g.2)) ]))

  -- One unit of fuel for each pending node, and one more, is enough.
  pub frontier_loop-Ended :
      (fuel : ℕ) (e : Engine)
      → 0 < fuel
      → (e.cancelled ≡ true) ⊎ (Distinct e.dag × All Fine e.dag × (pending_count e.dag < fuel))
      → Ended (frontier_loop world opts task fuel e)
  unfolding frontier_loop
  frontier_loop-Ended zero e some_fuel h = absurd (omega arith)
  frontier_loop-Ended (suc fuel) e some_fuel h =
      if-both Ended e.cancelled (λ c. inl c)
        (λ going. elim h [
          | inl c ↦ cc
          | inr g ↦
              round-Ended (frontier e.dag) (frontier_loop world opts task fuel) e fuel refl going
                g.0 g.1 (omega (arith, g.2)) (frontier_loop-Ended fuel)
        ])
