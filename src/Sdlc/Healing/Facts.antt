-- ===== src/Sdlc/Healing/Facts.antt =====
-- What one attempt at a stage leaves behind, as a relation that does not follow the code's branches
-- (`runNodeWithHealing` of src/core/engine/SdlcEngine.ts).
use xcoder.Prelude.{
  ℕ, ◌+◌, ◌≤◌, ◌<◌, ◌≡◌, refl, sym, subst, true, Option, none, some, List, [], ◌∷◌, ◌++◌, leb,
  arith, Bool-cases, inl, inr, if◌then◌else◌, if-both, ◌==◌,
}
use xcoder.Prelude.Text.{Text, codes}
use xcoder.Sdlc.Stage.{
  AcceptanceCriteria, Status, AttemptOutcome, budget_exceeded, SdlcNode, SdlcEngineOptions,
}
use xcoder.Sdlc.World.{AgentRun, answered, aborted, Attempt, World, Usage, add_usage}
use xcoder.Sdlc.Gate.{Verdict, validate_node}
use xcoder.Sdlc.Gate.Exact.{Supported, validate_node-exact}
use xcoder.Sdlc.Healing.{
  Work, StageOutcome, Step, finish, retry, throw, budget_reason, escalate, record_attempt,
  give_up_or_retry, after_failure, after_verdict, after_agent, within_budget, run_attempt,
}

-- The parts of a node that no stage changes.
pub record SameNode (a b : SdlcNode) : Type 0 where
  pub id : a.id ≡ b.id
  pub stage : a.stage ≡ b.stage
  pub role : a.role ≡ b.role
  pub dependencies : a.dependencies ≡ b.dependencies
  pub acceptance : a.acceptance ≡ b.acceptance

-- `w` became `w'` in one attempt, which left this status and these scores.
pub record After (attempt : ℕ) (w w' : Work) (s : Status) (scores : List ℕ) (next : ℕ)
    : Type 0 where
  pub same : SameNode w.node w'.node
  pub attempts : w'.node.attempts ≡ attempt + 1
  pub status : w'.node.status ≡ s
  pub scored : w'.node_scores ≡ scores
  pub taken : w'.next ≡ next

-- Why an attempt does not complete its stage.
pub data Fails (c : AcceptanceCriteria) (a : Attempt) : AgentRun → Type 0 where
  crashed : {m : Text} → Fails c a (AgentRun.crashed m)
  timed_out : {m : Text} → Fails c a (AgentRun.timed_out m)
  unsupported :
      {out : Text} {turns : ℕ} {spent : Usage}
      → ¬ (Supported c.kind c.command a)
      → Fails c a (answered out turns spent)

pub data Ends (c : AcceptanceCriteria) (a : Attempt) (max attempt : ℕ) (w : Work)
    : AgentRun → Step → Type 0 where
  passed_gate :
      {out : Text} {turns : ℕ} {spent : Usage} {w' : Work}
      → Supported c.kind c.command a
      → w'.node.result ≡ some out
      → After attempt w w' Status.completed
          (w.node_scores ++ (if attempt == 0 then 100 else 65) ∷ [])
          (w.next + 1)
      → Ends c a max attempt w (answered out turns spent) (finish StageOutcome.completed w')
  interrupted :
      {r : AgentRun} {w' : Work}
      → w'.cancelled ≡ true
      → After attempt w w' Status.pending w.node_scores (w.next + 1)
      → Ends c a max attempt w r (finish StageOutcome.cancelled w')
  gave_up :
      {r : AgentRun} {w' : Work}
      → max ≤ attempt
      → Fails c a r
      → After attempt w w' Status.escalated (w.node_scores ++ 0 ∷ []) (w.next + 1)
      → Ends c a max attempt w r (finish StageOutcome.escalated w')
  tries_again :
      {r : AgentRun} {w' : Work}
      → attempt < max
      → Fails c a r
      → After attempt w w' w.node.status w.node_scores (w.next + 1)
      → Ends c a max attempt w r (retry w')
  escaped :
      {m : Text} {w' : Work}
      → After attempt w w' w.node.status w.node_scores (w.next + 1)
      → Ends c a max attempt w (aborted m) (throw m w')

module _ (c : AcceptanceCriteria) (a : Attempt) (max attempt : ℕ) (w : Work) where
  give_up-Ends :
      (r : AgentRun) (w' : Work)
      → Fails c a r
      → After attempt w w' w.node.status w.node_scores (w.next + 1)
      → Ends c a max attempt w r (give_up_or_retry max attempt w')
  unfolding give_up_or_retry
  give_up-Ends r w' f h = elim (Bool-cases (leb max attempt)) [
    | inl last ↦
        rw last (gave_up {w' = escalate w'} (ground arith) f (unfold escalate in ground arith))
    | inr more ↦ rw more (tries_again (ground arith) f h)
  ]

  module _ (redact : Text → Text) (v : Work)
      (h : After attempt w v w.node.status w.node_scores (w.next + 1)) where
    after_failure-Ends :
        (r : AgentRun) (o : AttemptOutcome) (m : Text)
        → Fails c a r
        → Ends c a max attempt w r (after_failure redact max attempt o m v)
    unfolding after_failure record_attempt
    after_failure-Ends r o m f = give_up-Ends r _ f (ground arith)

    after_verdict-Ends :
        (out : Text) (turns : ℕ) (spent : Usage) (d : Verdict)
        → (d.pass ≡ true → Supported c.kind c.command a)
        → (Supported c.kind c.command a → d.pass ≡ true)
        → Ends c a max attempt w
            (answered out turns spent)
            (after_verdict redact max attempt out d v)
    unfolding after_verdict record_attempt
    after_verdict-Ends out turns spent d yes_if no_if = elim (Bool-cases d.pass) [
      | inl passes ↦ rw passes (passed_gate (yes_if passes) refl (ground arith))
      | inr fails ↦ rw fails (
          give_up-Ends (answered out turns spent) _ (unsupported (λ s. cc (no_if s)))
            (ground arith))
    ]

module _ (c : AcceptanceCriteria) (a : Attempt) (max attempt : ℕ) (redact : Text → Text)
    (w v : Work) where
  -- the sub-agent has settled, and the gate has a verdict on an answer
  settled-Ends :
      After attempt w v w.node.status w.node_scores (w.next + 1)
      → v.node.acceptance ≡ c
      → (r : AgentRun) → Ends c a max attempt w r (after_agent redact max attempt a r v)
  unfolding after_agent
  settled-Ends h e (aborted m) = escaped h
  settled-Ends h e (answered out turns spent) =
      if-both (Ends c a max attempt w (answered out turns spent)) v.cancelled
        (λ stop. interrupted stop (ground arith))
        (λ go.
          after_verdict-Ends c a max attempt w redact _ (ground arith) out turns spent
            (validate_node redact v.node.acceptance a (add_usage v.usage (some spent))).0
            (λ p.
              subst (λ d. Supported d.kind d.command a) e
                ((validate_node-exact redact v.node.acceptance a (add_usage v.usage (some spent))).0
                  p))
            (λ s.
              (validate_node-exact redact v.node.acceptance a (add_usage v.usage (some spent))).1
                (subst (λ d. Supported d.kind d.command a) (sym e) s)))
  settled-Ends h e (AgentRun.crashed m) =
      if-both (Ends c a max attempt w (AgentRun.crashed m)) v.cancelled
        (λ stop. interrupted stop (ground arith))
        (λ go.
          after_failure-Ends c a max attempt w redact v h (AgentRun.crashed m)
            AttemptOutcome.crashed (redact m) crashed)
  settled-Ends h e (AgentRun.timed_out m) =
      if-both (Ends c a max attempt w (AgentRun.timed_out m)) v.cancelled
        (λ stop. interrupted stop (ground arith))
        (λ go.
          after_failure-Ends c a max attempt w redact v h (AgentRun.timed_out m)
            AttemptOutcome.timed_out (redact m) timed_out)

-- One turn of the loop: it meets the budget, or makes the next attempt of the tape.
pub data Turn (world : World) (opts : SdlcEngineOptions) (c : AcceptanceCriteria) (max attempt : ℕ)
    (w : Work) : Step → Type 0 where
  over_budget :
      {reason : Text} {w' : Work}
      → budget_reason opts w'.usage.total_tokens (world.tape w.next).elapsed_ms ≡ some reason
      → After attempt w w' Status.escalated (w.node_scores ++ 0 ∷ []) w.next
      → Turn world opts c max attempt w (finish StageOutcome.escalated w')
  tried :
      {s : Step} {r : AgentRun}
      → budget_reason opts w.usage.total_tokens (world.tape w.next).elapsed_ms ≡ none
      → (world.tape w.next).agent ≡ r
      → Ends c (world.tape w.next) max attempt w r s
      → Turn world opts c max attempt w s

over_budget-After :
    (world : World) (attempt : ℕ) (w : Work) (reason : Text)
    → After attempt w
        (escalate (record w {
          node = record_attempt world.redact budget_exceeded reason (record w.node {
            attempts = attempt + 1;
            error = some (codes "Budget exceeded: " ++ reason);
          });
        }))
        Status.escalated
        (w.node_scores ++ 0 ∷ [])
        w.next
unfolding escalate record_attempt
over_budget-After world attempt w reason = ground arith

within_budget-Turn :
    (world : World) (opts : SdlcEngineOptions) (max attempt : ℕ) (w : Work) (c : AcceptanceCriteria)
    (b : Option Text)
    → w.node.acceptance ≡ c
    → budget_reason opts w.usage.total_tokens (world.tape w.next).elapsed_ms ≡ b
    → Turn world opts c max attempt w (within_budget world max attempt w b)
unfolding within_budget escalate record_attempt
within_budget-Turn world opts max attempt w c none k e = tried e refl (
    settled-Ends c (world.tape w.next) max attempt world.redact w _ (ground arith) k
      (world.tape w.next).agent)
within_budget-Turn world opts max attempt w c (some reason) k e =
    over_budget e (over_budget-After world attempt w reason)

pub run_attempt-Turn :
    (world : World) (opts : SdlcEngineOptions) (max attempt : ℕ) (w : Work) (c : AcceptanceCriteria)
    → w.node.acceptance ≡ c
    → Turn world opts c max attempt w (run_attempt world opts max attempt w)
unfolding run_attempt
run_attempt-Turn world opts max attempt w c k =
    within_budget-Turn world opts max attempt w c _ k refl
