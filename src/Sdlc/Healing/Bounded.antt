-- ===== src/Sdlc/Healing/Bounded.antt =====
-- A whole stage: how many attempts it makes, and why it ends as it does (`runNodeWithHealing` of
-- src/core/engine/SdlcEngine.ts).
use native.Mathlib.Nat.{add-zero}
use xcoder.Prelude.{
  ℕ, zero, suc, ◌+◌, ◌≤◌, ◌<◌, ◌≡◌, refl, sym, ◌∙◌, subst, true, some, List, [], ◌∷◌, ◌++◌, arith,
  if◌then◌else◌, ◌==◌,
}
use xcoder.Prelude.Text.{Text}
use xcoder.Sdlc.Stage.{AcceptanceCriteria, Status, SdlcEngineOptions}
use xcoder.Sdlc.World.{AgentRun, answered, aborted, World, Usage}
use xcoder.Sdlc.Gate.Exact.{Supported}
use xcoder.Sdlc.Healing.{
  Work, StageOutcome, Step, StageEnd, returned, raised, budget_reason, next_turn, attempts_from,
  max_healing, run_node_with_healing,
}
use xcoder.Sdlc.Healing.Facts.{
  SameNode, After, Fails, Ends, passed_gate, interrupted, gave_up, tries_again, escaped, Turn,
  over_budget, tried, run_attempt-Turn,
}

-- The attempts `start`, `start + 1`, … of the tape, `k` of them, all failed.
pub record AllFailed (world : World) (c : AcceptanceCriteria) (start k : ℕ) : Type 0 where
  pub at : (i : ℕ) → i < k → Fails c (world.tape (start + i)) (world.tape (start + i)).agent

-- The sub-agent answered with this text in attempt `i` of the tape, and the gate let it through.
pub record Accepted (world : World) (c : AcceptanceCriteria) (i : ℕ) (out : Text) : Type 0 where
  pub turns : ℕ
  pub spent : Usage
  pub answer : (world.tape i).agent ≡ answered out turns spent
  pub supported : Supported c.kind c.command (world.tape i)

-- `attempt` is the number of the first attempt; `k` attempts failed before the last one.
pub data StageEnds (world : World) (opts : SdlcEngineOptions) (c : AcceptanceCriteria)
    (max attempt : ℕ) (w : Work) : StageEnd → Type 0 where
  completes :
      {w' : Work} {out : Text} (k : ℕ)
      → attempt + k ≤ max
      → AllFailed world c w.next k
      → Accepted world c (w.next + k) out
      → w'.node.result ≡ some out
      → After
          (attempt + k)
          w
          w'
          Status.completed
          (w.node_scores ++ (if attempt + k == 0 then 100 else 65) ∷ [])
          (w.next + k + 1)
      → StageEnds world opts c max attempt w (returned StageOutcome.completed w')
  stops :
      {w' : Work} (k : ℕ)
      → attempt + k ≤ max
      → AllFailed world c w.next k
      → w'.cancelled ≡ true
      → After (attempt + k) w w' Status.pending w.node_scores (w.next + k + 1)
      → StageEnds world opts c max attempt w (returned StageOutcome.cancelled w')
  exhausts :
      {w' : Work} (k : ℕ)
      → attempt + k ≡ max
      → AllFailed world c w.next (k + 1)
      → After (attempt + k) w w' Status.escalated (w.node_scores ++ 0 ∷ []) (w.next + k + 1)
      → StageEnds world opts c max attempt w (returned StageOutcome.escalated w')
  overspends :
      {w' : Work} {reason : Text} (k : ℕ)
      → attempt + k ≤ max
      → AllFailed world c w.next k
      → budget_reason opts w'.usage.total_tokens (world.tape (w.next + k)).elapsed_ms ≡ some reason
      → After (attempt + k) w w' Status.escalated (w.node_scores ++ 0 ∷ []) (w.next + k)
      → StageEnds world opts c max attempt w (returned StageOutcome.escalated w')
  escapes :
      {w' : Work} {m : Text} (k : ℕ)
      → attempt + k ≤ max
      → AllFailed world c w.next k
      → (world.tape (w.next + k)).agent ≡ aborted m
      → After (attempt + k) w w' w.node.status w.node_scores (w.next + k + 1)
      → StageEnds world opts c max attempt w (raised m w')

none_failed : (world : World) (c : AcceptanceCriteria) (start : ℕ) → AllFailed world c start 0
none_failed world c start = record { at = λ i h. absurd (omega arith) }

one_more :
    (world : World) (c : AcceptanceCriteria) (start k : ℕ)
    → Fails c (world.tape start) (world.tape start).agent
    → AllFailed world c (start + 1) k
    → AllFailed world c start (k + 1)
one_more world c start k f rest = record { at = λ i h. failed i h }
  where
    failed : (i : ℕ) → i < k + 1 → Fails c (world.tape (start + i)) (world.tape (start + i)).agent
    failed zero h = subst (λ j. Fails c (world.tape j) (world.tape j).agent) (omega arith) f
    failed (suc i) h =
        subst (λ j. Fails c (world.tape j) (world.tape j).agent) (omega arith)
          (rest.at i (omega arith))

-- From the second attempt on, seen from the first one, which failed.
module _ (world : World) (opts : SdlcEngineOptions) (c : AcceptanceCriteria) (max attempt : ℕ)
    (w v : Work) (first : After attempt w v w.node.status w.node_scores (w.next + 1)) where
  place : (k : ℕ) → v.next + k ≡ w.next + (k + 1)
  place k = omega (arith, first.taken)

  since :
      (k : ℕ)
      → Fails c (world.tape w.next) (world.tape w.next).agent
      → AllFailed world c v.next k
      → AllFailed world c w.next (k + 1)
  since k f fs = one_more world c w.next k f (subst (λ n. AllFailed world c n k) first.taken fs)

  later-After :
      (k n m : ℕ) (w' : Work) (s : Status) (scores scores' : List ℕ)
      → After (attempt + 1 + k) v w' s (v.node_scores ++ scores) n
      → n ≡ m
      → scores ≡ scores'
      → After (attempt + (k + 1)) w w' s (w.node_scores ++ scores') m
  later-After k n m w' s scores scores' h e f = ground arith

  later-StageEnds :
      {end : StageEnd}
      → Fails c (world.tape w.next) (world.tape w.next).agent
      → StageEnds world opts c max (attempt + 1) v end
      → StageEnds world opts c max attempt w end
  later-StageEnds f (completes {w' = w'} {out = out} k b fs acc r a) =
      completes (k + 1) (omega arith) (since k f fs)
        (subst (λ n. Accepted world c n out) (place k) acc) r
        (later-After k _ _ w' Status.completed _ _ a (omega (arith, place k)) (ground arith))
  later-StageEnds f (stops k b fs e a) = stops (k + 1) (omega arith) (since k f fs) e (ground arith)
  later-StageEnds f (exhausts {w' = w'} k b fs a) =
      exhausts (k + 1) (omega arith) (since (k + 1) f fs)
        (later-After k _ _ w' Status.escalated _ _ a (omega (arith, place k)) refl)
  later-StageEnds f (overspends {w' = w'} {reason = reason} k b fs e a) =
      overspends (k + 1) (omega arith) (since k f fs)
        (subst
          (λ n. budget_reason opts w'.usage.total_tokens (world.tape n).elapsed_ms ≡ some reason)
          (place k) e)
        (later-After k _ _ w' Status.escalated _ _ a (place k) refl)
  later-StageEnds f (escapes {m = m} k b fs e a) =
      escapes (k + 1) (omega arith) (since k f fs)
        (subst (λ n. (world.tape n).agent ≡ aborted m) (place k) e) (ground arith)

module _ (world : World) (opts : SdlcEngineOptions) (c : AcceptanceCriteria) (max : ℕ) where
  -- the attempt that ends the stage is the first one
  tried-StageEnds :
      (attempt : ℕ) (w : Work) {s : Step} {r : AgentRun} (again : Work → StageEnd)
      → attempt ≤ max
      → (world.tape w.next).agent ≡ r
      → Ends c (world.tape w.next) max attempt w r s
      → ((v : Work)
          → attempt < max
          → SameNode w.node v.node
          → StageEnds world opts c max (attempt + 1) v (again v))
      → StageEnds world opts c max attempt w (next_turn s again)
  unfolding next_turn
  tried-StageEnds attempt w again le e (passed_gate {out} {turns} {spent} sup res a) ih =
      completes 0 (omega arith) (none_failed world c w.next)
        (record {
          turns = turns;
          spent = spent;
          answer = rw add-zero e;
          supported = rw add-zero sup;
        })
        res (ground arith)
  tried-StageEnds attempt w again le e (interrupted x a) ih =
      stops 0 (omega arith) (none_failed world c w.next) x (ground arith)
  tried-StageEnds attempt w again le e (gave_up last f a) ih =
      exhausts 0 (omega arith)
        (one_more world c w.next 0 (subst (λ r. Fails c (world.tape w.next) r) (sym e) f)
          (none_failed world c _))
        (ground arith)
  tried-StageEnds attempt w again le e (tries_again {w' = v} more f a) ih =
      later-StageEnds world opts c max attempt w v a
        (subst (λ r. Fails c (world.tape w.next) r) (sym e) f) (ih v more a.same)
  tried-StageEnds attempt w again le e (escaped a) ih =
      escapes 0 (omega arith) (none_failed world c w.next) (rw add-zero e) (ground arith)

  next_turn-StageEnds :
      (attempt : ℕ) (w : Work) {s : Step} (again : Work → StageEnd)
      → attempt ≤ max
      → Turn world opts c max attempt w s
      → ((v : Work)
          → attempt < max
          → SameNode w.node v.node
          → StageEnds world opts c max (attempt + 1) v (again v))
      → StageEnds world opts c max attempt w (next_turn s again)
  unfolding next_turn
  next_turn-StageEnds attempt w again le (over_budget {reason} e a) ih =
      overspends {reason = reason} 0 (omega arith) (none_failed world c w.next) (rw add-zero e)
        (ground arith)
  next_turn-StageEnds attempt w again le (tried b e t) ih =
      tried-StageEnds attempt w again le e t ih

  attempts_from-StageEnds :
      (turns attempt : ℕ) (w : Work)
      → turns + attempt ≡ suc max
      → attempt ≤ max
      → w.node.acceptance ≡ c
      → StageEnds world opts c max attempt w (attempts_from world opts max turns attempt w)
  unfolding attempts_from
  attempts_from-StageEnds zero attempt w e le k = absurd (omega arith)
  attempts_from-StageEnds (suc turns) attempt w e le k =
      next_turn-StageEnds attempt w (attempts_from world opts max turns (attempt + 1)) le
        (run_attempt-Turn world opts max attempt w c k)
        (λ v more same.
          attempts_from-StageEnds turns (attempt + 1) v (omega arith) (omega arith)
            (sym same.acceptance ∙ k))

-- A stage makes at most `maxHealingAttempts + 1` attempts, one after the other. It completes only by
-- an answer that the gate supports, after attempts that all failed; it escalates only when every one
-- of them failed or the budget is spent; it stops only when the caller cancelled; and an error
-- leaves it only from outside the race. Its score, status and attempt count are those of that end.
pub run_node-StageEnds :
    (world : World) (opts : SdlcEngineOptions) (w : Work)
    → StageEnds world opts w.node.acceptance
        (max_healing opts)
        0
        w
        (run_node_with_healing world opts w)
unfolding run_node_with_healing
run_node-StageEnds world opts w =
    attempts_from-StageEnds world opts w.node.acceptance (max_healing opts) (suc (max_healing opts))
      0 w (omega arith) (omega arith) refl
