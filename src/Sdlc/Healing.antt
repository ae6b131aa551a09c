-- ===== src/Sdlc/Healing.antt =====
-- One stage with bounded healing: `budgetExceeded`, `recordAttempt` and `runNodeWithHealing` of
-- src/core/engine/SdlcEngine.ts. The prompt built from the healing context goes to the sub-agent
-- only, and console output, spans and metrics decide nothing: they are left out.
pub mod Facts
pub mod Bounded
use xcoder.Prelude.{
  ℕ, zero, suc, ◌+◌, ◌/◌, Bool, ◌&&◌, ◌||◌, Option, none, some, List, [], ◌∷◌, ◌++◌, ltb, leb, ◌==◌,
  if◌then◌else◌, or_default,
}
use xcoder.Prelude.Text.{Text, codes, show, truncate}
use xcoder.Sdlc.Stage.{
  Status, AttemptOutcome, passed, timed_out, budget_exceeded, SdlcNode, SdlcEngineOptions,
  default_max_healing_attempts, default_max_total_tokens, default_max_wall_clock_ms,
}
use xcoder.Sdlc.World.{Usage, add_usage, AgentRun, answered, aborted, Attempt, World}
use xcoder.Sdlc.Gate.{Verdict, validate_node}

-- `none` is a run within its budget.
unfoldable pub budget_reason : SdlcEngineOptions → ℕ → ℕ → Option Text
budget_reason opts total elapsed =
    let max_tokens = or_default opts.max_total_tokens default_max_total_tokens in
    let max_ms = or_default opts.max_wall_clock_ms default_max_wall_clock_ms in
    if ltb 0 max_tokens && leb max_tokens total
    then some (
        codes "token budget exhausted (" ++ show total ++ codes "/" ++ show max_tokens ++ codes ")")
    else if ltb 0 max_ms && leb max_ms elapsed
    then some (
        codes "wall-clock budget exhausted ("
        ++ show ((elapsed + 500) / 1000)
        ++ codes "s/"
        ++ show ((max_ms + 500) / 1000)
        ++ codes "s)")
    else none

-- What a stage works on: its node, and the fields of the engine that it writes. `next` is the place
-- on the tape of the next attempt.
pub record Work : Type 0 where
  pub node : SdlcNode
  pub node_scores : List ℕ
  pub usage : Usage
  pub cancelled : Bool
  pub next : ℕ

-- `recordAttempt`
unfoldable pub record_attempt : (Text → Text) → AttemptOutcome → Text → SdlcNode → SdlcNode
record_attempt redact outcome detail node = record node {
  history =
      node.history
      ++ record {
        attempt = node.attempts;
        outcome = outcome;
        detail = truncate 400 (redact detail);
      }
        ∷ [];
}

pub data StageOutcome : Type 0 where
  completed escalated cancelled : StageOutcome

-- How an attempt ends: the stage is over, the loop goes on, or an error leaves the function.
pub data Step : Type 0 where
  finish : StageOutcome → Work → Step
  retry : Work → Step
  throw : Text → Work → Step

-- `node.status = "escalated"; this.nodeScores.push(0)`
unfoldable pub escalate : Work → Work
escalate w = record w {
  node = record w.node { status = Status.escalated };
  node_scores = w.node_scores ++ 0 ∷ [];
}

-- the end of a failed attempt: `attempt >= maxAttempts` escalates
unfoldable pub give_up_or_retry : ℕ → ℕ → Work → Step
give_up_or_retry max_attempts attempt w =
    if leb max_attempts attempt then finish StageOutcome.escalated (escalate w) else retry w

unfoldable pub after_failure : (Text → Text) → ℕ → ℕ → AttemptOutcome → Text → Work → Step
after_failure redact max_attempts attempt outcome message w =
    give_up_or_retry max_attempts attempt (record w {
      node = record_attempt redact outcome message (record w.node { error = some message });
    })

unfoldable pub after_verdict : (Text → Text) → ℕ → ℕ → Text → Verdict → Work → Step
after_verdict redact max_attempts attempt out v w =
    if v.pass
    then finish StageOutcome.completed (record w {
      node =
          record_attempt redact passed v.detail
            (record w.node { status = Status.completed; result = some out; error = none });
      node_scores = w.node_scores ++ (if attempt == 0 then 100 else 65) ∷ [];
    })
    else give_up_or_retry max_attempts attempt (record w {
      node =
          record_attempt redact AttemptOutcome.failed v.detail
            (record w.node { error = some (redact v.detail) });
    })

-- the sub-agent has settled
unfoldable pub after_agent : (Text → Text) → ℕ → ℕ → Attempt → AgentRun → Work → Step
after_agent redact max_attempts attempt a (aborted message) w = throw message w
after_agent redact max_attempts attempt a agent w =
    if w.cancelled
    then finish StageOutcome.cancelled
        (record w { node = record w.node { status = Status.pending } })
    else elim agent [
      | answered out iterations spent ↦
          let (verdict, usage) =
            validate_node redact w.node.acceptance a (add_usage w.usage (some spent)) in
          after_verdict redact max_attempts attempt out verdict (record w {
            node = record w.node { iteration_count = some iterations };
            usage = usage;
            cancelled = w.cancelled || a.cancelled_in_gate;
          })
      | AgentRun.crashed message ↦
          after_failure redact max_attempts attempt AttemptOutcome.crashed (redact message) w
      | AgentRun.timed_out message ↦
          after_failure redact max_attempts attempt timed_out (redact message) w
      | aborted message ↦ throw message w
    ]

-- one turn of the loop, after the budget gate
unfoldable pub within_budget : World → ℕ → ℕ → Work → Option Text → Step
within_budget world max_attempts attempt w (some reason) = finish StageOutcome.escalated (
    escalate (record w {
      node = record_attempt world.redact budget_exceeded reason (record w.node {
        attempts = attempt + 1;
        error = some (codes "Budget exceeded: " ++ reason);
      });
    }))
within_budget world max_attempts attempt w none =
    let a = world.tape w.next in
    after_agent world.redact max_attempts attempt a a.agent (record w {
      node = record w.node { attempts = attempt + 1 };
      cancelled = w.cancelled || a.cancelled_in_agent;
      next = w.next + 1;
    })

unfoldable pub run_attempt : World → SdlcEngineOptions → ℕ → ℕ → Work → Step
run_attempt world opts max_attempts attempt w =
    within_budget world max_attempts attempt w
      (budget_reason opts w.usage.total_tokens (world.tape w.next).elapsed_ms)

pub data StageEnd : Type 0 where
  returned : StageOutcome → Work → StageEnd
  raised : Text → Work → StageEnd

unfoldable pub next_turn : Step → (Work → StageEnd) → StageEnd
next_turn (finish outcome w) again = returned outcome w
next_turn (throw message w) again = raised message w
next_turn (retry w) again = again w

-- The turns that are left, `maxAttempts + 1 - attempt`. The first clause is the end of the loop by
-- its bound, which leaves the node escalated with no score.
unfoldable pub attempts_from : World → SdlcEngineOptions → ℕ → ℕ → ℕ → Work → StageEnd
attempts_from world opts max_attempts zero attempt w =
    returned StageOutcome.escalated
      (record w { node = record w.node { status = Status.escalated } })
attempts_from world opts max_attempts (suc turns) attempt w =
    next_turn (run_attempt world opts max_attempts attempt w)
      (attempts_from world opts max_attempts turns (attempt + 1))

abbrev pub max_healing : SdlcEngineOptions → ℕ
max_healing opts = or_default opts.max_healing_attempts default_max_healing_attempts

unfoldable pub run_node_with_healing : World → SdlcEngineOptions → Work → StageEnd
run_node_with_healing world opts w =
    attempts_from world opts (max_healing opts) (suc (max_healing opts)) 0 w
