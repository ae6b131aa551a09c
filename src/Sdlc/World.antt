-- ===== src/Sdlc/World.antt =====
-- What a run of the engine meets and does not implement: the sub-agents, the shell, the judge, the
-- clock and the caller's cancellations. They enter as one tape of attempts.
-- The usage counters are those of src/core/engine/SdlcEngine.ts and src/core/types.ts.
use xcoder.Prelude.{ℕ, ◌+◌, Bool, Option, none, some}
use xcoder.Prelude.Text.{Text}

-- `LlmUsage`; an optional counter that is left out counts as 0
pub record Usage : Type 0 where
  pub prompt_tokens : ℕ
  pub completion_tokens : ℕ
  pub total_tokens : ℕ
  pub reasoning_tokens : ℕ
  pub cached_tokens : ℕ

abbrev pub no_usage : Usage
no_usage = record {
  prompt_tokens = 0;
  completion_tokens = 0;
  total_tokens = 0;
  reasoning_tokens = 0;
  cached_tokens = 0;
}

-- `addUsage`
unfoldable pub add_usage : Usage → Option Usage → Usage
add_usage u none = u
add_usage u (some d) = record {
  prompt_tokens = u.prompt_tokens + d.prompt_tokens;
  completion_tokens = u.completion_tokens + d.completion_tokens;
  total_tokens = u.total_tokens + d.total_tokens;
  reasoning_tokens = u.reasoning_tokens + d.reasoning_tokens;
  cached_tokens = u.cached_tokens + d.cached_tokens;
}

-- How the race between a stage's sub-agent and its timeout ends. `aborted` is an error before the
-- race is set up, which no handler of the stage catches.
pub data AgentRun : Type 0 where
  answered : Text → ℕ → Usage → AgentRun
  crashed : Text → AgentRun
  timed_out : Text → AgentRun
  aborted : Text → AgentRun

-- `runCommand`: an exit code with the trimmed tail of the output, or an exception
pub data CommandRun : Type 0 where
  exited : ℕ → Text → CommandRun
  command_error : Text → CommandRun

-- What the judge's model answers. `parsed` holds `Boolean(parsed.valid)` and the reason of an answer
-- that is JSON; any other content is `unparsed`.
pub data Reply : Type 0 where
  parsed : Bool → Text → Option Usage → Reply
  unparsed : Text → Option Usage → Reply
  call_failed : Text → Reply

-- One attempt at a stage, as far as the world decides it.
pub record Attempt : Type 0 where
  pub elapsed_ms : ℕ
  pub agent : AgentRun
  -- the caller cancelled before the sub-agent settled
  pub cancelled_in_agent : Bool
  pub command_run : CommandRun
  pub first_reply : Reply
  pub second_reply : Reply
  -- the caller cancelled while the gate was at work
  pub cancelled_in_gate : Bool

pub record World : Type 0 where
  -- the attempts in the order in which the engine makes them
  pub tape : ℕ → Attempt
  -- `redactSecrets`
  pub redact : Text → Text
