-- ===== src/Lean/Tests.antt =====
-- Runs of the lean engine (src/core/engine/LeanEngine.ts).
use xcoder.Prelude.{
  ℕ, zero, suc, ◌≡◌, refl, true, false, Bool, Option, none, some, List, [], ◌∷◌, ◌++◌, ◌==◌,
  if◌then◌else◌,
}
use xcoder.Prelude.Text.{Text, codes}
use xcoder.Health.Json.{text, object, field, no_fields}
use xcoder.Health.Steps.{create_health_state}
use xcoder.Sdlc.World.{no_usage, Reply, parsed}
use xcoder.Lean.Engine.{
  World, Engine, LeanEngineOptions, LlmResponse, Completion, responded, idle, completed,
  outcome_completed,
}
use xcoder.Lean.Run.{Final, answered, Ran, returned, threw, unfinished, run}
use xcoder.Lean.Run.Ends.{Ends, run-Ends}
use xcoder.Lean.Run.Linked.{RunAnswered, run-Answered}
use xcoder.Lean.Run.Accepted.{Claimed, run-Claimed}

abbrev fresh : Engine
fresh = record {
  state = idle;
  seen = [];
  is_cancelled = false;
  usage = no_usage;
  llm_call_count = 0;
  iteration_count = 0;
  last_outcome = outcome_completed;
  last_messages = [];
  health = create_health_state;
  last_nudge = none;
  partial = none;
  awaited = 0;
}

abbrev three_turns : LeanEngineOptions
three_turns = record {
  max_iterations = some 3;
  validate_goal = none;
  max_validator_retries = none;
  self_healing = none;
  full_context_token = none;
}

abbrev says : Text → LlmResponse
says content = record {
  content = content;
  tool_calls = [];
  reasoning_content = none;
  usage = none;
  is_length = false;
}

abbrev reads : LlmResponse
reads = record {
  content = [];
  tool_calls = record { id = codes "c1"; name = codes "read_tool"; arguments = codes "f" } ∷ [];
  reasoning_content = none;
  usage = none;
  is_length = false;
}

-- A call of a tool, a claim that the judge refuses, the same claim again, which it approves.
abbrev script : ℕ → Completion
script zero = responded reads
script (suc n) = responded (says (codes "done"))

abbrev verdicts : ℕ → Reply
verdicts n = parsed (n == 5) (codes "why") none

abbrev plain : (ℕ → List (Option Text)) → World
plain cancels = record {
  complete = λ n messages. script n;
  judge = λ n messages claim. verdicts n;
  dispatch = λ n c. record {
    tool_call_id = c.id;
    tool_name = c.name;
    observation = text (codes "content");
    is_error = false;
  };
  summarize = λ n messages. responded (says (codes "summary"));
  cancels = cancels;
  system_prompt = [];
  parse = λ s. some (object (field (codes "filePath") (text s) no_fields));
  quote = λ s. s;
  lower = λ s. s;
}

abbrev calm : World
calm = plain (λ n. [])

abbrev final_of : Ran → Option Final
final_of (returned f e) = some f
final_of (threw e) = none
final_of unfinished = none

abbrev engine_of : Ran → Engine
engine_of (returned f e) = e
engine_of (threw e) = e
engine_of unfinished = fresh

run-calm : final_of (run three_turns calm (codes "task") fresh) ≡ some (answered (codes "done"))
unfolding run xcoder.Health.Actions.find_duplicate_actions xcoder.Health.Actions.add_call
    xcoder.Prelude.Keys.insert xcoder.Prelude.Keys.lookup
run-calm = refl

run-Ends_example : Ends 3 (run three_turns calm (codes "task") fresh)
run-Ends_example = run-Ends three_turns calm (codes "task") fresh

run-Answered_example : RunAnswered (run three_turns calm (codes "task") fresh)
run-Answered_example = run-Answered three_turns calm (λ n c. refl) (codes "task") fresh

run-Claimed_example : Claimed three_turns calm (codes "done")
unfolding run xcoder.Health.Actions.find_duplicate_actions xcoder.Health.Actions.add_call
    xcoder.Prelude.Keys.insert xcoder.Prelude.Keys.lookup
run-Claimed_example =
    run-Claimed three_turns calm (codes "task") (codes "done") fresh
      (engine_of (run three_turns calm (codes "task") fresh)) refl

-- Cancelled while the model was asked for the claim that the judge then approves: the run ends as completed.
abbrev hasty : World
hasty = plain (λ n. if n == 4 then none ∷ [] else [])

cancel_lost :
    (engine_of (run three_turns hasty (codes "task") fresh)).state
    ≡ completed (codes "task") outcome_completed
unfolding run xcoder.Health.Actions.find_duplicate_actions xcoder.Health.Actions.add_call
    xcoder.Prelude.Keys.insert xcoder.Prelude.Keys.lookup
cancel_lost = refl
