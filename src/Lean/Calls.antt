-- ===== src/Lean/Calls.antt =====
-- The tool calls of one response (`run` of src/core/engine/LeanEngine.ts).
pub mod Counters
pub mod Answered
use xcoder.Prelude.{
  ℕ, ◌+◌, ◌-◌, ltb, leb, Bool, true, false, not, ◌&&◌, ◌||◌, Option, none, some, List, [], ◌∷◌,
  ◌++◌, length, map, or_default, if◌then◌else◌,
}
use xcoder.Prelude.Text.{Text, codes, same_text, show}
use xcoder.Health.Json.{Json, Fields, stringify, text, object, no_fields, field}
use xcoder.Health.Messages.{ToolCall, LlmMessage}
use xcoder.Health.Compaction.{CallArgs, JsonTexts, compact_args, compact_stale_file_reads}
use xcoder.Health.Steps.{
  TruncationCheckResult, score_step, rolling_health, check_for_truncated_tool_calls,
  truncation_warning_for,
}
use xcoder.Lean.Engine.{
  World, Engine, LeanEngineOptions, LlmResponse, DispatchResult, heals, full_context, awaiting,
  text_field, truthy, safe_parse,
}

abbrev pub message : Text → Text → LlmMessage
message role content = record {
  role = role;
  content = content;
  tool_calls = [];
  tool_call_id = none;
  name = none;
  reasoning_content = none;
}

abbrev pub assistant_message : LlmResponse → LlmMessage
assistant_message r = record {
  role = codes "assistant";
  content = r.content;
  tool_calls = r.tool_calls;
  tool_call_id = none;
  name = none;
  reasoning_content = r.reasoning_content;
}

abbrev pub tool_message : Text → Text → Text → LlmMessage
tool_message id name content = record {
  role = codes "tool";
  content = content;
  tool_calls = [];
  tool_call_id = some id;
  name = some name;
  reasoning_content = none;
}

abbrev call_args : Json → CallArgs
call_args j = record {
  file_path = text_field (codes "filePath") j;
  mode = text_field (codes "mode") j;
}

-- `JSON.stringify` of an object of texts
unfoldable pub text_fields : List (Text × Option Text) → Fields
text_fields [] = no_fields
text_fields ((key, none) ∷ fields) = text_fields fields
text_fields ((key, some t) ∷ fields) = field key (text t) (text_fields fields)

-- What the compaction uses of JSON, by the world's.
unfoldable pub json_texts : World → JsonTexts
unfolding text_field text_fields stringify
json_texts w = record {
  parse = λ s. elim (w.parse s) [ none ↦ none | some j ↦ some (call_args j) ];
  stringify = λ fields. stringify w.quote (object (text_fields fields));
}

-- The engine and the messages.
pub record Turned : Type 0 where
  pub engine : Engine
  pub messages : List LlmMessage

-- A file that was read or written makes its older snapshots stale.
abbrev pub compact_for : World → Option Text → Text → List LlmMessage → List LlmMessage
compact_for w none current messages = messages
compact_for w (some path) current messages =
    compact_stale_file_reads (json_texts w) path current messages

abbrev pub touches_files : Text → Bool
touches_files name = same_text name (codes "read_tool") || same_text name (codes "write_edit_tool")

unfoldable pub after_result :
    LeanEngineOptions → World → ToolCall → DispatchResult → Turned → Turned
unfolding safe_parse text_field score_step stringify
after_result o w c r t =
    let input = safe_parse w c.arguments in
    let messages =
      t.messages
      ++ tool_message r.tool_call_id r.tool_name (stringify w.quote r.observation) ∷ [] in
    record {
      engine =
          if heals o
          then record t.engine {
            health =
                (score_step w.quote w.lower t.engine.health (record {
                  tool = r.tool_name;
                  args = input;
                  observation = r.observation;
                  is_error = r.is_error;
                  thought = none;
                })).1;
          }
          else t.engine;
      messages =
          if not (full_context o) && touches_files r.tool_name
          then compact_for w (truthy (text_field (codes "filePath") input)) r.tool_call_id messages
          else messages;
    }

unfoldable pub run_call : LeanEngineOptions → World → ToolCall → Turned → Turned
unfolding after_result awaiting
run_call o w c t =
    after_result o w c (w.dispatch t.engine.awaited c) (record t { engine = awaiting w t.engine })

abbrev pub compact_shared : World → Option Text → Text → ToolCall → ToolCall
compact_shared w none current d = d
compact_shared w (some path) current d = compact_args (json_texts w) path current d

-- The calls of a response are objects that its message in `messages` shares, so a compaction after the call `c`
-- also changes the arguments of a call `d` that is still to be dispatched.
unfoldable pub later_call :
    LeanEngineOptions → World → ToolCall → DispatchResult → ToolCall → ToolCall
unfolding safe_parse text_field compact_args
later_call o w c r d =
    if not (full_context o) && touches_files r.tool_name
    then compact_shared w (truthy (text_field (codes "filePath") (safe_parse w c.arguments)))
        r.tool_call_id d
    else d

-- `now` is what the compactions so far have made of the calls.
unfoldable pub run_calls :
    LeanEngineOptions → World → (ToolCall → ToolCall) → List ToolCall → Turned → Turned
unfolding run_call later_call
run_calls o w now [] t = t
run_calls o w now (c ∷ cs) t =
    run_calls o w (λ d. later_call o w (now c) (w.dispatch t.engine.awaited (now c)) (now d)) cs
      (run_call o w (now c) t)

unfoldable pub withheld_messages : World → List ToolCall → List LlmMessage
unfolding truncation_warning_for
withheld_messages w [] = []
withheld_messages w (c ∷ cs) =
    tool_message c.id c.name (truncation_warning_for w.quote c) ∷ withheld_messages w cs

abbrev pub checked : LlmResponse → TruncationCheckResult
checked r = check_for_truncated_tool_calls r.is_length r.tool_calls

-- The messages with the response and the warnings for calls that were cut off.
abbrev pub received : World → LlmResponse → Turned → Turned
received w r t = record t {
  messages =
      (t.messages ++ assistant_message r ∷ []) ++ withheld_messages w (checked r).blocked_calls;
}

-- The results of the other calls follow.
unfoldable pub handle_calls : LeanEngineOptions → World → LlmResponse → Turned → Turned
unfolding run_calls withheld_messages check_for_truncated_tool_calls
handle_calls o w r t = run_calls o w (λ c. c) (checked r).safe_calls (received w r t)

-- At least three iterations after the last nudge.
abbrev pub cooldown_passed : ℕ → Option ℕ → Bool
cooldown_passed iteration none = true
cooldown_passed iteration (some last) = leb 3 (iteration - last)

unfoldable pub nudge_text : ℕ → Text
unfolding show
nudge_text average =
    (codes
        "[self-check] Your last several steps haven't been making much progress (rolling health score: "
      ++ show average)
    ++ (codes "/100 "
        ++ 8212
          ∷ codes
              " errors and/or repeated identical actions with no new information). Before continuing: re-read the current state of whatever you're working on rather than assuming, double-check your last assumption was actually correct, and consider a genuinely different approach instead of retrying something similar.")

abbrev pub needs_nudge : LeanEngineOptions → ℕ → Engine → Bool
needs_nudge o iteration e =
    heals o
    && ltb (rolling_health e.health 5) 40
    && cooldown_passed iteration e.last_nudge
    && leb 2 (length e.health.scores)

abbrev pub nudged : ℕ → Turned → Turned
nudged iteration t = record {
  engine = record t.engine { last_nudge = some iteration };
  messages =
      t.messages ++ message (codes "user") (nudge_text (rolling_health t.engine.health 5)) ∷ [];
}

-- The self-healing nudge at the end of an iteration.
unfoldable pub nudge : LeanEngineOptions → ℕ → Turned → Turned
unfolding rolling_health nudge_text
nudge o iteration t = if needs_nudge o iteration t.engine then nudged iteration t else t
