-- ===== src/Health/Tests.antt =====
-- Repeated reasons and actions, scores and cut-off calls (src/core).
use xcoder.Prelude.{
  some, Option, map, ◌≡◌, refl, true, false, none, ◌++◌, List, [], ◌∷◌, ◌==◌, if◌then◌else◌,
}
use xcoder.Prelude.Text.{Text, codes}
use xcoder.Health.Reasons.{default_options, check_duplicate_reason, max_duplicate_penalty}
use xcoder.Health.Reasons.Severest.{first_penalty, check-severest}
use xcoder.Prelude.Keys.{text_keys, lookup, insert}
use xcoder.Health.Json.{Json, atom, text, object, field, no_fields, brackets, sort_keys}
use xcoder.Health.Actions.{ToolCallRecord, action_key, add_call, find_duplicate_actions}
use xcoder.Health.Actions.Reported.{reported}
use xcoder.Health.Messages.{ToolCall, LlmMessage}
use xcoder.Health.Steps.{
  Step, HealthState, create_health_state, is_duplicate, check_for_truncated_tool_calls, score_step,
}
use xcoder.Health.Compaction.{JsonTexts, compact_stale_file_reads, omitted_content}
use xcoder.Health.Compaction.Linked.{link}
use xcoder.Health.Compaction.Kept.{args_of, contents_of, compact-keeps}
use xcoder.Health.Totals.{ParsedTokenCounts, usage_to_parsed_counts}

-- Lower case of M alone.
abbrev lower_m : Text → Text
lower_m [] = []
lower_m (c ∷ s) = (if c == 77 then 109 else c) ∷ lower_m s

-- Three earlier reasons of which two match, the weaker match first.
abbrev earlier : List Text
earlier = codes "read the file Main" ∷ codes "other" ∷ codes "read the file main" ∷ []

check-severest_example :
    max_duplicate_penalty
      (check_duplicate_reason lower_m default_options earlier (codes "read the file main"))
    ≡ first_penalty
        (check_duplicate_reason lower_m default_options earlier (codes "read the file main"))
check-severest_example = check-severest lower_m default_options earlier (codes "read the file main")

-- Quotes around a text, with nothing to escape.
abbrev quoted : Text → Text
quoted s = 34 ∷ s ++ 34 ∷ []

abbrev two_keys : Json
two_keys =
    object (field (codes "a") (atom (codes "1")) (field (codes "b") (atom (codes "2")) no_fields))

abbrev two_keys_swapped : Json
two_keys_swapped =
    object (field (codes "b") (atom (codes "2")) (field (codes "a") (atom (codes "1")) no_fields))

abbrev read_step : Json → Step
read_step args = record {
  tool = codes "read_tool";
  args = args;
  observation = text (codes "same");
  is_error = false;
  thought = none;
}

abbrev call_of : Json → ToolCallRecord
call_of args = record { tool = codes "read_tool"; args = args; observation = text (codes "same") }

abbrev two_calls : List ToolCallRecord
two_calls = call_of two_keys ∷ call_of two_keys_swapped ∷ []

two_calls-reported :
    reported quoted
      (action_key quoted (codes "read_tool") two_keys_swapped)
      (find_duplicate_actions quoted two_calls)
    ≡ true
unfolding action_key find_duplicate_actions add_call insert brackets sort_keys lookup
two_calls-reported = refl

-- The second call repeats the first with its keys in another order: reported, and yet not counted against
-- the step.
repeat_not_counted :
    is_duplicate quoted
      (λ t. t)
      (read_step two_keys_swapped)
      (find_duplicate_actions quoted two_calls)
    ≡ false
unfolding is_duplicate find_duplicate_actions add_call insert action_key brackets sort_keys lookup
repeat_not_counted = refl

abbrev scored : HealthState → Json → HealthState
scored st args = (score_step quoted (λ t. t) st (read_step args)).1

scores-run :
    (scored (scored (scored create_health_state two_keys) two_keys) two_keys_swapped).scores
    ≡ 80 ∷ 45 ∷ 80 ∷ []
unfolding score_step create_health_state find_duplicate_actions add_call insert lookup action_key
    brackets sort_keys
scores-run = refl

abbrev cut_off : List ToolCall
cut_off =
    record { id = codes "1"; name = codes "read_tool"; arguments = [] }
    ∷ record { id = codes "2"; name = codes "write_edit_tool"; arguments = [] }
    ∷ []

cut_off-split : check_for_truncated_tool_calls true cut_off ≡ record {
  safe_calls = record { id = codes "1"; name = codes "read_tool"; arguments = [] } ∷ [];
  blocked_calls = record { id = codes "2"; name = codes "write_edit_tool"; arguments = [] } ∷ [];
}
unfolding check_for_truncated_tool_calls
cut_off-split = refl

abbrev counts : ParsedTokenCounts
counts =
    usage_to_parsed_counts (record {
      prompt_tokens = 3;
      completion_tokens = 2;
      total_tokens = 5;
      cached_tokens = some 1;
    })

counts-discrepancy : counts.discrepancy ≡ true
unfolding usage_to_parsed_counts
counts-discrepancy = refl

abbrev reports : List (Text × ParsedTokenCounts)
reports = (codes "search", counts) ∷ (codes "action", counts) ∷ []

abbrev first_text : List (Text × Option Text) → Text
first_text ((key, some t) ∷ fields) = t
first_text _ = []

-- Arguments are the path alone, and an object prints as its first text.
abbrev plain_json : JsonTexts
plain_json = record {
  parse = λ s. some (record { file_path = some s; mode = none });
  stringify = λ fields. first_text fields;
}

abbrev asks : Text → LlmMessage
asks id = record {
  role = codes "assistant";
  content = [];
  tool_call_id = none;
  name = none;
  reasoning_content = none;
  tool_calls = record { id = id; name = codes "read_tool"; arguments = codes "f" } ∷ [];
}

abbrev answers_with : Text → Text → LlmMessage
answers_with id content = record {
  role = codes "tool";
  content = content;
  tool_call_id = some id;
  name = some (codes "read_tool");
  reasoning_content = none;
  tool_calls = [];
}

abbrev talk : List LlmMessage
talk =
    asks (codes "1")
    ∷ answers_with (codes "1") (codes "old")
    ∷ asks (codes "2")
    ∷ answers_with (codes "2") (codes "new")
    ∷ []

compact-keeps_example :
    (map link (compact_stale_file_reads plain_json (codes "f") (codes "2") talk) ≡ map link talk)
    × (args_of (codes "2") (compact_stale_file_reads plain_json (codes "f") (codes "2") talk)
        ≡ args_of (codes "2") talk)
    × (contents_of (codes "2") (compact_stale_file_reads plain_json (codes "f") (codes "2") talk)
        ≡ contents_of (codes "2") talk)
compact-keeps_example = compact-keeps plain_json (codes "f") (codes "2") talk

-- The old snapshot goes.
talk-compacted :
    map (λ m. m.content) (compact_stale_file_reads plain_json (codes "f") (codes "2") talk)
    ≡ [] ∷ omitted_content plain_json (codes "f") (codes "2") ∷ [] ∷ codes "new" ∷ []
unfolding compact_stale_file_reads
talk-compacted = refl
