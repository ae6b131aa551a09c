-- ===== src/Lean/Report.antt =====
-- What is kept of a run that hits its limit (`extractPartialSuccessContext` of
-- src/core/engine/LeanEngine.ts).
use xcoder.Prelude.{
  ℕ, leb, ◌&&◌, Option, none, some, List, [], ◌∷◌, ◌++◌, length, take, find, if◌then◌else◌,
}
use mathlib.Core.List.{reverse}
use xcoder.Prelude.Text.{Text, codes, same_text, one_of}
use xcoder.Health.Messages.{ToolCall, LlmMessage}
use xcoder.Health.Compaction.{same_path}
use xcoder.Lean.Engine.{World, CallSummary, PartialSuccessContext, text_field, truthy}

pub record Extract : Type 0 where
  pub calls : List CallSummary
  pub modified : List Text
  pub read : List Text
  pub commands : List Text
  pub thought : Text

abbrev pub max_tool_calls : ℕ
max_tool_calls = 10

abbrev pub add_text : Option Text → List Text → List Text
add_text none ts = ts
add_text (some t) ts = ts ++ t ∷ []

-- The text of a field of the arguments, for the calls of one tool.
unfoldable pub parsed_field : World → Text → Text → ToolCall → Option Text
unfolding text_field
parsed_field w tool key c =
    if same_text c.name (tool)
    then elim (w.parse c.arguments) [ none ↦ none | some j ↦ truthy (text_field key j) ]
    else none

abbrev pub answer_to : Text → List LlmMessage → Text
answer_to id later =
    elim (find (λ m. same_text m.role (codes "tool") && same_path id m.tool_call_id) later) [
      | none ↦ []
      | some m ↦ take 200 m.content
    ]

abbrev pub shortened : Option Text → Option Text
shortened none = none
shortened (some s) = some (take 100 s)

unfoldable pub visit_call : World → List LlmMessage → ToolCall → Extract → Extract
unfolding parsed_field
visit_call w later c x = if leb max_tool_calls (length x.calls) then x else record {
  calls =
      x.calls
      ++ record { name = c.name; args = take 150 c.arguments; result = answer_to c.id later } ∷ [];
  modified = add_text (parsed_field w (codes "write_edit_tool") (codes "filePath") c) x.modified;
  read = add_text (parsed_field w (codes "read_tool") (codes "filePath") c) x.read;
  commands =
      add_text (shortened (parsed_field w (codes "run_command_tool") (codes "command") c))
        x.commands;
  thought = x.thought;
}

unfoldable pub visit_calls : World → List LlmMessage → List ToolCall → Extract → Extract
unfolding visit_call
visit_calls w later [] x = x
visit_calls w later (c ∷ cs) x = visit_calls w later cs (visit_call w later c x)

abbrev pub first_thought : Text → Text → Text
first_thought [] content = content
first_thought (c ∷ s) content = c ∷ s

unfoldable pub visit_message : World → List LlmMessage → LlmMessage → Extract → Extract
unfolding visit_calls
visit_message w later m x =
    if same_text m.role (codes "assistant")
    then visit_calls w later m.tool_calls (record x { thought = first_thought x.thought m.content })
    else x

-- From the last message back, until there are ten calls.
unfoldable pub visit_back : World → List LlmMessage → Extract
unfolding visit_message
visit_back w [] = record { calls = []; modified = []; read = []; commands = []; thought = [] }
visit_back w (m ∷ later) =
    let x = visit_back w later in
    if leb max_tool_calls (length x.calls) then x else visit_message w later m x

-- `[...new Set(texts)]`, behind the texts that are already there
unfoldable pub distinct_after : List Text → List Text → List Text
distinct_after known [] = []
distinct_after known (t ∷ ts) =
    let rest = distinct_after known ts in
    let more = distinct_after (t ∷ known) ts in if one_of known t then rest else t ∷ more

abbrev pub distinct : List Text → List Text
distinct ts = distinct_after [] ts

unfoldable pub extract_partial_success_context :
    World → List LlmMessage → ℕ → ℕ → PartialSuccessContext
unfolding visit_back distinct_after
extract_partial_success_context w messages iterations restarts =
    let x = visit_back w messages in
    record {
      tool_calls = reverse x.calls;
      files_modified = distinct x.modified;
      files_read = distinct x.read;
      commands_run = distinct x.commands;
      last_thought = x.thought;
      iteration_count = iterations;
      restart_count = restarts;
    }
