-- ===== src/Health/Messages.antt =====
-- The messages of a conversation with a model (src/core/types.ts).
use xcoder.Prelude.{Option, List}
use xcoder.Prelude.Text.{Text}

-- `function.name` and `function.arguments`
pub record ToolCall : Type 0 where
  pub id : Text
  pub name : Text
  pub arguments : Text

-- A message without tool calls has none in its list.
pub record LlmMessage : Type 0 where
  pub role : Text
  pub content : Text
  pub tool_calls : List ToolCall
  pub tool_call_id : Option Text
  pub name : Option Text
  pub reasoning_content : Option Text
