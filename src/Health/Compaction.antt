-- ===== src/Health/Compaction.antt =====
-- Stale snapshots of files (`compactStaleFileReads` of src/core/contextCompaction.ts). `JSON.parse` of a
-- call's arguments and `JSON.stringify` of texts are parameters. Observations and arguments are changed in
-- different messages, so a call's arguments are compacted after its observation.
pub mod Linked
pub mod Kept
use xcoder.Prelude.{
  ℕ, Bool, true, false, not, ◌&&◌, ◌||◌, Option, none, some, List, [], ◌∷◌, ◌++◌, map, keep,
  if◌then◌else◌,
}
use xcoder.Prelude.Text.{Text, codes, same_text, starts_with, one_of}
use xcoder.Health.Messages.{ToolCall, LlmMessage}

pub record CallArgs : Type 0 where
  pub file_path : Option Text
  pub mode : Option Text

pub record JsonTexts : Type 0 where
  -- none if it throws, is null or is no object
  pub parse : Text → Option CallArgs
  -- an object of texts, where absent ones are left out
  pub stringify : List (Text × Option Text) → Text

-- `s.includes(part)`
unfoldable pub includes : Text → Text → Bool
unfolding starts_with
includes part [] = starts_with part []
includes part (c ∷ s) =
    let rest = includes part s in if starts_with part (c ∷ s) then true else rest

-- The markers end with a note; 8212 is the dash.
abbrev pub stale_read_marker : Text
stale_read_marker = codes "[stale file snapshot omitted " ++ 8212 ∷ codes " lean token mode]"

abbrev pub stale_write_args_marker : Text
stale_write_args_marker = codes "[stale write payload omitted " ++ 8212 ∷ codes " lean token mode]"

abbrev pub same_path : Text → Option Text → Bool
same_path path none = false
same_path path (some p) = same_text p path

abbrev pub stale_args : Text → Option CallArgs → Option CallArgs
stale_args path none = none
stale_args path (some a) = if same_path path a.file_path then some a else none

module _ (json : JsonTexts) (path current : Text) where
  -- The arguments of a call that reads or writes the file and is not the current one.
  unfoldable pub stale : ToolCall → Option CallArgs
  stale c =
      if not (one_of (codes "read_tool" ∷ codes "write_edit_tool" ∷ []) c.name)
      then none
      else if same_text c.id current
      then none
      else stale_args path (json.parse c.arguments)

  unfoldable pub omitted_content : Text
  omitted_content = json.stringify (
      (
        codes "content",
        some (
            (stale_read_marker ++ codes ": \"")
            ++ path
            ++ (codes "\" was read or modified again after this point "
                ++ 8212
                  ∷ codes " see the latest Observation of this file for its current contents.")),
      )
      ∷ [])

  unfoldable pub omitted_args : CallArgs → Text
  omitted_args a = json.stringify (
      (codes "filePath", some path)
      ∷ (codes "mode", a.mode)
      ∷ (
        codes "_omitted",
        some (
            (stale_write_args_marker ++ codes ": original content/newStr payload dropped ")
            ++ (8212 ∷ codes " \"")
            ++ path
            ++ codes "\" was written again after this point."),
      )
      ∷ [])

  abbrev pub answers : Text → LlmMessage → Bool
  answers id msg = same_text msg.role (codes "tool") && same_path id msg.tool_call_id

  unfoldable pub compact_content : Text → Text
  unfolding includes omitted_content
  compact_content content = if includes stale_read_marker content then content else omitted_content

  -- The first tool message that answers the call.
  unfoldable pub compact_observation : Text → List LlmMessage → List LlmMessage
  unfolding compact_content
  compact_observation id [] = []
  compact_observation id (msg ∷ msgs) =
      let rest = compact_observation id msgs in
      if answers id msg
      then record msg { content = compact_content msg.content } ∷ msgs
      else msg ∷ rest

  abbrev pub compact_call_args : ToolCall → Option CallArgs → ToolCall
  compact_call_args c none = c
  compact_call_args c (some a) =
      if same_text c.name (codes "write_edit_tool")
        && not (includes stale_write_args_marker c.arguments)
      then record c { arguments = omitted_args a }
      else c

  unfoldable pub compact_args : ToolCall → ToolCall
  unfolding stale omitted_args includes
  compact_args c = compact_call_args c (stale c)

  abbrev pub stale_id : ToolCall → Option CallArgs → List Text → List Text
  stale_id c none ids = ids
  stale_id c (some a) ids = c.id ∷ ids

  unfoldable pub stale_calls : List ToolCall → List Text
  unfolding stale
  stale_calls [] = []
  stale_calls (c ∷ cs) = stale_id c (stale c) (stale_calls cs)

  abbrev pub is_assistant : LlmMessage → Bool
  is_assistant msg = same_text msg.role (codes "assistant")

  unfoldable pub stale_ids : List LlmMessage → List Text
  unfolding stale_calls
  stale_ids [] = []
  stale_ids (msg ∷ msgs) =
      let rest = stale_ids msgs in
      if is_assistant msg then stale_calls msg.tool_calls ++ rest else rest

  unfoldable pub compact_observations : List Text → List LlmMessage → List LlmMessage
  unfolding compact_observation
  compact_observations [] msgs = msgs
  compact_observations (id ∷ ids) msgs = compact_observations ids (compact_observation id msgs)

  unfoldable pub compact_calls : LlmMessage → LlmMessage
  unfolding compact_args
  compact_calls msg =
      if is_assistant msg then record msg { tool_calls = map compact_args msg.tool_calls } else msg

  unfoldable pub compact_stale_file_reads : List LlmMessage → List LlmMessage
  unfolding stale_ids compact_observations compact_calls
  compact_stale_file_reads msgs = map compact_calls (compact_observations (stale_ids msgs) msgs)
