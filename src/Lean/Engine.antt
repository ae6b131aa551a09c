-- ===== src/Lean/Engine.antt =====
-- The state of the lean engine, its transitions and `cancel` (src/core/engine/LeanEngine.ts, with the types
-- of src/core/engine/IReactEngine.ts), and the world that it calls.
use xcoder.Prelude.{
  ℕ, ◌+◌, Bool, true, false, Option, none, some, List, [], ◌∷◌, ◌++◌, or_default, if◌then◌else◌,
}
use xcoder.Prelude.Text.{Text, codes, same_text}
use xcoder.Health.Json.{Json, Fields, text, object, no_fields, field}
use xcoder.Health.Messages.{ToolCall, LlmMessage}
use xcoder.Health.Steps.{HealthState}
use xcoder.Sdlc.World.{Usage, add_usage, Reply}

pub data RunOutcome : Type 0 where
  outcome_completed iteration_limit plan_rejected partial_success partial_completion : RunOutcome

-- Of the errors only those of the model arise here.
pub data EngineState : Type 0 where
  idle : EngineState
  planning : Text → EngineState
  running validating : Text → ℕ → ℕ → EngineState
  cancelled : Text → Text → EngineState
  completed : Text → RunOutcome → EngineState
  llm_error : Text → Text → EngineState

pub record CallSummary : Type 0 where
  pub name : Text
  pub args : Text
  pub result : Text

pub record PartialSuccessContext : Type 0 where
  pub tool_calls : List CallSummary
  pub files_modified : List Text
  pub files_read : List Text
  pub commands_run : List Text
  pub last_thought : Text
  pub iteration_count : ℕ
  pub restart_count : ℕ

-- `awaited` counts the calls that the engine has waited for, `seen` holds what an observer is told.
pub record Engine : Type 0 where
  pub state : EngineState
  pub seen : List EngineState
  pub is_cancelled : Bool
  pub usage : Usage
  pub llm_call_count : ℕ
  pub iteration_count : ℕ
  pub last_outcome : RunOutcome
  pub last_messages : List LlmMessage
  pub health : HealthState
  -- none before the first nudge
  pub last_nudge : Option ℕ
  pub partial : Option PartialSuccessContext
  pub awaited : ℕ

pub record LeanEngineOptions : Type 0 where
  pub max_iterations : Option ℕ
  pub validate_goal : Option Bool
  pub max_validator_retries : Option ℕ
  pub self_healing : Option Bool
  pub full_context_token : Option Bool

abbrev pub max_iterations_of : LeanEngineOptions → ℕ
max_iterations_of o = or_default o.max_iterations 20

abbrev pub max_retries_of : LeanEngineOptions → ℕ
max_retries_of o = or_default o.max_validator_retries 2

abbrev pub validates : LeanEngineOptions → Bool
validates o = or_default o.validate_goal true

abbrev pub heals : LeanEngineOptions → Bool
heals o = or_default o.self_healing true

abbrev pub full_context : LeanEngineOptions → Bool
full_context o = or_default o.full_context_token false

-- `is_length` is `finishReason === "length"`.
pub record LlmResponse : Type 0 where
  pub content : Text
  pub tool_calls : List ToolCall
  pub reasoning_content : Option Text
  pub usage : Option Usage
  pub is_length : Bool

pub data Completion : Type 0 where
  responded : LlmResponse → Completion
  call_failed : Text → Completion

pub record DispatchResult : Type 0 where
  pub tool_call_id : Text
  pub tool_name : Text
  pub observation : Json
  pub is_error : Bool

-- What the engine calls, by the number of the call: the model, the judge's model, the tools, the model
-- again for a summary. `cancels` are the caller's cancellations while the engine waits for that call.
pub record World : Type 0 where
  pub complete : ℕ → List LlmMessage → Completion
  pub judge : ℕ → List LlmMessage → Text → Reply
  pub dispatch : ℕ → ToolCall → DispatchResult
  pub summarize : ℕ → List LlmMessage → Completion
  pub cancels : ℕ → List (Option Text)
  pub system_prompt : Text
  -- `JSON.parse`, none if it throws; the quoting of a text; lower case
  pub parse : Text → Option Json
  pub quote : Text → Text
  pub lower : Text → Text

unfoldable pub transition : EngineState → Engine → Engine
transition s e = record e { state = s; seen = e.seen ++ s ∷ [] }

abbrev pub task_of : EngineState → Text
task_of idle = []
task_of (planning task) = task
task_of (running task i n) = task
task_of (validating task i n) = task
task_of (cancelled task reason) = task
task_of (completed task outcome) = task
task_of (llm_error task message) = task

abbrev pub is_settled : EngineState → Bool
is_settled idle = true
is_settled (completed task outcome) = true
is_settled (cancelled task reason) = true
is_settled _ = false

unfoldable pub cancel : Option Text → Engine → Engine
unfolding transition
cancel reason e =
    if is_settled e.state
    then e
    else transition (cancelled (task_of e.state) (or_default reason (codes "cancelled by caller")))
        (record e { is_cancelled = true })

unfoldable pub cancel_all : List (Option Text) → Engine → Engine
unfolding cancel
cancel_all [] e = e
cancel_all (reason ∷ reasons) e = cancel_all reasons (cancel reason e)

-- The engine after it has waited for a call.
unfoldable pub awaiting : World → Engine → Engine
unfolding cancel_all
awaiting w e = cancel_all (w.cancels e.awaited) (record e { awaited = e.awaited + 1 })

-- `addUsage`
unfoldable pub count_usage : Option Usage → Engine → Engine
count_usage none e = e
count_usage (some u) e = record e {
  usage = add_usage e.usage (some u);
  llm_call_count = e.llm_call_count + 1;
}

-- `fields[key]`, the first of that key
unfoldable pub field_of : Text → Fields → Option Json
field_of key no_fields = none
field_of key (field k x fs) = let rest = field_of key fs in if same_text k key then some x else rest

abbrev pub text_of : Option Json → Option Text
text_of (some (text s)) = some s
text_of _ = none

-- A field of an object, if it is a text; other values are taken as missing.
unfoldable pub text_field : Text → Json → Option Text
unfolding field_of
text_field key (object fs) = text_of (field_of key fs)
text_field key _ = none

-- A text that is there and not empty.
abbrev pub truthy : Option Text → Option Text
truthy (some (c ∷ s)) = some (c ∷ s)
truthy _ = none

-- `safeParse`
unfoldable pub safe_parse : World → Text → Json
safe_parse w s = or_default (w.parse s) (text s)
