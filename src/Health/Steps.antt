-- ===== src/Health/Steps.antt =====
-- The score of a step (src/core/stepScorer.ts) and the guard against cut-off calls
-- (src/core/truncationGuard.ts). Quoting and lower case are arguments.
pub mod Withheld
use xcoder.Prelude.{
  ℕ, ◌+◌, ◌-◌, ◌*◌, ◌/◌, leb, ltb, ◌==◌, min, Bool, true, false, not, ◌&&◌, ◌||◌, Option, none,
  some, List, [], ◌∷◌, ◌++◌, length, exists, take_last, or_default, if◌then◌else◌,
}
use xcoder.Prelude.Text.{Text, codes, same_text, non_empty}
use xcoder.Health.Messages.{ToolCall}
use xcoder.Health.Json.{Json, stringify, atom, text, object, field, no_fields}
use xcoder.Health.Actions.{ToolCallRecord, DuplicateActionViolation, find_duplicate_actions}
use xcoder.Health.Reasons.{
  Violation, default_options, check_duplicate_reason_rolling, max_duplicate_penalty,
}

-- The message of a repeated thought is made of its violations.
pub data ScoreReason : Type 0 where
  errored completed repeated : ScoreReason
  thought_again : List Violation → ScoreReason
  succeeded : Text → ScoreReason

pub record StepScore : Type 0 where
  pub score : ℕ
  pub reasons : List ScoreReason

pub record HealthState : Type 0 where
  pub scores : List ℕ
  pub call_history : List ToolCallRecord
  pub iteration_reasons : List Text

unfoldable pub create_health_state : HealthState
create_health_state = record { scores = []; call_history = []; iteration_reasons = [] }

pub record Step : Type 0 where
  pub tool : Text
  pub args : Json
  pub observation : Json
  pub is_error : Bool
  pub thought : Option Text

-- Credits, debits and reasons of one signal; the score is clamped once, at the end.
pub record Signal : Type 0 where
  pub up : ℕ
  pub down : ℕ
  pub why : List ScoreReason

abbrev pub quiet : Signal
quiet = record { up = 0; down = 0; why = [] }

abbrev pub error_signal : Step → Signal
error_signal s =
    if s.is_error
    then record { up = 0; down = 45; why = errored ∷ [] }
    else record { up = 10; down = 0; why = completed ∷ [] }

-- `if (step.thought && state.iterationReasons.length > 0)`
unfoldable pub thought_violations : (Text → Text) → List Text → Option Text → List Violation
thought_violations lower reasons none = []
thought_violations lower [] (some t) = []
thought_violations lower (r ∷ rs) (some t) =
    if non_empty t then check_duplicate_reason_rolling lower default_options 5 (r ∷ rs) t else []

abbrev pub thought_signal : List Violation → Signal
thought_signal [] = quiet
thought_signal (v ∷ vs) = record {
  up = 0;
  down = max_duplicate_penalty (v ∷ vs);
  why = thought_again (v ∷ vs) ∷ [];
}

unfoldable pub moves_on : Text → Bool
moves_on tool =
    same_text tool (codes "write_edit_tool") || same_text tool (codes "run_command_tool")

abbrev pub progress_signal : Step → Signal
progress_signal s =
    if not s.is_error && moves_on s.tool
    then record { up = 10; down = 0; why = succeeded s.tool ∷ [] }
    else quiet

-- `Math.max(0, Math.min(100, score))`, where the score is 70 and the credits less the debits; the
-- subtraction stops at 0, as the clamp does.
unfoldable pub clamped : ℕ → ℕ → ℕ
clamped up down = min 100 (70 + up - down)

abbrev pub total : Signal → Signal → Signal → Signal → StepScore
total a b c d = record {
  score = clamped (a.up + b.up + c.up + d.up) (a.down + b.down + c.down + d.down);
  reasons = a.why ++ b.why ++ c.why ++ d.why;
}

module _ (quote lower : Text → Text) where
  -- The arguments are compared as `JSON.stringify` prints them.
  unfoldable pub is_duplicate : Step → List DuplicateActionViolation → Bool
  unfolding stringify
  is_duplicate s vs =
      exists
        (λ v.
          same_text v.tool s.tool && same_text (stringify quote v.args) (stringify quote s.args))
        vs

  abbrev pub repeat_signal : Bool → Signal
  repeat_signal duplicate =
      if duplicate then record { up = 0; down = 35; why = repeated ∷ [] } else quiet

  abbrev pub history_with : HealthState → Step → List ToolCallRecord
  history_with st s =
      st.call_history ++ record { tool = s.tool; args = s.args; observation = s.observation } ∷ []

  unfoldable pub step_score : HealthState → Step → StepScore
  unfolding is_duplicate clamped thought_violations moves_on
  step_score st s =
      total (error_signal s)
        (repeat_signal (is_duplicate s (find_duplicate_actions quote (history_with st s))))
        (thought_signal (thought_violations lower st.iteration_reasons s.thought))
        (progress_signal s)

  unfoldable pub score_step : HealthState → Step → StepScore × HealthState
  unfolding step_score
  score_step st s =
      let result = step_score st s in
      (
        result,
        record {
          scores = st.scores ++ result.score ∷ [];
          call_history = history_with st s;
          iteration_reasons = st.iteration_reasons ++ or_default s.thought [] ∷ [];
        },
      )

abbrev pub sum : List ℕ → ℕ
sum [] = 0
sum (n ∷ ns) = n + sum ns

-- `Math.round(sum / count)`: the floor of the quotient and a half
abbrev pub rounded : ℕ → ℕ → ℕ
rounded s n = (2 * s + n) / (2 * n)

abbrev pub average : List ℕ → ℕ
average ns = rounded (sum ns) (length ns)

unfoldable pub rolling_health : HealthState → ℕ → ℕ
rolling_health st window =
    if length st.scores == 0
    then 100
    else average (if window == 0 then st.scores else take_last window st.scores)

-- `is_length` is `finishReason === "length"`.
abbrev pub is_large : Text → Bool
is_large name = same_text name (codes "write_edit_tool")

pub record TruncationCheckResult : Type 0 where
  pub safe_calls : List ToolCall
  pub blocked_calls : List ToolCall

abbrev pub put_call : ToolCall → TruncationCheckResult → TruncationCheckResult
put_call c r =
    if is_large c.name
    then record r { blocked_calls = c ∷ r.blocked_calls }
    else record r { safe_calls = c ∷ r.safe_calls }

unfoldable pub split_calls : List ToolCall → TruncationCheckResult
split_calls [] = record { safe_calls = []; blocked_calls = [] }
split_calls (c ∷ cs) = put_call c (split_calls cs)

unfoldable pub check_for_truncated_tool_calls : Bool → List ToolCall → TruncationCheckResult
unfolding split_calls
check_for_truncated_tool_calls is_length calls =
    if is_length then split_calls calls else record { safe_calls = calls; blocked_calls = [] }

unfoldable pub truncation_message : Text → Text
truncation_message name =
    (codes "This " ++ name)
    ++ codes
        " call was withheld: the response that generated it was cut off by the completion token limit (finish_reason: \"length\") while still generating the content/newStr argument, so it is very likely incomplete mid-file. Writing it would silently truncate the file (see incident PM-2026-07-25-001). Break this write into smaller pieces -- e.g. multiple write_edit_tool calls with mode='edit' to append each section -- and try again with less content per call."

unfoldable pub truncation_warning_for : (Text → Text) → ToolCall → Text
unfolding stringify truncation_message
truncation_warning_for quote c = stringify quote (
    object (
      field (codes "error") (atom (codes "true")) (
        field (codes "truncated") (atom (codes "true"))
          (field (codes "message") (text (truncation_message c.name)) no_fields))))
