-- ===== src/Sdlc/Gate.antt =====
-- The Validation Gate: `validateNode` of src/core/engine/SdlcEngine.ts with `validateGoal` of
-- src/core/goalValidator.ts. Console output, spans and metrics are left out.
pub mod Exact
use xcoder.Prelude.{Bool, true, false, Option, none, some, [], ◌++◌, take, ◌==◌, if◌then◌else◌}
use xcoder.Prelude.Text.{Text, codes, non_empty, show, truncate}
use xcoder.Sdlc.Stage.{AcceptanceCriteria, AcceptanceType}
use xcoder.Sdlc.World.{
  Usage, add_usage, CommandRun, exited, command_error, Reply, parsed, unparsed, call_failed,
  Attempt,
}

pub record ValidationResult : Type 0 where
  pub valid : Bool
  pub reason : Text
  pub usage : Option Usage

-- A call that throws has no result.
unfoldable pub validate_goal : Reply → Option ValidationResult
validate_goal (parsed v r u) = some (record { valid = v; reason = r; usage = u })
validate_goal (unparsed content u) = some (record {
  valid = true;
  reason =
      codes "validator response unparseable, defaulting to valid (fail-open): " ++ take 200 content;
  usage = u;
})
validate_goal (call_failed message) = none

pub record Verdict : Type 0 where
  pub pass : Bool
  pub detail : Text

-- `criteria.type === "command" && criteria.command`: the command to run, if there is one
unfoldable pub gate_command : AcceptanceType → Option Text → Option Text
gate_command AcceptanceType.command (some c) = if non_empty c then some c else none
gate_command _ _ = none

unfoldable pub command_verdict : (Text → Text) → Text → CommandRun → Verdict
unfolding truncate show
command_verdict redact c (exited n out) = record {
  pass = n == 0;
  detail =
      codes "`"
      ++ c
      ++ codes "` exited "
      ++ show n
      ++ (if n == 0 then [] else codes "\n--- output tail ---\n" ++ redact out);
}
command_verdict redact c (command_error e) = record {
  pass = false;
  detail = codes "command validation errored: " ++ truncate 300 (redact e);
}

-- One retry of the judge; a second failure is thrown on.
unfoldable pub judge : Reply → Reply → Option ValidationResult
unfolding validate_goal
judge first second = elim (validate_goal first) [ some v ↦ some v | none ↦ validate_goal second ]

-- The catch around the gate: an error is a failed verdict.
unfoldable pub rubric_verdict :
    (Text → Text) → Reply → Option ValidationResult → Usage → Verdict × Usage
unfolding add_usage truncate
rubric_verdict redact second (some v) u =
    (record { pass = v.valid; detail = v.reason }, add_usage u v.usage)
rubric_verdict redact (call_failed e) none u = (
  record {
    pass = false;
    detail = codes "validation errored (gate fails closed): " ++ truncate 300 (redact e);
  },
  u,
)
rubric_verdict redact _ none u =
    (record { pass = false; detail = codes "validation errored (gate fails closed): " }, u)

-- `validateNode` with the catch of its caller, and the usage that it adds.
unfoldable pub validate_node :
    (Text → Text) → AcceptanceCriteria → Attempt → Usage → Verdict × Usage
unfolding gate_command command_verdict judge rubric_verdict
validate_node redact criteria a u = elim (gate_command criteria.kind criteria.command) [
  | some c ↦ (command_verdict redact c a.command_run, u)
  | none ↦ rubric_verdict redact a.second_reply (judge a.first_reply a.second_reply) u
]
