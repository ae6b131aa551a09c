-- ===== src/Health/Totals.antt =====
-- Token counts of a task by phase (src/core/taskTokenTracker.ts) and the total over runs
-- (`computeAccumulatedTotal` of src/core/accumulatedTotal.ts, less its formatted text).
pub mod Replaced
use xcoder.Prelude.{
  ℕ, ◌+◌, ◌==◌, Bool, true, false, not, Option, none, some, List, [], ◌∷◌, or_default,
}
use xcoder.Prelude.Text.{Text}
use xcoder.Prelude.Keys.{Dict, text_keys, insert}

pub record LlmUsage : Type 0 where
  pub prompt_tokens : ℕ
  pub completion_tokens : ℕ
  pub total_tokens : ℕ
  pub cached_tokens : Option ℕ

pub record ParsedTokenCounts : Type 0 where
  pub input : ℕ
  pub output : ℕ
  pub cached : ℕ
  pub total : ℕ
  pub discrepancy : Bool
  pub expected_total : ℕ

pub record TaskTokenSummary : Type 0 where
  pub phases : Dict Text ParsedTokenCounts
  pub running_total : ℕ

unfoldable pub usage_to_parsed_counts : LlmUsage → ParsedTokenCounts
usage_to_parsed_counts u =
    let cached = or_default u.cached_tokens 0 in
    let expected = u.prompt_tokens + u.completion_tokens + cached in
    record {
      input = u.prompt_tokens;
      output = u.completion_tokens;
      cached = cached;
      total = u.total_tokens;
      discrepancy = not (u.total_tokens == expected);
      expected_total = expected;
    }

abbrev pub expected_sum : Dict Text ParsedTokenCounts → ℕ
expected_sum [] = 0
expected_sum ((phase, counts) ∷ phases) = counts.expected_total + expected_sum phases

abbrev pub phases_of : Option TaskTokenSummary → Dict Text ParsedTokenCounts
phases_of none = []
phases_of (some s) = s.phases

-- The id of the task is not used. No phase is called `__proto__`.
unfoldable pub accumulate_task_tokens :
    Text → ParsedTokenCounts → Option TaskTokenSummary → TaskTokenSummary
accumulate_task_tokens phase_id counts existing =
    let phases = insert phase_id counts (phases_of existing) in
    record { phases = phases; running_total = expected_sum phases }

pub record AccumulatedTotalResult : Type 0 where
  pub prior_total : ℕ
  pub current_run_total : ℕ
  pub new_total : ℕ

unfoldable pub compute_accumulated_total : ℕ → Option ℕ → AccumulatedTotalResult
compute_accumulated_total current prior = record {
  prior_total = or_default prior 0;
  current_run_total = current;
  new_total = or_default prior 0 + current;
}
