-- ===== src/Health/Totals/Replaced.antt =====
-- The running total of a task (src/core/taskTokenTracker.ts).
use xcoder.Prelude.{
  ℕ, ◌+◌, ◌≡◌, refl, sym, ap, ◌∙◌, Option, none, some, List, [], ◌∷◌, arith, Bool-cases, inl, inr,
}
use xcoder.Prelude.Text.{Text, same_text}
use xcoder.Prelude.Keys.{Dict, text_keys, lookup, insert}
use xcoder.Health.Totals.{
  ParsedTokenCounts, TaskTokenSummary, expected_sum, phases_of, accumulate_task_tokens,
}

-- The phases of a run, in order of report.
unfoldable pub accumulate_all :
    List (Text × ParsedTokenCounts) → Option TaskTokenSummary → Option TaskTokenSummary
accumulate_all [] s = s
accumulate_all ((phase, counts) ∷ reports) s =
    accumulate_all reports (some (accumulate_task_tokens phase counts s))

abbrev pub total_of : Option TaskTokenSummary → ℕ
total_of none = 0
total_of (some s) = s.running_total

-- The share of a phase.
abbrev pub share : Option ParsedTokenCounts → ℕ
share none = 0
share (some counts) = counts.expected_total

sum-insert :
    (phase : Text) (counts : ParsedTokenCounts) (phases : Dict Text ParsedTokenCounts)
    → expected_sum (insert phase counts phases) + share (lookup phase phases)
      ≡ expected_sum phases + counts.expected_total
unfolding insert lookup
sum-insert phase counts [] = omega arith
sum-insert phase counts ((p, c) ∷ phases) = elim (Bool-cases (same_text p phase)) [
  | inl same ↦ rw same (omega arith)
  | inr other ↦ rw other (omega (arith, sum-insert phase counts phases))
]

total-sum :
    (reports : List (Text × ParsedTokenCounts)) (s : Option TaskTokenSummary)
    → total_of s ≡ expected_sum (phases_of s)
    → total_of (accumulate_all reports s) ≡ expected_sum (phases_of (accumulate_all reports s))
unfolding accumulate_all accumulate_task_tokens
total-sum [] s h = h
total-sum ((phase, counts) ∷ reports) s h =
    total-sum reports (some (accumulate_task_tokens phase counts s)) refl

-- After every run of reports, one more raises the running total by its expected total and takes off what the
-- same phase had reported before.
pub accumulate-replaces :
    (reports : List (Text × ParsedTokenCounts)) (phase : Text) (counts : ParsedTokenCounts)
    → (accumulate_task_tokens phase counts (accumulate_all reports none)).running_total
        + share (lookup phase (phases_of (accumulate_all reports none)))
      ≡ total_of (accumulate_all reports none) + counts.expected_total
unfolding accumulate_task_tokens
accumulate-replaces reports phase counts =
    sum-insert phase counts (phases_of (accumulate_all reports none))
    ∙ ap (λ n. n + counts.expected_total) (sym (total-sum reports none refl))
