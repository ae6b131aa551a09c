-- ===== src/Health/Actions/Reported.antt =====
-- Which actions are reported (src/core/duplicateActionDetector.ts).
use xcoder.Prelude.{◌≤◌, length, ◌≡◌, Bool, List, [], keep, exists, All, or_default}
use xcoder.Prelude.Text.{Text, same_text}
use xcoder.Prelude.Keys.{text_keys, lookup}
use xcoder.Prelude.Keys.Distinct.{Distinct}
use xcoder.Health.Json.{Json, stable_stringify}
use xcoder.Health.Actions.{ToolCallRecord, DuplicateActionViolation, Groups, action_key, key_of}

module _ (quote : Text → Text) where
  -- A violation with this key.
  abbrev pub reported : Text → List DuplicateActionViolation → Bool
  reported k vs = exists (λ v. same_text (action_key quote v.tool v.args) k) vs

  -- The calls with this key, in order.
  abbrev pub calls_with : Text → List ToolCallRecord → List ToolCallRecord
  calls_with k calls = keep (λ c. same_text (key_of quote c) k) calls

  abbrev group_at : Text → Groups → List ToolCallRecord
  group_at k groups = or_default (lookup k groups) []

  -- Every call of a group has the group's key.
  abbrev Keyed : Groups → Type 0
  Keyed groups = All (λ e. All (λ c. key_of quote c ≡ e.0) e.1) groups

  record Grouped (groups : Groups) : Type 0 where
    distinct : Distinct groups
    keyed : Keyed groups

  -- At least two calls, and one observation that all of them have.
  abbrev pub Repeated : List ToolCallRecord → Type 0
  Repeated group =
      (2 ≤ length group) × ((o : Text) × All (λ c. stable_stringify quote c.observation ≡ o) group)
