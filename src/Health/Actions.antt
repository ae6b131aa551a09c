-- ===== src/Health/Actions.antt =====
-- Repeated actions (`findDuplicateActions` of src/core/duplicateActionDetector.ts).
pub mod Reported
use xcoder.Prelude.{
  ℕ, leb, Bool, true, false, ◌&&◌, List, [], ◌∷◌, ◌++◌, length, every, map, or_default,
  if◌then◌else◌,
}
use xcoder.Prelude.Text.{Text, codes, same_text}
use xcoder.Prelude.Keys.{Dict, text_keys, lookup, insert}
use xcoder.Health.Json.{Json, stable_stringify}

pub record ToolCallRecord : Type 0 where
  pub tool : Text
  pub args : Json
  pub observation : Json

pub record DuplicateActionViolation : Type 0 where
  pub tool : Text
  pub args : Json
  pub occurrences : ℕ

abbrev pub Groups : Type 0
Groups = Dict Text (List ToolCallRecord)

module _ (quote : Text → Text) where
  -- `${tool}::${stableStringify(args)}`
  unfoldable pub action_key : Text → Json → Text
  unfolding stable_stringify
  action_key tool args = tool ++ codes "::" ++ stable_stringify quote args

  abbrev pub key_of : ToolCallRecord → Text
  key_of c = action_key c.tool c.args

  unfoldable pub add_call : ToolCallRecord → Groups → Groups
  add_call c groups = insert (key_of c) (or_default (lookup (key_of c) groups) [] ++ c ∷ []) groups

  unfoldable pub group_calls : List ToolCallRecord → Groups → Groups
  group_calls [] groups = groups
  group_calls (c ∷ cs) groups = group_calls cs (add_call c groups)

  unfoldable pub all_identical : List Text → Bool
  all_identical [] = true
  all_identical (o ∷ os) = every (λ x. same_text x o) (o ∷ os)

  abbrev pub observations : List ToolCallRecord → List Text
  observations group = map (λ c. stable_stringify quote c.observation) group

  unfoldable pub is_duplicate_group : List ToolCallRecord → Bool
  unfolding all_identical stable_stringify
  is_duplicate_group group = leb 2 (length group) && all_identical (observations group)

  abbrev pub violation_of : List ToolCallRecord → List DuplicateActionViolation
  violation_of [] = []
  violation_of (c ∷ cs) =
      record { tool = c.tool; args = c.args; occurrences = length (c ∷ cs) } ∷ []

  unfoldable pub violations : Groups → List DuplicateActionViolation
  unfolding is_duplicate_group
  violations [] = []
  violations ((k, group) ∷ groups) =
      let rest = violations groups in
      if is_duplicate_group group then violation_of group ++ rest else rest

  unfoldable pub find_duplicate_actions : List ToolCallRecord → List DuplicateActionViolation
  unfolding group_calls violations
  find_duplicate_actions calls = violations (group_calls calls [])
