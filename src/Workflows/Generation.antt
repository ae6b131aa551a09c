-- ===== src/Workflows/Generation.antt =====
-- `parseProcedure` and `generateProcedure` of src/core/workflows/procedure.ts. The prompts are functions of
-- the world; a number of retries is natural, or it is no number.
pub mod Parsed
use xcoder.Prelude.{
  ℕ, ◌+◌, max, ◌==◌, Bool, true, false, ◌||◌, Option, none, some, List, [], ◌∷◌, ◌++◌, map,
  or_default, if◌then◌else◌,
}
use xcoder.Prelude.Text.{Text, codes, same_text, one_of, trim, non_empty}
use xcoder.Prelude.Keys.{Dict}
use xcoder.Health.Json.{Json, Items, atom, text, array, object, no_items, item}
use xcoder.Workflows.Steps.{
  Action, shell, llm_call, file, url, theme, OnFailure, auto_fix, halt, skip, ProcedureStep,
  Procedure, Parse, parsed, unparsable, World, Context, Did, did, raised,
}
use xcoder.Workflows.Actions.{is_null, string_of, string_or, member, or_text}
use xcoder.Workflows.Router.{RoleConfig, RouterCall, chat}

-- `normalizeAction`
unfoldable pub normalize_action : World → Text → Action
unfolding trim
normalize_action w action =
    let a = w.lower (trim action) in
    if one_of (codes "shell execution" ∷ codes "shell" ∷ codes "run_command" ∷ codes "command" ∷ [])
      a
    then shell
    else if one_of (codes "llm call" ∷ codes "llm_call" ∷ codes "llm" ∷ []) a
    then llm_call
    else if one_of (codes "file management" ∷ codes "file" ∷ codes "filesystem" ∷ []) a
    then file
    else if one_of (codes "url content reader" ∷ codes "url" ∷ codes "fetch" ∷ codes "http" ∷ []) a
    then url
    else if one_of (codes "set theme" ∷ codes "theme" ∷ []) a
    then theme
    else shell

-- `value || fallback` as a text
unfoldable pub truthy_or : Text → Option Json → Text
unfolding string_of
truthy_or fallback none = fallback
truthy_or fallback (some (atom t)) =
    if one_of (codes "null" ∷ codes "false" ∷ codes "0" ∷ []) t then fallback else t
truthy_or fallback (some (text s)) = or_text s fallback
truthy_or fallback (some x) = string_of x

-- `normalizeOnFailure`
unfoldable pub normalize_on_failure : World → Option Json → OnFailure
unfolding trim truthy_or
normalize_on_failure w value =
    let v = w.lower (trim (truthy_or (codes "auto_fix") value)) in
    if same_text v (codes "halt")
    then halt
    else if one_of (codes "skip" ∷ codes "skipped" ∷ []) v
    then skip
    else auto_fix

-- `a ?? b`
unfoldable pub first_of : Option Json → Option Json → Option Json
first_of none b = b
first_of (some x) b = if is_null x then b else some x

abbrev pub texts_of : Items → List Text
texts_of no_items = []
texts_of (item x xs) = string_of x ∷ texts_of xs

abbrev pub list_of : Option Json → List Text
list_of (some (array xs)) = texts_of xs
list_of _ = []

-- `Math.max(1, Number(value ?? 3) || 3)`; `number` is none for NaN
unfoldable pub retries_of : World → Option Json → ℕ
retries_of w none = 3
retries_of w (some x) =
    let n = if is_null x then 3 else or_default (w.number x) 3 in max 1 (if n == 0 then 3 else n)

-- The step at this position of the list.
unfoldable pub parse_step : World → ℕ → Json → ProcedureStep
unfolding member first_of string_of normalize_action normalize_on_failure retries_of
parse_step w i x = record {
  step_id =
      string_or (w.random_step_id i)
        (first_of (member (codes "step_id") x) (member (codes "stepId") x));
  name = string_or (codes "unnamed step") (member (codes "name") x);
  action = normalize_action w (string_or (codes "shell execution") (member (codes "action") x));
  command =
      string_or [] (first_of (member (codes "command") x) (member (codes "command_intent") x));
  depends_on = list_of (first_of (member (codes "depends_on") x) (member (codes "dependsOn") x));
  on_failure =
      normalize_on_failure w
        (first_of (member (codes "on_failure") x) (member (codes "onFailure") x));
  max_retries = retries_of w (member (codes "max_retries") x);
}

abbrev pub parse_steps : World → ℕ → Items → List ProcedureStep
parse_steps w i no_items = []
parse_steps w i (item x xs) = parse_step w i x ∷ parse_steps w (i + 1) xs

abbrev pub steps_of : World → Option Json → List ProcedureStep
steps_of w (some (array xs)) = parse_steps w 0 xs
steps_of w _ = []

abbrev pub procedure_of : World → Json → Procedure
procedure_of w x = record {
  procedure_id =
      string_or w.random_procedure_id
        (first_of (member (codes "procedure_id") x) (member (codes "procedureId") x));
  steps = steps_of w (member (codes "steps") x);
}

-- An array is an object without these members.
abbrev pub procedure_of_value : World → Json → Context → Did Procedure
procedure_of_value w (object fs) c = did (procedure_of w (object fs)) c
procedure_of_value w (array xs) c = did (procedure_of w (array xs)) c
procedure_of_value w _ c =
    raised (codes "Orchestrator returned non-object JSON for procedure schema.") c

abbrev pub procedure_of_parse : World → Parse → Context → Did Procedure
procedure_of_parse w (parsed x) c = procedure_of_value w x c
procedure_of_parse w (unparsable message) c =
    raised (codes "Orchestrator returned invalid JSON for procedure schema: " ++ message) c

-- `parseProcedure`
unfoldable pub parse_procedure : World → Text → Context → Did Procedure
unfolding parse_step member first_of string_of
parse_procedure w raw c = procedure_of_parse w (w.parse raw) c

abbrev pub some_steps : Procedure → Context → Did Procedure
some_steps p c = elim p.steps [
  | [] ↦ raised (codes "Orchestrator returned a procedure with no steps.") c
  | _ ∷ _ ↦ did p c
]

abbrev pub with_steps : Did Procedure → Did Procedure
with_steps (raised message c) = raised message c
with_steps (did p c) = some_steps p c

abbrev pub from_schema : World → Did Text → Did Procedure
from_schema w (raised message c) = raised (codes "Schema generation call failed: " ++ message) c
from_schema w (did raw c) = with_steps (parse_procedure w raw c)

abbrev pub user_call : Text → Text → Bool → RouterCall
user_call role prompt json = record {
  messages = (codes "user", prompt) ∷ [];
  role = role;
  model = none;
  json = json;
  temperature = none;
}

abbrev pub from_plan : World → Dict Text RoleConfig → Text → Did Text → Did Procedure
from_plan w roles role (raised message c) = raised (codes "Planning step failed: " ++ message) c
from_plan w roles role (did plan c) =
    from_schema w (chat w roles (user_call role (w.schema_prompt plan) true) c)

-- `generateProcedure`, by the role "orchestrator" unless another is given
unfoldable pub generate_procedure :
    World → Dict Text RoleConfig → Option Text → Text → Context → Did Procedure
unfolding chat parse_procedure
generate_procedure w roles role task c =
    let by = or_default role (codes "orchestrator") in
    from_plan w roles by (chat w roles (user_call by (w.plan_prompt task) false) c)
