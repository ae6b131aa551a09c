-- ===== src/Workflows/Actions.antt =====
-- `runStepAction` of src/core/workflows/stepExecution.ts, with `dispatch`, `runFileAction`, `runLlmCall` and
-- `runTheme`.
use xcoder.Prelude.{
  ◌+◌, Bool, true, false, not, Option, none, some, List, [], ◌∷◌, ◌++◌, if◌then◌else◌,
}
use xcoder.Prelude.Text.{Text, codes, same_text, trim, non_empty, starts_with}
use xcoder.Health.Json.{
  Json, Items, Fields, atom, text, array, object, no_items, item, no_fields, field, join, stringify,
}
use xcoder.Sdlc.World.{Usage, add_usage}
use xcoder.Lean.Engine.{Completion, responded, call_failed, DispatchResult, field_of}
use xcoder.Lean.Calls.{message}
use xcoder.Workflows.Steps.{
  Action, shell, llm_call, file, url, theme, RawActionResult, FileCall, append_file, delete_file,
  list_files, make_directory, FileAnswer, file_done, file_error, Parse, parsed, unparsable, World,
  Context, Did, did, raised,
}

abbrev pub succeeded : Text → RawActionResult
succeeded output = record { ok = true; output = output; error = none }

abbrev pub failed_with : Text → Text → RawActionResult
failed_with output error = record { ok = false; output = output; error = some error }

-- A call of the world has been made.
abbrev pub asking : Context → Context
asking c = record c { asked = c.asked + 1 }

-- `[a, b].join(separator)`
unfoldable pub join_texts : Text → List Text → Text
join_texts separator [] = []
join_texts separator (part ∷ []) = part
join_texts separator (part ∷ next ∷ parts) =
    part ++ (separator ++ join_texts separator (next ∷ parts))

abbrev pub is_null : Json → Bool
is_null (atom t) = same_text t (codes "null")
is_null _ = false

-- `String(value)`; in an array null is the empty text
unfoldable mutual
  pub string_of : Json → Text
  string_of (atom t) = t
  string_of (text s) = s
  string_of (array xs) = join (strings_of xs)
  string_of (object fs) = codes "[object Object]"

  strings_of : Items → List Text
  strings_of no_items = []
  strings_of (item x xs) = (if is_null x then [] else string_of x) ∷ strings_of xs

-- `String(value ?? default)`
abbrev pub string_or : Text → Option Json → Text
string_or default none = default
string_or default (some x) = if is_null x then default else string_of x

-- `spec[key]` of a value that is not null
unfoldable pub member : Text → Json → Option Json
unfolding field_of
member key (object fs) = field_of key fs
member key _ = none

abbrev pub observation_text : World → Json → Text
observation_text w (text s) = s
observation_text w x = w.pretty x

abbrev pub dispatched : World → DispatchResult → RawActionResult
dispatched w r =
    let said = observation_text w r.observation in
    if r.is_error then failed_with said said else succeeded said

-- `dispatch`
unfoldable pub dispatch : World → Text → Fields → Context → Did RawActionResult
unfolding stringify
dispatch w name args c =
    did (dispatched w (w.dispatch c.asked name (stringify w.quote (object args)))) (asking c)

abbrev pub file_answer : FileAnswer → (List Text → Text) → RawActionResult
file_answer (file_done entries) said = succeeded (said entries)
file_answer (file_error message) said = failed_with [] message

abbrev pub on_files : World → FileCall → (List Text → Text) → Context → Did RawActionResult
on_files w call said c = did (file_answer (w.files c.asked call) said) (asking c)

abbrev pub unsupported_op : Text → Text
unsupported_op op =
    codes "Unsupported op '"
    ++ (op ++ codes "', expected one of read, write, append, delete, list, mkdir")

-- The operation of a file step under a path that passed the check.
unfoldable pub file_op : World → Text → Text → Text → Text → Context → Did RawActionResult
unfolding dispatch join_texts
file_op w op path content resolved c =
    if same_text op (codes "write")
    then dispatch w (codes "write_edit_tool")
        (field (codes "mode") (text (codes "write"))
          (field (codes "filePath") (text path) (field (codes "content") (text content) no_fields)))
        c
    else if same_text op (codes "read")
    then dispatch w (codes "read_tool") (field (codes "filePath") (text path) no_fields) c
    else if same_text op (codes "append")
    then on_files w (append_file resolved content) (λ _. codes "Appended to " ++ resolved) c
    else if same_text op (codes "delete")
    then on_files w (delete_file resolved) (λ _. codes "Deleted " ++ resolved) c
    else if same_text op (codes "list")
    then on_files w (list_files resolved) (λ entries. join_texts (10 ∷ []) entries) c
    else if same_text op (codes "mkdir")
    then on_files w (make_directory resolved) (λ _. codes "Created directory " ++ resolved) c
    else did (failed_with [] (unsupported_op op)) c

abbrev pub escapes : World → Text → Bool
escapes w resolved = not (starts_with (w.resolve (w.workspace_root ∷ [])) resolved)

abbrev pub by_path : World → Text → Text → Text → Context → Did RawActionResult
by_path w op path content c =
    let resolved = w.resolve (w.workspace_root ∷ path ∷ []) in
    if escapes w resolved
    then did (failed_with [] (codes "Path escapes workspace: " ++ path)) c
    else file_op w op path content resolved c

-- A property of null is an exception, which no handler of the step catches.
abbrev pub by_spec : World → Parse → Context → Did RawActionResult
by_spec w (unparsable message) c =
    did (failed_with [] (codes "Invalid file-management command JSON: " ++ message)) c
by_spec w (parsed spec) c =
    if is_null spec
    then raised (codes "Cannot read properties of null (reading 'op')") c
    else by_path w (string_or [] (member (codes "op") spec))
        (string_or (codes ".") (member (codes "path") spec))
        (string_or [] (member (codes "content") spec)) c

-- `command || fallback`
abbrev pub or_text : Text → Text → Text
or_text [] fallback = fallback
or_text (x ∷ s) fallback = x ∷ s

-- `runFileAction`
unfoldable pub run_file_action : World → Text → Context → Did RawActionResult
unfolding file_op member starts_with string_of
run_file_action w command c = by_spec w (w.parse (or_text command (codes "{}"))) c

abbrev pub counted : Option Usage → Context → Context
counted u c = record c { asked = c.asked + 1; usage = add_usage c.usage u }

-- An answer of the model, whose usage the engine counts, or its exception.
abbrev pub by_answer : (Text → Text) → Completion → Context → Did RawActionResult
by_answer said (call_failed message) c = did (failed_with [] message) (asking c)
by_answer said (responded r) c = did (succeeded (said r.content)) (counted r.usage c)

-- `runLlmCall`
unfoldable pub run_llm_call : World → Text → Context → Did RawActionResult
unfolding trim add_usage
run_llm_call w command c =
    if non_empty (trim command)
    then by_answer (λ content. content) (w.complete c.asked (message (codes "user") command ∷ [])) c
    else did (failed_with [] (codes "Empty prompt for llm call")) c

abbrev pub theme_system_prompt : Text
theme_system_prompt =
    codes
      "You are a theme classifier. Based on the mood/context description, reply with ONLY one word: dark or light."

abbrev pub theme_of : World → Text → Text
theme_of w content =
    if starts_with (codes "light") (w.lower (trim content)) then codes "light" else codes "dark"

-- `runTheme`
unfoldable pub run_theme : World → Text → Context → Did RawActionResult
unfolding trim starts_with add_usage
run_theme w command c =
    by_answer (theme_of w)
      (w.complete c.asked (
        message (codes "system") theme_system_prompt
        ∷ message (codes "user") (or_text command (codes "neutral"))
        ∷ []))
      c

-- `runStepAction`
unfoldable pub run_step_action : World → Action → Text → Context → Did RawActionResult
unfolding dispatch run_file_action run_llm_call run_theme trim
run_step_action w shell command c =
    dispatch w (codes "run_command_tool") (field (codes "command") (text command) no_fields) c
run_step_action w url command c =
    dispatch w (codes "summarize_url_tool") (field (codes "url") (text (trim command)) no_fields) c
run_step_action w file command c = run_file_action w command c
run_step_action w llm_call command c = run_llm_call w command c
run_step_action w theme command c = run_theme w command c
