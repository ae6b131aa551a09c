-- ===== src/Workflows/Generation/Parsed.antt =====
-- What a generated procedure is (src/core/workflows/procedure.ts).
use xcoder.Prelude.{
  true, false, ℕ, ◌+◌, ◌≤◌, Option, none, some, List, [], ◌∷◌, All, arith, or_default, length,
}
use xcoder.Prelude.Text.{Text, codes}
use xcoder.Prelude.Keys.{Dict}
use xcoder.Health.Json.{Json, Items, atom, text, array, object, no_items, item}
use xcoder.Lean.Engine.{Completion, responded, call_failed}
use xcoder.Workflows.Steps.{
  ProcedureStep, Procedure, Parse, parsed, unparsable, World, Context, Did, did, raised,
}
use xcoder.Workflows.Actions.{member}
use xcoder.Workflows.Router.{
  RoleConfig, RouterCall, chat, config_for_role, chat_as, chat_answer, chat_messages, chat_options,
}
use xcoder.Workflows.Generation.{
  retries_of, parse_step, parse_steps, steps_of, procedure_of_value, procedure_of_parse,
  parse_procedure, some_steps, with_steps, from_schema, from_plan, user_call, generate_procedure,
}

-- Every step may be tried at least once.
pub record Runnable (p : Procedure) : Type 0 where
  pub steps : 1 ≤ length p.steps
  pub retries : All (λ s. 1 ≤ s.max_retries) p.steps

abbrev pub Generates : ℕ → Did Procedure → Type 0
Generates asked (raised message c) = c.asked ≤ asked
Generates asked (did p c) = Runnable p × (c.asked ≤ asked)

retries-positive : (w : World) (x : Option Json) → 1 ≤ retries_of w x
unfolding retries_of
retries-positive w none = omega arith
retries-positive w (some x) = omega arith

steps-positive :
    (w : World) (i : ℕ) (xs : Items) → All (λ s. 1 ≤ s.max_retries) (parse_steps w i xs)
unfolding parse_step
steps-positive w i no_items = tt
steps-positive w i (item x xs) =
    (retries-positive w (member (codes "max_retries") x), steps-positive w (i + 1) xs)

steps_of-positive : (w : World) (x : Option Json) → All (λ s. 1 ≤ s.max_retries) (steps_of w x)
steps_of-positive w (some (array xs)) = steps-positive w 0 xs
steps_of-positive w (some (atom t)) = tt
steps_of-positive w (some (text t)) = tt
steps_of-positive w (some (object fs)) = tt
steps_of-positive w none = tt

some_steps-Generates :
    (asked : ℕ) (id : Text) (steps : List ProcedureStep) (c : Context)
    → All (λ s. 1 ≤ s.max_retries) steps
    → c.asked ≤ asked
    → Generates asked (some_steps (record { procedure_id = id; steps = steps }) c)
some_steps-Generates asked id [] c h k = k
some_steps-Generates asked id (s ∷ steps) c h k = (record { steps = omega arith; retries = h }, k)

value-Generates :
    (w : World) (asked : ℕ) (x : Json) (c : Context)
    → c.asked ≤ asked
    → Generates asked (with_steps (procedure_of_value w x c))
value-Generates w asked (object fs) c k =
    some_steps-Generates asked _ _ c (steps_of-positive w (member (codes "steps") (object fs))) k
value-Generates w asked (array xs) c k =
    some_steps-Generates asked _ _ c (steps_of-positive w (member (codes "steps") (array xs))) k
value-Generates w asked (atom t) c k = k
value-Generates w asked (text t) c k = k

parse-Generates :
    (w : World) (asked : ℕ) (p : Parse) (c : Context)
    → c.asked ≤ asked
    → Generates asked (with_steps (procedure_of_parse w p c))
parse-Generates w asked (parsed x) c k = value-Generates w asked x c k
parse-Generates w asked (unparsable message) c k = k

abbrev Chats : Context → Did Text → Type 0
Chats c (raised message c') = c'.asked ≤ c.asked + 1
Chats c (did t c') = c'.asked ≤ c.asked + 1

answer-Chats : (role : Text) (r : Completion) (c : Context) → Chats c (chat_answer role r c)
answer-Chats role (responded r) c = omega arith
answer-Chats role (call_failed m) c = omega arith

chat-Chats :
    (w : World) (roles : Dict Text RoleConfig) (call : RouterCall) (c : Context)
    → Chats c (chat w roles call c)
unfolding chat
chat-Chats w roles call c = by_config (config_for_role roles call.role)
  where
    by_config : (cfg : Option RoleConfig) → Chats c (chat_as w roles call cfg c)
    by_config none = omega arith
    by_config (some cfg) =
        answer-Chats call.role
          (w.complete_with c.asked (chat_messages call) (chat_options call cfg)) c

schema-Generates :
    (w : World) (asked : ℕ) (c : Context)
    → c.asked + 1 ≤ asked
    → (d : Did Text) → Chats c d
    → Generates asked (from_schema w d)
unfolding parse_procedure
schema-Generates w asked c k (raised message c') h = omega (arith, h, k)
schema-Generates w asked c k (did raw c') h =
    parse-Generates w asked (w.parse raw) c' (omega (arith, h, k))

plan-Generates :
    (w : World) (roles : Dict Text RoleConfig) (role : Text) (c : Context) (d : Did Text)
    → Chats c d
    → Generates (c.asked + 2) (from_plan w roles role d)
plan-Generates w roles role c (raised message c') h = omega (arith, h)
plan-Generates w roles role c (did plan c') h =
    schema-Generates w (c.asked + 2) c' (omega (arith, h))
      (chat w roles (user_call role (w.schema_prompt plan) true) c')
      (chat-Chats w roles (user_call role (w.schema_prompt plan) true) c')

-- A generation makes at most two calls, and a procedure that it gives has a step, each of which may be tried at
-- least once.
pub generate_procedure-Generates :
    (w : World) (roles : Dict Text RoleConfig) (role : Option Text) (task : Text) (c : Context)
    → Generates (c.asked + 2) (generate_procedure w roles role task c)
unfolding generate_procedure
generate_procedure-Generates w roles role task c =
    let call = user_call (or_default role (codes "orchestrator")) (w.plan_prompt task) false in
    plan-Generates w roles (or_default role (codes "orchestrator")) c (chat w roles call c)
      (chat-Chats w roles call c)
