-- ===== src/Workflows/Router.antt =====
-- `MultiRoleRouter` of src/core/workflows/router.ts: calls of the model by role.
use xcoder.Prelude.{Bool, ◌||◌, Option, none, some, List, [], ◌∷◌, ◌++◌, map, keep, or_default}
use xcoder.Prelude.Text.{Text, codes, one_of}
use xcoder.Prelude.Keys.{Dict, lookup, insert, text_keys}
use xcoder.Health.Json.{sort_keys}
use xcoder.Health.Messages.{LlmMessage}
use xcoder.Lean.Engine.{Completion, responded, call_failed}
use xcoder.Lean.Calls.{message}
use xcoder.Workflows.Steps.{CallOptions, World, Context, Did, did, raised}
use xcoder.Workflows.Actions.{asking, counted, join_texts}

-- A temperature is its printed number; `json` is the response format "json_object".
pub record RoleConfig : Type 0 where
  pub model : Option Text
  pub temperature : Option Text
  pub json : Bool

-- The messages by role and content.
pub record RouterCall : Type 0 where
  pub messages : List (Text × Text)
  pub role : Text
  pub model : Option Text
  pub json : Bool
  pub temperature : Option Text

abbrev pub either_text : Option Text → Option Text → Option Text
either_text (some t) other = some t
either_text none other = other

abbrev pub valid_message_roles : List Text
valid_message_roles = codes "system" ∷ codes "user" ∷ codes "assistant" ∷ codes "tool" ∷ []

abbrev pub role_names : Dict Text RoleConfig → List Text
role_names roles = map (λ entry. entry.0) (sort_keys (map (λ entry. (entry.0, [])) roles))

unfoldable pub unknown_role : Dict Text RoleConfig → Text → Text
unfolding join_texts sort_keys
unknown_role roles role =
    codes "Unknown role '"
    ++ (role
        ++ (codes "'. Configured roles: "
            ++ (join_texts (codes ", ") (role_names roles) ++ codes ".")))

-- `configForRole`
unfoldable pub config_for_role : Dict Text RoleConfig → Text → Option RoleConfig
unfolding lookup
config_for_role roles role = lookup role roles

-- `addRole`
unfoldable pub add_role : Text → RoleConfig → Dict Text RoleConfig → Dict Text RoleConfig
unfolding insert
add_role name config roles = insert name config roles

abbrev pub chat_options : RouterCall → RoleConfig → CallOptions
chat_options call cfg = record {
  model = either_text call.model cfg.model;
  temperature = or_default call.temperature (or_default cfg.temperature (codes "0.2"));
  json = call.json || cfg.json;
}

abbrev pub chat_messages : RouterCall → List LlmMessage
chat_messages call =
    map (λ m. message m.0 m.1) (keep (λ m. one_of valid_message_roles m.0) call.messages)

abbrev pub chat_answer : Text → Completion → Context → Did Text
chat_answer role (responded r) c = did r.content (counted r.usage c)
chat_answer role (call_failed reason) c =
    raised (codes "Router call failed for role '" ++ (role ++ (codes "': " ++ reason))) (asking c)

abbrev pub chat_as :
    World → Dict Text RoleConfig → RouterCall → Option RoleConfig → Context → Did Text
chat_as w roles call none c = raised (unknown_role roles call.role) c
chat_as w roles call (some cfg) c =
    chat_answer call.role (w.complete_with c.asked (chat_messages call) (chat_options call cfg)) c

-- `chat`
unfoldable pub chat : World → Dict Text RoleConfig → RouterCall → Context → Did Text
unfolding config_for_role unknown_role
chat w roles call c = chat_as w roles call (config_for_role roles call.role) c
