-- ===== src/Health/Compaction/Linked.antt =====
-- A compaction keeps the links between the messages (src/core/contextCompaction.ts).
use xcoder.Prelude.{◌≡◌, refl, ap, ◌∙◌, Option, none, some, List, [], ◌∷◌, map, if-both}
use xcoder.Prelude.Text.{Text}
use xcoder.Health.Messages.{ToolCall, LlmMessage}
use xcoder.Health.Compaction.{
  CallArgs, JsonTexts, stale, answers, compact_observation, compact_args, compact_call_args,
  is_assistant, compact_observations, compact_calls,
}

-- What links the messages: roles, ids, the reasoning that goes back as it came, and the ids and names of
-- the calls.
pub record Link : Type 0 where
  pub role : Text
  pub answers_to : Option Text
  pub tool : Option Text
  pub reasoning : Option Text
  pub calls : List (Text × Text)

abbrev pub call_link : ToolCall → Text × Text
call_link c = (c.id, c.name)

abbrev pub link : LlmMessage → Link
link msg = record {
  role = msg.role;
  answers_to = msg.tool_call_id;
  tool = msg.name;
  reasoning = msg.reasoning_content;
  calls = map call_link msg.tool_calls;
}

pub cons_eq : {A : Type 0} {a b : A} {xs ys : List A} → a ≡ b → xs ≡ ys → a ∷ xs ≡ b ∷ ys
cons_eq {a = a} {b = b} {xs = xs} {ys = ys} e f = rw (e, f) refl

module _ (json : JsonTexts) (path current : Text) where
  pub args-link :
      (c : ToolCall) (o : Option CallArgs)
      → call_link (compact_call_args json path current c o) ≡ call_link c
  args-link c none = refl
  args-link c (some a) =
      if-both {A = ToolCall} (λ d. call_link d ≡ call_link c) _ (λ _. refl) (λ _. refl)

  calls-link :
      (cs : List ToolCall)
      → map call_link (map (compact_args json path current) cs) ≡ map call_link cs
  unfolding compact_args
  calls-link [] = refl
  calls-link (c ∷ cs) = cons_eq (args-link c (stale json path current c)) (calls-link cs)

  observation-link :
      (id : Text) (msgs : List LlmMessage)
      → map link (compact_observation json path current id msgs) ≡ map link msgs
  unfolding compact_observation
  observation-link id [] = refl
  observation-link id (msg ∷ msgs) =
      if-both {A = List LlmMessage} (λ l. map link l ≡ map link (msg ∷ msgs))
        (answers json path current id msg) (λ _. refl)
        (λ _. ap (λ l. link msg ∷ l) (observation-link id msgs))

  message-link : (msg : LlmMessage) → link (compact_calls json path current msg) ≡ link msg
  unfolding compact_calls
  message-link msg =
      if-both {A = LlmMessage} (λ m. link m ≡ link msg) (is_assistant json path current msg)
        (λ _.
          ap
            (λ cs. record {
              role = msg.role;
              answers_to = msg.tool_call_id;
              tool = msg.name;
              reasoning = msg.reasoning_content;
              calls = cs;
            })
            (calls-link msg.tool_calls))
        (λ _. refl)

  pub messages-link :
      (msgs : List LlmMessage)
      → map link (map (compact_calls json path current) msgs) ≡ map link msgs
  messages-link [] = refl
  messages-link (msg ∷ msgs) = cons_eq (message-link msg) (messages-link msgs)

  pub observations-link :
      (ids : List Text) (msgs : List LlmMessage)
      → map link (compact_observations json path current ids msgs) ≡ map link msgs
  unfolding compact_observations
  observations-link [] msgs = refl
  observations-link (id ∷ ids) msgs =
      observations-link ids (compact_observation json path current id msgs)
      ∙ observation-link id msgs
