-- ===== src/Health/Compaction/Kept.antt =====
-- What a compaction leaves alone (src/core/contextCompaction.ts).
use xcoder.Prelude.{
  ◌≡◌, refl, sym, ap, subst, ◌∙◌, Bool, true, false, ◌&&◌, Option, none, some, List, [], ◌∷◌, map,
  keep, All, All-append, if◌then◌else◌, if-both, Bool-cases, inl, inr,
}
use xcoder.Prelude.Text.{Text, same_text}
use xcoder.Prelude.Keys.{same_text-eq}
use xcoder.Health.Compaction.Linked.{link, cons_eq, args-link, messages-link, observations-link}
use xcoder.Health.Messages.{ToolCall, LlmMessage}
use xcoder.Health.Compaction.{
  CallArgs, JsonTexts, same_path, stale, stale_args, answers, compact_observation, compact_args,
  compact_call_args, stale_id, stale_calls, is_assistant, stale_ids, compact_observations,
  compact_calls, compact_stale_file_reads,
}

-- The observations of a call.
abbrev pub contents_of : Text → List LlmMessage → List Text
contents_of id msgs = map (λ m. m.content) (keep (λ m. same_path id m.tool_call_id) msgs)

-- The arguments of a call.
abbrev args_in : Text → List ToolCall → List Text
args_in id cs = map (λ c. c.arguments) (keep (λ c. same_text c.id id) cs)

abbrev pub args_of : Text → List LlmMessage → List (List Text)
args_of id msgs = map (λ m. args_in id m.tool_calls) msgs

module _ (json : JsonTexts) (path current : Text) where
  abbrev Other : Text → Type 0
  Other id = same_text id current ≡ false

  none_either :
      (b : Bool) (x : Option CallArgs) → (if b then none else if true then none else x) ≡ none
  none_either true x = refl
  none_either false x = refl

  current-fresh : (c : ToolCall) → same_text c.id current ≡ true → stale json path current c ≡ none
  unfolding stale
  current-fresh c same = rw same (none_either _ (stale_args path (json.parse c.arguments)))

  stale_id-Other :
      (c : ToolCall) (o : Option CallArgs) (ids : List Text)
      → stale json path current c ≡ o
      → All Other ids
      → All Other (stale_id json path current c o ids)
  unfolding stale
  stale_id-Other c none ids e h = h
  stale_id-Other c (some a) ids e h = elim (Bool-cases (same_text c.id current)) [
    | inl same ↦ cc (sym (current-fresh c same) ∙ e)
    | inr other ↦ (other, h)
  ]

  stale_calls-Other : (cs : List ToolCall) → All Other (stale_calls json path current cs)
  unfolding stale_calls
  stale_calls-Other [] = tt
  stale_calls-Other (c ∷ cs) = stale_id-Other c _ _ refl (stale_calls-Other cs)

  stale_ids-Other : (msgs : List LlmMessage) → All Other (stale_ids json path current msgs)
  unfolding stale_ids
  stale_ids-Other [] = tt
  stale_ids-Other (msg ∷ msgs) =
      if-both (All Other) (is_assistant json path current msg)
        (λ _. All-append Other _ _ (stale_calls-Other msg.tool_calls) (stale_ids-Other msgs))
        (λ _. stale_ids-Other msgs)

  path-Other :
      (id : Text) (o : Option Text) → same_path id o ≡ true → Other id → same_path current o ≡ false
  path-Other id none e h = refl
  path-Other id (some t) e h = ap (λ i. same_text i current) (same_text-eq t id e) ∙ h

  and_right : (a b : Bool) → (a && b) ≡ true → b ≡ true
  and_right true b h = h
  and_right false b h = cc h

  contents_cons :
      (b : Bool) (m msg : LlmMessage) (xs ys : List LlmMessage)
      → m.content ≡ msg.content
      → map (λ m. m.content) xs ≡ map (λ m. m.content) ys
      → map (λ m. m.content) (if b then m ∷ xs else xs)
        ≡ map (λ m. m.content) (if b then msg ∷ ys else ys)
  contents_cons true m msg xs ys e h = cons_eq e h
  contents_cons false m msg xs ys e h = h

  observation-kept :
      (id : Text) (msgs : List LlmMessage)
      → Other id
      → contents_of current (compact_observation json path current id msgs)
        ≡ contents_of current msgs
  unfolding compact_observation
  observation-kept id [] h = refl
  observation-kept id (msg ∷ msgs) h =
      if-both {A = List LlmMessage} (λ l. contents_of current l ≡ contents_of current (msg ∷ msgs))
        (answers json path current id msg)
        (λ hit.
          rw (path-Other id msg.tool_call_id (and_right _ (same_path id msg.tool_call_id) hit) h)
            refl)
        (λ _.
          contents_cons (same_path current msg.tool_call_id) msg msg _ _ refl
            (observation-kept id msgs h))

  observations-kept :
      (ids : List Text) (msgs : List LlmMessage)
      → All Other ids
      → contents_of current (compact_observations json path current ids msgs)
        ≡ contents_of current msgs
  unfolding compact_observations
  observations-kept [] msgs h = refl
  observations-kept (id ∷ ids) msgs h =
      observations-kept ids (compact_observation json path current id msgs) h.1
      ∙ observation-kept id msgs h.0

  same_content : (msg : LlmMessage) → (compact_calls json path current msg).content ≡ msg.content
  unfolding compact_calls
  same_content msg =
      if-both {A = LlmMessage} (λ m. m.content ≡ msg.content) (is_assistant json path current msg)
        (λ _. refl) (λ _. refl)

  same_answer :
      (msg : LlmMessage) → (compact_calls json path current msg).tool_call_id ≡ msg.tool_call_id
  unfolding compact_calls
  same_answer msg =
      if-both {A = LlmMessage} (λ m. m.tool_call_id ≡ msg.tool_call_id)
        (is_assistant json path current msg) (λ _. refl) (λ _. refl)

  calls-contents :
      (msgs : List LlmMessage)
      → contents_of current (map (compact_calls json path current) msgs) ≡ contents_of current msgs
  calls-contents [] = refl
  calls-contents (msg ∷ msgs) =
      ap
        (λ o.
          map (λ m. m.content)
            (if same_path current o
              then compact_calls json path current msg
                ∷ keep (λ m. same_path current m.tool_call_id)
                    (map (compact_calls json path current) msgs)
              else keep (λ m. same_path current m.tool_call_id)
                  (map (compact_calls json path current) msgs)))
        (same_answer msg)
      ∙ contents_cons (same_path current msg.tool_call_id) (compact_calls json path current msg) msg
          _ _ (same_content msg) (calls-contents msgs)

  arguments_cons :
      (b : Bool) (c d : ToolCall) (xs ys : List ToolCall)
      → (b ≡ true → d.arguments ≡ c.arguments)
      → map (λ x. x.arguments) xs ≡ map (λ x. x.arguments) ys
      → map (λ x. x.arguments) (if b then d ∷ xs else xs)
        ≡ map (λ x. x.arguments) (if b then c ∷ ys else ys)
  arguments_cons true c d xs ys e h = cons_eq (e refl) h
  arguments_cons false c d xs ys e h = h

  arguments-kept :
      (c : ToolCall)
      → same_text c.id current ≡ true
      → (compact_args json path current c).arguments ≡ c.arguments
  unfolding compact_args
  arguments-kept c same =
      ap (λ o. (compact_call_args json path current c o).arguments) (current-fresh c same)

  args_in-kept :
      (cs : List ToolCall)
      → args_in current (map (compact_args json path current) cs) ≡ args_in current cs
  unfolding compact_args
  args_in-kept [] = refl
  args_in-kept (c ∷ cs) =
      subst
        (λ i.
          map (λ x. x.arguments)
            (if same_text i current
              then compact_args json path current c
                ∷ keep (λ x. same_text x.id current) (map (compact_args json path current) cs)
              else keep (λ x. same_text x.id current) (map (compact_args json path current) cs))
          ≡ args_in current (c ∷ cs))
        (sym (ap (λ l. l.0) (args-link json path current c (stale json path current c))))
        (arguments_cons (same_text c.id current) c (compact_args json path current c) _ _
          (arguments-kept c) (args_in-kept cs))

  args_of-calls :
      (msgs : List LlmMessage)
      → args_of current (map (compact_calls json path current) msgs) ≡ args_of current msgs
  unfolding compact_calls
  args_of-calls [] = refl
  args_of-calls (msg ∷ msgs) =
      cons_eq
        (if-both {A = LlmMessage}
          (λ m. args_in current m.tool_calls ≡ args_in current msg.tool_calls)
          (is_assistant json path current msg) (λ _. args_in-kept msg.tool_calls) (λ _. refl))
        (args_of-calls msgs)

  args_of-observation :
      (id : Text) (msgs : List LlmMessage)
      → args_of current (compact_observation json path current id msgs) ≡ args_of current msgs
  unfolding compact_observation
  args_of-observation id [] = refl
  args_of-observation id (msg ∷ msgs) =
      if-both {A = List LlmMessage} (λ l. args_of current l ≡ args_of current (msg ∷ msgs))
        (answers json path current id msg) (λ _. refl)
        (λ _. ap (λ l. args_in current msg.tool_calls ∷ l) (args_of-observation id msgs))

  args_of-observations :
      (ids : List Text) (msgs : List LlmMessage)
      → args_of current (compact_observations json path current ids msgs) ≡ args_of current msgs
  unfolding compact_observations
  args_of-observations [] msgs = refl
  args_of-observations (id ∷ ids) msgs =
      args_of-observations ids (compact_observation json path current id msgs)
      ∙ args_of-observation id msgs

-- A compaction keeps the number and order of the messages, their roles and the ids and names that link calls
-- and answers; of the current call it keeps the arguments and every observation.
pub compact-keeps :
    (json : JsonTexts) (path current : Text) (msgs : List LlmMessage)
    → (map link (compact_stale_file_reads json path current msgs) ≡ map link msgs)
      × (args_of current (compact_stale_file_reads json path current msgs) ≡ args_of current msgs)
      × (contents_of current (compact_stale_file_reads json path current msgs)
          ≡ contents_of current msgs)
unfolding compact_stale_file_reads
compact-keeps json path current msgs = (
  messages-link json path current (compact_observations json path current ids msgs)
      ∙ observations-link json path current ids msgs,
  args_of-calls json path current (compact_observations json path current ids msgs)
      ∙ args_of-observations json path current ids msgs,
  calls-contents json path current (compact_observations json path current ids msgs)
      ∙ observations-kept json path current ids msgs (stale_ids-Other json path current msgs),
)
  where
    ids : List Text
    ids = stale_ids json path current msgs
