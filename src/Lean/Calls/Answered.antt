-- ===== src/Lean/Calls/Answered.antt =====
-- Every tool call of a conversation has its answer (src/core/engine/LeanEngine.ts): of the messages only
-- their links count, which the compaction keeps.
use mathlib.Core.List.{Perm, perm_middle, append_assoc, append-nil, map-append}
use mathlib.Core.List.Perm
use xcoder.Prelude.{
  ℕ, ◌≡◌, refl, sym, ap, ◌∙◌, subst, Bool, true, false, not, ◌&&◌, Option, none, some, List, [],
  ◌∷◌, ◌++◌, map, keep, All, All-append, if◌then◌else◌, if-both,
}
use xcoder.Prelude.Text.{Text, codes}
use xcoder.Health.Json.{stringify}
use xcoder.Health.Messages.{ToolCall, LlmMessage}
use xcoder.Health.Compaction.Linked.{Link, call_link, link, args-link}
use xcoder.Health.Compaction.Kept.{compact-keeps}
use xcoder.Health.Steps.{rolling_health, is_large}
use xcoder.Health.Steps.Withheld.{check-withholds}
use xcoder.Health.Compaction.{compact_args}
use xcoder.Lean.Engine.{
  World, LeanEngineOptions, LlmResponse, DispatchResult, full_context, text_field, truthy,
  safe_parse,
}
use xcoder.Lean.Calls.{
  Turned, message, assistant_message, tool_message, json_texts, compact_for, touches_files,
  after_result, compact_shared, later_call, run_call, run_calls, nudge_text, needs_nudge, nudged,
  withheld_messages, checked, received, handle_calls, nudge,
}

abbrev pub IsResult : Link → Type 0
IsResult l = (l.role ≡ codes "tool") × (l.calls ≡ [])

abbrev pub answers_of : List Link → List (Option Text)
answers_of ls = map (λ l. l.answers_to) ls

abbrev pub asked_by : Link → List (Option Text)
asked_by l = map (λ c. some c.0) l.calls

-- A message of the assistant that calls tools is followed by results, one for each of its calls.
pub data Answered : List Link → Type 0 where
  nothing : Answered []
  plain :
      {before : List Link}
      → Answered before
      → (l : Link) → l.calls ≡ []
      → l.answers_to ≡ none
      → Answered (before ++ l ∷ [])
  exchange :
      {before : List Link}
      → Answered before
      → (l : Link) → l.role ≡ codes "assistant"
      → (results : List Link) → All IsResult results
      → Perm (answers_of results) (asked_by l)
      → Answered ((before ++ l ∷ []) ++ results)

-- The messages of `out` are those of `base` and results for these calls, in order.
pub record Replied (base out : List Link) (cs : List ToolCall) : Type 0 where
  pub results : List Link
  pub added : out ≡ base ++ results
  pub all_results : All IsResult results
  pub replies : answers_of results ≡ map (λ c. some c.id) cs

none-Replied : (base : List Link) → Replied base base []
none-Replied base = record {
  results = [];
  added = sym (append-nil base);
  all_results = tt;
  replies = refl;
}

pub append-Replied :
    (a b c : List Link) (cs ds : List ToolCall)
    → Replied a b cs
    → Replied b c ds
    → Replied a c (cs ++ ds)
append-Replied a b c cs ds r s = record {
  results = r.results ++ s.results;
  added = s.added ∙ ap (λ l. l ++ s.results) r.added ∙ append_assoc a r.results s.results;
  all_results = All-append IsResult r.results s.results r.all_results s.all_results;
  replies =
      map-append (λ l. l.answers_to) r.results s.results
      ∙ ap (λ l. l ++ answers_of s.results) r.replies
      ∙ ap (λ l. map (λ c. some c.id) cs ++ l) s.replies
      ∙ sym (map-append (λ c. some c.id) cs ds);
}

split_cons :
    (b : Bool) (c : ToolCall) (xs ys zs : List ToolCall)
    → Perm (xs ++ ys) zs
    → Perm ((if b then c ∷ xs else xs) ++ (if not b then c ∷ ys else ys)) (c ∷ zs)
split_cons true c xs ys zs h = Perm.cons c h
split_cons false c xs ys zs h = Perm.trans (perm_middle xs ys) (Perm.cons c h)

-- Calls split by a test, and put together again.
pub split-Perm :
    (p : ToolCall → Bool) (cs : List ToolCall) → Perm (keep p cs ++ keep (λ c. not (p c)) cs) cs
split-Perm p [] = Perm.refl []
split-Perm p (c ∷ cs) =
    split_cons (p c) c (keep p cs) (keep (λ x. not (p x)) cs) cs (split-Perm p cs)

one-Replied :
    (messages : List LlmMessage) (c : ToolCall) (name content : Text) (id : Text)
    → id ≡ c.id
    → Replied
        (map link messages)
        (map link (messages ++ tool_message id name content ∷ []))
        (c ∷ [])
one-Replied messages c name content id e = record {
  results = link (tool_message id name content) ∷ [];
  added = map-append link messages (tool_message id name content ∷ []);
  all_results = ((refl, refl), tt);
  replies = ap (λ i. some i ∷ []) e;
}

withheld-Replied :
    (w : World) (messages : List LlmMessage) (cs : List ToolCall)
    → Replied (map link messages) (map link (messages ++ withheld_messages w cs)) cs
unfolding withheld_messages
withheld-Replied w messages cs = record {
  results = map link (withheld_messages w cs);
  added = map-append link messages (withheld_messages w cs);
  all_results = every_result cs;
  replies = every_reply cs;
}
  where
    every_result : (ds : List ToolCall) → All IsResult (map link (withheld_messages w ds))
    every_result [] = tt
    every_result (d ∷ ds) = ((refl, refl), every_result ds)

    every_reply :
        (ds : List ToolCall)
        → answers_of (map link (withheld_messages w ds)) ≡ map (λ c. some c.id) ds
    every_reply [] = refl
    every_reply (d ∷ ds) = ap (λ l. some d.id ∷ l) (every_reply ds)

-- The tools answer under the id of the call.
abbrev pub KeepsIds : World → Type 0
KeepsIds w = (n : ℕ) (c : ToolCall) → (w.dispatch n c).tool_call_id ≡ c.id

module _ (o : LeanEngineOptions) (w : World) (ids : KeepsIds w) where
  compact_for-link :
      (path : Option Text) (current : Text) (messages : List LlmMessage)
      → map link (compact_for w path current messages) ≡ map link messages
  compact_for-link none current messages = refl
  compact_for-link (some path) current messages =
      (compact-keeps (json_texts w) path current messages).0

  call-Replied :
      (c d : ToolCall) (t : Turned)
      → d.id ≡ c.id
      → Replied (map link t.messages) (map link (run_call o w d t).messages) (c ∷ [])
  unfolding run_call after_result
  call-Replied c d t same =
      if-both {A = List LlmMessage} (λ out. Replied (map link t.messages) (map link out) (c ∷ []))
        (not (full_context o) && touches_files (w.dispatch t.engine.awaited d).tool_name)
        (λ _.
          subst (λ ls. Replied (map link t.messages) ls (c ∷ [])) (sym (compact_for-link _ _ _))
            one)
        (λ _. one)
    where
      one :
          Replied
            (map link t.messages)
            (map link (
              t.messages
              ++ tool_message
                  (w.dispatch t.engine.awaited d).tool_call_id
                  (w.dispatch t.engine.awaited d).tool_name
                  (stringify w.quote (w.dispatch t.engine.awaited d).observation)
                ∷ []))
            (c ∷ [])
      one =
          one-Replied t.messages c (w.dispatch t.engine.awaited d).tool_name
            (stringify w.quote (w.dispatch t.engine.awaited d).observation)
            (w.dispatch t.engine.awaited d).tool_call_id (ids t.engine.awaited d ∙ same)

  shared-id :
      (path : Option Text) (current : Text) (d : ToolCall)
      → (compact_shared w path current d).id ≡ d.id
  unfolding compact_args
  shared-id none current d = refl
  shared-id (some path) current d = ap (λ l. l.0) (args-link (json_texts w) path current d _)

  later-id : (c d : ToolCall) (r : DispatchResult) → (later_call o w c r d).id ≡ d.id
  unfolding later_call
  later-id c d r =
      if-both {A = ToolCall} (λ x. x.id ≡ d.id) (not (full_context o) && touches_files r.tool_name)
        (λ _.
          shared-id (truthy (text_field (codes "filePath") (safe_parse w c.arguments)))
            r.tool_call_id d)
        (λ _. refl)

  calls-Replied :
      (now : ToolCall → ToolCall)
      → ((c : ToolCall) → (now c).id ≡ c.id)
      → (cs : List ToolCall) (t : Turned)
      → Replied (map link t.messages) (map link (run_calls o w now cs t).messages) cs
  unfolding run_calls
  calls-Replied now same [] t = none-Replied (map link t.messages)
  calls-Replied now same (c ∷ cs) t =
      append-Replied (map link t.messages) _ _ (c ∷ []) cs (call-Replied c (now c) t (same c)) (
        calls-Replied (λ d. later_call o w (now c) (w.dispatch t.engine.awaited (now c)) (now d))
          (λ d. later-id (now c) (now d) (w.dispatch t.engine.awaited (now c)) ∙ same d) cs
          (run_call o w (now c) t))

  -- Every call of the response gets one reply: the withheld ones first.
  response-Replied :
      (r : LlmResponse) (t : Turned)
      → Replied
          (map link (t.messages ++ assistant_message r ∷ []))
          (map link (handle_calls o w r t).messages)
          ((checked r).blocked_calls ++ (checked r).safe_calls)
  unfolding handle_calls
  response-Replied r t =
      append-Replied _ _ _ (checked r).blocked_calls (checked r).safe_calls
        (withheld-Replied w (t.messages ++ assistant_message r ∷ []) (checked r).blocked_calls)
        (calls-Replied (λ c. c) (λ c. refl) (checked r).safe_calls (received w r t))

checked-Perm :
    (r : LlmResponse) → Perm ((checked r).blocked_calls ++ (checked r).safe_calls) r.tool_calls
checked-Perm r =
    let h = check-withholds r.is_length r.tool_calls in
    subst (λ xs. Perm (xs ++ (checked r).safe_calls) r.tool_calls) (sym h.1)
      (subst
        (λ ys. Perm (keep (λ c. r.is_length && is_large c.name) r.tool_calls ++ ys) r.tool_calls)
        (sym h.0) (split-Perm (λ c. r.is_length && is_large c.name) r.tool_calls))

asked-ids :
    (cs : List ToolCall)
    → map (λ c. some c.id) cs ≡ map (λ (c : Text × Text). some c.0) (map call_link cs)
asked-ids [] = refl
asked-ids (c ∷ cs) = ap (λ l. some c.id ∷ l) (asked-ids cs)

pub handle-Answered :
    (o : LeanEngineOptions) (w : World)
    → KeepsIds w
    → (r : LlmResponse) (t : Turned) → Answered (map link t.messages)
    → Answered (map link (handle_calls o w r t).messages)
handle-Answered o w ids r t h =
    subst Answered
      (sym (
        p.added ∙ ap (λ l. l ++ p.results) (map-append link t.messages (assistant_message r ∷ []))))
      (exchange h (link (assistant_message r)) refl p.results p.all_results (
        subst (λ xs. Perm xs (asked_by (link (assistant_message r)))) (sym p.replies)
          (subst
            (λ ys.
              Perm (map (λ c. some c.id) ((checked r).blocked_calls ++ (checked r).safe_calls)) ys)
            (asked-ids r.tool_calls) (Perm.map (λ c. some c.id) (checked-Perm r)))))
  where
    p :
        Replied
          (map link (t.messages ++ assistant_message r ∷ []))
          (map link (handle_calls o w r t).messages)
          ((checked r).blocked_calls ++ (checked r).safe_calls)
    p = response-Replied o w ids r t

-- A message that neither calls tools nor answers a call.
pub message-Answered :
    (messages : List LlmMessage) (m : LlmMessage)
    → m.tool_calls ≡ []
    → m.tool_call_id ≡ none
    → Answered (map link messages)
    → Answered (map link (messages ++ m ∷ []))
message-Answered messages m no_calls no_id h =
    subst Answered (sym (map-append link messages (m ∷ [])))
      (plain h (link m) (ap (map call_link) no_calls) no_id)

pub nudge-Answered :
    (o : LeanEngineOptions) (i : ℕ) (t : Turned)
    → Answered (map link t.messages)
    → Answered (map link (nudge o i t).messages)
unfolding nudge
nudge-Answered o i t h =
    if-both {A = Turned} (λ u. Answered (map link u.messages)) (needs_nudge o i t.engine)
      {x = nudged i t} {y = t}
      (λ _.
        message-Answered t.messages
          (message (codes "user") (nudge_text (rolling_health t.engine.health 5))) refl refl h)
      (λ _. h)
