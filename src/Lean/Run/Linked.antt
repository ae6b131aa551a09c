-- ===== src/Lean/Run/Linked.antt =====
-- The messages of a run (src/core/engine/LeanEngine.ts): every call has its answer at every turn.
use xcoder.Prelude.{
  ℕ, zero, suc, ◌+◌, ◌≡◌, refl, ltb, true, Option, none, some, List, [], ◌∷◌, map, length, ◌==◌,
  ◌++◌, arith, if-both,
}
use xcoder.Prelude.Text.{Text, codes, trim}
use xcoder.Health.Messages.{ToolCall}
use xcoder.Health.Compaction.Linked.{link}
use xcoder.Sdlc.Gate.{ValidationResult}
use xcoder.Lean.Engine.{
  World, Engine, EngineState, idle, planning, running, validating, cancelled, completed, llm_error,
  LeanEngineOptions, LlmResponse, Completion, responded, call_failed, max_iterations_of, transition,
}
use xcoder.Lean.Calls.{message, assistant_message, handle_calls}
use xcoder.Lean.Calls.Answered.{
  Answered, nothing, plain, KeepsIds, handle-Answered, message-Answered, nudge-Answered,
}
use xcoder.Lean.Run.{
  Loop, Turn, again, ends, throws, reject, rejection_text, by_verdict, may_reject, at_judge,
  verdict_on, counting, kept, after_wait, claim, turned, by_response, by_completion, by_summary,
  at_limit, next_iteration, begin_iteration, turn, Ran, returned, threw, unfinished,
  completed_unless_cancelled, close, loop, start, run,
}

abbrev LoopAnswered : Loop → Type 0
LoopAnswered l = Answered (map link l.messages)

abbrev TurnAnswered : Turn → Type 0
TurnAnswered (again l) = LoopAnswered l
TurnAnswered (ends f l) = LoopAnswered l
TurnAnswered (throws l) = Unit

abbrev pub RunAnswered : Ran → Type 0
RunAnswered (returned f e) = Answered (map link e.last_messages)
RunAnswered (threw e) = Unit
RunAnswered unfinished = Unit

no_calls : (cs : List ToolCall) → (length cs == 0) ≡ true → cs ≡ []
no_calls [] h = refl
no_calls (c ∷ cs) h = ground (arith, h)

module _ (o : LeanEngineOptions) (w : World) (ids : KeepsIds w) (task : Text) where
  verdict-Answered :
      (r : LlmResponse) (l : Loop) (v : Option ValidationResult)
      → r.tool_calls ≡ []
      → LoopAnswered l
      → TurnAnswered (by_verdict r l v)
  unfolding reject
  verdict-Answered r l none e h = tt
  verdict-Answered r l (some v) e h =
      if-both TurnAnswered v.valid (λ _. h)
        (λ _.
          message-Answered (l.messages ++ assistant_message r ∷ [])
            (message (codes "user") (rejection_text v.reason)) refl refl
            (message-Answered l.messages (assistant_message r) e refl h))

  claim-Answered :
      (r : LlmResponse) (l : Loop)
      → r.tool_calls ≡ []
      → LoopAnswered l
      → TurnAnswered (claim o w task r l)
  unfolding claim
  claim-Answered r l e h =
      if-both TurnAnswered (may_reject o l)
        (λ _. verdict-Answered r (at_judge o w task l) (verdict_on w r l) e h) (λ _. h)

  response-Answered :
      (r : LlmResponse) (l : Loop) → LoopAnswered l → TurnAnswered (by_response o w task r l)
  response-Answered r l h =
      if-both TurnAnswered (length r.tool_calls == 0)
        (λ e. claim-Answered r l (no_calls r.tool_calls e) h)
        (λ _.
          nudge-Answered o l.iteration (handle_calls o w r (turned l))
            (handle-Answered o w ids r (turned l) h))

  completion-Answered :
      (c : Completion) (l : Loop) → LoopAnswered l → TurnAnswered (by_completion o w task c l)
  completion-Answered (call_failed m) l h = tt
  completion-Answered (responded r) l h = response-Answered r (counting r.usage l) h

  summary-Answered : (c : Completion) (l : Loop) → LoopAnswered l → TurnAnswered (by_summary c l)
  summary-Answered (call_failed m) l h = h
  summary-Answered (responded r) l h =
      if-both TurnAnswered (ltb 10 (length (trim r.content))) (λ _. h) (λ _. h)

  turn-Answered : (l : Loop) → LoopAnswered l → TurnAnswered (turn o w task l)
  unfolding turn next_iteration begin_iteration at_limit
  turn-Answered l h =
      if-both TurnAnswered l.engine.is_cancelled (λ _. h)
        (λ _.
          if-both TurnAnswered (ltb (max_iterations_of o) (l.iteration + 1))
            (λ _.
              summary-Answered (w.summarize (next_iteration o task l).engine.awaited l.messages)
                (after_wait w
                  (record (next_iteration o task l) { engine = kept w (next_iteration o task l) }))
                h)
            (λ _.
              completion-Answered (w.complete (next_iteration o task l).engine.awaited l.messages)
                (after_wait w (next_iteration o task l)) h))

  after_turn-Answered :
      (fuel : ℕ)
      → ((l : Loop) → LoopAnswered l → RunAnswered (loop fuel o w task l))
      → (t : Turn) → TurnAnswered t
      → RunAnswered (elim t as (λ x. Ran) [
        | again l ↦ loop fuel o w task l
        | ends f l ↦ returned f (close task l)
        | throws l ↦ threw l.engine
      ])
  unfolding close transition
  after_turn-Answered fuel rest (again l) h = rest l h
  after_turn-Answered fuel rest (ends f l) h = closed l.engine.state
    where
      closed :
          (s : EngineState)
          → Answered (
              map link
                (completed_unless_cancelled task
                  (record l.engine { last_messages = l.messages })
                  s).last_messages)
      closed idle = h
      closed (planning t) = h
      closed (running t i m) = h
      closed (validating t i m) = h
      closed (cancelled t reason) = h
      closed (completed t oc) = h
      closed (llm_error t m) = h
  after_turn-Answered fuel rest (throws l) h = tt

  loop-Answered : (fuel : ℕ) (l : Loop) → LoopAnswered l → RunAnswered (loop fuel o w task l)
  unfolding loop
  loop-Answered zero l h = tt
  loop-Answered (suc fuel) l h =
      after_turn-Answered fuel (loop-Answered fuel) (turn o w task l) (turn-Answered l h)

-- If the tools answer under the ids of their calls, the messages of a run that returns hold a result for
-- each call right after the message that makes it, whatever was withheld, compacted or rejected.
pub run-Answered :
    (o : LeanEngineOptions) (w : World)
    → KeepsIds w
    → (task : Text) (e : Engine) → RunAnswered (run o w task e)
unfolding run start
run-Answered o w ids task e =
    loop-Answered o w ids task (max_iterations_of o + 2) (start o w task e) (
      message-Answered (message (codes "system") w.system_prompt ∷ []) (message (codes "user") task)
        refl refl (plain nothing (link (message (codes "system") w.system_prompt)) refl refl))
