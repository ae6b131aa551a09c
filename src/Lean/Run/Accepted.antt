-- ===== src/Lean/Run/Accepted.antt =====
-- Which answers a run of the lean engine gives as the model's (src/core/engine/LeanEngine.ts).
use xcoder.Prelude.{
  ℕ, zero, suc, ◌+◌, ◌≤◌, ◌≡◌, refl, subst, ltb, true, false, Option, none, some, List, length,
  ◌==◌, arith, if-both, Bool-cases, inl, inr,
}
use xcoder.Prelude.Text.{Text, trim}
use xcoder.Health.Messages.{LlmMessage}
use xcoder.Sdlc.Gate.{ValidationResult, validate_goal}
use xcoder.Lean.Engine.{
  World, Engine, LeanEngineOptions, LlmResponse, Completion, responded, call_failed, validating,
  max_iterations_of, max_retries_of, validates, transition,
}
use xcoder.Lean.Calls.{handle_calls}
use xcoder.Lean.Calls.Counters.{awaiting-awaited, usage-awaited, handle-awaited, nudge-awaited}
use xcoder.Lean.Run.{
  Final, answered, summarized, was_cancelled, reconstructed, Loop, Turn, again, ends, throws,
  reject, by_verdict, may_reject, at_judge, verdict_on, counting, kept, after_wait, claim, turned,
  by_response, by_completion, by_summary, at_limit, next_iteration, begin_iteration, turn, Ran,
  returned, threw, unfinished, close, loop, start, run,
}

-- The judge refused `k` claims, at different calls before `bound`.
pub data Refusals (w : World) : ℕ → ℕ → Type 0 where
  none_yet : {bound : ℕ} → Refusals w 0 bound
  refused :
      {k bound : ℕ}
      → Refusals w k bound
      → (n : ℕ) (messages : List LlmMessage) (content : Text) (v : ValidationResult) → bound ≤ n
      → validate_goal (w.judge n messages content) ≡ some v
      → v.valid ≡ false
      → Refusals w (k + 1) (n + 1)

pub data Checked (o : LeanEngineOptions) (w : World) (answer : Text) : Type 0 where
  unchecked : validates o ≡ false → Checked o w answer
  approved :
      (n : ℕ) (messages : List LlmMessage) (v : ValidationResult)
      → validate_goal (w.judge n messages answer) ≡ some v
      → v.valid ≡ true
      → Checked o w answer
  exhausted : (k bound : ℕ) → max_retries_of o ≤ k → Refusals w k bound → Checked o w answer

-- The model gave this answer in a response without tool calls, and it was checked.
pub record Claimed (o : LeanEngineOptions) (w : World) (answer : Text) : Type 0 where
  pub number : ℕ
  pub messages : List LlmMessage
  pub response : LlmResponse
  pub made : w.complete number messages ≡ responded response
  pub no_tools : (length response.tool_calls == 0) ≡ true
  pub says : response.content ≡ answer
  pub verdict : Checked o w answer

-- The rejections so far were all the judge's.
record Honest (w : World) (l : Loop) : Type 0 where
  bound : ℕ
  refusals : Refusals w l.rejections bound
  earlier : bound ≤ l.engine.awaited

abbrev EndClaimed : LeanEngineOptions → World → Final → Type 0
EndClaimed o w (answered t) = Claimed o w t
EndClaimed o w (summarized t) = Unit
EndClaimed o w was_cancelled = Unit
EndClaimed o w reconstructed = Unit

abbrev TurnClaimed : LeanEngineOptions → World → Turn → Type 0
TurnClaimed o w (again l) = Honest w l
TurnClaimed o w (ends f l) = EndClaimed o w f
TurnClaimed o w (throws l) = Unit

abbrev pub RunClaimed : LeanEngineOptions → World → Ran → Type 0
RunClaimed o w (returned f e) = EndClaimed o w f
RunClaimed o w (threw e) = Unit
RunClaimed o w unfinished = Unit

module _ (o : LeanEngineOptions) (w : World) (task : Text) where
  record Asked (r : LlmResponse) : Type 0 where
    number : ℕ
    messages : List LlmMessage
    made : w.complete number messages ≡ responded r

  claimed :
      (r : LlmResponse)
      → Asked r
      → (length r.tool_calls == 0) ≡ true
      → Checked o w r.content
      → Claimed o w r.content
  claimed r a e v = record {
    number = a.number;
    messages = a.messages;
    response = r;
    made = a.made;
    no_tools = e;
    says = refl;
    verdict = v;
  }

  verdict-Claimed :
      (r : LlmResponse) (l : Loop) (v : Option ValidationResult)
      → Asked r
      → (length r.tool_calls == 0) ≡ true
      → Honest w l
      → verdict_on w r l ≡ v
      → TurnClaimed o w (by_verdict r (at_judge o w task l) v)
  unfolding reject transition
  verdict-Claimed r l none a e h j = tt
  verdict-Claimed r l (some v) a e h j =
      if-both (TurnClaimed o w) v.valid
        (λ valid. claimed r a e (approved l.engine.awaited l.messages v j valid))
        (λ invalid. record {
          bound = l.engine.awaited + 1;
          refusals = refused h.refusals l.engine.awaited l.messages r.content v h.earlier j invalid;
          earlier = omega (
            arith,
            usage-awaited v.usage (at_judge o w task l).engine,
            awaiting-awaited w
                (transition (validating task (l.rejections + 1) (max_retries_of o)) l.engine),
          );
        })

  unasked :
      (r : LlmResponse) (l : Loop) → Honest w l → may_reject o l ≡ false → Checked o w r.content
  unasked r l h e = elim (Bool-cases (validates o)) [
    | inr off ↦ unchecked off
    | inl on ↦ exhausted l.rejections h.bound (ground (arith, on, e)) h.refusals
  ]

  claim-Claimed :
      (r : LlmResponse) (l : Loop)
      → Asked r
      → (length r.tool_calls == 0) ≡ true
      → Honest w l
      → TurnClaimed o w (claim o w task r l)
  unfolding claim
  claim-Claimed r l a e h =
      if-both (TurnClaimed o w) (may_reject o l)
        (λ _. verdict-Claimed r l (verdict_on w r l) a e h refl)
        (λ final. claimed r a e (unasked r l h final))

  response-Claimed :
      (r : LlmResponse) (l : Loop)
      → Asked r
      → Honest w l
      → TurnClaimed o w (by_response o w task r l)
  response-Claimed r l a h =
      if-both (TurnClaimed o w) (length r.tool_calls == 0) (λ e. claim-Claimed r l a e h)
        (λ _. record {
          bound = h.bound;
          refusals = h.refusals;
          earlier = omega (
            arith,
            h.earlier,
            handle-awaited o w r (turned l),
            nudge-awaited o l.iteration (handle_calls o w r (turned l)),
          );
        })

  completion-Claimed :
      (n : ℕ) (messages : List LlmMessage) (c : Completion) (l : Loop)
      → w.complete n messages ≡ c
      → Honest w l
      → TurnClaimed o w (by_completion o w task c l)
  completion-Claimed n messages (call_failed m) l e h = tt
  completion-Claimed n messages (responded r) l e h =
      response-Claimed r (counting r.usage l) (record { number = n; messages = messages; made = e })
        (record {
          bound = h.bound;
          refusals = h.refusals;
          earlier = omega (arith, h.earlier, usage-awaited r.usage l.engine);
        })

  summary-Claimed : (c : Completion) (l : Loop) → TurnClaimed o w (by_summary c l)
  summary-Claimed (call_failed m) l = tt
  summary-Claimed (responded r) l =
      if-both (TurnClaimed o w) (ltb 10 (length (trim r.content))) (λ _. tt) (λ _. tt)

  turn-Claimed : (l : Loop) → Honest w l → TurnClaimed o w (turn o w task l)
  unfolding turn next_iteration begin_iteration at_limit transition
  turn-Claimed l h =
      if-both (TurnClaimed o w) l.engine.is_cancelled (λ _. tt)
        (λ _.
          if-both (TurnClaimed o w) (ltb (max_iterations_of o) (l.iteration + 1))
            (λ _. summary-Claimed (w.summarize l.engine.awaited l.messages) (
              after_wait w
                (record (next_iteration o task l) { engine = kept w (next_iteration o task l) })))
            (λ _.
              completion-Claimed l.engine.awaited l.messages
                (w.complete l.engine.awaited l.messages) (after_wait w (next_iteration o task l))
                refl
                (record {
                  bound = h.bound;
                  refusals = h.refusals;
                  earlier =
                      omega (arith, h.earlier, awaiting-awaited w (next_iteration o task l).engine);
                })))

  after_turn-Claimed :
      (fuel : ℕ)
      → ((l : Loop) → Honest w l → RunClaimed o w (loop fuel o w task l))
      → (t : Turn) → TurnClaimed o w t
      → RunClaimed o w (elim t as (λ x. Ran) [
        | again l ↦ loop fuel o w task l
        | ends f l ↦ returned f (close task l)
        | throws l ↦ threw l.engine
      ])
  after_turn-Claimed fuel rest (again l) h = rest l h
  after_turn-Claimed fuel rest (ends f l) h = h
  after_turn-Claimed fuel rest (throws l) h = tt

  loop-Claimed : (fuel : ℕ) (l : Loop) → Honest w l → RunClaimed o w (loop fuel o w task l)
  unfolding loop
  loop-Claimed zero l h = tt
  loop-Claimed (suc fuel) l h =
      after_turn-Claimed fuel (loop-Claimed fuel) (turn o w task l) (turn-Claimed l h)

-- An answer that a run returns as the model's was given in a response without tool calls and, unless the
-- validation is off, was approved by the judge or came after the judge had refused as many claims as may
-- be retried.
pub run-Claimed :
    (o : LeanEngineOptions) (w : World) (task answer : Text) (e e' : Engine)
    → run o w task e ≡ returned (answered answer) e'
    → Claimed o w answer
unfolding run start
run-Claimed o w task answer e e' h = subst (RunClaimed o w) h (
    loop-Claimed o w task (max_iterations_of o + 2) (start o w task e)
      (record { bound = 0; refusals = none_yet; earlier = omega arith }))
