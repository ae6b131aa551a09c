-- ===== src/Lean/Run/Ends.antt =====
-- The loop of the lean engine ends (src/core/engine/LeanEngine.ts).
use xcoder.Prelude.{
  ℕ, zero, suc, ◌+◌, ◌≤◌, ◌≡◌, refl, sym, ◌∙◌, subst, ltb, Option, none, some, length, ◌==◌, arith,
  if-both,
}
use xcoder.Prelude.Text.{Text, trim}
use xcoder.Sdlc.Gate.{ValidationResult}
use xcoder.Lean.Engine.{
  World, Engine, EngineState, LeanEngineOptions, LlmResponse, Completion, responded, call_failed,
  idle, planning, running, validating, cancelled, completed, llm_error, max_iterations_of,
  max_retries_of, transition,
}
use xcoder.Lean.Calls.{handle_calls}
use xcoder.Lean.Calls.Counters.{awaiting-count, usage-count, handle-count, nudge-count}
use xcoder.Lean.Run.{
  Loop, Turn, may_reject, at_judge, verdict_on, counting, kept, after_wait, again, ends, throws,
  reject, by_verdict, claim, turned, by_response, by_completion, by_summary, at_limit,
  next_iteration, begin_iteration, turn, Ran, returned, threw, completed_unless_cancelled, close,
  loop, start, run,
}

-- How a run ends: it returns or throws, after at most one iteration more than the limit.
pub data Ends (most : ℕ) : Ran → Type 0 where
  returns : {f : _} (e : Engine) → e.iteration_count ≤ most + 1 → Ends most (returned f e)
  fails : (e : Engine) → e.iteration_count ≤ most + 1 → Ends most (threw e)

-- The count agrees with the number of the iteration, which is within the limit.
record Counted (most n : ℕ) (l : Loop) : Type 0 where
  number : l.iteration ≡ n
  count : l.engine.iteration_count ≡ n
  within : n ≤ most

-- A turn that goes on has made iteration `n`, within the limit.
abbrev Bounded : ℕ → ℕ → Turn → Type 0
Bounded most n (again l) = Counted most n l
Bounded most n (ends f l) = l.engine.iteration_count ≤ most + 1
Bounded most n (throws l) = l.engine.iteration_count ≤ most + 1

module _ (o : LeanEngineOptions) (w : World) (task : Text) (n : ℕ) where
  abbrev most : ℕ
  most = max_iterations_of o

  verdict-Bounded :
      (r : LlmResponse) (l : Loop) (v : Option ValidationResult)
      → Counted most n l
      → Bounded most n (by_verdict r l v)
  unfolding reject
  verdict-Bounded r l none h = omega (arith, h.count, h.within)
  verdict-Bounded r l (some v) h =
      if-both (Bounded most n) v.valid
        (λ _. omega (arith, usage-count v.usage l.engine, h.count, h.within))
        (λ _. record {
          number = h.number;
          count = usage-count v.usage l.engine ∙ h.count;
          within = h.within;
        })

  claim-Bounded :
      (r : LlmResponse) (l : Loop) → Counted most n l → Bounded most n (claim o w task r l)
  unfolding claim transition
  claim-Bounded r l h =
      if-both (Bounded most n) (may_reject o l)
        (λ _. verdict-Bounded r (at_judge o w task l) (verdict_on w r l) (record {
          number = h.number;
          count =
              awaiting-count w
                (transition (validating task (l.rejections + 1) (max_retries_of o)) l.engine)
              ∙ h.count;
          within = h.within;
        }))
        (λ _. omega (arith, h.count, h.within))

  response-Bounded :
      (r : LlmResponse) (l : Loop) → Counted most n l → Bounded most n (by_response o w task r l)
  response-Bounded r l h =
      if-both (Bounded most n) (length r.tool_calls == 0) (λ _. claim-Bounded r l h)
        (λ _. record {
          number = h.number;
          count =
              nudge-count o l.iteration (handle_calls o w r (turned l))
              ∙ handle-count o w r (turned l)
              ∙ h.count;
          within = h.within;
        })

  completion-Bounded :
      (c : Completion) (l : Loop) → Counted most n l → Bounded most n (by_completion o w task c l)
  unfolding transition
  completion-Bounded (call_failed m) l h = omega (arith, h.count, h.within)
  completion-Bounded (responded r) l h = response-Bounded r (counting r.usage l) (record {
    number = h.number;
    count = usage-count r.usage l.engine ∙ h.count;
    within = h.within;
  })

  summary-Bounded :
      (c : Completion) (l : Loop)
      → l.engine.iteration_count ≤ most + 1
      → Bounded most n (by_summary c l)
  summary-Bounded (call_failed m) l h = h
  summary-Bounded (responded r) l h =
      if-both (Bounded most n) (ltb 10 (length (trim r.content)))
        (λ _. subst (λ k. k ≤ most + 1) (sym (usage-count r.usage l.engine)) h)
        (λ _. subst (λ k. k ≤ most + 1) (sym (usage-count r.usage l.engine)) h)

  limit-Bounded : (l : Loop) → l.engine.iteration_count ≤ most + 1 → Bounded most n (at_limit w l)
  unfolding at_limit
  limit-Bounded l h =
      summary-Bounded (w.summarize l.engine.awaited l.messages)
        (after_wait w (record l { engine = kept w l }))
        (subst (λ k. k ≤ most + 1) (sym (awaiting-count w (kept w l))) h)

turn-Bounded :
    (o : LeanEngineOptions) (w : World) (task : Text) (n : ℕ) (l : Loop)
    → Counted (max_iterations_of o) n l
    → Bounded (max_iterations_of o) (n + 1) (turn o w task l)
unfolding turn next_iteration begin_iteration transition
turn-Bounded o w task n l h =
    if-both (Bounded (max_iterations_of o) (n + 1)) l.engine.is_cancelled
      (λ _. omega (arith, h.count, h.within))
      (λ _.
        if-both (Bounded (max_iterations_of o) (n + 1))
          (ltb (max_iterations_of o) (l.iteration + 1))
          (λ _.
            limit-Bounded o w task (n + 1) (next_iteration o task l)
              (omega (arith, h.count, h.within)))
          (λ inside.
            completion-Bounded o w task (n + 1)
              (w.complete (next_iteration o task l).engine.awaited
                (next_iteration o task l).messages)
              (after_wait w (next_iteration o task l))
              (record {
                number = omega (arith, h.number);
                count = awaiting-count w (next_iteration o task l).engine ∙ omega (arith, h.count);
                within = ground (arith, inside, h.number);
              })))

close-count : (task : Text) (l : Loop) → (close task l).iteration_count ≡ l.engine.iteration_count
unfolding close transition
close-count task l = go l.engine.state
  where
    go :
        (s : EngineState)
        → (completed_unless_cancelled task
            (record l.engine { last_messages = l.messages })
            s).iteration_count
          ≡ l.engine.iteration_count
    go idle = refl
    go (planning t) = refl
    go (running t i m) = refl
    go (validating t i m) = refl
    go (cancelled t reason) = refl
    go (completed t oc) = refl
    go (llm_error t m) = refl

-- From a turn to the rest of the loop.
after_turn-Ends :
    (fuel : ℕ) (o : LeanEngineOptions) (w : World) (task : Text) (n : ℕ)
    → ((l : Loop)
        → Counted (max_iterations_of o) n l
        → Ends (max_iterations_of o) (loop fuel o w task l))
    → (t : Turn) → Bounded (max_iterations_of o) n t
    → Ends (max_iterations_of o) (elim t as (λ x. Ran) [
      | again l ↦ loop fuel o w task l
      | ends f l ↦ returned f (close task l)
      | throws l ↦ threw l.engine
    ])
after_turn-Ends fuel o w task n rest (again l) b = rest l b
after_turn-Ends fuel o w task n rest (ends f l) b =
    returns (close task l) (omega (arith, close-count task l, b))
after_turn-Ends fuel o w task n rest (throws l) b = fails l.engine b

loop-Ends :
    (fuel : ℕ) (o : LeanEngineOptions) (w : World) (task : Text) (n : ℕ) (l : Loop)
    → Counted (max_iterations_of o) n l
    → max_iterations_of o + 2 ≤ n + fuel
    → Ends (max_iterations_of o) (loop fuel o w task l)
unfolding loop
loop-Ends zero o w task n l c h = absurd (omega (arith, c.within, h))
loop-Ends (suc fuel) o w task n l c h =
    after_turn-Ends fuel o w task (n + 1)
      (λ l' c'. loop-Ends fuel o w task (n + 1) l' c' (omega (arith, h))) (turn o w task l)
      (turn-Bounded o w task n l c)

-- Every run returns or throws, whatever the models, the tools and the caller do, after at most one iteration
-- more than its limit.
pub run-Ends :
    (o : LeanEngineOptions) (w : World) (task : Text) (e : Engine)
    → Ends (max_iterations_of o) (run o w task e)
unfolding run start transition
run-Ends o w task e =
    loop-Ends (max_iterations_of o + 2) o w task 0 (start o w task e)
      (record { number = refl; count = refl; within = omega arith }) (omega arith)
