-- ===== src/Lean/Calls/Counters.antt =====
-- What waiting, usage and tools do to the engine's counters (src/core/engine/LeanEngine.ts).
use xcoder.Prelude.{ℕ, ◌+◌, ◌≤◌, ◌≡◌, refl, ◌∙◌, Option, none, some, List, [], ◌∷◌, arith, if-both}
use xcoder.Prelude.Text.{Text}
use xcoder.Health.Messages.{ToolCall}
use xcoder.Lean.Engine.{
  World, Engine, LeanEngineOptions, LlmResponse, heals, transition, cancel, cancel_all, is_settled,
  awaiting, count_usage,
}
use xcoder.Lean.Calls.{
  Turned, checked, received, after_result, later_call, run_call, run_calls, handle_calls, nudge,
  needs_nudge, nudged,
}

-- Waiting, usage and tools leave the count of iterations alone.
cancel-count :
    (reason : Option Text) (e : Engine) → (cancel reason e).iteration_count ≡ e.iteration_count
unfolding cancel transition
cancel-count reason e =
    if-both {A = Engine} (λ x. x.iteration_count ≡ e.iteration_count) (is_settled e.state)
      (λ _. refl) (λ _. refl)

cancel_all-count :
    (reasons : List (Option Text)) (e : Engine)
    → (cancel_all reasons e).iteration_count ≡ e.iteration_count
unfolding cancel_all
cancel_all-count [] e = refl
cancel_all-count (r ∷ rs) e = cancel_all-count rs (cancel r e) ∙ cancel-count r e

pub awaiting-count : (w : World) (e : Engine) → (awaiting w e).iteration_count ≡ e.iteration_count
unfolding awaiting
awaiting-count w e = cancel_all-count (w.cancels e.awaited) (record e { awaited = e.awaited + 1 })

pub usage-count : (u : _) (e : Engine) → (count_usage u e).iteration_count ≡ e.iteration_count
unfolding count_usage
usage-count none e = refl
usage-count (some u) e = refl

call-count :
    (o : LeanEngineOptions) (w : World) (c : ToolCall) (t : Turned)
    → (run_call o w c t).engine.iteration_count ≡ t.engine.iteration_count
unfolding run_call after_result
call-count o w c t =
    if-both {A = Engine} (λ x. x.iteration_count ≡ t.engine.iteration_count) (heals o)
      (λ _. awaiting-count w t.engine) (λ _. awaiting-count w t.engine)

calls-count :
    (o : LeanEngineOptions) (w : World) (now : ToolCall → ToolCall) (cs : List ToolCall)
    (t : Turned)
    → (run_calls o w now cs t).engine.iteration_count ≡ t.engine.iteration_count
unfolding run_calls
calls-count o w now [] t = refl
calls-count o w now (c ∷ cs) t =
    calls-count o w (λ d. later_call o w (now c) (w.dispatch t.engine.awaited (now c)) (now d)) cs
      (run_call o w (now c) t)
    ∙ call-count o w (now c) t

pub handle-count :
    (o : LeanEngineOptions) (w : World) (r : LlmResponse) (t : Turned)
    → (handle_calls o w r t).engine.iteration_count ≡ t.engine.iteration_count
unfolding handle_calls
handle-count o w r t = calls-count o w (λ c. c) (checked r).safe_calls (received w r t)

pub nudge-count :
    (o : LeanEngineOptions) (i : ℕ) (t : Turned)
    → (nudge o i t).engine.iteration_count ≡ t.engine.iteration_count
unfolding nudge
nudge-count o i t =
    if-both {A = Turned} (λ x. x.engine.iteration_count ≡ t.engine.iteration_count) _ (λ _. refl)
      (λ _. refl)

-- The number of the next call does not fall.
cancel-awaited : (reason : Option Text) (e : Engine) → (cancel reason e).awaited ≡ e.awaited
unfolding cancel transition
cancel-awaited reason e =
    if-both {A = Engine} (λ x. x.awaited ≡ e.awaited) (is_settled e.state) (λ _. refl) (λ _. refl)

cancel_all-awaited :
    (reasons : List (Option Text)) (e : Engine) → (cancel_all reasons e).awaited ≡ e.awaited
unfolding cancel_all
cancel_all-awaited [] e = refl
cancel_all-awaited (r ∷ rs) e = cancel_all-awaited rs (cancel r e) ∙ cancel-awaited r e

pub awaiting-awaited : (w : World) (e : Engine) → (awaiting w e).awaited ≡ e.awaited + 1
unfolding awaiting
awaiting-awaited w e =
    cancel_all-awaited (w.cancels e.awaited) (record e { awaited = e.awaited + 1 })

pub usage-awaited : (u : _) (e : Engine) → (count_usage u e).awaited ≡ e.awaited
unfolding count_usage
usage-awaited none e = refl
usage-awaited (some u) e = refl

call-awaited :
    (o : LeanEngineOptions) (w : World) (c : ToolCall) (t : Turned)
    → (run_call o w c t).engine.awaited ≡ t.engine.awaited + 1
unfolding run_call after_result
call-awaited o w c t =
    if-both {A = Engine} (λ x. x.awaited ≡ t.engine.awaited + 1) (heals o)
      (λ _. awaiting-awaited w t.engine) (λ _. awaiting-awaited w t.engine)

calls-awaited :
    (o : LeanEngineOptions) (w : World) (now : ToolCall → ToolCall) (cs : List ToolCall)
    (t : Turned)
    → t.engine.awaited ≤ (run_calls o w now cs t).engine.awaited
unfolding run_calls
calls-awaited o w now [] t = omega arith
calls-awaited o w now (c ∷ cs) t = omega (
  arith,
  calls-awaited o w (λ d. later_call o w (now c) (w.dispatch t.engine.awaited (now c)) (now d)) cs
      (run_call o w (now c) t),
  call-awaited o w (now c) t,
)

pub handle-awaited :
    (o : LeanEngineOptions) (w : World) (r : LlmResponse) (t : Turned)
    → t.engine.awaited ≤ (handle_calls o w r t).engine.awaited
unfolding handle_calls
handle-awaited o w r t = calls-awaited o w (λ c. c) (checked r).safe_calls (received w r t)

pub nudge-awaited :
    (o : LeanEngineOptions) (i : ℕ) (t : Turned) → (nudge o i t).engine.awaited ≡ t.engine.awaited
unfolding nudge
nudge-awaited o i t =
    if-both {A = Turned} (λ x. x.engine.awaited ≡ t.engine.awaited) (needs_nudge o i t.engine)
      {x = nudged i t} {y = t} (λ _. refl) (λ _. refl)
