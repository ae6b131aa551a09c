-- ===== src/Lean/Run.antt =====
-- `run` of src/core/engine/LeanEngine.ts: one turn of its loop, the loop on fuel (Lean/Run/Ends shows that it
-- is enough), and what comes after. The fall-back report is `reconstructed`.
pub mod Ends
pub mod Linked
pub mod Accepted
use xcoder.Prelude.{
  ℕ, zero, suc, ◌+◌, ltb, Bool, true, false, not, ◌&&◌, Option, none, some, List, [], ◌∷◌, ◌++◌,
  length, if◌then◌else◌, ◌==◌,
}
use xcoder.Prelude.Text.{Text, codes, trim}
use xcoder.Health.Messages.{LlmMessage}
use xcoder.Health.Steps.{create_health_state}
use xcoder.Sdlc.World.{Usage}
use xcoder.Sdlc.Gate.{ValidationResult, validate_goal}
use xcoder.Lean.Engine.{
  World, Engine, EngineState, LeanEngineOptions, LlmResponse, Completion, responded, call_failed,
  running, validating, cancelled, completed, llm_error, outcome_completed, partial_success,
  max_iterations_of, max_retries_of, validates, transition, awaiting, count_usage,
}
use xcoder.Lean.Report.{extract_partial_success_context}
use xcoder.Lean.Calls.{Turned, message, assistant_message, handle_calls, nudge}

-- The answer of a run: the model's, that of a cancelled run, a summary by the model, or one put together
-- from the messages.
pub data Final : Type 0 where
  answered summarized : Text → Final
  was_cancelled reconstructed : Final

pub record Loop : Type 0 where
  pub engine : Engine
  pub messages : List LlmMessage
  pub iteration : ℕ
  pub rejections : ℕ

pub data Turn : Type 0 where
  again : Loop → Turn
  ends : Final → Loop → Turn
  throws : Loop → Turn

unfoldable pub rejection_text : Text → Text
rejection_text reason =
    (codes
        "VALIDATION FAILED: An independent reviewer found your claimed completion is not supported by the recorded observations. Reason: \""
      ++ reason)
    ++ (codes "\". Address this "
        ++ 8212
          ∷ codes
              " either take the actions needed to actually satisfy the task, or correct your claim to match what the observations actually show. Then report completion again.")

unfoldable pub reject : LlmResponse → Text → Loop → Loop
unfolding rejection_text
reject r reason l = record l {
  rejections = l.rejections + 1;
  messages =
      (l.messages ++ assistant_message r ∷ [])
      ++ message (codes "user") (rejection_text reason) ∷ [];
}

abbrev pub counting : Option Usage → Loop → Loop
counting u l = record l { engine = count_usage u l.engine }

-- The verdict of the judge; no verdict is an exception, which leaves the run.
abbrev pub by_verdict : LlmResponse → Loop → Option ValidationResult → Turn
by_verdict r l none = throws l
by_verdict r l (some v) =
    if v.valid
    then ends (answered r.content) (counting v.usage l)
    else again (reject r v.reason (counting v.usage l))

abbrev pub may_reject : LeanEngineOptions → Loop → Bool
may_reject o l = validates o && ltb l.rejections (max_retries_of o)

abbrev pub at_judge : LeanEngineOptions → World → Text → Loop → Loop
at_judge o w task l = record l {
  engine = awaiting w (transition (validating task (l.rejections + 1) (max_retries_of o)) l.engine);
}

abbrev pub verdict_on : World → LlmResponse → Loop → Option ValidationResult
verdict_on w r l = validate_goal (w.judge l.engine.awaited l.messages r.content)

-- A response without tool calls claims that the task is done.
unfoldable pub claim : LeanEngineOptions → World → Text → LlmResponse → Loop → Turn
unfolding transition awaiting validate_goal count_usage reject
claim o w task r l =
    if may_reject o l
    then by_verdict r (at_judge o w task l) (verdict_on w r l)
    else ends (answered r.content) l

abbrev pub with_turned : Loop → Turned → Loop
with_turned l t = record l { engine = t.engine; messages = t.messages }

abbrev pub turned : Loop → Turned
turned l = record { engine = l.engine; messages = l.messages }

abbrev pub by_response : LeanEngineOptions → World → Text → LlmResponse → Loop → Turn
by_response o w task r l =
    if length r.tool_calls == 0
    then claim o w task r l
    else again (with_turned l (nudge o l.iteration (handle_calls o w r (turned l))))

abbrev pub by_completion : LeanEngineOptions → World → Text → Completion → Loop → Turn
by_completion o w task (call_failed message) l =
    throws (record l { engine = transition (llm_error task message) l.engine })
by_completion o w task (responded r) l = by_response o w task r (counting r.usage l)

abbrev pub by_summary : Completion → Loop → Turn
by_summary (call_failed message) l = ends reconstructed l
by_summary (responded r) l =
    if ltb 10 (length (trim r.content))
    then ends (summarized (trim r.content)) (counting r.usage l)
    else ends reconstructed (counting r.usage l)

abbrev pub kept : World → Loop → Engine
kept w l = record l.engine {
  last_outcome = partial_success;
  partial = some (extract_partial_success_context w l.messages l.engine.iteration_count 0);
}

abbrev pub after_wait : World → Loop → Loop
after_wait w l = record l { engine = awaiting w l.engine }

-- The limit is passed: the context is kept, and the model is asked for a summary.
unfoldable pub at_limit : World → Loop → Turn
unfolding extract_partial_success_context awaiting count_usage
at_limit w l =
    by_summary (w.summarize l.engine.awaited l.messages)
      (after_wait w (record l { engine = kept w l }))

unfoldable pub next_iteration : LeanEngineOptions → Text → Loop → Loop
unfolding transition
next_iteration o task l = record l {
  iteration = l.iteration + 1;
  engine =
      transition (running task (l.iteration + 1) (max_iterations_of o))
        (record l.engine { iteration_count = l.engine.iteration_count + 1 });
}

unfoldable pub begin_iteration : LeanEngineOptions → World → Text → Loop → Turn
unfolding at_limit awaiting transition count_usage claim handle_calls nudge
begin_iteration o w task l =
    if ltb (max_iterations_of o) l.iteration
    then at_limit w l
    else by_completion o w task (w.complete l.engine.awaited l.messages) (after_wait w l)

unfoldable pub turn : LeanEngineOptions → World → Text → Loop → Turn
unfolding begin_iteration next_iteration
turn o w task l =
    if l.engine.is_cancelled
    then ends was_cancelled
        (record l { engine = record l.engine { last_outcome = partial_success } })
    else begin_iteration o w task (next_iteration o task l)

-- Out of fuel the run is `unfinished`.
pub data Ran : Type 0 where
  returned : Final → Engine → Ran
  threw : Engine → Ran
  unfinished : Ran

abbrev pub completed_unless_cancelled : Text → Engine → EngineState → Engine
completed_unless_cancelled task e (cancelled t reason) = e
completed_unless_cancelled task e _ = transition (completed task e.last_outcome) e

unfoldable pub close : Text → Loop → Engine
unfolding transition
close task l =
    let e = record l.engine { last_messages = l.messages } in
    completed_unless_cancelled task e e.state

-- The cases wait for the turn.
unfoldable pub loop : ℕ → LeanEngineOptions → World → Text → Loop → Ran
unfolding turn close
loop zero o w task l = unfinished
loop (suc fuel) o w task l = elim (turn o w task l) [
  | again l' ↦ loop fuel o w task l'
  | ends f l' ↦ returned f (close task l')
  | throws l' ↦ threw l'.engine
]

unfoldable pub start : LeanEngineOptions → World → Text → Engine → Loop
unfolding transition create_health_state
start o w task e = record {
  engine = transition (running task 0 (max_iterations_of o)) (record e {
    is_cancelled = false;
    last_outcome = outcome_completed;
    iteration_count = 0;
    last_messages = [];
    health = create_health_state;
    last_nudge = none;
    partial = none;
  });
  messages = message (codes "system") w.system_prompt ∷ message (codes "user") task ∷ [];
  iteration = 0;
  rejections = 0;
}

unfoldable pub run : LeanEngineOptions → World → Text → Engine → Ran
unfolding loop start
run o w task e = loop (max_iterations_of o + 2) o w task (start o w task e)
