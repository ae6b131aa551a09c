-- ===== src/Workflows/Attempts/Bounded.antt =====
-- How often a step is tried (`executeStep` of src/core/workflows/stepExecution.ts).
use xcoder.Prelude.{
  subst, suc, ℕ, zero, suc, ◌+◌, ◌≤◌, ◌≡◌, ◌⊎◌, inl, inr, refl, true, false, none, some, [], ◌∷◌,
  arith, Bool-cases, if-both,
}
use xcoder.Prelude.Text.{Text, codes, same_text, non_empty, trim}
use xcoder.Lean.Engine.{Completion, responded, call_failed}
use xcoder.Lean.Calls.{message}
use xcoder.Workflows.Steps.{
  Action, shell, llm_call, file, url, theme, ProcedureStep, StepReport, RawActionResult, Parse,
  parsed, unparsable, World, Context, Did, did, raised,
}
use xcoder.Workflows.Actions.{
  or_text, is_null, string_or, member, escapes, by_path, by_spec, by_answer, dispatch, file_op,
  run_file_action, run_llm_call, run_theme, theme_of, run_step_action,
}
use xcoder.Workflows.Attempts.{
  max_attempts, success, next_command, attempts, nothing_yet, execute_step,
}

-- An action makes at most one call; only a file action raises.
abbrev pub Asks : Action → Context → Did RawActionResult → Type 0
Asks a c (did r c') = c'.asked ≤ c.asked + 1
Asks a c (raised m c') = a ≡ file

module _ (w : World) where
  answer-Asks :
      (a : Action) (said : Text → Text) (r : Completion) (c : Context)
      → Asks a c (by_answer said r c)
  answer-Asks a said (call_failed m) c = omega arith
  answer-Asks a said (responded r) c = omega arith

  file_op-Asks :
      (op path content resolved : Text) (c : Context)
      → Asks file c (file_op w op path content resolved c)
  unfolding file_op dispatch
  file_op-Asks op path content resolved c =
      if-both (Asks file c) (same_text op (codes "write")) (λ _. omega arith)
        (λ _.
          if-both (Asks file c) (same_text op (codes "read")) (λ _. omega arith)
            (λ _.
              if-both (Asks file c) (same_text op (codes "append")) (λ _. omega arith)
                (λ _.
                  if-both (Asks file c) (same_text op (codes "delete")) (λ _. omega arith)
                    (λ _.
                      if-both (Asks file c) (same_text op (codes "list")) (λ _. omega arith)
                        (λ _.
                          if-both (Asks file c) (same_text op (codes "mkdir")) (λ _. omega arith)
                            (λ _. omega arith))))))

  path-Asks : (op path content : Text) (c : Context) → Asks file c (by_path w op path content c)
  path-Asks op path content c =
      let resolved = w.resolve (w.workspace_root ∷ path ∷ []) in
      if-both (Asks file c) (escapes w resolved) (λ _. omega arith)
        (λ _. file_op-Asks op path content resolved c)

  spec-Asks : (p : Parse) (c : Context) → Asks file c (by_spec w p c)
  spec-Asks (unparsable m) c = omega arith
  spec-Asks (parsed spec) c =
      if-both (Asks file c) (is_null spec) (λ _. refl)
        (λ _.
          path-Asks (string_or [] (member (codes "op") spec))
            (string_or (codes ".") (member (codes "path") spec))
            (string_or [] (member (codes "content") spec)) c)

  action-Asks :
      (a : Action) (command : Text) (c : Context) → Asks a c (run_step_action w a command c)
  unfolding run_step_action dispatch run_file_action run_llm_call run_theme
  action-Asks shell command c = omega arith
  action-Asks url command c = omega arith
  action-Asks file command c = spec-Asks (w.parse (or_text command (codes "{}"))) c
  action-Asks llm_call command c =
      if-both (Asks llm_call c) (non_empty (trim command))
        (λ _.
          answer-Asks llm_call (λ content. content)
            (w.complete c.asked (message (codes "user") command ∷ [])) c)
        (λ _. omega arith)
  action-Asks theme command c = answer-Asks theme (theme_of w) _ c

-- As many attempts as this number were made, from this one on: each result but the last is a failure, and what
-- follows it uses the corrected command. The last two contexts and results are those before and after.
pub data Attempted (w : World) (step : ProcedureStep)
    : ℕ → ℕ → Text → RawActionResult → Context → RawActionResult → Context → Type 0 where
  none_made :
      (attempt : ℕ) (command : Text) (r : RawActionResult) (c : Context)
      → Attempted w step 0 attempt command r c r c
  one_made :
      {n attempt : ℕ} {command : Text} {last r r' : RawActionResult} {c c' c'' : Context}
      → run_step_action w step.action command c ≡ did r c'
      → (n ≡ 0) ⊎ (r.ok ≡ false)
      → Attempted w step n (attempt + 1) (next_command step attempt command r) r c' r' c''
      → Attempted w step (suc n) attempt command last c r' c''

-- The report of a step that started with this context and ended with that one.
pub record Tried (w : World) (step : ProcedureStep) (c : Context) (r : StepReport) (c' : Context)
    : Type 0 where
  pub same_id : r.step_id ≡ step.step_id
  pub at_least : 1 ≤ r.attempts
  pub at_most : r.attempts ≤ max_attempts step
  pub made :
      (last : RawActionResult) × Attempted w step r.attempts 1 step.command nothing_yet c last c'
      × (last.ok ≡ r.ok)
      × (last.output ≡ r.output)
  pub calls : c'.asked ≤ c.asked + r.attempts
  pub verdict :
      ((r.ok ≡ true) × (r.error ≡ none))
      ⊎ ((r.ok ≡ false) × (r.attempts ≡ max_attempts step) × ((e : Text) × (r.error ≡ some e)))

-- A step reports, or it is a file step and raises.
abbrev pub Reports : World → ProcedureStep → Context → Did StepReport → Type 0
Reports w step c (did r c') = Tried w step c r c'
Reports w step c (raised m c') = step.action ≡ file

-- What is reported if the attempts go on from here.
record Rest (w : World) (step : ProcedureStep) (attempt : ℕ) (command : Text)
    (last : RawActionResult) (c : Context) (r : StepReport) (c' : Context) : Type 0 where
  same_id : r.step_id ≡ step.step_id
  more : ℕ
  least : (1 ≤ more) ⊎ (r.ok ≡ false)
  summed : r.attempts + 1 ≡ attempt + more
  at_most : r.attempts ≤ max_attempts step
  final : RawActionResult
  made : Attempted w step more attempt command last c final c'
  same_ok : final.ok ≡ r.ok
  same_output : final.output ≡ r.output
  calls : c'.asked ≤ c.asked + more
  verdict :
      ((r.ok ≡ true) × (r.error ≡ none))
      ⊎ ((r.ok ≡ false) × (r.attempts ≡ max_attempts step) × ((e : Text) × (r.error ≡ some e)))

abbrev Rests :
    World → ProcedureStep → ℕ → Text → RawActionResult → Context → Did StepReport → Type 0
Rests w step attempt command last c (did r c') = Rest w step attempt command last c r c'
Rests w step attempt command last c (raised m c') = step.action ≡ file

module _ (w : World) (step : ProcedureStep) where
  later_Rests :
      (attempt : ℕ) (command : Text) (last r : RawActionResult) (c c' : Context)
      → run_step_action w step.action command c ≡ did r c'
      → c'.asked ≤ c.asked + 1
      → r.ok ≡ false
      → (d : Did StepReport)
      → Rests w step (attempt + 1) (next_command step attempt command r) r c' d
      → Rests w step attempt command last c d
  later_Rests attempt command last r c c' ran asks bad (raised m c'') h = h
  later_Rests attempt command last r c c' ran asks bad (did report c'') h = record {
    same_id = h.same_id;
    more = suc h.more;
    least = inl (omega arith);
    summed = omega (arith, h.summed);
    at_most = h.at_most;
    final = h.final;
    made = one_made ran (inr bad) h.made;
    same_ok = h.same_ok;
    same_output = h.same_output;
    calls = omega (arith, h.calls, asks);
    verdict = h.verdict;
  }

  after_action :
      (attempt : ℕ) (command : Text) (last : RawActionResult) (c : Context)
      → 1 ≤ attempt
      → attempt ≤ max_attempts step
      → (rest : RawActionResult → Context → Did StepReport)
      → ((r : RawActionResult) (c' : Context)
          → r.ok ≡ false
          → Rests w step (attempt + 1) (next_command step attempt command r) r c' (rest r c'))
      → (d : Did RawActionResult) → run_step_action w step.action command c ≡ d
      → Asks step.action c d
      → Rests w step attempt command last c (elim d [
        | raised message c' ↦ raised message c'
        | did r c' ↦ elim r.ok [ true ↦ did (success step attempt r) c' | false ↦ rest r c' ]
      ])
  after_action attempt command last c pos most rest more (raised m c') ran asks = asks
  after_action attempt command last c pos most rest more (did r c') ran asks =
      elim (Bool-cases r.ok) [
        | inl good ↦ rw good (record {
          same_id = refl;
          more = 1;
          least = inl (omega arith);
          summed = refl;
          at_most = most;
          final = r;
          made =
              one_made ran (inl refl)
                (none_made (attempt + 1) (next_command step attempt command r) r c');
          same_ok = good;
          same_output = refl;
          calls = asks;
          verdict = inl (refl, refl);
        })
        | inr bad ↦
            rw bad
              (later_Rests attempt command last r c c' ran asks bad (rest r c') (more r c' bad))
      ]

  attempts-Rests :
      (left attempt : ℕ) (command : Text) (last : RawActionResult) (c : Context)
      → left + attempt ≡ max_attempts step + 1
      → 1 ≤ attempt
      → last.ok ≡ false
      → Rests w step attempt command last c (attempts w step left attempt command last c)
  unfolding attempts
  attempts-Rests zero attempt command last c sum pos bad = record {
    same_id = refl;
    more = 0;
    least = inr bad;
    summed = omega (arith, sum);
    at_most = omega arith;
    final = last;
    made = none_made attempt command last c;
    same_ok = refl;
    same_output = refl;
    calls = omega arith;
    verdict = inr (bad, refl, (_, refl));
  }
  attempts-Rests (suc left) attempt command last c sum pos bad =
      after_action attempt command last c pos (omega (arith, sum))
        (λ r c'. attempts w step left (attempt + 1) (next_command step attempt command r) r c')
        (λ r c' failed.
          attempts-Rests left (attempt + 1) (next_command step attempt command r) r c'
            (omega (arith, sum)) (omega arith) failed)
        (run_step_action w step.action command c) refl (action-Asks w step.action command c)

  made_first :
      (c : Context) (d : Did StepReport)
      → Rests w step 1 step.command nothing_yet c d
      → Reports w step c d
  made_first c (raised m c') h = h
  made_first c (did r c') h =
      let same : h.more ≡ r.attempts = omega (arith, h.summed) in
      record {
        same_id = h.same_id;
        at_least = elim h.least [
          | inl n ↦ omega (arith, n, same)
          | inr bad ↦ elim h.verdict [
            | inl (good, _) ↦ absurd (ground (arith, bad, good))
            | inr (_, all, _) ↦ omega (arith, all)
          ]
        ];
        at_most = h.at_most;
        made = (
          h.final,
          subst (λ n. Attempted w step n 1 step.command nothing_yet c h.final c') same h.made,
          h.same_ok,
          h.same_output,
        );
        calls = omega (arith, h.calls, same);
        verdict = h.verdict;
      }

-- A step makes at least one attempt and at most as many as it may; the attempts that it reports were made one
-- after the other, each but the last one failed, and the last one's result is reported; each makes at most one
-- call. A step succeeds without an error, or fails after the last attempt with one; only a file step may raise
-- instead.
pub execute_step-Reports :
    (w : World) (step : ProcedureStep) (c : Context) → Reports w step c (execute_step w step c)
unfolding execute_step
execute_step-Reports w step c =
    made_first w step c (attempts w step (max_attempts step) 1 step.command nothing_yet c) (
      attempts-Rests w step (max_attempts step) 1 step.command nothing_yet c refl (omega arith)
        refl)
