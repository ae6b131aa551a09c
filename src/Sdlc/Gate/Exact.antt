-- ===== src/Sdlc/Gate/Exact.antt =====
-- When the Validation Gate lets a stage through (`validateNode` of src/core/engine/SdlcEngine.ts and
-- `validateGoal` of src/core/goalValidator.ts).
use xcoder.Prelude.{
  zero, suc, ==_iff, [], ◌∷◌, ◌≡◌, refl, ◌↔◌, true, false, Option, none, some, arith,
}
use xcoder.Prelude.Text.{Text}
use xcoder.Sdlc.Stage.{AcceptanceCriteria, AcceptanceType}
use xcoder.Sdlc.World.{
  Usage, CommandRun, exited, command_error, Reply, parsed, unparsed, call_failed, Attempt,
}
use xcoder.Sdlc.Gate.{
  gate_command, validate_goal, judge, command_verdict, rubric_verdict, validate_node,
}

-- A judge's answer that counts as approval: it says so, or it cannot be read.
pub data Approves : Reply → Type 0 where
  says_valid : {r : Text} {u : Option Usage} → Approves (parsed true r u)
  unreadable : {c : Text} {u : Option Usage} → Approves (unparsed c u)

-- The two calls of the judge: the second is asked only if the first one failed.
pub data JudgeApproves : Reply → Reply → Type 0 where
  at_first : {first second : Reply} → Approves first → JudgeApproves first second
  at_retry : {e : Text} {second : Reply} → Approves second → JudgeApproves (call_failed e) second

pub data RanClean : CommandRun → Type 0 where
  clean : {out : Text} → RanClean (exited 0 out)

-- What supports a stage: the declared command, if there is one, and else the judge.
abbrev pub Supported : AcceptanceType → Option Text → Attempt → Type 0
Supported AcceptanceType.command (some (c ∷ cs)) a = RanClean a.command_run
Supported _ _ a = JudgeApproves a.first_reply a.second_reply

command_verdict-RanClean :
    (redact : Text → Text) (c : Text) (r : CommandRun)
    → ((command_verdict redact c r).pass ≡ true) ↔ RanClean r
unfolding command_verdict
command_verdict-RanClean redact c (exited zero out) = (λ _. clean, λ _. refl)
command_verdict-RanClean redact c (exited (suc n) out) =
    (λ h. absurd (omega (arith, (==_iff (suc n) 0).0 h)), λ h. elim h [ ])
command_verdict-RanClean redact c (command_error e) = (λ h. cc, λ h. elim h [ ])

refused :
    {r : Text} {u : Option Usage} {second : Reply} → JudgeApproves (parsed false r u) second → ⊥
refused (at_first h) = elim h [ ]

refused_at_retry :
    {e r : Text} {u : Option Usage} → JudgeApproves (call_failed e) (parsed false r u) → ⊥
refused_at_retry (at_first h) = elim h [ ]
refused_at_retry (at_retry h) = elim h [ ]

failed_twice : {e f : Text} → JudgeApproves (call_failed e) (call_failed f) → ⊥
failed_twice (at_first h) = elim h [ ]
failed_twice (at_retry h) = elim h [ ]

rubric-JudgeApproves :
    (redact : Text → Text) (first second : Reply) (u : Usage)
    → ((rubric_verdict redact second (judge first second) u).0.pass ≡ true)
      ↔ JudgeApproves first second
unfolding rubric_verdict judge validate_goal
rubric-JudgeApproves redact (parsed true r w) second u = (λ _. at_first says_valid, λ _. refl)
rubric-JudgeApproves redact (parsed false r w) second u = (λ h. cc, λ h. absurd (refused h))
rubric-JudgeApproves redact (unparsed c w) second u = (λ _. at_first unreadable, λ _. refl)
rubric-JudgeApproves redact (call_failed e) (parsed true r w) u =
    (λ _. at_retry says_valid, λ _. refl)
rubric-JudgeApproves redact (call_failed e) (parsed false r w) u =
    (λ h. cc, λ h. absurd (refused_at_retry h))
rubric-JudgeApproves redact (call_failed e) (unparsed c w) u = (λ _. at_retry unreadable, λ _. refl)
rubric-JudgeApproves redact (call_failed e) (call_failed f) u =
    (λ h. cc, λ h. absurd (failed_twice h))

validate_node-kinds :
    (redact : Text → Text) (kind : AcceptanceType) (command rubric : Option Text) (a : Attempt)
    (u : Usage)
    → ((validate_node redact
          (record { kind = kind; command = command; rubric = rubric })
          a
          u).0.pass
        ≡ true)
      ↔ Supported kind command a
unfolding validate_node gate_command
validate_node-kinds redact AcceptanceType.command none rubric a u =
    rubric-JudgeApproves redact a.first_reply a.second_reply u
validate_node-kinds redact AcceptanceType.command (some []) rubric a u =
    rubric-JudgeApproves redact a.first_reply a.second_reply u
validate_node-kinds redact AcceptanceType.command (some (c ∷ cs)) rubric a u =
    command_verdict-RanClean redact (c ∷ cs) a.command_run
validate_node-kinds redact AcceptanceType.rubric command rubric a u =
    rubric-JudgeApproves redact a.first_reply a.second_reply u

-- The gate passes a stage exactly when its declared command exits with 0 or, where no command is
-- declared, when the judge approves: at the first call, or at the retry if the first call failed. An
-- answer of the judge that cannot be read approves; two failed calls and a command that raises do not.
pub validate_node-exact :
    (redact : Text → Text) (criteria : AcceptanceCriteria) (a : Attempt) (u : Usage)
    → ((validate_node redact criteria a u).0.pass ≡ true)
      ↔ Supported criteria.kind criteria.command a
validate_node-exact redact criteria a u =
    validate_node-kinds redact criteria.kind criteria.command criteria.rubric a u
