-- ===== src/Subprocess/Settled.antt =====
-- When a worker settles, and with which result (src/subprocess/SubprocessManager.ts).
use xcoder.Prelude.{
  ℕ, ◌+◌, ◌-◌, ◌≤◌, ◌≡◌, refl, ap, ◌⊎◌, inl, inr, ltb, Bool, true, false, not, Option, none, some,
  List, [], ◌∷◌, ◌++◌, keep, length, arith, if-both, if◌then◌else◌,
}
use xcoder.Prelude.Text.{Text, codes, show}
use xcoder.Health.Json.{Json}
use xcoder.Subprocess.{
  SubprocessOptions, SubprocessResult, Signal, sigterm, sigkill, Worker, spawn, has_type,
  on_message, settling, resolve, result_of, truthy_text, abnormal, exit_text, error_or, crash,
  unspawned, left_with, on_exit, on_error, terminate, fired, on_timeout, on_escalation, hung_text,
  is_hung, on_check, Event, message, stderr_data, process_error, exited, timeout, escalation, check,
  handle, may_happen, Steps, no_more, next, timeout_of,
}

abbrev pub is_kill : Signal → Bool
is_kill sigterm = false
is_kill sigkill = true

abbrev pub kills : Worker → ℕ
kills s = length (keep is_kill s.sent)

abbrev pub terms : Worker → ℕ
terms s = length (keep (λ x. not (is_kill x)) s.sent)

abbrev pub HasError : Option Text → Type 0
HasError e = (m : Text) × (e ≡ some m)

-- A worker that did not crash left with the code 0 and no signal; a result that is not clean has an error.
pub record Verdict (r : SubprocessResult) : Type 0 where
  pub clean : (r.crashed ≡ true) ⊎ (abnormal r.exit_code r.signal ≡ false)
  pub explained : ((r.timed_out ≡ false) × (r.crashed ≡ false)) ⊎ HasError r.error

-- Before it settles, a worker has no result, and each SIGTERM has been followed by a SIGKILL or will be;
-- then it has one result and its timers are off.
pub data Phase (s : Worker) : Type 0 where
  pending :
      s.settled ≡ false
      → s.resolved ≡ []
      → s.crashed ≡ false
      → terms s ≡ kills s + s.escalations
      → (s.timed_out ≡ false) ⊎ ((1 ≤ terms s) × HasError s.error)
      → Phase s
  over :
      s.settled ≡ true
      → s.kill_timer ≡ false
      → s.check_timer ≡ false
      → (r : SubprocessResult) → s.resolved ≡ r ∷ []
      → Verdict r
      → Phase s

error_or-HasError : (e : Option Text) (fallback : Text) → HasError (error_or e fallback)
error_or-HasError none fallback = (fallback, refl)
error_or-HasError (some t) fallback =
    if-both HasError (truthy_text (some t)) (λ _. (t, refl)) (λ _. (fallback, refl))

terms-append :
    (sent : List Signal) (x : Signal)
    → length (keep (λ y. not (is_kill y)) (sent ++ x ∷ []))
      ≡ length (keep (λ y. not (is_kill y)) sent) + (if is_kill x then 0 else 1)
terms-append [] sigterm = refl
terms-append [] sigkill = refl
terms-append (sigterm ∷ sent) x = omega (arith, terms-append sent x)
terms-append (sigkill ∷ sent) x = terms-append sent x

kills-append :
    (sent : List Signal) (x : Signal)
    → length (keep is_kill (sent ++ x ∷ []))
      ≡ length (keep is_kill sent) + (if is_kill x then 1 else 0)
kills-append [] sigterm = refl
kills-append [] sigkill = refl
kills-append (sigkill ∷ sent) x = omega (arith, kills-append sent x)
kills-append (sigterm ∷ sent) x = kills-append sent x

record Open (s : Worker) : Type 0 where
  unsettled : s.settled ≡ false
  unresolved : s.resolved ≡ []
  uncrashed : s.crashed ≡ false
  balance : terms s ≡ kills s + s.escalations
  blamed : (s.timed_out ≡ false) ⊎ ((1 ≤ terms s) × HasError s.error)

record Closed (s : Worker) : Type 0 where
  done : s.settled ≡ true
  no_kill : s.kill_timer ≡ false
  no_check : s.check_timer ≡ false
  last : SubprocessResult
  only : s.resolved ≡ last ∷ []
  verdict : Verdict last

Phase-Open : (s : Worker) → Phase s → s.settled ≡ false → Open s
Phase-Open s (pending a b c d e) f = record {
  unsettled = a;
  unresolved = b;
  uncrashed = c;
  balance = d;
  blamed = e;
}
Phase-Open s (over a b c r d e) f = ground (arith, a, f)

Phase-Closed : (s : Worker) → Phase s → s.settled ≡ true → Closed s
Phase-Closed s (over a b c r d e) t = record {
  done = a;
  no_kill = b;
  no_check = c;
  last = r;
  only = d;
  verdict = e;
}
Phase-Closed s (pending a b c d e) t = ground (arith, a, t)

terminate-Phase : (reason : Text) (s : Worker) → Open s → Phase (terminate reason s)
terminate-Phase reason s h =
    pending h.unsettled h.unresolved h.uncrashed
      (omega (arith, terms-append s.sent sigterm, kills-append s.sent sigterm, h.balance))
      (inr (omega (arith, terms-append s.sent sigterm), (reason, refl)))

resolve-Phase :
    (s : Worker)
    → s.settled ≡ true
    → s.kill_timer ≡ false
    → s.check_timer ≡ false
    → s.resolved ≡ []
    → Verdict (result_of s)
    → Phase (resolve s)
resolve-Phase s done no_kill no_check none_yet v =
    over done no_kill no_check (result_of s) (ap (λ rs. rs ++ result_of s ∷ []) none_yet) v

exit-Phase :
    (code : Option ℕ) (sig : Option Text) (s : Worker) → Phase s → Phase (on_exit code sig s)
unfolding on_exit
exit-Phase code sig s h =
    if-both Phase s.settled
      (λ t. let k = Phase-Closed s h t in over k.done k.no_kill k.no_check k.last k.only k.verdict)
      (λ f.
        let k = Phase-Open s h f in
        let left = settling (left_with code sig s) in
        if-both (λ x. Phase (resolve x)) (abnormal code sig)
          (λ _. resolve-Phase (crash code sig left) refl refl refl k.unresolved (record {
            clean = inl refl;
            explained = inr (error_or-HasError s.error (exit_text code sig));
          }))
          (λ normal. resolve-Phase left refl refl refl k.unresolved (record {
            clean = inr normal;
            explained = elim k.blamed [ inl quiet ↦ inl (quiet, k.uncrashed) | inr (n, e) ↦ inr e ];
          })))

error-Phase : (reason : Text) (s : Worker) → Phase s → Phase (on_error reason s)
unfolding on_error
error-Phase reason s h =
    if-both Phase s.settled (λ _. h)
      (λ f.
        resolve-Phase (unspawned reason s) refl refl refl (Phase-Open s h f).unresolved (record {
          clean = inl refl;
          explained = inr (codes "Failed to spawn worker: " ++ reason, refl);
        }))

timeout-Phase : (o : SubprocessOptions) (s : Worker) → Phase s → Phase (on_timeout o s)
unfolding on_timeout
timeout-Phase o s h =
    if-both Phase s.settled
      (λ t. let k = Phase-Closed s h t in over k.done refl k.no_check k.last k.only k.verdict)
      (λ f.
        let k = Phase-Open s h f in
        terminate-Phase (codes "Worker timed out after " ++ (show (timeout_of o) ++ codes "ms"))
          (fired s)
          (record {
            unsettled = k.unsettled;
            unresolved = k.unresolved;
            uncrashed = k.uncrashed;
            balance = k.balance;
            blamed = k.blamed;
          }))

check-Phase : (o : SubprocessOptions) (now : ℕ) (s : Worker) → Phase s → Phase (on_check o now s)
unfolding on_check
check-Phase o now s h =
    if-both Phase s.settled (λ _. h)
      (λ f.
        if-both Phase (is_hung o now s)
          (λ _. terminate-Phase (hung_text o (now - s.last_heartbeat)) s (Phase-Open s h f))
          (λ _. h))

escalation-Phase : (s : Worker) → ltb 0 s.escalations ≡ true → Phase s → Phase (on_escalation s)
unfolding on_escalation
escalation-Phase s set h =
    if-both Phase s.settled
      (λ t. let k = Phase-Closed s h t in over k.done k.no_kill k.no_check k.last k.only k.verdict)
      (λ f.
        let k = Phase-Open s h f in
        pending k.unsettled k.unresolved k.uncrashed
          (ground (arith, terms-append s.sent sigkill, kills-append s.sent sigkill, k.balance, set))
          (elim k.blamed [
            | inl quiet ↦ inl quiet
            | inr (n, e) ↦ inr (omega (arith, terms-append s.sent sigkill, n), e)
          ]))

message-Phase : (now : ℕ) (msg : Json) (s : Worker) → Phase s → Phase (on_message now msg s)
unfolding on_message
message-Phase now msg s (pending a b c d e) =
    if-both Phase (has_type (codes "heartbeat") msg) (λ _. pending a b c d e)
      (λ _.
        if-both Phase (has_type (codes "result") msg) (λ _. pending a b c d e)
          (λ _.
            if-both Phase (has_type (codes "error") msg)
              (λ _.
                pending a b c d
                  (elim e [ inl quiet ↦ inl quiet | inr (n, _) ↦ inr (n, (_, refl)) ]))
              (λ _. pending a b c d e)))
message-Phase now msg s (over a b c r d e) =
    if-both Phase (has_type (codes "heartbeat") msg) (λ _. over a b c r d e)
      (λ _.
        if-both Phase (has_type (codes "result") msg) (λ _. over a b c r d e)
          (λ _.
            if-both Phase (has_type (codes "error") msg) (λ _. over a b c r d e)
              (λ _. over a b c r d e)))

handle-Phase :
    (o : SubprocessOptions) (e : Event) (s : Worker)
    → may_happen e s ≡ true
    → Phase s
    → Phase (handle o e s)
unfolding handle may_happen
handle-Phase o (message now msg) s may h = message-Phase now msg s h
handle-Phase o (stderr_data chunk) s may (pending a b c d e) = pending a b c d e
handle-Phase o (stderr_data chunk) s may (over a b c r d e) = over a b c r d e
handle-Phase o (process_error reason) s may h = error-Phase reason s h
handle-Phase o (exited code sig) s may h = exit-Phase code sig s h
handle-Phase o timeout s may h = timeout-Phase o s h
handle-Phase o escalation s may h = escalation-Phase s may h
handle-Phase o (check now) s may h = check-Phase o now s h

Steps-Phase :
    (o : SubprocessOptions) (s : Worker) (events : List Event) (s' : Worker)
    → Steps o s events s'
    → Phase s
    → Phase s'
Steps-Phase o s _ _ (no_more _) h = h
Steps-Phase o s _ s' (next {s' = s''} {events} e may rest) h =
    Steps-Phase o (handle o e s) events s' rest (handle-Phase o e s may h)

-- Over every history of a spawned worker the promise has no result before the worker settles and one from then
-- on, which says that the worker crashed unless it left with the code 0 and without a signal, and names an
-- error if it crashed or timed out; until then each SIGTERM has its SIGKILL sent or its timer set.
pub history-Phase :
    (o : SubprocessOptions) (now : ℕ) (events : List Event) (s : Worker)
    → Steps o (spawn o now) events s
    → Phase s
unfolding spawn
history-Phase o now events s h =
    Steps-Phase o (spawn o now) events s h (pending refl refl refl refl (inl refl))
