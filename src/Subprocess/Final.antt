-- ===== src/Subprocess/Final.antt =====
-- A worker that has ended is settled for good (src/subprocess/SubprocessManager.ts).
use xcoder.Prelude.{
  ℕ, ◌≡◌, refl, ◌∙◌, Bool, true, false, List, [], ◌∷◌, exists, arith, Bool-cases, if-both, inl, inr,
  if◌then◌else◌, ◌++◌, ◌-◌,
}
use xcoder.Prelude.Text.{codes, show}
use xcoder.Health.Json.{Json}
use xcoder.Subprocess.{
  SubprocessOptions, SubprocessResult, Worker, spawn, has_type, on_message, left_with, on_exit,
  on_error, on_timeout, on_escalation, on_check, Event, message, stderr_data, process_error, exited,
  timeout, escalation, check, handle, Steps, no_more, next, resolve, settling, unspawned, blame,
  abnormal, fired, terminate, timeout_of, sigkill,
}
use xcoder.Subprocess.Settled.{Phase, pending, over, history-Phase}

-- The process has left, or there was an error: it was not made, not killed, or a message was not sent.
abbrev pub is_end : Event → Bool
is_end (exited code sig) = true
is_end (process_error reason) = true
is_end _ = false

-- A settled worker that keeps its result and is sent nothing.
pub record Stays (s s' : Worker) : Type 0 where
  pub settled : s'.settled ≡ true
  pub same_result : s'.resolved ≡ s.resolved
  pub same_signals : s'.sent ≡ s.sent

module _ (s : Worker) (done : s.settled ≡ true) where
  unless_settled : (x y : Worker) → Stays s x → Stays s (if s.settled then x else y)
  unless_settled x y h =
      if-both (Stays s) s.settled (λ _. h) (λ f. absurd (ground (arith, f, done)))

  message-Stays : (now : ℕ) (msg : Json) → Stays s (on_message now msg s)
  unfolding on_message
  message-Stays now msg =
      if-both (Stays s) (has_type (codes "heartbeat") msg)
        (λ _. record { settled = done; same_result = refl; same_signals = refl })
        (λ _.
          if-both (Stays s) (has_type (codes "result") msg)
            (λ _. record { settled = done; same_result = refl; same_signals = refl })
            (λ _.
              if-both (Stays s) (has_type (codes "error") msg)
                (λ _. record { settled = done; same_result = refl; same_signals = refl })
                (λ _. record { settled = done; same_result = refl; same_signals = refl })))

  handle-Stays : (o : SubprocessOptions) (e : Event) → Stays s (handle o e s)
  unfolding handle on_exit on_error on_timeout on_escalation on_check
  handle-Stays o (message now msg) = message-Stays now msg
  handle-Stays o (stderr_data chunk) = record {
    settled = done;
    same_result = refl;
    same_signals = refl;
  }
  handle-Stays o (process_error reason) =
      unless_settled s (resolve (unspawned reason s))
        (record { settled = done; same_result = refl; same_signals = refl })
  handle-Stays o (exited code sig) =
      unless_settled (left_with code sig s)
        (resolve (blame code sig (settling (left_with code sig s))))
        (record { settled = done; same_result = refl; same_signals = refl })
  handle-Stays o timeout =
      unless_settled (fired s)
        (terminate (codes "Worker timed out after " ++ (show (timeout_of o) ++ codes "ms"))
          (fired s))
        (record { settled = done; same_result = refl; same_signals = refl })
  handle-Stays o escalation =
      unless_settled (record s { escalations = s.escalations - 1 })
        (record s { escalations = s.escalations - 1; sent = s.sent ++ sigkill ∷ [] })
        (record { settled = done; same_result = refl; same_signals = refl })
  handle-Stays o (check now) =
      if-both (Stays s) s.settled
        (λ _. record { settled = done; same_result = refl; same_signals = refl })
        (λ f. absurd (ground (arith, f, done)))

Stays-trans : (a b c : Worker) → Stays a b → Stays b c → Stays a c
Stays-trans a b c h k = record {
  settled = k.settled;
  same_result = k.same_result ∙ h.same_result;
  same_signals = k.same_signals ∙ h.same_signals;
}

Steps-Stays :
    (o : SubprocessOptions) (s : Worker) (events : List Event) (s' : Worker)
    → Steps o s events s'
    → s.settled ≡ true
    → Stays s s'
Steps-Stays o s _ _ (no_more _) done = record {
  settled = done;
  same_result = refl;
  same_signals = refl;
}
Steps-Stays o s _ s' (next {s' = s''} {events} e may rest) done =
    let first = handle-Stays s done o e in
    Stays-trans s (handle o e s) s' first
      (Steps-Stays o (handle o e s) events s' rest first.settled)

end-settles :
    (o : SubprocessOptions) (e : Event) (s : Worker)
    → is_end e ≡ true
    → (handle o e s).settled ≡ true
unfolding handle on_exit on_error
end-settles o (exited code sig) s h =
    if-both (λ (x : Worker). x.settled ≡ true) s.settled (λ t. t)
      (λ _.
        if-both (λ (x : Worker). (resolve x).settled ≡ true) (abnormal code sig) (λ _. refl)
          (λ _. refl))
end-settles o (process_error reason) s h =
    if-both (λ (x : Worker). x.settled ≡ true) s.settled (λ t. t) (λ _. refl)
end-settles o (message now msg) s h = ground (arith, h)
end-settles o (stderr_data chunk) s h = ground (arith, h)
end-settles o timeout s h = ground (arith, h)
end-settles o escalation s h = ground (arith, h)
end-settles o (check now) s h = ground (arith, h)

ended-settled :
    (o : SubprocessOptions) (s : Worker) (events : List Event) (s' : Worker)
    → Steps o s events s'
    → exists is_end events ≡ true
    → s'.settled ≡ true
ended-settled o s _ _ (no_more _) h = ground (arith, h)
ended-settled o s _ s' (next {s' = s''} {events} e may rest) h = elim (Bool-cases (is_end e)) [
  | inl ends ↦ (Steps-Stays o (handle o e s) events s' rest (end-settles o e s ends)).settled
  | inr more ↦ ended-settled o (handle o e s) events s' rest (ground (arith, h, more))
]

the_result :
    (s : Worker) → Phase s → s.settled ≡ true → (r : SubprocessResult) × (s.resolved ≡ r ∷ [])
the_result s (pending a b c d e) t = absurd (ground (arith, a, t))
the_result s (over a b c r only v) t = (r, only)

-- Once the process of a spawned worker has left or had an error, the promise has exactly one result, which no
-- later event changes, and no signal is sent any more.
pub history-Stays :
    (o : SubprocessOptions) (now : ℕ) (events more : List Event) (s s' : Worker)
    → Steps o (spawn o now) events s
    → exists is_end events ≡ true
    → Steps o s more s'
    → ((r : SubprocessResult) × (s.resolved ≡ r ∷ [])) × Stays s s'
history-Stays o now events more s s' h ends k =
    let done = ended-settled o (spawn o now) events s h ends in
    (the_result s (history-Phase o now events s h) done, Steps-Stays o s more s' k done)
