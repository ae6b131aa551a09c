-- ===== src/Subprocess/Tests.antt =====
-- A worker that hangs (src/subprocess/SubprocessManager.ts).
use xcoder.Prelude.{◌≡◌, refl, none, some, List, [], ◌∷◌}
use xcoder.Prelude.Text.{codes}
use xcoder.Subprocess.{
  SubprocessOptions, SubprocessResult, Worker, spawn, Event, exited, timeout, escalation, check,
  handle, may_happen, on_check, Steps, no_more, next, sigterm, sigkill,
}
use xcoder.Subprocess.Settled.{Phase, history-Phase}
use xcoder.Subprocess.Final.{Stays, history-Stays}

abbrev defaults : SubprocessOptions
defaults = record {
  timeout_ms = none;
  heartbeat_interval_ms = none;
  heartbeat_missed_limit = none;
  worker_data = none;
}

abbrev hang : List Event
hang = check 9_000 ∷ escalation ∷ exited none (some (codes "SIGKILL")) ∷ []

abbrev after : List Event → Worker → Worker
after [] s = s
after (e ∷ events) s = after events (handle defaults e s)

abbrev hung : Worker
hung = after hang (spawn defaults 0)

signals_sent : hung.sent ≡ sigterm ∷ sigkill ∷ []
unfolding handle spawn
signals_sent = refl

hang-Steps : Steps defaults (spawn defaults 0) hang hung
unfolding may_happen spawn handle on_check
hang-Steps =
    next (check 9_000) refl
      (next escalation refl (next (exited none (some (codes "SIGKILL"))) refl (no_more hung)))

history-Phase_example : Phase hung
history-Phase_example = history-Phase defaults 0 hang hung hang-Steps

history-Stays_example :
    ((r : SubprocessResult) × (hung.resolved ≡ r ∷ []))
    × Stays hung (handle defaults (exited (some 1) none) hung)
unfolding xcoder.Subprocess.may_happen
history-Stays_example =
    history-Stays defaults 0 hang (exited (some 1) none ∷ []) hung
      (handle defaults (exited (some 1) none) hung) hang-Steps refl
      (next (exited (some 1) none) refl (no_more (handle defaults (exited (some 1) none) hung)))
