-- ===== src/Subprocess.antt =====
-- One worker process of src/subprocess/SubprocessManager.ts, from `spawn` on: what its listeners and timers
-- do, one event at a time. The environment of the process and its start are left out.
pub mod Settled
pub mod Final
mod Tests
use xcoder.Prelude.{
  ℕ, ◌+◌, ◌-◌, ◌*◌, ◌≡◌, ltb, ◌==◌, Bool, true, false, not, ◌||◌, Option, none, some, List, [], ◌∷◌,
  ◌++◌, or_default, if◌then◌else◌,
}
use xcoder.Prelude.Text.{Text, codes, show, same_text, non_empty}
use xcoder.Health.Json.{Json, text}
use xcoder.Workflows.Actions.{member, string_or}

pub record SubprocessOptions : Type 0 where
  pub timeout_ms : Option ℕ
  pub heartbeat_interval_ms : Option ℕ
  pub heartbeat_missed_limit : Option ℕ
  pub worker_data : Option Json

abbrev pub timeout_of : SubprocessOptions → ℕ
timeout_of o = or_default o.timeout_ms 30_000

abbrev pub interval_of : SubprocessOptions → ℕ
interval_of o = or_default o.heartbeat_interval_ms 2_000

abbrev pub limit_of : SubprocessOptions → ℕ
limit_of o = or_default o.heartbeat_missed_limit 2

-- No exit code is null.
pub record SubprocessResult : Type 0 where
  pub result : Option Json
  pub exit_code : Option ℕ
  pub timed_out : Bool
  pub crashed : Bool
  pub signal : Option Text
  pub error : Option Text
  pub stderr : Text

pub data Signal : Type 0 where
  sigterm sigkill : Signal

-- The variables of `spawn`: `kill_timer` and `check_timer` say whether these timers are set, `escalations`
-- counts the timers set for a SIGKILL. `sent` holds the signals that the process was sent, `started` the data
-- of the start message, `resolved` the results that the promise was given.
pub record Worker : Type 0 where
  pub settled : Bool
  pub timed_out : Bool
  pub crashed : Bool
  pub exit_code : Option ℕ
  pub signal : Option Text
  pub result : Option Json
  pub error : Option Text
  pub stderr : Text
  pub last_heartbeat : ℕ
  pub kill_timer : Bool
  pub check_timer : Bool
  pub escalations : ℕ
  pub sent : List Signal
  pub started : Option Json
  pub resolved : List SubprocessResult

-- `spawn`, at this time
unfoldable pub spawn : SubprocessOptions → ℕ → Worker
spawn o now = record {
  settled = false;
  timed_out = false;
  crashed = false;
  exit_code = none;
  signal = none;
  result = none;
  error = none;
  stderr = [];
  last_heartbeat = now;
  kill_timer = true;
  check_timer = true;
  escalations = 0;
  sent = [];
  started = o.worker_data;
  resolved = [];
}

abbrev pub typed : Text → Option Json → Bool
typed name (some (text t)) = same_text t name
typed name _ = false

abbrev pub has_type : Text → Json → Bool
has_type name msg = typed name (member (codes "type") msg)

-- `child.on("message", …)`
unfoldable pub on_message : ℕ → Json → Worker → Worker
unfolding member
on_message now msg s =
    if has_type (codes "heartbeat") msg
    then record s { last_heartbeat = now }
    else if has_type (codes "result") msg
    then record s { result = member (codes "data") msg }
    else if has_type (codes "error") msg
    then record s {
      error = some (string_or (codes "Unknown worker error") (member (codes "data") msg));
    }
    else s

abbrev pub cleanup : Worker → Worker
cleanup s = record s { kill_timer = false; check_timer = false }

abbrev pub result_of : Worker → SubprocessResult
result_of s = record {
  result = s.result;
  exit_code = s.exit_code;
  timed_out = s.timed_out;
  crashed = s.crashed;
  signal = s.signal;
  error = s.error;
  stderr = s.stderr;
}

abbrev pub resolve : Worker → Worker
resolve s = record s { resolved = s.resolved ++ result_of s ∷ [] }

-- A truthy text.
abbrev pub truthy_text : Option Text → Bool
truthy_text none = false
truthy_text (some t) = non_empty t

-- `code !== 0 || sig`
abbrev pub abnormal : Option ℕ → Option Text → Bool
abnormal none sig = true
abnormal (some code) sig = not (code == 0) || truthy_text sig

abbrev pub code_text : Option ℕ → Text
code_text none = codes "null"
code_text (some code) = show code

abbrev pub exit_text : Option ℕ → Option Text → Text
exit_text code sig =
    (codes "Process exited with code " ++ code_text code)
    ++ (if truthy_text sig then codes " (signal: " ++ (or_default sig [] ++ codes ")") else [])

-- `error || fallback`
abbrev pub error_or : Option Text → Text → Option Text
error_or e fallback = if truthy_text e then e else some fallback

abbrev pub crash : Option ℕ → Option Text → Worker → Worker
crash code sig s = record s { crashed = true; error = error_or s.error (exit_text code sig) }

abbrev pub blame : Option ℕ → Option Text → Worker → Worker
blame code sig s = if abnormal code sig then crash code sig s else s

abbrev pub left_with : Option ℕ → Option Text → Worker → Worker
left_with code sig s = record s { exit_code = code; signal = sig }

abbrev pub settling : Worker → Worker
settling s = cleanup (record s { settled = true })

-- `child.on("exit", …)`
unfoldable pub on_exit : Option ℕ → Option Text → Worker → Worker
unfolding show
on_exit code sig s =
    if s.settled
    then left_with code sig s
    else resolve (blame code sig (settling (left_with code sig s)))

abbrev pub unspawned : Text → Worker → Worker
unspawned message s = record (settling s) {
  crashed = true;
  error = some (codes "Failed to spawn worker: " ++ message);
}

-- `child.on("error", …)`
unfoldable pub on_error : Text → Worker → Worker
on_error message s = if s.settled then s else resolve (unspawned message s)

-- A SIGTERM, and a timer for a SIGKILL.
abbrev pub terminate : Text → Worker → Worker
terminate reason s = record s {
  timed_out = true;
  error = some reason;
  sent = s.sent ++ sigterm ∷ [];
  escalations = s.escalations + 1;
}

abbrev pub fired : Worker → Worker
fired s = record s { kill_timer = false }

-- The timer for the whole run.
unfoldable pub on_timeout : SubprocessOptions → Worker → Worker
unfolding show
on_timeout o s =
    if s.settled
    then fired s
    else terminate (codes "Worker timed out after " ++ (show (timeout_of o) ++ codes "ms"))
        (fired s)

-- The timer that follows a SIGTERM.
unfoldable pub on_escalation : Worker → Worker
on_escalation s =
    if s.settled
    then record s { escalations = s.escalations - 1 }
    else record s { escalations = s.escalations - 1; sent = s.sent ++ sigkill ∷ [] }

abbrev pub hung_text : SubprocessOptions → ℕ → Text
hung_text o elapsed =
    codes "Worker hung: no heartbeat for "
    ++ (show elapsed
        ++ (codes "ms (missed limit: "
            ++ (show (limit_of o)
                ++ (codes " intervals of " ++ (show (interval_of o) ++ codes "ms)")))))

abbrev pub is_hung : SubprocessOptions → ℕ → Worker → Bool
is_hung o now s = ltb (interval_of o * limit_of o) (now - s.last_heartbeat)

-- The check of the heartbeats.
unfoldable pub on_check : SubprocessOptions → ℕ → Worker → Worker
unfolding show
on_check o now s =
    if s.settled
    then s
    else if is_hung o now s
    then terminate (hung_text o (now - s.last_heartbeat)) s
    else s

pub data Event : Type 0 where
  message : ℕ → Json → Event
  stderr_data process_error : Text → Event
  exited : Option ℕ → Option Text → Event
  timeout escalation : Event
  check : ℕ → Event

unfoldable pub handle : SubprocessOptions → Event → Worker → Worker
unfolding on_message on_exit on_error on_timeout on_escalation on_check
handle o (message now msg) s = on_message now msg s
handle o (stderr_data chunk) s = record s { stderr = s.stderr ++ chunk }
handle o (process_error reason) s = on_error reason s
handle o (exited code sig) s = on_exit code sig s
handle o timeout s = on_timeout o s
handle o escalation s = on_escalation s
handle o (check now) s = on_check o now s

-- A timer fires only if it is set.
unfoldable pub may_happen : Event → Worker → Bool
may_happen timeout s = s.kill_timer
may_happen escalation s = ltb 0 s.escalations
may_happen (check now) s = s.check_timer
may_happen _ s = true

-- What the events of a history make of a worker.
pub data Steps (o : SubprocessOptions) : Worker → List Event → Worker → Type 0 where
  no_more : (s : Worker) → Steps o s [] s
  next :
      {s s' : Worker} {events : List Event} (e : Event)
      → may_happen e s ≡ true
      → Steps o (handle o e s) events s'
      → Steps o s (e ∷ events) s'
