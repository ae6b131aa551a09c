-- ===== src/Agi/Scheduler.antt =====
-- The scheduler of autonomous cycles (`Scheduler` of integrations/agi/src/scheduler.ts). A tick that
-- starts a cycle waits for it, and meanwhile tokens are spent and the schedule may be edited: `tick`
-- is the part before the cycle and `finish` the part after it. Saving, events and the log are left out.
pub mod Decisions
pub mod Cycles
use xcoder.Prelude.{
  ℕ, ◌+◌, ◌-◌, ◌*◌, ◌≤◌, ◌<◌, Bool, true, false, not, ◌&&◌, Option, none, some, List, [], ◌∷◌, ltb,
  leb, ◌==◌, if◌then◌else◌, max,
}
use xcoder.Agi.Ledger.{Ledger, add, used, roll, resume_at}
use xcoder.Agi.Schedule.{
  Schedule, default_schedule, Patch, Parsed, ok, bad, parse_schedule, ScheduleError,
}

abbrev pub min_start_tokens : ℕ
min_start_tokens = 5_000

pub record LastRun : Type 0 where
  pub at : ℕ
  pub tokens : ℕ
  pub ok : Bool

pub record Scheduler : Type 0 where
  pub schedule : Schedule
  pub next_run_at : ℕ
  pub last_run : Option LastRun
  pub running : Bool
  pub ledger : Ledger

abbrev pub initial : Ledger → Scheduler
initial ledger = record {
  schedule = default_schedule;
  next_run_at = 0;
  last_run = none;
  running = false;
  ledger = ledger;
}

-- `this.ledger.used(s.reset, s.tzOffsetMin)` and the ledger that it leaves
abbrev pub used_now : ℕ → Schedule → Ledger → ℕ
used_now now s l = used s.reset s.tz_offset_min now l

abbrev pub rolled : ℕ → Scheduler → Scheduler
rolled now s = record s { ledger = roll s.schedule.reset s.schedule.tz_offset_min now s.ledger }

unfoldable pub remaining : ℕ → Scheduler → ℕ
remaining now s = s.schedule.daily_tokens - used_now now s.schedule s.ledger

-- the hook `record`: tokens that any work of the agent spent
unfoldable pub record_tokens : ℕ → ℕ → Scheduler → Scheduler
record_tokens now n s = record s {
  ledger = add n s.schedule.reset s.schedule.tz_offset_min now s.ledger;
}

-- the hook `assertAllowed`: `false` throws `AllowanceExhausted`
unfoldable pub assert_allowed : ℕ → Scheduler → Bool
assert_allowed now s = ltb 0 (remaining now s)

-- the new time of the next run, from the state with the new schedule
unfoldable pub updated_next : ℕ → Bool → Bool → Scheduler → ℕ
updated_next now turned_on was_paused s =
    let due = if turned_on then now else s.next_run_at in
    if not s.schedule.enabled
    then 0
    else if was_paused && leb min_start_tokens (remaining now s)
    then now
    else due

unfoldable pub apply_schedule : ℕ → Schedule → Scheduler → Scheduler
apply_schedule now next s =
    let turned_on = next.enabled && not s.schedule.enabled in
    let was_paused = s.schedule.enabled && ltb (remaining now s) min_start_tokens in
    let seen = if s.schedule.enabled then (rolled now s).ledger else s.ledger in
    let s' = rolled now (record s { schedule = next; ledger = seen }) in
    record s' { next_run_at = updated_next now turned_on was_paused s' }

abbrev pub apply_parsed : ℕ → Scheduler → Parsed Schedule → Scheduler × Parsed Schedule
apply_parsed now s (bad e) = (s, bad e)
apply_parsed now s (ok next) = (apply_schedule now next s, ok next)

unfoldable pub update : ℕ → Patch → Scheduler → Scheduler × Parsed Schedule
update now patch s = apply_parsed now s (parse_schedule patch s.schedule)

-- What a tick does: nothing, wait until later, or start a cycle, with the usage before it.
pub data Tick : Type 0 where
  skipped : Scheduler → Tick
  waits : Scheduler → Tick
  started : ℕ → Scheduler → Tick

unfoldable pub wait_for_allowance : ℕ → Scheduler → Scheduler
wait_for_allowance now s =
    let refill = resume_at s.schedule.reset s.schedule.tz_offset_min now s.ledger in
    record s { next_run_at = if leb refill now then now + 60_000 else refill }

-- `tick`, up to the call of `run`; `blocked` says that `blockedReason()` gives a reason
unfoldable pub tick : ℕ → Bool → Scheduler → Tick
tick now blocked s =
    if not s.schedule.enabled
    then skipped s
    else if s.running
    then skipped s
    else if ltb now s.next_run_at
    then skipped s
    else if ltb (remaining now s) min_start_tokens
    then waits (wait_for_allowance now (rolled now s))
    else if blocked
    then waits (record (rolled now s) { next_run_at = now + 60_000 })
    else started (used_now now s.schedule s.ledger) (record (rolled now s) { running = true })

-- `tick`, after the cycle that began at `began` has settled
unfoldable pub finish : ℕ → ℕ → ℕ → Bool → Scheduler → Scheduler
finish now began before succeeded s =
    let after = rolled now (record s { running = false }) in
    record after {
      last_run = some (record {
        at = began;
        tokens = used_now now s.schedule s.ledger - before;
        ok = succeeded;
      });
      next_run_at = if s.schedule.enabled then now + s.schedule.every_minutes * 60_000 else 0;
    }
