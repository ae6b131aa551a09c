-- ===== src/Agi/Scheduler/Decisions.antt =====
-- The decisions of `tick` and `update` (integrations/agi/src/scheduler.ts).
use xcoder.Prelude.{
  ℕ, ◌+◌, ◌≤◌, ◌<◌, ◌≡◌, refl, inl, inr, Bool, true, false, not, ◌&&◌, ltb, leb, if◌then◌else◌,
  if-both, Bool-cases, arith,
}
use xcoder.Agi.Schedule.{Schedule, Patch, Parsed, ok, bad, parse_schedule}
use xcoder.Agi.Scheduler.{
  Scheduler, min_start_tokens, remaining, used_now, wait_for_allowance, Tick, skipped, waits,
  started, tick, apply_schedule, update, updated_next, apply_parsed,
}

-- When a cycle may start: the scheduler is on and idle, the time has come, the allowance is not
-- nearly spent and nothing else blocks it.
pub record MayStart (now : ℕ) (blocked : Bool) (s : Scheduler) : Type 0 where
  pub on : s.schedule.enabled ≡ true
  pub idle : s.running ≡ false
  pub due : s.next_run_at ≤ now
  pub affordable : min_start_tokens ≤ remaining now s
  pub free : blocked ≡ false

-- What a tick may do: start only what may start, and else leave the schedule and the flag alone; one that
-- waits does so until a later time.
abbrev pub Decides : ℕ → Bool → Scheduler → Tick → Type 0
Decides now blocked s (skipped s') = (s' ≡ s) × ¬ (MayStart now blocked s)
Decides now blocked s (waits s') =
    (now < s'.next_run_at)
    × (s'.schedule ≡ s.schedule)
    × (s'.running ≡ s.running)
    × ¬ (MayStart now blocked s)
Decides now blocked s (started before s') =
    (before ≡ used_now now s.schedule s.ledger)
    × (s'.running ≡ true)
    × (s'.schedule ≡ s.schedule)
    × (s'.next_run_at ≡ s.next_run_at)
    × MayStart now blocked s

later : (now refill : ℕ) → now < (if leb refill now then now + 60_000 else refill)
later now refill = if-both (λ n. now < n) (leb refill now) (λ _. omega arith) (λ f. ground arith)

wait_for_allowance-later : (now : ℕ) (s : Scheduler) → now < (wait_for_allowance now s).next_run_at
unfolding wait_for_allowance
wait_for_allowance-later now s = later now _

wait_for_allowance-same :
    (now : ℕ) (s : Scheduler)
    → ((wait_for_allowance now s).schedule ≡ s.schedule)
      × ((wait_for_allowance now s).running ≡ s.running)
unfolding wait_for_allowance
wait_for_allowance-same now s = (refl, refl)

not_both : (b : Bool) → not b ≡ true → ¬ (b ≡ true)
not_both b h e = ground arith

under : (a b : ℕ) → ltb a b ≡ true → ¬ (b ≤ a)
under a b h le = ground arith

not_under : (a b : ℕ) → ltb a b ≡ false → b ≤ a
not_under a b h = ground arith

set_flag : (b : Bool) → not b ≡ false → b ≡ true
set_flag b h = ground arith

-- A tick starts a cycle exactly when one may start; else it changes nothing, or waits until a later time.
pub tick-Decides :
    (now : ℕ) (blocked : Bool) (s : Scheduler) → Decides now blocked s (tick now blocked s)
unfolding tick
tick-Decides now blocked s =
    if-both D (not s.schedule.enabled) (λ off. (refl, λ m. not_both _ off m.on))
      (λ on.
        if-both D s.running (λ busy. (refl, λ m. cc (m.idle, busy)))
          (λ idle.
            if-both D (ltb now s.next_run_at)
              (λ early. (refl, λ m. under now s.next_run_at early m.due))
              (λ due.
                if-both D (ltb (remaining now s) min_start_tokens)
                  (λ poor. (
                    wait_for_allowance-later now _,
                    (wait_for_allowance-same now _).0,
                    (wait_for_allowance-same now _).1,
                    λ m. under (remaining now s) min_start_tokens poor m.affordable,
                  ))
                  (λ rich.
                    if-both D blocked (λ stop. (omega arith, refl, refl, λ m. cc (m.free, stop)))
                      (λ free. (
                        refl,
                        refl,
                        refl,
                        refl,
                        record {
                          on = set_flag _ on;
                          idle = idle;
                          due = not_under now s.next_run_at due;
                          affordable = not_under (remaining now s) min_start_tokens rich;
                          free = free;
                        },
                      ))))))
  where
    D : Tick → Type 0
    D = Decides now blocked s

-- The time of the next run after a valid patch: from the time before it, whether the scheduler was on and
-- is on, and what was and is left of the allowance.
pub data NextRun (now old : ℕ) (was is : Bool) (left_before left : ℕ) : ℕ → Type 0 where
  turned_off : is ≡ false → NextRun now old was is left_before left 0
  turned_on : was ≡ false → is ≡ true → NextRun now old was is left_before left now
  resumed :
      was ≡ true
      → is ≡ true
      → left_before < min_start_tokens
      → min_start_tokens ≤ left
      → NextRun now old was is left_before left now
  unpaused :
      was ≡ true
      → is ≡ true
      → min_start_tokens ≤ left_before
      → NextRun now old was is left_before left old
  still_paused :
      was ≡ true → is ≡ true → left < min_start_tokens → NextRun now old was is left_before left old

-- A valid patch is the new schedule, sets the time of the next run and leaves the flag alone.
pub record Updates (now : ℕ) (next : Schedule) (s s' : Scheduler) : Type 0 where
  pub applied : s'.schedule ≡ next
  pub running_kept : s'.running ≡ s.running
  pub next_run :
      NextRun now s.next_run_at s.schedule.enabled next.enabled
        (remaining now s)
        (remaining now s')
        s'.next_run_at

-- An invalid patch changes nothing.
abbrev pub Answers : ℕ → Scheduler → Scheduler × Parsed Schedule → Type 0
Answers now s (s', ok next) = Updates now next s s'
Answers now s (s', bad e) = s' ≡ s

-- the state that `update` decides in: the new schedule, its ledger rolled
abbrev edited : ℕ → Schedule → Scheduler → Scheduler
edited now next s = record (apply_schedule now next s) { next_run_at = s.next_run_at }

apply_schedule-next :
    (now : ℕ) (next : Schedule) (s : Scheduler)
    → (apply_schedule now next s).next_run_at
      ≡ updated_next now
          (next.enabled && not s.schedule.enabled)
          (s.schedule.enabled && ltb (remaining now s) min_start_tokens)
          (edited now next s)
unfolding apply_schedule
apply_schedule-next now next s = refl

remaining-edited :
    (now : ℕ) (next : Schedule) (s : Scheduler)
    → remaining now (edited now next s) ≡ remaining now (apply_schedule now next s)
unfolding remaining
remaining-edited now next s = refl

edited-next : (now : ℕ) (next : Schedule) (s : Scheduler) → (edited now next s).schedule ≡ next
unfolding apply_schedule
edited-next now next s = refl

apply_schedule-running :
    (now : ℕ) (next : Schedule) (s : Scheduler) → (apply_schedule now next s).running ≡ s.running
unfolding apply_schedule
apply_schedule-running now next s = refl

-- both were on: resumed or as before
still_on :
    (now old before after : ℕ)
    → NextRun now old true true before after
        (if ltb before min_start_tokens && leb min_start_tokens after then now else old)
still_on now old before after =
    if-both (NextRun now old true true before after)
      (ltb before min_start_tokens && leb min_start_tokens after)
      (λ t. resumed refl refl (ground arith) (ground arith))
      (λ f. elim (Bool-cases (ltb before min_start_tokens)) [
        | inl poor ↦ still_paused refl refl (ground arith)
        | inr rich ↦ unpaused refl refl (not_under before min_start_tokens rich)
      ])

choose-NextRun :
    (now old before after : ℕ) (was is : Bool)
    → NextRun now old was is before after (
        if not is
        then 0
        else if (was && ltb before min_start_tokens) && leb min_start_tokens after
        then now
        else if is && not was
        then now
        else old)
choose-NextRun now old before after true true = still_on now old before after
choose-NextRun now old before after false true = turned_on refl refl
choose-NextRun now old before after true false = turned_off refl
choose-NextRun now old before after false false = turned_off refl

updated_next-NextRun :
    (now before : ℕ) (was : Bool) (s : Scheduler)
    → NextRun now s.next_run_at was s.schedule.enabled before
        (remaining now s)
        (updated_next now (s.schedule.enabled && not was) (was && ltb before min_start_tokens) s)
unfolding updated_next
updated_next-NextRun now before was s =
    choose-NextRun now s.next_run_at before (remaining now s) was s.schedule.enabled

apply_schedule-NextRun :
    (now : ℕ) (next : Schedule) (s : Scheduler)
    → NextRun now s.next_run_at s.schedule.enabled next.enabled
        (remaining now s)
        (remaining now (apply_schedule now next s))
        (apply_schedule now next s).next_run_at
unfolding apply_schedule remaining
apply_schedule-NextRun now next s =
    updated_next-NextRun now (remaining now s) s.schedule.enabled (edited now next s)

apply_schedule-Updates :
    (now : ℕ) (next : Schedule) (s : Scheduler) → Updates now next s (apply_schedule now next s)
apply_schedule-Updates now next s = record {
  applied = edited-next now next s;
  running_kept = apply_schedule-running now next s;
  next_run = apply_schedule-NextRun now next s;
}

-- A patch that is not valid changes nothing. A valid one is applied in full: it turns the scheduler off
-- or on, lets it resume where it paused for want of allowance and now has enough, and else keeps the
-- time of the next run.
pub update-Answers : (now : ℕ) (p : Patch) (s : Scheduler) → Answers now s (update now p s)
unfolding update
update-Answers now p s = answered (parse_schedule p s.schedule)
  where
    answered : (r : Parsed Schedule) → Answers now s (apply_parsed now s r)
    answered (ok next) = apply_schedule-Updates now next s
    answered (bad e) = refl
