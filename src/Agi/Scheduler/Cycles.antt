-- ===== src/Agi/Scheduler/Cycles.antt =====
-- Whole histories of the scheduler (integrations/agi/src/scheduler.ts): ticks, settled cycles, edits of the
-- schedule and spendings, in any order. Since `tick` is asynchronous, one that waits for its cycle
-- does not keep others from being called.
use xcoder.Prelude.{ℕ, ◌≡◌, refl, sym, subst, Bool, true, false, List, [], ◌∷◌, arith}
use xcoder.Agi.Ledger.{Ledger}
use xcoder.Agi.Schedule.{Schedule, Patch, Parsed, ok, bad, parse_schedule}
use xcoder.Agi.Schedule.Valid.{ValidSchedule, Yields, parse-Yields}
use xcoder.Agi.Scheduler.{
  Scheduler, initial, Tick, skipped, waits, started, tick, finish, update, apply_parsed,
  record_tokens,
}
use xcoder.Agi.Scheduler.Decisions.{Decides, tick-Decides, Answers, update-Answers}

pub data Event : Type 0 where
  ticked : ℕ → Bool → Event
  settled : ℕ → Bool → Event
  patched : ℕ → Patch → Event
  spent : ℕ → ℕ → Event

-- a cycle that has started and not settled: its tick, and the usage before it
pub record OpenCycle : Type 0 where
  pub began : ℕ
  pub before : ℕ

pub record System : Type 0 where
  pub scheduler : Scheduler
  pub active : List OpenCycle

abbrev after_tick : ℕ → List OpenCycle → Tick → System
after_tick now active (skipped s) = record { scheduler = s; active = active }
after_tick now active (waits s) = record { scheduler = s; active = active }
after_tick now active (started before s) = record {
  scheduler = s;
  active = record { began = now; before = before } ∷ active;
}

abbrev settle : ℕ → Bool → Scheduler → List OpenCycle → System
settle now succeeded s [] = record { scheduler = s; active = [] }
settle now succeeded s (c ∷ cs) = record {
  scheduler = finish now c.began c.before succeeded s;
  active = cs;
}

unfoldable pub handle : Event → System → System
handle (ticked now blocked) y = after_tick now y.active (tick now blocked y.scheduler)
handle (settled now succeeded) y = settle now succeeded y.scheduler y.active
handle (patched now p) y = record y { scheduler = (update now p y.scheduler).0 }
handle (spent now n) y = record y { scheduler = record_tokens now n y.scheduler }

unfoldable pub history : List Event → System → System
history [] y = y
history (e ∷ es) y = history es (handle e y)

-- One open cycle while the flag `running` is set, and none else.
pub data OneIfRunning : Bool → List OpenCycle → Type 0 where
  none_open : OneIfRunning false []
  one_open : {c : OpenCycle} → OneIfRunning true (c ∷ [])

pub record Consistent (y : System) : Type 0 where
  pub valid : ValidSchedule y.scheduler.schedule
  pub cycles : OneIfRunning y.scheduler.running y.active

begins : {c : OpenCycle} (cs : List OpenCycle) → OneIfRunning false cs → OneIfRunning true (c ∷ cs)
begins [] none_open = one_open
begins (x ∷ xs) h = elim h [ ]

tick-Consistent :
    (now : ℕ) (blocked : Bool) (s : Scheduler) (active : List OpenCycle) (t : Tick)
    → ValidSchedule s.schedule
    → OneIfRunning s.running active
    → Decides now blocked s t
    → Consistent (after_tick now active t)
tick-Consistent now blocked s active (skipped s') v c d = record {
  valid = subst (λ x. ValidSchedule x.schedule) (sym d.0) v;
  cycles = subst (λ x. OneIfRunning x.running active) (sym d.0) c;
}
tick-Consistent now blocked s active (waits s') v c (later, same, idle, not_now) = record {
  valid = subst ValidSchedule (sym same) v;
  cycles = subst (λ r. OneIfRunning r active) (sym idle) c;
}
tick-Consistent now blocked s active (started before s') v c (b, busy, same, next, may) = record {
  valid = subst ValidSchedule (sym same) v;
  cycles =
      subst (λ r. OneIfRunning r (record { began = now; before = before } ∷ active)) (sym busy)
        (begins {c = record { began = now; before = before }} active
          (subst (λ r. OneIfRunning r active) may.idle c));
}

finish-same :
    (now began before : ℕ) (succeeded : Bool) (s : Scheduler)
    → ((finish now began before succeeded s).schedule ≡ s.schedule)
      × ((finish now began before succeeded s).running ≡ false)
unfolding finish
finish-same now began before succeeded s = (refl, refl)

settle-Consistent :
    (now : ℕ) (succeeded : Bool) (s : Scheduler) (active : List OpenCycle)
    → ValidSchedule s.schedule
    → (running : Bool) → s.running ≡ running
    → OneIfRunning running active
    → Consistent (settle now succeeded s active)
settle-Consistent now succeeded s [] v false e none_open = record {
  valid = v;
  cycles = subst (λ r. OneIfRunning r []) (sym e) none_open;
}
settle-Consistent now succeeded s [] v true e h = elim h [ ]
settle-Consistent now succeeded s (c ∷ []) v false e h = elim h [ ]
settle-Consistent now succeeded s (c ∷ (x ∷ xs)) v r e h = elim h [ ]
settle-Consistent now succeeded s (c ∷ []) v true e one_open =
    let same = finish-same now c.began c.before succeeded s in
    record {
      valid = subst ValidSchedule (sym same.0) v;
      cycles = subst (λ r. OneIfRunning r []) (sym same.1) none_open;
    }

answer-Consistent :
    (now : ℕ) (s : Scheduler) (active : List OpenCycle) (s' : Scheduler) (r : Parsed Schedule)
    → ValidSchedule s.schedule
    → OneIfRunning s.running active
    → Yields ValidSchedule r
    → Answers now s (s', r)
    → Consistent (record { scheduler = s'; active = active })
answer-Consistent now s active s' (bad e) v c y same = record {
  valid = subst (λ x. ValidSchedule x.schedule) (sym same) v;
  cycles = subst (λ x. OneIfRunning x.running active) (sym same) c;
}
answer-Consistent now s active s' (ok next) v c y u = record {
  valid = subst ValidSchedule (sym u.applied) y;
  cycles = subst (λ r. OneIfRunning r active) (sym u.running_kept) c;
}

update_result :
    (now : ℕ) (p : Patch) (s : Scheduler) → (update now p s).1 ≡ parse_schedule p s.schedule
unfolding update
update_result now p s = answer_of (parse_schedule p s.schedule)
  where
    answer_of : (r : Parsed Schedule) → (apply_parsed now s r).1 ≡ r
    answer_of (ok n) = refl
    answer_of (bad e) = refl

update-Consistent :
    (now : ℕ) (p : Patch) (s : Scheduler) (active : List OpenCycle)
    → ValidSchedule s.schedule
    → OneIfRunning s.running active
    → Consistent (record { scheduler = (update now p s).0; active = active })
update-Consistent now p s active v c =
    answer-Consistent now s active (update now p s).0 (update now p s).1 v c
      (subst (Yields ValidSchedule) (sym (update_result now p s)) (parse-Yields p s.schedule v))
      (update-Answers now p s)

record_tokens-Consistent :
    (now n : ℕ) (s : Scheduler) (active : List OpenCycle)
    → ValidSchedule s.schedule
    → OneIfRunning s.running active
    → Consistent (record { scheduler = record_tokens now n s; active = active })
unfolding record_tokens
record_tokens-Consistent now n s active v c = record { valid = v; cycles = c }

handle-Consistent : (e : Event) (y : System) → Consistent y → Consistent (handle e y)
unfolding handle
handle-Consistent (ticked now blocked) y c =
    tick-Consistent now blocked y.scheduler y.active _ c.valid c.cycles
      (tick-Decides now blocked y.scheduler)
handle-Consistent (settled now succeeded) y c =
    settle-Consistent now succeeded y.scheduler y.active c.valid _ refl c.cycles
handle-Consistent (patched now p) y c =
    update-Consistent now p y.scheduler y.active c.valid c.cycles
handle-Consistent (spent now n) y c =
    record_tokens-Consistent now n y.scheduler y.active c.valid c.cycles

history-keeps : (es : List Event) (y : System) → Consistent y → Consistent (history es y)
unfolding history
history-keeps [] y c = c
history-keeps (e ∷ es) y c = history-keeps es (handle e y) (handle-Consistent e y c)

abbrev pub fresh : Ledger → System
fresh ledger = record { scheduler = initial ledger; active = [] }

-- Whatever happens to a fresh scheduler, in whatever order, at most one cycle is open, namely while the
-- flag `running` is set, and the schedule stays within the bounds that `parseSchedule` names.
pub history-Consistent :
    (es : List Event) (ledger : Ledger) → Consistent (history es (fresh ledger))
history-Consistent es ledger = history-keeps es (fresh ledger) (record {
  valid = record {
    gap = (omega arith, omega arith);
    allowance = (omega arith, omega arith);
    offset = omega arith;
  };
  cycles = none_open;
})
