-- ===== src/Agi/Tests.antt =====
-- Runs of the scheduler model (integrations/agi/src).
use xcoder.Prelude.{ℕ, ◌+◌, ◌*◌, ◌≡◌, refl, true, false, [], ◌∷◌, arith, List}
use xcoder.Prelude.Int.{pos}
use xcoder.Agi.Ledger.{Ledger, day_start, used, daily}
use xcoder.Agi.Ledger.Counted.{Spending, spend_all, total, used-counts}
use xcoder.Agi.Schedule.{Patch, missing, boolean, integer}
use xcoder.Agi.Scheduler.{Scheduler, initial, tick, update}
use xcoder.Agi.Scheduler.Decisions.{Decides, tick-Decides, Answers, update-Answers}
use xcoder.Agi.Scheduler.Cycles.{
  Event, ticked, settled, patched, spent, fresh, history, Consistent, history-Consistent,
}
use xcoder.Prelude.{none}
use xcoder.Prelude.Text.{codes}
use xcoder.Agi.Kernel.{Kernel, genome, Poll, silent, healthy, handle_promotion}

abbrev noon : ℕ
noon = 43_200_000 + 20_000 * 86_400_000

abbrev empty : Ledger
empty = record { start = 0; used = 0 }

-- turns the scheduler on, in Manila's time
abbrev switch_on : Patch
switch_on = record {
  is_object = true;
  enabled = boolean true;
  every_minutes = missing;
  daily_tokens = integer (pos 20_000);
  reset = missing;
  tz_offset_min = integer (pos 480);
}

abbrev ready : Scheduler
ready = (update noon switch_on (initial empty)).0

tick-Decides_example : Decides noon false ready (tick noon false ready)
tick-Decides_example = tick-Decides noon false ready

update-Answers_example : Answers noon ready (update noon switch_on ready)
update-Answers_example = update-Answers noon switch_on ready

abbrev busy_day : List Event
busy_day =
    patched noon switch_on
    ∷ ticked noon false
    ∷ ticked (noon + 30_000) false
    ∷ spent (noon + 40_000) 18_000
    ∷ settled (noon + 50_000) true
    ∷ ticked (noon + 4_000_000) false
    ∷ []

history-Consistent_example : Consistent (history busy_day (fresh empty))
history-Consistent_example = history-Consistent busy_day empty

abbrev midnight_window : Ledger
midnight_window = record { start = 20_000 * 86_400_000; used = 5 }

abbrev two_calls : List Spending
two_calls = record { time = noon; tokens = 7 } ∷ record { time = noon + 60_000; tokens = 30 } ∷ []

used-counts_example :
    used daily (pos 0) (noon + 90_000) (spend_all daily (pos 0) two_calls midnight_window)
    ≡ 5 + total two_calls
unfolding day_start
used-counts_example =
    used-counts daily (pos 0) two_calls midnight_window (noon + 90_000)
      ((omega arith, refl), ((omega arith, refl), tt)) (omega arith, refl)

abbrev first_release : Kernel
first_release = record {
  current = codes "v0001";
  stable = codes "v0001";
  stored = codes "v0001" ∷ [];
  results = [];
  launched = (codes "v0001", false) ∷ [];
  has_child = true;
  exit_count = [];
  misses = 0;
}

abbrev good_polls : List Poll
good_polls = silent ∷ healthy (codes "v0002") (codes "pass") ∷ []

promotes :
    (handle_promotion (codes "v0002") (genome (codes "v0002") none) good_polls first_release).stable
    ≡ codes "v0002"
unfolding handle_promotion
promotes = refl
