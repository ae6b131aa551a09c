-- ===== src/Agi/Ledger/Windows.antt =====
-- The windows of the token ledger (`TokenLedger` of integrations/agi/src/meter.ts).
use xcoder.Prelude.{ℕ, suc, ◌+◌, ◌-◌, ◌*◌, ◌%◌, ◌≤◌, ◌<◌, ◌≡◌, arith}
use xcoder.Prelude.Int.{ℤ, pos, negsuc}
use xcoder.Agi.Ledger.{
  day_ms, ResetMode, daily, rolling, Ledger, day_start, rolling_start, window_start, window_ended,
  roll,
}

-- An offset of at most 14 hours either way.
abbrev pub InRange : ℤ → Type 0
InRange (pos m) = m ≤ 840
InRange (negsuc m) = suc m ≤ 840

-- Local time has started a day at the window's start.
abbrev StartsDay : ℤ → ℕ → Type 0
StartsDay (pos m) w = (w + m * 60_000) % day_ms ≡ 0
StartsDay (negsuc m) w = (w - suc m * 60_000) % day_ms ≡ 0

day_start-le : (tz : ℤ) (t : ℕ) → InRange tz → day_ms ≤ t → day_start tz t ≤ t
unfolding day_start
day_start-le (pos m) t r h = omega arith
day_start-le (negsuc m) t r h = omega arith

day_start-lt : (tz : ℤ) (t : ℕ) → InRange tz → day_ms ≤ t → t < day_start tz t + day_ms
unfolding day_start
day_start-lt (pos m) t r h = omega arith
day_start-lt (negsuc m) t r h = omega arith

day_start-StartsDay : (tz : ℤ) (t : ℕ) → InRange tz → day_ms ≤ t → StartsDay tz (day_start tz t)
unfolding day_start
day_start-StartsDay (pos m) t r h = omega arith
day_start-StartsDay (negsuc m) t r h = omega arith

-- The daily window of a time holds that time, is 24 hours long, and begins at local midnight.
pub day_start_window :
    (tz : ℤ) (t : ℕ)
    → InRange tz
    → day_ms ≤ t
    → (day_start tz t ≤ t) × (t < day_start tz t + day_ms) × StartsDay tz (day_start tz t)
day_start_window tz t r h =
    (day_start-le tz t r h, day_start-lt tz t r h, day_start-StartsDay tz t r h)

-- Rolling the window twice is rolling it once.
pub roll_idem :
    (mode : ResetMode) (tz : ℤ) (now : ℕ) (l : Ledger)
    → roll mode tz now (roll mode tz now l) ≡ roll mode tz now l
unfolding roll window_start window_ended rolling_start
roll_idem daily tz now l = ground arith
roll_idem rolling tz now l = ground arith
