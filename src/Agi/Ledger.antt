-- ===== src/Agi/Ledger.antt =====
-- The token ledger (`TokenLedger` of integrations/agi/src/meter.ts). Times are milliseconds since the
-- epoch, at a clock of at least 14 hours, so that local time is not negative. The file that keeps the
-- ledger over a restart is left out.
pub mod Windows
pub mod Counted
use xcoder.Prelude.{
  ℕ, suc, ◌+◌, ◌-◌, ◌*◌, ◌/◌, ◌≤◌, ◌<◌, Bool, true, false, not, ◌&&◌, ltb, leb, ◌==◌, if◌then◌else◌,
}
use xcoder.Prelude.Int.{ℤ, pos, negsuc}

abbrev pub day_ms : ℕ
day_ms = 86_400_000

pub data ResetMode : Type 0 where
  daily rolling : ResetMode

pub record Ledger : Type 0 where
  pub start : ℕ
  pub used : ℕ

-- `Math.floor((t + off) / DAY_MS) * DAY_MS - off`
unfoldable pub day_start : ℤ → ℕ → ℕ
day_start (pos m) t = (t + m * 60_000) / day_ms * day_ms - m * 60_000
day_start (negsuc m) t = (t - suc m * 60_000) / day_ms * day_ms + suc m * 60_000

-- 0 if a rolling window has not begun
unfoldable pub rolling_start : Ledger → ℕ → ℕ
rolling_start l t = if ltb 0 l.start && ltb t (l.start + day_ms) then l.start else 0

unfoldable pub window_start : ResetMode → ℤ → ℕ → Ledger → ℕ
window_start daily tz t l = day_start tz t
window_start rolling tz t l = rolling_start l t

unfoldable pub window_ended : ResetMode → ℕ → Ledger → Bool
window_ended daily w l = not (l.start == w)
window_ended rolling w l = w == 0 && not (l.start == 0)

abbrev pub new_start : ResetMode → ℕ → ℕ
new_start daily w = w
new_start rolling w = 0

unfoldable pub roll : ResetMode → ℤ → ℕ → Ledger → Ledger
roll mode tz now l =
    let w = window_start mode tz now l in
    if window_ended mode w l then record { start = new_start mode w; used = 0 } else l

unfoldable pub resume_at : ResetMode → ℤ → ℕ → Ledger → ℕ
resume_at mode tz now l = let w = window_start mode tz now l in if w == 0 then now else w + day_ms

-- `add`, for a whole number of tokens
unfoldable pub add : ℕ → ResetMode → ℤ → ℕ → Ledger → Ledger
add n mode tz now l =
    if n == 0
    then l
    else let rolled = roll mode tz now l in
      let begun = if rolled.start == 0 then record rolled { start = now } else rolled in
      record begun { used = begun.used + n }

-- `used` rolls the window first, and so returns the ledger that it left.
unfoldable pub used : ResetMode → ℤ → ℕ → Ledger → ℕ
used mode tz now l = (roll mode tz now l).used
