-- ===== src/Agi/Schedule.antt =====
-- The schedule and its strict validation (`parseSchedule` of integrations/agi/src/scheduler.ts).
pub mod Valid
use xcoder.Prelude.{ℕ, suc, ◌+◌, ◌≤◌, String, Bool, true, false, ◌&&◌, leb, str_eq, if◌then◌else◌}
use xcoder.Prelude.Int.{ℤ, pos, negsuc}
use xcoder.Agi.Ledger.{ResetMode, daily, rolling}

pub record Schedule : Type 0 where
  pub enabled : Bool
  pub every_minutes : ℕ
  pub daily_tokens : ℕ
  pub reset : ResetMode
  pub tz_offset_min : ℤ

abbrev pub default_schedule : Schedule
default_schedule = record {
  enabled = false;
  every_minutes = 60;
  daily_tokens = 500_000;
  reset = daily;
  tz_offset_min = pos 0;
}

-- A field of the untyped input: left out, or a value. `other` is any value of no use here, a number
-- that is not an integer among them.
pub data Field : Type 0 where
  missing : Field
  boolean : Bool → Field
  integer : ℤ → Field
  string : String → Field
  other : Field

pub record Patch : Type 0 where
  pub is_object : Bool
  pub enabled : Field
  pub every_minutes : Field
  pub daily_tokens : Field
  pub reset : Field
  pub tz_offset_min : Field

-- The error texts of `parseSchedule`.
pub data ScheduleError : Type 0 where
  not_an_object enabled_not_boolean every_minutes_range daily_tokens_range : ScheduleError
  reset_unknown tz_offset_range : ScheduleError

pub data Parsed {ℓ} (A : Type ℓ) : Type ℓ where
  ok : A → Parsed A
  bad : ScheduleError → Parsed A

infixl 5 ◌>>=◌
abbrev pub ◌>>=◌ {ℓ κ} : {A : Type ℓ} {B : Type κ} → Parsed A → (A → Parsed B) → Parsed B
ok a >>= f = f a
bad e >>= f = bad e

unfoldable pub parse_enabled : Field → Bool → Parsed Bool
parse_enabled missing base = ok base
parse_enabled (boolean b) base = ok b
parse_enabled _ base = bad enabled_not_boolean

-- an integer of `lo` to `hi`
unfoldable pub parse_count : ScheduleError → ℕ → ℕ → Field → ℕ → Parsed ℕ
parse_count e lo hi missing base = ok base
parse_count e lo hi (integer (pos n)) base = if leb lo n && leb n hi then ok n else bad e
parse_count e lo hi _ base = bad e

unfoldable pub parse_reset : Field → ResetMode → Parsed ResetMode
parse_reset missing base = ok base
parse_reset (string s) base =
    if str_eq s "daily"
    then ok daily
    else if str_eq s "rolling"
    then ok rolling
    else bad reset_unknown
parse_reset _ base = bad reset_unknown

unfoldable pub parse_offset : Field → ℤ → Parsed ℤ
parse_offset missing base = ok base
parse_offset (integer (pos n)) base = if leb n 840 then ok (pos n) else bad tz_offset_range
parse_offset (integer (negsuc n)) base =
    if leb (suc n) 840 then ok (negsuc n) else bad tz_offset_range
parse_offset _ base = bad tz_offset_range

unfoldable pub parse_schedule : Patch → Schedule → Parsed Schedule
parse_schedule p base =
    if p.is_object
    then (do
      enabled ← parse_enabled p.enabled base.enabled
      every ← parse_count every_minutes_range 5 10_080 p.every_minutes base.every_minutes
      tokens ← parse_count daily_tokens_range 10_000 100_000_000 p.daily_tokens base.daily_tokens
      reset ← parse_reset p.reset base.reset
      offset ← parse_offset p.tz_offset_min base.tz_offset_min
      ok (record {
        enabled = enabled;
        every_minutes = every;
        daily_tokens = tokens;
        reset = reset;
        tz_offset_min = offset;
      }))
    else bad not_an_object
