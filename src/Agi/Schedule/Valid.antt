-- ===== src/Agi/Schedule/Valid.antt =====
-- What `parseSchedule` accepts (integrations/agi/src/scheduler.ts).
use xcoder.Prelude.{ℕ, suc, ◌≤◌, ◌&&◌, leb, if-both, arith}
use xcoder.Prelude.Int.{ℤ, pos, negsuc}
use xcoder.Agi.Ledger.Windows.{InRange}
use xcoder.Agi.Schedule.{
  Schedule, Field, Patch, ScheduleError, Parsed, ok, bad, ◌>>=◌, parse_enabled, parse_count,
  parse_reset, parse_offset, parse_schedule, missing, boolean, integer, string, other,
}

abbrev pub Between : ℕ → ℕ → ℕ → Type 0
Between lo hi n = (lo ≤ n) × (n ≤ hi)

-- The bounds that the error texts of `parseSchedule` name.
pub record ValidSchedule (s : Schedule) : Type 0 where
  pub gap : Between 5 10_080 s.every_minutes
  pub allowance : Between 10_000 100_000_000 s.daily_tokens
  pub offset : InRange s.tz_offset_min

abbrev pub Yields {ℓ} : {A : Type ℓ} → (A → Type 0) → Parsed A → Type 0
Yields P (ok a) = P a
Yields P (bad e) = Unit

bind-Yields {ℓ κ} :
    {A : Type ℓ} {B : Type κ} (P : A → Type 0) (Q : B → Type 0) (r : Parsed A) (k : A → Parsed B)
    → Yields P r
    → ((a : A) → P a → Yields Q (k a))
    → Yields Q (r >>= k)
bind-Yields P Q (ok a) k h next = next a h
bind-Yields P Q (bad e) k h next = tt

parse_count-Between :
    (e : ScheduleError) (lo hi : ℕ) (f : Field) (base : ℕ)
    → Between lo hi base
    → Yields (Between lo hi) (parse_count e lo hi f base)
unfolding parse_count
parse_count-Between e lo hi missing base h = h
parse_count-Between e lo hi (integer (pos n)) base h =
    if-both (Yields (Between lo hi)) (leb lo n && leb n hi) (λ t. ground arith) (λ _. tt)
parse_count-Between e lo hi (integer (negsuc n)) base h = tt
parse_count-Between e lo hi (boolean b) base h = tt
parse_count-Between e lo hi (string s) base h = tt
parse_count-Between e lo hi other base h = tt

parse_offset-InRange : (f : Field) (base : ℤ) → InRange base → Yields InRange (parse_offset f base)
unfolding parse_offset
parse_offset-InRange missing base h = h
parse_offset-InRange (integer (pos n)) base h =
    if-both (Yields InRange) (leb n 840) (λ t. ground arith) (λ _. tt)
parse_offset-InRange (integer (negsuc n)) base h =
    if-both (Yields InRange) (leb (suc n) 840) (λ t. ground arith) (λ _. tt)
parse_offset-InRange (boolean b) base h = tt
parse_offset-InRange (string s) base h = tt
parse_offset-InRange other base h = tt

anything {ℓ} : {A : Type ℓ} (r : Parsed A) → Yields (λ _. Unit) r
anything (ok a) = tt
anything (bad e) = tt

pub parse-Yields :
    (p : Patch) (base : Schedule)
    → ValidSchedule base
    → Yields ValidSchedule (parse_schedule p base)
unfolding parse_schedule
parse-Yields p base v =
    if-both (Yields ValidSchedule) p.is_object
      (λ _.
        bind-Yields (λ _. Unit) ValidSchedule (parse_enabled p.enabled base.enabled) _ (anything _)
          (λ enabled _.
            bind-Yields (Between 5 10_080) ValidSchedule _ _
              (parse_count-Between _ 5 10_080 p.every_minutes base.every_minutes v.gap)
              (λ every gap.
                bind-Yields (Between 10_000 100_000_000) ValidSchedule _ _
                  (parse_count-Between _ 10_000 100_000_000 p.daily_tokens base.daily_tokens
                    v.allowance)
                  (λ tokens allowance.
                    bind-Yields (λ _. Unit) ValidSchedule (parse_reset p.reset base.reset) _
                      (anything _)
                      (λ mode _.
                        bind-Yields InRange ValidSchedule
                          (parse_offset p.tz_offset_min base.tz_offset_min) _
                          (parse_offset-InRange p.tz_offset_min base.tz_offset_min v.offset)
                          (λ tz offset. record {
                            gap = gap;
                            allowance = allowance;
                            offset = offset;
                          }))))))
      (λ _. tt)
