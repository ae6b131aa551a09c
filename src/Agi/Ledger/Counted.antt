-- ===== src/Agi/Ledger/Counted.antt =====
-- What the token ledger counts over a window (`TokenLedger` of integrations/agi/src/meter.ts).
use xcoder.Prelude.{
  ℕ, ◌+◌, ◌≤◌, ◌<◌, ◌≡◌, refl, ap, ◌∙◌, List, [], ◌∷◌, arith, All, ltb, ◌==◌, if◌then◌else◌,
  if-both, not, ◌&&◌, true, false,
}
use xcoder.Prelude.Int.{ℤ}
use xcoder.Agi.Ledger.Windows.{InRange, day_start_window}
use xcoder.Agi.Ledger.{
  day_ms, ResetMode, daily, rolling, Ledger, day_start, rolling_start, window_start, window_ended,
  roll, add, used,
}

-- The time is in the ledger's window, which has begun.
abbrev pub InWindow : ResetMode → ℤ → Ledger → ℕ → Type 0
InWindow daily tz l now = (0 < l.start) × (day_start tz now ≡ l.start)
InWindow rolling tz l now = (0 < l.start) × (now < l.start + day_ms)

-- a spending: its time and its tokens
pub record Spending : Type 0 where
  pub time : ℕ
  pub tokens : ℕ

unfoldable pub spend_all : ResetMode → ℤ → List Spending → Ledger → Ledger
spend_all mode tz [] l = l
spend_all mode tz (x ∷ xs) l = spend_all mode tz xs (add x.tokens mode tz x.time l)

unfoldable pub total : List Spending → ℕ
total [] = 0
total (x ∷ xs) = x.tokens + total xs

ended_daily : (s w : ℕ) → w ≡ s → ¬ (not (s == w) ≡ true)
ended_daily s w e h = ground arith

ended_rolling :
    (s now : ℕ)
    → 0 < s
    → now < s + day_ms
    → ¬ (((if ltb 0 s && ltb now (s + day_ms) then s else 0) == 0 && not (s == 0)) ≡ true)
ended_rolling s now h k e = ground arith

begun_not : (s : ℕ) → 0 < s → ¬ ((s == 0) ≡ true)
begun_not s h e = ground arith

no_more : (n k : ℕ) → (n == 0) ≡ true → k ≡ k + n
no_more n k e = ground arith

moved : (s w now : ℕ) → s + day_ms ≤ now → now < w + day_ms → ¬ (not (s == w) ≡ false)
moved s w now late h e = ground arith

expired :
    (s now : ℕ)
    → 0 < s
    → s + day_ms ≤ now
    → ¬ (((if ltb 0 s && ltb now (s + day_ms) then s else 0) == 0 && not (s == 0)) ≡ false)
expired s now h late e = ground arith

roll-InWindow :
    (mode : ResetMode) (tz : ℤ) (now : ℕ) (l : Ledger)
    → InWindow mode tz l now
    → roll mode tz now l ≡ l
unfolding roll window_start window_ended rolling_start
roll-InWindow daily tz now l h =
    if-both (λ x. x ≡ l) (not (l.start == day_start tz now))
      (λ t. elim (ended_daily l.start (day_start tz now) h.1 t) [ ]) (λ _. refl)
roll-InWindow rolling tz now l h =
    if-both (λ x. x ≡ l)
      ((if ltb 0 l.start && ltb now (l.start + day_ms) then l.start else 0) == 0
        && not (l.start == 0))
      (λ t. elim (ended_rolling l.start now h.0 h.1 t) [ ]) (λ _. refl)

InWindow-begun :
    (mode : ResetMode) (tz : ℤ) (now : ℕ) (l : Ledger) → InWindow mode tz l now → 0 < l.start
InWindow-begun daily tz now l h = h.0
InWindow-begun rolling tz now l h = h.0

-- the ledger with these tokens more
abbrev plus : Ledger → ℕ → Ledger
plus l n = record { start = l.start; used = l.used + n }

add_rolled :
    (n now : ℕ) (l : Ledger)
    → 0 < l.start
    → plus (if l.start == 0 then record l { start = now } else l) n ≡ plus l n
add_rolled n now l h =
    if-both (λ x. plus x n ≡ plus l n) (l.start == 0) (λ e. elim (begun_not l.start h e) [ ])
      (λ _. refl)

add-InWindow :
    (n : ℕ) (mode : ResetMode) (tz : ℤ) (now : ℕ) (l : Ledger)
    → InWindow mode tz l now
    → add n mode tz now l ≡ plus l n
unfolding add
add-InWindow n mode tz now l h =
    if-both (λ x. x ≡ plus l n) (n == 0)
      (λ e. ap (λ k. record { start = l.start; used = k }) (no_more n l.used e))
      (λ _.
        ap (λ r. plus (if r.start == 0 then record r { start = now } else r) n)
          (roll-InWindow mode tz now l h)
        ∙ add_rolled n now l (InWindow-begun mode tz now l h))

-- more spendings leave the window as it is
InWindow-plus :
    (mode : ResetMode) (tz : ℤ) (n now : ℕ) (l : Ledger)
    → InWindow mode tz l now
    → InWindow mode tz (plus l n) now
InWindow-plus daily tz n now l h = h
InWindow-plus rolling tz n now l h = h

abbrev pub AllInWindow : ResetMode → ℤ → Ledger → List Spending → Type 0
AllInWindow mode tz l xs = All (λ x. InWindow mode tz l x.time) xs

AllInWindow-plus :
    (mode : ResetMode) (tz : ℤ) (n : ℕ) (l : Ledger) (xs : List Spending)
    → AllInWindow mode tz l xs
    → AllInWindow mode tz (plus l n) xs
AllInWindow-plus mode tz n l [] h = tt
AllInWindow-plus mode tz n l (x ∷ xs) h =
    (InWindow-plus mode tz n x.time l h.0, AllInWindow-plus mode tz n l xs h.1)

spend_all-plus :
    (mode : ResetMode) (tz : ℤ) (xs : List Spending) (l : Ledger)
    → AllInWindow mode tz l xs
    → spend_all mode tz xs l ≡ plus l (total xs)
unfolding spend_all total
spend_all-plus mode tz [] l h = ap (λ k. record { start = l.start; used = k }) (omega arith)
spend_all-plus mode tz (x ∷ xs) l h =
    ap (spend_all mode tz xs) (add-InWindow x.tokens mode tz x.time l h.0)
    ∙ spend_all-plus mode tz xs (plus l x.tokens) (AllInWindow-plus mode tz x.tokens l xs h.1)
    ∙ ap (λ n. record { start = l.start; used = n }) (omega arith)

ended_later :
    (mode : ResetMode) (tz : ℤ) (now : ℕ) (l : Ledger)
    → InRange tz
    → day_ms ≤ now
    → 0 < l.start
    → l.start + day_ms ≤ now
    → used mode tz now l ≡ 0
unfolding used roll window_start window_ended rolling_start
ended_later daily tz now l r d b late =
    if-both {A = Ledger} (λ x. x.used ≡ 0) (not (l.start == day_start tz now)) (λ _. refl)
      (λ f. elim (moved l.start (day_start tz now) now late (day_start_window tz now r d).1 f) [ ])
ended_later rolling tz now l r d b late =
    if-both {A = Ledger} (λ x. x.used ≡ 0)
      ((if ltb 0 l.start && ltb now (l.start + day_ms) then l.start else 0) == 0
        && not (l.start == 0))
      (λ _. refl) (λ f. elim (expired l.start now b late f) [ ])

used-InWindow :
    (mode : ResetMode) (tz : ℤ) (now : ℕ) (l : Ledger)
    → InWindow mode tz l now
    → used mode tz now l ≡ l.used
unfolding used
used-InWindow mode tz now l h = ap (λ x. x.used) (roll-InWindow mode tz now l h)

-- While its window lasts, the ledger has counted every token that was spent in it, and nothing else.
pub used-counts :
    (mode : ResetMode) (tz : ℤ) (xs : List Spending) (l : Ledger) (now : ℕ)
    → AllInWindow mode tz l xs
    → InWindow mode tz l now
    → used mode tz now (spend_all mode tz xs l) ≡ l.used + total xs
used-counts mode tz xs l now h inside =
    ap (used mode tz now) (spend_all-plus mode tz xs l h)
    ∙ used-InWindow mode tz now (plus l (total xs)) (InWindow-plus mode tz (total xs) now l inside)

-- A day after its window began, the ledger counts from 0 again, whatever was spent in the window. The
-- offset is at most 14 hours, and the clock is past the first day of 1970.
pub used-restarts :
    (mode : ResetMode) (tz : ℤ) (xs : List Spending) (l : Ledger) (now : ℕ)
    → InRange tz
    → 0 < l.start
    → AllInWindow mode tz l xs
    → l.start + day_ms ≤ now
    → used mode tz now (spend_all mode tz xs l) ≡ 0
used-restarts mode tz xs l now r b h late =
    ap (used mode tz now) (spend_all-plus mode tz xs l h)
    ∙ ended_later mode tz now (plus l (total xs)) r (omega arith) b late
