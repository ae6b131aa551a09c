-- ===== src/Api/Limits.antt =====
-- The rate limits (`checkRateLimitWithConfig` and its callers in src/api/auth.ts). The store is a dictionary
-- of times in milliseconds; the limits of the environment are arguments.
pub mod Windows
pub mod Capped
pub mod Retried
use xcoder.Prelude.{
  ℕ, ◌+◌, ◌-◌, ltb, leb, Bool, true, false, not, ◌||◌, Option, none, some, List, [], ◌∷◌, ◌++◌,
  length, keep, take, max, or_default, if◌then◌else◌,
}
use xcoder.Prelude.Text.{Text, codes, trim}
use xcoder.Prelude.Keys.{Dict, text_keys, lookup, insert}
use xcoder.Prelude.Keys.Distinct.{keep_values}

pub record Limit : Type 0 where
  pub window : ℕ
  pub most : ℕ

-- `limited` has the time to wait; with no attempt on record the program has no number there.
pub data Answer : Type 0 where
  admitted : Answer
  limited : Option ℕ → Answer

abbrev pub Attempts : Type 0
Attempts = Dict Text (List ℕ)

-- `now - t < windowMs`, with a time ahead of `now` counted as of now
unfoldable pub is_recent : ℕ → ℕ → ℕ → Bool
is_recent window now t = ltb (now - t) window

abbrev pub attempts_of : Text → Attempts → List ℕ
attempts_of key store = or_default (lookup key store) []

-- `windowMs - (now - oldest)`
abbrev pub retry_after : ℕ → ℕ → List ℕ → Option ℕ
retry_after window now [] = none
retry_after window now (oldest ∷ ts) = some (window + oldest - now)

abbrev pub answer_recent : Limit → Text → ℕ → Attempts → List ℕ → Answer × Attempts
answer_recent l key now store recent =
    if leb l.most (length recent)
    then (limited (retry_after l.window now recent), insert key recent store)
    else (admitted, insert key (recent ++ now ∷ []) store)

unfoldable pub check_rate_limit_with_config : Limit → Text → ℕ → Attempts → Answer × Attempts
check_rate_limit_with_config l key now store =
    answer_recent l key now store (keep (is_recent l.window now) (attempts_of key store))

abbrev login_limit : Limit
login_limit = record { window = 900000; most = 10 }

unfoldable pub check_rate_limit : Text → ℕ → Attempts → Answer × Attempts
unfolding check_rate_limit_with_config
check_rate_limit key = check_rate_limit_with_config login_limit key

abbrev is_limited : Answer → Bool
is_limited admitted = false
is_limited (limited r) = true

abbrev wait : Answer → ℕ
wait admitted = 0
wait (limited r) = or_default r 0

-- `Math.max(...)` of the waits of the limited ones
abbrev pub worst : Answer → Answer → Answer → Answer
worst a b c =
    if is_limited a || is_limited b || is_limited c
    then limited (some (max (wait a) (max (wait b) (wait c))))
    else admitted

-- The environment's numbers for the buckets of an address and of a name.
pub record LoginLimits : Type 0 where
  pub ip_most : ℕ
  pub user_most : ℕ

-- All three buckets are charged, also when the first is full.
unfoldable pub check_login_rate_limit :
    (Text → Text) → LoginLimits → Text → Text → ℕ → Attempts → Answer × Attempts
unfolding check_rate_limit_with_config
check_login_rate_limit lower l ip username now store =
    let u = take 200 (lower (trim username)) in
    let a = check_rate_limit_with_config login_limit (ip ++ codes ":" ++ u) now store in
    let b =
      check_rate_limit_with_config (record { window = 900000; most = l.ip_most })
        (codes "login-ip:" ++ ip) now a.1 in
    let c =
      check_rate_limit_with_config (record { window = 900000; most = l.user_most })
        (codes "login-user:" ++ u) now b.1 in
    (worst a.0 b.0 c.0, c.1)

unfoldable pub check_task_rate_limit : Limit → Text → ℕ → Attempts → Answer × Attempts
unfolding check_rate_limit_with_config
check_task_rate_limit l user_id = check_rate_limit_with_config l (codes "task:" ++ user_id)

unfoldable pub check_workspace_rate_limit : Limit → Text → ℕ → Attempts → Answer × Attempts
unfolding check_rate_limit_with_config
check_workspace_rate_limit l user_id =
    check_rate_limit_with_config l (codes "workspace:" ++ user_id)

abbrev last_from : ℕ → List ℕ → ℕ
last_from t [] = t
last_from t (x ∷ xs) = last_from x xs

-- `attempts[attempts.length - 1] ?? 0`
abbrev pub most_recent : List ℕ → ℕ
most_recent [] = 0
most_recent (x ∷ xs) = last_from x xs

-- The longest window of all limits.
unfoldable pub sweep_interval : Limit → Limit → ℕ
sweep_interval task workspace = max login_limit.window (max task.window workspace.window)

-- The periodic sweep: keys without an attempt for that long go.
unfoldable pub sweep : ℕ → ℕ → Attempts → Attempts
unfolding keep_values
sweep interval now store = keep_values (λ ts. not (leb interval (now - most_recent ts))) store
