-- ===== src/Saas/Usage/Overrun.antt =====
-- By how much a tenant can exceed its allowance (src/saas/usage.ts, src/saas/metering.ts).
use xcoder.Prelude.{
  zero, suc, length, ◌++◌, ℕ, ◌+◌, ◌≤◌, ◌<◌, ◌≡◌, Bool, false, Option, none, some, List, [], ◌∷◌,
  if◌then◌else◌,
}
use xcoder.Prelude.Text.{Text, same_text}
use xcoder.Prelude.Keys.{text_keys}
use xcoder.Saas.Tenants.{Tenant, Store, get_tenant, effective_quota}
use xcoder.Saas.Usage.{
  Usage, Usages, get_usage, Caller, Begun, metered, begin_complete, finish_complete,
}

-- No answer takes more tokens than this.
abbrev pub AtMost : ℕ → Option ℕ → Type 0
AtMost k none = Unit
AtMost k (some n) = n ≤ k

-- What the calls that wait for an answer may still take of this tenant.
abbrev pub owed : Text → ℕ → List Begun → ℕ
owed id k [] = 0
owed id k (metered j ∷ open_calls) = (if same_text j id then k else 0) + owed id k open_calls
owed id k (_ ∷ open_calls) = owed id k open_calls

-- `n` answers of `k` tokens
abbrev pub answers_of : ℕ → ℕ → ℕ
answers_of k zero = 0
answers_of k (suc n) = k + answers_of k n

-- The calls of any callers in one month, in any order of their beginnings and answers, at most `n` of them open at
-- once and with at most `k` tokens in an answer: the calls that are open, and the usage.
pub data Runs (saas : Bool) (tenants : Store) (month : Text) (n k : ℕ) (first : Usages)
    : List Begun → Usages → Type 0 where
  idle : Runs saas tenants month n k first [] first
  begins :
      {open_calls : List Begun} {s : Usages}
      → Runs saas tenants month n k first open_calls s
      → (c : Option Caller) → length open_calls < n
      → Runs saas tenants month n k first
          (begin_complete saas false tenants month c s ∷ open_calls)
          s
  ends :
      (before after : List Begun) {s : Usages} (b : Begun)
      → Runs saas tenants month n k first (before ++ b ∷ after) s
      → (answer : Option ℕ) → AtMost k answer
      → Runs saas tenants month n k first (before ++ after) (finish_complete month b answer s).1

module _ (saas : Bool) (tenants : Store) (month id : Text) (t : Tenant) (q n k : ℕ)
    (known : get_tenant (some id) tenants ≡ some t)
    (limit : (effective_quota t).monthly_tokens ≡ some q) where
  abbrev Within : List Begun → Usages → Type 0
  Within calls s = (get_usage month id s).tokens + owed id k calls ≤ q + answers_of k n
