-- ===== src/Health/Steps/Withheld.antt =====
-- Which calls of a cut-off answer are withheld (src/core/truncationGuard.ts).
use xcoder.Prelude.{
  ◌≡◌, refl, sym, ap, ◌∙◌, Bool, true, false, not, ◌&&◌, List, [], ◌∷◌, keep, if◌then◌else◌,
}
use xcoder.Health.Messages.{ToolCall}
use xcoder.Health.Steps.{
  TruncationCheckResult, is_large, split_calls, check_for_truncated_tool_calls,
}

put_safe :
    (c : ToolCall) (r : TruncationCheckResult) (b : Bool)
    → (if b
        then record r { blocked_calls = c ∷ r.blocked_calls }
        else record r { safe_calls = c ∷ r.safe_calls }).safe_calls
      ≡ (if not b then c ∷ r.safe_calls else r.safe_calls)
put_safe c r true = refl
put_safe c r false = refl

put_blocked :
    (c : ToolCall) (r : TruncationCheckResult) (b : Bool)
    → (if b
        then record r { blocked_calls = c ∷ r.blocked_calls }
        else record r { safe_calls = c ∷ r.safe_calls }).blocked_calls
      ≡ (if b then c ∷ r.blocked_calls else r.blocked_calls)
put_blocked c r true = refl
put_blocked c r false = refl

split-safe :
    (cs : List ToolCall) → (split_calls cs).safe_calls ≡ keep (λ c. not (is_large c.name)) cs
unfolding split_calls
split-safe [] = refl
split-safe (c ∷ cs) =
    put_safe c (split_calls cs) (is_large c.name)
    ∙ ap (λ l. if not (is_large c.name) then c ∷ l else l) (split-safe cs)

split-blocked :
    (cs : List ToolCall) → (split_calls cs).blocked_calls ≡ keep (λ c. is_large c.name) cs
unfolding split_calls
split-blocked [] = refl
split-blocked (c ∷ cs) =
    put_blocked c (split_calls cs) (is_large c.name)
    ∙ ap (λ l. if is_large c.name then c ∷ l else l) (split-blocked cs)

keep-all : (cs : List ToolCall) → keep (λ c. true) cs ≡ cs
keep-all [] = refl
keep-all (c ∷ cs) = ap (λ l. c ∷ l) (keep-all cs)

keep-nothing : (cs : List ToolCall) → keep (λ c. false) cs ≡ []
keep-nothing [] = refl
keep-nothing (c ∷ cs) = keep-nothing cs

-- The calls are withheld, in order, that write files in an answer that was cut off; all others are safe.
pub check-withholds :
    (is_length : Bool) (calls : List ToolCall)
    → ((check_for_truncated_tool_calls is_length calls).safe_calls
        ≡ keep (λ c. not (is_length && is_large c.name)) calls)
      × ((check_for_truncated_tool_calls is_length calls).blocked_calls
          ≡ keep (λ c. is_length && is_large c.name) calls)
unfolding check_for_truncated_tool_calls
check-withholds true calls = (split-safe calls, split-blocked calls)
check-withholds false calls = (sym (keep-all calls), sym (keep-nothing calls))
