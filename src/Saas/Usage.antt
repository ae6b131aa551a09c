-- ===== src/Saas/Usage.antt =====
-- Monthly usage and the metered client (src/saas/usage.ts and src/saas/metering.ts). The month is an
-- argument, token counts are whole numbers, and saving is left out.
pub mod Overrun
use xcoder.Prelude.{
  ℕ, ◌+◌, leb, Bool, true, false, not, ◌||◌, Option, none, some, List, [], ◌∷◌, or_default,
  if◌then◌else◌, map,
}
use xcoder.Prelude.Text.{Text}
use xcoder.Prelude.Keys.{Dict, text_keys, lookup, insert}
use xcoder.Saas.Roles.{Role, saas_owner, saas_ops}
use xcoder.Saas.Plans.{Limits}
use xcoder.Saas.Tenants.{Tenant, Store, get_tenant, effective_quota}

pub record Usage : Type 0 where
  pub tokens : ℕ
  pub requests : ℕ

abbrev pub no_usage : Usage
no_usage = record { tokens = 0; requests = 0 }

-- usage by month, by tenant
abbrev pub Usages : Type 0
Usages = Dict Text (Dict Text Usage)

abbrev pub months_of : Text → Usages → Dict Text Usage
months_of id s = or_default (lookup id s) []

unfoldable pub get_usage : Text → Text → Usages → Usage
get_usage month id s = or_default (lookup month (months_of id s)) no_usage

unfoldable pub record_usage : Text → Text → ℕ → ℕ → Usages → Usages
unfolding get_usage
record_usage month id tokens requests s =
    let u = get_usage month id s in
    let u' : Usage = record { tokens = u.tokens + tokens; requests = u.requests + requests } in
    insert id (insert month u' (months_of id s)) s

unfoldable pub all_usage : Text → Usages → Dict Text Usage
all_usage month s = map (λ (id, months). (id, get_usage month id s)) s

pub data OverQuota : Type 0 where
  tokens_spent requests_spent : ℕ → OverQuota

-- `used >= limit`; nothing reaches `undefined`
abbrev pub reaches : ℕ → Option ℕ → Bool
reaches n none = false
reaches n (some limit) = leb limit n

abbrev pub limit_or_0 : Option ℕ → ℕ
limit_or_0 o = or_default o 0

unfoldable pub over_limits : Limits → Usage → Option OverQuota
over_limits q u =
    if reaches u.tokens q.monthly_tokens
    then some (tokens_spent (limit_or_0 q.monthly_tokens))
    else if reaches u.requests q.monthly_requests
    then some (requests_spent (limit_or_0 q.monthly_requests))
    else none

abbrev pub over_tenant : Option Tenant → Usage → Option OverQuota
over_tenant none u = none
over_tenant (some t) u = over_limits (effective_quota t) u

unfoldable pub quota_exceeded : Store → Text → Text → Usages → Option OverQuota
quota_exceeded tenants month id s =
    over_tenant (get_tenant (some id) tenants) (get_usage month id s)

-- Who calls: the tenant's id and the role, if there is a tenant context.
pub record Caller : Type 0 where
  pub tenant_id : Text
  pub role : Role

pub data Metered : Type 0 where
  over_quota : OverQuota → Metered
  -- what the model answered, with its tokens; `none` if it threw
  passed_on : Option ℕ → Metered

abbrev pub is_unmetered : Role → Bool
is_unmetered saas_owner = true
is_unmetered saas_ops = true
is_unmetered _ = false

abbrev pub meter_answer : Text → Text → Option ℕ → Usages → Metered × Usages
meter_answer month id none s = (passed_on none, s)
meter_answer month id (some tokens) s = (passed_on (some tokens), record_usage month id tokens 1 s)

-- A call that waits for the model: it was refused, passes unmetered, or is metered for this tenant.
pub data Begun : Type 0 where
  turned_away : OverQuota → Begun
  unmetered : Begun
  metered : Text → Begun

abbrev pub by_quota : Text → Option OverQuota → Begun
by_quota id (some e) = turned_away e
by_quota id none = metered id

-- `MeteredLlmClient.complete` up to the answer of the model; other calls may come before that answer. `byo`
-- says that the tenant pays with its own key.
unfoldable pub begin_complete : Bool → Bool → Store → Text → Option Caller → Usages → Begun
unfolding quota_exceeded
begin_complete saas byo tenants month none s = unmetered
begin_complete saas byo tenants month (some c) s =
    if not saas || is_unmetered c.role
    then unmetered
    else by_quota c.tenant_id (if byo then none else quota_exceeded tenants month c.tenant_id s)

-- The rest of it, after the model has answered, or thrown, in this month.
unfoldable pub finish_complete : Text → Begun → Option ℕ → Usages → Metered × Usages
unfolding record_usage
finish_complete month (turned_away e) answer s = (over_quota e, s)
finish_complete month unmetered answer s = (passed_on answer, s)
finish_complete month (metered id) answer s = meter_answer month id answer s
