-- ===== src/Saas/Tenants.antt =====
-- The tenants and their plans (src/saas/tenantStore.ts). Random ids, the time and lower case are arguments;
-- saving is left out. An operation on an id that is spelled like a property of `Object.prototype` is
-- modelled only where a new id is chosen, and for plans.
pub mod Fresh
pub mod Created
pub mod Deleted
pub mod Refused
use xcoder.Prelude.{
  ℕ, ◌+◌, ◌==◌, ltb, leb, Bool, true, false, not, ◌&&◌, ◌||◌, Option, none, some, List, [], ◌∷◌,
  ◌++◌, length, take, every, map, or_default, if◌then◌else◌, String,
}
use mathlib.Core.List.{reverse}
use xcoder.Prelude.Text.{Text, codes, trim, one_of, non_empty}
use xcoder.Saas.Plans.{Limits, free_plan, inherited_names, plan_of, plan_known}
use xcoder.Saas.Ids.{slugify, valid_tenant_id}
use xcoder.Prelude.Keys.{Dict, text_keys, string_keys, lookup, insert, merge}

pub data TenantStatus : Type 0 where
  active suspended deleted : TenantStatus

pub record AgiInstance : Type 0 where
  pub url : Text
  pub token : Option Text

pub record Tenant : Type 0 where
  pub id : Text
  pub name : Text
  pub plan : Text
  pub status : TenantStatus
  pub features : Dict String Bool
  pub quotas : Option Limits
  pub created_at : Text
  pub updated_at : Text
  pub agi : Option AgiInstance
  pub suspended_reason : Option Text
  pub deleted_at : Option Text

abbrev pub Store : Type 0
Store = Dict Text Tenant

pub data TenantError : Type 0 where
  name_length not_found is_deleted : TenantError
  unknown_plan : Text → TenantError

pub data Answer : Type 0 where
  ok : Tenant → Answer
  refused : TenantError → Answer

abbrev pub default_tenant_id : Text
default_tenant_id = codes "default"

abbrev pub is_stored : Text → Store → Bool
is_stored id m = elim (lookup id m) [ none ↦ false | some t ↦ true ]

unfoldable pub get_tenant : Option Text → Store → Option Tenant
get_tenant none m = none
get_tenant (some []) m = none
get_tenant (some (c ∷ s)) m = elim (lookup (c ∷ s) m) [
  | some t ↦ some t
  | none ↦
      if one_of (default_tenant_id ∷ []) (c ∷ s)
      then some (record {
        id = c ∷ s;
        name = codes "Default";
        plan = codes "enterprise";
        status = active;
        features = [];
        quotas = none;
        created_at = codes "1970-01-01T00:00:00.000Z";
        updated_at = codes "1970-01-01T00:00:00.000Z";
        agi = none;
        suspended_reason = none;
        deleted_at = none;
      })
      else none
]

unfoldable pub name_ok : Text → Bool
name_ok n = leb 2 (length n) && leb (length n) 80

pub record NewTenant : Type 0 where
  pub name : Option Text
  pub plan : Option Text
  pub features : Option (Dict String Bool)

-- the id of a new tenant; `hex3` and `hex4` are the random bytes in hexadecimal
unfoldable pub new_id : (Text → Text) → Text → Text → Text → Store → Text
new_id lower name hex3 hex4 m =
    let s = slugify lower name in
    let id =
      if is_stored s m || one_of inherited_names s || one_of (default_tenant_id ∷ []) s
      then s ++ codes "-" ++ hex3
      else s in
    if valid_tenant_id id then id else codes "t-" ++ hex4

unfoldable pub create_tenant :
    (Text → Text) → NewTenant → Text → Text → Text → Store → Answer × Store
create_tenant lower input hex3 hex4 now m =
    let name = trim (or_default input.name []) in
    let plan = or_default input.plan (codes "free") in
    if not (name_ok name)
    then (refused name_length, m)
    else if not (plan_known plan)
    then (refused (unknown_plan plan), m)
    else let id = new_id lower name hex3 hex4 m in
      let t : Tenant = record {
        id = id;
        name = name;
        plan = plan;
        status = active;
        features = or_default input.features [];
        quotas = none;
        created_at = now;
        updated_at = now;
        agi = none;
        suspended_reason = none;
        deleted_at = none;
      } in
      (ok t, insert id t m)

pub record TenantPatch : Type 0 where
  pub name : Option Text
  pub plan : Option Text
  pub quotas : Option Limits
  pub features : Option (Dict String Bool)

-- One field of a patch: the tenant goes on, changed or not, or the update is refused at this tenant.
-- The cached object is changed in place, so what was changed before a refusal stays.
pub data Patching : Type 0 where
  goes_on : Tenant → Patching
  stops : TenantError → Tenant → Patching

unfoldable pub patch_name : Option Text → Tenant → Patching
patch_name none t = goes_on t
patch_name (some n) t =
    if name_ok (trim n) then goes_on (record t { name = trim n }) else stops name_length t

unfoldable pub patch_plan : Option Text → Tenant → Patching
patch_plan none t = goes_on t
patch_plan (some p) t =
    if plan_known p then goes_on (record t { plan = p }) else stops (unknown_plan p) t

abbrev pub and_then : Patching → (Tenant → Patching) → Patching
and_then (goes_on t) f = f t
and_then (stops e t) f = stops e t

-- the fields that are not checked
unfoldable pub patch_rest : TenantPatch → Text → Tenant → Patching
patch_rest p now t = goes_on (record t {
  quotas = elim p.quotas [ none ↦ t.quotas | some q ↦ some q ];
  features = elim p.features [ none ↦ t.features | some f ↦ merge t.features f ];
  updated_at = now;
})

abbrev pub store_patched : Text → Store → Patching → Answer × Store
store_patched id m (goes_on t) = (ok t, insert id t m)
store_patched id m (stops e t) = (refused e, insert id t m)

abbrev pub is_gone : TenantStatus → Bool
is_gone deleted = true
is_gone _ = false

unfoldable pub patch_tenant : TenantPatch → Text → Tenant → Patching
patch_tenant p now t =
    and_then (and_then (patch_name p.name t) (patch_plan p.plan)) (patch_rest p now)

abbrev pub update_found : Text → TenantPatch → Text → Store → Option Tenant → Answer × Store
update_found id p now m none = (refused not_found, m)
update_found id p now m (some t) =
    if is_gone t.status then (refused not_found, m) else store_patched id m (patch_tenant p now t)

unfoldable pub update_tenant : Text → TenantPatch → Text → Store → Answer × Store
update_tenant id p now m = update_found id p now m (lookup id m)

-- the reason of a suspension, cut
abbrev pub reason_for : TenantStatus → Option Text → Option Text
reason_for suspended reason = some (take 200 (or_default reason []))
reason_for active reason = none
reason_for deleted reason = none

unfoldable pub with_status : TenantStatus → Option Text → Text → Tenant → Tenant
with_status status reason now t = record t {
  status = status;
  suspended_reason = reason_for status reason;
  deleted_at = if is_gone status then some now else t.deleted_at;
  updated_at = now;
}

abbrev pub status_found :
    Text → TenantStatus → Option Text → Text → Store → Option Tenant → Answer × Store
status_found id status reason now m none = (refused not_found, m)
status_found id status reason now m (some t) =
    if is_gone t.status && not (is_gone status)
    then (refused is_deleted, m)
    else (ok (with_status status reason now t), insert id (with_status status reason now t) m)

unfoldable pub set_tenant_status : Text → TenantStatus → Option Text → Text → Store → Answer × Store
set_tenant_status id status reason now m = status_found id status reason now m (lookup id m)

unfoldable pub with_agi : Option AgiInstance → Text → Tenant → Tenant
with_agi none now t = record t {
  agi = none;
  features = insert "agi" false t.features;
  updated_at = now;
}
with_agi (some a) now t = record t {
  agi = some a;
  features = insert "agi" true t.features;
  updated_at = now;
}

abbrev pub agi_found : Text → Option AgiInstance → Text → Store → Option Tenant → Answer × Store
agi_found id agi now m none = (refused not_found, m)
agi_found id agi now m (some t) =
    if is_gone t.status
    then (refused not_found, m)
    else (ok (with_agi agi now t), insert id (with_agi agi now t) m)

unfoldable pub set_tenant_agi : Text → Option AgiInstance → Text → Store → Answer × Store
set_tenant_agi id agi now m = agi_found id agi now m (lookup id m)

abbrev override_limit : Option ℕ → Option ℕ → Option ℕ
override_limit none base = base
override_limit (some n) base = some n

abbrev overridden : Option Limits → Limits → Limits
overridden none base = base
overridden (some q) base = record {
  max_users = override_limit q.max_users base.max_users;
  monthly_tokens = override_limit q.monthly_tokens base.monthly_tokens;
  monthly_requests = override_limit q.monthly_requests base.monthly_requests;
  max_projects = override_limit q.max_projects base.max_projects;
}

unfoldable pub effective_quota : Tenant → Limits
effective_quota t = overridden t.quotas (or_default (plan_of t.plan) free_plan)
