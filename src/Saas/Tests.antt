-- ===== src/Saas/Tests.antt =====
-- Runs of the tenant models (src/saas).
use xcoder.Prelude.{◌≡◌, refl, ◌⊎◌, ◌↔◌, Bool, Option, true, false, none, some, List, [], ◌∷◌}
use xcoder.Prelude.Text.{Text, codes, to_lower, trim}
use xcoder.Prelude.Keys.{string_keys, text_keys, lookup, insert, merge}
use xcoder.Saas.Roles.{tenant_admin, tenant_user, is_platform_staff, is_tenant_member}
use xcoder.Saas.Features.{
  def, app_module, feature_def, FeatureDef, Deployment, TenantView, feature_enabled_for,
  parse_tenant_feature_patch, check_entries, check_entry, platform_enabled, platform_switch,
  env_override, enabled_in_mode, tenant_allows, allowed_by_tenant,
}
use xcoder.Saas.Features.Escalation.{MayEnable, patch-escalates}
use xcoder.Saas.Ids.{is_alphanumeric, slugify}
use xcoder.Saas.Tenants.{
  active, deleted, Tenant, Store, NewTenant, TenantPatch, create_tenant, get_tenant,
}
use xcoder.Saas.Tenants.Created.{Creates, create_tenant-Creates}
use xcoder.Saas.Tenants.Deleted.{
  Change, creates, sets_status, change_all, IsDeleted, change_all-IsDeleted,
}
use xcoder.Saas.Usage.{Usages, Caller, metered, finish_complete}
use xcoder.Saas.Gate.{
  Principal, Decision, anonymous, passes, Context, Request, tenant_gate, resolve_tenant,
  saas_refuses, rule_for, is_task_logs, under, spends_quota, is_staff_surface,
}
use xcoder.Saas.Gate.Isolated.{Admits, tenant_gate-Isolated}

abbrev hosted : Deployment
hosted = record { saas_mode = true; env = λ id. []; switches = [] }

abbrev acme : Tenant
acme = record {
  id = codes "acme";
  name = codes "Acme";
  plan = codes "free";
  status = active;
  features = ("crm", false) ∷ [];
  quotas = none;
  created_at = [];
  updated_at = [];
  agi = none;
  suspended_reason = none;
  deleted_at = none;
}

abbrev gone : Tenant
gone = record acme { id = codes "gone"; status = deleted }

abbrev tenants : Store
tenants = (codes "acme", acme) ∷ (codes "gone", gone) ∷ []

abbrev acme_view : TenantView
acme_view = record { features = acme.features; has_agi = false }

abbrev crm : FeatureDef
crm = def "crm" app_module false true false true true

patch-escalates_example :
    (feature_enabled_for hosted "crm" tenant_user (some acme_view) ≡ true) ⊎ MayEnable hosted "crm"
unfolding parse_tenant_feature_patch check_entries check_entry platform_enabled platform_switch
    env_override feature_def feature_enabled_for lookup merge insert enabled_in_mode
    is_platform_staff tenant_allows allowed_by_tenant
patch-escalates_example =
    patch-escalates hosted "crm" tenant_user acme_view (some (("crm", some true) ∷ []))
      (("crm", true) ∷ []) refl refl

abbrev initech : NewTenant
initech = record { name = some (codes "Initech"); plan = none; features = none }

create_tenant-Creates_example :
    Creates
      (codes "Initech")
      (codes "free")
      tenants
      (create_tenant to_lower initech (codes "a1b2c3") (codes "0123abcd") (codes "today") tenants)
unfolding is_alphanumeric lookup slugify to_lower trim
create_tenant-Creates_example =
    create_tenant-Creates to_lower initech (codes "a1b2c3") (codes "0123abcd") (codes "today")
      tenants (refl, refl) refl refl

abbrev revival : List Change
revival =
    sets_status (codes "gone") active none (codes "now")
    ∷ creates (record { name = some (codes "Gone"); plan = none; features = none }) (codes "a1b2c3")
        (codes "0123abcd") (codes "now")
    ∷ sets_status (codes "acme") deleted none (codes "now")
    ∷ []

change_all-IsDeleted_example : IsDeleted (codes "gone") (change_all to_lower revival tenants)
unfolding lookup slugify to_lower trim is_alphanumeric
change_all-IsDeleted_example =
    change_all-IsDeleted to_lower revival (codes "gone") tenants
      (record { tenant = gone; found = refl; gone = refl }) (tt, ((refl, refl), (tt, tt)))

abbrev half_good : TenantPatch
half_good = record {
  name = some (codes "Bcme");
  plan = some (codes "gold");
  quotas = none;
  features = none;
}

abbrev by_user : Option Caller
by_user = some (record { tenant_id = codes "acme"; role = tenant_user })

abbrev month_1 : Text
month_1 = codes "2026-01"

abbrev spent_once : Usages
spent_once = (finish_complete month_1 (metered (codes "acme")) (some 150_000) []).1

abbrev spent_twice : Usages
spent_twice = (finish_complete month_1 (metered (codes "acme")) (some 120_000) spent_once).1

abbrev ann : Principal
ann = record {
  user_id = codes "1";
  username = codes "ann";
  role = tenant_admin;
  tenant_id = codes "acme";
}

abbrev list_projects : Request
list_projects = record { method = codes "GET"; path = codes "/projects/7" }

tenant_gate-Isolated_example :
    ((tenant_gate hosted tenants (λ id. true) (codes "2026-01") [] (some ann) list_projects
        ≡ anonymous)
      ↔ (some ann ≡ none))
    × ((c : Context)
        → tenant_gate hosted tenants (λ id. true) (codes "2026-01") [] (some ann) list_projects
          ≡ passes c
        → Admits true tenants (some ann) (codes "/projects/7") c)
unfolding tenant_gate resolve_tenant get_tenant lookup saas_refuses rule_for is_task_logs under
    spends_quota is_staff_surface is_platform_staff is_tenant_member
tenant_gate-Isolated_example =
    tenant_gate-Isolated hosted tenants (λ id. true) (codes "2026-01") [] (some ann) list_projects
      refl

-- This request gets through.
abbrev got_through : Decision → Bool
got_through (passes c) = true
got_through _ = false

member_passes :
    got_through
      (tenant_gate hosted tenants (λ id. true) (codes "2026-01") [] (some ann) list_projects)
    ≡ true
unfolding tenant_gate resolve_tenant get_tenant lookup saas_refuses rule_for is_task_logs under
    spends_quota is_staff_surface is_platform_staff is_tenant_member
member_passes = refl
