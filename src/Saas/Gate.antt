-- ===== src/Saas/Gate.antt =====
-- Who may act and where (`resolveTenant` of src/saas/guards.ts, `tenantGate` of src/saas/gate.ts). Whether
-- a tenant pays with its own key (src/llm/connections.ts) is an argument.
pub mod Isolated
use xcoder.Prelude.{
  ℕ, ◌==◌, Bool, true, false, not, ◌&&◌, ◌||◌, Option, none, some, String, str_eq, List, [], ◌∷◌,
  ◌++◌, exists, find, if◌then◌else◌,
}
use xcoder.Prelude.Text.{Text, codes, after_prefix, starts_with, one_of}
use xcoder.Saas.Roles.{Role, is_platform_staff, is_tenant_member}
use xcoder.Saas.Features.{Deployment, TenantView, effective_features}
use xcoder.Saas.Tenants.{TenantStatus, active, suspended, deleted, Tenant, Store, get_tenant}
use xcoder.Saas.Usage.{Usages, OverQuota, quota_exceeded}

pub record Principal : Type 0 where
  pub user_id : Text
  pub username : Text
  pub role : Role
  pub tenant_id : Text

pub data Denial : Type 0 where
  tenant_not_found : Denial
  tenant_suspended : Option Text → Denial

pub data Resolved : Type 0 where
  admitted : List String → Resolved
  denied : Denial → Resolved

abbrev pub has_instance {ℓ} : {A : Type ℓ} → Option A → Bool
has_instance none = false
has_instance (some a) = true

abbrev pub view_of : Tenant → TenantView
view_of t = record { features = t.features; has_agi = has_instance t.agi }

abbrev pub resolve_status : Deployment → Role → Tenant → TenantStatus → Resolved
resolve_status d role t active = admitted (effective_features d role (some (view_of t)))
resolve_status d role t suspended = denied (tenant_suspended t.suspended_reason)
resolve_status d role t deleted = denied tenant_not_found

abbrev pub resolve_found : Deployment → Role → Option Tenant → Resolved
resolve_found d role none = denied tenant_not_found
resolve_found d role (some t) = resolve_status d role t t.status

unfoldable pub resolve_tenant : Deployment → Store → Principal → Resolved
resolve_tenant d tenants p =
    if not d.saas_mode || is_platform_staff p.role d.saas_mode
    then admitted (effective_features d p.role none)
    else resolve_found d p.role (get_tenant (some p.tenant_id) tenants)

-- what a rule does with a request
pub data RuleKind : Type 0 where
  disabled tenant_content platform_only : RuleKind
  feature : String → RuleKind

-- no methods stand for all of them
pub record Rule : Type 0 where
  pub methods : List Text
  pub matches : Text → Bool
  pub kind : RuleKind

abbrev pub ends_segment : Option Text → Bool
ends_segment none = false
ends_segment (some []) = true
ends_segment (some (c ∷ s)) = c == 47

-- `/^<prefix>(\/|$)/`
unfoldable pub under : Text → Text → Bool
unfolding after_prefix
under prefix path = ends_segment (after_prefix prefix path)

-- `[^/]+\/logs`, after the first character of the segment
abbrev pub logs_after : Text → Bool
logs_after [] = false
logs_after (c ∷ s) = if c == 47 then starts_with (codes "logs") s else logs_after s

abbrev pub logs_of : Option Text → Bool
logs_of none = false
logs_of (some []) = false
logs_of (some (c ∷ s)) = if c == 47 then false else logs_after s

unfoldable pub is_task_logs : Text → Bool
unfolding after_prefix starts_with
is_task_logs path = logs_of (after_prefix (codes "/task-history/") path)

abbrev pub content_areas : List Text
content_areas =
    codes "/chat"
    ∷ codes "/projects"
    ∷ codes "/plans"
    ∷ codes "/task-history"
    ∷ codes "/phase-reports"
    ∷ codes "/wbs"
    ∷ codes "/workspace"
    ∷ codes "/crm"
    ∷ codes "/tenant"
    ∷ codes "/llm"
    ∷ []

abbrev rule : (Text → Bool) → RuleKind → Rule
rule matches kind = record { methods = []; matches = matches; kind = kind }

unfoldable pub route_policy : List Rule
unfolding under starts_with is_task_logs
route_policy =
    rule is_task_logs disabled
    ∷ rule (under (codes "/users")) platform_only
    ∷ rule (under (codes "/telemetry")) platform_only
    ∷ rule (under (codes "/audit-log")) platform_only
    ∷ rule (starts_with (codes "/settings/llm-")) platform_only
    ∷ record {
      methods = codes "PUT" ∷ codes "POST" ∷ codes "DELETE" ∷ [];
      matches = starts_with (codes "/settings/");
      kind = platform_only;
    }
    ∷ rule (starts_with (codes "/platform/cache")) platform_only
    ∷ rule (starts_with (codes "/platform/integrations/codegraph")) (feature "codegraph")
    ∷ rule (under (codes "/codegraph-api")) (feature "codegraph")
    ∷ rule (under (codes "/agi")) (feature "agi")
    ∷ rule (under (codes "/security-ops")) (feature "security_ops")
    ∷ rule (under (codes "/crm")) (feature "crm")
    ∷ rule (under (codes "/saas")) (feature "saas_management")
    ∷ rule (λ path. exists (λ area. under area path) content_areas) tenant_content
    ∷ []

abbrev pub method_ok : List Text → Text → Bool
method_ok [] m = true
method_ok (x ∷ xs) m = one_of (x ∷ xs) m

-- the first rule of the request; both tests have no effects, so their order does not count
abbrev pub first_kind : List Rule → Text → Text → Option RuleKind
first_kind [] method path = none
first_kind (r ∷ rs) method path =
    if r.matches path && method_ok r.methods method then some r.kind else first_kind rs method path

unfoldable pub rule_for : Text → Text → Option RuleKind
unfolding route_policy
rule_for method path = first_kind route_policy method path

-- the legacy mode looks for the first feature rule, of any method
abbrev pub first_feature : List Rule → Text → Option String
first_feature [] path = none
first_feature (r ∷ rs) path =
    let rest = first_feature rs path in
    elim r.kind [ feature id ↦ (if r.matches path then some id else rest) | _ ↦ rest ]

pub data Refusal : Type 0 where
  tenant_denied : Denial → Refusal
  route_disabled platform_staff_only content_for_members : Refusal
  feature_off : String → Refusal
  quota_reached : OverQuota → Refusal

abbrev pub status_of : Refusal → ℕ
status_of (tenant_denied e) = 403
status_of route_disabled = 501
status_of platform_staff_only = 403
status_of content_for_members = 403
status_of (feature_off id) = 403
status_of (quota_reached e) = 429

pub record Context : Type 0 where
  pub tenant_id : Text
  pub user_id : Text
  pub role : Role
  pub features : List String

-- `anonymous` goes on with no context.
pub data Decision : Type 0 where
  anonymous : Decision
  passes : Context → Decision
  refuses : Refusal → Decision

pub record Request : Type 0 where
  pub method : Text
  pub path : Text

abbrev pub has : List String → String → Bool
has ids id = exists (λ x. str_eq x id) ids

abbrev pub kind_refuses : Bool → Role → List String → Option RuleKind → Option Refusal
kind_refuses saas role ids none = none
kind_refuses saas role ids (some disabled) = some route_disabled
kind_refuses saas role ids (some platform_only) =
    if is_platform_staff role saas then none else some platform_staff_only
kind_refuses saas role ids (some tenant_content) =
    if is_tenant_member role saas then none else some content_for_members
kind_refuses saas role ids (some (feature id)) = if has ids id then none else some (feature_off id)

unfoldable pub is_staff_surface : Text → Bool
unfolding under starts_with
is_staff_surface path =
    under (codes "/saas") path
    || starts_with (codes "/platform/integrations/codegraph") path
    || starts_with (codes "/codegraph-api") path

unfoldable pub spends_quota : Bool → Principal → Request → Bool
unfolding under
spends_quota saas p q =
    one_of (codes "POST" ∷ []) q.method
    && under (codes "/chat") q.path
    && is_tenant_member p.role saas

abbrev pub quota_refuses : Option OverQuota → Option Refusal
quota_refuses none = none
quota_refuses (some e) = some (quota_reached e)

abbrev pub first_refusal : Option Refusal → Option Refusal → Option Refusal
first_refusal (some e) rest = some e
first_refusal none rest = rest

-- The checks of the SaaS mode, in their order.
unfoldable pub saas_refuses :
    Bool → Option OverQuota → Principal → List String → Request → Option Refusal
saas_refuses saas over p ids q =
    first_refusal (kind_refuses saas p.role ids (rule_for q.method q.path)) (
      first_refusal (if spends_quota saas p q then quota_refuses over else none) (
        if is_tenant_member p.role saas && is_staff_surface q.path
        then some platform_staff_only
        else none))

abbrev pub legacy_refuses : List String → Option String → Option Refusal
legacy_refuses ids none = none
legacy_refuses ids (some id) = if has ids id then none else some (feature_off id)

abbrev pub decide : Principal → List String → Option Refusal → Decision
decide p ids (some e) = refuses e
decide p ids none =
    passes (record { tenant_id = p.tenant_id; user_id = p.user_id; role = p.role; features = ids })

abbrev pub gate_resolved : Deployment → Option OverQuota → Principal → Request → Resolved → Decision
gate_resolved d over p q (denied e) = refuses (tenant_denied e)
gate_resolved d over p q (admitted ids) = decide p ids (
    if d.saas_mode
    then saas_refuses d.saas_mode over p ids q
    else legacy_refuses ids (first_feature route_policy q.path))

unfoldable pub tenant_gate :
    Deployment → Store → (Text → Bool) → Text → Usages → Option Principal → Request → Decision
tenant_gate d tenants uses_own_key month usages none q = anonymous
tenant_gate d tenants uses_own_key month usages (some p) q =
    gate_resolved d
      (if uses_own_key p.tenant_id then none else quota_exceeded tenants month p.tenant_id usages) p
      q (resolve_tenant d tenants p)
