-- ===== src/Saas/Gate/Isolated.antt =====
-- What the gate keeps apart (src/saas/gate.ts).
use mathlib.Core.Option.{some-injective}
use xcoder.Prelude.{
  ◌↔◌, ℕ, ◌==◌, ==_iff, ◌≡◌, refl, sym, ap, subst, ◌∙◌, ◌⊎◌, inl, inr, Bool, true, false, not, ◌&&◌,
  ◌||◌, Option, none, some, String, List, [], ◌∷◌, ◌++◌, exists, arith, All, if◌then◌else◌, if-both,
  Bool-cases,
}
use xcoder.Prelude.Text.{Text, codes, after_prefix}
use xcoder.Saas.Roles.{Role, is_platform_staff, is_tenant_member}
use xcoder.Saas.Features.{Deployment}
use xcoder.Saas.Tenants.{TenantStatus, active, suspended, deleted, Tenant, Store, get_tenant}
use xcoder.Saas.Usage.{Usages, OverQuota}
use xcoder.Saas.Gate.{
  Principal, anonymous, Resolved, admitted, denied, resolve_status, resolve_found, resolve_tenant,
  RuleKind, disabled, tenant_content, platform_only, feature, under, ends_segment, is_task_logs,
  rule_for, Refusal, Context, passes, Request, kind_refuses, is_staff_surface, first_refusal,
  saas_refuses, decide, gate_resolved, tenant_gate,
}

-- The areas of tenant content that only the content rule guards; for `/crm` an earlier rule counts.
abbrev pub private_areas : List Text
private_areas =
    codes "/chat"
    ∷ codes "/projects"
    ∷ codes "/plans"
    ∷ codes "/task-history"
    ∷ codes "/phase-reports"
    ∷ codes "/wbs"
    ∷ codes "/workspace"
    ∷ codes "/tenant"
    ∷ codes "/llm"
    ∷ []

-- a path of these areas: the area alone, or a folder in it
data InArea : List Text → Text → Type 0 where
  area_itself : {a : Text} {rest_areas : List Text} → InArea (a ∷ rest_areas) a
  area_folder :
      {a : Text} {rest_areas : List Text} (s : Text) → InArea (a ∷ rest_areas) (a ++ 47 ∷ s)
  other_area :
      {a : Text} {rest_areas : List Text} {p : Text}
      → InArea rest_areas p
      → InArea (a ∷ rest_areas) p

append_empty : (s : Text) → s ++ [] ≡ s
append_empty [] = refl
append_empty (c ∷ s) = ap (λ r. c ∷ r) (append_empty s)

after_first :
    (b : Bool) (c x : ℕ) (p s r : Text) (rest : Option Text)
    → (b ≡ true → c ≡ x)
    → (rest ≡ some r → s ≡ p ++ r)
    → (if b then rest else none) ≡ some r
    → x ∷ s ≡ c ∷ (p ++ r)
after_first true c x p s r rest same later h =
    ap (λ y. y ∷ s) (sym (same refl)) ∙ ap (λ t. c ∷ t) (later h)
after_first false c x p s r rest same later h = cc

after_prefix-append : (p s r : Text) → after_prefix p s ≡ some r → s ≡ p ++ r
unfolding after_prefix
after_prefix-append [] s r h = some-injective s r h
after_prefix-append (c ∷ p) [] r h = cc
after_prefix-append (c ∷ p) (x ∷ s) r h =
    after_first (c == x) c x p s r (after_prefix p s) (==_iff c x).0 (after_prefix-append p s r) h

segment-InArea :
    (a path : Text) (rest_areas : List Text) (o : Option Text)
    → after_prefix a path ≡ o
    → ends_segment o ≡ true
    → InArea (a ∷ rest_areas) path
segment-InArea a path rest_areas none e h = cc
segment-InArea a path rest_areas (some []) e h =
    subst (InArea (a ∷ rest_areas)) (sym (after_prefix-append a path [] e ∙ append_empty a))
      area_itself
segment-InArea a path rest_areas (some (c ∷ s)) e h =
    subst (InArea (a ∷ rest_areas))
      (sym (after_prefix-append a path (c ∷ s) e ∙ ap (λ x. a ++ x ∷ s) ((==_iff c 47).0 h)))
      (area_folder s)

under-InArea :
    (rest_areas : List Text) (path : Text)
    → exists (λ a. under a path) rest_areas ≡ true
    → InArea rest_areas path
unfolding under
under-InArea [] path h = cc
under-InArea (a ∷ rest_areas) path h = elim (Bool-cases (ends_segment (after_prefix a path))) [
  | inl here ↦ segment-InArea a path rest_areas (after_prefix a path) refl here
  | inr there ↦ other_area (under-InArea rest_areas path (rw there at h))
]

-- The content rule, or the rule for task logs, which refuses everybody.
abbrev Guarded : Option RuleKind → Type 0
Guarded o = (o ≡ some tenant_content) ⊎ (o ≡ some disabled)

record Guards (method area : Text) : Type 0 where
  itself : Guarded (rule_for method area)
  folder : (s : Text) → Guarded (rule_for method (area ++ 47 ∷ s))

InArea-Guarded :
    (method path : Text) (areas : List Text)
    → InArea areas path
    → All (Guards method) areas
    → Guarded (rule_for method path)
InArea-Guarded method path [] h g = elim h [ ]
InArea-Guarded method path (a ∷ rest) area_itself g = g.0.itself
InArea-Guarded method path (a ∷ rest) (area_folder s) g = g.0.folder s
InArea-Guarded method path (a ∷ rest) (other_area h) g = InArea-Guarded method path rest h g.1

plain_area :
    (method area : Text)
    → rule_for method area ≡ some tenant_content
    → ((s : Text) → rule_for method (area ++ 47 ∷ s) ≡ some tenant_content)
    → Guards method area
plain_area method area i f = record { itself = inl i; folder = λ s. inl (f s) }

task_area : (method : Text) → Guards method (codes "/task-history")
unfolding rule_for
task_area method = record {
  itself = inl refl;
  folder = λ s.
      if-both Guarded (is_task_logs (codes "/task-history" ++ 47 ∷ s) && true) (λ _. inr refl)
        (λ _. inl refl);
}

areas-Guards : (method : Text) → All (Guards method) private_areas
unfolding rule_for
areas-Guards method = (
  plain_area method (codes "/chat") refl (λ s. refl),
  (
    plain_area method (codes "/projects") refl (λ s. refl),
    (
      plain_area method (codes "/plans") refl (λ s. refl),
      (
        task_area method,
        (
          plain_area method (codes "/phase-reports") refl (λ s. refl),
          (
            plain_area method (codes "/wbs") refl (λ s. refl),
            (
              plain_area method (codes "/workspace") refl (λ s. refl),
              (
                plain_area method (codes "/tenant") refl (λ s. refl),
                (plain_area method (codes "/llm") refl (λ s. refl), tt),
              ),
            ),
          ),
        ),
      ),
    ),
  ),
)

no_refusal : (a b : Option Refusal) → first_refusal a b ≡ none → (a ≡ none) × (b ≡ none)
no_refusal none b h = (refl, h)
no_refusal (some e) b h = cc

-- Only tenant members get past the content rule.
Guarded-member :
    (saas : Bool) (role : Role) (ids : List String) (o : Option RuleKind)
    → Guarded o
    → kind_refuses saas role ids o ≡ none
    → is_tenant_member role saas ≡ true
Guarded-member saas role ids none (inl e) h = cc
Guarded-member saas role ids none (inr e) h = cc
Guarded-member saas role ids (some disabled) g h = cc
Guarded-member saas role ids (some platform_only) (inl e) h = cc
Guarded-member saas role ids (some platform_only) (inr e) h = cc
Guarded-member saas role ids (some (feature id)) (inl e) h = cc
Guarded-member saas role ids (some (feature id)) (inr e) h = cc
Guarded-member saas role ids (some tenant_content) g h = ground arith

-- The surfaces of the platform staff: `/saas` and what begins with the two paths of the code graph.
pub data StaffSurface : Text → Type 0 where
  saas_itself : StaffSurface (codes "/saas")
  saas_folder : (s : Text) → StaffSurface (codes "/saas" ++ 47 ∷ s)
  integration : (s : Text) → StaffSurface (codes "/platform/integrations/codegraph" ++ s)
  codegraph_api : (s : Text) → StaffSurface (codes "/codegraph-api" ++ s)

StaffSurface-listed : (path : Text) → StaffSurface path → is_staff_surface path ≡ true
unfolding is_staff_surface
StaffSurface-listed _ saas_itself = refl
StaffSurface-listed _ (saas_folder s) = refl
StaffSurface-listed _ (integration s) = refl
StaffSurface-listed _ (codegraph_api s) = refl

off_surface :
    (path : Text) (member : Bool)
    → (is_staff_surface path ≡ false) ⊎ (member ≡ false)
    → StaffSurface path
    → member ≡ false
off_surface path member (inl off) s = cc (off, StaffSurface-listed path s)
off_surface path member (inr other) s = other

pub record IsActive (tenants : Store) (id : Text) : Type 0 where
  pub tenant : Tenant
  pub found : get_tenant (some id) tenants ≡ some tenant
  pub active_now : tenant.status ≡ active

abbrev pub in_private_area : Text → Bool
in_private_area path = exists (λ area. under area path) private_areas

-- A request that gets through in the SaaS mode: its caller is platform staff or of an active tenant,
-- a tenant member if the path is in a private area, and not one if it is a staff surface.
pub record Isolated (saas : Bool) (tenants : Store) (p : Principal) (path : Text) : Type 0 where
  pub entitled : (is_platform_staff p.role saas ≡ true) ⊎ IsActive tenants p.tenant_id
  pub content : (in_private_area path ≡ false) ⊎ (is_tenant_member p.role saas ≡ true)
  pub surface : StaffSurface path → is_tenant_member p.role saas ≡ false

content-kept :
    (saas : Bool) (role : Role) (ids : List String) (method path : Text)
    → kind_refuses saas role ids (rule_for method path) ≡ none
    → (in_private_area path ≡ false) ⊎ (is_tenant_member role saas ≡ true)
content-kept saas role ids method path h = elim (Bool-cases (in_private_area path)) [
  | inl inside ↦ inr (
      Guarded-member saas role ids (rule_for method path)
        (InArea-Guarded method path private_areas (under-InArea private_areas path inside)
          (areas-Guards method))
        h)
  | inr outside ↦ inl outside
]

surface-kept :
    (member staff : Bool)
    → ◌≡◌ {A = Option Refusal}
        (if member && staff then some Refusal.platform_staff_only else none)
        none
    → (staff ≡ false) ⊎ (member ≡ false)
surface-kept member false h = inl refl
surface-kept false true h = inr refl
surface-kept true true h = cc

saas_refuses-kept :
    (saas : Bool) (over : Option OverQuota) (p : Principal) (ids : List String) (q : Request)
    → saas_refuses saas over p ids q ≡ none
    → ((in_private_area q.path ≡ false) ⊎ (is_tenant_member p.role saas ≡ true))
      × ((is_staff_surface q.path ≡ false) ⊎ (is_tenant_member p.role saas ≡ false))
unfolding saas_refuses
saas_refuses-kept saas over p ids q h =
    let first = no_refusal (kind_refuses saas p.role ids (rule_for q.method q.path)) _ h in
    let second = no_refusal _ _ first.1 in
    (
      content-kept saas p.role ids q.method q.path first.0,
      surface-kept (is_tenant_member p.role saas) (is_staff_surface q.path) second.1,
    )

decide-none :
    (p : Principal) (ids : List String) (o : Option Refusal) (c : Context)
    → decide p ids o ≡ passes c
    → o ≡ none
decide-none p ids none c h = refl
decide-none p ids (some e) c h = cc

status-active :
    (d : Deployment) (role : Role) (t : Tenant) (st : TenantStatus) (ids : List String)
    → resolve_status d role t st ≡ admitted ids
    → st ≡ active
status-active d role t active ids h = refl
status-active d role t suspended ids h = cc
status-active d role t deleted ids h = cc

found-IsActive :
    (d : Deployment) (tenants : Store) (p : Principal) (ids : List String) (o : Option Tenant)
    → get_tenant (some p.tenant_id) tenants ≡ o
    → resolve_found d p.role o ≡ admitted ids
    → IsActive tenants p.tenant_id
found-IsActive d tenants p ids none found h = cc
found-IsActive d tenants p ids (some t) found h = record {
  tenant = t;
  found = found;
  active_now = status-active d p.role t t.status ids h;
}

resolved-entitled :
    (d : Deployment) (tenants : Store) (p : Principal) (ids : List String)
    → d.saas_mode ≡ true
    → resolve_tenant d tenants p ≡ admitted ids
    → (is_platform_staff p.role d.saas_mode ≡ true) ⊎ IsActive tenants p.tenant_id
unfolding resolve_tenant
resolved-entitled d tenants p ids saas h =
    elim (Bool-cases (is_platform_staff p.role d.saas_mode)) [
      | inl staff ↦ inl staff
      | inr no_staff ↦ inr (
          found-IsActive d tenants p ids (get_tenant (some p.tenant_id) tenants) refl
            (not_staff d.saas_mode (is_platform_staff p.role d.saas_mode) _ _ saas no_staff h))
    ]
  where
    not_staff :
        (b c : Bool) (x y : Resolved)
        → b ≡ true
        → c ≡ false
        → (if not b || c then x else y) ≡ admitted ids
        → y ≡ admitted ids
    not_staff true false x y e f h = h
    not_staff true true x y e f h = cc
    not_staff false c x y e f h = cc

gate_resolved-Isolated :
    (d : Deployment) (tenants : Store) (over : Option OverQuota) (p : Principal) (q : Request)
    (c : Context) (r : Resolved)
    → d.saas_mode ≡ true
    → resolve_tenant d tenants p ≡ r
    → gate_resolved d over p q r ≡ passes c
    → Isolated d.saas_mode tenants p q.path
gate_resolved-Isolated d tenants over p q c (denied e) saas known h = cc
gate_resolved-Isolated d tenants over p q c (admitted ids) saas known h =
    let kept =
      saas_refuses-kept d.saas_mode over p ids q
        (saas_branch d.saas_mode _ _ saas (decide-none p ids _ c h)) in
    record {
      entitled = resolved-entitled d tenants p ids saas known;
      content = kept.0;
      surface = off_surface q.path (is_tenant_member p.role d.saas_mode) kept.1;
    }
  where
    saas_branch :
        (b : Bool) (x y : Option Refusal) → b ≡ true → (if b then x else y) ≡ none → x ≡ none
    saas_branch true x y e h = h
    saas_branch false x y e h = cc

-- What the gate passes on: the caller's own context, and what is kept apart.
pub record Admits (saas : Bool) (tenants : Store) (o : Option Principal) (path : Text) (c : Context)
    : Type 0 where
  pub principal : Principal
  pub is_caller : o ≡ some principal
  pub same_tenant : c.tenant_id ≡ principal.tenant_id
  pub same_user : c.user_id ≡ principal.user_id
  pub same_role : c.role ≡ principal.role
  pub isolated : Isolated saas tenants principal path

some_caller :
    (d : Deployment) (tenants : Store) (over : Option OverQuota) (p : Principal) (q : Request)
    (r : Resolved)
    → gate_resolved d over p q r ≡ anonymous
    → none ≡ some p
some_caller d tenants over p q (denied e) h = cc h
some_caller d tenants over p q (admitted ids) h = undecided _ h
  where
    undecided : (o : Option Refusal) → decide p ids o ≡ anonymous → none ≡ some p
    undecided none h = cc h
    undecided (some e) h = cc h

own_context :
    (d : Deployment) (over : Option OverQuota) (p : Principal) (q : Request) (c : Context)
    (r : Resolved)
    → gate_resolved d over p q r ≡ passes c
    → (c.tenant_id ≡ p.tenant_id) × (c.user_id ≡ p.user_id) × (c.role ≡ p.role)
own_context d over p q c (denied e) h = cc h
own_context d over p q c (admitted ids) h = decided _ h
  where
    decided :
        (o : Option Refusal)
        → decide p ids o ≡ passes c
        → (c.tenant_id ≡ p.tenant_id) × (c.user_id ≡ p.user_id) × (c.role ≡ p.role)
    decided none h = (cc h, cc h, cc h)
    decided (some e) h = cc h

-- In the SaaS mode a request with a caller gets through only with that caller's context, if the caller is
-- platform staff or of an active tenant; into a private area of tenant content only if the caller is a
-- member of a tenant; and to a surface of the platform staff only if not. Only a request without a caller
-- passes without a context.
pub tenant_gate-Isolated :
    (d : Deployment) (tenants : Store) (uses_own_key : Text → Bool) (month : Text) (usages : Usages)
    (o : Option Principal) (q : Request)
    → d.saas_mode ≡ true
    → ((tenant_gate d tenants uses_own_key month usages o q ≡ anonymous) ↔ (o ≡ none))
      × ((c : Context)
          → tenant_gate d tenants uses_own_key month usages o q ≡ passes c
          → Admits d.saas_mode tenants o q.path c)
unfolding tenant_gate
tenant_gate-Isolated d tenants uses_own_key month usages none q saas =
    ((λ _. refl, λ _. refl), λ c h. cc h)
tenant_gate-Isolated d tenants uses_own_key month usages (some p) q saas = (
  (λ h. sym (some_caller d tenants _ p q (resolve_tenant d tenants p) h), λ e. cc e),
  λ c h.
      let own = own_context d _ p q c (resolve_tenant d tenants p) h in
      record {
        principal = p;
        is_caller = refl;
        same_tenant = own.0;
        same_user = own.1;
        same_role = own.2;
        isolated =
            gate_resolved-Isolated d tenants _ p q c (resolve_tenant d tenants p) saas refl h;
      },
)
