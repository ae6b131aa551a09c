-- ===== src/Saas/Features/Switched.antt =====
-- When a feature is on for the platform, for a tenant and for a caller, told apart from the code
-- (src/saas/features.ts).
use xcoder.Prelude.{
  ◌≡◌, refl, ap, ◌≢◌, ◌↔◌, ◌⊎◌, inl, inr, Bool, true, false, Option, none, some, String, arith,
  if◌then◌else◌, or_default,
}
use xcoder.Prelude.Keys.{string_keys, lookup}
use xcoder.Saas.Roles.{
  Role, saas_owner, saas_ops, tenant_admin, tenant_user, admin, user, other_role, is_platform_staff,
}
use xcoder.Saas.Features.{
  FeatureKind, app_module, tool_group, integration, FeatureDef, Deployment, env_override,
  platform_switch, TenantView, override_of, has_agi, allowed_by_tenant, is_module,
}

-- The platform's staff, in the SaaS mode.
pub data Staff : Role → Type 0 where
  owner : Staff saas_owner
  ops : Staff saas_ops

-- The environment switches the feature on, or says nothing and the stored switch does, or neither says anything
-- and it is on by default, as all are in the SaaS mode.
pub data PlatformOn (d : Deployment) (id : String) (f : FeatureDef) : Type 0 where
  by_environment : env_override (d.env id) ≡ some true → PlatformOn d id f
  by_switch : env_override (d.env id) ≡ none → lookup id d.switches ≡ some true → PlatformOn d id f
  by_default :
      env_override (d.env id) ≡ none
      → lookup id d.switches ≡ none
      → (d.saas_mode ≡ true) ⊎ (f.default_single ≡ true)
      → PlatformOn d id f

-- The tenant's own switch is on, or it has none and tenants have the feature by default.
pub data TenantOn (id : String) (f : FeatureDef) (t : Option TenantView) : Type 0 where
  overridden : override_of id t ≡ some true → TenantOn id f t
  unchanged : override_of id t ≡ none → f.default_saas ≡ true → TenantOn id f t

-- Who has a feature that is on for the platform.
pub data MayUse (d : Deployment) (id : String) (f : FeatureDef) (role : Role)
    (t : Option TenantView) : Type 0 where
  single_user : d.saas_mode ≡ false → MayUse d id f role t
  own_agent :
      d.saas_mode ≡ true
      → f.id ≡ "agi"
      → ¬ Staff role
      → has_agi t ≡ true
      → TenantOn id f t
      → MayUse d id f role t
  shared : d.saas_mode ≡ true → f.platform_only ≡ true → Staff role → MayUse d id f role t
  console :
      d.saas_mode ≡ true
      → f.platform_only ≡ false
      → Staff role
      → (f.id ≡ "saas_management") ⊎ (f.kind ≡ app_module)
      → MayUse d id f role t
  by_tenant :
      d.saas_mode ≡ true
      → f.platform_only ≡ false
      → (f.id ≢ "agi") ⊎ Staff role
      → TenantOn id f t
      → MayUse d id f role t

pub is_platform_staff-Staff : (role : Role) → is_platform_staff role true ≡ true → Staff role
unfolding is_platform_staff
is_platform_staff-Staff saas_owner h = owner
is_platform_staff-Staff saas_ops h = ops
is_platform_staff-Staff tenant_admin h = cc h
is_platform_staff-Staff tenant_user h = cc h
is_platform_staff-Staff admin h = cc h
is_platform_staff-Staff user h = cc h
is_platform_staff-Staff other_role h = cc h

pub Staff-is_platform_staff : (role : Role) → Staff role → is_platform_staff role true ≡ true
unfolding is_platform_staff
Staff-is_platform_staff _ owner = refl
Staff-is_platform_staff _ ops = refl

pub is_false : (b : Bool) → ¬ (b ≡ true) → b ≡ false
is_false true h = absurd (h refl)
is_false false h = refl

switched_on :
    (e s : Option Bool) (b : Bool)
    → or_default e (or_default s b) ≡ true
    → (e ≡ some true) ⊎ (e ≡ none) × ((s ≡ some true) ⊎ (s ≡ none) × (b ≡ true))
switched_on (some x) s b h = inl (ap some h)
switched_on none (some x) b h = inr (refl, inl (ap some h))
switched_on none none b h = inr (refl, inr (refl, h))

either_on :
    (saas single : Bool)
    → ((if saas then true else single) ≡ true) ↔ ((saas ≡ true) ⊎ (single ≡ true))
either_on true single = (λ h. inl refl, λ h. refl)
either_on false single = (λ h. inr h, λ h. elim h [ inl e ↦ cc e | inr e ↦ e ])

module _ (d : Deployment) (id : String) (f : FeatureDef) (t : Option TenantView) where
  pub switch-PlatformOn : platform_switch d f id ≡ true → PlatformOn d id f
  unfolding platform_switch
  switch-PlatformOn h = elim (switched_on (env_override (d.env id)) (lookup id d.switches) _ h) [
    | inl e ↦ by_environment e
    | inr p ↦ elim p.1 [
      | inl s ↦ by_switch p.0 s
      | inr q ↦ by_default p.0 q.0 ((either_on d.saas_mode f.default_single).0 q.1)
    ]
  ]

  pub PlatformOn-switch : PlatformOn d id f → platform_switch d f id ≡ true
  unfolding platform_switch
  PlatformOn-switch (by_environment e) = rw e refl
  PlatformOn-switch (by_switch e s) = rw (e, s) refl
  PlatformOn-switch (by_default e s b) = rw (e, s) ((either_on d.saas_mode f.default_single).1 b)

  pub allowed-TenantOn : d.saas_mode ≡ true → allowed_by_tenant d f id t ≡ true → TenantOn id f t
  unfolding allowed_by_tenant
  allowed-TenantOn saas h =
      elim (switched_on (override_of id t) none
        (if d.saas_mode then f.default_saas else f.default_single) h) [
          | inl e ↦ overridden e
          | inr p ↦ elim p.1 [ inl s ↦ cc s | inr q ↦ unchanged p.0 (ground (arith, saas, q.1)) ]
        ]

  pub TenantOn-allowed : d.saas_mode ≡ true → TenantOn id f t → allowed_by_tenant d f id t ≡ true
  unfolding allowed_by_tenant
  TenantOn-allowed saas (overridden e) = rw e refl
  TenantOn-allowed saas (unchanged e b) = rw (e, saas) b

  pub modules : is_module f.kind ≡ true → f.kind ≡ app_module
  modules = of f.kind
    where
      of : (k : FeatureKind) → is_module k ≡ true → k ≡ app_module
      of app_module h = refl
      of tool_group h = cc h
      of integration h = cc h
