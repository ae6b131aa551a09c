-- ===== src/Saas/Features/Shared.antt =====
-- When a caller has a feature (src/saas/features.ts).
use xcoder.Prelude.{
  ◌≡◌, ◌⊎◌, inl, inr, Bool, true, false, not, ◌&&◌, ◌||◌, Option, some, String, str_eq, eq_iff,
  if◌then◌else◌,
}
use xcoder.Prelude.Keys.{string_keys}
use xcoder.Saas.Roles.{Role, is_platform_staff}
use xcoder.Saas.Features.{
  app_module, FeatureDef, feature_def, Deployment, TenantView, has_agi, allowed_by_tenant,
  is_module,
}
use xcoder.Saas.Features.Switched.{modules}

abbrev by_mode : (saas agi staff own only first allowed : Bool) → Bool
by_mode saas agi staff own only first allowed =
    if not saas
    then true
    else if agi && not staff
    then own && allowed
    else if only
    then staff
    else if staff
    then (if first then true else allowed)
    else allowed

-- The ways to be let through, by the tests.
data Way (saas agi staff own only first allowed : Bool) : Type 0 where
  any : saas ≡ false → Way saas agi staff own only first allowed
  agent :
      saas ≡ true
      → agi ≡ true
      → staff ≡ false
      → own ≡ true
      → allowed ≡ true
      → Way saas agi staff own only first allowed
  common : saas ≡ true → only ≡ true → staff ≡ true → Way saas agi staff own only first allowed
  early :
      saas ≡ true
      → only ≡ false
      → staff ≡ true
      → first ≡ true
      → Way saas agi staff own only first allowed
  own_switch :
      saas ≡ true
      → only ≡ false
      → (agi && not staff) ≡ false
      → allowed ≡ true
      → Way saas agi staff own only first allowed

module _ (d : Deployment) (id : String) (f : FeatureDef) (role : Role) (t : Option TenantView)
    (known : feature_def id ≡ some f) where
  abbrev WayHere : Type 0
  WayHere =
      Way d.saas_mode (str_eq f.id "agi") (is_platform_staff role d.saas_mode) (has_agi t)
        f.platform_only (str_eq f.id "saas_management" || is_module f.kind)
        (allowed_by_tenant d f id t)

  first_of :
      (b : Bool)
      → str_eq f.id "saas_management" ≡ b
      → (b || is_module f.kind) ≡ true
      → (f.id ≡ "saas_management") ⊎ (f.kind ≡ app_module)
  first_of true e h = inl ((eq_iff f.id "saas_management").0 e)
  first_of false e h = inr (modules d id f t h)
