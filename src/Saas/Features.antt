-- ===== src/Saas/Features.antt =====
-- Feature switches (src/saas/features.ts). Labels and descriptions are left out. A deployment is the
-- SaaS mode, the variables `XCODER_FEATURE_<ID>` by feature (empty if not set), and the stored switches.
pub mod Escalation
pub mod Shared
pub mod Switched
use xcoder.Prelude.{
  Bool, true, false, not, ◌&&◌, ◌||◌, Option, none, some, String, str_eq, List, [], ◌∷◌, map, find,
  keep, or_default, if◌then◌else◌,
}
use xcoder.Prelude.Text.{Text, codes, trim, to_lower, one_of}
use xcoder.Prelude.Keys.{Dict, string_keys, lookup, insert}
use xcoder.Saas.Roles.{Role, is_platform_staff}

pub data FeatureKind : Type 0 where
  app_module tool_group integration : FeatureKind

pub record FeatureDef : Type 0 where
  pub id : String
  pub kind : FeatureKind
  pub sensitive : Bool
  pub tenant_toggle : Bool
  pub platform_only : Bool
  pub default_single : Bool
  pub default_saas : Bool

abbrev pub def : String → FeatureKind → Bool → Bool → Bool → Bool → Bool → FeatureDef
def id kind sensitive toggle only single saas = record {
  id = id;
  kind = kind;
  sensitive = sensitive;
  tenant_toggle = toggle;
  platform_only = only;
  default_single = single;
  default_saas = saas;
}

abbrev pub features : List FeatureDef
features =
    def "crm" app_module false true false true true
    ∷ def "saas_management" app_module false false true false true
    ∷ def "shell_tools" tool_group true false false true false
    ∷ def "network_tools" tool_group true false false true false
    ∷ def "mcp_tools" tool_group true false false true false
    ∷ def "security_ops" integration true false false true false
    ∷ def "agi" integration true false true true true
    ∷ def "codegraph" integration true false true true true
    ∷ []

unfoldable pub feature_def : String → Option FeatureDef
feature_def id = find (λ f. str_eq f.id id) features

pub record Deployment : Type 0 where
  pub saas_mode : Bool
  pub env : String → Text
  pub switches : Dict String Bool

unfoldable pub env_override : Text → Option Bool
unfolding trim to_lower
env_override v =
    let w = to_lower (trim v) in
    if one_of
      (codes "0"
        ∷ codes "off"
        ∷ codes "false"
        ∷ codes "no"
        ∷ codes "disable"
        ∷ codes "disabled"
        ∷ [])
      w
    then some false
    else if one_of
        (codes "1"
          ∷ codes "on"
          ∷ codes "true"
          ∷ codes "yes"
          ∷ codes "enable"
          ∷ codes "enabled"
          ∷ [])
        w
    then some true
    else none

-- the environment's switch, else the stored one, else the default
unfoldable pub platform_switch : Deployment → FeatureDef → String → Bool
platform_switch d f id =
    or_default (env_override (d.env id))
      (or_default (lookup id d.switches) (if d.saas_mode then true else f.default_single))

unfoldable pub platform_enabled : Deployment → String → Bool
platform_enabled d id = elim (feature_def id) [ none ↦ false | some f ↦ platform_switch d f id ]

unfoldable pub platform_locked : Deployment → String → Bool
platform_locked d id = elim (env_override (d.env id)) [ none ↦ false | some b ↦ true ]

pub data SwitchResult : Type 0 where
  unknown_feature locked : SwitchResult
  switched : Deployment → SwitchResult

unfoldable pub set_platform_feature : String → Bool → Deployment → SwitchResult
set_platform_feature id enabled d = elim (feature_def id) [
  | none ↦ unknown_feature
  | some f ↦
      if platform_locked d id
      then locked
      else switched (record d { switches = insert id enabled d.switches })
]

-- What the switches read of a tenant: its overrides, and whether it has an AGI instance of its own.
pub record TenantView : Type 0 where
  pub features : Dict String Bool
  pub has_agi : Bool

abbrev pub override_of : String → Option TenantView → Option Bool
override_of id none = none
override_of id (some t) = lookup id t.features

abbrev pub has_agi : Option TenantView → Bool
has_agi none = false
has_agi (some t) = t.has_agi

unfoldable pub allowed_by_tenant : Deployment → FeatureDef → String → Option TenantView → Bool
allowed_by_tenant d f id t =
    or_default (override_of id t) (if d.saas_mode then f.default_saas else f.default_single)

abbrev pub allowed_of : Deployment → String → Option TenantView → Option FeatureDef → Bool
allowed_of d id t none = false
allowed_of d id t (some f) = allowed_by_tenant d f id t

unfoldable pub tenant_allows : Deployment → String → Option TenantView → Bool
tenant_allows d id t = allowed_of d id t (feature_def id)

abbrev pub is_module : FeatureKind → Bool
is_module app_module = true
is_module _ = false

-- `featureEnabledFor`, once its definition is found and the platform switch is on
unfoldable pub enabled_in_mode : Deployment → FeatureDef → String → Role → Option TenantView → Bool
enabled_in_mode d f id role t =
    if not d.saas_mode
    then true
    else if str_eq f.id "agi" && not (is_platform_staff role d.saas_mode)
    then has_agi t && tenant_allows d id t
    else if f.platform_only
    then is_platform_staff role d.saas_mode
    else if is_platform_staff role d.saas_mode
    then (if str_eq f.id "saas_management" || is_module f.kind then true else tenant_allows d id t)
    else tenant_allows d id t

abbrev pub enabled_of : Deployment → String → Role → Option TenantView → Option FeatureDef → Bool
enabled_of d id role t none = false
enabled_of d id role t (some f) = platform_enabled d id && enabled_in_mode d f id role t

unfoldable pub feature_enabled_for : Deployment → String → Role → Option TenantView → Bool
feature_enabled_for d id role t = enabled_of d id role t (feature_def id)

unfoldable pub effective_features : Deployment → Role → Option TenantView → List String
effective_features d role t =
    keep (λ id. feature_enabled_for d id role t) (map (λ f. f.id) features)

-- `parseTenantFeaturePatch`: a value of the untyped patch is a Boolean or is not.
pub data PatchError : Type 0 where
  not_an_object : PatchError
  unknown_id not_boolean platform_feature owner_only owner_enables platform_off :
      String → PatchError

pub data Patched : Type 0 where
  accepted : Dict String Bool → Patched
  rejected : PatchError → Patched

-- one entry of the patch
unfoldable pub check_entry :
    Deployment → Bool → String → Option Bool → Option FeatureDef → Option PatchError
check_entry d owner id v none = some (unknown_id id)
check_entry d owner id none (some f) = some (not_boolean id)
check_entry d owner id (some v) (some f) =
    if f.platform_only
    then some (platform_feature id)
    else if owner
    then none
    else if not f.tenant_toggle
    then some (owner_only id)
    else if v && f.sensitive
    then some (owner_enables id)
    else if v && not (platform_enabled d id)
    then some (platform_off id)
    else none

abbrev pub add_entry : Option PatchError → String → Option Bool → Patched → Patched
add_entry (some e) id v rest = rejected e
add_entry none id (some b) (accepted out) = accepted ((id, b) ∷ out)
add_entry none id none (accepted out) = accepted out
add_entry none id v (rejected e) = rejected e

unfoldable pub check_entries : Deployment → Bool → Dict String (Option Bool) → Patched
check_entries d owner [] = accepted []
check_entries d owner ((id, v) ∷ rest) =
    add_entry (check_entry d owner id v (feature_def id)) id v (check_entries d owner rest)

-- `none` stands for an input that is no object
unfoldable pub parse_tenant_feature_patch :
    Deployment → Bool → Option (Dict String (Option Bool)) → Patched
parse_tenant_feature_patch d owner none = rejected not_an_object
parse_tenant_feature_patch d owner (some entries) = check_entries d owner entries
