-- ===== src/Saas/Features/Escalation.antt =====
-- What a tenant administrator may turn on (src/saas/features.ts).
use xcoder.Prelude.{
  ◌≡◌, refl, sym, ap, subst, ◌∙◌, ◌⊎◌, inl, inr, Bool, true, false, ◌&&◌, Option, none, some,
  String, str_eq, eq_iff, [], ◌∷◌, arith, All, Bool-cases, if◌then◌else◌, or_default,
}
use xcoder.Prelude.Keys.{Dict, string_keys, lookup, insert, lookup-insert, merge}
use xcoder.Saas.Roles.{Role}
use xcoder.Saas.Features.{
  FeatureDef, feature_def, Deployment, platform_enabled, TenantView, tenant_allows, allowed_of,
  allowed_by_tenant, enabled_in_mode, enabled_of, feature_enabled_for, PatchError, Patched,
  accepted, rejected, check_entry, add_entry, check_entries, parse_tenant_feature_patch,
}

-- Tenant administrators may toggle the feature, it is not sensitive, and the platform has it on.
pub record MayEnable (d : Deployment) (id : String) : Type 0 where
  pub feature : FeatureDef
  pub known : feature_def id ≡ some feature
  pub toggle : feature.tenant_toggle ≡ true
  pub harmless : feature.sensitive ≡ false
  pub not_shared : feature.platform_only ≡ false
  pub on : platform_enabled d id ≡ true

module _ (d : Deployment) where
  -- an accepted entry
  abbrev Granted : String → Bool → Type 0
  Granted id b = (b ≡ false) ⊎ MayEnable d id

  abbrev AllGranted : Patched → Type 0
  AllGranted (accepted out) = All (λ e. Granted e.0 e.1) out
  AllGranted (rejected e) = Unit

  check_entry-MayEnable :
      (id : String) (f : FeatureDef)
      → feature_def id ≡ some f
      → check_entry d false id (some true) (some f) ≡ none
      → MayEnable d id
  unfolding check_entry
  check_entry-MayEnable id f known h = record {
    feature = f;
    known = known;
    toggle = ground arith;
    harmless = ground arith;
    not_shared = ground arith;
    on = ground arith;
  }

  check_entry-Granted :
      (id : String) (b : Bool) (o : Option FeatureDef)
      → feature_def id ≡ o
      → check_entry d false id (some b) o ≡ none
      → Granted id b
  unfolding check_entry
  check_entry-Granted id b none known h = cc
  check_entry-Granted id false (some f) known h = inl refl
  check_entry-Granted id true (some f) known h = inr (check_entry-MayEnable id f known h)

  add_entry-AllGranted :
      (id : String) (v : Option Bool) (r : Option PatchError) (rest : Patched)
      → check_entry d false id v (feature_def id) ≡ r
      → AllGranted rest
      → AllGranted (add_entry r id v rest)
  add_entry-AllGranted id v (some e) rest h all = tt
  add_entry-AllGranted id (some b) none (accepted out) h all =
      (check_entry-Granted id b (feature_def id) refl h, all)
  add_entry-AllGranted id none none (accepted out) h all = all
  add_entry-AllGranted id (some b) none (rejected e) h all = tt
  add_entry-AllGranted id none none (rejected e) h all = tt

  check_entries-AllGranted : (p : Dict String (Option Bool)) → AllGranted (check_entries d false p)
  unfolding check_entries
  check_entries-AllGranted [] = tt
  check_entries-AllGranted ((id, v) ∷ rest) =
      add_entry-AllGranted id v _ (check_entries d false rest) refl (check_entries-AllGranted rest)

  parse-AllGranted :
      (p : Option (Dict String (Option Bool))) → AllGranted (parse_tenant_feature_patch d false p)
  unfolding parse_tenant_feature_patch
  parse-AllGranted none = tt
  parse-AllGranted (some p) = check_entries-AllGranted p

  -- after a merge: as before, or as one of the entries says
  abbrev Merged : String → Dict String Bool → Option Bool → Type 0
  Merged id old new = (new ≡ lookup id old) ⊎ ((b : Bool) × (new ≡ some b) × Granted id b)

  insert-Merged :
      (id k : String) (v : Bool) (old : Dict String Bool)
      → Granted k v
      → Merged id old (lookup id (insert k v old))
  insert-Merged id k v old g = elim (Bool-cases (str_eq k id)) [
    | inl same ↦ inr (
      v,
      lookup-insert id k v old ∙ (rw same refl),
      subst (λ j. Granted j v) ((eq_iff k id).0 same) g,
    )
    | inr other ↦ inl (lookup-insert id k v old ∙ (rw other refl))
  ]

  merge-Merged :
      (id : String) (old p : Dict String Bool)
      → All (λ e. Granted e.0 e.1) p
      → Merged id old (lookup id (merge old p))
  unfolding merge
  merge-Merged id old [] all = inl refl
  merge-Merged id old ((k, v) ∷ p) all = elim (merge-Merged id (insert k v old) p all.1) [
    | inl same ↦ subst (Merged id old) (sym same) (insert-Merged id k v old all.0)
    | inr told ↦ inr told
  ]

allowed_of-same :
    (d : Deployment) (id : String) (t t' : TenantView) (o : Option FeatureDef)
    → lookup id t'.features ≡ lookup id t.features
    → allowed_of d id (some t') o ≡ allowed_of d id (some t) o
unfolding allowed_by_tenant
allowed_of-same d id t t' none e = refl
allowed_of-same d id t t' (some f) e =
    ap (λ o. or_default o (if d.saas_mode then f.default_saas else f.default_single)) e

allowed_of-false :
    (d : Deployment) (id : String) (t' : TenantView) (o : Option FeatureDef)
    → lookup id t'.features ≡ some false
    → allowed_of d id (some t') o ≡ false
unfolding allowed_by_tenant
allowed_of-false d id t' none e = refl
allowed_of-false d id t' (some f) e =
    ap (λ o. or_default o (if d.saas_mode then f.default_saas else f.default_single)) e

allows-same :
    (d : Deployment) (id : String) (t t' : TenantView)
    → lookup id t'.features ≡ lookup id t.features
    → tenant_allows d id (some t') ≡ tenant_allows d id (some t)
unfolding tenant_allows
allows-same d id t t' e = allowed_of-same d id t t' (feature_def id) e

allows-false :
    (d : Deployment) (id : String) (t' : TenantView)
    → lookup id t'.features ≡ some false
    → tenant_allows d id (some t') ≡ false
unfolding tenant_allows
allows-false d id t' e = allowed_of-false d id t' (feature_def id) e

-- A feature that is on although the tenant refuses it, or as before, was on before.
enabled_in_mode-was :
    (d : Deployment) (f : FeatureDef) (id : String) (role : Role) (t t' : TenantView)
    → t'.has_agi ≡ t.has_agi
    → (tenant_allows d id (some t') ≡ tenant_allows d id (some t))
      ⊎ (tenant_allows d id (some t') ≡ false)
    → enabled_in_mode d f id role (some t') ≡ true
    → enabled_in_mode d f id role (some t) ≡ true
unfolding enabled_in_mode
enabled_in_mode-was d f id role t t' own (inl same) h = ground arith
enabled_in_mode-was d f id role t t' own (inr off) h = ground arith

enabled_of-was :
    (d : Deployment) (id : String) (role : Role) (t t' : TenantView) (o : Option FeatureDef)
    → t'.has_agi ≡ t.has_agi
    → (tenant_allows d id (some t') ≡ tenant_allows d id (some t))
      ⊎ (tenant_allows d id (some t') ≡ false)
    → enabled_of d id role (some t') o ≡ true
    → enabled_of d id role (some t) o ≡ true
enabled_of-was d id role t t' none own allows h = h
enabled_of-was d id role t t' (some f) own allows h =
    both (platform_enabled d id) _ _ (enabled_in_mode-was d f id role t t' own allows) h
  where
    both : (p a b : Bool) → (a ≡ true → b ≡ true) → (p && a) ≡ true → (p && b) ≡ true
    both true a b f h = f h
    both false a b f h = h

enabled-was :
    (d : Deployment) (id : String) (role : Role) (t : TenantView) (merged : Dict String Bool)
    → (tenant_allows d id (some (record t { features = merged })) ≡ tenant_allows d id (some t))
      ⊎ (tenant_allows d id (some (record t { features = merged })) ≡ false)
    → feature_enabled_for d id role (some (record t { features = merged })) ≡ true
    → feature_enabled_for d id role (some t) ≡ true
unfolding feature_enabled_for
enabled-was d id role t merged allows h =
    enabled_of-was d id role t (record t { features = merged }) (feature_def id) refl allows h

after_merge :
    (d : Deployment) (id : String) (role : Role) (t : TenantView) (merged : Dict String Bool)
    → Merged d id t.features (lookup id merged)
    → feature_enabled_for d id role (some (record t { features = merged })) ≡ true
    → (feature_enabled_for d id role (some t) ≡ true) ⊎ MayEnable d id
after_merge d id role t merged (inl same) h = inl (
    enabled-was d id role t merged (inl (allows-same d id t (record t { features = merged }) same))
      h)
after_merge d id role t merged (inr (b, told, inr may)) h = inr may
after_merge d id role t merged (inr (b, told, inl off)) h = inl (
    enabled-was d id role t merged
      (inr (allows-false d id (record t { features = merged }) (told ∙ ap some off))) h)

-- After a patch that is accepted from a tenant administrator, every feature that anyone of the tenant
-- has was had before, or is one that tenant administrators may toggle: not sensitive, not a shared
-- instance, and on for the platform.
pub patch-escalates :
    (d : Deployment) (id : String) (role : Role) (t : TenantView)
    (p : Option (Dict String (Option Bool))) (out : Dict String Bool)
    → parse_tenant_feature_patch d false p ≡ accepted out
    → feature_enabled_for d id role (some (record t { features = merge t.features out })) ≡ true
    → (feature_enabled_for d id role (some t) ≡ true) ⊎ MayEnable d id
patch-escalates d id role t p out ok h =
    after_merge d id role t (merge t.features out)
      (merge-Merged d id t.features out (subst (AllGranted d) ok (parse-AllGranted d p))) h
