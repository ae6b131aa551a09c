-- ===== src/Saas/Tenants/Deleted.antt =====
-- A deleted tenant stays deleted (src/saas/tenantStore.ts).
use mathlib.Core.Option.{some-injective}
use xcoder.Prelude.{
  ◌≡◌, refl, sym, ap, ◌∙◌, inl, inr, Bool, true, false, not, ◌&&◌, Option, none, some, List, [],
  ◌∷◌, arith, if-both, Bool-cases, or_default,
}
use xcoder.Prelude.Text.{Text, same_text, trim}
use xcoder.Prelude.Keys.{text_keys, lookup, insert, lookup-insert, same_text-eq}
use xcoder.Saas.Plans.{plan_known}
use xcoder.Saas.Ids.{slugify}
use xcoder.Saas.Tenants.Fresh.{with_suffix, random_id, new_id-either}
use xcoder.Saas.Tenants.{
  TenantStatus, active, suspended, deleted, Tenant, Store, Answer, AgiInstance, NewTenant,
  is_stored, name_ok, create_tenant, TenantPatch, Patching, goes_on, stops, store_patched,
  patch_tenant, is_gone, update_found, update_tenant, with_status, status_found, set_tenant_status,
  agi_found, set_tenant_agi,
}

pub data Change : Type 0 where
  creates : NewTenant → Text → Text → Text → Change
  updates : Text → TenantPatch → Text → Change
  sets_status : Text → TenantStatus → Option Text → Text → Change
  sets_agi : Text → Option AgiInstance → Text → Change

unfoldable pub change : (Text → Text) → Change → Store → Store
change lower (creates input hex3 hex4 now) m = (create_tenant lower input hex3 hex4 now m).1
change lower (updates id p now) m = (update_tenant id p now m).1
change lower (sets_status id status reason now) m = (set_tenant_status id status reason now m).1
change lower (sets_agi id agi now) m = (set_tenant_agi id agi now m).1

unfoldable pub change_all : (Text → Text) → List Change → Store → Store
change_all lower [] m = m
change_all lower (c ∷ cs) m = change_all lower cs (change lower c m)

pub record IsDeleted (id : Text) (m : Store) : Type 0 where
  pub tenant : Tenant
  pub found : lookup id m ≡ some tenant
  pub gone : tenant.status ≡ deleted

-- The random parts of a new tenant's id do not make it this one.
abbrev pub Spares : (Text → Text) → Text → Change → Store → Type 0
Spares lower id (creates input hex3 hex4 now) m =
    (same_text (with_suffix (slugify lower (trim (or_default input.name []))) hex3) id ≡ false)
    × (same_text (random_id hex4) id ≡ false)
Spares lower id (updates j p now) m = Unit
Spares lower id (sets_status j status reason now) m = Unit
Spares lower id (sets_agi j agi now) m = Unit

abbrev pub AllSpare : (Text → Text) → Text → List Change → Store → Type 0
AllSpare lower id [] m = Unit
AllSpare lower id (c ∷ cs) m = Spares lower id c m × AllSpare lower id cs (change lower c m)

abbrev stored : Option Tenant → Bool
stored none = false
stored (some t) = true

module _ (id : Text) (m : Store) (d : IsDeleted id m) where
  insert_other : (j : Text) (v : Tenant) → same_text j id ≡ false → IsDeleted id (insert j v m)
  insert_other j v other = record {
    tenant = d.tenant;
    found = lookup-insert id j v m ∙ (rw other d.found);
    gone = d.gone;
  }

  insert_deleted : (j : Text) (v : Tenant) → v.status ≡ deleted → IsDeleted id (insert j v m)
  insert_deleted j v gone = elim (Bool-cases (same_text j id)) [
    | inl same ↦ record { tenant = v; found = lookup-insert id j v m ∙ (rw same refl); gone = gone }
    | inr other ↦ insert_other j v other
  ]

  -- A tenant that is not gone has another id.
  alive-other :
      (j : Text) (u : Tenant)
      → lookup j m ≡ some u
      → is_gone u.status ≡ false
      → same_text j id ≡ false
  alive-other j u found alive = elim (Bool-cases (same_text j id)) [
    | inl same ↦ cc (
      alive,
      ap (λ t. is_gone t.status)
          (some-injective u d.tenant
            (sym found ∙ ap (λ k. lookup k m) (same_text-eq j id same) ∙ d.found)),
      ap is_gone d.gone,
    )
    | inr other ↦ other
  ]

  slug-other : (s : Text) → is_stored s m ≡ false → same_text s id ≡ false
  slug-other s free = elim (Bool-cases (same_text s id)) [
    | inl same ↦ cc (free, ap (λ j. is_stored j m) (same_text-eq s id same), ap stored d.found)
    | inr other ↦ other
  ]

  create-keeps :
      (lower : Text → Text) (input : NewTenant) (hex3 hex4 now : Text)
      → Spares lower id (creates input hex3 hex4 now) m
      → IsDeleted id (create_tenant lower input hex3 hex4 now m).1
  unfolding create_tenant
  create-keeps lower input hex3 hex4 now spare =
      let other =
        new_id-either (λ j. same_text j id ≡ false) lower (trim (or_default input.name [])) hex3
          hex4 m (slug-other (slugify lower (trim (or_default input.name [])))) spare.0 spare.1 in
      if-both {A = Answer × Store} (λ r. IsDeleted id r.1)
        (not (name_ok (trim (or_default input.name [])))) (λ _. d)
        (λ _.
          if-both {A = Answer × Store} (λ r. IsDeleted id r.1) (not (plan_known _)) (λ _. d)
            (λ _. insert_other _ _ other))

  patched-keeps :
      (j : Text) (r : Patching) → same_text j id ≡ false → IsDeleted id (store_patched j m r).1
  patched-keeps j (goes_on t) other = insert_other j t other
  patched-keeps j (stops e t) other = insert_other j t other

  update-keeps :
      (j : Text) (p : TenantPatch) (now : Text) (o : Option Tenant)
      → lookup j m ≡ o
      → IsDeleted id (update_found j p now m o).1
  update-keeps j p now none e = d
  update-keeps j p now (some u) e =
      if-both {A = Answer × Store} (λ r. IsDeleted id r.1) (is_gone u.status) (λ _. d)
        (λ alive. patched-keeps j (patch_tenant p now u) (alive-other j u e alive))

  status-keeps :
      (j : Text) (status : TenantStatus) (reason : Option Text) (now : Text) (o : Option Tenant)
      → lookup j m ≡ o
      → IsDeleted id (status_found j status reason now m o).1
  unfolding with_status
  status-keeps j status reason now none e = d
  status-keeps j deleted reason now (some u) e =
      if-both {A = Answer × Store} (λ r. IsDeleted id r.1) (is_gone u.status && false) (λ _. d)
        (λ _. insert_deleted j _ refl)
  status-keeps j active reason now (some u) e =
      if-both {A = Answer × Store} (λ r. IsDeleted id r.1) (is_gone u.status && true) (λ _. d)
        (λ alive. insert_other j _ (alive-other j u e (ground arith)))
  status-keeps j suspended reason now (some u) e =
      if-both {A = Answer × Store} (λ r. IsDeleted id r.1) (is_gone u.status && true) (λ _. d)
        (λ alive. insert_other j _ (alive-other j u e (ground arith)))

  agi-keeps :
      (j : Text) (agi : Option AgiInstance) (now : Text) (o : Option Tenant)
      → lookup j m ≡ o
      → IsDeleted id (agi_found j agi now m o).1
  agi-keeps j agi now none e = d
  agi-keeps j agi now (some u) e =
      if-both {A = Answer × Store} (λ r. IsDeleted id r.1) (is_gone u.status) (λ _. d)
        (λ alive. insert_other j _ (alive-other j u e alive))

  change-keeps :
      (lower : Text → Text) (c : Change) → Spares lower id c m → IsDeleted id (change lower c m)
  unfolding change update_tenant set_tenant_status set_tenant_agi
  change-keeps lower (creates input hex3 hex4 now) other =
      create-keeps lower input hex3 hex4 now other
  change-keeps lower (updates j p now) s = update-keeps j p now (lookup j m) refl
  change-keeps lower (sets_status j status reason now) s =
      status-keeps j status reason now (lookup j m) refl
  change-keeps lower (sets_agi j agi now) s = agi-keeps j agi now (lookup j m) refl

-- Whatever is done to the tenants, a deleted one stays deleted, also when others are created with its name; the
-- random parts of new ids do not spell its id.
pub change_all-IsDeleted :
    (lower : Text → Text) (cs : List Change) (id : Text) (m : Store)
    → IsDeleted id m
    → AllSpare lower id cs m
    → IsDeleted id (change_all lower cs m)
unfolding change_all
change_all-IsDeleted lower [] id m d s = d
change_all-IsDeleted lower (c ∷ cs) id m d s =
    change_all-IsDeleted lower cs id (change lower c m) (change-keeps id m d lower c s.0) s.1
