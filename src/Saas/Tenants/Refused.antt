-- ===== src/Saas/Tenants/Refused.antt =====
-- A refused update and what it leaves behind (src/saas/tenantStore.ts).
use xcoder.Prelude.{◌≡◌, refl, sym, ap, subst, ◌∙◌, true, false, some}
use xcoder.Prelude.Text.{Text, trim}
use xcoder.Prelude.Keys.{text_keys, lookup, lookup-insert_self}
use xcoder.Saas.Plans.{plan_known}
use xcoder.Saas.Tenants.{
  Tenant, Store, unknown_plan, Answer, refused, TenantPatch, name_ok, goes_on, stops, patch_name,
  patch_plan, patch_rest, patch_tenant, and_then, store_patched, is_gone, update_found,
  update_tenant,
}

patch_name-good :
    (n : Text) (t : Tenant)
    → name_ok (trim n) ≡ true
    → patch_name (some n) t ≡ goes_on (record t { name = trim n })
unfolding patch_name
patch_name-good n t h = rw h refl

patch_plan-bad :
    (p : Text) (t : Tenant)
    → plan_known p ≡ false
    → patch_plan (some p) t ≡ stops (unknown_plan p) t
unfolding patch_plan
patch_plan-bad p t h = rw h refl

patch_tenant-half :
    (p : TenantPatch) (now n plan : Text) (t : Tenant)
    → p.name ≡ some n
    → p.plan ≡ some plan
    → name_ok (trim n) ≡ true
    → plan_known plan ≡ false
    → patch_tenant p now t ≡ stops (unknown_plan plan) (record t { name = trim n })
unfolding patch_tenant
patch_tenant-half p now n plan t en ep good bad =
    ap (λ o. and_then (and_then (patch_name o t) (patch_plan p.plan)) (patch_rest p now)) en
    ∙ ap (λ o. and_then (and_then (patch_name (some n) t) (patch_plan o)) (patch_rest p now)) ep
    ∙ ap (λ r. and_then (and_then r (patch_plan (some plan))) (patch_rest p now))
        (patch_name-good n t good)
    ∙ ap (λ r. and_then r (patch_rest p now)) (patch_plan-bad plan (record t { name = trim n }) bad)

-- An update with a good new name and a plan that is not known is refused, and yet renames the tenant in
-- the store.
pub update-renames :
    (id : Text) (p : TenantPatch) (now n plan : Text) (m : Store) (t : Tenant)
    → lookup id m ≡ some t
    → is_gone t.status ≡ false
    → p.name ≡ some n
    → p.plan ≡ some plan
    → name_ok (trim n) ≡ true
    → plan_known plan ≡ false
    → ((update_tenant id p now m).0 ≡ refused (unknown_plan plan))
      × (lookup id (update_tenant id p now m).1 ≡ some (record t { name = trim n }))
unfolding update_tenant
update-renames id p now n plan m t found alive en ep good bad =
    subst
      (λ (r : Answer × Store).
        (r.0 ≡ refused (unknown_plan plan)) × (lookup id r.1 ≡ some (record t { name = trim n })))
      (sym (
        ap (update_found id p now m) found
        ∙ (rw alive refl)
        ∙ ap (store_patched id m) (patch_tenant-half p now n plan t en ep good bad)))
      (refl, lookup-insert_self id (record t { name = trim n }) m)
