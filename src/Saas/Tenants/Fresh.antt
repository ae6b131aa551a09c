-- ===== src/Saas/Tenants/Fresh.antt =====
-- The ids that a new tenant may get (`createTenant` of src/saas/tenantStore.ts).
use xcoder.Prelude.{◌≡◌, Bool, false, ◌||◌, [], ◌∷◌, ◌++◌, arith, if-both}
use xcoder.Prelude.Text.{Text, codes, one_of}
use xcoder.Prelude.Keys.{text_keys}
use xcoder.Saas.Plans.{inherited_names}
use xcoder.Saas.Ids.{slugify, valid_tenant_id}
use xcoder.Saas.Tenants.{Store, is_stored, default_tenant_id, new_id}

-- The two ids with a random part.
abbrev pub with_suffix : Text → Text → Text
with_suffix slug hex3 = slug ++ codes "-" ++ hex3

abbrev pub random_id : Text → Text
random_id hex4 = codes "t-" ++ hex4

unstored : (b c d : Bool) → (b || c || d) ≡ false → b ≡ false
unstored b c d h = ground arith

-- A new id is the slug, if no tenant has it, or it has a random part.
pub new_id-either :
    (P : Text → Type 0) (lower : Text → Text) (name hex3 hex4 : Text) (m : Store)
    → (is_stored (slugify lower name) m ≡ false → P (slugify lower name))
    → P (with_suffix (slugify lower name) hex3)
    → P (random_id hex4)
    → P (new_id lower name hex3 hex4 m)
unfolding new_id
new_id-either P lower name hex3 hex4 m plain suffixed random =
    let s = slugify lower name in
    if-both P (valid_tenant_id _)
      (λ _.
        if-both P (is_stored s m || one_of inherited_names s || one_of (default_tenant_id ∷ []) s)
          (λ _. suffixed)
          (λ free. plain (
            unstored (is_stored s m) (one_of inherited_names s) (one_of (default_tenant_id ∷ []) s)
              free)))
      (λ _. random)
