-- ===== src/Api/Access/LockedOut.antt =====
-- A tenant that is suspended is cut off at once (src/api/auth.ts over src/saas/tenantStore.ts).
use mathlib.Core.Option.{some-injective}
use xcoder.Prelude.{
  ℕ, ◌≡◌, refl, sym, ap, ◌∙◌, ◌≢◌, Bool, true, false, Option, none, some, [], ◌∷◌, if◌then◌else◌,
}
use xcoder.Prelude.Text.{Text}
use xcoder.Prelude.Keys.{text_keys, lookup, insert, lookup-insert_self}
use xcoder.Saas.Roles.{is_platform_staff}
use xcoder.Saas.Tenants.{
  TenantStatus, suspended, deleted, Tenant, Store, Answer, ok, refused, get_tenant, with_status,
  status_found, set_tenant_status,
}
use xcoder.Api.Tokens.{TokenEntry, TokenStore}
use xcoder.Api.Access.{HttpRequest, next, auth_middleware}
use xcoder.Api.Access.Granted.{MayAct, alone, staff, member}
use xcoder.Api.Access.Authorized.{Authorized, user, auth_middleware-Authorized}

abbrev status_of : Answer → TenantStatus
status_of (ok t) = t.status
status_of (refused e) = deleted

get-lookup :
    (id : Text) (m : Store) (t u : Tenant)
    → lookup id m ≡ some t
    → get_tenant (some id) m ≡ some u
    → t ≡ u
unfolding get_tenant
get-lookup [] m t u found got = cc got
get-lookup (c ∷ s) m t u found got = some-injective t u (sym (rw (get_tenant, found) refl) ∙ got)

abbrev tenant_of : Answer → Option Tenant
tenant_of (ok t) = some t
tenant_of (refused e) = none

abbrev picked : Text → Store → Answer → Tenant → Bool → Answer × Store
picked id m e w b = if b then (e, m) else (ok w, insert id w m)

stored_split :
    (id : Text) (m : Store) (e : Answer) (w t : Tenant) (b : Bool)
    → (e ≢ ok t)
    → w.status ≡ suspended
    → (picked id m e w b).0 ≡ ok t
    → (lookup id (picked id m e w b).1 ≡ some t) × (t.status ≡ suspended)
stored_split id m e w t true other s h = absurd (other h)
stored_split id m e w t false other s h =
    (lookup-insert_self id w m ∙ ap tenant_of h, ap status_of (sym h) ∙ s)

stored_status :
    (id : Text) (reason : Option Text) (now : Text) (m : Store) (o : Option Tenant) (t : Tenant)
    → (status_found id suspended reason now m o).0 ≡ ok t
    → (lookup id (status_found id suspended reason now m o).1 ≡ some t) × (t.status ≡ suspended)
unfolding with_status
stored_status id reason now m none t h = cc h
stored_status id reason now m (some u) t h =
    stored_split id m _ (with_status suspended reason now u) t _ (λ e. cc e) refl h

locked :
    (m : Store) (id : Text) (t : Tenant) (entry : TokenEntry)
    → lookup id m ≡ some t
    → t.status ≡ suspended
    → entry.tenant_id ≡ id
    → is_platform_staff entry.role true ≡ false
    → MayAct true m entry
    → ⊥
locked m id t entry found s own not_staff (alone e) = cc e
locked m id t entry found s own not_staff (staff e) = cc (e, not_staff)
locked m id t entry found s own not_staff (member u got e) =
    cc (s, e, get-lookup id m t u found (ap (λ i. get_tenant (some i) m) (sym own) ∙ got))

-- In the SaaS mode, once a tenant is suspended no request gets through as one of its users who is no
-- platform staff, whatever tokens are out.
pub suspended-refuses :
    (now : ℕ) (tokens : TokenStore) (m : Store) (r : HttpRequest) (entry : TokenEntry) (id : Text)
    (reason : Option Text) (date : Text) (t : Tenant)
    → (set_tenant_status id suspended reason date m).0 ≡ ok t
    → entry.tenant_id ≡ id
    → is_platform_staff entry.role true ≡ false
    → (auth_middleware true now tokens (set_tenant_status id suspended reason date m).1 r).0
      ≢ next (some entry)
unfolding set_tenant_status
suspended-refuses now tokens m r entry id reason date t done own not_staff h =
    refuse ((auth_middleware-Authorized true now tokens m' r (some entry)).0 h)
  where
    m' : Store
    m' = (set_tenant_status id suspended reason date m).1

    s : (lookup id m' ≡ some t) × (t.status ≡ suspended)
    s = stored_status id reason date m (lookup id m) t done

    refuse : Authorized true now tokens m' r (some entry) → ⊥
    refuse (user e private p may) = locked m' id t entry s.0 s.1 own not_staff may
