-- ===== src/Api/Access/Granted.antt =====
-- Which users the middleware lets through (src/api/auth.ts).
use xcoder.Prelude.{
  ◌≡◌, refl, sym, ap, ◌∙◌, inl, inr, Bool, true, false, not, ◌&&◌, Option, none, some, arith,
  if◌then◌else◌, if-both, Bool-cases,
}
use xcoder.Prelude.Keys.{text_keys}
use xcoder.Saas.Roles.{is_platform_staff}
use xcoder.Saas.Tenants.{TenantStatus, active, suspended, deleted, Tenant, Store, get_tenant}
use xcoder.Api.Tokens.{TokenEntry}
use xcoder.Api.Access.{Outcome, next, refused, by_status, by_tenant, by_entry}

-- Outside of the SaaS mode any user may act; in it platform staff and the users of active tenants.
pub data MayAct (saas : Bool) (tenants : Store) (entry : TokenEntry) : Type 0 where
  alone : saas ≡ false → MayAct saas tenants entry
  staff : is_platform_staff entry.role saas ≡ true → MayAct saas tenants entry
  member :
      (t : Tenant)
      → get_tenant (some entry.tenant_id) tenants ≡ some t
      → t.status ≡ active
      → MayAct saas tenants entry

abbrev pub given : Outcome → Option TokenEntry
given (next u) = u
given (refused status reason) = none

-- A user who is let through, by the entry that was found.
pub record Granted (saas : Bool) (tenants : Store) (o u : Option TokenEntry) : Type 0 where
  pub entry : TokenEntry
  pub found : o ≡ some entry
  pub given_to : u ≡ some entry
  pub may : MayAct saas tenants entry

module _ (saas : Bool) (tenants : Store) (u : Option TokenEntry) where
  status-Granted :
      (entry : TokenEntry) (t : Tenant) (st : TenantStatus)
      → get_tenant (some entry.tenant_id) tenants ≡ some t
      → t.status ≡ st
      → by_status entry st ≡ next u
      → Granted saas tenants (some entry) u
  status-Granted entry t active f e h = record {
    entry = entry;
    found = refl;
    given_to = ap given (sym h);
    may = member t f e;
  }
  status-Granted entry t suspended f e h = cc h
  status-Granted entry t deleted f e h = cc h

  tenant-Granted :
      (entry : TokenEntry) (o : Option Tenant)
      → get_tenant (some entry.tenant_id) tenants ≡ o
      → by_tenant entry o ≡ next u
      → Granted saas tenants (some entry) u
  tenant-Granted entry none e h = cc h
  tenant-Granted entry (some t) e h = status-Granted entry t t.status e refl h

  may_act :
      (entry : TokenEntry)
      → (saas && not (is_platform_staff entry.role saas)) ≡ false
      → MayAct saas tenants entry
  may_act entry h = elim (Bool-cases saas) [
    | inr alone_here ↦ alone alone_here
    | inl hosted ↦ staff (ground (arith, hosted, h))
  ]

  checked-Granted :
      (entry : TokenEntry) (b : Bool)
      → (saas && not (is_platform_staff entry.role saas)) ≡ b
      → (if b
          then by_tenant entry (get_tenant (some entry.tenant_id) tenants)
          else next (some entry))
        ≡ next u
      → Granted saas tenants (some entry) u
  checked-Granted entry true e h = tenant-Granted entry _ refl h
  checked-Granted entry false e h = record {
    entry = entry;
    found = refl;
    given_to = ap given (sym h);
    may = may_act entry e;
  }

  pub entry-Granted :
      (o : Option TokenEntry) → by_entry saas tenants o ≡ next u → Granted saas tenants o u
  entry-Granted none h = cc h
  entry-Granted (some entry) h = checked-Granted entry _ refl h

  pub Granted-next :
      (o : Option TokenEntry) → Granted saas tenants o u → by_entry saas tenants o ≡ next u
  Granted-next o g = ap (by_entry saas tenants) g.found ∙ acts g.may ∙ ap next (sym g.given_to)
    where
      acts :
          MayAct saas tenants g.entry → by_entry saas tenants (some g.entry) ≡ next (some g.entry)
      acts (alone e) = rw e refl
      acts (staff e) = ground (arith, e)
      acts (member t f e) =
          if-both {A = Outcome} (λ x. x ≡ next (some g.entry))
            (saas && not (is_platform_staff g.entry.role saas))
            (λ _. ap (by_tenant g.entry) f ∙ ap (by_status g.entry) e) (λ _. refl)
