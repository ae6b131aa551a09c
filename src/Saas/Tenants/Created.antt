-- ===== src/Saas/Tenants/Created.antt =====
-- What a new tenant is stored as (src/saas/tenantStore.ts).
use xcoder.Prelude.{
  ◌↔◌, ◌⊎◌, ◌≤◌, ◌||◌, ◌∙◌, sym, ap, inl, inr, Option, none, Option-cases, if◌then◌else◌, ℕ, suc,
  ◌≡◌, refl, Bool, true, false, not, ◌&&◌, some, [], ◌∷◌, ◌++◌, length, every, arith, leb, if-both,
  or_default,
}
use xcoder.Prelude.Text.{Text, codes, trim, one_of, same_text}
use xcoder.Prelude.Keys.{text_keys, lookup, lookup-insert_self, lookup-insert_ne}
use xcoder.Saas.Tenants.Fresh.{with_suffix, random_id, new_id-either}
use xcoder.Saas.Plans.{Limits, limits, free_plan, no_limits, plan_known, plan_of, inherited_names}
use xcoder.Saas.Ids.{slugify, is_alphanumeric, is_id_char, valid_tenant_id}
use xcoder.Saas.Tenants.{
  is_stored, name_length, unknown_plan, active, Tenant, Store, Answer, ok, refused, NewTenant,
  new_id, name_ok, create_tenant,
}

-- Four random bytes in hexadecimal.
abbrev pub IsHex : Text → Type 0
IsHex s = (length s ≡ 8) × (every is_alphanumeric s ≡ true)

every-id_char : (s : Text) → every is_alphanumeric s ≡ true → every is_id_char s ≡ true
every-id_char [] h = refl
every-id_char (c ∷ s) h = ground (arith, every-id_char s)

checks : (e : Bool) (n : ℕ) → e ≡ true → n ≡ 8 → (e && leb 1 (suc n) && leb (suc n) 40) ≡ true
checks e n h k = ground arith

prefixed-valid : (s : Text) → IsHex s → valid_tenant_id (codes "t-" ++ s) ≡ true
unfolding valid_tenant_id is_alphanumeric
prefixed-valid s h = checks (every is_id_char s) (length s) (every-id_char s h.1) h.0

new_id-valid :
    (lower : Text → Text) (name hex3 hex4 : Text) (m : Store)
    → IsHex hex4
    → valid_tenant_id (new_id lower name hex3 hex4 m) ≡ true
unfolding new_id
new_id-valid lower name hex3 hex4 m h =
    if-both (λ i. valid_tenant_id i ≡ true) (valid_tenant_id _) (λ e. e)
      (λ _. prefixed-valid hex4 h)

abbrev pub IsListed : Text → Type 0
IsListed plan =
    (one_of (codes "free" ∷ codes "pro" ∷ codes "enterprise" ∷ []) plan ≡ true)
    ⊎ (one_of inherited_names plan ≡ true)

abbrev shaped : (f p e i : Bool) (a b c d : Limits) → Option Limits
shaped f p e i a b c d =
    elim (if f then some a else if p then some b else if e then some c else none) [
      | some l ↦ some l
      | none ↦ if i then some d else none
    ]

abbrev is_there : Option Limits → Bool
is_there none = false
is_there (some l) = true

shape :
    (f p e i : Bool) (a b c d : Limits)
    → is_there (shaped f p e i a b c d) ≡ ((f || (p || (e || false))) || i)
shape true p e i a b c d = refl
shape false true e i a b c d = refl
shape false false true i a b c d = refl
shape false false false true a b c d = refl
shape false false false false a b c d = refl

-- The plans, and the names that their object inherits.
known-listed :
    (plan : Text)
    → plan_known plan ≡ (
        one_of (codes "free" ∷ codes "pro" ∷ codes "enterprise" ∷ []) plan
        || one_of inherited_names plan)
unfolding plan_of lookup
known-listed plan =
    shape (same_text (codes "free") plan) (same_text (codes "pro") plan)
      (same_text (codes "enterprise") plan) (one_of inherited_names plan) free_plan
      (limits 25 5_000_000 20_000 50) (limits 1000 100_000_000 1_000_000 1000) no_limits

either_true : (a b : Bool) → (a || b) ≡ true → (a ≡ true) ⊎ (b ≡ true)
either_true true b h = inl refl
either_true false b h = inr h

true_either : (a b : Bool) → (a ≡ true) ⊎ (b ≡ true) → (a || b) ≡ true
true_either a b (inl h) = ground (arith, h)
true_either a b (inr h) = ground (arith, h)

abbrev pub IsNamed : Text → Type 0
IsNamed name = (2 ≤ length name) × (length name ≤ 80)

name_iff : (name : Text) → (name_ok name ≡ true) ↔ IsNamed name
unfolding name_ok
name_iff name = (λ e. (ground (arith, e), ground (arith, e)), λ h. ground (arith, h.0, h.1))

-- What the caller gets: why a tenant is refused, or the one that is stored and that nothing else changes.
pub data Creates (name plan : Text) (m : Store) : Answer × Store → Type 0 where
  misnamed : ¬ IsNamed name → Creates name plan m (refused name_length, m)
  unlisted : IsNamed name → ¬ IsListed plan → Creates name plan m (refused (unknown_plan plan), m)
  stores :
      {t : Tenant} {m' : Store}
      → IsNamed name
      → IsListed plan
      → (t.name ≡ name) × (t.plan ≡ plan) × (t.status ≡ active)
      → valid_tenant_id t.id ≡ true
      → lookup t.id m ≡ none
      → lookup t.id m' ≡ some t
      → ((id : Text) → same_text t.id id ≡ false → lookup id m' ≡ lookup id m)
      → Creates name plan m (ok t, m')

abbrev slug_of : (Text → Text) → NewTenant → Text
slug_of lower input = slugify lower (trim (or_default input.name []))

abbrev stored : Option Tenant → Bool
stored none = false
stored (some t) = true

unstored-none : (id : Text) (m : Store) → is_stored id m ≡ false → lookup id m ≡ none
unstored-none id m h = elim (Option-cases (lookup id m)) [
  | inl e ↦ e
  | inr (t, e) ↦ cc (h, ap stored e)
]

-- A new tenant is refused, for its name or for a plan that is not listed, and nothing changes; or it is stored as
-- an active one under an id that may be a folder's name and that no tenant had, and the others are as they were.
-- The names that the object of the plans inherits count as listed. The random parts are no stored id.
pub create_tenant-Creates :
    (lower : Text → Text) (input : NewTenant) (hex3 hex4 now : Text) (m : Store)
    → IsHex hex4
    → lookup (with_suffix (slugify lower (trim (or_default input.name []))) hex3) m ≡ none
    → lookup (random_id hex4) m ≡ none
    → Creates
        (trim (or_default input.name []))
        (or_default input.plan (codes "free"))
        m
        (create_tenant lower input hex3 hex4 now m)
unfolding create_tenant
create_tenant-Creates lower input hex3 hex4 now m h suffixed random =
    let name = trim (or_default input.name []) in
    let plan = or_default input.plan (codes "free") in
    let id = new_id lower name hex3 hex4 m in
    if-both (Creates name plan m) (not (name_ok name))
      (λ bad. misnamed (λ k. cc (set_off _ bad, (name_iff name).1 k)))
      (λ named.
        let is_named = (name_iff name).0 (set_flag _ named) in
        if-both (Creates name plan m) (not (plan_known plan))
          (λ bad.
            unlisted is_named (λ k. cc (set_off _ bad, sym (known-listed plan), true_either _ _ k)))
          (λ planned.
            stores is_named (either_true _ _ (sym (known-listed plan) ∙ set_flag _ planned))
              (refl, refl, refl) (new_id-valid lower name hex3 hex4 m h)
              (new_id-either (λ j. lookup j m ≡ none) lower name hex3 hex4 m
                (unstored-none (slugify lower name) m) suffixed random)
              (lookup-insert_self id _ m) (λ j other. lookup-insert_ne j id _ m other)))
  where
    set_flag : (b : Bool) → not b ≡ false → b ≡ true
    set_flag b e = ground arith

    set_off : (b : Bool) → not b ≡ true → b ≡ false
    set_off b e = ground arith
