-- ===== src/Saas/Plans.antt =====
-- The plans (`PLANS` of src/saas/tenantStore.ts).
use xcoder.Prelude.{ℕ, Bool, true, false, Option, none, some, List, [], ◌∷◌, if◌then◌else◌}
use xcoder.Prelude.Text.{Text, codes, one_of}
use xcoder.Prelude.Keys.{Dict, text_keys, lookup}

-- `none` is `undefined`, which no usage reaches.
pub record Limits : Type 0 where
  pub max_users : Option ℕ
  pub monthly_tokens : Option ℕ
  pub monthly_requests : Option ℕ
  pub max_projects : Option ℕ

abbrev pub limits : ℕ → ℕ → ℕ → ℕ → Limits
limits users tokens requests projects = record {
  max_users = some users;
  monthly_tokens = some tokens;
  monthly_requests = some requests;
  max_projects = some projects;
}

abbrev pub no_limits : Limits
no_limits = record {
  max_users = none;
  monthly_tokens = none;
  monthly_requests = none;
  max_projects = none;
}

abbrev pub free_plan : Limits
free_plan = limits 3 200_000 500 3

abbrev pub plans : Dict Text Limits
plans =
    (codes "free", free_plan)
    ∷ (codes "pro", limits 25 5_000_000 20_000 50)
    ∷ (codes "enterprise", limits 1000 100_000_000 1_000_000 1000)
    ∷ []

-- The properties that every object literal inherits, so `PLANS[name]` finds them.
abbrev pub inherited_names : List Text
inherited_names =
    codes "constructor"
    ∷ codes "toString"
    ∷ codes "toLocaleString"
    ∷ codes "valueOf"
    ∷ codes "hasOwnProperty"
    ∷ codes "isPrototypeOf"
    ∷ codes "propertyIsEnumerable"
    ∷ codes "__proto__"
    ∷ codes "__defineGetter__"
    ∷ codes "__defineSetter__"
    ∷ codes "__lookupGetter__"
    ∷ codes "__lookupSetter__"
    ∷ []

-- `PLANS[name]`; an inherited function has none of the limits
unfoldable pub plan_of : Text → Option Limits
plan_of name = elim (lookup name plans) [
  | some l ↦ some l
  | none ↦ if one_of inherited_names name then some no_limits else none
]

abbrev pub plan_known : Text → Bool
plan_known name = elim (plan_of name) [ none ↦ false | some l ↦ true ]
