-- ===== src/Api/Tests.antt =====
-- Runs of the models of src/api/auth.ts.
use xcoder.Prelude.{
  ℕ, ◌≤◌, ◌≡◌, ◌≢◌, ◌↔◌, refl, true, false, none, some, List, [], ◌∷◌, ◌++◌, length, keep, arith,
  ◌==◌, if◌then◌else◌,
}
use xcoder.Prelude.Text.{Text, codes, split}
use xcoder.Prelude.Keys.{text_keys, lookup, insert}
use xcoder.Prelude.Keys.Distinct.{remove}
use xcoder.Saas.Roles.{tenant_user, is_platform_staff}
use xcoder.Saas.Tenants.{
  active, suspended, Tenant, Store, set_tenant_status, with_status, get_tenant,
}
use xcoder.Api.Limits.{Limit, admitted, is_recent, check_rate_limit_with_config, sweep}
use xcoder.Api.Limits.Capped.{
  Event, requests, sweeps, replay, serve, logged, admissions, admissions-within,
}
use xcoder.Api.Limits.Retried.{admitted_after_wait}
use xcoder.Api.Tokens.{
  TokenEntry, TokenStore, generate_token, validate_token, revoke_tokens_for_user_id,
}
use xcoder.Api.Tokens.Refined.{
  issues, presents, drops_user, Use, perform, perform_all, granted_all, alive, no_tokens,
  validate_token-granted,
}
use xcoder.Api.Access.{HttpRequest, next, refused, bad_header, auth_middleware}
use xcoder.Api.Access.Authorized.{Authorized, auth_middleware-Authorized}
use xcoder.Api.Access.LockedOut.{suspended-refuses}
use xcoder.Api.Passwords.{
  Platform, matches, scrypt_hash, hash_password, stored_form, verify_password, is_legacy_hash,
}
use xcoder.Api.Passwords.RoundTrip.{verify-hash_password}

abbrev twice : Text → Limit
twice key = record { window = 100; most = 2 }

abbrev busy : List Event
busy =
    requests (codes "a") 10
    ∷ requests (codes "a") 20
    ∷ requests (codes "b") 30
    ∷ sweeps 35
    ∷ requests (codes "a") 40
    ∷ []

admissions-busy : admissions twice 100 (codes "a") busy [] [] ≡ 10 ∷ 20 ∷ []
unfolding admissions logged check_rate_limit_with_config lookup serve sweep insert is_recent
admissions-busy = refl

admissions-within_example :
    length (keep (is_recent 100 50) (admissions twice 100 (codes "a") busy [] [])) ≤ 2
admissions-within_example =
    admissions-within twice 100 (λ key. omega arith) (codes "a") busy 50
      (omega arith, (omega arith, (omega arith, (omega arith, (omega arith, tt))))) (omega arith)

abbrev in_between : List Event
in_between = requests (codes "b") 60 ∷ sweeps 105 ∷ []

admitted_after_wait_example :
    (check_rate_limit_with_config (twice (codes "a")) (codes "a") 112 (
      replay twice 100 in_between
        (check_rate_limit_with_config
          (twice (codes "a"))
          (codes "a")
          50
          (replay twice 100 busy [])).1)).0
    ≡ admitted
unfolding check_rate_limit_with_config replay lookup serve sweep insert is_recent
admitted_after_wait_example =
    admitted_after_wait twice 100 (λ key. omega arith) (codes "a") busy 50 60
      (omega arith, (omega arith, (omega arith, (omega arith, (omega arith, tt))))) (omega arith)
      refl in_between 112 (omega arith, (omega arith, tt)) (refl, (tt, tt)) (omega arith)
      (omega arith)

abbrev logins : List Use
logins =
    issues (codes "t1") 60 10 [] (codes "u1") (codes "ann") tenant_user (codes "acme")
    ∷ issues (codes "t2") 60 20 [] (codes "u2") (codes "bob") tenant_user (codes "acme")
    ∷ presents (codes "t1") 75
    ∷ drops_user (codes "u2") 76
    ∷ []

-- The first token has expired, the second is revoked.
logins-empty : perform_all logins [] ≡ []
unfolding perform_all perform revoke_tokens_for_user_id validate_token lookup generate_token insert
    remove
logins-empty = refl

validate_token-granted_example :
    (validate_token 77 (codes "t2") (perform_all logins [])).0
    ≡ alive 77 (granted_all logins no_tokens (codes "t2"))
validate_token-granted_example =
    validate_token-granted logins 77 (codes "t2")
      (omega arith, (omega arith, (omega arith, (omega arith, tt)))) (omega arith)

abbrev ann : TokenEntry
ann = record {
  user_id = codes "u1";
  username = codes "ann";
  role = tenant_user;
  tenant_id = codes "acme";
  created_at = [];
  expires_at = 100;
}

abbrev tokens : TokenStore
tokens = (codes "t1", ann) ∷ []

abbrev acme : Tenant
acme = record {
  id = codes "acme";
  name = codes "Acme";
  plan = codes "free";
  status = active;
  features = [];
  quotas = none;
  created_at = [];
  updated_at = [];
  agi = none;
  suspended_reason = none;
  deleted_at = none;
}

abbrev tenants : Store
tenants = (codes "acme", acme) ∷ []

abbrev chat : HttpRequest
chat = record {
  path = codes "/chat";
  method = codes "POST";
  authorization = some (codes "Bearer t1");
}

chat-passes : (auth_middleware true 50 tokens tenants chat).0 ≡ next (some ann)
unfolding auth_middleware split validate_token lookup is_platform_staff get_tenant
chat-passes = refl

three_words :
    (auth_middleware true 50 tokens tenants
      (record chat { authorization = some (codes "Bearer t1 x") })).0
    ≡ refused 401 bad_header
unfolding auth_middleware split
three_words = refl

auth_middleware-Authorized_example :
    ((auth_middleware true 50 tokens tenants chat).0 ≡ next (some ann))
    ↔ Authorized true 50 tokens tenants chat (some ann)
auth_middleware-Authorized_example =
    auth_middleware-Authorized true 50 tokens tenants chat (some ann)

suspended-refuses_example :
    (auth_middleware true 50 tokens
      (set_tenant_status (codes "acme") suspended none (codes "now") tenants).1
      chat).0
    ≢ next (some ann)
unfolding set_tenant_status with_status is_platform_staff lookup
suspended-refuses_example =
    suspended-refuses 50 tokens tenants chat ann (codes "acme") none (codes "now")
      (with_status suspended none (codes "now") acme) refl refl refl

-- A platform whose hash writes the password's letters.
abbrev toy : Platform ℕ
toy = record {
  scrypt = λ n r p password salt. some (password ++ salt);
  sha256 = λ s. s;
  from_hex = λ s. s;
  number = λ s. some (length s);
  num = λ n. if n == 16384 then 5 else 1;
}

verify-hash_password_example :
    (verify_password toy (codes "pw") (stored_form toy (codes "ab") (codes "pwab")) ≡ matches)
    × ((verify_password toy (codes "no") (stored_form toy (codes "ab") (codes "pwab")) ≡ matches)
        ↔ (toy.from_hex (codes "noab") ≡ toy.from_hex (codes "pwab")))
    × (is_legacy_hash toy (stored_form toy (codes "ab") (codes "pwab")) ≡ false)
unfolding scrypt_hash hash_password
verify-hash_password_example =
    verify-hash_password toy (codes "ab") (codes "pwab") (codes "pw") (codes "no") (codes "noab")
      (stored_form toy (codes "ab") (codes "pwab"))
      (record {
        salt_free = refl;
        salt_given = refl;
        hash_free = refl;
        hash_given = refl;
        reads_n = refl;
        reads_r = refl;
        reads_p = refl;
      })
      refl refl refl
