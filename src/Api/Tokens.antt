-- ===== src/Api/Tokens.antt =====
-- The token store of src/api/auth.ts: a dictionary of tokens. Random tokens and the time are arguments.
pub mod Refined
use xcoder.Prelude.{
  ℕ, zero, suc, ◌+◌, leb, Bool, true, false, not, ◌&&◌, ◌||◌, Option, none, some, List, [], ◌∷◌,
  length, keep, map, if◌then◌else◌,
}
use xcoder.Prelude.Text.{Text, same_text}
use xcoder.Prelude.Keys.{Dict, text_keys, lookup, insert}
use xcoder.Prelude.Keys.Distinct.{keep_values, remove}
use xcoder.Saas.Roles.{Role, saas_owner, saas_ops}

pub record TokenEntry : Type 0 where
  pub user_id : Text
  pub username : Text
  pub role : Role
  pub tenant_id : Text
  pub created_at : Text
  pub expires_at : ℕ

abbrev pub TokenStore : Type 0
TokenStore = Dict Text TokenEntry

-- `XCODER_TOKEN_TTL_MS` if it is a positive number
unfoldable pub token_ttl_ms : Option ℕ → ℕ
token_ttl_ms none = 3600000
token_ttl_ms (some zero) = 3600000
token_ttl_ms (some (suc ms)) = suc ms

unfoldable pub token_entry : ℕ → ℕ → Text → Text → Text → Role → Text → TokenEntry
token_entry ttl now created_at user_id username role tenant_id = record {
  user_id = user_id;
  username = username;
  role = role;
  tenant_id = tenant_id;
  created_at = created_at;
  expires_at = now + ttl;
}

-- The random token is the first argument.
unfoldable pub generate_token :
    Text → ℕ → ℕ → Text → Text → Text → Role → Text → TokenStore → TokenStore
unfolding token_entry
generate_token token ttl now created_at user_id username role tenant_id store =
    insert token (token_entry ttl now created_at user_id username role tenant_id) store

abbrev pub expired : ℕ → TokenEntry → Bool
expired now entry = leb entry.expires_at now

abbrev pub validate_found :
    ℕ → Text → TokenStore → Option TokenEntry → Option TokenEntry × TokenStore
validate_found now token store none = (none, store)
validate_found now token store (some entry) =
    if expired now entry then (none, remove token store) else (some entry, store)

-- An expired token is evicted where it is presented.
unfoldable pub validate_token : ℕ → Text → TokenStore → Option TokenEntry × TokenStore
validate_token now token store = validate_found now token store (lookup token store)

unfoldable pub revoke_token : Text → TokenStore → Bool × TokenStore
revoke_token token store =
    (elim (lookup token store) [ none ↦ false | some entry ↦ true ], remove token store)

unfoldable pub get_tokens_for_user : Text → TokenStore → List Text
get_tokens_for_user username store =
    map (λ entry. entry.0) (keep (λ entry. same_text entry.1.username username) store)

abbrev pub of_user : Text → TokenEntry → Bool
of_user user_id entry = same_text entry.user_id user_id

abbrev is_staff_role : Role → Bool
is_staff_role saas_owner = true
is_staff_role saas_ops = true
is_staff_role _ = false

abbrev pub of_tenant : Text → TokenEntry → Bool
of_tenant tenant_id entry = same_text entry.tenant_id tenant_id && not (is_staff_role entry.role)

-- How many are revoked, and what is left.
unfoldable pub revoke_all : (TokenEntry → Bool) → TokenStore → ℕ × TokenStore
unfolding keep_values
revoke_all test store =
    (length (keep (λ entry. test entry.1) store), keep_values (λ entry. not (test entry)) store)

unfoldable pub revoke_tokens_for_user_id : Text → TokenStore → ℕ × TokenStore
unfolding revoke_all
revoke_tokens_for_user_id user_id = revoke_all (of_user user_id)

unfoldable pub revoke_tokens_for_tenant : Text → TokenStore → ℕ × TokenStore
unfolding revoke_all
revoke_tokens_for_tenant tenant_id = revoke_all (of_tenant tenant_id)

-- The hourly sweep.
unfoldable pub sweep_tokens : ℕ → TokenStore → TokenStore
unfolding keep_values
sweep_tokens now store = keep_values (λ entry. not (expired now entry)) store
