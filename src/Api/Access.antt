-- ===== src/Api/Access.antt =====
-- `authMiddleware` and `requireAdmin` of src/api/auth.ts. A request is its path, its method and its
-- Authorization header; the answer carries the entry that the request gets as its user.
pub mod Granted
pub mod Authorized
pub mod LockedOut
use xcoder.Prelude.{
  ℕ, Bool, true, false, not, ◌&&◌, ◌||◌, Option, none, some, List, [], ◌∷◌, if◌then◌else◌,
}
use xcoder.Prelude.Text.{Text, codes, same_text, split}
use xcoder.Saas.Roles.{Role, is_platform_admin, is_platform_staff}
use xcoder.Saas.Tenants.{TenantStatus, active, suspended, deleted, Tenant, Store, get_tenant}
use xcoder.Api.Tokens.{TokenEntry, TokenStore, validate_token}

pub record HttpRequest : Type 0 where
  pub path : Text
  pub method : Text
  pub authorization : Option Text

pub data Refusal : Type 0 where
  missing_header bad_header invalid_token tenant_not_found tenant_suspended admin_required : Refusal

pub data Outcome : Type 0 where
  next : Option TokenEntry → Outcome
  refused : ℕ → Refusal → Outcome

abbrev is_call : Text → Text → HttpRequest → Bool
is_call path method r = same_text r.path path && same_text r.method method

-- The calls that need no token.
unfoldable pub is_public : HttpRequest → Bool
is_public r =
    is_call (codes "/login") (codes "POST") r
    || is_call (codes "/register") (codes "POST") r
    || is_call (codes "/auth/google") (codes "POST") r
    || is_call (codes "/users/count") (codes "GET") r

-- The token of a header's parts: two, the first of them "Bearer".
abbrev pub bearer : List Text → Option Text
bearer (scheme ∷ token ∷ []) = if same_text scheme (codes "Bearer") then some token else none
bearer _ = none

abbrev pub by_status : TokenEntry → TenantStatus → Outcome
by_status entry active = next (some entry)
by_status entry suspended = refused 403 tenant_suspended
by_status entry deleted = refused 403 tenant_not_found

abbrev pub by_tenant : TokenEntry → Option Tenant → Outcome
by_tenant entry none = refused 403 tenant_not_found
by_tenant entry (some t) = by_status entry t.status

-- A suspended or deleted tenant is cut off, also for tokens that are out.
abbrev pub by_entry : Bool → Store → Option TokenEntry → Outcome
by_entry saas tenants none = refused 403 invalid_token
by_entry saas tenants (some entry) =
    if saas && not (is_platform_staff entry.role saas)
    then by_tenant entry (get_tenant (some entry.tenant_id) tenants)
    else next (some entry)

abbrev pub by_token : Bool → ℕ → TokenStore → Store → Option Text → Outcome × TokenStore
by_token saas now tokens tenants none = (refused 401 bad_header, tokens)
by_token saas now tokens tenants (some token) =
    let checked = validate_token now token tokens in (by_entry saas tenants checked.0, checked.1)

abbrev pub by_header : Bool → ℕ → TokenStore → Store → Option Text → Outcome × TokenStore
by_header saas now tokens tenants none = (refused 401 missing_header, tokens)
by_header saas now tokens tenants (some []) = (refused 401 missing_header, tokens)
by_header saas now tokens tenants (some (c ∷ s)) =
    by_token saas now tokens tenants (bearer (split 32 (c ∷ s)))

unfoldable pub auth_middleware : Bool → ℕ → TokenStore → Store → HttpRequest → Outcome × TokenStore
unfolding is_public
auth_middleware saas now tokens tenants r =
    if is_public r then (next none, tokens) else by_header saas now tokens tenants r.authorization

-- `requireAdmin`, after the middleware
unfoldable pub require_admin : Bool → Option TokenEntry → Outcome
require_admin saas none = refused 403 admin_required
require_admin saas (some entry) =
    if is_platform_admin entry.role saas then next (some entry) else refused 403 admin_required

abbrev pub then_admin : Bool → Outcome → Outcome
then_admin saas (next user) = require_admin saas user
then_admin saas (refused status reason) = refused status reason
