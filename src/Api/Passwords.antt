-- ===== src/Api/Passwords.antt =====
-- Passwords and log-ins (src/api/auth.ts). The hash functions, hexadecimal decoding, `Number` and random
-- salts come from the platform: they are parameters. `Num` is its type of finite numbers.
pub mod RoundTrip
use xcoder.Prelude.{
  ℕ, ◌==◌, Bool, true, false, not, ◌&&◌, ◌||◌, Option, none, some, List, [], ◌∷◌, ◌++◌, length,
  find, if◌then◌else◌,
}
use xcoder.Prelude.Text.{Text, codes, same_text, non_empty, split, show}
use xcoder.Saas.Roles.{Role}

pub data Provider : Type 0 where
  local google : Provider

pub record StoredUser : Type 0 where
  pub id : Text
  pub username : Text
  pub password_hash : Text
  pub role : Role
  pub tenant_id : Option Text
  pub is_disabled : Bool
  pub created_at : Text
  pub auth_provider : Provider
  pub google_id : Option Text
  pub email : Option Text

pub record Platform (Num : Type 0) : Type 0 where
  -- `scryptSync(password, salt, 64, { N, r, p })` in hexadecimal; none if it throws
  pub scrypt : Num → Num → Num → Text → Text → Option Text
  pub sha256 : Text → Text
  pub from_hex : Text → List ℕ
  -- `Number(s)`, none if it is not finite
  pub number : Text → Option Num
  pub num : ℕ → Num

abbrev pub scrypt_n : ℕ
scrypt_n = 16384

abbrev pub scrypt_r : ℕ
scrypt_r = 8

abbrev pub scrypt_p : ℕ
scrypt_p = 1

-- none stands for an exception
pub data Verdict : Type 0 where
  matches differs throws : Verdict

abbrev pub verdict : Bool → Verdict
verdict b = if b then matches else differs

module _ {Num : Type 0} (pl : Platform Num) where
  unfoldable pub scrypt_hash : Text → Text → Option Text
  scrypt_hash password salt =
      pl.scrypt (pl.num scrypt_n) (pl.num scrypt_r) (pl.num scrypt_p) password salt

  -- 58 is the colon.
  abbrev pub stored_form : Text → Text → Text
  stored_form salt hash =
      codes "scrypt:"
      ++ codes "16384"
      ++ codes ":"
      ++ codes "8"
      ++ codes ":"
      ++ codes "1"
      ++ codes ":"
      ++ salt
      ++ 58 ∷ hash

  -- The random salt is an argument.
  unfoldable pub hash_password : Text → Text → Option Text
  unfolding scrypt_hash
  hash_password salt password = elim (scrypt_hash password salt) [
    | none ↦ none
    | some hash ↦ some (stored_form salt hash)
  ]

  unfoldable pub timing_safe_equal_hex : Text → Text → Bool
  timing_safe_equal_hex a b =
      let x = pl.from_hex a in
      let y = pl.from_hex b in if not (length x == length y) then false else same_text x y

  abbrev pub compare_hash : Text → Option Text → Verdict
  compare_hash hash none = throws
  compare_hash hash (some computed) = verdict (timing_safe_equal_hex computed hash)

  abbrev pub verify_with : Text → Text → Text → Option Num → Option Num → Option Num → Verdict
  verify_with password salt hash (some n) (some r) (some p) =
      if not (non_empty salt) || not (non_empty hash)
      then differs
      else compare_hash hash (pl.scrypt n r p password salt)
  verify_with password salt hash _ _ _ = differs

  abbrev pub verify_legacy : Text → Text → Text → Verdict
  verify_legacy password salt hash =
      if not (non_empty salt) || not (non_empty hash)
      then differs
      else verdict (timing_safe_equal_hex (pl.sha256 (salt ++ password)) hash)

  abbrev pub verify_parts : Text → List Text → Verdict
  verify_parts password (scheme ∷ n ∷ r ∷ p ∷ salt ∷ hash ∷ []) =
      if same_text scheme (codes "scrypt")
      then verify_with password salt hash (pl.number n) (pl.number r) (pl.number p)
      else differs
  verify_parts password (salt ∷ hash ∷ []) = verify_legacy password salt hash
  verify_parts password _ = differs

  unfoldable pub verify_password : Text → Text → Verdict
  verify_password password stored = verify_parts password (split 58 stored)

  unfoldable pub is_legacy_hash : Text → Bool
  is_legacy_hash stored = length (split 58 stored) == 2

  pub data LoginAnswer : Type 0 where
    logged_in : StoredUser → LoginAnswer
    rejected failed : LoginAnswer

  abbrev answer_verdict : StoredUser → Verdict → LoginAnswer
  answer_verdict user matches = logged_in user
  answer_verdict user differs = rejected
  answer_verdict user throws = failed

  abbrev answer_provider : Text → StoredUser → Provider → LoginAnswer
  answer_provider password user google = rejected
  answer_provider password user local =
      answer_verdict user (verify_password password user.password_hash)

  abbrev answer_user : Text → Option StoredUser → LoginAnswer
  answer_user password none = rejected
  answer_user password (some user) =
      if user.is_disabled then rejected else answer_provider password user user.auth_provider

  unfoldable pub verify_login : Text → Text → List StoredUser → LoginAnswer
  unfolding verify_password
  verify_login username password users =
      answer_user password (find (λ u. same_text u.username username) users)

abbrev is_google : StoredUser → Bool
is_google u = elim u.auth_provider [ google ↦ true | local ↦ false ]

abbrev same_some : Text → Option Text → Bool
same_some s none = false
same_some s (some t) = same_text t s

-- No id, or the empty one.
abbrev no_id : Option Text → Bool
no_id none = true
no_id (some s) = not (non_empty s)

abbrev or_else : Option StoredUser → Option StoredUser → Option StoredUser
or_else none b = b
or_else (some u) b = some u

abbrev lowered : (Text → Text) → Option Text → Option Text
lowered lower none = none
lowered lower (some s) = some (lower s)

unfoldable pub find_google_user : (Text → Text) → Text → Text → List StoredUser → Option StoredUser
find_google_user lower google_id email users =
    or_else (find (λ u. is_google u && same_some google_id u.google_id) users) (
      find
        (λ u. is_google u && no_id u.google_id && same_some (lower email) (lowered lower u.email))
        users)
