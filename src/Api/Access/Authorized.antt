-- ===== src/Api/Access/Authorized.antt =====
-- Which requests the middleware lets through (src/api/auth.ts).
use mathlib.Core.Option.{some-injective}
use xcoder.Prelude.{
  ◌⊎◌, inl, inr, ◌||◌, Bool-cases, ℕ, ◌≡◌, refl, sym, ap, ◌∙◌, subst, ◌↔◌, Bool, true, false,
  Option, none, some, List, [], ◌∷◌, arith, if◌then◌else◌,
}
use xcoder.Prelude.Text.{Text, codes, same_text, split}
use xcoder.Prelude.Keys.{text_keys, lookup, same_text-eq, same_text_iff}
use xcoder.Saas.Tenants.{Store}
use xcoder.Api.Tokens.{TokenEntry, TokenStore, validate_token, validate_found, expired}
use xcoder.Api.Access.Granted.{MayAct, given, Granted, entry-Granted, Granted-next}
use xcoder.Api.Access.{
  HttpRequest, Outcome, next, is_public, is_call, bearer, by_entry, by_token, by_header,
  auth_middleware,
}

-- The header is two words, "Bearer" and a token of the store that has not expired.
pub record Presents (now : ℕ) (tokens : TokenStore) (r : HttpRequest) (entry : TokenEntry)
    : Type 0 where
  pub header : Text
  pub token : Text
  pub sent : r.authorization ≡ some header
  pub two_words : split 32 header ≡ codes "Bearer" ∷ token ∷ []
  pub stored : lookup token tokens ≡ some entry
  pub fresh : expired now entry ≡ false

-- The four calls that need no token.
pub data Public (r : HttpRequest) : Type 0 where
  login : r.path ≡ codes "/login" → r.method ≡ codes "POST" → Public r
  register : r.path ≡ codes "/register" → r.method ≡ codes "POST" → Public r
  google : r.path ≡ codes "/auth/google" → r.method ≡ codes "POST" → Public r
  user_count : r.path ≡ codes "/users/count" → r.method ≡ codes "GET" → Public r

call_iff :
    (path method : Text) (r : HttpRequest)
    → (is_call path method r ≡ true) ↔ ((r.path ≡ path) × (r.method ≡ method))
call_iff path method r =
    let p = same_text_iff r.path path in
    let m = same_text_iff r.method method in
    (λ e. (p.0 (ground (arith, e)), m.0 (ground (arith, e))), λ h. ground (arith, p.1 h.0, m.1 h.1))

one_of_four :
    (a b c d : Bool)
    → (a || b || c || d) ≡ true
    → (a ≡ true) ⊎ ((b ≡ true) ⊎ ((c ≡ true) ⊎ (d ≡ true)))
one_of_four true b c d h = inl refl
one_of_four false true c d h = inr (inl refl)
one_of_four false false true d h = inr (inr (inl refl))
one_of_four false false false d h = inr (inr (inr h))

is_public-Public : (r : HttpRequest) → is_public r ≡ true → Public r
unfolding is_public
is_public-Public r h = listed (
    one_of_four (is_call (codes "/login") (codes "POST") r)
      (is_call (codes "/register") (codes "POST") r)
      (is_call (codes "/auth/google") (codes "POST") r)
      (is_call (codes "/users/count") (codes "GET") r) h)
  where
    listed :
        (is_call (codes "/login") (codes "POST") r ≡ true)
          ⊎ ((is_call (codes "/register") (codes "POST") r ≡ true)
              ⊎ ((is_call (codes "/auth/google") (codes "POST") r ≡ true)
                  ⊎ (is_call (codes "/users/count") (codes "GET") r ≡ true)))
        → Public r
    listed (inl a) = let k = (call_iff (codes "/login") (codes "POST") r).0 a in login k.0 k.1
    listed (inr (inl a)) =
        let k = (call_iff (codes "/register") (codes "POST") r).0 a in register k.0 k.1
    listed (inr (inr (inl a))) =
        let k = (call_iff (codes "/auth/google") (codes "POST") r).0 a in google k.0 k.1
    listed (inr (inr (inr a))) =
        let k = (call_iff (codes "/users/count") (codes "GET") r).0 a in user_count k.0 k.1

Public-is_public : (r : HttpRequest) → Public r → is_public r ≡ true
unfolding is_public
Public-is_public r (login p m) =
    ground (arith, (call_iff (codes "/login") (codes "POST") r).1 (p, m))
Public-is_public r (register p m) =
    ground (arith, (call_iff (codes "/register") (codes "POST") r).1 (p, m))
Public-is_public r (google p m) =
    ground (arith, (call_iff (codes "/auth/google") (codes "POST") r).1 (p, m))
Public-is_public r (user_count p m) =
    ground (arith, (call_iff (codes "/users/count") (codes "GET") r).1 (p, m))

private-Public : (r : HttpRequest) → is_public r ≡ false → ¬ Public r
private-Public r h p = cc (h, Public-is_public r p)

Public-private : (r : HttpRequest) → ¬ Public r → is_public r ≡ false
Public-private r h = elim (Bool-cases (is_public r)) [
  | inl yes_public ↦ absurd (h (is_public-Public r yes_public))
  | inr no_public ↦ no_public
]

-- What it takes to get through with this user.
pub data Authorized (saas : Bool) (now : ℕ) (tokens : TokenStore) (tenants : Store)
    (r : HttpRequest) : Option TokenEntry → Type 0 where
  public : Public r → Authorized saas now tokens tenants r none
  user :
      (entry : TokenEntry)
      → ¬ Public r
      → Presents now tokens r entry
      → MayAct saas tenants entry
      → Authorized saas now tokens tenants r (some entry)

if_some :
    {A : Type 0} (b : Bool) (x y : A) → (if b then some x else none) ≡ some y → (b ≡ true) × (x ≡ y)
if_some true x y h = (refl, some-injective x y h)
if_some false x y h = cc h

two_words_eq : (a b c d : Text) → a ≡ b → c ≡ d → a ∷ c ∷ [] ≡ b ∷ d ∷ []
two_words_eq a b c d e f = rw (e, f) refl

bearer-two_words :
    (parts : List Text) (token : Text)
    → bearer parts ≡ some token
    → parts ≡ codes "Bearer" ∷ token ∷ []
bearer-two_words [] token h = cc h
bearer-two_words (scheme ∷ []) token h = cc h
bearer-two_words (scheme ∷ t ∷ []) token h =
    let both = if_some (same_text scheme (codes "Bearer")) t token h in
    two_words_eq scheme (codes "Bearer") t token (same_text-eq scheme (codes "Bearer") both.0)
      both.1
bearer-two_words (scheme ∷ t ∷ x ∷ xs) token h = cc h

validate_split :
    (now : ℕ) (token : Text) (tokens : TokenStore) (e entry : TokenEntry) (b : Bool)
    → expired now e ≡ b
    → (if b then none else some e) ≡ some entry
    → (some e ≡ some entry) × (expired now entry ≡ false)
validate_split now token tokens e entry true old h = cc h
validate_split now token tokens e entry false young h =
    (h, subst (λ x. expired now x ≡ false) (some-injective e entry h) young)

validate-fresh :
    (now : ℕ) (token : Text) (tokens : TokenStore) (o : Option TokenEntry) (entry : TokenEntry)
    → (validate_found now token tokens o).0 ≡ some entry
    → (o ≡ some entry) × (expired now entry ≡ false)
validate-fresh now token tokens none entry h = cc h
validate-fresh now token tokens (some e) entry h =
    validate_split now token tokens e entry _ refl (sym (ground arith) ∙ h)

fresh-validate :
    (now : ℕ) (token : Text) (tokens : TokenStore) (entry : TokenEntry)
    → lookup token tokens ≡ some entry
    → expired now entry ≡ false
    → (validate_token now token tokens).0 ≡ some entry
unfolding validate_token
fresh-validate now token tokens entry f e = rw f (rw e refl)

module _ (saas : Bool) (now : ℕ) (tokens : TokenStore) (tenants : Store) (r : HttpRequest)
    (u : Option TokenEntry) where
  entry-Authorized :
      (header token : Text)
      → is_public r ≡ false
      → r.authorization ≡ some header
      → split 32 header ≡ codes "Bearer" ∷ token ∷ []
      → by_entry saas tenants (validate_token now token tokens).0 ≡ next u
      → Authorized saas now tokens tenants r u
  unfolding validate_token
  entry-Authorized header token private sent two h =
      subst (Authorized saas now tokens tenants r) (sym g.given_to) (
        user g.entry (private-Public r private)
          (record {
            header = header;
            token = token;
            sent = sent;
            two_words = two;
            stored = v.0;
            fresh = v.1;
          })
          g.may)
    where
      g : Granted saas tenants (validate_token now token tokens).0 u
      g = entry-Granted saas tenants u (validate_token now token tokens).0 h

      v : (lookup token tokens ≡ some g.entry) × (expired now g.entry ≡ false)
      v = validate-fresh now token tokens (lookup token tokens) g.entry g.found

  token-Authorized :
      (header : Text) (o : Option Text)
      → is_public r ≡ false
      → r.authorization ≡ some header
      → bearer (split 32 header) ≡ o
      → (by_token saas now tokens tenants o).0 ≡ next u
      → Authorized saas now tokens tenants r u
  token-Authorized header none private sent e h = cc h
  token-Authorized header (some token) private sent e h =
      entry-Authorized header token private sent (bearer-two_words (split 32 header) token e) h

  header-Authorized :
      (o : Option Text)
      → is_public r ≡ false
      → r.authorization ≡ o
      → (by_header saas now tokens tenants o).0 ≡ next u
      → Authorized saas now tokens tenants r u
  header-Authorized none private e h = cc h
  header-Authorized (some []) private e h = cc h
  header-Authorized (some (c ∷ s)) private e h = token-Authorized (c ∷ s) _ private e refl h

  middleware-Authorized :
      (b : Bool)
      → is_public r ≡ b
      → (if b then (next none, tokens) else by_header saas now tokens tenants r.authorization).0
        ≡ next u
      → Authorized saas now tokens tenants r u
  middleware-Authorized true e h =
      subst (λ w. Authorized saas now tokens tenants r w) (ap given h)
        (public (is_public-Public r e))
  middleware-Authorized false e h = header-Authorized r.authorization e refl h

module _ (saas : Bool) (now : ℕ) (tokens : TokenStore) (tenants : Store) (r : HttpRequest) where
  header-entry :
      (token header : Text)
      → split 32 header ≡ codes "Bearer" ∷ token ∷ []
      → (by_header saas now tokens tenants (some header)).0
        ≡ by_entry saas tenants (validate_token now token tokens).0
  unfolding split
  header-entry token [] e = cc e
  header-entry token (c ∷ s) e = ap (λ parts. (by_token saas now tokens tenants (bearer parts)).0) e

  presented-next :
      (entry : TokenEntry)
      → Presents now tokens r entry
      → MayAct saas tenants entry
      → (by_header saas now tokens tenants r.authorization).0 ≡ next (some entry)
  presented-next entry p may =
      ap (λ o. (by_header saas now tokens tenants o).0) p.sent
      ∙ header-entry p.token p.header p.two_words
      ∙ Granted-next saas tenants (some entry) (validate_token now p.token tokens).0 (record {
        entry = entry;
        found = fresh-validate now p.token tokens entry p.stored p.fresh;
        given_to = refl;
        may = may;
      })

  abbrev passes : Bool → Outcome
  passes b =
      (if b then (next none, tokens) else by_header saas now tokens tenants r.authorization).0

  Authorized-middleware :
      {u : Option TokenEntry}
      → Authorized saas now tokens tenants r u
      → (auth_middleware saas now tokens tenants r).0 ≡ next u
  unfolding auth_middleware
  Authorized-middleware (public e) = ap passes (Public-is_public r e)
  Authorized-middleware (user entry private p may) =
      ap passes (Public-private r private) ∙ presented-next entry p may

-- A request gets past the middleware with a user exactly when it is one of the four public calls (POST to /login, /register or
-- /auth/google, GET of /users/count), or its
-- header is "Bearer" and a stored token that has not expired, the user is the one of the token and, in the
-- SaaS mode, is platform staff or belongs to an active tenant.
pub auth_middleware-Authorized :
    (saas : Bool) (now : ℕ) (tokens : TokenStore) (tenants : Store) (r : HttpRequest)
    (u : Option TokenEntry)
    → ((auth_middleware saas now tokens tenants r).0 ≡ next u)
      ↔ Authorized saas now tokens tenants r u
unfolding auth_middleware
auth_middleware-Authorized saas now tokens tenants r u = (
  middleware-Authorized saas now tokens tenants r u _ refl,
  Authorized-middleware saas now tokens tenants r,
)
