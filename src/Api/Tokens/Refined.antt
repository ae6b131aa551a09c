-- ===== src/Api/Tokens/Refined.antt =====
-- The token store against tokens that are never evicted (src/api/auth.ts).
use xcoder.Prelude.{
  ℕ, ◌≤◌, ◌≡◌, refl, sym, ap, ◌∙◌, Bool, true, false, not, Option, none, some, List, [], ◌∷◌, arith,
  if◌then◌else◌, if-both, Bool-cases, ◌⊎◌, inl, inr,
}
use xcoder.Prelude.Text.{Text, same_text}
use xcoder.Prelude.Keys.{text_keys, lookup, lookup-insert, same_text-eq}
use xcoder.Prelude.Keys.Distinct.{
  Distinct, filtered, remove, lookup-remove, remove-Distinct, insert-Distinct, lookup-keep_values,
  keep_values-Distinct,
}
use xcoder.Saas.Roles.{Role}
use xcoder.Api.Tokens.{
  TokenEntry, TokenStore, token_entry, generate_token, expired, validate_found, validate_token,
  revoke_token, of_user, of_tenant, revoke_all, revoke_tokens_for_user_id, revoke_tokens_for_tenant,
  sweep_tokens,
}

pub data Use : Type 0 where
  issues : Text → ℕ → ℕ → Text → Text → Text → Role → Text → Use
  presents : Text → ℕ → Use
  logs_out : Text → ℕ → Use
  drops_user drops_tenant : Text → ℕ → Use
  sweeps : ℕ → Use

abbrev pub time_of : Use → ℕ
time_of (issues token ttl now created user_id username role tenant_id) = now
time_of (presents token now) = now
time_of (logs_out token now) = now
time_of (drops_user user_id now) = now
time_of (drops_tenant tenant_id now) = now
time_of (sweeps now) = now

abbrev pub InOrder : ℕ → List Use → Type 0
InOrder clock [] = Unit
InOrder clock (u ∷ us) = (clock ≤ time_of u) × InOrder (time_of u) us

abbrev pub clock_after : ℕ → List Use → ℕ
clock_after clock [] = clock
clock_after clock (u ∷ us) = clock_after (time_of u) us

unfoldable pub perform : Use → TokenStore → TokenStore
perform (issues token ttl now created user_id username role tenant_id) store =
    generate_token token ttl now created user_id username role tenant_id store
perform (presents token now) store = (validate_token now token store).1
perform (logs_out token now) store = (revoke_token token store).1
perform (drops_user user_id now) store = (revoke_tokens_for_user_id user_id store).1
perform (drops_tenant tenant_id now) store = (revoke_tokens_for_tenant tenant_id store).1
perform (sweeps now) store = sweep_tokens now store

unfoldable pub perform_all : List Use → TokenStore → TokenStore
perform_all [] store = store
perform_all (u ∷ us) store = perform_all us (perform u store)

-- The abstract view: which entry each token stands for until it is revoked.
abbrev pub View : Type 0
View = Text → Option TokenEntry

unfoldable pub granted : Use → View → View
granted (issues token ttl now created user_id username role tenant_id) view k =
    if same_text token k
    then some (token_entry ttl now created user_id username role tenant_id)
    else view k
granted (presents token now) view k = view k
granted (logs_out token now) view k = if same_text token k then none else view k
granted (drops_user user_id now) view k = filtered (λ e. not (of_user user_id e)) (view k)
granted (drops_tenant tenant_id now) view k = filtered (λ e. not (of_tenant tenant_id e)) (view k)
granted (sweeps now) view k = view k

unfoldable pub granted_all : List Use → View → View
granted_all [] view = view
granted_all (u ∷ us) view = granted_all us (granted u view)

abbrev pub alive : ℕ → Option TokenEntry → Option TokenEntry
alive now o = filtered (λ e. not (expired now e)) o

-- The store and the view agree on every token that is alive at a later time.
record Agrees (clock : ℕ) (store : TokenStore) (view : View) : Type 0 where
  distinct : Distinct store
  same :
      (later : ℕ) → clock ≤ later → (k : Text) → alive later (lookup k store) ≡ alive later (view k)

alive-filtered :
    (p : TokenEntry → Bool) (later : ℕ) (o v : Option TokenEntry)
    → alive later o ≡ alive later v
    → alive later (filtered p o) ≡ alive later (filtered p v)
alive-filtered p later o v h = commute o ∙ ap (filtered p) h ∙ sym (commute v)
  where
    commute : (x : Option TokenEntry) → alive later (filtered p x) ≡ filtered p (alive later x)
    commute none = refl
    commute (some e) = ground arith

alive-swept :
    (now later : ℕ) (o : Option TokenEntry)
    → now ≤ later
    → alive later (alive now o) ≡ alive later o
alive-swept now later none h = refl
alive-swept now later (some e) h = ground arith

alive-if :
    (later : ℕ) (b : Bool) (x o v : Option TokenEntry)
    → alive later o ≡ alive later v
    → alive later (if b then x else o) ≡ alive later (if b then x else v)
alive-if later true x o v h = refl
alive-if later false x o v h = h

module _ (clock : ℕ) (store : TokenStore) (view : View) (a : Agrees clock store view) where
  later-Agrees : (now : ℕ) → clock ≤ now → Agrees now store view
  later-Agrees now h = record {
    distinct = a.distinct;
    same = λ later g. a.same later (omega arith);
  }

  evicted :
      (now later : ℕ) (token k : Text) (entry : TokenEntry)
      → now ≤ later
      → lookup token store ≡ some entry
      → expired now entry ≡ true
      → alive later (lookup k (remove token store)) ≡ alive later (lookup k store)
  evicted now later token k entry h found old =
      ap (alive later) (lookup-remove k token store) ∙ hit (Bool-cases (same_text token k))
    where
      hit :
          (same_text token k ≡ true) ⊎ (same_text token k ≡ false)
          → alive later (if same_text token k then none else lookup k store)
            ≡ alive later (lookup k store)
      hit (inr other) = rw other refl
      hit (inl here) = rw here (
          sym (
            ap (alive later) (ap (λ t. lookup t store) (sym (same_text-eq token k here)) ∙ found)
            ∙ dead))
        where
          dead : alive later (some entry) ≡ none
          dead = ground (arith, old)

  presented-Agrees :
      (now : ℕ) (token : Text) (o : Option TokenEntry)
      → clock ≤ now
      → lookup token store ≡ o
      → Agrees now (validate_found now token store o).1 view
  presented-Agrees now token none h e = later-Agrees now h
  presented-Agrees now token (some entry) h e =
      if-both {A = Option TokenEntry × TokenStore} (λ r. Agrees now r.1 view) (expired now entry)
        (λ old. record {
          distinct = remove-Distinct token store a.distinct;
          same =
              λ later g k. evicted now later token k entry g e old ∙ a.same later (omega arith) k;
        })
        (λ _. later-Agrees now h)

  revoked-Agrees :
      (now : ℕ) (test : TokenEntry → Bool)
      → clock ≤ now
      → Agrees now (revoke_all test store).1 (λ k. filtered (λ e. not (test e)) (view k))
  unfolding revoke_all
  revoked-Agrees now test h = record {
    distinct = keep_values-Distinct _ store a.distinct;
    same = λ later g k.
        ap (alive later) (lookup-keep_values _ k store a.distinct)
        ∙ alive-filtered _ later (lookup k store) (view k) (a.same later (omega arith) k);
  }

  perform-Agrees :
      (u : Use) → clock ≤ time_of u → Agrees (time_of u) (perform u store) (granted u view)
  unfolding perform granted generate_token validate_token revoke_token revoke_tokens_for_user_id
      revoke_tokens_for_tenant sweep_tokens
  perform-Agrees (issues token ttl now created user_id username role tenant_id) h = record {
    distinct = insert-Distinct token _ store a.distinct;
    same = λ later g k.
        ap (alive later) (lookup-insert k token _ store)
        ∙ alive-if later (same_text token k) _ _ _ (a.same later (omega arith) k);
  }
  perform-Agrees (presents token now) h = presented-Agrees now token (lookup token store) h refl
  perform-Agrees (logs_out token now) h = record {
    distinct = remove-Distinct token store a.distinct;
    same = λ later g k.
        ap (alive later) (lookup-remove k token store)
        ∙ alive-if later (same_text token k) _ _ _ (a.same later (omega arith) k);
  }
  perform-Agrees (drops_user user_id now) h = revoked-Agrees now (of_user user_id) h
  perform-Agrees (drops_tenant tenant_id now) h = revoked-Agrees now (of_tenant tenant_id) h
  perform-Agrees (sweeps now) h = record {
    distinct = keep_values-Distinct _ store a.distinct;
    same = λ later g k.
        ap (alive later) (lookup-keep_values _ k store a.distinct)
        ∙ alive-swept now later (lookup k store) g
        ∙ a.same later (omega arith) k;
  }

perform_all-Agrees :
    (us : List Use) (clock : ℕ) (store : TokenStore) (view : View)
    → InOrder clock us
    → Agrees clock store view
    → Agrees (clock_after clock us) (perform_all us store) (granted_all us view)
unfolding perform_all granted_all
perform_all-Agrees [] clock store view o a = a
perform_all-Agrees (u ∷ us) clock store view o a =
    perform_all-Agrees us (time_of u) (perform u store) (granted u view) o.1
      (perform-Agrees clock store view a u o.0)

validate-alive :
    (now : ℕ) (token : Text) (store : TokenStore) (o : Option TokenEntry)
    → (validate_found now token store o).0 ≡ alive now o
validate-alive now token store none = refl
validate-alive now token store (some entry) = ground arith

abbrev pub no_tokens : View
no_tokens k = none

-- Over every history in order of time, from an empty store, a token is valid at a moment not before its end
-- exactly with the entry that the history grants it and that has not expired by then: what is evicted
-- lazily or by the sweep makes no difference.
pub validate_token-granted :
    (us : List Use) (now : ℕ) (token : Text)
    → InOrder 0 us
    → clock_after 0 us ≤ now
    → (validate_token now token (perform_all us [])).0 ≡ alive now (granted_all us no_tokens token)
unfolding validate_token lookup
validate_token-granted us now token o h =
    validate-alive now token (perform_all us []) (lookup token (perform_all us []))
    ∙ (perform_all-Agrees us 0 [] no_tokens o
          (record { distinct = tt; same = λ later g k. refl })).same
        now h token
