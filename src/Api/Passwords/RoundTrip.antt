-- ===== src/Api/Passwords/RoundTrip.antt =====
-- A stored password verifies again (src/api/auth.ts).
use mathlib.Core.Option.{some-injective}
use xcoder.Prelude.{
  ℕ, ◌↔◌, ◌==◌, ◌≡◌, refl, sym, ap, ◌∙◌, Bool, true, false, not, Option, none, some, [], ◌∷◌, ◌++◌,
  length, every, arith,
}
use xcoder.Prelude.Text.{Text, codes, non_empty, split}
use xcoder.Prelude.Keys.{same_text_refl, same_text-eq, same_text_iff}
use xcoder.Api.Passwords.{
  Platform, Verdict, matches, verdict, compare_hash, scrypt_hash, hash_password, stored_form,
  timing_safe_equal_hex, verify_parts, verify_password, is_legacy_hash, scrypt_n, scrypt_r,
  scrypt_p,
}

-- A text in which a character does not occur.
abbrev pub free_of : ℕ → Text → Bool
free_of c s = every (λ x. not (x == c)) s

split-free : (c : ℕ) (s : Text) → free_of c s ≡ true → split c s ≡ s ∷ []
unfolding split
split-free c [] h = refl
split-free c (x ∷ s) h = ground (arith, h, split-free c s)

split-append : (c : ℕ) (s t : Text) → free_of c s ≡ true → split c (s ++ c ∷ t) ≡ s ∷ split c t
unfolding split
split-append c [] t h = ground arith
split-append c (x ∷ s) t h = ground (arith, h, split-append c s t)

-- What is documented of the platform, for a salt and the hash of a password: hexadecimal texts have no
-- colon and are not empty, and `Number` reads the costs that are written.
pub record Documented {Num : Type 0} (pl : Platform Num) (salt hash : Text) : Type 0 where
  pub salt_free : free_of 58 salt ≡ true
  pub salt_given : non_empty salt ≡ true
  pub hash_free : free_of 58 hash ≡ true
  pub hash_given : non_empty hash ≡ true
  pub reads_n : pl.number (codes "16384") ≡ some (pl.num scrypt_n)
  pub reads_r : pl.number (codes "8") ≡ some (pl.num scrypt_r)
  pub reads_p : pl.number (codes "1") ≡ some (pl.num scrypt_p)

module _ {Num : Type 0} (pl : Platform Num) (salt hash : Text) (d : Documented pl salt hash) where
  split-salted : split 58 (salt ++ 58 ∷ hash) ≡ salt ∷ hash ∷ []
  split-salted =
      split-append 58 salt hash d.salt_free
      ∙ ap (λ parts. salt ∷ parts) (split-free 58 hash d.hash_free)

  split-stored :
      split 58 (stored_form pl salt hash)
      ≡ codes "scrypt" ∷ codes "16384" ∷ codes "8" ∷ codes "1" ∷ salt ∷ hash ∷ []
  unfolding split
  split-stored =
      ap (λ parts. codes "scrypt" ∷ codes "16384" ∷ codes "8" ∷ codes "1" ∷ parts) split-salted

  verify-stored :
      (guess : Text)
      → verify_password pl guess (stored_form pl salt hash)
        ≡ compare_hash pl hash (scrypt_hash pl guess salt)
  unfolding verify_password scrypt_hash
  verify-stored guess =
      ap (verify_parts pl guess) split-stored
      ∙ (rw (d.reads_n, d.reads_r, d.reads_p, d.salt_given, d.hash_given) refl)

  timing_refl : (x : Text) → timing_safe_equal_hex pl x x ≡ true
  unfolding timing_safe_equal_hex
  timing_refl x = ground (arith, same_text_refl (pl.from_hex x))

verdict_iff : (b : Bool) → (verdict b ≡ matches) ↔ (b ≡ true)
verdict_iff true = (λ _. refl, λ _. refl)
verdict_iff false = (λ e. cc e, λ e. cc e)

module _ {Num : Type 0} (pl : Platform Num) (a b : Text) where
  equal_iff : (timing_safe_equal_hex pl a b ≡ true) ↔ (pl.from_hex a ≡ pl.from_hex b)
  unfolding timing_safe_equal_hex
  equal_iff = (
    λ e. same_text-eq (pl.from_hex a) (pl.from_hex b) (ground (arith, e)),
    λ e. ground (arith, ap length e, (same_text_iff (pl.from_hex a) (pl.from_hex b)).1 e),
  )

  timing_iff : (verdict (timing_safe_equal_hex pl a b) ≡ matches) ↔ (pl.from_hex a ≡ pl.from_hex b)
  timing_iff =
      let v = verdict_iff (timing_safe_equal_hex pl a b) in
      (λ e. equal_iff.0 (v.0 e), λ e. v.1 (equal_iff.1 e))

through : {v u : Verdict} {P : Type 0} → v ≡ u → (u ≡ matches) ↔ P → (v ≡ matches) ↔ P
through e k = (λ h. k.0 (sym e ∙ h), λ p. e ∙ k.1 p)

abbrev found_form : {Num : Type 0} → Platform Num → Text → Option Text → Option Text
found_form pl salt none = none
found_form pl salt (some h) = some (stored_form pl salt h)

-- A password verifies against its own hash, which is not of the old format; another password does exactly
-- if its derived key decodes to the same bytes. The platform behaves as documented.
pub verify-hash_password :
    {Num : Type 0} (pl : Platform Num) (salt hash password guess key stored : Text)
    → Documented pl salt hash
    → scrypt_hash pl password salt ≡ some hash
    → scrypt_hash pl guess salt ≡ some key
    → hash_password pl salt password ≡ some stored
    → (verify_password pl password stored ≡ matches)
      × ((verify_password pl guess stored ≡ matches) ↔ (pl.from_hex key ≡ pl.from_hex hash))
      × (is_legacy_hash pl stored ≡ false)
unfolding is_legacy_hash hash_password
verify-hash_password pl salt hash password guess key stored d own other made = (
  ap (verify_password pl password) (sym is_stored)
      ∙ verify-stored pl salt hash d password
      ∙ ap (compare_hash pl hash) own
      ∙ ap verdict (timing_refl pl salt hash d hash),
  through
      (ap (verify_password pl guess) (sym is_stored)
        ∙ verify-stored pl salt hash d guess
        ∙ ap (compare_hash pl hash) other)
      (timing_iff pl key hash),
  ap (λ s. length (split 58 s) == 2) (sym is_stored)
      ∙ ap (λ parts. length parts == 2) (split-stored pl salt hash d),
)
  where
    is_stored : stored_form pl salt hash ≡ stored
    is_stored = some-injective _ _ (sym (ap (found_form pl salt) own) ∙ made)
