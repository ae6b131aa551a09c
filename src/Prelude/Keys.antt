-- ===== src/Prelude/Keys.antt =====
-- Keys with a Boolean equality, and dictionaries by such keys in the order of insertion.
pub mod Distinct
use Prim.Native.Nat.{ℕ}
use Prim.Native.String.{String}
use mathlib.Core.Path.{◌≡◌, refl, ap, ◌∙◌}
use mathlib.Core.Logic.{◌↔◌}
use mathlib.Core.Bool.{Bool, true, false, ◌&&◌}
use mathlib.Core.Option.{Option, none, some}
use mathlib.Core.List.{List, [], ◌∷◌}
use native.Mathlib.Omega.{arith}
use text.Mathlib.Text.{◌==◌ as str_eq}
use text.Mathlib.TextEquality.{eq_iff}
use xcoder.Prelude.Tests.{if◌then◌else◌, ◌==◌, ==_iff}
use xcoder.Prelude.Text.{Text, same_text}

pub same_text_refl : (s : Text) → same_text s s ≡ true
same_text_refl [] = refl
same_text_refl (c ∷ s) = ground (arith, same_text_refl s)

same_cons :
    (b : Bool) (c d : ℕ) (s t : Text)
    → (b ≡ true) ↔ (c ≡ d)
    → (same_text s t ≡ true → s ≡ t)
    → (b && same_text s t) ≡ true
    → c ∷ s ≡ d ∷ t
same_cons true c d s t e rest h = ap (λ x. x ∷ s) (e.0 refl) ∙ ap (λ r. d ∷ r) (rest h)
same_cons false c d s t e rest h = cc

pub same_text-eq : (s t : Text) → same_text s t ≡ true → s ≡ t
same_text-eq [] [] h = refl
same_text-eq [] (d ∷ t) h = ground arith
same_text-eq (c ∷ s) [] h = ground arith
same_text-eq (c ∷ s) (d ∷ t) h = same_cons (c == d) c d s t (==_iff c d) (same_text-eq s t) h

pub same_text_iff : (s t : Text) → (same_text s t ≡ true) ↔ (s ≡ t)
same_text_iff s t = (same_text-eq s t, λ e. rw e (same_text_refl t))

pub record Eq {ℓ} (K : Type ℓ) : Type ℓ where
  pub same : K → K → Bool
  pub same_iff : (a b : K) → (same a b ≡ true) ↔ (a ≡ b)

instance abbrev pub string_keys : Eq String
string_keys = record { same = str_eq; same_iff = eq_iff }

instance abbrev pub text_keys : Eq Text
text_keys = record { same = same_text; same_iff = same_text_iff }

abbrev pub Dict {ℓ κ} : Type ℓ → Type κ → Type (ℓ ⊔ κ)
Dict K V = List (K × V)

module _ {ℓ κ} {K : Type ℓ} {V : Type κ} ⦃e : Eq K⦄ where
  -- `d[k]`
  unfoldable pub lookup : K → Dict K V → Option V
  lookup k [] = none
  lookup k ((j, v) ∷ d) = if e.same j k then some v else lookup k d

  -- `d[k] = v`
  unfoldable pub insert : K → V → Dict K V → Dict K V
  insert k v [] = (k, v) ∷ []
  insert k v ((j, w) ∷ d) = if e.same j k then (k, v) ∷ d else (j, w) ∷ insert k v d

  pub lookup-insert :
      (j k : K) (v : V) (d : Dict K V)
      → lookup j (insert k v d) ≡ (if e.same k j then some v else lookup j d)
  unfolding lookup insert
  lookup-insert j k v [] = refl
  lookup-insert j k v ((i, w) ∷ d) =
      ground (arith, e.same_iff k j, e.same_iff i k, e.same_iff i j, lookup-insert j k v d)

  -- `{ ...d, ...patch }`
  unfoldable pub merge : Dict K V → Dict K V → Dict K V
  merge d [] = d
  merge d ((k, v) ∷ patch) = merge (insert k v d) patch

  pub lookup-insert_self : (k : K) (v : V) (d : Dict K V) → lookup k (insert k v d) ≡ some v
  lookup-insert_self k v d = lookup-insert k k v d ∙ (rw ((e.same_iff k k).1 refl) refl)

  pub lookup-insert_ne :
      (j k : K) (v : V) (d : Dict K V) → e.same k j ≡ false → lookup j (insert k v d) ≡ lookup j d
  lookup-insert_ne j k v d h = lookup-insert j k v d ∙ (rw h refl)
