-- ===== src/Prelude/Keys/Distinct.antt =====
-- Dictionaries whose keys are distinct, and the entries of one that a test keeps.
use mathlib.Core.Path.{◌≡◌, refl, ◌∙◌}
use mathlib.Core.Logic.{inl, inr}
use mathlib.Core.Bool.{Bool, false, not}
use mathlib.Core.Option.{Option, none, some}
use mathlib.Core.List.{[], ◌∷◌}
use native.Mathlib.Omega.{arith}
use xcoder.Prelude.Tests.{if◌then◌else◌, if-both, Bool-cases}
use xcoder.Prelude.Lists.{keep}
use xcoder.Prelude.Keys.{Eq, Dict, lookup, insert, lookup-insert}

abbrev pub filtered {ℓ} : {V : Type ℓ} → (V → Bool) → Option V → Option V
filtered p none = none
filtered p (some v) = if p v then some v else none

module _ {ℓ} {K : Type ℓ} ⦃e : Eq K⦄ where
  differs : (i k : K) → e.same i k ≡ false → e.same k i ≡ false
  differs i k h = ground (arith, e.same_iff i k, e.same_iff k i)

module _ {ℓ κ} {K : Type ℓ} {V : Type κ} ⦃e : Eq K⦄ where
  abbrev pub Distinct : Dict K V → Type κ
  Distinct [] = Unit
  Distinct ((k, v) ∷ d) = (lookup k d ≡ none) × Distinct d

  -- The entries whose value passes the test.
  unfoldable pub keep_values : (V → Bool) → Dict K V → Dict K V
  keep_values p d = keep (λ entry. p entry.1) d

  pub insert-Distinct : (k : K) (v : V) (d : Dict K V) → Distinct d → Distinct (insert k v d)
  unfolding insert lookup
  insert-Distinct k v [] h = (refl, tt)
  insert-Distinct k v ((i, w) ∷ d) h = elim (Bool-cases (e.same i k)) [
    | inl same ↦ rw same ((ground (arith, e.same_iff i k, h.0)), h.1)
    | inr other ↦
        rw other ((lookup-insert i k v d ∙ (rw (differs i k other) h.0)), insert-Distinct k v d h.1)
  ]

  pub lookup-keep_values :
      (p : V → Bool) (k : K) (d : Dict K V)
      → Distinct d
      → lookup k (keep_values p d) ≡ filtered p (lookup k d)
  unfolding lookup keep_values
  lookup-keep_values p k [] h = refl
  lookup-keep_values p k ((i, w) ∷ d) h =
      ground (arith, e.same_iff i k, h.0, lookup-keep_values p k d h.1)

  pub keep_values-Distinct : (p : V → Bool) (d : Dict K V) → Distinct d → Distinct (keep_values p d)
  unfolding keep_values
  keep_values-Distinct p [] h = tt
  keep_values-Distinct p ((i, w) ∷ d) h =
      if-both Distinct (p w)
        (λ _. ((lookup-keep_values p i d h.1 ∙ (rw h.0 refl)), keep_values-Distinct p d h.1))
        (λ _. keep_values-Distinct p d h.1)

  -- `d.delete(k)`
  unfoldable pub remove : K → Dict K V → Dict K V
  remove k d = keep (λ entry. not (e.same entry.0 k)) d

  pub lookup-remove :
      (j k : K) (d : Dict K V) → lookup j (remove k d) ≡ (if e.same k j then none else lookup j d)
  unfolding lookup remove
  lookup-remove j k [] = ground arith
  lookup-remove j k ((i, w) ∷ d) =
      ground (arith, e.same_iff k j, e.same_iff i k, e.same_iff i j, lookup-remove j k d)

  pub remove-Distinct : (k : K) (d : Dict K V) → Distinct d → Distinct (remove k d)
  unfolding remove
  remove-Distinct k [] h = tt
  remove-Distinct k ((i, w) ∷ d) h =
      if-both Distinct (not (e.same i k)) (λ _. (gone i h.0, remove-Distinct k d h.1))
        (λ _. remove-Distinct k d h.1)
    where
      gone : (i : K) → lookup i d ≡ none → lookup i (remove k d) ≡ none
      gone i absent = lookup-remove i k d ∙ ground (arith, absent)
