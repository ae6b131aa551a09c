-- ===== src/Cache/Backend.antt =====
-- What the caching client needs of a store (`CacheBackend` of src/cache/backends.ts).
use xcoder.Prelude.{ℕ, ◌≡◌, ◌⊎◌, Bool, Option, some}
use xcoder.Prelude.Text.{Text}

-- The operations, with the time of each, and what may be found: `Holds s k v` says that the store may
-- answer `v` for `k`.
pub record Backend (S : Type 0) : Type 1 where
  pub get : ℕ → Text → S → Option Text × S
  pub set : ℕ → Text → Text → ℕ → S → Bool × S
  pub Holds : S → Text → Text → Type 0
  pub get_found : (now : ℕ) (k v : Text) (s : S) → (get now k s).0 ≡ some v → Holds s k v
  pub get_keeps : (now : ℕ) (j k v : Text) (s : S) → Holds (get now j s).1 k v → Holds s k v
  pub set_keeps :
      (now : ℕ) (j w : Text) (ttl : ℕ) (k v : Text) (s : S)
      → Holds (set now j w ttl s).1 k v
      → ((j ≡ k) × (w ≡ v)) ⊎ Holds s k v
