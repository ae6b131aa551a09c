-- ===== src/Cache/Memory/Stored.antt =====
-- What a stored answer is found as (src/cache/backends.ts).
use xcoder.Prelude.{
  ℕ, ◌<◌, ◌≡◌, refl, ap, ◌∙◌, Bool, true, false, Option, none, some, [], ◌∷◌, ◌++◌, length,
  if◌then◌else◌, if-both, ltb, leb,
}
use xcoder.Prelude.Text.{Text}
use xcoder.Cache.Memory.{Entry, Store, lookup, delete, evict, get, get_entry, set, new_entry}
use xcoder.Cache.Memory.Entries.{Fresh, over, delete-Fresh}
use xcoder.Prelude.Keys.{same_text_refl}

pub lookup-append : (m : Store) (e : Entry) → Fresh e.key m → lookup e.key (m ++ e ∷ []) ≡ some e
unfolding lookup
lookup-append [] e f = rw (same_text_refl e.key) refl
lookup-append (x ∷ xs) e f = rw f.0 (lookup-append xs e f.1)

if-first :
    (b : Bool) (x y : Option Text × Store) → (if b then x else y).0 ≡ (if b then x.0 else y.0)
if-first true x y = refl
if-first false x y = refl

-- The entry that was put last is found, with room for one entry at least.
lookup-evict :
    (max : ℕ) (m : Store) (e : Entry)
    → 0 < max
    → Fresh e.key m
    → lookup e.key (evict max (m ++ e ∷ [])) ≡ some e
unfolding lookup evict
lookup-evict max [] e h f =
    if-both {A = Store} (λ r. lookup e.key r ≡ some e) (ltb max 1) (λ t. elim (over max 1 h t) [ ])
      (λ _. rw (same_text_refl e.key) refl)
lookup-evict max (x ∷ xs) e h f =
    if-both (λ r. lookup e.key r ≡ some e) (ltb max (length (x ∷ (xs ++ e ∷ []))))
      (λ _. lookup-evict max xs e h f.1) (λ _. lookup-append (x ∷ xs) e f)

pub lookup-set :
    (max now : ℕ) (k v : Text) (ttl : ℕ) (m : Store)
    → 0 < max
    → lookup k (set max now k v ttl m) ≡ some (new_entry now k v ttl)
unfolding set
lookup-set max now k v ttl m h =
    lookup-evict max (delete k m) (new_entry now k v ttl) h (delete-Fresh k m)

pub get-found :
    (now : ℕ) (k : Text) (m : Store) (e : Entry)
    → lookup k m ≡ some e
    → (get now k m).0 ≡ (if leb e.expires now then none else some e.value)
unfolding get get_entry
get-found now k m e h = ap (λ o. (get_entry now k o m).0) h ∙ if-first (leb e.expires now) _ _
