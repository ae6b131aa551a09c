-- ===== src/Cache/Memory.antt =====
-- The cache in the process (`MemoryBackend` of src/cache/backends.ts). A `Map` iterates in the order of
-- insertion, so the store is the list of its entries, the oldest first. Times are milliseconds, and
-- lifetimes whole seconds.
pub mod Entries
pub mod Stored
pub mod Evicted
pub mod Served
pub mod Held
use xcoder.Prelude.{
  ℕ, suc, zero, ◌+◌, ◌*◌, Bool, true, false, Option, none, some, List, [], ◌∷◌, ◌++◌, length, ltb,
  leb, ◌==◌, ◌&&◌, if◌then◌else◌,
}
use xcoder.Prelude.Text.{Text, same_text}

pub record Entry : Type 0 where
  pub key : Text
  pub value : Text
  pub expires : ℕ

abbrev pub Store : Type 0
Store = List Entry

unfoldable pub lookup : Text → Store → Option Entry
lookup k [] = none
lookup k (e ∷ es) = if same_text e.key k then some e else lookup k es

unfoldable pub delete : Text → Store → Store
delete k [] = []
delete k (e ∷ es) = let rest = delete k es in if same_text e.key k then rest else e ∷ rest

-- `while (this.m.size > max) this.m.delete(the first key)`
unfoldable pub evict : ℕ → Store → Store
evict max [] = []
evict max (e ∷ es) = let rest = evict max es in if ltb max (length (e ∷ es)) then rest else e ∷ es

-- `get`, from the entry that was found
unfoldable pub get_entry : ℕ → Text → Option Entry → Store → Option Text × Store
get_entry now k none m = (none, m)
get_entry now k (some e) m =
    if leb e.expires now then (none, delete k m) else (some e.value, delete k m ++ e ∷ [])

unfoldable pub get : ℕ → Text → Store → Option Text × Store
get now k m = get_entry now k (lookup k m) m

abbrev pub new_entry : ℕ → Text → Text → ℕ → Entry
new_entry now k v ttl = record { key = k; value = v; expires = now + ttl * 1000 }

unfoldable pub set : ℕ → ℕ → Text → Text → ℕ → Store → Store
set max now k v ttl m = evict max (delete k m ++ new_entry now k v ttl ∷ [])

-- `k.startsWith(prefix)`
unfoldable pub starts_with : Text → Text → Bool
starts_with [] k = true
starts_with (p ∷ ps) [] = false
starts_with (p ∷ ps) (c ∷ cs) = p == c && starts_with ps cs

-- The number of removed entries, and what is left.
unfoldable pub clear : Text → Store → ℕ × Store
clear prefix [] = (0, [])
clear prefix (e ∷ es) =
    let rest = clear prefix es in
    if starts_with prefix e.key then (suc rest.0, rest.1) else (rest.0, e ∷ rest.1)
