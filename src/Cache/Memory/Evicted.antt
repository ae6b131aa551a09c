-- ===== src/Cache/Memory/Evicted.antt =====
-- How many entries the store holds, and which of them it gives up (src/cache/backends.ts).
use xcoder.Prelude.{
  ℕ, suc, ◌+◌, ◌≤◌, ◌<◌, ◌≡◌, refl, sym, subst, true, false, Option, none, some, List, [], ◌∷◌,
  ◌++◌, length, length-append, drop, arith, if◌then◌else◌, if-both, ltb, leb,
}
use xcoder.Prelude.Text.{Text}
use xcoder.Cache.Memory.{
  Entry, Store, lookup, delete, evict, get, get_entry, set, new_entry, clear, starts_with,
}
use xcoder.Cache.Memory.Entries.{
  Fresh, Distinct, found_key, found_key, delete-Fresh, delete-Distinct, append-Distinct,
  evict-Distinct, length-evict-le, length-delete-le, length-delete-lt, evict-none, evict-first,
}

-- At most `max` entries, with distinct keys.
pub record Bounded (max : ℕ) (m : Store) : Type 0 where
  pub small : length m ≤ max
  pub distinct : Distinct m

pub data Operation : Type 0 where
  got : ℕ → Text → Operation
  put : ℕ → Text → Text → ℕ → Operation
  cleared : Text → Operation

unfoldable pub perform : ℕ → Operation → Store → Store
perform max (got now k) m = (get now k m).1
perform max (put now k v ttl) m = set max now k v ttl m
perform max (cleared prefix) m = (clear prefix m).1

unfoldable pub perform_all : ℕ → List Operation → Store → Store
perform_all max [] m = m
perform_all max (o ∷ os) m = perform_all max os (perform max o m)

set-Bounded :
    (max now : ℕ) (k v : Text) (ttl : ℕ) (m : Store)
    → Bounded max m
    → Bounded max (set max now k v ttl m)
unfolding set
set-Bounded max now k v ttl m b = record {
  small = length-evict-le max _;
  distinct = evict-Distinct max _ (
      append-Distinct (delete k m) (new_entry now k v ttl) (delete-Distinct k m b.distinct)
        (delete-Fresh k m));
}

refreshed-Bounded :
    (max : ℕ) (k : Text) (m : Store) (e : Entry)
    → lookup k m ≡ some e
    → Bounded max m
    → Bounded max (delete k m ++ e ∷ [])
refreshed-Bounded max k m e h b = record {
  small = omega (arith, length-append (delete k m) (e ∷ []), length-delete-lt k m e h, b.small);
  distinct =
      append-Distinct (delete k m) e (delete-Distinct k m b.distinct)
        (subst (λ j. Fresh j (delete k m)) (sym (found_key k m e h)) (delete-Fresh k m));
}

deleted-Bounded : (max : ℕ) (k : Text) (m : Store) → Bounded max m → Bounded max (delete k m)
deleted-Bounded max k m b = record {
  small = omega (arith, length-delete-le k m, b.small);
  distinct = delete-Distinct k m b.distinct;
}

get_entry-Bounded :
    (max now : ℕ) (k : Text) (o : Option Entry) (m : Store)
    → lookup k m ≡ o
    → Bounded max m
    → Bounded max (get_entry now k o m).1
unfolding get_entry
get_entry-Bounded max now k none m h b = b
get_entry-Bounded max now k (some e) m h b =
    if-both {A = Option Text × Store} (λ r. Bounded max r.1) (leb e.expires now)
      (λ _. deleted-Bounded max k m b) (λ _. refreshed-Bounded max k m e h b)

clear-Fresh : (j prefix : Text) (m : Store) → Fresh j m → Fresh j (clear prefix m).1
unfolding clear
clear-Fresh j prefix [] h = tt
clear-Fresh j prefix (e ∷ es) h =
    if-both {A = ℕ × Store} (λ r. Fresh j r.1) (starts_with prefix e.key)
      (λ _. clear-Fresh j prefix es h.1) (λ _. (h.0, clear-Fresh j prefix es h.1))

clear-Distinct : (prefix : Text) (m : Store) → Distinct m → Distinct (clear prefix m).1
unfolding clear
clear-Distinct prefix [] h = tt
clear-Distinct prefix (e ∷ es) h =
    if-both {A = ℕ × Store} (λ r. Distinct r.1) (starts_with prefix e.key)
      (λ _. clear-Distinct prefix es h.1)
      (λ _. (clear-Fresh e.key prefix es h.0, clear-Distinct prefix es h.1))

-- what is counted and what is left are all
length-clear :
    (prefix : Text) (m : Store) → (clear prefix m).0 + length (clear prefix m).1 ≡ length m
unfolding clear
length-clear prefix [] = refl
length-clear prefix (e ∷ es) =
    if-both {A = ℕ × Store} (λ r. r.0 + length r.1 ≡ suc (length es)) (starts_with prefix e.key)
      (λ _. omega (arith, length-clear prefix es)) (λ _. omega (arith, length-clear prefix es))

perform-Bounded :
    (max : ℕ) (o : Operation) (m : Store) → Bounded max m → Bounded max (perform max o m)
unfolding perform get
perform-Bounded max (got now k) m b = get_entry-Bounded max now k (lookup k m) m refl b
perform-Bounded max (put now k v ttl) m b = set-Bounded max now k v ttl m b
perform-Bounded max (cleared prefix) m b = record {
  small = omega (arith, length-clear prefix m, b.small);
  distinct = clear-Distinct prefix m b.distinct;
}

all_performed :
    (max : ℕ) (os : List Operation) (m : Store) → Bounded max m → Bounded max (perform_all max os m)
unfolding perform_all
all_performed max [] m b = b
all_performed max (o ∷ os) m b = all_performed max os (perform max o m) (perform-Bounded max o m b)

-- Whatever is read, written and cleared, in whatever order, the store holds at most its maximum of
-- entries, one for each key.
pub perform_all-Bounded : (max : ℕ) (os : List Operation) → Bounded max (perform_all max os [])
perform_all-Bounded max os = all_performed max os [] (record { small = omega arith; distinct = tt })

grown : (m : Store) (e : Entry) → length (m ++ e ∷ []) ≡ suc (length m)
grown m e = omega (arith, length-append m (e ∷ []))

evicted :
    (max : ℕ) (m : Store) (e : Entry)
    → 0 < max
    → length m ≤ max
    → evict max (m ++ e ∷ []) ≡ (if ltb (length m) max then m else drop 1 m) ++ e ∷ []
evicted max [] e h le =
    if-both {A = Store} (λ r. evict max (e ∷ []) ≡ r ++ e ∷ []) (ltb 0 max)
      (λ _. evict-none max (e ∷ []) h) (λ _. evict-none max (e ∷ []) h)
evicted max (x ∷ xs) e h le =
    if-both {A = Store} (λ r. evict max (x ∷ (xs ++ e ∷ [])) ≡ r ++ e ∷ [])
      (ltb (suc (length xs)) max)
      (λ t. evict-none max (x ∷ (xs ++ e ∷ [])) (room (length xs) max _ t (grown xs e)))
      (λ f. evict-first max x (xs ++ e ∷ []) (full (length xs) max _ f le (grown xs e)))
  where
    room : (n max k : ℕ) → ltb (suc n) max ≡ true → k ≡ suc n → suc k ≤ max
    room n max k t g = ground arith

    full : (n max k : ℕ) → ltb (suc n) max ≡ false → suc n ≤ max → k ≡ suc n → k ≡ max
    full n max k f le g = ground arith

-- A write makes its entry the newest. It gives up the entry before it of that key; and if the others fill
-- the store, it gives up the oldest of them, and no other.
pub set-recency :
    (max now : ℕ) (k v : Text) (ttl : ℕ) (m : Store)
    → 0 < max
    → length m ≤ max
    → set max now k v ttl m
      ≡ (if ltb (length (delete k m)) max then delete k m else drop 1 (delete k m))
        ++ new_entry now k v ttl ∷ []
unfolding set
set-recency max now k v ttl m h le =
    evicted max (delete k m) (new_entry now k v ttl) h (omega (arith, length-delete-le k m))
