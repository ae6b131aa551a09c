-- ===== src/Cache/Memory/Held.antt =====
-- What the store in the process still holds after other operations (src/cache/backends.ts).
use mathlib.Core.Option.{some-injective}
use xcoder.Prelude.{
  ℕ, suc, ◌+◌, ◌*◌, ◌≤◌, ◌<◌, ◌≡◌, refl, sym, ap, ◌∙◌, subst, ◌⊎◌, inl, inr, true, false, Option,
  none, some, List, [], ◌∷◌, ◌++◌, length, length-append, arith, if◌then◌else◌, if-both, leb, All,
  Bool-cases,
}
use xcoder.Prelude.Text.{Text, same_text}
use xcoder.Prelude.Keys.{same_text-eq}
use xcoder.Cache.Memory.{Entry, Store, lookup, delete, get, get_entry, set, new_entry}
use xcoder.Cache.Memory.Entries.{
  Fresh, delete-Fresh, length-delete-le, length-delete-lt, evict-none, found_key,
}
use xcoder.Cache.Memory.Evicted.{Operation, got, put, cleared, perform, perform_all}
use xcoder.Cache.Memory.Stored.{lookup-append, lookup-set, get-found}

-- A read, at the latest now, or a write of another key.
abbrev pub Elsewhere : Text → ℕ → Operation → Type 0
Elsewhere k later (got now j) = now ≤ later
Elsewhere k later (put now j v ttl) = same_text j k ≡ false
Elsewhere k later (cleared prefix) = ⊥

abbrev pub writes : List Operation → ℕ
writes [] = 0
writes (put now j v ttl ∷ os) = suc (writes os)
writes (_ ∷ os) = writes os

lookup-delete_ne :
    (k j : Text) (m : Store) → same_text j k ≡ false → lookup k (delete j m) ≡ lookup k m
unfolding lookup delete
lookup-delete_ne k j [] h = refl
lookup-delete_ne k j (e ∷ es) h =
    if-both {A = Store} (λ r. lookup k r ≡ (if same_text e.key k then some e else lookup k es))
      (same_text e.key j)
      (λ same.
        rw (subst (λ i. same_text i k ≡ false) (sym (same_text-eq e.key j same)) h)
          (lookup-delete_ne k j es h))
      (λ _. ap (λ o. if same_text e.key k then some e else o) (lookup-delete_ne k j es h))

lookup-append_ne :
    (k : Text) (m : Store) (e : Entry)
    → same_text e.key k ≡ false
    → lookup k (m ++ e ∷ []) ≡ lookup k m
unfolding lookup
lookup-append_ne k [] e h = rw h refl
lookup-append_ne k (x ∷ xs) e h =
    ap (λ o. if same_text x.key k then some x else o) (lookup-append_ne k xs e h)

lookup-Fresh : (k : Text) (m : Store) → Fresh k m → lookup k m ≡ none
unfolding lookup
lookup-Fresh k [] f = refl
lookup-Fresh k (e ∷ es) f = rw (f.0) (lookup-Fresh k es f.1)

-- Either the entry is there, or its lifetime has passed and it is gone.
abbrev Held : ℕ → Entry → Store → Type 0
Held later e m =
    (lookup e.key m ≡ some e) ⊎ ((leb e.expires later ≡ true) × (lookup e.key m ≡ none))

module _ (max later : ℕ) (e : Entry) where
  still_over : (now : ℕ) → now ≤ later → leb e.expires now ≡ true → leb e.expires later ≡ true
  still_over now in_time old = ground arith

  own-Held :
      (now : ℕ) (m : Store) (x : Entry)
      → now ≤ later
      → lookup e.key m ≡ some x
      → Held later e m
      → Held later e (get_entry now e.key (some x) m).1
  unfolding get_entry
  own-Held now m x in_time found (inr gone) = cc (found, gone.1)
  own-Held now m x in_time found (inl held) =
      subst (λ y. Held later e (get_entry now e.key (some y) m).1)
        (some-injective e x (sym held ∙ found))
        (if-both {A = Option Text × Store} (λ r. Held later e r.1) (leb e.expires now)
          (λ old. inr (
            still_over now in_time old,
            lookup-Fresh e.key (delete e.key m) (delete-Fresh e.key m),
          ))
          (λ _. inl (lookup-append (delete e.key m) e (delete-Fresh e.key m))))

  same-Held : (m n : Store) → lookup e.key n ≡ lookup e.key m → Held later e m → Held later e n
  same-Held m n same h =
      subst (λ o. (o ≡ some e) ⊎ ((leb e.expires later ≡ true) × (o ≡ none))) (sym same) h

  other-Held :
      (now : ℕ) (j : Text) (m : Store) (x : Entry)
      → same_text j e.key ≡ false
      → lookup j m ≡ some x
      → Held later e m
      → Held later e (get_entry now j (some x) m).1
  unfolding get_entry
  other-Held now j m x other found h =
      if-both {A = Option Text × Store} (λ r. Held later e r.1) (leb x.expires now)
        (λ _. same-Held m (delete j m) (lookup-delete_ne e.key j m other) h)
        (λ _.
          same-Held m (delete j m ++ x ∷ [])
            (lookup-append_ne e.key (delete j m) x
                (subst (λ i. same_text i e.key ≡ false) (sym (found_key j m x found)) other)
              ∙ lookup-delete_ne e.key j m other)
            h)

  read-Held :
      (now : ℕ) (j : Text) (m : Store) (o : Option Entry)
      → now ≤ later
      → lookup j m ≡ o
      → Held later e m
      → Held later e (get_entry now j o m).1
  unfolding get_entry
  read-Held now j m none in_time found h = h
  read-Held now j m (some x) in_time found h = elim (Bool-cases (same_text j e.key)) [
    | inl same ↦
        subst (λ i. lookup i m ≡ some x → Held later e (get_entry now i (some x) m).1)
          (sym (same_text-eq j e.key same)) (λ here. own-Held now m x in_time here h) found
    | inr other ↦ other-Held now j m x other found h
  ]

  set-room :
      (now : ℕ) (j v : Text) (ttl : ℕ) (m : Store)
      → length m < max
      → set max now j v ttl m ≡ delete j m ++ new_entry now j v ttl ∷ []
  unfolding set
  set-room now j v ttl m room = evict-none max (delete j m ++ new_entry now j v ttl ∷ []) (
      omega (
        arith,
        length-append (delete j m) (new_entry now j v ttl ∷ []),
        length-delete-le j m,
        room,
      ))

  write-Held :
      (now : ℕ) (j v : Text) (ttl : ℕ) (m : Store)
      → same_text j e.key ≡ false
      → length m < max
      → Held later e m
      → Held later e (set max now j v ttl m)
  write-Held now j v ttl m other room h = subst (Held later e) (sym (set-room now j v ttl m room)) (
      same-Held m (delete j m ++ new_entry now j v ttl ∷ [])
        (lookup-append_ne e.key (delete j m) (new_entry now j v ttl) other
          ∙ lookup-delete_ne e.key j m other)
        h)

  length-read :
      (now : ℕ) (j : Text) (m : Store) (o : Option Entry)
      → lookup j m ≡ o
      → length (get_entry now j o m).1 ≤ length m
  unfolding get_entry
  length-read now j m none found = omega arith
  length-read now j m (some x) found =
      if-both {A = Option Text × Store} (λ r. length r.1 ≤ length m) (leb x.expires now)
        (λ _. length-delete-le j m)
        (λ _. omega (arith, length-append (delete j m) (x ∷ []), length-delete-lt j m x found))

  length-set :
      (now : ℕ) (j v : Text) (ttl : ℕ) (m : Store)
      → length m < max
      → length (set max now j v ttl m) ≤ suc (length m)
  length-set now j v ttl m room =
      subst (λ n. length n ≤ suc (length m)) (sym (set-room now j v ttl m room))
        (omega
          (arith, length-append (delete j m) (new_entry now j v ttl ∷ []), length-delete-le j m))

  all-Held :
      (os : List Operation) (m : Store)
      → All (Elsewhere e.key later) os
      → length m + writes os ≤ max
      → Held later e m
      → Held later e (perform_all max os m)
  unfolding perform_all perform get
  all-Held [] m a room h = h
  all-Held (got now j ∷ os) m a room h =
      all-Held os (get now j m).1 a.1 (omega (arith, room, length-read now j m (lookup j m) refl))
        (read-Held now j m (lookup j m) a.0 refl h)
  all-Held (put now j v ttl ∷ os) m a room h =
      all-Held os (set max now j v ttl m) a.1
        (omega (arith, room, length-set now j v ttl m (omega (arith, room))))
        (write-Held now j v ttl m a.0 (omega (arith, room)) h)
  all-Held (cleared prefix ∷ os) m a room h = absurd a.0

  get-Held :
      (m : Store)
      → Held later e m
      → (get later e.key m).0 ≡ (if leb e.expires later then none else some e.value)
  unfolding get get_entry
  get-Held m (inl held) = get-found later e.key m e held
  get-Held m (inr gone) = rw (gone.0, gone.1) refl

-- A value that is written is found exactly until its lifetime has passed, whatever is read and is written under
-- other keys in between, while the entries before it and the writes since fit into the store with it.
pub get-perform_all :
    (max now later : ℕ) (k v : Text) (ttl : ℕ) (m : Store) (os : List Operation)
    → All (Elsewhere k later) os
    → suc (length m) + writes os ≤ max
    → (get later k (perform_all max os (set max now k v ttl m))).0
      ≡ (if leb (now + ttl * 1000) later then none else some v)
get-perform_all max now later k v ttl m os a room =
    get-Held max later (new_entry now k v ttl) (perform_all max os (set max now k v ttl m)) (
      all-Held max later (new_entry now k v ttl) os (set max now k v ttl m) a
        (omega (
          arith,
          room,
          length-set max later (new_entry now k v ttl) now k v ttl m (omega (arith, room)),
        ))
        (inl (lookup-set max now k v ttl m (omega (arith, room)))))
