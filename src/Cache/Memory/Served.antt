-- ===== src/Cache/Memory/Served.antt =====
-- The store in the process is a backend of the caching client (src/cache/backends.ts).
use xcoder.Prelude.{
  ℕ, ◌≡◌, refl, sym, ap, subst, ◌∙◌, ◌⊎◌, inl, inr, Bool, true, false, Option, none, some, [], ◌∷◌,
  ◌++◌, length, if-both, if◌then◌else◌, ltb, leb,
}
use mathlib.Core.Option.{some-injective}
use xcoder.Prelude.Text.{Text, same_text}
use xcoder.Cache.Backend.{Backend}
use xcoder.Cache.Memory.{Entry, Store, lookup, delete, evict, get, get_entry, set, new_entry}
use xcoder.Cache.Memory.Entries.{found_key}
use xcoder.Prelude.Keys.{same_text-eq}

-- An entry of this key and value, whether or not its lifetime has passed.
pub data Contains (k v : Text) : Store → Type 0 where
  here : {e : Entry} {es : Store} → e.key ≡ k → e.value ≡ v → Contains k v (e ∷ es)
  further : {e : Entry} {es : Store} → Contains k v es → Contains k v (e ∷ es)

same_head :
    (k v : Text) (e : Entry) (es fewer : Store)
    → (Contains k v fewer → Contains k v es)
    → Contains k v (e ∷ fewer)
    → Contains k v (e ∷ es)
same_head k v e es fewer back (here a c) = here a c
same_head k v e es fewer back (further h) = further (back h)

delete-Contains : (j k v : Text) (m : Store) → Contains k v (delete j m) → Contains k v m
unfolding delete
delete-Contains j k v [] h = h
delete-Contains j k v (e ∷ es) h =
    if-both {A = Store} (λ r. Contains k v r → Contains k v (e ∷ es)) (same_text e.key j)
      (λ _ x. further (delete-Contains j k v es x))
      (λ _ x. same_head k v e es (delete j es) (delete-Contains j k v es) x) h

evict-Contains : (max : ℕ) (k v : Text) (m : Store) → Contains k v (evict max m) → Contains k v m
unfolding evict
evict-Contains max k v [] h = h
evict-Contains max k v (e ∷ es) h =
    if-both {A = Store} (λ r. Contains k v r → Contains k v (e ∷ es)) (ltb max (length (e ∷ es)))
      (λ _ x. further (evict-Contains max k v es x)) (λ _ x. x) h

append-Contains :
    (k v : Text) (m : Store) (e : Entry)
    → Contains k v (m ++ e ∷ [])
    → ((e.key ≡ k) × (e.value ≡ v)) ⊎ Contains k v m
append-Contains k v [] e (here a c) = inl (a, c)
append-Contains k v [] e (further h) = inr h
append-Contains k v (x ∷ xs) e (here a c) = inr (here a c)
append-Contains k v (x ∷ xs) e (further h) = elim (append-Contains k v xs e h) [
  | inl new ↦ inl new
  | inr old ↦ inr (further old)
]

found_here :
    (x e : Entry) (xs : Store) (k : Text) (b : Bool) (rest : Option Entry)
    → (b ≡ true → x.key ≡ k)
    → (rest ≡ some e → Contains k e.value xs)
    → (if b then some x else rest) ≡ some e
    → Contains k e.value (x ∷ xs)
found_here x e xs k true rest same later h =
    here (same refl) (ap (λ y. y.value) (some-injective x e h))
found_here x e xs k false rest same later h = further (later h)

lookup-Contains : (k : Text) (m : Store) (e : Entry) → lookup k m ≡ some e → Contains k e.value m
unfolding lookup
lookup-Contains k [] e h = cc
lookup-Contains k (x ∷ xs) e h =
    found_here x e xs k (same_text x.key k) (lookup k xs) (same_text-eq x.key k)
      (lookup-Contains k xs e) h

get-found_value :
    (now : ℕ) (k v : Text) (o : Option Entry) (m : Store)
    → lookup k m ≡ o
    → (get_entry now k o m).0 ≡ some v
    → Contains k v m
unfolding get_entry
get-found_value now k v none m l h = cc
get-found_value now k v (some e) m l h =
    if-both {A = Option Text × Store} (λ r. r.0 ≡ some v → Contains k v m) (leb e.expires now)
      (λ _ n. cc)
      (λ _ same.
        subst (λ w. Contains k w m) (some-injective e.value v same) (lookup-Contains k m e l))
      h

refreshed-Contains :
    (j k v : Text) (e : Entry) (m : Store)
    → Contains j e.value m
    → e.key ≡ j
    → Contains k v (delete j m ++ e ∷ [])
    → Contains k v m
refreshed-Contains j k v e m was key h = elim (append-Contains k v (delete j m) e h) [
  | inl new ↦
      subst (λ w. Contains k w m) new.1 (subst (λ i. Contains i e.value m) (sym key ∙ new.0) was)
  | inr old ↦ delete-Contains j k v m old
]

get-kept :
    (now : ℕ) (j k v : Text) (o : Option Entry) (m : Store)
    → lookup j m ≡ o
    → Contains k v (get_entry now j o m).1
    → Contains k v m
unfolding get_entry
get-kept now j k v none m l h = h
get-kept now j k v (some e) m l h =
    if-both {A = Option Text × Store} (λ r. Contains k v r.1 → Contains k v m) (leb e.expires now)
      (λ _ x. delete-Contains j k v m x)
      (λ _ x. refreshed-Contains j k v e m (lookup-Contains j m e l) (found_key j m e l) x) h

pub set-kept :
    (max now : ℕ) (j w : Text) (ttl : ℕ) (k v : Text) (m : Store)
    → Contains k v (set max now j w ttl m)
    → ((j ≡ k) × (w ≡ v)) ⊎ Contains k v m
unfolding set
set-kept max now j w ttl k v m h =
    elim (append-Contains k v (delete j m) (new_entry now j w ttl) (evict-Contains max k v _ h)) [
      | inl new ↦ inl new
      | inr old ↦ inr (delete-Contains j k v m old)
    ]

pub get-Contains : (now : ℕ) (k v : Text) (m : Store) → (get now k m).0 ≡ some v → Contains k v m
unfolding get
get-Contains now k v m h = get-found_value now k v (lookup k m) m refl h

pub get-keeps : (now : ℕ) (j k v : Text) (m : Store) → Contains k v (get now j m).1 → Contains k v m
unfolding get
get-keeps now j k v m h = get-kept now j k v (lookup j m) m refl h

abbrev pub memory_backend : ℕ → Backend Store
memory_backend max = record {
  get = get;
  set = λ now k v ttl m. (true, set max now k v ttl m);
  Holds = λ m k v. Contains k v m;
  get_found = get-Contains;
  get_keeps = get-keeps;
  set_keeps = set-kept max;
}

pub empty-Contains : (k v : Text) → ¬ (Contains k v [])
empty-Contains k v h = elim h [ ]
