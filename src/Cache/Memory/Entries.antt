-- ===== src/Cache/Memory/Entries.antt =====
-- Distinct keys, and what the operations on the entries do to them (src/cache/backends.ts).
use mathlib.Core.Option.{some-injective}
use xcoder.Prelude.{
  sym, ℕ, suc, ◌≤◌, ◌<◌, ◌≡◌, refl, ap, ◌∙◌, Bool, true, false, some, [], ◌∷◌, ◌++◌, length, arith,
  All, if◌then◌else◌, if-both, ltb, inl, inr, Bool-cases, Option, some,
}
use xcoder.Prelude.Text.{Text, same_text}
use xcoder.Prelude.Keys.{same_text_refl, same_text-eq}
use xcoder.Cache.Memory.{Entry, Store, lookup, delete, evict}

found_first :
    (b : Bool) (x e : Entry) (k : Text) (rest : Option Entry)
    → (b ≡ true → x.key ≡ k)
    → (rest ≡ some e → e.key ≡ k)
    → (if b then some x else rest) ≡ some e
    → e.key ≡ k
found_first true x e k rest here there h = ap (λ y. y.key) (sym (some-injective x e h)) ∙ here refl
found_first false x e k rest here there h = there h

pub found_key : (k : Text) (m : Store) (e : Entry) → lookup k m ≡ some e → e.key ≡ k
unfolding lookup
found_key k [] e h = cc
found_key k (x ∷ xs) e h =
    found_first (same_text x.key k) x e k (lookup k xs) (same_text-eq x.key k) (found_key k xs e) h

-- No entry has this key.
abbrev pub Fresh : Text → Store → Type 0
Fresh k m = All (λ e. same_text e.key k ≡ false) m

abbrev pub Distinct : Store → Type 0
Distinct [] = Unit
Distinct (e ∷ es) = Fresh e.key es × Distinct es

pub delete-Fresh : (k : Text) (m : Store) → Fresh k (delete k m)
unfolding delete
delete-Fresh k [] = tt
delete-Fresh k (e ∷ es) =
    if-both (Fresh k) (same_text e.key k) (λ _. delete-Fresh k es) (λ f. (f, delete-Fresh k es))

pub delete-keeps-Fresh : (j k : Text) (m : Store) → Fresh j m → Fresh j (delete k m)
unfolding delete
delete-keeps-Fresh j k [] h = tt
delete-keeps-Fresh j k (e ∷ es) h =
    if-both (Fresh j) (same_text e.key k) (λ _. delete-keeps-Fresh j k es h.1)
      (λ _. (h.0, delete-keeps-Fresh j k es h.1))

pub delete-Distinct : (k : Text) (m : Store) → Distinct m → Distinct (delete k m)
unfolding delete
delete-Distinct k [] h = tt
delete-Distinct k (e ∷ es) h =
    if-both Distinct (same_text e.key k) (λ _. delete-Distinct k es h.1)
      (λ _. (delete-keeps-Fresh e.key k es h.0, delete-Distinct k es h.1))

pub length-delete-le : (k : Text) (m : Store) → length (delete k m) ≤ length m
unfolding delete
length-delete-le k [] = omega arith
length-delete-le k (e ∷ es) = ground (arith, length-delete-le k es)

found_smaller :
    (b : Bool) (x e : Entry) (k : Text) (xs : Store)
    → length (delete k xs) ≤ length xs
    → (lookup k xs ≡ some e → length (delete k xs) < length xs)
    → (if b then some x else lookup k xs) ≡ some e
    → length (if b then delete k xs else x ∷ delete k xs) < suc (length xs)
found_smaller true x e k xs le lt h = omega arith
found_smaller false x e k xs le lt h = omega (arith, lt h)

-- Deleting an entry that is there makes the store smaller.
pub length-delete-lt :
    (k : Text) (m : Store) (e : Entry) → lookup k m ≡ some e → length (delete k m) < length m
unfolding delete lookup
length-delete-lt k [] e h = cc
length-delete-lt k (x ∷ xs) e h =
    found_smaller (same_text x.key k) x e k xs (length-delete-le k xs) (length-delete-lt k xs e) h

-- Deleting a key that is not there changes nothing.
pub delete-none : (k : Text) (m : Store) → Fresh k m → delete k m ≡ m
unfolding delete
delete-none k [] h = refl
delete-none k (e ∷ es) h = rw h.0 (ap (λ r. e ∷ r) (delete-none k es h.1))

pub append-Fresh :
    (k : Text) (m : Store) (e : Entry)
    → Fresh k m
    → same_text e.key k ≡ false
    → Fresh k (m ++ e ∷ [])
append-Fresh k [] e h f = (f, tt)
append-Fresh k (x ∷ xs) e h f = (h.0, append-Fresh k xs e h.1 f)

same_text-sym : (s t : Text) → same_text s t ≡ false → same_text t s ≡ false
same_text-sym s t f = elim (Bool-cases (same_text t s)) [
  | inl e ↦ cc (f, same_text_refl t, same_text-eq t s e)
  | inr g ↦ g
]

pub append-Distinct : (m : Store) (e : Entry) → Distinct m → Fresh e.key m → Distinct (m ++ e ∷ [])
append-Distinct [] e h f = (tt, tt)
append-Distinct (x ∷ xs) e h f =
    (append-Fresh x.key xs e h.0 (same_text-sym x.key e.key f.0), append-Distinct xs e h.1 f.1)

pub evict-Distinct : (max : ℕ) (m : Store) → Distinct m → Distinct (evict max m)
unfolding evict
evict-Distinct max [] h = tt
evict-Distinct max (e ∷ es) h =
    if-both Distinct (ltb max (length (e ∷ es))) (λ _. evict-Distinct max es h.1) (λ _. h)

pub within : (a b : ℕ) → ltb a b ≡ false → b ≤ a
within a b h = ground arith

pub over : (a b : ℕ) → b ≤ a → ¬ (ltb a b ≡ true)
over a b h t = ground arith

not_over : (a b : ℕ) → b ≡ a → ¬ (ltb a (suc b) ≡ false)
not_over a b h t = ground arith

pub length-evict-le : (max : ℕ) (m : Store) → length (evict max m) ≤ max
unfolding evict
length-evict-le max [] = omega arith
length-evict-le max (e ∷ es) =
    if-both {A = Store} (λ r. length r ≤ max) (ltb max (length (e ∷ es)))
      (λ _. length-evict-le max es) (λ f. within max (length (e ∷ es)) f)

-- A store within the bound is left alone.
pub evict-none : (max : ℕ) (m : Store) → length m ≤ max → evict max m ≡ m
unfolding evict
evict-none max [] h = refl
evict-none max (e ∷ es) h =
    if-both (λ r. r ≡ e ∷ es) (ltb max (length (e ∷ es)))
      (λ t. elim (over max (length (e ∷ es)) h t) [ ]) (λ _. refl)

-- One entry above the bound: the oldest goes.
pub evict-first : (max : ℕ) (e : Entry) (es : Store) → length es ≡ max → evict max (e ∷ es) ≡ es
unfolding evict
evict-first max e es h =
    if-both (λ r. r ≡ es) (ltb max (length (e ∷ es))) (λ _. evict-none max es (omega arith))
      (λ f. elim (not_over max (length es) h f) [ ])
