-- ===== src/Health/Reasons/Severest.antt =====
-- The order of the violations and their penalty (src/core/iterationReasonDedup.ts).
use xcoder.Prelude.{
  ℕ, suc, ◌≤◌, ◌≡◌, refl, true, false, Option, none, some, List, [], ◌∷◌, length, leb, if-both, All,
  arith,
}
use xcoder.Prelude.Text.{Text, trim, non_empty}
use xcoder.Health.Reasons.{
  MatchType, exact, case_insensitive, fuzzy, DedupOptions, Violation, penalty_of, order, insert,
  sort, match_reason, violation, with_match, violations_from, check_duplicate_reason,
  max_duplicate_penalty,
}

-- The first penalty, 0 if there is none.
abbrev pub first_penalty : List Violation → ℕ
first_penalty [] = 0
first_penalty (v ∷ vs) = v.penalty

abbrev NotBefore : Violation → List Violation → Type 0
NotBefore v vs = All (λ w. order v.match_type ≤ order w.match_type) vs

-- Severest first.
abbrev Ordered : List Violation → Type 0
Ordered [] = Unit
Ordered (v ∷ vs) = NotBefore v vs × Ordered vs

abbrev Priced : List Violation → Type 0
Priced vs = All (λ v. v.penalty ≡ penalty_of v.match_type) vs

insert-NotBefore :
    (u v : Violation) (vs : List Violation)
    → order u.match_type ≤ order v.match_type
    → NotBefore u vs
    → NotBefore u (insert v vs)
unfolding insert
insert-NotBefore u v [] h k = (h, tt)
insert-NotBefore u v (w ∷ ws) h k =
    if-both (NotBefore u) (leb (order v.match_type) (order w.match_type)) (λ _. (h, k))
      (λ _. (k.0, insert-NotBefore u v ws h k.1))

weaken-NotBefore :
    (u v : Violation) (vs : List Violation)
    → order u.match_type ≤ order v.match_type
    → NotBefore v vs
    → NotBefore u vs
weaken-NotBefore u v [] h k = tt
weaken-NotBefore u v (w ∷ ws) h k = (omega (arith, h, k.0), weaken-NotBefore u v ws h k.1)

test_le : (a b : ℕ) → leb a b ≡ true → a ≤ b
test_le a b h = ground arith

test_ge : (a b : ℕ) → leb a b ≡ false → b ≤ a
test_ge a b h = ground arith

insert-Ordered : (v : Violation) (vs : List Violation) → Ordered vs → Ordered (insert v vs)
unfolding insert
insert-Ordered v [] h = (tt, tt)
insert-Ordered v (w ∷ ws) h =
    if-both Ordered (leb (order v.match_type) (order w.match_type))
      (λ t.
        let le = test_le (order v.match_type) (order w.match_type) t in
        ((le, weaken-NotBefore v w ws le h.0), h))
      (λ f. (
        insert-NotBefore w v ws (test_ge (order v.match_type) (order w.match_type) f) h.0,
        insert-Ordered v ws h.1,
      ))

sort-Ordered : (vs : List Violation) → Ordered (sort vs)
unfolding sort
sort-Ordered [] = tt
sort-Ordered (v ∷ vs) = insert-Ordered v (sort vs) (sort-Ordered vs)

insert-Priced :
    (v : Violation) (vs : List Violation)
    → v.penalty ≡ penalty_of v.match_type
    → Priced vs
    → Priced (insert v vs)
unfolding insert
insert-Priced v [] h k = (h, tt)
insert-Priced v (w ∷ ws) h k =
    if-both Priced (leb (order v.match_type) (order w.match_type)) (λ _. (h, k))
      (λ _. (k.0, insert-Priced v ws h k.1))

sort-Priced : (vs : List Violation) → Priced vs → Priced (sort vs)
unfolding sort
sort-Priced [] h = tt
sort-Priced (v ∷ vs) h = insert-Priced v (sort vs) h.0 (sort-Priced vs h.1)

with_match-Priced :
    (i count : ℕ) (new prev : Text) (o : Option MatchType) (rest : List Violation)
    → Priced rest
    → Priced (with_match i count new prev o rest)
unfolding violation
with_match-Priced i count new prev none rest h = h
with_match-Priced i count new prev (some t) rest h = (refl, h)

violations-Priced :
    (lower : Text → Text) (o : DedupOptions) (count i : ℕ) (new : Text) (ps : List Text)
    → Priced (violations_from lower o count i new ps)
unfolding violations_from
violations-Priced lower o count i new [] = tt
violations-Priced lower o count i new (p ∷ ps) =
    with_match-Priced i count new (trim p) (match_reason lower o new (trim p)) _
      (violations-Priced lower o count (suc i) new ps)

-- The earlier pass has the higher penalty.
penalty_of-order : (s t : MatchType) → order s ≤ order t → penalty_of t ≤ penalty_of s
penalty_of-order exact exact h = omega arith
penalty_of-order exact case_insensitive h = omega arith
penalty_of-order exact fuzzy h = omega arith
penalty_of-order case_insensitive exact h = omega arith
penalty_of-order case_insensitive case_insensitive h = omega arith
penalty_of-order case_insensitive fuzzy h = omega arith
penalty_of-order fuzzy exact h = omega arith
penalty_of-order fuzzy case_insensitive h = omega arith
penalty_of-order fuzzy fuzzy h = omega arith

max-bound :
    (v : Violation) (vs : List Violation)
    → v.penalty ≡ penalty_of v.match_type
    → NotBefore v vs
    → Priced vs
    → max_duplicate_penalty vs ≤ v.penalty
unfolding max_duplicate_penalty
max-bound v [] e h k = omega arith
max-bound v (w ∷ ws) e h k =
    omega (arith, e, k.0, penalty_of-order v.match_type w.match_type h.0, max-bound v ws e h.1 k.1)

first-max :
    (vs : List Violation) → Ordered vs → Priced vs → max_duplicate_penalty vs ≡ first_penalty vs
unfolding max_duplicate_penalty
first-max [] h k = refl
first-max (v ∷ vs) h k = omega (arith, max-bound v vs k.0 h.0 k.1)

-- The first violation, which the message names, is one of the highest penalty, which the score loses.
pub check-severest :
    (lower : Text → Text) (o : DedupOptions) (previous : List Text) (reason : Text)
    → max_duplicate_penalty (check_duplicate_reason lower o previous reason)
      ≡ first_penalty (check_duplicate_reason lower o previous reason)
unfolding check_duplicate_reason
check-severest lower o previous reason =
    if-both (λ vs. max_duplicate_penalty vs ≡ first_penalty vs) (non_empty (trim reason))
      (λ _.
        first-max (sort found) (sort-Ordered found) (
          sort-Priced found (violations-Priced lower o (length previous) 0 (trim reason) previous)))
      (λ _. first-max [] tt tt)
  where
    found : List Violation
    found = violations_from lower o (length previous) 0 (trim reason) previous
