-- ===== src/Sdlc/Dag/Acyclic.antt =====
-- What `validateDag` accepts has no cycle (src/core/engine/SdlcEngine.ts).
use mathlib.Core.Option.{some-injective}
use xcoder.Prelude.{
  ℕ, zero, suc, String, ◌≡◌, refl, ap, subst, ◌⊎◌, inl, inr, true, Option, some, none, List, [],
  ◌∷◌, arith, str_eq, eq_iff, if-both, All, Bool-cases,
}
use xcoder.Sdlc.Stage.{SdlcNode}
use xcoder.Sdlc.Dag.{
  Visit, Marks, Mark, visiting, finished, done, thrown, no_fuel, DagError, mark_of, deps_of,
  and_then, visit_all, visit_marked, visit, search_cycles, validate_dag, ids, member, has_duplicate,
}

-- Every chain of dependencies from this id comes to an end.
pub data Grounded (dag : List SdlcNode) : String → Type 0 where
  grounded :
      {id : String}
      → ((d : String) → member d (deps_of dag id) ≡ true → Grounded dag d)
      → Grounded dag id

-- A chain of one or more dependencies.
pub data Reaches (dag : List SdlcNode) : String → String → Type 0 where
  direct : {a b : String} → member b (deps_of dag a) ≡ true → Reaches dag a b
  through : {a b c : String} → member b (deps_of dag a) ≡ true → Reaches dag b c → Reaches dag a c

Reaches-step :
    {dag : List SdlcNode} {a b c : String}
    → Reaches dag a b
    → member c (deps_of dag b) ≡ true
    → Reaches dag a c
Reaches-step (direct e) f = through e (direct f)
Reaches-step (through e r) f = through e (Reaches-step r f)

module _ (dag : List SdlcNode) where
  abbrev Finished : Marks → String → Type 0
  Finished marks id = mark_of id marks ≡ some finished

  record Sound (marks : Marks) : Type 0 where
    at : (id : String) → Finished marks id → Grounded dag id

  -- What a visit that returns has done: its ids are finished, and what was finished stays so.
  abbrev VisitFacts : (Marks → Type 0) → Marks → Visit Marks → Type 0
  VisitFacts Goal before (done after) =
      Sound after × Goal after × ((j : String) → Finished before j → Finished after j)
  VisitFacts Goal before (thrown e) = Unit
  VisitFacts Goal before no_fuel = Unit

  abbrev Visits : (String → Marks → Visit Marks) → Type 0
  Visits f =
      (id : String) (marks : Marks)
      → Sound marks
      → VisitFacts (λ m. Finished m id) marks (f id marks)

  Keeps : Marks → Marks → Type 0
  Keeps before after = (j : String) → Finished before j → Finished after j

  and_then-Facts :
      (G H : Marks → Type 0) (before : Marks) (r : Visit Marks) (k : Marks → Visit Marks)
      → VisitFacts G before r
      → ((m : Marks) → Sound m → G m → Keeps before m → VisitFacts H before (k m))
      → VisitFacts H before (and_then r k)
  unfolding Keeps
  and_then-Facts G H before (done m) k h next = next m h.0 h.1 h.2
  and_then-Facts G H before (thrown e) k h next = tt
  and_then-Facts G H before no_fuel k h next = tt

  -- seen from earlier marks, and with more
  from_earlier :
      (G H : Marks → Type 0) (before m : Marks) (r : Visit Marks)
      → VisitFacts G m r
      → Keeps before m
      → ((n : Marks) → G n → Keeps m n → H n)
      → VisitFacts H before r
  unfolding Keeps
  from_earlier G H before m (done n) h keeps more = (h.0, more n h.1 h.2, λ j f. h.2 j (keeps j f))
  from_earlier G H before m (thrown e) h keeps more = tt
  from_earlier G H before m no_fuel h keeps more = tt

  visit_all-Facts :
      (f : String → Marks → Visit Marks) (ds : List String) (marks : Marks)
      → Visits f
      → Sound marks
      → VisitFacts (λ m. All (Finished m) ds) marks (visit_all f ds marks)
  unfolding visit_all Keeps
  visit_all-Facts f [] marks v s = (s, tt, λ j h. h)
  visit_all-Facts f (d ∷ ds) marks v s =
      and_then-Facts (λ m. Finished m d) (λ m. All (Finished m) (d ∷ ds)) marks (f d marks)
        (visit_all f ds) (v d marks s)
        (λ m sound first keeps.
          from_earlier (λ n. All (Finished n) ds) (λ n. All (Finished n) (d ∷ ds)) marks m
            (visit_all f ds m) (visit_all-Facts f ds m v sound) keeps
            (λ n rest later. (later d first, rest)))

  All-member :
      (m : Marks) (ds : List String) (d : String)
      → All (Finished m) ds
      → member d ds ≡ true
      → Finished m d
  All-member m [] d h e = cc
  All-member m (x ∷ xs) d h e = elim (Bool-cases (str_eq x d)) [
    | inl same ↦ subst (Finished m) ((eq_iff x d).0 same) h.0
    | inr other ↦ All-member m xs d h.1 (ground arith)
  ]

  -- A mark on top hides nothing that was finished.
  push-Finished :
      (id j : String) (mark : Mark) (m : Marks)
      → Finished ((id, mark) ∷ m) j
      → (mark ≡ finished) × (id ≡ j) ⊎ Finished m j
  unfolding mark_of
  push-Finished id j mark m =
      if-both (λ o. o ≡ some finished → (mark ≡ finished) × (id ≡ j) ⊎ Finished m j) (str_eq id j)
        (λ same h. inl (some-injective mark finished h, (eq_iff id j).0 same)) (λ _ h. inr h)

  -- What is finished below stays so under a mark of another id, or under the mark of a finished one.
  Finished-push :
      (id j : String) (mark : Mark) (m : Marks)
      → Finished m j
      → (mark ≡ finished) ⊎ (mark_of id m ≡ none)
      → Finished ((id, mark) ∷ m) j
  unfolding mark_of
  Finished-push id j mark m h ok =
      if-both (λ o. o ≡ some finished) (str_eq id j)
        (λ same. elim ok [
          | inl top ↦ ap some top
          | inr fresh ↦ cc (h, fresh, (eq_iff id j).0 same)
        ])
        (λ _. h)

  Finished-top : (id : String) (m : Marks) → Finished ((id, finished) ∷ m) id
  unfolding mark_of
  Finished-top id m = rw ((eq_iff id id).1 refl) refl

  visiting-Sound : (id : String) (m : Marks) → Sound m → Sound ((id, visiting) ∷ m)
  visiting-Sound id m s = record {
    at = λ j h. elim (push-Finished id j visiting m h) [
      | inl top ↦ cc (top.0)
      | inr below ↦ s.at j below
    ];
  }

  finished-Sound :
      (id : String) (m : Marks)
      → Sound m
      → All (Finished m) (deps_of dag id)
      → Sound ((id, finished) ∷ m)
  finished-Sound id m s deps = record {
    at = λ j h. elim (push-Finished id j finished m h) [
      | inl top ↦
          subst (Grounded dag) top.1
            (grounded (λ d e. s.at d (All-member m (deps_of dag id) d deps e)))
      | inr below ↦ s.at j below
    ];
  }

  visit_marked-Facts :
      (found : Option Mark) (id : String) (marks : Marks) (deeper : Marks → Visit Marks)
      → mark_of id marks ≡ found
      → Sound marks
      → ((m : Marks) → Sound m → VisitFacts (λ n. All (Finished n) (deps_of dag id)) m (deeper m))
      → VisitFacts (λ m. Finished m id) marks (visit_marked found id marks deeper)
  unfolding visit_marked Keeps
  visit_marked-Facts (some finished) id marks deeper e s d = (s, e, λ j h. h)
  visit_marked-Facts (some visiting) id marks deeper e s d = tt
  visit_marked-Facts none id marks deeper e s d =
      and_then-Facts (λ m. All (Finished m) (deps_of dag id)) (λ m. Finished m id) marks
        (deeper ((id, visiting) ∷ marks)) (λ after. done ((id, finished) ∷ after))
        (from_earlier (λ m. All (Finished m) (deps_of dag id))
          (λ m. All (Finished m) (deps_of dag id)) marks ((id, visiting) ∷ marks) _
          (d ((id, visiting) ∷ marks) (visiting-Sound id marks s))
          (λ j h. Finished-push id j visiting marks h (inr e)) (λ n g _. g))
        (λ m sound deps keeps. (
          finished-Sound id m sound deps,
          Finished-top id m,
          λ j h. Finished-push id j finished m (keeps j h) (inl refl),
        ))

  visit-Facts : (fuel : ℕ) → Visits (visit fuel dag)
  unfolding visit
  visit-Facts zero id marks s = tt
  visit-Facts (suc fuel) id marks s =
      visit_marked-Facts (mark_of id marks) id marks (visit_all (visit fuel dag) (deps_of dag id))
        refl s
        (λ m sound. visit_all-Facts (visit fuel dag) (deps_of dag id) m (visit-Facts fuel) sound)

  empty-Sound : Sound []
  unfolding mark_of
  empty-Sound = record { at = λ id h. cc }

  abbrev Accepts : Visit Marks → Type 0
  Accepts (done m) = (id : String) → member id (ids dag) ≡ true → Grounded dag id
  Accepts (thrown e) = Unit
  Accepts no_fuel = Unit

  visits_accepted :
      (v : Visit Marks) → VisitFacts (λ m. All (Finished m) (ids dag)) [] v → Accepts v
  visits_accepted (done m) h = λ id e. h.0.at id (All-member m (ids dag) id h.1 e)
  visits_accepted (thrown e) h = tt
  visits_accepted no_fuel h = tt

  search-Accepts : (fuel : ℕ) (found : Option DagError) → Accepts (search_cycles fuel dag found)
  unfolding search_cycles
  search-Accepts fuel (some e) = tt
  search-Accepts fuel none =
      visits_accepted _
        (visit_all-Facts (visit fuel dag) (ids dag) [] (visit-Facts fuel) empty-Sound)

  validate-Accepts : (fuel : ℕ) → Accepts (validate_dag fuel dag)
  unfolding validate_dag
  validate-Accepts fuel =
      if-both Accepts (has_duplicate (ids dag)) (λ _. tt) (λ _. search-Accepts fuel _)

-- No chain of dependencies leads from a grounded id back to itself.
Grounded-no_cycle : {dag : List SdlcNode} {id : String} → Grounded dag id → ¬ (Reaches dag id id)
Grounded-no_cycle {dag} (grounded below) (direct e) = Grounded-no_cycle (below _ e) (direct e)
Grounded-no_cycle {dag} (grounded below) (through e r) =
    Grounded-no_cycle (below _ e) (Reaches-step r e)

-- A DAG that `validateDag` accepts has no node that depends on itself, directly or through others.
pub validate_dag-acyclic :
    (fuel : ℕ) (dag : List SdlcNode) (marks : Marks) (n : String)
    → validate_dag fuel dag ≡ done marks
    → member n (ids dag) ≡ true
    → ¬ (Reaches dag n n)
validate_dag-acyclic fuel dag marks n e known =
    Grounded-no_cycle (subst (Accepts dag) e (validate-Accepts dag fuel) n known)
