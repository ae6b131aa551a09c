-- ===== src/Sdlc/Dag.antt =====
-- `buildDag` and `validateDag` of src/core/engine/SdlcEngine.ts.
pub mod Built
pub mod Acyclic
use xcoder.Prelude.{
  ℕ, zero, suc, String, Bool, true, false, not, ◌&&◌, ◌||◌, Option, none, some, List, [], ◌∷◌, ◌++◌,
  str_eq, if◌then◌else◌, or_default, keep,
}
use xcoder.Sdlc.Stage.{
  Stage, conversation, document, deploy, AcceptanceCriteria, rubric, pending, SdlcNode,
  SdlcEngineOptions, stage_name, same_stage, includes, stage_order, optional_stages, entry_chain,
  stage_role,
}

abbrev pub default_acceptance : AcceptanceCriteria
default_acceptance = record { kind = rubric; command = none; rubric = none }

-- A stage's node, with the ids that it waits for.
unfoldable pub new_node : SdlcEngineOptions → Stage → List String → SdlcNode
unfolding stage_role
new_node opts stage deps = record {
  id = stage_name stage;
  stage = stage;
  role = stage_role stage;
  dependencies = deps;
  status = pending;
  acceptance = or_default (opts.acceptance_overrides stage) default_acceptance;
  attempts = 0;
  result = none;
  error = none;
  iteration_count = none;
  history = [];
}

-- `xs.slice(xs.indexOf(s))`; an absent `s` has index -1, and `slice(-1)` is the last element
unfoldable pub slice_from : Stage → List Stage → List Stage
slice_from s [] = []
slice_from s (x ∷ []) = x ∷ []
slice_from s (x ∷ y ∷ rest) =
    let later = slice_from s (y ∷ rest) in if same_stage x s then x ∷ y ∷ rest else later

-- the filter on the canonical order, by the options `includeDocument` and `includeDeploy`
unfoldable pub wanted : Stage → Bool → Bool → Stage → Bool
wanted start with_document with_deploy s =
    if same_stage s start
    then true
    else if same_stage s document
    then with_document
    else if same_stage s deploy
    then with_deploy
    else not (includes optional_stages s)

-- `if (flag && !stages.includes(s)) stages.push(s)`
unfoldable pub push_missing : Bool → Stage → List Stage → List Stage
push_missing flag s stages = if flag && not (includes stages s) then stages ++ s ∷ [] else stages

unfoldable pub plan_stages : Stage → Bool → Bool → List Stage
unfolding entry_chain push_missing wanted slice_from
plan_stages start with_document with_deploy = elim (entry_chain start) [
  | some chain ↦ push_missing with_deploy deploy (push_missing with_document document chain)
  | none ↦ keep (wanted start with_document with_deploy) (slice_from start stage_order)
]

-- each stage depends on the one before it
unfoldable pub link : SdlcEngineOptions → List String → List Stage → List SdlcNode
unfolding new_node
link opts deps [] = []
link opts deps (s ∷ rest) = new_node opts s deps ∷ link opts (stage_name s ∷ []) rest

unfoldable pub build_dag : Stage → SdlcEngineOptions → List SdlcNode
unfolding plan_stages link
build_dag conversation opts = new_node opts conversation [] ∷ []
build_dag start opts = link opts [] (plan_stages start opts.include_document opts.include_deploy)

-- `validateDag`

pub data DagError : Type 0 where
  duplicate_ids : DagError
  unknown_dependency : String → String → DagError
  cycle_through : String → DagError

-- The visit of one node either goes on with the marks made so far, or throws. `no_fuel` stands for
-- a recursion deeper than the fuel.
pub data Visit {ℓ} (A : Type ℓ) : Type ℓ where
  done : A → Visit A
  thrown : DagError → Visit A
  no_fuel : Visit A

-- 1 while a node is on the stack, 2 when it is finished
pub data Mark : Type 0 where
  visiting finished : Mark

abbrev pub Marks : Type 0
Marks = List (String × Mark)

-- `state.get(id)`: the newest entry counts
unfoldable pub mark_of : String → Marks → Option Mark
mark_of id [] = none
mark_of id ((j, m) ∷ rest) = if str_eq j id then some m else mark_of id rest

abbrev pub member : String → List String → Bool
member id [] = false
member id (x ∷ xs) = str_eq x id || member id xs

abbrev pub ids : List SdlcNode → List String
ids [] = []
ids (n ∷ rest) = n.id ∷ ids rest

-- `dag.find((n) => n.id === id)!.dependencies`
unfoldable pub deps_of : List SdlcNode → String → List String
deps_of [] id = []
deps_of (n ∷ rest) id = if str_eq n.id id then n.dependencies else deps_of rest id

abbrev pub and_then : Visit Marks → (Marks → Visit Marks) → Visit Marks
and_then (done a) f = f a
and_then (thrown e) f = thrown e
and_then no_fuel f = no_fuel

-- `for (const d of ds) visit(d)`
unfoldable pub visit_all : (String → Marks → Visit Marks) → List String → Marks → Visit Marks
visit_all visit [] marks = done marks
visit_all visit (d ∷ ds) marks = and_then (visit d marks) (visit_all visit ds)

-- One visit, by the mark that was found; `deeper` visits the dependencies.
unfoldable pub visit_marked : Option Mark → String → Marks → (Marks → Visit Marks) → Visit Marks
visit_marked (some finished) id marks deeper = done marks
visit_marked (some visiting) id marks deeper = thrown (cycle_through id)
visit_marked none id marks deeper =
    and_then (deeper ((id, visiting) ∷ marks)) (λ after. done ((id, finished) ∷ after))

unfoldable pub visit : ℕ → List SdlcNode → String → Marks → Visit Marks
unfolding visit_all mark_of deps_of visit_marked
visit zero dag id marks = no_fuel
visit (suc fuel) dag id marks =
    visit_marked (mark_of id marks) id marks (visit_all (visit fuel dag) (deps_of dag id))

-- `new Set(ids).size !== dag.length`, as the test that an id comes again later
unfoldable pub has_duplicate : List String → Bool
has_duplicate [] = false
has_duplicate (id ∷ rest) = member id rest || has_duplicate rest

unfoldable pub first_unknown : List String → String → List String → Option DagError
first_unknown known id [] = none
first_unknown known id (d ∷ ds) =
    if member d known then first_unknown known id ds else some (unknown_dependency id d)

unfoldable pub unknown_in : List String → List SdlcNode → Option DagError
unfolding first_unknown
unknown_in known [] = none
unknown_in known (n ∷ rest) = elim (first_unknown known n.id n.dependencies) [
  | some e ↦ some e
  | none ↦ unknown_in known rest
]

unfoldable pub search_cycles : ℕ → List SdlcNode → Option DagError → Visit Marks
search_cycles fuel dag (some e) = thrown e
search_cycles fuel dag none = visit_all (visit fuel dag) (ids dag) []

unfoldable pub validate_dag : ℕ → List SdlcNode → Visit Marks
unfolding has_duplicate unknown_in visit_all visit search_cycles
validate_dag fuel dag =
    if has_duplicate (ids dag)
    then thrown duplicate_ids
    else search_cycles fuel dag (unknown_in (ids dag) dag)
