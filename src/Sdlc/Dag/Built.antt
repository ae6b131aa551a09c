-- ===== src/Sdlc/Dag/Built.antt =====
-- The pipelines that `buildDag` builds are valid DAGs (src/core/engine/SdlcEngine.ts).
use xcoder.Prelude.{suc, String, ◌≡◌, refl, Bool, true, false, List, [], ◌∷◌, All, length}
use xcoder.Sdlc.Stage.{Stage, conversation, Status, SdlcNode, SdlcEngineOptions, stage_name}
use xcoder.Sdlc.Dag.{
  Visit, Marks, done, thrown, no_fuel, validate_dag, link, plan_stages, build_dag,
}

abbrev pub IsDone : Visit Marks → Type 0
IsDone (done m) = Unit
IsDone (thrown e) = ⊥
IsDone no_fuel = ⊥

valid_plan :
    (opts : SdlcEngineOptions) (a b : Bool) (start : Stage)
    → let dag = link opts [] (plan_stages start a b) in IsDone (validate_dag (suc (length dag)) dag)
unfolding link plan_stages validate_dag
valid_plan opts true true conversation = tt
valid_plan opts true true _ = tt
valid_plan opts true false conversation = tt
valid_plan opts true false _ = tt
valid_plan opts false true conversation = tt
valid_plan opts false true _ = tt
valid_plan opts false false conversation = tt
valid_plan opts false false _ = tt

-- Every pipeline that `buildDag` builds, for every entry stage and all options, passes `validateDag`:
-- its ids are distinct, its dependencies known, and the search for cycles neither finds one nor runs
-- out of fuel.
pub build_dag-IsDone :
    (start : Stage) (opts : SdlcEngineOptions)
    → IsDone (validate_dag (suc (length (build_dag start opts))) (build_dag start opts))
unfolding build_dag
build_dag-IsDone conversation opts = unfold validate_dag in tt
build_dag-IsDone start opts = valid_plan opts opts.include_document opts.include_deploy start

abbrev pub IsPending : SdlcNode → Type 0
IsPending n = n.status ≡ Status.pending

pub link-IsPending :
    (opts : SdlcEngineOptions) (deps : List String) (stages : List Stage)
    → All IsPending (link opts deps stages)
unfolding link
link-IsPending opts deps [] = tt
link-IsPending opts deps (s ∷ rest) = (refl, link-IsPending opts (stage_name s ∷ []) rest)

pub build_dag-IsPending :
    (start : Stage) (opts : SdlcEngineOptions) → All IsPending (build_dag start opts)
unfolding build_dag
build_dag-IsPending conversation opts = (refl, tt)
build_dag-IsPending start opts =
    link-IsPending opts [] (plan_stages start opts.include_document opts.include_deploy)
