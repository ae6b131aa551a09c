-- ===== src/Agi/Kernel.antt =====
-- The supervisor of the autonomous agent (integrations/agi/kernel/supervisor.ts): the links to the current and
-- the stable release, promotions with their probation, rollbacks, exits of the agent and its health.
pub mod Decided
use xcoder.Prelude.{
  ℕ, ◌+◌, ◌-◌, ltb, leb, ◌==◌, Bool, true, false, not, ◌&&◌, ◌||◌, Option, none, some, List, [],
  ◌∷◌, ◌++◌, length, keep, every, if◌then◌else◌,
}
use xcoder.Prelude.Text.{Text, codes, same_text}

pub record ReleaseResult : Type 0 where
  pub id : Text
  pub status : Text
  pub reason : Text

-- The names of the two linked releases, the releases that the kernel has stored, the results, and each start of
-- the agent as the release and whether it is on probation. `misses` counts failed health checks in a row.
pub record Kernel : Type 0 where
  pub current : Text
  pub stable : Text
  pub stored : List Text
  pub results : List ReleaseResult
  pub launched : List (Text × Bool)
  pub has_child : Bool
  pub exit_count : List ℕ
  pub misses : ℕ

unfoldable pub start : Bool → Kernel → Kernel
start probation s = record s {
  launched = s.launched ++ (s.current, probation) ∷ [];
  has_child = true;
}

abbrev pub stop_child : Kernel → Kernel
stop_child s = record s { has_child = false }

abbrev pub result : Text → Text → Text → Kernel → Kernel
result id status reason s = record s {
  results = s.results ++ record { id = id; status = status; reason = reason } ∷ [];
}

abbrev pub report_rollback : Text → Text → Text → Kernel → Kernel
report_rollback bad good reason s =
    if same_text bad good then s else result bad (codes "rolled_back") reason s

abbrev pub to_stable : Kernel → Kernel
to_stable s = record (stop_child s) { current = s.stable }

abbrev pub no_exits : Kernel → Kernel
no_exits s = record s { exit_count = [] }

unfoldable pub rollback : Text → Kernel → Kernel
unfolding start
rollback reason s = start false (no_exits (report_rollback s.current s.stable reason (to_stable s)))

-- `genome.json` of a request: missing, an exception while it is read, or its version and what `validateGenome` says of it.
pub data Genome : Type 0 where
  missing : Genome
  unreadable : Text → Genome
  genome : Text → Option Text → Genome

-- What a turn of the probation finds: no process, no answer, or the release and the probation it reports.
pub data Poll : Type 0 where
  gone silent : Poll
  healthy : Text → Text → Poll

abbrev pub is_digit : ℕ → Bool
is_digit c = leb 48 c && leb c 57

-- `/^v\d{4}$/`
unfoldable pub is_release_id : Text → Bool
is_release_id [] = false
is_release_id (c ∷ s) = c == 118 && length s == 4 && every is_digit s

abbrev pub passes : Text → Text → Text → Bool
passes id release probation = same_text release id && same_text probation (codes "pass")

-- The turns of the probation until its time is over.
unfoldable pub probation : Text → List Poll → Kernel → Kernel
unfolding rollback
probation id [] s = rollback (codes "probation timeout") s
probation id (gone ∷ polls) s = stop_child s
probation id (silent ∷ polls) s = probation id polls s
probation id (healthy release verdict ∷ polls) s = elim (passes id release verdict) [
  | true ↦ result id (codes "promoted") [] (record s { stable = id })
  | false ↦ elim (same_text verdict (codes "fail")) [
    | true ↦ rollback (codes "probation smoke evals failed") s
    | false ↦ probation id polls s
  ]
]

-- The release is stored and started on probation.
unfoldable pub promote : Text → Kernel → Kernel
unfolding start
promote id s = start true (record (stop_child s) { stored = s.stored ++ id ∷ []; current = id })

abbrev pub reject : Text → Text → Kernel → Kernel
reject id reason s = result id (codes "rejected") reason s

abbrev pub by_genome : Text → Genome → List Poll → Kernel → Kernel
by_genome id missing polls s = reject id (codes "bad request") s
by_genome id (unreadable message) polls s = rollback message s
by_genome id (genome version (some error)) polls s = reject id error s
by_genome id (genome version none) polls s =
    if same_text version id
    then probation id polls (promote id s)
    else reject id (codes "version mismatch") s

-- `handlePromotion`
unfoldable pub handle_promotion : Text → Genome → List Poll → Kernel → Kernel
unfolding is_release_id rollback probation promote
handle_promotion id g polls s =
    if is_release_id id then by_genome id g polls s else reject id (codes "bad request") s

abbrev pub recent_exits : ℕ → List ℕ → List ℕ
recent_exits now exits = keep (λ t. ltb (now - t) 60_000) exits ++ now ∷ []

abbrev pub exited : ℕ → Kernel → Kernel
exited now s = record s { has_child = false; exit_count = recent_exits now s.exit_count }

-- The agent has exited by itself.
unfoldable pub on_exit : ℕ → Kernel → Kernel
unfolding rollback
on_exit now s =
    if leb 3 (length (recent_exits now s.exit_count)) && not (same_text s.current s.stable)
    then rollback (codes "crash loop") (exited now s)
    else exited now s

-- Two seconds after an exit.
unfoldable pub restart : Kernel → Kernel
unfolding start
restart s = if s.has_child then s else start false s

abbrev pub counted_miss : Bool → Kernel → Kernel
counted_miss ok s = record s { misses = if ok then 0 else s.misses + 1 }

abbrev pub restart_unresponsive : Kernel → Kernel
restart_unresponsive s =
    if leb 6 s.misses then start false (stop_child (record s { misses = 0 })) else s

-- The health check that runs while no promotion does.
unfoldable pub health_check : Bool → Kernel → Kernel
unfolding start
health_check ok s = if s.has_child then restart_unresponsive (counted_miss ok s) else s
