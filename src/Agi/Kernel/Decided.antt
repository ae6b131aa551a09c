-- ===== src/Agi/Kernel/Decided.antt =====
-- What becomes of a promotion (`handlePromotion` of integrations/agi/kernel/supervisor.ts).
use xcoder.Prelude.{
  ℕ, ◌+◌, ◌≤◌, ◌≢◌, ◌≡◌, ◌⊎◌, Bool, true, false, not, ◌&&◌, none, some, List, [], ◌∷◌, ◌++◌, every,
}
use xcoder.Prelude.Text.{Text, codes, same_text}
use xcoder.Agi.Kernel.{Kernel, Genome, missing, unreadable, genome, Poll, gone, silent, healthy}

-- A turn after which the probation goes on.
abbrev pub is_undecided : Text → Poll → Bool
is_undecided id gone = false
is_undecided id silent = true
is_undecided id (healthy release verdict) =
    not (same_text release id && same_text verdict (codes "pass"))
    && not (same_text verdict (codes "fail"))

-- The probation was undecided before this turn.
pub record First (id : Text) (polls : List Poll) (p : Poll) : Type 0 where
  pub before : List Poll
  pub after : List Poll
  pub parts : polls ≡ before ++ (p ∷ after)
  pub undecided : every (is_undecided id) before ≡ true

-- The release fails its evaluations, or the time is over.
abbrev pub Fails : Text → List Poll → Type 0
Fails id polls =
    (every (is_undecided id) polls ≡ true)
    ⊎ ((release : Text) × (verdict : Text) × First id polls (healthy release verdict)
        × (same_text verdict (codes "fail") ≡ true))

pub data Probation (id : Text) (polls : List Poll) (s s' : Kernel) : Type 0 where
  promoted :
      (release verdict : Text)
      → First id polls (healthy release verdict)
      → release ≡ id
      → verdict ≡ codes "pass"
      → s'.stable ≡ id
      → s'.current ≡ s.current
      → s'.launched ≡ s.launched
      → s'.results ≡ s.results ++ record { id = id; status = codes "promoted"; reason = [] } ∷ []
      → Probation id polls s s'
  rolled_back :
      Fails id polls
      → s'.stable ≡ s.stable
      → s'.current ≡ s.stable
      → s'.launched ≡ s.launched ++ (s.stable, false) ∷ []
      → Probation id polls s s'
  abandoned :
      First id polls gone
      → s'.stable ≡ s.stable
      → s'.current ≡ s.current
      → s'.launched ≡ s.launched
      → Probation id polls s s'

-- `v` and four digits.
pub data IsReleaseId : Text → Type 0 where
  release_id :
      (a b c d : ℕ)
      → a ≤ 9
      → b ≤ 9
      → c ≤ 9
      → d ≤ 9
      → IsReleaseId (118 ∷ (a + 48) ∷ (b + 48) ∷ (c + 48) ∷ (d + 48) ∷ [])

-- A request without a good file: a version that is not the id, or one that is refused.
pub data Unfit (id : Text) : Genome → Type 0 where
  no_id : {g : Genome} → ¬ IsReleaseId id → Unfit id g
  no_file : Unfit id missing
  bad_genome : (version error : Text) → Unfit id (genome version (some error))
  other_version : (version : Text) → version ≢ id → Unfit id (genome version none)

-- The kernel after it has stored the release and started it on probation.
pub record Started (id : Text) (s s' : Kernel) : Type 0 where
  pub kept : s'.stored ≡ s.stored ++ id ∷ []
  pub linked : s'.current ≡ id
  pub same_stable : s'.stable ≡ s.stable
  pub on_probation : s'.launched ≡ s.launched ++ (id, true) ∷ []
  pub runs : s'.has_child ≡ true
  pub same_results : s'.results ≡ s.results

-- A request is refused and only reported, stops the agent for the stable release because its file is no JSON, or
-- starts the release on probation.
pub data Handled (id : Text) (g : Genome) (polls : List Poll) (s s' : Kernel) : Type 0 where
  refused :
      (reason : Text)
      → Unfit id g
      → s' ≡ record s {
        results = s.results ++ record { id = id; status = codes "rejected"; reason = reason } ∷ [];
      }
      → Handled id g polls s s'
  unread :
      (reason : Text)
      → IsReleaseId id
      → g ≡ unreadable reason
      → s'.stable ≡ s.stable
      → s'.current ≡ s.stable
      → s'.launched ≡ s.launched ++ (s.stable, false) ∷ []
      → Handled id g polls s s'
  tried :
      IsReleaseId id
      → g ≡ genome id none
      → (started : Kernel) → Started id s started
      → Probation id polls started s'
      → Handled id g polls s s'
