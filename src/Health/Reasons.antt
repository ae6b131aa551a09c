-- ===== src/Health/Reasons.antt =====
-- Repeated reasons (`checkDuplicateReason` of src/core/iterationReasonDedup.ts). Lower case is an argument,
-- and the threshold is in hundredths; the similarity is compared as an exact quotient.
pub mod Severest
use xcoder.Prelude.{
  ℕ, zero, suc, ◌+◌, ◌-◌, ◌*◌, Bool, true, false, not, ◌&&◌, ◌||◌, Option, none, some, List, [],
  ◌∷◌, length, ltb, leb, ◌==◌, if◌then◌else◌, max, take, take_last,
}
use xcoder.Prelude.Text.{Text, trim, same_text, non_empty}
use xcoder.Health.Similarity.{edit_distance}

pub data MatchType : Type 0 where
  exact case_insensitive fuzzy : MatchType

pub record DedupOptions : Type 0 where
  pub fuzzy_threshold : ℕ
  pub short_string_min_length : ℕ
  pub enable_case_insensitive : Bool
  pub enable_fuzzy : Bool

abbrev pub default_options : DedupOptions
default_options = record {
  fuzzy_threshold = 85;
  short_string_min_length = 20;
  enable_case_insensitive = true;
  enable_fuzzy = true;
}

-- The similarity is 1 - distance / longer.
pub record Violation : Type 0 where
  pub reason : Text
  pub original_index : ℕ
  pub duplicate_index : ℕ
  pub match_type : MatchType
  pub distance : ℕ
  pub longer : ℕ
  pub penalty : ℕ

abbrev pub penalty_of : MatchType → ℕ
penalty_of exact = 25
penalty_of case_insensitive = 20
penalty_of fuzzy = 15

abbrev longest : Text → Text → ℕ
longest a b = max (length a) (length b)

-- `similarity >= threshold`
unfoldable pub similar : ℕ → Text → Text → Bool
similar threshold a b = leb (threshold * longest a b + 100 * edit_distance a b) (100 * longest a b)

-- The pass that catches an earlier reason, both reasons trimmed.
unfoldable pub match_reason : (Text → Text) → DedupOptions → Text → Text → Option MatchType
match_reason lower o new prev =
    if not (non_empty prev)
    then none
    else if same_text new prev
    then some exact
    else if o.enable_case_insensitive && same_text (lower new) (lower prev)
    then some case_insensitive
    else if not o.enable_fuzzy
    then none
    else if ltb (length new) o.short_string_min_length
        || ltb (length prev) o.short_string_min_length
    then none
    else if similar o.fuzzy_threshold new prev
    then some fuzzy
    else none

abbrev fuzzy_distance : MatchType → Text → Text → ℕ
fuzzy_distance exact new prev = 0
fuzzy_distance case_insensitive new prev = 0
fuzzy_distance fuzzy new prev = edit_distance new prev

unfoldable pub violation : ℕ → ℕ → Text → Text → MatchType → Violation
violation i count new prev t = record {
  reason = take 200 new;
  original_index = i;
  duplicate_index = count;
  match_type = t;
  distance = fuzzy_distance t new prev;
  longer = longest new prev;
  penalty = penalty_of t;
}

abbrev pub with_match : ℕ → ℕ → Text → Text → Option MatchType → List Violation → List Violation
with_match i count new prev none rest = rest
with_match i count new prev (some t) rest = violation i count new prev t ∷ rest

unfoldable pub violations_from :
    (Text → Text) → DedupOptions → ℕ → ℕ → Text → List Text → List Violation
violations_from lower o count i new [] = []
violations_from lower o count i new (p ∷ ps) =
    with_match i count new (trim p) (match_reason lower o new (trim p))
      (violations_from lower o count (suc i) new ps)

abbrev pub order : MatchType → ℕ
order exact = 0
order case_insensitive = 1
order fuzzy = 2

-- `violations.sort(...)`, which is stable
unfoldable pub insert : Violation → List Violation → List Violation
insert v [] = v ∷ []
insert v (w ∷ ws) =
    let rest = insert v ws in
    if leb (order v.match_type) (order w.match_type) then v ∷ w ∷ ws else w ∷ rest

unfoldable pub sort : List Violation → List Violation
sort [] = []
sort (v ∷ vs) = insert v (sort vs)

unfoldable pub check_duplicate_reason :
    (Text → Text) → DedupOptions → List Text → Text → List Violation
check_duplicate_reason lower o previous reason =
    let new = trim reason in
    if non_empty new then sort (violations_from lower o (length previous) 0 new previous) else []

-- `Math.max(...)` of the penalties, 0 if there is none
unfoldable pub max_duplicate_penalty : List Violation → ℕ
max_duplicate_penalty [] = 0
max_duplicate_penalty (v ∷ vs) = max v.penalty (max_duplicate_penalty vs)

-- `previousReasons.slice(-windowSize)`: a window of 0 is the whole list
unfoldable pub check_duplicate_reason_rolling :
    (Text → Text) → DedupOptions → ℕ → List Text → Text → List Violation
check_duplicate_reason_rolling lower o window previous reason =
    check_duplicate_reason lower o (if window == 0 then previous else take_last window previous)
      reason
