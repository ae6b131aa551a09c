-- ===== src/Health/Similarity.antt =====
-- The edit distance of two reasons (`levenshteinSimilarity` of src/core/iterationReasonDedup.ts). The
-- similarity is 1 - distance / longer, and the pair of these numbers stands for it.
pub mod Levenshtein
mod Tests
use xcoder.Prelude.{
  ℕ, zero, suc, ◌+◌, Bool, List, [], ◌∷◌, length, ltb, ◌==◌, if◌then◌else◌, min, max,
}
use xcoder.Prelude.Text.{Text}

abbrev pub cost : ℕ → ℕ → ℕ
cost x y = if x == y then 0 else 1

-- The smallest of three.
abbrev pub cell : ℕ → ℕ → ℕ → ℕ
cell a b c = min (min a b) c

-- The rest of a row, from the cell on the left, the cell above that one, and the rest of the row above.
unfoldable pub cells : ℕ → ℕ → ℕ → Text → List ℕ → List ℕ
cells x left diagonal [] ups = []
cells x left diagonal (y ∷ b) [] = []
cells x left diagonal (y ∷ b) (up ∷ ups) =
    let c = cell (up + 1) (left + 1) (diagonal + cost x y) in c ∷ cells x c up b ups

unfoldable pub next_row : ℕ → ℕ → Text → List ℕ → List ℕ
next_row i x b [] = i ∷ []
next_row i x b (d ∷ ups) = i ∷ cells x i d b ups

unfoldable pub rows : ℕ → Text → Text → List ℕ → List ℕ
rows i [] b row = row
rows i (x ∷ a) b row = rows (suc i) a b (next_row i x b row)

-- 0, 1, ... up to the length of `b`
unfoldable pub first_row : ℕ → Text → List ℕ
first_row j [] = j ∷ []
first_row j (y ∷ b) = j ∷ first_row (suc j) b

abbrev pub last_cell : List ℕ → ℕ
last_cell [] = 0
last_cell (c ∷ []) = c
last_cell (c ∷ d ∷ cs) = last_cell (d ∷ cs)

unfoldable pub distance : Text → Text → ℕ
distance a b = last_cell (rows 1 a b (first_row 0 b))

-- the shorter text is the second one
unfoldable pub edit_distance : Text → Text → ℕ
edit_distance a b = if ltb (length a) (length b) then distance b a else distance a b
