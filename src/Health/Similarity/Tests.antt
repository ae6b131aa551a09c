-- ===== src/Health/Similarity/Tests.antt =====
-- Two reasons and their distance (src/core/iterationReasonDedup.ts).
use xcoder.Prelude.{◌≡◌, []}
use xcoder.Prelude.Text.{codes}
use xcoder.Health.Similarity.{edit_distance}
use xcoder.Health.Similarity.Levenshtein.{levenshtein, reverse_onto, edit_distance-levenshtein}

edit_distance-levenshtein_example :
    edit_distance (codes "sit") (codes "kitten")
    ≡ levenshtein (reverse_onto (codes "sit") []) (reverse_onto (codes "kitten") [])
edit_distance-levenshtein_example = edit_distance-levenshtein (codes "sit") (codes "kitten")
