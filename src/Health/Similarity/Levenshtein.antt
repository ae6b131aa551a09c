-- ===== src/Health/Similarity/Levenshtein.antt =====
-- The row by row computation against the recursive definition (src/core/iterationReasonDedup.ts).
use xcoder.Prelude.{
  ℕ, suc, ◌+◌, ◌≡◌, refl, ap, ◌∙◌, List, [], ◌∷◌, length, ltb, if-both, arith, min, ◌==◌,
  if◌then◌else◌,
}
use xcoder.Prelude.Text.{Text}
use xcoder.Health.Similarity.{
  cost, cell, cells, next_row, rows, first_row, last_cell, distance, edit_distance,
}

-- The edit distance by its recursion on the two texts, read from their ends.
unfoldable pub levenshtein : Text → Text → ℕ
levenshtein [] t = length t
levenshtein (x ∷ s) [] = suc (length s)
levenshtein (x ∷ s) (y ∷ t) =
    min (min (levenshtein s (y ∷ t) + 1) (levenshtein (x ∷ s) t + 1))
      (levenshtein s t + (if x == y then 0 else 1))

abbrev pub reverse_onto : Text → Text → Text
reverse_onto [] q = q
reverse_onto (y ∷ b) q = reverse_onto b (y ∷ q)

-- the distances from `p` to the beginnings of `b` that are longer than `q`, all reversed
row_after : Text → Text → Text → List ℕ
row_after p q [] = []
row_after p q (y ∷ b) = levenshtein p (y ∷ q) ∷ row_after p (y ∷ q) b

cells-levenshtein :
    (x : ℕ) (p q b : Text)
    → cells x (levenshtein (x ∷ p) q) (levenshtein p q) b (row_after p q b) ≡ row_after (x ∷ p) q b
unfolding cells row_after levenshtein
cells-levenshtein x p q [] = refl
cells-levenshtein x p q (y ∷ b) =
    ap (λ r. levenshtein (x ∷ p) (y ∷ q) ∷ r) (cells-levenshtein x p (y ∷ q) b)

abbrev row : Text → Text → List ℕ
row p b = levenshtein p [] ∷ row_after p [] b

next_row-levenshtein :
    (x : ℕ) (p b : Text) → next_row (suc (length p)) x b (row p b) ≡ row (x ∷ p) b
unfolding next_row levenshtein
next_row-levenshtein x p b = ap (λ r. suc (length p) ∷ r) (cells-levenshtein x p [] b)

rows-levenshtein : (a p b : Text) → rows (suc (length p)) a b (row p b) ≡ row (reverse_onto a p) b
unfolding rows
rows-levenshtein [] p b = refl
rows-levenshtein (x ∷ a) p b =
    ap (rows (suc (suc (length p))) a b) (next_row-levenshtein x p b) ∙ rows-levenshtein a (x ∷ p) b

first_row-levenshtein : (q b : Text) → first_row (length q) b ≡ levenshtein [] q ∷ row_after [] q b
unfolding first_row row_after levenshtein
first_row-levenshtein q [] = refl
first_row-levenshtein q (y ∷ b) = ap (λ r. length q ∷ r) (first_row-levenshtein (y ∷ q) b)

last_cell-row :
    (p q b : Text)
    → last_cell (levenshtein p q ∷ row_after p q b) ≡ levenshtein p (reverse_onto b q)
unfolding row_after
last_cell-row p q [] = refl
last_cell-row p q (y ∷ b) = last_cell-row p (y ∷ q) b

distance-levenshtein :
    (a b : Text) → distance a b ≡ levenshtein (reverse_onto a []) (reverse_onto b [])
unfolding distance
distance-levenshtein a b =
    ap (λ r. last_cell (rows 1 a b r)) (first_row-levenshtein [] b)
    ∙ ap last_cell (rows-levenshtein a [] b)
    ∙ last_cell-row (reverse_onto a []) [] b

cell-swap :
    (a b c x y : ℕ) → cell (a + 1) (b + 1) (c + cost x y) ≡ cell (b + 1) (a + 1) (c + cost y x)
cell-swap a b c x y = ground arith

same_cell :
    (a a' b b' c c' k : ℕ)
    → a ≡ a'
    → b ≡ b'
    → c ≡ c'
    → cell (a + 1) (b + 1) (c + k) ≡ cell (a' + 1) (b' + 1) (c' + k)
same_cell a a' b b' c c' k e f g = cc

levenshtein_sym : (s t : Text) → levenshtein s t ≡ levenshtein t s
unfolding levenshtein
levenshtein_sym [] [] = refl
levenshtein_sym [] (y ∷ t) = refl
levenshtein_sym (x ∷ s) [] = refl
levenshtein_sym (x ∷ s) (y ∷ t) =
    same_cell _ _ _ _ _ _ (cost x y) (levenshtein_sym s (y ∷ t)) (levenshtein_sym (x ∷ s) t)
      (levenshtein_sym s t)
    ∙ cell-swap (levenshtein (y ∷ t) s) (levenshtein t (x ∷ s)) (levenshtein t s) x y

-- The computation with two rows, the shorter text across, is the edit distance of the two texts.
pub edit_distance-levenshtein :
    (a b : Text) → edit_distance a b ≡ levenshtein (reverse_onto a []) (reverse_onto b [])
unfolding edit_distance
edit_distance-levenshtein a b =
    if-both (λ n. n ≡ levenshtein (reverse_onto a []) (reverse_onto b []))
      (ltb (length a) (length b))
      (λ _. distance-levenshtein b a ∙ levenshtein_sym (reverse_onto b []) (reverse_onto a []))
      (λ _. distance-levenshtein a b)
