-- ===== src/Sdlc/Run/Put.antt =====
-- Writing a node back into the DAG: what changes, and how many nodes are still pending.
use xcoder.Prelude.{
  ℕ, suc, ◌≤◌, ◌≡◌, ◌≢◌, refl, sym, ◌∙◌, ap, subst, ◌⊎◌, inl, inr, Bool, true, false, List, [], ◌∷◌,
  str_eq, eq_iff, arith, if◌then◌else◌, if-both, All, keep,
}
use xcoder.Sdlc.Stage.{Status, SdlcNode}
use xcoder.Sdlc.Run.{is_status, put_node}

unfoldable pub pending_count : List SdlcNode → ℕ
pending_count [] = 0
pending_count (n ∷ rest) =
    if is_status Status.pending n then suc (pending_count rest) else pending_count rest

abbrev pub Has : SdlcNode → List SdlcNode → Type 0
Has n [] = ⊥
Has n (m ∷ rest) = (m ≡ n) ⊎ Has n rest

-- No id comes twice.
abbrev pub Distinct : List SdlcNode → Type 0
Distinct [] = Unit
Distinct (m ∷ rest) = ((n : SdlcNode) → Has n rest → m.id ≢ n.id) × Distinct rest

pub put-put :
    (a b : SdlcNode) (dag : List SdlcNode)
    → a.id ≡ b.id
    → put_node b (put_node a dag) ≡ put_node b dag
unfolding put_node
put-put a b [] e = refl
put-put a b (m ∷ rest) e =
    ground (arith, put-put a b rest e, eq_iff m.id a.id, eq_iff m.id b.id, eq_iff a.id b.id)

pub put-All {κ} :
    (P : SdlcNode → Type κ) (n : SdlcNode) (dag : List SdlcNode)
    → P n
    → All P dag
    → All P (put_node n dag)
unfolding put_node
put-All P n [] p h = h
put-All P n (m ∷ rest) p h =
    if-both (All P) (str_eq m.id n.id) (λ _. (p, h.1)) (λ _. (h.0, put-All P n rest p h.1))

-- A node that is not pending never makes more nodes pending.
pub pending-put-le :
    (n : SdlcNode) (dag : List SdlcNode)
    → is_status Status.pending n ≡ false
    → pending_count (put_node n dag) ≤ pending_count dag
unfolding put_node pending_count
pending-put-le n [] h = omega arith
pending-put-le n (m ∷ rest) h = ground (arith, pending-put-le n rest h)

-- In the place of a pending node it makes one fewer.
pub pending-put :
    (n n' : SdlcNode) (dag : List SdlcNode)
    → Distinct dag
    → Has n dag
    → is_status Status.pending n ≡ true
    → n'.id ≡ n.id
    → is_status Status.pending n' ≡ false
    → suc (pending_count (put_node n' dag)) ≡ pending_count dag
unfolding put_node pending_count
pending-put n n' [] d h p e q = absurd h
pending-put n n' (m ∷ rest) d (inl same) p e q =
    ground (arith, eq_iff m.id n'.id, ap (λ (k : SdlcNode). k.id) same)
pending-put n n' (m ∷ rest) d (inr later) p e q =
    ground (arith, eq_iff m.id n'.id, d.0 n later, pending-put n n' rest d.1 later p e q)

-- The ids stay, so they stay distinct.
pub Has-put :
    (n' n : SdlcNode) (dag : List SdlcNode)
    → Has n (put_node n' dag)
    → (m : SdlcNode) × Has m dag × (m.id ≡ n.id)
unfolding put_node
Has-put n' n [] = λ h. absurd h
Has-put n' n (m ∷ rest) =
    if-both (λ l. Has n l → (k : SdlcNode) × Has k (m ∷ rest) × (k.id ≡ n.id)) (str_eq m.id n'.id)
      (λ e h. elim h [
        | inl same ↦ (m, inl refl, (eq_iff m.id n'.id).0 e ∙ ap (λ (k : SdlcNode). k.id) same)
        | inr later ↦ (n, inr later, refl)
      ])
      (λ _ h. elim h [
        | inl same ↦ (m, inl refl, ap (λ (k : SdlcNode). k.id) same)
        | inr later ↦ let (k, has, e) = Has-put n' n rest later in (k, inr has, e)
      ])

pub Distinct-put : (n : SdlcNode) (dag : List SdlcNode) → Distinct dag → Distinct (put_node n dag)
unfolding put_node
Distinct-put n [] d = d
Distinct-put n (m ∷ rest) d =
    if-both Distinct (str_eq m.id n.id)
      (λ e. (λ k has p. d.0 k has ((eq_iff m.id n.id).0 e ∙ p), d.1))
      (λ _. (
        (λ k has p. let (j, h, q) = Has-put n k rest has in d.0 j h (p ∙ sym q)),
        Distinct-put n rest d.1,
      ))

pub Has-keep :
    (p : SdlcNode → Bool) (n : SdlcNode) (dag : List SdlcNode)
    → Has n (keep p dag)
    → Has n dag × (p n ≡ true)
Has-keep p n [] = λ h. absurd h
Has-keep p n (m ∷ rest) =
    if-both (λ l. Has n l → Has n (m ∷ rest) × (p n ≡ true)) (p m)
      (λ e h. elim h [
        | inl same ↦ (inl same, subst (λ k. p k ≡ true) same e)
        | inr later ↦ let (has, t) = Has-keep p n rest later in (inr has, t)
      ])
      (λ _ h. let (has, t) = Has-keep p n rest h in (inr has, t))
