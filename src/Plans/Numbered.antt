-- ===== src/Plans/Numbered.antt =====
-- The orders of the tasks of a plan (src/tools/filePlanStore.ts).
use mathlib.Core.List.{append_assoc}
use xcoder.Prelude.{
  ℕ, suc, ◌+◌, ◌≡◌, refl, sym, ap, ◌∙◌, subst, Bool, true, false, ◌||◌, length-append, List, [],
  ◌∷◌, ◌++◌, length, arith,
}
use xcoder.Prelude.Text.{Text, same_text}
use xcoder.Plans.{PlanTask, has_task, new_task, new_tasks, splice, appended}

-- The orders count up from a number, as a saved plan has them.
abbrev pub CountsFrom : ℕ → List PlanTask → Type 0
CountsFrom i [] = Unit
CountsFrom i (t ∷ ts) = (t.order ≡ i) × CountsFrom (suc i) ts

new_tasks-CountsFrom :
    (task_id : ℕ → Text) (plan_id now : Text) (i : ℕ) (ds : List Text)
    → CountsFrom i (new_tasks task_id plan_id now i ds)
unfolding new_tasks new_task
new_tasks-CountsFrom task_id plan_id now i [] = tt
new_tasks-CountsFrom task_id plan_id now i (d ∷ ds) =
    (refl, new_tasks-CountsFrom task_id plan_id now (suc i) ds)

order_at :
    (i : ℕ) (xs : List PlanTask) (t : PlanTask) (ys : List PlanTask)
    → CountsFrom i (xs ++ t ∷ ys)
    → t.order ≡ i + length xs
order_at i [] t ys h = omega (arith, h.0)
order_at i (x ∷ xs) t ys h = omega (arith, order_at (suc i) xs t ys h.1)

or_false : (a b : Bool) → (a || b) ≡ false → (a ≡ false) × (b ≡ false)
or_false true b h = cc h
or_false false b h = (refl, h)

splice-front :
    (task_id : Text) (front : List PlanTask) (gone : PlanTask) (rest : List PlanTask)
    → has_task task_id front ≡ false
    → same_text gone.id task_id ≡ true
    → splice task_id (front ++ gone ∷ rest) ≡ front ++ rest
unfolding splice
splice-front task_id [] gone rest f same = rw same refl
splice-front task_id (t ∷ front) gone rest f same =
    let both = or_false (same_text t.id task_id) (has_task task_id front) f in
    rw both.0 (ap (λ l. t ∷ l) (splice-front task_id front gone rest both.1 same))

-- A task that is added after another one than the last was deleted gets the order of the last one, in a plan
-- whose orders count up from 0 as they do when it is saved.
pub splice-appended :
    (task_id id plan_id description now : Text) (front back : List PlanTask) (gone last : PlanTask)
    → CountsFrom 0 (front ++ gone ∷ (back ++ last ∷ []))
    → has_task task_id front ≡ false
    → same_text gone.id task_id ≡ true
    → appended id plan_id description now (splice task_id (front ++ gone ∷ (back ++ last ∷ [])))
      ≡ (front ++ (back ++ last ∷ [])) ++ new_task id plan_id description now last.order ∷ []
unfolding appended
splice-appended task_id id plan_id description now front back gone last h f same =
    ap (appended id plan_id description now)
      (splice-front task_id front gone (back ++ last ∷ []) f same)
    ∙ ap (λ n. (front ++ (back ++ last ∷ [])) ++ new_task id plan_id description now n ∷ []) count
  where
    shifted : CountsFrom 0 ((front ++ gone ∷ back) ++ last ∷ [])
    shifted = subst (CountsFrom 0) (sym (append_assoc front (gone ∷ back) (last ∷ []))) h

    count : length (front ++ (back ++ last ∷ [])) ≡ last.order
    count = omega (
      arith,
      length-append front (back ++ last ∷ []),
      length-append back (last ∷ []),
      length-append front (gone ∷ back),
      order_at 0 (front ++ gone ∷ back) last [] shifted,
    )
