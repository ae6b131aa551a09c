-- ===== src/Plans/Tests.antt =====
-- Runs of the plan store (src/tools/filePlanStore.ts).
use xcoder.Prelude.{ℕ, ◌+◌, ◌≡◌, refl, List, [], ◌∷◌, map}
use xcoder.Prelude.Text.{Text, codes}
use xcoder.Prelude.Keys.{text_keys, lookup, insert}
use xcoder.Plans.{
  PlanTask, completed, save_plan, update_task_status, delete_task, add_task, get_plan,
}
use xcoder.Plans.Named.{Change, saves, adds, updates, deletes, perform, perform_all, Named}

abbrev task_id : ℕ → Text
task_id i = (i + 48) ∷ []

abbrev history : List Change
history =
    saves (codes "p") task_id (codes "now") (codes "d") (codes "c") (codes "x" ∷ codes "y" ∷ [])
    ∷ deletes (codes "0")
    ∷ adds (codes "2") (codes "p") (codes "z") (codes "now")
    ∷ updates (codes "2") completed (codes "later")
    ∷ []

-- Two tasks with the same order.
orders-history : map (λ t. t.order) (get_plan (codes "p") (perform_all history [])).1 ≡ 1 ∷ 1 ∷ []
unfolding get_plan lookup perform_all perform update_task_status add_task delete_task save_plan
    insert
orders-history = refl

abbrev task : Text → ℕ → PlanTask
task id order = record {
  id = id;
  plan_id = codes "p";
  description = [];
  status = completed;
  order = order;
  created_at = [];
  updated_at = [];
}
