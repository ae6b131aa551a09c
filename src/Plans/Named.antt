-- ===== src/Plans/Named.antt =====
-- Every file of the folder is named by its plan (src/tools/filePlanStore.ts).
use xcoder.Prelude.{ℕ, ◌≡◌, Option, none, some, List, [], ◌∷◌, All}
use xcoder.Prelude.Text.{Text}
use xcoder.Prelude.Keys.{text_keys}
use xcoder.Plans.{
  TaskStatus, PlanFile, Folder, save_plan, update_task_status, delete_task, add_task,
}

pub data Change : Type 0 where
  saves : Text → (ℕ → Text) → Text → Text → Text → List Text → Change
  adds : Text → Text → Text → Text → Change
  updates : Text → TaskStatus → Text → Change
  deletes : Text → Change

unfoldable pub perform : Change → Folder → Folder
perform (saves id task_id now description content tasks) folder =
    (save_plan id task_id now description content tasks folder).1
perform (adds id plan_id description now) folder = (add_task id plan_id description now folder).1
perform (updates task_id status now) folder = (update_task_status task_id status now folder).1
perform (deletes task_id) folder = (delete_task task_id folder).1

unfoldable pub perform_all : List Change → Folder → Folder
perform_all [] folder = folder
perform_all (c ∷ cs) folder = perform_all cs (perform c folder)

-- The plan and all its tasks carry the id that names the file.
pub record Belongs (id : Text) (f : PlanFile) : Type 0 where
  pub plan_named : f.plan.id ≡ id
  pub tasks_named : All (λ t. t.plan_id ≡ id) f.tasks

abbrev pub EntryNamed : Text → Option PlanFile → Type 0
EntryNamed name none = Unit
EntryNamed name (some f) = Belongs name f

abbrev pub Named : Folder → Type 0
Named folder = All (λ e. EntryNamed e.0 e.1) folder

-- What is found belongs to its own plan.
abbrev Own : Option PlanFile → Type 0
Own none = Unit
Own (some f) = Belongs f.plan.id f

abbrev unwrapped : Option (Option PlanFile) → Option PlanFile
unwrapped none = none
unwrapped (some f) = f
