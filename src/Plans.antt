-- ===== src/Plans.antt =====
-- The file store of plans (src/tools/filePlanStore.ts): the folder's files by the id in their name, none for
-- one that cannot be parsed. Ids and times are arguments.
pub mod Named
pub mod Numbered
mod Tests
use xcoder.Prelude.{
  ℕ, zero, suc, Bool, true, false, Option, none, some, List, [], ◌∷◌, ◌++◌, length, exists,
  if◌then◌else◌,
}
use xcoder.Prelude.Text.{Text, same_text}
use xcoder.Prelude.Keys.{Dict, text_keys, lookup, insert}

pub data TaskStatus : Type 0 where
  pending in_progress completed failed skipped : TaskStatus

pub data PlanStatus : Type 0 where
  is_active is_completed is_cancelled : PlanStatus

pub record PlanTask : Type 0 where
  pub id : Text
  pub plan_id : Text
  pub description : Text
  pub status : TaskStatus
  pub order : ℕ
  pub created_at : Text
  pub updated_at : Text

pub record Plan : Type 0 where
  pub id : Text
  pub task_description : Text
  pub plan_content : Text
  pub status : PlanStatus
  pub created_at : Text
  pub updated_at : Text

pub record PlanFile : Type 0 where
  pub plan : Plan
  pub tasks : List PlanTask

abbrev pub Folder : Type 0
Folder = Dict Text (Option PlanFile)

unfoldable pub new_task : Text → Text → Text → Text → ℕ → PlanTask
new_task id plan_id description now order = record {
  id = id;
  plan_id = plan_id;
  description = description;
  status = pending;
  order = order;
  created_at = now;
  updated_at = now;
}

unfoldable pub new_tasks : (ℕ → Text) → Text → Text → ℕ → List Text → List PlanTask
unfolding new_task
new_tasks task_id plan_id now i [] = []
new_tasks task_id plan_id now i (d ∷ ds) =
    new_task (task_id i) plan_id d now i ∷ new_tasks task_id plan_id now (suc i) ds

unfoldable pub write_plan_file : Text → PlanFile → Folder → Folder
write_plan_file id data_ folder = insert id (some data_) folder

unfoldable pub read_plan_file : Text → Folder → Option PlanFile
read_plan_file id folder = elim (lookup id folder) [ none ↦ none | some f ↦ f ]

abbrev pub new_plan : Text → Text → Text → Text → Plan
new_plan id now description content = record {
  id = id;
  task_description = description;
  plan_content = content;
  status = is_active;
  created_at = now;
  updated_at = now;
}

unfoldable pub save_plan :
    Text → (ℕ → Text) → Text → Text → Text → List Text → Folder → Plan × Folder
unfolding new_tasks write_plan_file
save_plan id task_id now description content tasks folder = (
  new_plan id now description content,
  write_plan_file id
      (record {
        plan = new_plan id now description content;
        tasks = new_tasks task_id id now 0 tasks;
      })
      folder,
)

unfoldable pub get_plan : Text → Folder → Option Plan × List PlanTask
unfolding read_plan_file
get_plan id folder = elim (read_plan_file id folder) [
  | none ↦ (none, [])
  | some f ↦ (some f.plan, f.tasks)
]

abbrev pub has_task : Text → List PlanTask → Bool
has_task task_id tasks = exists (λ t. same_text t.id task_id) tasks

-- The first readable file with the task, in the order of the folder.
unfoldable pub find_task_file : Text → Folder → Option PlanFile
find_task_file task_id [] = none
find_task_file task_id ((name, none) ∷ folder) = find_task_file task_id folder
find_task_file task_id ((name, some f) ∷ folder) =
    if has_task task_id f.tasks then some f else find_task_file task_id folder

-- `task.status = status` on the first task with this id
unfoldable pub set_status : Text → TaskStatus → Text → List PlanTask → List PlanTask
set_status task_id status now [] = []
set_status task_id status now (t ∷ ts) =
    let rest = set_status task_id status now ts in
    if same_text t.id task_id then record t { status = status; updated_at = now } ∷ ts else t ∷ rest

-- `tasks.splice(idx, 1)` at the first task with this id
unfoldable pub splice : Text → List PlanTask → List PlanTask
splice task_id [] = []
splice task_id (t ∷ ts) =
    let rest = splice task_id ts in if same_text t.id task_id then ts else t ∷ rest

abbrev pub change_found : (List PlanTask → List PlanTask) → Folder → Option PlanFile → Bool × Folder
change_found change folder none = (false, folder)
change_found change folder (some f) =
    (true, write_plan_file f.plan.id (record f { tasks = change f.tasks }) folder)

unfoldable pub update_task_status : Text → TaskStatus → Text → Folder → Bool × Folder
unfolding find_task_file set_status write_plan_file
update_task_status task_id status now folder =
    change_found (set_status task_id status now) folder (find_task_file task_id folder)

unfoldable pub delete_task : Text → Folder → Bool × Folder
unfolding find_task_file splice write_plan_file
delete_task task_id folder = change_found (splice task_id) folder (find_task_file task_id folder)

-- `order: data.tasks.length`
unfoldable pub appended : Text → Text → Text → Text → List PlanTask → List PlanTask
unfolding new_task
appended id plan_id description now tasks =
    tasks ++ new_task id plan_id description now (length tasks) ∷ []

abbrev pub add_found :
    Text → Text → Text → Text → Folder → Option PlanFile → Option PlanTask × Folder
add_found id plan_id description now folder none = (none, folder)
add_found id plan_id description now folder (some f) = (
  some (new_task id plan_id description now (length f.tasks)),
  write_plan_file plan_id (record f { tasks = appended id plan_id description now f.tasks }) folder,
)

unfoldable pub add_task : Text → Text → Text → Text → Folder → Option PlanTask × Folder
unfolding read_plan_file appended write_plan_file
add_task id plan_id description now folder =
    add_found id plan_id description now folder (read_plan_file plan_id folder)
