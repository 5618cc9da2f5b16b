-- ===== src/Sync/JobTests.antt =====
-- Jobs of three tasks, the first of which is stored.
use clickup_sync.Common.{
  ℕ, ◌*◌, ◌≡◌, refl, String, Bool, true, false, Option, none, some, List, [], ◌∷◌, ◌===◌, map,
  if◌then◌else◌,
}
use clickup_sync.Sync.Store.{TaskRow, SyncDb, Clickup}
use clickup_sync.Sync.Tasks.{sync_task, upsert, soft_delete}
use clickup_sync.Sync.TimeEntries.{delete_by_task_id}
use clickup_sync.Sync.Tests.{task_of, db, clickup, prefs}
use clickup_sync.Sync.Reconciliation.{
  TaskJob, delete_clickup_task, sync_clickup_task, reconcile_clickup_task, process, process_all,
}
use clickup_sync.Sync.Kept.{HoldsIn}
use clickup_sync.Sync.Jobs.{process_all-HoldsIn}

abbrev first : TaskRow ℕ
first = record {
  task = record (task_of "t1") { space_name = some "Work" };
  is_deleted = false;
  deleted_at = none;
  sync_count = 1;
}

abbrev named : SyncDb ℕ ℕ
named = record db { tasks = first ∷ [] }

-- ClickUp answers 404 for `t3`.
abbrev without_t3 : Clickup ℕ ℕ
without_t3 = record clickup {
  get_task = λ id. if id === "t3" then none else some (task_of id);
  is_gone = λ id. id === "t3";
}

abbrev jobs : List (Clickup ℕ ℕ × ℕ × TaskJob)
jobs =
    (without_t3, 10000, sync_clickup_task "t1")
    ∷ (without_t3, 11000, sync_clickup_task "t3")
    ∷ (without_t3, 12000, delete_clickup_task "t2")
    ∷ (without_t3, 13000, reconcile_clickup_task "t3" 1000 9000)
    ∷ []

abbrev after : SyncDb ℕ ℕ
after =
    process_all task_of (λ name. name) (λ name. name) (λ cents hours. cents * hours) prefs []
      (λ job. true) jobs named

abbrev shown : TaskRow ℕ → String × Option String × Bool
shown row = (row.task.task_id, row.task.space_name, row.is_deleted)

after-rows :
    map shown after.tasks
    ≡ ("t1", some "Work", false) ∷ ("t2", none, true) ∷ ("t3", none, true) ∷ []
unfolding process sync_task upsert soft_delete delete_by_task_id
after-rows = refl

process_all-HoldsIn_example : HoldsIn "t1" after.tasks
process_all-HoldsIn_example =
    process_all-HoldsIn task_of (λ name. name) (λ name. name) (λ cents hours. cents * hours) prefs
      [] (λ job. true) "t1" jobs named (refl, (refl, (refl, (refl, tt))))
      (first, refl, (refl, refl))
