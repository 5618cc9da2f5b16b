-- ===== src/Sync/Tasks.antt =====
-- tasks.repository.ts, and syncTask of tasks.service.ts.
use clickup_sync.Common.{
  ℕ, suc, String, Bool, true, false, not, ◌&&◌, Option, none, some, List, [], ◌∷◌, ◌++◌, ◌===◌,
  if◌then◌else◌, find_first, update_unique, update_many, Action, ◌>>=◌, gets, modify, or_throw,
  not_found,
}
use clickup_sync.Sync.Store.{NormalizedTask, TaskRow, SyncDb, Clickup, is_some, is_text_id}

-- `delete update.field` where the incoming value is null.
abbrev pub keep_known : Option String → Option String → Option String
keep_known none existing = existing
keep_known (some incoming) existing = some incoming

module _ {Details : Type 0} where
  abbrev pub has_task_id : String → TaskRow Details → Bool
  has_task_id id row = row.task.task_id === id

  abbrev pub update_row : NormalizedTask Details → TaskRow Details → TaskRow Details
  update_row task row = record {
    task = record task {
      space_name = keep_known task.space_name row.task.space_name;
      space_id = keep_known task.space_id row.task.space_id;
      markdown_description = keep_known task.markdown_description row.task.markdown_description;
    };
    is_deleted = false;
    deleted_at = none;
    sync_count = suc row.sync_count;
  }

  abbrev pub new_row : NormalizedTask Details → TaskRow Details
  new_row task = record { task = task; is_deleted = false; deleted_at = none; sync_count = 1 }

  abbrev pub upsert_row : NormalizedTask Details → List (TaskRow Details) → List (TaskRow Details)
  upsert_row task rows =
      if is_some (find_first (has_task_id task.task_id) rows)
      then update_unique (has_task_id task.task_id) (update_row task) rows
      else rows ++ (new_row task ∷ [])

  abbrev pub set_deleted : ℕ → TaskRow Details → TaskRow Details
  set_deleted now row = record row {
    is_deleted = true;
    deleted_at = some now;
    sync_count = suc row.sync_count;
  }

  -- `unknown` is the row of a task that was never stored, named 'Unknown Task'.
  abbrev pub soft_delete_row :
      (String → NormalizedTask Details)
      → String
      → ℕ
      → List (TaskRow Details)
      → List (TaskRow Details)
  soft_delete_row unknown id now rows =
      if is_some (find_first (has_task_id id) rows)
      then update_unique (has_task_id id) (set_deleted now) rows
      else rows
        ++ (record { task = unknown id; is_deleted = true; deleted_at = some now; sync_count = 0 }
            ∷ [])

  abbrev pub nameless_in : String → TaskRow Details → Bool
  nameless_in space row = is_text_id space row.task.space_id && not (is_some row.task.space_name)

module _ {Hours Details : Type 0} where
  unfoldable pub upsert : NormalizedTask Details → Action (SyncDb Hours Details) (Unit {0})
  upsert task = modify (λ s. record s { tasks = upsert_row task s.tasks })

  unfoldable pub soft_delete :
      (String → NormalizedTask Details) → String → ℕ → Action (SyncDb Hours Details) (Unit {0})
  soft_delete unknown id now =
      modify (λ s. record s { tasks = soft_delete_row unknown id now s.tasks })

  unfoldable pub patch_space_names : String → String → Action (SyncDb Hours Details) (Unit {0})
  patch_space_names space name = modify (λ s. record s {
    tasks =
        update_many (nameless_in space)
          (λ row. record row { task = record (row.task) { space_name = some name } }) s.tasks;
  })

  abbrev pub exists : String → Action (SyncDb Hours Details) Bool
  exists id = gets (λ s. is_some (find_first (has_task_id id) s.tasks))

  unfoldable pub sync_task :
      Clickup Hours Details → String → Action (SyncDb Hours Details) (Unit {0})
  sync_task clickup id = do task ← or_throw (clickup.get_task id) (not_found "task"); upsert task
