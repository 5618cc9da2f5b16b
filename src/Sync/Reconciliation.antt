-- ===== src/Sync/Reconciliation.antt =====
-- task-reconciliation.service.ts, and the jobs of task-sync.processor.ts. The log of the jobs is not
-- modelled.
use clickup_sync.Common.{
  ℕ, String, Bool, true, false, Option, none, some, List, [], ◌∷◌, Action, ◌>>=◌, pure, throw,
  not_found,
}
use clickup_sync.Rates.Table.{RateRow}
use clickup_sync.Cost.Calculator.{CostPreferences}
use clickup_sync.Sync.Store.{NormalizedTask, SyncDb, Clickup, ReplacementJob}
use clickup_sync.Sync.Tasks.{upsert, soft_delete, exists}
use clickup_sync.Sync.Batches.{sync_tasks}
use clickup_sync.Sync.TimeEntries.{delete_by_task_id}
use clickup_sync.Sync.Handlers.{sync_task_time_entries}

pub data TaskJob : Type 0 where
  delete_clickup_task sync_clickup_task : String → TaskJob
  reconcile_clickup_task : String → (start_date end_date : ℕ) → TaskJob

module _ {Hours Details : Type 0} (unknown : String → NormalizedTask Details) where
  -- The tracked time goes first, and the row of the task is marked.
  abbrev pub drop_task : String → ℕ → Action (SyncDb Hours Details) (Unit {0})
  drop_task id now = do _ ← delete_by_task_id id; soft_delete unknown id now

  abbrev pub drop_if_stored : Bool → String → ℕ → Action (SyncDb Hours Details) (Unit {0})
  drop_if_stored true id now = drop_task id now
  drop_if_stored false id now = pure tt

  -- A 404 of a task that was never stored is skipped.
  abbrev pub sync_missing : Bool → String → ℕ → Action (SyncDb Hours Details) (Unit {0})
  sync_missing false id now = throw (not_found "task")
  sync_missing true id now = do stored ← exists id; drop_if_stored stored id now

  abbrev pub sync_answer :
      Bool → String → ℕ → Option (NormalizedTask Details) → Action (SyncDb Hours Details) (Unit {0})
  sync_answer gone id now none = sync_missing gone id now
  sync_answer gone id now (some task) = upsert task

  abbrev pub reconcile_missing : Bool → String → ℕ → Action (SyncDb Hours Details) (Unit {0})
  reconcile_missing false id now = throw (not_found "task")
  reconcile_missing true id now = drop_task id now

  module _ (tag_name to_lower_case : String → String) (rounded_product : ℕ → Hours → ℕ)
      (prefs : CostPreferences) (rates : List RateRow)
      (takes : ReplacementJob Hours Details → Bool) where
    abbrev pub reconcile_answer :
        Clickup Hours Details
        → String
        → ℕ
        → ℕ
        → ℕ
        → Option (NormalizedTask Details)
        → Action (SyncDb Hours Details) (Unit {0})
    reconcile_answer clickup id start_ms end_ms now none =
        reconcile_missing (clickup.is_gone id) id now
    reconcile_answer clickup id start_ms end_ms now (some task) = do
      _ ← sync_tasks (some task ∷ [])
      _ ←
          sync_task_time_entries tag_name to_lower_case rounded_product prefs rates takes clickup id
            none (some start_ms) (some end_ms) now
      pure tt

    abbrev pub reconcile_task :
        Clickup Hours Details → String → ℕ → ℕ → ℕ → Action (SyncDb Hours Details) (Unit {0})
    reconcile_task clickup id start_ms end_ms now =
        reconcile_answer clickup id start_ms end_ms now (clickup.get_task id)

    unfoldable pub process :
        Clickup Hours Details → ℕ → TaskJob → Action (SyncDb Hours Details) (Unit {0})
    process clickup now (delete_clickup_task id) = drop_task id now
    process clickup now (sync_clickup_task id) =
        sync_answer (clickup.is_gone id) id now (clickup.get_task id)
    process clickup now (reconcile_clickup_task id start_ms end_ms) =
        reconcile_task clickup id start_ms end_ms now

    -- The jobs one after another, each with its answers of ClickUp and its time.
    abbrev pub process_all :
        List (Clickup Hours Details × ℕ × TaskJob) → SyncDb Hours Details → SyncDb Hours Details
    process_all [] s = s
    process_all ((clickup, now, job) ∷ jobs) s = process_all jobs (process clickup now job s).1
