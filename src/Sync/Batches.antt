-- ===== src/Sync/Batches.antt =====
-- The batches of tasks.service.ts with the reads of tasks.repository.ts that they need.
use clickup_sync.Common.{
  ℕ, suc, String, not, Option, none, some, List, [], ◌∷◌, find_first, find_many, Action, recover,
  ◌+◌, ◌>>=◌, pure, gets,
}
use clickup_sync.Sync.Store.{NormalizedTask, SyncDb, Clickup, is_some}
use clickup_sync.Sync.Tasks.{has_task_id, upsert, sync_task}

module _ {Hours Details : Type 0} where
  -- A task that the normaliser refuses is none: it is skipped, and the others are stored.
  abbrev pub sync_tasks : List (Option (NormalizedTask Details)) → Action (SyncDb Hours Details) ℕ
  sync_tasks [] = pure 0
  sync_tasks (none ∷ tasks) = sync_tasks tasks
  sync_tasks (some task ∷ tasks) = do _ ← upsert task; count ← sync_tasks tasks; pure (suc count)

  abbrev pub find_missing_parent_ids : List String → Action (SyncDb Hours Details) (List String)
  find_missing_parent_ids ids =
      gets (λ s. find_many (λ id. not (is_some (find_first (has_task_id id) s.tasks))) ids)

  -- A parent that cannot be fetched is skipped.
  abbrev pub sync_each : Clickup Hours Details → List String → Action (SyncDb Hours Details) ℕ
  sync_each clickup [] = pure 0
  sync_each clickup (id ∷ ids) = do
    synced ← recover (do _ ← sync_task clickup id; pure 1) (pure 0)
    rest ← sync_each clickup ids
    pure (synced + rest)

  unfoldable pub sync_missing_parents :
      Clickup Hours Details → List String → Action (SyncDb Hours Details) ℕ
  sync_missing_parents clickup ids = do
    missing ← find_missing_parent_ids ids
    sync_each clickup missing
