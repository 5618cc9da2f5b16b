-- ===== src/Sync/Handlers.antt =====
-- syncTaskTimeEntries and reconcileWindow of time-entries.service.ts, whole.
use clickup_sync.Common.{
  ℕ, String, Bool, true, false, Option, none, some, List, [], ◌∷◌, ltb, if◌then◌else◌, length, map,
  Action, ◌>>=◌, ◌>>◌, gets, pure, or_throw, internal_error,
}
use clickup_sync.Rates.Table.{RateRow}
use clickup_sync.Cost.Calculator.{CostPreferences}
use clickup_sync.Sync.Store.{EntryRow, SyncDb, ClickupTimeEntry, Clickup, ReplacementJob}
use clickup_sync.Sync.TimeEntries.{
  resolve_window, prune_safety_max_entries, in_slice, in_space_slice, prune, ensure_task_exists,
}
use clickup_sync.Sync.Service.{Upserted, persist_entries, enqueue_tag_replacements}

-- `assigneeIds && assigneeIds.length > 0 ? assigneeIds : members`
abbrev pub users_of : List String → Option (List String) → List String
users_of members none = members
users_of members (some []) = members
users_of members (some (id ∷ ids)) = id ∷ ids

module _ {Hours Details : Type 0} where
  abbrev pub kept_ids : List (Upserted Hours Details) → List String
  kept_ids upserted = map (λ (u : Upserted Hours Details). u.normalized.time_entry_id) upserted

  -- A read that may be cut short prunes nothing.
  abbrev pub prune_unless_truncated :
      List (ClickupTimeEntry Hours Details)
      → (EntryRow Hours Details → Bool)
      → List (Upserted Hours Details)
      → Action (SyncDb Hours Details) (Unit {0})
  prune_unless_truncated fetched slice upserted =
      if ltb (length fetched) prune_safety_max_entries
      then prune slice (kept_ids upserted)
      else pure tt

  module _ (tag_name to_lower_case : String → String) (rounded_product : ℕ → Hours → ℕ)
      (prefs : CostPreferences) (rates : List RateRow) (takes : ReplacementJob Hours Details → Bool)
      (clickup : Clickup Hours Details) where
    -- What is fetched is stored, the slice is pruned, and replacements are enqueued.
    abbrev pub reconcile :
        (EntryRow Hours Details → Bool)
        → Option String
        → List (ClickupTimeEntry Hours Details)
        → Action (SyncDb Hours Details) ℕ
    reconcile slice fallback fetched = do
      upserted ← persist_entries tag_name rounded_product prefs rates clickup fetched
      prune_unless_truncated fetched slice upserted
      enqueue_tag_replacements takes to_lower_case upserted fallback
      pure (length upserted)

    abbrev pub sync_known : Bool → String → List String → ℕ × ℕ → Action (SyncDb Hours Details) ℕ
    sync_known false task users window = pure 0
    sync_known true task users window = do
      fetched ← or_throw (clickup.get_time_entries task users window.0 window.1) internal_error
      reconcile (in_slice task users window) (some task) fetched

    unfoldable pub sync_task_time_entries :
        String → Option (List String) → Option ℕ → Option ℕ → ℕ → Action (SyncDb Hours Details) ℕ
    sync_task_time_entries task assignees start_date end_date now = do
      known ← ensure_task_exists clickup task
      sync_known known task (users_of clickup.member_ids assignees)
          (resolve_window start_date end_date now)

    -- The rows of the space are those of the tasks at the time of the pruning.
    abbrev pub prune_space :
        List (ClickupTimeEntry Hours Details)
        → String
        → ℕ × ℕ
        → List (Upserted Hours Details)
        → Action (SyncDb Hours Details) (Unit {0})
    prune_space fetched space window upserted = do
      tasks ← gets (λ s. s.tasks)
      prune_unless_truncated fetched (in_space_slice tasks space clickup.member_ids window) upserted

    unfoldable pub reconcile_window : String → ℕ → ℕ → Action (SyncDb Hours Details) ℕ
    reconcile_window space start_ms end_ms = do
      fetched ←
          or_throw (clickup.get_time_entries_window space clickup.member_ids start_ms end_ms)
            internal_error
      upserted ← persist_entries tag_name rounded_product prefs rates clickup fetched
      prune_space fetched space (start_ms, end_ms) upserted
      enqueue_tag_replacements takes to_lower_case upserted none
      pure (length upserted)
