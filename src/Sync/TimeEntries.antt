-- ===== src/Sync/TimeEntries.antt =====
-- time-entries.service.ts over time-entries.repository.ts, and the window of time-entries.util.ts.
use clickup_sync.Common.{
  ℕ, ◌-◌, ◌*◌, String, Bool, true, false, not, ◌&&◌, ◌||◌, Option, none, some, List, [], ◌∷◌, ◌++◌,
  ◌===◌, leb, if◌then◌else◌, find_first, update_unique, delete_many, count, Action, ◌>>=◌, ◌>>◌,
  gets, modify, pure, truthy, throw, throw_if, caught, internal_error, foreign_key,
}
use clickup_sync.Sync.Store.{
  TaskRow, NormalizedTimeEntry, EntryRow, SyncDb, ClickupTimeEntry, Clickup, is_some, is_text_id,
}
use clickup_sync.Sync.Tasks.{has_task_id, exists, sync_task}

abbrev pub year_ms : ℕ
year_ms = 365 * 24 * 60 * 60 * 1000

-- `v ?? default`
abbrev given : Option ℕ → ℕ → ℕ
given none default = default
given (some v) default = v

-- A window that starts before 1970 starts in 1970.
abbrev pub resolve_window : Option ℕ → Option ℕ → ℕ → ℕ × ℕ
resolve_window start_date end_date now =
    (given start_date (given end_date now - year_ms), given end_date now)

abbrev pub prune_safety_max_entries : ℕ
prune_safety_max_entries = 1000

abbrev pub includes : List String → String → Bool
includes [] id = false
includes (x ∷ xs) id = (x === id) || includes xs id

-- `userId: { in: ids }`, which a null is not.
abbrev pub is_in : List String → Option String → Bool
is_in ids none = false
is_in ids (some id) = includes ids id

abbrev pub in_window : ℕ → ℕ → Option ℕ → Bool
in_window start_ms end_ms none = false
in_window start_ms end_ms (some t) = leb start_ms t && leb t end_ms

module _ {Details : Type 0} where
  -- A space is reached through the task.
  abbrev pub task_in_space : List (TaskRow Details) → String → Option String → Bool
  task_in_space tasks space none = false
  task_in_space tasks space (some id) = elim (find_first (has_task_id id) tasks) [
    | none ↦ false
    | some row ↦ is_text_id space row.task.space_id
  ]

  -- The foreign key of `task_id`.
  abbrev pub lacks_task : List (TaskRow Details) → Option String → Bool
  lacks_task tasks none = false
  lacks_task tasks (some id) = not (is_some (find_first (has_task_id id) tasks))

module _ {Hours Details : Type 0} where
  abbrev pub has_entry_id : String → EntryRow Hours Details → Bool
  has_entry_id id row = row.entry.time_entry_id === id

  -- The slice of a task that was asked for.
  abbrev pub in_slice : String → List String → ℕ × ℕ → EntryRow Hours Details → Bool
  in_slice task users window row =
      is_text_id task row.entry.task_id
      && (is_in users row.entry.user_id && in_window window.0 window.1 row.entry.start_time)

  abbrev pub in_space_slice :
      List (TaskRow Details) → String → List String → ℕ × ℕ → EntryRow Hours Details → Bool
  in_space_slice tasks space users window row =
      task_in_space tasks space row.entry.task_id
      && (is_in users row.entry.user_id && in_window window.0 window.1 row.entry.start_time)

  abbrev pub is_stale :
      (EntryRow Hours Details → Bool) → List String → EntryRow Hours Details → Bool
  is_stale slice keep row = slice row && not (includes keep row.entry.time_entry_id)

  abbrev pub prune :
      (EntryRow Hours Details → Bool) → List String → Action (SyncDb Hours Details) (Unit {0})
  prune slice keep =
      modify (λ s. record s { entries = delete_many (is_stale slice keep) s.entries })

  unfoldable pub delete_by_task_id : String → Action (SyncDb Hours Details) ℕ
  delete_by_task_id task = do
    n ←
        gets (λ s.
          count (λ (row : EntryRow Hours Details). is_text_id task row.entry.task_id) s.entries)
    modify (λ s. record s {
      entries = delete_many (λ row. is_text_id task row.entry.task_id) s.entries;
    })
    pure n

  unfoldable pub delete_by_time_entry_id : String → Action (SyncDb Hours Details) (Unit {0})
  delete_by_time_entry_id id =
      modify (λ s. record s { entries = delete_many (has_entry_id id) s.entries })

  abbrev pub put_entry :
      EntryRow Hours Details → List (EntryRow Hours Details) → List (EntryRow Hours Details)
  put_entry row rows =
      if is_some (find_first (has_entry_id row.entry.time_entry_id) rows)
      then update_unique (has_entry_id row.entry.time_entry_id) (λ old. row) rows
      else rows ++ (row ∷ [])

  abbrev pub upsert_entry : EntryRow Hours Details → Action (SyncDb Hours Details) (Unit {0})
  upsert_entry row = do
    tasks ← gets (λ s. s.tasks)
    throw_if (lacks_task tasks row.entry.task_id) foreign_key
    modify (λ s. record s { entries = put_entry row s.entries })

  abbrev pub normalized :
      String → ClickupTimeEntry Hours Details → NormalizedTimeEntry Hours Details
  normalized id e = record {
    time_entry_id = id;
    task_id = truthy e.task_id;
    user_id = truthy e.user_id;
    start_time = e.start_time;
    duration_hours = e.duration_hours;
    billable = e.billable;
    details = e.details;
  }

  -- `if (!entry.id) throw`
  abbrev pub normalize_with :
      Option String
      → ClickupTimeEntry Hours Details
      → Action (SyncDb Hours Details) (NormalizedTimeEntry Hours Details)
  normalize_with none e = throw internal_error
  normalize_with (some id) e = pure (normalized id e)

  abbrev pub normalize_time_entry :
      ClickupTimeEntry Hours Details
      → Action (SyncDb Hours Details) (NormalizedTimeEntry Hours Details)
  normalize_time_entry e = normalize_with (truthy e.id) e

  abbrev pub fetch_unless :
      Clickup Hours Details → String → Bool → Action (SyncDb Hours Details) (Unit {0})
  fetch_unless clickup id true = pure tt
  fetch_unless clickup id false = caught (sync_task clickup id)

  unfoldable pub ensure_task_exists :
      Clickup Hours Details → String → Action (SyncDb Hours Details) Bool
  ensure_task_exists clickup id = do known ← exists id; fetch_unless clickup id known; exists id
