-- ===== src/Sync/Kept.antt =====
-- The row of a task under the writes of tasks.repository.ts and the jobs of task-sync.processor.ts.
use clickup_sync.Common.{
  eq_iff, eq_refl, ℕ, ◌≡◌, refl, String, true, false, update_unique, Option, none, some, List,
  ◌===◌, Bool-cases, Option-cases, inl, inr, find_first, find_first-append,
  find_first-update_unique, find_first-update_unique_other, find_first-passes,
}
use clickup_sync.Common.Frames.{IsFrame, Keeps}
use clickup_sync.Sync.Store.{NormalizedTask, TaskRow, SyncDb, is_some}
use clickup_sync.Sync.Tasks.{
  keep_known, has_task_id, update_row, upsert_row, set_deleted, upsert, soft_delete_row,
  soft_delete,
}
use clickup_sync.Sync.Steps.{Carries}

-- What synchronisations do not take from a row: it is not deleted, and the name of its space is known.
abbrev pub IsNamed : {Details : Type 0} → TaskRow Details → Type 0
IsNamed row = (row.is_deleted ≡ false) × (is_some row.task.space_name ≡ true)

keep_known-is_some :
    (new old : Option String) → is_some old ≡ true → is_some (keep_known new old) ≡ true
keep_known-is_some none old h = h
keep_known-is_some (some n) old h = refl

module _ {Details : Type 0} (id : String) where
  abbrev pub HoldsIn : List (TaskRow Details) → Type 0
  HoldsIn rows =
      (row : TaskRow Details) × (find_first (has_task_id id) rows ≡ some row) × IsNamed row

  -- A row that is written over keeps what it holds, and another row is not seen.
  updated :
      (task : NormalizedTask Details) (rows : List (TaskRow Details)) (old row : TaskRow Details)
      → find_first (has_task_id task.task_id) rows ≡ some old
      → find_first (has_task_id id) rows ≡ some row
      → IsNamed row
      → HoldsIn (update_unique (has_task_id task.task_id) (update_row task) rows)
  updated task rows old row stored found named = elim (Bool-cases (task.task_id === id)) [
    | inl own ↦
        let same = (eq_iff task.task_id id).0 own in
        let here : find_first (has_task_id task.task_id) rows ≡ some row = rw same found in
        (
          update_row task row,
          rw (← same) (
              find_first-update_unique (has_task_id task.task_id) (update_row task) rows row here
                (eq_refl task.task_id)),
          (refl, keep_known-is_some task.space_name row.task.space_name named.1),
        )
    | inr other ↦
        let same =
          (eq_iff old.task.task_id task.task_id).0
            (find_first-passes (has_task_id task.task_id) rows old stored) in
        let unseen =
          find_first-update_unique_other (has_task_id task.task_id) (update_row task)
            (has_task_id id) rows old stored (rw same other) other in
        (row, rw unseen found, named)
  ]

  upsert_row-HoldsIn :
      (task : NormalizedTask Details) (rows : List (TaskRow Details))
      → HoldsIn rows
      → HoldsIn (upsert_row task rows)
  upsert_row-HoldsIn task rows (row, found, named) =
      elim (Option-cases (find_first (has_task_id task.task_id) rows)) [
        | inl fresh ↦ rw fresh (row, find_first-append (has_task_id id) rows _ row found, named)
        | inr (old, stored) ↦ rw stored (updated task rows old row stored found named)
      ]

  soft_deleted :
      (unknown : String → NormalizedTask Details) (other : String) (now : ℕ)
      (rows : List (TaskRow Details))
      → (other === id) ≡ false
      → HoldsIn rows
      → HoldsIn (soft_delete_row unknown other now rows)
  soft_deleted unknown other now rows apart (row, found, named) =
      elim (Option-cases (find_first (has_task_id other) rows)) [
        | inl fresh ↦ rw fresh (row, find_first-append (has_task_id id) rows _ row found, named)
        | inr (old, stored) ↦
            let same =
              (eq_iff old.task.task_id other).0
                (find_first-passes (has_task_id other) rows old stored) in
            let unseen =
              find_first-update_unique_other (has_task_id other) (set_deleted now) (has_task_id id)
                rows old stored (rw same apart) (rw same apart) in
            rw stored (row, rw unseen found, named)
      ]

module _ {Hours Details : Type 0} (id : String) where
  -- A step keeps the row of the task, if there is one.
  abbrev pub Holds : SyncDb Hours Details → SyncDb Hours Details → Type 0
  Holds s t = HoldsIn id s.tasks → HoldsIn id t.tasks

  pub Holds-IsFrame : IsFrame Holds
  Holds-IsFrame = (λ s h. h, λ s t u f g h. g (f h))

  pub upsert-Holds : (task : NormalizedTask Details) → Keeps Holds (upsert task)
  unfolding upsert
  upsert-Holds task = record { kept = λ s. upsert_row-HoldsIn id task s.tasks }

  pub Holds-Carries : Carries Holds
  Holds-Carries = record {
    frame = Holds-IsFrame;
    stores = upsert-Holds;
    aside = λ g same. record { kept = λ s h. rw (same s) h };
  }

  pub soft_delete-Holds :
      (unknown : String → NormalizedTask Details) (other : String) (now : ℕ)
      → (other === id) ≡ false
      → Keeps Holds (soft_delete unknown other now)
  unfolding soft_delete
  soft_delete-Holds unknown other now apart = record {
    kept = λ s. soft_deleted id unknown other now s.tasks apart;
  }
