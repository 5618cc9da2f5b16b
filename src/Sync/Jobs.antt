-- ===== src/Sync/Jobs.antt =====
-- Jobs of task-sync.processor.ts, one after another, and the row of one task.
use clickup_sync.Common.{
  ℕ, ◌≡◌, refl, String, Bool, true, false, Option, none, some, List, [], ◌∷◌, ◌===◌, All,
  Bool-cases, inl, inr, eq_iff, delete_many, count,
}
use clickup_sync.Common.Frames.{IsFrame, Keeps, Keeps-bind, Keeps-pure, Keeps-gets, Keeps-throw}
use clickup_sync.Rates.Table.{RateRow}
use clickup_sync.Cost.Calculator.{CostPreferences}
use clickup_sync.Sync.Store.{NormalizedTask, EntryRow, SyncDb, Clickup, ReplacementJob, is_text_id}
use clickup_sync.Sync.TimeEntries.{delete_by_task_id}
use clickup_sync.Sync.Reconciliation.{
  TaskJob, delete_clickup_task, sync_clickup_task, reconcile_clickup_task, drop_task,
  drop_if_stored, sync_missing, sync_answer, reconcile_missing, reconcile_answer, process,
  process_all,
}
use clickup_sync.Sync.Steps.{sync_tasks-Keeps, sync_task_time_entries-Keeps, exists-Keeps}
use clickup_sync.Sync.Kept.{
  HoldsIn, Holds, Holds-IsFrame, Holds-Carries, upsert-Holds, soft_delete-Holds,
}

-- The job does not delete the task, and ClickUp does not answer 404 for it.
abbrev pub Spares : {Hours Details : Type 0} → String → Clickup Hours Details → TaskJob → Type 0
Spares id clickup (delete_clickup_task other) = (other === id) ≡ false
Spares id clickup (sync_clickup_task other) = clickup.is_gone id ≡ false
Spares id clickup (reconcile_clickup_task other start_date end_date) = clickup.is_gone id ≡ false

module _ {Hours Details : Type 0} (unknown : String → NormalizedTask Details) (id : String) where
  frame : IsFrame (Holds {Hours = Hours} {Details = Details} id)
  frame = Holds-IsFrame {Hours = Hours} {Details = Details} id

  delete_by_task_id-Holds :
      (other : String)
      → Keeps (Holds {Hours = Hours} {Details = Details} id) (delete_by_task_id other)
  unfolding delete_by_task_id
  delete_by_task_id-Holds other =
      Keeps-bind frame
        (Keeps-gets frame
          {g = λ s.
            count (λ (row : EntryRow Hours Details). is_text_id other row.entry.task_id) s.entries})
        (λ n.
          Keeps-bind frame
            ((Holds-Carries id).aside
              (λ s. record s {
                entries = delete_many (λ row. is_text_id other row.entry.task_id) s.entries;
              })
              (λ s. refl))
            (λ _. Keeps-pure frame {a = n}))

  drop_task-Holds :
      (other : String) (now : ℕ)
      → (other === id) ≡ false
      → Keeps (Holds {Hours = Hours} {Details = Details} id) (drop_task unknown other now)
  drop_task-Holds other now apart =
      Keeps-bind frame (delete_by_task_id-Holds other)
        (λ _. soft_delete-Holds id unknown other now apart)

  drop_if_stored-Holds :
      (stored : Bool) (other : String) (now : ℕ)
      → (other === id) ≡ false
      → Keeps
          (Holds {Hours = Hours} {Details = Details} id)
          (drop_if_stored unknown stored other now)
  drop_if_stored-Holds true other now apart = drop_task-Holds other now apart
  drop_if_stored-Holds false other now apart = Keeps-pure frame

  -- A task that ClickUp does not answer 404 for is not one that it answers 404 for.
  apart_gone :
      (clickup : Clickup Hours Details) (other : String)
      → clickup.is_gone id ≡ false
      → clickup.is_gone other ≡ true
      → (other === id) ≡ false
  apart_gone clickup other here gone = elim (Bool-cases (other === id)) [
    | inl same ↦ let e = (eq_iff other id).0 same in absurd (cc (rw e at gone, here))
    | inr apart ↦ apart
  ]

  module _ (clickup : Clickup Hours Details) (here : clickup.is_gone id ≡ false) (other : String)
      (now : ℕ) where
    sync_missing-Holds :
        Keeps
          (Holds {Hours = Hours} {Details = Details} id)
          (sync_missing unknown (clickup.is_gone other) other now)
    sync_missing-Holds = elim (Bool-cases (clickup.is_gone other)) [
      | inl gone ↦
          let apart = apart_gone clickup other here gone in
          rw gone (
            Keeps-bind frame (exists-Keeps (Holds-Carries id) clickup other)
              (λ stored. drop_if_stored-Holds stored other now apart))
      | inr there ↦ rw there (Keeps-throw frame)
    ]

    reconcile_missing-Holds :
        Keeps
          (Holds {Hours = Hours} {Details = Details} id)
          (reconcile_missing unknown (clickup.is_gone other) other now)
    reconcile_missing-Holds = elim (Bool-cases (clickup.is_gone other)) [
      | inl gone ↦ rw gone (drop_task-Holds other now (apart_gone clickup other here gone))
      | inr there ↦ rw there (Keeps-throw frame)
    ]

    sync_answer-Holds :
        (answer : Option (NormalizedTask Details))
        → Keeps
            (Holds {Hours = Hours} {Details = Details} id)
            (sync_answer unknown (clickup.is_gone other) other now answer)
    sync_answer-Holds none = record { kept = sync_missing-Holds.kept }
    sync_answer-Holds (some task) = record { kept = (upsert-Holds id task).kept }

module _ {Hours Details : Type 0} (unknown : String → NormalizedTask Details)
    (tag_name to_lower_case : String → String) (rounded_product : ℕ → Hours → ℕ)
    (prefs : CostPreferences) (rates : List RateRow) (takes : ReplacementJob Hours Details → Bool)
    (id : String) where
  reconcile_answer-Holds :
      (clickup : Clickup Hours Details) (other : String) (start_ms end_ms now : ℕ)
      (answer : Option (NormalizedTask Details))
      → clickup.is_gone id ≡ false
      → Keeps (Holds id) (
          reconcile_answer unknown tag_name to_lower_case rounded_product prefs rates takes clickup
            other start_ms end_ms now answer)
  reconcile_answer-Holds clickup other start_ms end_ms now none here = record {
    kept = (reconcile_missing-Holds unknown id clickup here other now).kept;
  }
  reconcile_answer-Holds clickup other start_ms end_ms now (some task) here =
      Keeps-bind (Holds-IsFrame id) (sync_tasks-Keeps (Holds-Carries id) clickup (some task ∷ []))
        (λ _.
          Keeps-bind (Holds-IsFrame id)
            (sync_task_time_entries-Keeps (Holds-Carries id) clickup tag_name rounded_product prefs
              rates to_lower_case takes other none (some start_ms) (some end_ms) now)
            (λ _. Keeps-pure (Holds-IsFrame id)))

  process-Holds :
      (clickup : Clickup Hours Details) (now : ℕ) (job : TaskJob)
      → Spares id clickup job
      → Keeps
          (Holds id)
          (process unknown tag_name to_lower_case rounded_product prefs rates takes clickup now job)
  unfolding process
  process-Holds clickup now (delete_clickup_task other) apart = record {
    kept = (drop_task-Holds unknown id other now apart).kept;
  }
  process-Holds clickup now (sync_clickup_task other) here = record {
    kept = (sync_answer-Holds unknown id clickup here other now (clickup.get_task other)).kept;
  }
  process-Holds clickup now (reconcile_clickup_task other start_ms end_ms) here = record {
    kept =
        (reconcile_answer-Holds clickup other start_ms end_ms now (clickup.get_task other)
          here).kept;
  }

  -- A task that is stored as not deleted, with the name of its space, stays stored so through any jobs
  -- of tasks, whether they succeed or throw, if none of them deletes it and ClickUp answers 404 for it
  -- in none of them.
  pub process_all-HoldsIn :
      (jobs : List (Clickup Hours Details × ℕ × TaskJob)) (s : SyncDb Hours Details)
      → All (λ j. Spares id j.0 j.2) jobs
      → HoldsIn id s.tasks
      → HoldsIn id
          (process_all unknown tag_name to_lower_case rounded_product prefs rates takes jobs
            s).tasks
  process_all-HoldsIn [] s spared held = held
  process_all-HoldsIn ((clickup, now, job) ∷ jobs) s spared held =
      process_all-HoldsIn jobs _ spared.1 ((process-Holds clickup now job spared.0).kept s held)
