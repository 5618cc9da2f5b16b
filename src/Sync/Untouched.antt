-- ===== src/Sync/Untouched.antt =====
-- A synchronisation leaves the entries alone that it did not ask for.
use clickup_sync.Common.{
  Result, ok, err, continue, map, ℕ, ◌≡◌, String, Bool, true, false, Option, some, List, [],
  Option-cases, inl, inr, length, find_first, find_many,
}
use clickup_sync.Common.Frames.{Keeps, Keeps-bind, Keeps-pure, Keeps-gets}
use clickup_sync.Rates.Table.{RateRow}
use clickup_sync.Cost.Calculator.{CostPreferences}
use clickup_sync.Sync.Store.{
  EntryRow, SyncDb, ClickupTimeEntry, Clickup, ReplacementJob, TagAssignee,
}
use clickup_sync.Sync.TimeEntries.{has_entry_id, ensure_task_exists, in_slice, resolve_window}
use clickup_sync.Sync.Service.{due_of, persist_entries, distinct_task_ids}
use clickup_sync.Sync.Handlers.{reconcile, sync_known, sync_task_time_entries, users_of}
use clickup_sync.Sync.Slices.{
  Stays, frame, prune-Stays, ensure_task_exists-Stays, resolve_tasks-Stays, enqueue_matching-Stays,
  persist_loop-Stays,
}
use clickup_sync.Sync.Outside.{IsOutside, in_slice_outside}
use clickup_sync.Sync.Found.{Unfetched}

module _ {Hours Details : Type 0} (tag_name to_lower_case : String → String)
    (rounded_product : ℕ → Hours → ℕ) (prefs : CostPreferences) (rates : List RateRow)
    (takes : ReplacementJob Hours Details → Bool) (clickup : Clickup Hours Details) (id : String)
    (r : EntryRow Hours Details) where
  persist_entries-Stays :
      (fetched : List (ClickupTimeEntry Hours Details))
      → Unfetched id fetched
      → Keeps (Stays id r) (persist_entries tag_name rounded_product prefs rates clickup fetched)
  unfolding persist_entries
  persist_entries-Stays fetched missing =
      Keeps-bind (frame id r) (resolve_tasks-Stays id r clickup (distinct_task_ids fetched []))
        (λ resolvable.
          Keeps-bind (frame id r) (Keeps-gets (frame id r) {g = λ s. s.tasks}) (λ tasks.
            persist_loop-Stays id r tag_name rounded_product prefs rates
              (due_of prefs.rate_matching tasks resolvable) resolvable fetched (some []) missing))

  reconcile-Stays :
      (slice : EntryRow Hours Details → Bool) (fallback : Option String)
      (fetched : List (ClickupTimeEntry Hours Details))
      → slice r ≡ false
      → Unfetched id fetched
      → Keeps (Stays id r) (
          reconcile tag_name to_lower_case rounded_product prefs rates takes clickup slice fallback
            fetched)
  reconcile-Stays slice fallback fetched outside missing =
      Keeps-bind (frame id r) (persist_entries-Stays fetched missing) (λ upserted.
        Keeps-bind (frame id r) (prune-Stays id r slice fetched upserted outside) (λ _.
          Keeps-bind (frame id r)
            (Keeps-bind (frame id r)
              (Keeps-gets (frame id r)
                {g = λ s. find_many (λ (t : TagAssignee). t.active) s.tag_assignees})
              (λ tags.
                enqueue_matching-Stays id r takes
                  (map (λ (t : TagAssignee). to_lower_case t.tag_name) tags) fallback upserted))
            (λ _. Keeps-pure (frame id r) {a = length upserted})))

  sync_known-Stays :
      (known : Bool) (task : String) (users : List String) (window : ℕ × ℕ)
      (s : SyncDb Hours Details)
      → in_slice task users window r ≡ false
      → ((fetched : List (ClickupTimeEntry Hours Details))
          → clickup.get_time_entries task users window.0 window.1 ≡ some fetched
          → Unfetched id fetched)
      → Stays id r s
          (sync_known tag_name to_lower_case rounded_product prefs rates takes clickup known task
            users window s).1
  sync_known-Stays false task users window s outside missing = λ h. h
  sync_known-Stays true task users window s outside missing =
      elim (Option-cases (clickup.get_time_entries task users window.0 window.1)) [
        | inl e ↦ rw e (λ h. h)
        | inr (fetched, e) ↦ rw e (
            (reconcile-Stays (in_slice task users window) (some task) fetched outside
                (missing fetched e)).kept
              s)
      ]

  -- An entry that ClickUp does not return stays as it is, whether the call returns or throws, if it is of
  -- another task, or of a user that was not asked for, or starts outside the window.
  pub sync_task_time_entries-Stays :
      (task : String) (assignees : Option (List String)) (start_date end_date : Option ℕ) (now : ℕ)
      (s : SyncDb Hours Details)
      → IsOutside task
          (users_of clickup.member_ids assignees)
          (resolve_window start_date end_date now)
          r
      → ((fetched : List (ClickupTimeEntry Hours Details))
          → clickup.get_time_entries task
              (users_of clickup.member_ids assignees)
              (resolve_window start_date end_date now).0
              (resolve_window start_date end_date now).1
            ≡ some fetched
          → Unfetched id fetched)
      → find_first (has_entry_id id) s.entries ≡ some r
      → find_first
          (has_entry_id id)
          (sync_task_time_entries tag_name to_lower_case rounded_product prefs rates takes clickup
            task assignees start_date end_date now s).1.entries
        ≡ some r
  unfolding sync_task_time_entries
  sync_task_time_entries-Stays task assignees start_date end_date now s outside missing h =
      after (ensure_task_exists clickup task s).0 (ensure_task_exists clickup task s).1
        ((ensure_task_exists-Stays id r clickup task).kept s h)
    where
      after :
          (known : Result Bool) (t : SyncDb Hours Details)
          → find_first (has_entry_id id) t.entries ≡ some r
          → find_first
              (has_entry_id id)
              (continue known
                (λ k.
                  sync_known tag_name to_lower_case rounded_product prefs rates takes clickup k task
                    (users_of clickup.member_ids assignees)
                    (resolve_window start_date end_date now))
                t).1.entries
            ≡ some r
      after (err e) t found = found
      after (ok known) t found =
          sync_known-Stays known task (users_of clickup.member_ids assignees)
            (resolve_window start_date end_date now) t
            (in_slice_outside task (users_of clickup.member_ids assignees)
              (resolve_window start_date end_date now) r outside)
            missing found
