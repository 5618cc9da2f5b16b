-- ===== src/Sync/Pruned.antt =====
-- A synchronisation of a task removes what ClickUp does not return any more.
use clickup_sync.Common.{
  ℕ, ◌<◌, ◌≡◌, refl, String, Bool, true, Option, none, some, List, Result, ok, err, continue, arith,
  ltb, length, map, find_first, find_many, Action, ◌>>=◌, pure,
}
use clickup_sync.Common.Frames.{Keeps, Keeps-bind, Keeps-pure, Keeps-gets}
use clickup_sync.Rates.Table.{RateRow}
use clickup_sync.Cost.Calculator.{CostPreferences}
use clickup_sync.Sync.Store.{
  EntryRow, SyncDb, ClickupTimeEntry, Clickup, ReplacementJob, TagAssignee, is_some,
}
use clickup_sync.Sync.Tasks.{has_task_id}
use clickup_sync.Sync.TimeEntries.{
  has_entry_id, prune, in_slice, resolve_window, ensure_task_exists,
}
use clickup_sync.Sync.Service.{Upserted, persist_entries, enqueue_tag_replacements}
use clickup_sync.Sync.Handlers.{
  users_of, kept_ids, prune_unless_truncated, reconcile, sync_known, sync_task_time_entries,
}
use clickup_sync.Sync.Found.{Lacks, Unfetched, includes-kept_ids, persist_entries-Lacks}
use clickup_sync.Sync.Stale.{
  SameEntries, same_entries, enqueue_matching-SameEntries, is_found, find_first-prune, none_found,
}
use clickup_sync.Sync.Outside.{IsOutside, in_slice-IsOutside}

module _ {Hours Details : Type 0} (tag_name to_lower_case : String → String)
    (rounded_product : ℕ → Hours → ℕ) (prefs : CostPreferences) (rates : List RateRow)
    (takes : ReplacementJob Hours Details → Bool) (clickup : Clickup Hours Details)
    (id : String) where
  -- The steps of `reconcile` behind persistEntries.
  abbrev afterwards :
      (EntryRow Hours Details → Bool)
      → Option String
      → List (ClickupTimeEntry Hours Details)
      → List (Upserted Hours Details)
      → Action (SyncDb Hours Details) ℕ
  afterwards slice fallback fetched upserted =
      prune_unless_truncated fetched slice upserted >>= (λ _.
        enqueue_tag_replacements takes to_lower_case upserted fallback
        >>= (λ _. pure (length upserted)))

  enqueue-SameEntries :
      (fallback : Option String) (upserted : List (Upserted Hours Details))
      → Keeps SameEntries (
          enqueue_tag_replacements takes to_lower_case upserted fallback
          >>= (λ _. pure (length upserted)))
  enqueue-SameEntries fallback upserted =
      Keeps-bind same_entries
        (Keeps-bind same_entries
          (Keeps-gets same_entries
            {g = λ s. find_many (λ (t : TagAssignee). t.active) s.tag_assignees})
          (λ tags.
            enqueue_matching-SameEntries takes
              (map (λ (t : TagAssignee). to_lower_case t.tag_name) tags) fallback upserted))
        (λ _. Keeps-pure same_entries {a = length upserted})

  afterwards_lem :
      (slice : EntryRow Hours Details → Bool) (fallback : Option String)
      (fetched : List (ClickupTimeEntry Hours Details)) (upserted : List (Upserted Hours Details))
      (s : SyncDb Hours Details)
      → ltb (length fetched) 1000 ≡ true
      → Lacks id upserted
      → find_first (is_found slice id) (afterwards slice fallback fetched upserted s).1.entries
        ≡ none
  afterwards_lem slice fallback fetched upserted s short lacks = rw short (
      rw ((enqueue-SameEntries fallback upserted).kept (prune slice (kept_ids upserted) s).1) (
        find_first-prune slice (kept_ids upserted) id (includes-kept_ids id upserted lacks)
          s.entries))

  reconcile_lem :
      (slice : EntryRow Hours Details → Bool) (fallback : Option String)
      (fetched : List (ClickupTimeEntry Hours Details)) (s : SyncDb Hours Details) (n : ℕ)
      → ltb (length fetched) 1000 ≡ true
      → Unfetched id fetched
      → (reconcile tag_name to_lower_case rounded_product prefs rates takes clickup slice fallback
          fetched s).0
        ≡ ok n
      → find_first
          (is_found slice id)
          (reconcile tag_name to_lower_case rounded_product prefs rates takes clickup slice fallback
            fetched s).1.entries
        ≡ none
  reconcile_lem slice fallback fetched s n short missing =
      after (persisted s).0 (persisted s).1 (λ upserted e.
        (persist_entries-Lacks id tag_name rounded_product prefs rates clickup fetched
            missing).returned
          s upserted e)
    where
      persisted : Action (SyncDb Hours Details) (List (Upserted Hours Details))
      persisted = persist_entries tag_name rounded_product prefs rates clickup fetched

      after :
          (res : Result (List (Upserted Hours Details))) (t : SyncDb Hours Details)
          → ((upserted : List (Upserted Hours Details)) → res ≡ ok upserted → Lacks id upserted)
          → (continue res (afterwards slice fallback fetched) t).0 ≡ ok n
          → find_first
              (is_found slice id)
              (continue res (afterwards slice fallback fetched) t).1.entries
            ≡ none
      after (err x) t lacks e = absurd (cc e)
      after (ok upserted) t lacks e =
          afterwards_lem slice fallback fetched upserted t short (lacks upserted refl)

  ensure_task_exists_stored :
      (task : String) (s : SyncDb Hours Details)
      → is_some (find_first (has_task_id task) s.tasks) ≡ true
      → ensure_task_exists clickup task s ≡ (ok true, s)
  unfolding ensure_task_exists
  ensure_task_exists_stored task s known = rw known (rw known refl)

  sync_known_lem :
      (task : String) (users : List String) (window : ℕ × ℕ) (s : SyncDb Hours Details)
      (fetched : List (ClickupTimeEntry Hours Details)) (n : ℕ)
      → clickup.get_time_entries task users window.0 window.1 ≡ some fetched
      → ltb (length fetched) 1000 ≡ true
      → Unfetched id fetched
      → (sync_known tag_name to_lower_case rounded_product prefs rates takes clickup true task users
          window s).0
        ≡ ok n
      → find_first
          (is_found (in_slice task users window) id)
          (sync_known tag_name to_lower_case rounded_product prefs rates takes clickup true task
            users window s).1.entries
        ≡ none
  sync_known_lem task users window s fetched n answer short missing =
      rw answer (reconcile_lem (in_slice task users window) (some task) fetched s n short missing)

  -- After a synchronisation of a stored task that returns, if ClickUp returned fewer than 1000 entries, an
  -- entry that ClickUp did not return is stored only if it is of another task, or of a user that was not
  -- asked for, or starts outside the window.
  pub sync_task_time_entries-IsOutside :
      (task : String) (assignees : Option (List String)) (start_date end_date : Option ℕ) (now : ℕ)
      (s : SyncDb Hours Details) (fetched : List (ClickupTimeEntry Hours Details)) (n : ℕ)
      (r : EntryRow Hours Details)
      → is_some (find_first (has_task_id task) s.tasks) ≡ true
      → clickup.get_time_entries task
          (users_of clickup.member_ids assignees)
          (resolve_window start_date end_date now).0
          (resolve_window start_date end_date now).1
        ≡ some fetched
      → length fetched < 1000
      → Unfetched id fetched
      → (sync_task_time_entries tag_name to_lower_case rounded_product prefs rates takes clickup
          task assignees start_date end_date now s).0
        ≡ ok n
      → find_first
          (has_entry_id id)
          (sync_task_time_entries tag_name to_lower_case rounded_product prefs rates takes clickup
            task assignees start_date end_date now s).1.entries
        ≡ some r
      → IsOutside task
          (users_of clickup.member_ids assignees)
          (resolve_window start_date end_date now)
          r
  unfolding sync_task_time_entries
  sync_task_time_entries-IsOutside task assignees start_date end_date now s fetched n r known answer
        short missing =
      rw (ensure_task_exists_stored task s known) (λ returned found.
        let full : ltb (length fetched) 1000 ≡ true = ground arith in
        in_slice-IsOutside task (users_of clickup.member_ids assignees)
          (resolve_window start_date end_date now) r
          (none_found
            (in_slice task (users_of clickup.member_ids assignees)
              (resolve_window start_date end_date now))
            id _ r found
            (sync_known_lem task (users_of clickup.member_ids assignees)
              (resolve_window start_date end_date now) s fetched n answer full missing returned)))
