-- ===== src/Sync/Steps.antt =====
-- A synchronisation of a task relates the store before and after, if each task that it stores does, and
-- each write that leaves the tasks alone.
use clickup_sync.Common.{
  ℕ, ◌≡◌, refl, Bool, true, false, not, String, Option, none, some, List, [], ◌∷◌, Action, ◌>>=◌,
  modify, length, map, suc, ◌+◌, find_first, find_many, delete_many, ltb, if◌then◌else◌, Bool-cases,
  inl, inr, truthy, foreign_key, queue_refused, not_found, internal_error,
}
use clickup_sync.Common.Frames.{
  IsFrame, Keeps, Keeps-bind, Keeps-pure, Keeps-gets, Keeps-throw_if, Keeps-or_throw, Keeps-caught,
  Keeps-recover,
}
use clickup_sync.Rates.Table.{RateRow}
use clickup_sync.Cost.Calculator.{RateCache, CostPreferences}
use clickup_sync.Sync.Store.{
  NormalizedTask, NormalizedTimeEntry, EntryRow, SyncDb, ClickupTimeEntry, Clickup, ReplacementJob,
  TagAssignee, is_some,
}
use clickup_sync.Sync.Tasks.{has_task_id, upsert, sync_task, exists}
use clickup_sync.Sync.Batches.{sync_tasks, sync_each, sync_missing_parents}
use clickup_sync.Sync.TimeEntries.{
  lacks_task, put_entry, upsert_entry, normalize_with, normalized, fetch_unless, ensure_task_exists,
  in_slice, resolve_window, is_stale,
}
use clickup_sync.Sync.Service.{
  Upserted, price, upserted_of, distinct_task_ids, is_unresolved, due_of, resolve_tasks,
  persist_one, persist_loop, persist_entries, replacement_job, push_job, enqueue_one,
  enqueue_matching,
}
use clickup_sync.Sync.Handlers.{
  users_of, kept_ids, prune_unless_truncated, reconcile, sync_known, sync_task_time_entries,
}

module _ {Hours Details : Type 0} (R : SyncDb Hours Details → SyncDb Hours Details → Type 0) where
  pub record Carries : Type 0 where
    pub frame : IsFrame R
    pub stores : (task : NormalizedTask Details) → Keeps R (upsert task)
    pub aside :
        (g : SyncDb Hours Details → SyncDb Hours Details)
        → ((s : SyncDb Hours Details) → (g s).tasks ≡ s.tasks)
        → Keeps R (modify g)

module _ {Hours Details : Type 0} {R : SyncDb Hours Details → SyncDb Hours Details → Type 0}
    (c : Carries R) (clickup : Clickup Hours Details) where
  pub sync_task-Keeps : (task : String) → Keeps R (sync_task clickup task)
  unfolding sync_task
  sync_task-Keeps task =
      Keeps-bind c.frame (Keeps-or_throw c.frame (clickup.get_task task) (not_found "task"))
        c.stores

  pub sync_tasks-Keeps :
      (tasks : List (Option (NormalizedTask Details))) → Keeps R (sync_tasks {Hours = Hours} tasks)
  sync_tasks-Keeps [] = Keeps-pure c.frame
  sync_tasks-Keeps (none ∷ tasks) = record { kept = (sync_tasks-Keeps tasks).kept }
  sync_tasks-Keeps (some task ∷ tasks) = Keeps-bind c.frame (c.stores task) (λ _.
      Keeps-bind c.frame (sync_tasks-Keeps tasks) (λ count. Keeps-pure c.frame {a = suc count}))

  sync_each-Keeps : (ids : List String) → Keeps R (sync_each clickup ids)
  sync_each-Keeps [] = Keeps-pure c.frame
  sync_each-Keeps (id ∷ ids) =
      Keeps-bind c.frame
        (Keeps-recover c.frame
          (Keeps-bind c.frame (sync_task-Keeps id) (λ _. Keeps-pure c.frame {a = 1}))
          (Keeps-pure c.frame {a = 0}))
        (λ synced.
          Keeps-bind c.frame (sync_each-Keeps ids) (λ rest. Keeps-pure c.frame {a = synced + rest}))

  pub sync_missing_parents-Keeps : (ids : List String) → Keeps R (sync_missing_parents clickup ids)
  unfolding sync_missing_parents
  sync_missing_parents-Keeps ids =
      Keeps-bind c.frame
        (Keeps-gets c.frame
          {g = λ s. find_many (λ id. not (is_some (find_first (has_task_id id) s.tasks))) ids})
        sync_each-Keeps

  pub exists-Keeps : (task : String) → Keeps R (exists {Hours = Hours} {Details = Details} task)
  exists-Keeps task = Keeps-gets c.frame

  fetch_unless-Keeps : (task : String) (known : Bool) → Keeps R (fetch_unless clickup task known)
  fetch_unless-Keeps task true = Keeps-pure c.frame
  fetch_unless-Keeps task false = Keeps-caught c.frame (sync_task-Keeps task)

  ensure_task_exists-Keeps : (task : String) → Keeps R (ensure_task_exists clickup task)
  unfolding ensure_task_exists
  ensure_task_exists-Keeps task =
      Keeps-bind c.frame (exists-Keeps task)
        (λ known. Keeps-bind c.frame (fetch_unless-Keeps task known) (λ _. exists-Keeps task))

  resolve_tasks-Keeps : (ids : List String) → Keeps R (resolve_tasks clickup ids)
  resolve_tasks-Keeps [] = Keeps-pure c.frame
  resolve_tasks-Keeps (t ∷ ids) = Keeps-bind c.frame (ensure_task_exists-Keeps t) (λ known.
      Keeps-bind c.frame (resolve_tasks-Keeps ids)
        (λ more. Keeps-pure c.frame {a = if known then t ∷ more else more}))

  upsert_entry-Keeps : (row : EntryRow Hours Details) → Keeps R (upsert_entry row)
  upsert_entry-Keeps row = Keeps-bind c.frame (Keeps-gets c.frame {g = λ s. s.tasks}) (λ tasks.
      Keeps-bind c.frame (Keeps-throw_if c.frame (lacks_task tasks row.entry.task_id) foreign_key)
        (λ _. c.aside (λ s. record s { entries = put_entry row s.entries }) (λ s. refl)))

  module _ (takes : ReplacementJob Hours Details → Bool) where
    enqueue_one-Keeps :
        (wanted : Bool) (job : ReplacementJob Hours Details)
        → Keeps R (enqueue_one takes wanted job)
    enqueue_one-Keeps false job = Keeps-pure c.frame
    enqueue_one-Keeps true job =
        Keeps-bind c.frame (Keeps-throw_if c.frame (not (takes job)) queue_refused) (λ _.
          c.aside (λ s. record s { replacement_jobs = push_job job s.replacement_jobs })
            (λ s. refl))

    enqueue_matching-Keeps :
        (active : List String) (fallback : Option String) (upserted : List (Upserted Hours Details))
        → Keeps R (enqueue_matching takes active fallback upserted)
    enqueue_matching-Keeps active fallback [] = Keeps-pure c.frame
    enqueue_matching-Keeps active fallback (u ∷ rest) =
        Keeps-bind c.frame (enqueue_one-Keeps _ (replacement_job fallback u))
          (λ _. enqueue_matching-Keeps active fallback rest)

  prune-Keeps :
      (slice : EntryRow Hours Details → Bool) (fetched : List (ClickupTimeEntry Hours Details))
      (upserted : List (Upserted Hours Details))
      → Keeps R (prune_unless_truncated fetched slice upserted)
  prune-Keeps slice fetched upserted = elim (Bool-cases (ltb (length fetched) 1000)) [
    | inr long ↦ rw long (Keeps-pure c.frame)
    | inl short ↦ rw short (
        c.aside
          (λ s. record s { entries = delete_many (is_stale slice (kept_ids upserted)) s.entries })
          (λ s. refl))
  ]

  module _ (tag_name : String → String) (rounded_product : ℕ → Hours → ℕ) (prefs : CostPreferences)
      (rates : List RateRow) where
    persist_one-Keeps :
        (due_date : Option String → Option ℕ) (skipped : Bool)
        (n : NormalizedTimeEntry Hours Details) (e : ClickupTimeEntry Hours Details)
        (cache : Option RateCache)
        (next : Option RateCache → Action (SyncDb Hours Details) (List (Upserted Hours Details)))
        → ((k : Option RateCache) → Keeps R (next k))
        → Keeps R (persist_one tag_name rounded_product prefs rates due_date skipped n e cache next)
    persist_one-Keeps due_date true n e cache next more = more cache
    persist_one-Keeps due_date false n e cache next more =
        Keeps-bind c.frame
          (upsert_entry-Keeps (record {
            entry = n;
            cost = (price tag_name rounded_product prefs rates (due_date n.task_id) n cache).0;
          }))
          (λ _.
            Keeps-bind c.frame
              (more (price tag_name rounded_product prefs rates (due_date n.task_id) n cache).1)
              (λ done. Keeps-pure c.frame {a = upserted_of tag_name n e ∷ done}))

    persist_loop-Keeps :
        (due_date : Option String → Option ℕ) (resolvable : List String)
        (fetched : List (ClickupTimeEntry Hours Details)) (cache : Option RateCache)
        → Keeps R
            (persist_loop tag_name rounded_product prefs rates due_date resolvable fetched cache)
    persist_loop-Keeps due_date resolvable [] cache = Keeps-pure c.frame
    persist_loop-Keeps due_date resolvable (e ∷ fetched) cache =
        round (truthy e.id) (λ k. persist_loop-Keeps due_date resolvable fetched k)
      where
        round :
            (found : Option String)
            → ((k : Option RateCache)
                → Keeps R (
                    persist_loop tag_name rounded_product prefs rates due_date resolvable fetched
                      k))
            → Keeps R (do
              n ← normalize_with found e
              persist_one tag_name rounded_product prefs rates due_date
                  (is_unresolved resolvable n.task_id)
                  n
                  e
                  cache
                  (persist_loop tag_name rounded_product prefs rates due_date resolvable fetched))
        round none more = record { kept = λ s. c.frame.0 s }
        round (some i) more = record {
          kept =
              (persist_one-Keeps due_date (is_unresolved resolvable (truthy e.task_id))
                (normalized i e) e cache
                (persist_loop tag_name rounded_product prefs rates due_date resolvable fetched)
                more).kept;
        }

    persist_entries-Keeps :
        (fetched : List (ClickupTimeEntry Hours Details))
        → Keeps R (persist_entries tag_name rounded_product prefs rates clickup fetched)
    unfolding persist_entries
    persist_entries-Keeps fetched =
        Keeps-bind c.frame (resolve_tasks-Keeps (distinct_task_ids fetched [])) (λ resolvable.
          Keeps-bind c.frame (Keeps-gets c.frame {g = λ s. s.tasks}) (λ tasks.
            persist_loop-Keeps (due_of prefs.rate_matching tasks resolvable) resolvable fetched
              (some [])))

    module _ (to_lower_case : String → String) (takes : ReplacementJob Hours Details → Bool) where
      reconcile-Keeps :
          (slice : EntryRow Hours Details → Bool) (fallback : Option String)
          (fetched : List (ClickupTimeEntry Hours Details))
          → Keeps R (
              reconcile tag_name to_lower_case rounded_product prefs rates takes clickup slice
                fallback fetched)
      reconcile-Keeps slice fallback fetched =
          Keeps-bind c.frame (persist_entries-Keeps fetched) (λ upserted.
            Keeps-bind c.frame (prune-Keeps slice fetched upserted) (λ _.
              Keeps-bind c.frame
                (Keeps-bind c.frame
                  (Keeps-gets c.frame
                    {g = λ s. find_many (λ (t : TagAssignee). t.active) s.tag_assignees})
                  (λ tags.
                    enqueue_matching-Keeps takes
                      (map (λ (t : TagAssignee). to_lower_case t.tag_name) tags) fallback upserted))
                (λ _. Keeps-pure c.frame {a = length upserted})))

      sync_known-Keeps :
          (known : Bool) (task : String) (users : List String) (window : ℕ × ℕ)
          → Keeps R (
              sync_known tag_name to_lower_case rounded_product prefs rates takes clickup known task
                users window)
      sync_known-Keeps false task users window = Keeps-pure c.frame
      sync_known-Keeps true task users window =
          Keeps-bind c.frame
            (Keeps-or_throw c.frame (clickup.get_time_entries task users window.0 window.1)
              internal_error)
            (λ fetched. reconcile-Keeps (in_slice task users window) (some task) fetched)

      pub sync_task_time_entries-Keeps :
          (task : String) (assignees : Option (List String)) (start_date end_date : Option ℕ)
          (now : ℕ)
          → Keeps R (
              sync_task_time_entries tag_name to_lower_case rounded_product prefs rates takes
                clickup task assignees start_date end_date now)
      unfolding sync_task_time_entries
      sync_task_time_entries-Keeps task assignees start_date end_date now =
          Keeps-bind c.frame (ensure_task_exists-Keeps task) (λ known.
            sync_known-Keeps known task (users_of clickup.member_ids assignees)
              (resolve_window start_date end_date now))
