-- ===== src/Sync/Slices.antt =====
-- The steps that leave an entry alone that was not fetched, outside the slice that was asked for.
use clickup_sync.Common.{
  truthy, ℕ, ◌≡◌, refl, ◌∙◌, String, Bool, true, false, not, Option, none, some, List, [], ◌∷◌,
  ◌++◌, ◌===◌, ltb, if◌then◌else◌, eq_iff, Bool-cases, Option-cases, inl, inr, length, find_first,
  find_first-passes, find_first-update_unique_other, delete_many, Action, ◌>>=◌, modify,
  foreign_key, queue_refused, not_found,
}
use clickup_sync.Common.Frames.{
  IsFrame, Keeps, Keeps-bind, Keeps-pure, Keeps-gets, Keeps-throw_if, Keeps-or_throw, Keeps-caught,
}
use clickup_sync.Rates.Table.{RateRow}
use clickup_sync.Cost.Calculator.{RateCache, CostPreferences}
use clickup_sync.Sync.Store.{
  NormalizedTimeEntry, EntryRow, SyncDb, ClickupTimeEntry, Clickup, ReplacementJob, is_text_id,
}
use clickup_sync.Sync.Tasks.{upsert, upsert_row, sync_task, exists}
use clickup_sync.Sync.TimeEntries.{
  has_entry_id, is_stale, put_entry, lacks_task, upsert_entry, normalize_with, normalized,
  fetch_unless, ensure_task_exists,
}
use clickup_sync.Sync.Service.{
  Upserted, price, upserted_of, replacement_job, resolve_tasks, persist_one, persist_loop,
  enqueue_one, enqueue_matching, push_job, is_unresolved,
}
use clickup_sync.Sync.Handlers.{kept_ids, prune_unless_truncated}
use clickup_sync.Sync.Found.{Unfetched}

module _ {Hours Details : Type 0} (id : String) (r : EntryRow Hours Details) where
  -- The row of the entry stays as it is.
  abbrev pub Stays : SyncDb Hours Details → SyncDb Hours Details → Type 0
  Stays s t =
      find_first (has_entry_id id) s.entries ≡ some r
      → find_first (has_entry_id id) t.entries ≡ some r

  pub frame : IsFrame Stays
  frame = (λ s h. h, λ s t u first second h. second (first h))

  aside-Stays :
      (g : SyncDb Hours Details → SyncDb Hours Details)
      → ((s : SyncDb Hours Details) → (g s).entries ≡ s.entries)
      → Keeps Stays (modify g)
  aside-Stays g h = record { kept = λ s found. rw (h s) found }

  find_first-append :
      (rows more : List (EntryRow Hours Details))
      → find_first (has_entry_id id) rows ≡ some r
      → find_first (has_entry_id id) (rows ++ more) ≡ some r
  find_first-append [] more h = absurd (cc h)
  find_first-append (x ∷ rows) more h = elim (Bool-cases (x.entry.time_entry_id === id)) [
    | inl hit ↦ rw hit (rw hit at h)
    | inr miss ↦ rw miss (find_first-append rows more (rw miss at h))
  ]

  find_first-delete_many :
      (stale : EntryRow Hours Details → Bool) (rows : List (EntryRow Hours Details))
      → stale r ≡ false
      → find_first (has_entry_id id) rows ≡ some r
      → find_first (has_entry_id id) (delete_many stale rows) ≡ some r
  find_first-delete_many stale [] fresh h = absurd (cc h)
  find_first-delete_many stale (x ∷ rows) fresh h =
      elim (Bool-cases (x.entry.time_entry_id === id)) [
        | inl hit ↦
            let same : x ≡ r = cc (rw hit at h) in
            let mine : stale x ≡ false = rw same fresh in rw mine (rw hit (rw hit at h))
        | inr miss ↦ elim (Bool-cases (stale x)) [
          | inl gone ↦ rw gone (find_first-delete_many stale rows fresh (rw miss at h))
          | inr stays ↦ rw (stays, miss) (find_first-delete_many stale rows fresh (rw miss at h))
        ]
      ]

  put_entry-other :
      (row : EntryRow Hours Details) (rows : List (EntryRow Hours Details))
      → (row.entry.time_entry_id === id) ≡ false
      → find_first (has_entry_id id) rows ≡ some r
      → find_first (has_entry_id id) (put_entry row rows) ≡ some r
  put_entry-other row rows other h =
      elim (Option-cases (find_first (has_entry_id row.entry.time_entry_id) rows)) [
        | inl e ↦ rw e (find_first-append rows (row ∷ []) h)
        | inr (u, e) ↦
            let own : u.entry.time_entry_id ≡ row.entry.time_entry_id =
              (eq_iff u.entry.time_entry_id row.entry.time_entry_id).0
                (find_first-passes (has_entry_id row.entry.time_entry_id) rows u e) in
            let old : (u.entry.time_entry_id === id) ≡ false = rw own other in
            rw e (
              find_first-update_unique_other (has_entry_id row.entry.time_entry_id) (λ x. row)
                (has_entry_id id) rows u e old other
              ∙ h)
      ]

  pub prune-Stays :
      (slice : EntryRow Hours Details → Bool) (fetched : List (ClickupTimeEntry Hours Details))
      (upserted : List (Upserted Hours Details))
      → slice r ≡ false
      → Keeps Stays (prune_unless_truncated fetched slice upserted)
  prune-Stays slice fetched upserted outside = elim (Bool-cases (ltb (length fetched) 1000)) [
    | inr long ↦ rw long (Keeps-pure frame)
    | inl short ↦ rw short (record {
      kept = λ s h.
          let fresh : is_stale slice (kept_ids upserted) r ≡ false = rw outside refl in
          find_first-delete_many (is_stale slice (kept_ids upserted)) s.entries fresh h;
    })
  ]

  upsert_entry-Stays :
      (row : EntryRow Hours Details)
      → (row.entry.time_entry_id === id) ≡ false
      → Keeps Stays (upsert_entry row)
  upsert_entry-Stays row other = Keeps-bind frame (Keeps-gets frame {g = λ s. s.tasks}) (λ tasks.
      Keeps-bind frame (Keeps-throw_if frame (lacks_task tasks row.entry.task_id) foreign_key)
        (λ _. record { kept = λ s h. put_entry-other row s.entries other h }))

  sync_task-Stays :
      (clickup : Clickup Hours Details) (task : String) → Keeps Stays (sync_task clickup task)
  unfolding sync_task upsert
  sync_task-Stays clickup task =
      Keeps-bind frame (Keeps-or_throw frame (clickup.get_task task) (not_found "task"))
        (λ t. aside-Stays (λ s. record s { tasks = upsert_row t s.tasks }) (λ s. refl))

  exists-Stays : (task : String) → Keeps Stays (exists {Hours = Hours} {Details = Details} task)
  exists-Stays task = Keeps-gets frame

  fetch_unless-Stays :
      (clickup : Clickup Hours Details) (task : String) (known : Bool)
      → Keeps Stays (fetch_unless clickup task known)
  fetch_unless-Stays clickup task true = Keeps-pure frame
  fetch_unless-Stays clickup task false = Keeps-caught frame (sync_task-Stays clickup task)

  pub ensure_task_exists-Stays :
      (clickup : Clickup Hours Details) (task : String)
      → Keeps Stays (ensure_task_exists clickup task)
  unfolding ensure_task_exists
  ensure_task_exists-Stays clickup task =
      Keeps-bind frame (exists-Stays task)
        (λ known. Keeps-bind frame (fetch_unless-Stays clickup task known) (λ _. exists-Stays task))

  pub resolve_tasks-Stays :
      (clickup : Clickup Hours Details) (ids : List String)
      → Keeps Stays (resolve_tasks clickup ids)
  resolve_tasks-Stays clickup [] = Keeps-pure frame
  resolve_tasks-Stays clickup (t ∷ ids) =
      Keeps-bind frame (ensure_task_exists-Stays clickup t) (λ known.
        Keeps-bind frame (resolve_tasks-Stays clickup ids)
          (λ more. Keeps-pure frame {a = if known then t ∷ more else more}))

  enqueue_one-Stays :
      (takes : ReplacementJob Hours Details → Bool) (wanted : Bool)
      (job : ReplacementJob Hours Details)
      → Keeps Stays (enqueue_one takes wanted job)
  enqueue_one-Stays takes false job = Keeps-pure frame
  enqueue_one-Stays takes true job =
      Keeps-bind frame (Keeps-throw_if frame (not (takes job)) queue_refused) (λ _.
        aside-Stays (λ s. record s { replacement_jobs = push_job job s.replacement_jobs })
          (λ s. refl))

  pub enqueue_matching-Stays :
      (takes : ReplacementJob Hours Details → Bool) (active : List String)
      (fallback : Option String) (upserted : List (Upserted Hours Details))
      → Keeps Stays (enqueue_matching takes active fallback upserted)
  enqueue_matching-Stays takes active fallback [] = Keeps-pure frame
  enqueue_matching-Stays takes active fallback (u ∷ rest) =
      Keeps-bind frame (enqueue_one-Stays takes _ (replacement_job fallback u))
        (λ _. enqueue_matching-Stays takes active fallback rest)

  module _ (tag_name : String → String) (rounded_product : ℕ → Hours → ℕ) (prefs : CostPreferences)
      (rates : List RateRow) where
    persist_one-Stays :
        (due_date : Option String → Option ℕ) (skipped : Bool)
        (n : NormalizedTimeEntry Hours Details) (e : ClickupTimeEntry Hours Details)
        (cache : Option RateCache)
        (next : Option RateCache → Action (SyncDb Hours Details) (List (Upserted Hours Details)))
        → (n.time_entry_id === id) ≡ false
        → ((c : Option RateCache) → Keeps Stays (next c))
        → Keeps Stays
            (persist_one tag_name rounded_product prefs rates due_date skipped n e cache next)
    persist_one-Stays due_date true n e cache next other more = more cache
    persist_one-Stays due_date false n e cache next other more =
        Keeps-bind frame
          (upsert_entry-Stays
            (record {
              entry = n;
              cost = (price tag_name rounded_product prefs rates (due_date n.task_id) n cache).0;
            })
            other)
          (λ _.
            Keeps-bind frame
              (more (price tag_name rounded_product prefs rates (due_date n.task_id) n cache).1)
              (λ done. Keeps-pure frame {a = upserted_of tag_name n e ∷ done}))

    pub persist_loop-Stays :
        (due_date : Option String → Option ℕ) (resolvable : List String)
        (fetched : List (ClickupTimeEntry Hours Details)) (cache : Option RateCache)
        → Unfetched id fetched
        → Keeps Stays
            (persist_loop tag_name rounded_product prefs rates due_date resolvable fetched cache)
    persist_loop-Stays due_date resolvable [] cache missing = Keeps-pure frame
    persist_loop-Stays due_date resolvable (e ∷ fetched) cache missing =
        round (truthy e.id) missing.0
          (λ c. persist_loop-Stays due_date resolvable fetched c missing.1)
      where
        round :
            (found : Option String)
            → is_text_id id found ≡ false
            → ((c : Option RateCache)
                → Keeps Stays (
                    persist_loop tag_name rounded_product prefs rates due_date resolvable fetched
                      c))
            → Keeps Stays (do
              n ← normalize_with found e
              persist_one tag_name rounded_product prefs rates due_date
                  (is_unresolved resolvable n.task_id)
                  n
                  e
                  cache
                  (persist_loop tag_name rounded_product prefs rates due_date resolvable fetched))
        round none other more = record { kept = λ s h. h }
        round (some i) other more = record {
          kept =
              (persist_one-Stays due_date (is_unresolved resolvable (truthy e.task_id))
                (normalized i e) e cache
                (persist_loop tag_name rounded_product prefs rates due_date resolvable fetched)
                other more).kept;
        }
