-- ===== src/Sync/Service.antt =====
-- syncTaskTimeEntries and reconcileWindow of time-entries.service.ts. JavaScript's trim and
-- toLowerCase are the parameter `tag_name`, what the queue takes is `takes`.
use Prim.Native.String.{◌++◌ as append}
use clickup_sync.Common.{
  ℕ, String, Bool, true, false, not, ◌||◌, Option, none, some, List, [], ◌∷◌, ◌++◌, ◌===◌,
  if◌then◌else◌, find_first, find_many, map, Action, ◌>>=◌, ◌>>◌, gets, modify, pure, throw_if,
  queue_refused,
}
use clickup_sync.Rates.Table.{RateRow}
use clickup_sync.Cost.Calculator.{
  RateCache, CostPreferences, RateMatching, start, due, Cost, Request, calculate,
}
use clickup_sync.Sync.Store.{
  TaskRow, NormalizedTimeEntry, SyncDb, ClickupTimeEntry, Clickup, ReplacementJob, TagAssignee,
  is_some,
}
use clickup_sync.Sync.Tasks.{has_task_id}
use clickup_sync.Sync.TimeEntries.{includes, upsert_entry, normalize_time_entry, ensure_task_exists}

pub record Upserted (Hours Details : Type 0) : Type 0 where
  pub normalized : NormalizedTimeEntry Hours Details
  pub raw_tags : List String

abbrev pub or_empty : Option String → String
or_empty none = ""
or_empty (some s) = s

abbrev pub or_zero : Option ℕ → ℕ
or_zero none = 0
or_zero (some n) = n

-- `if (name) out.push(name)`
abbrev pub push_name : String → List String → List String
push_name name out = if name === "" then out else name ∷ out

abbrev pub extract_entry_tag_names : (String → String) → List (Option String) → List String
extract_entry_tag_names tag_name [] = []
extract_entry_tag_names tag_name (none ∷ tags) = extract_entry_tag_names tag_name tags
extract_entry_tag_names tag_name (some t ∷ tags) =
    push_name (tag_name t) (extract_entry_tag_names tag_name tags)

-- `[...new Set(ids)]` of the ids that are truthy.
abbrev push_distinct : String → List String → List String → List String
push_distinct id known rest = if (id === "") || includes known id then rest else id ∷ rest

abbrev pub is_unresolved : List String → Option String → Bool
is_unresolved resolvable none = false
is_unresolved resolvable (some id) = not (includes resolvable id)

abbrev pub has_active_tag : List String → List String → Bool
has_active_tag active [] = false
has_active_tag active (t ∷ tags) = includes active t || has_active_tag active tags

module _ {Details : Type 0} where
  -- `dueByTask?.get(taskId ?? '') ?? null`
  abbrev pub due_in : List (TaskRow Details) → String → Option ℕ
  due_in tasks id = elim (find_first (has_task_id id) tasks) [
    | none ↦ none
    | some row ↦ row.task.due_date
  ]

  abbrev pub due_of : RateMatching → List (TaskRow Details) → List String → Option String → Option ℕ
  due_of start tasks resolvable task_id = none
  due_of due tasks resolvable task_id =
      if includes resolvable (or_empty task_id) then due_in tasks (or_empty task_id) else none

module _ {Hours Details : Type 0} where
  abbrev pub distinct_task_ids : List (ClickupTimeEntry Hours Details) → List String → List String
  distinct_task_ids [] known = []
  distinct_task_ids (e ∷ entries) known =
      push_distinct (or_empty e.task_id) known
        (distinct_task_ids entries (or_empty e.task_id ∷ known))

  abbrev pub resolve_tasks :
      Clickup Hours Details → List String → Action (SyncDb Hours Details) (List String)
  resolve_tasks clickup [] = pure []
  resolve_tasks clickup (id ∷ ids) = do
    known ← ensure_task_exists clickup id
    more ← resolve_tasks clickup ids
    pure (if known then id ∷ more else more)

  abbrev request_of : Option ℕ → NormalizedTimeEntry Hours Details → Request Hours
  request_of due_date n = record {
    user_id = n.user_id;
    start_time = n.start_time;
    duration_hours = n.duration_hours;
    billable = some n.billable;
    due_date = due_date;
  }

  abbrev pub upserted_of :
      (String → String)
      → NormalizedTimeEntry Hours Details
      → ClickupTimeEntry Hours Details
      → Upserted Hours Details
  upserted_of tag_name n e = record {
    normalized = n;
    raw_tags = extract_entry_tag_names tag_name e.tags;
  }

  module _ (tag_name : String → String) (rounded_product : ℕ → Hours → ℕ) (prefs : CostPreferences)
      (rates : List RateRow) where
    abbrev pub price :
        Option ℕ → NormalizedTimeEntry Hours Details → Option RateCache → Cost × Option RateCache
    price due_date n cache = calculate rounded_product prefs rates (request_of due_date n) cache

    -- One round of the loop; `next` is the others, with the rate cache.
    abbrev pub persist_one :
        (Option String → Option ℕ)
        → Bool
        → NormalizedTimeEntry Hours Details
        → ClickupTimeEntry Hours Details
        → Option RateCache
        → (Option RateCache → Action (SyncDb Hours Details) (List (Upserted Hours Details)))
        → Action (SyncDb Hours Details) (List (Upserted Hours Details))
    persist_one due_date true n e cache next = next cache
    persist_one due_date false n e cache next = do
      upsert_entry (record { entry = n; cost = (price (due_date n.task_id) n cache).0 })
      more ← next (price (due_date n.task_id) n cache).1
      pure (upserted_of tag_name n e ∷ more)

    abbrev pub persist_loop :
        (Option String → Option ℕ)
        → List String
        → List (ClickupTimeEntry Hours Details)
        → Option RateCache
        → Action (SyncDb Hours Details) (List (Upserted Hours Details))
    persist_loop due_date resolvable [] cache = pure []
    persist_loop due_date resolvable (e ∷ entries) cache = do
      n ← normalize_time_entry e
      persist_one due_date (is_unresolved resolvable n.task_id) n e cache
          (persist_loop due_date resolvable entries)

    unfoldable pub persist_entries :
        Clickup Hours Details
        → List (ClickupTimeEntry Hours Details)
        → Action (SyncDb Hours Details) (List (Upserted Hours Details))
    persist_entries clickup entries = do
      resolvable ← resolve_tasks clickup (distinct_task_ids entries [])
      tasks ← gets (λ s. s.tasks)
      persist_loop (due_of prefs.rate_matching tasks resolvable) resolvable entries (some [])

  abbrev pub replacement_job : Option String → Upserted Hours Details → ReplacementJob Hours Details
  replacement_job fallback u = record {
    job_id = append "replace-" u.normalized.time_entry_id;
    entry = u.normalized;
    task_id = elim u.normalized.task_id [ some t ↦ t | none ↦ or_empty fallback ];
    start_ms = or_zero u.normalized.start_time;
    original_user_id = or_empty u.normalized.user_id;
    tags = u.raw_tags;
  }

  -- The queue keeps one job of an id.
  abbrev pub push_job :
      ReplacementJob Hours Details
      → List (ReplacementJob Hours Details)
      → List (ReplacementJob Hours Details)
  push_job job jobs =
      if is_some (find_first (λ (j : ReplacementJob Hours Details). j.job_id === job.job_id) jobs)
      then jobs
      else jobs ++ (job ∷ [])

  module _ (takes : ReplacementJob Hours Details → Bool) where
    abbrev pub enqueue_one :
        Bool → ReplacementJob Hours Details → Action (SyncDb Hours Details) (Unit {0})
    enqueue_one false job = pure tt
    enqueue_one true job = do
      throw_if (not (takes job)) queue_refused
      modify (λ s. record s { replacement_jobs = push_job job s.replacement_jobs })

    abbrev pub enqueue_matching :
        List String
        → Option String
        → List (Upserted Hours Details)
        → Action (SyncDb Hours Details) (Unit {0})
    enqueue_matching active fallback [] = pure tt
    enqueue_matching active fallback (u ∷ rest) = do
      enqueue_one (has_active_tag active u.raw_tags) (replacement_job fallback u)
      enqueue_matching active fallback rest

    -- `to_lower_case` is JavaScript's.
    abbrev pub enqueue_tag_replacements :
        (String → String)
        → List (Upserted Hours Details)
        → Option String
        → Action (SyncDb Hours Details) (Unit {0})
    enqueue_tag_replacements to_lower_case upserted fallback = do
      tags ← gets (λ s. find_many (λ (t : TagAssignee). t.active) s.tag_assignees)
      enqueue_matching (map (λ (t : TagAssignee). to_lower_case t.tag_name) tags) fallback upserted
