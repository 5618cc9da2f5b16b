-- ===== src/Sync/Replacement.antt =====
-- assignee-replacement.service.ts: an entry that is tagged with the name of an assignee is created
-- again for that assignee, and the original is deleted, in ClickUp and in the table.
use clickup_sync.Common.{
  ℕ, String, Bool, not, Option, none, some, List, [], ◌∷◌, ◌++◌, ◌===◌, if◌then◌else◌, map,
  find_first, find_many, delete_many, sort_by, Result, ok, err, Action, ◌>>=◌, ◌>>◌, pure, gets,
  modify, throw, throw_if, internal_error, row_refused,
}
use clickup_sync.Rates.Table.{RateRow}
use clickup_sync.Cost.Calculator.{CostPreferences, RateMatching, start, due}
use clickup_sync.Sync.Store.{NormalizedTimeEntry, SyncDb, ReplacementJob, TagAssignee}
use clickup_sync.Sync.TimeEntries.{upsert_entry, delete_by_time_entry_id, includes}
use clickup_sync.Sync.Service.{price, due_in, push_name}

pub data ReplacementStatus : Type 0 where
  replaced skipped no_mapping : ReplacementStatus

-- A row of time_entry_replacements.
pub record Replacement : Type 0 where
  pub original_entry_id : String
  pub replacement_entry_id : String
  pub task_id : String
  pub original_user_id : String
  pub replaced_user_id : String
  pub tag_name : String

-- What the service and ClickUp hold: the entries of ClickUp by their ids, and, of each entry that was
-- created there, the entry that it replaces.
pub record Exchange (Hours Details : Type 0) : Type 0 where
  pub db : SyncDb Hours Details
  pub replacements : List Replacement
  pub remote_ids : List String
  pub created_for : List String

pub record CreatedEntry (Details : Type 0) : Type 0 where
  pub id : String
  pub details : Details

-- How a call of ClickUp ends: it is carried out and answered, or refused, or carried out with the
-- answer lost.
pub data Answer : Type 0 where
  answered refused lost : Answer

-- What the outside does during one attempt of the job.
pub record Attempt (Details : Type 0) : Type 0 where
  pub creation : Answer
  pub created : CreatedEntry Details
  pub takes_audit_row : Bool
  pub deletion : Answer

abbrev pub has_original : String → Replacement → Bool
has_original id r = r.original_entry_id === id

abbrev pub without : String → List String → List String
without id ids = delete_many (λ x. x === id) ids

-- The names of the entry, lower-cased, those that are '' left out.
abbrev pub lowered : (String → String) → List String → List String
lowered to_lower_case [] = []
lowered to_lower_case (t ∷ tags) = push_name (to_lower_case t) (lowered to_lower_case tags)

abbrev pub first_named : List String → List String → Option String
first_named names [] = none
first_named names (t ∷ tags) = if includes names t then some t else first_named names tags

abbrev mapping_of :
    (String → String) → List TagAssignee → Option String → Option (String × TagAssignee)
mapping_of to_lower_case assignees none = none
mapping_of to_lower_case assignees (some tag) =
    elim (find_first (λ (m : TagAssignee). to_lower_case m.tag_name === tag) assignees) [
      | none ↦ none
      | some m ↦ some (tag, m)
    ]

module _ {Hours Details : Type 0} where
  -- A method of the repositories, within the whole.
  abbrev pub on_db :
      {A : Type 0} → Action (SyncDb Hours Details) A → Action (Exchange Hours Details) A
  on_db m w = ((m w.db).0, record w { db = (m w.db).1 })

  abbrev pub find_mapping :
      (String → String → Bool)
      → (String → String)
      → List String
      → SyncDb Hours Details
      → Option (String × TagAssignee)
  find_mapping text_before to_lower_case tags s =
      let active =
        sort_by (λ (a b : TagAssignee). text_before a.tag_name b.tag_name)
          (find_many (λ (t : TagAssignee). t.active) s.tag_assignees) in
      let names = map (λ (t : TagAssignee). to_lower_case t.tag_name) active in
      mapping_of to_lower_case active (first_named names (lowered to_lower_case tags))

  -- A 404 of the deletion counts as done.
  abbrev pub delete_original : Answer → String → Action (Exchange Hours Details) (Unit {0})
  delete_original answered id = modify (λ w. record w { remote_ids = without id w.remote_ids })
  delete_original refused id = throw internal_error
  delete_original lost id = do
    modify (λ w. record w { remote_ids = without id w.remote_ids })
    throw internal_error

  abbrev pub note_created : String → String → Action (Exchange Hours Details) (Unit {0})
  note_created new original = modify (λ w. record w {
    remote_ids = w.remote_ids ++ (new ∷ []);
    created_for = original ∷ w.created_for;
  })

  abbrev pub create_time_entry :
      Answer
      → CreatedEntry Details
      → String
      → Action (Exchange Hours Details) (CreatedEntry Details)
  create_time_entry answered new original = note_created new.id original >> pure new
  create_time_entry refused new original = throw internal_error
  create_time_entry lost new original = note_created new.id original >> throw internal_error

  abbrev pub write_audit_row :
      Attempt Details → Replacement → Action (Exchange Hours Details) (Unit {0})
  write_audit_row a row = do
    throw_if (not a.takes_audit_row) row_refused
    modify (λ w. record w { replacements = w.replacements ++ (row ∷ []) })

  abbrev pub audit_row : ReplacementJob Hours Details → String × TagAssignee → String → Replacement
  audit_row job (tag, mapping) new = record {
    original_entry_id = job.entry.time_entry_id;
    replacement_entry_id = new;
    task_id = job.task_id;
    original_user_id = job.original_user_id;
    replaced_user_id = mapping.clickup_user_id;
    tag_name = tag;
  }

  abbrev pub replacement_entry :
      ReplacementJob Hours Details
      → String
      → CreatedEntry Details
      → NormalizedTimeEntry Hours Details
  replacement_entry job user new = record {
    time_entry_id = new.id;
    task_id = some job.task_id;
    user_id = some user;
    start_time = some job.start_ms;
    duration_hours = job.entry.duration_hours;
    billable = job.entry.billable;
    details = new.details;
  }

  abbrev task_due : RateMatching → String → SyncDb Hours Details → Option ℕ
  task_due start task s = none
  task_due due task s = due_in s.tasks task

  -- The audit row comes right behind the creation.
  abbrev pub create_replacement :
      Attempt Details
      → ReplacementJob Hours Details
      → String × TagAssignee
      → Action (Exchange Hours Details) (CreatedEntry Details)
  create_replacement a job mapping = do
    new ← create_time_entry a.creation a.created job.entry.time_entry_id
    write_audit_row a (audit_row job mapping new.id)
    pure new

  -- An entry that was replaced before is only removed.
  abbrev pub resume :
      Attempt Details
      → ReplacementJob Hours Details
      → Action (Exchange Hours Details) ReplacementStatus
  resume a job = do
    delete_original a.deletion job.entry.time_entry_id
    on_db (delete_by_time_entry_id job.entry.time_entry_id)
    pure skipped

  module _ (text_before : String → String → Bool) (to_lower_case : String → String)
      (rounded_product : ℕ → Hours → ℕ) (prefs : CostPreferences) (rates : List RateRow) where
    abbrev pub store_entry :
        ReplacementJob Hours Details
        → String
        → CreatedEntry Details
        → Action (SyncDb Hours Details) (Unit {0})
    store_entry job user new = do
      due_date ← gets (λ s. task_due prefs.rate_matching job.task_id s)
      let entry = replacement_entry job user new
      upsert_entry (record {
        entry = entry;
        cost = (price (λ (t : String). t) rounded_product prefs rates due_date entry none).0;
      })

    abbrev pub replace_mapped :
        Attempt Details
        → ReplacementJob Hours Details
        → Option (String × TagAssignee)
        → Action (Exchange Hours Details) ReplacementStatus
    replace_mapped a job none = pure no_mapping
    replace_mapped a job (some mapping) = do
      new ← create_replacement a job mapping
      delete_original a.deletion job.entry.time_entry_id
      on_db (store_entry job mapping.1.clickup_user_id new)
      on_db (delete_by_time_entry_id job.entry.time_entry_id)
      pure replaced

    abbrev pub replace_found :
        Attempt Details
        → ReplacementJob Hours Details
        → Option Replacement
        → Action (Exchange Hours Details) ReplacementStatus
    replace_found a job (some row) = resume a job
    replace_found a job none = do
      mapping ← gets (λ w. find_mapping text_before to_lower_case job.tags w.db)
      replace_mapped a job mapping

    unfoldable pub replace_entry :
        Attempt Details
        → ReplacementJob Hours Details
        → Action (Exchange Hours Details) ReplacementStatus
    replace_entry a job = do
      existing ← gets (λ w. find_first (has_original job.entry.time_entry_id) w.replacements)
      replace_found a job existing

    -- A job that throws is tried again; one that returns is not.
    abbrev pub retried :
        Result ReplacementStatus
        → (Exchange Hours Details → Option ReplacementStatus × Exchange Hours Details)
        → Exchange Hours Details
        → Option ReplacementStatus × Exchange Hours Details
    retried (ok status) next w = (some status, w)
    retried (err e) next w = next w

    unfoldable pub try_all :
        ReplacementJob Hours Details
        → List (Attempt Details)
        → Exchange Hours Details
        → Option ReplacementStatus × Exchange Hours Details
    try_all job [] w = (none, w)
    try_all job (a ∷ attempts) w =
        retried (replace_entry a job w).0 (try_all job attempts) (replace_entry a job w).1
