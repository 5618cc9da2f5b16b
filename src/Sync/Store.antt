-- ===== src/Sync/Store.antt =====
-- The tables of tasks and time entries, and what ClickUp answers. `Details` holds the columns that
-- the code passes on as they are.
use clickup_sync.Common.{ℕ, String, Bool, true, false, Option, none, some, List, ◌===◌}
use clickup_sync.Cost.Calculator.{Cost}

pub record NormalizedTask (Details : Type 0) : Type 0 where
  pub task_id : String
  pub space_id : Option String
  pub space_name : Option String
  pub markdown_description : Option String
  pub due_date : Option ℕ
  pub details : Details

pub record TaskRow (Details : Type 0) : Type 0 where
  pub task : NormalizedTask Details
  pub is_deleted : Bool
  pub deleted_at : Option ℕ
  pub sync_count : ℕ

pub record NormalizedTimeEntry (Hours Details : Type 0) : Type 0 where
  pub time_entry_id : String
  pub task_id : Option String
  pub user_id : Option String
  pub start_time : Option ℕ
  pub duration_hours : Hours
  pub billable : Bool
  pub details : Details

pub record EntryRow (Hours Details : Type 0) : Type 0 where
  pub entry : NormalizedTimeEntry Hours Details
  pub cost : Cost

-- A job of the queue of replacements, with the entry whose fields it carries.
pub record ReplacementJob (Hours Details : Type 0) : Type 0 where
  pub job_id : String
  pub entry : NormalizedTimeEntry Hours Details
  pub task_id : String
  pub start_ms : ℕ
  pub original_user_id : String
  pub tags : List String

pub record TagAssignee : Type 0 where
  pub tag_name : String
  pub clickup_user_id : String
  pub active : Bool

pub record SyncDb (Hours Details : Type 0) : Type 0 where
  pub tasks : List (TaskRow Details)
  pub entries : List (EntryRow Hours Details)
  pub tag_assignees : List TagAssignee
  pub replacement_jobs : List (ReplacementJob Hours Details)

-- An entry as ClickUp returns it, with its numbers read; `id` may be missing.
pub record ClickupTimeEntry (Hours Details : Type 0) : Type 0 where
  pub id : Option String
  pub task_id : Option String
  pub user_id : Option String
  pub start_time : Option ℕ
  pub duration_hours : Hours
  pub billable : Bool
  pub tags : List (Option String)
  pub details : Details

-- The answers of ClickUp during a call; none is an exception, and `is_gone` says whether it is a
-- 404. The entries are asked for by the task, or by the space, with the users and the window.
pub record Clickup (Hours Details : Type 0) : Type 0 where
  pub get_task : String → Option (NormalizedTask Details)
  pub is_gone : String → Bool
  pub get_time_entries :
      String → List String → ℕ → ℕ → Option (List (ClickupTimeEntry Hours Details))
  pub get_time_entries_window :
      String → List String → ℕ → ℕ → Option (List (ClickupTimeEntry Hours Details))
  pub member_ids : List String

abbrev pub is_some : {A : Type 0} → Option A → Bool
is_some none = false
is_some (some a) = true

abbrev pub is_text_id : String → Option String → Bool
is_text_id s none = false
is_text_id s (some t) = t === s
