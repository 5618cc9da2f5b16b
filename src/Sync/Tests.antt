-- ===== src/Sync/Tests.antt =====
-- A synchronisation of one task, with rows of another user and of another task.
use clickup_sync.Common.{
  ℕ, ◌*◌, ◌≡◌, refl, ap, Result, ok, map, String, true, false, Option, none, some, List, [], ◌∷◌,
  find_first, inl, inr, arith,
}
use clickup_sync.Cost.Calculator.{
  CostPreferences, start, no_rate_found, calculate, resolve_rate, find_rate,
}
use clickup_sync.Sync.Store.{
  NormalizedTask, EntryRow, SyncDb, ClickupTimeEntry, Clickup, is_text_id,
}
use clickup_sync.Sync.Tasks.{upsert, sync_task}
use clickup_sync.Sync.TimeEntries.{has_entry_id, ensure_task_exists}
use clickup_sync.Sync.Service.{persist_entries}
use clickup_sync.Sync.Handlers.{sync_task_time_entries}
use clickup_sync.Sync.Found.{Unfetched}
use clickup_sync.Sync.Outside.{IsOutside}
use clickup_sync.Sync.Pruned.{sync_task_time_entries-IsOutside}
use clickup_sync.Sync.Untouched.{sync_task_time_entries-Stays}

abbrev pub task_of : String → NormalizedTask ℕ
task_of id = record {
  task_id = id;
  space_id = some "s1";
  space_name = none;
  markdown_description = none;
  due_date = none;
  details = 0;
}

abbrev pub stored : String → String → EntryRow ℕ ℕ
stored id user = record {
  entry = record {
    time_entry_id = id;
    task_id = some "t1";
    user_id = some user;
    start_time = some 5000;
    duration_hours = 2;
    billable = true;
    details = 0;
  };
  cost = record {
    rate_id = none;
    currency = "USD";
    hourly_rate_cents = 0;
    cost_cents = 0;
    status = no_rate_found;
  };
}

abbrev pub db : SyncDb ℕ ℕ
db = record {
  tasks = [];
  entries = [];
  tag_assignees = record { tag_name = "ahmad"; clickup_user_id = "u7"; active = true } ∷ [];
  replacement_jobs = [];
}

-- An entry of `u1` that was deleted, and one of `u2`, who is not asked for.
abbrev pub before : SyncDb ℕ ℕ
before = record db {
  tasks =
      record { task = task_of "t1"; is_deleted = false; deleted_at = none; sync_count = 1 } ∷ [];
  entries = stored "e1" "u1" ∷ stored "e2" "u2" ∷ [];
}

abbrev tracked : ClickupTimeEntry ℕ ℕ
tracked = record {
  id = some "e3";
  task_id = some "t1";
  user_id = some "u1";
  start_time = some 6000;
  duration_hours = 1;
  billable = true;
  tags = some "ahmad" ∷ [];
  details = 7;
}

abbrev pub clickup : Clickup ℕ ℕ
clickup = record {
  get_task = λ id. some (task_of id);
  is_gone = λ id. false;
  get_time_entries = λ task users start_ms end_ms. some (tracked ∷ []);
  get_time_entries_window = λ space users start_ms end_ms. some (tracked ∷ []);
  member_ids = "u1" ∷ "u2" ∷ [];
}

abbrev pub prefs : CostPreferences
prefs = record { rate_matching = start; non_billable_zero = true; excluded_assignee_ids = [] }

abbrev sync : Option (List String) → SyncDb ℕ ℕ → Result ℕ × SyncDb ℕ ℕ
sync users s =
    sync_task_time_entries (λ name. name) (λ name. name) (λ cents hours. cents * hours) prefs []
      (λ job. true) clickup "t1" users (some 1000) (some 9000) 10000 s

ids : SyncDb ℕ ℕ → List String
ids s = map (λ (row : EntryRow ℕ ℕ). row.entry.time_entry_id) s.entries

sync-one_user :
    ((sync (some ("u1" ∷ [])) before).0 ≡ ok 1)
    × (ids (sync (some ("u1" ∷ [])) before).1 ≡ "e2" ∷ "e3" ∷ [])
unfolding ids sync_task_time_entries ensure_task_exists persist_entries calculate resolve_rate
    find_rate
sync-one_user = (refl, refl)

sync_all_members : ids (sync none before).1 ≡ "e3" ∷ []
unfolding ids sync_task_time_entries ensure_task_exists persist_entries calculate resolve_rate
    find_rate
sync_all_members = refl

sync-new_task : ids (sync none db).1 ≡ "e3" ∷ []
unfolding ids sync_task_time_entries ensure_task_exists sync_task upsert persist_entries calculate
    resolve_rate find_rate
sync-new_task = refl

sync_task_time_entries-Stays_example :
    find_first (has_entry_id "e2") (sync (some ("u1" ∷ [])) before).1.entries
    ≡ some (stored "e2" "u2")
sync_task_time_entries-Stays_example =
    sync_task_time_entries-Stays (λ name. name) (λ name. name) (λ cents hours. cents * hours) prefs
      [] (λ job. true) clickup "e2" (stored "e2" "u2") "t1" (some ("u1" ∷ [])) (some 1000)
      (some 9000) 10000 before u2_outside e3_only refl
  where
    e3_only :
        (fetched : List (ClickupTimeEntry ℕ ℕ))
        → some (tracked ∷ []) ≡ some fetched
        → Unfetched "e2" fetched
    e3_only fetched e = let same : tracked ∷ [] ≡ fetched = cc e in rw (← same) (refl, tt)

    u2_outside : IsOutside "t1" ("u1" ∷ []) (1000, 9000) (stored "e2" "u2")
    u2_outside =
        inr
          (inl ((λ e. let apart : true ≡ false = ap (is_text_id "u2") e in absurd (cc apart)), tt))

sync_task_time_entries-IsOutside_example :
    IsOutside "t1" ("u1" ∷ []) (1000, 9000) (stored "e2" "u2")
sync_task_time_entries-IsOutside_example =
    sync_task_time_entries-IsOutside (λ name. name) (λ name. name) (λ cents hours. cents * hours)
      prefs [] (λ job. true) clickup "e2" "t1" (some ("u1" ∷ [])) (some 1000) (some 9000) 10000
      before (tracked ∷ []) 1 (stored "e2" "u2") refl refl (omega arith) (refl, tt) sync-one_user.0
      sync_task_time_entries-Stays_example
