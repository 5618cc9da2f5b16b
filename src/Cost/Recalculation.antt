-- ===== src/Cost/Recalculation.antt =====
-- cost-recalculation.service.ts over the table of time entries. The rows stand in the order of their
-- ids, in which the batches read them.
pub mod Progress
pub mod Batches
pub mod Idempotence
use clickup_sync.Common.{
  ℕ, zero, suc, ◌+◌, String, Bool, true, false, Option, none, some, List, [], ◌∷◌, ◌===◌, ltb,
  if◌then◌else◌, length, find_first, find_many, update_unique,
}
use clickup_sync.Rates.Table.{RateRow}
use clickup_sync.Cost.Calculator.{RateCache, CostPreferences, Cost, CostStatus, Request, calculate}

abbrev pub batch_size : ℕ
batch_size = 1000

pub record TimeEntry (Hours : Type 0) : Type 0 where
  pub time_entry_id : String
  pub task_id : Option String
  pub user_id : Option String
  pub start_time : Option ℕ
  pub duration_hours : Hours
  pub billable : Bool
  pub cost : Cost

abbrev pub is_user : String → Option String → Bool
is_user id none = false
is_user id (some u) = u === id

module _ {Hours : Type 0} where
  abbrev pub has_entry_id : String → TimeEntry Hours → Bool
  has_entry_id id e = e.time_entry_id === id

  -- `opts.assigneeId ? { userId: opts.assigneeId } : {}`, where '' is falsy.
  abbrev pub in_scope : Option String → TimeEntry Hours → Bool
  in_scope none e = true
  in_scope (some id) e = if id === "" then true else is_user id e.user_id

  -- The rows behind the cursor's.
  abbrev pub after_cursor : Option String → List (TimeEntry Hours) → List (TimeEntry Hours)
  after_cursor none rows = rows
  after_cursor (some id) [] = []
  after_cursor (some id) (e ∷ rest) =
      let found = after_cursor (some id) rest in if has_entry_id id e then rest else found

  abbrev pub take : ℕ → List (TimeEntry Hours) → List (TimeEntry Hours)
  take zero rows = []
  take (suc n) [] = []
  take (suc n) (e ∷ rest) = e ∷ take n rest

  abbrev pub put_cost : Cost → TimeEntry Hours → TimeEntry Hours
  put_cost c e = record e { cost = c }

  -- The cursor behind a batch.
  abbrev pub last_id : Option String → List (TimeEntry Hours) → Option String
  last_id cursor [] = cursor
  last_id cursor (e ∷ rest) = last_id (some e.time_entry_id) rest

  -- What a round comes to: the table as read if there was no row, the end after a short batch, and
  -- the next round otherwise.
  abbrev pub after_batch : ℕ → List (TimeEntry Hours) → {R : Type 0} → R → R → Option R → Option R
  after_batch batch [] unchanged done next = some unchanged
  after_batch batch (e ∷ page) unchanged done next =
      if ltb (length (e ∷ page)) batch then some done else next

  -- The arguments of `calculate` for a row; `due_date` is what the tasks give for the row's task.
  abbrev pub request_of : (Option String → Option ℕ) → TimeEntry Hours → Request Hours
  request_of due_date e = record {
    user_id = e.user_id;
    start_time = e.start_time;
    duration_hours = e.duration_hours;
    billable = some e.billable;
    due_date = due_date e.task_id;
  }

module _ {Hours : Type 0} (rounded_product : ℕ → Hours → ℕ) (prefs : CostPreferences)
    (rates : List RateRow) (due_date : Option String → Option ℕ) where
  -- The loop over one batch: the cache and the table after it.
  abbrev pub recost_batch :
      List (TimeEntry Hours)
      → Option RateCache
      → List (TimeEntry Hours)
      → Option RateCache × List (TimeEntry Hours)
  recost_batch [] cache rows = (cache, rows)
  recost_batch (e ∷ page) cache rows =
      let (cost, cache') = calculate rounded_product prefs rates (request_of due_date e) cache in
      recost_batch page cache' (update_unique (has_entry_id e.time_entry_id) (put_cost cost) rows)

  -- `for (;;)`, on fuel: the numbers of rows scanned and updated, and the table.
  unfoldable pub recalculate_from :
      ℕ
      → ℕ
      → Option String
      → Option String
      → Option RateCache
      → ℕ
      → ℕ
      → List (TimeEntry Hours)
      → Option (ℕ × ℕ × List (TimeEntry Hours))
  recalculate_from zero batch assignee cursor cache scanned updated rows = none
  recalculate_from (suc fuel) batch assignee cursor cache scanned updated rows =
      let page = take batch (after_cursor cursor (find_many (in_scope assignee) rows)) in
      let (cache', rows') = recost_batch page cache rows in
      let n = length page in
      let next =
        recalculate_from fuel batch assignee (last_id cursor page) cache' (scanned + n)
          (updated + n) rows' in
      after_batch batch page (scanned, updated, rows) (scanned + n, updated + n, rows') next

  -- A batch has a row at least, so there are no more rounds than rows, and one.
  unfoldable pub recalculate :
      Option String → List (TimeEntry Hours) → Option (ℕ × ℕ × List (TimeEntry Hours))
  recalculate assignee rows =
      recalculate_from (suc (length rows)) batch_size assignee none (some []) 0 0 rows
