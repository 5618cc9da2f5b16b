-- ===== src/Reports/Timesheet.antt =====
-- timesheet.assemble.ts. A calendar date is the number of days since 1970, which orders dates as
-- their texts do; an amount in dollars is its number of cents. `Hours` are doubles.
pub mod Days
pub mod Rows
use Prim.Native.Nat.{Ordering}
use clickup_sync.Common.{
  ℕ, zero, suc, ◌+◌, ◌-◌, ◌%◌, String, Bool, true, false, not, ◌||◌, Option, none, some, List, [],
  ◌∷◌, map, ltb, leb, ◌==◌, if◌then◌else◌, sort_by, group_rows, rows_of, keys_of, add_all,
}

pub record TimesheetAggRow (Hours : Type 0) : Type 0 where
  pub day : ℕ
  pub task_id : String
  pub task_name : Option String
  pub hours : Hours
  pub valid_cost_cents : ℕ
  pub entry_count : ℕ
  pub missing_rate_count : ℕ

pub record TimesheetTask (Hours : Type 0) : Type 0 where
  pub task_id : String
  pub task_name : Option String
  pub hours : Hours
  pub cost_aud : Option ℕ
  pub entry_count : ℕ
  pub missing_rate_count : ℕ

pub record TimesheetDay (Hours : Type 0) : Type 0 where
  pub date : ℕ
  pub weekday : ℕ
  pub is_weekend : Bool
  pub tasks : List (TimesheetTask Hours)
  pub subtotal_hours : Hours
  pub subtotal_cost_aud : Option ℕ
  pub missing_rate_count : ℕ

pub record Timesheet (Hours : Type 0) : Type 0 where
  pub days : List (TimesheetDay Hours)
  pub total_hours : Hours
  pub total_cost_aud : Option ℕ
  pub missing_rate_count : ℕ

-- The loop over the dates, on fuel, one round for each date.
abbrev pub date_loop : (fuel t end_of : ℕ) → List ℕ
date_loop zero t end_of = []
date_loop (suc fuel) t end_of =
    let rest = t ∷ date_loop fuel (t + 1) end_of in if leb t end_of then rest else []

unfoldable pub each_date : ℕ → ℕ → List ℕ
each_date from until = date_loop (suc until - from) from until

-- 0 is Sunday; the first of January 1970 was a Thursday.
abbrev pub weekday_of : ℕ → ℕ
weekday_of date = (date + 4) % 7

abbrev pub is_weekend : ℕ → Bool
is_weekend date = (weekday_of date == 0) || (weekday_of date == 6)

abbrev pub cost : ℕ → ℕ → ℕ → Option ℕ
cost valid_cost_cents entry_count missing_rate_count =
    if ltb missing_rate_count entry_count then some valid_cost_cents else none

abbrev pub working_days : List ℕ → List ℕ
working_days [] = []
working_days (d ∷ dates) = let rest = working_days dates in if is_weekend d then rest else d ∷ rest

abbrev name_or_empty : Option String → String
name_or_empty none = ""
name_or_empty (some name) = name

-- The counters that the loops add up.
pub record Totals (Hours : Type 0) : Type 0 where
  pub hours : Hours
  pub valid_cost_cents : ℕ
  pub entry_count : ℕ
  pub missing : ℕ

module _ {Hours : Type 0} where
  abbrev pub day_of : TimesheetAggRow Hours → ℕ
  day_of r = r.day

  -- Weekdays of the range first, then the days with entries.
  abbrev pub ordered_days : List (TimesheetAggRow Hours) → ℕ → ℕ → List ℕ
  ordered_days rows from until = sort_by leb (
      add_all ◌==◌ (keys_of ◌==◌ day_of (group_rows ◌==◌ day_of rows))
        (add_all ◌==◌ (working_days (each_date from until)) []))

  abbrev pub task_of : TimesheetAggRow Hours → TimesheetTask Hours
  task_of r = record {
    task_id = r.task_id;
    task_name = r.task_name;
    hours = r.hours;
    cost_aud = cost r.valid_cost_cents r.entry_count r.missing_rate_count;
    entry_count = r.entry_count;
    missing_rate_count = r.missing_rate_count;
  }

  -- `locale_compare` is JavaScript's, and `add` its sum of two doubles.
  module _ (locale_compare : String → String → Ordering) (zero_hours : Hours)
      (add : Hours → Hours → Hours) where
    abbrev pub compare_rows : TimesheetAggRow Hours → TimesheetAggRow Hours → Ordering
    compare_rows a b =
        elim (locale_compare (name_or_empty a.task_name) (name_or_empty b.task_name)) [
          | Ordering.eq ↦ locale_compare a.task_id b.task_id
          | other ↦ other
        ]

    abbrev pub stands_before : TimesheetAggRow Hours → TimesheetAggRow Hours → Bool
    stands_before a b = elim (compare_rows a b) [ Ordering.gt ↦ false | _ ↦ true ]

    abbrev pub no_totals : Totals Hours
    no_totals = record { hours = zero_hours; valid_cost_cents = 0; entry_count = 0; missing = 0 }

    abbrev pub add_totals : Totals Hours → Totals Hours → Totals Hours
    add_totals t u = record {
      hours = add t.hours u.hours;
      valid_cost_cents = t.valid_cost_cents + u.valid_cost_cents;
      entry_count = t.entry_count + u.entry_count;
      missing = t.missing + u.missing;
    }

    abbrev pub totals_of : TimesheetAggRow Hours → Totals Hours
    totals_of r = record {
      hours = r.hours;
      valid_cost_cents = r.valid_cost_cents;
      entry_count = r.entry_count;
      missing = r.missing_rate_count;
    }

    abbrev pub subtotal : List (TimesheetAggRow Hours) → Totals Hours → Totals Hours
    subtotal [] t = t
    subtotal (r ∷ rows) t = subtotal rows (add_totals t (totals_of r))

    abbrev pub day_of_rows : ℕ → List (TimesheetAggRow Hours) → Totals Hours → TimesheetDay Hours
    day_of_rows date rows t = record {
      date = date;
      weekday = weekday_of date;
      is_weekend = is_weekend date;
      tasks = map task_of rows;
      subtotal_hours = t.hours;
      subtotal_cost_aud = cost t.valid_cost_cents t.entry_count t.missing;
      missing_rate_count = t.missing;
    }

    abbrev pub day_rows : List (ℕ × List (TimesheetAggRow Hours)) → ℕ → List (TimesheetAggRow Hours)
    day_rows by_day date = sort_by stands_before (rows_of ◌==◌ day_of date by_day)

    -- `orderedDays.map`, with the totals that it adds up.
    abbrev pub assemble_days :
        List (ℕ × List (TimesheetAggRow Hours))
        → List ℕ
        → Totals Hours
        → List (TimesheetDay Hours) × Totals Hours
    assemble_days by_day [] t = ([], t)
    assemble_days by_day (date ∷ dates) t =
        let rows = day_rows by_day date in
        let own = subtotal rows no_totals in
        let rest = assemble_days by_day dates (add_totals t own) in
        (day_of_rows date rows own ∷ rest.0, rest.1)

    unfoldable pub assemble_timesheet : List (TimesheetAggRow Hours) → ℕ → ℕ → Timesheet Hours
    assemble_timesheet rows from until =
        let built =
          assemble_days (group_rows ◌==◌ day_of rows) (ordered_days rows from until) no_totals in
        record {
          days = built.0;
          total_hours = built.1.hours;
          total_cost_aud = cost built.1.valid_cost_cents built.1.entry_count built.1.missing;
          missing_rate_count = built.1.missing;
        }
