-- ===== src/Reports/Tests.antt =====
-- The week of 22 June 2026 with entries on Monday, Friday and Saturday.
use Prim.Native.String.{compare}
use mathlib.Core.List.{Perm}
use clickup_sync.Common.{
  ℕ, ◌+◌, ◌≡◌, refl, String, ◌&&◌, ◌||◌, none, some, List, [], ◌∷◌, map, ◌==◌, leb, member,
  some_row,
}
use clickup_sync.Reports.Timesheet.{
  TimesheetAggRow, TimesheetDay, TimesheetTask, cost, day_of, task_of, Timesheet, each_date,
  assemble_timesheet,
}
use clickup_sync.Reports.Timesheet.Days.{Ascending, eqb_iff, is_working_day}
use clickup_sync.Reports.Timesheet.Rows.{
  all_tasks, dates_of, assemble_timesheet-Ascending, assemble_timesheet-perm,
}

abbrev row : ℕ → String → ℕ → ℕ → ℕ → TimesheetAggRow ℕ
row day name minutes cents missing = record {
  day = day;
  task_id = name;
  task_name = some name;
  hours = minutes;
  valid_cost_cents = cents;
  entry_count = 1;
  missing_rate_count = missing;
}

abbrev rows : List (TimesheetAggRow ℕ)
rows =
    row 20626 "Beta" 90 0 1
    ∷ row 20626 "Alpha" 120 8000 0
    ∷ row 20630 "Alpha" 180 12000 0
    ∷ row 20631 "Gamma" 240 16000 0
    ∷ []

abbrev add_minutes : ℕ → ℕ → ℕ
add_minutes a b = a + b

abbrev week : Timesheet ℕ
week = assemble_timesheet compare 0 add_minutes rows 20626 20632

week-days : dates_of week ≡ 20626 ∷ 20627 ∷ 20628 ∷ 20629 ∷ 20630 ∷ 20631 ∷ []
unfolding assemble_timesheet each_date
week-days = refl

abbrev summary : TimesheetDay ℕ → List String × ℕ
summary d = (map (λ (t : TimesheetTask ℕ). t.task_id) d.tasks, d.subtotal_hours)

week-tasks :
    map summary week.days
    ≡ ("Alpha" ∷ "Beta" ∷ [], 210)
      ∷ ([], 0)
      ∷ ([], 0)
      ∷ ([], 0)
      ∷ ("Alpha" ∷ [], 180)
      ∷ ("Gamma" ∷ [], 240)
      ∷ []
unfolding assemble_timesheet each_date
week-tasks = refl

week_totals : (week.total_hours ≡ 630) × (week.total_cost_aud ≡ some 36000)
unfolding assemble_timesheet each_date
week_totals = (refl, refl)

all_missing :
    (assemble_timesheet compare 0 add_minutes
      (row 20626 "Beta" 90 0 1 ∷ [])
      20626
      20626).total_cost_aud
    ≡ none
unfolding assemble_timesheet each_date
all_missing = refl

assemble_timesheet-Ascending_example :
    Ascending (dates_of week)
    × ((d : ℕ)
        → member ◌==◌ d (dates_of week) ≡ (
            some_row ◌==◌ day_of eqb_iff d rows
            || ((leb 20626 d && leb d 20632) && is_working_day d)))
assemble_timesheet-Ascending_example =
    assemble_timesheet-Ascending compare 0 add_minutes rows 20626 20632

assemble_timesheet-perm_example :
    Perm (all_tasks week.days) (map task_of rows)
    × (week.missing_rate_count ≡ 1)
    × (week.total_cost_aud ≡ cost 36000 4 1)
    × (week.total_hours ≡ 630)
assemble_timesheet-perm_example =
    assemble_timesheet-perm compare 0 add_minutes (λ minutes. minutes) (λ a b. refl) refl rows 20626
      20632
