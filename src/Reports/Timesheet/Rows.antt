-- ===== src/Reports/Timesheet/Rows.antt =====
-- The rows of a timesheet: each stands in one place, and the totals are theirs.
use Prim.Native.Nat.{Ordering}
use mathlib.Core.List.{Perm, map-append}
use mathlib.Core.List.Perm
use clickup_sync.Common.{
  ℕ, ◌+◌, ◌≡◌, refl, ap, ◌∙◌, ◌||◌, ◌&&◌, String, List, [], ◌∷◌, ◌++◌, map, ◌==◌, leb, arith, All,
  count, find_many, sum_of, sum_of-append, sum_of-perm, sort_by-perm, group_rows, rows_of,
  rows_of-group_rows, spread, spread-perm, count-member, member, some_row, some_row_own, All-weaken,
}
use clickup_sync.Reports.Timesheet.{
  TimesheetAggRow, TimesheetTask, TimesheetDay, Timesheet, Totals, cost, day_of, task_of,
  ordered_days, no_totals, add_totals, totals_of, subtotal, day_rows, assemble_days,
  assemble_timesheet, stands_before,
}
use clickup_sync.Reports.Timesheet.Days.{
  Ascending, eqb_iff, is_working_day, ordered_days-Ascending, ordered_days-Distinct,
  member-ordered_days,
}

module _ {Hours : Type 0} where
  -- The tasks of all days.
  abbrev pub all_tasks : List (TimesheetDay Hours) → List (TimesheetTask Hours)
  all_tasks [] = []
  all_tasks (d ∷ days) = d.tasks ++ all_tasks days

  abbrev pub dates_of : Timesheet Hours → List ℕ
  dates_of t = map (λ (d : TimesheetDay Hours). d.date) t.days

  ordered_days_once :
      (rows : List (TimesheetAggRow Hours)) (from until : ℕ)
      → All (λ r. count (λ d. d == r.day) (ordered_days rows from until) ≡ 1) rows
  ordered_days_once rows from until =
      All-weaken
        (λ r own.
          count-member ◌==◌ eqb_iff r.day (ordered_days rows from until)
            (ordered_days-Distinct rows from until)
            (member-ordered_days rows from until r.day
              ∙ ap (λ b. b || ((leb from r.day && leb r.day until) && is_working_day r.day)) own))
        rows (some_row_own ◌==◌ day_of eqb_iff rows)

  spread_days-perm :
      (rows : List (TimesheetAggRow Hours)) (from until : ℕ)
      → Perm (spread ◌==◌ day_of eqb_iff (ordered_days rows from until) rows) rows
  spread_days-perm rows from until =
      spread-perm ◌==◌ day_of eqb_iff (ordered_days rows from until) rows
        (ordered_days_once rows from until)

  module _ (locale_compare : String → String → Ordering) (zero_hours : Hours)
      (add : Hours → Hours → Hours) where
    all_tasks-perm :
        (rows : List (TimesheetAggRow Hours)) (dates : List ℕ) (t : Totals Hours)
        → Perm
            (all_tasks
              (assemble_days locale_compare zero_hours add (group_rows ◌==◌ day_of rows) dates t).0)
            (map task_of (spread ◌==◌ day_of eqb_iff dates rows))
    all_tasks-perm rows [] t = Perm.rfl
    all_tasks-perm rows (d ∷ dates) t =
        rw (rows_of-group_rows ◌==◌ day_of eqb_iff d rows, map-append)
          (Perm.append
            (Perm.map task_of (
              sort_by-perm (stands_before locale_compare zero_hours add)
                (find_many (λ r. d == r.day) rows)))
            (all_tasks-perm rows dates _))

    -- A counter that the loops add up.
    module _ (m : Totals Hours → ℕ) (g : TimesheetAggRow Hours → ℕ)
        (m_sum : (t u : Totals Hours)
          → m (add_totals locale_compare zero_hours add t u) ≡ m t + m u)
        (m_row : (r : TimesheetAggRow Hours) → m (totals_of locale_compare zero_hours add r) ≡ g r)
        (m_none : m (no_totals locale_compare zero_hours add) ≡ 0) where
      subtotal_lem :
          (rows : List (TimesheetAggRow Hours)) (t : Totals Hours)
          → m (subtotal locale_compare zero_hours add rows t) ≡ m t + sum_of g rows
      subtotal_lem [] t = omega arith
      subtotal_lem (r ∷ rows) t = omega (
        arith,
        subtotal_lem rows (
            add_totals locale_compare zero_hours add t (totals_of locale_compare zero_hours add r)),
        m_sum t (totals_of locale_compare zero_hours add r),
        m_row r,
      )

      assemble_days-totals :
          (rows : List (TimesheetAggRow Hours)) (dates : List ℕ) (t : Totals Hours)
          → m (assemble_days locale_compare zero_hours add (group_rows ◌==◌ day_of rows) dates t).1
            ≡ m t + sum_of g (spread ◌==◌ day_of eqb_iff dates rows)
      assemble_days-totals rows [] t = omega arith
      assemble_days-totals rows (d ∷ dates) t =
          let mine = find_many (λ (r : TimesheetAggRow Hours). d == r.day) rows in
          let day = day_rows locale_compare zero_hours add (group_rows ◌==◌ day_of rows) d in
          let own =
            subtotal locale_compare zero_hours add day (no_totals locale_compare zero_hours add) in
          omega (
            arith,
            assemble_days-totals rows dates (add_totals locale_compare zero_hours add t own),
            m_sum t own,
            subtotal_lem day (no_totals locale_compare zero_hours add),
            m_none,
            sum_of-perm g (
                sort_by-perm (stands_before locale_compare zero_hours add)
                  (rows_of ◌==◌ day_of d (group_rows ◌==◌ day_of rows))),
            ap (sum_of g) (rows_of-group_rows ◌==◌ day_of eqb_iff d rows),
            sum_of-append g mine (spread ◌==◌ day_of eqb_iff dates rows),
          )

      totals_lem :
          (rows : List (TimesheetAggRow Hours)) (from until : ℕ)
          → m
              (assemble_days locale_compare zero_hours add
                (group_rows ◌==◌ day_of rows)
                (ordered_days rows from until)
                (no_totals locale_compare zero_hours add)).1
            ≡ sum_of g rows
      totals_lem rows from until = omega (
        arith,
        assemble_days-totals rows (ordered_days rows from until)
            (no_totals locale_compare zero_hours add),
        m_none,
        sum_of-perm g (spread_days-perm rows from until),
      )

    day_dates :
        (by_day : List (ℕ × List (TimesheetAggRow Hours))) (dates : List ℕ) (t : Totals Hours)
        → map
            (λ (d : TimesheetDay Hours). d.date)
            (assemble_days locale_compare zero_hours add by_day dates t).0
          ≡ dates
    day_dates by_day [] t = refl
    day_dates by_day (d ∷ dates) t = ap (◌∷◌ d) (day_dates by_day dates _)

    -- The dates of a timesheet ascend. A date is among them exactly if a row is of that date, or it is a
    -- date of the range from Monday to Friday.
    pub assemble_timesheet-Ascending :
        (rows : List (TimesheetAggRow Hours)) (from until : ℕ)
        → Ascending (dates_of (assemble_timesheet locale_compare zero_hours add rows from until))
          × ((d : ℕ)
              → member ◌==◌ d
                  (dates_of (assemble_timesheet locale_compare zero_hours add rows from until))
                ≡ (some_row ◌==◌ day_of eqb_iff d rows
                    || ((leb from d && leb d until) && is_working_day d)))
    unfolding assemble_timesheet
    assemble_timesheet-Ascending rows from until =
        rw
          (day_dates (group_rows ◌==◌ day_of rows) (ordered_days rows from until)
            (no_totals locale_compare zero_hours add))
          (ordered_days-Ascending rows from until, λ d. member-ordered_days rows from until d)

    -- The tasks of a timesheet are those of the rows, each once. Its count of entries without a rate, its
    -- cost and its hours are the sums over the rows: the hours in any measure that the addition of hours
    -- adds up; the total cost is absent if the rows have no entry but those without a rate.
    pub assemble_timesheet-perm :
        (measure : Hours → ℕ)
        → ((a b : Hours) → measure (add a b) ≡ measure a + measure b)
        → measure zero_hours ≡ 0
        → (rows : List (TimesheetAggRow Hours)) (from until : ℕ)
        → Perm
            (all_tasks (assemble_timesheet locale_compare zero_hours add rows from until).days)
            (map task_of rows)
          × ((assemble_timesheet locale_compare zero_hours add rows from until).missing_rate_count
              ≡ sum_of (λ r. r.missing_rate_count) rows)
          × ((assemble_timesheet locale_compare zero_hours add rows from until).total_cost_aud
              ≡ cost
                  (sum_of (λ r. r.valid_cost_cents) rows)
                  (sum_of (λ r. r.entry_count) rows)
                  (sum_of (λ r. r.missing_rate_count) rows))
          × (measure (assemble_timesheet locale_compare zero_hours add rows from until).total_hours
              ≡ sum_of (λ r. measure r.hours) rows)
    unfolding assemble_timesheet
    assemble_timesheet-perm measure adds empty rows from until =
        let missing =
          totals_lem (λ (t : Totals Hours). t.missing)
            (λ (r : TimesheetAggRow Hours). r.missing_rate_count) (λ t u. refl) (λ r. refl) refl
            rows from until in
        let valid =
          totals_lem (λ (t : Totals Hours). t.valid_cost_cents)
            (λ (r : TimesheetAggRow Hours). r.valid_cost_cents) (λ t u. refl) (λ r. refl) refl rows
            from until in
        let entries =
          totals_lem (λ (t : Totals Hours). t.entry_count)
            (λ (r : TimesheetAggRow Hours). r.entry_count) (λ t u. refl) (λ r. refl) refl rows from
            until in
        let hours =
          totals_lem (λ (t : Totals Hours). measure t.hours)
            (λ (r : TimesheetAggRow Hours). measure r.hours) (λ t u. adds t.hours u.hours)
            (λ r. refl) empty rows from until in
        (
          Perm.trans
              (all_tasks-perm rows (ordered_days rows from until)
                (no_totals locale_compare zero_hours add))
              (Perm.map task_of (spread_days-perm rows from until)),
          missing,
          rw (missing, valid, entries) refl,
          hours,
        )
