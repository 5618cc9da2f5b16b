-- ===== src/Cost/Recalculation/Idempotence.antt =====
-- A second recalculation changes nothing.
use clickup_sync.Common.{
  ℕ, suc, ◌≡◌, refl, ap, ◌∙◌, inl, inr, String, Option, some, List, [], ◌∷◌, if◌then◌else◌, length,
  find_many, All, Bool-cases, map,
}
use clickup_sync.Rates.Table.{RateRow}
use clickup_sync.Cost.Calculator.{CostPreferences}
use clickup_sync.Cost.Recalculation.{TimeEntry, in_scope, put_cost, recalculate}
use clickup_sync.Cost.Recalculation.Progress.{OtherEntry, DistinctEntries, in_scope-put_cost}
use clickup_sync.Cost.Recalculation.Batches.{price, recalculate_lem}

module _ {Hours : Type 0} (rounded_product : ℕ → Hours → ℕ) (prefs : CostPreferences)
    (rates : List RateRow) (due_date : Option String → Option ℕ) (assignee : Option String) where
  abbrev recost : TimeEntry Hours → TimeEntry Hours
  recost e =
      if in_scope assignee e
      then put_cost (price rounded_product prefs rates due_date assignee e) e
      else e

  recost-keeps : (e : TimeEntry Hours) → in_scope assignee (recost e) ≡ in_scope assignee e
  recost-keeps e = elim (Bool-cases (in_scope assignee e)) [
    | inl y ↦ rw y (in_scope-put_cost assignee _ e ∙ y)
    | inr n ↦ rw n n
  ]

  recost-recost : (e : TimeEntry Hours) → recost (recost e) ≡ recost e
  recost-recost e = elim (Bool-cases (in_scope assignee e)) [
    | inl y ↦ rw y (rw (in_scope-put_cost assignee _ e, y) refl)
    | inr n ↦ rw n (rw n refl)
  ]

  OtherEntry-recost :
      (id : String) (rows : List (TimeEntry Hours))
      → All (OtherEntry id) rows
      → All (OtherEntry id) (map recost rows)
  OtherEntry-recost id [] h = tt
  OtherEntry-recost id (e ∷ rest) h = (
    elim (Bool-cases (in_scope assignee e)) [ inl y ↦ rw y h.0 | inr n ↦ rw n h.0 ],
    OtherEntry-recost id rest h.1,
  )

  DistinctEntries-recost :
      (rows : List (TimeEntry Hours)) → DistinctEntries rows → DistinctEntries (map recost rows)
  DistinctEntries-recost [] d = tt
  DistinctEntries-recost (e ∷ rest) d = (
    elim (Bool-cases (in_scope assignee e)) [
      | inl y ↦ rw y (OtherEntry-recost e.time_entry_id rest d.0)
      | inr n ↦ rw n (OtherEntry-recost e.time_entry_id rest d.0)
    ],
    DistinctEntries-recost rest d.1,
  )

  length-scoped-recost :
      (rows : List (TimeEntry Hours))
      → length (find_many (in_scope assignee) (map recost rows))
        ≡ length (find_many (in_scope assignee) rows)
  length-scoped-recost [] = refl
  length-scoped-recost (e ∷ rest) = elim (Bool-cases (in_scope assignee e)) [
    | inl y ↦ rw (recost-keeps e, y) (ap suc (length-scoped-recost rest))
    | inr n ↦ rw (recost-keeps e, n) (length-scoped-recost rest)
  ]

  recost_twice : (rows : List (TimeEntry Hours)) → map recost (map recost rows) ≡ map recost rows
  recost_twice [] = refl
  recost_twice (e ∷ rest) =
      ap (λ x. x ∷ map recost (map recost rest)) (recost-recost e)
      ∙ ap (◌∷◌ (recost e)) (recost_twice rest)

  -- A recalculation of what a recalculation of rows with unique ids gave, with the same rates and
  -- preferences, counts the same and leaves the table as it is.
  pub recalculate_again :
      (rows rows' : List (TimeEntry Hours)) (n : ℕ)
      → DistinctEntries rows
      → recalculate rounded_product prefs rates due_date assignee rows ≡ some (n, n, rows')
      → recalculate rounded_product prefs rates due_date assignee rows' ≡ some (n, n, rows')
  recalculate_again rows rows' n d h =
      let first = recalculate_lem rounded_product prefs rates due_date assignee rows d in
      let count : n ≡ length (find_many (in_scope assignee) rows) = cc (h, first) in
      let table : rows' ≡ map recost rows = cc (h, first) in
      rw (table, count)
        (recalculate_lem rounded_product prefs rates due_date assignee (map recost rows)
            (DistinctEntries-recost rows d)
          ∙ rw (length-scoped-recost rows, recost_twice rows) refl)
