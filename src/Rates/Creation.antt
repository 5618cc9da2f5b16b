-- ===== src/Rates/Creation.antt =====
-- createWithSuccession as a whole: when it refuses, what the table is afterwards, and that the
-- table stays in order.
use clickup_sync.Common.{
  ℕ, ◌+◌, ◌<◌, ◌≡◌, refl, false, List, [], ◌∷◌, map, if◌then◌else◌, All, arith, Bool-cases, inl,
  inr, ok, err, bad_request,
}
use clickup_sync.Rates.Plan.{day_before, starts_too_late}
use clickup_sync.Rates.Table.{
  RateRow, RateData, RateTable, to_row, insert_rate, create_with_succession,
}
use clickup_sync.Rates.Succession.{
  is_hit, any_blocked, cap_row, caps_of, InOrder, InOrder-cap_all, apply_caps_lem,
  plan_rate_succession_lem,
}
use clickup_sync.Rates.Capping.{
  IsSound, IsAdmissible, DistinctIds, OtherId, HasDates, AllFit-caps_of, cap_all-cap_row,
  clear_of-cap_row,
}

module _ (d : RateData) (a : IsAdmissible d) where
  capped-InOrder :
      (t : RateTable) → IsSound t → any_blocked d t.rows ≡ false → InOrder (map (cap_row d) t.rows)
  capped-InOrder t v free = rw (← cap_all-cap_row d a t.rows v.ids) (
      InOrder-cap_all (day_before d.valid_from) (caps_of d t.rows) t.rows
        (AllFit-caps_of d a t.rows v.dates v.ids free) v.in_order)

  insert_rate_lem :
      (t : RateTable)
      → InOrder (map (cap_row d) t.rows)
      → insert_rate d (record t { rows = map (cap_row d) t.rows }) ≡ (
        ok (to_row t.next_id d),
        record { rows = to_row t.next_id d ∷ map (cap_row d) t.rows; next_id = t.next_id + 1 },
      )
  unfolding insert_rate
  insert_rate_lem t o =
      ground (arith, a.range, o.apart, o.ranges, clear_of-cap_row d a t.next_id t.rows)

  -- The table after a creation that is not refused.
  abbrev pub created : RateTable → RateTable
  created t = record { rows = to_row t.next_id d ∷ map (cap_row d) t.rows; next_id = t.next_id + 1 }

  -- On a sound table an admissible new rate is refused exactly when a rate of the assignee that it
  -- overlaps starts on or after its own start, and the table is then as it was. Otherwise every rate
  -- that it overlaps ends on the day before it, the new rate is added under the next key, and no
  -- other row changes; no statement of the transaction breaks a constraint.
  pub create_with_succession_lem :
      (t : RateTable)
      → IsSound t
      → create_with_succession d t ≡ (
          if any_blocked d t.rows
          then (err (bad_request starts_too_late), t)
          else (ok (to_row t.next_id d), created t))
  unfolding create_with_succession
  create_with_succession_lem t v = elim (Bool-cases (any_blocked d t.rows)) [
    | inl late ↦ rw (plan_rate_succession_lem d t.rows, late) refl
    | inr free ↦ rw (
      plan_rate_succession_lem d t.rows,
      free,
      apply_caps_lem (day_before d.valid_from) (caps_of d t.rows) t
          (AllFit-caps_of d a t.rows v.dates v.ids free) v.in_order,
      cap_all-cap_row d a t.rows v.ids,
      insert_rate_lem t (capped-InOrder t v free),
    )
  ]

  date_of_cap : (r : RateRow) → HasDates r → HasDates (cap_row d r)
  date_of_cap r h = elim (Bool-cases (is_hit d r)) [
    | inl hit ↦ rw hit (h.0, ground (arith, a.from_date, a.after_epoch))
    | inr miss ↦ rw miss h
  ]

  HasDates-cap_row : (rows : List RateRow) → All HasDates rows → All HasDates (map (cap_row d) rows)
  HasDates-cap_row [] h = tt
  HasDates-cap_row (r ∷ rest) h = (date_of_cap r h.0, HasDates-cap_row rest h.1)

  OtherId-cap_row :
      (id : ℕ) (rows : List RateRow)
      → All (OtherId id) rows
      → All (OtherId id) (map (cap_row d) rows)
  OtherId-cap_row id [] h = tt
  OtherId-cap_row id (r ∷ rest) h = (ground (arith, h.0), OtherId-cap_row id rest h.1)

  DistinctIds-cap_row :
      (rows : List RateRow) → DistinctIds rows → DistinctIds (map (cap_row d) rows)
  DistinctIds-cap_row [] h = tt
  DistinctIds-cap_row (r ∷ rest) h = (
    elim (Bool-cases (is_hit d r)) [
      | inl hit ↦ rw hit (OtherId-cap_row r.rate_id rest h.0)
      | inr miss ↦ rw miss (OtherId-cap_row r.rate_id rest h.0)
    ],
    DistinctIds-cap_row rest h.1,
  )

  below-cap_row :
      (n : ℕ) (rows : List RateRow)
      → All (λ r. r.rate_id < n) rows
      → All (λ r. r.rate_id < n + 1) (map (cap_row d) rows)
  below-cap_row n [] h = tt
  below-cap_row n (r ∷ rest) h = (ground (arith, h.0), below-cap_row n rest h.1)

  below-OtherId :
      (n : ℕ) (rows : List RateRow) → All (λ r. r.rate_id < n) rows → All (OtherId n) rows
  below-OtherId n [] h = tt
  below-OtherId n (r ∷ rest) h = (λ e. omega (arith, h.0), below-OtherId n rest h.1)

  created-IsSound : (t : RateTable) → IsSound t → any_blocked d t.rows ≡ false → IsSound (created t)
  created-IsSound t v free = record {
    dates = ((a.from_date, a.to_date), HasDates-cap_row t.rows v.dates);
    ids = (
      OtherId-cap_row t.next_id t.rows (below-OtherId t.next_id t.rows v.below),
      DistinctIds-cap_row t.rows v.ids,
    );
    below = (omega arith, below-cap_row t.next_id t.rows v.below);
    in_order = record {
      apart = ground (arith, o.apart, clear_of-cap_row d a t.next_id t.rows);
      ranges = ground (arith, a.range, o.ranges);
    };
  }
    where
      o : InOrder (map (cap_row d) t.rows)
      o = capped-InOrder t v free

  -- Creating an admissible rate on a sound table leaves a sound table, whether it is refused or not:
  -- no two rates of one assignee share a day, no range ends before it begins, keys stay distinct.
  pub create_with_succession-IsSound :
      (t : RateTable) → IsSound t → IsSound (create_with_succession d t).1
  create_with_succession-IsSound t v = elim (Bool-cases (any_blocked d t.rows)) [
    | inl late ↦ rw (create_with_succession_lem t v, late) v
    | inr free ↦ rw (create_with_succession_lem t v, free) (created-IsSound t v free)
  ]
