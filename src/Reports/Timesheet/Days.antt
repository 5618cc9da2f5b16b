-- ===== src/Reports/Timesheet/Days.antt =====
-- The dates of a timesheet: ascending, the weekdays of the range and the days with entries.
use clickup_sync.Common.{
  and_false, ℕ, zero, suc, ◌+◌, ◌-◌, ◌%◌, ◌≤◌, ◌<◌, ◌≡◌, refl, ◌↔◌, Bool, true, false, not, ◌&&◌,
  ◌||◌, List, [], ◌∷◌, ◌==◌, leb, arith, Bool-cases, inl, inr, All, count, sort_by, put_in_order,
  count-sort_by, member, add_all, member-add_all, add_all-Distinct, Distinct, some_row,
  member-group_rows, or_false, or_left_comm, keys_of, group_rows,
}
use clickup_sync.Reports.Timesheet.{
  TimesheetAggRow, date_loop, each_date, is_weekend, working_days, day_of, ordered_days,
}

pub eqb_iff : (x y : ℕ) → ((x == y) ≡ true) ↔ (x ≡ y)
eqb_iff x y = ground arith

-- Each number is less than the next.
abbrev pub Ascending : List ℕ → Type 0
Ascending [] = Unit
Ascending (x ∷ xs) = All (λ y. x < y) xs × Ascending xs

abbrev within : ℕ → ℕ → ℕ → Bool
within from until d = leb from d && leb d until

date_loop_lem :
    (fuel t until d : ℕ)
    → suc until ≤ t + fuel
    → member ◌==◌ d (date_loop fuel t until) ≡ within t until d
date_loop_lem zero t until d h = ground (arith, h)
date_loop_lem (suc fuel) t until d h = ground (arith, date_loop_lem fuel (t + 1) until d)

member-working_days :
    (d : ℕ) (dates : List ℕ)
    → member ◌==◌ d (working_days dates) ≡ (member ◌==◌ d dates && not (is_weekend d))
member-working_days d [] = refl
member-working_days d (x ∷ dates) = elim (Bool-cases (d == x)) [
  | inr e ↦ elim (Bool-cases (is_weekend x)) [
    | inl w ↦ rw (w, e) (member-working_days d dates)
    | inr w ↦ rw (w, e) (member-working_days d dates)
  ]
  | inl e ↦
      let path : d ≡ x = (eqb_iff d x).0 e in
      elim (Bool-cases (is_weekend x)) [
        | inl w ↦
            let ends : is_weekend d ≡ true = rw path w in
            rw (w, e, ends)
              (rw (ends, and_false (member ◌==◌ d dates)) at (member-working_days d dates))
        | inr w ↦ let ends : is_weekend d ≡ false = rw path w in rw (w, e, ends) refl
      ]
]

All-put_in_order :
    (x y : ℕ) (ys : List ℕ) → x ≤ y → All (λ z. x ≤ z) ys → All (λ z. x ≤ z) (put_in_order leb y ys)
All-put_in_order x y [] h k = (h, tt)
All-put_in_order x y (z ∷ ys) h k = elim (Bool-cases (leb y z)) [
  | inl e ↦ rw e (h, k)
  | inr e ↦ rw e (k.0, All-put_in_order x y ys h k.1)
]

All_le_trans : (x y : ℕ) (ys : List ℕ) → x ≤ y → All (λ z. y ≤ z) ys → All (λ z. x ≤ z) ys
All_le_trans x y [] h k = tt
All_le_trans x y (z ∷ ys) h k = (omega (arith, h, k.0), All_le_trans x y ys h k.1)

-- Each number is at most the next.
abbrev Sorted : List ℕ → Type 0
Sorted [] = Unit
Sorted (x ∷ xs) = All (λ y. x ≤ y) xs × Sorted xs

put_in_order-Sorted : (x : ℕ) (xs : List ℕ) → Sorted xs → Sorted (put_in_order leb x xs)
put_in_order-Sorted x [] h = (tt, tt)
put_in_order-Sorted x (y ∷ ys) h = elim (Bool-cases (leb x y)) [
  | inl e ↦ let le : x ≤ y = ground (arith, e) in rw e ((le, All_le_trans x y ys le h.0), h)
  | inr e ↦
      let le : y ≤ x = ground (arith, e) in
      rw e (All-put_in_order y x ys le h.0, put_in_order-Sorted x ys h.1)
]

sort_by-Sorted : (xs : List ℕ) → Sorted (sort_by leb xs)
sort_by-Sorted [] = tt
sort_by-Sorted (x ∷ xs) = put_in_order-Sorted x (sort_by leb xs) (sort_by-Sorted xs)

less_of_absent :
    (x : ℕ) (xs : List ℕ) → All (λ y. x ≤ y) xs → count (λ y. y == x) xs ≡ 0 → All (λ y. x < y) xs
less_of_absent x [] h none = tt
less_of_absent x (y ∷ xs) h none = (ground (arith, h.0), less_of_absent x xs h.1 (ground arith))

Sorted-Ascending : (xs : List ℕ) → Sorted xs → Distinct ◌==◌ eqb_iff xs → Ascending xs
Sorted-Ascending [] h once = tt
Sorted-Ascending (x ∷ xs) h once =
    let own : (x == x) ≡ true = ground arith in
    let none : count (λ y. y == x) xs ≡ 0 = omega (arith, rw own at (once x)) in
    (less_of_absent x xs h.0 none, Sorted-Ascending xs h.1 (λ k. ground (arith, once k)))

member-put_in_order :
    (k x : ℕ) (xs : List ℕ) → member ◌==◌ k (put_in_order leb x xs) ≡ ((k == x) || member ◌==◌ k xs)
member-put_in_order k x [] = refl
member-put_in_order k x (y ∷ ys) = elim (Bool-cases (leb x y)) [
  | inl e ↦ rw e refl
  | inr e ↦ rw (e, member-put_in_order k x ys) (or_left_comm (k == y) (k == x) (member ◌==◌ k ys))
]

member-sort_by : (k : ℕ) (xs : List ℕ) → member ◌==◌ k (sort_by leb xs) ≡ member ◌==◌ k xs
member-sort_by k [] = refl
member-sort_by k (x ∷ xs) = rw (member-put_in_order k x (sort_by leb xs), member-sort_by k xs) refl

-- Monday to Friday.
abbrev pub is_working_day : ℕ → Bool
is_working_day d = leb 1 ((d + 4) % 7) && leb ((d + 4) % 7) 5

not-is_weekend : (d : ℕ) → not (is_weekend d) ≡ is_working_day d
not-is_weekend d = ground arith

member-each_date :
    (from until d : ℕ) → member ◌==◌ d (each_date from until) ≡ (leb from d && leb d until)
unfolding each_date
member-each_date from until d = date_loop_lem (suc until - from) from until d (omega arith)

module _ {Hours : Type 0} where
  distinct_days : List (TimesheetAggRow Hours) → ℕ → ℕ → List ℕ
  distinct_days rows from until =
      add_all ◌==◌ (keys_of ◌==◌ day_of (group_rows ◌==◌ day_of rows))
        (add_all ◌==◌ (working_days (each_date from until)) [])

  distinct_days-Distinct :
      (rows : List (TimesheetAggRow Hours)) (from until : ℕ)
      → Distinct ◌==◌ eqb_iff (distinct_days rows from until)
  unfolding distinct_days
  distinct_days-Distinct rows from until =
      add_all-Distinct ◌==◌ eqb_iff (keys_of ◌==◌ day_of (group_rows ◌==◌ day_of rows))
        (add_all ◌==◌ (working_days (each_date from until)) [])
        (add_all-Distinct ◌==◌ eqb_iff (working_days (each_date from until)) [] (λ k. omega arith))

  pub ordered_days-Distinct :
      (rows : List (TimesheetAggRow Hours)) (from until : ℕ)
      → Distinct ◌==◌ eqb_iff (ordered_days rows from until)
  unfolding distinct_days
  ordered_days-Distinct rows from until k =
      rw (count-sort_by leb (λ x. x == k) (distinct_days rows from until))
        (distinct_days-Distinct rows from until k)

  pub ordered_days-Ascending :
      (rows : List (TimesheetAggRow Hours)) (from until : ℕ)
      → Ascending (ordered_days rows from until)
  unfolding distinct_days
  ordered_days-Ascending rows from until =
      Sorted-Ascending (ordered_days rows from until)
        (sort_by-Sorted (distinct_days rows from until)) (ordered_days-Distinct rows from until)

  pub member-ordered_days :
      (rows : List (TimesheetAggRow Hours)) (from until d : ℕ)
      → member ◌==◌ d (ordered_days rows from until)
        ≡ (some_row ◌==◌ day_of eqb_iff d rows || ((leb from d && leb d until) && is_working_day d))
  unfolding distinct_days
  member-ordered_days rows from until d =
      rw
        (
          member-sort_by d (distinct_days rows from until),
          member-add_all ◌==◌ eqb_iff d (keys_of ◌==◌ day_of (group_rows ◌==◌ day_of rows))
              (add_all ◌==◌ (working_days (each_date from until)) []),
          member-add_all ◌==◌ eqb_iff d (working_days (each_date from until)) [],
          member-group_rows ◌==◌ day_of eqb_iff d rows,
          member-working_days d (each_date from until),
          member-each_date from until d,
          not-is_weekend d,
          or_false ((leb from d && leb d until) && is_working_day d),
        )
        refl
