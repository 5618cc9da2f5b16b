-- ===== src/Budgets/BusinessDays.antt =====
-- countBusinessDays of budget-forecast.ts. A date is an instant at UTC midnight, in milliseconds
-- since 1970; the first of January 1970 was a Thursday.
use clickup_sync.Common.{
  ℕ, zero, suc, ◌+◌, ◌-◌, ◌*◌, ◌/◌, ◌%◌, ◌<◌, ◌≤◌, ◌≡◌, refl, ap, ◌∙◌, Bool, not, Bool-cases, inl,
  inr, Option, none, some, true, false, ◌&&◌, leb, ltb, bit, if◌then◌else◌, arith,
}

abbrev pub day_ms : ℕ
day_ms = 86400000

-- `getUTCDay()`: 0 is Sunday.
abbrev pub day_of_week : ℕ → ℕ
day_of_week t = (t / day_ms + 4) % 7

abbrev pub is_business_day : ℕ → Bool
is_business_day t = leb 1 (day_of_week t) && leb (day_of_week t) 5

abbrev pub add_day : ℕ → Option ℕ → Option ℕ
add_day t none = none
add_day t (some n) = some (bit (is_business_day t) + n)

-- `for (let t = start; t <= end; t += DAY)`, on fuel.
unfoldable pub count_loop : (fuel t end_of : ℕ) → Option ℕ
count_loop zero t end_of = none
count_loop (suc fuel) t end_of =
    let rest = count_loop fuel (t + day_ms) end_of in
    if leb t end_of then add_day t rest else some 0

-- One round for each day, and one to end.
unfoldable pub count_business_days : (start_of end_of : ℕ) → Option ℕ
count_business_days start_of end_of =
    if ltb end_of start_of
    then some 0
    else count_loop ((end_of - start_of) / day_ms + 2) start_of end_of

-- The calendar, apart from the code: the days of the week follow one another.
pub data Weekday : Type 0 where
  sunday monday tuesday wednesday thursday friday saturday : Weekday

abbrev pub tomorrow : Weekday → Weekday
tomorrow sunday = monday
tomorrow monday = tuesday
tomorrow tuesday = wednesday
tomorrow wednesday = thursday
tomorrow thursday = friday
tomorrow friday = saturday
tomorrow saturday = sunday

-- The day that is so many days after the first of January 1970.
abbrev pub weekday : ℕ → Weekday
weekday zero = thursday
weekday (suc d) = tomorrow (weekday d)

abbrev pub is_weekend : Weekday → Bool
is_weekend sunday = true
is_weekend monday = false
is_weekend tuesday = false
is_weekend wednesday = false
is_weekend thursday = false
is_weekend friday = false
is_weekend saturday = true

-- The days among `n` days from the day `d` on that are not of a weekend.
abbrev pub working_days : (d n : ℕ) → ℕ
working_days d zero = 0
working_days d (suc n) = bit (not (is_weekend (weekday d))) + working_days (d + 1) n

number_of : Weekday → ℕ
number_of sunday = 0
number_of monday = 1
number_of tuesday = 2
number_of wednesday = 3
number_of thursday = 4
number_of friday = 5
number_of saturday = 6

number_of-tomorrow : (w : Weekday) → number_of (tomorrow w) ≡ (number_of w + 1) % 7
unfolding number_of
number_of-tomorrow sunday = refl
number_of-tomorrow monday = refl
number_of-tomorrow tuesday = refl
number_of-tomorrow wednesday = refl
number_of-tomorrow thursday = refl
number_of-tomorrow friday = refl
number_of-tomorrow saturday = refl

number_of-weekday : (d : ℕ) → number_of (weekday d) ≡ (d + 4) % 7
unfolding number_of
number_of-weekday zero = refl
number_of-weekday (suc d) =
    let ih = number_of-weekday d in
    let next = number_of-tomorrow (weekday d) in
    let sum : (d + 1 + 4) % 7 ≡ ((d + 4) % 7 + 1) % 7 = omega arith in
    let one : suc d ≡ d + 1 = omega arith in next ∙ ap (λ n. (n + 1) % 7) ih ∙ rw (one, sum) refl

workdays : (w : Weekday) → (leb 1 (number_of w) && leb (number_of w) 5) ≡ not (is_weekend w)
unfolding number_of
workdays sunday = refl
workdays monday = refl
workdays tuesday = refl
workdays wednesday = refl
workdays thursday = refl
workdays friday = refl
workdays saturday = refl

is_business_day_lem : (d : ℕ) → is_business_day (d * day_ms) ≡ not (is_weekend (weekday d))
is_business_day_lem d =
    let day : day_of_week (d * day_ms) ≡ (d + 4) % 7 = omega arith in
    rw (day, ← number_of-weekday d) (workdays (weekday d))

-- Day by day the loop counts up to the end.
count_loop_lem :
    (fuel n d t end_of : ℕ)
    → n < fuel
    → t ≡ d * day_ms
    → end_of + day_ms ≡ (d + n) * day_ms
    → count_loop fuel t end_of ≡ some (working_days d n)
unfolding count_loop
count_loop_lem zero n d t end_of h s e = absurd (omega (arith, h))
count_loop_lem (suc fuel) zero d t end_of h s e =
    let past : leb t end_of ≡ false = ground (arith, s, e) in rw past refl
count_loop_lem (suc fuel) (suc n) d t end_of h s e =
    let within : leb t end_of ≡ true = ground (arith, s, e) in
    let ih : count_loop fuel (t + day_ms) end_of ≡ some (working_days (d + 1) n) =
      count_loop_lem fuel n (d + 1) (t + day_ms) end_of (omega (arith, h)) (omega (arith, s))
        (omega (arith, e)) in
    rw (within, ih, s, is_business_day_lem d) refl

-- Between any two dates the loop ends, and counts the days from the first to the last, both included,
-- that are not Saturdays or Sundays of the calendar; there are none if the last is before the first.
pub count_business_days_lem :
    (from until : ℕ)
    → count_business_days (from * day_ms) (until * day_ms)
      ≡ some (working_days from (until + 1 - from))
unfolding count_business_days
count_business_days_lem from until = elim (Bool-cases (ltb until from)) [
  | inl past ↦
      let backward : ltb (until * day_ms) (from * day_ms) ≡ true = ground (arith, past) in
      let none_left : until + 1 - from ≡ 0 = ground (arith, past) in rw (backward, none_left) refl
  | inr onward ↦
      let forward : ltb (until * day_ms) (from * day_ms) ≡ false = ground (arith, onward) in
      let order : from ≤ until = ground (arith, onward) in
      rw forward (
        count_loop_lem _ (until + 1 - from) from (from * day_ms) (until * day_ms)
          (omega (arith, order)) refl (omega (arith, order)))
]
