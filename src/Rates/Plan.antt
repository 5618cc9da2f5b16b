-- ===== src/Rates/Plan.antt =====
-- rate-succession.ts: which rates of an assignee end when a new one starts. An instant is a number
-- of milliseconds since 1970; a date is an instant at UTC midnight.
use clickup_sync.Common.{
  ℕ, ◌-◌, ◌%◌, ◌≡◌, String, Bool, true, ◌&&◌, Option, none, some, List, [], ◌∷◌, ◌++◌, leb,
  if◌then◌else◌,
}

abbrev pub day_ms : ℕ
day_ms = 86400000

-- A date, at UTC midnight.
abbrev pub IsDate : ℕ → Type 0
IsDate t = t % 86400000 ≡ 0

pub record RateInterval : Type 0 where
  pub rate_id : ℕ
  pub valid_from : ℕ
  pub valid_to : Option ℕ

pub record Cap : Type 0 where
  pub rate_id : ℕ
  pub valid_to : ℕ

pub data SuccessionPlan : Type 0 where
  planned : List Cap → SuccessionPlan
  blocked : String → SuccessionPlan

-- The day before a date of 1970-01-02 or later.
abbrev pub day_before : ℕ → ℕ
day_before d = d - day_ms

-- `end === null || t <= end`, where null is unbounded.
abbrev pub not_after : ℕ → Option ℕ → Bool
not_after t none = true
not_after t (some u) = leb t u

-- The test of the loop: both ends are inclusive.
abbrev pub overlaps : (from : ℕ) → (to : Option ℕ) → (new_from : ℕ) → (new_to : Option ℕ) → Bool
overlaps from to new_from new_to = not_after from new_to && not_after new_from to

abbrev pub starts_too_late : String
starts_too_late =
    "New rate starts on or before an existing rate for this assignee; adjust the dates."

module _ (new_valid_from : ℕ) (new_valid_to : Option ℕ) where
  -- The loop over `existing`, with the caps that it has pushed.
  unfoldable pub plan_loop : List Cap → List RateInterval → SuccessionPlan
  plan_loop caps [] = planned caps
  plan_loop caps (r ∷ rest) =
      let skip = plan_loop caps rest in
      let cap =
        plan_loop
          (caps ++ record { rate_id = r.rate_id; valid_to = day_before new_valid_from } ∷ [])
          rest in
      if overlaps r.valid_from r.valid_to new_valid_from new_valid_to
      then (if leb new_valid_from r.valid_from then blocked starts_too_late else cap)
      else skip

  unfoldable pub plan_rate_succession : List RateInterval → SuccessionPlan
  plan_rate_succession existing = plan_loop [] existing
