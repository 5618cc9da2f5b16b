-- ===== src/Health/Runs.antt =====
-- The runs of the cron job, one after another.
use clickup_sync.Common.{ℕ, ◌≤◌, List, [], ◌∷◌}
use clickup_sync.Health.{
  hour_ms, day_ms, max_heals_per_hour, max_recreates_per_day, HealthState, Observation, Call,
  check_and_heal,
}
use clickup_sync.Health.Limits.{Made, IsLimited}
use clickup_sync.Health.Bounds.{is_deletion, is_reactivation, made_of, IsSound}

module _ (o : Observation) (s : HealthState) (made : List Made) (h : IsSound o.now s made) where
  abbrev Kept : HealthState × List Call → Type 0
  Kept out = IsSound o.now out.0 (made_of o.now out.1 made)

-- The state after a list of runs, and the calls made in them, the latest first.
unfoldable pub runs : List Observation → HealthState → List Made → HealthState × List Made
runs [] s made = (s, made)
runs (o ∷ rest) s made =
    runs rest (check_and_heal o s).0 (made_of o.now (check_and_heal o s).1 made)

-- The clock does not go back from one run to the next.
abbrev pub Ascending : ℕ → List Observation → Type 0
Ascending t [] = Unit
Ascending t (o ∷ rest) = (t ≤ o.now) × Ascending o.now rest

-- What the service starts with.
abbrev pub fresh : HealthState
fresh = record { heal_attempts = λ k. []; recreate_attempts = λ k. []; exhausted_logged = [] }

abbrev Limits : List Made → Type 0
Limits made =
    IsLimited is_deletion day_ms max_recreates_per_day made
    × IsLimited is_reactivation hour_ms max_heals_per_hour made
