-- ===== src/Cost/Calculator.antt =====
-- cost-calculator.service.ts over the rows of `assignee_rates`. The key of the rate cache is the
-- pair of user and day that its text `user|milliseconds` is made of.
use clickup_sync.Common.{
  ℕ, ◌-◌, ◌%◌, String, Bool, true, false, ◌&&◌, Option, none, some, List, [], ◌∷◌, ◌==◌, ◌===◌, ltb,
  leb, if◌then◌else◌, find_many,
}
use clickup_sync.Rates.Plan.{day_ms, not_after}
use clickup_sync.Rates.Table.{RateRow}

pub record ResolvedRate : Type 0 where
  pub rate_id : ℕ
  pub currency : String
  pub hourly_rate_cents : ℕ

-- A key of the cache that is there has a value, which may be null.
pub record CacheEntry : Type 0 where
  pub user_id : String
  pub day : ℕ
  pub rate : Option ResolvedRate

abbrev pub RateCache : Type 0
RateCache = List CacheEntry

pub data RateMatching : Type 0 where
  start due : RateMatching

-- `getPreferences().cost`, and the ids of its excluded assignees.
pub record CostPreferences : Type 0 where
  pub rate_matching : RateMatching
  pub non_billable_zero : Bool
  pub excluded_assignee_ids : List String

pub data CostStatus : Type 0 where
  no_rate_found cost_excluded cost_calculated : CostStatus

pub record Cost : Type 0 where
  pub rate_id : Option ℕ
  pub currency : String
  pub hourly_rate_cents : ℕ
  pub cost_cents : ℕ
  pub status : CostStatus

-- The part of a row that is kept.
abbrev pub to_resolved : RateRow → ResolvedRate
to_resolved r = record {
  rate_id = r.rate_id;
  currency = r.currency;
  hourly_rate_cents = r.hourly_rate_cents;
}

-- The `where` clause: a rate of the user whose closed interval holds the day.
abbrev pub covers : String → ℕ → RateRow → Bool
covers user day r = (r.assignee_id === user) && (leb r.valid_from day && not_after day r.valid_to)

-- `findFirst` under `orderBy: { validFrom: 'desc' }`.
abbrev pub later_start : RateRow → Option RateRow → RateRow
later_start r none = r
later_start r (some s) = if ltb r.valid_from s.valid_from then s else r

abbrev pub latest : List RateRow → Option RateRow
latest [] = none
latest (r ∷ rest) = some (later_start r (latest rest))

abbrev pub keep_resolved : Option RateRow → Option ResolvedRate
keep_resolved none = none
keep_resolved (some r) = some (to_resolved r)

-- The query of `resolveRate`.
unfoldable pub find_rate : List RateRow → String → ℕ → Option ResolvedRate
find_rate rows user day = keep_resolved (latest (find_many (covers user day) rows))

abbrev pub cache_get : String → ℕ → RateCache → Option (Option ResolvedRate)
cache_get user day [] = none
cache_get user day (e ∷ rest) =
    if (e.user_id === user) && (e.day == day) then some e.rate else cache_get user day rest

abbrev pub use_cached :
    Option (Option ResolvedRate)
    → Option ResolvedRate
    → String
    → ℕ
    → RateCache
    → Option ResolvedRate × RateCache
use_cached (some rate) found user day cache = (rate, cache)
use_cached none found user day cache =
    (found, record { user_id = user; day = day; rate = found } ∷ cache)

-- A call without a cache neither reads nor writes one.
unfoldable pub resolve_rate :
    List RateRow → String → ℕ → Option RateCache → Option ResolvedRate × Option RateCache
resolve_rate rows user day none = (find_rate rows user day, none)
resolve_rate rows user day (some cache) =
    let (rate, cache') =
      use_cached (cache_get user day cache) (find_rate rows user day) user day cache in
    (rate, some cache')

-- UTC midnight of an instant.
abbrev pub date_of : ℕ → ℕ
date_of t = t - t % day_ms

abbrev pub contains : List String → String → Bool
contains [] id = false
contains (x ∷ rest) id = if x === id then true else contains rest id

abbrev pub uncosted : CostStatus → Cost
uncosted s = record {
  rate_id = none;
  currency = "USD";
  hourly_rate_cents = 0;
  cost_cents = 0;
  status = s;
}

-- `cost.rateMatching === 'due' && opts?.dueDate ? opts.dueDate : startTime`
abbrev pub basis : RateMatching → Option ℕ → ℕ → ℕ
basis due (some due_date) start_time = due_date
basis due none start_time = start_time
basis start due_date start_time = start_time

-- `opts?.billable === false`
abbrev pub is_non_billable : Option Bool → Bool
is_non_billable (some false) = true
is_non_billable (some true) = false
is_non_billable none = false

-- The arguments of a call; `none` is null or undefined.
pub record Request (Hours : Type 0) : Type 0 where
  pub user_id : Option String
  pub start_time : Option ℕ
  pub duration_hours : Hours
  pub billable : Option Bool
  pub due_date : Option ℕ

-- Hours are doubles. `rounded_product cents hours` is `Math.round(Number(cents) * hours)`.
module _ {Hours : Type 0} (rounded_product : ℕ → Hours → ℕ) where
  abbrev pub priced : Option ResolvedRate → Hours → Cost
  priced none hours = uncosted no_rate_found
  priced (some r) hours = record {
    rate_id = some r.rate_id;
    currency = r.currency;
    hourly_rate_cents = r.hourly_rate_cents;
    cost_cents = rounded_product r.hourly_rate_cents hours;
    status = cost_calculated;
  }

  -- The body behind `if (!userId || !startTime) return …`.
  abbrev pub calculate_for :
      CostPreferences
      → List RateRow
      → String
      → ℕ
      → Request Hours
      → Option RateCache
      → Cost × Option RateCache
  calculate_for prefs rows user start_time q cache =
      let day = date_of (basis prefs.rate_matching q.due_date start_time) in
      let (rate, cache') = resolve_rate rows user day cache in
      if contains prefs.excluded_assignee_ids user
      then (uncosted cost_excluded, cache)
      else if prefs.non_billable_zero && is_non_billable q.billable
      then (uncosted cost_calculated, cache)
      else (priced rate q.duration_hours, cache')

  -- `''` is falsy too.
  abbrev pub calculate_known :
      CostPreferences
      → List RateRow
      → Option String
      → Option ℕ
      → Request Hours
      → Option RateCache
      → Cost × Option RateCache
  calculate_known prefs rows none start_time q cache = (uncosted no_rate_found, cache)
  calculate_known prefs rows (some user) none q cache = (uncosted no_rate_found, cache)
  calculate_known prefs rows (some user) (some t) q cache =
      if user === ""
      then (uncosted no_rate_found, cache)
      else calculate_for prefs rows user t q cache

  unfoldable pub calculate :
      CostPreferences → List RateRow → Request Hours → Option RateCache → Cost × Option RateCache
  calculate prefs rows q cache = calculate_known prefs rows q.user_id q.start_time q cache
