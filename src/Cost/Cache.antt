-- ===== src/Cost/Cache.antt =====
-- The rate cache of a run: it never changes what a time entry costs.
use clickup_sync.Common.{
  ℕ, ◌≡◌, refl, ap, String, ◌&&◌, Option, none, some, List, [], ◌∷◌, ◌===◌, All, arith, eq_iff,
  Bool-cases, Option-cases, inl, inr,
}
use clickup_sync.Rates.Table.{RateRow}
use clickup_sync.Cost.Calculator.{
  ResolvedRate, RateCache, CostPreferences, Cost, Request, find_rate, cache_get, resolve_rate,
  calculate, calculate_for, calculate_known, contains, is_non_billable, date_of, basis, priced,
}

-- Every rate in the cache is what the table gives for its user and day.
abbrev pub CoherentCache : List RateRow → RateCache → Type 0
CoherentCache rows cache = All (λ e. e.rate ≡ find_rate rows e.user_id e.day) cache

abbrev pub Coherent : List RateRow → Option RateCache → Type 0
Coherent rows none = Unit
Coherent rows (some cache) = CoherentCache rows cache

module _ (rows : List RateRow) (user : String) (day : ℕ) where
  cache_get-Coherent :
      (cache : RateCache) (rate : Option ResolvedRate)
      → CoherentCache rows cache
      → cache_get user day cache ≡ some rate
      → rate ≡ find_rate rows user day
  cache_get-Coherent [] rate h e = cc
  cache_get-Coherent (x ∷ rest) rate h e =
      ground (arith, eq_iff x.user_id user, h.0, cache_get-Coherent rest rate h.1)

  pub resolve_rate-Coherent :
      (cache : Option RateCache)
      → Coherent rows cache
      → ((resolve_rate rows user day cache).0 ≡ find_rate rows user day)
        × Coherent rows (resolve_rate rows user day cache).1
  unfolding resolve_rate
  resolve_rate-Coherent none h = (refl, tt)
  resolve_rate-Coherent (some cache) h = elim (Option-cases (cache_get user day cache)) [
    | inl missing ↦ rw missing (refl, (refl, h))
    | inr (rate, found) ↦ rw found (cache_get-Coherent cache rate h found, h)
  ]

module _ {Hours : Type 0} (rounded_product : ℕ → Hours → ℕ) where
  -- The call gives `cost`, and leaves a cache that agrees with the table.
  abbrev Gives : List RateRow → Cost → Cost × Option RateCache → Type 0
  Gives rows cost (c, cache) = (c ≡ cost) × Coherent rows cache

  module _ (prefs : CostPreferences) (rows : List RateRow) (q : Request Hours) where
    calculate_for-Coherent :
        (user : String) (t : ℕ) (cache : Option RateCache)
        → Coherent rows cache
        → Gives rows
            (calculate_for rounded_product prefs rows user t q none).0
            (calculate_for rounded_product prefs rows user t q cache)
    unfolding resolve_rate
    calculate_for-Coherent user t cache h =
        elim (Bool-cases (contains prefs.excluded_assignee_ids user)) [
          | inl e ↦ rw e (refl, h)
          | inr e ↦ elim (Bool-cases (prefs.non_billable_zero && is_non_billable q.billable)) [
            | inl f ↦ rw (e, f) (refl, h)
            | inr f ↦
                rw (e, f) (ap (λ r. priced rounded_product r q.duration_hours) found.0, found.1)
          ]
        ]
      where
        day : ℕ
        day = date_of (basis prefs.rate_matching q.due_date t)

        found :
            ((resolve_rate rows user day cache).0 ≡ find_rate rows user day)
            × Coherent rows (resolve_rate rows user day cache).1
        found = resolve_rate-Coherent rows user day cache h

    calculate_known-Coherent :
        (user : Option String) (start_time : Option ℕ) (cache : Option RateCache)
        → Coherent rows cache
        → Gives rows
            (calculate_known rounded_product prefs rows user start_time q none).0
            (calculate_known rounded_product prefs rows user start_time q cache)
    calculate_known-Coherent none start_time cache h = (refl, h)
    calculate_known-Coherent (some user) none cache h = (refl, h)
    calculate_known-Coherent (some user) (some t) cache h = elim (Bool-cases (user === "")) [
      | inl e ↦ rw e (refl, h)
      | inr e ↦ rw e (calculate_for-Coherent user t cache h)
    ]

    -- With a cache that agrees with the table a calculation gives the cost that it gives without a
    -- cache, and the cache that it leaves agrees with the table again.
    pub calculate-Coherent :
        (cache : Option RateCache)
        → Coherent rows cache
        → ((calculate rounded_product prefs rows q cache).0
            ≡ (calculate rounded_product prefs rows q none).0)
          × Coherent rows (calculate rounded_product prefs rows q cache).1
    unfolding calculate
    calculate-Coherent cache h = calculate_known-Coherent q.user_id q.start_time cache h
