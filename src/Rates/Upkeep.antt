-- ===== src/Rates/Upkeep.antt =====
-- PATCH and DELETE keep the table of rates in order.
use clickup_sync.Common.{
  ℕ, ◌<◌, ◌≡◌, refl, true, Option, none, some, List, [], ◌∷◌, find_first, update_many, delete_many,
  All, arith, Bool-cases, Option-cases, inl, inr, ◌&&◌, continue-pure,
}
use clickup_sync.Rates.Plan.{IsDate}
use clickup_sync.Rates.Table.{
  RateRow, RateTable, RatePatch, update_rate, remove_rate, has_id, patch_row, given, write,
  no_overlapping_rates, ranges_hold, clear_of,
}
use clickup_sync.Rates.Capping.{IsSound, HasDates, DateOrNull, OtherId, DistinctIds}

-- The dates of a patch are at midnight, as AdminRatesController makes them.
pub record HasPatchDates (p : RatePatch) : Type 0 where
  pub from_date : DateOrNull p.valid_from
  pub to_date : (t : Option ℕ) → p.valid_to ≡ some t → DateOrNull t

module _ (id : ℕ) where
  HasDates-patch :
      (p : RatePatch) → HasPatchDates p → (r : RateRow) → HasDates r → HasDates (patch_row p r)
  HasDates-patch p h r d = (from p.valid_from h.from_date, to p.valid_to h.to_date)
    where
      from : (o : Option ℕ) → DateOrNull o → IsDate (given o r.valid_from)
      from none x = d.0
      from (some t) x = x

      to :
          (o : Option (Option ℕ))
          → ((t : Option ℕ) → o ≡ some t → DateOrNull t)
          → DateOrNull (given o r.valid_to)
      to none x = d.1
      to (some t) x = x t refl

  module _ (p : RatePatch) where
    abbrev patched : List RateRow → List RateRow
    patched = update_many (has_id id) (patch_row p)

    HasDates-patched :
        (rows : List RateRow) → HasPatchDates p → All HasDates rows → All HasDates (patched rows)
    HasDates-patched [] h d = tt
    HasDates-patched (r ∷ rest) h d = (
      elim (Bool-cases (has_id id r)) [
        | inl e ↦ rw e (HasDates-patch p h r d.0)
        | inr e ↦ rw e d.0
      ],
      HasDates-patched rest h d.1,
    )

    OtherId-patched :
        (n : ℕ) (rows : List RateRow) → All (OtherId n) rows → All (OtherId n) (patched rows)
    OtherId-patched n [] h = tt
    OtherId-patched n (r ∷ rest) h = (ground (arith, h.0), OtherId-patched n rest h.1)

    DistinctIds-patched : (rows : List RateRow) → DistinctIds rows → DistinctIds (patched rows)
    DistinctIds-patched [] h = tt
    DistinctIds-patched (r ∷ rest) h = (
      elim (Bool-cases (has_id id r)) [
        | inl e ↦ rw e (OtherId-patched r.rate_id rest h.0)
        | inr e ↦ rw e (OtherId-patched r.rate_id rest h.0)
      ],
      DistinctIds-patched rest h.1,
    )

    below-patched :
        (n : ℕ) (rows : List RateRow)
        → All (λ r. r.rate_id < n) rows
        → All (λ r. r.rate_id < n) (patched rows)
    below-patched n [] h = tt
    below-patched n (r ∷ rest) h = (ground (arith, h.0), below-patched n rest h.1)

    write-patched :
        (t : RateTable) → IsSound t → HasPatchDates p → IsSound (write (patched t.rows) t).1
    write-patched t v h =
        elim (Bool-cases (no_overlapping_rates (patched t.rows) && ranges_hold (patched t.rows))) [
          | inr e ↦ rw e v
          | inl e ↦ rw e (record {
            dates = HasDates-patched t.rows h v.dates;
            ids = DistinctIds-patched t.rows v.ids;
            below = below-patched t.next_id t.rows v.below;
            in_order = record { apart = ground arith; ranges = ground arith };
          })
        ]

    -- PATCH keeps the table in order: a change that would break a constraint is refused.
    pub update_rate-IsSound :
        (t : RateTable) → IsSound t → HasPatchDates p → IsSound (update_rate id p t).1
    unfolding update_rate
    update_rate-IsSound t v h = elim (Option-cases (find_first (has_id id) t.rows)) [
      | inl e ↦ rw e v
      | inr (r, e) ↦
          rw
            (
              e,
              continue-pure (write (patched t.rows) t).0 (λ _. patch_row p r)
                  (write (patched t.rows) t).1,
            )
            (write-patched t v h)
    ]

  abbrev without : List RateRow → List RateRow
  without = delete_many (has_id id)

  All-without : (P : RateRow → Type 0) (rows : List RateRow) → All P rows → All P (without rows)
  All-without P [] h = tt
  All-without P (r ∷ rest) h = elim (Bool-cases (has_id id r)) [
    | inl e ↦ rw e (All-without P rest h.1)
    | inr e ↦ rw e (h.0, All-without P rest h.1)
  ]

  DistinctIds-without : (rows : List RateRow) → DistinctIds rows → DistinctIds (without rows)
  DistinctIds-without [] h = tt
  DistinctIds-without (r ∷ rest) h = elim (Bool-cases (has_id id r)) [
    | inl e ↦ rw e (DistinctIds-without rest h.1)
    | inr e ↦ rw e (All-without (OtherId r.rate_id) rest h.0, DistinctIds-without rest h.1)
  ]

  clear_of-without :
      (r : RateRow) (rows : List RateRow)
      → clear_of r rows ≡ true
      → clear_of r (without rows) ≡ true
  clear_of-without r [] h = refl
  clear_of-without r (s ∷ rest) h = elim (Bool-cases (has_id id s)) [
    | inl e ↦ rw e (clear_of-without r rest (ground arith))
    | inr e ↦ rw e (ground (arith, clear_of-without r rest))
  ]

  no_overlapping_rates-without :
      (rows : List RateRow)
      → no_overlapping_rates rows ≡ true
      → no_overlapping_rates (without rows) ≡ true
  no_overlapping_rates-without [] h = refl
  no_overlapping_rates-without (r ∷ rest) h = elim (Bool-cases (has_id id r)) [
    | inl e ↦ rw e (no_overlapping_rates-without rest (ground arith))
    | inr e ↦ rw e (ground (arith, clear_of-without r rest, no_overlapping_rates-without rest))
  ]

  ranges_hold-without :
      (rows : List RateRow) → ranges_hold rows ≡ true → ranges_hold (without rows) ≡ true
  ranges_hold-without [] h = refl
  ranges_hold-without (r ∷ rest) h = elim (Bool-cases (has_id id r)) [
    | inl e ↦ rw e (ranges_hold-without rest (ground arith))
    | inr e ↦ rw e (ground (arith, ranges_hold-without rest))
  ]

  pub remove_rate-IsSound : (t : RateTable) → IsSound t → IsSound (remove_rate id t).1
  unfolding remove_rate
  remove_rate-IsSound t v = elim (Option-cases (find_first (has_id id) t.rows)) [
    | inl e ↦ rw e v
    | inr (r, e) ↦ rw e (record {
      dates = All-without HasDates t.rows v.dates;
      ids = DistinctIds-without t.rows v.ids;
      below = All-without (λ r. r.rate_id < t.next_id) t.rows v.below;
      in_order = record {
        apart = no_overlapping_rates-without t.rows v.in_order.apart;
        ranges = ranges_hold-without t.rows v.in_order.ranges;
      };
    })
  ]
