-- ===== src/Rates/Succession.antt =====
-- What createWithSuccession does to the table, against a description of it row by row.
use mathlib.Core.List.{append-nil, append_assoc, map-id, map-map}
use clickup_sync.Common.{
  sym, ℕ, ◌≡◌, ◌≢◌, refl, ap, ◌∙◌, Bool, true, false, ◌&&◌, ◌||◌, none, some, List, [], ◌∷◌, ◌++◌,
  map, ◌==◌, ◌===◌, leb, if◌then◌else◌, find_first, find_many, All, arith, Bool-cases, inl, inr, ok,
}
use clickup_sync.Rates.Plan.{
  RateInterval, Cap, planned, blocked, not_after, overlaps, day_before, plan_loop,
  plan_rate_succession, starts_too_late,
}
use clickup_sync.Rates.Table.{
  RateRow, RateData, RateTable, clash, clear_of, no_overlapping_rates, ranges_hold, set_valid_to,
  to_interval, cap_rate, apply_caps, of_assignee,
}

-- A row that the new rate overlaps.
abbrev pub is_hit : RateData → RateRow → Bool
is_hit d r = of_assignee d.assignee_id r && overlaps r.valid_from r.valid_to d.valid_from d.valid_to

-- A hit that starts on or after the new start cannot be capped.
abbrev pub any_blocked : RateData → List RateRow → Bool
any_blocked d [] = false
any_blocked d (r ∷ rest) = (is_hit d r && leb d.valid_from r.valid_from) || any_blocked d rest

-- What becomes of a row: a hit ends on the day before the new start.
abbrev pub cap_row : RateData → RateRow → RateRow
cap_row d r = if is_hit d r then set_valid_to (day_before d.valid_from) r else r

abbrev pub cap_of : RateData → RateRow → Cap
cap_of d r = record { rate_id = r.rate_id; valid_to = day_before d.valid_from }

abbrev pub caps_of : RateData → List RateRow → List Cap
caps_of d [] = []
caps_of d (r ∷ rest) = let caps = caps_of d rest in if is_hit d r then cap_of d r ∷ caps else caps

module _ (d : RateData) where
  abbrev pub existing : List RateRow → List RateInterval
  existing rows = map to_interval (find_many (of_assignee d.assignee_id) rows)

  -- The loop over the intervals, as a function of the rows.
  plan_loop_lem :
      (caps : List Cap) (rows : List RateRow)
      → plan_loop d.valid_from d.valid_to caps (existing rows)
        ≡ (if any_blocked d rows then blocked starts_too_late else planned (caps ++ caps_of d rows))
  unfolding plan_loop
  plan_loop_lem caps [] = ap planned (sym (append-nil caps))
  plan_loop_lem caps (r ∷ rest) = elim (Bool-cases (of_assignee d.assignee_id r)) [
    | inl ours ↦ rw ours (
        ground (
          arith,
          append_assoc caps (cap_of d r ∷ []) (caps_of d rest),
          plan_loop_lem caps rest,
          plan_loop_lem (caps ++ cap_of d r ∷ []) rest,
        ))
    | inr other ↦ rw other (plan_loop_lem caps rest)
  ]

  -- The plan caps every hit, or refuses for a hit that starts on or after the new start.
  pub plan_rate_succession_lem :
      (rows : List RateRow)
      → plan_rate_succession d.valid_from d.valid_to (existing rows)
        ≡ (if any_blocked d rows then blocked starts_too_late else planned (caps_of d rows))
  unfolding plan_rate_succession
  plan_rate_succession_lem rows = plan_loop_lem [] rows

-- A cap ends a row on a day that the row reaches, and not before its first day.
abbrev pub FitsRow : Cap → RateRow → Type 0
FitsRow c r =
    (r.rate_id == c.rate_id) ≡ true
    → (not_after r.valid_from (some c.valid_to) ≡ true) × (not_after c.valid_to r.valid_to ≡ true)

-- The caps of one plan all end rows on the same day `to`.
pub record Fits (to : ℕ) (c : Cap) (rows : List RateRow) : Type 0 where
  pub same_day : c.valid_to ≡ to
  pub known : find_first (λ r. r.rate_id == c.rate_id) rows ≢ none
  pub fits : All (FitsRow c) rows

abbrev pub cap_one : Cap → RateRow → RateRow
cap_one c r = if r.rate_id == c.rate_id then set_valid_to c.valid_to r else r

abbrev pub cap_all : List Cap → RateRow → RateRow
cap_all [] r = r
cap_all (c ∷ rest) r = cap_all rest (cap_one c r)

-- Rows that end earlier still share no day.
clash-cap_one :
    (c : Cap) (r s : RateRow)
    → FitsRow c r
    → FitsRow c s
    → clash r s ≡ false
    → clash (cap_one c r) (cap_one c s) ≡ false
clash-cap_one c r s hr hs h = elim (Bool-cases (r.assignee_id === s.assignee_id)) [
  | inl same ↦ ground arith
  | inr other ↦ ground arith
]

module _ (c : Cap) where
  clear_of-cap_one :
      (r : RateRow) (rows : List RateRow)
      → FitsRow c r
      → All (FitsRow c) rows
      → clear_of r rows ≡ true
      → clear_of (cap_one c r) (map (cap_one c) rows) ≡ true
  clear_of-cap_one r [] hr hs h = refl
  clear_of-cap_one r (s ∷ rest) hr hs h =
      ground (arith, clash-cap_one c s r hs.0 hr, clear_of-cap_one r rest hr hs.1)

  no_overlapping_rates-cap_one :
      (rows : List RateRow)
      → All (FitsRow c) rows
      → no_overlapping_rates rows ≡ true
      → no_overlapping_rates (map (cap_one c) rows) ≡ true
  no_overlapping_rates-cap_one [] hs h = refl
  no_overlapping_rates-cap_one (r ∷ rest) hs h =
      ground (arith, clear_of-cap_one r rest hs.0 hs.1, no_overlapping_rates-cap_one rest hs.1)

  ranges_hold-cap_one :
      (rows : List RateRow)
      → All (FitsRow c) rows
      → ranges_hold rows ≡ true
      → ranges_hold (map (cap_one c) rows) ≡ true
  ranges_hold-cap_one [] hs h = refl
  ranges_hold-cap_one (r ∷ rest) hs h = ground (arith, hs.0, ranges_hold-cap_one rest hs.1)

  -- Capping by `c` keeps what another cap of the same plan needs.
  All-FitsRow-cap_one :
      (b : Cap) (rows : List RateRow)
      → c.valid_to ≡ b.valid_to
      → All (FitsRow c) rows
      → All (FitsRow b) rows
      → All (FitsRow b) (map (cap_one c) rows)
  All-FitsRow-cap_one b [] same hc hb = tt
  All-FitsRow-cap_one b (r ∷ rest) same hc hb =
      (λ e. ground (arith, hc.0, hb.0), All-FitsRow-cap_one b rest same hc.1 hb.1)

  find_first-cap_one :
      (b : Cap) (rows : List RateRow)
      → find_first (λ r. r.rate_id == b.rate_id) rows ≢ none
      → find_first (λ r. r.rate_id == b.rate_id) (map (cap_one c) rows) ≢ none
  find_first-cap_one b [] h = h
  find_first-cap_one b (r ∷ rest) h = ground (arith, find_first-cap_one b rest)

-- A table on which a statement that keeps it in order succeeds.
pub record InOrder (rows : List RateRow) : Type 0 where
  pub apart : no_overlapping_rates rows ≡ true
  pub ranges : ranges_hold rows ≡ true

InOrder-cap_one :
    (c : Cap) (rows : List RateRow)
    → All (FitsRow c) rows
    → InOrder rows
    → InOrder (map (cap_one c) rows)
InOrder-cap_one c rows f o = record {
  apart = no_overlapping_rates-cap_one c rows f o.apart;
  ranges = ranges_hold-cap_one c rows f o.ranges;
}

cap_rate_lem :
    (to : ℕ) (c : Cap) (t : RateTable)
    → Fits to c t.rows
    → InOrder t.rows
    → cap_rate c t ≡ (ok tt, record t { rows = map (cap_one c) t.rows })
unfolding cap_rate
cap_rate_lem to c t f o = ground (
  arith,
  f.known,
  no_overlapping_rates-cap_one c t.rows f.fits o.apart,
  ranges_hold-cap_one c t.rows f.fits o.ranges,
)

abbrev pub AllFit : ℕ → List Cap → List RateRow → Type 0
AllFit to cs rows = All (λ c. Fits to c rows) cs

AllFit-cap_one :
    (to : ℕ) (c : Cap) (cs : List Cap) (rows : List RateRow)
    → Fits to c rows
    → AllFit to cs rows
    → AllFit to cs (map (cap_one c) rows)
AllFit-cap_one to c [] rows f h = tt
AllFit-cap_one to c (b ∷ rest) rows f h = (
  record {
    same_day = h.0.same_day;
    known = find_first-cap_one c b rows h.0.known;
    fits = All-FitsRow-cap_one c b rows (f.same_day ∙ sym h.0.same_day) f.fits h.0.fits;
  },
  AllFit-cap_one to c rest rows f h.1,
)

pub apply_caps_lem :
    (to : ℕ) (cs : List Cap) (t : RateTable)
    → AllFit to cs t.rows
    → InOrder t.rows
    → apply_caps cs t ≡ (ok tt, record t { rows = map (cap_all cs) t.rows })
unfolding apply_caps
apply_caps_lem to [] t h o = ap (λ rows. (ok tt, record t { rows = rows })) (sym (map-id t.rows))
apply_caps_lem to (c ∷ rest) t h o = rw (cap_rate_lem to c t h.0 o) (
    apply_caps_lem to rest (record t { rows = map (cap_one c) t.rows })
      (AllFit-cap_one to c rest t.rows h.0 h.1) (InOrder-cap_one c t.rows h.0.fits o)
    ∙ ap (λ rows. (ok tt, record t { rows = rows })) (map-map (cap_all rest) (cap_one c) t.rows))

pub InOrder-cap_all :
    (to : ℕ) (cs : List Cap) (rows : List RateRow)
    → AllFit to cs rows
    → InOrder rows
    → InOrder (map (cap_all cs) rows)
InOrder-cap_all to [] rows h o = rw map-id o
InOrder-cap_all to (c ∷ rest) rows h o = rw (map-map (cap_all rest) (cap_one c) rows) at (
    InOrder-cap_all to rest (map (cap_one c) rows) (AllFit-cap_one to c rest rows h.0 h.1)
      (InOrder-cap_one c rows h.0.fits o))
