-- ===== src/Rates/Capping.antt =====
-- The statements that cap the rates, on a table that is in order: none breaks a constraint, and
-- together they end each hit and nothing else.
use clickup_sync.Common.{
  ℕ, ◌≤◌, ◌<◌, ◌≡◌, ◌≢◌, refl, ap, ◌∙◌, true, false, Option, none, some, List, [], ◌∷◌, map, leb,
  if◌then◌else◌, All, arith, Bool-cases, inl, inr,
}
use clickup_sync.Rates.Plan.{Cap, IsDate, not_after, day_before, day_ms}
use clickup_sync.Rates.Table.{RateRow, RateData, RateTable, to_row, clear_of, set_valid_to}
use clickup_sync.Rates.Succession.{
  is_hit, any_blocked, cap_row, caps_of, cap_of, cap_all, FitsRow, AllFit, InOrder,
}

abbrev pub DateOrNull : Option ℕ → Type 0
DateOrNull none = Unit
DateOrNull (some t) = IsDate t

abbrev pub HasDates : RateRow → Type 0
HasDates r = IsDate r.valid_from × DateOrNull r.valid_to

abbrev pub OtherId : ℕ → RateRow → Type 0
OtherId id r = r.rate_id ≢ id

abbrev pub DistinctIds : List RateRow → Type 0
DistinctIds [] = Unit
DistinctIds (r ∷ rest) = All (OtherId r.rate_id) rest × DistinctIds rest

-- A table in order: dates at midnight, keys that differ and are below the next one, no range that
-- ends before it begins, and no two rates of one assignee on one day.
pub record IsSound (t : RateTable) : Type 0 where
  pub dates : All HasDates t.rows
  pub ids : DistinctIds t.rows
  pub below : All (λ r. r.rate_id < t.next_id) t.rows
  pub in_order : InOrder t.rows

-- What AdminRatesController and CreateRateDto ensure of a new rate, from 1970-01-02 on.
pub record IsAdmissible (d : RateData) : Type 0 where
  pub after_epoch : day_ms ≤ d.valid_from
  pub from_date : IsDate d.valid_from
  pub to_date : DateOrNull d.valid_to
  pub range : not_after d.valid_from d.valid_to ≡ true

module _ (d : RateData) (a : IsAdmissible d) where
  -- The two bounds of a cap: the row starts before the new rate, and reaches it.
  cap_of_fits :
      (r : RateRow)
      → HasDates r
      → is_hit d r ≡ true
      → leb d.valid_from r.valid_from ≡ false
      → FitsRow (cap_of d r) r
  cap_of_fits r dates hit early e =
      (ground (arith, a.from_date, a.after_epoch), ground (arith, a.after_epoch))

  -- A row with another key is out of the caps' reach.
  caps_of-OtherId :
      (id : ℕ) (rows : List RateRow)
      → All (OtherId id) rows
      → All (λ c. c.rate_id ≢ id) (caps_of d rows)
  caps_of-OtherId id [] h = tt
  caps_of-OtherId id (r ∷ rest) h = elim (Bool-cases (is_hit d r)) [
    | inl hit ↦ rw hit (h.0, caps_of-OtherId id rest h.1)
    | inr miss ↦ rw miss (caps_of-OtherId id rest h.1)
  ]

  cap_all_other :
      (cs : List Cap) (r : RateRow) → All (λ c. c.rate_id ≢ r.rate_id) cs → cap_all cs r ≡ r
  cap_all_other [] r h = refl
  cap_all_other (c ∷ rest) r h = ground (arith, h.0, cap_all_other rest r h.1)

  AllFit-skip :
      (r : RateRow) (to : ℕ) (cs : List Cap) (rows : List RateRow)
      → All (λ c. c.rate_id ≢ r.rate_id) cs
      → AllFit to cs rows
      → AllFit to cs (r ∷ rows)
  AllFit-skip r to [] rows h f = tt
  AllFit-skip r to (c ∷ rest) rows h f = (
    record {
      same_day = f.0.same_day;
      known = ground (arith, h.0, f.0.known);
      fits = (λ e. absurd (ground (arith, h.0)), f.0.fits);
    },
    AllFit-skip r to rest rows h.1 f.1,
  )

  FitsRow-other :
      (id : ℕ) (c : Cap) (rows : List RateRow)
      → c.rate_id ≡ id
      → All (OtherId id) rows
      → All (FitsRow c) rows
  FitsRow-other id c [] e h = tt
  FitsRow-other id c (r ∷ rest) e h =
      (λ same. absurd (ground (arith, h.0)), FitsRow-other id c rest e h.1)

  pub AllFit-caps_of :
      (rows : List RateRow)
      → All HasDates rows
      → DistinctIds rows
      → any_blocked d rows ≡ false
      → AllFit (day_before d.valid_from) (caps_of d rows) rows
  AllFit-caps_of [] dates ids free = tt
  AllFit-caps_of (r ∷ rest) dates ids free = elim (Bool-cases (is_hit d r)) [
    | inl hit ↦ rw hit (
      record {
        same_day = refl;
        known = ground arith;
        fits = (
          cap_of_fits r dates.0 hit (ground arith),
          FitsRow-other r.rate_id (cap_of d r) rest refl ids.0,
        );
      },
      skip (AllFit-caps_of rest dates.1 ids.1 (ground arith)),
    )
    | inr miss ↦ rw miss (skip (AllFit-caps_of rest dates.1 ids.1 (ground arith)))
  ]
    where
      skip :
          AllFit (day_before d.valid_from) (caps_of d rest) rest
          → AllFit (day_before d.valid_from) (caps_of d rest) (r ∷ rest)
      skip =
          AllFit-skip r (day_before d.valid_from) (caps_of d rest) rest
            (caps_of-OtherId r.rate_id rest ids.0)

  map-cap_all_other :
      (c : Cap) (cs : List Cap) (rows : List RateRow)
      → All (OtherId c.rate_id) rows
      → map (cap_all (c ∷ cs)) rows ≡ map (cap_all cs) rows
  map-cap_all_other c cs [] h = refl
  map-cap_all_other c cs (r ∷ rest) h = ground (arith, h.0, map-cap_all_other c cs rest h.1)

  cap_all-tail :
      (r : RateRow) (rows : List RateRow)
      → All (OtherId r.rate_id) rows
      → map (cap_all (caps_of d (r ∷ rows))) rows ≡ map (cap_all (caps_of d rows)) rows
  cap_all-tail r rows h = elim (Bool-cases (is_hit d r)) [
    | inl hit ↦
        ap (λ b. map (cap_all (if b then cap_of d r ∷ caps_of d rows else caps_of d rows)) rows) hit
        ∙ map-cap_all_other (cap_of d r) (caps_of d rows) rows h
    | inr miss ↦
        ap (λ b. map (cap_all (if b then cap_of d r ∷ caps_of d rows else caps_of d rows)) rows)
          miss
  ]

  cap_all-head :
      (r : RateRow) (rows : List RateRow)
      → All (OtherId r.rate_id) rows
      → cap_all (caps_of d (r ∷ rows)) r ≡ cap_row d r
  cap_all-head r rows h =
      let others = caps_of-OtherId r.rate_id rows h in
      elim (Bool-cases (is_hit d r)) [
        | inl hit ↦ rw hit (
            ground (
              arith,
              cap_all_other (caps_of d rows) (set_valid_to (day_before d.valid_from) r) others,
            ))
        | inr miss ↦ rw miss (cap_all_other (caps_of d rows) r others)
      ]

  -- With distinct keys the statements, one cap after another, end each hit and nothing else.
  pub cap_all-cap_row :
      (rows : List RateRow)
      → DistinctIds rows
      → map (cap_all (caps_of d rows)) rows ≡ map (cap_row d) rows
  cap_all-cap_row [] ids = refl
  cap_all-cap_row (r ∷ rest) ids =
      cc (cap_all-head r rest ids.0, cap_all-tail r rest ids.0, cap_all-cap_row rest ids.1)

  pub clear_of-cap_row :
      (id : ℕ) (rows : List RateRow) → clear_of (to_row id d) (map (cap_row d) rows) ≡ true
  clear_of-cap_row id [] = refl
  clear_of-cap_row id (r ∷ rest) = ground (arith, a.after_epoch, clear_of-cap_row id rest)
