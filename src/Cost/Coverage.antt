-- ===== src/Cost/Coverage.antt =====
-- Which rate a day has after a new rate was created.
use clickup_sync.Common.{
  ℕ, ◌≡◌, refl, ap, ◌∙◌, sym, String, Bool, true, false, ◌&&◌, Option, none, some, List, [], ◌∷◌,
  map, ◌===◌, leb, if◌then◌else◌, find_many, delete_many, arith, eq_iff, Bool-cases, inl, inr,
}
use clickup_sync.Rates.Plan.{IsDate, not_after}
use clickup_sync.Rates.Table.{RateRow, RateData, RateTable, to_row, create_with_succession}
use clickup_sync.Rates.Succession.{is_hit, any_blocked, cap_row}
use clickup_sync.Rates.Capping.{IsSound, IsAdmissible}
use clickup_sync.Rates.Creation.{create_with_succession_lem}
use clickup_sync.Cost.Calculator.{
  ResolvedRate, covers, latest, later_start, keep_resolved, to_resolved, find_rate,
}

abbrev Option-map : (RateRow → RateRow) → Option RateRow → Option RateRow
Option-map g none = none
Option-map g (some r) = some (g r)

module _ (d : RateData) (a : IsAdmissible d) (user : String) (day : ℕ) where
  abbrev c : RateRow → Bool
  c = covers user day

  -- Capping keeps the order of the starts.
  later_start-cap_row :
      (r : RateRow) (o : Option RateRow)
      → later_start (cap_row d r) (Option-map (cap_row d) o) ≡ cap_row d (later_start r o)
  later_start-cap_row r none = refl
  later_start-cap_row r (some s) = ground arith

  latest-cap_row :
      (rows : List RateRow) → latest (map (cap_row d) rows) ≡ Option-map (cap_row d) (latest rows)
  latest-cap_row [] = refl
  latest-cap_row (r ∷ rest) =
      ap some
        (ap (later_start (cap_row d r)) (latest-cap_row rest) ∙ later_start-cap_row r (latest rest))

  keep_resolved-cap_row :
      (o : Option RateRow) → keep_resolved (Option-map (cap_row d) o) ≡ keep_resolved o
  keep_resolved-cap_row none = refl
  keep_resolved-cap_row (some r) = ground arith

  -- A row that is another assignee's, or a day before the new start: capping is not seen.
  abbrev Unseen : Type 0
  Unseen = ((user === d.assignee_id) && leb d.valid_from day) ≡ false

  covers-unseen : IsDate day → Unseen → (r : RateRow) → c (cap_row d r) ≡ c r
  covers-unseen date u r = ground (
    arith,
    a.from_date,
    a.after_epoch,
    eq_iff user d.assignee_id,
    eq_iff r.assignee_id user,
    eq_iff r.assignee_id d.assignee_id,
  )

  find_many-unseen :
      IsDate day
      → Unseen
      → (rows : List RateRow)
      → find_many c (map (cap_row d) rows) ≡ map (cap_row d) (find_many c rows)
  find_many-unseen date u [] = refl
  find_many-unseen date u (r ∷ rest) = elim (Bool-cases (c r)) [
    | inl e ↦ rw (covers-unseen date u r, e) (ap (◌∷◌ (cap_row d r)) (find_many-unseen date u rest))
    | inr e ↦ rw (covers-unseen date u r, e) (find_many-unseen date u rest)
  ]

  -- From the new start on no capped row counts.
  abbrev Seen : Type 0
  Seen = ((user === d.assignee_id) && leb d.valid_from day) ≡ true

  covers-hit : Seen → (r : RateRow) → is_hit d r ≡ true → c (cap_row d r) ≡ false
  covers-hit u r hit = ground (arith, a.after_epoch)

  find_many-seen :
      Seen
      → (rows : List RateRow)
      → find_many c (map (cap_row d) rows) ≡ find_many c (delete_many (is_hit d) rows)
  find_many-seen u [] = refl
  find_many-seen u (r ∷ rest) = elim (Bool-cases (is_hit d r)) [
    | inl hit ↦ rw (covers-hit u r hit, hit) (find_many-seen u rest)
    | inr miss ↦ rw miss (ap (λ rows. if c r then r ∷ rows else rows) (find_many-seen u rest))
  ]

  -- Within the new interval no other rate is left: it would have been a hit.
  find_many-within :
      Seen
      → not_after day d.valid_to ≡ true
      → (rows : List RateRow) → find_many c (delete_many (is_hit d) rows) ≡ []
  find_many-within u w [] = refl
  find_many-within u w (r ∷ rest) = elim (Bool-cases (is_hit d r)) [
    | inl hit ↦ rw hit (find_many-within u w rest)
    | inr miss ↦ rw (miss, misses) (find_many-within u w rest)
  ]
    where
      misses : is_hit d r ≡ false → c r ≡ false
      misses miss = ground (
        arith,
        eq_iff user d.assignee_id,
        eq_iff r.assignee_id user,
        eq_iff r.assignee_id d.assignee_id,
      )

  covers-new :
      (id : ℕ)
      → c (to_row id d)
        ≡ ((user === d.assignee_id) && leb d.valid_from day && not_after day d.valid_to)
  covers-new id = ground (arith, eq_iff user d.assignee_id, eq_iff d.assignee_id user)

  -- The query, on the rows that a creation leaves.
  abbrev found : ℕ → List RateRow → Option ResolvedRate
  found id rows = keep_resolved (latest (find_many c (to_row id d ∷ map (cap_row d) rows)))

  found-within :
      (id : ℕ) (rows : List RateRow)
      → Seen
      → not_after day d.valid_to ≡ true
      → found id rows ≡ some (to_resolved (to_row id d))
  found-within id rows u w =
      rw (covers-new id) (rw (u, w) (rw (find_many-seen u rows, find_many-within u w rows)))

  found-past :
      (id : ℕ) (rows : List RateRow)
      → Seen
      → not_after day d.valid_to ≡ false
      → found id rows ≡ find_rate (delete_many (is_hit d) rows) user day
  unfolding find_rate
  found-past id rows u w = rw (covers-new id) (rw (u, w) (rw (find_many-seen u rows)))

  found-unseen :
      (id : ℕ) (rows : List RateRow) → IsDate day → Unseen → found id rows ≡ find_rate rows user day
  unfolding find_rate
  found-unseen id rows date u =
      rw (covers-new id)
        (rw (u, find_many-unseen date u rows, latest-cap_row) (keep_resolved-cap_row _))

  -- The rate of a day when the new rate was accepted: its own within its interval, what the day had
  -- before for other users and for days before its start, and past its end what is left of the rates
  -- that it did not overlap.
  abbrev pub rate_after : RateTable → Option ResolvedRate
  rate_after t =
      if (user === d.assignee_id) && leb d.valid_from day
      then (if not_after day d.valid_to
          then some (to_resolved (to_row t.next_id d))
          else find_rate (delete_many (is_hit d) t.rows) user day)
      else find_rate t.rows user day

  -- ... stated of the table that createWithSuccession leaves: for an admissible new rate that a sound
  -- table accepts, and a date, the rate that the calculator finds is `rate_after`.
  pub find_rate-create_with_succession :
      (t : RateTable)
      → IsSound t
      → any_blocked d t.rows ≡ false
      → IsDate day
      → find_rate (create_with_succession d t).1.rows user day ≡ rate_after t
  unfolding find_rate
  find_rate-create_with_succession t v free date =
      rw (create_with_succession_lem d a t v, free)
        (elim (Bool-cases ((user === d.assignee_id) && leb d.valid_from day)) [
          | inl u ↦ elim (Bool-cases (not_after day d.valid_to)) [
            | inl w ↦ found-within t.next_id t.rows u w ∙ sym (rw (u, w))
            | inr w ↦ found-past t.next_id t.rows u w ∙ sym (rw (u, w))
          ]
          | inr u ↦ found-unseen t.next_id t.rows date u ∙ sym (rw u)
        ])
