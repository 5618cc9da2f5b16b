-- ===== src/Rates/Table.antt =====
-- rates.repository.ts over the table `assignee_rates` with its constraints (prisma/schema.prisma and
-- migration 0017). The order of the rows has no meaning; a new row stands first.
use clickup_sync.Common.{
  ℕ, ◌+◌, String, Bool, true, not, ◌&&◌, Option, none, some, List, [], ◌∷◌, map, ◌==◌, ◌===◌,
  if◌then◌else◌, find_first, find_many, update_many, delete_many, bad_request, record_not_found,
  exclusion_violation, Result, ok, err, Action, ◌>>=◌, ◌>>◌, gets, pure, throw, or_throw,
}
use clickup_sync.Rates.Plan.{
  RateInterval, Cap, SuccessionPlan, planned, blocked, not_after, overlaps, plan_rate_succession,
}

pub record RateRow : Type 0 where
  pub rate_id : ℕ
  pub assignee_id : String
  pub assignee_name : Option String
  pub assignee_email : Option String
  pub currency : String
  pub hourly_rate_cents : ℕ
  pub valid_from : ℕ
  pub valid_to : Option ℕ

-- What `createWithSuccession` is given: a row without its key.
pub record RateData : Type 0 where
  pub assignee_id : String
  pub assignee_name : Option String
  pub assignee_email : Option String
  pub currency : String
  pub hourly_rate_cents : ℕ
  pub valid_from : ℕ
  pub valid_to : Option ℕ

-- The table, and the key that its sequence gives next.
pub record RateTable : Type 0 where
  pub rows : List RateRow
  pub next_id : ℕ

-- `no_overlapping_rates`: two rates of one assignee share no day.
abbrev pub clash : RateRow → RateRow → Bool
clash r s =
    (r.assignee_id === s.assignee_id) && overlaps r.valid_from r.valid_to s.valid_from s.valid_to

abbrev pub clear_of : RateRow → List RateRow → Bool
clear_of r [] = true
clear_of r (s ∷ rest) = not (clash s r) && clear_of r rest

abbrev pub no_overlapping_rates : List RateRow → Bool
no_overlapping_rates [] = true
no_overlapping_rates (r ∷ rest) = clear_of r rest && no_overlapping_rates rest

-- A statement that changes the rows fails if the constraint would not hold after it, or if a date
-- range of a row ended before it began.
abbrev pub ranges_hold : List RateRow → Bool
ranges_hold [] = true
ranges_hold (r ∷ rest) = not_after r.valid_from r.valid_to && ranges_hold rest

abbrev pub write : List RateRow → Action RateTable (Unit {0})
write rows t =
    if no_overlapping_rates rows && ranges_hold rows
    then (ok tt, record t { rows = rows })
    else (err exclusion_violation, t)

abbrev pub to_interval : RateRow → RateInterval
to_interval r = record { rate_id = r.rate_id; valid_from = r.valid_from; valid_to = r.valid_to }

abbrev pub set_valid_to : ℕ → RateRow → RateRow
set_valid_to to r = record r { valid_to = some to }

-- `tx.assigneeRate.update({ where: { rateId }, data: { validTo } })`
unfoldable pub cap_rate : Cap → Action RateTable (Unit {0})
cap_rate c = do
  rows ← gets (λ t. t.rows)
  or_throw (find_first (λ r. r.rate_id == c.rate_id) rows) record_not_found
  write (update_many (λ r. r.rate_id == c.rate_id) (set_valid_to c.valid_to) rows)

unfoldable pub apply_caps : List Cap → Action RateTable (Unit {0})
apply_caps [] = pure tt
apply_caps (c ∷ rest) = do cap_rate c; apply_caps rest

abbrev pub to_row : ℕ → RateData → RateRow
to_row id d = record {
  rate_id = id;
  assignee_id = d.assignee_id;
  assignee_name = d.assignee_name;
  assignee_email = d.assignee_email;
  currency = d.currency;
  hourly_rate_cents = d.hourly_rate_cents;
  valid_from = d.valid_from;
  valid_to = d.valid_to;
}

unfoldable pub insert_rate : RateData → Action RateTable RateRow
insert_rate d = do
  t ← gets (λ t. t)
  write (to_row t.next_id d ∷ t.rows)
  λ u. (ok (to_row t.next_id d), record u { next_id = t.next_id + 1 })

unfoldable pub run_plan : RateData → SuccessionPlan → Action RateTable RateRow
unfolding apply_caps insert_rate cap_rate
run_plan d (blocked reason) = throw (bad_request reason)
run_plan d (planned caps) = do apply_caps caps; insert_rate d

-- `$transaction`: a body that throws leaves the rows as they were.
abbrev pub settle : {A : Type 0} → RateTable → Result A → RateTable → Result A × RateTable
settle t (ok a) u = (ok a, u)
settle t (err e) u = (err e, t)

abbrev pub transaction : {A : Type 0} → Action RateTable A → Action RateTable A
transaction m t = let (r, u) = m t in settle t r u

abbrev pub of_assignee : String → RateRow → Bool
of_assignee id r = r.assignee_id === id

unfoldable pub create_with_succession : RateData → Action RateTable RateRow
unfolding run_plan
create_with_succession d = transaction (do
  existing ← gets (λ t. map to_interval (find_many (of_assignee d.assignee_id) t.rows))
  run_plan d (plan_rate_succession d.valid_from d.valid_to existing))

-- The fields that PATCH may give: `none` is undefined, and the end may be given as null.
pub record RatePatch : Type 0 where
  pub assignee_name : Option String
  pub assignee_email : Option String
  pub currency : Option String
  pub hourly_rate_cents : Option ℕ
  pub valid_from : Option ℕ
  pub valid_to : Option (Option ℕ)

abbrev pub given {ℓ} : {A : Type ℓ} → Option A → A → A
given none old = old
given (some new) old = new

abbrev pub given_text : Option String → Option String → Option String
given_text none old = old
given_text (some new) old = some new

abbrev pub patch_row : RatePatch → RateRow → RateRow
patch_row p r = record r {
  assignee_name = given_text p.assignee_name r.assignee_name;
  assignee_email = given_text p.assignee_email r.assignee_email;
  currency = given p.currency r.currency;
  hourly_rate_cents = given p.hourly_rate_cents r.hourly_rate_cents;
  valid_from = given p.valid_from r.valid_from;
  valid_to = given p.valid_to r.valid_to;
}

abbrev pub has_id : ℕ → RateRow → Bool
has_id id r = r.rate_id == id

unfoldable pub find_by_id : ℕ → Action RateTable (Option RateRow)
find_by_id id = gets (λ t. find_first (has_id id) t.rows)

-- The updated row is returned; an id that is not there is an error.
unfoldable pub update_rate : ℕ → RatePatch → Action RateTable RateRow
update_rate id p = do
  rows ← gets (λ t. t.rows)
  r ← or_throw (find_first (has_id id) rows) record_not_found
  write (update_many (has_id id) (patch_row p) rows)
  pure (patch_row p r)

unfoldable pub remove_rate : ℕ → Action RateTable (Unit {0})
remove_rate id = do
  rows ← gets (λ t. t.rows)
  or_throw (find_first (has_id id) rows) record_not_found
  λ t. (ok tt, record t { rows = delete_many (has_id id) rows })
