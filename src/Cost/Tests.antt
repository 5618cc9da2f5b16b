-- ===== src/Cost/Tests.antt =====
-- Runs of the theorems on the table and the raise of Rates/Tests.
use clickup_sync.Common.{String, Option, List, ℕ, ◌*◌, ◌≡◌, refl, true, none, some, [], ◌∷◌}
use clickup_sync.Rates.Table.{create_with_succession}
use clickup_sync.Rates.Tests.{table, raise, table-IsSound, raise-IsAdmissible}
use clickup_sync.Cost.Calculator.{
  RateCache, CostPreferences, due, Request, find_rate, calculate, resolve_rate, no_rate_found,
  cost_calculated,
}
use clickup_sync.Cost.Recalculation.{TimeEntry, recalculate}
use clickup_sync.Cost.Recalculation.Progress.{DistinctEntries}
use clickup_sync.Cost.Recalculation.Batches.{recalculate_lem}
use clickup_sync.Cost.Recalculation.Idempotence.{recalculate_again}
use clickup_sync.Cost.Cache.{Coherent, calculate-Coherent}
use clickup_sync.Cost.Coverage.{find_rate-create_with_succession}

-- Whole hours, of which no product needs to be rounded.
abbrev whole_product : ℕ → ℕ → ℕ
whole_product cents hours = cents * hours

abbrev prefs : CostPreferences
prefs = record { rate_matching = due; non_billable_zero = true; excluded_assignee_ids = "u9" ∷ [] }

abbrev three_hours : Request ℕ
three_hours = record {
  user_id = some "u1";
  start_time = some 864000500;
  duration_hours = 3;
  billable = some true;
  due_date = none;
}

abbrev cache : RateCache
cache =
    record {
      user_id = "u1";
      day = 864000000;
      rate = some (record { rate_id = 1; currency = "USD"; hourly_rate_cents = 5000 });
    }
    ∷ []

cache-Coherent : Coherent table.rows (some cache)
unfolding find_rate
cache-Coherent = (refl, tt)

calculate-Coherent_example :
    ((calculate whole_product prefs table.rows three_hours (some cache)).0
      ≡ (calculate whole_product prefs table.rows three_hours none).0)
    × Coherent table.rows (calculate whole_product prefs table.rows three_hours (some cache)).1
calculate-Coherent_example =
    calculate-Coherent whole_product prefs table.rows three_hours (some cache) cache-Coherent

find_rate-create_with_succession_example :
    find_rate (create_with_succession raise table).1.rows "u1" 1728000000
    ≡ some (record { rate_id = 2; currency = "USD"; hourly_rate_cents = 6000 })
find_rate-create_with_succession_example =
    find_rate-create_with_succession raise raise-IsAdmissible "u1" 1728000000 table table-IsSound
      refl refl

abbrev entry : String → Option String → TimeEntry ℕ
entry id user = record {
  time_entry_id = id;
  task_id = some "t1";
  user_id = user;
  start_time = some 864000500;
  duration_hours = 3;
  billable = true;
  cost = record {
    rate_id = none;
    currency = "USD";
    hourly_rate_cents = 0;
    cost_cents = 0;
    status = no_rate_found;
  };
}

abbrev entries : List (TimeEntry ℕ)
entries = entry "e1" (some "u1") ∷ entry "e2" (some "u2") ∷ entry "e3" (some "u1") ∷ []

abbrev paid : TimeEntry ℕ → TimeEntry ℕ
paid e = record e {
  cost = record {
    rate_id = some 1;
    currency = "USD";
    hourly_rate_cents = 5000;
    cost_cents = 15000;
    status = cost_calculated;
  };
}

abbrev repriced : List (TimeEntry ℕ)
repriced =
    paid (entry "e1" (some "u1")) ∷ entry "e2" (some "u2") ∷ paid (entry "e3" (some "u1")) ∷ []

abbrev no_due_date : Option String → Option ℕ
no_due_date id = none

entries-DistinctEntries : DistinctEntries entries
entries-DistinctEntries = ((refl, (refl, tt)), ((refl, tt), (tt, tt)))

entries_recalculated :
    recalculate whole_product prefs table.rows no_due_date (some "u1") entries
    ≡ some (2, 2, repriced)
unfolding calculate resolve_rate find_rate
entries_recalculated =
    recalculate_lem whole_product prefs table.rows no_due_date (some "u1") entries
      entries-DistinctEntries

recalculate_example :
    recalculate whole_product prefs table.rows no_due_date (some "u1") entries
    ≡ some (2, 2, repriced)
unfolding calculate resolve_rate find_rate
recalculate_example =
    recalculate_lem whole_product prefs table.rows no_due_date (some "u1") entries
      entries-DistinctEntries

recalculate_again_example :
    recalculate whole_product prefs table.rows no_due_date (some "u1") repriced
    ≡ some (2, 2, repriced)
recalculate_again_example =
    recalculate_again whole_product prefs table.rows no_due_date (some "u1") entries repriced 2
      entries-DistinctEntries entries_recalculated
