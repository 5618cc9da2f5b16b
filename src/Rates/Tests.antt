-- ===== src/Rates/Tests.antt =====
-- Runs of the theorems on a table of one open rate, and a mutation of each kind.
use clickup_sync.Common.{◌≡◌, refl, true, none, some, List, [], ◌∷◌, arith, ok}
use clickup_sync.Rates.Table.{
  RateRow, RateData, RateTable, RatePatch, create_with_succession, update_rate, remove_rate,
  find_by_id, run_plan, apply_caps, insert_rate, cap_rate,
}
use clickup_sync.Rates.Plan.{plan_rate_succession, plan_loop}
use clickup_sync.Rates.Capping.{IsSound, IsAdmissible}
use clickup_sync.Rates.Creation.{create_with_succession_lem}
use clickup_sync.Rates.Upkeep.{HasPatchDates}
use clickup_sync.Rates.Service.{RatesState, RatesEnv, create, update, remove}
use clickup_sync.Rates.History.{
  Mutation, creates, updates, removes, run, run-creates, perform, on_table_alone,
  perform-on_table_alone,
}

-- The rate of u1 from day 10 on.
abbrev pub old_rate : RateRow
old_rate = record {
  rate_id = 1;
  assignee_id = "u1";
  assignee_name = none;
  assignee_email = none;
  currency = "USD";
  hourly_rate_cents = 5000;
  valid_from = 864000000;
  valid_to = none;
}

abbrev pub table : RateTable
table = record { rows = old_rate ∷ []; next_id = 2 }

-- A raise on day 20.
abbrev pub raise : RateData
raise = record {
  assignee_id = "u1";
  assignee_name = none;
  assignee_email = none;
  currency = "USD";
  hourly_rate_cents = 6000;
  valid_from = 1728000000;
  valid_to = none;
}

pub table-IsSound : IsSound table
table-IsSound = record {
  dates = ((refl, tt), tt);
  ids = (tt, tt);
  below = (omega arith, tt);
  in_order = record { apart = refl; ranges = refl };
}

pub raise-IsAdmissible : IsAdmissible raise
raise-IsAdmissible = record {
  after_epoch = omega arith;
  from_date = refl;
  to_date = tt;
  range = refl;
}

create_with_succession_example : create_with_succession raise table ≡ (
  ok (record old_rate { rate_id = 2; hourly_rate_cents = 6000; valid_from = 1728000000 }),
  record {
    rows =
        record old_rate { rate_id = 2; hourly_rate_cents = 6000; valid_from = 1728000000 }
        ∷ record old_rate { valid_to = some 1641600000 }
        ∷ [];
    next_id = 3;
  },
)
create_with_succession_example =
    create_with_succession_lem raise raise-IsAdmissible table table-IsSound

abbrev state : RatesState
state = record { table = table; recalculations = [] }

abbrev env : RatesEnv
env = record { auto_recalc = true; queue_accepts = true }

perform-on_table_alone_example :
    perform env (removes 1) state
    ≡ (ok tt, record { table = record { rows = []; next_id = 2 }; recalculations = "u1" ∷ [] })
unfolding on_table_alone remove_rate
perform-on_table_alone_example = perform-on_table_alone env (removes 1) state

-- Moves the start of a rate to day 5.
abbrev move : RatePatch
move = record {
  assignee_name = none;
  assignee_email = none;
  currency = none;
  hourly_rate_cents = none;
  valid_from = some 432000000;
  valid_to = none;
}

move-HasPatchDates : HasPatchDates move
move-HasPatchDates = record { from_date = refl; to_date = λ t e. cc e }

abbrev mutations : List Mutation
mutations = creates raise ∷ updates 2 move ∷ removes 1 ∷ []

-- A raise on day 30, behind the others.
abbrev later_raise : RateData
later_raise = record raise { valid_from = 2592000000; hourly_rate_cents = 7000 }

later_raise-IsAdmissible : IsAdmissible later_raise
later_raise-IsAdmissible = record {
  after_epoch = omega arith;
  from_date = refl;
  to_date = tt;
  range = refl;
}

run-creates_example : (perform env (creates later_raise) (run env mutations state)).0 ≡ ok tt
unfolding run perform create update remove find_by_id create_with_succession update_rate remove_rate
    run_plan apply_caps insert_rate cap_rate plan_rate_succession plan_loop
run-creates_example =
    run-creates env mutations later_raise state (raise-IsAdmissible, (move-HasPatchDates, (tt, tt)))
      later_raise-IsAdmissible table-IsSound
