-- ===== src/Budgets/Tests.antt =====
-- Runs of the theorems from Saturday, 3 January 1970, on.
use clickup_sync.Common.{◌≡◌, some}
use clickup_sync.Budgets.BusinessDays.{count_business_days, count_business_days_lem}

-- Until the Sunday of the week after.
count_business_days_example : count_business_days 172800000 864000000 ≡ some 5
count_business_days_example = count_business_days_lem 2 10
