-- ===== src/Scheduler/Tests.antt =====
-- The cron jobs of two days, with all spaces enabled but one.
use clickup_sync.Common.{
  ◌≡◌, refl, String, Bool, true, false, not, ◌===◌, List, [], ◌∷◌, ok, arith, ◌<◌, ◌+◌, ◌*◌,
}
use clickup_sync.Scheduler.{
  Space, SpaceJob, backfill_clickup_space, sync_list_catalog, is_backfill_of, clickup_spaces,
  SchedulerStep, recent_updates, list_catalogs, archived, ends, perform_all,
  reconcile_recent_updates, reconcile_archived,
}
use clickup_sync.Scheduler.Queue.{IsSingle, perform_all-IsSingle}
use clickup_sync.Scheduler.Rotation.{days_until, reconcile_archived-turn}

abbrev taken : SpaceJob → Bool
taken job = true

-- All but 'R&D Apps'.
abbrev enabled : String → Bool
enabled id = not (id === "3589129")

abbrev steps : List SchedulerStep
steps =
    recent_updates taken enabled
    ∷ archived taken enabled 86400000
    ∷ list_catalogs taken enabled
    ∷ ends (is_backfill_of "3525433")
    ∷ archived taken enabled 86400000
    ∷ recent_updates taken enabled
    ∷ []

queue_filled :
    perform_all steps []
    ≡ backfill_clickup_space "3577824" 1 7 false
      ∷ sync_list_catalog "3577824"
      ∷ sync_list_catalog "3525433"
      ∷ backfill_clickup_space "3525433" 30 7 true
      ∷ []
unfolding reconcile_recent_updates reconcile_archived
queue_filled = refl

perform_all-IsSingle_example : IsSingle (perform_all steps [])
perform_all-IsSingle_example = perform_all-IsSingle steps [] (λ id. omega arith)

abbrev digital_marketing : Space
digital_marketing = record {
  id = "3577824";
  name = "Digital Marketing";
  backfill_lookback_days = 30;
}

reconcile_archived-turn_example :
    (days_until 5 0 2 < 2)
    × (reconcile_archived taken enabled clickup_spaces
          ((5 + 1) * 86400000 + 7000)
          (sync_list_catalog "3577824" ∷ [])
        ≡ (ok tt, sync_list_catalog "3577824" ∷ backfill_clickup_space "3577824" 30 7 true ∷ []))
reconcile_archived-turn_example =
    reconcile_archived-turn taken enabled clickup_spaces 5 7000 0 digital_marketing
      (sync_list_catalog "3577824" ∷ []) (omega arith) refl refl refl
