-- ===== src/Scheduler.antt =====
-- sync.scheduler.ts: the recurring jobs that fill the queue of backfills, over the live jobs of that
-- queue. The spaces are those of clickup-spaces.config.ts; which of them are enabled is a setting.
use clickup_sync.Common.{
  get_elem?, ℕ, zero, suc, ◌+◌, ◌/◌, ◌%◌, String, Bool, true, false, not, ◌||◌, ◌==◌, ◌===◌,
  if◌then◌else◌, Option, none, some, List, [], ◌∷◌, ◌++◌, length, find_many, delete_unique, Action,
  ◌>>=◌, ◌>>◌, pure, gets, modify, throw, throw_if, queue_refused, internal_error,
}
pub mod Queue
pub mod Rotation
pub mod Tests

pub record Space : Type 0 where
  pub id : String
  pub name : String
  pub backfill_lookback_days : ℕ

abbrev pub clickup_spaces : List Space
clickup_spaces =
    record { id = "3577824"; name = "Digital Marketing"; backfill_lookback_days = 30 }
    ∷ record { id = "3589129"; name = "R&D Apps"; backfill_lookback_days = 30 }
    ∷ record { id = "3525433"; name = "Projects"; backfill_lookback_days = 30 }
    ∷ []

-- The data of a backfill: the space, the days of tasks and of time entries, and the archived pass.
pub data SpaceJob : Type 0 where
  backfill_clickup_space : String → ℕ → ℕ → Bool → SpaceJob
  sync_list_catalog : String → SpaceJob

-- `j.name === BACKFILL_CLICKUP_SPACE && j.data?.spaceId === id`
abbrev pub is_backfill_of : String → SpaceJob → Bool
is_backfill_of id (backfill_clickup_space space days entry_days archived) = space === id
is_backfill_of id (sync_list_catalog space) = false

abbrev pub any_job : (SpaceJob → Bool) → List SpaceJob → Bool
any_job p [] = false
any_job p (job ∷ jobs) = p job || any_job p jobs

abbrev pub rotation_index : ℕ → ℕ → ℕ
rotation_index time count = if count == 0 then 0 else (time / 86400000 % count + count) % count

abbrev pub recent_job : Space → SpaceJob
recent_job space = backfill_clickup_space space.id 1 7 false

abbrev pub archived_job : Space → SpaceJob
archived_job space = backfill_clickup_space space.id space.backfill_lookback_days 7 true

module _ (takes : SpaceJob → Bool) where
  abbrev pub add : SpaceJob → Action (List SpaceJob) (Unit {0})
  add job = do _ ← throw_if (not (takes job)) queue_refused; modify (λ jobs. jobs ++ (job ∷ []))

  abbrev pub add_unless : Bool → SpaceJob → Action (List SpaceJob) (Unit {0})
  add_unless true job = pure tt
  add_unless false job = add job

  abbrev pub reconcile_turn : Option Space → Action (List SpaceJob) (Unit {0})
  reconcile_turn none = throw internal_error
  reconcile_turn (some space) = do
    busy ← gets (any_job (is_backfill_of space.id))
    add_unless busy (archived_job space)

  -- Without an enabled space there is nothing to do.
  abbrev pub reconcile_one_of : ℕ → List Space → Action (List SpaceJob) (Unit {0})
  reconcile_one_of now [] = pure tt
  reconcile_one_of now (space ∷ spaces) =
      reconcile_turn (get_elem? (space ∷ spaces) (rotation_index now (length (space ∷ spaces))))

module _ (takes : SpaceJob → Bool) (is_space_enabled : String → Bool) where
  -- `live` is the queue as it was before the loop.
  abbrev pub reconcile_loop : List SpaceJob → List Space → Action (List SpaceJob) (Unit {0})
  reconcile_loop live [] = pure tt
  reconcile_loop live (space ∷ spaces) = do
    _ ←
        add_unless takes (any_job (is_backfill_of space.id) live || not (is_space_enabled space.id))
          (recent_job space)
    reconcile_loop live spaces

  unfoldable pub reconcile_recent_updates : List Space → Action (List SpaceJob) (Unit {0})
  reconcile_recent_updates spaces = do live ← gets (λ jobs. jobs); reconcile_loop live spaces

  abbrev pub sync_list_catalogs : List Space → Action (List SpaceJob) (Unit {0})
  sync_list_catalogs [] = pure tt
  sync_list_catalogs (space ∷ spaces) = do
    _ ← add_unless takes (not (is_space_enabled space.id)) (sync_list_catalog space.id)
    sync_list_catalogs spaces

  unfoldable pub reconcile_archived : List Space → ℕ → Action (List SpaceJob) (Unit {0})
  reconcile_archived spaces now =
      reconcile_one_of takes now (find_many (λ (s : Space). is_space_enabled s.id) spaces)

-- A cron job with the settings and the answers of the queue at that time, or a job that ends.
pub data SchedulerStep : Type 0 where
  recent_updates list_catalogs : (SpaceJob → Bool) → (String → Bool) → SchedulerStep
  archived : (SpaceJob → Bool) → (String → Bool) → ℕ → SchedulerStep
  ends : (SpaceJob → Bool) → SchedulerStep

abbrev pub perform : SchedulerStep → List SpaceJob → List SpaceJob
perform (recent_updates takes enabled) jobs =
    (reconcile_recent_updates takes enabled clickup_spaces jobs).1
perform (list_catalogs takes enabled) jobs =
    (sync_list_catalogs takes enabled clickup_spaces jobs).1
perform (archived takes enabled now) jobs =
    (reconcile_archived takes enabled clickup_spaces now jobs).1
perform (ends p) jobs = delete_unique p jobs

abbrev pub perform_all : List SchedulerStep → List SpaceJob → List SpaceJob
perform_all [] jobs = jobs
perform_all (step ∷ steps) jobs = perform_all steps (perform step jobs)
