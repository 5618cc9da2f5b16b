-- ===== src/Webhooks/Store.antt =====
-- The tables and the queues that the events go through, and QueueService.add. Rows stand in the order
-- in which they were written, which is that of receivedAt and failedAt.
use clickup_sync.Common.{
  ℕ, String, Bool, not, ◌||◌, Option, List, [], ◌∷◌, ◌++◌, ◌===◌, Action, ◌>>◌, modify, throw_if,
  queue_refused, unknown_queue,
}
use clickup_sync.Webhooks.Json.{Json}

pub data EventStatus : Type 0 where
  received processed failed : EventStatus

pub record WebhookEvent : Type 0 where
  pub fingerprint : String
  pub event_type : Json
  pub task_id : Json
  pub raw_payload : Json
  pub status : EventStatus
  pub received_at : ℕ
  pub processed_at : Option ℕ
  pub error_message : Option String

pub record TaskEvent : Type 0 where
  pub task_id : Json
  pub event_type : Json
  pub occurred_at : ℕ
  pub changed_by_user_id : Option String
  pub changed_by_user_name : Json
  pub before : Json
  pub after : Json
  pub fingerprint : String
  pub raw : Json

pub record DeadLetter : Type 0 where
  pub id : ℕ
  pub queue_name : String
  pub job_name : String
  pub entity_type : Option String
  pub entity_id : Option String
  pub payload : Json
  pub error_message : String
  pub error_stack : Option String
  pub attempts_made : ℕ
  pub failed_at : ℕ
  pub retried_at : Option ℕ
  pub resolved_at : Option ℕ

-- A job of a queue; `attempts` is none where its options do not give it.
pub record Job : Type 0 where
  pub queue_name : String
  pub job_name : String
  pub data_of : Json
  pub attempts_made : ℕ
  pub attempts : Option ℕ

pub record Pipeline : Type 0 where
  pub events : List WebhookEvent
  pub seen : List String
  pub task_events : List TaskEvent
  pub dead_letters : List DeadLetter
  pub next_dead_letter : ℕ
  pub jobs : List Job

-- What the database and Redis take: they refuse a value of a wrong type, or are out of reach.
-- `refusal` is the message of the exception that `add` throws then.
pub record Outside : Type 0 where
  pub takes_event : WebhookEvent → Bool
  pub takes_status : Json → EventStatus → Bool
  pub takes_task_event : TaskEvent → Bool
  pub takes_dead_letter : DeadLetter → Bool
  pub takes_dead_letter_mark : ℕ → Bool
  pub takes_job : Job → Bool
  pub refusal : String

abbrev pub clickup_webhooks : String
clickup_webhooks = "clickup-webhooks"

abbrev pub clickup_tasks : String
clickup_tasks = "clickup-tasks"

abbrev pub clickup_time_entries : String
clickup_time_entries = "clickup-time-entries"

-- The names in the map of `QueueService.get`.
abbrev pub is_queue : String → Bool
is_queue name =
    (name === "clickup-webhooks")
    || (name === "clickup-tasks")
    || (name === "clickup-time-entries")
    || (name === "clickup-backfills")
    || (name === "maintenance")
    || (name === "clickup-assignee-replacement")

abbrev pub new_job : String → String → Json → Option ℕ → Job
new_job name job data_of attempts = record {
  queue_name = name;
  job_name = job;
  data_of = data_of;
  attempts_made = 0;
  attempts = attempts;
}

-- `this.queues.get(name).add(job, data, options)`
abbrev pub add : Outside → Job → Action Pipeline (Unit {0})
add outside job = do
  throw_if (not (is_queue job.queue_name)) unknown_queue
  throw_if (not (outside.takes_job job)) queue_refused
  modify (λ s. record s { jobs = s.jobs ++ (job ∷ []) })
