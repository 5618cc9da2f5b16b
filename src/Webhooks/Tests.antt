-- ===== src/Webhooks/Tests.antt =====
-- Runs of the theorems on an event that moves a task.
use clickup_sync.Common.{◌≡◌, refl, ◌⊎◌, true, false, none, some, [], ◌∷◌, ok, length, find_first}
use clickup_sync.Webhooks.Json.{
  Json, number, text, array, object, no_items, item, no_fields, field, Platform,
}
use clickup_sync.Webhooks.Parser.{parse, extract_field_changes, fingerprint_of}
use clickup_sync.Webhooks.Store.{processed, Job, Pipeline, Outside}
use clickup_sync.Webhooks.Events.{
  SyncPreferences, duplicate, received_row, receive, save_received, webhook_job, set_event,
  has_fingerprint,
}
use clickup_sync.Webhooks.Worker.{sync_job, process}
use clickup_sync.Webhooks.Retry.{WebhookRequest, deliver}
use clickup_sync.Webhooks.Steps.{Run, stays, goes_on, receives, works, taken_out}
use clickup_sync.Webhooks.History.{process_again}
use clickup_sync.Webhooks.Answers.{IsSigned, deliver-IsSigned, receive_again}

-- In place of the platform's functions.
abbrev js : Platform
js = record {
  string_of = λ v. "object";
  number_of = number;
  date_of = λ v. some 100;
  iso_string = λ n. "1970-01-01T00:00:00.100Z";
  stringify = λ v. "json";
  hash = λ s. s;
}

abbrev outside : Outside
outside = record {
  takes_event = λ e. true;
  takes_status = λ key status. true;
  takes_task_event = λ e. true;
  takes_dead_letter = λ d. true;
  takes_dead_letter_mark = λ id. true;
  takes_job = λ j. true;
  refusal = "down";
}

abbrev prefs : SyncPreferences
prefs = record { realtime_webhooks = true; webhook_retry_attempts = 1 }

abbrev moved : Json
moved = object (
    field "event" (text "taskMoved") (
      field "task_id" (text "t1") (
        field "history_items"
          (array (
            item
              (object (
                field "id" (text "h1")
                  (field "field" (text "section_moved") (field "date" (text "100") no_fields))))
              no_items))
          no_fields)))

abbrev start : Pipeline
start = record {
  events = [];
  seen = [];
  task_events = [];
  dead_letters = [];
  next_dead_letter = 1;
  jobs = [];
}

abbrev job : Job
job = webhook_job (parse js moved) 1

abbrev after_receipt : Pipeline
unfolding receive
after_receipt = (receive js outside prefs moved 7 start).1

abbrev after_work : Pipeline
after_work = (process 5 outside js job.data_of 8 (taken_out [] [] after_receipt)).1

run : Run js start after_work
unfolding receive process save_received extract_field_changes
run =
    goes_on after_receipt after_work
      (goes_on start after_receipt stays (receives outside prefs moved 7 refl))
      (works outside 5 8 job [] [] after_work refl refl refl refl)

-- The queues are out of reach at the second attempt.
abbrev worse : Outside
worse = record outside { takes_job = λ j. false }

process_again_example :
    (process 5 worse js job.data_of 9
      (process 5 outside js job.data_of 8 after_receipt).1).1.task_events
    ≡ (process 5 outside js job.data_of 8 after_receipt).1.task_events
process_again_example =
    process_again outside worse js 5 job.data_of 8 9 after_receipt (λ e taken. taken)

abbrev request : WebhookRequest
request = record { signature = some "key"; raw_body = some "body"; body = moved }

deliver-IsSigned_example :
    ((deliver (λ k b. k) true (some "key") js outside prefs request 7 start).1 ≡ start)
    ⊎ IsSigned (λ k b. k) (some "key") request
deliver-IsSigned_example = deliver-IsSigned (λ k b. k) (some "key") js outside prefs request 7 start

receive_again_example :
    receive js outside prefs moved 9 (receive js outside prefs moved 7 start).1
    ≡ (ok duplicate, (receive js outside prefs moved 7 start).1)
receive_again_example = receive_again js outside prefs moved 7 9 start refl refl refl

-- The event is processed, its history is written, and the task is to be synchronised.
after_work-processed :
    (length after_work.task_events ≡ 1)
    × (after_work.jobs ≡ sync_job 5 (text "t1") ∷ [])
    × (find_first (has_fingerprint (text "id:h1")) after_work.events
        ≡ some (set_event processed (some 8) none (received_row (parse js moved) 7)))
unfolding receive save_received fingerprint_of process extract_field_changes
after_work-processed = (refl, refl, refl)
