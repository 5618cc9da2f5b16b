-- ===== src/Webhooks/Events.antt =====
-- webhook-events.repository.ts, and ClickupWebhookController.receive behind WebhookSignatureGuard.
use Prim.Native.String.{◌++◌ as append}
use clickup_sync.Common.{
  ℕ, String, Bool, true, false, not, Option, none, some, List, [], ◌∷◌, ◌++◌, ◌===◌, if◌then◌else◌,
  find_first, find_many, update_unique, take, ltb, Action, ◌>>=◌, ◌>>◌, gets, modify, pure,
  throw_if, or_throw, recover, caught, row_refused, record_not_found,
}
use clickup_sync.Webhooks.Json.{
  Json, text, object, no_fields, field, text_or_null, Platform, is_text,
}
use clickup_sync.Webhooks.Parser.{ParsedWebhook, parse}
use clickup_sync.Webhooks.Store.{
  EventStatus, received, processed, failed, WebhookEvent, Job, Pipeline, Outside, clickup_webhooks,
  new_job, add,
}

abbrev pub is_failed : EventStatus → Bool
is_failed received = false
is_failed processed = false
is_failed failed = true

abbrev pub is_found : Option WebhookEvent → Bool
is_found none = false
is_found (some e) = true

-- `where: { fingerprint }`, for a value that may not be a text.
abbrev pub has_fingerprint : Json → WebhookEvent → Bool
has_fingerprint fingerprint e = is_text e.fingerprint fingerprint

abbrev pub received_row : ParsedWebhook → ℕ → WebhookEvent
received_row parsed now = record {
  fingerprint = parsed.fingerprint;
  event_type = parsed.event_type;
  task_id = parsed.task_id;
  raw_payload = parsed.payload;
  status = received;
  received_at = now;
  processed_at = none;
  error_message = none;
}

-- A fingerprint that was seen already is a violation that the code swallows.
abbrev remember : String → List String → List String
remember f [] = f ∷ []
remember f (g ∷ rest) = let more = g ∷ remember f rest in if g === f then g ∷ rest else more

abbrev pub insert_event : WebhookEvent → Pipeline → Pipeline
insert_event e s = record s { events = s.events ++ (e ∷ []); seen = remember e.fingerprint s.seen }

abbrev put_unless_known : Bool → WebhookEvent → Action Pipeline Bool
put_unless_known true e = pure true
put_unless_known false e = do modify (insert_event e); pure false

-- True is a duplicate: the unique violation of a fingerprint that stands in the table.
unfoldable pub save_received : Outside → ParsedWebhook → ℕ → Action Pipeline Bool
save_received outside parsed now = do
  throw_if (not (outside.takes_event (received_row parsed now))) row_refused
  known ← gets (λ s. is_found (find_first (has_fingerprint (text parsed.fingerprint)) s.events))
  put_unless_known known (received_row parsed now)

abbrev pub set_event : EventStatus → Option ℕ → Option String → WebhookEvent → WebhookEvent
set_event status at message e = record e {
  status = status;
  processed_at = at;
  error_message = message;
}

module _ (outside : Outside) (fingerprint : Json) where
  -- The database may refuse the write of a status, as any other.
  abbrev pub update_event : EventStatus → Option ℕ → Option String → Action Pipeline (Unit {0})
  update_event status at message = do
    throw_if (not (outside.takes_status fingerprint status)) row_refused
    events ← gets (λ s. s.events)
    or_throw (find_first (has_fingerprint fingerprint) events) record_not_found
    modify (λ s. record s {
      events = update_unique (has_fingerprint fingerprint) (set_event status at message) s.events;
    })

  abbrev pub mark_processed : ℕ → Action Pipeline (Unit {0})
  mark_processed now = update_event processed (some now) none

  abbrev pub mark_failed : String → ℕ → Action Pipeline (Unit {0})
  mark_failed message now = update_event failed (some now) (some message)

  abbrev pub mark_requeued : Action Pipeline (Unit {0})
  mark_requeued = update_event received none none

-- `Math.min(m, n)`
abbrev pub min : ℕ → ℕ → ℕ
min m n = if ltb n m then n else m

abbrev pub find_failed : ℕ → List WebhookEvent → List WebhookEvent
find_failed limit events = take (min limit 2000) (find_many (λ e. is_failed e.status) events)

-- The data of the job that an event is put into the queue with.
abbrev pub job_data : ParsedWebhook → Json
job_data parsed = object (
    field "eventType" parsed.event_type (
      field "taskId" parsed.task_id (
        field "loggedUserId" (text_or_null parsed.logged_user_id) (
          field "fingerprint" (text parsed.fingerprint)
            (field "payload" parsed.payload no_fields)))))

abbrev pub webhook_job : ParsedWebhook → ℕ → Job
webhook_job parsed attempts =
    new_job clickup_webhooks "process-clickup-event" (job_data parsed) (some attempts)

pub data Receipt : Type 0 where
  skipped duplicate queued not_queued : Receipt

-- The preferences that the handlers read.
pub record SyncPreferences : Type 0 where
  pub realtime_webhooks : Bool
  pub webhook_retry_attempts : ℕ

module _ (js : Platform) (outside : Outside) (prefs : SyncPreferences) where
  abbrev pub enqueue_received : ParsedWebhook → ℕ → Action Pipeline Receipt
  enqueue_received parsed now =
      recover (do add outside (webhook_job parsed prefs.webhook_retry_attempts); pure queued)
        (do
          caught (
              mark_failed outside (text parsed.fingerprint)
                (append "enqueue failed: " outside.refusal) now)
          pure not_queued)

  abbrev answer : Bool → ParsedWebhook → ℕ → Action Pipeline Receipt
  answer true parsed now = pure duplicate
  answer false parsed now = enqueue_received parsed now

  unfoldable pub receive : Json → ℕ → Action Pipeline Receipt
  receive payload now = if not prefs.realtime_webhooks then pure skipped else do
    known ← save_received outside (parse js payload) now
    answer known (parse js payload) now
