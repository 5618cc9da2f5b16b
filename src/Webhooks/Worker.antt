-- ===== src/Webhooks/Worker.antt =====
-- workers/clickup-event.processor.ts.
use Prim.Native.String.{◌++◌ as append}
use clickup_sync.Common.{
  ℕ, String, Bool, true, false, not, ◌&&◌, ◌||◌, Option, none, some, List, [], ◌∷◌, ◌++◌, ◌===◌,
  if◌then◌else◌, find_first, Action, ◌>>=◌, ◌>>◌, modify, pure, throw_if, caught, row_refused,
}
use clickup_sync.Webhooks.Json.{
  Json, undefined, array, object, no_items, item, no_fields, field, Platform, is_truthy, get,
  is_text, text_of,
}
use clickup_sync.Webhooks.Parser.{FieldChangeRecord, extract_field_changes}
use clickup_sync.Webhooks.Store.{
  TaskEvent, Job, Pipeline, Outside, clickup_tasks, clickup_time_entries, new_job, add,
}
use clickup_sync.Webhooks.Events.{mark_processed, mark_failed}
use clickup_sync.Webhooks.DeadLetters.{Failure, record_if_exhausted}

-- `HISTORY_FIELDS[eventType]`
abbrev pub history_fields : String → Option (List String)
history_fields event_type =
    if event_type === "taskStatusUpdated"
    then some ("status" ∷ [])
    else if event_type === "taskPriorityUpdated"
    then some ("priority" ∷ [])
    else if event_type === "taskAssigneeUpdated"
    then some ("assignee_add" ∷ "assignee_rem" ∷ [])
    else if event_type === "taskMoved"
    then some ("section_moved" ∷ [])
    else none

abbrev pub time_entry_sync_events : Json → Bool
time_entry_sync_events event_type =
    is_text "taskTimeTrackedUpdated" event_type
    || is_text "taskUpdated" event_type
    || is_text "taskCreated" event_type

abbrev pub has_task_event_fingerprint : String → TaskEvent → Bool
has_task_event_fingerprint f e = e.fingerprint === f

abbrev pub is_known : Option TaskEvent → Bool
is_known none = false
is_known (some e) = true

-- `upsert` with an empty `update`.
abbrev pub upsert_task_event : TaskEvent → List TaskEvent → List TaskEvent
upsert_task_event e rows =
    if is_known (find_first (has_task_event_fingerprint e.fingerprint) rows)
    then rows
    else rows ++ (e ∷ [])

module _ (js : Platform) where
  abbrev task_event_fingerprint : Json → Json → FieldChangeRecord → String
  task_event_fingerprint task_id event_type r = js.hash (
      append (text_of js task_id) (
        append "|" (
          append (text_of js event_type) (
            append "|" (
              append (js.iso_string r.occurred_at) (
                append "|"
                  (append (js.stringify r.before) (append "|" (js.stringify r.after)))))))))

  abbrev pub task_event_of : Json → Json → FieldChangeRecord → TaskEvent
  task_event_of task_id event_type r = record {
    task_id = task_id;
    event_type = event_type;
    occurred_at = r.occurred_at;
    changed_by_user_id = r.changed_by_user_id;
    changed_by_user_name = r.changed_by_user_name;
    before = r.before;
    after = r.after;
    fingerprint = task_event_fingerprint task_id event_type r;
    raw = r.raw;
  }

module _ (outside : Outside) where
  abbrev pub put_task_event : TaskEvent → Action Pipeline (Unit {0})
  put_task_event e = do
    throw_if (not (outside.takes_task_event e)) row_refused
    modify (λ s. record s { task_events = upsert_task_event e s.task_events })

  -- `for (const r of records)`, whose failures are logged.
  abbrev pub put_task_events : List TaskEvent → Action Pipeline (Unit {0})
  put_task_events [] = pure tt
  put_task_events (e ∷ rest) = do caught (put_task_event e); put_task_events rest

module _ (js : Platform) where
  abbrev changed_events : Json → Json → List FieldChangeRecord → List TaskEvent
  changed_events task_id event_type [] = []
  changed_events task_id event_type (r ∷ records) =
      task_event_of js task_id event_type r ∷ changed_events task_id event_type records

  -- The history that an event leaves, from the fields of its type.
  abbrev pub history_of : Json → Json → Json → List TaskEvent
  history_of task_id event_type payload =
      if is_truthy task_id && is_truthy event_type
      then elim (history_fields (text_of js event_type)) [
        | none ↦ []
        | some fields ↦ changed_events task_id event_type (extract_field_changes js payload fields)
      ]
      else []

-- `{ taskId }`
abbrev pub task_data : Json → Json
task_data task_id = object (field "taskId" task_id no_fields)

abbrev assignees : Json → Json → Json
assignees event_type user =
    if is_text "taskTimeTrackedUpdated" event_type && is_truthy user
    then array (item user no_items)
    else undefined

-- `{ taskId, assigneeIds }`
abbrev pub time_entries_data : Json → Json → Json → Json
time_entries_data task_id event_type user =
    object (field "taskId" task_id (field "assigneeIds" (assignees event_type user) no_fields))

-- The jobs that an event of a task leaves, in their order.
module _ (default_attempts : ℕ) where
  abbrev pub delete_job : Json → Job
  delete_job task_id =
      new_job clickup_tasks "delete-clickup-task" (task_data task_id) (some default_attempts)

  abbrev pub sync_job : Json → Job
  sync_job task_id =
      new_job clickup_tasks "sync-clickup-task" (task_data task_id) (some default_attempts)

  abbrev pub time_entries_job : Json → Json → Json → Job
  time_entries_job task_id event_type user =
      new_job clickup_time_entries "sync-task-time-entries"
        (time_entries_data task_id event_type user) (some default_attempts)

  module _ (outside : Outside) where
    abbrev pub sync_time_entries : Bool → Json → Json → Json → Action Pipeline (Unit {0})
    sync_time_entries false task_id event_type user = pure tt
    sync_time_entries true task_id event_type user =
        add outside (time_entries_job task_id event_type user)

    abbrev pub enqueue_follow_ups : Bool → Json → Json → Json → Action Pipeline (Unit {0})
    enqueue_follow_ups true task_id event_type user = add outside (delete_job task_id)
    enqueue_follow_ups false task_id event_type user = do
      add outside (sync_job task_id)
      sync_time_entries (time_entry_sync_events event_type) task_id event_type user

    -- What the event asks for behind its history.
    abbrev pub follow_up : Json → Json → Json → Action Pipeline (Unit {0})
    follow_up task_id event_type user =
        if is_text "taskStatusUpdated" event_type || not (is_truthy task_id)
        then pure tt
        else enqueue_follow_ups (is_text "taskDeleted" event_type) task_id event_type user

    unfoldable pub process : Platform → Json → ℕ → Action Pipeline (Unit {0})
    process js data_of now = do
      put_task_events outside
          (history_of js (get "taskId" data_of) (get "eventType" data_of) (get "payload" data_of))
      follow_up (get "taskId" data_of) (get "eventType" data_of) (get "loggedUserId" data_of)
      caught (mark_processed outside (get "fingerprint" data_of) now)

module _ (outside : Outside) where
  -- `if (exhausted && fingerprint)`
  abbrev pub give_up : Bool → Json → String → ℕ → Action Pipeline (Unit {0})
  give_up false fingerprint message now = pure tt
  give_up true fingerprint message now = caught (mark_failed outside fingerprint message now)

  unfoldable pub on_failed : Job → Failure → ℕ → Action Pipeline (Unit {0})
  on_failed job failure now = do
    exhausted ← record_if_exhausted outside job failure now
    give_up (exhausted && is_truthy (get "fingerprint" job.data_of)) (get "fingerprint" job.data_of)
        failure.message now
