-- ===== src/Webhooks/History.antt =====
-- The history of a task does not grow when an event is processed again.
use clickup_sync.Common.{
  ℕ, ◌≡◌, refl, sym, ◌∙◌, ap, String, Bool, true, not, Option, All-weaken, row_refused, none, some,
  List, [], ◌∷◌, ◌++◌, ◌===◌, if◌then◌else◌, eq_refl, Bool-cases, inl, inr, All, find_first,
  update_unique, ok, ◌>>◌, caught, modify, queue_refused, unknown_queue, record_not_found,
}
use clickup_sync.Webhooks.Json.{Json, get, Platform}
use clickup_sync.Webhooks.Store.{
  EventStatus, processed, TaskEvent, Job, Pipeline, Outside, add, is_queue,
}
use clickup_sync.Webhooks.Events.{mark_processed, has_fingerprint, set_event, update_event}
use clickup_sync.Webhooks.Worker.{
  has_task_event_fingerprint, is_known, upsert_task_event, put_task_event, put_task_events,
  history_of, follow_up, process,
}
use clickup_sync.Common.Frames.{
  IsFrame, Keeps, Keeps-bind, Keeps-caught, Keeps-throw_if, Keeps-or_throw, Keeps-gets,
}
use clickup_sync.Webhooks.FollowUps.{follow_up-Keeps}

abbrev known : String → List TaskEvent → Bool
known f rows = is_known (find_first (has_task_event_fingerprint f) rows)

known-append : (f : String) (xs ys : List TaskEvent) → known f xs ≡ true → known f (xs ++ ys) ≡ true
known-append f [] ys h = absurd (cc h)
known-append f (x ∷ xs) ys h = elim (Bool-cases (x.fingerprint === f)) [
  | inl hit ↦ rw hit refl
  | inr miss ↦ rw miss (known-append f xs ys (rw miss at h))
]

known-own : (e : TaskEvent) (xs : List TaskEvent) → known e.fingerprint (xs ++ (e ∷ [])) ≡ true
known-own e [] = rw (eq_refl e.fingerprint) refl
known-own e (x ∷ xs) = elim (Bool-cases (x.fingerprint === e.fingerprint)) [
  | inl hit ↦ rw hit refl
  | inr miss ↦ rw miss (known-own e xs)
]

module _ (outside : Outside) where
  -- The table of the history after one event, and after all of a job.
  abbrev put_one : TaskEvent → List TaskEvent → List TaskEvent
  put_one e rows = if outside.takes_task_event e then upsert_task_event e rows else rows

  abbrev put_all : List TaskEvent → List TaskEvent → List TaskEvent
  put_all [] rows = rows
  put_all (e ∷ rest) rows = put_all rest (put_one e rows)

  put_one-known :
      (f : String) (e : TaskEvent) (rows : List TaskEvent)
      → known f rows ≡ true
      → known f (put_one e rows) ≡ true
  put_one-known f e rows h = elim (Bool-cases (outside.takes_task_event e)) [
    | inr refused ↦ rw refused h
    | inl taken ↦ elim (Bool-cases (known e.fingerprint rows)) [
      | inl old ↦ rw (taken, old) h
      | inr new ↦ rw (taken, new) (known-append f rows (e ∷ []) h)
    ]
  ]

  put_one-own :
      (e : TaskEvent) (rows : List TaskEvent)
      → outside.takes_task_event e ≡ true
      → known e.fingerprint (put_one e rows) ≡ true
  put_one-own e rows taken = elim (Bool-cases (known e.fingerprint rows)) [
    | inl old ↦ rw (taken, old) old
    | inr new ↦ rw (taken, new) (known-own e rows)
  ]

  put_all-known :
      (f : String) (es rows : List TaskEvent)
      → known f rows ≡ true
      → known f (put_all es rows) ≡ true
  put_all-known f [] rows h = h
  put_all-known f (e ∷ es) rows h = put_all-known f es (put_one e rows) (put_one-known f e rows h)

  -- Each event that the database takes is in the table.
  abbrev Stored : List TaskEvent → List TaskEvent → Type 0
  Stored es rows = All (λ e. outside.takes_task_event e ≡ true → known e.fingerprint rows ≡ true) es

  put_all-Stored : (es rows : List TaskEvent) → Stored es (put_all es rows)
  put_all-Stored [] rows = tt
  put_all-Stored (e ∷ es) rows = (
    λ taken. put_all-known e.fingerprint es (put_one e rows) (put_one-own e rows taken),
    put_all-Stored es (put_one e rows),
  )

  put_all-again : (es rows : List TaskEvent) → Stored es rows → put_all es rows ≡ rows
  put_all-again [] rows h = refl
  put_all-again (e ∷ es) rows h = elim (Bool-cases (outside.takes_task_event e)) [
    | inr refused ↦ rw refused (put_all-again es rows h.1)
    | inl taken ↦ rw (taken, h.0 taken) (put_all-again es rows h.1)
  ]

  put_task_events_lem :
      (es : List TaskEvent) (s : Pipeline)
      → (put_task_events outside es s).1.task_events ≡ put_all es s.task_events
  put_task_events_lem [] s = refl
  put_task_events_lem (e ∷ es) s = elim (Bool-cases (outside.takes_task_event e)) [
    | inr refused ↦ rw refused (put_task_events_lem es s)
    | inl taken ↦
        rw taken
          (put_task_events_lem es (record s { task_events = upsert_task_event e s.task_events }))
  ]

  put_task_events-ok :
      (es : List TaskEvent) (s : Pipeline) → (put_task_events outside es s).0 ≡ ok tt
  put_task_events-ok [] s = refl
  put_task_events-ok (e ∷ es) s = put_task_events-ok es (put_task_event outside e s).1

abbrev SameHistory : Pipeline → Pipeline → Type 0
SameHistory s t = t.task_events ≡ s.task_events

same_frame : IsFrame SameHistory
same_frame = (λ s. refl, λ s t u first second. second ∙ first)

-- A change of other tables.
elsewhere :
    (g : Pipeline → Pipeline)
    → ((s : Pipeline) → (g s).task_events ≡ s.task_events)
    → Keeps SameHistory (modify g)
elsewhere g h = record { kept = h }

module _ (outside : Outside) where
  add-SameHistory : (job : Job) → Keeps SameHistory (add outside job)
  add-SameHistory job =
      Keeps-bind same_frame
        (Keeps-throw_if same_frame (not (is_queue job.queue_name)) unknown_queue)
        (λ _.
          Keeps-bind same_frame
            (Keeps-throw_if same_frame (not (outside.takes_job job)) queue_refused)
            (λ _. elsewhere (λ s. record s { jobs = s.jobs ++ (job ∷ []) }) (λ s. refl)))

  update_event-SameHistory :
      (key : Json) (status : EventStatus) (at : Option ℕ) (message : Option String)
      → Keeps SameHistory (update_event outside key status at message)
  update_event-SameHistory key status at message =
      Keeps-bind same_frame
        (Keeps-throw_if same_frame (not (outside.takes_status key status)) row_refused)
        (λ _. Keeps-bind same_frame (Keeps-gets same_frame) (λ events.
          Keeps-bind same_frame
            (Keeps-or_throw same_frame (find_first (has_fingerprint key) events) record_not_found)
            (λ _.
              elsewhere
                (λ s. record s {
                  events =
                      update_unique (has_fingerprint key) (set_event status at message) s.events;
                })
                (λ s. refl))))

  module _ (js : Platform) (n : ℕ) (data_of : Json) where
    abbrev rows_of : List TaskEvent
    rows_of = history_of js (get "taskId" data_of) (get "eventType" data_of) (get "payload" data_of)

    process-history :
        (now : ℕ) (s : Pipeline)
        → (process n outside js data_of now s).1.task_events ≡ put_all outside rows_of s.task_events
    unfolding process
    process-history now s =
        rw (put_task_events-ok outside rows_of s)
          (rest.kept (put_task_events outside rows_of s).1 ∙ put_task_events_lem outside rows_of s)
      where
        rest : Keeps SameHistory (do
          follow_up n outside
              (get "taskId" data_of)
              (get "eventType" data_of)
              (get "loggedUserId" data_of)
          caught (mark_processed outside (get "fingerprint" data_of) now))
        rest =
            Keeps-bind same_frame
              (follow_up-Keeps same_frame outside add-SameHistory n (get "taskId" data_of)
                (get "eventType" data_of) (get "loggedUserId" data_of))
              (λ _.
                Keeps-caught same_frame
                  (update_event-SameHistory (get "fingerprint" data_of) processed (some now) none))

-- A job that is processed again, at whatever time, adds nothing to the history of its task, whether the
-- first attempt went through or threw behind the history, unless the database takes a row in the second
-- attempt that it refused in the first.
pub process_again :
    (first second : Outside) (js : Platform) (n : ℕ) (data_of : Json) (now later : ℕ) (s : Pipeline)
    → ((e : TaskEvent) → second.takes_task_event e ≡ true → first.takes_task_event e ≡ true)
    → (process n second js data_of later (process n first js data_of now s).1).1.task_events
      ≡ (process n first js data_of now s).1.task_events
process_again first second js n data_of now later s covers =
    let rows = rows_of first js n data_of in
    let once = process-history first js n data_of now s in
    process-history second js n data_of later (process n first js data_of now s).1
    ∙ ap (put_all second rows) once
    ∙ put_all-again second rows (put_all first rows s.task_events) (
        All-weaken (λ e stored taken. stored (covers e taken)) rows
          (put_all-Stored first rows s.task_events))
    ∙ sym once
