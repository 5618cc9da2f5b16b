-- ===== src/Webhooks/Growth.antt =====
-- The operations that let no event wait that did not wait before, and take no job away.
pub mod Handlers
use clickup_sync.Common.{
  ℕ, suc, ◌+◌, ◌≤◌, ◌≡◌, refl, Bool, true, false, not, ◌&&◌, String, Option, none, some, List, [],
  ◌∷◌, ◌++◌, arith, Bool-cases, Option-cases, inl, inr, All, All-update_unique, find_first,
  update_unique, count, Action, ◌>>=◌, ◌>>◌, gets, modify, pure, throw_if, or_throw, recover,
  caught, queue_refused, unknown_queue, row_refused, record_not_found, not_found,
}
use clickup_sync.Webhooks.Json.{Json, text, is_text, get, Platform}
use clickup_sync.Webhooks.Parser.{fingerprint_of}
use clickup_sync.Webhooks.Store.{
  EventStatus, received, processed, failed, WebhookEvent, TaskEvent, Job, Pipeline, Outside, add,
  is_queue,
}
use clickup_sync.Webhooks.Events.{
  has_fingerprint, set_event, update_event, mark_processed, mark_failed,
}
use clickup_sync.Webhooks.DeadLetters.{
  Failure, dead_row, will_retry, create_dead_letter, record_if_exhausted, mark_retried,
  mark_resolved, retry_dead_letter, retry_items, retry_all_dead_letters, resolve_dead_letter,
}
use clickup_sync.Webhooks.Worker.{
  upsert_task_event, put_task_event, put_task_events, follow_up, enqueue_follow_ups,
}
use clickup_sync.Common.Frames.{
  IsFrame, Keeps, Keeps-bind, Keeps-caught, Keeps-throw_if, Keeps-or_throw, Keeps-recover,
  Keeps-pure, Keeps-gets,
}
use clickup_sync.Webhooks.Waiting.{is_received, waits, job_of, count-append, waits-update}

module _ (js : Platform) where
  -- The fingerprint of each row is that of its payload.
  abbrev pub HasOwnFingerprint : WebhookEvent → Type 0
  HasOwnFingerprint e = e.fingerprint ≡ fingerprint_of js e.raw_payload

  abbrev pub IsGenuine : Pipeline → Type 0
  IsGenuine s = All HasOwnFingerprint s.events

module _ (js : Platform) (f : String) where
  abbrev pub Grows : Pipeline → Pipeline → Type 0
  Grows s t =
      (IsGenuine js s → IsGenuine js t)
      × (waits f t.events ≡ true → waits f s.events ≡ true)
      × (count (job_of f) s.jobs ≤ count (job_of f) t.jobs)

  pub Grows-IsFrame : IsFrame Grows
  Grows-IsFrame = (
    λ s. (λ h. h, λ h. h, omega arith),
    λ s t u a b. (λ h. b.0 (a.0 h), λ h. a.1 (b.1 h), omega (arith, a.2, b.2)),
  )

  abbrev pub Grown : {A : Type 0} → Action Pipeline A → Type 0
  Grown m = Keeps Grows m

  push-Grown : (job : Job) → Grown (modify (λ s. record s { jobs = s.jobs ++ (job ∷ []) }))
  push-Grown job = record {
    kept = λ s.
        let more = count-append (job_of f) s.jobs (job ∷ []) in
        (λ h. h, λ h. h, omega (arith, more));
  }

  pub add-Grown : (outside : Outside) (job : Job) → Grown (add outside job)
  add-Grown outside job =
      Keeps-bind Grows-IsFrame
        (Keeps-throw_if Grows-IsFrame (not (is_queue job.queue_name)) unknown_queue)
        (λ _.
          Keeps-bind Grows-IsFrame
            (Keeps-throw_if Grows-IsFrame (not (outside.takes_job job)) queue_refused)
            (λ _. push-Grown job))

  -- A write that leaves the events and the jobs.
  pub aside-Grown :
      (g : Pipeline → Pipeline)
      → ((s : Pipeline) → ((g s).events ≡ s.events) × ((g s).jobs ≡ s.jobs))
      → Grown (modify g)
  aside-Grown g h = record {
    kept = λ s. (λ x. rw (h s).0 x, λ x. rw (h s).0 at x, rw (h s).1 (omega arith));
  }

  update_event-Grown :
      (outside : Outside) (key : Json) (status : EventStatus) (at : Option ℕ)
      (message : Option String)
      → is_received status ≡ false
      → Grown (update_event outside key status at message)
  update_event-Grown outside key status at message settled =
      Keeps-bind Grows-IsFrame
        (Keeps-throw_if Grows-IsFrame (not (outside.takes_status key status)) row_refused)
        (λ _. record { kept = kept })
    where
      kept :
          (s : Pipeline)
          → Grows s
              ((do
                events ← gets (λ (s : Pipeline). s.events)
                or_throw (find_first (has_fingerprint key) events) record_not_found
                modify (λ s. record s {
                  events =
                      update_unique (has_fingerprint key) (set_event status at message) s.events;
                }))
                s).1
      kept s = elim (Option-cases (find_first (has_fingerprint key) s.events)) [
        | inl e ↦ rw e (Grows-IsFrame.0 s)
        | inr (u, e) ↦ rw e (
          λ h.
              All-update_unique (HasOwnFingerprint js) (has_fingerprint key)
                (set_event status at message) s.events u e (λ x. x) h,
          λ h. elim (waits-update key status at message f s.events h) [
            | inl before ↦ before.0
            | inr new ↦ absurd (cc (settled, new.1))
          ],
          omega arith,
        )
      ]

  pub mark_processed-Grown :
      (outside : Outside) (key : Json) (now : ℕ) → Grown (mark_processed outside key now)
  mark_processed-Grown outside key now =
      update_event-Grown outside key processed (some now) none refl

  pub mark_failed-Grown :
      (outside : Outside) (key : Json) (message : String) (now : ℕ)
      → Grown (mark_failed outside key message now)
  mark_failed-Grown outside key message now =
      update_event-Grown outside key failed (some now) (some message) refl
