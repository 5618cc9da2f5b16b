-- ===== src/Webhooks/Tracking.antt =====
-- An event that waits has a job in the queue.
pub mod Enqueued
use Prim.Native.String.{◌++◌ as append}
use package.text.Mathlib.TextLemmas.{append-eq-nil_iff}
use mathlib.Core.Path.{subst}
use clickup_sync.Common.{
  ℕ, suc, ◌+◌, ◌≤◌, ◌<◌, ◌≡◌, refl, sym, ap, ◌∙◌, ◌⊎◌, inl, inr, ◌≢◌, Bool, true, false, not, ◌&&◌,
  ◌||◌, String, Option, none, some, List, [], ◌∷◌, ◌++◌, ◌===◌, arith, eq_iff, eq_refl, Bool-cases,
  Option-cases, All, All-append, All-take, All-find_many, All-find_first, All-update_unique,
  update_unique, find_first, find_many, find_first-passes, take, count, continue-pure, length, bit,
  Result, ok, err, Action, ◌>>=◌, ◌>>◌, modify, caught, recover, pure, if◌then◌else◌,
}
use clickup_sync.Webhooks.Json.{
  Json, undefined, null, boolean, number, text, array, object, is_text, is_truthy, get, Platform,
}
use clickup_sync.Webhooks.Parser.{
  ParsedWebhook, parse, fingerprint_of, event_id_of, task_id_of, event_type_of,
}
use clickup_sync.Webhooks.Store.{
  EventStatus, received, processed, failed, WebhookEvent, Job, Pipeline, Outside, add,
}
use clickup_sync.Webhooks.Events.{
  has_fingerprint, set_event, update_event, SyncPreferences, webhook_job, save_received,
  received_row, insert_event, receive, find_failed, is_failed, is_found, min, mark_failed,
  mark_requeued, enqueue_received,
}
use clickup_sync.Webhooks.Retry.{requeue_rows, retry_failed_webhooks, limit_of}
use clickup_sync.Webhooks.Waiting.{
  is_received, is_waiting, waits, job_of, count-append, waits-insert, waits-update,
}
use clickup_sync.Webhooks.Growth.{HasOwnFingerprint, IsGenuine, Grows, mark_failed-Grown}

module _ (js : Platform) where
  -- Every event that is neither processed nor failed has a job.
  abbrev pub IsTracked : Pipeline → Type 0
  IsTracked s =
      IsGenuine js s × ((f : String) → waits f s.events ≡ true → 0 < count (job_of f) s.jobs)

  pub IsTracked-Grows :
      (s t : Pipeline) → ((f : String) → Grows js f s t) → IsTracked s → IsTracked t
  IsTracked-Grows s t grows h =
      ((grows "").0 h.0, λ f w. let g = grows f in let n = h.1 f (g.1 w) in omega (arith, n, g.2))

pub text_key : (key : Json) (f : String) → is_text f key ≡ true → key ≡ text f
text_key undefined f h = absurd (cc h)
text_key null f h = absurd (cc h)
text_key (boolean b) f h = absurd (cc h)
text_key (number n) f h = absurd (cc h)
text_key (array o) f h = absurd (cc h)
text_key (object o) f h = absurd (cc h)
text_key (text k) f h = ap text ((eq_iff k f).0 h)

-- What is marked as processed or failed does not wait any more.
pub marked :
    (outside : Outside) (key : Json) (status : EventStatus) (at : Option ℕ)
    (message : Option String)
    → is_received status ≡ false
    → outside.takes_status key status ≡ true
    → (f : String) (s : Pipeline)
    → waits f (update_event outside key status at message s).1.events ≡ true
    → (waits f s.events ≡ true) × (is_text f key ≡ false)
marked outside key status at message settled written f s h =
    elim (Option-cases (find_first (has_fingerprint key) s.events)) [
      | inr (u, e) ↦ elim (waits-update key status at message f s.events (rw (written, e) at h)) [
        | inl before ↦ before
        | inr new ↦ absurd (cc (settled, new.1))
      ]
      | inl e ↦ elim (Bool-cases (is_text f key)) [
        | inr other ↦ (rw (written, e) at h, other)
        | inl own ↦
            let missing : find_first (has_fingerprint (text f)) s.events ≡ none =
              rw (← text_key key f own) e in
            let before : waits f s.events ≡ true = rw (written, e) at h in
            absurd (cc (rw missing at before))
      ]
    ]

-- A write by fingerprint reaches an event, or changes nothing.
pub update_event_cases :
    (outside : Outside) (key : Json) (status : EventStatus) (at : Option ℕ)
    (message : Option String) (s : Pipeline)
    → ((update_event outside key status at message s).1 ≡ s)
      ⊎ ((u : WebhookEvent) × (find_first (has_fingerprint key) s.events ≡ some u)
          × ((update_event outside key status at message s).1 ≡ record s {
            events = update_unique (has_fingerprint key) (set_event status at message) s.events;
          }))
update_event_cases outside key status at message s =
    elim (Bool-cases (outside.takes_status key status)) [
      | inr refused ↦ inl (rw refused refl)
      | inl written ↦ elim (Option-cases (find_first (has_fingerprint key) s.events)) [
        | inl e ↦ inl (rw (written, e) refl)
        | inr (u, e) ↦ inr (u, e, rw (written, e) refl)
      ]
    ]

-- A text with a start that is not empty is truthy.
append-truthy : (s t : String) → s ≢ "" → is_truthy (text (append s t)) ≡ true
append-truthy s t h = elim (Bool-cases (append s t === "")) [
  | inr full ↦ rw full refl
  | inl empty ↦ absurd (h (append-eq-nil_iff.0 ((eq_iff (append s t) "").0 empty)).0)
]

module _ (js : Platform) where
  pub fingerprint_of-truthy : (payload : Json) → is_truthy (text (fingerprint_of js payload)) ≡ true
  unfolding fingerprint_of
  fingerprint_of-truthy payload = elim (Bool-cases (is_truthy (event_id_of payload))) [
    | inl id ↦ rw id (append-truthy "id:" _ (λ e. cc e))
    | inr no_id ↦
        elim (Bool-cases (is_truthy (task_id_of payload) && is_truthy (event_type_of payload))) [
          | inl task ↦ rw (no_id, task) (append-truthy "event:" _ (λ e. cc e))
          | inr no_task ↦ rw (no_id, no_task) (append-truthy "hash:" _ (λ e. cc e))
        ]
  ]

  pub waiting-truthy :
      (f : String) (s : Pipeline)
      → IsGenuine js s
      → waits f s.events ≡ true
      → is_truthy (text f) ≡ true
  waiting-truthy f s genuine w =
      elim (Option-cases (find_first (has_fingerprint (text f)) s.events)) [
        | inl e ↦ absurd (cc (rw e at w))
        | inr (u, e) ↦
            let found : f ≡ u.fingerprint =
              (eq_iff f u.fingerprint).0
                (find_first-passes (has_fingerprint (text f)) s.events u e) in
            let own : u.fingerprint ≡ fingerprint_of js u.raw_payload =
              All-find_first (HasOwnFingerprint js) (has_fingerprint (text f)) s.events u e
                genuine in
            rw (found ∙ own) (fingerprint_of-truthy u.raw_payload)
      ]
