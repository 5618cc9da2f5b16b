-- ===== src/Webhooks/Tracking/Enqueued.antt =====
-- The endpoint and the retry put a job into the queue for each event that they let wait.
use Prim.Native.String.{◌++◌ as append}
use mathlib.Core.Path.{subst}
use clickup_sync.Common.{
  ℕ, suc, ◌+◌, ◌<◌, ◌≡◌, refl, sym, ◌∙◌, ◌⊎◌, inl, inr, true, not, String, Option, none, some, List,
  [], ◌∷◌, ◌++◌, ◌===◌, arith, eq_iff, eq_refl, Bool-cases, All, All-append, All-take,
  All-find_many, All-update_unique, update_unique, find_first, count, continue-pure, length, caught,
}
use clickup_sync.Webhooks.Json.{Json, text, Platform}
use clickup_sync.Webhooks.Parser.{parse, fingerprint_of}
use clickup_sync.Webhooks.Store.{received, failed, WebhookEvent, Job, Pipeline, Outside}
use clickup_sync.Webhooks.Events.{
  has_fingerprint, set_event, SyncPreferences, webhook_job, save_received, received_row,
  insert_event, receive, find_failed, is_failed, is_found, min, mark_requeued, enqueue_received,
}
use clickup_sync.Webhooks.Retry.{requeue_rows, retry_failed_webhooks, limit_of}
use clickup_sync.Webhooks.Waiting.{waits, job_of, count-append, waits-insert, waits-update}
use clickup_sync.Webhooks.Growth.{HasOwnFingerprint, IsGenuine, mark_failed-Grown}
use clickup_sync.Webhooks.Tracking.{IsTracked, marked, update_event_cases}

module _ (js : Platform) (outside : Outside) (prefs : SyncPreferences) where
  abbrev job_for : Json → Job
  job_for payload = webhook_job (parse js payload) prefs.webhook_retry_attempts

  -- The job of a payload processes the event of its fingerprint.
  job_for-job_of : (payload : Json) → job_of (fingerprint_of js payload) (job_for payload) ≡ true
  job_for-job_of payload = eq_refl (fingerprint_of js payload)

  -- An event that waits but for its job is tracked with it.
  pushed-IsTracked :
      (payload : Json) (s t : Pipeline)
      → IsTracked js s
      → IsGenuine js t
      → t.jobs ≡ s.jobs ++ (job_for payload ∷ [])
      → ((f : String)
          → waits f t.events ≡ true
          → (waits f s.events ≡ true) ⊎ (f ≡ fingerprint_of js payload))
      → IsTracked js t
  pushed-IsTracked payload s t h genuine jobs origin = (genuine, waiting)
    where
      more :
          (f : String)
          → count (job_of f) t.jobs
            ≡ count (job_of f) s.jobs + count (job_of f) (job_for payload ∷ [])
      more f = rw jobs (count-append (job_of f) s.jobs (job_for payload ∷ []))

      waiting : (f : String) → waits f t.events ≡ true → 0 < count (job_of f) t.jobs
      waiting f w = elim (origin f w) [
        | inl before ↦ let n = h.1 f before in omega (arith, n, more f)
        | inr own ↦
            let one : count (job_of f) (job_for payload ∷ []) ≡ 1 =
              rw (own, job_for-job_of payload) refl in
            omega (arith, one, more f)
      ]

  -- The row is in the table, its job not yet in the queue.
  abbrev inserted : Json → ℕ → Pipeline → Pipeline
  inserted payload now s = insert_event (received_row (parse js payload) now) s

  inserted-IsGenuine :
      (payload : Json) (now : ℕ) (s : Pipeline)
      → IsGenuine js s
      → IsGenuine js (inserted payload now s)
  inserted-IsGenuine payload now s h =
      All-append (HasOwnFingerprint js) s.events (received_row (parse js payload) now ∷ []) h
        (refl, tt)

  enqueue_received-IsTracked :
      (payload : Json) (now : ℕ) (s : Pipeline)
      → outside.takes_status (text (fingerprint_of js payload)) failed ≡ true
      → IsTracked js s
      → IsTracked js
          (enqueue_received js outside prefs (parse js payload) now (inserted payload now s)).1
  enqueue_received-IsTracked payload now s written h =
      elim (Bool-cases (outside.takes_job (job_for payload))) [
        | inl taken ↦ rw taken (
            pushed-IsTracked payload s
              (record (inserted payload now s) { jobs = s.jobs ++ (job_for payload ∷ []) }) h
              (inserted-IsGenuine payload now s h.0) refl
              (λ f w. waits-insert f (received_row (parse js payload) now) s.events w))
        | inr refused ↦ rw refused (
          ((mark_failed-Grown js "" outside (text (fingerprint_of js payload)) message now).kept
                (inserted payload now s)).0
              (inserted-IsGenuine payload now s h.0),
          λ f w.
              let settled =
                marked outside (text (fingerprint_of js payload)) failed (some now) (some message)
                  refl written f (inserted payload now s) w in
              let grown =
                (mark_failed-Grown js f outside (text (fingerprint_of js payload)) message now).kept
                  (inserted payload now s) in
              elim (waits-insert f (received_row (parse js payload) now) s.events settled.0) [
                | inl before ↦ let n = h.1 f before in omega (arith, n, grown.2)
                | inr own ↦
                    let hit : (fingerprint_of js payload === f) ≡ true =
                      rw own (eq_refl (fingerprint_of js payload)) in
                    absurd (cc (settled.1, hit))
              ],
        )
      ]
    where
      message : String
      message = append "enqueue failed: " outside.refusal

  pub receive-IsTracked :
      (payload : Json) (now : ℕ) (s : Pipeline)
      → outside.takes_status (text (fingerprint_of js payload)) failed ≡ true
      → IsTracked js s
      → IsTracked js (receive js outside prefs payload now s).1
  unfolding receive save_received
  receive-IsTracked payload now s written h = elim (Bool-cases (not prefs.realtime_webhooks)) [
    | inl off ↦ rw off h
    | inr on ↦ elim (Bool-cases (outside.takes_event (received_row (parse js payload) now))) [
      | inr refused ↦ rw (on, refused) h
      | inl taken ↦
          elim (Bool-cases
            (is_found (find_first (has_fingerprint (text (fingerprint_of js payload))) s.events))) [
              | inl known ↦ rw (on, taken, known) h
              | inr new ↦ rw (on, taken, new) (enqueue_received-IsTracked payload now s written h)
            ]
    ]
  ]

  -- A failed event goes back into the queue.
  abbrev requeued : WebhookEvent → Pipeline → Pipeline
  requeued row s =
      (caught (mark_requeued outside (text row.fingerprint))
        (record s { jobs = s.jobs ++ (job_for row.raw_payload ∷ []) })).1

  requeued-IsTracked :
      (row : WebhookEvent) (s : Pipeline)
      → HasOwnFingerprint js row
      → IsTracked js s
      → IsTracked js (requeued row s)
  requeued-IsTracked row s own h =
      elim (update_event_cases outside (text row.fingerprint) received none none pushed) [
        | inl e ↦
            subst (IsTracked js) (sym e)
              (pushed-IsTracked row.raw_payload s pushed h h.0 refl (λ f w. inl w))
        | inr (u, found, e) ↦ subst (IsTracked js) (sym e) (
            pushed-IsTracked row.raw_payload s
              (record pushed {
                events =
                    update_unique (has_fingerprint (text row.fingerprint))
                      (set_event received none none) s.events;
              })
              h
              (All-update_unique (HasOwnFingerprint js) (has_fingerprint (text row.fingerprint))
                (set_event received none none) s.events u found (λ x. x) h.0)
              refl
              (λ f w. elim (waits-update (text row.fingerprint) received none none f s.events w) [
                | inl before ↦ inl before.0
                | inr new ↦ inr (sym ((eq_iff row.fingerprint f).0 new.0) ∙ own)
              ]))
      ]
    where
      pushed : Pipeline
      pushed = record s { jobs = s.jobs ++ (job_for row.raw_payload ∷ []) }

  requeue_rows-IsTracked :
      (rows : List WebhookEvent) (n : ℕ) (s : Pipeline)
      → All (HasOwnFingerprint js) rows
      → IsTracked js s
      → IsTracked js (requeue_rows js outside prefs rows n s).1
  unfolding requeue_rows
  requeue_rows-IsTracked [] n s own h = h
  requeue_rows-IsTracked (row ∷ rows) n s own h =
      elim (Bool-cases (outside.takes_job (job_for row.raw_payload))) [
        | inr refused ↦ rw refused h
        | inl taken ↦ rw taken (
            requeue_rows-IsTracked rows (suc n) (requeued row s) own.1
              (requeued-IsTracked row s own.0 h))
      ]

  pub retry_failed_webhooks-IsTracked :
      (limit : Option ℕ) (s : Pipeline)
      → IsTracked js s
      → IsTracked js (retry_failed_webhooks js outside prefs limit s).1
  unfolding retry_failed_webhooks
  retry_failed_webhooks-IsTracked limit s h =
      let rows = find_failed (limit_of limit) s.events in
      let own : All (HasOwnFingerprint js) rows =
        All-take (HasOwnFingerprint js) (min (limit_of limit) 2000) _
          (All-find_many (HasOwnFingerprint js) (λ e. is_failed e.status) s.events h.0) in
      let step : IsTracked js (requeue_rows js outside prefs rows 0 s).1 =
        requeue_rows-IsTracked rows 0 s own h in
      rw
        (continue-pure (requeue_rows js outside prefs rows 0 s).0 report
          (requeue_rows js outside prefs rows 0 s).1)
        step
    where
      report : ℕ → ℕ × ℕ × ℕ
      report n = (n, length (find_failed (limit_of limit) s.events), limit_of limit)
