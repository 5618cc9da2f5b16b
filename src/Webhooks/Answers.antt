-- ===== src/Webhooks/Answers.antt =====
-- What a request comes to, branch by branch.
use Prim.Native.String.{◌++◌ as append}
use clickup_sync.Common.{
  ℕ, ◌≡◌, refl, ◌⊎◌, inl, inr, String, Bool, true, false, Option, some, List, [], ◌∷◌, ◌++◌, ◌===◌,
  eq_iff, eq_refl, Bool-cases, Option-cases, ap, find_first, find_first-update_unique,
  find_first-passes, truthy, Result, ok, err, Action,
}
use clickup_sync.Webhooks.Json.{Json, text, is_text, Platform}
use clickup_sync.Webhooks.Parser.{parse, fingerprint_of}
use clickup_sync.Webhooks.Store.{EventStatus, failed, WebhookEvent, Pipeline, Outside}
use clickup_sync.Webhooks.Events.{
  SyncPreferences, Receipt, duplicate, receive, save_received, received_row, insert_event,
  update_event, has_fingerprint, is_found, set_event, webhook_job, enqueue_received,
}
use clickup_sync.Webhooks.Retry.{WebhookRequest, admitted, can_activate, deliver}

module _ (hmac : String → String → String) where
  -- A text that the secret signs is the request's own body.
  abbrev pub IsSigned : Option String → WebhookRequest → Type 0
  IsSigned secret req =
      (key : String) × (raw : String) × (truthy secret ≡ some key)
      × (req.raw_body ≡ some raw)
      × (truthy req.signature ≡ some (hmac key raw))

  can_activate-IsSigned :
      (secret : Option String) (req : WebhookRequest)
      → can_activate hmac true secret req ≡ ok true
      → IsSigned secret req
  unfolding can_activate
  can_activate-IsSigned secret req h = elim (Option-cases (truthy secret)) [
    | inl e ↦ absurd (cc (rw e at h))
    | inr (key, e) ↦ elim (Option-cases (truthy req.signature)) [
      | inl m ↦ absurd (cc (rw (e, m) at h))
      | inr (sig, m) ↦ elim (Option-cases req.raw_body) [
        | inl b ↦ absurd (cc (rw (e, m, b) at h))
        | inr (raw, b) ↦ elim (Bool-cases (hmac key raw === sig)) [
          | inr wrong ↦ absurd (cc (rw (e, m, b, wrong) at h))
          | inl right ↦ (key, raw, e, b, rw ((eq_iff (hmac key raw) sig).0 right) m)
        ]
      ]
    ]
  ]

  deliver_admitted :
      (r : Result Bool) (handler : Action Pipeline Receipt) (s : Pipeline)
      → ((admitted r handler s).1 ≡ s) ⊎ (r ≡ ok true)
  deliver_admitted (err e) handler s = inl refl
  deliver_admitted (ok false) handler s = inl refl
  deliver_admitted (ok true) handler s = inr refl

  -- In production a delivery changes nothing, or the secret is configured and its signature of the raw
  -- body stands in the header.
  pub deliver-IsSigned :
      (secret : Option String) (js : Platform) (outside : Outside) (prefs : SyncPreferences)
      (req : WebhookRequest) (now : ℕ) (s : Pipeline)
      → ((deliver hmac true secret js outside prefs req now s).1 ≡ s) ⊎ IsSigned secret req
  unfolding deliver
  deliver-IsSigned secret js outside prefs req now s =
      elim (deliver_admitted (can_activate hmac true secret req)
        (receive js outside prefs req.body now) s) [
          | inl same ↦ inl same
          | inr granted ↦ inr (can_activate-IsSigned secret req granted)
        ]

-- An event whose status is written, or refused, is found by its fingerprint.
update_event-found :
    (outside : Outside) (key : Json) (status : EventStatus) (at : Option ℕ)
    (message : Option String) (s : Pipeline) (u : WebhookEvent)
    → find_first (has_fingerprint key) s.events ≡ some u
    → is_found
        (find_first (has_fingerprint key) (update_event outside key status at message s).1.events)
      ≡ true
update_event-found outside key status at message s u e =
    elim (Bool-cases (outside.takes_status key status)) [
      | inr refused ↦ rw (refused, e) refl
      | inl written ↦
          let new =
            find_first-update_unique (has_fingerprint key) (set_event status at message) s.events u
              e (find_first-passes (has_fingerprint key) s.events u e) in
          rw (written, e) (ap is_found new)
    ]

is_found-append :
    (key : Json) (xs : List WebhookEvent) (e : WebhookEvent)
    → is_text e.fingerprint key ≡ true
    → is_found (find_first (has_fingerprint key) (xs ++ (e ∷ []))) ≡ true
is_found-append key [] e h = rw h refl
is_found-append key (x ∷ xs) e h = elim (Bool-cases (is_text x.fingerprint key)) [
  | inl hit ↦ rw hit refl
  | inr miss ↦ rw miss (is_found-append key xs e h)
]

module _ (js : Platform) (outside : Outside) (prefs : SyncPreferences) where
  abbrev stands : Json → Pipeline → Bool
  stands payload s =
      is_found (find_first (has_fingerprint (text (fingerprint_of js payload))) s.events)

  -- A delivery that is stored and enqueued, or stored and marked as failed, is in the table.
  enqueue_received-stands :
      (payload : Json) (now : ℕ) (s : Pipeline)
      → stands payload s ≡ true
      → stands payload (enqueue_received js outside prefs (parse js payload) now s).1 ≡ true
  enqueue_received-stands payload now s h =
      elim (Bool-cases
        (outside.takes_job (webhook_job (parse js payload) prefs.webhook_retry_attempts))) [
          | inl taken ↦ rw taken h
          | inr refused ↦
              elim (Option-cases
                (find_first (has_fingerprint (text (fingerprint_of js payload))) s.events)) [
                  | inl e ↦ absurd (cc (rw e at h))
                  | inr (u, e) ↦ rw refused (
                      update_event-found outside (text (fingerprint_of js payload)) failed
                        (some now) (some (append "enqueue failed: " outside.refusal)) s u e)
                ]
        ]

  received-stands :
      (payload : Json) (now : ℕ) (s : Pipeline)
      → prefs.realtime_webhooks ≡ true
      → outside.takes_event (received_row (parse js payload) now) ≡ true
      → stands payload (receive js outside prefs payload now s).1 ≡ true
  unfolding receive save_received
  received-stands payload now s on taken = elim (Bool-cases (stands payload s)) [
    | inl known ↦ rw (on, taken, known) known
    | inr new ↦
        rw (on, taken, new)
          (enqueue_received-stands payload now
            (insert_event (received_row (parse js payload) now) s)
            (is_found-append (text (fingerprint_of js payload)) s.events
              (received_row (parse js payload) now) (eq_refl (fingerprint_of js payload))))
  ]

  receive-duplicate :
      (payload : Json) (now : ℕ) (t : Pipeline)
      → prefs.realtime_webhooks ≡ true
      → outside.takes_event (received_row (parse js payload) now) ≡ true
      → stands payload t ≡ true
      → receive js outside prefs payload now t ≡ (ok duplicate, t)
  unfolding receive save_received
  receive-duplicate payload now t on taken known = rw (on, taken, known) refl

  -- A payload that is delivered again, while real-time webhooks are on and the database takes its rows,
  -- is a duplicate, which changes nothing.
  pub receive_again :
      (payload : Json) (now later : ℕ) (s : Pipeline)
      → prefs.realtime_webhooks ≡ true
      → outside.takes_event (received_row (parse js payload) now) ≡ true
      → outside.takes_event (received_row (parse js payload) later) ≡ true
      → receive js outside prefs payload later (receive js outside prefs payload now s).1
        ≡ (ok duplicate, (receive js outside prefs payload now s).1)
  receive_again payload now later s on taken again =
      receive-duplicate payload later (receive js outside prefs payload now s).1 on again
        (received-stands payload now s on taken)
