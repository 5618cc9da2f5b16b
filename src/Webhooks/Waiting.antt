-- ===== src/Webhooks/Waiting.antt =====
-- Which events wait to be processed, and the jobs that they wait for.
use clickup_sync.Common.{
  ℕ, ◌+◌, ◌≡◌, refl, sym, ◌∙◌, ◌⊎◌, inl, inr, String, Bool, true, false, ◌&&◌, Option, none, some,
  List, [], ◌∷◌, ◌++◌, ◌===◌, arith, eq_iff, Bool-cases, find_first, update_unique, count,
}
use clickup_sync.Webhooks.Json.{
  Json, undefined, null, boolean, number, array, object, text, is_text, get,
}
use clickup_sync.Webhooks.Store.{
  EventStatus, received, processed, failed, WebhookEvent, Job, clickup_webhooks,
}
use clickup_sync.Webhooks.Events.{has_fingerprint, set_event}

abbrev pub is_received : EventStatus → Bool
is_received received = true
is_received processed = false
is_received failed = false

abbrev pub is_waiting : Option WebhookEvent → Bool
is_waiting none = false
is_waiting (some e) = is_received e.status

-- The event with the fingerprint is in the table, neither processed nor failed.
abbrev pub waits : String → List WebhookEvent → Bool
waits f events = is_waiting (find_first (has_fingerprint (text f)) events)

-- The jobs that process the event.
abbrev pub job_of : String → Job → Bool
job_of f job = (job.queue_name === clickup_webhooks) && is_text f (get "fingerprint" job.data_of)

pub count-append :
    {A : Type 0} (p : A → Bool) (xs ys : List A) → count p (xs ++ ys) ≡ count p xs + count p ys
count-append p [] ys = omega arith
count-append p (x ∷ xs) ys = ground (arith, count-append p xs ys)

pub waits-insert :
    (f : String) (e : WebhookEvent) (events : List WebhookEvent)
    → waits f (events ++ (e ∷ [])) ≡ true
    → (waits f events ≡ true) ⊎ (f ≡ e.fingerprint)
waits-insert f e [] h = elim (Bool-cases (f === e.fingerprint)) [
  | inl same ↦ inr ((eq_iff f e.fingerprint).0 same)
  | inr other ↦ absurd (cc (rw other at h))
]
waits-insert f e (x ∷ events) h = elim (Bool-cases (f === x.fingerprint)) [
  | inl same ↦ rw same (inl (rw same at h))
  | inr other ↦ rw other (waits-insert f e events (rw other at h))
]

-- A value is one text at most.
is_text_unique :
    (key : Json) (s t : String) → is_text s key ≡ true → (t === s) ≡ false → is_text t key ≡ false
is_text_unique undefined s t h other = refl
is_text_unique null s t h other = refl
is_text_unique (boolean b) s t h other = refl
is_text_unique (number n) s t h other = refl
is_text_unique (array o) s t h other = refl
is_text_unique (object o) s t h other = refl
is_text_unique (text k) s t h other = elim (Bool-cases (k === t)) [
  | inr miss ↦ miss
  | inl hit ↦
      let same : t ≡ s = sym ((eq_iff k t).0 hit) ∙ (eq_iff k s).0 h in
      absurd (cc (other, (eq_iff t s).1 same))
]

module _ (key : Json) (status : EventStatus) (at : Option ℕ) (message : Option String) where
  -- A write of the status decides for its own event, and for no other.
  pub waits-update :
      (f : String) (events : List WebhookEvent)
      → waits f (update_unique (has_fingerprint key) (set_event status at message) events) ≡ true
      → ((waits f events ≡ true) × (is_text f key ≡ false))
        ⊎ ((is_text f key ≡ true) × (is_received status ≡ true))
  waits-update f [] h = absurd (cc h)
  waits-update f (x ∷ events) h = elim (Bool-cases (f === x.fingerprint)) [
    | inl same ↦
        let own : f ≡ x.fingerprint = (eq_iff f x.fingerprint).0 same in
        elim (Bool-cases (is_text x.fingerprint key)) [
          | inl hit ↦ inr (rw own hit, rw (hit, same) at h)
          | inr miss ↦ rw same (inl (rw (miss, same) at h, rw own miss))
        ]
    | inr other ↦ elim (Bool-cases (is_text x.fingerprint key)) [
      | inl hit ↦
          rw other (inl (rw (hit, other) at h, is_text_unique key x.fingerprint f hit other))
      | inr miss ↦ rw other (waits-update f events (rw (miss, other) at h))
    ]
  ]
