-- ===== src/Webhooks/Retry.antt =====
-- retryFailedWebhooks of admin/admin-webhooks.controller.ts, and webhook-signature.guard.ts in front
-- of the endpoint.
use clickup_sync.Common.{
  ℕ, zero, suc, String, Bool, true, false, Option, none, some, List, [], ◌∷◌, ◌===◌, if◌then◌else◌,
  length, Action, ◌>>=◌, ◌>>◌, gets, pure, throw, caught, truthy, Result, ok, err, unauthorized,
  forbidden, internal_error,
}
use clickup_sync.Webhooks.Json.{Json, text, Platform}
use clickup_sync.Webhooks.Parser.{parse}
use clickup_sync.Webhooks.Store.{WebhookEvent, Pipeline, Outside, add}
use clickup_sync.Webhooks.Events.{
  SyncPreferences, Receipt, webhook_job, mark_requeued, find_failed, min, receive,
}

-- `Math.min(Number(limitParam) || 500, 2000)`, of a number that is not negative.
abbrev pub limit_of : Option ℕ → ℕ
limit_of none = 500
limit_of (some zero) = 500
limit_of (some (suc n)) = min (suc n) 2000

module _ (js : Platform) (outside : Outside) (prefs : SyncPreferences) where
  -- `for (const row of failed)`
  unfoldable pub requeue_rows : List WebhookEvent → ℕ → Action Pipeline ℕ
  requeue_rows [] requeued = pure requeued
  requeue_rows (row ∷ rows) requeued = do
    add outside (webhook_job (parse js row.raw_payload) prefs.webhook_retry_attempts)
    caught (mark_requeued outside (text row.fingerprint))
    requeue_rows rows (suc requeued)

  unfoldable pub retry_failed_webhooks : Option ℕ → Action Pipeline (ℕ × ℕ × ℕ)
  retry_failed_webhooks limit_param = do
    failed_rows ← gets (λ s. find_failed (limit_of limit_param) s.events)
    requeued ← requeue_rows failed_rows 0
    pure (requeued, length failed_rows, limit_of limit_param)

-- The parts of a request that the guard reads, and the body that the parser made of the raw one.
pub record WebhookRequest : Type 0 where
  pub signature : Option String
  pub raw_body : Option String
  pub body : Json

-- The answer of the guard lets the handler run, or ends the request.
abbrev pub admitted : Result Bool → Action Pipeline Receipt → Action Pipeline Receipt
admitted (err e) handler = throw e
admitted (ok false) handler = throw (forbidden "Forbidden resource")
admitted (ok true) handler = handler

module _ (hmac : String → String → String) where
  abbrev compare_signature : String → String → Option String → Result Bool
  compare_signature secret signature none = err (unauthorized "Raw body unavailable")
  compare_signature secret signature (some raw) =
      if hmac secret raw === signature
      then ok true
      else err (unauthorized "Invalid webhook signature")

  abbrev check_signature : String → Option String → Option String → Result Bool
  check_signature secret none raw_body = err (unauthorized "Missing X-Signature header")
  check_signature secret (some signature) raw_body = compare_signature secret signature raw_body

  abbrev check_secret : (production : Bool) → Option String → WebhookRequest → Result Bool
  check_secret production none req = if production then err internal_error else ok true
  check_secret production (some secret) req =
      check_signature secret (truthy req.signature) req.raw_body

  unfoldable pub can_activate : (production : Bool) → Option String → WebhookRequest → Result Bool
  can_activate production secret req = check_secret production (truthy secret) req

  -- `receive` behind its guard.
  unfoldable pub deliver :
      (production : Bool)
      → Option String
      → Platform
      → Outside
      → SyncPreferences
      → WebhookRequest
      → ℕ
      → Action Pipeline Receipt
  deliver production secret js outside prefs req now =
      admitted (can_activate production secret req) (receive js outside prefs req.body now)
