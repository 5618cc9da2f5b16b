-- ===== src/Webhooks/Steps.antt =====
-- The steps that ClickUp, the queue and the administrators take, one after another.
use clickup_sync.Common.{
  ℕ, suc, ◌≡◌, true, false, Option, List, [], ◌∷◌, ◌++◌, ◌===◌, ok, err, Exception,
}
use clickup_sync.Webhooks.Json.{Json, text, get, Platform}
use clickup_sync.Webhooks.Parser.{fingerprint_of}
use clickup_sync.Webhooks.Store.{processed, failed, Job, Pipeline, Outside, clickup_webhooks}
use clickup_sync.Webhooks.Events.{SyncPreferences, receive}
use clickup_sync.Webhooks.DeadLetters.{
  Failure, will_retry, dead_row, retry_dead_letter, retry_all_dead_letters, resolve_dead_letter,
}
use clickup_sync.Webhooks.Worker.{process, on_failed}
use clickup_sync.Webhooks.Retry.{retry_failed_webhooks}

-- The job as it is after one more attempt.
abbrev pub attempted : Job → Job
attempted job = record job { attempts_made = suc job.attempts_made }

abbrev pub taken_out : List Job → List Job → Pipeline → Pipeline
taken_out before after s = record s { jobs = before ++ after }

abbrev pub put_back : Job → Pipeline → Pipeline
put_back job s = record s { jobs = s.jobs ++ (job ∷ []) }

-- One step of the whole. A worker takes a job of its queue out; one that throws goes back, until its
-- attempts are used up. The database takes the dead letter of the last attempt, and the status of an
-- event that a worker is done with or that no worker is given.
pub data Step (js : Platform) (s : Pipeline) : Pipeline → Type 0 where
  receives :
      (outside : Outside) (prefs : SyncPreferences) (payload : Json) (now : ℕ)
      → outside.takes_status (text (fingerprint_of js payload)) failed ≡ true
      → Step js s (receive js outside prefs payload now s).1
  retries_failed :
      (outside : Outside) (prefs : SyncPreferences) (limit : Option ℕ)
      → Step js s (retry_failed_webhooks js outside prefs limit s).1
  retries_dead_letter :
      (outside : Outside) (attempts now id : ℕ)
      → Step js s (retry_dead_letter outside attempts now id s).1
  retries_all :
      (outside : Outside) (attempts now : ℕ)
      → Step js s (retry_all_dead_letters outside attempts now s).1
  resolves : (outside : Outside) (now id : ℕ) → Step js s (resolve_dead_letter outside now id s).1
  works :
      (outside : Outside) (attempts now : ℕ) (job : Job) (before after : List Job) (t : Pipeline)
      → s.jobs ≡ before ++ (job ∷ after)
      → (job.queue_name === clickup_webhooks) ≡ true
      → process attempts outside js job.data_of now (taken_out before after s) ≡ (ok tt, t)
      → outside.takes_status (get "fingerprint" job.data_of) processed ≡ true
      → Step js s t
  fails :
      (outside : Outside) (attempts now : ℕ) (job : Job) (before after : List Job) (t : Pipeline)
      (e : Exception) (failure : Failure)
      → s.jobs ≡ before ++ (job ∷ after)
      → (job.queue_name === clickup_webhooks) ≡ true
      → process attempts outside js job.data_of now (taken_out before after s) ≡ (err e, t)
      → will_retry (attempted job) ≡ true
      → Step js s (on_failed outside (attempted job) failure now (put_back (attempted job) t)).1
  gives_up :
      (outside : Outside) (attempts now : ℕ) (job : Job) (before after : List Job) (t : Pipeline)
      (e : Exception) (failure : Failure)
      → s.jobs ≡ before ++ (job ∷ after)
      → (job.queue_name === clickup_webhooks) ≡ true
      → process attempts outside js job.data_of now (taken_out before after s) ≡ (err e, t)
      → will_retry (attempted job) ≡ false
      → outside.takes_dead_letter (dead_row (attempted job) failure now t.next_dead_letter) ≡ true
      → outside.takes_status (get "fingerprint" job.data_of) failed ≡ true
      → Step js s (on_failed outside (attempted job) failure now t).1
  works_elsewhere :
      (job : Job) (before after : List Job)
      → s.jobs ≡ before ++ (job ∷ after)
      → (job.queue_name === clickup_webhooks) ≡ false
      → Step js s (taken_out before after s)

-- Any number of steps.
pub data Run (js : Platform) (s : Pipeline) : Pipeline → Type 0 where
  stays : Run js s s
  goes_on : (t u : Pipeline) → Run js s t → Step js t u → Run js s u
