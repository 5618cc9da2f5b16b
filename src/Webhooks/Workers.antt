-- ===== src/Webhooks/Workers.antt =====
-- What the workers of the queue of webhooks do to the events that wait.
use mathlib.Core.Path.{subst}
use clickup_sync.Common.{
  ℕ, suc, ◌+◌, ◌<◌, ◌≡◌, refl, ap, String, true, false, none, some, List, [], ◌∷◌, ◌++◌, arith,
  count, Bool-cases, inl, inr, Result, ok, err, Exception, Action, continue,
}
use clickup_sync.Webhooks.Json.{text, get, is_text, is_truthy, Platform}
use clickup_sync.Webhooks.Store.{processed, failed, Job, Pipeline, Outside}
use clickup_sync.Webhooks.Events.{mark_processed}
use clickup_sync.Webhooks.DeadLetters.{
  Failure, will_retry, dead_row, create_dead_letter, record_if_exhausted,
}
use clickup_sync.Webhooks.Worker.{process, on_failed, put_task_events, history_of, follow_up}
use clickup_sync.Webhooks.Waiting.{waits, job_of, count-append}
use clickup_sync.Webhooks.Growth.{IsGenuine, Grows, Grows-IsFrame, mark_processed-Grown}
use clickup_sync.Webhooks.Growth.Handlers.{
  put_task_events-Grown, follow_up-Grown, process-Grown, on_failed-Grown,
}
use clickup_sync.Webhooks.Tracking.{IsTracked, IsTracked-Grows, marked, waiting-truthy, text_key}
use clickup_sync.Webhooks.Steps.{attempted, taken_out, put_back}

-- A job that is taken out counts for its own event only.
pub counted :
    (f : String) (job : Job) (before after : List Job) (s : Pipeline)
    → s.jobs ≡ before ++ (job ∷ after)
    → count (job_of f) s.jobs ≡ count (job_of f) (before ++ after) + count (job_of f) (job ∷ [])
counted f job before after s e =
    let whole = count-append (job_of f) before (job ∷ after) in
    let rest = count-append (job_of f) before after in
    let behind = count-append (job_of f) (job ∷ []) after in
    rw e (omega (arith, whole, rest, behind))

continue-ok :
    {S A B : Type 0} (r : Result A) (k : A → Action S B) (s t : S) (b : B)
    → continue r k s ≡ (ok b, t)
    → (a : A) × (k a s ≡ (ok b, t))
continue-ok (ok a) k s t b h = (a, h)
continue-ok (err e) k s t b h = absurd (cc h)

-- An event that a worker is done with does not wait, and no other loses its job.
pub released :
    (js : Platform) (job : Job) (before after : List Job) (s u t : Pipeline)
    → IsTracked js s
    → s.jobs ≡ before ++ (job ∷ after)
    → ((f : String) → Grows js f (taken_out before after s) u)
    → ((f : String) → Grows js f u t)
    → ((f : String) → waits f t.events ≡ true → is_text f (get "fingerprint" job.data_of) ≡ false)
    → IsTracked js t
released js job before after s u t h jobs first second settled =
    ((second "").0 ((first "").0 h.0), waiting)
  where
    waiting : (f : String) → waits f t.events ≡ true → 0 < count (job_of f) t.jobs
    waiting f w =
        let a = first f in
        let b = second f in
        let n = h.1 f (a.1 (b.1 w)) in
        let other : count (job_of f) (job ∷ []) ≡ 0 = lemma (settled f w) in
        omega (arith, n, other, counted f job before after s jobs, a.2, b.2)
      where
        lemma : is_text f (get "fingerprint" job.data_of) ≡ false → count (job_of f) (job ∷ []) ≡ 0
        lemma other = ground (arith, other)

module _ (js : Platform) (outside : Outside) (attempts now : ℕ) where
  pub works-IsTracked :
      (job : Job) (before after : List Job) (s t : Pipeline)
      → IsTracked js s
      → s.jobs ≡ before ++ (job ∷ after)
      → process attempts outside js job.data_of now (taken_out before after s) ≡ (ok tt, t)
      → outside.takes_status (get "fingerprint" job.data_of) processed ≡ true
      → IsTracked js t
  unfolding process
  works-IsTracked job before after s t h jobs done written =
      let key = get "fingerprint" job.data_of in
      let s0 = taken_out before after s in
      let rows =
        history_of js (get "taskId" job.data_of) (get "eventType" job.data_of)
          (get "payload" job.data_of) in
      let s1 = (put_task_events outside rows s0).1 in
      let follow =
        follow_up attempts outside (get "taskId" job.data_of) (get "eventType" job.data_of)
          (get "loggedUserId" job.data_of) in
      let s2 = (follow s1).1 in
      let first = continue-ok (put_task_events outside rows s0).0 _ s1 t tt done in
      let second = continue-ok (follow s1).0 _ s2 t tt first.1 in
      let last : (mark_processed outside key now s2).1 ≡ t =
        ap (λ (r : Result (Unit {0}) × Pipeline). r.1) second.1 in
      subst (IsTracked js) last (
        released js job before after s s2 (mark_processed outside key now s2).1 h jobs
          (λ f.
            (Grows-IsFrame js f).1 s0 s1 s2 ((put_task_events-Grown js f outside rows).kept s0) (
              (follow_up-Grown js f outside attempts (get "taskId" job.data_of)
                  (get "eventType" job.data_of) (get "loggedUserId" job.data_of)).kept
                s1))
          (λ f. (mark_processed-Grown js f outside key now).kept s2)
          (λ f w. (marked outside key processed (some now) none refl written f s2 w).1))

  -- With the dead letter stored, the event does not wait any more.
  gave_up :
      (job : Job) (failure : Failure) (t : Pipeline)
      → IsGenuine js t
      → will_retry job ≡ false
      → outside.takes_dead_letter (dead_row job failure now t.next_dead_letter) ≡ true
      → outside.takes_status (get "fingerprint" job.data_of) failed ≡ true
      → (f : String) → waits f (on_failed outside job failure now t).1.events ≡ true
      → is_text f (get "fingerprint" job.data_of) ≡ false
  unfolding on_failed record_if_exhausted create_dead_letter
  gave_up job failure t genuine exhausted stored written f w =
      let key = get "fingerprint" job.data_of in
      elim (Bool-cases (is_truthy key)) [
        | inl given ↦
            (marked outside key failed (some now) (some failure.message) refl written f stored_row
              (rw (exhausted, stored, given) at w)).1
        | inr missing ↦ elim (Bool-cases (is_text f key)) [
          | inr other ↦ other
          | inl own ↦
              let before : waits f t.events ≡ true = rw (exhausted, stored, missing) at w in
              let full : is_truthy (text f) ≡ true = waiting-truthy js f t genuine before in
              let empty : is_truthy (text f) ≡ false = rw (text_key key f own) at missing in
              absurd (cc (full, empty))
        ]
      ]
    where
      stored_row : Pipeline
      stored_row = record t {
        dead_letters = t.dead_letters ++ (dead_row job failure now t.next_dead_letter ∷ []);
        next_dead_letter = suc t.next_dead_letter;
      }

  -- Each step of a worker keeps the events that wait tracked.
  pub gives_up-IsTracked :
      (job : Job) (before after : List Job) (s t : Pipeline) (e : Exception) (failure : Failure)
      → IsTracked js s
      → s.jobs ≡ before ++ (job ∷ after)
      → process attempts outside js job.data_of now (taken_out before after s) ≡ (err e, t)
      → will_retry (attempted job) ≡ false
      → outside.takes_dead_letter (dead_row (attempted job) failure now t.next_dead_letter) ≡ true
      → outside.takes_status (get "fingerprint" job.data_of) failed ≡ true
      → IsTracked js (on_failed outside (attempted job) failure now t).1
  gives_up-IsTracked job before after s t e failure h jobs thrown exhausted stored written =
      released js job before after s t (on_failed outside (attempted job) failure now t).1 h jobs
        grows (λ f. (on_failed-Grown js f outside (attempted job) failure now).kept t)
        (gave_up (attempted job) failure t ((grows "").0 h.0) exhausted stored written)
    where
      grows : (f : String) → Grows js f (taken_out before after s) t
      grows f =
          subst (Grows js f (taken_out before after s))
            (ap (λ (r : Result (Unit {0}) × Pipeline). r.1) thrown)
            ((process-Grown js f outside attempts job.data_of now).kept (taken_out before after s))

  pub fails-IsTracked :
      (job : Job) (before after : List Job) (s t : Pipeline) (e : Exception) (failure : Failure)
      → IsTracked js s
      → s.jobs ≡ before ++ (job ∷ after)
      → process attempts outside js job.data_of now (taken_out before after s) ≡ (err e, t)
      → IsTracked js (on_failed outside (attempted job) failure now (put_back (attempted job) t)).1
  fails-IsTracked job before after s t e failure h jobs thrown =
      IsTracked-Grows js s
        (on_failed outside (attempted job) failure now (put_back (attempted job) t)).1
        (λ f.
          (Grows-IsFrame js f).1 s (put_back (attempted job) t)
            (on_failed outside (attempted job) failure now (put_back (attempted job) t)).1 (back f)
            ((on_failed-Grown js f outside (attempted job) failure now).kept
              (put_back (attempted job) t)))
        h
    where
      back : (f : String) → Grows js f s (put_back (attempted job) t)
      back f =
          let grows : Grows js f (taken_out before after s) t =
            subst (Grows js f (taken_out before after s))
              (ap (λ (r : Result (Unit {0}) × Pipeline). r.1) thrown)
              ((process-Grown js f outside attempts job.data_of now).kept
                (taken_out before after s)) in
          let more = count-append (job_of f) t.jobs (attempted job ∷ []) in
          (grows.0, grows.1, omega (arith, grows.2, more, counted f job before after s jobs))
