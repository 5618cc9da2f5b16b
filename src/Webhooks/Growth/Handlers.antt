-- ===== src/Webhooks/Growth/Handlers.antt =====
-- The handlers that let no event wait that did not wait before, and take no job away.
use clickup_sync.Common.{
  length, ℕ, suc, refl, Bool, true, false, not, String, Option, none, some, List, [], ◌∷◌, ◌++◌,
  Bool-cases, inl, inr, find_first, update_unique, row_refused, record_not_found, not_found,
}
use clickup_sync.Webhooks.Json.{Json, get, Platform}
use clickup_sync.Webhooks.Store.{new_job, DeadLetter, TaskEvent, Job, Outside}
use clickup_sync.Webhooks.DeadLetters.{
  Failure, dead_row, has_dead_letter_id, update_dead_letter, set_retried, set_resolved, requeue,
  retry_found, find_pending, retry_item, retry_once, will_retry, create_dead_letter,
  record_if_exhausted, retry_dead_letter, retry_items, retry_all_dead_letters, resolve_dead_letter,
}
use clickup_sync.Webhooks.Worker.{
  give_up, on_failed, upsert_task_event, put_task_events, history_of, process, follow_up,
}
use clickup_sync.Common.Frames.{
  IsFrame, Keeps-bind, Keeps-caught, Keeps-throw_if, Keeps-or_throw, Keeps-recover, Keeps-pure,
  Keeps-gets,
}
use clickup_sync.Webhooks.Growth.{
  Grows, Grown, Grows-IsFrame, aside-Grown, add-Grown, mark_failed-Grown, mark_processed-Grown,
}
use clickup_sync.Webhooks.FollowUps.{follow_up-Keeps}

module _ (js : Platform) (f : String) where
  frame : IsFrame (Grows js f)
  frame = Grows-IsFrame js f

  update_dead_letter-Grown :
      (outside : Outside) (id : ℕ) (g : DeadLetter → DeadLetter)
      → Grown js f (update_dead_letter outside id g)
  update_dead_letter-Grown outside id g =
      Keeps-bind frame (Keeps-throw_if frame (not (outside.takes_dead_letter_mark id)) row_refused)
        (λ _. Keeps-bind frame (Keeps-gets frame) (λ rows.
          Keeps-bind frame
            (Keeps-or_throw frame (find_first (has_dead_letter_id id) rows) record_not_found)
            (λ _.
              aside-Grown js f
                (λ s. record s {
                  dead_letters = update_unique (has_dead_letter_id id) g s.dead_letters;
                })
                (λ s. (refl, refl)))))

  pub resolve_dead_letter-Grown :
      (outside : Outside) (now id : ℕ) → Grown js f (resolve_dead_letter outside now id)
  unfolding resolve_dead_letter
  resolve_dead_letter-Grown outside now id = Keeps-bind frame (Keeps-gets frame) (λ rows.
      Keeps-bind frame
        (Keeps-or_throw frame (find_first (has_dead_letter_id id) rows)
          (not_found "Dead-letter job not found"))
        (λ _. update_dead_letter-Grown outside id (set_resolved now)))

module _ (js : Platform) (f : String) (outside : Outside) where
  pub put_task_events-Grown : (rows : List TaskEvent) → Grown js f (put_task_events outside rows)
  put_task_events-Grown [] = Keeps-pure (frame js f)
  put_task_events-Grown (e ∷ rows) =
      Keeps-bind (frame js f)
        (Keeps-caught (frame js f) (
          Keeps-bind (frame js f)
            (Keeps-throw_if (frame js f) (not (outside.takes_task_event e)) row_refused)
            (λ _.
              aside-Grown js f (λ s. record s { task_events = upsert_task_event e s.task_events })
                (λ s. (refl, refl)))))
        (λ _. put_task_events-Grown rows)

  create_dead_letter-Grown :
      (job : Job) (failure : Failure) (now : ℕ)
      → Grown js f (create_dead_letter outside job failure now)
  unfolding create_dead_letter
  create_dead_letter-Grown job failure now =
      Keeps-bind (frame js f) (Keeps-gets (frame js f)) (λ id.
        Keeps-bind (frame js f)
          (Keeps-throw_if (frame js f)
            (not (outside.takes_dead_letter (dead_row job failure now id))) row_refused)
          (λ _.
            aside-Grown js f
              (λ s. record s {
                dead_letters = s.dead_letters ++ (dead_row job failure now id ∷ []);
                next_dead_letter = suc id;
              })
              (λ s. (refl, refl))))

  record_if_exhausted-Grown :
      (job : Job) (failure : Failure) (now : ℕ)
      → Grown js f (record_if_exhausted outside job failure now)
  unfolding record_if_exhausted
  record_if_exhausted-Grown job failure now = elim (Bool-cases (will_retry job)) [
    | inl more ↦ rw more (Keeps-pure (frame js f))
    | inr exhausted ↦ rw exhausted (
        Keeps-recover (frame js f)
          (Keeps-bind (frame js f) (create_dead_letter-Grown job failure now)
            (λ _. Keeps-pure (frame js f)))
          (Keeps-pure (frame js f)))
  ]

  give_up-Grown :
      (exhausted : Bool) (key : Json) (message : String) (now : ℕ)
      → Grown js f (give_up outside exhausted key message now)
  give_up-Grown false key message now = Keeps-pure (frame js f)
  give_up-Grown true key message now =
      Keeps-caught (frame js f) (mark_failed-Grown js f outside key message now)

  pub on_failed-Grown :
      (job : Job) (failure : Failure) (now : ℕ) → Grown js f (on_failed outside job failure now)
  unfolding on_failed
  on_failed-Grown job failure now =
      Keeps-bind (frame js f) (record_if_exhausted-Grown job failure now)
        (λ exhausted. give_up-Grown _ _ failure.message now)

  pub follow_up-Grown :
      (n : ℕ) (task_id event_type user : Json)
      → Grown js f (follow_up n outside task_id event_type user)
  follow_up-Grown n = follow_up-Keeps (frame js f) outside (add-Grown js f outside) n

  pub process-Grown :
      (n : ℕ) (data_of : Json) (now : ℕ) → Grown js f (process n outside js data_of now)
  unfolding process
  process-Grown n data_of now =
      Keeps-bind (frame js f)
        (put_task_events-Grown
          (history_of js (get "taskId" data_of) (get "eventType" data_of) (get "payload" data_of)))
        (λ _.
          Keeps-bind (frame js f)
            (follow_up-Grown n (get "taskId" data_of) (get "eventType" data_of)
              (get "loggedUserId" data_of))
            (λ _.
              Keeps-caught (frame js f)
                (mark_processed-Grown js f outside (get "fingerprint" data_of) now)))

  module _ (n now : ℕ) where
    requeue-Grown : (d : DeadLetter) → Grown js f (requeue outside n now d)
    requeue-Grown d =
        Keeps-bind (frame js f)
          (add-Grown js f outside (new_job d.queue_name d.job_name d.payload (some n)))
          (λ _. update_dead_letter-Grown js f outside d.id (set_retried now))

    pub retry_dead_letter-Grown : (id : ℕ) → Grown js f (retry_dead_letter outside n now id)
    unfolding retry_dead_letter
    retry_dead_letter-Grown id = Keeps-bind (frame js f) (Keeps-gets (frame js f)) (λ rows.
        Keeps-bind (frame js f)
          (Keeps-or_throw (frame js f) (find_first (has_dead_letter_id id) rows)
            (not_found "Dead-letter job not found"))
          (λ d. requeue-Grown d))

    retry_found-Grown :
        (found : Option DeadLetter) (k : ℕ) → Grown js f (retry_found outside n now found k)
    retry_found-Grown none k = Keeps-pure (frame js f)
    retry_found-Grown (some d) k =
        Keeps-bind (frame js f) (requeue-Grown d) (λ _. Keeps-pure (frame js f))

    retry_once-Grown : (d : DeadLetter) (k : ℕ) → Grown js f (retry_once outside n now d k)
    retry_once-Grown d k =
        Keeps-bind (frame js f) (Keeps-gets (frame js f))
          (λ rows. retry_found-Grown (find_first (has_dead_letter_id d.id) rows) k)

    retry_item-Grown : (d : DeadLetter) (k : ℕ) → Grown js f (retry_item outside n now d k)
    retry_item-Grown d k =
        Keeps-recover (frame js f) (retry_once-Grown d k) (Keeps-pure (frame js f) {a = k})

    retry_items-Grown :
        (items : List DeadLetter) (k : ℕ) → Grown js f (retry_items outside n now items k)
    unfolding retry_items
    retry_items-Grown [] k = Keeps-pure (frame js f)
    retry_items-Grown (d ∷ items) k =
        Keeps-bind (frame js f) (retry_item-Grown d k) (λ done. retry_items-Grown items done)

    pub retry_all_dead_letters-Grown : Grown js f (retry_all_dead_letters outside n now)
    unfolding retry_all_dead_letters
    retry_all_dead_letters-Grown =
        Keeps-bind (frame js f)
          (Keeps-gets (frame js f) {g = λ s. find_pending 1000 0 s.dead_letters})
          (λ (page : List DeadLetter × ℕ).
            Keeps-bind (frame js f) (retry_items-Grown page.0 0)
              (λ done. Keeps-pure (frame js f) {a = (done, length page.0)}))
