-- ===== src/Webhooks/FollowUps.antt =====
-- What holds of the jobs that an event leaves because it holds of `add`.
use clickup_sync.Common.{ℕ, Bool, true, false, not, ◌||◌, Bool-cases, inl, inr}
use clickup_sync.Webhooks.Json.{Json, is_truthy, is_text}
use clickup_sync.Webhooks.Store.{Pipeline, Job, Outside, add}
use clickup_sync.Webhooks.Worker.{
  sync_time_entries, time_entries_job, delete_job, sync_job, enqueue_follow_ups, follow_up,
}
use clickup_sync.Common.Frames.{IsFrame, Keeps, Keeps-bind, Keeps-pure}

module _ {R : Pipeline → Pipeline → Type 0} (frame : IsFrame R) (outside : Outside)
    (added : (job : Job) → Keeps R (add outside job)) (n : ℕ) where
  sync_time_entries-Keeps :
      (wanted : Bool) (task_id event_type user : Json)
      → Keeps R (sync_time_entries n outside wanted task_id event_type user)
  sync_time_entries-Keeps false task_id event_type user = Keeps-pure frame
  sync_time_entries-Keeps true task_id event_type user =
      added (time_entries_job n task_id event_type user)

  enqueue_follow_ups-Keeps :
      (deleted : Bool) (task_id event_type user : Json)
      → Keeps R (enqueue_follow_ups n outside deleted task_id event_type user)
  enqueue_follow_ups-Keeps true task_id event_type user = added (delete_job n task_id)
  enqueue_follow_ups-Keeps false task_id event_type user =
      Keeps-bind frame (added (sync_job n task_id))
        (λ _. sync_time_entries-Keeps _ task_id event_type user)

  -- What an event asks for behind its history only adds jobs.
  pub follow_up-Keeps :
      (task_id event_type user : Json) → Keeps R (follow_up n outside task_id event_type user)
  follow_up-Keeps task_id event_type user =
      elim (Bool-cases (is_text "taskStatusUpdated" event_type || not (is_truthy task_id))) [
        | inl nothing ↦ rw nothing (Keeps-pure frame)
        | inr more ↦ rw more (enqueue_follow_ups-Keeps _ task_id event_type user)
      ]
