-- ===== src/Webhooks/DeadLetters.antt =====
-- jobs/dead-letter.repository.ts and dead-letter.service.ts, and the handlers of
-- admin/admin-dead-letters.controller.ts.
use mathlib.Core.List.{reverse}
use clickup_sync.Common.{
  ℕ, zero, suc, String, Bool, true, false, not, Option, none, some, List, [], ◌∷◌, ◌++◌, ◌===◌,
  ◌==◌, ltb, if◌then◌else◌, find_first, find_many, update_unique, take, skip, length, Action, ◌>>=◌,
  ◌>>◌, gets, modify, pure, throw_if, or_throw, recover, row_refused, record_not_found, not_found,
}
use clickup_sync.Webhooks.Json.{Json, get, ◌otherwise◌, as_text}
use clickup_sync.Webhooks.Store.{DeadLetter, Job, Pipeline, Outside, new_job, add}
use clickup_sync.Webhooks.Events.{min}

-- What is thrown: its message, String(err), and its stack.
pub record Failure : Type 0 where
  pub message : String
  pub printed : String
  pub stack : Option String

abbrev pub entity_id : Json → Option String
entity_id data_of = as_text (
    get "taskId" data_of
    otherwise get "timeEntryId" data_of
    otherwise get "spaceId" data_of
    otherwise get "assigneeId" data_of)

abbrev pub is_pending : DeadLetter → Bool
is_pending d = elim d.retried_at [
  | none ↦ elim d.resolved_at [ none ↦ true | some _ ↦ false ]
  | some _ ↦ false
]

abbrev pub has_dead_letter_id : ℕ → DeadLetter → Bool
has_dead_letter_id id d = d.id == id

abbrev pub dead_row : Job → Failure → ℕ → ℕ → DeadLetter
dead_row job failure now id = record {
  id = id;
  queue_name = job.queue_name;
  job_name = job.job_name;
  entity_type = none;
  entity_id = entity_id job.data_of;
  payload = job.data_of;
  error_message = if failure.message === "" then failure.printed else failure.message;
  error_stack = failure.stack;
  attempts_made = job.attempts_made;
  failed_at = now;
  retried_at = none;
  resolved_at = none;
}

unfoldable pub create_dead_letter : Outside → Job → Failure → ℕ → Action Pipeline (Unit {0})
create_dead_letter outside job failure now = do
  id ← gets (λ s. s.next_dead_letter)
  throw_if (not (outside.takes_dead_letter (dead_row job failure now id))) row_refused
  modify (λ s. record s {
    dead_letters = s.dead_letters ++ (dead_row job failure now id ∷ []);
    next_dead_letter = suc id;
  })

-- `job.attemptsMade < (job.opts?.attempts ?? 1)`
abbrev pub will_retry : Job → Bool
will_retry job = ltb job.attempts_made (elim job.attempts [ some n ↦ n | none ↦ 1 ])

unfoldable pub record_if_exhausted : Outside → Job → Failure → ℕ → Action Pipeline Bool
record_if_exhausted outside job failure now =
    if will_retry job
    then pure false
    else recover (do create_dead_letter outside job failure now; pure true) (pure false)

-- The pending rows of a page, the latest first, and the number of all.
unfoldable pub find_pending : ℕ → ℕ → List DeadLetter → List DeadLetter × ℕ
find_pending limit offset rows =
    let found = find_many is_pending rows in
    (take limit (skip offset (reverse found)), length found)

abbrev pub update_dead_letter : Outside → ℕ → (DeadLetter → DeadLetter) → Action Pipeline (Unit {0})
update_dead_letter outside id f = do
  throw_if (not (outside.takes_dead_letter_mark id)) row_refused
  rows ← gets (λ s. s.dead_letters)
  or_throw (find_first (has_dead_letter_id id) rows) record_not_found
  modify (λ s. record s { dead_letters = update_unique (has_dead_letter_id id) f s.dead_letters })

abbrev pub set_retried : ℕ → DeadLetter → DeadLetter
set_retried now d = record d { retried_at = some now }

abbrev pub set_resolved : ℕ → DeadLetter → DeadLetter
set_resolved now d = record d { resolved_at = some now }

abbrev pub mark_retried : Outside → ℕ → ℕ → Action Pipeline (Unit {0})
mark_retried outside id now = update_dead_letter outside id (set_retried now)

abbrev pub mark_resolved : Outside → ℕ → ℕ → Action Pipeline (Unit {0})
mark_resolved outside id now = update_dead_letter outside id (set_resolved now)

-- `Number(limit) || 50`, of a number that is not negative.
abbrev or_default : Option ℕ → ℕ → ℕ
or_default none d = d
or_default (some zero) d = d
or_default (some (suc n)) d = suc n

unfoldable pub list_dead_letters : Option ℕ → Option ℕ → Action Pipeline (List DeadLetter × ℕ)
list_dead_letters limit offset =
    gets (λ s. find_pending (min (or_default limit 50) 200) (or_default offset 0) s.dead_letters)

module _ (outside : Outside) (default_attempts : ℕ) (now : ℕ) where
  -- A row goes back into its queue, and is marked.
  abbrev pub requeue : DeadLetter → Action Pipeline (Unit {0})
  requeue d = do
    add outside (new_job d.queue_name d.job_name d.payload (some default_attempts))
    mark_retried outside d.id now

  unfoldable pub retry_dead_letter : ℕ → Action Pipeline (Unit {0})
  retry_dead_letter id = do
    rows ← gets (λ s. s.dead_letters)
    d ← or_throw (find_first (has_dead_letter_id id) rows) (not_found "Dead-letter job not found")
    requeue d

  abbrev pub retry_found : Option DeadLetter → ℕ → Action Pipeline ℕ
  retry_found none requeued = pure requeued
  retry_found (some d) requeued = do requeue d; pure (suc requeued)

  -- One round of the loop, which may throw.
  abbrev pub retry_once : DeadLetter → ℕ → Action Pipeline ℕ
  retry_once item requeued = do
    rows ← gets (λ s. s.dead_letters)
    retry_found (find_first (has_dead_letter_id item.id) rows) requeued

  -- A row that fails is skipped.
  abbrev pub retry_item : DeadLetter → ℕ → Action Pipeline ℕ
  retry_item item requeued = recover (retry_once item requeued) (pure requeued)

  -- `for (const item of items)`
  unfoldable pub retry_items : List DeadLetter → ℕ → Action Pipeline ℕ
  retry_items [] requeued = pure requeued
  retry_items (item ∷ items) requeued = do done ← retry_item item requeued; retry_items items done

  unfoldable pub retry_all_dead_letters : Action Pipeline (ℕ × ℕ)
  retry_all_dead_letters = do
    page ← gets (λ s. find_pending 1000 0 s.dead_letters)
    requeued ← retry_items page.0 0
    pure (requeued, length page.0)

unfoldable pub resolve_dead_letter : Outside → ℕ → ℕ → Action Pipeline (Unit {0})
resolve_dead_letter outside now id = do
  rows ← gets (λ s. s.dead_letters)
  or_throw (find_first (has_dead_letter_id id) rows) (not_found "Dead-letter job not found")
  mark_resolved outside id now
