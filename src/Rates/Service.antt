-- ===== src/Rates/Service.antt =====
-- rates.service.ts: each change of a rate, and the recalculation of costs that it queues.
use clickup_sync.Common.{
  ℕ, String, Bool, true, false, Option, none, some, List, [], ◌∷◌, ◌++◌, ok, Action, ◌>>=◌, ◌>>◌,
  pure,
}
use clickup_sync.Rates.Table.{
  RateRow, RateData, RateTable, RatePatch, create_with_succession, find_by_id, update_rate,
  remove_rate,
}

-- The table, and the assignees of the RECALCULATE_COSTS jobs on the maintenance queue, in order.
pub record RatesState : Type 0 where
  pub table : RateTable
  pub recalculations : List String

-- What the service reads and calls: the preference `autoRecalcOnRateChange`, and whether the queue
-- takes a job. A queue that does not take it throws.
pub record RatesEnv : Type 0 where
  pub auto_recalc : Bool
  pub queue_accepts : Bool

-- A call of the repository.
abbrev pub on_table : {A : Type 0} → Action RateTable A → Action RatesState A
on_table m s = let (r, t) = m s.table in (r, record s { table = t })

module _ (env : RatesEnv) where
  -- The `catch` logs, and the mutation goes on.
  abbrev pub enqueue_recalc : String → Action RatesState (Unit {0})
  enqueue_recalc id s = elim env.auto_recalc [
    | false ↦ (ok tt, s)
    | true ↦ elim env.queue_accepts [
      | false ↦ (ok tt, s)
      | true ↦ (ok tt, record s { recalculations = s.recalculations ++ id ∷ [] })
    ]
  ]

  unfoldable pub create : RateData → Action RatesState RateRow
  create d = do
    rate ← on_table (create_with_succession d)
    enqueue_recalc rate.assignee_id
    pure rate

  unfoldable pub update : ℕ → RatePatch → Action RatesState RateRow
  update id p = do rate ← on_table (update_rate id p); enqueue_recalc rate.assignee_id; pure rate

  abbrev pub enqueue_existing : Option RateRow → Action RatesState (Unit {0})
  enqueue_existing none = pure tt
  enqueue_existing (some r) = enqueue_recalc r.assignee_id

  unfoldable pub remove : ℕ → Action RatesState (Unit {0})
  remove id = do
    existing ← on_table (find_by_id id)
    on_table (remove_rate id)
    enqueue_existing existing
