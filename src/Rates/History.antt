-- ===== src/Rates/History.antt =====
-- Any sequence of mutations through RatesService.
use mathlib.Core.List.{append-nil}
use clickup_sync.Common.{
  refl, Bool-cases, inl, inr, bad_request, ℕ, ◌≡◌, String, ◌&&◌, Option, none, some, List, [], ◌∷◌,
  ◌++◌, if◌then◌else◌, arith, find_first, All, Result, ok, err, ◌>>◌, continue, pure,
}
use clickup_sync.Rates.Table.{
  RateRow, RateData, RateTable, RatePatch, create_with_succession, update_rate, remove_rate, has_id,
  find_by_id,
}
use clickup_sync.Rates.Capping.{IsSound, IsAdmissible}
use clickup_sync.Rates.Creation.{create_with_succession_lem, create_with_succession-IsSound}
use clickup_sync.Rates.Plan.{starts_too_late}
use clickup_sync.Rates.Succession.{any_blocked}
use clickup_sync.Rates.Upkeep.{HasPatchDates, update_rate-IsSound, remove_rate-IsSound}
use clickup_sync.Rates.Service.{
  RatesState, RatesEnv, enqueue_recalc, enqueue_existing, create, update, remove,
}

pub data Mutation : Type 0 where
  creates : RateData → Mutation
  updates : ℕ → RatePatch → Mutation
  removes : ℕ → Mutation

-- What the controller's conversions and the DTOs ensure of a request.
abbrev pub IsWellFormed : Mutation → Type 0
IsWellFormed (creates d) = IsAdmissible d
IsWellFormed (updates id p) = HasPatchDates p
IsWellFormed (removes id) = Unit

abbrev pub AllWellFormed : List Mutation → Type 0
AllWellFormed = All IsWellFormed

-- The assignee whose rate was changed, or the exception.
abbrev pub assignee : Result RateRow → Result (Option String)
assignee (ok r) = ok (some r.assignee_id)
assignee (err e) = err e

abbrev pub assignee_of : Option RateRow → Option String
assignee_of none = none
assignee_of (some r) = some r.assignee_id

abbrev pub removed : Result (Unit {0}) → Option RateRow → Result (Option String)
removed (ok _) o = ok (assignee_of o)
removed (err e) o = err e

-- A mutation of the table alone.
unfoldable pub on_table_alone : Mutation → RateTable → Result (Option String) × RateTable
on_table_alone (creates d) t = let (r, t') = create_with_succession d t in (assignee r, t')
on_table_alone (updates id p) t = let (r, t') = update_rate id p t in (assignee r, t')
on_table_alone (removes id) t =
    let (r, t') = remove_rate id t in (removed r (find_first (has_id id) t.rows), t')

unfoldable pub perform : RatesEnv → Mutation → RatesState → Result (Unit {0}) × RatesState
perform env (creates d) s = (do create env d; pure tt) s
perform env (updates id p) s = (do update env id p; pure tt) s
perform env (removes id) s = remove env id s

abbrev jobs_for : RatesEnv → Result (Option String) → List String
jobs_for env (err e) = []
jobs_for env (ok none) = []
jobs_for env (ok (some id)) = if env.auto_recalc && env.queue_accepts then id ∷ [] else []

abbrev pub outcome : Result (Option String) → Result (Unit {0})
outcome (ok _) = ok tt
outcome (err e) = err e

module _ (env : RatesEnv) (s : RatesState) (t : RateTable) where
  abbrev after : Result (Option String) → Result (Unit {0}) × RatesState
  after r = (outcome r, record { table = t; recalculations = s.recalculations ++ jobs_for env r })

  -- What follows the change of a row ...
  after_change :
      (r : Result RateRow)
      → continue
          (continue r
            (λ rate. do enqueue_recalc env rate.assignee_id; pure rate)
            (record s { table = t })).0
          (λ _. pure tt)
          (continue r
            (λ rate. do enqueue_recalc env rate.assignee_id; pure rate)
            (record s { table = t })).1
        ≡ after (assignee r)
  after_change (ok r) = ground (arith, append-nil s.recalculations)
  after_change (err e) = ground (arith, append-nil s.recalculations)

  -- ... and the removal of one.
  after_removal :
      (r : Result (Unit {0})) (o : Option RateRow)
      → continue r (λ _. enqueue_existing env o) (record s { table = t }) ≡ after (removed r o)
  after_removal (ok _) none = ground (arith, append-nil s.recalculations)
  after_removal (ok _) (some r) = ground (arith, append-nil s.recalculations)
  after_removal (err e) o = ground (arith, append-nil s.recalculations)

-- Whatever the settings and the queue do, a mutation through the service returns or throws as the
-- change of the table does, and the table is what that change makes it. One recalculation of the
-- assignee is queued after a change that succeeded, if the preference is on and the queue takes it.
pub perform-on_table_alone :
    (env : RatesEnv) (m : Mutation) (s : RatesState)
    → let (r, t) = on_table_alone m s.table in
      perform env m s
      ≡ (outcome r, record { table = t; recalculations = s.recalculations ++ jobs_for env r })
unfolding perform on_table_alone create update remove find_by_id
perform-on_table_alone env (creates d) s =
    after_change env s (create_with_succession d s.table).1 (create_with_succession d s.table).0
perform-on_table_alone env (updates id p) s =
    after_change env s (update_rate id p s.table).1 (update_rate id p s.table).0
perform-on_table_alone env (removes id) s =
    after_removal env s (remove_rate id s.table).1 (remove_rate id s.table).0
      (find_first (has_id id) s.table.rows)

-- The mutations one after another; an exception ends its own request only.
unfoldable pub run : RatesEnv → List Mutation → RatesState → RatesState
run env [] s = s
run env (m ∷ rest) s = run env rest (perform env m s).1

on_table_alone-IsSound :
    (m : Mutation) (t : RateTable) → IsWellFormed m → IsSound t → IsSound (on_table_alone m t).1
unfolding on_table_alone
on_table_alone-IsSound (creates d) t w v = create_with_succession-IsSound d w t v
on_table_alone-IsSound (updates id p) t w v = update_rate-IsSound id p t v w
on_table_alone-IsSound (removes id) t w v = remove_rate-IsSound id t v

-- What the constraints demand of the table holds after any mutations.
run-IsSound :
    (env : RatesEnv) (ms : List Mutation) (s : RatesState)
    → AllWellFormed ms
    → IsSound s.table
    → IsSound (run env ms s).table
unfolding run
run-IsSound env [] s w v = v
run-IsSound env (m ∷ rest) s w v =
    run-IsSound env rest (perform env m s).1 w.1
      (rw perform-on_table_alone (on_table_alone-IsSound m s.table w.0 v))

-- Whatever well-formed mutations went before, on a table that was in order: a rate is created, unless
-- a rate of the assignee that it meets starts on its first day or later, which is a 400. A creation
-- never runs into the constraints of the database.
pub run-creates :
    (env : RatesEnv) (ms : List Mutation) (d : RateData) (s : RatesState)
    → AllWellFormed ms
    → IsAdmissible d
    → IsSound s.table
    → (perform env (creates d) (run env ms s)).0 ≡ (
        if any_blocked d (run env ms s).table.rows
        then err (bad_request starts_too_late)
        else ok tt)
unfolding on_table_alone
run-creates env ms d s w a v =
    let sound = run-IsSound env ms s w v in
    elim (Bool-cases (any_blocked d (run env ms s).table.rows)) [
      | inl late ↦
          rw
            (
              perform-on_table_alone env (creates d) (run env ms s),
              create_with_succession_lem d a (run env ms s).table sound,
              late,
            )
            refl
      | inr free ↦
          rw
            (
              perform-on_table_alone env (creates d) (run env ms s),
              create_with_succession_lem d a (run env ms s).table sound,
              free,
            )
            refl
    ]
