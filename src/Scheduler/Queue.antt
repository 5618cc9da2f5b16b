-- ===== src/Scheduler/Queue.antt =====
-- The live jobs of the queue of backfills under the cron jobs of sync.scheduler.ts.
use clickup_sync.Common.{
  find_many, ℕ, ◌+◌, ◌≤◌, ◌≡◌, refl, inl, inr, Bool, Bool-cases, arith, true, false, not, ◌||◌,
  ◌===◌, String, Option, none, some, List, [], ◌∷◌, ◌++◌, All, bit, count, delete_unique, eq_iff,
}
use clickup_sync.Scheduler.{
  Space, SpaceJob, backfill_clickup_space, sync_list_catalog, is_backfill_of, any_job,
  reconcile_loop, reconcile_recent_updates, recent_job, sync_list_catalogs, reconcile_turn,
  reconcile_one_of, reconcile_archived, add_unless, SchedulerStep, recent_updates, list_catalogs,
  archived, ends, perform, perform_all, clickup_spaces,
}

abbrev pub live_of : String → List SpaceJob → ℕ
live_of id jobs = count (is_backfill_of id) jobs

-- No space has two live backfills.
abbrev pub IsSingle : List SpaceJob → Type 0
IsSingle jobs = (id : String) → live_of id jobs ≤ 1

count-push :
    (p : SpaceJob → Bool) (jobs : List SpaceJob) (job : SpaceJob)
    → count p (jobs ++ (job ∷ [])) ≡ count p jobs + bit (p job)
count-push p [] job = ground arith
count-push p (j ∷ jobs) job = ground (arith, count-push p jobs job)

any_job-count :
    (p : SpaceJob → Bool) (jobs : List SpaceJob) → any_job p jobs ≡ false → count p jobs ≡ 0
any_job-count p [] none_live = refl
any_job-count p (j ∷ jobs) none_live = elim (Bool-cases (p j)) [
  | inl y ↦ absurd (cc (rw y at none_live))
  | inr n ↦ rw n (any_job-count p jobs (rw n at none_live))
]

-- A backfill of a space without a live one joins the queue.
pushed :
    (jobs : List SpaceJob) (id : String) (days entry_days : ℕ) (passes : Bool)
    → IsSingle jobs
    → live_of id jobs ≡ 0
    → IsSingle (jobs ++ (backfill_clickup_space id days entry_days passes ∷ []))
pushed jobs id days entry_days passes single idle other = elim (Bool-cases (id === other)) [
  | inl y ↦
      let same = (eq_iff id other).0 y in
      let here : live_of other jobs ≡ 0 = rw (← same) idle in
      rw
        (
          count-push (is_backfill_of other) jobs (backfill_clickup_space id days entry_days passes),
          y,
        )
        (omega arith)
  | inr n ↦
      let held = single other in
      rw
        (
          count-push (is_backfill_of other) jobs (backfill_clickup_space id days entry_days passes),
          n,
        )
        (omega arith)
]

-- The spaces differ.
abbrev Differ : List Space → Type 0
Differ [] = Unit
Differ (s ∷ spaces) = All (λ (t : Space). (s.id === t.id) ≡ false) spaces × Differ spaces

module _ (takes : SpaceJob → Bool) where
  add_unless-IsSingle :
      (busy : Bool) (jobs : List SpaceJob) (id : String) (days entry_days : ℕ) (passes : Bool)
      → IsSingle jobs
      → (busy ≡ false → live_of id jobs ≡ 0)
      → IsSingle (add_unless takes busy (backfill_clickup_space id days entry_days passes) jobs).1
  add_unless-IsSingle true jobs id days entry_days passes single idle = single
  add_unless-IsSingle false jobs id days entry_days passes single idle =
      elim (Bool-cases (takes (backfill_clickup_space id days entry_days passes))) [
        | inl y ↦ rw y (pushed jobs id days entry_days passes single (idle refl))
        | inr n ↦ rw n single
      ]

  reconcile_turn-IsSingle :
      (turn : Option Space) (jobs : List SpaceJob)
      → IsSingle jobs
      → IsSingle (reconcile_turn takes turn jobs).1
  reconcile_turn-IsSingle none jobs single = single
  reconcile_turn-IsSingle (some space) jobs single =
      add_unless-IsSingle (any_job (is_backfill_of space.id) jobs) jobs space.id
        space.backfill_lookback_days 7 true single (any_job-count (is_backfill_of space.id) jobs)

  reconcile_one_of-IsSingle :
      (now : ℕ) (spaces : List Space) (jobs : List SpaceJob)
      → IsSingle jobs
      → IsSingle (reconcile_one_of takes now spaces jobs).1
  reconcile_one_of-IsSingle now [] jobs single = single
  reconcile_one_of-IsSingle now (space ∷ spaces) jobs single = reconcile_turn-IsSingle _ jobs single

  module _ (is_space_enabled : String → Bool) where
    -- The spaces that were idle before the loop are idle until their turn comes.
    abbrev Idle : List SpaceJob → List SpaceJob → List Space → Type 0
    Idle live jobs spaces =
        All (λ (s : Space). any_job (is_backfill_of s.id) live ≡ false → live_of s.id jobs ≡ 0)
          spaces

    push-Idle :
        (live jobs : List SpaceJob) (space : Space) (spaces : List Space)
        → All (λ (t : Space). (space.id === t.id) ≡ false) spaces
        → Idle live jobs spaces
        → Idle live (jobs ++ (recent_job space ∷ [])) spaces
    push-Idle live jobs space [] apart idle = tt
    push-Idle live jobs space (t ∷ spaces) apart idle = (
      λ b.
          let before = idle.0 b in
          rw (count-push (is_backfill_of t.id) jobs (recent_job space), apart.0) (omega arith),
      push-Idle live jobs space spaces apart.1 idle.1,
    )

    reconcile_loop-IsSingle :
        (live : List SpaceJob) (spaces : List Space) (jobs : List SpaceJob)
        → Differ spaces
        → IsSingle jobs
        → Idle live jobs spaces
        → IsSingle (reconcile_loop takes is_space_enabled live spaces jobs).1
    reconcile_loop-IsSingle live [] jobs differ single idle = single
    reconcile_loop-IsSingle live (space ∷ spaces) jobs differ single idle =
        elim (Bool-cases
          (any_job (is_backfill_of space.id) live || not (is_space_enabled space.id))) [
            | inl y ↦ rw y (reconcile_loop-IsSingle live spaces jobs differ.1 single idle.1)
            | inr n ↦
                let free : any_job (is_backfill_of space.id) live ≡ false = ground (arith, n) in
                elim (Bool-cases (takes (recent_job space))) [
                  | inl y ↦
                      rw (n, y)
                        (reconcile_loop-IsSingle live spaces (jobs ++ (recent_job space ∷ []))
                          differ.1 (pushed jobs space.id 1 7 false single (idle.0 free))
                          (push-Idle live jobs space spaces differ.0 idle.1))
                  | inr refused ↦ rw (n, refused) single
                ]
          ]

    live-Idle : (jobs : List SpaceJob) (spaces : List Space) → Idle jobs jobs spaces
    live-Idle jobs [] = tt
    live-Idle jobs (space ∷ spaces) =
        (any_job-count (is_backfill_of space.id) jobs, live-Idle jobs spaces)

    catalogs_live :
        (spaces : List Space) (jobs : List SpaceJob) (id : String)
        → live_of id (sync_list_catalogs takes is_space_enabled spaces jobs).1 ≡ live_of id jobs
    catalogs_live [] jobs id = refl
    catalogs_live (space ∷ spaces) jobs id = elim (Bool-cases (is_space_enabled space.id)) [
      | inr n ↦ rw n (catalogs_live spaces jobs id)
      | inl y ↦ elim (Bool-cases (takes (sync_list_catalog space.id))) [
        | inr refused ↦ rw (y, refused) refl
        | inl accepted ↦
            let rest = catalogs_live spaces (jobs ++ (sync_list_catalog space.id ∷ [])) id in
            let here = count-push (is_backfill_of id) jobs (sync_list_catalog space.id) in
            rw (y, accepted) (omega arith)
      ]
    ]

ended :
    (p : SpaceJob → Bool) (jobs : List SpaceJob) (id : String)
    → live_of id (delete_unique p jobs) ≤ live_of id jobs
ended p [] id = omega arith
ended p (job ∷ jobs) id = ground (arith, ended p jobs id)

perform-IsSingle :
    (step : SchedulerStep) (jobs : List SpaceJob) → IsSingle jobs → IsSingle (perform step jobs)
unfolding reconcile_recent_updates reconcile_archived
perform-IsSingle (recent_updates takes enabled) jobs single =
    reconcile_loop-IsSingle takes enabled jobs clickup_spaces jobs
      ((refl, (refl, tt)), ((refl, tt), (tt, tt))) single
      (live-Idle takes enabled jobs clickup_spaces)
perform-IsSingle (list_catalogs takes enabled) jobs single =
    λ id. rw (catalogs_live takes enabled clickup_spaces jobs id) (single id)
perform-IsSingle (archived takes enabled now) jobs single =
    reconcile_one_of-IsSingle takes now (find_many (λ (s : Space). enabled s.id) clickup_spaces)
      jobs single
perform-IsSingle (ends p) jobs single =
    λ id. let fewer = ended p jobs id in let most = single id in omega arith

-- If no space has two live backfills, none gets a second one from the cron jobs, in any order and with
-- any settings, whatever jobs the queue refuses or ends.
pub perform_all-IsSingle :
    (steps : List SchedulerStep) (jobs : List SpaceJob)
    → IsSingle jobs
    → IsSingle (perform_all steps jobs)
perform_all-IsSingle [] jobs single = single
perform_all-IsSingle (step ∷ steps) jobs single =
    perform_all-IsSingle steps (perform step jobs) (perform-IsSingle step jobs single)
