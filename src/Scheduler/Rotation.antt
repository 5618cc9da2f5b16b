-- ===== src/Scheduler/Rotation.antt =====
-- The turns of reconcileArchived of sync.scheduler.ts.
use native.Mathlib.Nat.{mod-lt, mod-eq_of_lt, mod-add-mod, mod-mod, add-mod_right}
use clickup_sync.Common.{
  get_elem?, ℕ, zero, suc, ◌+◌, ◌-◌, ◌*◌, ◌/◌, ◌%◌, ◌<◌, ◌≡◌, refl, ◌∙◌, sym, inl, inr, leb, Bool,
  Bool-cases, arith, if◌then◌else◌, ◌==◌, true, false, String, some, List, [], ◌∷◌, ◌++◌, length,
  find_many, ok,
}
use clickup_sync.Scheduler.{
  Space, SpaceJob, is_backfill_of, any_job, rotation_index, reconcile_archived, reconcile_one_of,
  archived_job,
}

-- The days from `day` on until it is the turn of the space at `i`, of `count` spaces.
abbrev pub days_until : ℕ → ℕ → ℕ → ℕ
days_until day i count = if leb (day % count) i then i - day % count else i + count - day % count

turns :
    (day i count r : ℕ)
    → i < count
    → r < count
    → day % count ≡ r
    → (days_until day i count < count) × ((day + days_until day i count) % count ≡ i)
turns day i count r small below at = elim (Bool-cases (leb r i)) [
  | inl y ↦
      let sum : r + (i - r) ≡ i = ground arith in
      rw (at, y)
        (ground arith, sym (mod-add-mod day count (i - r)) ∙ rw (at, sum) (mod-eq_of_lt small))
  | inr n ↦
      let sum : r + (i + count - r) ≡ i + count = ground arith in
      rw (at, n)
        (
          ground arith,
          sym (mod-add-mod day count (i + count - r))
              ∙ rw (at, sum) (add-mod_right i count ∙ mod-eq_of_lt small),
        )
]

day_of : (day t : ℕ) → t < 86400000 → (day * 86400000 + t) / 86400000 ≡ day
day_of day t small = omega arith

rotation_index_lem :
    (day t count : ℕ)
    → t < 86400000
    → 0 < count
    → rotation_index (day * 86400000 + t) count ≡ day % count
rotation_index_lem day t count small positive =
    let some_left : (count == 0) ≡ false = ground arith in
    rw (some_left, day_of day t small) (add-mod_right (day % count) count ∙ mod-mod day count)

get_elem?-length :
    (spaces : List Space) (i : ℕ) (space : Space)
    → get_elem? spaces i ≡ some space
    → i < length spaces
get_elem?-length [] i space at = cc
get_elem?-length (s ∷ spaces) zero space at = omega arith
get_elem?-length (s ∷ spaces) (suc i) space at =
    let rest = get_elem?-length spaces i space at in omega arith

module _ (takes : SpaceJob → Bool) (is_space_enabled : String → Bool) where
  turn_taken :
      (enabled : List Space) (now i : ℕ) (space : Space) (jobs : List SpaceJob)
      → get_elem? enabled i ≡ some space
      → rotation_index now (length enabled) ≡ i
      → any_job (is_backfill_of space.id) jobs ≡ false
      → takes (archived_job space) ≡ true
      → reconcile_one_of takes now enabled jobs ≡ (ok tt, jobs ++ (archived_job space ∷ []))
  turn_taken [] now i space jobs at turn idle accepted = cc at
  turn_taken (s ∷ enabled) now i space jobs at turn idle accepted =
      rw (turn, at, idle, accepted) refl

  -- The archived pass comes to each enabled space: counted from any day, and at any time of the day,
  -- the space at place `i` of the enabled ones gets a backfill with the archived pass on the day that
  -- `days_until` tells, which is less days away than there are enabled spaces, if no backfill of the
  -- space is live then and the queue takes the job.
  pub reconcile_archived-turn :
      (spaces : List Space) (day t i : ℕ) (space : Space) (jobs : List SpaceJob)
      → t < 86400000
      → get_elem? (find_many (λ (s : Space). is_space_enabled s.id) spaces) i ≡ some space
      → any_job (is_backfill_of space.id) jobs ≡ false
      → takes (archived_job space) ≡ true
      → (days_until day i (length (find_many (λ (s : Space). is_space_enabled s.id) spaces))
          < length (find_many (λ (s : Space). is_space_enabled s.id) spaces))
        × (reconcile_archived takes is_space_enabled spaces
              ((day
                    + days_until day i
                        (length (find_many (λ (s : Space). is_space_enabled s.id) spaces)))
                  * 86400000
                + t)
              jobs
            ≡ (ok tt, jobs ++ (archived_job space ∷ [])))
  unfolding reconcile_archived
  reconcile_archived-turn spaces day t i space jobs small at idle accepted =
      let enabled = find_many (λ (s : Space). is_space_enabled s.id) spaces in
      let inside = get_elem?-length enabled i space at in
      let positive : 0 < length enabled = omega arith in
      let turn =
        turns day i (length enabled) (day % length enabled) inside (mod-lt day positive) refl in
      (
        turn.0,
        turn_taken enabled _ i space jobs at
            (rotation_index_lem (day + days_until day i (length enabled)) t (length enabled) small
                positive
              ∙ turn.1)
            idle accepted,
      )
