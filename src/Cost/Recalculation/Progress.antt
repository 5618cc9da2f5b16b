-- ===== src/Cost/Recalculation/Progress.antt =====
-- The table part of the way through a recalculation.
use clickup_sync.Common.{
  ℕ, zero, suc, ◌+◌, ◌≤◌, ◌≡◌, refl, ap, inl, inr, String, false, Option, none, some, List, [], ◌∷◌,
  if◌then◌else◌, length, find_many, update_unique, All, arith, eq_iff, Bool-cases, map,
}
use clickup_sync.Cost.Calculator.{Cost}
use clickup_sync.Cost.Recalculation.{TimeEntry, has_entry_id, in_scope, after_cursor, put_cost}

module _ {Hours : Type 0} where
  abbrev pub drop : ℕ → List (TimeEntry Hours) → List (TimeEntry Hours)
  drop zero rows = rows
  drop (suc n) [] = []
  drop (suc n) (e ∷ rest) = drop n rest

  pub drop_tail :
      (k : ℕ) (rows : List (TimeEntry Hours)) (e : TimeEntry Hours) (more : List (TimeEntry Hours))
      → drop k rows ≡ e ∷ more
      → drop (suc k) rows ≡ more
  drop_tail zero [] e more h = cc
  drop_tail zero (x ∷ rest) e more h = cc
  drop_tail (suc k) [] e more h = cc
  drop_tail (suc k) (x ∷ rest) e more h = drop_tail k rest e more h

  pub length-drop :
      (k : ℕ) (rows : List (TimeEntry Hours))
      → k ≤ length rows
      → length (drop k rows) + k ≡ length rows
  length-drop zero rows h = omega arith
  length-drop (suc k) [] h = absurd (omega (arith, h))
  length-drop (suc k) (x ∷ rest) h =
      let ih : length (drop k rest) + k ≡ length rest = length-drop k rest (omega (arith, h)) in
      omega (arith, ih)

  abbrev pub OtherEntry : String → TimeEntry Hours → Type 0
  OtherEntry id e = has_entry_id id e ≡ false

  -- The ids are unique.
  abbrev pub DistinctEntries : List (TimeEntry Hours) → Type 0
  DistinctEntries [] = Unit
  DistinctEntries (e ∷ rest) = All (OtherEntry e.time_entry_id) rest × DistinctEntries rest

  -- A new cost does not change what is in scope.
  pub in_scope-put_cost :
      (a : Option String) (c : Cost) (e : TimeEntry Hours)
      → in_scope a (put_cost c e) ≡ in_scope a e
  in_scope-put_cost none c e = refl
  in_scope-put_cost (some id) c e = refl

  module _ (assignee : Option String) where
    -- The test of an update against a row that is not the one.
    other :
        (e x : TimeEntry Hours)
        → has_entry_id x.time_entry_id e ≡ false
        → has_entry_id e.time_entry_id x ≡ false
    other e x h =
        ground
          (arith, eq_iff e.time_entry_id x.time_entry_id, eq_iff x.time_entry_id e.time_entry_id)

    other_in_scope :
        (k : ℕ) (id : String) (rows : List (TimeEntry Hours)) (e : TimeEntry Hours)
        (more : List (TimeEntry Hours))
        → All (OtherEntry id) rows
        → drop k (find_many (in_scope assignee) rows) ≡ e ∷ more
        → has_entry_id id e ≡ false
    other_in_scope zero id [] e more o h = cc
    other_in_scope (suc k) id [] e more o h = cc
    other_in_scope zero id (x ∷ rest) e more o h = elim (Bool-cases (in_scope assignee x)) [
      | inr n ↦ other_in_scope zero id rest e more o.1 (rw n at h)
      | inl y ↦ let same : x ≡ e = cc (rw y at h) in rw (← same) o.0
    ]
    other_in_scope (suc k) id (x ∷ rest) e more o h = elim (Bool-cases (in_scope assignee x)) [
      | inr n ↦ other_in_scope (suc k) id rest e more o.1 (rw n at h)
      | inl y ↦ other_in_scope k id rest e more o.1 (rw y at h)
    ]

    module _ (price : TimeEntry Hours → Cost) where
      abbrev pub reprice : TimeEntry Hours → TimeEntry Hours
      reprice e = put_cost (price e) e

      -- The table when the first rows in scope, so many, have their new costs.
      abbrev pub recosted : ℕ → List (TimeEntry Hours) → List (TimeEntry Hours)
      recosted zero rows = rows
      recosted (suc k) [] = []
      recosted (suc k) (e ∷ rest) =
          let out = e ∷ recosted (suc k) rest in
          let done = reprice e ∷ recosted k rest in if in_scope assignee e then done else out

      -- One more row.
      pub recosted-suc :
          (k : ℕ) (rows : List (TimeEntry Hours)) (e : TimeEntry Hours)
          (more : List (TimeEntry Hours))
          → DistinctEntries rows
          → drop k (find_many (in_scope assignee) rows) ≡ e ∷ more
          → update_unique (has_entry_id e.time_entry_id) (put_cost (price e)) (recosted k rows)
            ≡ recosted (suc k) rows
      recosted-suc zero [] e more d h = cc
      recosted-suc (suc k) [] e more d h = cc
      recosted-suc zero (x ∷ rest) e more d h = elim (Bool-cases (in_scope assignee x)) [
        | inr n ↦
            let later = other_in_scope zero x.time_entry_id rest e more d.0 (rw n at h) in
            rw (n, other e x later) (ap (◌∷◌ x) (recosted-suc zero rest e more d.1 (rw n at h)))
        | inl y ↦
            let same : x ≡ e = cc (rw y at h) in
            rw (y, same, (eq_iff e.time_entry_id e.time_entry_id).1 refl) refl
      ]
      recosted-suc (suc k) (x ∷ rest) e more d h = elim (Bool-cases (in_scope assignee x)) [
        | inr n ↦
            let later = other_in_scope (suc k) x.time_entry_id rest e more d.0 (rw n at h) in
            rw (n, other e x later) (ap (◌∷◌ x) (recosted-suc (suc k) rest e more d.1 (rw n at h)))
        | inl y ↦
            let later = other_in_scope k x.time_entry_id rest e more d.0 (rw y at h) in
            rw (y, other e x later)
              (ap (◌∷◌ (reprice x)) (recosted-suc k rest e more d.1 (rw y at h)))
      ]

      -- Behind the row that was changed last are the rows that are left.
      pub after_cursor-recosted :
          (k : ℕ) (rows : List (TimeEntry Hours)) (e : TimeEntry Hours)
          (more : List (TimeEntry Hours))
          → DistinctEntries rows
          → drop k (find_many (in_scope assignee) rows) ≡ e ∷ more
          → after_cursor
              (some e.time_entry_id)
              (find_many (in_scope assignee) (recosted (suc k) rows))
            ≡ drop (suc k) (find_many (in_scope assignee) rows)
      after_cursor-recosted zero [] e more d h = cc
      after_cursor-recosted (suc k) [] e more d h = cc
      after_cursor-recosted zero (x ∷ rest) e more d h = elim (Bool-cases (in_scope assignee x)) [
        | inr n ↦ rw n (rw n (after_cursor-recosted zero rest e more d.1 (rw n at h)))
        | inl y ↦
            let same : x ≡ e = cc (rw y at h) in
            rw y (
              rw (in_scope-put_cost assignee (price x) x, y)
                (rw (same, (eq_iff e.time_entry_id e.time_entry_id).1 refl) refl))
      ]
      after_cursor-recosted (suc k) (x ∷ rest) e more d h =
          elim (Bool-cases (in_scope assignee x)) [
            | inr n ↦ rw n (rw n (after_cursor-recosted (suc k) rest e more d.1 (rw n at h)))
            | inl y ↦
                let later = other_in_scope k x.time_entry_id rest e more d.0 (rw y at h) in
                rw y (
                  rw (in_scope-put_cost assignee (price x) x, y)
                    (rw (other e x later) (after_cursor-recosted k rest e more d.1 (rw y at h))))
          ]

      -- When no row in scope is left, every one has its new cost.
      pub recosted_all :
          (k : ℕ) (rows : List (TimeEntry Hours))
          → k ≡ length (find_many (in_scope assignee) rows)
          → recosted k rows ≡ map (λ e. if in_scope assignee e then reprice e else e) rows
      recosted_all zero [] h = refl
      recosted_all (suc k) [] h = refl
      recosted_all zero (x ∷ rest) h = elim (Bool-cases (in_scope assignee x)) [
        | inr n ↦ rw n (ap (◌∷◌ x) (recosted_all zero rest (rw n at h)))
        | inl y ↦ absurd (omega (arith, rw y at h))
      ]
      recosted_all (suc k) (x ∷ rest) h = elim (Bool-cases (in_scope assignee x)) [
        | inr n ↦ rw n (ap (◌∷◌ x) (recosted_all (suc k) rest (rw n at h)))
        | inl y ↦ rw y (ap (◌∷◌ (reprice x)) (recosted_all k rest (omega (arith, rw y at h))))
      ]
