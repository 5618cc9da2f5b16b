-- ===== src/Cost/Recalculation/Batches.antt =====
-- The recalculation as a whole: in batches and with the cache, it gives every row in scope the cost
-- that the calculator gives it alone.
use clickup_sync.Common.{
  ℕ, zero, suc, ◌+◌, ◌≤◌, ◌<◌, ◌≡◌, refl, ap, ◌∙◌, inl, inr, String, Bool, Option, none, some, List,
  [], ◌∷◌, ltb, if◌then◌else◌, length, find_many, update_unique, arith, Bool-cases, map,
}
use clickup_sync.Rates.Table.{RateRow}
use clickup_sync.Cost.Calculator.{RateCache, CostPreferences, Cost, calculate}
use clickup_sync.Cost.Cache.{Coherent, calculate-Coherent}
use clickup_sync.Cost.Recalculation.{
  TimeEntry, has_entry_id, in_scope, after_cursor, take, put_cost, last_id, request_of,
  recost_batch, after_batch, recalculate_from, recalculate,
}
use clickup_sync.Cost.Recalculation.Progress.{
  drop, drop_tail, length-drop, DistinctEntries, recosted, recosted-suc, after_cursor-recosted,
  recosted_all,
}

module _ {Hours : Type 0} where
  length-take : (n : ℕ) (rows : List (TimeEntry Hours)) → length (take n rows) ≤ length rows
  length-take zero rows = omega arith
  length-take (suc n) [] = omega arith
  length-take (suc n) (e ∷ rest) =
      let ih : length (take n rest) ≤ length rest = length-take n rest in omega (arith, ih)

  -- A short batch is all that was left.
  take_short :
      (n : ℕ) (rows : List (TimeEntry Hours))
      → length (take n rows) < n
      → length (take n rows) ≡ length rows
  take_short zero rows h = absurd (omega (arith, h))
  take_short (suc n) [] h = refl
  take_short (suc n) (e ∷ rest) h =
      let ih : length (take n rest) ≡ length rest = take_short n rest (omega (arith, h)) in
      omega (arith, ih)

module _ {Hours : Type 0} (rounded_product : ℕ → Hours → ℕ) (prefs : CostPreferences)
    (rates : List RateRow) (due_date : Option String → Option ℕ) (assignee : Option String) where
  -- What a row costs, by itself.
  abbrev pub price : TimeEntry Hours → Cost
  price e = (calculate rounded_product prefs rates (request_of due_date e) none).0

  module _ (rows : List (TimeEntry Hours)) (d : DistinctEntries rows) where
    abbrev scoped : List (TimeEntry Hours)
    scoped = find_many (in_scope assignee) rows

    abbrev part : ℕ → List (TimeEntry Hours)
    part k = recosted assignee price k rows

    abbrev AtCursor : ℕ → Option String → Type 0
    AtCursor k cursor = after_cursor cursor (find_many (in_scope assignee) (part k)) ≡ drop k scoped

    batch_lem :
        (n k j : ℕ) (left : List (TimeEntry Hours)) (cursor : Option String)
        (cache : Option RateCache)
        → drop k scoped ≡ left
        → j ≡ k + length (take n left)
        → AtCursor k cursor
        → Coherent rates cache
        → ((recost_batch rounded_product prefs rates due_date (take n left) cache (part k)).1
            ≡ part j)
          × (Coherent rates
                (recost_batch rounded_product prefs rates due_date (take n left) cache (part k)).0
              × AtCursor j (last_id cursor (take n left)))
    batch_lem zero k j left cursor cache h e at_cursor c =
        let same : j ≡ k = omega (arith, e) in rw same (refl, (c, at_cursor))
    batch_lem (suc n) k j [] cursor cache h e at_cursor c =
        let same : j ≡ k = omega (arith, e) in rw same (refl, (c, at_cursor))
    batch_lem (suc n) k j (x ∷ more) cursor cache h e at_cursor c =
        let found =
          calculate-Coherent rounded_product prefs rates (request_of due_date x) cache c in
        let ih =
          batch_lem n (suc k) j more (some x.time_entry_id)
            (calculate rounded_product prefs rates (request_of due_date x) cache).1
            (drop_tail k scoped x more h) (omega (arith, e))
            (after_cursor-recosted assignee price k rows x more d h) found.1 in
        let step : update_unique (has_entry_id x.time_entry_id)
              (put_cost (calculate rounded_product prefs rates (request_of due_date x) cache).0)
              (part k)
            ≡ part (suc k) =
          rw found.0 (recosted-suc assignee price k rows x more d h) in
        rw (step, recost_batch) ih

    -- The result of the whole run.
    abbrev finished : Option (ℕ × ℕ × List (TimeEntry Hours))
    finished = some (length scoped, length scoped, part (length scoped))

    round_lem :
        (fuel b k : ℕ) (left : List (TimeEntry Hours)) (cursor : Option String)
        (cache : Option RateCache)
        → drop k scoped ≡ left
        → k ≤ length scoped
        → length scoped < suc fuel + k
        → AtCursor k cursor
        → Coherent rates cache
        → ((j : ℕ) (cursor' : Option String) (cache' : Option RateCache)
            → j ≤ length scoped
            → length scoped < fuel + j
            → AtCursor j cursor'
            → Coherent rates cache'
            → recalculate_from rounded_product prefs rates due_date fuel
                (suc b)
                assignee
                cursor'
                cache'
                j
                j
                (part j)
              ≡ finished)
        → let page = take (suc b) left in
          let n = length page in
          let (cache', rows') =
            recost_batch rounded_product prefs rates due_date page cache (part k) in
          after_batch
            (suc b)
            page
            (k, k, part k)
            (k + n, k + n, rows')
            (recalculate_from rounded_product prefs rates due_date fuel
              (suc b)
              assignee
              (last_id cursor page)
              cache'
              (k + n)
              (k + n)
              rows')
          ≡ finished
    round_lem fuel b k [] cursor cache h low enough at_cursor c next =
        let all_done : k ≡ length scoped = omega (arith, length-drop k scoped low, ap length h) in
        rw all_done refl
    round_lem fuel b k (x ∷ more) cursor cache h low enough at_cursor c next =
        let page = take (suc b) (x ∷ more) in
        let j = k + length page in
        let step = batch_lem (suc b) k j (x ∷ more) cursor cache h refl at_cursor c in
        let total = length-drop k scoped low in
        let fits = length-take (suc b) (x ∷ more) in
        elim (Bool-cases (ltb (length page) (suc b))) [
          | inl short ↦
              let last = take_short (suc b) (x ∷ more) (ground (arith, short)) in
              let ends : j ≡ length scoped = omega (arith, last, total, ap length h) in
              rw short (rw step.0 (rw ends refl))
          | inr full ↦
              let long : b < length page = ground (arith, full) in
              rw full (
                rw step.0 (
                  next j _ _ (omega (arith, fits, total, ap length h)) (omega (arith, long, enough))
                    step.1.1 step.1.0))
        ]

    loop_lem :
        (fuel b k : ℕ) (cursor : Option String) (cache : Option RateCache)
        → k ≤ length scoped
        → length scoped < fuel + k
        → AtCursor k cursor
        → Coherent rates cache
        → recalculate_from rounded_product prefs rates due_date fuel
            (suc b)
            assignee
            cursor
            cache
            k
            k
            (part k)
          ≡ finished
    unfolding recalculate_from
    loop_lem zero b k cursor cache low enough at_cursor c = absurd (omega (arith, low, enough))
    loop_lem (suc fuel) b k cursor cache low enough at_cursor c = rw at_cursor (
        round_lem fuel b k (drop k scoped) cursor cache refl low enough at_cursor c
          (loop_lem fuel b))

    length-find_many :
        (test : TimeEntry Hours → Bool) (xs : List (TimeEntry Hours))
        → length (find_many test xs) ≤ length xs
    length-find_many test [] = omega arith
    length-find_many test (x ∷ xs) = ground (arith, length-find_many test xs)

    -- Over rows with unique ids, a recalculation ends, counts the rows in scope as scanned and as
    -- updated, and gives each of them the cost that the calculator gives it alone, without a cache;
    -- every other row, and everything else of a row, stays as it was.
    pub recalculate_lem :
        recalculate rounded_product prefs rates due_date assignee rows
        ≡ some (
          length (find_many (in_scope assignee) rows),
          length (find_many (in_scope assignee) rows),
          map (λ e. if in_scope assignee e then put_cost (price e) e else e) rows,
        )
    unfolding recalculate
    recalculate_lem =
        loop_lem (suc (length rows)) 999 0 none (some []) (omega arith)
          (omega (arith, length-find_many (in_scope assignee) rows)) refl tt
        ∙ ap (λ r. some (length scoped, length scoped, r))
            (recosted_all assignee price (length scoped) rows refl)
