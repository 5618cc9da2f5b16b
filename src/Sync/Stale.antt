-- ===== src/Sync/Stale.antt =====
-- The pruning of one slice, and the steps after it.
use clickup_sync.Common.{
  ◌≡◌, refl, String, Bool, true, false, not, ◌&&◌, Option, none, some, List, [], ◌∷◌, ◌===◌, eq_iff,
  Bool-cases, inl, inr, find_first, find_first-passes, delete_many, queue_refused,
}
use clickup_sync.Common.Frames.{IsFrame, Keeps, Keeps-bind, Keeps-pure, Keeps-throw_if}
use clickup_sync.Sync.Store.{EntryRow, SyncDb, ReplacementJob}
use clickup_sync.Sync.TimeEntries.{has_entry_id, is_stale, includes}
use clickup_sync.Sync.Service.{Upserted, replacement_job, enqueue_one, enqueue_matching}

and_true : (a : Bool) → (a && true) ≡ false → a ≡ false
and_true true h = h
and_true false h = refl

module _ {Hours Details : Type 0} where
  -- The time entries are the same before and after.
  abbrev pub SameEntries : SyncDb Hours Details → SyncDb Hours Details → Type 0
  SameEntries s t = t.entries ≡ s.entries

  pub same_entries : IsFrame SameEntries
  same_entries = (λ s. refl, λ s t u first second. rw second first)

  enqueue_one-SameEntries :
      (takes : ReplacementJob Hours Details → Bool) (wanted : Bool)
      (job : ReplacementJob Hours Details)
      → Keeps SameEntries (enqueue_one takes wanted job)
  enqueue_one-SameEntries takes false job = Keeps-pure same_entries
  enqueue_one-SameEntries takes true job =
      Keeps-bind same_entries (Keeps-throw_if same_entries (not (takes job)) queue_refused)
        (λ _. record { kept = λ s. refl })

  pub enqueue_matching-SameEntries :
      (takes : ReplacementJob Hours Details → Bool) (active : List String)
      (fallback : Option String) (upserted : List (Upserted Hours Details))
      → Keeps SameEntries (enqueue_matching takes active fallback upserted)
  enqueue_matching-SameEntries takes active fallback [] = Keeps-pure same_entries
  enqueue_matching-SameEntries takes active fallback (u ∷ rest) =
      Keeps-bind same_entries (enqueue_one-SameEntries takes _ (replacement_job fallback u))
        (λ _. enqueue_matching-SameEntries takes active fallback rest)

  -- A row of the id in the slice.
  abbrev pub is_found : (EntryRow Hours Details → Bool) → String → EntryRow Hours Details → Bool
  is_found slice id row = slice row && (row.entry.time_entry_id === id)

  pub find_first-prune :
      (slice : EntryRow Hours Details → Bool) (keep : List String) (id : String)
      → includes keep id ≡ false
      → (rows : List (EntryRow Hours Details))
      → find_first (is_found slice id) (delete_many (is_stale slice keep) rows) ≡ none
  find_first-prune slice keep id gone [] = refl
  find_first-prune slice keep id gone (x ∷ rows) = elim (Bool-cases (slice x)) [
    | inr outside ↦ rw outside (rw outside (find_first-prune slice keep id gone rows))
    | inl inside ↦ elim (Bool-cases (x.entry.time_entry_id === id)) [
      | inl own ↦
          let same : x.entry.time_entry_id ≡ id = (eq_iff x.entry.time_entry_id id).0 own in
          let stale : includes keep x.entry.time_entry_id ≡ false = rw same gone in
          rw (inside, stale) (find_first-prune slice keep id gone rows)
      | inr other ↦ elim (Bool-cases (includes keep x.entry.time_entry_id)) [
        | inl kept ↦
            rw (inside, kept) (rw (inside, other) (find_first-prune slice keep id gone rows))
        | inr stale ↦ rw (inside, stale) (find_first-prune slice keep id gone rows)
      ]
    ]
  ]

  found_falsely :
      (p q : EntryRow Hours Details → Bool) (rows : List (EntryRow Hours Details))
      (x : EntryRow Hours Details)
      → find_first p rows ≡ some x
      → find_first q rows ≡ none
      → q x ≡ false
  found_falsely p q [] x h none_left = absurd (cc h)
  found_falsely p q (y ∷ rows) x h none_left = elim (Bool-cases (q y)) [
    | inl hit ↦ absurd (cc (rw hit at none_left))
    | inr miss ↦ elim (Bool-cases (p y)) [
      | inl first ↦ let same : y ≡ x = cc (rw first at h) in rw (← same) miss
      | inr later ↦ found_falsely p q rows x (rw later at h) (rw miss at none_left)
    ]
  ]

  pub none_found :
      (slice : EntryRow Hours Details → Bool) (id : String) (rows : List (EntryRow Hours Details))
      (x : EntryRow Hours Details)
      → find_first (has_entry_id id) rows ≡ some x
      → find_first (is_found slice id) rows ≡ none
      → slice x ≡ false
  none_found slice id rows x h none_left =
      let own : (x.entry.time_entry_id === id) ≡ true =
        find_first-passes (has_entry_id id) rows x h in
      let missed : (slice x && (x.entry.time_entry_id === id)) ≡ false =
        found_falsely (has_entry_id id) (is_found slice id) rows x h none_left in
      and_true (slice x) (rw own at missed)
