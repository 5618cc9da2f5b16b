-- ===== src/Sync/Removal.antt =====
-- An entry that was replaced is gone, in ClickUp and in the table.
use clickup_sync.Common.{
  ℕ, ◌≡◌, refl, Bool, false, String, Option, none, some, List, [], ◌∷◌, ◌===◌, Bool-cases, inl, inr,
  ok, Action, ◌>>=◌, gets, pure, find_first, find_first-delete_many, internal_error,
}
use clickup_sync.Common.Triples.{
  Leads, Leads-bind, Leads-pure, Leads-modify, Leads-throw, Meets-always, Meets-ok,
}
use clickup_sync.Rates.Table.{RateRow}
use clickup_sync.Cost.Calculator.{CostPreferences}
use clickup_sync.Sync.Store.{SyncDb, ReplacementJob, TagAssignee}
use clickup_sync.Sync.TimeEntries.{has_entry_id, delete_by_time_entry_id, includes}
use clickup_sync.Sync.Replacement.{
  ReplacementStatus, replaced, skipped, no_mapping, Replacement, Exchange, Attempt, answered,
  refused, lost, Answer, has_original, without, on_db, delete_original, create_replacement,
  store_entry, replace_mapped, replace_found, replace_entry, find_mapping,
}

includes-without : (id : String) (ids : List String) → includes (without id ids) id ≡ false
includes-without id [] = refl
includes-without id (x ∷ ids) = elim (Bool-cases (x === id)) [
  | inl e ↦ rw e (includes-without id ids)
  | inr e ↦ rw e (rw e (includes-without id ids))
]

module _ {Hours Details : Type 0} (id : String) where
  abbrev pub IsRemoteGone : Exchange Hours Details → Type 0
  IsRemoteGone w = includes w.remote_ids id ≡ false

  -- Neither ClickUp nor the table has the entry, if it was replaced now or before.
  abbrev pub IsRemoved : ReplacementStatus → Exchange Hours Details → Type 0
  IsRemoved no_mapping w = Unit
  IsRemoved replaced w = IsRemoteGone w × (find_first (has_entry_id id) w.db.entries ≡ none)
  IsRemoved skipped w = IsRemoteGone w × (find_first (has_entry_id id) w.db.entries ≡ none)

  abbrev Any : Exchange Hours Details → Type 0
  Any w = Unit

  delete_original-IsRemoteGone :
      (answer : Answer) → Leads Any (delete_original answer id) (λ _. IsRemoteGone) Any
  delete_original-IsRemoteGone answered = Leads-modify _ (λ w _. includes-without id w.remote_ids)
  delete_original-IsRemoteGone refused = Leads-throw internal_error (λ w _. tt)
  delete_original-IsRemoteGone lost =
      Leads-bind (λ _. Any) (Leads-modify _ (λ w _. tt))
        (λ _. Leads-throw internal_error (λ w _. tt))

  on_db-IsRemoteGone :
      {A : Type 0} (m : Action (SyncDb Hours Details) A)
      → Leads IsRemoteGone (on_db m) (λ _. IsRemoteGone) Any
  on_db-IsRemoteGone m = record {
    led = λ w h. Meets-always (λ _. IsRemoteGone) Any (m w.db).0 _ (λ _. h) tt;
  }

  last_delete :
      (status : ReplacementStatus)
      → ((w : Exchange Hours Details)
          → IsRemoteGone w
          → find_first (has_entry_id id) w.db.entries ≡ none
          → IsRemoved status w)
      → Leads IsRemoteGone (on_db (delete_by_time_entry_id id) >>= (λ _. pure status)) IsRemoved Any
  unfolding delete_by_time_entry_id
  last_delete status h = record {
    led = λ w gone. h _ gone (find_first-delete_many (has_entry_id id) w.db.entries);
  }

  anything : {A : Type 0} (m : Action (Exchange Hours Details) A) → Leads Any m (λ _. Any) Any
  anything m = record { led = λ w h. Meets-always (λ _. Any) Any (m w).0 (m w).1 (λ _. tt) tt }

module _ {Hours Details : Type 0} (text_before : String → String → Bool)
    (to_lower_case : String → String) (rounded_product : ℕ → Hours → ℕ) (prefs : CostPreferences)
    (rates : List RateRow) (a : Attempt Details) (job : ReplacementJob Hours Details) where
  abbrev id : String
  id = job.entry.time_entry_id

  replace_mapped-IsRemoved :
      (mapping : Option (String × TagAssignee))
      → Leads
          (Any id)
          (replace_mapped text_before to_lower_case rounded_product prefs rates a job mapping)
          (IsRemoved id)
          (Any id)
  replace_mapped-IsRemoved none = Leads-pure no_mapping (λ w _. tt)
  replace_mapped-IsRemoved (some mapping) =
      Leads-bind (λ _. Any id) (anything id (create_replacement a job mapping))
        (λ new.
          Leads-bind (λ _. IsRemoteGone id) (delete_original-IsRemoteGone id a.deletion)
            (λ _.
              Leads-bind (λ _. IsRemoteGone id)
                (on_db-IsRemoteGone id (
                  store_entry text_before to_lower_case rounded_product prefs rates job
                    mapping.1.clickup_user_id new))
                (λ _. last_delete id replaced (λ w h k. (h, k)))))

  replace_found-IsRemoved :
      (existing : Option Replacement)
      → Leads
          (Any id)
          (replace_found text_before to_lower_case rounded_product prefs rates a job existing)
          (IsRemoved id)
          (Any id)
  replace_found-IsRemoved none =
      Leads-bind (λ _. Any id)
        (anything id (gets (λ w. find_mapping text_before to_lower_case job.tags w.db)))
        replace_mapped-IsRemoved
  replace_found-IsRemoved (some row) =
      Leads-bind (λ _. IsRemoteGone id) (delete_original-IsRemoteGone id a.deletion)
        (λ _. last_delete id skipped (λ w h k. (h, k)))

  -- After an attempt that replaces the entry, or finds it replaced, neither ClickUp nor the table has the
  -- original.
  pub replace_entry-IsRemoved :
      (w : Exchange Hours Details) (status : ReplacementStatus)
      → (replace_entry text_before to_lower_case rounded_product prefs rates a job w).0 ≡ ok status
      → IsRemoved job.entry.time_entry_id status
          (replace_entry text_before to_lower_case rounded_product prefs rates a job w).1
  unfolding replace_entry
  replace_entry-IsRemoved w status =
      Meets-ok (IsRemoved id) (Any id) _ _ status
        ((replace_found-IsRemoved (find_first (has_original id) w.replacements)).led w tt)
