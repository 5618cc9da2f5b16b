-- ===== src/Sync/Once.antt =====
-- However often the job of a replacement is tried, ClickUp gets one replacement.
use clickup_sync.Common.{
  ℕ, ◌≤◌, ◌≡◌, refl, ◌≢◌, Bool, true, String, Option, none, some, List, [], ◌∷◌, ◌++◌, ◌===◌, arith,
  eq_refl, bit, count, All, Result, ok, err, Action, ◌>>=◌, pure, find_first, internal_error,
}
use clickup_sync.Common.Triples.{
  Leads, Leads-bind, Leads-pure, Leads-gets, Leads-modify, Leads-throw, Meets, Meets-always,
}
use clickup_sync.Rates.Table.{RateRow}
use clickup_sync.Cost.Calculator.{CostPreferences}
use clickup_sync.Sync.Store.{SyncDb, ReplacementJob, TagAssignee, is_some}
use clickup_sync.Sync.TimeEntries.{delete_by_time_entry_id}
use clickup_sync.Sync.Replacement.{
  ReplacementStatus, replaced, skipped, no_mapping, Replacement, Exchange, Attempt, CreatedEntry,
  answered, refused, lost, Answer, has_original, on_db, delete_original, create_time_entry,
  write_audit_row, audit_row, create_replacement, store_entry, replace_mapped, replace_found,
  replace_entry, find_mapping, retried, try_all,
}

is_some-append :
    (id : String) (rows : List Replacement) (row : Replacement)
    → has_original id row ≡ true
    → is_some (find_first (has_original id) (rows ++ (row ∷ []))) ≡ true
is_some-append id [] row own = rw own refl
is_some-append id (x ∷ rows) row own = ground (arith, is_some-append id rows row own)

module _ {Hours Details : Type 0} (id : String) where
  -- How many entries ClickUp was given for the entry, and whether there is an audit row.
  abbrev pub given_for : Exchange Hours Details → ℕ
  given_for w = count (λ x. x === id) w.created_for

  abbrev noted : Exchange Hours Details → ℕ
  noted w = bit (is_some (find_first (has_original id) w.replacements))

  abbrev IsNoted : Exchange Hours Details → Type 0
  IsNoted w = given_for w ≤ noted w

  abbrev Untried : Exchange Hours Details → Type 0
  Untried w = given_for w ≡ 0

  abbrev GivenOnce : Exchange Hours Details → Type 0
  GivenOnce w = given_for w ≤ 1

  delete_original-IsNoted :
      (answer : Answer) → Leads IsNoted (delete_original answer id) (λ _. IsNoted) IsNoted
  delete_original-IsNoted answered = Leads-modify _ (λ w h. h)
  delete_original-IsNoted refused = Leads-throw internal_error (λ w h. h)
  delete_original-IsNoted lost =
      Leads-bind (λ _. IsNoted) (Leads-modify _ (λ w h. h))
        (λ _. Leads-throw internal_error (λ w h. h))

  on_db-IsNoted :
      {A : Type 0} (m : Action (SyncDb Hours Details) A)
      → Leads IsNoted (on_db m) (λ _. IsNoted) IsNoted
  on_db-IsNoted m = record {
    led = λ w h. Meets-always (λ _. IsNoted) IsNoted (m w.db).0 _ (λ _. h) h;
  }

  last_delete :
      (status : ReplacementStatus)
      → Leads IsNoted
          (on_db (delete_by_time_entry_id id) >>= (λ _. pure status))
          (λ _. IsNoted)
          IsNoted
  last_delete status =
      Leads-bind (λ _. IsNoted) (on_db-IsNoted (delete_by_time_entry_id id))
        (λ _. Leads-pure status (λ w h. h))

  create_time_entry-GivenOnce :
      (answer : Answer) (new : CreatedEntry Details)
      → answer ≢ lost
      → Leads Untried (create_time_entry answer new id) (λ _. GivenOnce) IsNoted
  create_time_entry-GivenOnce answered new sure = record {
    led = λ w h. rw (eq_refl id) (omega (arith, h));
  }
  create_time_entry-GivenOnce refused new sure = record { led = λ w h. omega (arith, h) }
  create_time_entry-GivenOnce lost new sure = absurd (sure refl)

  write_audit_row-IsNoted :
      (a : Attempt Details) (row : Replacement)
      → a.takes_audit_row ≡ true
      → has_original id row ≡ true
      → Leads GivenOnce (write_audit_row a row) (λ _. IsNoted) IsNoted
  write_audit_row-IsNoted a row taken own =
      rw taken (record { led = λ w h. rw (is_some-append id w.replacements row own) h })

module _ {Hours Details : Type 0} (text_before : String → String → Bool)
    (to_lower_case : String → String) (rounded_product : ℕ → Hours → ℕ) (prefs : CostPreferences)
    (rates : List RateRow) (job : ReplacementJob Hours Details) where
  abbrev id : String
  id = job.entry.time_entry_id

  -- Every creation that is carried out is answered, and the audit row is taken.
  abbrev pub IsSure : Attempt Details → Type 0
  IsSure a = (a.creation ≢ lost) × (a.takes_audit_row ≡ true)

  create_replacement-IsNoted :
      (a : Attempt Details) (mapping : String × TagAssignee)
      → IsSure a
      → Leads (Untried id) (create_replacement a job mapping) (λ _. IsNoted id) (IsNoted id)
  create_replacement-IsNoted a mapping sure =
      Leads-bind (λ _. GivenOnce id) (create_time_entry-GivenOnce id a.creation a.created sure.0)
        (λ new.
          Leads-bind (λ _. IsNoted id)
            (write_audit_row-IsNoted id a (audit_row job mapping new.id) sure.1 (eq_refl id))
            (λ _. Leads-pure new (λ w h. h)))

  replace_mapped-IsNoted :
      (a : Attempt Details) (mapping : Option (String × TagAssignee))
      → IsSure a
      → Leads
          (Untried id)
          (replace_mapped text_before to_lower_case rounded_product prefs rates a job mapping)
          (λ _. IsNoted id)
          (IsNoted id)
  replace_mapped-IsNoted a none sure = Leads-pure no_mapping (λ w h. omega (arith, h))
  replace_mapped-IsNoted a (some mapping) sure =
      Leads-bind (λ _. IsNoted id) (create_replacement-IsNoted a mapping sure)
        (λ new.
          Leads-bind (λ _. IsNoted id) (delete_original-IsNoted id a.deletion)
            (λ _.
              Leads-bind (λ _. IsNoted id)
                (on_db-IsNoted id (
                  store_entry text_before to_lower_case rounded_product prefs rates job
                    mapping.1.clickup_user_id new))
                (λ _. last_delete id replaced)))

  replace_found-IsNoted :
      (a : Attempt Details) (existing : Option Replacement)
      → IsSure a
      → Leads
          (λ w. IsNoted id w × (find_first (has_original id) w.replacements ≡ existing))
          (replace_found text_before to_lower_case rounded_product prefs rates a job existing)
          (λ _. IsNoted id)
          (IsNoted id)
  replace_found-IsNoted a none sure =
      Leads-bind (λ _. Untried id)
        (Leads-gets (λ w. find_mapping text_before to_lower_case job.tags w.db)
          (λ w h. let bound : given_for id w ≤ 0 = rw h.1 at h.0 in omega (arith, bound)))
        (λ mapping. replace_mapped-IsNoted a mapping sure)
  replace_found-IsNoted a (some row) sure = record {
    led = λ w h.
        (Leads-bind (λ _. IsNoted id) (delete_original-IsNoted id a.deletion)
            (λ _. last_delete id skipped)).led
          w h.0;
  }

  replace_entry-IsNoted :
      (a : Attempt Details)
      → IsSure a
      → Leads
          (IsNoted id)
          (replace_entry text_before to_lower_case rounded_product prefs rates a job)
          (λ _. IsNoted id)
          (IsNoted id)
  unfolding replace_entry
  replace_entry-IsNoted a sure = record {
    led = λ w h.
        (replace_found-IsNoted a (find_first (has_original id) w.replacements) sure).led w
          (h, refl);
  }

  retried-IsNoted :
      (r : Result ReplacementStatus)
      (next : Exchange Hours Details → Option ReplacementStatus × Exchange Hours Details)
      (w : Exchange Hours Details)
      → Meets (λ _. IsNoted id) (IsNoted id) r w
      → ((t : Exchange Hours Details) → IsNoted id t → IsNoted id (next t).1)
      → IsNoted id (retried text_before to_lower_case rounded_product prefs rates r next w).1
  retried-IsNoted (ok status) next w h rest = h
  retried-IsNoted (err e) next w h rest = rest w h

  try_all-IsNoted :
      (attempts : List (Attempt Details)) (w : Exchange Hours Details)
      → All IsSure attempts
      → IsNoted id w
      → IsNoted id (try_all text_before to_lower_case rounded_product prefs rates job attempts w).1
  unfolding try_all
  try_all-IsNoted [] w sure h = h
  try_all-IsNoted (a ∷ attempts) w sure h =
      retried-IsNoted _ (try_all text_before to_lower_case rounded_product prefs rates job attempts)
        _ ((replace_entry-IsNoted a sure.0).led w h) (λ t. try_all-IsNoted attempts t sure.1)

  -- However often the job is tried, and wherever an attempt fails, ClickUp is given one replacement of the
  -- entry at most, if no answer to a creation is lost and the database takes the audit rows.
  pub try_all_once :
      (attempts : List (Attempt Details)) (w : Exchange Hours Details)
      → All IsSure attempts
      → given_for id w ≡ 0
      → given_for id
          (try_all text_before to_lower_case rounded_product prefs rates job attempts w).1
        ≤ 1
  try_all_once attempts w sure none_yet =
      ground (arith, try_all-IsNoted attempts w sure (omega (arith, none_yet)))
