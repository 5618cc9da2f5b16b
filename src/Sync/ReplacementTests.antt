-- ===== src/Sync/ReplacementTests.antt =====
-- An entry of an agency's account that is tagged with an assignee, and attempts that fail on the way.
use Prim.Native.String.{compare}
use Prim.Native.Nat.{Ordering}
use clickup_sync.Common.{
  ℕ, ◌*◌, ◌≤◌, ◌≡◌, refl, ◌≢◌, ok, Result, String, Bool, true, false, Option, some, List, [], ◌∷◌,
  map,
}
use clickup_sync.Cost.Calculator.{calculate, resolve_rate, find_rate}
use clickup_sync.Sync.Store.{EntryRow, ReplacementJob}
use clickup_sync.Sync.TimeEntries.{delete_by_time_entry_id}
use clickup_sync.Sync.Replacement.{
  ReplacementStatus, replaced, skipped, Exchange, Attempt, Answer, answered, refused, lost,
  replace_entry, try_all,
}
use clickup_sync.Sync.Removal.{IsRemoved, replace_entry-IsRemoved}
use clickup_sync.Sync.Once.{given_for, try_all_once}
use clickup_sync.Sync.Tests.{before, stored, prefs}

abbrev job : ReplacementJob ℕ ℕ
job = record {
  job_id = "replace-e1";
  entry = (stored "e1" "u1").entry;
  task_id = "t1";
  start_ms = 5000;
  original_user_id = "u1";
  tags = "ahmad" ∷ [];
}

abbrev exchange : Exchange ℕ ℕ
exchange = record {
  db = before;
  replacements = [];
  remote_ids = "e1" ∷ "e2" ∷ [];
  created_for = [];
}

abbrev attempt : String → Bool → Answer → Attempt ℕ
attempt new audit deletion = record {
  creation = answered;
  created = record { id = new; details = 0 };
  takes_audit_row = audit;
  deletion = deletion;
}

abbrev earlier : String → String → Bool
earlier a b = elim (compare a b) [ Ordering.gt ↦ false | _ ↦ true ]

abbrev replace : Attempt ℕ → Exchange ℕ ℕ → Result ReplacementStatus × Exchange ℕ ℕ
replace a w = replace_entry earlier (λ name. name) (λ cents hours. cents * hours) prefs [] a job w

abbrev tried : List (Attempt ℕ) → Option ReplacementStatus × Exchange ℕ ℕ
tried attempts =
    try_all earlier (λ name. name) (λ cents hours. cents * hours) prefs [] job attempts exchange

abbrev ids : Exchange ℕ ℕ → List String
ids w = map (λ (row : EntryRow ℕ ℕ). row.entry.time_entry_id) w.db.entries

replace_at_once :
    ((replace (attempt "e9" true answered) exchange).0 ≡ ok replaced)
    × (ids (replace (attempt "e9" true answered) exchange).1 ≡ "e2" ∷ "e9" ∷ [])
    × ((replace (attempt "e9" true answered) exchange).1.remote_ids ≡ "e2" ∷ "e9" ∷ [])
unfolding replace_entry calculate resolve_rate find_rate delete_by_time_entry_id
replace_at_once = (refl, refl, refl)

-- The deletion fails once: the retry leaves no row of the replacement.
resumed :
    ((tried (attempt "e9" true refused ∷ attempt "e10" true answered ∷ [])).0 ≡ some skipped)
    × (ids (tried (attempt "e9" true refused ∷ attempt "e10" true answered ∷ [])).1 ≡ "e2" ∷ [])
    × ((tried (attempt "e9" true refused ∷ attempt "e10" true answered ∷ [])).1.remote_ids
        ≡ "e2" ∷ "e9" ∷ [])
unfolding try_all replace_entry calculate resolve_rate find_rate delete_by_time_entry_id
resumed = (refl, refl, refl)

-- The audit row is refused once: the retry creates a second replacement.
created_twice :
    (tried (attempt "e9" false answered ∷ attempt "e10" true answered ∷ [])).1.remote_ids
    ≡ "e2" ∷ "e9" ∷ "e10" ∷ []
unfolding try_all replace_entry calculate resolve_rate find_rate delete_by_time_entry_id
created_twice = refl

replace_entry-IsRemoved_example :
    IsRemoved "e1" replaced (replace (attempt "e9" true answered) exchange).1
replace_entry-IsRemoved_example =
    replace_entry-IsRemoved earlier (λ name. name) (λ cents hours. cents * hours) prefs []
      (attempt "e9" true answered) job exchange replaced replace_at_once.0

abbrev attempts : List (Attempt ℕ)
attempts = attempt "e9" true refused ∷ attempt "e10" true lost ∷ attempt "e11" true answered ∷ []

try_all_once_example : given_for "e1" (tried attempts).1 ≤ 1
try_all_once_example =
    try_all_once earlier (λ name. name) (λ cents hours. cents * hours) prefs [] job attempts
      exchange (sure, (sure, (sure, tt))) refl
  where
    no_loss : answered ≢ lost
    no_loss e = absurd (cc e)

    sure : (answered ≢ lost) × (true ≡ true)
    sure = (no_loss, refl)
