-- ===== src/Sync/Found.antt =====
-- What persistEntries returns is of entries that were fetched.
use clickup_sync.Common.{
  ℕ, ◌≡◌, refl, String, Bool, true, false, Option, none, some, List, [], ◌∷◌, ◌===◌, All, Action,
  ◌>>=◌, gets, truthy,
}
use clickup_sync.Common.Returns.{Returns, Returns-bind, Returns-any, Returns-pure}
use clickup_sync.Rates.Table.{RateRow}
use clickup_sync.Cost.Calculator.{RateCache, CostPreferences}
use clickup_sync.Sync.Store.{
  NormalizedTimeEntry, EntryRow, SyncDb, ClickupTimeEntry, Clickup, is_text_id,
}
use clickup_sync.Sync.TimeEntries.{upsert_entry, normalize_with, normalized, includes}
use clickup_sync.Sync.Service.{
  Upserted, price, resolve_tasks, distinct_task_ids, upserted_of, persist_one, persist_loop,
  persist_entries, is_unresolved, due_of,
}
use clickup_sync.Sync.Handlers.{kept_ids}

module _ {Hours Details : Type 0} (id : String) where
  -- No row was written under the id.
  abbrev pub Lacks : List (Upserted Hours Details) → Type 0
  Lacks upserted = All (λ u. (u.normalized.time_entry_id === id) ≡ false) upserted

  -- No fetched entry has the id.
  abbrev pub Unfetched : List (ClickupTimeEntry Hours Details) → Type 0
  Unfetched fetched = All (λ e. is_text_id id (truthy e.id) ≡ false) fetched

  pub includes-kept_ids :
      (upserted : List (Upserted Hours Details))
      → Lacks upserted
      → includes (kept_ids upserted) id ≡ false
  includes-kept_ids [] missing = refl
  includes-kept_ids (u ∷ upserted) missing = rw missing.0 (includes-kept_ids upserted missing.1)

  wrote : (row : EntryRow Hours Details) → Returns (λ _. Unit {0}) (upsert_entry row)
  wrote row = Returns-any

  resolved :
      (clickup : Clickup Hours Details) (ids : List String)
      → Returns (λ _. Unit {0}) (resolve_tasks clickup ids)
  resolved clickup ids = Returns-any

  read_tasks : Returns (λ _. Unit {0}) (gets (λ (s : SyncDb Hours Details). s.tasks))
  read_tasks = Returns-any

  module _ (tag_name : String → String) (rounded_product : ℕ → Hours → ℕ) (prefs : CostPreferences)
      (rates : List RateRow) where
    persist_one-Lacks :
        (due_date : Option String → Option ℕ) (skipped : Bool)
        (n : NormalizedTimeEntry Hours Details) (e : ClickupTimeEntry Hours Details)
        (cache : Option RateCache)
        (next : Option RateCache → Action (SyncDb Hours Details) (List (Upserted Hours Details)))
        → (n.time_entry_id === id) ≡ false
        → ((c : Option RateCache) → Returns Lacks (next c))
        → Returns Lacks
            (persist_one tag_name rounded_product prefs rates due_date skipped n e cache next)
    persist_one-Lacks due_date true n e cache next other more = more cache
    persist_one-Lacks due_date false n e cache next other more =
        Returns-bind (λ _. Unit {0})
          (wrote (record {
            entry = n;
            cost = (price tag_name rounded_product prefs rates (due_date n.task_id) n cache).0;
          }))
          (λ _ _.
            Returns-bind Lacks
              (more (price tag_name rounded_product prefs rates (due_date n.task_id) n cache).1)
              (λ done h. Returns-pure (upserted_of tag_name n e ∷ done) (other, h)))

    persist_loop-Lacks :
        (due_date : Option String → Option ℕ) (resolvable : List String)
        (fetched : List (ClickupTimeEntry Hours Details)) (cache : Option RateCache)
        → Unfetched fetched
        → Returns Lacks
            (persist_loop tag_name rounded_product prefs rates due_date resolvable fetched cache)
    persist_loop-Lacks due_date resolvable [] cache missing = Returns-pure [] tt
    persist_loop-Lacks due_date resolvable (e ∷ fetched) cache missing =
        round (truthy e.id) missing.0
          (λ c. persist_loop-Lacks due_date resolvable fetched c missing.1)
      where
        round :
            (found : Option String)
            → is_text_id id found ≡ false
            → ((c : Option RateCache)
                → Returns Lacks (
                    persist_loop tag_name rounded_product prefs rates due_date resolvable fetched
                      c))
            → Returns Lacks (do
              n ← normalize_with found e
              persist_one tag_name rounded_product prefs rates due_date
                  (is_unresolved resolvable n.task_id)
                  n
                  e
                  cache
                  (persist_loop tag_name rounded_product prefs rates due_date resolvable fetched))
        round none other more = record { returned = λ s a h. absurd (cc h) }
        round (some i) other more = record {
          returned =
              (persist_one-Lacks due_date (is_unresolved resolvable (truthy e.task_id))
                (normalized i e) e cache
                (persist_loop tag_name rounded_product prefs rates due_date resolvable fetched)
                other more).returned;
        }

    pub persist_entries-Lacks :
        (clickup : Clickup Hours Details) (fetched : List (ClickupTimeEntry Hours Details))
        → Unfetched fetched
        → Returns Lacks (persist_entries tag_name rounded_product prefs rates clickup fetched)
    unfolding persist_entries
    persist_entries-Lacks clickup fetched missing =
        Returns-bind (λ _. Unit {0}) (resolved clickup (distinct_task_ids fetched []))
          (λ resolvable _.
            Returns-bind (λ _. Unit {0}) read_tasks
              (λ tasks _.
                persist_loop-Lacks (due_of prefs.rate_matching tasks resolvable) resolvable fetched
                  (some []) missing))
