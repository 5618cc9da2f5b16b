-- ===== src/Client/Streams.antt =====
-- `streamAllTasksBySpace` and `getAllTasksBySpace` of clickup.client.ts: the tasks in the order in
-- which they are handed on, page after page.
use clickup_sync.Common.{
  ℕ, Bool, true, false, ◌||◌, String, Option, none, some, List, [], ◌∷◌, ◌++◌,
}
use clickup_sync.Client.Pages.{fetch_list_tasks}
use clickup_sync.Client.Windows.{push_new}

abbrev pub states_of : Bool → List Bool
states_of true = true ∷ false ∷ []
states_of false = true ∷ []

module _ {T : Type 0} where
  abbrev add_read : Option (List T × Bool) → List T × Bool → Option (List T × Bool)
  add_read none read = none
  add_read (some (more, truncated)) (tasks, cut) = some (tasks ++ more, cut || truncated)

  -- What is read first, and what is read behind it.
  abbrev pub read_then : Option (List T × Bool) → Option (List T × Bool) → Option (List T × Bool)
  read_then none rest = none
  read_then (some read) rest = add_read rest read

  -- `pages id archived n` is the answer for page `n` of a list.
  abbrev pub scan_states :
      (String → Bool → ℕ → Option (List T)) → String → List Bool → Option (List T × Bool)
  scan_states pages id [] = some ([], false)
  scan_states pages id (archived ∷ states) =
      read_then (fetch_list_tasks (pages id archived)) (scan_states pages id states)

  abbrev pub scan_lists :
      (String → Bool → ℕ → Option (List T)) → List (String × Bool) → Option (List T × Bool)
  scan_lists pages [] = some ([], false)
  scan_lists pages ((id, archived_container) ∷ lists) =
      read_then (scan_states pages id (states_of archived_container)) (scan_lists pages lists)

  abbrev pub archived_pass :
      Bool
      → (String → Bool → ℕ → Option (List T))
      → Option (List (String × Bool))
      → Option (List T × Bool)
  archived_pass false pages lists = some ([], false)
  archived_pass true pages none = none
  archived_pass true pages (some lists) = scan_lists pages lists

  -- The active pass pages through the space as a list is paged through.
  unfoldable pub stream_all_tasks_by_space :
      Bool
      → (ℕ → Option (List T))
      → (String → Bool → ℕ → Option (List T))
      → Option (List (String × Bool))
      → Option (List T × Bool)
  stream_all_tasks_by_space include_archived active pages lists =
      read_then (fetch_list_tasks active) (archived_pass include_archived pages lists)

  abbrev pub without_repeats : (T → Option String) → Option (List T × Bool) → Option (List T × Bool)
  without_repeats id_of none = none
  without_repeats id_of (some (tasks, truncated)) = some ((push_new id_of tasks []).0, truncated)

  unfoldable pub get_all_tasks_by_space :
      (T → Option String)
      → Bool
      → (ℕ → Option (List T))
      → (String → Bool → ℕ → Option (List T))
      → Option (List (String × Bool))
      → Option (List T × Bool)
  get_all_tasks_by_space id_of include_archived active pages lists =
      without_repeats id_of (stream_all_tasks_by_space include_archived active pages lists)
