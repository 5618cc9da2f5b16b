-- ===== src/Client/Tests.antt =====
-- A reply after two limited ones, two pages of tasks, and a window of two slices.
use clickup_sync.Common.{
  ℕ, zero, suc, ◌*◌, ◌≤◌, ◌≡◌, refl, String, Bool, true, false, Option, none, some, List, [], ◌∷◌,
  All, length, count, bit, take, skip, leb, arith, find_many,
}
use clickup_sync.Client.Requests.{
  Reply, answer, limited, request, request_from, Answers, request_lem,
}
use clickup_sync.Client.Pages.{fetch_list_tasks, pages_from, fetch_list_tasks_lem}
use clickup_sync.Client.Windows.{fetch_window, fetch_slices, has_id}
use clickup_sync.Client.Windows.Union.{Gives, is_within, is_held, fetch_window_lem}
use clickup_sync.Client.Streams.{get_all_tasks_by_space, stream_all_tasks_by_space}

abbrev replies : ℕ → Reply ℕ
replies zero = limited (some 120)
replies (suc zero) = limited none
replies (suc (suc n)) = answer 7

-- Two minutes are cut to one.
request-waits : request replies ≡ (some 7, 60000 ∷ 2000 ∷ [])
unfolding request request_from
request-waits = refl

abbrev always_limited : ℕ → Reply ℕ
always_limited n = limited (some 1)

request-gives_up : request always_limited ≡ (none, 1000 ∷ 1000 ∷ 1000 ∷ [])
unfolding request request_from
request-gives_up = refl

request_example :
    (length (request replies).1 ≤ 3)
    × All (λ ms. ms ≤ 60000) (request replies).1
    × ((a : ℕ) → Answers a 3 0 replies → (request replies).0 ≡ some a)
request_example = request_lem replies

abbrev numbers : List ℕ
numbers = 1 ∷ 2 ∷ 3 ∷ []

abbrev one_page : ℕ → Option (List ℕ)
one_page n = some (take 100 (skip (100 * n) numbers))

fetch_list_tasks_example :
    fetch_list_tasks one_page ≡ some (take 500000 numbers, leb 500000 (length numbers))
fetch_list_tasks_example = fetch_list_tasks_lem numbers one_page (λ n. refl)

-- An entry on the border of two slices.
abbrev entries : List (String × ℕ)
entries = ("a", 1000) ∷ ("b", 31536000000) ∷ ("c", 40000000000) ∷ ("d", 90000000000) ∷ []

abbrev id_of : String × ℕ → Option String
id_of (id, t) = some id

abbrev at_ms : String × ℕ → ℕ
at_ms (id, t) = t

abbrev serve : ℕ → ℕ → Option (List (String × ℕ))
serve from until = some (find_many (is_within id_of at_ms from until) entries)

fetch_window-border :
    fetch_window id_of 0 70000000000 serve
    ≡ some (("a", 1000) ∷ ("b", 31536000000) ∷ ("c", 40000000000) ∷ [])
unfolding fetch_window fetch_slices
fetch_window-border = refl

-- A window of one instant is not asked for.
fetch_window-instant : fetch_window id_of 1000 1000 serve ≡ some []
unfolding fetch_window fetch_slices
fetch_window-instant = refl

fetch_window_example :
    Gives
      (λ out.
        (id : String)
        → count (has_id id_of id) out ≡ bit (is_held id_of at_ms 0 70000000000 id entries))
      (fetch_window id_of 0 70000000000 serve)
fetch_window_example =
    fetch_window_lem id_of at_ms 0 70000000000 entries serve (λ from until. refl) (omega arith)

abbrev listed : String → Bool → ℕ → Option (List (String × ℕ))
listed id archived n = some (("b", 2) ∷ ("c", 3) ∷ [])

abbrev actives : ℕ → Option (List (String × ℕ))
actives n = some (("a", 1) ∷ ("b", 2) ∷ [])

get_all_tasks-once :
    get_all_tasks_by_space id_of true actives listed (some (("l1", true) ∷ []))
    ≡ some (("a", 1) ∷ ("b", 2) ∷ ("c", 3) ∷ [], false)
unfolding get_all_tasks_by_space stream_all_tasks_by_space fetch_list_tasks pages_from
get_all_tasks-once = refl
