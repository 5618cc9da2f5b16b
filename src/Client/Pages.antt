-- ===== src/Client/Pages.antt =====
-- Paging: `fetchListTasks` and the passes of `streamAllTasksBySpace` of clickup.client.ts.
use clickup_sync.Common.{
  ℕ, zero, suc, ◌+◌, ◌-◌, ◌*◌, ◌≤◌, ◌<◌, ◌≡◌, refl, ap, sym, Bool, true, false, Option, none, some,
  List, [], ◌∷◌, ◌++◌, ltb, leb, if◌then◌else◌, arith, length, take, skip, Bool-cases, inl, inr,
}

abbrev pub max_pages : ℕ
max_pages = 5000

-- `page n` is what ClickUp answers to the request of page `n`; none is an exception.
leb-gt : (a b : ℕ) → b < a → leb a b ≡ false
leb-gt a b h = ground (arith, h)

leb-minus : (a c l : ℕ) → 100 ≤ l → c ≡ 100 + a → leb a (l - 100) ≡ leb c l
leb-minus a c l h e = ground (arith, h, e)

zero-leb : (l : ℕ) → leb 0 l ≡ true
zero-leb l = ground arith

module _ {T : Type 0} where
  abbrev pub and_then : Option (List T × Bool) → List T → Option (List T × Bool)
  and_then none tasks = none
  and_then (some (more, truncated)) tasks = some (tasks ++ more, truncated)

  -- A short page is the last. The fuel counts the pages that the cap leaves.
  abbrev pub on_page : Option (List T) → Option (List T × Bool) → Option (List T × Bool)
  on_page none next = none
  on_page (some tasks) next =
      if ltb (length tasks) 100 then some (tasks, false) else and_then next tasks

  unfoldable pub pages_from : (fuel n : ℕ) → (ℕ → Option (List T)) → Option (List T × Bool)
  pages_from zero n page = some ([], true)
  pages_from (suc fuel) n page = on_page (page n) (pages_from fuel (n + 1) page)

  unfoldable pub fetch_list_tasks : (ℕ → Option (List T)) → Option (List T × Bool)
  fetch_list_tasks page = pages_from max_pages 0 page

  skip-nil : (n : ℕ) → skip {A = T} n [] ≡ []
  skip-nil zero = refl
  skip-nil (suc n) = refl

  take-nil : (n : ℕ) → take {A = T} n [] ≡ []
  take-nil zero = refl
  take-nil (suc n) = refl

  skip-skip : (m n k : ℕ) (xs : List T) → k ≡ n + m → skip m (skip n xs) ≡ skip k xs
  skip-skip m zero k xs e = let same : k ≡ m = omega (arith, e) in rw same refl
  skip-skip m (suc n) zero xs e = absurd (omega (arith, e))
  skip-skip m (suc n) (suc k) [] e = skip-nil m
  skip-skip m (suc n) (suc k) (x ∷ xs) e = skip-skip m n k xs (omega (arith, e))

  take-all : (m : ℕ) (xs : List T) → length xs ≤ m → take m xs ≡ xs
  take-all zero [] h = refl
  take-all zero (x ∷ xs) h = absurd (omega (arith, h))
  take-all (suc m) [] h = refl
  take-all (suc m) (x ∷ xs) h = ap (◌∷◌ x) (take-all m xs (omega (arith, h)))

  length-take : (m : ℕ) (xs : List T) → m ≤ length xs → length (take m xs) ≡ m
  length-take zero xs h = refl
  length-take (suc m) [] h = absurd (omega (arith, h))
  length-take (suc m) (x ∷ xs) h = ap suc (length-take m xs (omega (arith, h)))

  length-skip : (m : ℕ) (xs : List T) → length (skip m xs) ≡ length xs - m
  length-skip zero xs = omega arith
  length-skip (suc m) [] = omega arith
  length-skip (suc m) (x ∷ xs) = omega (arith, length-skip m xs)

  take-append-take :
      (m n k : ℕ) (xs : List T) → k ≡ m + n → take m xs ++ take n (skip m xs) ≡ take k xs
  take-append-take zero n k xs e = let same : k ≡ n = omega (arith, e) in rw same refl
  take-append-take (suc m) n zero xs e = absurd (omega (arith, e))
  take-append-take (suc m) n (suc k) [] e = take-nil n
  take-append-take (suc m) n (suc k) (x ∷ xs) e =
      ap (◌∷◌ x) (take-append-take m n k xs (omega (arith, e)))

  -- What the pages from `n` on give, where ClickUp holds `rest` behind the pages before.
  on_page_lem :
      (fuel : ℕ) (rest : List T)
      → on_page
          (some (take 100 rest))
          (some (take (100 * fuel) (skip 100 rest), leb (100 * fuel) (length (skip 100 rest))))
        ≡ some (take (100 * suc fuel) rest, leb (100 * suc fuel) (length rest))
  on_page_lem fuel rest = elim (Bool-cases (ltb (length rest) 100)) [
    | inl short ↦
        let few : length rest < 100 = ground (arith, short) in
        let whole : take 100 rest ≡ rest = take-all 100 rest (omega (arith, few)) in
        let wide : take (100 * suc fuel) rest ≡ rest =
          take-all (100 * suc fuel) rest (omega (arith, few)) in
        let last : leb (100 * suc fuel) (length rest) ≡ false =
          leb-gt (100 * suc fuel) (length rest) (omega (arith, few)) in
        rw (whole, wide, last, short) refl
    | inr long ↦
        let many : 100 ≤ length rest = ground (arith, long) in
        let full : ltb (length (take 100 rest)) 100 ≡ false = rw (length-take 100 rest many) refl in
        let tasks : take 100 rest ++ take (100 * fuel) (skip 100 rest)
            ≡ take (100 * suc fuel) rest =
          take-append-take 100 (100 * fuel) (100 * suc fuel) rest (omega arith) in
        let cap : leb (100 * fuel) (length (skip 100 rest)) ≡ leb (100 * suc fuel) (length rest) =
          rw (length-skip 100 rest)
            (leb-minus (100 * fuel) (100 * suc fuel) (length rest) many (omega arith)) in
        rw (full, tasks, cap) refl
  ]

  -- Each page is the next hundred of what ClickUp holds.
  abbrev pub IsPaged : List T → (ℕ → Option (List T)) → Type 0
  IsPaged all page = (n : ℕ) → page n ≡ some (take 100 (skip (100 * n) all))

  pages_from_lem :
      (fuel n : ℕ) (all : List T) (page : ℕ → Option (List T))
      → IsPaged all page
      → pages_from fuel n page
        ≡ some
            (take (100 * fuel) (skip (100 * n) all), leb (100 * fuel) (length (skip (100 * n) all)))
  unfolding pages_from
  pages_from_lem zero n all page paged =
      ap (λ b. some ([], b)) (sym (zero-leb (length (skip (100 * n) all))))
  pages_from_lem (suc fuel) n all page paged =
      let next : skip (100 * (n + 1)) all ≡ skip 100 (skip (100 * n) all) =
        sym (skip-skip 100 (100 * n) (100 * (n + 1)) all (omega arith)) in
      rw (paged n, pages_from_lem fuel (n + 1) all page paged, next)
        (on_page_lem fuel (skip (100 * n) all))

  -- The pages of a list make up the whole of it, up to 500000 tasks, and it says that tasks may be missing
  -- exactly from that number on.
  pub fetch_list_tasks_lem :
      (all : List T) (page : ℕ → Option (List T))
      → IsPaged all page
      → fetch_list_tasks page ≡ some (take 500000 all, leb 500000 (length all))
  unfolding fetch_list_tasks
  fetch_list_tasks_lem all page paged = pages_from_lem 5000 0 all page paged
