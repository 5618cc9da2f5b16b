-- ===== src/Common/Lists.antt =====
-- Database tables are lists of rows. A `where` clause is a test on rows, and these are the queries
-- that the repositories make of it: findFirst, findMany, count, updateMany and deleteMany.
use Prim.Native.Nat.{ℕ, zero, suc, ◌+◌, ◌<◌}
use mathlib.Core.Path.{◌≡◌, refl}
use mathlib.Core.Bool.{Bool, true, false}
use native.Mathlib.Omega.{arith}
use mathlib.Core.Option.{Option, none, some}
use mathlib.Core.List.{List, [], ◌∷◌, ◌++◌, map}
use mathlib.Core.Logic.{inl, inr}
use clickup_sync.Common.Tests.{if◌then◌else◌, Bool-cases}

module _ {ℓ} {A : Type ℓ} where
  abbrev pub length : List A → ℕ
  length [] = 0
  length (x ∷ xs) = suc (length xs)

  -- The first row that passes the test.
  abbrev pub find_first : (A → Bool) → List A → Option A
  find_first p [] = none
  find_first p (x ∷ xs) = if p x then some x else find_first p xs

  abbrev pub find_many : (A → Bool) → List A → List A
  find_many p [] = []
  find_many p (x ∷ xs) = let rest = find_many p xs in if p x then x ∷ rest else rest

  abbrev pub count : (A → Bool) → List A → ℕ
  count p [] = 0
  count p (x ∷ xs) = let rest = count p xs in if p x then suc rest else rest

  abbrev pub update_many : (A → Bool) → (A → A) → List A → List A
  update_many p f = map (λ x. if p x then f x else x)

  abbrev pub delete_many : (A → Bool) → List A → List A
  delete_many p [] = []
  delete_many p (x ∷ xs) = let rest = delete_many p xs in if p x then rest else x ∷ rest

  -- `take` and `skip` of a query.
  abbrev pub take : ℕ → List A → List A
  take zero xs = []
  take (suc n) [] = []
  take (suc n) (x ∷ xs) = x ∷ take n xs

  abbrev pub skip : ℕ → List A → List A
  skip zero xs = xs
  skip (suc n) [] = []
  skip (suc n) (x ∷ xs) = skip n xs

  -- `xs[n]`
  abbrev pub get_elem? : List A → ℕ → Option A
  get_elem? [] n = none
  get_elem? (x ∷ xs) zero = some x
  get_elem? (x ∷ xs) (suc n) = get_elem? xs n

  -- Every row has the property.
  abbrev pub All {κ} : (A → Type κ) → List A → Type κ
  All P [] = Unit
  All P (x ∷ xs) = P x × All P xs

  -- `update` and `delete` by a unique key reach one row at most.
  abbrev pub update_unique : (A → Bool) → (A → A) → List A → List A
  update_unique p f [] = []
  update_unique p f (x ∷ xs) = let rest = x ∷ update_unique p f xs in if p x then f x ∷ xs else rest

  abbrev pub delete_unique : (A → Bool) → List A → List A
  delete_unique p [] = []
  delete_unique p (x ∷ xs) = let rest = x ∷ delete_unique p xs in if p x then xs else rest

abbrev pub bit : Bool → ℕ
bit true = 1
bit false = 0

module _ {ℓ} {A : Type ℓ} (p q : A → Bool) where
  -- How a write by key changes the number of rows that pass another test.
  pub count-update_unique :
      (f : A → A) (xs : List A) (u : A)
      → find_first p xs ≡ some u
      → count q (update_unique p f xs) + bit (q u) ≡ count q xs + bit (q (f u))
  count-update_unique f [] u e = cc
  count-update_unique f (x ∷ xs) u e = ground (arith, count-update_unique f xs u)

  pub count-delete_unique :
      (xs : List A) (u : A)
      → find_first p xs ≡ some u
      → count q (delete_unique p xs) + bit (q u) ≡ count q xs
  count-delete_unique [] u e = cc
  count-delete_unique (x ∷ xs) u e = ground (arith, count-delete_unique xs u)

  -- A row that is found and passes a test is counted by it.
  pub count-pos_of_find :
      (xs : List A) (u : A) → find_first p xs ≡ some u → q u ≡ true → 0 < count q xs
  count-pos_of_find [] u e h = cc
  count-pos_of_find (x ∷ xs) u e h = ground (arith, count-pos_of_find xs u)

  -- A write that no row of `q` takes part in is not seen by the rows of `q`.
  pub find_many-update_unique :
      (f : A → A) (xs : List A) (u : A)
      → find_first p xs ≡ some u
      → q u ≡ false
      → q (f u) ≡ false
      → find_many q (update_unique p f xs) ≡ find_many q xs
  find_many-update_unique f [] u e h k = refl
  find_many-update_unique f (x ∷ xs) u e h k = ground (arith, find_many-update_unique f xs u)

  pub find_many-delete_unique :
      (xs : List A) (u : A)
      → find_first p xs ≡ some u
      → q u ≡ false
      → find_many q (delete_unique p xs) ≡ find_many q xs
  find_many-delete_unique [] u e h = refl
  find_many-delete_unique (x ∷ xs) u e h = ground (arith, find_many-delete_unique xs u)

module _ {ℓ} {A : Type ℓ} (p : A → Bool) where
  pub find_many-delete_many : (xs : List A) → find_many p (delete_many p xs) ≡ []
  find_many-delete_many [] = refl
  find_many-delete_many (x ∷ xs) = ground (arith, find_many-delete_many xs)

  pub find_first-delete_many : (xs : List A) → find_first p (delete_many p xs) ≡ none
  find_first-delete_many [] = refl
  find_first-delete_many (x ∷ xs) = ground (arith, find_first-delete_many xs)

  pub find_first-append :
      (xs ys : List A) (u : A) → find_first p xs ≡ some u → find_first p (xs ++ ys) ≡ some u
  find_first-append [] ys u e = cc
  find_first-append (x ∷ xs) ys u e = ground (arith, find_first-append xs ys u)

  -- A found row passes the test by which it was found.
  pub find_first-passes : (xs : List A) (u : A) → find_first p xs ≡ some u → p u ≡ true
  find_first-passes [] u e = cc
  find_first-passes (x ∷ xs) u e = ground (arith, find_first-passes xs u)

module _ {ℓ} {A : Type ℓ} (p : A → Bool) (f : A → A) where
  pub find_first-update_unique :
      (xs : List A) (u : A)
      → find_first p xs ≡ some u
      → p (f u) ≡ true
      → find_first p (update_unique p f xs) ≡ some (f u)
  find_first-update_unique [] u e h = cc
  find_first-update_unique (x ∷ xs) u e h = ground (arith, find_first-update_unique xs u)

  -- ... and does not show to a test that passes neither the old row nor the new one.
  pub find_first-update_unique_other :
      (q : A → Bool) (xs : List A) (u : A)
      → find_first p xs ≡ some u
      → q u ≡ false
      → q (f u) ≡ false
      → find_first q (update_unique p f xs) ≡ find_first q xs
  find_first-update_unique_other q [] u e h k = refl
  find_first-update_unique_other q (x ∷ xs) u e h k =
      ground (arith, find_first-update_unique_other q xs u)

module _ {ℓ κ} {A : Type ℓ} (P : A → Type κ) (p : A → Bool) where
  -- What holds of every row holds of the row that is found ...
  pub All-find_first : (xs : List A) (u : A) → find_first p xs ≡ some u → All P xs → P u
  All-find_first [] u e h = cc
  All-find_first (x ∷ xs) u e h = elim (Bool-cases (p x)) [
    | inl y ↦ let same : x ≡ u = cc (rw y at e) in rw (← same) h.0
    | inr y ↦ All-find_first xs u (rw y at e) h.1
  ]

  -- ... and after a write by key, if it holds of the row written.
  pub All-update_unique :
      (f : A → A) (xs : List A) (u : A)
      → find_first p xs ≡ some u
      → (P u → P (f u))
      → All P xs
      → All P (update_unique p f xs)
  All-update_unique f [] u e k h = tt
  All-update_unique f (x ∷ xs) u e k h = elim (Bool-cases (p x)) [
    | inl y ↦ let same : x ≡ u = cc (rw y at e) in rw (y, same) (k (rw (← same) h.0), h.1)
    | inr y ↦ rw y (h.0, All-update_unique f xs u (rw y at e) k h.1)
  ]

module _ {ℓ κ} {A : Type ℓ} (P : A → Type κ) where
  pub All-append : (xs ys : List A) → All P xs → All P ys → All P (xs ++ ys)
  All-append [] ys h k = k
  All-append (x ∷ xs) ys h k = (h.0, All-append xs ys h.1 k)

  pub All-take : (n : ℕ) (xs : List A) → All P xs → All P (take n xs)
  All-take zero xs h = tt
  All-take (suc n) [] h = tt
  All-take (suc n) (x ∷ xs) h = (h.0, All-take n xs h.1)

  pub All-find_many : (p : A → Bool) (xs : List A) → All P xs → All P (find_many p xs)
  All-find_many p [] h = tt
  All-find_many p (x ∷ xs) h = elim (Bool-cases (p x)) [
    | inl y ↦ rw y (h.0, All-find_many p xs h.1)
    | inr y ↦ rw y (All-find_many p xs h.1)
  ]

pub All-weaken {ℓ κ μ} :
    {A : Type ℓ} {P : A → Type κ} {Q : A → Type μ} (f : (a : A) → P a → Q a) (xs : List A)
    → All P xs
    → All Q xs
All-weaken f [] h = tt
All-weaken f (x ∷ xs) h = (f x h.0, All-weaken f xs h.1)
