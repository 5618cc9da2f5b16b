-- ===== src/Common/Groups.antt =====
-- Maps from a key to the rows of the key, as the services build them, and sets that keep the order in
-- which their members were added.
use mathlib.Core.Path.{◌≡◌, refl, sym}
use mathlib.Core.Bool.{Bool, true, false, ◌||◌}
use mathlib.Core.Logic.{inl, inr, ◌↔◌}
use mathlib.Core.List.{List, [], ◌∷◌, ◌++◌, append-nil, append_assoc, Perm, perm_middle}
use mathlib.Core.List.Perm
use native.Mathlib.Omega.{arith}
use clickup_sync.Common.Tests.{if◌then◌else◌, Bool-cases}
use clickup_sync.Common.Lists.{count, find_many, All}

module _ {K : Type 0} (same : K → K → Bool) where
  abbrev pub member : K → List K → Bool
  member k [] = false
  member k (x ∷ xs) = same k x || member k xs

  -- `set.add(k)`
  abbrev pub add_to : K → List K → List K
  add_to k xs = if member k xs then xs else xs ++ (k ∷ [])

  abbrev pub add_all : List K → List K → List K
  add_all [] xs = xs
  add_all (k ∷ ks) xs = add_all ks (add_to k xs)

module _ {K A : Type 0} (same : K → K → Bool) (key : A → K) where
  -- `map.get(key).push(row)`, or a first entry of the key.
  abbrev pub push_row : A → List (K × List A) → List (K × List A)
  push_row a [] = (key a, a ∷ []) ∷ []
  push_row a ((k, rows) ∷ m) =
      let rest = (k, rows) ∷ push_row a m in
      if same (key a) k then (k, rows ++ (a ∷ [])) ∷ m else rest

  abbrev pub group_onto : List A → List (K × List A) → List (K × List A)
  group_onto [] m = m
  group_onto (a ∷ rows) m = group_onto rows (push_row a m)

  abbrev pub group_rows : List A → List (K × List A)
  group_rows rows = group_onto rows []

  -- `map.get(k) ?? []`
  abbrev pub rows_of : K → List (K × List A) → List A
  rows_of k [] = []
  rows_of k ((x, rows) ∷ m) = if same k x then rows else rows_of k m

  abbrev pub keys_of : List (K × List A) → List K
  keys_of [] = []
  keys_of ((k, rows) ∷ m) = k ∷ keys_of m

module _ {K : Type 0} (same : K → K → Bool)
    (same_iff : (x y : K) → (same x y ≡ true) ↔ (x ≡ y)) where
  pub same_comm : (x y : K) → same x y ≡ same y x
  same_comm x y = elim (Bool-cases (same x y)) [
    | inl e ↦ let path : x ≡ y = (same_iff x y).0 e in rw (e, (same_iff y x).1 (sym path)) refl
    | inr e ↦ elim (Bool-cases (same y x)) [
      | inr f ↦ rw (e, f) refl
      | inl f ↦
          let path : y ≡ x = (same_iff y x).0 f in
          let met : same x y ≡ true = (same_iff x y).1 (sym path) in cc (met, f)
    ]
  ]

module _ {K A : Type 0} (same : K → K → Bool) (key : A → K)
    (same_iff : (x y : K) → (same x y ≡ true) ↔ (x ≡ y)) where
  same_as : (k x y : K) → same x y ≡ true → same k x ≡ same k y
  same_as k x y e = let path : x ≡ y = (same_iff x y).0 e in rw path refl

  same_other : (k x y : K) → same k x ≡ true → same y x ≡ false → same k y ≡ false
  same_other k x y e h = elim (Bool-cases (same k y)) [
    | inr f ↦ f
    | inl f ↦
        let path : y ≡ x = cc ((same_iff k x).0 e, (same_iff k y).0 f) in
        let met : same y x ≡ true = (same_iff y x).1 path in absurd (clash met h)
  ]
    where
      clash : {b : Bool} → b ≡ true → b ≡ false → ⊥
      clash p q = let r : true ≡ false = cc (p, q) in absurd (cc r)

  rows_of-push_row :
      (k : K) (a : A) (m : List (K × List A))
      → rows_of same key k (push_row same key a m)
        ≡ rows_of same key k m ++ (if same k (key a) then a ∷ [] else [])
  rows_of-push_row k a [] = elim (Bool-cases (same k (key a))) [
    | inl e ↦ rw e refl
    | inr e ↦ rw e refl
  ]
  rows_of-push_row k a ((x, rows) ∷ m) = elim (Bool-cases (same (key a) x)) [
    | inl e ↦ elim (Bool-cases (same k x)) [
      | inl h ↦ rw (same_as k (key a) x e, e, h) refl
      | inr h ↦ rw (same_as k (key a) x e, e, h, append-nil) refl
    ]
    | inr e ↦ elim (Bool-cases (same k x)) [
      | inl h ↦ rw (same_other k x (key a) h e, e, h, append-nil) refl
      | inr h ↦ rw (e, h) (rows_of-push_row k a m)
    ]
  ]

  rows_of-group_onto :
      (k : K) (rows : List A) (m : List (K × List A))
      → rows_of same key k (group_onto same key rows m)
        ≡ rows_of same key k m ++ find_many (λ a. same k (key a)) rows
  rows_of-group_onto k [] m = sym (append-nil _)
  rows_of-group_onto k (a ∷ rows) m = elim (Bool-cases (same k (key a))) [
    | inl e ↦
        rw
          (
            e,
            rows_of-group_onto k rows (push_row same key a m),
            rows_of-push_row k a m,
            append_assoc,
          )
          (rw e refl)
    | inr e ↦
        rw (e, rows_of-group_onto k rows (push_row same key a m), rows_of-push_row k a m)
          (rw (e, append-nil) refl)
  ]

  -- The map holds the rows of a key in the order of the list.
  pub rows_of-group_rows :
      (k : K) (rows : List A)
      → rows_of same key k (group_rows same key rows) ≡ find_many (λ a. same k (key a)) rows
  rows_of-group_rows k rows = rows_of-group_onto k rows []

  -- The rows of each key in turn.
  abbrev pub spread : List K → List A → List A
  spread [] rows = []
  spread (d ∷ ds) rows = find_many (λ a. same d (key a)) rows ++ spread ds rows

  spread-none : (ds : List K) → spread ds [] ≡ []
  spread-none [] = refl
  spread-none (d ∷ ds) = spread-none ds

  spread-other :
      (a : A) (rows : List A) (ds : List K)
      → count (λ d. same d (key a)) ds ≡ 0
      → spread ds (a ∷ rows) ≡ spread ds rows
  spread-other a rows [] none = refl
  spread-other a rows (d ∷ ds) none = elim (Bool-cases (same d (key a))) [
    | inl e ↦ absurd (omega (arith, rw e at none))
    | inr e ↦ rw (e, spread-other a rows ds (rw e at none)) refl
  ]

  spread-perm_cons :
      (a : A) (rows : List A) (ds : List K)
      → count (λ d. same d (key a)) ds ≡ 1
      → Perm (spread ds (a ∷ rows)) (a ∷ spread ds rows)
  spread-perm_cons a rows [] once = absurd (omega (arith, once))
  spread-perm_cons a rows (d ∷ ds) once = elim (Bool-cases (same d (key a))) [
    | inl e ↦
        let none : count (λ x. same x (key a)) ds ≡ 0 = omega (arith, rw e at once) in
        rw (e, spread-other a rows ds none) Perm.rfl
    | inr e ↦ rw e (
        Perm.trans
          (Perm.append_left (find_many (λ x. same d (key x)) rows)
            (spread-perm_cons a rows ds (rw e at once)))
          (perm_middle (find_many (λ x. same d (key x)) rows) (spread ds rows)))
  ]

  -- Where each key stands once, each row stands in one place.
  pub spread-perm :
      (ds : List K) (rows : List A)
      → All (λ a. count (λ d. same d (key a)) ds ≡ 1) rows
      → Perm (spread ds rows) rows
  spread-perm ds [] once = rw (spread-none ds) Perm.rfl
  spread-perm ds (a ∷ rows) once =
      Perm.trans (spread-perm_cons a rows ds once.0) (Perm.cons a (spread-perm ds rows once.1))
