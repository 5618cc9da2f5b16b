-- ===== src/Common/Members.antt =====
-- Which members a set has, and that it has each of them once.
use Prim.Native.Nat.{◌+◌, ◌≤◌, ◌<◌}
use mathlib.Core.Path.{◌≡◌, refl}
use mathlib.Core.Bool.{Bool, true, false, ◌||◌}
use mathlib.Core.Logic.{inl, inr, ◌↔◌}
use mathlib.Core.List.{List, [], ◌∷◌, ◌++◌}
use native.Mathlib.Omega.{arith}
use clickup_sync.Common.Tests.{Bool-cases}
use clickup_sync.Common.Bools.{
  or_assoc, or_swap, or_again, or_left_comm, or_swap_left, or_true, or_false, or_comm,
}
use clickup_sync.Common.Lists.{count, All, All-weaken}
use clickup_sync.Common.Groups.{
  member, add_to, add_all, push_row, group_onto, group_rows, keys_of, same_comm,
}

module _ {K : Type 0} (same : K → K → Bool) where
  member-append :
      (k : K) (xs ys : List K) → member same k (xs ++ ys) ≡ (member same k xs || member same k ys)
  member-append k [] ys = refl
  member-append k (x ∷ xs) ys =
      rw (member-append k xs ys, or_assoc (same k x) (member same k xs) (member same k ys)) refl

module _ {K : Type 0} (same : K → K → Bool)
    (same_iff : (x y : K) → (same x y ≡ true) ↔ (x ≡ y)) where
  abbrev pub Distinct : List K → Type 0
  Distinct xs = (k : K) → count (λ x. same x k) xs ≤ 1

  member-add_to :
      (k x : K) (xs : List K) → member same k (add_to same x xs) ≡ (member same k xs || same k x)
  member-add_to k x xs = elim (Bool-cases (member same x xs)) [
    | inr e ↦ rw (e, member-append same k xs (x ∷ []), or_false (same k x)) refl
    | inl e ↦ elim (Bool-cases (same k x)) [
      | inr f ↦ rw (e, f, or_false (member same k xs)) refl
      | inl f ↦
          let path : k ≡ x = (same_iff k x).0 f in
          let found : member same k xs ≡ true = rw path e in rw (e, found) refl
    ]
  ]

  -- A set holds what was added to it, and what it held before.
  pub member-add_all :
      (k : K) (ks xs : List K)
      → member same k (add_all same ks xs) ≡ (member same k ks || member same k xs)
  member-add_all k [] xs = refl
  member-add_all k (x ∷ ks) xs =
      rw
        (
          member-add_all k ks (add_to same x xs),
          member-add_to k x xs,
          or_comm (member same k xs) (same k x),
          or_swap (same k x) (member same k ks) (member same k xs),
        )
        refl

  count_absent : (k : K) (xs : List K) → member same k xs ≡ false → count (λ x. same x k) xs ≡ 0
  count_absent k [] e = refl
  count_absent k (x ∷ xs) e = elim (Bool-cases (same k x)) [
    | inl f ↦ let r : true ≡ false = rw f at e in absurd (cc r)
    | inr f ↦ rw (same_comm same same_iff x k, f) (count_absent k xs (rw f at e))
  ]

  count_present : (k : K) (xs : List K) → member same k xs ≡ true → 0 < count (λ x. same x k) xs
  count_present k [] e = absurd (cc e)
  count_present k (x ∷ xs) e = elim (Bool-cases (same k x)) [
    | inl f ↦ rw (same_comm same same_iff x k, f) (omega arith)
    | inr f ↦ rw (same_comm same same_iff x k, f) (count_present k xs (rw f at e))
  ]

  count-append : (p : K → Bool) (xs ys : List K) → count p (xs ++ ys) ≡ count p xs + count p ys
  count-append p [] ys = omega arith
  count-append p (x ∷ xs) ys = ground (arith, count-append p xs ys)

  add_to-Distinct : (x : K) (xs : List K) → Distinct xs → Distinct (add_to same x xs)
  add_to-Distinct x xs h k = elim (Bool-cases (member same x xs)) [
    | inl e ↦ rw e (h k)
    | inr e ↦ elim (Bool-cases (same x k)) [
      | inr f ↦ rw (e, count-append (λ y. same y k) xs (x ∷ []), f) (omega (arith, h k))
      | inl f ↦
          let path : x ≡ k = (same_iff x k).0 f in
          let none : count (λ y. same y k) xs ≡ 0 = rw path at (count_absent x xs e) in
          rw (e, count-append (λ y. same y k) xs (x ∷ []), f, none) (omega arith)
    ]
  ]

  pub add_all-Distinct : (ks xs : List K) → Distinct xs → Distinct (add_all same ks xs)
  add_all-Distinct [] xs h = h
  add_all-Distinct (k ∷ ks) xs h = add_all-Distinct ks (add_to same k xs) (add_to-Distinct k xs h)

  pub count-member :
      (k : K) (xs : List K) → Distinct xs → member same k xs ≡ true → count (λ x. same x k) xs ≡ 1
  count-member k xs h e = omega (arith, h k, count_present k xs e)

module _ {K A : Type 0} (same : K → K → Bool) (key : A → K)
    (same_iff : (x y : K) → (same x y ≡ true) ↔ (x ≡ y)) where
  -- Some row has the key.
  abbrev pub some_row : K → List A → Bool
  some_row k [] = false
  some_row k (a ∷ rows) = same k (key a) || some_row k rows

  member-push_row :
      (k : K) (a : A) (m : List (K × List A))
      → member same k (keys_of same key (push_row same key a m))
        ≡ (same k (key a) || member same k (keys_of same key m))
  member-push_row k a [] = refl
  member-push_row k a ((x, rows) ∷ m) = elim (Bool-cases (same (key a) x)) [
    | inl e ↦
        let path : key a ≡ x = (same_iff (key a) x).0 e in
        rw (e, path) (or_again (same k x) (member same k (keys_of same key m)))
    | inr e ↦
        rw (e, member-push_row k a m)
          (or_left_comm (same k x) (same k (key a)) (member same k (keys_of same key m)))
  ]

  member-group_onto :
      (k : K) (rows : List A) (m : List (K × List A))
      → member same k (keys_of same key (group_onto same key rows m))
        ≡ (some_row k rows || member same k (keys_of same key m))
  member-group_onto k [] m = refl
  member-group_onto k (a ∷ rows) m =
      rw (member-group_onto k rows (push_row same key a m), member-push_row k a m)
        (or_swap_left (some_row k rows) (same k (key a)) (member same k (keys_of same key m)))

  -- A map has the keys of its rows.
  pub member-group_rows :
      (k : K) (rows : List A)
      → member same k (keys_of same key (group_rows same key rows)) ≡ some_row k rows
  member-group_rows k rows = rw (member-group_onto k rows []) (or_false (some_row k rows))

  some_row_more :
      (k : K) (a : A) (rows : List A) → some_row k rows ≡ true → some_row k (a ∷ rows) ≡ true
  some_row_more k a rows h = rw h (or_true (same k (key a)))

  pub some_row_own : (rows : List A) → All (λ a. some_row (key a) rows ≡ true) rows
  some_row_own [] = tt
  some_row_own (a ∷ rows) = (
    rw ((same_iff (key a) (key a)).1 refl) refl,
    All-weaken (λ b. some_row_more (key b) a rows) rows (some_row_own rows),
  )
