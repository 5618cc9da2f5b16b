-- ===== src/Common/Sorting.antt =====
-- `Array.sort`: stable, by a test that says whether the first of two may stand before the second.
use Prim.Native.Nat.{ℕ, ◌+◌}
use mathlib.Core.Path.{◌≡◌, refl, ap, ◌∙◌}
use mathlib.Core.Bool.{Bool}
use mathlib.Core.List.{List, [], ◌∷◌, ◌++◌, Perm, Permᴰ}
use mathlib.Core.List.Perm
use native.Mathlib.Omega.{arith}
use mathlib.Core.Logic.{inl, inr, ∥∥₁_elim}
use native.Mathlib.Nat.{ℕ_set}
use clickup_sync.Common.Tests.{if◌then◌else◌, Bool-cases}
use clickup_sync.Common.Lists.{count, bit}

module _ {A : Type 0} (before : A → A → Bool) where
  abbrev pub put_in_order : A → List A → List A
  put_in_order x [] = x ∷ []
  put_in_order x (y ∷ ys) =
      let rest = y ∷ put_in_order x ys in if before x y then x ∷ y ∷ ys else rest

  abbrev pub sort_by : List A → List A
  sort_by [] = []
  sort_by (x ∷ xs) = put_in_order x (sort_by xs)

  put_in_order-perm : (x : A) (xs : List A) → Perm (put_in_order x xs) (x ∷ xs)
  put_in_order-perm x [] = Perm.rfl
  put_in_order-perm x (y ∷ ys) = elim (Bool-cases (before x y)) [
    | inl e ↦ rw e Perm.rfl
    | inr e ↦ rw e (Perm.trans (Perm.cons y (put_in_order-perm x ys)) (Perm.swap x y ys))
  ]

  pub sort_by-perm : (xs : List A) → Perm (sort_by xs) xs
  sort_by-perm [] = Perm.rfl
  sort_by-perm (x ∷ xs) =
      Perm.trans (put_in_order-perm x (sort_by xs)) (Perm.cons x (sort_by-perm xs))

  count-put_in_order :
      (p : A → Bool) (x : A) (xs : List A) → count p (put_in_order x xs) ≡ bit (p x) + count p xs
  count-put_in_order p x [] = ground arith
  count-put_in_order p x (y ∷ ys) = ground (arith, count-put_in_order p x ys)

  pub count-sort_by : (p : A → Bool) (xs : List A) → count p (sort_by xs) ≡ count p xs
  count-sort_by p [] = refl
  count-sort_by p (x ∷ xs) = ground (arith, count-put_in_order p x (sort_by xs), count-sort_by p xs)

-- What is summed over a list does not depend on its order.
abbrev pub sum_of : {A : Type 0} → (A → ℕ) → List A → ℕ
sum_of g [] = 0
sum_of g (x ∷ xs) = g x + sum_of g xs

module _ {A : Type 0} (g : A → ℕ) where
  pub sum_of-append : (xs ys : List A) → sum_of g (xs ++ ys) ≡ sum_of g xs + sum_of g ys
  sum_of-append [] ys = omega arith
  sum_of-append (x ∷ xs) ys = omega (arith, sum_of-append xs ys)

  sum_of-permᴰ : {xs ys : List A} → Permᴰ xs ys → sum_of g xs ≡ sum_of g ys
  sum_of-permᴰ Permᴰ.nil = refl
  sum_of-permᴰ (Permᴰ.cons e p) = omega (arith, ap g e, sum_of-permᴰ p)
  sum_of-permᴰ (Permᴰ.swap e f) = omega (arith, ap g e, ap g f)
  sum_of-permᴰ (Permᴰ.trans p q) = sum_of-permᴰ p ∙ sum_of-permᴰ q

  pub sum_of-perm : {xs ys : List A} → Perm xs ys → sum_of g xs ≡ sum_of g ys
  sum_of-perm p = ∥∥₁_elim p (ℕ_set _ _) sum_of-permᴰ
