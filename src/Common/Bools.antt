-- ===== src/Common/Bools.antt =====
-- Laws of Boolean tests that are put together.
use mathlib.Core.Path.{◌≡◌, refl}
use mathlib.Core.Bool.{Bool, true, false, ◌&&◌, ◌||◌}

pub or_assoc : (a b c : Bool) → ((a || b) || c) ≡ (a || (b || c))
or_assoc true b c = refl
or_assoc false b c = refl

pub or_swap : (a b c : Bool) → ((a || b) || c) ≡ (b || (a || c))
or_swap true true c = refl
or_swap true false c = refl
or_swap false b c = refl

pub or_again : (a b : Bool) → (a || b) ≡ (a || (a || b))
or_again true b = refl
or_again false b = refl

pub or_left_comm : (a b c : Bool) → (a || (b || c)) ≡ (b || (a || c))
or_left_comm true true c = refl
or_left_comm true false c = refl
or_left_comm false b c = refl

pub or_swap_left : (a b c : Bool) → (a || (b || c)) ≡ ((b || a) || c)
or_swap_left true true c = refl
or_swap_left true false c = refl
or_swap_left false true c = refl
or_swap_left false false c = refl

pub or_true : (a : Bool) → (a || true) ≡ true
or_true true = refl
or_true false = refl

pub or_false : (a : Bool) → (a || false) ≡ a
or_false true = refl
or_false false = refl

pub or_comm : (a b : Bool) → (a || b) ≡ (b || a)
or_comm true true = refl
or_comm true false = refl
or_comm false true = refl
or_comm false false = refl

pub or_pairs : (p q x y : Bool) → ((p || q) || (x || y)) ≡ ((p || x) || (q || y))
or_pairs true q x y = refl
or_pairs false true true y = refl
or_pairs false true false y = refl
or_pairs false false x y = refl

pub and_or : (h p q : Bool) → (h && (p || q)) ≡ ((h && p) || (h && q))
and_or true p q = refl
and_or false p q = refl

pub and_true : (a : Bool) → (a && true) ≡ a
and_true true = refl
and_true false = refl

pub and_false : (a : Bool) → (a && false) ≡ false
and_false true = refl
and_false false = refl
