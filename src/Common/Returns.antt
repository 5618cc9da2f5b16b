-- ===== src/Common/Returns.antt =====
-- What holds of the value that an action returns.
use mathlib.Core.Path.{◌≡◌, refl}
use clickup_sync.Common.Results.{Action, Result, ok, err, ◌>>=◌, continue, pure}

moved : {A : Type 0} (P : A → Type 0) (a b : A) → ok a ≡ ok b → P a → P b
moved P a b e h = let same : a ≡ b = cc e in rw (← same) h

module _ {S : Type 0} where
  pub record Returns {A : Type 0} (P : A → Type 0) (m : Action S A) : Type 0 where
    pub returned : (s : S) (a : A) → (m s).0 ≡ ok a → P a

  returned-continue :
      {A B : Type 0} (Q : A → Type 0) (P : B → Type 0) (k : A → Action S B)
      → ((a : A) → Q a → Returns P (k a))
      → (r : Result A) (t : S) → ((a : A) → r ≡ ok a → Q a)
      → (b : B) → (continue r k t).0 ≡ ok b
      → P b
  returned-continue Q P k rest (ok a) t first b e = (rest a (first a refl)).returned t b e
  returned-continue Q P k rest (err x) t first b e = absurd (cc e)

  pub Returns-bind :
      {A B : Type 0} (Q : A → Type 0) {P : B → Type 0} {m : Action S A} {k : A → Action S B}
      → Returns Q m
      → ((a : A) → Q a → Returns P (k a))
      → Returns P (m >>= k)
  Returns-bind Q {P = P} {m = m} {k = k} first rest = record {
    returned =
        λ s b e. returned-continue Q P k rest (m s).0 (m s).1 (λ a h. first.returned s a h) b e;
  }

  pub Returns-any : {A : Type 0} {m : Action S A} → Returns (λ a. Unit {0}) m
  Returns-any = record { returned = λ s a e. tt }

  pub Returns-pure : {A : Type 0} {P : A → Type 0} (a : A) → P a → Returns P (pure a)
  Returns-pure {P = P} a h = record { returned = λ s b e. moved P a b e h }
