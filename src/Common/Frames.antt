-- ===== src/Common/Frames.antt =====
-- What holds of an action because it holds of its parts: a relation of the store before and after
-- that every store has to itself, and that composes.
use mathlib.Core.Bool.{Bool, true, false}
use mathlib.Core.Option.{Option, none, some}
use clickup_sync.Common.Results.{
  Action, Result, ok, err, Exception, ◌>>=◌, continue, throw_if, or_throw, recover, or_else, caught,
  gets, pure, throw,
}

module _ {S : Type 0} (R : S → S → Type 0) where
  abbrev pub IsFrame : Type 0
  IsFrame = ((s : S) → R s s) × ((s t u : S) → R s t → R t u → R s u)

  -- The action relates each store to the one it leaves.
  pub record Keeps {A : Type 0} (m : Action S A) : Type 0 where
    pub kept : (s : S) → R s (m s).1

module _ {S : Type 0} {R : S → S → Type 0} (frame : IsFrame R) where
  Keeps-continue :
      {A B : Type 0} (k : A → Action S B)
      → ((a : A) → Keeps R (k a))
      → (r : Result A) (s : S) → R s (continue r k s).1
  Keeps-continue k h (ok a) s = (h a).kept s
  Keeps-continue k h (err e) s = frame.0 s

  pub Keeps-bind :
      {A B : Type 0} {m : Action S A} {k : A → Action S B}
      → Keeps R m
      → ((a : A) → Keeps R (k a))
      → Keeps R (m >>= k)
  Keeps-bind {m = m} {k = k} first rest = record {
    kept = λ s. frame.1 s (m s).1 _ (first.kept s) (Keeps-continue k rest (m s).0 (m s).1);
  }

  pub Keeps-caught : {A : Type 0} {m : Action S A} → Keeps R m → Keeps R (caught m)
  Keeps-caught h = record { kept = λ s. h.kept s }

  pub Keeps-pure : {A : Type 0} {a : A} → Keeps R (pure a)
  Keeps-pure = record { kept = λ s. frame.0 s }

  pub Keeps-throw : {A : Type 0} {e : Exception} → Keeps R (throw {A = A} e)
  Keeps-throw = record { kept = λ s. frame.0 s }

  pub Keeps-gets : {A : Type 0} {g : S → A} → Keeps R (gets g)
  Keeps-gets = record { kept = λ s. frame.0 s }

  pub Keeps-throw_if : (b : Bool) (e : Exception) → Keeps R (throw_if b e)
  Keeps-throw_if true e = record { kept = λ s. frame.0 s }
  Keeps-throw_if false e = record { kept = λ s. frame.0 s }

  pub Keeps-or_throw : {A : Type 0} (o : Option A) (e : Exception) → Keeps R (or_throw o e)
  Keeps-or_throw none e = record { kept = λ s. frame.0 s }
  Keeps-or_throw (some a) e = record { kept = λ s. frame.0 s }

  Keeps-or_else :
      {A : Type 0} (r : Result A) {handler : Action S A}
      → Keeps R handler
      → (s : S) → R s (or_else r handler s).1
  Keeps-or_else (ok a) h s = frame.0 s
  Keeps-or_else (err e) h s = h.kept s

  pub Keeps-recover :
      {A : Type 0} {m handler : Action S A}
      → Keeps R m
      → Keeps R handler
      → Keeps R (recover m handler)
  Keeps-recover {m = m} h k = record {
    kept = λ s. frame.1 s (m s).1 _ (h.kept s) (Keeps-or_else (m s).0 k (m s).1);
  }
