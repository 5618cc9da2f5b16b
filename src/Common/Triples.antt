-- ===== src/Common/Triples.antt =====
-- What an action leads to from a precondition: the value and the store that it returns, or the store
-- at an exception.
use mathlib.Core.Path.{◌≡◌, refl}
use mathlib.Core.Bool.{Bool, true, false}
use clickup_sync.Common.Results.{
  Action, Result, ok, err, Exception, ◌>>=◌, continue, pure, gets, modify, throw, throw_if,
}

module _ {S A : Type 0} where
  -- The outcome of a call and the store beside it.
  abbrev pub Meets : (A → S → Type 0) → (S → Type 0) → Result A → S → Type 0
  Meets Post Thrown (ok a) t = Post a t
  Meets Post Thrown (err e) t = Thrown t

  pub record Leads (Pre : S → Type 0) (m : Action S A) (Post : A → S → Type 0) (Thrown : S → Type 0)
      : Type 0 where
    pub led : (s : S) → Pre s → Meets Post Thrown (m s).0 (m s).1

module _ {S : Type 0} {Thrown : S → Type 0} where
  Leads-continue :
      {A B : Type 0} (Mid : A → S → Type 0) (Post : B → S → Type 0) (k : A → Action S B)
      → ((a : A) → Leads (Mid a) (k a) Post Thrown)
      → (r : Result A) (t : S) → Meets Mid Thrown r t
      → Meets Post Thrown (continue r k t).0 (continue r k t).1
  Leads-continue Mid Post k rest (ok a) t h = (rest a).led t h
  Leads-continue Mid Post k rest (err e) t h = h

module _ {S : Type 0} {Pre Thrown : S → Type 0} where
  pub Leads-bind :
      {A B : Type 0} (Mid : A → S → Type 0) {Post : B → S → Type 0} {m : Action S A}
      {k : A → Action S B}
      → Leads Pre m Mid Thrown
      → ((a : A) → Leads (Mid a) (k a) Post Thrown)
      → Leads Pre (m >>= k) Post Thrown
  Leads-bind Mid {Post = Post} {m = m} {k = k} first rest = record {
    led = λ s h. Leads-continue Mid Post k rest (m s).0 (m s).1 (first.led s h);
  }

  pub Leads-throw :
      {A : Type 0} {Post : A → S → Type 0} (e : Exception)
      → ((s : S) → Pre s → Thrown s)
      → Leads Pre (throw e) Post Thrown
  Leads-throw e h = record { led = h }

  pub Leads-throw_if :
      {Post : Unit {0} → S → Type 0} (b : Bool) (e : Exception)
      → ((s : S) → b ≡ true → Pre s → Thrown s)
      → ((s : S) → b ≡ false → Pre s → Post tt s)
      → Leads Pre (throw_if b e) Post Thrown
  Leads-throw_if true e h k = record { led = λ s p. h s refl p }
  Leads-throw_if false e h k = record { led = λ s p. k s refl p }

  pub Leads-pure :
      {A : Type 0} {Post : A → S → Type 0} (a : A)
      → ((s : S) → Pre s → Post a s)
      → Leads Pre (pure a) Post Thrown
  Leads-pure a h = record { led = h }

  pub Leads-gets :
      {A : Type 0} {Post : A → S → Type 0} (g : S → A)
      → ((s : S) → Pre s → Post (g s) s)
      → Leads Pre (gets g) Post Thrown
  Leads-gets g h = record { led = h }

  pub Leads-modify :
      {Post : Unit {0} → S → Type 0} (g : S → S)
      → ((s : S) → Pre s → Post tt (g s))
      → Leads Pre (modify g) Post Thrown
  Leads-modify g h = record { led = h }

-- What holds whatever the outcome is.
pub Meets-always :
    {S A : Type 0} (Post : A → S → Type 0) (Thrown : S → Type 0) (r : Result A) (t : S)
    → ((a : A) → Post a t)
    → Thrown t
    → Meets Post Thrown r t
Meets-always Post Thrown (ok a) t h k = h a
Meets-always Post Thrown (err e) t h k = k

pub Meets-ok :
    {S A : Type 0} (Post : A → S → Type 0) (Thrown : S → Type 0) (r : Result A) (t : S) (a : A)
    → Meets Post Thrown r t
    → r ≡ ok a
    → Post a t
Meets-ok Post Thrown (ok b) t a h e = let same : b ≡ a = cc e in rw (← same) h
Meets-ok Post Thrown (err x) t a h e = absurd (cc e)

pub Meets-thrown :
    {S A : Type 0} (Post : A → S → Type 0) (Thrown : S → Type 0) (r : Result A) (t : S)
    (e : Exception)
    → Meets Post Thrown r t
    → r ≡ err e
    → Thrown t
Meets-thrown Post Thrown (ok b) t x h e = absurd (cc e)
Meets-thrown Post Thrown (err y) t x h e = h
