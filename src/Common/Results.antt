-- ===== src/Common/Results.antt =====
-- Asynchronous methods that read and write a store and may throw. What was written before a throw
-- stays written, so the store comes back beside the exception too.
use Prim.Native.String.{String}
use mathlib.Core.Bool.{Bool, true, false}
use mathlib.Core.Option.{Option, none, some}
use mathlib.Core.Path.{◌≡◌, refl}
use text.Mathlib.Text.{◌==◌ as str_eq}
use clickup_sync.Common.Tests.{if◌then◌else◌}

-- The exceptions of @nestjs/common that the services throw, with their messages, and the
-- failures of the database, of the queues and of the mail server that they run into.
pub data Exception : Type 0 where
  bad_request unauthorized forbidden not_found conflict : String → Exception
  record_not_found unique_violation exclusion_violation mail_refused : Exception
  row_refused queue_refused unknown_queue internal_error foreign_key : Exception

pub data Result {ℓ} (A : Type ℓ) : Type ℓ where
  ok : A → Result A
  err : Exception → Result A

-- A method over the store `S`.
abbrev pub Action : Type 0 → Type 0 → Type 0
Action S A = S → Result A × S

module _ {S A B : Type 0} where
  -- What follows an `await`: the rest of the method, or the exception that was thrown.
  abbrev pub continue : Result A → (A → Action S B) → Action S B
  continue (ok a) f s = f a s
  continue (err e) f s = (err e, s)

  infixl 5 ◌>>=◌ ◌>>◌
  abbrev pub ◌>>=◌ : Action S A → (A → Action S B) → Action S B
  ◌>>=◌ m f s = let (r, s') = m s in continue r f s'

  abbrev pub ◌>>◌ : Action S A → Action S B → Action S B
  m >> k = m >>= λ _. k

module _ {S A : Type 0} where
  abbrev pub pure : A → Action S A
  pure a s = (ok a, s)

  abbrev pub throw : Exception → Action S A
  throw e s = (err e, s)

  abbrev pub gets : (S → A) → Action S A
  gets f s = (ok (f s), s)

abbrev pub modify : {S : Type 0} → (S → S) → Action S (Unit {0})
modify f s = (ok tt, f s)

-- `if (b) throw e`
abbrev pub throw_if : {S : Type 0} → Bool → Exception → Action S (Unit {0})
throw_if true e = throw e
throw_if false e = pure tt

-- `if (!o) throw e`, and the value from there on.
abbrev pub or_throw : {S A : Type 0} → Option A → Exception → Action S A
or_throw none e = throw e
or_throw (some a) e = pure a

module _ {S A : Type 0} where
  -- `try { m } catch { handler }`
  abbrev pub or_else : Result A → Action S A → Action S A
  or_else (ok a) handler s = (ok a, s)
  or_else (err e) handler s = handler s

  abbrev pub recover : Action S A → Action S A → Action S A
  recover m handler s = let (r, s') = m s in or_else r handler s'

  -- `m.catch(() => undefined)`
  abbrev pub caught : Action S A → Action S (Unit {0})
  caught m s = (ok tt, (m s).1)

-- A step that only returns leaves the store alone.
pub continue-pure :
    {S A B : Type 0} (r : Result A) (b : A → B) (s : S) → (continue r (λ a. pure (b a)) s).1 ≡ s
continue-pure (ok a) b s = refl
continue-pure (err e) b s = refl

-- JavaScript's truth of a text that may be absent: '' counts as absent.
abbrev pub truthy : Option String → Option String
truthy none = none
truthy (some s) = if str_eq s "" then none else some s
