-- ===== src/Client/Windows.antt =====
-- `getTimeEntries` and `getTimeEntriesWindow` of clickup.client.ts: the window is asked for in slices
-- of a year, and an entry that two slices return is kept once.
pub mod Union
use Prim.Native.Nat.{min}
use clickup_sync.Common.{
  ℕ, zero, suc, ◌+◌, ◌-◌, ◌*◌, ◌/◌, ◌≤◌, ◌<◌, ◌≡◌, refl, ap, sym, ◌∙◌, Bool, true, false, not, ◌&&◌,
  ◌||◌, String, Option, none, some, List, [], ◌∷◌, ◌++◌, ◌===◌, ltb, leb, if◌then◌else◌, arith,
  eq_iff, eq_refl, count, bit, find_many, or_false, Bool-cases, inl, inr,
}
use clickup_sync.Sync.Store.{is_text_id}
use clickup_sync.Sync.TimeEntries.{includes}

abbrev pub slice_ms : ℕ
slice_ms = 365 * 24 * 60 * 60 * 1000

module _ {E : Type 0} (id_of : E → Option String) where
  -- The entries that are pushed, and the ids that are known after them.
  abbrev pub push_known :
      Option String → E → List String → (List String → List E × List String) → List E × List String
  push_known none e seen next = (e ∷ (next seen).0, (next seen).1)
  push_known (some id) e seen next =
      if includes seen id then next seen else (e ∷ (next (id ∷ seen)).0, (next (id ∷ seen)).1)

  abbrev pub push_new : List E → List String → List E × List String
  push_new [] seen = ([], seen)
  push_new (e ∷ entries) seen = push_known (id_of e) e seen (push_new entries)

  -- `fetch` is the request of one slice; none is an exception.
  abbrev pub and_then : Option (List E) → List E → Option (List E)
  and_then none entries = none
  and_then (some more) entries = some (entries ++ more)

  abbrev pub on_slice :
      Option (List E) → List String → (List String → Option (List E)) → Option (List E)
  on_slice none seen next = none
  on_slice (some entries) seen next =
      and_then (next (push_new entries seen).1) (push_new entries seen).0

  unfoldable pub fetch_slices :
      (fuel start_ms end_ms : ℕ) → (ℕ → ℕ → Option (List E)) → List String → Option (List E)
  fetch_slices zero start_ms end_ms fetch seen = some []
  fetch_slices (suc fuel) start_ms end_ms fetch seen =
      if ltb start_ms end_ms
      then on_slice (fetch start_ms (min (start_ms + slice_ms) end_ms)) seen
          (λ known. fetch_slices fuel (start_ms + slice_ms) end_ms fetch known)
      else some []

  unfoldable pub fetch_window : ℕ → ℕ → (ℕ → ℕ → Option (List E)) → Option (List E)
  fetch_window start_ms end_ms fetch =
      fetch_slices (suc ((end_ms - start_ms) / slice_ms)) start_ms end_ms fetch []

  -- Whether an entry has the id.
  abbrev pub has_id : String → E → Bool
  has_id id e = is_text_id id (id_of e)

  abbrev pub is_among : String → List E → Bool
  is_among id [] = false
  is_among id (e ∷ entries) = has_id id e || is_among id entries

  module _ (id : String) where
    -- What is pushed and what was known is what is known after.
    abbrev pub Accounts : List String → Bool → List E × List String → Type 0
    Accounts seen among out =
        (count (has_id id) out.0 + bit (includes seen id) ≡ bit (includes out.1 id))
        × (includes out.1 id ≡ (includes seen id || among))

    push_known-Accounts :
        (found : Option String) (e : E) (seen : List String)
        (next : List String → List E × List String) (among : Bool)
        → id_of e ≡ found
        → ((known : List String) → Accounts known among (next known))
        → Accounts seen (is_text_id id found || among) (push_known found e seen next)
    push_known-Accounts none e seen next among own ih = rw own (ih seen)
    push_known-Accounts (some x) e seen next among own ih = elim (Bool-cases (includes seen x)) [
      | inl known ↦ elim (Bool-cases (x === id)) [
        | inl same ↦
            let path : x ≡ id = (eq_iff x id).0 same in
            let mine : includes seen id ≡ true = rw path at known in
            rw (known, same) ((ih seen).0, (ih seen).1 ∙ rw mine refl)
        | inr other ↦ rw (known, other) (ih seen)
      ]
      | inr new ↦ elim (Bool-cases (x === id)) [
        | inl same ↦
            let path : x ≡ id = (eq_iff x id).0 same in
            let mine : includes seen id ≡ false = rw path at new in
            let rest : Accounts (x ∷ seen) among (next (x ∷ seen)) = ih (x ∷ seen) in
            let after : includes (next (x ∷ seen)).1 id ≡ true = rw same at rest.1 in
            let sum : count (has_id id) (next (x ∷ seen)).0 + 1 ≡ 1 = rw (same, after) at rest.0 in
            rw (new, same, own, mine, after) (rw same (omega (arith, sum)), refl)
        | inr other ↦
            let rest : Accounts (x ∷ seen) among (next (x ∷ seen)) = ih (x ∷ seen) in
            rw (new, other, own) (rw other (rw other at rest))
      ]
    ]

    pub push_new-Accounts :
        (entries : List E) (seen : List String)
        → Accounts seen (is_among id entries) (push_new entries seen)
    push_new-Accounts [] seen = (omega arith, sym (or_false (includes seen id)))
    push_new-Accounts (e ∷ entries) seen =
        push_known-Accounts (id_of e) e seen (push_new entries) (is_among id entries) refl
          (push_new-Accounts entries)
