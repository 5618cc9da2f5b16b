-- ===== src/Sync/Outside.antt =====
-- What lies outside the slice of one task, a set of users and a window of time.
use clickup_sync.Common.{
  and_false, ℕ, ◌≤◌, ◌≡◌, refl, ap, ◌⊎◌, inl, inr, String, true, false, ◌&&◌, Option, none, some,
  List, [], ◌∷◌, ◌===◌, leb, arith, eq_iff, eq_refl, Bool-cases, All,
}
use clickup_sync.Sync.Store.{EntryRow, is_text_id}
use clickup_sync.Sync.TimeEntries.{is_in, includes, in_window, in_slice}

module _ {Hours Details : Type 0} where
  -- Of another task, of none of the users, or not started in the window.
  abbrev pub IsOutside : String → List String → ℕ × ℕ → EntryRow Hours Details → Type 0
  IsOutside task users window r =
      (¬ (r.entry.task_id ≡ some task))
      ⊎ (All (λ u. ¬ (r.entry.user_id ≡ some u)) users
          ⊎ ((t : ℕ) → r.entry.start_time ≡ some t → ¬ ((window.0 ≤ t) × (t ≤ window.1))))

is_text_id_other : (s : String) (t : Option String) → ¬ (t ≡ some s) → is_text_id s t ≡ false
is_text_id_other s none other = refl
is_text_id_other s (some t) other = elim (Bool-cases (t === s)) [
  | inl same ↦ absurd (other (ap some ((eq_iff t s).0 same)))
  | inr e ↦ e
]

includes_other :
    (users : List String) (u : String)
    → All (λ x. ¬ (some u ≡ some x)) users
    → includes users u ≡ false
includes_other [] u others = refl
includes_other (x ∷ users) u others = elim (Bool-cases (x === u)) [
  | inl same ↦ absurd (others.0 (cc ((eq_iff x u).0 same)))
  | inr e ↦ rw e (includes_other users u others.1)
]

is_in_other :
    (users : List String) (u : Option String)
    → All (λ x. ¬ (u ≡ some x)) users
    → is_in users u ≡ false
is_in_other users none others = refl
is_in_other users (some u) others = includes_other users u others

in_window_other :
    (from until : ℕ) (start : Option ℕ)
    → ((t : ℕ) → start ≡ some t → ¬ ((from ≤ t) × (t ≤ until)))
    → in_window from until start ≡ false
in_window_other from until none early = refl
in_window_other from until (some t) early =
    let out : ¬ ((from ≤ t) × (t ≤ until)) = early t refl in ground arith

module _ {Hours Details : Type 0} where
  pub in_slice_outside :
      (task : String) (users : List String) (window : ℕ × ℕ) (r : EntryRow Hours Details)
      → IsOutside task users window r
      → in_slice task users window r ≡ false
  in_slice_outside task users window r (inl other) =
      rw (is_text_id_other task r.entry.task_id other) refl
  in_slice_outside task users window r (inr (inl others)) =
      rw (is_in_other users r.entry.user_id others) (and_false (is_text_id task r.entry.task_id))
  in_slice_outside task users window r (inr (inr early)) =
      rw
        (
          in_window_other window.0 window.1 r.entry.start_time early,
          and_false (is_in users r.entry.user_id),
        )
        (and_false (is_text_id task r.entry.task_id))

text_not_id : (s : String) (t : Option String) → is_text_id s t ≡ false → ¬ (t ≡ some s)
text_not_id s t h e = absurd (cc (rw (e, eq_refl s) at h))

other_text : (x u : String) → (x === u) ≡ false → ¬ (some u ≡ some x)
other_text x u apart e =
    let same : u ≡ x = cc e in
    let own : (x === u) ≡ true = rw same (eq_refl x) in
    let both : true ≡ false = rw own at apart in absurd (cc both)

not_in :
    (users : List String) (u : Option String)
    → is_in users u ≡ false
    → All (λ x. ¬ (u ≡ some x)) users
not_in [] u h = tt
not_in (x ∷ users) none h = (λ e. absurd (cc e), not_in users none refl)
not_in (x ∷ users) (some u) h = elim (Bool-cases (x === u)) [
  | inl same ↦ absurd (cc (rw same at h))
  | inr apart ↦ (other_text x u apart, not_in users (some u) (rw apart at h))
]

not_in_window :
    (from until : ℕ) (start : Option ℕ)
    → in_window from until start ≡ false
    → (t : ℕ) → start ≡ some t
    → ¬ ((from ≤ t) × (t ≤ until))
not_in_window from until none h t e = absurd (cc e)
not_in_window from until (some v) h t e =
    let same : v ≡ t = cc e in
    let out : (leb from t && leb t until) ≡ false = rw (← same) h in λ inside. ground arith

module _ {Hours Details : Type 0} where
  pub in_slice-IsOutside :
      (task : String) (users : List String) (window : ℕ × ℕ) (r : EntryRow Hours Details)
      → in_slice task users window r ≡ false
      → IsOutside task users window r
  in_slice-IsOutside task users window r h = elim (Bool-cases (is_text_id task r.entry.task_id)) [
    | inr other ↦ inl (text_not_id task r.entry.task_id other)
    | inl mine ↦ elim (Bool-cases (is_in users r.entry.user_id)) [
      | inr other ↦ inr (inl (not_in users r.entry.user_id other))
      | inl asked ↦
          inr (inr (not_in_window window.0 window.1 r.entry.start_time (rw (mine, asked) at h)))
    ]
  ]
