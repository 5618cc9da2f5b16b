-- ===== src/Client/Windows/Union.antt =====
-- The slices make up the window.
use Prim.Native.Nat.{min}
use clickup_sync.Common.{
  ℕ, zero, suc, ◌+◌, ◌-◌, ◌*◌, ◌/◌, ◌≤◌, ◌<◌, ◌≡◌, refl, ap, ◌∙◌, Bool, true, false, ◌&&◌, ◌||◌,
  String, Option, none, some, List, [], ◌∷◌, ◌++◌, ltb, leb, arith, count, bit, find_many, or_pairs,
  and_or, and_true, and_false, or_assoc, Bool-cases, inl, inr,
}
use clickup_sync.Sync.TimeEntries.{includes}
use clickup_sync.Client.Windows.{
  slice_ms, push_new, and_then, fetch_slices, fetch_window, has_id, is_among, push_new-Accounts,
}

slice_end_within : (s e : ℕ) → s + slice_ms < e → min (s + slice_ms) e ≡ s + slice_ms
slice_end_within s e h = omega (arith, h)

slice_end_last : (s e : ℕ) → e ≤ s + slice_ms → min (s + slice_ms) e ≡ e
slice_end_last s e h = omega (arith, h)

ltb-le : (a b : ℕ) → b ≤ a → ltb a b ≡ false
ltb-le a b h = ground (arith, h)

within_split :
    (a m b t : ℕ)
    → a ≤ m
    → m ≤ b
    → (leb a t && leb t b) ≡ ((leb a t && leb t m) || (leb m t && leb t b))
within_split a m b t h k = ground (arith, h, k)

-- The call returns, and its entries have the property.
abbrev pub Gives : {A : Type 0} → (A → Type 0) → Option A → Type 0
Gives P none = ⊥
Gives P (some a) = P a

module _ {E : Type 0} (id_of : E → Option String) (at_ms : E → ℕ) where
  abbrev pub is_within : ℕ → ℕ → E → Bool
  is_within from until e = leb from (at_ms e) && leb (at_ms e) until

  -- ClickUp holds an entry of the id in the window, its ends included.
  abbrev pub is_held : ℕ → ℕ → String → List E → Bool
  is_held from until id [] = false
  is_held from until id (e ∷ stored) =
      (has_id id_of id e && is_within from until e) || is_held from until id stored

  is_among-find_many :
      (from until : ℕ) (id : String) (stored : List E)
      → is_among id_of id (find_many (is_within from until) stored) ≡ is_held from until id stored
  is_among-find_many from until id [] = refl
  is_among-find_many from until id (e ∷ stored) = elim (Bool-cases (is_within from until e)) [
    | inl h ↦ rw (h, is_among-find_many from until id stored, and_true (has_id id_of id e)) refl
    | inr h ↦ rw (h, is_among-find_many from until id stored, and_false (has_id id_of id e)) refl
  ]

  is_held_split :
      (from mid until : ℕ) (id : String) (stored : List E)
      → from ≤ mid
      → mid ≤ until
      → is_held from until id stored ≡ (is_held from mid id stored || is_held mid until id stored)
  is_held_split from mid until id [] h k = refl
  is_held_split from mid until id (e ∷ stored) h k =
      rw
        (
          within_split from mid until (at_ms e) h k,
          is_held_split from mid until id stored h k,
          and_or (has_id id_of id e) (is_within from mid e) (is_within mid until e),
        )
        (or_pairs (has_id id_of id e && is_within from mid e)
          (has_id id_of id e && is_within mid until e) (is_held from mid id stored)
          (is_held mid until id stored))

  count-append : (p : E → Bool) (xs ys : List E) → count p (xs ++ ys) ≡ count p xs + count p ys
  count-append p [] ys = omega arith
  count-append p (x ∷ xs) ys = ground (arith, count-append p xs ys)

  -- ClickUp returns what it holds in the window that is asked for.
  abbrev pub IsServed : List E → (ℕ → ℕ → Option (List E)) → Type 0
  IsServed stored fetch =
      (from until : ℕ) → fetch from until ≡ some (find_many (is_within from until) stored)

  -- The entries of the ids that were not known before, each once.
  abbrev Fills : ℕ → ℕ → List E → List String → List E → Type 0
  Fills from until stored seen out =
      (id : String)
      → count (has_id id_of id) out + bit (includes seen id)
        ≡ bit (includes seen id || is_held from until id stored)

  module _ (s m : ℕ) (stored : List E) (seen : List String) where
    abbrev pushed : List E × List String
    pushed = push_new id_of (find_many (is_within s m) stored) seen

    pushed_known :
        (id : String) → includes pushed.1 id ≡ (includes seen id || is_held s m id stored)
    pushed_known id =
        (push_new-Accounts id_of id (find_many (is_within s m) stored) seen).1
        ∙ ap (λ b. includes seen id || b) (is_among-find_many s m id stored)

    pushed_count :
        (id : String)
        → count (has_id id_of id) pushed.0 + bit (includes seen id) ≡ bit (includes pushed.1 id)
    pushed_count id = (push_new-Accounts id_of id (find_many (is_within s m) stored) seen).0

    last_slice : Gives (Fills s m stored seen) (and_then id_of (some []) pushed.0)
    last_slice id = omega (
      arith,
      count-append (has_id id_of id) pushed.0 [],
      pushed_count id,
      ap bit (pushed_known id),
    )

    next_slice :
        (e : ℕ) (rest : Option (List E))
        → s ≤ m
        → m ≤ e
        → Gives (Fills m e stored pushed.1) rest
        → Gives (Fills s e stored seen) (and_then id_of rest pushed.0)
    next_slice e none h k given = given
    next_slice e (some more) h k given = λ id.
        let all : (includes pushed.1 id || is_held m e id stored)
            ≡ (includes seen id || is_held s e id stored) =
          rw (pushed_known id, is_held_split s m e id stored h k)
            (or_assoc (includes seen id) (is_held s m id stored) (is_held m e id stored)) in
        omega (
          arith,
          count-append (has_id id_of id) pushed.0 more,
          pushed_count id,
          given id,
          ap bit all,
        )

  fetch_slices_end :
      (fuel s e : ℕ) (fetch : ℕ → ℕ → Option (List E)) (seen : List String)
      → e ≤ s
      → fetch_slices id_of fuel s e fetch seen ≡ some []
  unfolding fetch_slices
  fetch_slices_end zero s e fetch seen h = refl
  fetch_slices_end (suc fuel) s e fetch seen h = rw (ltb-le s e h) refl

  fetch_slices_lem :
      (fuel s e : ℕ) (stored : List E) (fetch : ℕ → ℕ → Option (List E)) (seen : List String)
      → IsServed stored fetch
      → s < e
      → e ≤ s + fuel * slice_ms
      → Gives (Fills s e stored seen) (fetch_slices id_of fuel s e fetch seen)
  unfolding fetch_slices
  fetch_slices_lem zero s e stored fetch seen served h k = absurd (omega (arith, h, k))
  fetch_slices_lem (suc fuel) s e stored fetch seen served h k =
      let begun : ltb s e ≡ true = ground (arith, h) in
      elim (Bool-cases (ltb (s + slice_ms) e)) [
        | inr last ↦
            let over : e ≤ s + slice_ms = ground (arith, last) in
            rw
              (
                begun,
                slice_end_last s e over,
                served s e,
                fetch_slices_end fuel (s + slice_ms) e fetch _ over,
              )
              (last_slice s e stored seen)
        | inl more ↦
            let within : s + slice_ms < e = ground (arith, more) in
            rw (begun, slice_end_within s e within, served s (s + slice_ms))
              (next_slice s (s + slice_ms) stored seen e _ (omega arith) (omega (arith, within)) (
                fetch_slices_lem fuel (s + slice_ms) e stored fetch _ served within
                  (omega (arith, k))))
      ]

  -- Where ClickUp returns what it holds in the window that is asked for, the slices of a window that is
  -- not empty return every entry of the window once.
  pub fetch_window_lem :
      (s e : ℕ) (stored : List E) (fetch : ℕ → ℕ → Option (List E))
      → IsServed stored fetch
      → s < e
      → Gives
          (λ out. (id : String) → count (has_id id_of id) out ≡ bit (is_held s e id stored))
          (fetch_window id_of s e fetch)
  unfolding fetch_window
  fetch_window_lem s e stored fetch served h =
      Gives_map (fetch_slices id_of (suc ((e - s) / slice_ms)) s e fetch []) (
        fetch_slices_lem (suc ((e - s) / slice_ms)) s e stored fetch [] served h (omega (arith, h)))
    where
      Gives_map :
          (o : Option (List E))
          → Gives (Fills s e stored []) o
          → Gives
              (λ out. (id : String) → count (has_id id_of id) out ≡ bit (is_held s e id stored))
              o
      Gives_map none given = given
      Gives_map (some out) given = λ id. omega (arith, given id)
