-- ===== src/Health/Limits.antt =====
-- A list of timestamps that is pruned to its window bounds the attempts in every window.
use clickup_sync.Common.{
  ℕ, ◌+◌, ◌-◌, ◌≤◌, ◌<◌, ◌≡◌, refl, sym, ◌∙◌, ap, String, Bool, false, ◌&&◌, List, [], ◌∷◌, ◌++◌,
  ◌===◌, leb, bit, arith, eq_iff, Bool-cases, inl, inr, length, count,
}
use clickup_sync.Health.{Attempts, put, recent, record_attempt, Call}

-- A call with the time of its run.
pub record Made : Type 0 where
  pub at : ℕ
  pub call : Call

abbrev pub stamp : ℕ → Call → Made
stamp now c = record { at = now; call = c }

count-push :
    (c now : ℕ) (xs : List ℕ)
    → count (leb c) (xs ++ (now ∷ [])) ≡ bit (leb c now) + count (leb c) xs
count-push c now [] = ground arith
count-push c now (x ∷ xs) = ground (arith, count-push c now xs)

module _ (window : ℕ) where
  count-recent :
      (now c : ℕ) (xs : List ℕ)
      → now - window ≤ c
      → count (leb c) (recent window now xs) ≡ count (leb c) xs
  count-recent now c [] h = refl
  count-recent now c (x ∷ xs) h = ground (arith, count-recent now c xs h, h)

  length-recent :
      (now : ℕ) (xs : List ℕ) → length (recent window now xs) ≡ count (leb (now - window)) xs
  length-recent now [] = refl
  length-recent now (x ∷ xs) = ground (arith, length-recent now xs)

module _ (hits : String → Call → Bool) (window most : ℕ) where
  abbrev pub since : ℕ → String → Made → Bool
  since c key x = hits key x.call && leb c x.at

  abbrev pub within : ℕ → ℕ → String → Made → Bool
  within lo hi key x = hits key x.call && (leb lo x.at && leb x.at hi)

  -- In every window, its ends included, the attempts of a key are at most so many.
  abbrev pub IsLimited : List Made → Type 0
  IsLimited made = (key : String) (w : ℕ) → count (within w (w + window) key) made ≤ most

  -- The timestamps of a key tell how many attempts there were since a time of the current window.
  abbrev pub Matches : ℕ → Attempts → List Made → Type 0
  Matches now m made =
      (key : String) (c : ℕ) → now - window ≤ c → count (leb c) (m key) ≡ count (since c key) made

  pub pruned-Matches :
      (now : ℕ) (key : String) (m : Attempts) (made : List Made)
      → Matches now m made
      → Matches now (put key (recent window now (m key)) m) made
  pruned-Matches now key m made h k c late = elim (Bool-cases (k === key)) [
    | inr other ↦ rw other (h k c late)
    | inl same ↦
        let own : k ≡ key = (eq_iff k key).0 same in
        rw (same, own) (count-recent window now c (m key) late ∙ h key c late)
  ]

  pub later-Matches :
      (now later : ℕ) (m : Attempts) (made : List Made)
      → now ≤ later
      → Matches now m made
      → Matches later m made
  later-Matches now later m made le h k c late = h k c (omega (arith, le, late))

  within-since :
      (lo hi c : ℕ) (key : String) (made : List Made)
      → c ≤ lo
      → count (within lo hi key) made ≤ count (since c key) made
  within-since lo hi c key [] h = omega arith
  within-since lo hi c key (x ∷ made) h = ground (arith, within-since lo hi c key made h, h)

  module _ (now : ℕ) (key : String) (call : Call) (own : (k : String) → hits k call ≡ (k === key))
      (m : Attempts) (made : List Made) (h : Matches now m made) where
    pub attempt-Matches : Matches now (record_attempt now key m) (stamp now call ∷ made)
    attempt-Matches k c late = elim (Bool-cases (k === key)) [
      | inr other ↦ rw (own k, other) (h k c late)
      | inl same ↦
          let it : k ≡ key = (eq_iff k key).0 same in
          let before : count (leb c) (m key) ≡ count (since c k) made =
            ap (λ x. count (leb c) (m x)) (sym it) ∙ h k c late in
          let more = count-push c now (m key) in
          elim (Bool-cases (leb c now)) [
            | inl inside ↦
                let one : bit (leb c now) ≡ 1 = ap bit inside in
                rw (own k, same, inside) (omega (arith, more, before, one))
            | inr outside ↦
                let zero_more : bit (leb c now) ≡ 0 = ap bit outside in
                rw (own k, same, outside) (omega (arith, more, before, zero_more))
          ]
    ]

    pub attempt-IsLimited :
        length (recent window now (m key)) < most
        → IsLimited made
        → IsLimited (stamp now call ∷ made)
    attempt-IsLimited few limited k w = elim (Bool-cases (k === key)) [
      | inr other ↦ rw (own k, other) (limited k w)
      | inl same ↦ elim (Bool-cases (leb w now && leb now (w + window))) [
        | inr outside ↦ rw (own k, same, outside) (limited k w)
        | inl inside ↦
            let it : k ≡ key = (eq_iff k key).0 same in
            let reach : now - window ≤ w = ground (arith, inside) in
            let bound = within-since w (w + window) (now - window) k made reach in
            let seen = h k (now - window) (omega arith) in
            let times : count (leb (now - window)) (m k) ≡ count (leb (now - window)) (m key) =
              ap (λ x. count (leb (now - window)) (m x)) it in
            let size = length-recent window now (m key) in
            rw (own k, same, inside) (omega (arith, bound, seen, times, size, few))
      ]
    ]

  pub other-IsLimited :
      (now : ℕ) (call : Call) (made : List Made)
      → ((k : String) → hits k call ≡ false)
      → IsLimited made
      → IsLimited (stamp now call ∷ made)
  other-IsLimited now call made none_hit h k w = rw (none_hit k) (h k w)

  pub other-Matches :
      (t now : ℕ) (call : Call) (m : Attempts) (made : List Made)
      → ((k : String) → hits k call ≡ false)
      → Matches t m made
      → Matches t m (stamp now call ∷ made)
  other-Matches t now call m made none_hit h k c late = rw (none_hit k) (h k c late)
