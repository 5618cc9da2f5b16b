-- ===== src/Health/Bounds.antt =====
-- A run keeps the calls within the limits of hours and days.
use clickup_sync.Common.{
  ℕ, ◌<◌, ◌≡◌, refl, String, Bool, false, Option, none, some, List, [], ◌∷◌, ◌===◌, ltb, arith,
  Bool-cases, inl, inr, length,
}
use clickup_sync.Health.{
  put, recent, record_attempt, hour_ms, day_ms, HealthState, RegisteredWebhook, Registration,
  Observation, Call, reactivates, deletes, recreates, loses, retains, reactivated, recreated,
  escalate, heal, max_heals_per_hour, max_recreates_per_day, Outcome,
}
use clickup_sync.Health.Limits.{
  Made, stamp, IsLimited, Matches, pruned-Matches, attempt-Matches, attempt-IsLimited,
  other-IsLimited, other-Matches,
}

abbrev pub is_deletion : String → Call → Bool
is_deletion k (deletes endpoint id) = k === endpoint
is_deletion k (reactivates endpoint id) = false
is_deletion k (recreates endpoint id) = false
is_deletion k (loses endpoint id) = false
is_deletion k (retains endpoint id) = false

-- A reactivation in place that was answered.
abbrev pub is_reactivation : String → Call → Bool
is_reactivation k (reactivates endpoint id) = k === id
is_reactivation k (deletes endpoint id) = false
is_reactivation k (recreates endpoint id) = false
is_reactivation k (loses endpoint id) = false
is_reactivation k (retains endpoint id) = false

-- The calls of a run in front of those made before.
abbrev pub made_of : ℕ → List Call → List Made → List Made
made_of now [] made = made
made_of now (c ∷ calls) made = made_of now calls (stamp now c ∷ made)

abbrev pub IsSound : ℕ → HealthState → List Made → Type 0
IsSound now s made =
    Matches is_deletion day_ms max_recreates_per_day now s.recreate_attempts made
    × IsLimited is_deletion day_ms max_recreates_per_day made
    × Matches is_reactivation hour_ms max_heals_per_hour now s.heal_attempts made
    × IsLimited is_reactivation hour_ms max_heals_per_hour made

-- A call that is of neither kind.
uncounted :
    (now : ℕ) (s : HealthState) (call : Call) (made : List Made)
    → ((k : String) → is_deletion k call ≡ false)
    → ((k : String) → is_reactivation k call ≡ false)
    → IsSound now s made
    → IsSound now s (stamp now call ∷ made)
uncounted now s call made no_deletion no_reactivation h = (
  other-Matches is_deletion day_ms max_recreates_per_day now now call s.recreate_attempts made
      no_deletion h.0,
  other-IsLimited is_deletion day_ms max_recreates_per_day now call made no_deletion h.1,
  other-Matches is_reactivation hour_ms max_heals_per_hour now now call s.heal_attempts made
      no_reactivation h.2,
  other-IsLimited is_reactivation hour_ms max_heals_per_hour now call made no_reactivation h.3,
)

module _ (o : Observation) (target : RegisteredWebhook) (made : List Made) where
  abbrev pub Keeps : Outcome → Type 0
  Keeps out = IsSound o.now out.0 (made_of o.now out.1 made)

  abbrev heals_pruned : HealthState → HealthState
  heals_pruned s = record s {
    heal_attempts =
        put target.id (recent hour_ms o.now (s.heal_attempts target.id)) s.heal_attempts;
  }

  heals_pruned-IsSound :
      (s : HealthState) → IsSound o.now s made → IsSound o.now (heals_pruned s) made
  heals_pruned-IsSound s h = (
    h.0,
    h.1,
    pruned-Matches is_reactivation hour_ms max_heals_per_hour o.now target.id s.heal_attempts made
        h.2,
    h.3,
  )

  reactivated-Keeps :
      (s : HealthState) (r : Option Registration)
      → length (recent hour_ms o.now (s.heal_attempts target.id)) < 3
      → IsSound o.now s made
      → Keeps (reactivated o target (heals_pruned s) r)
  reactivated-Keeps s none few h =
      uncounted o.now (heals_pruned s) (loses o.configured_endpoint target.id) made (λ k. refl)
        (λ k. refl) (heals_pruned-IsSound s h)
  reactivated-Keeps s (some r) few h = elim (Bool-cases (r.action === "existing")) [
    | inl same ↦ rw same (heals_pruned-IsSound s h)
    | inr changed ↦
        let p = heals_pruned-IsSound s h in
        let call = reactivates o.configured_endpoint target.id in
        rw changed (
          other-Matches is_deletion day_ms max_recreates_per_day o.now o.now call
              s.recreate_attempts made (λ k. refl) h.0,
          other-IsLimited is_deletion day_ms max_recreates_per_day o.now call made (λ k. refl) h.1,
          attempt-Matches is_reactivation hour_ms max_heals_per_hour o.now target.id call
              (λ k. refl) (heals_pruned s).heal_attempts made p.2,
          attempt-IsLimited is_reactivation hour_ms max_heals_per_hour o.now target.id call
              (λ k. refl) s.heal_attempts made h.2 few h.3,
        )
  ]

  abbrev recreates_pruned : HealthState → HealthState
  recreates_pruned s = record s {
    recreate_attempts =
        put o.configured_endpoint (recent day_ms o.now (s.recreate_attempts o.configured_endpoint))
          s.recreate_attempts;
  }

  recreates_pruned-IsSound :
      (s : HealthState) → IsSound o.now s made → IsSound o.now (recreates_pruned s) made
  recreates_pruned-IsSound s h = (
    pruned-Matches is_deletion day_ms max_recreates_per_day o.now o.configured_endpoint
        s.recreate_attempts made h.0,
    h.1,
    h.2,
    h.3,
  )

  -- The attempt is recorded, and the webhook is deleted.
  abbrev attempted : HealthState → HealthState
  attempted s = record (recreates_pruned s) {
    recreate_attempts =
        record_attempt o.now o.configured_endpoint (recreates_pruned s).recreate_attempts;
  }

  deleted-IsSound :
      (s : HealthState)
      → length (recent day_ms o.now (s.recreate_attempts o.configured_endpoint)) < 2
      → IsSound o.now s made
      → IsSound o.now (attempted s) (stamp o.now (deletes o.configured_endpoint target.id) ∷ made)
  deleted-IsSound s few h =
      let call = deletes o.configured_endpoint target.id in
      let p = recreates_pruned-IsSound s h in
      (
        attempt-Matches is_deletion day_ms max_recreates_per_day o.now o.configured_endpoint call
            (λ k. refl) (recreates_pruned s).recreate_attempts made p.0,
        attempt-IsLimited is_deletion day_ms max_recreates_per_day o.now o.configured_endpoint call
            (λ k. refl) s.recreate_attempts made h.0 few h.1,
        other-Matches is_reactivation hour_ms max_heals_per_hour o.now o.now call s.heal_attempts
            made (λ k. refl) h.2,
        other-IsLimited is_reactivation hour_ms max_heals_per_hour o.now call made (λ k. refl) h.3,
      )

  recreated-Keeps :
      (s : HealthState) (r : Option Registration)
      → IsSound o.now s (stamp o.now (deletes o.configured_endpoint target.id) ∷ made)
      → Keeps (recreated o target s r)
  recreated-Keeps s none h =
      uncounted o.now s (loses o.configured_endpoint target.id)
        (stamp o.now (deletes o.configured_endpoint target.id) ∷ made) (λ k. refl) (λ k. refl) h
  recreated-Keeps s (some r) h = elim (Bool-cases (r.action === "created")) [
    | inl created ↦ rw created (
        uncounted o.now s (recreates o.configured_endpoint r.webhook_id)
          (stamp o.now (deletes o.configured_endpoint target.id) ∷ made) (λ k. refl) (λ k. refl) h)
    | inr other ↦ elim (Bool-cases (r.action === "existing")) [
      | inl same ↦ rw (other, same) h
      | inr updated ↦
          rw (other, updated)
            (uncounted o.now s (retains o.configured_endpoint r.webhook_id)
              (stamp o.now (deletes o.configured_endpoint target.id) ∷ made) (λ k. refl) (λ k. refl)
              h)
    ]
  ]

  escalate-Keeps : (s : HealthState) → IsSound o.now s made → Keeps (escalate o target s)
  escalate-Keeps s h =
      elim (Bool-cases
        (ltb (length (recent day_ms o.now (s.recreate_attempts o.configured_endpoint))) 2)) [
          | inr spent ↦ rw spent (recreates_pruned-IsSound s h)
          | inl left ↦ elim (Bool-cases o.reachable) [
            | inr down ↦ rw (left, down) (recreates_pruned-IsSound s h)
            | inl up ↦
                let few : length (recent day_ms o.now (s.recreate_attempts o.configured_endpoint))
                    < 2 =
                  ground (arith, left) in
                let sound = deleted-IsSound s few h in
                elim (Bool-cases o.deleted) [
                  | inr refused ↦ rw (left, up, refused) sound
                  | inl gone ↦
                      rw (left, up, gone) (recreated-Keeps (attempted s) o.registration sound)
                ]
          ]
        ]

  pub heal-Keeps : (s : HealthState) → IsSound o.now s made → Keeps (heal o target s)
  heal-Keeps s h =
      elim (Bool-cases (ltb (length (recent hour_ms o.now (s.heal_attempts target.id))) 3)) [
        | inr spent ↦ rw spent (escalate-Keeps (heals_pruned s) (heals_pruned-IsSound s h))
        | inl left ↦ elim (Bool-cases o.reachable) [
          | inr down ↦ rw (left, down) (heals_pruned-IsSound s h)
          | inl up ↦
              let few : length (recent hour_ms o.now (s.heal_attempts target.id)) < 3 =
                ground (arith, left) in
              rw (left, up) (reactivated-Keeps s o.registration few h)
        ]
      ]
