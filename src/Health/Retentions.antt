-- ===== src/Health/Retentions.antt =====
-- A registration behind a deletion that finds a webhook still there reactivates it. Each follows a
-- deletion of its run.
use clickup_sync.Common.{
  ℕ, ◌+◌, ◌≤◌, ◌≡◌, refl, String, Bool, true, false, ◌&&◌, Option, none, some, List, ◌∷◌, ◌===◌,
  arith, Bool-cases, inl, inr, count, leb, ltb, length, find_first,
}
use clickup_sync.Health.{
  put, record_attempt, recent, hour_ms, day_ms, max_recreates_per_day, HealthState,
  RegisteredWebhook, Registration, Observation, Call, reactivates, deletes, recreates, loses,
  retains, reactivated, recreated, escalate, heal, is_suspended, heal_target, heal_listed,
  heal_enabled, is_enabled, check_and_heal, Outcome,
}
use clickup_sync.Health.Limits.{Made, stamp, IsLimited}
use clickup_sync.Health.Bounds.{is_deletion, made_of}

abbrev pub is_retention : String → Call → Bool
is_retention k (retains endpoint id) = k === endpoint
is_retention k (reactivates endpoint id) = false
is_retention k (deletes endpoint id) = false
is_retention k (recreates endpoint id) = false
is_retention k (loses endpoint id) = false

-- In every window there are as many deletions at least.
abbrev pub Dominated : List Made → Type 0
Dominated made =
    (key : String) (lo hi : ℕ)
    → count (λ (x : Made). is_retention key x.call && (leb lo x.at && leb x.at hi)) made
      ≤ count (λ (x : Made). is_deletion key x.call && (leb lo x.at && leb x.at hi)) made

pub Dominated-IsLimited :
    (made : List Made)
    → Dominated made
    → IsLimited is_deletion day_ms max_recreates_per_day made
    → IsLimited is_retention day_ms max_recreates_per_day made
Dominated-IsLimited made fewer limited key w =
    omega (arith, fewer key w (w + day_ms), limited key w)

module _ (o : Observation) (made : List Made) (h : Dominated made) where
  abbrev Kept : Outcome → Type 0
  Kept out = Dominated (made_of o.now out.1 made)

  -- A call that is no reactivation behind a deletion.
  other_call :
      (c : Call) → ((k : String) → is_retention k c ≡ false) → Dominated (stamp o.now c ∷ made)
  other_call c no_retention key lo hi =
      let before = h key lo hi in ground (arith, no_retention key, before)

  deleted_then :
      (e i : String) (c : Call)
      → ((k : String) → is_deletion k c ≡ false)
      → ((k : String) → is_retention k c ≡ true → (k === e) ≡ true)
      → Dominated (stamp o.now c ∷ stamp o.now (deletes e i) ∷ made)
  deleted_then e i c no_deletion own key lo hi =
      let before = h key lo hi in
      elim (Bool-cases (is_retention key c)) [
        | inl hit ↦
            let same = own key hit in rw (hit, no_deletion key, same) (ground (arith, before))
        | inr miss ↦ rw (miss, no_deletion key) (ground (arith, before))
      ]

  module _ (target : RegisteredWebhook) where
    reactivated-Kept : (s : HealthState) (r : Option Registration) → Kept (reactivated o target s r)
    reactivated-Kept s none = other_call (loses o.configured_endpoint target.id) (λ k. refl)
    reactivated-Kept s (some r) = elim (Bool-cases (r.action === "existing")) [
      | inl same ↦ rw same h
      | inr updated ↦
          rw updated (other_call (reactivates o.configured_endpoint target.id) (λ k. refl))
    ]

    deleted-Kept : Dominated (stamp o.now (deletes o.configured_endpoint target.id) ∷ made)
    deleted-Kept = other_call (deletes o.configured_endpoint target.id) (λ k. refl)

    recreated-Kept : (s : HealthState) (r : Option Registration) → Kept (recreated o target s r)
    recreated-Kept s none =
        deleted_then o.configured_endpoint target.id (loses o.configured_endpoint target.id)
          (λ k. refl) (λ k never. absurd (cc never))
    recreated-Kept s (some r) = elim (Bool-cases (r.action === "created")) [
      | inl created ↦ rw created (
          deleted_then o.configured_endpoint target.id
            (recreates o.configured_endpoint r.webhook_id) (λ k. refl)
            (λ k never. absurd (cc never)))
      | inr other ↦ elim (Bool-cases (r.action === "existing")) [
        | inl same ↦ rw (other, same) deleted-Kept
        | inr updated ↦
            rw (other, updated)
              (deleted_then o.configured_endpoint target.id
                (retains o.configured_endpoint r.webhook_id) (λ k. refl) (λ k own. own))
      ]
    ]

    abbrev pruned : HealthState → HealthState
    pruned s = record s {
      heal_attempts =
          put target.id (recent hour_ms o.now (s.heal_attempts target.id)) s.heal_attempts;
    }

    abbrev attempted : HealthState → HealthState
    attempted s = record s {
      recreate_attempts = record_attempt o.now o.configured_endpoint (
          put o.configured_endpoint
            (recent day_ms o.now (s.recreate_attempts o.configured_endpoint)) s.recreate_attempts);
    }

    escalate-Kept : (s : HealthState) → Kept (escalate o target s)
    escalate-Kept s =
        elim (Bool-cases
          (ltb (length (recent day_ms o.now (s.recreate_attempts o.configured_endpoint))) 2)) [
            | inr spent ↦ rw spent h
            | inl left ↦ elim (Bool-cases o.reachable) [
              | inr down ↦ rw (left, down) h
              | inl up ↦ elim (Bool-cases o.deleted) [
                | inr refused ↦ rw (left, up, refused) deleted-Kept
                | inl gone ↦ rw (left, up, gone) (recreated-Kept (attempted s) o.registration)
              ]
            ]
          ]

    heal-Kept : (s : HealthState) → Kept (heal o target s)
    heal-Kept s =
        elim (Bool-cases (ltb (length (recent hour_ms o.now (s.heal_attempts target.id))) 3)) [
          | inr spent ↦ rw spent (escalate-Kept (pruned s))
          | inl left ↦ elim (Bool-cases o.reachable) [
            | inr down ↦ rw (left, down) h
            | inl up ↦ rw (left, up) (reactivated-Kept (pruned s) o.registration)
          ]
        ]

  heal_target-Kept :
      (s : HealthState) (found : Option RegisteredWebhook) → Kept (heal_target o s found)
  heal_target-Kept s none = h
  heal_target-Kept s (some target) = elim (Bool-cases (is_suspended target)) [
    | inl suspended ↦ rw suspended (heal-Kept target s)
    | inr fine ↦ rw fine h
  ]

  heal_listed-Kept :
      (s : HealthState) (webhooks : Option (List RegisteredWebhook))
      → Kept (heal_listed o s webhooks)
  heal_listed-Kept s none = h
  heal_listed-Kept s (some webhooks) =
      heal_target-Kept s (find_first (λ w. w.endpoint === o.configured_endpoint) webhooks)

  heal_enabled-Kept : (s : HealthState) (b : Bool) → Kept (heal_enabled o s b)
  heal_enabled-Kept s true = heal_listed-Kept s o.webhooks
  heal_enabled-Kept s false = h

  pub check_and_heal-Dominated :
      (s : HealthState) → Dominated (made_of o.now (check_and_heal o s).1 made)
  unfolding check_and_heal
  check_and_heal-Dominated s = heal_enabled-Kept s (is_enabled o.autoheal_enabled)
