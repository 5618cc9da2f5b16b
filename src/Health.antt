-- ===== src/Health.antt =====
-- webhook-health.service.ts. What ClickUp, the probe and the audit log answer in a run of the cron
-- job is its `Observation`; what the run asks ClickUp for is its list of `Call`s.
pub mod Limits
pub mod Bounds
pub mod Retentions
pub mod Runs
pub mod Tests
use clickup_sync.Common.{
  ℕ, ◌-◌, ◌*◌, String, Bool, true, false, not, ◌||◌, Option, none, some, List, [], ◌∷◌, ◌++◌, ◌===◌,
  ltb, leb, if◌then◌else◌, length, find_first, find_many,
}

-- Timestamps by key, `Map<string, number[]>`: a missing key has none.
abbrev pub Attempts : Type 0
Attempts = String → List ℕ

abbrev pub put : String → List ℕ → Attempts → Attempts
put key times m k = if k === key then times else m k

-- The rest of a map after `countInWindow`, and the number it returns.
abbrev pub recent : ℕ → ℕ → List ℕ → List ℕ
recent window now times = find_many (λ t. leb (now - window) t) times

abbrev pub count_in_window : ℕ → ℕ → String → Attempts → ℕ × Attempts
count_in_window window now key m =
    (length (recent window now (m key)), put key (recent window now (m key)) m)

abbrev pub record_attempt : ℕ → String → Attempts → Attempts
record_attempt now key m = put key (m key ++ (now ∷ [])) m

abbrev pub max_heals_per_hour : ℕ
max_heals_per_hour = 3

abbrev pub max_recreates_per_day : ℕ
max_recreates_per_day = 2

abbrev pub hour_ms : ℕ
hour_ms = 60 * 60 * 1000

abbrev pub day_ms : ℕ
day_ms = 24 * 60 * 60 * 1000

-- The fields of the service.
pub record HealthState : Type 0 where
  pub heal_attempts : Attempts
  pub recreate_attempts : Attempts
  pub exhausted_logged : List String

pub record RegisteredWebhook : Type 0 where
  pub id : String
  pub endpoint : String
  pub health_status : Option String

-- What `register` returns.
pub record Registration : Type 0 where
  pub action : String
  pub webhook_id : String
  pub secret_stored : Bool

-- WEBHOOK_AUTOHEAL_ENABLED, true where it is missing, and maybe the text of the environment.
pub data ConfigValue : Type 0 where
  flag : Bool → ConfigValue
  word : String → ConfigValue

-- `raw === true || raw === 'true'`
abbrev pub is_enabled : ConfigValue → Bool
is_enabled (flag b) = b
is_enabled (word s) = s === "true"

-- What the outside answers in one run; none is an exception.
pub record Observation : Type 0 where
  pub now : ℕ
  pub autoheal_enabled : ConfigValue
  pub configured_endpoint : String
  pub webhooks : Option (List RegisteredWebhook)
  pub reachable : Bool
  pub deleted : Bool
  pub registration : Option Registration

-- `loses` is a registration that throws, whose PUT may have been carried out; `retains` is one behind a
-- deletion that finds a webhook still there and reactivates it.
pub data Call : Type 0 where
  reactivates deletes recreates loses retains : (endpoint id : String) → Call

abbrev pub is_suspended : RegisteredWebhook → Bool
is_suspended w = elim w.health_status [ none ↦ false | some s ↦ s === "suspended" ]

-- `this.exhaustedLogged.delete(endpoint)`, and `add` where it is missing.
abbrev pub forget : String → List String → List String
forget e logged = find_many (λ x. not (x === e)) logged

abbrev pub log_exhausted : String → List String → List String
log_exhausted e logged = elim (find_first (λ x. x === e) logged) [
  | none ↦ e ∷ logged
  | some _ ↦ logged
]

abbrev pub Outcome : Type 0
Outcome = HealthState × List Call

-- Path 1: what `register` answers to the reactivation.
abbrev pub reactivated :
    Observation → RegisteredWebhook → HealthState → Option Registration → Outcome
reactivated o target s none = (s, loses o.configured_endpoint target.id ∷ [])
reactivated o target s (some r) = if r.action === "existing" then (s, []) else (
  record s {
    heal_attempts = record_attempt o.now target.id s.heal_attempts;
    exhausted_logged = forget o.configured_endpoint s.exhausted_logged;
  },
  reactivates o.configured_endpoint target.id ∷ [],
)

-- A webhook that is found active is left alone; any other is reactivated in place.
abbrev pub retained : Observation → Registration → List Call
retained o r =
    if r.action === "existing" then [] else retains o.configured_endpoint r.webhook_id ∷ []

-- Path 2, behind the recorded attempt: what the deletion and `register` answer.
abbrev pub recreated : Observation → RegisteredWebhook → HealthState → Option Registration → Outcome
recreated o target s none =
    (s, deletes o.configured_endpoint target.id ∷ loses o.configured_endpoint target.id ∷ [])
recreated o target s (some r) =
    if r.action === "created"
    then (
      record s { exhausted_logged = forget o.configured_endpoint s.exhausted_logged },
      deletes o.configured_endpoint target.id ∷ recreates o.configured_endpoint r.webhook_id ∷ [],
    )
    else (s, deletes o.configured_endpoint target.id ∷ retained o r)

abbrev pub delete_and_register : Observation → RegisteredWebhook → HealthState → Outcome
delete_and_register o target s =
    if o.deleted
    then recreated o target s o.registration
    else (s, deletes o.configured_endpoint target.id ∷ [])

abbrev pub recreate : Observation → RegisteredWebhook → HealthState → Outcome
recreate o target s =
    if o.reachable
    then delete_and_register o target (record s {
      recreate_attempts = record_attempt o.now o.configured_endpoint s.recreate_attempts;
    })
    else (s, [])

abbrev pub escalate : Observation → RegisteredWebhook → HealthState → Outcome
escalate o target s =
    let (n, m) = count_in_window day_ms o.now o.configured_endpoint s.recreate_attempts in
    let counted = record s { recreate_attempts = m } in
    if ltb n max_recreates_per_day then recreate o target counted else (
      record counted { exhausted_logged = log_exhausted o.configured_endpoint s.exhausted_logged },
      [],
    )

abbrev pub heal : Observation → RegisteredWebhook → HealthState → Outcome
heal o target s =
    let (n, m) = count_in_window hour_ms o.now target.id s.heal_attempts in
    let counted = record s { heal_attempts = m } in
    if ltb n max_heals_per_hour
    then if o.reachable then reactivated o target counted o.registration else (counted, [])
    else escalate o target counted

-- `if (!target || target.health?.status !== 'suspended') return`
abbrev pub heal_target : Observation → HealthState → Option RegisteredWebhook → Outcome
heal_target o s none = (s, [])
heal_target o s (some target) = if is_suspended target then heal o target s else (s, [])

abbrev pub heal_listed : Observation → HealthState → Option (List RegisteredWebhook) → Outcome
heal_listed o s none = (s, [])
heal_listed o s (some webhooks) =
    heal_target o s (find_first (λ w. w.endpoint === o.configured_endpoint) webhooks)

abbrev pub heal_enabled : Observation → HealthState → Bool → Outcome
heal_enabled o s false = (s, [])
heal_enabled o s true = heal_listed o s o.webhooks

unfoldable pub check_and_heal : Observation → HealthState → Outcome
check_and_heal o s = heal_enabled o s (is_enabled o.autoheal_enabled)
