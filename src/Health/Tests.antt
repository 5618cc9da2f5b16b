-- ===== src/Health/Tests.antt =====
-- A webhook that is suspended at every run.
use clickup_sync.Common.{ℕ, ◌≡◌, refl, String, true, some, List, [], ◌∷◌, length}
use clickup_sync.Health.{Observation, check_and_heal, word}
use clickup_sync.Health.Runs.{runs, fresh}

abbrev run_at : ℕ → String → Observation
run_at now action = record {
  now = now;
  autoheal_enabled = word "true";
  configured_endpoint = "https://example.org/hook";
  webhooks = some (
      record { id = "w1"; endpoint = "https://example.org/hook"; health_status = some "suspended" }
      ∷ []);
  reachable = true;
  deleted = true;
  registration = some (record { action = action; webhook_id = "w2"; secret_stored = true });
}

-- Three reactivations, a recreation, a deletion that does not take, and nothing more.
abbrev days_work : List Observation
days_work =
    run_at 900000 "reactivated"
    ∷ run_at 1800000 "reactivated"
    ∷ run_at 2700000 "reactivated"
    ∷ run_at 3600000 "created"
    ∷ run_at 3600001 "updated"
    ∷ run_at 3600002 "created"
    ∷ []

days_work-calls : length (runs days_work fresh []).1 ≡ 7
unfolding runs check_and_heal
days_work-calls = refl
