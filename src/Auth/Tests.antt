-- ===== src/Auth/Tests.antt =====
-- Runs of the theorems on one org of an owner, an admin and a member, with a session each.
use clickup_sync.Common.{
  ℕ, ◌≡◌, refl, String, true, false, Option, none, some, List, [], ◌∷◌, arith, ok, err,
  record_not_found, ◌↔◌,
}
use clickup_sync.Auth.Store.{owner, admin, member, active, disabled, User, Session, AuthDb}
use clickup_sync.Auth.Permissions.{can_manage_user}
use clickup_sync.Auth.Users.{transfer_ownership, remove}
use clickup_sync.Auth.Users.Cases.{promoted}
use clickup_sync.Auth.Ownership.{
  UserCall, sets_status, removes, transfers, after, IsGenuine, HasOwner, after-HasOwner,
}
use clickup_sync.Auth.Authority.{
  outsiders, owners, after-outsiders, after-owners, transfer_without_row, succeeds,
}
use clickup_sync.Auth.Sessions.{SessionConfig, validate}
use clickup_sync.Auth.Sessions.Validity.{Admits, validate_iff, validate_again}
use clickup_sync.Auth.Sessions.Expiry.{
  SessionUse, validates, sweeps, AllExpireBy, use_sessions, validate_expired,
}
use clickup_sync.Auth.Guard.{HttpRequest, machine, principal_of, can_activate, requests}
use clickup_sync.Auth.Guard.Soundness.{Authentic, can_activate-Authentic}
use clickup_sync.Auth.Guard.Requests.{NoMachineRow, requests-HasOwner}

abbrev pub ada : User
ada = record {
  id = "u1";
  org_id = "org_seed";
  email = "ada@example.org";
  password_hash = "h1";
  name = some "Ada";
  role = owner;
  status = active;
  last_login_at = none;
}

abbrev pub bob : User
bob = record ada { id = "u2"; email = "bob@example.org"; role = admin }

abbrev pub cyd : User
cyd = record ada { id = "u3"; email = "cyd@example.org"; role = member }

abbrev dan : User
dan = record ada { id = "u4"; org_id = "org_2"; email = "dan@example.org" }

abbrev session : String → User → Session
session token u = record {
  id = u.id;
  user_id = u.id;
  token_hash = token;
  expires_at = 2592000000;
  last_seen_at = none;
  created_at = 0;
  ip = none;
  user_agent = none;
}

abbrev pub store : AuthDb
store = record {
  orgs = record { id = "org_seed"; name = "Seed" } ∷ [];
  users = ada ∷ bob ∷ cyd ∷ dan ∷ [];
  sessions = session "t1" ada ∷ session "t2" bob ∷ session "t3" cyd ∷ [];
  invitations = [];
}

abbrev pub config : SessionConfig
config = record { max_age_days = 30; idle_days = 7 }

-- In place of sha256.
abbrev pub same : String → String
same s = s

abbrev pub asks : Option String → Option String → HttpRequest
asks key token = record {
  is_public = false;
  method = "POST";
  admin_key = key;
  session_cookie = token;
  csrf_header = some "c";
  csrf_cookie = some "c";
}

abbrev day : List (ℕ × HttpRequest × UserCall)
day =
    (1000, asks none (some "t1"), transfers "u2")
    ∷ (2000, asks none (some "t1"), removes "u2")
    ∷ (3000, asks (some "secret") none, sets_status "u2" disabled)
    ∷ []

owned : HasOwner "org_seed" store
owned = omega arith

pub no_machine : NoMachineRow store
no_machine = (refl, (refl, (refl, (refl, tt))))

requests-HasOwner_example : HasOwner "org_seed" (requests same config "secret" day store)
requests-HasOwner_example =
    requests-HasOwner same config "secret" "org_seed" day store no_machine owned

ada-IsGenuine : IsGenuine (principal_of ada) store
ada-IsGenuine u e = cc e

after-HasOwner_example : HasOwner "org_seed" (after (principal_of ada) (removes "u1") store)
after-HasOwner_example =
    after-HasOwner "org_seed" (principal_of ada) store owned (removes "u1") ada-IsGenuine

after-outsiders_example :
    outsiders (principal_of ada) (after (principal_of ada) (removes "u4") store).users ≡ dan ∷ []
after-outsiders_example = after-outsiders (principal_of ada) store (removes "u4") ada-IsGenuine

after-owners_example : owners (after (principal_of bob) (removes "u1") store).users ≡ ada ∷ dan ∷ []
after-owners_example = after-owners (principal_of bob) store (removes "u1") refl

bob_removed : succeeds (principal_of ada) (removes "u2") store ≡ true
unfolding remove can_manage_user
bob_removed = refl

transfer_without_row_example :
    transfer_ownership machine "u2" store ≡ (err record_not_found, promoted "u2" store)
transfer_without_row_example =
    transfer_without_row machine store "u2" bob (record { found = refl; same_org = refl }) refl refl
      refl

abbrev first : Session
first = session "t1" ada

ada_admitted : Admits same config 1000 "t1" store first ada
ada_admitted = record {
  row = refl;
  unexpired = omega arith;
  in_use = omega arith;
  user = refl;
  live = refl;
}

validate_iff_example :
    ((validate same config 1000 "t1" store).0 ≡ some (first, ada))
    ↔ Admits same config 1000 "t1" store first ada
validate_iff_example = validate_iff same config 1000 "t1" store first ada

ada_validated : (validate same config 1000 "t1" store).0 ≡ some (first, ada)
unfolding validate
ada_validated = refl

validate_again_example :
    (s : Session) × ((validate same config 600000000 "t1"
        (validate same config 1000 "t1" store).1).0
      ≡ some (s, ada))
validate_again_example =
    validate_again same config 1000 600000000 "t1" store first ada ada_validated refl (omega arith)
      (omega arith)

abbrev uses : List SessionUse
uses = validates 1000 "t1" ∷ sweeps 2000 ∷ validates 500000000 "t1" ∷ []

ada_expires : AllExpireBy "t1" 2592000000 store
ada_expires = (λ e. omega arith, (λ e. omega arith, (λ e. omega arith, tt)))

validate_expired_example :
    (validate same config 2592000001 "t1" (use_sessions same config uses store)).0 ≡ none
validate_expired_example =
    validate_expired same config uses "t1" 2592000000 2592000001 store ada_expires (omega arith)

ada_activates :
    (can_activate same config "secret" 1000 (asks none (some "t1")) store).0
    ≡ ok (some (principal_of ada))
unfolding can_activate validate
ada_activates = refl

can_activate-Authentic_example :
    Authentic same config "secret" 1000 (asks none (some "t1")) store (some (principal_of ada))
can_activate-Authentic_example =
    can_activate-Authentic same config "secret" 1000 (asks none (some "t1")) store
      (some (principal_of ada)) refl ada_activates
