-- ===== src/Auth/AccountTests.antt =====
-- Runs of the theorems on sign-ups and invitations.
use clickup_sync.Common.{
  ◌===◌, ◌<◌, ◌≤◌, ◌≡◌, refl, String, Bool, true, none, some, List, [], ◌∷◌, ok, find_first,
}
use clickup_sync.Auth.Store.{member, pending, revoked, Invitation, AuthDb}
use clickup_sync.Auth.Authority.{owners}
use clickup_sync.Auth.Ownership.{removes, HasOwner}
use clickup_sync.Auth.Guard.{principal_of}
use clickup_sync.Auth.Accounts.{SignupDto, login}
use clickup_sync.Auth.Accounts.Login.{login_lem}
use clickup_sync.Auth.Accounts.Claim.{
  AccountEvent, signs_up, requests_users, NotMachineKeys, accounts, accounts_claimed_once,
}
use clickup_sync.Auth.Invitations.{
  AcceptInvitationDto, has_token_hash, is_pending, accept, invited_user,
}
use clickup_sync.Auth.Invitations.Uses.{
  InvitationUse, creates, resends, revokes, accepts, use_invitations,
}
use clickup_sync.Auth.Invitations.Lifecycle.{AreProper, IsClosed, use_invitations-owners}
use clickup_sync.Auth.Invitations.Acceptance.{accept_closes}
use clickup_sync.Auth.Tests.{ada, bob, store, config, same, asks}

abbrev unclaimed : AuthDb
unclaimed = record store { users = []; sessions = [] }

abbrev claim : String → SignupDto
claim name = record { email = name; password = "p"; name = name; org_name = "Acme" }

abbrev events : List AccountEvent
events =
    signs_up "u1" (claim "ada")
    ∷ requests_users 1000 (asks (some "secret") none) (removes "u1")
    ∷ signs_up "u2" (claim "bob")
    ∷ []

events_keys : NotMachineKeys same same same same config "secret" events
events_keys = (refl, (tt, (refl, tt)))

accounts_claimed_once_example :
    ((accounts same same same same config "secret" events unclaimed).0 ≤ 1)
    × (0 < (accounts same same same same config "secret" events unclaimed).0
        → HasOwner "org_seed" (accounts same same same same config "secret" events unclaimed).1)
accounts_claimed_once_example =
    accounts_claimed_once same same same same config "secret" events unclaimed events_keys tt

abbrev invitation : Invitation
invitation = record {
  id = "i1";
  org_id = "org_seed";
  email = "eve@example.org";
  role = member;
  token_hash = "k1";
  invited_by_user_id = some "u1";
  status = pending;
  expires_at = 604800000;
  accepted_at = none;
}

abbrev invited : AuthDb
invited = record store { invitations = invitation ∷ [] }

invited-AreProper : AreProper invited.invitations
invited-AreProper = ((tt, tt), (refl, tt))

abbrev eve : AcceptInvitationDto
eve = record { name = "Eve"; password = "p" }

abbrev uses : List InvitationUse
uses =
    creates (principal_of bob) (record { email = "fay@example.org"; role = member }) 1000 "k2" "i2"
    ∷ resends (principal_of bob) "i1" 2000 "k3"
    ∷ accepts 3000 "k3" "u5" eve
    ∷ revokes (principal_of ada) "i2"
    ∷ []

abbrev all_mail : String → String → Bool
all_mail address token = true

use_invitations-owners_example :
    owners (use_invitations same same same same all_mail uses invited).users ≡ owners invited.users
use_invitations-owners_example =
    use_invitations-owners same same same same all_mail uses invited invited-AreProper

abbrev closed : AuthDb
closed = record store { invitations = record invitation { status = revoked } ∷ [] }

eve_joins :
    (accept same same same same 1000 "k1" "u5" eve invited).0
    ≡ ok (invited_user same same same "u5" eve invitation)
unfolding accept
eve_joins = refl

accept_closes_example :
    (inv : Invitation) × ((find_first (has_token_hash "k1") invited.invitations ≡ some inv)
      × ((is_pending inv.status ≡ true)
          × ((invited_user same same same "u5" eve invitation
                ≡ invited_user same same same "u5" eve inv)
              × IsClosed inv.id
                  (use_invitations same same same same all_mail uses
                    (accept same same same same 1000 "k1" "u5" eve invited).1).invitations)))
accept_closes_example =
    accept_closes same same same same all_mail 1000 "k1" "u5" eve invited
      (invited_user same same same "u5" eve invitation) uses invited-AreProper eve_joins

-- In place of scrypt.
abbrev verify : String → String → Bool
verify password stored = password === stored

login_example :
    (login same verify 1000 (record { email = "ada@example.org"; password = "h1" }) store).0
    ≡ ok ada
login_example =
    login_lem same verify 1000 (record { email = "ada@example.org"; password = "h1" }) store
