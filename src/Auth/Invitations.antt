-- ===== src/Auth/Invitations.antt =====
-- invitation.service.ts over invitation.repository.ts. JavaScript's toLowerCase and trim, sha256, the
-- hash of a password and whether the mail server takes a message are parameters; tokens and the keys
-- of new rows are arguments.
pub mod Effects
pub mod Uses
pub mod Lifecycle
pub mod Acceptance
use clickup_sync.Common.{
  ℕ, ◌+◌, ◌*◌, String, Bool, true, false, not, ◌&&◌, ◌||◌, Option, none, some, List, ◌∷◌, ◌===◌,
  ltb, find_first, update_unique, Result, ok, err, Action, continue, ◌>>=◌, ◌>>◌, gets, modify,
  pure, throw, throw_if, or_throw, bad_request, forbidden, record_not_found, unique_violation,
  mail_refused,
}
use clickup_sync.Auth.Store.{
  Role, active, User, Invitation, InvitationStatus, pending, accepted, revoked, expired,
  Organization, AuthDb, AuthPrincipal, is_found, is_org, find_by_email, create_user,
}
use clickup_sync.Auth.Permissions.{can_invite_with_role}

abbrev pub invite_ttl_ms : ℕ
invite_ttl_ms = 7 * 24 * 60 * 60 * 1000

pub record CreateInvitationDto : Type 0 where
  pub email : String
  pub role : Role

pub record AcceptInvitationDto : Type 0 where
  pub name : String
  pub password : String

abbrev pub is_pending : InvitationStatus → Bool
is_pending pending = true
is_pending accepted = false
is_pending revoked = false
is_pending expired = false

abbrev pub has_invitation_id : String → Invitation → Bool
has_invitation_id id inv = inv.id === id

abbrev pub has_token_hash : String → Invitation → Bool
has_token_hash h inv = inv.token_hash === h

-- The `where` clause of `findPendingByEmail`.
abbrev pub pending_for : (String → String) → String → String → Invitation → Bool
pending_for to_lower_case org email inv =
    (inv.org_id === org) && ((inv.email === to_lower_case email) && is_pending inv.status)

abbrev pub update_invitation : String → (Invitation → Invitation) → Action AuthDb (Unit {0})
update_invitation id f = do
  invitations ← gets (λ db. db.invitations)
  or_throw (find_first (has_invitation_id id) invitations) record_not_found
  modify (λ db. record db { invitations = update_unique (has_invitation_id id) f invitations })

-- The hash of a token is unique: a write of one that another row has fails.
abbrev pub keep_hash_unique : String → String → Action AuthDb (Unit {0})
keep_hash_unique id h = do
  invitations ← gets (λ db. db.invitations)
  throw_if
      (is_found
        (find_first (λ inv. has_token_hash h inv && not (has_invitation_id id inv)) invitations))
      unique_violation

abbrev pub create_invitation : Invitation → Action AuthDb (Unit {0})
create_invitation inv = do
  invitations ← gets (λ db. db.invitations)
  throw_if (is_found (find_first (has_invitation_id inv.id) invitations)) unique_violation
  keep_hash_unique inv.id inv.token_hash
  modify (λ db. record db { invitations = inv ∷ db.invitations })

abbrev pub accept_at : ℕ → Invitation → Invitation
accept_at now inv = record inv { status = accepted; accepted_at = some now }

abbrev pub set_revoked : Invitation → Invitation
set_revoked inv = record inv { status = revoked }

-- The checks of a row that a token was looked up for.
abbrev pub require_open : ℕ → Option Invitation → Action AuthDb Invitation
require_open now none = throw (bad_request "This invitation is invalid or has expired.")
require_open now (some inv) = do
  throw_if (not (is_pending inv.status) || ltb inv.expires_at now)
      (bad_request "This invitation is invalid or has expired.")
  pure inv

abbrev pub org_name : Option Organization → String
org_name none = "your team"
org_name (some o) = o.name

-- `mailer.sendInvite`, which throws where the mail server does.
abbrev pub send_invite : (String → String → Bool) → String → String → Action AuthDb (Unit {0})
send_invite mails email token = throw_if (not (mails email token)) mail_refused

module _ (hash : String → String) where
  unfoldable pub preview : ℕ → String → Action AuthDb (String × Role × String)
  preview now token = do
    db ← gets (λ db. db)
    inv ← require_open now (find_first (has_token_hash (hash token)) db.invitations)
    pure (inv.email, inv.role, org_name (find_first (is_org inv.org_id) db.orgs))

  abbrev pub renew : AuthPrincipal → Role → ℕ → String → Invitation → Invitation
  renew actor role now token inv = record inv {
    token_hash = hash token;
    role = role;
    expires_at = now + invite_ttl_ms;
    status = pending;
    invited_by_user_id = some actor.user_id;
  }

  abbrev pub new_invitation : AuthPrincipal → String → Role → ℕ → String → String → Invitation
  new_invitation actor email role now token id = record {
    id = id;
    org_id = actor.org_id;
    email = email;
    role = role;
    token_hash = hash token;
    invited_by_user_id = some actor.user_id;
    status = pending;
    expires_at = now + invite_ttl_ms;
    accepted_at = none;
  }

  -- `if (existing) … else …`
  abbrev pub put_invitation :
      AuthPrincipal
      → String
      → Role
      → ℕ
      → String
      → String
      → Option Invitation
      → Action AuthDb (Unit {0})
  put_invitation actor email role now token id none =
      create_invitation (new_invitation actor email role now token id)
  put_invitation actor email role now token id (some existing) = do
    keep_hash_unique existing.id (hash token)
    update_invitation existing.id (renew actor role now token)

  abbrev pub put_token : ℕ → String → Invitation → Invitation
  put_token now token inv = record inv { token_hash = hash token; expires_at = now + invite_ttl_ms }

  module _ (mails : String → String → Bool) where
    unfoldable pub create :
        (String → String)
        → AuthPrincipal
        → CreateInvitationDto
        → ℕ
        → String
        → String
        → Action AuthDb String
    create to_lower_case actor dto now token id = do
      throw_if (not (can_invite_with_role actor.role dto.role))
          (forbidden "You cannot invite a user with that role.")
      db ← gets (λ db. db)
      throw_if (is_found (find_by_email to_lower_case (to_lower_case dto.email) db.users))
          (bad_request "A user with that email already exists.")
      put_invitation actor (to_lower_case dto.email) dto.role now token id (
          find_first (pending_for to_lower_case actor.org_id (to_lower_case dto.email))
            db.invitations)
      send_invite mails (to_lower_case dto.email) token
      pure (to_lower_case dto.email)

    unfoldable pub resend : AuthPrincipal → String → ℕ → String → Action AuthDb (Unit {0})
    resend actor id now token = do
      invitations ← gets (λ db. db.invitations)
      inv ←
          or_throw (find_first (has_invitation_id id) invitations)
            (bad_request "No pending invite.")
      throw_if (not (inv.org_id === actor.org_id) || not (is_pending inv.status))
          (bad_request "No pending invite.")
      keep_hash_unique id (hash token)
      update_invitation id (put_token now token)
      send_invite mails inv.email token

unfoldable pub revoke : AuthPrincipal → String → Action AuthDb (Unit {0})
revoke actor id = do
  invitations ← gets (λ db. db.invitations)
  inv ←
      or_throw (find_first (has_invitation_id id) invitations) (bad_request "Invitation not found.")
  throw_if (not (inv.org_id === actor.org_id)) (bad_request "Invitation not found.")
  update_invitation id set_revoked

module _ (to_lower_case trim hash_password : String → String) where
  -- The row of an invited user; `id` is its new key.
  abbrev pub invited_user : String → AcceptInvitationDto → Invitation → User
  invited_user id dto inv = record {
    id = id;
    org_id = inv.org_id;
    email = inv.email;
    password_hash = hash_password dto.password;
    name = some (trim dto.name);
    role = inv.role;
    status = active;
    last_login_at = none;
  }

  unfoldable pub accept :
      (String → String) → ℕ → String → String → AcceptInvitationDto → Action AuthDb User
  accept hash now token id dto = do
    db ← gets (λ db. db)
    inv ← require_open now (find_first (has_token_hash (hash token)) db.invitations)
    throw_if (is_found (find_by_email to_lower_case inv.email db.users))
        (bad_request "An account with this email already exists.")
    user ← create_user (invited_user id dto inv)
    update_invitation inv.id (accept_at now)
    pure user
