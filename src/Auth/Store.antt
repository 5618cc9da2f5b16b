-- ===== src/Auth/Store.antt =====
-- The tables of src/auth (prisma/schema.prisma) and the queries of user.repository.ts. Times are
-- milliseconds since 1970, `none` is null.
pub mod Cases
use clickup_sync.Common.{
  ℕ, String, Bool, true, false, ◌&&◌, Option, none, some, List, ◌∷◌, throw_if, unique_violation,
  ◌===◌, find_first, count, update_unique, delete_unique, delete_many, Action, ◌>>=◌, ◌>>◌, gets,
  modify, pure, or_throw, record_not_found,
}

pub data Role : Type 0 where
  owner admin member : Role

pub data UserStatus : Type 0 where
  active disabled : UserStatus

pub data InvitationStatus : Type 0 where
  pending accepted revoked expired : InvitationStatus

pub record User : Type 0 where
  pub id : String
  pub org_id : String
  pub email : String
  pub password_hash : String
  pub name : Option String
  pub role : Role
  pub status : UserStatus
  pub last_login_at : Option ℕ

pub record Session : Type 0 where
  pub id : String
  pub user_id : String
  pub token_hash : String
  pub expires_at : ℕ
  pub last_seen_at : Option ℕ
  pub created_at : ℕ
  pub ip : Option String
  pub user_agent : Option String

pub record Invitation : Type 0 where
  pub id : String
  pub org_id : String
  pub email : String
  pub role : Role
  pub token_hash : String
  pub invited_by_user_id : Option String
  pub status : InvitationStatus
  pub expires_at : ℕ
  pub accepted_at : Option ℕ

pub record Organization : Type 0 where
  pub id : String
  pub name : String

pub record AuthDb : Type 0 where
  pub orgs : List Organization
  pub users : List User
  pub sessions : List Session
  pub invitations : List Invitation

-- org.repository.ts, SEED_ORG_ID
abbrev pub seed_org_id : String
seed_org_id = "org_seed"

-- auth.types.ts
pub record AuthPrincipal : Type 0 where
  pub user_id : String
  pub org_id : String
  pub role : Role
  pub email : Option String
  pub is_machine : Bool

abbrev pub role_eq : Role → Role → Bool
role_eq owner owner = true
role_eq admin admin = true
role_eq member member = true
role_eq owner admin = false
role_eq owner member = false
role_eq admin owner = false
role_eq admin member = false
role_eq member owner = false
role_eq member admin = false

abbrev pub is_disabled : UserStatus → Bool
is_disabled disabled = true
is_disabled active = false

abbrev pub is_active : UserStatus → Bool
is_active active = true
is_active disabled = false

abbrev pub has_id : String → User → Bool
has_id id u = u.id === id

abbrev pub find_by_id : String → List User → Option User
find_by_id id users = find_first (has_id id) users

-- The `where` clause of `countOwners`.
abbrev pub is_active_owner : String → User → Bool
is_active_owner org u = (u.org_id === org) && (role_eq u.role owner && is_active u.status)

abbrev pub count_owners : String → List User → ℕ
count_owners org users = count (is_active_owner org) users

-- `update` and `delete` throw where no row has the key. `update` returns the new row.
abbrev pub update_user : String → (User → User) → Action AuthDb User
update_user id f = do
  users ← gets (λ db. db.users)
  u ← or_throw (find_by_id id users) record_not_found
  modify (λ db. record db { users = update_unique (has_id id) f users })
  pure (f u)

abbrev pub of_user : String → Session → Bool
of_user id s = s.user_id === id

-- The sessions of a deleted user go with it (`onDelete: Cascade`).
abbrev pub delete_user : String → Action AuthDb (Unit {0})
delete_user id = do
  users ← gets (λ db. db.users)
  or_throw (find_by_id id users) record_not_found
  modify (λ db. record db {
    users = delete_unique (has_id id) users;
    sessions = delete_many (of_user id) db.sessions;
  })

-- session.repository.ts, `deleteAllForUser`, which SessionService.revokeAll calls.
abbrev pub revoke_all : String → Action AuthDb (Unit {0})
revoke_all id = modify (λ db. record db { sessions = delete_many (of_user id) db.sessions })

abbrev pub is_found {ℓ} : {A : Type ℓ} → Option A → Bool
is_found none = false
is_found (some a) = true

abbrev pub has_email : String → User → Bool
has_email email u = u.email === email

abbrev pub is_org : String → Organization → Bool
is_org id o = o.id === id

-- `create` with `org: { connect }`: keys and addresses are unique, and the org must be there.
abbrev pub create_user : User → Action AuthDb User
create_user u = do
  db ← gets (λ db. db)
  throw_if (is_found (find_by_id u.id db.users)) unique_violation
  throw_if (is_found (find_first (has_email u.email) db.users)) unique_violation
  or_throw (find_first (is_org u.org_id) db.orgs) record_not_found
  modify (λ db. record db { users = u ∷ db.users })
  pure u

-- org.repository.ts, `rename`.
abbrev pub rename_org : String → String → Action AuthDb (Unit {0})
rename_org id name = do
  orgs ← gets (λ db. db.orgs)
  or_throw (find_first (is_org id) orgs) record_not_found
  modify (λ db. record db { orgs = update_unique (is_org id) (λ o. record o { name = name }) orgs })

-- `findByEmail`; JavaScript's toLowerCase is a parameter.
abbrev pub find_by_email : (String → String) → String → List User → Option User
find_by_email to_lower_case email users = find_first (has_email (to_lower_case email)) users
