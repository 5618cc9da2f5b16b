-- ===== src/Auth/Guard.antt =====
-- auth.guard.ts and roles.guard.ts, which stand before every handler, and what UsersController puts
-- behind them.
pub mod Soundness
pub mod Requests
use clickup_sync.Common.{
  ℕ, String, Bool, true, false, not, ◌&&◌, ◌||◌, Option, none, some, List, [], ◌∷◌, ◌===◌,
  if◌then◌else◌, Result, ok, err, Action, continue, ◌>>=◌, ◌>>◌, pure, throw, throw_if, or_throw,
  truthy, unauthorized, forbidden,
}
use clickup_sync.Auth.Store.{seed_org_id, Role, owner, admin, User, AuthDb, AuthPrincipal, role_eq}
use clickup_sync.Auth.Sessions.{SessionConfig, Valid, validate}
use clickup_sync.Auth.Ownership.{UserCall, changes_role, sets_status, removes, transfers, after}

-- What the guards read of a request: whether its handler is `@Public()`, the header `x-admin-key`,
-- the cookies `clickup_sync_sid` and `csrf`, and the header `x-csrf-token`.
pub record HttpRequest : Type 0 where
  pub is_public : Bool
  pub method : String
  pub admin_key : Option String
  pub session_cookie : Option String
  pub csrf_header : Option String
  pub csrf_cookie : Option String

abbrev pub machine : AuthPrincipal
machine = record {
  user_id = "machine";
  org_id = seed_org_id;
  role = owner;
  email = none;
  is_machine = true;
}

abbrev pub principal_of : User → AuthPrincipal
principal_of u = record {
  user_id = u.id;
  org_id = u.org_id;
  role = u.role;
  email = some u.email;
  is_machine = false;
}

-- MUTATING
abbrev pub is_mutating : String → Bool
is_mutating m = (m === "POST") || ((m === "PATCH") || ((m === "PUT") || (m === "DELETE")))

-- `apiKey && provided && timingSafeEqual(apiKey, provided)`
abbrev pub key_matches : String → Option String → Bool
key_matches api_key none = false
key_matches api_key (some provided) =
    not (api_key === "") && (not (provided === "") && (api_key === provided))

-- `!header || !cookie || header !== cookie`
abbrev pub csrf_fails : Option String → Option String → Bool
csrf_fails none cookie = true
csrf_fails (some header) none = true
csrf_fails (some header) (some cookie) = not (header === cookie)

abbrev pub session_user : Valid → AuthDb → Result User × AuthDb
session_user none db = (err (unauthorized "Session invalid or expired"), db)
session_user (some (s, u)) db = (ok u, db)

module _ (hash : String → String) (cfg : SessionConfig) (api_key : String) (now : ℕ) where
  abbrev pub validated : String → Action AuthDb User
  validated token db = let (row, db') = validate hash cfg now token db in session_user row db'

  -- The branch behind the admin key.
  abbrev pub by_session : HttpRequest → Action AuthDb (Option AuthPrincipal)
  by_session req = do
    token ← or_throw (truthy req.session_cookie) (unauthorized "Not authenticated")
    user ← validated token
    throw_if
        (is_mutating req.method && csrf_fails (truthy req.csrf_header) (truthy req.csrf_cookie))
        (forbidden "CSRF token mismatch")
    pure (some (principal_of user))

  -- The value is `req.user`; a public handler has none.
  unfoldable pub can_activate : HttpRequest → Action AuthDb (Option AuthPrincipal)
  can_activate req =
      if req.is_public
      then pure none
      else if key_matches api_key req.admin_key
      then pure (some machine)
      else by_session req

abbrev pub includes : List Role → Role → Bool
includes [] r = false
includes (x ∷ rest) r = role_eq x r || includes rest r

-- RolesGuard.canActivate; a handler without `@Roles` requires none.
unfoldable pub check_roles : List Role → Option AuthPrincipal → Result (Unit {0})
check_roles [] user = ok tt
check_roles (r ∷ rest) none = err (forbidden "Not authenticated")
check_roles (r ∷ rest) (some user) =
    if includes (r ∷ rest) user.role then ok tt else err (forbidden "Insufficient role")

-- The `@Roles` of UsersController.
abbrev pub required_roles : UserCall → List Role
required_roles (changes_role id role) = owner ∷ admin ∷ []
required_roles (sets_status id status) = owner ∷ admin ∷ []
required_roles (removes id) = owner ∷ admin ∷ []
required_roles (transfers id) = owner ∷ []

abbrev pub checked : Result (Unit {0}) → AuthDb → AuthDb → AuthDb
checked (ok _) new old = new
checked (err e) new old = old

abbrev pub call_as : Option AuthPrincipal → UserCall → AuthDb → AuthDb
call_as none c db = db
call_as (some p) c db = checked (check_roles (required_roles c) (some p)) (after p c db) db

module _ (hash : String → String) (cfg : SessionConfig) (api_key : String) where
  abbrev pub admitted : UserCall → Result (Option AuthPrincipal) → AuthDb → AuthDb
  admitted c (ok p) db = call_as p c db
  admitted c (err e) db = db

  -- The store after a request to UsersController, at a time, with the call that it asks for.
  unfoldable pub request : ℕ → HttpRequest → UserCall → AuthDb → AuthDb
  unfolding can_activate check_roles
  request now req c db = let (r, db') = can_activate hash cfg api_key now req db in admitted c r db'

  unfoldable pub requests : List (ℕ × HttpRequest × UserCall) → AuthDb → AuthDb
  requests [] db = db
  requests ((now, req, c) ∷ rest) db = requests rest (request now req c db)
