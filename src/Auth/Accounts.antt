-- ===== src/Auth/Accounts.antt =====
-- auth.service.ts: the sign-up that claims the org, and login. JavaScript's toLowerCase and trim and
-- the two methods of PasswordService are parameters.
pub mod Claim
pub mod Login
use clickup_sync.Common.{
  ℕ, String, Bool, true, false, not, Option, none, some, List, [], ◌∷◌, ltb, find_first, Result, ok,
  err, Action, continue, ◌>>=◌, ◌>>◌, gets, pure, throw_if, or_throw, conflict, unauthorized,
}
use clickup_sync.Auth.Store.{
  owner, active, User, AuthDb, seed_org_id, is_disabled, is_found, has_email, count_owners,
  find_by_email, create_user, rename_org, update_user,
}

pub record SignupDto : Type 0 where
  pub email : String
  pub password : String
  pub name : String
  pub org_name : String

pub record LoginDto : Type 0 where
  pub email : String
  pub password : String

abbrev pub set_last_login : ℕ → User → User
set_last_login now u = record u { last_login_at = some now }

module _ (to_lower_case trim : String → String) where
  module _ (hash_password : String → String) where
    -- The row that a sign-up adds; `id` is its new key.
    abbrev pub first_owner : String → SignupDto → User
    first_owner id dto = record {
      id = id;
      org_id = seed_org_id;
      email = to_lower_case dto.email;
      password_hash = hash_password dto.password;
      name = some (trim dto.name);
      role = owner;
      status = active;
      last_login_at = none;
    }

    unfoldable pub signup : String → SignupDto → Action AuthDb User
    signup id dto = do
      users ← gets (λ db. db.users)
      throw_if (ltb 0 (count_owners seed_org_id users))
          (conflict "Signup is closed — ask an admin for an invitation.")
      throw_if (is_found (find_by_email to_lower_case (to_lower_case dto.email) users))
          (conflict "An account with this email already exists.")
      rename_org seed_org_id (trim dto.org_name)
      create_user (first_owner id dto)

unfoldable pub login :
    (String → String) → (String → String → Bool) → ℕ → LoginDto → Action AuthDb User
login to_lower_case verify now dto = do
  users ← gets (λ db. db.users)
  user ←
      or_throw (find_by_email to_lower_case (to_lower_case dto.email) users)
        (unauthorized "Invalid email or password")
  throw_if (is_disabled user.status) (unauthorized "Invalid email or password")
  throw_if (not (verify dto.password user.password_hash)) (unauthorized "Invalid email or password")
  update_user user.id (set_last_login now)
  pure user
