-- ===== src/Auth/Users.antt =====
-- users.service.ts
pub mod Cases
use clickup_sync.Common.{
  ℕ, String, Bool, true, false, not, ◌&&◌, Option, List, ◌===◌, if◌then◌else◌, Result, ok, err,
  Action, continue, ◌>>=◌, ◌>>◌, gets, modify, pure, throw_if, or_throw, Exception, bad_request,
  forbidden, not_found, record_not_found, update_unique, delete_unique, delete_many,
}
use clickup_sync.Auth.Store.{
  Role, owner, admin, member, UserStatus, active, disabled, User, AuthDb, AuthPrincipal, role_eq,
  is_disabled, is_active, find_by_id, count_owners, update_user, delete_user, revoke_all,
}
use clickup_sync.Auth.Permissions.{can_assign_role, can_manage_user, would_remove_last_owner}

-- A user of another org looks as if it were not there.
unfoldable pub require : AuthPrincipal → String → Action AuthDb User
require actor id = do
  users ← gets (λ db. db.users)
  u ← or_throw (find_by_id id users) (not_found "User not found")
  throw_if (not (u.org_id === actor.org_id)) (not_found "User not found")
  pure u

-- `if (b) { const owners = …; if (wouldRemoveLastOwner(…)) throw … }`
unfoldable pub keep_last_owner : Bool → User → String → Action AuthDb (Unit {0})
keep_last_owner guarded target message = do
  users ← gets (λ db. db.users)
  throw_if (guarded && would_remove_last_owner target.role (count_owners target.org_id users))
      (bad_request message)

abbrev pub set_role : Role → User → User
set_role r u = record u { role = r }

abbrev pub put_status : UserStatus → User → User
put_status s u = record u { status = s }

unfoldable pub change_role : AuthPrincipal → String → Role → Action AuthDb User
unfolding require keep_last_owner
change_role actor target_id desired = do
  target ← require actor target_id
  throw_if (not (can_assign_role actor.role target.role desired))
      (forbidden "You cannot assign that role.")
  keep_last_owner (role_eq target.role owner && not (role_eq desired owner)) target
      "Cannot demote the last owner."
  update_user target_id (set_role desired)

unfoldable pub set_status : AuthPrincipal → String → UserStatus → Action AuthDb User
unfolding require keep_last_owner
set_status actor target_id status = do
  target ← require actor target_id
  throw_if (not (can_manage_user actor.role target.role)) (forbidden "You cannot manage this user.")
  keep_last_owner (is_disabled status && role_eq target.role owner) target
      "Cannot disable the last owner."
  if is_disabled status then revoke_all target_id else pure tt
  update_user target_id (put_status status)

unfoldable pub remove : AuthPrincipal → String → Action AuthDb (Unit {0})
unfolding require keep_last_owner
remove actor target_id = do
  target ← require actor target_id
  throw_if (not (can_manage_user actor.role target.role)) (forbidden "You cannot remove this user.")
  keep_last_owner (role_eq target.role owner) target "Cannot remove the last owner."
  revoke_all target_id
  delete_user target_id

unfoldable pub transfer_ownership : AuthPrincipal → String → Action AuthDb String
unfolding require
transfer_ownership actor target_id = do
  throw_if (not (role_eq actor.role owner)) (forbidden "Only an owner can transfer ownership.")
  throw_if (target_id === actor.user_id) (bad_request "You already own this org.")
  target ← require actor target_id
  throw_if (not (is_active target.status))
      (bad_request "Cannot transfer ownership to a disabled user.")
  update_user target_id (set_role owner)
  update_user actor.user_id (set_role admin)
  pure target.id
