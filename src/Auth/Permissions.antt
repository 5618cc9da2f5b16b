-- ===== src/Auth/Permissions.antt =====
-- permissions.service.ts
use clickup_sync.Common.{ℕ, Bool, true, false, ◌&&◌, ◌||◌, leb}
use clickup_sync.Auth.Store.{Role, owner, admin, member, role_eq}

abbrev pub within : Role → Bool
within r = role_eq r member || role_eq r admin

-- Can `actor` change a user currently at `current` to `desired`?
unfoldable pub can_assign_role : Role → Role → Role → Bool
can_assign_role owner current desired = true
can_assign_role admin current desired = within current && within desired
can_assign_role member current desired = false

unfoldable pub can_manage_user : Role → Role → Bool
can_manage_user owner target = true
can_manage_user admin target = role_eq target member || role_eq target admin
can_manage_user member target = false

-- Owners are never invited.
unfoldable pub can_invite_with_role : Role → Role → Bool
can_invite_with_role actor owner = false
can_invite_with_role actor admin = role_eq actor owner || role_eq actor admin
can_invite_with_role actor member = role_eq actor owner || role_eq actor admin

unfoldable pub would_remove_last_owner : Role → ℕ → Bool
would_remove_last_owner target_role current_owner_count =
    role_eq target_role owner && leb current_owner_count 1
