-- ===== src/Auth/Ownership.antt =====
-- An org that has an active owner keeps one, whatever is asked of UsersService.
use clickup_sync.Common.{
  ◌<◌, ◌≡◌, refl, ap, ◌∙◌, sym, String, true, false, some, List, [], ◌∷◌, ◌===◌, arith, eq_iff,
  Bool-cases, inl, inr, update_unique, count-update_unique, count-delete_unique, count-pos_of_find,
}
use clickup_sync.Auth.Store.{
  Role, owner, admin, UserStatus, User, AuthDb, AuthPrincipal, is_active, find_by_id, has_id,
  is_active_owner, count_owners,
}
use clickup_sync.Auth.Permissions.{would_remove_last_owner}
use clickup_sync.Auth.Users.{
  change_role, set_status, remove, transfer_ownership, set_role, put_status,
}
use clickup_sync.Auth.Users.Cases.{
  Target, promoted, transferred, change_role_cases, set_status_cases, remove_cases,
  transfer_ownership_cases,
}

-- The requests that UsersController passes on.
pub data UserCall : Type 0 where
  changes_role : String → Role → UserCall
  sets_status : String → UserStatus → UserCall
  removes : String → UserCall
  transfers : String → UserCall

-- The store after a call, whether it returned or threw.
abbrev pub after : AuthPrincipal → UserCall → AuthDb → AuthDb
after actor (changes_role id role) db = (change_role actor id role db).1
after actor (sets_status id status) db = (set_status actor id status db).1
after actor (removes id) db = (remove actor id db).1
after actor (transfers id) db = (transfer_ownership actor id db).1

-- The principal's org is that of its row, where it has one.
abbrev pub IsGenuine : AuthPrincipal → AuthDb → Type 0
IsGenuine actor db =
    (u : User) → find_by_id actor.user_id db.users ≡ some u → u.org_id ≡ actor.org_id

abbrev pub HasOwner : String → AuthDb → Type 0
HasOwner org db = 0 < count_owners org db.users

pub find_by_id-set_role_other :
    (id j : String) (r : Role) (users : List User)
    → (id === j) ≡ false
    → find_by_id j (update_unique (has_id id) (set_role r) users) ≡ find_by_id j users
find_by_id-set_role_other id j r [] h = refl
find_by_id-set_role_other id j r (u ∷ rest) h =
    ground
      (arith, eq_iff u.id id, eq_iff u.id j, eq_iff id j, find_by_id-set_role_other id j r rest h)

find_by_id-set_role_self :
    (id : String) (r : Role) (users : List User) (u : User)
    → find_by_id id users ≡ some u
    → find_by_id id (update_unique (has_id id) (set_role r) users) ≡ some (set_role r u)
find_by_id-set_role_self id r [] u e = cc
find_by_id-set_role_self id r (x ∷ rest) u e = ground (arith, find_by_id-set_role_self id r rest u)

module _ (org : String) (actor : AuthPrincipal) (db : AuthDb) (had : HasOwner org db) where
  -- The count that the guard reads is that of the target's own org.
  owners_of_target :
      (u : User)
      → (u.org_id === org) ≡ true
      → count_owners u.org_id db.users ≡ count_owners org db.users
  owners_of_target u e = ap (λ o. count_owners o db.users) ((eq_iff u.org_id org).0 e)

  change_role-HasOwner :
      (id : String) (desired : Role) → HasOwner org (change_role actor id desired db).1
  change_role-HasOwner id desired =
      change_role_cases actor id db (λ r. HasOwner org r.1) (λ e. had) desired
        λ u t allowed guarded.
          unfold would_remove_last_owner in
          ground (
            arith,
            count-update_unique (has_id id) (is_active_owner org) (set_role desired) db.users u
                t.found,
            owners_of_target u,
          )

  set_status-HasOwner :
      (id : String) (status : UserStatus) → HasOwner org (set_status actor id status db).1
  set_status-HasOwner id status =
      set_status_cases actor id db (λ r. HasOwner org r.1) (λ e. had) status
        λ u t allowed guarded.
          unfold would_remove_last_owner in
          ground (
            arith,
            count-update_unique (has_id id) (is_active_owner org) (put_status status) db.users u
                t.found,
            owners_of_target u,
          )

  remove-HasOwner : (id : String) → HasOwner org (remove actor id db).1
  remove-HasOwner id =
      remove_cases actor id db (λ r. HasOwner org r.1) (λ e. had)
        λ u t allowed guarded.
          unfold would_remove_last_owner in
          ground (
            arith,
            count-delete_unique (has_id id) (is_active_owner org) db.users u t.found,
            owners_of_target u,
          )

  module _ (id : String) (u : User) (t : Target actor id db u)
      (live : is_active u.status ≡ true) where
    promoted-HasOwner : HasOwner org (promoted id db)
    promoted-HasOwner = ground (
      arith,
      count-update_unique (has_id id) (is_active_owner org) (set_role owner) db.users u t.found,
    )

    -- The new owner is still there when the old one is demoted.
    target_counts :
        (id === actor.user_id) ≡ false
        → (u.org_id === org) ≡ true
        → HasOwner org (transferred actor id db)
    target_counts other ours =
        count-pos_of_find (has_id id) (is_active_owner org) (transferred actor id db).users
          (set_role owner u) (kept ∙ found) (rw (ours, live))
      where
        kept : find_by_id id (transferred actor id db).users ≡ find_by_id id (promoted id db).users
        kept =
            find_by_id-set_role_other actor.user_id id admin (promoted id db).users
              (ground (arith, eq_iff id actor.user_id, eq_iff actor.user_id id))

        found : find_by_id id (promoted id db).users ≡ some (set_role owner u)
        found = find_by_id-set_role_self id owner db.users u t.found

    -- Where the transfer is in another org, so is the actor's row.
    elsewhere :
        IsGenuine actor db
        → (id === actor.user_id) ≡ false
        → (u.org_id === org) ≡ false
        → (v : User) → find_by_id actor.user_id (promoted id db).users ≡ some v
        → HasOwner org (transferred actor id db)
    elsewhere genuine other theirs v e = ground (
      arith,
      promoted-HasOwner,
      count-update_unique (has_id actor.user_id) (is_active_owner org) (set_role admin)
          (promoted id db).users v e,
      genuine v (sym (find_by_id-set_role_other id actor.user_id owner db.users other) ∙ e),
      eq_iff u.org_id actor.org_id,
      t.same_org,
      eq_iff v.org_id org,
      eq_iff u.org_id org,
    )

  transfer_ownership-HasOwner :
      (id : String) → IsGenuine actor db → HasOwner org (transfer_ownership actor id db).1
  transfer_ownership-HasOwner id genuine =
      transfer_ownership_cases actor id db (λ r. HasOwner org r.1) (λ e. had)
        λ u t owns other live. (
          λ missing. promoted-HasOwner id u t live,
          λ v e. elim (Bool-cases (u.org_id === org)) [
            | inl ours ↦ target_counts id u t live other ours
            | inr theirs ↦ elsewhere id u t live genuine other theirs v e
          ],
        )

  -- Whatever a principal whose org is that of its row asks of UsersService, every org that has an
  -- active owner has one afterwards, whether the call returns or throws.
  pub after-HasOwner : (c : UserCall) → IsGenuine actor db → HasOwner org (after actor c db)
  after-HasOwner (changes_role id role) g = change_role-HasOwner id role
  after-HasOwner (sets_status id status) g = set_status-HasOwner id status
  after-HasOwner (removes id) g = remove-HasOwner id
  after-HasOwner (transfers id) g = transfer_ownership-HasOwner id g
