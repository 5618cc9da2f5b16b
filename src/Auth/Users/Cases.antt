-- ===== src/Auth/Users/Cases.antt =====
-- How each call of UsersService ends: what holds of an exception with the store as it was, and of
-- the result and the store of each accepted change, holds of the call.
use clickup_sync.Common.{
  String, Bool, true, false, not, ◌&&◌, ◌≡◌, none, some, ◌===◌, if◌then◌else◌, Bool-cases,
  Option-cases, inl, inr, update_unique, delete_unique, delete_many, Result, ok, err, Exception,
  record_not_found,
}
use clickup_sync.Auth.Store.{
  Role, owner, admin, UserStatus, User, AuthDb, AuthPrincipal, role_eq, is_disabled, is_active,
  find_by_id, has_id, of_user, count_owners,
}
use clickup_sync.Auth.Permissions.{can_assign_role, can_manage_user, would_remove_last_owner}
use clickup_sync.Auth.Users.{
  change_role, set_status, remove, transfer_ownership, set_role, put_status,
}

-- The user that a call is about, when `require` lets it through.
pub record Target (actor : AuthPrincipal) (target_id : String) (db : AuthDb) (u : User)
    : Type 0 where
  pub found : find_by_id target_id db.users ≡ some u
  pub same_org : (u.org_id === actor.org_id) ≡ true

abbrev pub last : User → AuthDb → Bool
last u db = would_remove_last_owner u.role (count_owners u.org_id db.users)

abbrev pub promoted : String → AuthDb → AuthDb
promoted id db = record db { users = update_unique (has_id id) (set_role owner) db.users }

abbrev pub transferred : AuthPrincipal → String → AuthDb → AuthDb
transferred actor id db = record (promoted id db) {
  users = update_unique (has_id actor.user_id) (set_role admin) (promoted id db).users;
}

module _ {ℓ} (actor : AuthPrincipal) (target_id : String) (db : AuthDb) where
  pub change_role_cases :
      (P : Result User × AuthDb → Type ℓ) (refused : (e : Exception) → P (err e, db))
      (desired : Role)
      → ((u : User)
          → Target actor target_id db u
          → can_assign_role actor.role u.role desired ≡ true
          → ((role_eq u.role owner && not (role_eq desired owner)) && last u db) ≡ false
          → P (
            ok (set_role desired u),
            record db { users = update_unique (has_id target_id) (set_role desired) db.users },
          ))
      → P (change_role actor target_id desired db)
  unfolding change_role
  change_role_cases P refused desired changed =
      elim (Option-cases (find_by_id target_id db.users)) [
        | inl e ↦ rw e (refused _)
        | inr (u, e) ↦ elim (Bool-cases (u.org_id === actor.org_id)) [
          | inr f ↦ rw (e, f) (refused _)
          | inl f ↦ elim (Bool-cases (can_assign_role actor.role u.role desired)) [
            | inr g ↦ rw (e, f, g) (refused _)
            | inl g ↦
                elim (Bool-cases
                  ((role_eq u.role owner && not (role_eq desired owner)) && last u db)) [
                    | inl h ↦ rw (e, f, g, h) (refused _)
                    | inr h ↦
                        rw (e, f, g, h) (rw e (changed u (record { found = e; same_org = f }) g h))
                  ]
          ]
        ]
      ]

  pub set_status_cases :
      (P : Result User × AuthDb → Type ℓ) (refused : (e : Exception) → P (err e, db))
      (status : UserStatus)
      → ((u : User)
          → Target actor target_id db u
          → can_manage_user actor.role u.role ≡ true
          → ((is_disabled status && role_eq u.role owner) && last u db) ≡ false
          → P (
            ok (put_status status u),
            record db {
              users = update_unique (has_id target_id) (put_status status) db.users;
              sessions =
                  if is_disabled status
                  then delete_many (of_user target_id) db.sessions
                  else db.sessions;
            },
          ))
      → P (set_status actor target_id status db)
  unfolding set_status
  set_status_cases P refused status changed = elim (Option-cases (find_by_id target_id db.users)) [
    | inl e ↦ rw e (refused _)
    | inr (u, e) ↦ elim (Bool-cases (u.org_id === actor.org_id)) [
      | inr f ↦ rw (e, f) (refused _)
      | inl f ↦ elim (Bool-cases (can_manage_user actor.role u.role)) [
        | inr g ↦ rw (e, f, g) (refused _)
        | inl g ↦ elim (Bool-cases ((is_disabled status && role_eq u.role owner) && last u db)) [
          | inl h ↦ rw (e, f, g, h) (refused _)
          | inr h ↦
              let kept = changed u (record { found = e; same_org = f }) g h in
              elim (Bool-cases (is_disabled status)) [
                | inl d ↦ rw (e, f, g, h) (rw d (rw e (rw d at kept)))
                | inr d ↦ rw (e, f, g, h) (rw d (rw e (rw d at kept)))
              ]
        ]
      ]
    ]
  ]

  pub remove_cases :
      (P : Result (Unit {0}) × AuthDb → Type ℓ) (refused : (e : Exception) → P (err e, db))
      → ((u : User)
          → Target actor target_id db u
          → can_manage_user actor.role u.role ≡ true
          → (role_eq u.role owner && last u db) ≡ false
          → P (
            ok tt,
            record db {
              users = delete_unique (has_id target_id) db.users;
              sessions =
                  delete_many (of_user target_id) (delete_many (of_user target_id) db.sessions);
            },
          ))
      → P (remove actor target_id db)
  unfolding remove
  remove_cases P refused changed = elim (Option-cases (find_by_id target_id db.users)) [
    | inl e ↦ rw e (refused _)
    | inr (u, e) ↦ elim (Bool-cases (u.org_id === actor.org_id)) [
      | inr f ↦ rw (e, f) (refused _)
      | inl f ↦ elim (Bool-cases (can_manage_user actor.role u.role)) [
        | inr g ↦ rw (e, f, g) (refused _)
        | inl g ↦ elim (Bool-cases (role_eq u.role owner && last u db)) [
          | inl h ↦ rw (e, f, g, h) (refused _)
          | inr h ↦ rw (e, f, g, h) (rw e (changed u (record { found = e; same_org = f }) g h))
        ]
      ]
    ]
  ]

  -- Where the actor has no row, `update` throws after the promotion.
  pub transfer_ownership_cases :
      (P : Result String × AuthDb → Type ℓ) (refused : (e : Exception) → P (err e, db))
      → ((u : User)
          → Target actor target_id db u
          → role_eq actor.role owner ≡ true
          → (target_id === actor.user_id) ≡ false
          → is_active u.status ≡ true
          → (find_by_id actor.user_id (promoted target_id db).users ≡ none
              → P (err record_not_found, promoted target_id db))
            × ((v : User)
                → find_by_id actor.user_id (promoted target_id db).users ≡ some v
                → P (ok u.id, transferred actor target_id db)))
      → P (transfer_ownership actor target_id db)
  unfolding transfer_ownership
  transfer_ownership_cases P refused changed = elim (Bool-cases (role_eq actor.role owner)) [
    | inr r ↦ rw r (refused _)
    | inl r ↦ elim (Bool-cases (target_id === actor.user_id)) [
      | inl s ↦ rw (r, s) (refused _)
      | inr s ↦ elim (Option-cases (find_by_id target_id db.users)) [
        | inl e ↦ rw (r, s, e) (refused _)
        | inr (u, e) ↦ elim (Bool-cases (u.org_id === actor.org_id)) [
          | inr f ↦ rw (r, s, e, f) (refused _)
          | inl f ↦ elim (Bool-cases (is_active u.status)) [
            | inr g ↦ rw (r, s, e, f, g) (refused _)
            | inl g ↦
                let (half, both) = changed u (record { found = e; same_org = f }) r s g in
                elim (Option-cases (find_by_id actor.user_id (promoted target_id db).users)) [
                  | inl h ↦ rw (r, s, e, f, g) (rw e (rw h (half h)))
                  | inr (v, h) ↦ rw (r, s, e, f, g) (rw e (rw h (both v h)))
                ]
          ]
        ]
      ]
    ]
  ]
