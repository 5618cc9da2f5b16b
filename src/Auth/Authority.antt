-- ===== src/Auth/Authority.antt =====
-- What each role can do to users through UsersService, and what becomes of sessions.
use clickup_sync.Common.{
  ◌≡◌, refl, ap, ◌∙◌, sym, ◌⊎◌, String, Bool, true, false, not, none, List, [], ◌===◌, arith,
  eq_iff, Bool-cases, inl, inr, find_many, delete_many, find_many-update_unique,
  find_many-delete_unique, find_many-delete_many, Result, ok, err, record_not_found,
}
use clickup_sync.Auth.Store.{
  owner, admin, member, disabled, active, User, Session, AuthDb, AuthPrincipal, role_eq, find_by_id,
  has_id, of_user,
}
use clickup_sync.Auth.Permissions.{can_assign_role, can_manage_user}
use clickup_sync.Auth.Users.{
  change_role, set_status, remove, transfer_ownership, set_role, put_status,
}
use clickup_sync.Auth.Users.Cases.{
  Target, promoted, change_role_cases, set_status_cases, remove_cases, transfer_ownership_cases,
}
use clickup_sync.Auth.Ownership.{
  UserCall, changes_role, sets_status, removes, transfers, after, IsGenuine,
  find_by_id-set_role_other,
}

-- The users of all other orgs.
abbrev pub outsiders : AuthPrincipal → List User → List User
outsiders actor = find_many (λ u. not (u.org_id === actor.org_id))

abbrev pub owners : List User → List User
owners = find_many (λ u. role_eq u.role owner)

module _ (actor : AuthPrincipal) (db : AuthDb) where
  -- Whatever a principal whose org is that of its row, if it has one, asks of UsersService, the users of
  -- other orgs stay as they are.
  pub after-outsiders :
      (c : UserCall)
      → IsGenuine actor db
      → outsiders actor (after actor c db).users ≡ outsiders actor db.users
  after-outsiders (changes_role id role) g =
      change_role_cases actor id db (λ r. outsiders actor r.1.users ≡ outsiders actor db.users)
        (λ e. refl) role
        λ u t allowed guarded.
          find_many-update_unique (has_id id) _ (set_role role) db.users u t.found (rw t.same_org)
            (rw t.same_org)
  after-outsiders (sets_status id status) g =
      set_status_cases actor id db (λ r. outsiders actor r.1.users ≡ outsiders actor db.users)
        (λ e. refl) status
        λ u t allowed guarded.
          find_many-update_unique (has_id id) _ (put_status status) db.users u t.found
            (rw t.same_org) (rw t.same_org)
  after-outsiders (removes id) g =
      remove_cases actor id db (λ r. outsiders actor r.1.users ≡ outsiders actor db.users)
        (λ e. refl)
        λ u t allowed guarded.
          find_many-delete_unique (has_id id) _ db.users u t.found (rw t.same_org)
  after-outsiders (transfers id) g =
      transfer_ownership_cases actor id db
        (λ r. outsiders actor r.1.users ≡ outsiders actor db.users) (λ e. refl)
        λ u t owns other live.
          let half =
            find_many-update_unique (has_id id) _ (set_role owner) db.users u t.found
              (rw t.same_org) (rw t.same_org) in
          (
            λ missing. half,
            λ v e.
                let mine = (eq_iff v.org_id actor.org_id).1 (
                  g v
                    (sym (find_by_id-set_role_other id actor.user_id owner db.users other) ∙ e)) in
                find_many-update_unique (has_id actor.user_id) _ (set_role admin)
                  (promoted id db).users v e (rw mine) (rw mine)
                ∙ half,
          )

  -- What an admin asks leaves every owner as it is, and makes no new one.
  pub after-owners :
      (c : UserCall) → actor.role ≡ admin → owners (after actor c db).users ≡ owners db.users
  after-owners (changes_role id role) a =
      change_role_cases actor id db (λ r. owners r.1.users ≡ owners db.users) (λ e. refl) role
        λ u t allowed guarded.
          unfold can_assign_role in
          find_many-update_unique (has_id id) _ (set_role role) db.users u t.found
            (ground (arith, rw a at allowed)) (ground (arith, rw a at allowed))
  after-owners (sets_status id status) a =
      set_status_cases actor id db (λ r. owners r.1.users ≡ owners db.users) (λ e. refl) status
        λ u t allowed guarded.
          unfold can_manage_user in
          find_many-update_unique (has_id id) _ (put_status status) db.users u t.found
            (ground (arith, rw a at allowed)) (ground (arith, rw a at allowed))
  after-owners (removes id) a =
      remove_cases actor id db (λ r. owners r.1.users ≡ owners db.users) (λ e. refl)
        λ u t allowed guarded.
          unfold can_manage_user in
          find_many-delete_unique (has_id id) _ db.users u t.found (ground (arith, rw a at allowed))
  after-owners (transfers id) a =
      transfer_ownership_cases actor id db (λ r. owners r.1.users ≡ owners db.users) (λ e. refl)
        λ u t owns other live. absurd (cc (a, owns))

  -- What a member asks changes nothing.
  pub after-member : (c : UserCall) → actor.role ≡ member → after actor c db ≡ db
  after-member (changes_role id role) a =
      change_role_cases actor id db (λ r. r.1 ≡ db) (λ e. refl) role
        λ u t allowed guarded. unfold can_assign_role in ground (arith, rw a at allowed)
  after-member (sets_status id status) a =
      set_status_cases actor id db (λ r. r.1 ≡ db) (λ e. refl) status
        λ u t allowed guarded. unfold can_manage_user in ground (arith, rw a at allowed)
  after-member (removes id) a =
      remove_cases actor id db (λ r. r.1 ≡ db) (λ e. refl)
        λ u t allowed guarded. unfold can_manage_user in ground (arith, rw a at allowed)
  after-member (transfers id) a =
      transfer_ownership_cases actor id db (λ r. r.1 ≡ db) (λ e. refl)
        λ u t owns other live. absurd (cc (a, owns))

abbrev pub returns {ℓ} : {A : Type ℓ} → Result A → Bool
returns (ok a) = true
returns (err e) = false

-- The call did not throw.
abbrev pub succeeds : AuthPrincipal → UserCall → AuthDb → Bool
succeeds actor (changes_role id role) db = returns (change_role actor id role db).0
succeeds actor (sets_status id status) db = returns (set_status actor id status db).0
succeeds actor (removes id) db = returns (remove actor id db).0
succeeds actor (transfers id) db = returns (transfer_ownership actor id db).0

abbrev pub sessions_of : String → AuthDb → List Session
sessions_of id db = find_many (of_user id) db.sessions

module _ (actor : AuthPrincipal) (db : AuthDb) (id : String) where
  disabled_signed_out :
      succeeds actor (sets_status id disabled) db ≡ true
      → sessions_of id (after actor (sets_status id disabled) db) ≡ []
  disabled_signed_out =
      set_status_cases actor id db (λ r. returns r.0 ≡ true → sessions_of id r.1 ≡ []) (λ e h. cc)
        disabled λ u t allowed guarded h. find_many-delete_many (of_user id) db.sessions

  removed_signed_out :
      succeeds actor (removes id) db ≡ true → sessions_of id (after actor (removes id) db) ≡ []
  removed_signed_out =
      remove_cases actor id db (λ r. returns r.0 ≡ true → sessions_of id r.1 ≡ []) (λ e h. cc)
        λ u t allowed guarded h.
          find_many-delete_many (of_user id) (delete_many (of_user id) db.sessions)

  -- A user who was disabled or removed has no session left.
  pub after-signed_out :
      (c : UserCall)
      → (c ≡ sets_status id disabled) ⊎ (c ≡ removes id)
      → succeeds actor c db ≡ true
      → sessions_of id (after actor c db) ≡ []
  after-signed_out c (inl e) h = rw e (disabled_signed_out (rw e at h))
  after-signed_out c (inr e) h = rw e (removed_signed_out (rw e at h))

  -- A principal with no row of its own, as that of the admin key, that transfers ownership to an
  -- active user of its org gets an error, and the user is an owner all the same.
  pub transfer_without_row :
      (u : User)
      → Target actor id db u
      → actor.role ≡ owner
      → u.status ≡ active
      → find_by_id actor.user_id db.users ≡ none
      → transfer_ownership actor id db ≡ (err record_not_found, promoted id db)
  unfolding transfer_ownership
  transfer_without_row u t owns live missing =
      rw (owns, other, t.found, t.same_org, live) (rw t.found (rw no_row refl))
    where
      other : (id === actor.user_id) ≡ false
      other = elim (Bool-cases (id === actor.user_id)) [
        | inr e ↦ e
        | inl e ↦
            cc (t.found, missing, ap (λ j. find_by_id j db.users) ((eq_iff id actor.user_id).0 e))
      ]

      no_row : find_by_id actor.user_id (promoted id db).users ≡ none
      no_row = find_by_id-set_role_other id actor.user_id owner db.users other ∙ missing
