-- ===== src/Auth/Invitations/Effects.antt =====
-- What each use of an invitation can do to the tables.
use clickup_sync.Common.{
  ap, ◌>>◌, pure, continue, Action, ℕ, ◌≡◌, refl, ◌⊎◌, inl, inr, String, Bool, true, false, not,
  ◌&&◌, Option, none, some, List, [], ◌∷◌, ◌===◌, arith, eq_iff, Bool-cases, Option-cases,
  find_first, find_first-passes, update_unique, All, Result, ok, err,
}
use clickup_sync.Auth.Store.{
  Role, owner, admin, member, User, Invitation, AuthDb, AuthPrincipal, role_eq, is_found,
  find_by_email,
}
use clickup_sync.Auth.Permissions.{can_invite_with_role}
use clickup_sync.Auth.Invitations.{
  send_invite, CreateInvitationDto, is_pending, has_invitation_id, has_token_hash, pending_for,
  create, put_invitation, new_invitation, renew, keep_hash_unique, update_invitation,
  create_invitation,
}

-- The tables after one use: as they were, with a new pending invitation, with an invitation changed
-- that was pending or is not pending now, with a new user, or with both of the last.
pub data Effect (db : AuthDb) : AuthDb → Type 0 where
  unchanged : Effect db db
  added :
      (inv : Invitation)
      → find_first (has_invitation_id inv.id) db.invitations ≡ none
      → role_eq inv.role owner ≡ false
      → Effect db (record db { invitations = inv ∷ db.invitations })
  changed :
      (inv : Invitation) (f : Invitation → Invitation) (users : List User)
      → find_first (has_invitation_id inv.id) db.invitations ≡ some inv
      → (f inv).id ≡ inv.id
      → (role_eq (f inv).role owner ≡ false) ⊎ ((f inv).role ≡ inv.role)
      → (is_pending inv.status ≡ true) ⊎ (is_pending (f inv).status ≡ false)
      → (users ≡ db.users) ⊎ ((u : User) × ((users ≡ u ∷ db.users) × (u.role ≡ inv.role)))
      → Effect db (record db {
        users = users;
        invitations = update_unique (has_invitation_id inv.id) f db.invitations;
      })

-- Keys are unique.
abbrev pub OtherInvitation : String → Invitation → Type 0
OtherInvitation id inv = has_invitation_id id inv ≡ false

abbrev pub DistinctInvitations : List Invitation → Type 0
DistinctInvitations [] = Unit
DistinctInvitations (inv ∷ rest) = All (OtherInvitation inv.id) rest × DistinctInvitations rest

other_not_found :
    (id : String) (p : Invitation → Bool) (rows : List Invitation) (inv : Invitation)
    → All (OtherInvitation id) rows
    → find_first p rows ≡ some inv
    → (id === inv.id) ≡ false
other_not_found id p [] inv h e = cc
other_not_found id p (x ∷ rest) inv h e = ground (
  arith,
  h.0,
  eq_iff x.id id,
  eq_iff id inv.id,
  eq_iff id x.id,
  other_not_found id p rest inv h.1,
)

-- A row that some test finds is the one that its key finds.
pub found_by_id :
    (p : Invitation → Bool) (rows : List Invitation) (inv : Invitation)
    → DistinctInvitations rows
    → find_first p rows ≡ some inv
    → find_first (has_invitation_id inv.id) rows ≡ some inv
found_by_id p [] inv d e = cc
found_by_id p (x ∷ rest) inv d e = elim (Bool-cases (p x)) [
  | inl y ↦
      let same : x ≡ inv = cc (rw y at e) in
      rw ((eq_iff x.id inv.id).1 (ap (λ i. i.id) same)) (ap some same)
  | inr y ↦
      rw (other_not_found x.id p rest inv d.0 (rw y at e)) (found_by_id p rest inv d.1 (rw y at e))
]

-- Owners are never invited.
not_owner :
    (actor role : Role) → can_invite_with_role actor role ≡ true → role_eq role owner ≡ false
unfolding can_invite_with_role
not_owner actor owner may = cc
not_owner actor admin may = refl
not_owner actor member may = refl

module _ (db : AuthDb) (d : DistinctInvitations db.invitations) where
  -- A write of a row that was found, after the check of its hash.
  update-Effect :
      (inv : Invitation) (f : Invitation → Invitation)
      → find_first (has_invitation_id inv.id) db.invitations ≡ some inv
      → (f inv).id ≡ inv.id
      → (role_eq (f inv).role owner ≡ false) ⊎ ((f inv).role ≡ inv.role)
      → (is_pending inv.status ≡ true) ⊎ (is_pending (f inv).status ≡ false)
      → Effect db (update_invitation inv.id f db).1
  update-Effect inv f found id role status =
      rw found (changed inv f db.users found id role status (inl refl))

  create_invitation-Effect :
      (inv : Invitation) → role_eq inv.role owner ≡ false → Effect db (create_invitation inv db).1
  create_invitation-Effect inv role =
      elim (Option-cases (find_first (has_invitation_id inv.id) db.invitations)) [
        | inr (x, e) ↦ rw e unchanged
        | inl e ↦
            elim (Bool-cases (
              is_found (
                find_first
                  (λ x. has_token_hash inv.token_hash x && not (has_invitation_id inv.id x))
                  db.invitations))) [
                    | inl taken ↦ rw (e, taken) unchanged
                    | inr free ↦ rw (e, free) (added inv e role)
                  ]
      ]

  -- The same after the check that the hash of the new token is unique.
  checked_update-Effect :
      (h : String) (inv : Invitation) (f : Invitation → Invitation)
      → find_first (has_invitation_id inv.id) db.invitations ≡ some inv
      → (f inv).id ≡ inv.id
      → (role_eq (f inv).role owner ≡ false) ⊎ ((f inv).role ≡ inv.role)
      → is_pending inv.status ≡ true
      → Effect db ((keep_hash_unique inv.id h >> update_invitation inv.id f) db).1
  checked_update-Effect h inv f found id role open_row =
      elim (Bool-cases (
        is_found (
          find_first (λ x. has_token_hash h x && not (has_invitation_id inv.id x))
            db.invitations))) [
              | inl taken ↦ rw taken unchanged
              | inr free ↦ rw free (update-Effect inv f found id role (inl open_row))
            ]

  -- Mail is sent after the write and changes nothing.
  pub continue_keeps :
      {A B : Type 0} (P : AuthDb → Type 0) (r : Result A) (k : Action AuthDb B) (db' : AuthDb)
      → ((s : AuthDb) → (k s).1 ≡ s)
      → P db'
      → P (continue r (λ _. k) db').1
  continue_keeps P (ok a) k db' keeps h = rw keeps h
  continue_keeps P (err e) k db' keeps h = h

  send-keeps :
      {B : Type 0} (mails : String → String → Bool) (email token : String) (b : B) (s : AuthDb)
      → ((send_invite mails email token >> pure b) s).1 ≡ s
  send-keeps mails email token b s = elim (Bool-cases (mails email token)) [
    | inl y ↦ rw y refl
    | inr y ↦ rw y refl
  ]

  module _ (hash : String → String) where
    put_invitation-Effect :
        (actor : AuthPrincipal) (email : String) (role : Role) (now : ℕ) (token id : String)
        (p : Invitation → Bool) (existing : Option Invitation)
        → find_first p db.invitations ≡ existing
        → ((inv : Invitation) → p inv ≡ true → is_pending inv.status ≡ true)
        → role_eq role owner ≡ false
        → Effect db (put_invitation hash actor email role now token id existing db).1
    put_invitation-Effect actor email role now token id p none e open_row r =
        create_invitation-Effect (new_invitation hash actor email role now token id) r
    put_invitation-Effect actor email role now token id p (some inv) e open_row r =
        checked_update-Effect (hash token) inv (renew hash actor role now token)
          (found_by_id p db.invitations inv d e) refl (inl r)
          (open_row inv (find_first-passes p db.invitations inv e))

    pub create-Effect :
        (mails : String → String → Bool) (lower : String → String) (actor : AuthPrincipal)
        (dto : CreateInvitationDto) (now : ℕ) (token id : String)
        → Effect db (create hash mails lower actor dto now token id db).1
    unfolding create
    create-Effect mails lower actor dto now token id =
        elim (Bool-cases (can_invite_with_role actor.role dto.role)) [
          | inr denied ↦ rw denied unchanged
          | inl may ↦
              elim (Bool-cases (is_found (find_by_email lower (lower dto.email) db.users))) [
                | inl taken ↦ rw (may, taken) unchanged
                | inr free ↦
                    rw (may, free)
                      (continue_keeps (Effect db) _
                        (send_invite mails (lower dto.email) token >> pure (lower dto.email)) _
                        (send-keeps mails (lower dto.email) token (lower dto.email))
                        (put_invitation-Effect actor (lower dto.email) dto.role now token id
                          (pending_for lower actor.org_id (lower dto.email)) _ refl
                          (λ inv y. ground arith) (not_owner actor.role dto.role may)))
              ]
        ]
