-- ===== src/Auth/Invitations/Uses.antt =====
-- Every use of the invitations of an org, and what it can do.
use clickup_sync.Common.{
  continue, ◌>>◌, pure, ℕ, ◌≡◌, refl, ◌⊎◌, inl, inr, String, Bool, true, false, not, ◌&&◌, ◌||◌,
  some, List, [], ◌∷◌, ◌===◌, ltb, arith, eq_iff, Bool-cases, Option-cases, find_first,
  find_first-passes, update_unique, Result,
}
use clickup_sync.Auth.Store.{User, Invitation, AuthDb, AuthPrincipal, is_found, find_by_email}
use clickup_sync.Auth.Store.Cases.{create_user_cases}
use clickup_sync.Auth.Invitations.{
  update_invitation, CreateInvitationDto, AcceptInvitationDto, is_pending, has_invitation_id,
  has_token_hash, create, resend, revoke, accept, invited_user, put_token, set_revoked, accept_at,
}
use clickup_sync.Auth.Invitations.Effects.{
  Effect, unchanged, changed, DistinctInvitations, found_by_id, create-Effect,
}

module _ (db : AuthDb) (d : DistinctInvitations db.invitations) where
  -- A write of the row that a key finds.
  by_key_of :
      (id : String) (inv : Invitation) (f : Invitation → Invitation)
      → find_first (has_invitation_id id) db.invitations ≡ some inv
      → (f inv).id ≡ inv.id
      → (f inv).role ≡ inv.role
      → (is_pending inv.status ≡ true) ⊎ (is_pending (f inv).status ≡ false)
      → Effect db
          (record db { invitations = update_unique (has_invitation_id id) f db.invitations })
  by_key_of id inv f e same role status =
      let own : inv.id ≡ id =
        (eq_iff inv.id id).0 (find_first-passes (has_invitation_id id) db.invitations inv e) in
      let step : Effect db
          (record db { invitations = update_unique (has_invitation_id inv.id) f db.invitations }) =
        changed inv f db.users (found_by_id (has_invitation_id id) db.invitations inv d e) same
          (inr role) status (inl refl) in
      rw own at step

  resend-Effect :
      (hash : String → String) (mails : String → String → Bool) (actor : AuthPrincipal)
      (id : String) (now : ℕ) (token : String)
      → Effect db (resend hash mails actor id now token db).1
  unfolding resend
  resend-Effect hash mails actor id now token =
      elim (Option-cases (find_first (has_invitation_id id) db.invitations)) [
        | inl e ↦ rw e unchanged
        | inr (inv, e) ↦
            elim (Bool-cases (not (inv.org_id === actor.org_id) || not (is_pending inv.status))) [
              | inl bad ↦ rw (e, bad) unchanged
              | inr good ↦
                  elim (Bool-cases (
                    is_found (
                      find_first
                        (λ x. has_token_hash (hash token) x && not (has_invitation_id id x))
                        db.invitations))) [
                          | inl taken ↦ rw (e, good, taken) unchanged
                          | inr free ↦ elim (Bool-cases (mails inv.email token)) [
                            | inl sent ↦ rw (e, good, free) (rw (e, sent) (written inv e good))
                            | inr lost ↦ rw (e, good, free) (rw (e, lost) (written inv e good))
                          ]
                        ]
            ]
      ]
    where
      written :
          (inv : Invitation)
          → find_first (has_invitation_id id) db.invitations ≡ some inv
          → (not (inv.org_id === actor.org_id) || not (is_pending inv.status)) ≡ false
          → Effect db (record db {
            invitations =
                update_unique (has_invitation_id id) (put_token hash now token) db.invitations;
          })
      written inv e good =
          by_key_of id inv (put_token hash now token) e refl refl (inl (ground arith))

  revoke-Effect : (actor : AuthPrincipal) (id : String) → Effect db (revoke actor id db).1
  unfolding revoke
  revoke-Effect actor id = elim (Option-cases (find_first (has_invitation_id id) db.invitations)) [
    | inl e ↦ rw e unchanged
    | inr (inv, e) ↦ elim (Bool-cases (inv.org_id === actor.org_id)) [
      | inr theirs ↦ rw (e, theirs) unchanged
      | inl ours ↦ rw (e, ours) (rw e (by_key_of id inv set_revoked e refl refl (inr refl)))
    ]
  ]

  module _ (lower trim hash_password hash : String → String) where
    accept-Effect :
        (now : ℕ) (token id : String) (dto : AcceptInvitationDto)
        → Effect db (accept lower trim hash_password hash now token id dto db).1
    unfolding accept
    accept-Effect now token id dto =
        elim (Option-cases (find_first (has_token_hash (hash token)) db.invitations)) [
          | inl e ↦ rw e unchanged
          | inr (inv, e) ↦
              elim (Bool-cases (not (is_pending inv.status) || ltb inv.expires_at now)) [
                | inl bad ↦ rw (e, bad) unchanged
                | inr good ↦ elim (Bool-cases (is_found (find_by_email lower inv.email db.users))) [
                  | inl taken ↦ rw (e, good, taken) unchanged
                  | inr free ↦
                      rw (e, good, free)
                        (create_user_cases (invited_user lower trim hash_password id dto inv) db
                          (λ (r : Result User × AuthDb).
                            Effect db
                              (continue r.0
                                (λ user. do update_invitation inv.id (accept_at now); pure user)
                                r.1).1)
                          (λ x. unchanged)
                          (λ new.
                            let own =
                              found_by_id (has_token_hash (hash token)) db.invitations inv d e in
                            rw own (
                              changed inv (accept_at now)
                                (invited_user lower trim hash_password id dto inv ∷ db.users) own
                                refl (inr refl) (inr refl) (inr (_, (refl, refl))))))
                ]
              ]
        ]

pub data InvitationUse : Type 0 where
  creates : AuthPrincipal → CreateInvitationDto → ℕ → (token id : String) → InvitationUse
  resends : AuthPrincipal → (id : String) → ℕ → (token : String) → InvitationUse
  revokes : AuthPrincipal → (id : String) → InvitationUse
  accepts : ℕ → (token id : String) → AcceptInvitationDto → InvitationUse

module _ (lower trim hash_password hash : String → String) (mails : String → String → Bool) where
  -- The store after a use, whether it returned or threw.
  unfoldable pub use_invitation : InvitationUse → AuthDb → AuthDb
  use_invitation (creates actor dto now token id) db =
      (create hash mails lower actor dto now token id db).1
  use_invitation (resends actor id now token) db = (resend hash mails actor id now token db).1
  use_invitation (revokes actor id) db = (revoke actor id db).1
  use_invitation (accepts now token id dto) db =
      (accept lower trim hash_password hash now token id dto db).1

  unfoldable pub use_invitations : List InvitationUse → AuthDb → AuthDb
  use_invitations [] db = db
  use_invitations (u ∷ rest) db = use_invitations rest (use_invitation u db)

  pub use_invitation-Effect :
      (u : InvitationUse) (db : AuthDb)
      → DistinctInvitations db.invitations
      → Effect db (use_invitation u db)
  unfolding use_invitation
  use_invitation-Effect (creates actor dto now token id) db d =
      create-Effect db d hash mails lower actor dto now token id
  use_invitation-Effect (resends actor id now token) db d =
      resend-Effect db d hash mails actor id now token
  use_invitation-Effect (revokes actor id) db d = revoke-Effect db d actor id
  use_invitation-Effect (accepts now token id dto) db d =
      accept-Effect db d lower trim hash_password hash now token id dto
