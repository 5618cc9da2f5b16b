-- ===== src/Auth/Invitations/Acceptance.antt =====
-- What accepting an invitation does to it, and to everything after.
use clickup_sync.Common.{
  continue, ◌>>◌, pure, not, ◌||◌, ltb, Option-cases, ℕ, ◌≡◌, refl, inl, inr, String, Bool, true,
  some, List, arith, eq_iff, Bool-cases, find_first, find_first-update_unique, Result, ok,
}
use clickup_sync.Auth.Store.{User, Invitation, AuthDb, is_found, find_by_email, create_user}
use clickup_sync.Auth.Store.Cases.{create_user_cases}
use clickup_sync.Auth.Invitations.{
  has_invitation_id, is_pending, has_token_hash, accept, accept_at, update_invitation, invited_user,
  AcceptInvitationDto,
}
use clickup_sync.Auth.Invitations.Effects.{found_by_id}
use clickup_sync.Auth.Invitations.Uses.{
  InvitationUse, use_invitation, use_invitations, use_invitation-Effect, accepts,
}
use clickup_sync.Auth.Invitations.Lifecycle.{
  AreProper, IsClosed, Effect-AreProper, use_invitations-IsClosed,
}

module _ (lower trim hash_password hash : String → String) (mails : String → String → Bool) where
  module _ (now : ℕ) (token id : String) (dto : AcceptInvitationDto) (db : AuthDb) (u : User) where
    -- What follows the creation of the user.
    finish : Invitation → Result User × AuthDb → Result User × AuthDb
    finish inv r = continue r.0 (λ user. do update_invitation inv.id (accept_at now); pure user) r.1

    finish-IsClosed :
        (inv : Invitation)
        → find_first (has_invitation_id inv.id) db.invitations ≡ some inv
        → (finish inv (create_user (invited_user lower trim hash_password id dto inv) db)).0 ≡ ok u
        → (u ≡ invited_user lower trim hash_password id dto inv)
          × IsClosed inv.id
              (finish inv
                (create_user (invited_user lower trim hash_password id dto inv) db)).1.invitations
    unfolding finish
    finish-IsClosed inv own =
        create_user_cases (invited_user lower trim hash_password id dto inv) db
          (λ r.
            (finish inv r).0 ≡ ok u
            → (u ≡ invited_user lower trim hash_password id dto inv)
              × IsClosed inv.id (finish inv r).1.invitations)
          (λ e h. cc)
          (λ new. rw own (λ h. (
            cc h,
            (
              accept_at now inv,
              (
                find_first-update_unique (has_invitation_id inv.id) (accept_at now) db.invitations
                    inv own ((eq_iff inv.id inv.id).1 refl),
                refl,
              ),
            ),
          )))

    -- An accepted token belongs to an invitation that was pending, the new user has the role, org
    -- and address of that invitation, and it is not pending afterwards nor after any further uses,
    -- if the keys of the invitations are unique and none is for an owner.
    pub accept_closes :
        (us : List InvitationUse)
        → AreProper db.invitations
        → (accept lower trim hash_password hash now token id dto db).0 ≡ ok u
        → (inv : Invitation) × ((find_first (has_token_hash (hash token)) db.invitations ≡ some inv)
            × ((is_pending inv.status ≡ true)
                × ((u ≡ invited_user lower trim hash_password id dto inv)
                    × IsClosed inv.id
                        (use_invitations lower trim hash_password hash mails us
                          (accept lower trim hash_password hash now token id dto
                            db).1).invitations)))
    unfolding accept finish use_invitation
    accept_closes us proper h =
        elim (Option-cases (find_first (has_token_hash (hash token)) db.invitations)) [
          | inl e ↦ absurd (cc (rw e at h))
          | inr (inv, e) ↦
              elim (Bool-cases (not (is_pending inv.status) || ltb inv.expires_at now)) [
                | inl bad ↦ absurd (cc (rw (e, bad) at h))
                | inr good ↦ elim (Bool-cases (is_found (find_by_email lower inv.email db.users))) [
                  | inl taken ↦ absurd (cc (rw (e, good, taken) at h))
                  | inr free ↦
                      let own =
                        found_by_id (has_token_hash (hash token)) db.invitations inv proper.0 e in
                      let (made, shut) = finish-IsClosed inv own (rw (e, good, free) at h) in
                      let kept : AreProper
                          (accept lower trim hash_password hash now token id dto db).1.invitations =
                        Effect-AreProper db _
                          (use_invitation-Effect lower trim hash_password hash mails
                            (accepts now token id dto) db proper.0)
                          proper in
                      rw (e, good, free)
                        (
                          inv,
                          (
                            refl,
                            (
                              ground arith,
                              (
                                made,
                                use_invitations-IsClosed lower trim hash_password hash mails us
                                    inv.id _ (rw (e, good, free) at kept) shut,
                              ),
                            ),
                          ),
                        )
                ]
              ]
        ]
