-- ===== src/Auth/Invitations/Lifecycle.antt =====
-- What no sequence of uses does: make an owner, or open an invitation again.
use clickup_sync.Common.{
  ◌≡◌, refl, ap, ◌∙◌, inl, inr, String, Bool, false, none, some, List, [], ◌∷◌, ◌===◌, eq_iff,
  Bool-cases, find_first, update_unique, All, All-find_first, All-update_unique,
  find_first-update_unique, find_first-update_unique_other,
}
use clickup_sync.Auth.Store.{owner, Invitation, AuthDb, role_eq}
use clickup_sync.Auth.Authority.{owners}
use clickup_sync.Auth.Invitations.{has_invitation_id, is_pending}
use clickup_sync.Auth.Invitations.Effects.{
  Effect, unchanged, added, changed, OtherInvitation, DistinctInvitations,
}
use clickup_sync.Auth.Invitations.Uses.{InvitationUse, use_invitations, use_invitation-Effect}

abbrev pub InvitesNoOwner : Invitation → Type 0
InvitesNoOwner inv = role_eq inv.role owner ≡ false

-- Keys are unique, and nobody is invited as an owner.
abbrev pub AreProper : List Invitation → Type 0
AreProper rows = DistinctInvitations rows × All InvitesNoOwner rows

-- The invitation with the key is there, and is not pending.
abbrev pub IsClosed : String → List Invitation → Type 0
IsClosed id rows =
    (inv : Invitation) × ((find_first (has_invitation_id id) rows ≡ some inv)
      × (is_pending inv.status ≡ false))

not_found_others :
    (id : String) (rows : List Invitation)
    → find_first (has_invitation_id id) rows ≡ none
    → All (OtherInvitation id) rows
not_found_others id [] e = tt
not_found_others id (x ∷ rest) e = elim (Bool-cases (has_invitation_id id x)) [
  | inl y ↦ absurd (cc (rw y at e))
  | inr y ↦ (y, not_found_others id rest (rw y at e))
]

DistinctInvitations-update_unique :
    (f : Invitation → Invitation) (rows : List Invitation) (inv : Invitation)
    → find_first (has_invitation_id inv.id) rows ≡ some inv
    → (f inv).id ≡ inv.id
    → DistinctInvitations rows
    → DistinctInvitations (update_unique (has_invitation_id inv.id) f rows)
DistinctInvitations-update_unique f [] inv e same d = tt
DistinctInvitations-update_unique f (x ∷ rest) inv e same d =
    elim (Bool-cases (has_invitation_id inv.id x)) [
      | inl y ↦ let here : x ≡ inv = cc (rw y at e) in rw (y, here, same) (rw here at d)
      | inr y ↦ rw y (
        All-update_unique (OtherInvitation x.id) (has_invitation_id inv.id) f rest inv (rw y at e)
            (λ h. rw same h) d.0,
        DistinctInvitations-update_unique f rest inv (rw y at e) same d.1,
      )
    ]

pub Effect-AreProper :
    (db db' : AuthDb) → Effect db db' → AreProper db.invitations → AreProper db'.invitations
Effect-AreProper db _ unchanged h = h
Effect-AreProper db _ (added inv new role) h =
    ((not_found_others inv.id db.invitations new, h.0), (role, h.1))
Effect-AreProper db _ (changed inv f users found same role status joined) h = (
  DistinctInvitations-update_unique f db.invitations inv found same h.0,
  All-update_unique InvitesNoOwner (has_invitation_id inv.id) f db.invitations inv found kept h.1,
)
  where
    kept : InvitesNoOwner inv → InvitesNoOwner (f inv)
    kept k = elim role [ inl r ↦ r | inr r ↦ rw r k ]

Effect-owners :
    (db db' : AuthDb)
    → Effect db db'
    → AreProper db.invitations
    → owners db'.users ≡ owners db.users
Effect-owners db _ unchanged h = refl
Effect-owners db _ (added inv new role) h = refl
Effect-owners db _ (changed inv f users found same role status (inl e)) h = ap owners e
Effect-owners db _ (changed inv f users found same role status (inr (u, (e, r)))) h =
    rw (e, r, All-find_first InvitesNoOwner (has_invitation_id inv.id) db.invitations inv found h.1)
      refl

Effect-IsClosed :
    (id : String) (db db' : AuthDb)
    → Effect db db'
    → IsClosed id db.invitations
    → IsClosed id db'.invitations
Effect-IsClosed id db _ unchanged h = h
Effect-IsClosed id db _ (added inv new role) (old, (e, c)) = (old, (rw other e, c))
  where
    other : has_invitation_id id inv ≡ false
    other = elim (Bool-cases (has_invitation_id id inv)) [
      | inr n ↦ n
      | inl y ↦ absurd (cc (rw ((eq_iff inv.id id).0 y) at new, e))
    ]
Effect-IsClosed id db _ (changed inv f users found same role status joined) (old, (e, c)) =
    elim (Bool-cases (inv.id === id)) [
      | inl y ↦
          let own : inv.id ≡ id = (eq_iff inv.id id).0 y in
          let it : old ≡ inv = cc (e, found, own) in rw (← own) (closed (rw it at c))
      | inr n ↦ (
        old,
        (
          find_first-update_unique_other (has_invitation_id inv.id) f (has_invitation_id id)
                db.invitations inv found n (rw same n)
              ∙ e,
          c,
        ),
      )
    ]
  where
    closed :
        is_pending inv.status ≡ false
        → IsClosed inv.id (update_unique (has_invitation_id inv.id) f db.invitations)
    closed shut = (
      f inv,
      (
        find_first-update_unique (has_invitation_id inv.id) f db.invitations inv found
            ((eq_iff (f inv).id inv.id).1 same),
        elim status [ inl h ↦ absurd (cc (h, shut)) | inr h ↦ h ],
      ),
    )

module _ (lower trim hash_password hash : String → String) (mails : String → String → Bool) where
  -- However the invitations are used, no owner is made, changed or removed by it, if the keys of the
  -- invitations are unique and none is for an owner at the start.
  pub use_invitations-owners :
      (us : List InvitationUse) (db : AuthDb)
      → AreProper db.invitations
      → owners (use_invitations lower trim hash_password hash mails us db).users ≡ owners db.users
  unfolding use_invitations
  use_invitations-owners [] db h = refl
  use_invitations-owners (u ∷ rest) db h =
      let effect = use_invitation-Effect lower trim hash_password hash mails u db h.0 in
      use_invitations-owners rest _ (Effect-AreProper db _ effect h) ∙ Effect-owners db _ effect h

  -- An invitation that was accepted, revoked or marked as expired is never pending again, however
  -- invitations are used afterwards, if their keys are unique and none is for an owner.
  pub use_invitations-IsClosed :
      (us : List InvitationUse) (id : String) (db : AuthDb)
      → AreProper db.invitations
      → IsClosed id db.invitations
      → IsClosed id (use_invitations lower trim hash_password hash mails us db).invitations
  unfolding use_invitations
  use_invitations-IsClosed [] id db h c = c
  use_invitations-IsClosed (u ∷ rest) id db h c =
      let effect = use_invitation-Effect lower trim hash_password hash mails u db h.0 in
      use_invitations-IsClosed rest id _ (Effect-AreProper db _ effect h)
        (Effect-IsClosed id db _ effect c)
