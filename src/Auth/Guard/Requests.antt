-- ===== src/Auth/Guard/Requests.antt =====
-- Requests to UsersController, from the guards to the tables, one after another.
use clickup_sync.Common.{
  ◌<◌, ℕ, ◌≡◌, refl, ap, ◌∙◌, String, false, Option, none, some, List, [], ◌∷◌, ◌===◌, arith,
  eq_iff, Bool-cases, Option-cases, inl, inr, Result, ok, err, truthy, All, find_first,
  find_first-passes, throw_if, pure, forbidden, ◌>>◌, ◌&&◌, update_unique, delete_unique, continue,
}
use clickup_sync.Auth.Store.{
  count_owners, owner, admin, Session, User, AuthDb, AuthPrincipal, has_id, find_by_id,
}
use clickup_sync.Auth.Users.{set_role, put_status}
use clickup_sync.Auth.Users.Cases.{
  change_role_cases, set_status_cases, remove_cases, transfer_ownership_cases,
}
use clickup_sync.Auth.Sessions.{SessionConfig, Valid, has_hash, validate, check_row}
use clickup_sync.Auth.Ownership.{
  UserCall, changes_role, sets_status, removes, transfers, after, IsGenuine, HasOwner,
  after-HasOwner,
}
use clickup_sync.Auth.Guard.{
  HttpRequest, principal_of, is_mutating, csrf_fails, session_user, validated, key_matches,
  can_activate, check_roles, required_roles, checked, admitted, request, requests,
}
use clickup_sync.Auth.Sessions.Validity.{Admits}
use clickup_sync.Auth.Guard.Soundness.{Authentic, by_key, by_token, can_activate-Authentic}

-- No user has the id that stands for the admin key. (Prisma's `cuid()` makes no such id.)
abbrev pub NotMachine : User → Type 0
NotMachine u = (u.id === "machine") ≡ false

abbrev pub NoMachineRow : AuthDb → Type 0
NoMachineRow db = All NotMachine db.users

module _ (id : String) where
  NotMachine-update :
      (f : User → User) (users : List User)
      → ((u : User) → (f u).id ≡ u.id)
      → All NotMachine users
      → All NotMachine (update_unique (has_id id) f users)
  NotMachine-update f [] same h = tt
  NotMachine-update f (u ∷ rest) same h = elim (Bool-cases (has_id id u)) [
    | inl e ↦ rw e (ap (λ i. i === "machine") (same u) ∙ h.0, h.1)
    | inr e ↦ rw e (h.0, NotMachine-update f rest same h.1)
  ]

  NotMachine-delete :
      (users : List User) → All NotMachine users → All NotMachine (delete_unique (has_id id) users)
  NotMachine-delete [] h = tt
  NotMachine-delete (u ∷ rest) h = elim (Bool-cases (has_id id u)) [
    | inl e ↦ rw e h.1
    | inr e ↦ rw e (h.0, NotMachine-delete rest h.1)
  ]

after-NoMachineRow :
    (actor : AuthPrincipal) (c : UserCall) (db : AuthDb)
    → NoMachineRow db
    → NoMachineRow (after actor c db)
after-NoMachineRow actor (changes_role id role) db h =
    change_role_cases actor id db (λ r. NoMachineRow r.1) (λ e. h) role
      λ u t allowed guarded. NotMachine-update id (set_role role) db.users (λ v. refl) h
after-NoMachineRow actor (sets_status id status) db h =
    set_status_cases actor id db (λ r. NoMachineRow r.1) (λ e. h) status
      λ u t allowed guarded. NotMachine-update id (put_status status) db.users (λ v. refl) h
after-NoMachineRow actor (removes id) db h =
    remove_cases actor id db (λ r. NoMachineRow r.1) (λ e. h)
      λ u t allowed guarded. NotMachine-delete id db.users h
after-NoMachineRow actor (transfers id) db h =
    transfer_ownership_cases actor id db (λ r. NoMachineRow r.1) (λ e. h)
      λ u t owns other live.
        let half = NotMachine-update id (set_role owner) db.users (λ v. refl) h in
        (
          λ missing. half,
          λ v e. NotMachine-update actor.user_id (set_role admin) _ (λ v. refl) half,
        )

find_machine : (users : List User) → All NotMachine users → find_by_id "machine" users ≡ none
find_machine [] h = refl
find_machine (u ∷ rest) h = rw h.0 (find_machine rest h.1)

module _ (hash : String → String) (cfg : SessionConfig) (api_key : String) where
  -- Validating a token writes no user.
  users-check_row :
      (now : ℕ) (row : Option Session) (db : AuthDb)
      → (check_row hash cfg now row db).1.users ≡ db.users
  users-check_row now none db = refl
  users-check_row now (some row) db = elim (Option-cases (find_by_id row.user_id db.users)) [
    | inl e ↦ ground (arith, e)
    | inr (u, e) ↦ ground (arith, e)
  ]

  session_user-keeps : (v : Valid) (db : AuthDb) → (session_user v db).1 ≡ db
  session_user-keeps none db = refl
  session_user-keeps (some (s, u)) db = refl

  -- What follows the validation is the check of the CSRF token, which writes nothing.
  after_user-keeps :
      (req : HttpRequest) (r : Result User) (db : AuthDb)
      → (continue r
          (λ user. do
            throw_if
                (is_mutating req.method
                  && csrf_fails (truthy req.csrf_header) (truthy req.csrf_cookie))
                (forbidden "CSRF token mismatch")
            pure (some (principal_of user)))
          db).1
        ≡ db
  after_user-keeps req (err e) db = refl
  after_user-keeps req (ok u) db = elim (Bool-cases (is_mutating req.method)) [
    | inr m ↦ rw m refl
    | inl m ↦ elim (Bool-cases (csrf_fails (truthy req.csrf_header) (truthy req.csrf_cookie))) [
      | inl c ↦ rw (m, c) refl
      | inr c ↦ rw (m, c) refl
    ]
  ]

  users-can_activate :
      (now : ℕ) (req : HttpRequest) (db : AuthDb)
      → (can_activate hash cfg api_key now req db).1.users ≡ db.users
  unfolding can_activate validate
  users-can_activate now req db = elim (Bool-cases req.is_public) [
    | inl p ↦ rw p refl
    | inr p ↦ elim (Bool-cases (key_matches api_key req.admin_key)) [
      | inl k ↦ rw (p, k) refl
      | inr k ↦ elim (Option-cases (truthy req.session_cookie)) [
        | inl e ↦ rw (p, k, e) refl
        | inr (token, e) ↦
            rw (p, k, e)
              (ap (λ d. d.users)
                  (after_user-keeps req (validated hash cfg api_key now token db).0
                    (validated hash cfg api_key now token db).1)
                ∙ ap (λ d. d.users)
                    (session_user-keeps (validate hash cfg now token db).0
                      (validate hash cfg now token db).1)
                ∙ users-check_row now (find_first (has_hash (hash token)) db.sessions) db)
      ]
    ]
  ]

  same_id :
      {now : ℕ} {token : String} {db : AuthDb} (s : Session) (v : User)
      → Admits hash cfg now token db s v
      → v.id ≡ s.user_id
  same_id s v a = (eq_iff v.id s.user_id).0 (find_first-passes (has_id s.user_id) _ v a.user)

  -- The principal of an authentic request is genuine.
  Authentic-IsGenuine :
      (now : ℕ) (req : HttpRequest) (db : AuthDb) (p : AuthPrincipal)
      → NoMachineRow db
      → Authentic hash cfg api_key now req db (some p)
      → IsGenuine p db
  Authentic-IsGenuine now req db p h (by_key full same e) u f =
      absurd (cc (e, f, find_machine db.users h))
  Authentic-IsGenuine now req db p h (by_token token s v c a csrf e) u f =
      let own : find_by_id p.user_id db.users ≡ some v =
        ap (λ j. find_by_id j db.users) (cc (e, same_id s v a)) ∙ a.user in
      cc (e, f, own)

  -- A request keeps a property of the users that the call it asks for keeps.
  request_users :
      (P : List User → Type 0) (now : ℕ) (req : HttpRequest) (c : UserCall) (db : AuthDb)
      → ((p : AuthPrincipal) (db' : AuthDb)
          → db'.users ≡ db.users
          → Authentic hash cfg api_key now req db (some p)
          → P (after p c db').users)
      → P db.users
      → P (request hash cfg api_key now req c db).users
  unfolding request
  request_users P now req c db kept h =
      admitted_users (can_activate hash cfg api_key now req db).0 (λ p e.
        elim (Bool-cases req.is_public) [
          | inl shown ↦ absurd (cc (rw shown at e))
          | inr closed ↦ can_activate-Authentic hash cfg api_key now req db (some p) closed e
        ])
    where
      db' : AuthDb
      db' = (can_activate hash cfg api_key now req db).1

      same : db'.users ≡ db.users
      same = users-can_activate now req db

      checked_users :
          (p : AuthPrincipal) (r : Result (Unit {0}))
          → P (after p c db').users
          → P (checked r (after p c db') db').users
      checked_users p (ok t) a = a
      checked_users p (err e) a = rw same h

      admitted_users :
          (r : Result (Option AuthPrincipal))
          → ((p : AuthPrincipal) → r ≡ ok (some p) → Authentic hash cfg api_key now req db (some p))
          → P (admitted hash cfg api_key c r db').users
      admitted_users (err e) g = rw same h
      admitted_users (ok none) g = rw same h
      admitted_users (ok (some p)) g =
          checked_users p (check_roles (required_roles c) (some p)) (kept p db' same (g p refl))

  pub request-NoMachineRow :
      (now : ℕ) (req : HttpRequest) (c : UserCall) (db : AuthDb)
      → NoMachineRow db
      → NoMachineRow (request hash cfg api_key now req c db)
  request-NoMachineRow now req c db h =
      request_users (All NotMachine) now req c db
        (λ p db' same a. after-NoMachineRow p c db' (rw same h)) h

  pub request-HasOwner :
      (org : String) (now : ℕ) (req : HttpRequest) (c : UserCall) (db : AuthDb)
      → NoMachineRow db
      → HasOwner org db
      → HasOwner org (request hash cfg api_key now req c db)
  request-HasOwner org now req c db n h =
      request_users (λ users. 0 < count_owners org users) now req c db
        (λ p db' same a.
          after-HasOwner org p db' (rw same h) c (rw same (Authentic-IsGenuine now req db p n a)))
        h

  -- Whatever requests reach UsersController, in whatever order and with whatever keys, cookies and
  -- headers, an org that has an active owner has one afterwards, as long as no user's id is the
  -- word `machine` at the start.
  pub requests-HasOwner :
      (org : String) (reqs : List (ℕ × HttpRequest × UserCall)) (db : AuthDb)
      → NoMachineRow db
      → HasOwner org db
      → HasOwner org (requests hash cfg api_key reqs db)
  unfolding requests
  requests-HasOwner org [] db n h = h
  requests-HasOwner org ((now, req, c) ∷ rest) db n h =
      requests-HasOwner org rest (request hash cfg api_key now req c db)
        (request-NoMachineRow now req c db n) (request-HasOwner org now req c db n h)
