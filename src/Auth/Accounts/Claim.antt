-- ===== src/Auth/Accounts/Claim.antt =====
-- The org is claimed once.
use clickup_sync.Common.{
  suc, All, ◌===◌, ℕ, ◌<◌, ◌≤◌, ◌≡◌, refl, String, false, List, [], ◌∷◌, ltb, arith, Bool-cases,
  Option-cases, inl, inr, find_first, Result, ok, err, Exception,
}
use clickup_sync.Auth.Store.{
  User, AuthDb, seed_org_id, is_found, is_org, find_by_email, count_owners,
}
use clickup_sync.Auth.Store.Cases.{create_user_cases}
use clickup_sync.Auth.Ownership.{UserCall, HasOwner}
use clickup_sync.Auth.Sessions.{SessionConfig}
use clickup_sync.Auth.Guard.{HttpRequest, request}
use clickup_sync.Auth.Guard.Requests.{NoMachineRow, request-NoMachineRow, request-HasOwner}
use clickup_sync.Auth.Accounts.{SignupDto, first_owner, signup}

module _ (lower trim hash_password : String → String) (id : String) (dto : SignupDto) where
  -- A sign-up that returns adds the first owner; one that throws adds nobody.
  pub data Claims (db : AuthDb) : Result User × AuthDb → Type 0 where
    claimed :
        (db' : AuthDb)
        → count_owners seed_org_id db.users ≡ 0
        → db'.users ≡ first_owner lower trim hash_password id dto ∷ db.users
        → Claims db (ok (first_owner lower trim hash_password id dto), db')
    refused : (db' : AuthDb) (e : Exception) → db'.users ≡ db.users → Claims db (err e, db')

  pub signup-Claims : (db : AuthDb) → Claims db (signup lower trim hash_password id dto db)
  unfolding signup
  signup-Claims db = elim (Bool-cases (ltb 0 (count_owners seed_org_id db.users))) [
    | inl owned ↦ rw owned (refused db _ refl)
    | inr free ↦ elim (Bool-cases (is_found (find_by_email lower (lower dto.email) db.users))) [
      | inl taken ↦ rw (free, taken) (refused db _ refl)
      | inr new ↦ elim (Option-cases (find_first (is_org seed_org_id) db.orgs)) [
        | inl e ↦ rw (free, new, e) (refused db _ refl)
        | inr (o, e) ↦
            rw (free, new, e)
              (create_user_cases (first_owner lower trim hash_password id dto) _ (Claims db)
                (λ x. refused _ x refl) (λ fresh. claimed _ (ground arith) refl))
      ]
    ]
  ]

-- Sign-ups and requests to UsersController, in any order.
pub data AccountEvent : Type 0 where
  signs_up : (id : String) → SignupDto → AccountEvent
  requests_users : ℕ → HttpRequest → UserCall → AccountEvent

module _ (lower trim hash_password hash : String → String) (cfg : SessionConfig)
    (api_key : String) where
  -- One more, if it was accepted.
  abbrev pub tally : Result User → ℕ → ℕ
  tally (ok u) n = suc n
  tally (err e) n = n

  -- How many of the sign-ups are accepted, and the store afterwards.
  pub accounts : List AccountEvent → AuthDb → ℕ × AuthDb
  accounts [] db = (0, db)
  accounts (signs_up id dto ∷ rest) db =
      let (r, db1) = signup lower trim hash_password id dto db in
      let (n, db2) = accounts rest db1 in (tally r n, db2)
  accounts (requests_users now req c ∷ rest) db =
      accounts rest (request hash cfg api_key now req c db)

  -- The keys of new users are not the word that stands for the admin key.
  abbrev pub NotMachineKey : AccountEvent → Type 0
  NotMachineKey (signs_up id dto) = (id === "machine") ≡ false
  NotMachineKey (requests_users now req c) = Unit

  abbrev pub NotMachineKeys : List AccountEvent → Type 0
  NotMachineKeys = All NotMachineKey

  -- Once there is an owner no sign-up is accepted, and an owner stays.
  accounts_owned :
      (es : List AccountEvent) (db : AuthDb)
      → NotMachineKeys es
      → NoMachineRow db
      → HasOwner seed_org_id db
      → ((accounts es db).0 ≡ 0) × HasOwner seed_org_id (accounts es db).1
  unfolding accounts
  accounts_owned [] db k n h = (refl, h)
  accounts_owned (signs_up id dto ∷ rest) db k n h =
      refuse (λ db'. accounts_owned rest db' k.1) _
        (signup-Claims lower trim hash_password id dto db)
    where
      Owned : AuthDb → Type 0
      Owned db' = ((accounts rest db').0 ≡ 0) × HasOwner seed_org_id (accounts rest db').1

      refuse :
          ((db' : AuthDb) → NoMachineRow db' → HasOwner seed_org_id db' → Owned db')
          → (r : Result User × AuthDb) → Claims lower trim hash_password id dto db r
          → (tally r.0 (accounts rest r.1).0 ≡ 0) × HasOwner seed_org_id (accounts rest r.1).1
      refuse ih r (claimed db' zero same) = absurd (omega (arith, zero, h))
      refuse ih r (refused db' e same) = ih db' (rw same n) (rw same h)
  accounts_owned (requests_users now req c ∷ rest) db k n h =
      accounts_owned rest (request hash cfg api_key now req c db) k.1
        (request-NoMachineRow hash cfg api_key now req c db n)
        (request-HasOwner hash cfg api_key seed_org_id now req c db n h)

  -- Of all sign-ups, with requests to UsersController before, between and after them, at most one is
  -- accepted; and if one is, the org has an active owner at the end. No key of a user is the word
  -- `machine`.
  pub accounts_claimed_once :
      (es : List AccountEvent) (db : AuthDb)
      → NotMachineKeys es
      → NoMachineRow db
      → ((accounts es db).0 ≤ 1)
        × (0 < (accounts es db).0 → HasOwner seed_org_id (accounts es db).1)
  unfolding accounts
  accounts_claimed_once [] db k n = (omega arith, λ h. absurd (omega (arith, h)))
  accounts_claimed_once (signs_up id dto ∷ rest) db k n =
      answer (λ db'. accounts_claimed_once rest db' k.1) _
        (signup-Claims lower trim hash_password id dto db)
    where
      Once : AuthDb → Type 0
      Once db' =
          ((accounts rest db').0 ≤ 1)
          × (0 < (accounts rest db').0 → HasOwner seed_org_id (accounts rest db').1)

      answer :
          ((db' : AuthDb) → NoMachineRow db' → Once db')
          → (r : Result User × AuthDb) → Claims lower trim hash_password id dto db r
          → (tally r.0 (accounts rest r.1).0 ≤ 1)
            × (0 < tally r.0 (accounts rest r.1).0 → HasOwner seed_org_id (accounts rest r.1).1)
      answer ih r (claimed db' zero same) =
          let (none_more, owned) =
            accounts_owned rest db' k.1 (rw same (k.0, n)) (rw same (omega arith)) in
          (omega (arith, none_more), λ h. owned)
      answer ih r (refused db' e same) = ih db' (rw same n)
  accounts_claimed_once (requests_users now req c ∷ rest) db k n =
      accounts_claimed_once rest (request hash cfg api_key now req c db) k.1
        (request-NoMachineRow hash cfg api_key now req c db n)
