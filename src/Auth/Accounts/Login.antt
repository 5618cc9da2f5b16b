-- ===== src/Auth/Accounts/Login.antt =====
-- What login answers.
use clickup_sync.Common.{
  ℕ, ◌≡◌, refl, ap, String, Bool, not, ◌&&◌, Option, none, some, List, [], ◌∷◌, if◌then◌else◌,
  eq_iff, Bool-cases, Option-cases, inl, inr, find_first, Result, ok, err, unauthorized,
}
use clickup_sync.Auth.Store.{User, AuthDb, has_id, find_by_id, is_disabled, find_by_email}
use clickup_sync.Auth.Accounts.{LoginDto, login}

-- The key of a row that some test finds is there.
own_id_found :
    (p : User → Bool) (users : List User) (u : User)
    → find_first p users ≡ some u
    → (v : User) × (find_by_id u.id users ≡ some v)
own_id_found p [] u e = cc
own_id_found p (x ∷ rest) u e = elim (Bool-cases (has_id u.id x)) [
  | inl y ↦ rw y (x, refl)
  | inr n ↦ elim (Bool-cases (p x)) [
    | inl y ↦
        let same : x ≡ u = cc (rw y at e) in
        absurd (cc (n, (eq_iff x.id u.id).1 (ap (λ v. v.id) same)))
    | inr m ↦ rw n (own_id_found p rest u (rw m at e))
  ]
]

module _ (lower : String → String) (verify : String → String → Bool) where
  -- The user, if it is active and the password is right, and one and the same error otherwise.
  abbrev pub answer : LoginDto → Option User → Result User
  answer dto none = err (unauthorized "Invalid email or password")
  answer dto (some u) =
      if not (is_disabled u.status) && verify dto.password u.password_hash
      then ok u
      else err (unauthorized "Invalid email or password")

  -- Login returns the user with the address if that user is active and the password is right. An
  -- unknown address, a disabled user and a wrong password give the same error.
  pub login_lem :
      (now : ℕ) (dto : LoginDto) (db : AuthDb)
      → (login lower verify now dto db).0
        ≡ answer dto (find_by_email lower (lower dto.email) db.users)
  unfolding login
  login_lem now dto db = elim (Option-cases (find_by_email lower (lower dto.email) db.users)) [
    | inl e ↦ rw e refl
    | inr (u, e) ↦ elim (Bool-cases (is_disabled u.status)) [
      | inl off ↦ rw (e, off) refl
      | inr on ↦ elim (Bool-cases (verify dto.password u.password_hash)) [
        | inr wrong ↦ rw (e, on, wrong) refl
        | inl right ↦ let (v, own) = own_id_found _ db.users u e in rw (e, on, right) (rw own refl)
      ]
    ]
  ]
