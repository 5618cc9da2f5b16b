-- ===== src/Auth/Guard/Soundness.antt =====
-- Whom AuthGuard lets in.
use clickup_sync.Common.{
  ℕ, ◌≡◌, ◌≢◌, sym, ap, ◌∙◌, String, true, false, ◌&&◌, Option, none, some, ◌===◌, arith, eq_iff,
  Bool-cases, Option-cases, inl, inr, ok, truthy, Action, ◌>>◌, throw_if, pure, forbidden,
}
use clickup_sync.Auth.Store.{User, Session, AuthDb, AuthPrincipal}
use clickup_sync.Auth.Sessions.{SessionConfig, validate}
use clickup_sync.Auth.Sessions.Validity.{Admits, validate_iff}
use clickup_sync.Auth.Guard.{
  HttpRequest, machine, principal_of, is_mutating, key_matches, csrf_fails, by_session,
  can_activate,
}

truthy-some : (o : Option String) (t : String) → truthy o ≡ some t → (o ≡ some t) × (t ≢ "")
truthy-some none t e = cc
truthy-some (some s) t e = elim (Bool-cases (s === "")) [
  | inl y ↦ cc (rw y at e)
  | inr y ↦
      let same : s ≡ t = cc (rw y at e) in (ap some same, λ z. cc (y, (eq_iff s "").1 (same ∙ z)))
]

-- The header repeats the cookie, and both are there.
abbrev pub HasCsrfToken : HttpRequest → Type 0
HasCsrfToken req = (t : String) × (req.csrf_header ≡ some t) × (req.csrf_cookie ≡ some t) × (t ≢ "")

module _ (hash : String → String) (cfg : SessionConfig) (api_key : String) (now : ℕ) where
  -- The request has the admin key, or the token of a valid session and, if it changes something,
  -- the CSRF token of its cookie; the principal is the machine's or made of the session's user.
  pub data Authentic (req : HttpRequest) (db : AuthDb) (p : Option AuthPrincipal) : Type 0 where
    by_key : api_key ≢ "" → req.admin_key ≡ some api_key → p ≡ some machine → Authentic req db p
    by_token :
        (token : String) (s : Session) (u : User)
        → req.session_cookie ≡ some token
        → Admits hash cfg now token db s u
        → (is_mutating req.method ≡ true → HasCsrfToken req)
        → p ≡ some (principal_of u)
        → Authentic req db p

  csrf_lem :
      (req : HttpRequest)
      → csrf_fails (truthy req.csrf_header) (truthy req.csrf_cookie) ≡ false
      → HasCsrfToken req
  csrf_lem req h = elim (Option-cases (truthy req.csrf_header)) [
    | inl e ↦ absurd (cc (rw e at h))
    | inr (t, e) ↦ elim (Option-cases (truthy req.csrf_cookie)) [
      | inl f ↦ absurd (cc (rw (e, f) at h))
      | inr (c, f) ↦
          let (header, full) = truthy-some req.csrf_header t e in
          let (cookie, _) = truthy-some req.csrf_cookie c f in
          let same : t ≡ c = ground (arith, rw (e, f) at h, eq_iff t c) in
          (t, header, cookie ∙ ap some (sym same), full)
    ]
  ]

  -- The rest of the guard, once the user of the session is known.
  check_csrf : HttpRequest → User → Action AuthDb (Option AuthPrincipal)
  check_csrf req user = do
    throw_if
        (is_mutating req.method && csrf_fails (truthy req.csrf_header) (truthy req.csrf_cookie))
        (forbidden "CSRF token mismatch")
    pure (some (principal_of user))

  check_csrf_lem :
      (req : HttpRequest) (u : User) (db : AuthDb) (p : Option AuthPrincipal)
      → (check_csrf req u db).0 ≡ ok p
      → (is_mutating req.method ≡ true → HasCsrfToken req) × (p ≡ some (principal_of u))
  unfolding check_csrf
  check_csrf_lem req u db p h =
      elim (Bool-cases (csrf_fails (truthy req.csrf_header) (truthy req.csrf_cookie))) [
        | inr g ↦ (λ _. csrf_lem req g, ground (arith, h))
        | inl g ↦ elim (Bool-cases (is_mutating req.method)) [
          | inl m ↦ absurd (cc (rw (m, g) at h))
          | inr m ↦ ((λ m'. absurd (cc (m, m'))), ground (arith, h))
        ]
      ]

  by_session-Authentic :
      (req : HttpRequest) (db : AuthDb) (p : Option AuthPrincipal)
      → (by_session hash cfg api_key now req db).0 ≡ ok p
      → Authentic req db p
  unfolding check_csrf
  by_session-Authentic req db p h = elim (Option-cases (truthy req.session_cookie)) [
    | inl e ↦ absurd (cc (rw e at h))
    | inr (token, e) ↦ elim (Option-cases (validate hash cfg now token db).0) [
      | inl f ↦ absurd (cc (rw f at (rw e at h)))
      | inr ((s, u), f) ↦
          let (csrf, same) =
            check_csrf_lem req u (validate hash cfg now token db).1 p (rw f at (rw e at h)) in
          by_token token s u (truthy-some req.session_cookie token e).0
            ((validate_iff hash cfg now token db s u).0 f) csrf same
    ]
  ]

  key_lem :
      (req : HttpRequest)
      → key_matches api_key req.admin_key ≡ true
      → (api_key ≢ "") × (req.admin_key ≡ some api_key)
  key_lem req h = elim (Option-cases req.admin_key) [
    | inl e ↦ absurd (cc (rw e at h))
    | inr (k, e) ↦
        let h' = rw e at h in
        (
          λ z. ground (arith, h', eq_iff api_key ""),
          e ∙ ap some (sym (ground (arith, h', eq_iff api_key k))),
        )
  ]

  -- A handler that is not public sees a request only if it has the admin key, or the token of a
  -- session that is valid and the CSRF token where it changes something; and the principal that it
  -- sees is the machine's, or has the id, org and role of the session's user.
  pub can_activate-Authentic :
      (req : HttpRequest) (db : AuthDb) (p : Option AuthPrincipal)
      → req.is_public ≡ false
      → (can_activate hash cfg api_key now req db).0 ≡ ok p
      → Authentic req db p
  unfolding can_activate
  can_activate-Authentic req db p closed h = elim (Bool-cases (key_matches api_key req.admin_key)) [
    | inl k ↦ let (full, same) = key_lem req k in by_key full same (cc (rw k at (rw closed at h)))
    | inr k ↦ by_session-Authentic req db p (rw k at (rw closed at h))
  ]
