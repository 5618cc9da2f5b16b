-- ===== src/Auth/Sessions/Expiry.antt =====
-- Nothing that happens to the sessions afterwards brings back one that has ended.
use clickup_sync.Common.{
  ℕ, ◌-◌, ◌*◌, ◌≤◌, ◌<◌, ◌≡◌, refl, String, Bool, true, Option, none, some, List, [], ◌∷◌, ltb,
  find_first, update_unique, delete_many, All, arith, Bool-cases, Option-cases, inl, inr,
}
use clickup_sync.Auth.Store.{User, Session, AuthDb, is_disabled, find_by_id, of_user}
use clickup_sync.Auth.Sessions.{
  SessionConfig, has_hash, has_session_id, set_last_seen, delete_by_token_hash, check_row, admit,
  validate, revoke, sweep, hour_ms, session_day_ms, last_seen, last_activity,
}

-- Every use of a stored session, but for the issue of a new one.
pub data SessionUse : Type 0 where
  validates : ℕ → String → SessionUse
  revokes : String → SessionUse
  revokes_all : String → SessionUse
  sweeps : ℕ → SessionUse

-- A session under this hash has expired by then.
abbrev pub ExpiresBy : String → ℕ → Session → Type 0
ExpiresBy h e s = has_hash h s ≡ true → s.expires_at ≤ e

abbrev pub AllExpireBy : String → ℕ → AuthDb → Type 0
AllExpireBy h e db = All (ExpiresBy h e) db.sessions

module _ (h : String) (e : ℕ) where
  All-delete_many :
      (p : Session → Bool) (rows : List Session)
      → All (ExpiresBy h e) rows
      → All (ExpiresBy h e) (delete_many p rows)
  All-delete_many p [] a = tt
  All-delete_many p (s ∷ rest) a = elim (Bool-cases (p s)) [
    | inl y ↦ rw y (All-delete_many p rest a.1)
    | inr y ↦ rw y (a.0, All-delete_many p rest a.1)
  ]

  All-touch :
      (id : String) (now : ℕ) (rows : List Session)
      → All (ExpiresBy h e) rows
      → All (ExpiresBy h e) (update_unique (has_session_id id) (set_last_seen now) rows)
  All-touch id now [] a = tt
  All-touch id now (s ∷ rest) a = elim (Bool-cases (has_session_id id s)) [
    | inl y ↦ rw y (a.0, a.1)
    | inr y ↦ rw y (a.0, All-touch id now rest a.1)
  ]

  expired_row :
      (rows : List Session) (now : ℕ) (s : Session)
      → All (ExpiresBy h e) rows
      → find_first (has_hash h) rows ≡ some s
      → s.expires_at ≤ e
  expired_row [] now s a f = cc
  expired_row (x ∷ rest) now s a f = elim (Bool-cases (has_hash h x)) [
    | inl y ↦ ground (arith, a.0 y)
    | inr y ↦ expired_row rest now s a.1 (rw y at f)
  ]

module _ (hash : String → String) (cfg : SessionConfig) where
  pub use_session : SessionUse → AuthDb → AuthDb
  use_session (validates now token) db = (validate hash cfg now token db).1
  use_session (revokes token) db = revoke hash token db
  use_session (revokes_all user) db = record db {
    sessions = delete_many (of_user user) db.sessions;
  }
  use_session (sweeps now) db = sweep now db

  pub use_sessions : List SessionUse → AuthDb → AuthDb
  use_sessions [] db = db
  use_sessions (u ∷ rest) db = use_sessions rest (use_session u db)

  module _ (h : String) (e : ℕ) where
    admit-AllExpireBy :
        (now : ℕ) (row : Session) (u : Option User) (db : AuthDb)
        → AllExpireBy h e db
        → AllExpireBy h e (admit hash cfg now row u db).1
    admit-AllExpireBy now row none db a = a
    admit-AllExpireBy now row (some u) db a = elim (Bool-cases (is_disabled u.status)) [
      | inl d ↦ rw d a
      | inr d ↦ elim (Bool-cases (ltb hour_ms (now - last_seen row))) [
        | inl old ↦ rw (d, old) (All-touch h e row.id now db.sessions a)
        | inr fresh ↦ rw (d, fresh) a
      ]
    ]

    check_row-AllExpireBy :
        (now : ℕ) (row : Option Session) (db : AuthDb)
        → AllExpireBy h e db
        → AllExpireBy h e (check_row hash cfg now row db).1
    check_row-AllExpireBy now none db a = a
    check_row-AllExpireBy now (some row) db a = elim (Bool-cases (ltb row.expires_at now)) [
      | inl x ↦ rw x (All-delete_many h e (has_hash row.token_hash) db.sessions a)
      | inr x ↦ elim (Bool-cases (ltb (cfg.idle_days * session_day_ms) (now - last_activity row))) [
        | inl y ↦ rw (x, y) (All-delete_many h e (has_hash row.token_hash) db.sessions a)
        | inr y ↦ rw (x, y) (admit-AllExpireBy now row (find_by_id row.user_id db.users) db a)
      ]
    ]

    use_session-AllExpireBy :
        (u : SessionUse) (db : AuthDb) → AllExpireBy h e db → AllExpireBy h e (use_session u db)
    unfolding use_session validate revoke sweep
    use_session-AllExpireBy (validates now token) db a =
        check_row-AllExpireBy now (find_first (has_hash (hash token)) db.sessions) db a
    use_session-AllExpireBy (revokes token) db a =
        All-delete_many h e (has_hash (hash token)) db.sessions a
    use_session-AllExpireBy (revokes_all user) db a =
        All-delete_many h e (of_user user) db.sessions a
    use_session-AllExpireBy (sweeps now) db a =
        All-delete_many h e (λ s. ltb s.expires_at now) db.sessions a

    use_sessions-AllExpireBy :
        (us : List SessionUse) (db : AuthDb)
        → AllExpireBy h e db
        → AllExpireBy h e (use_sessions us db)
    unfolding use_sessions
    use_sessions-AllExpireBy [] db a = a
    use_sessions-AllExpireBy (u ∷ rest) db a =
        use_sessions-AllExpireBy rest (use_session u db) (use_session-AllExpireBy u db a)

  -- However often a session is used, no token under its hash validates after the time by which the
  -- session expires: activity extends the idle timeout and never the expiry.
  pub validate_expired :
      (us : List SessionUse) (token : String) (e now : ℕ) (db : AuthDb)
      → AllExpireBy (hash token) e db
      → e < now
      → (validate hash cfg now token (use_sessions us db)).0 ≡ none
  unfolding validate
  validate_expired us token e now db a late =
      elim (Option-cases (find_first (has_hash (hash token)) (use_sessions us db).sessions)) [
        | inl f ↦ rw f refl
        | inr (s, f) ↦
            let ends =
              expired_row (hash token) e (use_sessions us db).sessions now s
                (use_sessions-AllExpireBy (hash token) e us db a) f in
            rw f (ground (arith, ends))
      ]

  -- A token that was revoked validates no more, whatever is done with the sessions that are left.
  pub validate_revoked :
      (us : List SessionUse) (token : String) (now : ℕ) (db : AuthDb)
      → 0 < now
      → (validate hash cfg now token (use_sessions us (revoke hash token db))).0 ≡ none
  unfolding revoke
  validate_revoked us token now db late =
      validate_expired us token 0 now (delete_by_token_hash (hash token) db) (none_left db.sessions)
        late
    where
      none_left :
          (rows : List Session)
          → All (ExpiresBy (hash token) 0) (delete_many (has_hash (hash token)) rows)
      none_left [] = tt
      none_left (s ∷ rest) = elim (Bool-cases (has_hash (hash token) s)) [
        | inl y ↦ rw y (none_left rest)
        | inr y ↦ rw y ((λ z. absurd (cc (y, z))), none_left rest)
      ]
