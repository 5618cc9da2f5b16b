-- ===== src/Auth/Sessions/Validity.antt =====
-- When a token validates, and for how long.
use clickup_sync.Common.{
  ℕ, ◌+◌, ◌-◌, ◌*◌, ◌≤◌, ◌≡◌, ap, ◌↔◌, String, false, Option, none, some, List, [], ◌∷◌, ltb,
  if◌then◌else◌, find_first, update_unique, arith, find_first-passes, Bool-cases, Option-cases, inl,
  inr,
}
use clickup_sync.Auth.Store.{User, Session, AuthDb, active, find_by_id}
use clickup_sync.Auth.Sessions.{
  SessionConfig, has_hash, has_session_id, last_activity, last_seen, hour_ms, session_day_ms,
  set_last_seen, touch, check_row, validate,
}

module _ (hash : String → String) (cfg : SessionConfig) where
  -- The conditions under which a token stands for a user.
  pub record Admits (now : ℕ) (token : String) (db : AuthDb) (s : Session) (u : User) : Type 0 where
    pub row : find_first (has_hash (hash token)) db.sessions ≡ some s
    pub unexpired : now ≤ s.expires_at
    pub in_use : now ≤ last_activity s + cfg.idle_days * session_day_ms
    pub user : find_by_id s.user_id db.users ≡ some u
    pub live : u.status ≡ active

  Admits-validate :
      (now : ℕ) (token : String) (db : AuthDb) (s : Session) (u : User)
      → Admits now token db s u
      → (validate hash cfg now token db).0 ≡ some (s, u)
  unfolding validate
  Admits-validate now token db s u a =
      rw a.row (ground (arith, a.user, a.live, a.unexpired, a.in_use))

  validate-Admits :
      (now : ℕ) (token : String) (db : AuthDb) (s : Session) (u : User)
      → (validate hash cfg now token db).0 ≡ some (s, u)
      → Admits now token db s u
  unfolding validate
  validate-Admits now token db s u h =
      elim (Option-cases (find_first (has_hash (hash token)) db.sessions)) [
        | inl e ↦ absurd (cc (rw e at h))
        | inr (row, e) ↦ from_row row e (rw e at h)
      ]
    where
      from_row :
          (row : Session)
          → find_first (has_hash (hash token)) db.sessions ≡ some row
          → (check_row hash cfg now (some row) db).0 ≡ some (s, u)
          → Admits now token db s u
      from_row row e k = elim (Option-cases (find_by_id row.user_id db.users)) [
        | inl f ↦ absurd (ground (arith, f))
        | inr (v, f) ↦ record {
          row = ground (arith, f);
          unexpired = ground (arith, f);
          in_use = ground (arith, f);
          user = ground (arith, f);
          live = ground (arith, f);
        }
      ]

  -- A token validates to a session and a user exactly when the session is stored under the hash of
  -- the token, has not expired, was used within the idle timeout, and its user is active.
  pub validate_iff :
      (now : ℕ) (token : String) (db : AuthDb) (s : Session) (u : User)
      → ((validate hash cfg now token db).0 ≡ some (s, u)) ↔ Admits now token db s u
  validate_iff now token db s u =
      (validate-Admits now token db s u, Admits-validate now token db s u)

-- A row that is the first by its hash and the first by its id keeps its place when it is touched.
find_first-touch :
    (h id : String) (now : ℕ) (rows : List Session) (s : Session)
    → find_first (has_hash h) rows ≡ some s
    → find_first (has_session_id id) rows ≡ some s
    → find_first (has_hash h) (update_unique (has_session_id id) (set_last_seen now) rows)
      ≡ some (set_last_seen now s)
find_first-touch h id now [] s e f = cc
find_first-touch h id now (x ∷ rest) s e f =
    let by_hash = find_first-passes (has_hash h) (x ∷ rest) s e in
    let by_id = find_first-passes (has_session_id id) (x ∷ rest) s f in
    elim (Bool-cases (has_session_id id x)) [
      | inl a ↦ elim (Bool-cases (has_hash h x)) [
        | inl b ↦
            rw (a, b)
              (ap
                (λ (o : Option Session). elim o [
                  | none ↦ none
                  | some y ↦ some (set_last_seen now y)
                ])
                (rw b at e))
        | inr b ↦ absurd (cc (by_hash, b, rw a at f))
      ]
      | inr a ↦ elim (Bool-cases (has_hash h x)) [
        | inl b ↦ absurd (cc (by_id, a, rw b at e))
        | inr b ↦ rw (a, b) (find_first-touch h id now rest s (rw b at e) (rw a at f))
      ]
    ]

module _ (hash : String → String) (cfg : SessionConfig) where
  validate_state :
      (now : ℕ) (token : String) (db : AuthDb) (s : Session) (u : User)
      → Admits hash cfg now token db s u
      → (validate hash cfg now token db).1
        ≡ (if ltb hour_ms (now - last_seen s) then touch s.id now db else db)
  unfolding validate
  validate_state now token db s u a =
      rw a.row (ground (arith, a.user, a.live, a.unexpired, a.in_use))

  -- A session in use stays alive: after a validation, one that follows before the session expires,
  -- and within the idle timeout less the hour by which refreshes are throttled, succeeds too.
  pub validate_again :
      (now later : ℕ) (token : String) (db : AuthDb) (s : Session) (u : User)
      → (validate hash cfg now token db).0 ≡ some (s, u)
      → find_first (has_session_id s.id) db.sessions ≡ some s
      → later ≤ s.expires_at
      → later + hour_ms ≤ now + cfg.idle_days * session_day_ms
      → (s' : Session) × ((validate hash cfg later token (validate hash cfg now token db).1).0
          ≡ some (s', u))
  validate_again now later token db s u h unique cap idle =
      elim (Bool-cases (ltb hour_ms (now - last_seen s))) [
        | inl old ↦ (
          set_last_seen now s,
          rw (validate_state now token db s u a, old)
              (Admits-validate hash cfg later token (touch s.id now db) (set_last_seen now s) u
                (record {
                  row = find_first-touch (hash token) s.id now db.sessions s a.row unique;
                  unexpired = cap;
                  in_use = omega arith;
                  user = a.user;
                  live = a.live;
                })),
        )
        | inr fresh ↦ (
          s,
          rw (validate_state now token db s u a, fresh)
              (Admits-validate hash cfg later token db s u (record {
                row = a.row;
                unexpired = cap;
                in_use = still_in_use fresh;
                user = a.user;
                live = a.live;
              })),
        )
      ]
    where
      a : Admits hash cfg now token db s u
      a = validate-Admits hash cfg now token db s u h

      still_in_use :
          ltb hour_ms (now - last_seen s) ≡ false
          → later ≤ last_activity s + cfg.idle_days * session_day_ms
      still_in_use fresh = ground arith
