-- ===== src/Auth/Sessions.antt =====
-- session.service.ts over session.repository.ts and token.service.ts. `hash` is sha256, `now` the
-- clock, which one call reads once; tokens and row ids are random and come as arguments.
pub mod Validity
pub mod Expiry
use clickup_sync.Common.{
  ℕ, ◌+◌, ◌-◌, ◌*◌, String, Bool, true, false, Option, none, some, List, [], ◌∷◌, ◌===◌, ltb,
  if◌then◌else◌, find_first, update_unique, delete_many, Result, ok, err, Action, continue, ◌>>=◌,
  ◌>>◌, pure, modify, unique_violation,
}
use clickup_sync.Auth.Store.{User, Session, AuthDb, UserStatus, is_disabled, find_by_id, revoke_all}

abbrev pub session_day_ms : ℕ
session_day_ms = 24 * 60 * 60 * 1000

abbrev pub hour_ms : ℕ
hour_ms = 60 * 60 * 1000

-- SESSION_MAX_AGE_DAYS and SESSION_IDLE_TIMEOUT_DAYS.
pub record SessionConfig : Type 0 where
  pub max_age_days : ℕ
  pub idle_days : ℕ

abbrev pub has_hash : String → Session → Bool
has_hash h s = s.token_hash === h

abbrev pub has_session_id : String → Session → Bool
has_session_id id s = s.id === id

abbrev pub delete_by_token_hash : String → AuthDb → AuthDb
delete_by_token_hash h db = record db { sessions = delete_many (has_hash h) db.sessions }

abbrev pub set_last_seen : ℕ → Session → Session
set_last_seen now s = record s { last_seen_at = some now }

abbrev pub touch : String → ℕ → AuthDb → AuthDb
touch id now db = record db {
  sessions = update_unique (has_session_id id) (set_last_seen now) db.sessions;
}

-- `row.lastSeenAt ?? row.createdAt`
abbrev pub last_activity : Session → ℕ
last_activity s = elim s.last_seen_at [ none ↦ s.created_at | some t ↦ t ]

-- `row.lastSeenAt?.getTime() ?? 0`
abbrev pub last_seen : Session → ℕ
last_seen s = elim s.last_seen_at [ none ↦ 0 | some t ↦ t ]

abbrev pub Valid : Type 0
Valid = Option (Session × User)

module _ (hash : String → String) (cfg : SessionConfig) where
  unfoldable pub issue :
      (now : ℕ)
      → (token id : String) → (user_id : String) → (ip user_agent : Option String)
      → Action AuthDb (String × ℕ)
  issue now token id user_id ip user_agent db =
      let row : Session = record {
        id = id;
        user_id = user_id;
        token_hash = hash token;
        expires_at = now + cfg.max_age_days * session_day_ms;
        last_seen_at = none;
        created_at = now;
        ip = ip;
        user_agent = user_agent;
      } in
      elim (find_first (has_hash (hash token)) db.sessions) [
        | some s ↦ (err unique_violation, db)
        | none ↦ (ok (token, row.expires_at), record db { sessions = row ∷ db.sessions })
      ]

  -- The checks of a row that is neither expired nor idle. A difference of times below 0 is not
  -- above a timeout, so 0 stands for it.
  abbrev pub admit : ℕ → Session → Option User → AuthDb → Valid × AuthDb
  admit now row none db = (none, db)
  admit now row (some u) db =
      if is_disabled u.status
      then (none, db)
      else (some (row, u), if ltb hour_ms (now - last_seen row) then touch row.id now db else db)

  abbrev pub check_row : ℕ → Option Session → AuthDb → Valid × AuthDb
  check_row now none db = (none, db)
  check_row now (some row) db =
      if ltb row.expires_at now
      then (none, delete_by_token_hash row.token_hash db)
      else if ltb (cfg.idle_days * session_day_ms) (now - last_activity row)
      then (none, delete_by_token_hash row.token_hash db)
      else admit now row (find_by_id row.user_id db.users) db

  unfoldable pub validate : ℕ → String → AuthDb → Valid × AuthDb
  validate now token db = check_row now (find_first (has_hash (hash token)) db.sessions) db

unfoldable pub revoke : (String → String) → String → AuthDb → AuthDb
revoke hash token db = delete_by_token_hash (hash token) db

-- SessionCleanupService.sweep, by `deleteExpired`.
unfoldable pub sweep : ℕ → AuthDb → AuthDb
sweep now db = record db { sessions = delete_many (λ s. ltb s.expires_at now) db.sessions }
