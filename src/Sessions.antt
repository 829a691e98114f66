-- ===== src/Sessions.antt =====
-- internal/store/sessions.go: refresh tokens, their rotation and their revocation.
pub mod Cases
pub mod Rotation
pub mod Trace
pub mod Change
pub mod WellFormed
pub mod SingleUse
pub mod Revocation
pub mod Lineage
pub mod Effects
mod Examples
use authsvc.Prelude.{
  leb, eqb, ℕ, ◌+◌, ◌-◌, ◌*◌, ◌==◌, Bool, true, false, not, ◌&&◌, ◌||◌, String, Option, none, some,
  List, ltb, is_some, is_none, coalesce, if◌then◌else◌,
}
use authsvc.Schema.{Database, Session, User, Client}
use authsvc.Exec.{
  query, Env, World, Exec, Result, ok, err, failed, not_found, token_reuse, ◌>>=◌, ◌>>◌, pure,
  raise, or_else, norows, now, make_ulid, random, query_row, exec, exec_returning, exec_checked,
  Outcome, commit, rollback, transaction,
}
use authsvc.Table.{order_by, select, select_row, select, update, delete, affected, insert}

-- 30 * 24 * time.Hour
abbrev pub refresh_ttl : ℕ
refresh_ttl = 30 * 24 * 3600000000000

pub record SessionMeta : Type 0 where
  pub user_agent : String
  pub ip : String

-- The Go struct holds the row; the table keeps the hash of the token too.
pub record IssuedSession : Type 0 where
  pub session : Session
  pub refresh_token : String

abbrev pub has_family : String → Session → Bool
has_family f s = s.family_id == f

abbrev pub has_token : String → Session → Bool
has_token h s = s.token_hash == h

abbrev pub has_id : String → Session → Bool
has_id i s = s.id == i

-- SET revoked_at = COALESCE(revoked_at, $2)
abbrev pub revoke : ℕ → Session → Session
revoke t s = record s { revoked_at = coalesce s.revoked_at t }

abbrev pub spend : ℕ → Session → Session
spend t s = record s { used_at = some t }

-- the PRIMARY KEY and the UNIQUE column of sessions
abbrev pub conflicts : Session → Session → Bool
conflicts s old = old.id == s.id || old.token_hash == s.token_hash

-- REFERENCES users(id), REFERENCES app_clients(id)
abbrev pub references : Database → Session → Bool
references d s =
    is_some (select_row (λ (u : User). u.id == s.user_id) d.users)
    && is_some (select_row (λ (c : Client). c.id == s.client_id) d.app_clients)

-- ORDER BY issued_at, id
abbrev pub older_first : (String → String → Bool) → Session → Session → Bool
older_first le a b = ltb a.issued_at b.issued_at || (eqb a.issued_at b.issued_at && le a.id b.id)

-- ORDER BY issued_at DESC
abbrev pub newer_first : Session → Session → Bool
newer_first a b = leb b.issued_at a.issued_at

abbrev pub is_active : String → ℕ → Session → Bool
is_active user_id t s =
    s.user_id == user_id && is_none s.revoked_at && is_none s.used_at && ltb t s.expires_at

abbrev with_sessions : Database → Option (List Session) → Option Database
with_sessions d none = none
with_sessions d (some rows) = some (record d { sessions = rows })

unfoldable pub insert_row : Session → Database → Option Database
insert_row s d =
    if references d s then with_sessions d (insert (conflicts s) s d.sessions) else none

module _ (env : Env) where
  unfoldable pub insert_session :
      String → String → String → String → Option String → SessionMeta → Exec IssuedSession
  insert_session id user_id client_id family_id parent_id m = do
    raw ← random env
    t ← now env
    let s : Session = record {
      id = id;
      user_id = user_id;
      client_id = client_id;
      family_id = family_id;
      parent_id = parent_id;
      token_hash = env.sha256 raw;
      issued_at = t;
      expires_at = t + refresh_ttl;
      used_at = none;
      revoked_at = none;
      user_agent = m.user_agent;
      ip = m.ip;
    }
    exec_checked env (insert_row s)
    pure (record { session = s; refresh_token = raw })

  unfoldable pub create_session : String → String → SessionMeta → Exec IssuedSession
  create_session user_id client_id m = do
    id ← make_ulid env
    insert_session id user_id client_id id none m

  -- the presented row was spent before: its family is revoked, and that is committed
  unfoldable pub rotate_spent : Session → Exec (Outcome IssuedSession)
  rotate_spent row = do
    t ← now env
    exec env (λ d. record d { sessions = update (has_family row.family_id) (revoke t) d.sessions })
    pure (commit (err token_reuse))

  unfoldable pub rotate_live : SessionMeta → Session → Exec (Outcome IssuedSession)
  rotate_live m row = do
    t ← now env
    exec env (λ d. record d { sessions = update (has_id row.id) (spend t) d.sessions })
    id ← make_ulid env
    issued ← insert_session id row.user_id row.client_id row.family_id (some row.id) m
    pure (commit (ok issued))

  unfoldable pub rotate_unrevoked : SessionMeta → Session → Exec (Outcome IssuedSession)
  rotate_unrevoked m row = do
    t ← now env
    if ltb row.expires_at t then pure (rollback not_found) else rotate_live m row

  unfoldable pub rotate_row : SessionMeta → Session → Exec (Outcome IssuedSession)
  rotate_row m row =
      if is_some row.used_at
      then rotate_spent row
      else if is_some row.revoked_at
      then pure (rollback not_found)
      else rotate_unrevoked m row

  unfoldable pub rotate_body : String → SessionMeta → Exec (Outcome IssuedSession)
  rotate_body refresh_token m = do
    row ←
        or_else (query_row env (λ d. select_row (has_token (env.sha256 refresh_token)) d.sessions))
          norows
    rotate_row m row

  unfoldable pub rotate : String → SessionMeta → Exec IssuedSession
  unfolding rotate_body
  rotate refresh_token m = transaction env (rotate_body refresh_token m)

  -- RevokeFamily, RevokeAllForUser and RevokeByToken
  unfoldable pub revoke_family : String → Exec (Unit {0})
  revoke_family family_id = do
    t ← now env
    exec env (λ d. record d { sessions = update (has_family family_id) (revoke t) d.sessions })

  unfoldable pub revoke_all_for_user : String → Exec (Unit {0})
  revoke_all_for_user user_id = do
    t ← now env
    exec env (λ d. record d {
      sessions = update (λ s. s.user_id == user_id && is_none s.revoked_at) (revoke t) d.sessions;
    })

  unfoldable pub session_by_token : String → Exec Session
  session_by_token refresh_token =
      or_else (query_row env (λ d. select_row (has_token (env.sha256 refresh_token)) d.sessions))
        norows

  unfoldable pub session_by_id : String → Exec Session
  session_by_id id = or_else (query_row env (λ d. select_row (has_id id) d.sessions)) norows

  -- No transaction and no lock: that no Rotate runs between the read and the update is an assumption.
  unfoldable pub revoke_by_token : String → Exec (Unit {0})
  unfolding session_by_token
  revoke_by_token refresh_token = do
    row ← session_by_token refresh_token
    revoke_family row.family_id

  -- the rows of a family, the oldest first, and the rows of a user that are live, the newest first
  unfoldable pub sessions_for_family : String → Exec (List Session)
  sessions_for_family family_id =
      query env (λ d. order_by (older_first env.collate) (select (has_family family_id) d.sessions))

  unfoldable pub active_sessions_for_user : String → Exec (List Session)
  active_sessions_for_user user_id = do
    t ← now env
    query env (λ d. order_by newer_first (select (is_active user_id t) d.sessions))

  unfoldable pub prune_sessions : ℕ → Exec ℕ
  prune_sessions grace = do
    t ← now env
    let old = λ (s : Session). ltb s.expires_at (t - grace)
    exec_returning env
        (λ d. (affected old d.sessions, record d { sessions = delete old d.sessions }))
