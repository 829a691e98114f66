-- ===== src/Sessions/Change.antt =====
-- How one operation can change the table of sessions.
use authsvc.Prelude.{
  ℕ, suc, ◌≤◌, ◌<◌, ◌≡◌, refl, Bool, none, some, String, arith, Bool-cases, Option-cases, inl, inr,
}
use authsvc.Schema.{Session}
use authsvc.Exec.{Env, World, Result, ◌>>=◌}
use authsvc.Table.{select_row, update, delete}
use authsvc.Sessions.{
  SessionMeta, IssuedSession, create_session, revoke_family, revoke_all_for_user, revoke_by_token,
  prune_sessions, has_token, revoke,
}
use authsvc.Sessions.Cases.{
  Inserted, Issue, refused, issued, new_session, spend_row, insert_session-Issue,
}
use authsvc.Sessions.Rotation.{Rotation, aborted, reused, rotated, rotate-Rotation}
use authsvc.Sessions.Trace.{
  Op, creates, rotates, revokes_family, revokes_user, revokes_token, prunes, apply,
  tick-le-insert_session,
}

pub data Change (env : Env) (w w' : World) : Type 0 where
  unchanged : w'.db ≡ w.db → Change env w w'
  revoked :
      (p : Session → Bool) (t : ℕ)
      → w'.db ≡ record w.db { sessions = update p (revoke t) w.db.sessions }
      → Change env w w'
  deleted :
      (p : Session → Bool)
      → w'.db ≡ record w.db { sessions = delete p w.db.sessions }
      → Change env w w'
  -- a new family
  started :
      (k k' : ℕ) (user_id client_id : String) (m : SessionMeta)
      → w.tick ≤ k
      → w.tick ≤ k'
      → k < w'.tick
      → Inserted (new_session env k' (env.ulid k) user_id client_id (env.ulid k) none m) w.db w'.db
      → Change env w w'
  -- the successor of a row that was neither spent nor revoked
  continued :
      (tok : String) (row : Session) (k t : ℕ) (m : SessionMeta)
      → w.tick ≤ k
      → select_row (has_token (env.sha256 tok)) w.db.sessions ≡ some row
      → row.used_at ≡ none
      → row.revoked_at ≡ none
      → Inserted
          (new_session env
            (suc k)
            (env.ulid k)
            row.user_id
            row.client_id
            row.family_id
            (some row.id)
            m)
          (spend_row row.id t w.db)
          w'.db
      → Change env w w'

module _ (env : Env) where
  Change-later :
      (w w' : World) (n : ℕ)
      → w.tick ≤ n
      → Change env (record { db = w.db; tick = n }) w'
      → Change env w w'
  Change-later w w' n h (unchanged e) = unchanged e
  Change-later w w' n h (revoked p t e) = revoked p t e
  Change-later w w' n h (deleted p e) = deleted p e
  Change-later w w' n h (started k k' user_id client_id m hk hk' lt ins) =
      started k k' user_id client_id m (omega arith) (omega arith) lt ins
  Change-later w w' n h (continued tok row k t m hk found unused live ins) =
      continued tok row k t m (omega arith) found unused live ins

  Issue-Change :
      (m : SessionMeta) (user_id client_id : String) (w w' : World) (r : Result IssuedSession)
      → w.tick < w'.tick
      → Issue env m
          (env.ulid w.tick)
          user_id
          client_id
          (env.ulid w.tick)
          none
          (record { db = w.db; tick = suc w.tick })
          r
          w'
      → Change env w w'
  Issue-Change m user_id client_id w w' r lt (refused e e') = unchanged e'
  Issue-Change m user_id client_id w w' r lt (issued s e e' ins) =
      started w.tick (suc w.tick) user_id client_id m (omega arith) (omega arith) lt (rw e at ins)

  Rotation-Change :
      (tok : String) (m : SessionMeta) (w w' : World) (r : Result IssuedSession)
      → Rotation env tok m w r w'
      → Change env w w'
  Rotation-Change tok m w w' r (aborted e e' ne same) = unchanged same
  Rotation-Change tok m w w' r (reused row k hk found used e eq) = revoked _ _ eq
  Rotation-Change tok m w w' r (rotated row k k' j s hk hk' hj found unused live time e e' ins) =
      continued tok row j (env.time k') m hj found unused live (rw e at ins)

  revoke_family-Change :
      (family_id : String) (w : World) → Change env w (revoke_family env family_id w).1
  unfolding revoke_family ◌>>=◌
  revoke_family-Change family_id w = elim (Bool-cases (env.fails (suc w.tick))) [
    | inl e ↦ rw e (unchanged refl)
    | inr e ↦ rw e (revoked _ (env.time w.tick) refl)
  ]

  revoke_all_for_user-Change :
      (user_id : String) (w : World) → Change env w (revoke_all_for_user env user_id w).1
  unfolding revoke_all_for_user ◌>>=◌
  revoke_all_for_user-Change user_id w = elim (Bool-cases (env.fails (suc w.tick))) [
    | inl e ↦ rw e (unchanged refl)
    | inr e ↦ rw e (revoked _ (env.time w.tick) refl)
  ]

  revoke_by_token-Change : (tok : String) (w : World) → Change env w (revoke_by_token env tok w).1
  unfolding revoke_by_token ◌>>=◌
  revoke_by_token-Change tok w = elim (Bool-cases (env.fails w.tick)) [
    | inl e ↦ rw e (unchanged refl)
    | inr e ↦ rw e (elim (Option-cases (select_row (has_token (env.sha256 tok)) w.db.sessions)) [
      | inl missing ↦ rw missing (unchanged refl)
      | inr (row, found) ↦
          rw found
            (Change-later w _ (suc w.tick) (omega arith) (revoke_family-Change row.family_id _))
    ])
  ]

  prune_sessions-Change : (grace : ℕ) (w : World) → Change env w (prune_sessions env grace w).1
  unfolding prune_sessions ◌>>=◌
  prune_sessions-Change grace w = elim (Bool-cases (env.fails (suc w.tick))) [
    | inl e ↦ rw e (unchanged refl)
    | inr e ↦ rw e (deleted _ refl)
  ]

  create_session-Change :
      (user_id client_id : String) (m : SessionMeta) (w : World)
      → Change env w (create_session env user_id client_id m w).1
  unfolding create_session ◌>>=◌
  create_session-Change user_id client_id m w =
      Issue-Change m user_id client_id w _ _
        (tick-le-insert_session env _ _ _ _ _ m (record { db = w.db; tick = suc w.tick }))
        (insert_session-Issue env m _ _ _ _ _ _)

  pub apply-Change : (op : Op) (w : World) → Change env w (apply env op w)
  unfolding apply
  apply-Change (creates user_id client_id m) w = create_session-Change user_id client_id m w
  apply-Change (rotates tok m) w = Rotation-Change tok m w _ _ (rotate-Rotation env m tok w)
  apply-Change (revokes_family family_id) w = revoke_family-Change family_id w
  apply-Change (revokes_user user_id) w = revoke_all_for_user-Change user_id w
  apply-Change (revokes_token tok) w = revoke_by_token-Change tok w
  apply-Change (prunes grace) w = prune_sessions-Change grace w
