-- ===== src/Sessions/Trace.antt =====
-- Runs of the session store: every operation that writes the table of sessions, in any order.
use authsvc.Prelude.{ℕ, ◌≤◌, Option, String, List, [], ◌∷◌}
use authsvc.Schema.{Session}
use authsvc.Exec.{Env, World}
use authsvc.Exec.Steps.{Steps, steps_rules, Anything, anything, any_step}
use authsvc.Sessions.{
  SessionMeta, create_session, rotate, insert_session, rotate_spent, rotate_live, rotate_unrevoked,
  rotate_row, revoke_family, revoke_all_for_user, revoke_by_token, prune_sessions,
}

pub data Op : Type 0 where
  creates : (user_id client_id : String) (m : SessionMeta) → Op
  rotates : (refresh_token : String) (m : SessionMeta) → Op
  revokes_family : (family_id : String) → Op
  revokes_user : (user_id : String) → Op
  revokes_token : (refresh_token : String) → Op
  prunes : (grace : ℕ) → Op

module _ (env : Env) where
  unfoldable pub apply : Op → World → World
  apply (creates user_id client_id m) w = (create_session env user_id client_id m w).1
  apply (rotates refresh_token m) w = (rotate env refresh_token m w).1
  apply (revokes_family family_id) w = (revoke_family env family_id w).1
  apply (revokes_user user_id) w = (revoke_all_for_user env user_id w).1
  apply (revokes_token refresh_token) w = (revoke_by_token env refresh_token w).1
  apply (prunes grace) w = (prune_sessions env grace w).1

  unfoldable pub run : List Op → World → World
  run [] w = w
  run (op ∷ ops) w = run ops (apply op w)

module _ (env : Env) where
  insert_session-Steps :
      (id user_id client_id family_id : String) (parent_id : Option String) (m : SessionMeta)
      → Steps Anything (insert_session env id user_id client_id family_id parent_id m)
  unfolding insert_session
  insert_session-Steps id user_id client_id family_id parent_id m =
      search (steps_rules, any_step, anything)

  rotate_spent-Steps : (row : Session) → Steps Anything (rotate_spent env row)
  unfolding rotate_spent
  rotate_spent-Steps row = search (steps_rules, any_step, anything)

  rotate_live-Steps : (m : SessionMeta) (row : Session) → Steps Anything (rotate_live env m row)
  unfolding rotate_live
  rotate_live-Steps m row = search (steps_rules, any_step, anything, insert_session-Steps) depth 8

  rotate-Steps : (tok : String) (m : SessionMeta) → Steps Anything (rotate env tok m)
  unfolding rotate rotate_row rotate_unrevoked
  rotate-Steps tok m = search (steps_rules, any_step, rotate_spent-Steps, rotate_live-Steps) depth 9

  create_session-Steps :
      (user_id client_id : String) (m : SessionMeta)
      → Steps Anything (create_session env user_id client_id m)
  unfolding create_session
  create_session-Steps user_id client_id m = search (steps_rules, any_step, insert_session-Steps)

  revoke_family-Steps : (family_id : String) → Steps Anything (revoke_family env family_id)
  unfolding revoke_family
  revoke_family-Steps family_id = search (steps_rules, any_step, anything)

  revoke_all_for_user-Steps : (user_id : String) → Steps Anything (revoke_all_for_user env user_id)
  unfolding revoke_all_for_user
  revoke_all_for_user-Steps user_id = search (steps_rules, any_step, anything)

  revoke_by_token-Steps : (tok : String) → Steps Anything (revoke_by_token env tok)
  unfolding revoke_by_token
  revoke_by_token-Steps tok = search (steps_rules, any_step, revoke_family-Steps)

  prune_sessions-Steps : (grace : ℕ) → Steps Anything (prune_sessions env grace)
  unfolding prune_sessions
  prune_sessions-Steps grace = search (steps_rules, any_step, anything)

  -- An operation never turns back the count of events.
  pub tick-le-apply : (op : Op) (w : World) → w.tick ≤ (apply env op w).tick
  unfolding apply
  tick-le-apply (creates user_id client_id m) w = (create_session-Steps user_id client_id m).later w
  tick-le-apply (rotates tok m) w = (rotate-Steps tok m).later w
  tick-le-apply (revokes_family family_id) w = (revoke_family-Steps family_id).later w
  tick-le-apply (revokes_user user_id) w = (revoke_all_for_user-Steps user_id).later w
  tick-le-apply (revokes_token tok) w = (revoke_by_token-Steps tok).later w
  tick-le-apply (prunes grace) w = (prune_sessions-Steps grace).later w

  pub tick-le-rotate :
      (tok : String) (m : SessionMeta) (w : World) → w.tick ≤ (rotate env tok m w).1.tick
  tick-le-rotate tok m w = (rotate-Steps tok m).later w

  pub tick-le-insert_session :
      (id user_id client_id family_id : String) (parent_id : Option String) (m : SessionMeta)
      (w : World)
      → w.tick ≤ (insert_session env id user_id client_id family_id parent_id m w).1.tick
  tick-le-insert_session id user_id client_id family_id parent_id m w =
      (insert_session-Steps id user_id client_id family_id parent_id m).later w

  pub tick-le-revoke_by_token :
      (tok : String) (w : World) → w.tick ≤ (revoke_by_token env tok w).1.tick
  tick-le-revoke_by_token tok w = (revoke_by_token-Steps tok).later w
