-- ===== src/Sessions/Cases.antt =====
-- What create_session and rotate can end in, case by case: the lemmas by which the properties of
-- sessions are proved, with the operations shut.
use authsvc.Prelude.{
  ℕ, suc, ◌+◌, ◌≡◌, refl, true, false, String, Option, none, some, [], ◌∷◌, ◌++◌, Option-cases,
  Bool-cases, inl, inr,
}
use authsvc.Prelude.Lists.{All}
use authsvc.Schema.{Database, Session}
use authsvc.Exec.{Env, World, Result, ok, err, failed, ◌>>=◌}
use authsvc.Table.{update, insert}
use authsvc.Table.Laws.{insert-fresh}
use authsvc.Sessions.{
  SessionMeta, IssuedSession, refresh_ttl, conflicts, references, insert_row, insert_session,
  has_family, has_id, revoke, spend,
}

abbrev pub add_session : Session → Database → Database
add_session s d = record d { sessions = d.sessions ++ s ∷ [] }

pub record Inserted (s : Session) (d d' : Database) : Type 0 where
  pub added : d' ≡ add_session s d
  pub fresh : All (λ old. conflicts s old ≡ false) d.sessions
  pub refers : references d s ≡ true

insert_row-Inserted : (s : Session) (d d' : Database) → insert_row s d ≡ some d' → Inserted s d d'
unfolding insert_row
insert_row-Inserted s d d' e = elim (Bool-cases (references d s)) [
  | inl refs ↦ elim (Option-cases (insert (conflicts s) s d.sessions)) [
    | inl clash ↦ cc (rw (refs, clash) at e)
    | inr (rows, new) ↦
        let (rows_eq, fresh) = insert-fresh (conflicts s) s d.sessions new in
        record { added = cc (rows_eq, rw (refs, new) at e); fresh = fresh; refers = refs }
  ]
  | inr dangling ↦ cc (rw dangling at e)
]

abbrev pub spend_row : String → ℕ → Database → Database
spend_row id t d = record d { sessions = update (has_id id) (spend t) d.sessions }

abbrev pub revoke_rows : String → ℕ → Database → Database
revoke_rows family_id t d = record d {
  sessions = update (has_family family_id) (revoke t) d.sessions;
}

-- the row that is inserted with the k-th event's secret
abbrev pub new_session :
    Env → ℕ → String → String → String → String → Option String → SessionMeta → Session
new_session env k id user_id client_id family_id parent_id m = record {
  id = id;
  user_id = user_id;
  client_id = client_id;
  family_id = family_id;
  parent_id = parent_id;
  token_hash = env.sha256 (env.secret k);
  issued_at = env.time (suc k);
  expires_at = env.time (suc k) + refresh_ttl;
  used_at = none;
  revoked_at = none;
  user_agent = m.user_agent;
  ip = m.ip;
}

pub data Issue (env : Env) (m : SessionMeta) (id user_id client_id family_id : String)
    (parent_id : Option String) (w : World) (r : Result IssuedSession) (w' : World) : Type 0 where
  refused :
      r ≡ err failed → w'.db ≡ w.db → Issue env m id user_id client_id family_id parent_id w r w'
  issued :
      (s : Session)
      → s ≡ new_session env w.tick id user_id client_id family_id parent_id m
      → r ≡ ok (record { session = s; refresh_token = env.secret w.tick })
      → Inserted s w.db w'.db
      → Issue env m id user_id client_id family_id parent_id w r w'

module _ (env : Env) (m : SessionMeta) where
  pub insert_session-Issue :
      (id user_id client_id family_id : String) (parent_id : Option String) (w : World)
      → Issue env m id user_id client_id family_id parent_id w
          (insert_session env id user_id client_id family_id parent_id m w).0
          (insert_session env id user_id client_id family_id parent_id m w).1
  unfolding insert_session ◌>>=◌
  insert_session-Issue id user_id client_id family_id parent_id w =
      elim (Bool-cases (env.fails w.tick)) [
        | inl e ↦ rw e (refused refl refl)
        | inr e ↦ rw e (elim (Bool-cases (env.fails (suc (suc w.tick)))) [
          | inl e' ↦ rw e' (refused refl refl)
          | inr e' ↦ rw e' (elim (Option-cases (insert_row s w.db)) [
            | inl clash ↦ rw clash (refused refl refl)
            | inr (d, new) ↦ rw new (issued s refl refl (insert_row-Inserted s w.db d new))
          ])
        ])
      ]
    where
      s : Session
      s = new_session env w.tick id user_id client_id family_id parent_id m
